-- ===== src/Api/Routes.antt =====
-- internal/api/server.go: the guards of the endpoints, and the routes to the handlers that change
-- who may do what; internal/api/users.go: the list of users.
use devops_tools.Prelude.{
  Text, text, Bool, false, not, Option, none, some, List, [], ◌∷◌, ◌++◌, map, if◌then◌else◌,
}
use devops_tools.Config.Operations.{op_user_manage}
use devops_tools.Config.Roles.{RoleSpec}
use devops_tools.Rbac.{allowed, allowed_global}
use devops_tools.Store.Model.{Time, User, list_users, invited}
use devops_tools.Store.Mutate.{Json, Backend}
use devops_tools.Auth.Service.{Account, grants}
use devops_tools.Api.{Settings, Server, Entry, Reply, refused}
use devops_tools.Api.Accounts.{
  CreateUserRequest, InviteRequest, Hasher, handle_create_user, handle_invite, handle_set_password,
  handle_set_roles, handle_delete_user,
}
use devops_tools.Api.RoleChanges.{
  MembershipRequest, handle_save_role, handle_role_membership, handle_delete_role,
}

-- A row of the list of users.
pub record UserView : Type 0 where
  pub username : Text
  pub email : Text
  pub provider : Text
  pub groups : List Text
  pub roles : List Text
  pub first_seen : Time
  pub last_seen : Time
  pub bootstrap : Bool
  pub managed : Bool
  pub invited : Bool

unfoldable pub user_view : Settings → User → UserView
user_view cfg u = record {
  username = u.username;
  email = u.email;
  provider = u.provider;
  groups = u.groups;
  roles = u.roles;
  first_seen = u.first_seen;
  last_seen = u.last_seen;
  bootstrap = grants cfg.bootstrap u.username;
  managed = u.managed;
  invited = invited u;
}

unfoldable pub handle_users : {W : Type 0} → Settings → Server W → List UserView
handle_users cfg st = map (user_view cfg) (list_users st.store.model)

abbrev pub unauthenticated : Reply
unauthenticated = record { status = 401; body = refused (text "unauthenticated") }

abbrev pub forbidden : Reply
forbidden = record { status = 403; body = refused (text "forbidden") }

unfoldable pub denial : Settings → Account → Text → Text → Entry
denial cfg u namespace op = record {
  user = u.username;
  environment = cfg.environment;
  namespace = namespace;
  operation = op;
  target = [];
  allowed = false;
  success = false;
  error = none;
}

module _ {W : Type 0} (cfg : Settings) where
  abbrev pub record_denial : Account → Text → Text → Server W → Server W
  record_denial u namespace op st = record st { trail = st.trail ++ denial cfg u namespace op ∷ [] }

  unfoldable pub require_op :
      Text
      → (Option Account → Text → Server W → Reply × Server W)
      → Option Account
      → Text
      → Server W
      → Reply × Server W
  require_op op handler none namespace st = (unauthenticated, st)
  require_op op handler (some u) namespace st =
      if not (allowed st.authz u.roles namespace op)
      then (forbidden, record_denial u namespace op st)
      else handler (some u) namespace st

  unfoldable pub require_global_op :
      Text
      → (Option Account → Server W → Reply × Server W)
      → Option Account
      → Server W
      → Reply × Server W
  require_global_op op handler none st = (unauthenticated, st)
  require_global_op op handler (some u) st =
      if not (allowed_global st.authz u.roles op)
      then (forbidden, record_denial u (text "-") op st)
      else handler (some u) st

-- The requests that change who may do what: the parameter of the path, then the decoded body.
pub data Change : Type 0 where
  post_user : Option CreateUserRequest → Change
  post_invite : Option InviteRequest → Change
  put_user_roles : Text → Option (List Text) → Change
  put_user_password : Text → Option Text → Change
  remove_user : Text → Change
  put_role : Text → Option RoleSpec → Change
  remove_role : Text → Change
  post_role_members : Text → Option MembershipRequest → Change

module _ (json : Json) {W : Type 0} (backend : Backend W) (cfg : Settings) (hasher : Hasher) where
  unfoldable pub handler_of : Change → Option Account → Server W → Reply × Server W
  handler_of (post_user body) actor = handle_create_user json backend cfg actor hasher body
  handler_of (post_invite body) actor = handle_invite json backend cfg actor body
  handler_of (put_user_roles name body) actor = handle_set_roles json backend cfg actor name body
  handler_of (put_user_password name body) actor =
      handle_set_password json backend cfg actor hasher name body
  handler_of (remove_user name) actor = handle_delete_user json backend cfg actor name
  handler_of (put_role name body) actor = handle_save_role json backend cfg actor name body
  handler_of (remove_role name) actor = handle_delete_role json backend cfg actor name
  handler_of (post_role_members name body) actor =
      handle_role_membership json backend cfg actor name body

  unfoldable pub serve : Change → Option Account → Server W → Reply × Server W
  serve change = require_global_op cfg op_user_manage (handler_of change)
