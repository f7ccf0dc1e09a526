-- ===== src/Tests/Changes.antt =====
-- Changing who may do what through the API, at small inputs (internal/api).
use devops_tools.Prelude.{
  byte_length, utf8_width, Text, text, ◌≡◌, refl, true, false, some, List, [], ◌∷◌, lookup, insert,
  erase, has_key, text_dec, ℕ_discrete, contains, any, filter, equal_fold, trim_space, trim_left,
  trim_right, to_lower, lower, is_space, dedup, sort_by, place, text_leb, all, has_prefix, ◌&&◌,
}
use devops_tools.Config.Operations.{all_operations, namespace_operations}
use devops_tools.Config.Operations.{global_operations, config_operations}
use devops_tools.Config.Roles.{
  RoleSpec, validate, first_error, or_else, is_known, check_operation, check_config_grant,
  check_namespace_grant, check_role,
}
use devops_tools.Config.Validation.{WellFormed}
use devops_tools.Rbac.{
  allowed, allowed_global, allowed_config, any_role, has_op, namespace_grant_allows,
  config_path_covers, replace, new, trim_slashes,
}
use devops_tools.Store.Model
use devops_tools.Store.Model.{
  User, Model, Error, key, get, known, local_credential, validate_username, matches_pattern,
  is_alnum, is_name_char, not_found,
}
use devops_tools.Store.Users
use devops_tools.Store.Users.{normalise_roles, normalise_from}
use devops_tools.Store.Roles
use devops_tools.Store.Roles.{
  change_each, change_one, move_role, same_bool, access_model, holders, role_exists, copy_roles,
}
use devops_tools.Store.Codec.{
  encode_file, set, load_users, load_user, expand_groups, expand_ids, group_at, store_user,
  index_table, index_of, group_table, all_groups, is_newer,
}
use devops_tools.Store.Mutate.{
  mutate, encode, apply, attempt, round, settle, written, persist, persisted, retry, reload,
  reloaded, is_conflict, give_up,
}
use devops_tools.Store.Operations
use devops_tools.Store.Operations.{checked, follow}
use devops_tools.Auth.Service.{Account, local, grants}
use devops_tools.Api.{
  Settings, Server, Reply, write_store_error, succeeded, actor_name, access_entry, join_rest,
  join_or_none, check_roles_exist, log_access_change, after_call, conclude,
}
use devops_tools.Api.Accounts.{
  Hasher, handle_set_password, handle_set_roles, handle_delete_user, is_own, same_name,
  when_long_enough, when_roles_exist, when_hashed, set_roles_to,
}
use devops_tools.Api.RoleChanges.{
  handle_save_role, handle_role_membership, install, log_each, membership_verb, still_granted,
  is_nil, saved_role, moved_role,
}
use devops_tools.Api.Routes.{Change, put_user_roles, put_role, require_global_op, handler_of, serve}
use devops_tools.Api.Calls.{IsError}
use devops_tools.Api.Installing.{InForce, is_role_change, serve-InForce, allowed-handle_save_role}
use devops_tools.Api.Failures.{handle_role_membership_unrecorded, handle_set_roles_stale}
use devops_tools.Api.Suggestions.{
  config_path_suggestions, folders_of, folders_of_all, split_path, join_path, leading, add_to_first,
}
use devops_tools.ConfigSource.Sources.{Entry}
use devops_tools.Tests.World as Worlds
use devops_tools.Tests.World.{
  alice, bob, team, server, refusing, json, current, behind, stored, viewer, operator, two_users,
}

program : Unit {0}
unfolding lookup insert erase has_key text_dec ℕ_discrete contains any filter equal_fold trim_space
    trim_left trim_right to_lower lower is_space dedup sort_by place text_leb all has_prefix
    all_operations namespace_operations global_operations config_operations validate first_error
    or_else is_known check_operation check_config_grant check_namespace_grant check_role allowed
    allowed_global allowed_config any_role has_op namespace_grant_allows config_path_covers replace
    new trim_slashes key get known local_credential validate_username matches_pattern is_alnum
    is_name_char normalise_roles normalise_from change_each change_one move_role same_bool
    access_model role_exists encode_file set load_users load_user expand_groups expand_ids group_at
    store_user index_table index_of group_table all_groups is_newer mutate encode apply attempt
    round settle written persist persisted retry reload reloaded is_conflict give_up Users.set_roles
    Users.delete_user Users.set_password Roles.save_role Roles.change_role_membership
    Operations.set_roles Operations.delete_user Operations.set_password Operations.save_role
    Operations.change_role_membership checked follow grants write_store_error succeeded actor_name
    access_entry join_rest join_or_none check_roles_exist log_access_change after_call conclude
    byte_length utf8_width handle_set_password handle_set_roles handle_delete_user is_own same_name
    when_long_enough when_roles_exist when_hashed set_roles_to handle_save_role
    handle_role_membership install log_each membership_verb still_granted is_nil saved_role
    moved_role require_global_op handler_of serve is_role_change config_path_suggestions folders_of
    folders_of_all split_path join_path leading add_to_first Model.roles_for
program = tt

abbrev settings : Settings
settings = record {
  environment = text "test";
  kind = local;
  bootstrap = record {
    users = [];
    roles = [];
    password_login = record { username = []; password_hash = [] };
  };
  operations = text "status" ∷ [];
}

-- An administrator, whose role permits everything.
abbrev admin : Account
admin = record { username = text "Root"; email = []; roles = text "operator" ∷ []; groups = [] }

abbrev api : Server Worlds.Server
api = record {
  authz = new (access_model team settings.operations);
  store = current;
  world = stored;
  trail = [];
}

abbrev hasher : Hasher
hasher password = some (b'#' ∷ password)

abbrev promote : Change
promote = put_user_roles (text "bob") (some (text "viewer" ∷ []))

abbrev reader : RoleSpec
reader = record {
  description = [];
  namespaces = (record { namespace = text "shop"; operations = text "status" ∷ [] }) ∷ [];
  global = [];
  configs = [];
}

abbrev save_viewer : Change
save_viewer = put_role (text "viewer") (some reader)

serve-InForce_example :
    InForce settings (serve json server settings hasher save_viewer (some admin) api).1
unfolding program
serve-InForce_example =
    serve-InForce json server settings hasher save_viewer (some admin) api refl refl

allowed-handle_save_role_example :
    let r = handle_save_role json server settings (some admin) (text "viewer") (some reader) api in
    WellFormed
      (record { operations = settings.operations; roles = (text "viewer", reader) ∷ [] })
      reader
    × ((where_ op : Text)
        → (allowed r.1.authz (text "viewer" ∷ []) where_ op
            ≡ any (namespace_grant_allows where_ op) reader.namespaces)
          × (allowed_global r.1.authz (text "viewer" ∷ []) op ≡ has_op reader.global op)
          × (allowed_config r.1.authz (text "viewer" ∷ []) where_ op
              ≡ any
                  (λ g. config_path_covers g.path where_ && has_op g.operations op)
                  reader.configs))
unfolding program
allowed-handle_save_role_example =
    allowed-handle_save_role json server settings (some admin) api (text "viewer") reader refl

abbrev grant_bob : Reply × Server Worlds.Server
grant_bob =
    handle_role_membership json refusing settings (some admin) (text "operator")
      (some (record { users = text "bob" ∷ []; add = true })) api

handle_role_membership_unrecorded_example :
    IsError grant_bob.0
    × (grant_bob.1.trail ≡ [])
    × (contains (Model.roles_for grant_bob.1.store.model (text "bob")) (text "operator") ≡ true)
unfolding program
handle_role_membership_unrecorded_example =
    handle_role_membership_unrecorded json refusing settings (some admin) api (text "operator")
      (text "bob") bob (Error.other (text "forbidden")) stored refl refl refl refl refl

-- A replica that still has a user whom the stored document no longer has.
abbrev stale : Server Worlds.Server
stale = record api {
  store = record behind { model = record team { users = (text "carol", bob) ∷ two_users } };
}

handle_set_roles_stale_example :
    let r =
      handle_set_roles json server settings
        (some admin)
        (text "carol")
        (some (text "viewer" ∷ []))
        stale in
    (r.0 ≡ write_store_error not_found)
    × ((m : Model) → r.1.store.model.roles ≡ (set Worlds.known_document m).roles)
    × (r.1.authz ≡ stale.authz)
    × (follow json (2 ∷ 0 ∷ []) (Worlds.version_of (2 ∷ 0 ∷ [])) r.1.store ≡ (false, r.1.store))
unfolding program
handle_set_roles_stale_example =
    handle_set_roles_stale json server settings (some admin) stale (text "carol") (2 ∷ 0 ∷ [])
      (Worlds.version_of (2 ∷ 0 ∷ [])) (text "viewer" ∷ []) bob Worlds.known_document Error.conflict
      (some (2 ∷ 0 ∷ []), 1) (some (2 ∷ 0 ∷ []), 1) refl refl refl refl refl refl refl (λ m. refl)

abbrev entries : List Entry
entries =
    (record { path = text "apps/shop/web"; version = [] })
    ∷ (record { path = text "apps"; version = [] })
    ∷ []

-- The folders come first, each once.
suggestions_in_order :
    config_path_suggestions entries
    ≡ text "apps" ∷ text "apps/shop" ∷ text "apps/shop/web" ∷ text "apps" ∷ []
unfolding program
suggestions_in_order = refl
