-- ===== src/Api/Recording.antt =====
-- What a change to the access model leaves in the audit trail (internal/api/access.go).
use devops_tools.Prelude.{text, ◌≡◌, true, false, Option, none, some}
use devops_tools.Config.Operations.{op_user_manage}
use devops_tools.Rbac.{allowed_global}
use devops_tools.Store.Mutate.{Json, Backend}
use devops_tools.Auth.Service.{Account}
use devops_tools.Api.{Settings, Server, Reply}
use devops_tools.Api.Accounts.{Hasher}
use devops_tools.Api.Routes.{Change, unauthenticated, forbidden, record_denial}
use devops_tools.Api.Calls.{Recorded}
use devops_tools.Api.Entries.{Kept}

module _ (cfg : Settings) (hasher : Hasher) {W : Type 0} (actor : Option Account) (st : Server W)
    (json : Json) (backend : Backend W) where
  abbrev Accountable : Change → Reply × Server W → Type 0
  Accountable = Kept cfg hasher actor st json backend

-- How a request for a change ends: without anybody signed in, or recorded as a denial, with
-- nothing changed; or, where the model of the authorizer lets the caller manage users, as its
-- handler records it.
pub data Accounted (json : Json) {W : Type 0} (backend : Backend W) (cfg : Settings)
    (hasher : Hasher) (change : Change) (st : Server W)
    : Option Account → Reply × Server W → Type 0 where
  anonymous :
      {r : Reply × Server W}
      → r ≡ (unauthenticated, st)
      → Accounted json backend cfg hasher change st none r
  denied :
      {u : Account} {r : Reply × Server W}
      → allowed_global st.authz u.roles op_user_manage ≡ false
      → r ≡ (forbidden, record_denial cfg u (text "-") op_user_manage st)
      → Accounted json backend cfg hasher change st (some u) r
  permitted :
      {u : Account} {r : Reply × Server W}
      → allowed_global st.authz u.roles op_user_manage ≡ true
      → Recorded cfg hasher (some u) st json backend change r
      → Accounted json backend cfg hasher change st (some u) r
