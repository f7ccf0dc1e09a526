-- ===== src/Api.antt =====
-- internal/api/access.go: the state that the handlers of access management share, their replies,
-- and the entries that they leave in the audit trail (internal/audit/audit.go).
pub mod Accounts
pub mod RoleChanges
pub mod Suggestions
pub mod Routes
pub mod Calls
pub mod Entries
pub mod Recording
pub mod Granting
pub mod Installing
pub mod Failures
use devops_tools.Prelude.{
  ℕ, ◌+◌, Text, text, Bool, true, false, Option, none, some, List, [], ◌∷◌, ◌++◌,
}
use devops_tools.Prelude.{ltb, if◌then◌else◌}
use devops_tools.Config.Roles.{RoleError}
use devops_tools.Store.Model.{Error, not_found, already_exists, not_managed}
use devops_tools.Store.Roles.{role_exists, Membership}
use devops_tools.Store.Mutate.{Store, Outcome}
use devops_tools.Auth.Service.{Account, BootstrapConfig, Kind}
use devops_tools.Rbac.{Authorizer}

-- What the server was started with.
pub record Settings : Type 0 where
  pub environment : Text
  pub kind : Kind
  pub bootstrap : BootstrapConfig
  pub operations : List Text

-- An entry of the audit trail; the time is that of the call. The message of an error is the error.
pub record Entry : Type 0 where
  pub user : Text
  pub environment : Text
  pub namespace : Text
  pub operation : Text
  pub target : Text
  pub allowed : Bool
  pub success : Bool
  pub error : Option Error

-- The authorizer, the store of this replica, the world of its backend, and the trail so far.
pub record Server (W : Type 0) : Type 0 where
  pub authz : Authorizer
  pub store : Store
  pub world : W
  pub trail : List Entry

-- The bodies of the replies: a status, an error with what it names, or the outcome of a change.
pub data Body : Type 0 where
  done : Text → Body
  refused : Text → Body
  no_such_role : Text → Body
  bad_role : RoleError → Body
  failed : Error → Body
  deleted : List Text → Body
  moved : Membership → List Text → Body

pub record Reply : Type 0 where
  pub status : ℕ
  pub body : Body

abbrev pub status_ok : ℕ
status_ok = 200

abbrev pub status_created : ℕ
status_created = 201

abbrev pub status_bad_request : ℕ
status_bad_request = 400

abbrev pub status_conflict : ℕ
status_conflict = 409

abbrev pub min_password_length : ℕ
min_password_length = 8

unfoldable pub write_store_error : Error → Reply
write_store_error not_found = record { status = 404; body = failed not_found }
write_store_error already_exists = record { status = status_conflict; body = failed already_exists }
write_store_error not_managed = record { status = status_conflict; body = failed not_managed }
write_store_error e = record { status = status_bad_request; body = failed e }

abbrev pub bad_request : Body → Reply
bad_request body = record { status = status_bad_request; body = body }

abbrev pub malformed : Reply
malformed = bad_request (refused (text "malformed request body"))

unfoldable pub succeeded : Option Error → Bool
succeeded none = true
succeeded (some _) = false

-- The name of whoever is signed in, if the request carries one.
unfoldable pub actor_name : Option Account → Text
actor_name none = []
actor_name (some u) = u.username

unfoldable pub access_entry : Settings → Option Account → Text → Text → Option Error → Entry
access_entry cfg actor operation target error = record {
  user = actor_name actor;
  environment = cfg.environment;
  namespace = text "-";
  operation = operation;
  target = target;
  allowed = true;
  success = succeeded error;
  error = error;
}

unfoldable pub join_rest : List Text → Text
join_rest [] = []
join_rest (r ∷ rs) = text ", " ++ r ++ join_rest rs

unfoldable pub join_or_none : List Text → Text
join_or_none [] = text "(no roles)"
join_or_none (r ∷ rs) = r ++ join_rest rs

abbrev pub arrow : Text → Text → Text
arrow left right = left ++ text " -> " ++ right

-- The first of the roles that the store does not have.
unfoldable pub check_roles_exist : Store → List Text → Option Text
check_roles_exist s [] = none
check_roles_exist s (r ∷ rs) =
    let rest = check_roles_exist s rs in if role_exists s.model r then rest else some r

module _ {W : Type 0} (cfg : Settings) (actor : Option Account) where
  unfoldable pub log_access_change : Text → Text → Option Error → Server W → Server W
  log_access_change operation target error st = record st {
    trail = st.trail ++ access_entry cfg actor operation target error ∷ [];
  }

  -- The server after a call of the store.
  unfoldable pub after_call : {A : Type 0} → Outcome A W → Server W → Server W
  after_call o st = record st { store = o.store; world = o.world }

  -- What follows a call of the store that changes an account: the entry, then the reply.
  unfoldable pub conclude : Text → Text → Reply → Outcome Unit W → Server W → Reply × Server W
  conclude operation target ok o st =
      let st' = log_access_change operation target o.error (after_call o st) in
      elim o.error [ none ↦ (ok, st') | some e ↦ (write_store_error e, st') ]
