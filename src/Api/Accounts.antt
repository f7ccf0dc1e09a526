-- ===== src/Api/Accounts.antt =====
-- internal/api/access.go: the handlers that change accounts. Hashing a password with bcrypt and
-- decoding the body are parameters: a body that could not be decoded is `none`.
use devops_tools.Prelude.{
  byte_length, Text, text, Bool, true, false, not, Option, none, some, List, [], ◌∷◌, ltb,
  if◌then◌else◌, equal_fold, trim_space,
}
use devops_tools.Store.Model.{validate_username}
use devops_tools.Store.Users.{normalise_roles}
use devops_tools.Store.Mutate.{Json, Backend}
use devops_tools.Store.Operations.{create_local_user, invite, set_password, set_roles, delete_user}
use devops_tools.Auth.Service.{Account, Kind, local}
use devops_tools.Api.{
  Settings, Server, Reply, done, refused, no_such_role, failed, status_ok, status_created,
  status_conflict, min_password_length, bad_request, malformed,
}
use devops_tools.Api.{join_or_none, arrow, check_roles_exist, conclude}

pub record CreateUserRequest : Type 0 where
  pub username : Text
  pub email : Text
  pub password : Text
  pub roles : List Text

pub record InviteRequest : Type 0 where
  pub username : Text
  pub email : Text
  pub roles : List Text

-- bcrypt.GenerateFromPassword at the default cost; `none` is its error.
abbrev pub Hasher : Type 0
Hasher = Text → Option Text

unfoldable pub is_local : Kind → Bool
is_local local = true
is_local _ = false

-- equalFold of users.go
unfoldable pub same_name : Text → Text → Bool
same_name a b = equal_fold (trim_space a) (trim_space b)

unfoldable pub is_own : Option Account → Text → Bool
is_own none username = false
is_own (some u) username = same_name u.username username

abbrev pub too_short : Reply
too_short = bad_request (refused (text "the password is too short"))

abbrev pub not_hashed : Reply
not_hashed = record { status = 500; body = refused (text "could not hash the password") }

-- {"status": …} with the status of a success.
abbrev pub updated : Reply
updated = record { status = status_ok; body = done (text "updated") }

abbrev pub removed : Reply
removed = record { status = status_ok; body = done (text "deleted") }

module _ {W : Type 0} (st : Server W) where
  -- The checks of the handlers: each refuses, or goes on.
  unfoldable pub when_long_enough : Text → Reply × Server W → Reply × Server W
  when_long_enough password next =
      if ltb (byte_length password) min_password_length then (too_short, st) else next

  unfoldable pub when_roles_exist : List Text → Reply × Server W → Reply × Server W
  when_roles_exist roles next = elim (check_roles_exist st.store roles) [
    | some r ↦ (bad_request (no_such_role r), st)
    | none ↦ next
  ]

  unfoldable pub when_hashed : Hasher → Text → (Text → Reply × Server W) → Reply × Server W
  when_hashed hasher password next = elim (hasher password) [
    | none ↦ (not_hashed, st)
    | some hash ↦ next hash
  ]

  unfoldable pub when_some_role : List Text → Reply × Server W → Reply × Server W
  when_some_role [] next = (
    bad_request
        (refused (text "an invitation with no roles would grant nothing when it is claimed")),
    st,
  )
  when_some_role (_ ∷ _) next = next

module _ (json : Json) {W : Type 0} (backend : Backend W) (cfg : Settings)
    (actor : Option Account) where
  unfoldable pub create_account : Hasher → CreateUserRequest → Server W → Reply × Server W
  create_account hasher body st = when_long_enough st body.password (
      when_roles_exist st body.roles (
        when_hashed st hasher body.password (λ hash.
          conclude cfg actor (text "user-create") body.username
            (record { status = status_created; body = done (text "created") })
            (create_local_user json backend body.username body.email hash
              (normalise_roles body.roles) st.store st.world)
            st)))

  unfoldable pub handle_create_user :
      Hasher → Option CreateUserRequest → Server W → Reply × Server W
  handle_create_user hasher request st =
      if not (is_local cfg.kind)
      then (
        record {
          status = status_conflict;
          body = refused (
              text
                "accounts are created in your identity provider, not here; people appear in this list once they have signed in");
        },
        st,
      )
      else elim request [ none ↦ (malformed, st) | some body ↦ create_account hasher body st ]

  unfoldable pub invite_with : InviteRequest → List Text → Server W → Reply × Server W
  invite_with body roles st = when_some_role st roles (
      when_roles_exist st roles (
        conclude cfg actor (text "user-invite") (arrow body.username (join_or_none roles))
          (record { status = status_created; body = done (text "invited") })
          (invite json backend body.username body.email roles st.store st.world) st))

  unfoldable pub handle_invite : Option InviteRequest → Server W → Reply × Server W
  handle_invite none st = (malformed, st)
  handle_invite (some body) st = elim (validate_username body.username) [
    | some e ↦ (bad_request (failed e), st)
    | none ↦ invite_with body (normalise_roles body.roles) st
  ]

  -- The request carries the password.
  unfoldable pub handle_set_password : Hasher → Text → Option Text → Server W → Reply × Server W
  handle_set_password hasher username none st = (malformed, st)
  handle_set_password hasher username (some password) st = when_long_enough st password (
      when_hashed st hasher password (λ hash.
        conclude cfg actor (text "user-password") username updated
          (set_password json backend username hash st.store st.world) st))

  unfoldable pub set_roles_to : Text → List Text → Server W → Reply × Server W
  set_roles_to username roles st = when_roles_exist st roles (
      conclude cfg actor (text "user-roles") (arrow username (join_or_none roles)) updated
        (set_roles json backend username roles st.store st.world) st)

  -- The request carries the roles.
  unfoldable pub handle_set_roles : Text → Option (List Text) → Server W → Reply × Server W
  handle_set_roles username none st = (malformed, st)
  handle_set_roles username (some given) st = set_roles_to username (normalise_roles given) st

  unfoldable pub handle_delete_user : Text → Server W → Reply × Server W
  handle_delete_user username st =
      if is_own actor username
      then (
        record {
          status = status_conflict;
          body = refused (text "you cannot delete the account you are signed in with");
        },
        st,
      )
      else conclude cfg actor (text "user-delete") username removed
          (delete_user json backend username st.store st.world) st
