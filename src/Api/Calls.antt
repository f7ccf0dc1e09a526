-- ===== src/Api/Calls.antt =====
-- What a request for a change asks of the store, and what it is refused for (internal/api/access.go).
use devops_tools.Prelude.{
  byte_length, Bool, Text, text, ◌≡◌, refl, true, false, Option, none, some, List, [], ◌++◌, ◌∷◌,
  ltb, map,
}
use devops_tools.Config.Roles.{RoleSpec, RoleError, validate}
use devops_tools.Store.Model.{
  Error, validate_username, not_found, already_exists, not_managed, invalid_username, conflict,
  not_exist, unreadable, newer_format, no_users,
}
use devops_tools.Store.Users.{normalise_roles}
use devops_tools.Store.Roles.{Membership}
use devops_tools.Store.Mutate.{Json, Backend, Outcome}
use devops_tools.Store.Operations.{
  create_local_user, invite, set_password, set_roles, delete_user, save_role, delete_role,
  change_role_membership,
}
use devops_tools.Auth.Service.{Account}
use devops_tools.Api.{
  Settings, Server, Reply, access_entry, write_store_error, check_roles_exist, succeeded,
  min_password_length, arrow, join_or_none,
}
use devops_tools.Api.Accounts.{Hasher, CreateUserRequest, InviteRequest, is_local, is_own}
use devops_tools.Api.RoleChanges.{MembershipRequest, membership_verb, is_nil}
use devops_tools.Api.Routes.{
  Change, post_user, post_invite, put_user_roles, put_user_password, remove_user, put_role,
  remove_role, post_role_members,
}

-- Whether the reply tells of an error.
abbrev pub IsError : Reply → Type 0
IsError r = ltb r.status 400 ≡ false

pub write_store_error-status : (e : Error) → IsError (write_store_error e)
unfolding write_store_error
write_store_error-status not_found = refl
write_store_error-status already_exists = refl
write_store_error-status not_managed = refl
write_store_error-status invalid_username = refl
write_store_error-status conflict = refl
write_store_error-status not_exist = refl
write_store_error-status unreadable = refl
write_store_error-status newer_format = refl
write_store_error-status no_users = refl
write_store_error-status (Error.other t) = refl

-- Whether the body could be decoded, where the request has one.
unfoldable pub is_readable : Change → Bool
is_readable (post_user none) = false
is_readable (post_invite none) = false
is_readable (put_user_roles _ none) = false
is_readable (put_user_password _ none) = false
is_readable (put_role _ none) = false
is_readable (post_role_members _ none) = false
is_readable _ = true

-- The password and the roles that a request brings for an account.
unfoldable pub password_of : Change → Option Text
password_of (post_user (some body)) = some body.password
password_of (put_user_password _ password) = password
password_of _ = none

unfoldable pub roles_of : Change → List Text
roles_of (post_user (some body)) = body.roles
roles_of (post_invite (some body)) = normalise_roles body.roles
roles_of (put_user_roles _ (some roles)) = normalise_roles roles
roles_of _ = []

-- How a call of the store ended, without what it returned.
abbrev pub end_of : {A W : Type 0} → Outcome A W → Outcome Unit W
end_of o = record { error = o.error; out = tt; store = o.store; world = o.world }

module _ (cfg : Settings) (hasher : Hasher) {W : Type 0} (actor : Option Account)
    (st : Server W) where
  -- Why a request is refused before the store is called.
  pub data Refused : Change → Type 0 where
    malformed_body : {change : Change} → is_readable change ≡ false → Refused change
    elsewhere :
        (body : Option CreateUserRequest) → is_local cfg.kind ≡ false → Refused (post_user body)
    short_password :
        {change : Change} (password : Text)
        → password_of change ≡ some password
        → ltb (byte_length password) min_password_length ≡ true
        → Refused change
    not_hashed :
        {change : Change} (password : Text)
        → password_of change ≡ some password
        → hasher password ≡ none
        → Refused change
    unknown_role :
        {change : Change} (role : Text)
        → check_roles_exist st.store (roles_of change) ≡ some role
        → Refused change
    bad_username :
        (body : InviteRequest) (e : Error)
        → validate_username body.username ≡ some e
        → Refused (post_invite (some body))
    without_roles :
        (body : InviteRequest) → normalise_roles body.roles ≡ [] → Refused (post_invite (some body))
    own_account : (username : Text) → is_own actor username ≡ true → Refused (remove_user username)
    invalid_role :
        (name : Text) (spec : RoleSpec) (e : RoleError)
        → validate (record { operations = cfg.operations; roles = (name, spec) ∷ [] }) ≡ some e
        → Refused (put_role name (some spec))
    nobody_named :
        (role : Text) (body : MembershipRequest)
        → is_nil body.users ≡ true
        → Refused (post_role_members role (some body))

  module _ (json : Json) (backend : Backend W) where
    -- The operation and the target that stand for a request, and the end of the call of the store that
    -- carries it out.
    pub data Call : Change → Text → Text → Outcome Unit W → Type 0 where
      user_create :
          (body : CreateUserRequest) (hash : Text)
          → hasher body.password ≡ some hash
          → Call (post_user (some body)) (text "user-create") body.username (
              create_local_user json backend body.username body.email hash
                (normalise_roles body.roles)
                st.store
                st.world)
      user_invite :
          (body : InviteRequest)
          → Call
              (post_invite (some body))
              (text "user-invite")
              (arrow body.username (join_or_none (normalise_roles body.roles)))
              (invite json backend body.username body.email
                (normalise_roles body.roles)
                st.store
                st.world)
      user_roles :
          (username : Text) (roles : List Text)
          → Call
              (put_user_roles username (some roles))
              (text "user-roles")
              (arrow username (join_or_none (normalise_roles roles)))
              (set_roles json backend username (normalise_roles roles) st.store st.world)
      user_password :
          (username password hash : Text)
          → hasher password ≡ some hash
          → Call
              (put_user_password username (some password))
              (text "user-password")
              username
              (set_password json backend username hash st.store st.world)
      user_delete :
          (username : Text)
          → Call
              (remove_user username)
              (text "user-delete")
              username
              (delete_user json backend username st.store st.world)
      role_save :
          (name : Text) (spec : RoleSpec)
          → Call
              (put_role name (some spec))
              (text "role-save")
              name
              (end_of (save_role json backend name spec st.store st.world))
      role_delete :
          (name : Text)
          → Call
              (remove_role name)
              (text "role-delete")
              name
              (end_of (delete_role json backend name st.store st.world))

    -- The call that moves the users of a request into a role or out of it.
    abbrev pub membership : Text → MembershipRequest → Outcome Membership W
    membership role body =
        change_role_membership json backend role body.users body.add st.store st.world

    -- What a handler may do: refuse without having touched anything; call the store for what was asked
    -- and record the call with its success; move a role and record each user who changed; or fail to
    -- move it.
    pub data Recorded (change : Change) (r : Reply × Server W) : Type 0 where
      untouched : Refused change → IsError r.0 → r.1 ≡ st → Recorded change r
      entered :
          (operation target : Text) (o : Outcome Unit W)
          → Call change operation target o
          → r.1.trail ≡ st.trail ++ access_entry cfg actor operation target o.error ∷ []
          → r.1.store ≡ o.store
          → r.1.world ≡ o.world
          → ltb r.0.status 400 ≡ succeeded o.error
          → Recorded change r
      members :
          (role : Text) (body : MembershipRequest)
          → change ≡ post_role_members role (some body)
          → (membership role body).error ≡ none
          → r.1.trail
            ≡ st.trail
              ++ map
                  (λ name. access_entry cfg actor (membership_verb body.add) (arrow name role) none)
                  (membership role body).out.changed
          → r.1.store ≡ (membership role body).store
          → r.1.world ≡ (membership role body).world
          → ltb r.0.status 400 ≡ true
          → Recorded change r
      unrecorded :
          (role : Text) (body : MembershipRequest) (e : Error)
          → change ≡ post_role_members role (some body)
          → (membership role body).error ≡ some e
          → r.1.trail ≡ st.trail
          → r.1.store ≡ (membership role body).store
          → r.1.world ≡ (membership role body).world
          → IsError r.0
          → Recorded change r
