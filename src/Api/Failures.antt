-- ===== src/Api/Failures.antt =====
-- What is left behind when a change to the access model fails (internal/api/access.go,
-- internal/store/store.go).
use devops_tools.Prelude.{
  Text, text, ◌≡◌, refl, arith, Bool, true, false, Option, none, some, List, [], ◌∷◌, contains, any,
  lookup, has_key, ap, ◌∙◌,
}
use devops_tools.Store.Model.{
  Time, Model, User, Error, key, get, roles_for, known, write, fail, not_found,
}
use devops_tools.Store.Users
use devops_tools.Store.Users.{normalise_roles}
use devops_tools.Store.Roles
use devops_tools.Store.Roles.{Membership, same_bool, nobody, change_one, change_each}
use devops_tools.Store.Roles.Members.{contains-change_role_membership}
use devops_tools.Store.Codec.{Document, set, is_newer}
use devops_tools.Store.Mutate.{
  Json, Backend, Store, Outcome, save_failed, loaded, encode, apply, is_conflict,
}
use devops_tools.Store.Mutate.Rounds.{changed}
use devops_tools.Store.Mutate.Effects.{mutate-failed_save, mutate-refused_again}
use devops_tools.Store.Operations.{change_role_membership, set_roles, follow}
use devops_tools.Auth.Service.{Account}
use devops_tools.Api.{
  Settings, Server, Reply, write_store_error, log_access_change, after_call, conclude,
  check_roles_exist, arrow, join_or_none,
}
use devops_tools.Api.Accounts.{updated, when_roles_exist, set_roles_to, handle_set_roles}
use devops_tools.Api.RoleChanges.{moved_role, handle_role_membership, is_nil}
use devops_tools.Api.Calls.{IsError, write_store_error-status}

-- A role that the user lacks is written for them.
grant_write :
    (role name : Text) (now : Time) (m : Model) (u : User)
    → has_key role m.roles ≡ true
    → get m name ≡ some u
    → contains u.roles role ≡ false
    → (Roles.change_role_membership role (name ∷ []) true now m).verdict ≡ write
unfolding get Roles.change_role_membership change_each change_one same_bool
grant_write role name now m u exists on_record lacks = ground arith

grant_holds :
    (role name : Text) (now : Time) (m : Model) (u : User)
    → has_key role m.roles ≡ true
    → get m name ≡ some u
    → contains
        (roles_for (Roles.change_role_membership role (name ∷ []) true now m).model name)
        role
      ≡ true
unfolding get known any has_key
grant_holds role name now m u exists on_record =
    contains-change_role_membership role true (name ∷ []) now m exists name role ∙ ground arith

set_roles_missing :
    (username : Text) (roles : List Text) (now : Time) (m : Model)
    → lookup (key username) m.users ≡ none
    → Users.set_roles username roles now m
      ≡ record { verdict = fail not_found; model = m; out = tt }
unfolding Users.set_roles
set_roles_missing username roles now m gone = rw (Users.set_roles, gone) refl

set_roles_write :
    (username : Text) (roles : List Text) (now : Time) (m : Model) (u : User)
    → get m username ≡ some u
    → (Users.set_roles username roles now m).verdict ≡ write
unfolding Users.set_roles get
set_roles_write username roles now m u on_record = ground arith

apply-read :
    (json : Json) (bytes version : Text) (f : Document) (s : Store)
    → json.unmarshal bytes ≡ some f
    → is_newer f.version ≡ false
    → apply json bytes version s ≡ (none, record s { model = set f s.model; version = version })
unfolding apply
apply-read json bytes version f s parsed current = ground arith

follow_own :
    (json : Json) (bytes version : Text) (s : Store)
    → s.version ≡ version
    → follow json bytes version s ≡ (false, s)
unfolding follow
follow_own json bytes version s h = ground arith

set-roles : (f : Document) (m m' : Model) → (set f m).roles ≡ (set f m').roles
unfolding set
set-roles f m m' = refl

module _ (json : Json) {W : Type 0} (backend : Backend W) (cfg : Settings) (actor : Option Account)
    (st : Server W) where
  moved_role-failed :
      (role : Text) (add : Bool) (o : Outcome Membership W) (e : Error)
      → o.error ≡ some e
      → let r = moved_role json backend cfg actor role add o st in
        IsError r.0 × (r.1.trail ≡ st.trail) × (r.1.store ≡ o.store)
  unfolding moved_role after_call
  moved_role-failed role add o e h = rw h (write_store_error-status e, refl, refl)

  conclude-failed :
      (operation target : Text) (ok : Reply) (o : Outcome Unit W) (e : Error)
      → o.error ≡ some e
      → let r = conclude cfg actor operation target ok o st in
        (r.0 ≡ write_store_error e) × (r.1.authz ≡ st.authz) × (r.1.store ≡ o.store)
  unfolding conclude after_call log_access_change
  conclude-failed operation target ok o e h = rw h (refl, refl, refl)

  abbrev grant_to : Text → Text → Reply × Server W
  grant_to role name =
      handle_role_membership json backend cfg actor role
        (some (record { users = name ∷ []; add = true })) st

  -- If the backend refuses to write a role that was granted to a user, for another reason than a
  -- conflict, the reply is an error and the audit trail has no entry of it, and yet the user holds
  -- the role from then on.
  pub handle_role_membership_unrecorded :
      (role name : Text) (u : User) (e : Error) (w' : W)
      → has_key role st.store.model.roles ≡ true
      → get st.store.model name ≡ some u
      → contains u.roles role ≡ false
      → backend.save
          (encode json
            (changed json backend
              (Roles.change_role_membership role (name ∷ []) true)
              st.store
              st.world).model)
          st.store.version
          st.world
        ≡ (save_failed e, w')
      → is_conflict e ≡ false
      → IsError (grant_to role name).0
        × ((grant_to role name).1.trail ≡ st.trail)
        × (contains (roles_for (grant_to role name).1.store.model name) role ≡ true)
  unfolding handle_role_membership is_nil change_role_membership
  handle_role_membership_unrecorded role name u e w' exists on_record lacks refused other =
      let now = backend.now st.world in
      let m = st.store.model in
      let o =
        mutate-failed_save json backend (Roles.change_role_membership role (name ∷ []) true)
          st.store st.world w' e (grant_write role name now m u exists on_record lacks) refused
          other in
      let (bad, trail, store) = moved_role-failed role true _ e (ap (λ x. x.error) o) in
      (bad, trail, rw (store, o) (grant_holds role name now m u exists on_record))

  -- A stale authorizer. A replica that is behind sets the roles of a user whom another replica has
  -- deleted, in a document that it has not read: it conflicts, reads that document and reports that
  -- there is no such user. Its store then has the roles of the document, the authorizer still the
  -- old ones, and the event that carries the document is taken for the replica's own write: nobody
  -- is told.
  pub handle_set_roles_stale :
      (username bytes version : Text) (given : List Text) (u : User) (f : Document) (e : Error)
      (w' w'' : W)
      → get st.store.model username ≡ some u
      → check_roles_exist st.store (normalise_roles given) ≡ none
      → backend.save
          (encode json
            (changed json backend
              (Users.set_roles username (normalise_roles given))
              st.store
              st.world).model)
          st.store.version
          st.world
        ≡ (save_failed e, w')
      → is_conflict e ≡ true
      → backend.load w' ≡ (loaded bytes version, w'')
      → json.unmarshal bytes ≡ some f
      → is_newer f.version ≡ false
      → ((m : Model) → lookup (key username) (set f m).users ≡ none)
      → let r = handle_set_roles json backend cfg actor username (some given) st in
        (r.0 ≡ write_store_error not_found)
        × ((m : Model) → r.1.store.model.roles ≡ (set f m).roles)
        × (r.1.authz ≡ st.authz)
        × (follow json bytes version r.1.store ≡ (false, r.1.store))
  unfolding handle_set_roles set_roles_to when_roles_exist set_roles
  handle_set_roles_stale username bytes version given u f e w' w'' on_record exist refused lost_
        read parsed current gone =
      let roles = normalise_roles given in
      let c = Users.set_roles username roles in
      let s1 = changed json backend c st.store st.world in
      let s' = record s1 { model = set f s1.model; version = version } in
      let missing = set_roles_missing username roles (backend.now w'') s'.model (gone s1.model) in
      let o =
        mutate-refused_again json backend c st.store s' st.world w' w'' e not_found bytes version
          (set_roles_write username roles (backend.now st.world) st.store.model u on_record) refused
          lost_ read (apply-read json bytes version f s1 parsed current)
          (ap (λ x. x.verdict) missing) in
      let (bad, authz, store) =
        conclude-failed (text "user-roles") (arrow username (join_or_none roles)) updated _
          not_found (ap (λ x. x.error) o) in
      rw (when_roles_exist, exist)
        (
          bad,
          λ m. rw (store, o, missing) (set-roles f s1.model m),
          authz,
          follow_own json bytes version _ (ap (λ x. x.version) store ∙ ap (λ x. x.store.version) o),
        )
