-- ===== src/Api/Granting.antt =====
-- What the changes to accounts bring about, by their replies (internal/api/access.go).
use devops_tools.Prelude.{
  byte_length, Text, text, ◌≡◌, ◌≢◌, arith, true, false, Option, none, some, List, [], ◌∷◌,
  Option-cases, Bool-cases, inl, inr, ltb, In, here, there, equal_fold, sym, ◌≤◌,
}
use devops_tools.Store.Model.{key, get, roles_for, local_credential}
use devops_tools.Store.Users.{normalise_roles}
use devops_tools.Store.Roles.{role_exists}
use devops_tools.Store.Mutate.{Json, Backend, Outcome, Store}
use devops_tools.Store.Operations.{set_password, set_roles, delete_user}
use devops_tools.Store.Operations.Access.{
  set_roles-roles_for, delete_user-get, set_password-local_credential,
}
use devops_tools.Auth.Service.{Account}
use devops_tools.Api.{
  Settings, Server, Reply, log_access_change, after_call, conclude, arrow, join_or_none,
  check_roles_exist,
}
use devops_tools.Api.Accounts.{
  Hasher, when_long_enough, when_roles_exist, when_hashed, set_roles_to, handle_set_password,
  handle_set_roles, handle_delete_user, is_own, same_name, updated, removed,
}
use devops_tools.Api.Calls.{write_store_error-status}

check_roles_exist-In :
    (s : Store) (roles : List Text) (role : Text)
    → check_roles_exist s roles ≡ none
    → In role roles
    → role_exists s.model role ≡ true
unfolding check_roles_exist
check_roles_exist-In s [] role h m = elim m [ ]
check_roles_exist-In s (x ∷ roles) role h here = ground arith
check_roles_exist-In s (x ∷ roles) role h (there m) =
    check_roles_exist-In s roles role (ground arith) m

conclude-done :
    (cfg : Settings) {W : Type 0} (actor : Option Account) (operation target : Text) (ok : Reply)
    (o : Outcome Unit W) (st : Server W)
    → let r = conclude cfg actor operation target ok o st in
      ltb r.0.status 400 ≡ true → (o.error ≡ none) × (r.1.store ≡ o.store)
unfolding conclude log_access_change after_call
conclude-done cfg actor operation target ok o st h = elim (Option-cases o.error) [
  | inl e ↦ (e, ground arith)
  | inr (x, e) ↦ absurd (ground (arith, write_store_error-status x))
]

module _ (json : Json) {W : Type 0} (backend : Backend W) (cfg : Settings) (actor : Option Account)
    (st : Server W) where
  -- Roles that were set, as the reply says, all existed in the store when the request was looked
  -- at, and are, in their normal form, the roles of the user under every spelling of the name with
  -- the same key.
  pub roles_for-handle_set_roles :
      (username name : Text) (given : List Text)
      → let r = handle_set_roles json backend cfg actor username (some given) st in
        ltb r.0.status 400 ≡ true
        → key name ≡ key username
        → (roles_for r.1.store.model name ≡ normalise_roles given)
          × ((role : Text)
              → In role (normalise_roles given)
              → role_exists st.store.model role ≡ true)
  unfolding handle_set_roles set_roles_to when_roles_exist
  roles_for-handle_set_roles username name given h same =
      elim (Option-cases (check_roles_exist st.store (normalise_roles given))) [
        | inl e ↦
            let (ok, kept) =
              conclude-done cfg actor (text "user-roles")
                (arrow username (join_or_none (normalise_roles given))) updated
                (set_roles json backend username (normalise_roles given) st.store st.world) st
                (ground arith) in
            rw (when_roles_exist, e, kept)
              (
                set_roles-roles_for json backend st.store st.world username name _ ok same,
                λ role m. check_roles_exist-In st.store _ role e m,
              )
        | inr (x, e) ↦ absurd (ground arith)
      ]

  -- A password that was set, as the reply says, has eight bytes at least, and the account signs in
  -- with its hash from then on.
  pub local_credential-handle_set_password :
      (hasher : Hasher) (username password : Text)
      → ((hash : Text) → hasher password ≡ some hash → hash ≢ [])
      → let r = handle_set_password json backend cfg actor hasher username (some password) st in
        ltb r.0.status 400 ≡ true
        → (8 ≤ byte_length password) × (hasher password ≡ local_credential r.1.store.model username)
  unfolding handle_set_password when_long_enough when_hashed
  local_credential-handle_set_password hasher username password some_hash h =
      elim (Option-cases (hasher password)) [
        | inr (hash, e) ↦
            let long : ltb (byte_length password) 8 ≡ false = ground arith in
            let (ok, kept) =
              conclude-done cfg actor (text "user-password") username updated
                (set_password json backend username hash st.store st.world) st (ground arith) in
            (
              ground arith,
              rw (long, when_hashed, e, kept)
                  (sym (
                    set_password-local_credential json backend st.store st.world username hash ok
                      (some_hash hash e))),
            )
        | inl e ↦ absurd (ground arith)
      ]

  -- Nobody deletes the account they are signed in with, however the name is spelled: such a request
  -- changes nothing. An account that was deleted, as the reply says, is off the record.
  pub get-handle_delete_user :
      (username : Text)
      → let r = handle_delete_user json backend cfg actor username st in
        ((u : Account) → actor ≡ some u → key username ≡ key u.username → r.1 ≡ st)
        × (ltb r.0.status 400 ≡ true → get r.1.store.model username ≡ none)
  unfolding handle_delete_user is_own same_name equal_fold key
  get-handle_delete_user username = (
    λ u a same. rw a (ground arith),
    λ h. elim (Bool-cases (is_own actor username)) [
      | inl e ↦ absurd (ground arith)
      | inr e ↦
          let (ok, kept) =
            conclude-done cfg actor (text "user-delete") username removed
              (delete_user json backend username st.store st.world) st (ground arith) in
          rw (e, kept) (delete_user-get json backend st.store st.world username ok).0
    ],
  )
