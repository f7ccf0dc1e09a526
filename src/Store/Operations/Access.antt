-- ===== src/Store/Operations/Access.antt =====
-- What the methods of the store promise their callers (internal/store).
use devops_tools.Prelude.{Text, ◌≡◌, ◌≢◌, refl, arith, false, none, some, ◌⊎◌, inl, inr, ◌∙◌}
use devops_tools.Prelude.{
  List, [], ◌∷◌, lookup, lookup-insert, lookup-erase, Option-cases, if◌then◌else◌, is_empty,
}
use devops_tools.Store.Model.{User, Model, Time, Error, Step, write, no_change, key, get, roles_for}
use devops_tools.Store.Model.{local_credential}
use devops_tools.Store.Users
use devops_tools.Store.Mutate.{Json, Backend, Store, encode, is_conflict, save_failed}
use devops_tools.Store.Mutate.Rounds.{changed}
use devops_tools.Store.Mutate.Effects.{mutate_post, mutate-failed_save}
use devops_tools.Store.Operations.{set_roles, delete_user, set_password}

abbrev Proceeds : {A : Type 0} → Step A → Type 0
Proceeds st = (st.verdict ≡ write) ⊎ (st.verdict ≡ no_change)

pub roles_for-key : (a b : Text) (m : Model) → key a ≡ key b → roles_for m a ≡ roles_for m b
unfolding roles_for
roles_for-key a b m e = ground arith

set_roles_post :
    (username : Text) (roles : List Text) (now : Time) (m : Model)
    → Proceeds (Users.set_roles username roles now m)
    → roles_for (Users.set_roles username roles now m).model username ≡ roles
unfolding Users.set_roles roles_for
set_roles_post username roles now m h = elim (Option-cases (lookup (key username) m.users)) [
  | inl e ↦ absurd (ground arith)
  | inr (u, e) ↦
      ground
        (arith, lookup-insert (key username) (key username) (record u { roles = roles }) m.users)
]

delete_user_post :
    (username : Text) (now : Time) (m : Model)
    → Proceeds (Users.delete_user username now m)
    → get (Users.delete_user username now m).model username ≡ none
unfolding Users.delete_user get
delete_user_post username now m h =
    ground (arith, lookup-erase (key username) (key username) m.users)

set_password_post :
    (username hash : Text) (now : Time) (m : Model)
    → Proceeds (Users.set_password username hash now m)
    → local_credential (Users.set_password username hash now m).model username
      ≡ (if is_empty hash then none else some hash)
unfolding Users.set_password local_credential
set_password_post username hash now m h = elim (Option-cases (lookup (key username) m.users)) [
  | inl e ↦ absurd (ground arith)
  | inr (u, e) ↦ ground (
    arith,
    lookup-insert (key username) (key username) (record u { password_hash = hash }) m.users,
  )
]

module _ (json : Json) {W : Type 0} (backend : Backend W) (s : Store) (w : W) where
  -- Roles that were set without an error are the user's roles from then on, under every spelling
  -- of the name with the same key.
  pub set_roles-roles_for :
      (username name : Text) (roles : List Text)
      → (set_roles json backend username roles s w).error ≡ none
      → key name ≡ key username
      → roles_for (set_roles json backend username roles s w).store.model name ≡ roles
  unfolding set_roles
  set_roles-roles_for username name roles h same =
      roles_for-key name username _ same
      ∙ mutate_post json backend (Users.set_roles username roles)
          (λ _ m. roles_for m username ≡ roles) (set_roles_post username roles) s w h

  -- A user deleted without an error is off the record: no roles, and no password to sign in with.
  pub delete_user-get :
      (username : Text)
      → (delete_user json backend username s w).error ≡ none
      → let m = (delete_user json backend username s w).store.model in
        (get m username ≡ none) × (roles_for m username ≡ []) × (local_credential m username ≡ none)
  unfolding delete_user get roles_for local_credential
  delete_user-get username h =
      let gone =
        mutate_post json backend (Users.delete_user username) (λ _ m. get m username ≡ none)
          (delete_user_post username) s w h in
      ground (arith, gone)

  -- A password set without an error is the one that the account signs in with.
  pub set_password-local_credential :
      (username hash : Text)
      → (set_password json backend username hash s w).error ≡ none
      → hash ≢ []
      → local_credential (set_password json backend username hash s w).store.model username
        ≡ some hash
  unfolding set_password
  set_password-local_credential username hash h some_hash =
      mutate_post json backend (Users.set_password username hash)
        (λ _ m. local_credential m username ≡ (if is_empty hash then none else some hash))
        (set_password_post username hash) s w h
      ∙ filled hash some_hash
    where
      filled : (t : Text) → t ≢ [] → (if is_empty t then none else some t) ≡ some t
      filled [] n = absurd (n refl)
      filled (c ∷ t) n = refl

  -- If the backend refuses the write for another reason than a conflict, the caller is told that
  -- setting the roles failed, and the roles are in force in memory all the same.
  pub set_roles_failed_in_force :
      (username : Text) (roles : List Text) (u : User) (w' : W) (e : Error)
      → get s.model username ≡ some u
      → backend.save
          (encode json (changed json backend (Users.set_roles username roles) s w).model)
          s.version
          w
        ≡ (save_failed e, w')
      → is_conflict e ≡ false
      → ((set_roles json backend username roles s w).error ≡ some e)
        × (roles_for (set_roles json backend username roles s w).store.model username ≡ roles)
  unfolding set_roles get Users.set_roles
  set_roles_failed_in_force username roles u w' e known refused other =
      let o =
        mutate-failed_save json backend (Users.set_roles username roles) s w w' e (ground arith)
          refused other in
      rw o (refl, set_roles_post username roles (backend.now w) s.model (inl (ground arith)))
