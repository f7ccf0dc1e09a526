-- ===== src/Api/Entries.antt =====
-- The steps of the handlers, and what each leaves in the audit trail (internal/api/access.go).
use mathlib.Core.List.{append-nil, append_assoc}
use devops_tools.Prelude.{
  byte_length, sym, ◌∙◌, Text, text, ◌≡◌, refl, arith, true, Option, none, some, List, [], ◌∷◌,
  ◌++◌, inl, inr, Option-cases, Bool-cases, map, ltb,
}
use devops_tools.Store.Mutate.{Json, Backend, Outcome}
use devops_tools.Auth.Service.{Account}
use devops_tools.Api.{
  Settings, Server, Reply, access_entry, check_roles_exist, conclude, log_access_change, after_call,
  succeeded, min_password_length, arrow,
}
use devops_tools.Api.Accounts.{
  Hasher, when_long_enough, when_roles_exist, when_hashed, when_some_role,
}
use devops_tools.Api.RoleChanges.{
  MembershipRequest, install, log_each, membership_verb, saved_role, moved_role, deleted_role,
}
use devops_tools.Api.Routes.{Change, post_role_members}
use devops_tools.Api.Calls.{
  write_store_error-status, Refused, short_password, not_hashed, unknown_role, password_of,
  roles_of, end_of, Call, membership, Recorded, untouched, entered, members, unrecorded,
}

trail-log_each :
    (cfg : Settings) {W : Type 0} (actor : Option Account) (verb role : Text) (names : List Text)
    (t : Server W)
    → (log_each cfg actor verb role names t).trail
      ≡ t.trail ++ map (λ name. access_entry cfg actor verb (arrow name role) none) names
unfolding log_each log_access_change
trail-log_each cfg actor verb role [] t = sym (append-nil t.trail)
trail-log_each cfg actor verb role (name ∷ names) t =
    trail-log_each cfg actor verb role names _ ∙ append_assoc t.trail (_ ∷ []) _

-- Logging leaves the store and the world.
log_each-keeps :
    (cfg : Settings) {W : Type 0} (actor : Option Account) (verb role : Text) (names : List Text)
    (t : Server W)
    → ((log_each cfg actor verb role names t).store ≡ t.store)
      × ((log_each cfg actor verb role names t).world ≡ t.world)
unfolding log_each log_access_change
log_each-keeps cfg actor verb role [] t = (refl, refl)
log_each-keeps cfg actor verb role (name ∷ names) t = log_each-keeps cfg actor verb role names _

module _ (cfg : Settings) (hasher : Hasher) {W : Type 0} (actor : Option Account) (st : Server W)
    (json : Json) (backend : Backend W) where
  abbrev pub Kept : Change → Reply × Server W → Type 0
  Kept = Recorded cfg hasher actor st json backend

  pub conclude-Recorded :
      {change : Change} (operation target : Text) (ok : Reply) (o : Outcome Unit W)
      → Call cfg hasher actor st json backend change operation target o
      → ltb ok.status 400 ≡ true
      → Kept change (conclude cfg actor operation target ok o st)
  unfolding conclude log_access_change after_call succeeded
  conclude-Recorded operation target ok o call h = elim (Option-cases o.error) [
    | inl e ↦
        entered operation target o call (ground arith) (ground arith) (ground arith) (ground arith)
    | inr (x, e) ↦
        entered operation target o call (ground arith) (ground arith) (ground arith)
          (ground (arith, write_store_error-status x))
  ]

  pub saved_role-Recorded :
      {change : Change} (name : Text) (o : Outcome Unit W)
      → Call cfg hasher actor st json backend change (text "role-save") name (end_of o)
      → Kept change (saved_role json backend cfg actor name o st)
  unfolding saved_role log_access_change after_call install succeeded
  saved_role-Recorded name o call = elim (Option-cases o.error) [
    | inl e ↦
        entered (text "role-save") name (end_of o) call (ground arith) (ground arith) (ground arith)
          (ground arith)
    | inr (x, e) ↦
        entered (text "role-save") name (end_of o) call (ground arith) (ground arith) (ground arith)
          (ground (arith, write_store_error-status x))
  ]

  pub deleted_role-Recorded :
      {change : Change} (name : Text) (o : Outcome (List Text) W)
      → Call cfg hasher actor st json backend change (text "role-delete") name (end_of o)
      → Kept change (deleted_role json backend cfg actor name o st)
  unfolding deleted_role log_access_change after_call install succeeded
  deleted_role-Recorded name o call = elim (Option-cases o.error) [
    | inl e ↦
        entered (text "role-delete") name (end_of o) call (ground arith) (ground arith)
          (ground arith) (ground arith)
    | inr (x, e) ↦
        entered (text "role-delete") name (end_of o) call (ground arith) (ground arith)
          (ground arith) (ground (arith, write_store_error-status x))
  ]

  pub moved_role-Recorded :
      (role : Text) (body : MembershipRequest)
      → Kept (post_role_members role (some body)) (
          moved_role json backend cfg actor role body.add
            (membership cfg hasher actor st json backend role body)
            st)
  unfolding moved_role after_call install
  moved_role-Recorded role body =
      let o = membership cfg hasher actor st json backend role body in
      let logged = log_each-keeps cfg actor (membership_verb body.add) role o.out.changed _ in
      elim (Option-cases o.error) [
        | inl e ↦ rw e (
            members role body refl e
              (trail-log_each cfg actor (membership_verb body.add) role o.out.changed _) logged.0
              logged.1 refl)
        | inr (x, e) ↦
            rw e (unrecorded role body x refl e refl refl refl (write_store_error-status x))
      ]

  module _ {change : Change} where
    pub when_long_enough-Recorded :
        (password : Text) (next : Reply × Server W)
        → password_of change ≡ some password
        → Kept change next
        → Kept change (when_long_enough st password next)
    unfolding when_long_enough
    when_long_enough-Recorded password next brought h =
        elim (Bool-cases (ltb (byte_length password) min_password_length)) [
          | inl e ↦ rw e (untouched (short_password password brought e) refl refl)
          | inr e ↦ rw e h
        ]

    pub when_roles_exist-Recorded :
        (next : Reply × Server W)
        → Kept change next
        → Kept change (when_roles_exist st (roles_of change) next)
    unfolding when_roles_exist
    when_roles_exist-Recorded next h =
        elim (Option-cases (check_roles_exist st.store (roles_of change))) [
          | inl e ↦ rw (when_roles_exist, e) h
          | inr (r, e) ↦ rw (when_roles_exist, e) (untouched (unknown_role r e) refl refl)
        ]

    pub when_hashed-Recorded :
        (password : Text) (next : Text → Reply × Server W)
        → password_of change ≡ some password
        → ((hash : Text) → hasher password ≡ some hash → Kept change (next hash))
        → Kept change (when_hashed st hasher password next)
    unfolding when_hashed
    when_hashed-Recorded password next brought h = elim (Option-cases (hasher password)) [
      | inl e ↦ rw (when_hashed, e) (untouched (not_hashed password brought e) refl refl)
      | inr (hash, e) ↦ rw (when_hashed, e) (h hash e)
    ]

    pub when_some_role-Recorded :
        (roles : List Text) (next : Reply × Server W)
        → (roles ≡ [] → Refused cfg hasher actor st change)
        → Kept change next
        → Kept change (when_some_role st roles next)
    unfolding when_some_role
    when_some_role-Recorded [] next refused h = untouched (refused refl) refl refl
    when_some_role-Recorded (_ ∷ _) next refused h = h
