-- ===== src/Api/Installing.antt =====
-- The authorizer after the roles were changed (internal/api/access.go, internal/rbac/rbac.go).
use devops_tools.Prelude.{
  here, Text, ◌≡◌, refl, arith, Bool, true, false, Option, none, some, List, [], ◌∷◌, Option-cases,
  Bool-cases, inl, inr, lookup, lookup-insert, any, ltb, ◌&&◌,
}
use devops_tools.Config.Roles.{RoleSpec, validate}
use devops_tools.Rbac.{
  replace, allowed, allowed_global, allowed_config, any_role, has_op, namespace_grant_allows,
  config_path_covers,
}
use devops_tools.Store.Model.{Time, Model, validate_username}
use devops_tools.Store.Roles
use devops_tools.Store.Roles.{access_model, Membership}
use devops_tools.Store.Mutate.{Json, Backend, Outcome, Store}
use devops_tools.Store.Mutate.Effects.{mutate_post}
use devops_tools.Store.Operations.{save_role, checked}
use devops_tools.Auth.Service.{Account}
use devops_tools.Api.{Settings, Server, log_access_change, after_call}
use devops_tools.Api.RoleChanges.{
  install, saved_role, moved_role, deleted_role, handle_save_role, handle_role_membership,
  handle_delete_role, is_nil,
}
use devops_tools.Config.Operations.{op_user_manage}
use devops_tools.Config.Validation.{WellFormed, validate-eq-none_iff}
use devops_tools.Api.Accounts.{Hasher}
use devops_tools.Api.Routes.{
  Change, post_user, post_invite, put_user_roles, put_user_password, remove_user, put_role,
  remove_role, post_role_members, require_global_op, handler_of, serve,
}
use devops_tools.Api.Calls.{write_store_error-status}

-- The authorizer decides by the access model of the store.
abbrev pub InForce : Settings → {W : Type 0} → Server W → Type 0
InForce cfg st = st.authz.cfg ≡ access_model st.store.model cfg.operations

install-InForce : (cfg : Settings) {W : Type 0} (st : Server W) → InForce cfg (install cfg st)
unfolding install replace
install-InForce cfg st = refl

module _ (json : Json) {W : Type 0} (backend : Backend W) (cfg : Settings) (actor : Option Account)
    (st : Server W) where
  saved_role-InForce :
      (name : Text) (o : Outcome Unit W)
      → let r = saved_role json backend cfg actor name o st in
        ltb r.0.status 400 ≡ true → (o.error ≡ none) × InForce cfg r.1 × (r.1.store ≡ o.store)
  unfolding saved_role install replace log_access_change after_call
  saved_role-InForce name o h = elim (Option-cases o.error) [
    | inl e ↦ rw e (refl, refl, refl)
    | inr (x, e) ↦ absurd (ground (arith, write_store_error-status x))
  ]

  deleted_role-InForce :
      (name : Text) (o : Outcome (List Text) W)
      → let r = deleted_role json backend cfg actor name o st in
        ltb r.0.status 400 ≡ true → InForce cfg r.1
  unfolding deleted_role install replace log_access_change after_call
  deleted_role-InForce name o h = elim (Option-cases o.error) [
    | inl e ↦ rw e refl
    | inr (x, e) ↦ absurd (ground (arith, write_store_error-status x))
  ]

  moved_role-InForce :
      (role : Text) (add : Bool) (o : Outcome Membership W)
      → let r = moved_role json backend cfg actor role add o st in
        ltb r.0.status 400 ≡ true → InForce cfg r.1
  unfolding moved_role install replace
  moved_role-InForce role add o h = elim (Option-cases o.error) [
    | inl e ↦ rw e refl
    | inr (x, e) ↦ absurd (ground (arith, write_store_error-status x))
  ]

  handle_role_membership-InForce :
      (role : Text) (body : Option _)
      → let r = handle_role_membership json backend cfg actor role body st in
        ltb r.0.status 400 ≡ true → InForce cfg r.1
  unfolding handle_role_membership
  handle_role_membership-InForce role none h = absurd (ground arith)
  handle_role_membership-InForce role (some body) h = elim (Bool-cases (is_nil body.users)) [
    | inl e ↦ absurd (ground arith)
    | inr e ↦ rw e (moved_role-InForce role body.add _ (ground arith))
  ]

  handle_save_role-done :
      (name : Text) (spec : RoleSpec)
      → let r = handle_save_role json backend cfg actor name (some spec) st in
        ltb r.0.status 400 ≡ true
        → ((save_role json backend name spec st.store st.world).error ≡ none)
          × InForce cfg r.1
          × (r.1.store ≡ (save_role json backend name spec st.store st.world).store)
          × (validate (record { operations = cfg.operations; roles = (name, spec) ∷ [] }) ≡ none)
  unfolding handle_save_role
  handle_save_role-done name spec h =
      elim (Option-cases
        (validate (record { operations = cfg.operations; roles = (name, spec) ∷ [] }))) [
          | inl e ↦
              let (x, y, z) = saved_role-InForce name _ (ground arith) in
              rw (handle_save_role, e) (x, y, z, refl)
          | inr (x, e) ↦ absurd (ground arith)
        ]

-- The requests that change a role.
unfoldable pub is_role_change : Change → Bool
is_role_change (put_role _ _) = true
is_role_change (remove_role _) = true
is_role_change (post_role_members _ _) = true
is_role_change _ = false

handler_of-InForce :
    (json : Json) {W : Type 0} (backend : Backend W) (cfg : Settings) (hasher : Hasher)
    (change : Change) (actor : Option Account) (st : Server W)
    → is_role_change change ≡ true
    → let r = handler_of json backend cfg hasher change actor st in
      ltb r.0.status 400 ≡ true → InForce cfg r.1
unfolding is_role_change handler_of handle_delete_role handle_save_role
handler_of-InForce json backend cfg hasher (put_role name none) actor st k h = absurd (ground arith)
handler_of-InForce json backend cfg hasher (put_role name (some spec)) actor st k h =
    (handle_save_role-done json backend cfg actor st name spec h).1
handler_of-InForce json backend cfg hasher (remove_role name) actor st k h =
    deleted_role-InForce json backend cfg actor st name _ h
handler_of-InForce json backend cfg hasher (post_role_members name body) actor st k h =
    handle_role_membership-InForce json backend cfg actor st name body h
handler_of-InForce json backend cfg hasher (post_user body) actor st k h = absurd (ground arith)
handler_of-InForce json backend cfg hasher (post_invite body) actor st k h = absurd (ground arith)
handler_of-InForce json backend cfg hasher (put_user_roles n body) actor st k h =
    absurd (ground arith)
handler_of-InForce json backend cfg hasher (put_user_password n body) actor st k h =
    absurd (ground arith)
handler_of-InForce json backend cfg hasher (remove_user n) actor st k h = absurd (ground arith)

-- Once a role was saved, deleted, granted or revoked and the reply says so, the authorizer decides
-- by the access model that the store then has.
pub serve-InForce :
    (json : Json) {W : Type 0} (backend : Backend W) (cfg : Settings) (hasher : Hasher)
    (change : Change) (actor : Option Account) (st : Server W)
    → is_role_change change ≡ true
    → let r = serve json backend cfg hasher change actor st in
      ltb r.0.status 400 ≡ true → InForce cfg r.1
unfolding serve require_global_op
serve-InForce json backend cfg hasher change none st k h = absurd (ground arith)
serve-InForce json backend cfg hasher change (some u) st k h =
    elim (Bool-cases (allowed_global st.authz u.roles op_user_manage)) [
      | inl e ↦
          rw e (handler_of-InForce json backend cfg hasher change (some u) st k (ground arith))
      | inr e ↦ absurd (ground arith)
    ]

save_role_post :
    (name : Text) (spec : RoleSpec) (now : Time) (m : Model)
    → lookup name (Roles.save_role name spec now m).model.roles ≡ some spec
unfolding Roles.save_role
save_role_post name spec now m = ground (arith, lookup-insert name name spec m.roles)

lookup-save_role :
    (json : Json) {W : Type 0} (backend : Backend W) (name : Text) (spec : RoleSpec) (s : Store)
    (w : W)
    → (save_role json backend name spec s w).error ≡ none
    → lookup name (save_role json backend name spec s w).store.model.roles ≡ some spec
unfolding save_role checked
lookup-save_role json backend name spec s w h = elim (Option-cases (validate_username name)) [
  | inl e ↦
      rw (e, checked)
        (mutate_post json backend (Roles.save_role name spec)
          (λ _ m. lookup name m.roles ≡ some spec) (λ now m _. save_role_post name spec now m) s w
          (ground arith))
  | inr (x, e) ↦ absurd (ground arith)
]

-- A role that was saved, as the reply says, is the role of the request: it names only operations
-- that the code knows, and whoever holds it and no other role may from then on do, in a namespace,
-- globally and on a configuration path, exactly what its grants say.
pub allowed-handle_save_role :
    (json : Json) {W : Type 0} (backend : Backend W) (cfg : Settings) (actor : Option Account)
    (st : Server W) (name : Text) (spec : RoleSpec)
    → let r = handle_save_role json backend cfg actor name (some spec) st in
      ltb r.0.status 400 ≡ true
      → WellFormed (record { operations = cfg.operations; roles = (name, spec) ∷ [] }) spec
        × ((where_ op : Text)
            → (allowed r.1.authz (name ∷ []) where_ op
                ≡ any (namespace_grant_allows where_ op) spec.namespaces)
              × (allowed_global r.1.authz (name ∷ []) op ≡ has_op spec.global op)
              × (allowed_config r.1.authz (name ∷ []) where_ op
                  ≡ any
                      (λ g. config_path_covers g.path where_ && has_op g.operations op)
                      spec.configs))
unfolding allowed allowed_global allowed_config any_role access_model any
allowed-handle_save_role json backend cfg actor st name spec h =
    let (ok, in_force, same, valid) = handle_save_role-done json backend cfg actor st name spec h in
    let found = lookup-save_role json backend name spec st.store st.world ok in
    (
      (validate-eq-none_iff _).0 valid name spec here,
      λ where_ op. rw (in_force, same, found) (ground arith, ground arith, ground arith),
    )
