-- ===== src/Auth/Service/Revoked.antt =====
-- What the next request may do after an administrator changed the account: internal/auth/auth.go
-- with internal/store.
use devops_tools.Prelude.{
  Text, ◌≡◌, ◌≢◌, refl, ap, ◌∙◌, arith, false, ◌&&◌, ◌||◌, none, some, List, [], ◌∷◌, contains,
}
use devops_tools.Store.Model
use devops_tools.Store.Model.{key, Error}
use devops_tools.Store.Mutate.{Json, Backend, Store}
use devops_tools.Store.Operations
use devops_tools.Store.Operations.Access.{set_roles-roles_for, delete_user-get, roles_for-key}
use devops_tools.Auth.Service.{
  Service, Directory, Account, Request, served, grants, roles_for, served_token, bearer_token,
  middleware, verified, is_oidc, shown_groups,
}
use devops_tools.Auth.Service.Roles.{contains-roles_for}

module _ (json : Json) {W : Type 0} (backend : Backend W) where
  -- The store as the directory of the service.
  abbrev pub store_directory : Directory (Store × W)
  store_directory = record {
    record_seen = λ username email provider groups initial (st, w).
        let o = Operations.record_seen json backend username email provider groups initial st w in
        (o.error, (o.store, o.world));
    roles_for = λ (st, w) username. Model.roles_for st.model username;
    groups_for = λ (st, w) username. Model.groups_for st.model username;
  }

  module _ (s : Service (Store × W)) (header : Text) (u : Account) where
    -- The request is served, and may do what these roles and the bootstrap grant give.
    abbrev pub ServedWith : List Text → Request → Type 0
    ServedWith roles r =
        (a : Account) × (r ≡ served a)
        × (a.username ≡ u.username)
        × ((role : Text)
            → contains a.roles role ≡ (
                contains roles role
                || (grants s.bootstrap u.username && contains s.bootstrap.roles role)))

    served_with :
        (st : Store) (w : W) (roles : List Text)
        → s.dir ≡ some store_directory
        → is_oidc s.kind ≡ false
        → bearer_token header ≢ []
        → verified s (bearer_token header) ≡ some u
        → Model.roles_for st.model u.username ≡ roles
        → ServedWith roles (middleware s header (st, w)).0
    unfolding middleware served_token
    served_with st w roles by_store session some_token known held = (
      record u { roles = roles_for s u.username (st, w); groups = shown_groups s u (st, w) },
      filled (bearer_token header) refl,
      refl,
      λ role.
          contains-roles_for s u.username (st, w) role
          ∙ ap
              (λ xs.
                contains xs role
                || (grants s.bootstrap u.username && contains s.bootstrap.roles role))
              (rw by_store held),
    )
      where
        filled :
            (t : Text)
            → bearer_token header ≡ t
            → (middleware s header (st, w)).0
              ≡ served (record u {
                roles = roles_for s u.username (st, w);
                groups = shown_groups s u (st, w);
              })
        filled [] e = absurd (some_token e)
        filled (c ∷ t) e = ground arith

    module _ (username : Text) (st : Store) (w : W) (by_store : s.dir ≡ some store_directory)
        (session : is_oidc s.kind ≡ false) (some_token : bearer_token header ≢ [])
        (known : verified s (bearer_token header) ≡ some u)
        (same : key u.username ≡ key username) where
      -- Roles that were set without an error are in force with the next request under a session
      -- token, however old it is: the request has exactly those and the bootstrap grant's.
      pub middleware-set_roles :
          (roles : List Text)
          → (Operations.set_roles json backend username roles st w).error ≡ none
          → let o = Operations.set_roles json backend username roles st w in
            ServedWith roles (middleware s header (o.store, o.world)).0
      middleware-set_roles roles ok =
          let o = Operations.set_roles json backend username roles st w in
          served_with o.store o.world roles by_store session some_token known
            (set_roles-roles_for json backend st w username u.username roles ok same)

      -- The session token of a user who was deleted without an error is good for nothing but the
      -- bootstrap grant's roles.
      pub middleware-delete_user :
          (Operations.delete_user json backend username st w).error ≡ none
          → let o = Operations.delete_user json backend username st w in
            ServedWith [] (middleware s header (o.store, o.world)).0
      middleware-delete_user ok =
          let o = Operations.delete_user json backend username st w in
          served_with o.store o.world [] by_store session some_token known (
            roles_for-key u.username username o.store.model same
            ∙ (delete_user-get json backend st w username ok).1)
