-- ===== src/Config/Validation.antt =====
-- What the validation of an access model accepts (internal/config/rbac.go).
use devops_tools.Prelude.{is_empty, Text, ◌≡◌, ◌≢◌, ◌↔◌, ◌⊎◌, inl, inr, refl, none, some}
use devops_tools.Prelude.{List, [], ◌∷◌, In, here, there, In-append-cases, In-append_left, arith}
use devops_tools.Prelude.{In-append_right, In-contains, contains_of_In, Option}
use devops_tools.Prelude.{text_dec, if◌then◌else◌}
use devops_tools.Config.Roles.{unknown_global_operation}
use devops_tools.Config.Operations.{all_operations}
use devops_tools.Config.Roles.{RbacConfig, RoleSpec, NamespaceGrant, ConfigGrant, RoleError, star}
use devops_tools.Config.Roles.{first_error, or_else, is_known, check_operation, check_config_grant}
use devops_tools.Config.Roles.{check_namespace_grant, check_role, validate}

-- The names that a grant may use.
abbrev pub Names : RbacConfig → Text → Type 0
Names r op = (op ≡ star) ⊎ (In op r.operations ⊎ In op all_operations)

abbrev pub AllNames : RbacConfig → List Text → Type 0
AllNames r ops = (op : Text) → In op ops → Names r op

pub record WellFormed (r : RbacConfig) (spec : RoleSpec) : Type 0 where
  pub global : AllNames r spec.global
  pub configs : (g : ConfigGrant) → In g spec.configs → (g.path ≢ []) × AllNames r g.operations
  pub namespaces :
      (g : NamespaceGrant) → In g spec.namespaces → (g.namespace ≢ []) × AllNames r g.operations

module _ {ℓ} {A : Type ℓ} (check : A → Option RoleError) where
  first_error-none : {x : A} {xs : List A} → In x xs → first_error check xs ≡ none → check x ≡ none
  unfolding first_error
  first_error-none here h = ground arith
  first_error-none (there m) h = first_error-none m (ground arith)

  none_of_first_error :
      (xs : List A) → ((x : A) → In x xs → check x ≡ none) → first_error check xs ≡ none
  unfolding first_error
  none_of_first_error [] h = refl
  none_of_first_error (x ∷ xs) h =
      ground (arith, h x here, none_of_first_error xs (λ y m. h y (there m)))

module _ (r : RbacConfig) where
  Names-of_check : (e : RoleError) (op : Text) → check_operation r e op ≡ none → Names r op
  unfolding check_operation is_known
  Names-of_check e op h = elim (text_dec op star) [
    | yes p ↦ inl p
    | no n ↦ inr (In-append-cases r.operations all_operations (In-contains op _ (ground arith)))
  ]

  check_of_Names : (e : RoleError) (op : Text) → Names r op → check_operation r e op ≡ none
  unfolding check_operation is_known
  check_of_Names e op (inl p) = ground arith
  check_of_Names e op (inr (inl m)) =
      ground (arith, contains_of_In (In-append_left all_operations m))
  check_of_Names e op (inr (inr m)) =
      ground (arith, contains_of_In (In-append_right r.operations m))

  AllNames-of_check :
      (e : Text → RoleError) (ops : List Text)
      → first_error (λ op. check_operation r (e op) op) ops ≡ none
      → AllNames r ops
  AllNames-of_check e ops h op m = Names-of_check (e op) op (first_error-none _ m h)

  check_of_AllNames :
      (e : Text → RoleError) (ops : List Text)
      → AllNames r ops
      → first_error (λ op. check_operation r (e op) op) ops ≡ none
  check_of_AllNames e ops h = none_of_first_error _ ops (λ op m. check_of_Names (e op) op (h op m))

  or_else-none : (a b : Option RoleError) → or_else a b ≡ none → (a ≡ none) × (b ≡ none)
  unfolding or_else
  or_else-none a b h = ground arith

  -- A grant with a key, which may not be empty.
  grant-none :
      (key : Text) (empty : RoleError) (e : Text → RoleError) (ops : List Text)
      → ((if is_empty key then some empty else first_error (λ op. check_operation r (e op) op) ops)
          ≡ none)
        ↔ ((key ≢ []) × AllNames r ops)
  grant-none [] empty e ops = (λ h. absurd (ground arith), λ (n, _). absurd (n refl))
  grant-none (c ∷ s) empty e ops =
      (λ h. (λ p. cc, AllNames-of_check e ops h), λ (_, a). check_of_AllNames e ops a)

  WellFormed-of_check :
      (role : Text) (spec : RoleSpec) → check_role r role spec ≡ none → WellFormed r spec
  unfolding check_role check_config_grant check_namespace_grant
  WellFormed-of_check role spec h =
      let (g, rest) = or_else-none _ _ h in
      let (c, n) = or_else-none _ _ rest in
      record {
        global = AllNames-of_check _ spec.global g;
        configs = λ x m. (grant-none x.path _ _ x.operations).0 (first_error-none _ m c);
        namespaces = λ x m. (grant-none x.namespace _ _ x.operations).0 (first_error-none _ m n);
      }

  check_of_WellFormed :
      (role : Text) (spec : RoleSpec) → WellFormed r spec → check_role r role spec ≡ none
  unfolding check_role check_config_grant check_namespace_grant or_else
  check_of_WellFormed role spec h = rw (
    check_of_AllNames (unknown_global_operation role) spec.global h.global,
    none_of_first_error (check_config_grant r role) spec.configs
        (λ g m. (grant-none g.path _ _ g.operations).1 (h.configs g m)),
    none_of_first_error (check_namespace_grant r role) spec.namespaces
        (λ g m. (grant-none g.namespace _ _ g.operations).1 (h.namespaces g m)),
  )

-- A model is accepted exactly when every grant of every role names only operations that the
-- deployment or this build has, or the star, and no grant has an empty path or namespace.
pub validate-eq-none_iff :
    (r : RbacConfig)
    → (validate r ≡ none)
      ↔ ((role : Text) (spec : RoleSpec) → In (role, spec) r.roles → WellFormed r spec)
unfolding validate
validate-eq-none_iff r = (
  λ h role spec m. WellFormed-of_check r role spec (first_error-none _ m h),
  λ h.
      none_of_first_error _ r.roles
        (λ (role, spec) m. check_of_WellFormed r role spec (h role spec m)),
)
