-- ===== src/Config/Roles.antt =====
-- internal/config/rbac.go: the access model and its validation.
use devops_tools.Prelude.{is_empty, Text, text, Bool, ◌||◌, Option, none, some, List, [], ◌∷◌, ◌++◌}
use devops_tools.Prelude.{◌==◌, contains, Dict, if◌then◌else◌}
use devops_tools.Config.Operations.{all_operations}

pub record NamespaceGrant : Type 0 where
  pub namespace : Text
  pub operations : List Text

pub record ConfigGrant : Type 0 where
  pub path : Text
  pub operations : List Text

pub record RoleSpec : Type 0 where
  pub description : Text
  pub namespaces : List NamespaceGrant
  pub global : List Text
  pub configs : List ConfigGrant

pub record RbacConfig : Type 0 where
  pub operations : List Text
  pub roles : Dict RoleSpec

abbrev pub star : Text
star = text "*"

-- The errors of `Validate`, each with what its message names.
pub data RoleError : Type 0 where
  unknown_global_operation : Text → Text → RoleError
  empty_path : Text → RoleError
  unknown_config_operation : Text → Text → Text → RoleError
  empty_namespace : Text → RoleError
  unknown_namespace_operation : Text → Text → Text → RoleError

-- A loop that returns the first error.
unfoldable pub first_error {ℓ} : {A : Type ℓ} → (A → Option RoleError) → List A → Option RoleError
first_error check [] = none
first_error check (x ∷ xs) =
    let rest = first_error check xs in elim (check x) [ none ↦ rest | some e ↦ some e ]

unfoldable pub or_else : Option RoleError → Option RoleError → Option RoleError
or_else none second = second
or_else (some e) second = some e

-- The map of known names: the operations of the deployment, and all that this build has.
unfoldable pub is_known : RbacConfig → Text → Bool
is_known r op = contains (r.operations ++ all_operations) op

unfoldable pub check_operation : RbacConfig → RoleError → Text → Option RoleError
check_operation r e op = if op == star || is_known r op then none else some e

unfoldable pub check_config_grant : RbacConfig → Text → ConfigGrant → Option RoleError
check_config_grant r role g =
    if is_empty g.path
    then some (empty_path role)
    else first_error (λ op. check_operation r (unknown_config_operation role g.path op) op)
        g.operations

unfoldable pub check_namespace_grant : RbacConfig → Text → NamespaceGrant → Option RoleError
check_namespace_grant r role g =
    if is_empty g.namespace
    then some (empty_namespace role)
    else first_error (λ op. check_operation r (unknown_namespace_operation role g.namespace op) op)
        g.operations

unfoldable pub check_role : RbacConfig → Text → RoleSpec → Option RoleError
check_role r role spec =
    or_else
      (first_error (λ op. check_operation r (unknown_global_operation role op) op) spec.global)
      (or_else (first_error (check_config_grant r role) spec.configs)
        (first_error (check_namespace_grant r role) spec.namespaces))

-- `none` is the nil error.
unfoldable pub validate : RbacConfig → Option RoleError
validate r = first_error (λ (role, spec). check_role r role spec) r.roles
