-- ===== src/Rbac.antt =====
-- internal/rbac/rbac.go: whether a user's roles permit an operation.
pub mod Paths
pub mod Grants
pub mod Scopes
use devops_tools.Prelude.{Text, text, Bool, true, false, not, ◌&&◌, ◌||◌, Option, none, some}
use devops_tools.Prelude.{List, [], ◌∷◌, ◌++◌, ◌==◌, any, lookup, set_add, sort, has_prefix, eqb}
use devops_tools.Prelude.{trim_left, trim_right, if◌then◌else◌, ℕ}
use devops_tools.Config.Roles.{RbacConfig, RoleSpec, NamespaceGrant, ConfigGrant, star}

-- The atomic pointer holds one model.
pub record Authorizer : Type 0 where
  pub cfg : RbacConfig

unfoldable pub new : RbacConfig → Authorizer
new cfg = record { cfg = cfg }

unfoldable pub replace : Authorizer → RbacConfig → Authorizer
replace a cfg = record a { cfg = cfg }

unfoldable pub has_op : List Text → Text → Bool
has_op ops op = any (λ o. o == star || o == op) ops

-- The loop over the roles, which skips a role that the model does not have.
unfoldable pub any_role : RbacConfig → (RoleSpec → Bool) → List Text → Bool
any_role cfg test roles =
    any (λ role. elim (lookup role cfg.roles) [ none ↦ false | some spec ↦ test spec ]) roles

unfoldable pub namespace_grant_allows : Text → Text → NamespaceGrant → Bool
namespace_grant_allows namespace op grant =
    if not (grant.namespace == star) && not (grant.namespace == namespace)
    then false
    else has_op grant.operations op

unfoldable pub allowed : Authorizer → List Text → Text → Text → Bool
allowed a roles namespace op =
    any_role a.cfg (λ spec. any (namespace_grant_allows namespace op) spec.namespaces) roles

unfoldable pub allowed_global : Authorizer → List Text → Text → Bool
allowed_global a roles op = any_role a.cfg (λ spec. has_op spec.global op) roles

abbrev pub is_slash : ℕ → Bool
is_slash c = eqb c b'/'

-- strings.Trim(s, "/")
unfoldable pub trim_slashes : Text → Text
trim_slashes s = trim_right is_slash (trim_left is_slash s)

unfoldable pub config_path_covers : Text → Text → Bool
config_path_covers grant path =
    if grant == star
    then true
    else let g = trim_slashes grant in
      let p = trim_slashes path in g == p || has_prefix p (g ++ b'/' ∷ [])

unfoldable pub allowed_config : Authorizer → List Text → Text → Text → Bool
allowed_config a roles path op =
    any_role a.cfg
      (λ spec. any (λ g. config_path_covers g.path path && has_op g.operations op) spec.configs)
      roles

-- The inner loop of the three listings: `none` when a wildcard returns at once.
module _ {G : Type 0} (wanted : G → Bool) (name : G → Text) where
  unfoldable pub collect_grants : List G → List Text → Option (List Text)
  collect_grants [] set = some set
  collect_grants (g ∷ gs) set =
      let skipped = collect_grants gs set in
      let added = collect_grants gs (set_add (name g) set) in
      if not (wanted g) then skipped else if name g == star then none else added

  unfoldable pub collect_roles :
      RbacConfig → (RoleSpec → List G) → List Text → List Text → Option (List Text)
  collect_roles cfg grants [] set = some set
  collect_roles cfg grants (role ∷ roles) set =
      let unknown = collect_roles cfg grants roles set in
      elim (lookup role cfg.roles) [
        | none ↦ unknown
        | some spec ↦ elim (collect_grants (grants spec) set) [
          | none ↦ none
          | some set' ↦ collect_roles cfg grants roles set'
        ]
      ]

-- The sorted keys of the set, or the star.
unfoldable pub listing : Option (List Text) → List Text
listing none = star ∷ []
listing (some set) = sort set

unfoldable pub visible_config_paths : Authorizer → List Text → List Text
visible_config_paths a roles =
    listing (collect_roles (λ _. true) (λ g. g.path) a.cfg (λ spec. spec.configs) roles [])

unfoldable pub namespaces_for_op : Authorizer → List Text → Text → List Text
namespaces_for_op a roles op = listing (
    collect_roles (λ grant. has_op grant.operations op) (λ grant. grant.namespace) a.cfg
      (λ spec. spec.namespaces) roles [])

unfoldable pub visible_namespaces : Authorizer → List Text → List Text
visible_namespaces a roles =
    listing (
      collect_roles (λ _. true) (λ grant. grant.namespace) a.cfg (λ spec. spec.namespaces) roles [])
