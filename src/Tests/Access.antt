-- ===== src/Tests/Access.antt =====
-- The access model and its decisions at small inputs (internal/config/rbac.go, internal/rbac).
use devops_tools.Prelude.{Text, text, ◌≡◌, ◌↔◌, refl, true, false, ◌||◌, none, some}
use devops_tools.Prelude.{
  List, [], ◌∷◌, ◌++◌, In, any, lookup, text_dec, arith, ℕ_discrete, trim_left, trim_right,
  has_prefix,
}
use devops_tools.Config.Roles.{RoleSpec, validate}
use devops_tools.Config.Validation.{WellFormed}
use devops_tools.Config.Validation
use devops_tools.Rbac.{Authorizer, new, allowed, allowed_global, allowed_config, any_role, has_op}
use devops_tools.Rbac.{namespace_grant_allows, config_path_covers, trim_slashes}
use devops_tools.Rbac.Grants.{Permits}
use devops_tools.Rbac.Grants
use devops_tools.Tests.World.{deployed, viewer}

program : Unit {0}
unfolding any_role has_op namespace_grant_allows allowed allowed_global allowed_config any lookup
    text_dec ℕ_discrete new config_path_covers trim_slashes trim_left trim_right has_prefix
program = tt

abbrev authorizer : Authorizer
authorizer = record { cfg = deployed }

abbrev both : List Text
both = text "viewer" ∷ text "operator" ∷ []

decisions :
    (allowed authorizer both (text "shop") (text "status") ≡ true)
    × (allowed authorizer both (text "bank") (text "status") ≡ false)
    × (allowed_global authorizer both (text "status") ≡ true)
    × (allowed_config authorizer both (text "apps/shop/prod") (text "restore") ≡ true)
    × (allowed_config authorizer both (text "apps/shopping") (text "restore") ≡ false)
unfolding program
decisions = (refl, refl, refl, refl, refl)

allowed_iff_example :
    (allowed authorizer both (text "shop") (text "status") ≡ true)
    ↔ Permits deployed both (text "shop") (text "status")
allowed_iff_example = Grants.allowed_iff authorizer both (text "shop") (text "status")

allowed-append_example :
    (allowed authorizer (both ++ text "viewer" ∷ []) (text "shop") (text "status") ≡ (
      allowed authorizer both (text "shop") (text "status")
      || allowed authorizer (text "viewer" ∷ []) (text "shop") (text "status")))
    × (allowed_global authorizer (both ++ text "viewer" ∷ []) (text "status") ≡ (
        allowed_global authorizer both (text "status")
        || allowed_global authorizer (text "viewer" ∷ []) (text "status")))
    × (allowed_config authorizer (both ++ text "viewer" ∷ []) (text "shop") (text "status") ≡ (
        allowed_config authorizer both (text "shop") (text "status")
        || allowed_config authorizer (text "viewer" ∷ []) (text "shop") (text "status")))
allowed-append_example =
    Grants.allowed-append authorizer both (text "viewer" ∷ []) (text "shop") (text "status")

abbrev bare : Authorizer
bare = record { cfg = record deployed { roles = (text "viewer", viewer) ∷ [] } }

bare_roles :
    (role : Text) (spec : RoleSpec)
    → lookup role bare.cfg.roles ≡ some spec
    → (spec.global ≡ []) × (spec.configs ≡ [])
unfolding lookup
bare_roles role spec h = ground arith

validate-eq-none_iff_example :
    (validate deployed ≡ none)
    ↔ ((role : Text) (spec : RoleSpec) → In (role, spec) deployed.roles → WellFormed deployed spec)
validate-eq-none_iff_example = Validation.validate-eq-none_iff deployed
