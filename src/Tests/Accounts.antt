-- ===== src/Tests/Accounts.antt =====
-- Changes to the users, the roles and the lockouts at small inputs (internal/store).
use devops_tools.Prelude.{text, ◌≡◌, refl, true, ◌&&◌, arith}
use devops_tools.Prelude.{
  [], ◌∷◌, lookup, has_key, contains, any, text_dec, ◌==◌, if◌then◌else◌, ℕ_discrete, trim_space,
}
use devops_tools.Prelude.{trim_left, trim_right, to_lower, lower, is_space}
use devops_tools.Rbac.{new, allowed, allowed_global, allowed_config}
use devops_tools.Store.Model.{key, known, roles_for}
use devops_tools.Store.Users.{create_local_user}
use devops_tools.Store.Users.Accounts.{IsKeyed}
use devops_tools.Store.Roles.{change_role_membership, delete_role, access_model}
use devops_tools.Store.Roles.Members.{contains-change_role_membership}
use devops_tools.Store.Roles.Access.{allowed-delete_role, without}
use devops_tools.Tests.World.{team, two_users}

program : Unit {0}
unfolding lookup has_key text_dec ℕ_discrete key trim_space trim_left trim_right to_lower lower
    is_space create_local_user
program = tt

team-IsKeyed : IsKeyed two_users
unfolding program
team-IsKeyed = record { distinct = (refl, (refl, tt)); keyed = λ k u h. ground arith }

contains-change_role_membership_example :
    contains
      (roles_for
        (change_role_membership (text "viewer") (text "BOB" ∷ text "carol" ∷ []) true 20 team).model
        (text "bob"))
      (text "viewer")
    ≡ (if text "viewer" == text "viewer"
          && any (λ x. key x == key (text "bob")) (text "BOB" ∷ text "carol" ∷ [])
          && known team (text "bob")
        then true
        else contains (roles_for team (text "bob")) (text "viewer"))
unfolding program
contains-change_role_membership_example =
    contains-change_role_membership (text "viewer") true (text "BOB" ∷ text "carol" ∷ []) 20 team
      refl (text "bob") (text "viewer")

allowed-delete_role_example :
    let after = new (access_model (delete_role (text "operator") 20 team).model []) in
    let before = new (access_model team []) in
    let roles = text "viewer" ∷ text "operator" ∷ [] in
    (allowed after roles (text "shop") (text "status")
      ≡ allowed before (without (text "operator") roles) (text "shop") (text "status"))
    × (allowed_global after roles (text "status")
        ≡ allowed_global before (without (text "operator") roles) (text "status"))
    × (allowed_config after roles (text "shop") (text "status")
        ≡ allowed_config before (without (text "operator") roles) (text "shop") (text "status"))
unfolding program
allowed-delete_role_example =
    allowed-delete_role (text "operator") 20 team [] refl (text "viewer" ∷ text "operator" ∷ [])
      (text "shop") (text "status")
