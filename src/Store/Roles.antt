-- ===== src/Store/Roles.antt =====
-- internal/store/roles.go: the roles, and who holds them.
pub mod Members
pub mod Access
use devops_tools.Prelude.{
  ℕ, ◌+◌, Text, Bool, true, false, not, ◌&&◌, Option, none, some, List, [], ◌∷◌, ◌++◌,
}
use devops_tools.Prelude.{
  Dict, lookup, insert, erase, has_key, ◌==◌, if◌then◌else◌, contains, filter, sort,
}
use devops_tools.Prelude.{map, sort_by, foldl, length, ltb}
use devops_tools.Config.Roles.{RoleSpec, RbacConfig}
use devops_tools.Store.Model.{User, Model, Change, Step, write, no_change, fail, not_found, key}

unfoldable pub copy_roles : Dict RoleSpec → Dict RoleSpec → Dict RoleSpec
copy_roles [] into = into
copy_roles ((name, spec) ∷ roles) into = copy_roles roles (insert name spec into)

-- The output says whether the store was seeded.
unfoldable pub seed_roles : RbacConfig → Change Bool
seed_roles cfg now m =
    if ltb 0 (length m.roles)
    then record { verdict = no_change; model = m; out = false }
    else record {
      verdict = write;
      model = record m { roles = copy_roles cfg.roles m.roles };
      out = true;
    }

unfoldable pub access_model : Model → List Text → RbacConfig
access_model m operations = record { operations = operations; roles = m.roles }

-- Every role with its name, in the order of the names.
unfoldable pub list_roles : Model → List (Text × RoleSpec)
list_roles m = sort_by (λ (name, _). name) m.roles

unfoldable pub save_role : Text → RoleSpec → Change Unit
save_role name spec now m = record {
  verdict = write;
  model = record m { roles = insert name spec m.roles };
  out = tt;
}

-- The usernames of those who hold a role.
unfoldable pub holders : Text → Dict User → List Text
holders name [] = []
holders name ((_, u) ∷ users) =
    let rest = holders name users in if contains u.roles name then u.username ∷ rest else rest

-- The output is the affected users.
unfoldable pub delete_role : Text → Change (List Text)
delete_role name now m =
    if not (has_key name m.roles)
    then record { verdict = fail not_found; model = m; out = [] }
    else record {
      verdict = write;
      model = record m { roles = erase name m.roles };
      out = sort (holders name m.users);
    }

pub record Membership : Type 0 where
  pub changed : List Text
  pub unchanged : List Text
  pub unknown : List Text

abbrev pub nobody : Membership
nobody = record { changed = []; unchanged = []; unknown = [] }

unfoldable pub same_bool : Bool → Bool → Bool
same_bool true b = b
same_bool false b = not b

-- One user's roles with one role added or taken away.
unfoldable pub move_role : Text → Bool → List Text → List Text
move_role role add roles =
    let kept = filter (λ r. not (r == role)) roles in sort (if add then kept ++ role ∷ [] else kept)

-- One round of the loop over the names.
unfoldable pub change_one : Text → Bool → Text → Dict User × Membership → Dict User × Membership
change_one role add name (users, out) = elim (lookup (key name) users) [
  | none ↦ (users, record out { unknown = out.unknown ++ name ∷ [] })
  | some u ↦
      if same_bool add (contains u.roles role)
      then (users, record out { unchanged = out.unchanged ++ u.username ∷ [] })
      else (
        insert (key name) (record u { roles = move_role role add u.roles }) users,
        record out { changed = out.changed ++ u.username ∷ [] },
      )
]

unfoldable pub change_each :
    Text → Bool → List Text → Dict User × Membership → Dict User × Membership
change_each role add [] state = state
change_each role add (name ∷ names) state =
    change_each role add names (change_one role add name state)

unfoldable pub change_role_membership : Text → List Text → Bool → Change Membership
change_role_membership role usernames add now m =
    if not (has_key role m.roles)
    then record { verdict = fail not_found; model = m; out = nobody }
    else let (users, out) = change_each role add usernames (m.users, nobody) in
      record {
        verdict = if ltb 0 (length out.changed) then write else no_change;
        model = record m { users = users };
        out = record {
          changed = sort out.changed;
          unchanged = sort out.unchanged;
          unknown = sort out.unknown;
        };
      }

unfoldable pub count_roles : List Text → Dict RoleSpec → Dict ℕ → Dict ℕ
count_roles [] roles out = out
count_roles (r ∷ rs) roles out = count_roles rs roles (
    if has_key r roles
    then insert r (elim (lookup r out) [ none ↦ 1 | some n ↦ n + 1 ]) out
    else out)

unfoldable pub count_users : Dict User → Dict RoleSpec → Dict ℕ → Dict ℕ
count_users [] roles out = out
count_users ((_, u) ∷ users) roles out = count_users users roles (count_roles u.roles roles out)

-- How many hold each role.
unfoldable pub role_holders : Model → Dict ℕ
role_holders m = count_users m.users m.roles (map (λ (name, _). (name, 0)) m.roles)

unfoldable pub role_exists : Model → Text → Bool
role_exists m name = has_key name m.roles
