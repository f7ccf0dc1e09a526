-- ===== src/Store/Codec.antt =====
-- internal/store/store.go: the stored document, and the model that it is read back into.
pub mod RoundTrip
use devops_tools.Prelude.{
  ℕ, ◌+◌, suc, Text, Bool, true, false, Option, none, some, List, [], ◌∷◌, ◌++◌,
}
use devops_tools.Prelude.{Dict, lookup, insert, map, dedup, sort, get_elem?, ℤ, ltb, if◌then◌else◌}
use devops_tools.Config.Roles.{RoleSpec}
use devops_tools.Store.Model.{User, Model, Time}

-- storedUser
pub record StoredUser : Type 0 where
  pub username : Text
  pub email : Text
  pub provider : Text
  pub groups : List Text
  pub group_ids : List ℤ
  pub roles : List Text
  pub first_seen : Time
  pub last_seen : Time
  pub password_hash : Text
  pub managed : Bool

-- `file`. A missing `users` section is `none`, and so is a null user.
pub record Document : Type 0 where
  pub version : ℤ
  pub groups : List Text
  pub users : Option (Dict (Option StoredUser))
  pub roles : Dict RoleSpec
  pub lockouts : Dict Time

abbrev pub current_version : ℕ
current_version = 3

-- The name at an index into the table, if it is one.
unfoldable pub group_at : List Text → ℤ → Option Text
group_at table (ℤ.pos i) = get_elem? table i
group_at table (ℤ.negsuc i) = none

-- The loop of expandGroups; an index outside of the table is passed over.
unfoldable pub expand_ids : List Text → List ℤ → List Text
expand_ids table [] = []
expand_ids table (i ∷ ids) =
    let rest = expand_ids table ids in elim (group_at table i) [ none ↦ rest | some g ↦ g ∷ rest ]

unfoldable pub expand_groups : StoredUser → List Text → List Text
expand_groups u table = elim u.group_ids [ [] ↦ u.groups | i ∷ ids ↦ expand_ids table (i ∷ ids) ]

-- The groups of every user, in a row.
unfoldable pub all_groups : Dict User → List Text
all_groups [] = []
all_groups ((_, u) ∷ users) = u.groups ++ all_groups users

-- The distinct group names, sorted.
unfoldable pub group_table : Dict User → List Text
group_table users = sort (dedup [] (all_groups users))

-- `for i, g := range table { index[g] = i }`, from the index `i` on
unfoldable pub index_table : ℕ → List Text → Dict ℕ → Dict ℕ
index_table i [] index = index
index_table i (g ∷ table) index = index_table (suc i) table (insert g i index)

-- index[g]; a missing key reads as 0
unfoldable pub index_of : Dict ℕ → Text → ℤ
index_of index g = ℤ.pos (elim (lookup g index) [ none ↦ 0 | some i ↦ i ])

unfoldable pub store_user : Dict ℕ → User → StoredUser
store_user index u = record {
  username = u.username;
  email = u.email;
  provider = u.provider;
  groups = [];
  group_ids = map (index_of index) u.groups;
  roles = u.roles;
  first_seen = u.first_seen;
  last_seen = u.last_seen;
  password_hash = u.password_hash;
  managed = u.managed;
}

unfoldable pub encode_file : Model → Document
encode_file m =
    let table = group_table m.users in
    let index = index_table 0 table [] in
    record {
      version = ℤ.pos current_version;
      groups = table;
      users = some (map (λ (k, u). (k, some (store_user index u))) m.users);
      roles = m.roles;
      lockouts = m.lockouts;
    }

unfoldable pub load_user : List Text → StoredUser → User
load_user table u = record {
  username = u.username;
  email = u.email;
  provider = u.provider;
  groups = expand_groups u table;
  roles = u.roles;
  first_seen = u.first_seen;
  last_seen = u.last_seen;
  password_hash = u.password_hash;
  managed = u.managed;
}

-- The loop of `set` over the users, which passes over a null one.
unfoldable pub load_users : List Text → Dict (Option StoredUser) → Dict User
load_users table [] = []
load_users table ((k, none) ∷ users) = load_users table users
load_users table ((k, some u) ∷ users) = (k, load_user table u) ∷ load_users table users

unfoldable pub set : Document → Model → Model
set f m = record m {
  users = load_users f.groups (elim f.users [ none ↦ [] | some users ↦ users ]);
  roles = f.roles;
  lockouts = f.lockouts;
}

-- f.Version > currentVersion
unfoldable pub is_newer : ℤ → Bool
is_newer (ℤ.pos n) = ltb current_version n
is_newer (ℤ.negsuc n) = false
