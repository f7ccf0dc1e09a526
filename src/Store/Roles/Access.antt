-- ===== src/Store/Roles/Access.antt =====
-- The stored roles against the decisions that the authorizer takes from them
-- (internal/store/roles.go and internal/rbac/rbac.go).
use devops_tools.Prelude.{
  ◌<◌, Text, ◌≡◌, ◌≢◌, refl, arith, Bool, true, false, not, ◌&&◌, Option, none, some,
}
use devops_tools.Prelude.{
  List, [], ◌∷◌, Dict, lookup, insert, lookup-insert, lookup-erase, NodupKeys, ◌==◌, if◌then◌else◌,
  contains, filter, any, has_key,
}
use devops_tools.Prelude.{contains-sort, length, ◌∙◌}
use devops_tools.Config.Roles.{RoleSpec, RbacConfig}
use devops_tools.Rbac.{new, allowed, allowed_global, allowed_config, any_role}
use devops_tools.Store.Model.{User, Model, Time, Step, write, no_change}
use devops_tools.Store.Roles.{seed_roles, copy_roles, access_model, delete_role, holders}

abbrev pub without : Text → List Text → List Text
without name roles = filter (λ r. not (r == name)) roles

any_role-erase :
    (m m' : Model) (ops : List Text) (name : Text)
    → ((r : Text) → lookup r m'.roles ≡ (if name == r then none else lookup r m.roles))
    → (test : RoleSpec → Bool) (roles : List Text)
    → any_role (access_model m' ops) test roles
      ≡ any_role (access_model m ops) test (without name roles)
unfolding any_role access_model any filter
any_role-erase m m' ops name h test [] = refl
any_role-erase m m' ops name h test (r ∷ roles) =
    ground (arith, h r, any_role-erase m m' ops name h test roles)

module _ (name : Text) (now : Time) (m : Model) (ops : List Text) where
  -- Once a role is deleted, holding it permits nothing: every decision, in a namespace, globally
  -- and on a configuration path, is the one that the model before takes without that role.
  pub allowed-delete_role :
      has_key name m.roles ≡ true
      → (roles : List Text) (where_ op : Text)
      → let after = new (access_model (delete_role name now m).model ops) in
        let before = new (access_model m ops) in
        (allowed after roles where_ op ≡ allowed before (without name roles) where_ op)
        × (allowed_global after roles op ≡ allowed_global before (without name roles) op)
        × (allowed_config after roles where_ op
            ≡ allowed_config before (without name roles) where_ op)
  unfolding allowed allowed_global allowed_config new
  allowed-delete_role exists roles where_ op =
      let gone = any_role-erase m (delete_role name now m).model ops name erased in
      (gone _ roles, gone _ roles, gone _ roles)
    where
      erased :
          (r : Text)
          → lookup r (delete_role name now m).model.roles
            ≡ (if name == r then none else lookup r m.roles)
      erased r = unfold delete_role in rw exists (lookup-erase name r m.roles)

contains-holders :
    (name n : Text) (users : Dict User)
    → contains (holders name users) n
      ≡ any (λ (_, u). contains u.roles name && u.username == n) users
unfolding contains holders any
contains-holders name n [] = refl
contains-holders name n ((k, u) ∷ users) = ground (arith, contains-holders name n users)

-- Deleting a role that exists reports exactly the users who hold it.
pub contains-delete_role :
    (name : Text) (now : Time) (m : Model) (n : Text)
    → has_key name m.roles ≡ true
    → contains (delete_role name now m).out n
      ≡ any (λ (_, u). contains u.roles name && u.username == n) m.users
unfolding delete_role
contains-delete_role name now m n exists =
    rw exists (contains-sort n (holders name m.users) ∙ contains-holders name n m.users)

lookup-copy_roles :
    (k : Text) (roles into : Dict RoleSpec)
    → NodupKeys roles
    → lookup k (copy_roles roles into)
      ≡ elim (lookup k roles) as (λ _. Option RoleSpec) [ none ↦ lookup k into | some r ↦ some r ]
unfolding copy_roles lookup
lookup-copy_roles k [] into d = refl
lookup-copy_roles k ((name, spec) ∷ roles) into (fresh, d) =
    ground
      (arith, lookup-copy_roles k roles (insert name spec into) d, lookup-insert name k spec into)

length-insert : (k : Text) (v : RoleSpec) (m : Dict RoleSpec) → 0 < length (insert k v m)
unfolding insert
length-insert k v [] = omega arith
length-insert k v ((j, w) ∷ m) = ground (arith, length-insert k v m)

length-copy_roles :
    (roles into : Dict RoleSpec) → 0 < length into → 0 < length (copy_roles roles into)
unfolding copy_roles
length-copy_roles [] into h = h
length-copy_roles ((name, spec) ∷ roles) into h =
    length-copy_roles roles (insert name spec into) (length-insert name spec into)

copied-pos : (roles : Dict RoleSpec) → roles ≢ [] → 0 < length (copy_roles roles [])
unfolding copy_roles
copied-pos [] h = absurd (h refl)
copied-pos ((name, spec) ∷ roles) h =
    length-copy_roles roles (insert name spec []) (length-insert name spec [])

abbrev seeded : RbacConfig → Model → Step Bool
seeded cfg m = record {
  verdict = write;
  model = record m { roles = copy_roles cfg.roles [] };
  out = true;
}

seed_roles-empty :
    (cfg : RbacConfig) (now : Time) (m : Model) → m.roles ≡ [] → seed_roles cfg now m ≡ seeded cfg m
unfolding seed_roles
seed_roles-empty cfg now m e = ground arith

seed_roles-full :
    (cfg : RbacConfig) (now : Time) (m : Model)
    → 0 < length m.roles
    → seed_roles cfg now m ≡ record { verdict = no_change; model = m; out = false }
unfolding seed_roles
seed_roles-full cfg now m e = ground arith

-- Seeding an empty store copies the deployed roles, and says so; from then on no seeding, with
-- whatever roles, changes anything or says that it did.
pub seed_roles_once :
    (cfg later : RbacConfig) (now now' : Time) (m : Model)
    → m.roles ≡ []
    → cfg.roles ≢ []
    → NodupKeys cfg.roles
    → let seeded = seed_roles cfg now m in
      (seeded.out ≡ true)
      × ((k : Text) → lookup k seeded.model.roles ≡ lookup k cfg.roles)
      × (seed_roles later now' seeded.model
          ≡ record { verdict = no_change; model = seeded.model; out = false })
unfolding lookup
seed_roles_once cfg later now now' m empty some_roles d = rw (seed_roles-empty cfg now m empty) (
  refl,
  λ k. ground (arith, lookup-copy_roles k cfg.roles [] d),
  seed_roles-full later now' (seeded cfg m).model (copied-pos cfg.roles some_roles),
)
