-- ===== src/Store/Codec/RoundTrip.antt =====
-- Writing the model down and reading it back (internal/store/store.go).
use devops_tools.Prelude.{ℕ, suc, ◌+◌, Text, ◌≡◌, refl, true, ◌||◌, some, List, [], ◌∷◌}
use devops_tools.Prelude.{
  Dict, lookup, lookup-insert, insert, map, get_elem?, arith, contains, text_dec,
}
use devops_tools.Prelude.{
  lookup_of_has_key, has_key, has_key-insert, ◌∙◌, contains-sort, contains-dedup, contains-append,
  ◌⊎◌, inl, inr,
}
use devops_tools.Store.Model.{User, Model}
use devops_tools.Store.Codec.{group_at, expand_ids, expand_groups, all_groups}
use devops_tools.Store.Codec.{
  group_table, index_table, index_of, store_user, encode_file, load_user,
}
use devops_tools.Store.Codec.{load_users, set}

-- Where a name of the list stands at the position `i` of the whole table.
get_elem?-index_table :
    (i : ℕ) (rest : List Text) (g : Text) (index : Dict ℕ)
    → (j : ℕ) → lookup g (index_table i rest index) ≡ some j
    → ((k : ℕ) × (j ≡ i + k) × (get_elem? rest k ≡ some g)) ⊎ (lookup g index ≡ some j)
unfolding index_table
get_elem?-index_table i [] g index j h = inr h
get_elem?-index_table i (x ∷ rest) g index j h =
    elim (get_elem?-index_table (suc i) rest g (insert x i index) j h) [
      | inl (k, e, at) ↦ inl (suc k, omega arith, at)
      | inr old ↦ elim (text_dec x g) [
        | yes p ↦ inl (0, ground (arith, lookup-insert x g i index), ground arith)
        | no n ↦ inr (ground (arith, lookup-insert x g i index))
      ]
    ]

has_key-index_table :
    (i : ℕ) (rest : List Text) (g : Text) (index : Dict ℕ)
    → has_key g (index_table i rest index) ≡ (contains rest g || has_key g index)
unfolding index_table contains
has_key-index_table i [] g index = refl
has_key-index_table i (x ∷ rest) g index =
    ground
      (arith, has_key-index_table (suc i) rest g (insert x i index), has_key-insert x g i index)

module _ (table : List Text) where
  abbrev index : Dict ℕ
  index = index_table 0 table []

  group_at-index_of :
      (g : Text) → contains table g ≡ true → group_at table (index_of index g) ≡ some g
  unfolding index_of group_at lookup
  group_at-index_of g h =
      let (j, found) =
        lookup_of_has_key g index (ground (arith, has_key-index_table 0 table g [])) in
      elim (get_elem?-index_table 0 table g [] j found) [
        | inl (k, e, at) ↦ ground arith
        | inr old ↦ absurd (ground arith)
      ]

  expand_ids-index_of :
      (gs : List Text)
      → ((g : Text) → contains gs g ≡ true → contains table g ≡ true)
      → expand_ids table (map (index_of index) gs) ≡ gs
  unfolding expand_ids contains
  expand_ids-index_of [] h = refl
  expand_ids-index_of (g ∷ gs) h = ground (
    arith,
    group_at-index_of g (h g (ground arith)),
    expand_ids-index_of gs (λ x m. h x (ground arith)),
  )

  groups-store_user :
      (u : User)
      → ((g : Text) → contains u.groups g ≡ true → contains table g ≡ true)
      → expand_groups (store_user index u) table ≡ u.groups
  unfolding expand_groups store_user
  groups-store_user u h = go u.groups (expand_ids-index_of u.groups h)
    where
      go :
          (gs : List Text)
          → expand_ids table (map (index_of index) gs) ≡ gs
          → elim (map (index_of index) gs) as (λ _. List Text) [
            | [] ↦ []
            | i ∷ ids ↦ expand_ids table (i ∷ ids)
          ]
            ≡ gs
      go [] e = refl
      go (g ∷ gs) e = e

  load_user-store_user :
      (u : User)
      → ((g : Text) → contains u.groups g ≡ true → contains table g ≡ true)
      → load_user table (store_user index u) ≡ u
  unfolding load_user store_user
  load_user-store_user u h = λ i. record u { groups = groups-store_user u h i }

  load_users-map :
      (users : Dict User)
      → ((g : Text) → contains (all_groups users) g ≡ true → contains table g ≡ true)
      → load_users table (map (λ (k, u). (k, some (store_user index u))) users) ≡ users
  unfolding load_users all_groups
  load_users-map [] h = refl
  load_users-map ((k, u) ∷ users) h = rw (
    load_user-store_user u
        (λ g m. h g (ground (arith, contains-append g u.groups (all_groups users)))),
    load_users-map users
        (λ g m. h g (ground (arith, contains-append g u.groups (all_groups users)))),
  )

contains-group_table :
    (users : Dict User) (g : Text) → contains (group_table users) g ≡ contains (all_groups users) g
unfolding group_table
contains-group_table users g = contains-sort g _ ∙ contains-dedup g _

-- Every model is written down so that reading the document back restores the users with their
-- groups, the roles and the lockouts, whatever the model `m'` in memory by then; only the mark of
-- unwritten sightings is that of `m'`.
pub set-encode_file :
    (m m' : Model) → set (encode_file m) m' ≡ record m { seen_dirty = m'.seen_dirty }
unfolding set encode_file
set-encode_file m m' = λ i. record m {
  users =
      load_users-map (group_table m.users) m.users (λ g e. contains-group_table m.users g ∙ e) i;
  seen_dirty = m'.seen_dirty;
}
