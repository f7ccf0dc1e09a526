-- ===== src/Store/Users/Seen.antt =====
-- Sightings and role names (internal/store/store.go and users.go).
use devops_tools.Prelude.{
  is_empty, Text, ◌≡◌, ◌≢◌, ◌↔◌, refl, arith, true, false, not, ◌&&◌, some, inl, inr,
}
use devops_tools.Prelude.{
  List, [], ◌∷◌, lookup, lookup-insert, if◌then◌else◌, contains, Distinct, map,
}
use devops_tools.Prelude.{trim_space, Option-cases, has_key}
use devops_tools.Store.Model.{
  User, Model, Time, Step, no_change, key, get, roles_for, invited, known,
}
use devops_tools.Store.Users.{record_seen, same_strings, normalise_roles, normalise_from}

same_strings-eq : (xs ys : List Text) → same_strings xs ys ≡ true → xs ≡ ys
unfolding same_strings
same_strings-eq [] [] h = refl
same_strings-eq [] (y ∷ ys) h = cc
same_strings-eq (x ∷ xs) [] h = cc
same_strings-eq (x ∷ xs) (y ∷ ys) h = ground (arith, same_strings-eq xs ys)

same_strings_refl : (xs : List Text) → same_strings xs xs ≡ true
unfolding same_strings
same_strings_refl [] = refl
same_strings_refl (x ∷ xs) = ground (arith, same_strings_refl xs)

module _ (username email provider : Text) (groups initial : List Text) (now : Time)
    (m : Model) where
  abbrev after : Step Unit
  after = record_seen username email provider groups initial now m

  abbrev newcomer : User
  newcomer = record {
    username = username;
    email = email;
    provider = provider;
    groups = groups;
    roles = initial;
    first_seen = now;
    last_seen = now;
    password_hash = [];
    managed = false;
  }

  abbrev sighted : User → User
  sighted u = record u {
    username = username;
    email = email;
    provider = provider;
    groups = groups;
    last_seen = now;
  }

  -- A sighting refreshes who somebody is and when they were seen; the roles are the initial ones
  -- for a name met for the first time, and those already assigned for any other.
  pub record_seen-roles :
      (u : User) × (get after.model username ≡ some u)
      × (u.username ≡ username)
      × (u.email ≡ email)
      × (u.provider ≡ provider)
      × (u.groups ≡ groups)
      × (u.last_seen ≡ now)
      × (u.roles ≡ (if known m username then roles_for m username else initial))
  unfolding record_seen get known roles_for has_key
  record_seen-roles = elim (Option-cases (lookup (key username) m.users)) [
    | inl e ↦ (
      newcomer,
      ground (arith, lookup-insert (key username) (key username) newcomer m.users),
      refl,
      refl,
      refl,
      refl,
      refl,
      ground arith,
    )
    | inr (u, e) ↦ (
      sighted u,
      ground (arith, lookup-insert (key username) (key username) (sighted u) m.users),
      refl,
      refl,
      refl,
      refl,
      refl,
      ground arith,
    )
  ]

  -- Only a sighting with nothing to report is left to the next flush: the name is on record and
  -- claimed, and email, provider and groups are those on record.
  pub record_seen-no_change_iff : (after.verdict ≡ no_change) ↔ (
      (u : User) × (get m username ≡ some u)
      × (u.last_seen ≢ 0)
      × (u.email ≡ email)
      × (u.provider ≡ provider)
      × (u.groups ≡ groups))
  unfolding record_seen get invited
  record_seen-no_change_iff = (
    λ h. elim (Option-cases (lookup (key username) m.users)) [
      | inl e ↦ absurd (ground arith)
      | inr (u, e) ↦ (
        u,
        e,
        ground arith,
        ground arith,
        ground arith,
        same_strings-eq u.groups groups (ground arith),
      )
    ],
    λ (u, e, claimed, em, pr, gr). ground (arith, same_strings_refl groups),
  )

contains-normalise_from :
    (x : Text) (seen roles : List Text)
    → contains (normalise_from seen roles) x
      ≡ (not (is_empty x) && not (contains seen x) && contains (map trim_space roles) x)
unfolding contains normalise_from
contains-normalise_from x seen [] = ground arith
contains-normalise_from x seen (r ∷ roles) = ground (
  arith,
  contains-normalise_from x seen roles,
  contains-normalise_from x (trim_space r ∷ seen) roles,
)

normalise_from-Distinct : (seen roles : List Text) → Distinct (normalise_from seen roles)
unfolding contains normalise_from
normalise_from-Distinct seen [] = tt
normalise_from-Distinct seen (r ∷ roles) = ground (
  arith,
  normalise_from-Distinct seen roles,
  normalise_from-Distinct (trim_space r ∷ seen) roles,
  contains-normalise_from (trim_space r) (trim_space r ∷ seen) roles,
)

-- The normalised roles are the trimmed names that are not blank, each once.
pub normalise_roles_lem :
    (roles : List Text)
    → Distinct (normalise_roles roles)
      × ((x : Text)
          → contains (normalise_roles roles) x
            ≡ (not (is_empty x) && contains (map trim_space roles) x))
unfolding normalise_roles contains
normalise_roles_lem roles =
    (normalise_from-Distinct [] roles, λ x. ground (arith, contains-normalise_from x [] roles))
