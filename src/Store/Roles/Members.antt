-- ===== src/Store/Roles/Members.antt =====
-- Granting and revoking one role across many users (internal/store/roles.go).
use devops_tools.Prelude.{
  ℕ, ◌+◌, Text, ◌≡◌, arith, Bool, true, false, not, ◌&&◌, none, some, inl, inr,
}
use devops_tools.Prelude.{
  List, [], ◌∷◌, ◌++◌, Dict, lookup, lookup-insert, ◌==◌, if◌then◌else◌, contains, filter, any,
}
use devops_tools.Prelude.{
  contains-filter, contains-append, contains-sort, Option-cases, has_key, length, length-append,
  length-sort_by,
}
use devops_tools.Store.Model.{User, Model, Time, Step, key, roles_for, known}
use devops_tools.Store.Users.Accounts.{IsKeyed, insert-IsKeyed}
use devops_tools.Store.Roles.{
  Membership, same_bool, move_role, change_one, change_each, change_role_membership, nobody,
}

-- Who holds which role, by the key of the user.
abbrev holds : Dict User → Text → Text → Bool
holds users k r = elim (lookup k users) [ none ↦ false | some u ↦ contains u.roles r ]

contains-move_role :
    (role : Text) (add : Bool) (roles : List Text) (r : Text)
    → contains (move_role role add roles) r ≡ (if role == r then add else contains roles r)
unfolding move_role contains
contains-move_role role true roles r = ground (
  arith,
  contains-sort r (filter (λ x. not (x == role)) roles ++ role ∷ []),
  contains-append r (filter (λ x. not (x == role)) roles) (role ∷ []),
  contains-filter (λ x. not (x == role)) r roles,
)
contains-move_role role false roles r = ground (
  arith,
  contains-sort r (filter (λ x. not (x == role)) roles),
  contains-filter (λ x. not (x == role)) r roles,
)

abbrev total : Membership → ℕ
total out = length out.changed + length out.unchanged + length out.unknown

module _ (role : Text) (add : Bool) where
  abbrev moved : User → User
  moved u = record u { roles = move_role role add u.roles }

  has_key-change_one :
      (name k : Text) (st : Dict User × Membership)
      → has_key k (change_one role add name st).0 ≡ has_key k st.0
  unfolding change_one has_key
  has_key-change_one name k st = elim (Option-cases (lookup (key name) st.0)) [
    | inl e ↦ rw (e, change_one)
    | inr (u, e) ↦ ground (arith, lookup-insert (key name) k (moved u) st.0)
  ]

  holds-change_one :
      (name k r : Text) (st : Dict User × Membership)
      → holds (change_one role add name st).0 k r
        ≡ (if role == r && key name == k && has_key k st.0 then add else holds st.0 k r)
  unfolding change_one has_key same_bool
  holds-change_one name k r st = elim (Option-cases (lookup (key name) st.0)) [
    | inl e ↦ ground arith
    | inr (u, e) ↦
        ground
          (arith, lookup-insert (key name) k (moved u) st.0, contains-move_role role add u.roles r)
  ]

  total-change_one :
      (name : Text) (st : Dict User × Membership)
      → total (change_one role add name st).1 ≡ total st.1 + 1
  unfolding change_one
  total-change_one name st = elim (Option-cases (lookup (key name) st.0)) [
    | inl e ↦ rw (e, change_one) (omega (arith, length-append {0} st.1.unknown (name ∷ [])))
    | inr (u, e) ↦ ground (
      arith,
      length-append {0} st.1.unchanged (u.username ∷ []),
      length-append {0} st.1.changed (u.username ∷ []),
    )
  ]

  IsKeyed-change_one :
      (name : Text) (st : Dict User × Membership)
      → IsKeyed st.0
      → IsKeyed (change_one role add name st).0
  unfolding change_one
  IsKeyed-change_one name st h = elim (Option-cases (lookup (key name) st.0)) [
    | inl e ↦ rw (e, change_one) h
    | inr (u, e) ↦
        ground (arith, insert-IsKeyed (key name) (moved u) st.0 (h.keyed (key name) u e) h)
  ]

  holds-change_each :
      (names : List Text) (k r : Text) (st : Dict User × Membership)
      → holds (change_each role add names st).0 k r ≡ (
          if role == r && any (λ n. key n == k) names && has_key k st.0
          then add
          else holds st.0 k r)
  unfolding change_each any
  holds-change_each [] k r st = ground arith
  holds-change_each (name ∷ names) k r st = ground (
    arith,
    holds-change_each names k r (change_one role add name st),
    holds-change_one name k r st,
    has_key-change_one name k st,
  )

  total-change_each :
      (names : List Text) (st : Dict User × Membership)
      → total (change_each role add names st).1 ≡ total st.1 + length names
  unfolding change_each
  total-change_each [] st = omega arith
  total-change_each (name ∷ names) st =
      omega (arith, total-change_each names (change_one role add name st), total-change_one name st)

  IsKeyed-change_each :
      (names : List Text) (st : Dict User × Membership)
      → IsKeyed st.0
      → IsKeyed (change_each role add names st).0
  unfolding change_each
  IsKeyed-change_each [] st h = h
  IsKeyed-change_each (name ∷ names) st h =
      IsKeyed-change_each names (change_one role add name st) (IsKeyed-change_one name st h)

  module _ (usernames : List Text) (now : Time) (m : Model) where
    abbrev after : Step Membership
    after = change_role_membership role usernames add now m

    -- After a change of membership of a role that exists, exactly the named users on record hold
    -- it if it was granted, and none of them if it was revoked; everybody else's roles, and
    -- everybody's other roles, are what they were.
    pub contains-change_role_membership :
        has_key role m.roles ≡ true
        → (n r : Text)
        → contains (roles_for after.model n) r ≡ (
            if role == r && any (λ x. key x == key n) usernames && known m n
            then add
            else contains (roles_for m n) r)
    unfolding change_role_membership roles_for known contains
    contains-change_role_membership exists n r =
        ground (arith, holds-change_each usernames (key n) r (m.users, nobody))

    -- The report puts every given name into one of its three lists, once for each time it was
    -- given.
    pub total-change_role_membership :
        has_key role m.roles ≡ true
        → length after.out.changed + length after.out.unchanged + length after.out.unknown
          ≡ length usernames
    unfolding change_role_membership
    total-change_role_membership exists =
        let out = (change_each role add usernames (m.users, nobody)).1 in
        rw exists (
          omega (
            arith,
            total-change_each usernames (m.users, nobody),
            length-sort_by {0} (λ s. s) out.changed,
            length-sort_by {0} (λ s. s) out.unchanged,
            length-sort_by {0} (λ s. s) out.unknown,
          ))

    -- The change keeps the records under the keys of their usernames.
    pub change_role_membership-IsKeyed : IsKeyed m.users → IsKeyed after.model.users
    unfolding change_role_membership
    change_role_membership-IsKeyed h =
        ground (arith, IsKeyed-change_each usernames (m.users, nobody) h)
