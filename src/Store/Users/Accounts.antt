-- ===== src/Store/Users/Accounts.antt =====
-- What the changes to one user do, on every branch (internal/store/users.go and store.go).
use devops_tools.Prelude.{Text, ◌≡◌, ◌≢◌, refl, ap, arith, Bool, true, false, some, ◌⊎◌, inl, inr}
use devops_tools.Prelude.{List, Dict, lookup, insert, erase, lookup-insert, lookup-erase, NodupKeys}
use devops_tools.Prelude.{
  insert-NodupKeys, erase-NodupKeys, if◌then◌else◌, Option-cases, ◌∙◌, sym, subst,
}
use devops_tools.Store.Model.{User, Model, Time, Change, Step, fail, key}
use devops_tools.Store.Model.{Error}
use devops_tools.Store.Users.{
  record_seen, create_local_user, invite, set_password, set_roles, delete_user,
}

-- The changes that concern one user.
pub data UserChange : Type 0 where
  seen : Text → Text → Text → List Text → List Text → UserChange
  created : Text → Text → Text → List Text → UserChange
  invited : Text → Text → List Text → UserChange
  password : Text → Text → UserChange
  granted : Text → List Text → UserChange
  deleted : Text → UserChange

abbrev pub whom : UserChange → Text
whom (seen username _ _ _ _) = username
whom (created username _ _ _) = username
whom (invited username _ _) = username
whom (password username _) = username
whom (granted username _) = username
whom (deleted username) = username

abbrev pub run : UserChange → Change Unit
run (seen username email provider groups roles) = record_seen username email provider groups roles
run (created username email hash roles) = create_local_user username email hash roles
run (invited username email roles) = invite username email roles
run (password username hash) = set_password username hash
run (granted username roles) = set_roles username roles
run (deleted username) = delete_user username

-- Every record stands under the key of its own username, and no key stands twice.
pub record IsKeyed (users : Dict User) : Type 0 where
  pub distinct : NodupKeys users
  pub keyed : (k : Text) (u : User) → lookup k users ≡ some u → key u.username ≡ k

pub insert-IsKeyed :
    (k : Text) (u : User) (users : Dict User)
    → key u.username ≡ k
    → IsKeyed users
    → IsKeyed (insert k u users)
insert-IsKeyed k u users e h = record {
  distinct = insert-NodupKeys k u users h.distinct;
  keyed = λ j v found. ground (arith, lookup-insert k j u users, h.keyed j v);
}

erase-IsKeyed : (k : Text) (users : Dict User) → IsKeyed users → IsKeyed (erase k users)
erase-IsKeyed k users h = record {
  distinct = erase-NodupKeys k users h.distinct;
  keyed = λ j v found. ground (arith, lookup-erase k j users, h.keyed j v);
}

-- The users after a change to one of them; a record that is put has the new name, or that of the
-- record in its place.
data Shape (username : Text) (m m' : Model) : Type 0 where
  same : m'.users ≡ m.users → m'.roles ≡ m.roles → m'.lockouts ≡ m.lockouts → Shape username m m'
  put :
      (u : User)
      → m'.users ≡ insert (key username) u m.users
      → m'.roles ≡ m.roles
      → m'.lockouts ≡ m.lockouts
      → (u.username ≡ username)
        ⊎ ((old : User) × (lookup (key username) m.users ≡ some old) × (u.username ≡ old.username))
      → Shape username m m'
  gone :
      m'.users ≡ erase (key username) m.users
      → m'.roles ≡ m.roles
      → m'.lockouts ≡ m.lockouts
      → Shape username m m'

Shape-if :
    {username : Text} {m : Model} (b : Bool) (x y : Step Unit)
    → Shape username m x.model
    → Shape username m y.model
    → Shape username m (if b then x else y).model
Shape-if true x y h k = h
Shape-if false x y h k = k

run-Shape : (c : UserChange) (now : Time) (m : Model) → Shape (whom c) m (run c now m).model
unfolding record_seen create_local_user invite set_password set_roles delete_user
run-Shape (seen username email provider groups initial) now m =
    elim (Option-cases (lookup (key username) m.users)) [
      | inl e ↦ rw (e, record_seen) (put _ refl refl refl (inl refl))
      | inr (u, e) ↦
          rw (e, record_seen)
            (Shape-if _ _ _ (put _ refl refl refl (inl refl)) (put _ refl refl refl (inl refl)))
    ]
run-Shape (created username email hash roles) now m =
    Shape-if _ _ _ (same refl refl refl) (put _ refl refl refl (inl refl))
run-Shape (invited username email roles) now m =
    Shape-if _ _ _ (same refl refl refl) (put _ refl refl refl (inl refl))
run-Shape (password username hash) now m = elim (Option-cases (lookup (key username) m.users)) [
  | inl e ↦ rw (e, set_password) (same refl refl refl)
  | inr (u, e) ↦
      rw (e, set_password)
        (Shape-if _ _ _ (same refl refl refl) (put _ refl refl refl (inr (u, e, refl))))
]
run-Shape (granted username roles) now m = elim (Option-cases (lookup (key username) m.users)) [
  | inl e ↦ rw (e, set_roles) (same refl refl refl)
  | inr (u, e) ↦ rw (e, set_roles) (put _ refl refl refl (inr (u, e, refl)))
]
run-Shape (deleted username) now m = Shape-if _ _ _ (same refl refl refl) (gone refl refl refl)

-- What a change to one user leaves as it was.
pub record OnlyTouches (username : Text) (m m' : Model) : Type 0 where
  pub others : (k : Text) → k ≢ key username → lookup k m'.users ≡ lookup k m.users
  pub roles : m'.roles ≡ m.roles
  pub lockouts : m'.lockouts ≡ m.lockouts

OnlyTouches-of_Shape :
    {username : Text} {m m' : Model} → Shape username m m' → OnlyTouches username m m'
OnlyTouches-of_Shape (same u r l) = record {
  others = λ k n. ap (lookup k) u;
  roles = r;
  lockouts = l;
}
OnlyTouches-of_Shape {username} {m} (put u e r l named) = record {
  others = λ k n. ap (lookup k) e ∙ ground (arith, lookup-insert (key username) k u m.users);
  roles = r;
  lockouts = l;
}
OnlyTouches-of_Shape {username} {m} (gone e r l) = record {
  others = λ k n. ap (lookup k) e ∙ ground (arith, lookup-erase (key username) k m.users);
  roles = r;
  lockouts = l;
}

-- A change to one user, failing or not, leaves every other record, the roles and the lockouts as
-- they were.
pub run-OnlyTouches :
    (c : UserChange) (now : Time) (m : Model) → OnlyTouches (whom c) m (run c now m).model
run-OnlyTouches c now m = OnlyTouches-of_Shape (run-Shape c now m)

IsKeyed-of_Shape :
    {username : Text} {m m' : Model} → Shape username m m' → IsKeyed m.users → IsKeyed m'.users
IsKeyed-of_Shape (same u r l) h = subst IsKeyed (sym u) h
IsKeyed-of_Shape {username} {m} (put u e r l (inl p)) h =
    subst IsKeyed (sym e) (insert-IsKeyed (key username) u m.users (ap key p) h)
IsKeyed-of_Shape {username} {m} (put u e r l (inr (old, found, p))) h =
    subst IsKeyed (sym e)
      (insert-IsKeyed (key username) u m.users (ap key p ∙ h.keyed (key username) old found) h)
IsKeyed-of_Shape {username} {m} (gone e r l) h =
    subst IsKeyed (sym e) (erase-IsKeyed (key username) m.users h)

-- Every change to a user keeps the records under the keys of their usernames, each key once.
pub run-IsKeyed :
    (c : UserChange) (now : Time) (m : Model) → IsKeyed m.users → IsKeyed (run c now m).model.users
run-IsKeyed c now m h = IsKeyed-of_Shape (run-Shape c now m) h

-- A change that fails has changed nothing.
pub run_failed :
    (c : UserChange) (now : Time) (m : Model) {e : Error}
    → (run c now m).verdict ≡ fail e
    → (run c now m).model ≡ m
unfolding record_seen create_local_user invite set_password set_roles delete_user
run_failed (seen username email provider groups initial) now m h = ground arith
run_failed (created username email hash roles) now m h = ground arith
run_failed c now m h = ground arith
