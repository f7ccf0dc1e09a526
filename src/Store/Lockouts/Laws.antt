-- ===== src/Store/Lockouts/Laws.antt =====
-- Recording, pruning and lifting lockouts (internal/store/users.go).
use devops_tools.Prelude.{◌≤◌, Text, ◌≡◌, refl, arith, Option, none, some, inl, inr}
use devops_tools.Prelude.{
  [], ◌∷◌, Dict, lookup, erase, lookup-insert, lookup-erase, NodupKeys, erase-NodupKeys, has_key,
  filter, ltb, ◌==◌, if◌then◌else◌, Option-cases,
}
use devops_tools.Store.Model.{Model, Time, key}
use devops_tools.Store.Lockouts.{locked_until, prune_lockouts, lock_until, unlock}

abbrev unexpired : Time → Option Time → Option Time
unexpired now none = none
unexpired now (some t) = if ltb t now then none else some t

lookup-prune_lockouts :
    (now : Time) (k : Text) (m : Dict Time)
    → NodupKeys m
    → lookup k (prune_lockouts now m) ≡ unexpired now (lookup k m)
unfolding prune_lockouts filter lookup
lookup-prune_lockouts now k [] d = refl
lookup-prune_lockouts now k ((j, t) ∷ m) (fresh, d) =
    ground (arith, lookup-prune_lockouts now k m d)

module _ (username name : Text) (now now' : Time) (m : Model) where
  -- A lockout holds for its account until it elapses, under every spelling of the name; every
  -- other account is locked as before. The elapsed ones that are pruned make no difference.
  pub locked_until-lock_until :
      (until : Time)
      → NodupKeys m.lockouts
      → now ≤ now'
      → locked_until (lock_until username until now m).model name now' ≡ (
          if key username == key name
          then (if ltb until now' then 0 else until)
          else locked_until m name now')
  unfolding lock_until locked_until
  locked_until-lock_until until d later = ground (
    arith,
    lookup-insert (key username) (key name) until (prune_lockouts now m.lockouts),
    lookup-prune_lockouts now (key name) m.lockouts d,
  )

  -- After it is lifted the account is not locked; every other account is locked as before.
  pub locked_until-unlock :
      NodupKeys m.lockouts
      → now ≤ now'
      → locked_until (unlock username now m).model name now'
        ≡ (if key username == key name then 0 else locked_until m name now')
  unfolding unlock locked_until has_key
  locked_until-unlock d later = elim (Option-cases (lookup (key username) m.lockouts)) [
    | inl e ↦ ground arith
    | inr (t, e) ↦ ground (
      arith,
      lookup-prune_lockouts now (key name) (erase (key username) m.lockouts)
          (erase-NodupKeys (key username) m.lockouts d),
      lookup-erase (key username) (key name) m.lockouts,
    )
  ]
