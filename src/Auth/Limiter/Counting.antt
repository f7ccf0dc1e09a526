-- ===== src/Auth/Limiter/Counting.antt =====
-- Counting failures on one replica (internal/auth/limiter.go).
use devops_tools.Prelude.{
  ◌+◌, ◌≤◌, ◌<◌, Text, ◌≡◌, ◌≢◌, refl, ap, arith, Bool, true, not, Option, none, some, inl, inr,
}
use devops_tools.Prelude.{
  List, [], ◌∷◌, lookup, insert, lookup-insert, filter, length, ltb, leb, text_dec, Bool-cases,
  ◌&&◌, ◌||◌, ◌∙◌, NodupKeys, insert-NodupKeys, ◌⊎◌,
}
use devops_tools.Store.Model.{Time}
use devops_tools.Auth.Limiter.{
  AttemptRecord, Records, Lockouts, max_failed_attempts, lockout_window,
}
use devops_tools.Auth.Limiter.{is_shut_out, allow, failed_record, drop_elapsed, share, fail}

-- Dropping what has elapsed keeps a first record that has not.
lookup-drop_elapsed :
    (now : Time) (k : Text) (r : AttemptRecord) (records : Records)
    → lookup k records ≡ some r
    → now ≤ r.until
    → lookup k (drop_elapsed now records) ≡ some r
unfolding drop_elapsed filter lookup
lookup-drop_elapsed now k r [] found live = cc
lookup-drop_elapsed now k r ((j, x) ∷ records) found live =
    ground (arith, lookup-drop_elapsed now k r records)

module _ {D : Type 0} (shared : Option (Lockouts D)) where
  -- A failure leaves its record, whatever is dropped beside it.
  pub lookup-fail :
      (username : Text) (now : Time) (records : Records) (d : D)
      → lookup username (fail shared username now records d).0
        ≡ some (failed_record username now records)
  unfolding fail failed_record
  lookup-fail username now records d =
      let r = failed_record username now records in
      ground (
        arith,
        lookup-insert username username r records,
        lookup-drop_elapsed now username r (insert username r records),
      )

  -- The replica's part of a sign-in that fails at each of the times.
  unfoldable pub failures : Text → List Time → Records → D → Records × D
  failures username [] records d = (records, d)
  failures username (now ∷ times) records d =
      let (records', d') = fail shared username now records d in failures username times records' d'

-- Each time is no later than the end of the window before it, which the one before it opened.
unfoldable pub in_window : Time → List Time → Bool
in_window until [] = true
in_window until (now ∷ times) = leb now until && in_window (now + lockout_window) times

-- When the last window ends.
unfoldable pub window_end : Time → List Time → Time
window_end until [] = until
window_end until (now ∷ times) = window_end (now + lockout_window) times

module _ (username : Text) (now : Time) (records : Records) where
  pub first_record :
      lookup username records ≡ none
      → failed_record username now records ≡ record { failures = 1; until = now + lockout_window }
  unfolding failed_record
  first_record fresh = ground arith

  pub next_record :
      (r : AttemptRecord)
      → lookup username records ≡ some r
      → leb now r.until ≡ true
      → failed_record username now records
        ≡ record { failures = r.failures + 1; until = now + lockout_window }
  unfolding failed_record
  next_record r found live = ground arith

module _ {D : Type 0} (shared : Option (Lockouts D)) (username : Text) where
  lookup-failures :
      (r : AttemptRecord) (times : List Time) (records : Records) (d : D)
      → lookup username records ≡ some r
      → in_window r.until times ≡ true
      → lookup username (failures shared username times records d).0
        ≡ some (record { failures = r.failures + length times; until = window_end r.until times })
  unfolding failures in_window window_end
  lookup-failures r [] records d found h = ground arith
  lookup-failures r (now ∷ times) records d found h =
      let next : AttemptRecord = record {
        failures = r.failures + 1;
        until = now + lockout_window;
      } in
      let first = lookup-fail shared username now records d in
      let step = next_record username now records r found (ground arith) in
      let (records', d') = fail shared username now records d in
      ground (arith, lookup-failures next times records' d' (first ∙ ap some step) (ground arith))

  -- Failures that each fall within the window of the one before are counted together: while the
  -- last window is open another attempt is allowed if they are fewer than five, and after it
  -- always, as long as no replica's lockout is in force.
  pub allow-failures :
      (first now : Time) (times : List Time) (records : Records) (d d' : D)
      → lookup username records ≡ none
      → in_window (first + lockout_window) times ≡ true
      → (allow shared username now (failures shared username (first ∷ times) records d).0 d').0 ≡ (
          not (is_shut_out shared d' username now)
          && (ltb (window_end (first + lockout_window) times) now
              || ltb (length (first ∷ times)) max_failed_attempts))
  unfolding failures allow
  allow-failures first now times records d d' fresh h =
      let r : AttemptRecord = record { failures = 1; until = first + lockout_window } in
      let (records1, d1) = fail shared username first records d in
      let counted =
        lookup-failures r times records1 d1
          (lookup-fail shared username first records d
            ∙ ap some (first_record username first records fresh))
          h in
      ground (arith, counted)

lookup-drop_elapsed_later :
    (now now' : Time) (k : Text) (records : Records)
    → NodupKeys records
    → now ≤ now'
    → (lookup k (drop_elapsed now records) ≡ lookup k records)
      ⊎ ((lookup k (drop_elapsed now records) ≡ none)
          × (r : AttemptRecord) × (lookup k records ≡ some r)
          × (ltb r.until now' ≡ true))
unfolding drop_elapsed filter lookup
lookup-drop_elapsed_later now now' k [] d later = inl refl
lookup-drop_elapsed_later now now' k ((j, r) ∷ records) (fresh, d) later =
    elim (lookup-drop_elapsed_later now now' k records d later) [
      | inl e ↦ elim (text_dec j k) [
        | yes y ↦ elim (Bool-cases (ltb r.until now)) [
          | inl t ↦ inr (ground arith, r, ground arith, ground arith)
          | inr f ↦ inl (ground arith)
        ]
        | no n ↦ inl (ground arith)
      ]
      | inr (e, r', found, t) ↦ elim (text_dec j k) [
        | yes y ↦ absurd (ground arith)
        | no n ↦ inr (ground arith, r', ground arith, t)
      ]
    ]

module _ {D : Type 0} (shared : Option (Lockouts D)) where
  counted_apart :
      (username other : Text) (now now' : Time) (records : Records) (d d' : D)
      → username ≢ other
      → NodupKeys records
      → now ≤ now'
      → (allow shared other now' (fail shared username now records d).0 d').0
        ≡ (allow shared other now' records d').0
  unfolding fail allow
  counted_apart username other now now' records d d' ne nd later =
      let r = failed_record username now records in
      let same = lookup-insert username other r records in
      elim (lookup-drop_elapsed_later now now' other (insert username r records)
        (insert-NodupKeys username r records nd) later) [
          | inl e ↦ ground (arith, same, e)
          | inr (e, r', found, t) ↦ ground (arith, same)
        ]

-- Where no lockout is shared, or the failure is not the one that a lockout follows, the directory
-- is left as it was.
directory-fail :
    {D : Type 0} (shared : Option (Lockouts D)) (username : Text) (now : Time) (records : Records)
    (d : D)
    → (shared ≡ none) ⊎ ((failed_record username now records).failures < max_failed_attempts)
    → (fail shared username now records d).1 ≡ d
unfolding fail share
directory-fail none username now records d h = ground arith
directory-fail (some l) username now records d (inl h) = absurd cc
directory-fail (some l) username now records d (inr h) = ground arith

-- A failure counts against the name exactly as it was typed. Where no lockout is shared, or the
-- failure is below the fifth, any other name, also one that differs in case only, is after it
-- allowed as it was before it.
pub allow-fail_other :
    {D : Type 0} (shared : Option (Lockouts D)) (username other : Text) (now now' : Time)
    (records : Records) (d : D)
    → username ≢ other
    → NodupKeys records
    → now ≤ now'
    → (shared ≡ none) ⊎ ((failed_record username now records).failures < max_failed_attempts)
    → let (records', d') = fail shared username now records d in
      (allow shared other now' records' d').0 ≡ (allow shared other now' records d).0
allow-fail_other shared username other now now' records d ne nd later alone =
    counted_apart shared username other now now' records d (fail shared username now records d).1 ne
      nd later
    ∙ ap (λ x. (allow shared other now' records x).0)
        (directory-fail shared username now records d alone)
