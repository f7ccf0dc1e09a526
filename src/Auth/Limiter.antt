-- ===== src/Auth/Limiter.antt =====
-- internal/auth/limiter.go: the throttle on failed password attempts. A call reads the clock once.
pub mod Counting
pub mod Sharing
use devops_tools.Prelude.{
  ℕ, ◌+◌, ◌*◌, Text, Bool, true, false, not, ◌&&◌, Option, none, some, List, [], ◌∷◌,
}
use devops_tools.Prelude.{Dict, lookup, insert, erase, filter, length, ltb, leb, eqb, if◌then◌else◌}
use devops_tools.Store.Model.{Time, Error}

abbrev pub max_failed_attempts : ℕ
max_failed_attempts = 5

-- Five minutes.
abbrev pub lockout_window : Time
lockout_window = 300 * 1000000000

-- How many records are kept before the elapsed ones are dropped.
abbrev pub max_records : ℕ
max_records = 10000

pub record AttemptRecord : Type 0 where
  pub failures : ℕ
  pub until : Time

abbrev pub Records : Type 0
Records = Dict AttemptRecord

-- The part of a directory `D` that can hold a lockout for every replica to see.
pub record Lockouts (D : Type 0) : Type 0 where
  pub locked_until : D → Text → Time → Time
  pub lock_until : Text → Time → D → Option Error × D
  pub unlock : Text → D → Option Error × D
  pub known : D → Text → Bool

-- The record of a failure: the old one with one more, or a new one.
unfoldable pub failed_record : Text → Time → Records → AttemptRecord
failed_record username now records =
    let failures : ℕ = elim (lookup username records) [
      | none ↦ 0
      | some r ↦ if ltb r.until now then 0 else r.failures
    ] in
    record { failures = failures + 1; until = now + lockout_window }

unfoldable pub drop_elapsed : Time → Records → Records
drop_elapsed now records = filter (λ (_, r). not (ltb r.until now)) records

module _ {D : Type 0} (shared : Option (Lockouts D)) where
  -- Whether a lockout that some replica decided is in force.
  unfoldable pub is_shut_out : D → Text → Time → Bool
  is_shut_out d username now = elim shared [
    | none ↦ false
    | some l ↦ not (eqb (l.locked_until d username now) 0)
  ]

  unfoldable pub allow : Text → Time → Records → D → Bool × Records
  allow username now records d =
      if is_shut_out d username now then (false, records) else elim (lookup username records) [
        | none ↦ (true, records)
        | some r ↦
            if ltb r.until now
            then (true, erase username records)
            else (ltb r.failures max_failed_attempts, records)
      ]

  -- Recording a lockout; an error is logged and passed over.
  unfoldable pub share : Text → Time → D → D
  share username now d = elim shared [
    | none ↦ d
    | some l ↦
        if not (l.known d username)
        then d
        else if not (eqb (l.locked_until d username now) 0)
        then d
        else (l.lock_until username (now + lockout_window) d).1
  ]

  unfoldable pub fail : Text → Time → Records → D → Records × D
  fail username now records d =
      let r = failed_record username now records in
      let counted = insert username r records in
      let kept = if ltb max_records (length counted) then drop_elapsed now counted else counted in
      (kept, if leb max_failed_attempts r.failures then share username now d else d)

  unfoldable pub reset : Text → Time → Records → D → Records × D
  reset username now records d = (
    erase username records,
    elim shared [
      | none ↦ d
      | some l ↦ if not (eqb (l.locked_until d username now) 0) then (l.unlock username d).1 else d
    ],
  )
