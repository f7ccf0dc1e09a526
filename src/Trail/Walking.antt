-- ===== src/Trail/Walking.antt =====
-- One round of the walk back through the windows (internal/auditlog/auditlog.go).
use devops_tools.Prelude.{
  ℕ, suc, ◌+◌, ◌-◌, ◌≤◌, ◌<◌, Bool, true, false, ◌&&◌, Option, none, some, List, ◌++◌, ◌≡◌, refl,
  arith, length, ltb,
}
use devops_tools.Trail.{Entry}
use devops_tools.Trail.Reading.{walk, from_of, window}

-- A window of at most a day within the limits, asked for at most so many entries.
pub record Asked (floor top limit from to left : ℕ) : Type 0 where
  pub not_before : floor ≤ from
  pub not_empty : from < to
  pub not_after : to ≤ top
  pub within_a_day : to ≤ from + window
  pub some_wanted : 0 < left
  pub not_too_many : left ≤ limit

pub asked :
    (floor top limit to taken : ℕ)
    → to ≤ top
    → (ltb floor to && ltb taken limit) ≡ true
    → Asked floor top limit (from_of floor to) to (limit - taken)
unfolding from_of
asked floor top limit to taken le h = record {
  not_before = ground arith;
  not_empty = ground arith;
  not_after = le;
  within_a_day = ground arith;
  some_wanted = ground arith;
  not_too_many = omega arith;
}

pub from_of-le : (floor top to : ℕ) → to ≤ top → ltb floor to ≡ true → from_of floor to ≤ top
unfolding from_of
from_of-le floor top to le h = ground arith

module _ (ask : ℕ → ℕ → ℕ → Option (List Entry)) (floor limit left to : ℕ) (out : List Entry) where
  abbrev pub goes_on : Bool
  goes_on = ltb floor to && ltb (length out) limit

  pub walk_stop : goes_on ≡ false → walk ask floor limit (suc left) to out ≡ some (out, to)
  unfolding walk
  walk_stop e = rw e refl

  pub walk_failed :
      goes_on ≡ true
      → ask (from_of floor to) to (limit - length out) ≡ none
      → walk ask floor limit (suc left) to out ≡ none
  unfolding walk
  walk_failed e h = rw (e, h) refl

  pub walk_on :
      (batch : List Entry)
      → goes_on ≡ true
      → ask (from_of floor to) to (limit - length out) ≡ some batch
      → walk ask floor limit (suc left) to out
        ≡ walk ask floor limit left (from_of floor to) (out ++ batch)
  unfolding walk
  walk_on batch e h = rw (e, h) refl
