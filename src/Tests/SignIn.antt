-- ===== src/Tests/SignIn.antt =====
-- The limiter at small inputs (internal/auth/limiter.go).
use devops_tools.Prelude.{inl, text, ◌≡◌, refl, false, Option, none, some, arith}
use devops_tools.Prelude.{[], ◌∷◌, lookup, has_key, text_dec, ℕ_discrete, insert, filter}
use devops_tools.Prelude.{trim_space, trim_left, trim_right, to_lower, lower, is_space}
use devops_tools.Store.Model.{key, known}
use devops_tools.Store.Lockouts as Locks
use devops_tools.Store.Codec.{encode_file}
use devops_tools.Store.Mutate.{
  mutate, encode, attempt, round, settle, written, persist, persisted, Store,
}
use devops_tools.Store.Operations
use devops_tools.Auth.Limiter.{Records, AttemptRecord, Lockouts, allow, fail, failed_record, share}
use devops_tools.Auth.Limiter.Counting.{in_window, allow-fail_other}
use devops_tools.Auth.Limiter.Sharing.{directory, allow_shared_lockout}
use devops_tools.Tests.World.{json, server, Server, current, stored}

program : Unit {0}
unfolding lookup has_key text_dec ℕ_discrete key trim_space trim_left trim_right to_lower lower
    is_space insert known Locks.locked_until Locks.lock_until Locks.prune_lockouts Locks.unlock
    encode mutate attempt round settle written persist persisted Operations.lock_until
    Operations.unlock failed_record in_window filter fail share encode_file
program = tt

abbrev four : AttemptRecord
four = record { failures = 4; until = 2000 }

abbrev counted : Records
counted = (text "alice", four) ∷ []

abbrev alone : Option (Lockouts Unit)
alone = none

-- A failure under one spelling, with four counted under another.
allow-fail_other_example :
    (allow alone
      (text "alice")
      1500
      (fail alone (text "Alice") 1000 counted tt).0
      (fail alone (text "Alice") 1000 counted tt).1).0
    ≡ (allow alone (text "alice") 1500 counted tt).0
unfolding program
allow-fail_other_example =
    allow-fail_other alone (text "Alice") (text "alice") 1000 1500 counted tt (λ p. cc) (refl, tt)
      (omega arith) (inl refl)

abbrev after_five : Store × Server
after_five = (fail (some (directory json server)) (text "alice") 1000 counted (current, stored)).1

abbrev shut : Store
shut = after_five.0

allow_shared_lockout_example :
    (allow (some (directory json server)) (text " ALICE") 1500 [] (shut, stored)).0 ≡ false
unfolding program
allow_shared_lockout_example =
    allow_shared_lockout json server (text "alice") 1000 counted current stored refl refl refl refl
      shut stored (text " ALICE") 1500 [] refl refl (omega arith)
