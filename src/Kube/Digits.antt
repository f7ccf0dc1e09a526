-- ===== src/Kube/Digits.antt =====
-- internal/kube/pods.go: the decimal digits of an int32, written into a buffer of twelve bytes.
use devops_tools.Prelude.{
  ℕ, zero, suc, ◌+◌, ◌-◌, ◌*◌, ◌^◌, ◌<◌, ◌≤◌, Text, text, Option, none, some, [], ◌∷◌, ℤ, pos,
  negsuc, ◌≡◌, refl, arith, eqb, length, if◌then◌else◌, Bool-cases, inl, inr, ◌∙◌, ap,
}
use Prim.Native.Nat.{◌/◌, ◌%◌}

abbrev pub buffer_size : ℕ
buffer_size = 12

-- The loop, with the places that are left before those that are written; `none` is the panic of an
-- index below zero.
unfoldable pub digits : ℕ → ℕ → Text → Option Text
digits zero i written = if eqb i 0 then some written else none
digits (suc places) i written =
    let rest = digits places (i / 10) ((b'0' + i % 10) ∷ written) in
    if eqb i 0 then some written else rest

unfoldable pub itoa : ℤ → Option Text
itoa (pos i) = if eqb i 0 then some (text "0") else digits buffer_size i []
itoa (negsuc i) = some []

-- The number that decimal digits stand for.
unfoldable pub value_from : ℕ → Text → ℕ
value_from n [] = n
value_from n (c ∷ s) = value_from (n * 10 + (c - b'0')) s

unfoldable pub value : Text → ℕ
value s = value_from 0 s

abbrev power : ℕ → ℕ
power zero = 1
power (suc k) = 10 * power k

whole : (i : ℕ) → i / 10 * 10 + (b'0' + i % 10 - b'0') ≡ i
whole i = omega arith

-- The places that are left suffice, and each digit takes one.
digits_exact :
    (k places i : ℕ) (written : Text)
    → k ≤ places
    → i < power k
    → (s : Text) × (digits places i written ≡ some s)
      × (value_from 0 s ≡ value_from i written)
      × (length s ≤ length written + k)
unfolding digits value_from
digits_exact zero zero i written h small = (written, ground arith, ground arith, ground arith)
digits_exact zero (suc places) i written h small =
    (written, ground arith, ground arith, ground arith)
digits_exact (suc k) zero i written h small = absurd (ground arith)
digits_exact (suc k) (suc places) i written h small = elim (Bool-cases (eqb i 0)) [
  | inl e ↦ (written, ground arith, ground arith, ground arith)
  | inr e ↦
      let (s, found, same, short) =
        digits_exact k places (i / 10) ((b'0' + i % 10) ∷ written) (omega arith) (omega arith) in
      (s, rw e found, same ∙ ap (λ t. value_from t written) (whole i), omega (arith, short))
]

-- Every int32 that is not negative is written without running out of the buffer, in ten digits at
-- most, and the digits are those of the number.
pub itoa_exact :
    (i : ℕ) → i < 2 ^ 31 → (s : Text) × (itoa (pos i) ≡ some s) × (value s ≡ i) × (length s ≤ 10)
unfolding itoa value value_from
itoa_exact i small = elim (Bool-cases (eqb i 0)) [
  | inl e ↦ (text "0", rw e refl, ground arith, ground arith)
  | inr e ↦
      let (s, found, same, short) = digits_exact 10 buffer_size i [] (omega arith) (omega arith) in
      (s, rw e found, same, short)
]
