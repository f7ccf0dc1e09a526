-- ===== src/Startup/Hashes.antt =====
-- internal/config/config.go: what is accepted as a bcrypt hash. The reading of the prefix,
-- bcrypt.Cost, is a parameter.
use devops_tools.Prelude.{
  ℕ, Text, text, Bool, true, not, Option, none, some, [], ◌∷◌, ◌≡◌, refl, arith, eqb, all, any,
  length, byte_length, utf8_width, if◌then◌else◌, ◌↔◌, Bool-cases, inl, inr, ◌<◌, ltb,
}

abbrev pub bcrypt_alphabet : Text
bcrypt_alphabet = text "./ABCDEFGHIJKLMNOPQRSTUVWXYZabcdefghijklmnopqrstuvwxyz0123456789"

-- strings.ContainsRune
unfoldable pub has_char : Text → ℕ → Bool
has_char s c = any (λ d. eqb d c) s

-- What follows the last `c`, if there is one.
unfoldable pub after_last : ℕ → Text → Option Text
after_last c [] = none
after_last c (d ∷ s) = elim (after_last c s) [
  | some t ↦ some t
  | none ↦ if eqb d c then some s else none
]

-- h[strings.LastIndexByte(h, '$')+1:]
unfoldable pub hash_body : Text → Text
hash_body h = elim (after_last b'$' h) [ none ↦ h | some t ↦ t ]

pub data HashError : Type 0 where
  not_bcrypt : HashError
  truncated : ℕ → HashError
  bad_character : ℕ → HashError

-- The loop over the characters.
unfoldable pub check_characters : Text → Option HashError
check_characters [] = none
check_characters (c ∷ s) =
    let rest = check_characters s in
    if not (has_char bcrypt_alphabet c) then some (bad_character c) else rest

unfoldable pub check_bcrypt_hash : (Text → Bool) → Text → Option HashError
check_bcrypt_hash is_hash h =
    let body = hash_body h in
    if not (is_hash h)
    then some not_bcrypt
    else if not (eqb (byte_length body) 53)
    then some (truncated (byte_length body))
    else check_characters body

check_characters-all :
    (s : Text) → (check_characters s ≡ none) ↔ (all (has_char bcrypt_alphabet) s ≡ true)
unfolding check_characters all
check_characters-all [] = (λ h. refl, λ h. refl)
check_characters-all (c ∷ s) = (
  λ h. ground (arith, (check_characters-all s).0),
  λ h. ground (arith, (check_characters-all s).1),
)

has_char-ascii :
    (s : Text) (c : ℕ) → all (λ d. ltb d 0x80) s ≡ true → has_char s c ≡ true → c < 0x80
unfolding has_char any all
has_char-ascii [] c a h = absurd (ground arith)
has_char-ascii (d ∷ s) c a h = elim (Bool-cases (eqb d c)) [
  | inl e ↦ ground arith
  | inr e ↦ has_char-ascii s c (ground arith) (ground arith)
]

-- In the alphabet a character is a byte.
byte_length-alphabet :
    (s : Text) → all (has_char bcrypt_alphabet) s ≡ true → byte_length s ≡ length s
unfolding byte_length utf8_width all
byte_length-alphabet [] h = refl
byte_length-alphabet (c ∷ s) h =
    let ascii = has_char-ascii bcrypt_alphabet c (unfold all in refl) in
    ground (arith, ascii, byte_length-alphabet s)

-- A hash is accepted exactly when bcrypt can read its prefix and what follows the last `$` is 53
-- characters of bcrypt's alphabet.
pub check_bcrypt_hash-eq-none_iff :
    (is_hash : Text → Bool) (h : Text)
    → (check_bcrypt_hash is_hash h ≡ none) ↔ (
        (is_hash h ≡ true)
        × (length (hash_body h) ≡ 53)
        × (all (has_char bcrypt_alphabet) (hash_body h) ≡ true))
unfolding check_bcrypt_hash
check_bcrypt_hash-eq-none_iff is_hash h = (
  λ e.
      let chars = (check_characters-all (hash_body h)).0 (ground arith) in
      let same = byte_length-alphabet (hash_body h) chars in (ground arith, ground arith, chars),
  λ (a, n, chars).
      let same = byte_length-alphabet (hash_body h) chars in
      let passed = (check_characters-all (hash_body h)).1 chars in ground arith,
)
