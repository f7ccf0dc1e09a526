-- ===== src/Auth/Service/Throttle.antt =====
-- Guessing a password (internal/auth/auth.go with limiter.go).
use devops_tools.Prelude.{
  suc, ◌+◌, ◌≤◌, ◌<◌, Text, ◌≡◌, refl, ap, sym, subst, ◌∙◌, arith, true, false, none, some, inl,
  inr, Option-cases, List, [], ◌∷◌, length, lookup,
}
use devops_tools.Store.Model.{Time}
use devops_tools.Auth.Limiter.{
  Records, AttemptRecord, allow, fail, is_shut_out, max_failed_attempts, lockout_window,
}
use devops_tools.Auth.Limiter.Counting.{
  failures, in_window, window_end, lookup-fail, next_record, first_record, allow-failures,
}
use devops_tools.Auth.Service.{
  Service, Provider, Bcrypt, SignIn, too_many_attempts, sign_in, supports_login, bootstrap_login,
  by_provider, reject,
}

-- What a sign-in leaves.
abbrev pub left : {D : Type 0} → SignIn × Records × D → Records × D
left (_, records, d) = (records, d)

module _ {D : Type 0} (s : Service D) (bcrypt : Bcrypt) (username : Text) where
  -- Neither the break-glass account nor the provider takes the password.
  pub record IsWrong (password : Text) : Type 0 where
    pub no_break_glass : bootstrap_login s bcrypt username password ≡ none
    pub no_login :
        (provider : Provider D) (d : D)
        → s.login ≡ some provider
        → provider username password d ≡ none

  -- The state after a sign-in at each of the times, with the password that is paired with it.
  unfoldable pub guesses : List (Time × Text) → Records → D → Records × D
  guesses [] records d = (records, d)
  guesses ((now, password) ∷ rest) records d =
      let (records', d') = left (sign_in s bcrypt username password now records d) in
      guesses rest records' d'

  abbrev pub times : List (Time × Text) → List Time
  times [] = []
  times ((now, _) ∷ rest) = now ∷ times rest

  abbrev pub AllWrong : List (Time × Text) → Type 0
  AllWrong [] = Unit
  AllWrong ((_, password) ∷ rest) = IsWrong password × AllWrong rest

  rejected :
      (password : Text) (now : Time) (records : Records) (d : D)
      → IsWrong password
      → left (by_provider s username password now records d) ≡ fail s.shared username now records d
  unfolding by_provider reject
  rejected password now records d w = elim (Option-cases s.login) [
    | inl e ↦ rw (e, by_provider) refl
    | inr (provider, e) ↦ rw (e, by_provider, w.no_login provider d e) refl
  ]

  counted :
      (password : Text) (now : Time) (records : Records) (d : D)
      → supports_login s ≡ true
      → IsWrong password
      → allow s.shared username now records d ≡ (true, records)
      → left (sign_in s bcrypt username password now records d)
        ≡ fail s.shared username now records d
  unfolding sign_in
  counted password now records d on w open_ =
      let through : (allow s.shared username now records d).0 ≡ true = ap (λ t. t.0) open_ in
      let same : (allow s.shared username now records d).1 ≡ records = ap (λ t. t.1) open_ in
      rw (on, through, w.no_break_glass)
        (ap (λ x. left (by_provider s username password now x d)) same
          ∙ rejected password now records d w)

  locked :
      (password : Text) (now : Time) (records : Records) (d : D)
      → supports_login s ≡ true
      → (allow s.shared username now records d).0 ≡ false
      → (sign_in s bcrypt username password now records d).0 ≡ too_many_attempts
  unfolding sign_in
  locked password now records d on shut = rw (on, shut) refl

  allow_fresh :
      (now : Time) (records : Records) (d : D)
      → s.shared ≡ none
      → lookup username records ≡ none
      → allow s.shared username now records d ≡ (true, records)
  unfolding allow is_shut_out
  allow_fresh now records d alone fresh = rw (alone, fresh) refl

  allow_counting :
      (r : AttemptRecord) (now : Time) (records : Records) (d : D)
      → s.shared ≡ none
      → lookup username records ≡ some r
      → now ≤ r.until
      → r.failures < max_failed_attempts
      → allow s.shared username now records d ≡ (true, records)
  unfolding allow is_shut_out
  allow_counting r now records d alone found live few = rw alone (ground arith)

  guesses-failures :
      (r : AttemptRecord) (gs : List (Time × Text)) (records : Records) (d : D)
      → supports_login s ≡ true
      → s.shared ≡ none
      → AllWrong gs
      → lookup username records ≡ some r
      → in_window r.until (times gs) ≡ true
      → r.failures + length gs ≤ max_failed_attempts
      → guesses gs records d ≡ failures s.shared username (times gs) records d
  unfolding guesses failures in_window
  guesses-failures r [] records d on alone wrong found win few = refl
  guesses-failures r ((now, password) ∷ gs) records d on alone (w, wrong) found win few =
      let next : AttemptRecord = record {
        failures = r.failures + 1;
        until = now + lockout_window;
      } in
      let step =
        counted password now records d on w
          (allow_counting r now records d alone found (ground arith) (omega arith)) in
      let recorded =
        lookup-fail s.shared username now records d
        ∙ ap some (next_record username now records r found (ground arith)) in
      let (records', d') = fail s.shared username now records d in
      ap (λ t. guesses gs t.0 t.1) step
      ∙ guesses-failures next gs records' d' on alone wrong recorded (ground arith) (omega arith)

  times-length : (gs : List (Time × Text)) → length (times gs) ≡ length gs
  times-length [] = refl
  times-length (g ∷ gs) = ap suc (times-length gs)

  -- Five wrong passwords for a name, each within the window of the one before and from no count,
  -- shut the name out of this replica until the window of the last one ends: the right password
  -- is refused too. The replica shares no lockouts.
  pub sign_in_throttled :
      (first now : Time) (guess : Text) (gs : List (Time × Text)) (password : Text)
      (records : Records) (d : D)
      → supports_login s ≡ true
      → s.shared ≡ none
      → AllWrong ((first, guess) ∷ gs)
      → lookup username records ≡ none
      → in_window (first + lockout_window) (times gs) ≡ true
      → length gs ≡ 4
      → now ≤ window_end (first + lockout_window) (times gs)
      → let (records', d') = guesses ((first, guess) ∷ gs) records d in
        (sign_in s bcrypt username password now records' d').0 ≡ too_many_attempts
  unfolding guesses failures
  sign_in_throttled first now guess gs password records d on alone (w, wrong) fresh win five live =
      let step = counted guess first records d on w (allow_fresh first records d alone fresh) in
      let r : AttemptRecord = record { failures = 1; until = first + lockout_window } in
      let recorded =
        lookup-fail s.shared username first records d
        ∙ ap some (first_record username first records fresh) in
      let (records1, d1) = fail s.shared username first records d in
      let total =
        ap (λ t. guesses gs t.0 t.1) step
        ∙ guesses-failures r gs records1 d1 on alone wrong recorded win (omega (arith, five)) in
      let (records', d') = failures s.shared username (first ∷ times gs) records d in
      let denied = allow-failures s.shared username first now (times gs) records d d' fresh win in
      subst (λ t. (sign_in s bcrypt username password now t.0 t.1).0 ≡ too_many_attempts)
        (sym total) (locked password now records' d' on (ground (arith, denied, times-length gs)))
