-- ===== src/Auth/Service/Login.antt =====
-- Who is signed in (internal/auth/auth.go).
use devops_tools.Prelude.{
  Text, ◌≡◌, refl, ap, arith, true, Option, none, some, inl, inr, Option-cases, Bool-cases,
  equal_fold, trim_space,
}
use devops_tools.Store.Model.{Time}
use devops_tools.Auth.Limiter.{Records, allow}
use devops_tools.Auth.Service.{
  Service, Provider, Bcrypt, Account, SignIn, signed_in, bad_credentials, refused,
}
use devops_tools.Auth.Service.{
  is_enabled, bootstrap_enabled, sign_in, supports_login, bootstrap_login, by_provider, accept,
  reject, issued, roles_for,
}

module _ {D : Type 0} (s : Service D) (bcrypt : Bcrypt) (username password : Text) where
  -- Whose credentials they are: those of the break-glass account, or ones that the provider takes.
  pub data Vouched (d : D) (u : Account) : Type 0 where
    by_break_glass :
        is_enabled s.bootstrap.password_login ≡ true
        → equal_fold (trim_space username) (trim_space s.bootstrap.password_login.username) ≡ true
        → bcrypt s.bootstrap.password_login.password_hash password ≡ true
        → u.username ≡ s.bootstrap.password_login.username
        → Vouched d u
    by_login :
        (provider : Provider D)
        → s.login ≡ some provider
        → provider username password d ≡ some u
        → Vouched d u

  bootstrap_login-Vouched :
      (d : D) (u : Account) → bootstrap_login s bcrypt username password ≡ some u → Vouched d u
  unfolding bootstrap_login bootstrap_enabled
  bootstrap_login-Vouched d u h =
      let l = s.bootstrap.password_login in
      elim (Bool-cases (equal_fold (trim_space username) (trim_space l.username))) [
        | inr m ↦ absurd (ground arith)
        | inl m ↦ elim (Bool-cases (bcrypt l.password_hash password)) [
          | inr p ↦ absurd (ground arith)
          | inl p ↦ elim (Bool-cases (is_enabled l)) [
            | inr e ↦ absurd (ground arith)
            | inl e ↦ by_break_glass e m p (ground arith)
          ]
        ]
      ]

  -- What a sign-in rests on.
  pub record SoundFor (d d' : D) (u : Account) : Type 0 where
    pub vouched_for : Account
    pub vouched : Vouched d vouched_for
    pub same_name : u.username ≡ vouched_for.username
    pub resolved : u.roles ≡ roles_for s u.username d'

  issued-signed_in :
      (u x : Account) (expires : Time) (token : Text)
      → issued s x ≡ signed_in token expires u
      → u ≡ x
  unfolding issued
  issued-signed_in u x expires token h = elim (Option-cases s.sessions) [
    | inl e ↦ absurd (ground arith)
    | inr (sessions, e) ↦ elim (Option-cases (sessions.issue x)) [
      | inl i ↦ absurd (ground arith)
      | inr (t, i) ↦ ground arith
    ]
  ]

  accepted :
      (u u' : Account) (now expires : Time) (token : Text) (records : Records) (d e : D)
      → Vouched e u'
      → (accept s username u' now records d).0 ≡ signed_in token expires u
      → SoundFor e (accept s username u' now records d).2 u
  unfolding accept
  accepted u u' now expires token records d e v h =
      let same = issued-signed_in u _ expires token h in
      record {
        vouched_for = u';
        vouched = v;
        same_name = ap (λ a. a.username) same;
        resolved = rw same refl;
      }

  provided :
      (u : Account) (now expires : Time) (token : Text) (records : Records) (d : D)
      → (by_provider s username password now records d).0 ≡ signed_in token expires u
      → SoundFor d (by_provider s username password now records d).2 u
  unfolding by_provider reject
  provided u now expires token records d h = go s.login refl h
    where
      run : Option (Provider D) → SignIn × Records × D
      run login = elim login [
        | none ↦ reject s bad_credentials username now records d
        | some provider ↦ elim (provider username password d) [
          | none ↦ reject s refused username now records d
          | some u ↦ accept s username u now records d
        ]
      ]

      go :
          (login : Option (Provider D))
          → s.login ≡ login
          → (run login).0 ≡ signed_in token expires u
          → SoundFor d (run login).2 u
      go none e k = absurd (ground arith)
      go (some provider) e k = ask (provider username password d) refl k
        where
          answer : Option Account → SignIn × Records × D
          answer r = elim r [
            | none ↦ reject s refused username now records d
            | some u ↦ accept s username u now records d
          ]

          ask :
              (r : Option Account)
              → provider username password d ≡ r
              → (answer r).0 ≡ signed_in token expires u
              → SoundFor d (answer r).2 u
          ask none q j = absurd (ground arith)
          ask (some u') q j = accepted u u' now expires token records d d (by_login provider e q) j

  -- Whoever is signed in was let through by the limiter and gave either the name, whatever its
  -- case, and the password of the break-glass account, which is enabled, or credentials that the provider takes; the name is that of the account they
  -- belong to, and the roles are those that the directory and the bootstrap grant give that name
  -- once the sign-in is registered, whatever roles the provider came with.
  pub sign_in-SoundFor :
      (u : Account) (now expires : Time) (token : Text) (records : Records) (d : D)
      → (sign_in s bcrypt username password now records d).0 ≡ signed_in token expires u
      → ((allow s.shared username now records d).0 ≡ true)
        × SoundFor d (sign_in s bcrypt username password now records d).2 u
  unfolding sign_in
  sign_in-SoundFor u now expires token records d h = elim (Bool-cases (supports_login s)) [
    | inr e ↦ absurd (ground arith)
    | inl e ↦ elim (Bool-cases (allow s.shared username now records d).0) [
      | inr a ↦ absurd (ground arith)
      | inl a ↦ (
        a,
        elim (Option-cases (bootstrap_login s bcrypt username password)) [
          | inl b ↦
              rw (e, a, b)
                (provided u now expires token (allow s.shared username now records d).1 d
                  (ground arith))
          | inr (u', b) ↦
              rw (e, a, b)
                (accepted u u' now expires token (allow s.shared username now records d).1 d d
                  (bootstrap_login-Vouched d u' b) (ground arith))
        ],
      )
    ]
  ]
