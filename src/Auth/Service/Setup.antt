-- ===== src/Auth/Service/Setup.antt =====
-- internal/auth/auth.go: building the service for a provider.
use devops_tools.Prelude.{
  Text, ◌≡◌, ◌≢◌, arith, true, Option, none, some, inl, inr, Option-cases, Bool-cases,
  if◌then◌else◌,
}
use devops_tools.Store.Model.{Time}
use devops_tools.Auth.Limiter.{Records, Lockouts, allow}
use devops_tools.Auth.Service.{
  Service, Kind, local, ldap, oidc, Sessions, Directory, Provider, BootstrapConfig, Bcrypt, Account,
  is_enabled,
}
use devops_tools.Auth.Service.{panicked}
use devops_tools.Auth.Service.{
  sign_in, supports_login, bootstrap_enabled, bootstrap_login, by_provider, accept, reject, issued,
}

-- What New is given and what it builds: `none` stands for an error in building it.
pub record Parts (D : Type 0) : Type 0 where
  pub bootstrap : BootstrapConfig
  pub dir : Option (Directory D)
  pub shared : Option (Lockouts D)
  pub oidc_verifier : Option (Text → Option Account)
  pub session_manager : Option Sessions
  pub provider : Option (Provider D)

module _ {D : Type 0} where
  unfoldable pub assembled :
      Parts D → Kind → (Text → Option Account) → Option (Provider D) → Option Sessions → Service D
  assembled p kind verifier login sessions = record {
    kind = kind;
    verifier = verifier;
    login = login;
    sessions = sessions;
    shared = p.shared;
    dir = p.dir;
    bootstrap = p.bootstrap;
  }

  unfoldable pub with_credentials : Parts D → Kind → Option (Service D)
  with_credentials p kind = elim p.session_manager [
    | none ↦ none
    | some sessions ↦ elim p.provider [
      | none ↦ none
      | some login ↦ some (assembled p kind sessions.verify (some login) (some sessions))
    ]
  ]

  unfoldable pub with_tokens : Parts D → Option (Service D)
  with_tokens p = elim p.oidc_verifier [
    | none ↦ none
    | some verifier ↦
        if is_enabled p.bootstrap.password_login
        then (elim p.session_manager [
          | none ↦ none
          | some sessions ↦ some (assembled p oidc verifier none (some sessions))
        ])
        else some (assembled p oidc verifier none none)
  ]

  unfoldable pub new : Parts D → Kind → Option (Service D)
  new p oidc = with_tokens p
  new p local = with_credentials p local
  new p ldap = with_credentials p ldap

  -- Whoever may sign in with a password finds a session manager.
  abbrev Equipped : Service D → Type 0
  Equipped s = supports_login s ≡ true → s.sessions ≢ none

  issued-Equipped : (s : Service D) (u : Account) → s.sessions ≢ none → issued s u ≢ panicked
  unfolding issued
  issued-Equipped s u h p = elim (Option-cases s.sessions) [
    | inl e ↦ h e
    | inr (sessions, e) ↦ elim (Option-cases (sessions.issue u)) [
      | inl i ↦ ground arith
      | inr (t, i) ↦ ground arith
    ]
  ]

  accept-Equipped :
      (s : Service D) (username : Text) (u : Account) (now : Time) (records : Records) (d : D)
      → s.sessions ≢ none
      → (accept s username u now records d).0 ≢ panicked
  unfolding accept
  accept-Equipped s username u now records d h = issued-Equipped s _ h

  by_provider-Equipped :
      (s : Service D) (username password : Text) (now : Time) (records : Records) (d : D)
      → s.sessions ≢ none
      → (by_provider s username password now records d).0 ≢ panicked
  unfolding by_provider reject
  by_provider-Equipped s username password now records d h p = elim (Option-cases s.login) [
    | inl e ↦ ground arith
    | inr (provider, e) ↦ elim (Option-cases (provider username password d)) [
      | inl r ↦ ground arith
      | inr (u, r) ↦ ground (arith, accept-Equipped s username u now records d h)
    ]
  ]

  sign_in-Equipped :
      (s : Service D) (bcrypt : Bcrypt) (username password : Text) (now : Time) (records : Records)
      (d : D)
      → Equipped s
      → (sign_in s bcrypt username password now records d).0 ≢ panicked
  unfolding sign_in
  sign_in-Equipped s bcrypt username password now records d h p =
      elim (Bool-cases (supports_login s)) [
        | inr e ↦ ground arith
        | inl e ↦ elim (Bool-cases (allow s.shared username now records d).0) [
          | inr a ↦ ground arith
          | inl a ↦ elim (Option-cases (bootstrap_login s bcrypt username password)) [
            | inl b ↦ ground (
              arith,
              by_provider-Equipped s username password now (allow s.shared username now records d).1
                  d (h e),
            )
            | inr (u, b) ↦ ground (
              arith,
              accept-Equipped s username u now (allow s.shared username now records d).1 d (h e),
            )
          ]
        ]
      ]

  new-Equipped : (p : Parts D) (k : Kind) (s : Service D) → new p k ≡ some s → Equipped s
  unfolding new with_tokens with_credentials assembled supports_login bootstrap_enabled
  new-Equipped p local s h e n = ground arith
  new-Equipped p ldap s h e n = ground arith
  new-Equipped p oidc s h e n = ground arith

  -- A service that was built without an error never uses a session manager that it does not have,
  -- whatever is typed into its sign-in form.
  pub sign_in-new :
      (p : Parts D) (k : Kind) (s : Service D)
      → new p k ≡ some s
      → (bcrypt : Bcrypt) (username password : Text) (now : Time) (records : Records) (d : D)
      → (sign_in s bcrypt username password now records d).0 ≢ panicked
  sign_in-new p k s h bcrypt username password now records d =
      sign_in-Equipped s bcrypt username password now records d (new-Equipped p k s h)
