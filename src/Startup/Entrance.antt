-- ===== src/Startup/Entrance.antt =====
-- Who can sign in under a configuration that was accepted (internal/config/config.go), by the
-- rules of internal/auth.
use devops_tools.Prelude.{
  ℕ, suc, Text, Bool, true, false, ◌&&◌, ◌||◌, Option, none, some, List, [], ◌∷◌, ◌≡◌, ◌≢◌, refl,
  arith, Option-cases, inl, inr, In, here, there, is_empty, to_lower, has_key, insert, Dict,
  contains, In-map, map, contains_of_In, has_key-insert, Distinct, ◌∙◌,
}
use devops_tools.Auth.Service.{Service, BootstrapConfig, is_enabled, grants, roles_for}
use devops_tools.Auth.Service.Roles.{contains-roles_for}
use devops_tools.Auth.Local.{LocalUser, index_users}
use devops_tools.Startup.{AppConfig, provider_local}
use devops_tools.Startup.Hashes.{check_bcrypt_hash, check_bcrypt_hash-eq-none_iff}
use devops_tools.Startup.Validation.{
  ConfigError, then_check, refuse_if, check_users, validate_local, validate_login,
  validate_provider, validate, is_none, is_nonempty,
}

then_check-none : (a b : Option ConfigError) → then_check a b ≡ none → (a ≡ none) × (b ≡ none)
unfolding then_check
then_check-none none b h = (refl, h)
then_check-none (some e) b h = absurd (ground arith)

refuse_if-none :
    (t : Bool) (e : ConfigError) (rest : Option ConfigError)
    → refuse_if t e rest ≡ none
    → (t ≡ false) × (rest ≡ none)
unfolding refuse_if
refuse_if-none true e rest h = absurd (ground arith)
refuse_if-none false e rest h = (refl, h)

grants-roles : (b : BootstrapConfig) (name : Text) → grants b name ≡ true → b.roles ≢ []
unfolding grants
grants-roles b name h e = ground arith

or_true : (b : Bool) → (b || true) ≡ true
or_true b = ground arith

-- The key of a configured account.
abbrev pub login_key : LocalUser → Text
login_key u = to_lower u.username

module _ (is_hash : Text → Bool) where
  -- The parts of an accepted configuration that let somebody in.
  validate-parts :
      (is_level : Text → Bool) (c : AppConfig)
      → validate is_hash is_level c ≡ none
      → (validate_provider is_hash c ≡ none)
        × ((is_nonempty c.auth.bootstrap.users && is_none c.auth.bootstrap.roles) ≡ false)
        × (validate_login is_hash c.auth.bootstrap ≡ none)
  unfolding validate
  validate-parts is_level c h =
      let (_, a) = refuse_if-none _ _ _ h in
      let (_, b) = then_check-none _ _ a in
      let (provider, d) = then_check-none _ _ b in
      let (roles, e) = refuse_if-none _ _ _ d in
      let (login, _) = then_check-none _ _ e in (provider, roles, login)

  validate_login-grants :
      (b : BootstrapConfig)
      → validate_login is_hash b ≡ none
      → is_enabled b.password_login ≡ true
      → grants b b.password_login.username ≡ true
  unfolding validate_login is_enabled refuse_if
  validate_login-grants b h on =
      elim (Option-cases (check_bcrypt_hash is_hash b.password_login.password_hash)) [
        | inl e ↦ ground arith
        | inr (x, e) ↦ absurd (ground arith)
      ]

  -- Under a configuration that was accepted, whoever signs in with the break-glass account holds
  -- every role of the bootstrap administrators, whatever the directory says, and there is at least
  -- one.
  pub validate-roles_for :
      {D : Type 0} (is_level : Text → Bool) (c : AppConfig) (s : Service D) (d : D)
      → validate is_hash is_level c ≡ none
      → s.bootstrap ≡ c.auth.bootstrap
      → is_enabled c.auth.bootstrap.password_login ≡ true
      → (c.auth.bootstrap.roles ≢ [])
        × ((role : Text)
            → In role c.auth.bootstrap.roles
            → contains (roles_for s c.auth.bootstrap.password_login.username d) role ≡ true)
  validate-roles_for is_level c s d h same on =
      let (_, _, login) = validate-parts is_level c h in
      let granted = validate_login-grants c.auth.bootstrap login on in
      (
        grants-roles c.auth.bootstrap _ granted,
        λ role m.
            let held = contains-roles_for s c.auth.bootstrap.password_login.username d role in
            let named = contains_of_In m in held ∙ rw (same, granted, named) (or_true _),
      )

  check_users-hashes :
      (i : ℕ) (us : List LocalUser)
      → check_users is_hash i us ≡ none
      → (u : LocalUser) → In u us
      → (u.username ≢ []) × (is_hash u.password_hash ≡ true)
  unfolding check_users
  check_users-hashes i [] h u m = elim m [ ]
  check_users-hashes i (x ∷ us) h u m =
      let (named, a) = refuse_if-none _ _ _ h in
      let (_, b) = refuse_if-none _ _ _ a in
      elim (Option-cases (check_bcrypt_hash is_hash x.password_hash)) [
        | inr (e, p) ↦ absurd (ground arith)
        | inl p ↦
            first_or_later x u named p (λ m'. check_users-hashes (suc i) us (ground arith) u m') m
      ]
    where
      first_or_later :
          (x u : LocalUser)
          → is_empty x.username ≡ false
          → check_bcrypt_hash is_hash x.password_hash ≡ none
          → (In u us → (u.username ≢ []) × (is_hash u.password_hash ≡ true))
          → In u (x ∷ us)
          → (u.username ≢ []) × (is_hash u.password_hash ≡ true)
      first_or_later x u named p rest here =
          (λ e. ground arith, ((check_bcrypt_hash-eq-none_iff is_hash x.password_hash).0 p).0)
      first_or_later x u named p rest (there m) = rest m

  index_users_some :
      (us : List LocalUser) (users : Dict LocalUser)
      → ((u : LocalUser)
          → In u us
          → (is_hash u.password_hash ≡ true) × (has_key (to_lower u.username) users ≡ false))
      → Distinct (map login_key us)
      → index_users is_hash us users ≢ none
  unfolding index_users
  index_users_some [] users h d = λ e. ground arith
  index_users_some (x ∷ us) users h (fresh, d) =
      let (hash, absent) = h x here in
      rw (absent, hash)
        (index_users_some us (insert (to_lower x.username) x users)
          (λ u m.
            let (hash', absent') = h u (there m) in
            let listed = contains_of_In (In-map login_key m) in
            let added = has_key-insert (to_lower x.username) (to_lower u.username) x users in
            (hash', ground arith))
          d)

  -- The accounts of an accepted configuration, of which no two differ only in the case of the
  -- letters, are accepted by the local provider.
  pub validate-index_users :
      (is_level : Text → Bool) (c : AppConfig)
      → validate is_hash is_level c ≡ none
      → c.auth.provider ≡ provider_local
      → Distinct (map login_key c.auth.local_users)
      → index_users is_hash c.auth.local_users [] ≢ none
  unfolding validate_provider validate_local has_key
  validate-index_users is_level c h local_ d =
      let (provider, _, _) = validate-parts is_level c h in
      let (_, users) = refuse_if-none _ _ _ (local_checks provider) in
      index_users_some c.auth.local_users []
        (λ u m. ((check_users-hashes 0 c.auth.local_users users u m).1, refl)) d
    where
      local_checks :
          validate_provider is_hash c ≡ none
          → validate_local is_hash c.auth.local_users c.auth.bootstrap ≡ none
      local_checks p = ground arith
