-- ===== src/Auth/Service.antt =====
-- internal/auth/auth.go and local.go: signing in, and what a request may do. The directory, the
-- token verifier, the session manager and bcrypt are parameters.
pub mod Roles
pub mod Setup
pub mod Login
pub mod Revoked
pub mod Throttle
use devops_tools.Prelude.{
  ℕ, Text, text, Bool, true, false, not, ◌&&◌, ◌||◌, Option, none, some, List, [], ◌∷◌, ◌++◌,
}
use devops_tools.Prelude.{
  Dict, lookup, insert, has_key, contains, filter, any, is_empty, equal_fold, trim_space, to_lower,
  ◌==◌, if◌then◌else◌,
}
use devops_tools.Store.Model.{Time, Error}
use devops_tools.Auth.Limiter.{Records, Lockouts, allow, fail, reset}

-- config.BootstrapLogin and config.BootstrapConfig
pub record BootstrapLogin : Type 0 where
  pub username : Text
  pub password_hash : Text

pub record BootstrapConfig : Type 0 where
  pub users : List Text
  pub roles : List Text
  pub password_login : BootstrapLogin

unfoldable pub is_enabled : BootstrapLogin → Bool
is_enabled b = not (is_empty b.username) && not (is_empty b.password_hash)

unfoldable pub grants : BootstrapConfig → Text → Bool
grants b username =
    if is_empty_list b.roles
    then false
    else any (λ u. equal_fold (trim_space u) (trim_space username)) b.users
  where
    is_empty_list : List Text → Bool
    is_empty_list [] = true
    is_empty_list (_ ∷ _) = false

-- User
pub record Account : Type 0 where
  pub username : Text
  pub email : Text
  pub roles : List Text
  pub groups : List Text

-- `record_seen` takes the username, the email, the provider, the groups and the initial roles.
pub record Directory (D : Type 0) : Type 0 where
  pub record_seen : Text → Text → Text → List Text → List Text → D → Option Error × D
  pub roles_for : D → Text → List Text
  pub groups_for : D → Text → List Text

pub record Sessions : Type 0 where
  pub issue : Account → Option (Text × Time)
  pub verify : Text → Option Account

-- bcrypt.CompareHashAndPassword succeeds.
abbrev pub Bcrypt : Type 0
Bcrypt = Text → Text → Bool

-- A login provider, over a directory and whatever else it reads; `none` is its error.
abbrev pub Provider : Type 0 → Type 0
Provider D = Text → Text → D → Option Account

pub data Kind : Type 0 where
  local ldap oidc : Kind

unfoldable pub is_oidc : Kind → Bool
is_oidc oidc = true
is_oidc _ = false

-- config.Provider… as the name of the provider.
unfoldable pub kind_name : Kind → Text
kind_name local = text "local"
kind_name ldap = text "ldap"
kind_name oidc = text "oidc"

pub record Service (D : Type 0) : Type 0 where
  pub kind : Kind
  pub verifier : Text → Option Account
  pub login : Option (Provider D)
  pub sessions : Option Sessions
  pub shared : Option (Lockouts D)
  pub dir : Option (Directory D)
  pub bootstrap : BootstrapConfig

abbrev pub dummy_hash : Text
dummy_hash = text "$2a$10$N9qo8uLOickgx2ZMRZoMyeIjZAgcfl7p92ldGxad68LJZdL17lhWy"

-- bearerToken of the Authorization header, which is longer than seven characters.
unfoldable pub bearer_token : Text → Text
bearer_token (a ∷ b ∷ c ∷ d ∷ e ∷ f ∷ g ∷ h ∷ rest) =
    if equal_fold (a ∷ b ∷ c ∷ d ∷ e ∷ f ∷ g ∷ []) (text "bearer ")
    then trim_space (h ∷ rest)
    else []
bearer_token _ = []

-- How Login ends. `refused` is the error of the provider, `panicked` is the use of a session manager that is not there.
pub data SignIn : Type 0 where
  signed_in : Text → Time → Account → SignIn
  not_supported too_many_attempts bad_credentials refused issue_failed panicked : SignIn

-- How Middleware ends: with the account that the next handler finds, or with 401.
pub data Request : Type 0 where
  served : Account → Request
  missing_token invalid_token : Request

module _ {D : Type 0} (s : Service D) where
  unfoldable pub bootstrap_enabled : Bool
  bootstrap_enabled =
      is_enabled s.bootstrap.password_login && (elim s.sessions [ none ↦ false | some _ ↦ true ])

  unfoldable pub supports_login : Bool
  supports_login = (elim s.login [ none ↦ false | some _ ↦ true ]) || bootstrap_enabled

  -- An error is logged and passed over.
  unfoldable pub register : Account → D → D
  register u d = elim s.dir [
    | none ↦ d
    | some dir ↦ (dir.record_seen u.username u.email (kind_name s.kind) u.groups u.roles d).1
  ]

  unfoldable pub roles_for : Text → D → List Text
  roles_for username d =
      let roles : List Text = elim s.dir [ none ↦ [] | some dir ↦ dir.roles_for d username ] in
      if grants s.bootstrap username
      then roles ++ filter (λ r. not (contains roles r)) s.bootstrap.roles
      else roles

  unfoldable pub bootstrap_login : Bcrypt → Text → Text → Option Account
  bootstrap_login bcrypt username password =
      let l = s.bootstrap.password_login in
      let match_ = equal_fold (trim_space username) (trim_space l.username) in
      let hash = if match_ then l.password_hash else dummy_hash in
      if not bootstrap_enabled
      then none
      else if not (bcrypt hash password) || not match_
      then none
      else some (record { username = l.username; email = []; roles = []; groups = [] })

  unfoldable pub issued : Account → SignIn
  issued u = elim s.sessions [
    | none ↦ panicked
    | some sessions ↦ elim (sessions.issue u) [
      | none ↦ issue_failed
      | some (token, expires) ↦ signed_in token expires u
    ]
  ]

  -- What follows credentials that are right: the counter is reset, the sign-in registered, the
  -- roles resolved and a token issued.
  unfoldable pub accept : Text → Account → Time → Records → D → SignIn × Records × D
  accept username u now records d =
      let (records', d') = reset s.shared username now records d in
      let d'' = register u d' in
      (issued (record u { roles = roles_for u.username d'' }), records', d'')

  unfoldable pub reject : SignIn → Text → Time → Records → D → SignIn × Records × D
  reject result username now records d =
      let (records', d') = fail s.shared username now records d in (result, records', d')

  unfoldable pub by_provider : Text → Text → Time → Records → D → SignIn × Records × D
  by_provider username password now records d = elim s.login [
    | none ↦ reject bad_credentials username now records d
    | some provider ↦ elim (provider username password d) [
      | none ↦ reject refused username now records d
      | some u ↦ accept username u now records d
    ]
  ]

  unfoldable pub sign_in : Bcrypt → Text → Text → Time → Records → D → SignIn × Records × D
  sign_in bcrypt username password now records d =
      if not supports_login
      then (not_supported, records, d)
      else let (allowed, records') = allow s.shared username now records d in
        if not allowed
        then (too_many_attempts, records', d)
        else elim (bootstrap_login bcrypt username password) [
          | some u ↦ accept username u now records' d
          | none ↦ by_provider username password now records' d
        ]

  -- The token of the provider, or under oidc one of a session.
  unfoldable pub verified : Text → Option Account
  verified raw = elim (s.verifier raw) [
    | some u ↦ some u
    | none ↦
        if is_oidc s.kind
        then (elim s.sessions [ none ↦ none | some sessions ↦ sessions.verify raw ])
        else none
  ]

  unfoldable pub shown_groups : Account → D → List Text
  shown_groups u d = elim u.groups [
    | g ∷ gs ↦ g ∷ gs
    | [] ↦ elim s.dir [ none ↦ [] | some dir ↦ dir.groups_for d u.username ]
  ]

  -- `raw` is the bearer token, empty where there was none.
  unfoldable pub served_token : Text → D → Request × D
  served_token raw d = if is_empty raw then (missing_token, d) else elim (verified raw) [
    | none ↦ (invalid_token, d)
    | some u ↦
        let d' = if is_oidc s.kind then register u d else d in
        (served (record u { roles = roles_for u.username d'; groups = shown_groups u d' }), d')
  ]

  unfoldable pub middleware : Text → D → Request × D
  middleware header d = served_token (bearer_token header) d
