-- ===== src/Startup/Loading.antt =====
-- internal/config/config.go: loading the configuration. Reading and decoding the file, the
-- environment, bcrypt and the reading of log levels are parameters.
use devops_tools.Prelude.{
  Text, Bool, Option, none, some, ◌≡◌, arith, sym, subst, ◌∙◌, ap, Option-cases, Bool-cases, inl,
  inr, text, is_empty, byte_length, ltb, refl,
}
use devops_tools.Config.Operations.{operations}
use devops_tools.Config.Roles.{RbacConfig, RoleError}
use devops_tools.Config.Roles as Rbacs
use devops_tools.Startup.{AppConfig, switches}
use devops_tools.Startup.Environment.{
  Env, PasswordError, Hashed, hashed, password_error, apply_env_overrides, apply_bootstrap_password,
  set, bootstrap_password_min_length,
}
use devops_tools.Startup.Defaults.{apply_defaults, apply_defaults_idem}
use devops_tools.Startup.Validation.{ConfigError, validate}

pub data Loaded : Type 0 where
  loaded : AppConfig → RbacConfig → Loaded
  unreadable : Loaded
  bad_password : PasswordError → Loaded
  invalid : ConfigError → Loaded
  bad_rbac : RoleError → Loaded

-- The access model of the file, with the vocabulary of the code.
unfoldable pub seed_model : AppConfig → RbacConfig
seed_model c = record c.rbac { operations = operations (switches c) }

module _ (is_hash : Text → Bool) (is_level : Text → Bool) (hasher : Text → Option Text)
    (env : Env) where
  unfoldable pub checked : AppConfig → Loaded
  checked c = elim (validate is_hash is_level c) [
    | some e ↦ invalid e
    | none ↦ elim (Rbacs.validate (seed_model c)) [
      | some e ↦ bad_rbac e
      | none ↦ loaded c (seed_model c)
    ]
  ]

  unfoldable pub completed : Hashed → Loaded
  completed (password_error e) = bad_password e
  completed (hashed c) = checked (apply_defaults c)

  -- Load, of what reading the file gave; `none` is an error.
  unfoldable pub load : Option AppConfig → Loaded
  load none = unreadable
  load (some c) = completed (apply_bootstrap_password hasher env (apply_env_overrides env c))

  checked-loaded :
      (c cfg : AppConfig) (rbac : RbacConfig)
      → checked c ≡ loaded cfg rbac
      → (c ≡ cfg)
        × (seed_model c ≡ rbac)
        × (validate is_hash is_level c ≡ none)
        × (Rbacs.validate (seed_model c) ≡ none)
  unfolding checked
  checked-loaded c cfg rbac h = elim (Option-cases (validate is_hash is_level c)) [
    | inr (e, v) ↦ absurd (ground arith)
    | inl v ↦ elim (Option-cases (Rbacs.validate (seed_model c))) [
      | inr (e, r) ↦ absurd (ground arith)
      | inl r ↦
          let p : loaded c (seed_model c) ≡ loaded cfg rbac = ground arith in
          (ap config_of p, ap model_of p, v, r)
    ]
  ]
    where
      config_of : Loaded → AppConfig
      config_of (loaded a b) = a
      config_of _ = c

      model_of : Loaded → RbacConfig
      model_of (loaded a b) = b
      model_of _ = rbac

  -- What hashing the password of the break-glass account leaves alone.
  Keeps : AppConfig → Hashed → Type 0
  Keeps c (hashed c') = (c'.rbac ≡ c.rbac) × (switches c' ≡ switches c)
  Keeps c (password_error e) = Unit

  apply_bootstrap_password-Keeps : (c : AppConfig) → Keeps c (apply_bootstrap_password hasher env c)
  unfolding apply_bootstrap_password switches Keeps
  apply_bootstrap_password-Keeps c =
      let pw = env (text "DEVOPS_TOOLS_BOOTSTRAP_PASSWORD") in
      let given = c.auth.bootstrap.password_login.password_hash in
      elim (Bool-cases (is_empty pw)) [
        | inl e ↦ rw e (refl, refl)
        | inr e ↦ elim (Bool-cases (is_empty given)) [
          | inr g ↦ rw (e, g) tt
          | inl g ↦ elim (Bool-cases (ltb (byte_length pw) bootstrap_password_min_length)) [
            | inl l ↦ rw (e, g, l) tt
            | inr l ↦ elim (Option-cases (hasher pw)) [
              | inl h ↦ rw (apply_bootstrap_password, e, g, l, h) tt
              | inr (hash, h) ↦ rw (apply_bootstrap_password, e, g, l, h) (refl, refl)
            ]
          ]
        ]
      ]

  -- What was loaded leaves nothing for the defaults to set, and is a valid configuration. Its access
  -- model has the roles of the file and the operations of the features that the file switches on,
  -- where the environment can set the address of Loki, and is a valid model.
  pub load-loaded :
      (file cfg : AppConfig) (rbac : RbacConfig)
      → load (some file) ≡ loaded cfg rbac
      → (apply_defaults cfg ≡ cfg)
        × (validate is_hash is_level cfg ≡ none)
        × (rbac.roles ≡ file.rbac.roles)
        × (rbac.operations
            ≡ operations (record (switches file) {
              loki_url = set env (text "DEVOPS_TOOLS_LOKI_URL") file.loki_url;
            }))
        × (Rbacs.validate rbac ≡ none)
  unfolding load completed seed_model apply_defaults apply_env_overrides switches Keeps
  load-loaded file cfg rbac h =
      go (apply_bootstrap_password hasher env (apply_env_overrides env file)) h
        (apply_bootstrap_password-Keeps (apply_env_overrides env file))
    where
      go :
          (r : Hashed)
          → completed r ≡ loaded cfg rbac
          → Keeps (apply_env_overrides env file) r
          → (apply_defaults cfg ≡ cfg)
            × (validate is_hash is_level cfg ≡ none)
            × (rbac.roles ≡ file.rbac.roles)
            × (rbac.operations
                ≡ operations (record (switches file) {
                  loki_url = set env (text "DEVOPS_TOOLS_LOKI_URL") file.loki_url;
                }))
            × (Rbacs.validate rbac ≡ none)
      go (password_error e) p k = absurd (ground arith)
      go (hashed c') p (same_rbac, same_switches) =
          let (same, model, valid, known) = checked-loaded (apply_defaults c') cfg rbac p in
          (
            subst (λ x. apply_defaults x ≡ x) same (apply_defaults_idem c'),
            subst (λ x. validate is_hash is_level x ≡ none) same valid,
            sym (ap (λ m. m.roles) model) ∙ ap (λ x. x.roles) same_rbac,
            sym (ap (λ m. m.operations) model) ∙ ap operations same_switches,
            subst (λ x. Rbacs.validate x ≡ none) model known,
          )
