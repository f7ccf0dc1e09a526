-- ===== src/Startup/Validation.antt =====
-- internal/config/config.go: what is refused at startup. The reading of log levels and of the prefix
-- of a bcrypt hash are parameters.
use devops_tools.Prelude.{
  ℕ, suc, Text, text, Bool, true, false, not, ◌&&◌, ◌||◌, Option, none, some, List, [], ◌∷◌, ◌++◌,
  Dict, lookup, is_empty, has_prefix, trim_space, ◌==◌, if◌then◌else◌,
}
use devops_tools.Auth.Service.{BootstrapConfig, is_enabled, grants}
use devops_tools.Auth.Local.{LocalUser}
use devops_tools.Startup.{
  AppConfig, StorageConfig, LdapConfig, OidcConfig, ConsulSourceConfig, GitSourceConfig,
  ConfigsConfig, ImageRebuildConfig, storage_kind, storage_file, storage_kubernetes, provider_local,
  provider_ldap, provider_oidc,
}
use devops_tools.Startup.Hashes.{HashError, check_bcrypt_hash}

-- The refusals, each with what its message names.
pub data ConfigError : Type 0 where
  bad_log_level : Text → ConfigError
  storage_path_empty storage_outside_cluster nobody_can_sign_in : ConfigError
  unknown_storage_backend : Text → ConfigError
  username_required : ℕ → ConfigError
  password_hash_required : ℕ → Text → ConfigError
  bad_password_hash : ℕ → Text → HashError → ConfigError
  ldap_url_empty ldap_search_base_empty ldap_filter_without_placeholder : ConfigError
  ldap_plaintext ldap_group_mapping ldap_default_roles : ConfigError
  oidc_issuer_empty oidc_client_empty oidc_group_mapping oidc_roles_claim : ConfigError
  oidc_nobody_administers : ConfigError
  unknown_provider : Text → ConfigError
  bootstrap_roles_empty login_username_empty login_hash_empty : ConfigError
  bad_login_hash : HashError → ConfigError
  login_not_listed : Text → ConfigError
  consul_prefix_empty git_url_empty git_project_empty git_branch_empty git_token_empty : ConfigError
  rebuild_url_empty rebuild_token_empty rebuild_environments_empty rebuild_jobs_empty : ConfigError
  build_job_without_env deploy_job_without_env environment_without_branch : Text → ConfigError

-- `if err := …; err != nil { return err }`, and then the rest.
unfoldable pub then_check : Option ConfigError → Option ConfigError → Option ConfigError
then_check none rest = rest
then_check (some e) rest = some e

-- `if … { return … }`, and then the rest.
unfoldable pub refuse_if : Bool → ConfigError → Option ConfigError → Option ConfigError
refuse_if true e rest = some e
refuse_if false e rest = rest

-- A loop that returns its first error.
unfoldable pub check_each {ℓ} :
    {A : Type ℓ} → (A → Option ConfigError) → List A → Option ConfigError
check_each check [] = none
check_each check (x ∷ xs) = then_check (check x) (check_each check xs)

-- strings.Contains
unfoldable pub has_infix : Text → Text → Bool
has_infix [] t = has_prefix [] t
has_infix (c ∷ s) t = has_prefix (c ∷ s) t || has_infix s t

unfoldable pub is_none : {A : Type 0} → List A → Bool
is_none [] = true
is_none (_ ∷ _) = false

unfoldable pub is_nonempty : {A : Type 0} → List A → Bool
is_nonempty l = not (is_none l)

-- ParseLogLevel, with the level info and level.UnmarshalText
unfoldable pub parse_log_level {ℓ} : {L : Type ℓ} → L → (Text → Option L) → Text → Option L
parse_log_level info read_level s =
    if is_empty (trim_space s) then some info else read_level (trim_space s)

unfoldable pub validate_git : GitSourceConfig → Option ConfigError
validate_git g =
    if not g.enabled
    then none
    else refuse_if (is_empty g.url) git_url_empty (
        refuse_if (is_empty g.project) git_project_empty (
          refuse_if (is_empty g.branch) git_branch_empty
            (refuse_if (is_empty g.token) git_token_empty none)))

unfoldable pub validate_consul : ConsulSourceConfig → Option ConfigError
validate_consul c =
    if not c.enabled then none else refuse_if (is_empty c.prefix) consul_prefix_empty none

unfoldable pub validate_configs : ConfigsConfig → Option ConfigError
validate_configs c = then_check (validate_consul c.consul) (validate_git c.git)

abbrev pub env_placeholder : Text
env_placeholder = text "{env}"

-- A missing entry of a map reads as empty.
unfoldable pub branch_of : Dict Text → Text → Text
branch_of branches env = elim (lookup env branches) [ none ↦ [] | some b ↦ b ]

unfoldable pub validate_rebuild : ImageRebuildConfig → Option ConfigError
validate_rebuild c =
    if not c.enabled
    then none
    else refuse_if (is_empty c.url) rebuild_url_empty (
        refuse_if (is_empty c.token) rebuild_token_empty (
          refuse_if (is_none c.environments) rebuild_environments_empty (
            refuse_if (is_none c.build_jobs) rebuild_jobs_empty (
              then_check
                (check_each
                  (λ job.
                    refuse_if (not (has_infix job env_placeholder)) (build_job_without_env job)
                      none)
                  c.build_jobs)
                (then_check
                  (check_each
                    (λ env.
                      refuse_if (is_empty (branch_of c.branches env))
                        (environment_without_branch env) none)
                    c.environments)
                  (check_each
                    (λ job.
                      refuse_if (not (has_infix job env_placeholder)) (deploy_job_without_env job)
                        none)
                    c.deploy_jobs))))))

unfoldable pub validate_storage : StorageConfig → Bool → Option ConfigError
validate_storage s in_cluster =
    if storage_kind s == storage_file
    then refuse_if (is_empty s.path) storage_path_empty none
    else if storage_kind s == storage_kubernetes
    then refuse_if (not in_cluster) storage_outside_cluster none
    else some (unknown_storage_backend s.backend)

unfoldable pub validate_ldap : LdapConfig → Option ConfigError
validate_ldap l = refuse_if (is_empty l.url) ldap_url_empty (
    refuse_if (is_empty l.user_search_base) ldap_search_base_empty (
      refuse_if (not (has_infix l.user_filter (text "%s"))) ldap_filter_without_placeholder (
        refuse_if
          (has_prefix l.url (text "ldap://")
            && not l.tls.start_tls
            && not l.tls.insecure_allow_plaintext)
          ldap_plaintext
          (refuse_if (is_nonempty l.group_mapping) ldap_group_mapping
            (refuse_if (is_nonempty l.default_roles) ldap_default_roles none)))))

unfoldable pub validate_oidc : OidcConfig → BootstrapConfig → Option ConfigError
validate_oidc o b = refuse_if (is_empty o.issuer_url) oidc_issuer_empty (
    refuse_if (is_empty o.client_id) oidc_client_empty (
      refuse_if (is_nonempty o.group_mapping) oidc_group_mapping (
        refuse_if (not (is_empty o.roles_claim)) oidc_roles_claim (
          refuse_if (is_none b.users && not (is_enabled b.password_login)) oidc_nobody_administers
            none))))

module _ (is_hash : Text → Bool) where
  -- The loop over the configured accounts, with their indices.
  unfoldable pub check_users : ℕ → List LocalUser → Option ConfigError
  check_users i [] = none
  check_users i (u ∷ us) = refuse_if (is_empty u.username) (username_required i) (
      refuse_if (is_empty u.password_hash) (password_hash_required i u.username)
        (elim (check_bcrypt_hash is_hash u.password_hash) [
          | some e ↦ some (bad_password_hash i u.username e)
          | none ↦ check_users (suc i) us
        ]))

  unfoldable pub validate_local : List LocalUser → BootstrapConfig → Option ConfigError
  validate_local users b =
      refuse_if (is_none users && not (is_enabled b.password_login)) nobody_can_sign_in
        (check_users 0 users)

  unfoldable pub validate_login : BootstrapConfig → Option ConfigError
  validate_login b =
      let l = b.password_login in
      if not (is_empty l.username) || not (is_empty l.password_hash)
      then refuse_if (is_empty l.username) login_username_empty (
          refuse_if (is_empty l.password_hash) login_hash_empty
            (elim (check_bcrypt_hash is_hash l.password_hash) [
              | some e ↦ some (bad_login_hash e)
              | none ↦ refuse_if (not (grants b l.username)) (login_not_listed l.username) none
            ]))
      else none

  unfoldable pub validate_provider : AppConfig → Option ConfigError
  validate_provider c =
      let p = c.auth.provider in
      if p == provider_local
      then validate_local c.auth.local_users c.auth.bootstrap
      else if p == provider_ldap
      then validate_ldap c.auth.ldap
      else if p == provider_oidc
      then validate_oidc c.auth.oidc c.auth.bootstrap
      else some (unknown_provider p)

  -- Config.Validate; `is_level` tells whether ParseLogLevel reads the level.
  unfoldable pub validate : (Text → Bool) → AppConfig → Option ConfigError
  validate is_level c = refuse_if (not (is_level c.log_level)) (bad_log_level c.log_level) (
      then_check (validate_storage c.storage c.cluster.in_cluster) (
        then_check (validate_provider c) (
          refuse_if (is_nonempty c.auth.bootstrap.users && is_none c.auth.bootstrap.roles)
            bootstrap_roles_empty
            (then_check (validate_login c.auth.bootstrap)
              (then_check (validate_configs c.configs) (validate_rebuild c.image_rebuild))))))

abbrev pub shipped_hash : Text
shipped_hash = text "$2a$10$g8J.N1mZm6FUHfQR5FMYButGpMFIZeYtnd4aJd6sp.gXQQ.LQmUDq"

unfoldable pub shipped_users : List LocalUser → List Text
shipped_users [] = []
shipped_users (u ∷ us) =
    let rest = shipped_users us in
    if u.password_hash == shipped_hash then u.username ∷ rest else rest

-- Config.UsesShippedPassword
unfoldable pub uses_shipped_password : AppConfig → List Text
uses_shipped_password c =
    let login = c.auth.bootstrap.password_login in
    shipped_users c.auth.local_users
    ++ (if login.password_hash == shipped_hash then login.username ∷ [] else [])
