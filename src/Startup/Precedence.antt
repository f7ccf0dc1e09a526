-- ===== src/Startup/Precedence.antt =====
-- Where a setting comes from: the environment, the file, or another setting
-- (internal/config/config.go).
use devops_tools.Prelude.{
  Text, text, Bool, true, not, Option, some, [], ◌∷◌, ◌≡◌, ◌≢◌, refl, is_empty, if◌then◌else◌,
}
use devops_tools.Startup.{AppConfig}
use devops_tools.Startup.Environment.{Env, set, either, apply_env_overrides}
use devops_tools.Startup.Validation.{validate_rebuild, refuse_if, rebuild_url_empty}
use devops_tools.Startup.Loading.{load}

-- The settings that are kept out of the file.
pub record Secrets : Type 0 where
  pub signing_key : Text
  pub bind_password : Text
  pub git_token : Text
  pub rebuild_token : Text

unfoldable pub with_secrets : Secrets → AppConfig → AppConfig
with_secrets x c = record c {
  auth = record c.auth {
    session = record c.auth.session { signing_key = x.signing_key };
    ldap = record c.auth.ldap { bind_password = x.bind_password };
  };
  configs = record c.configs { git = record c.configs.git { token = x.git_token } };
  image_rebuild = record c.image_rebuild { token = x.rebuild_token };
}

-- Nothing that a file could say of the signing key, the password of the directory or the tokens
-- of GitLab has any effect: they are those of the environment.
pub load-with_secrets :
    (is_hash is_level : Text → Bool) (hasher : Text → Option Text) (env : Env) (x : Secrets)
    (c : AppConfig)
    → load is_hash is_level hasher env (some (with_secrets x c))
      ≡ load is_hash is_level hasher env (some c)
unfolding load with_secrets apply_env_overrides
load-with_secrets is_hash is_level hasher env x c = refl

-- The address of GitLab for rebuilding images falls back to that of the configuration repository
-- as the file has it, not to the one that the environment sets: where only the environment names
-- the repository, rebuilding is refused for want of an address.
pub validate_rebuild-apply_env_overrides :
    (env : Env) (c : AppConfig)
    → c.image_rebuild.enabled ≡ true
    → c.image_rebuild.url ≡ []
    → c.configs.git.url ≡ []
    → env (text "DEVOPS_TOOLS_CONFIGS_GIT_URL") ≢ []
    → let c' = apply_env_overrides env c in
      (c'.configs.git.url ≡ env (text "DEVOPS_TOOLS_CONFIGS_GIT_URL"))
      × (validate_rebuild c'.image_rebuild ≡ some rebuild_url_empty)
unfolding apply_env_overrides set either validate_rebuild refuse_if
validate_rebuild-apply_env_overrides env c on no_url no_git some_url =
    (set-some env _ c.configs.git.url some_url, rw (on, no_url, no_git) refl)
  where
    set-some : (env : Env) (name field : Text) → env name ≢ [] → set env name field ≡ env name
    set-some env name field h = filled (env name) field h
      where
        filled : (v field : Text) → v ≢ [] → (if not (is_empty v) then v else field) ≡ v
        filled [] field n = absurd (n refl)
        filled (c ∷ v) field n = refl
