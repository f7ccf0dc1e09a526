-- ===== src/Startup/Environment.antt =====
-- internal/config/config.go: what the environment of the process sets. A variable that is not set
-- is empty, as os.Getenv has it. Hashing with bcrypt is a parameter.
use devops_tools.Prelude.{
  ℕ, Text, text, not, Option, none, some, is_empty, byte_length, ltb, if◌then◌else◌,
}
use devops_tools.Startup.{AppConfig}

-- os.Getenv
abbrev pub Env : Type 0
Env = Text → Text

-- What `set` leaves in a field.
unfoldable pub set : Env → Text → Text → Text
set env name field = if not (is_empty (env name)) then env name else field

unfoldable pub either : Text → Text → Text
either first second = if is_empty first then second else first

abbrev pub gitlab_token : Text
gitlab_token = text "GITLAB_TOKEN"

unfoldable pub apply_env_overrides : Env → AppConfig → AppConfig
apply_env_overrides env c = record c {
  environment = set env (text "DEVOPS_TOOLS_ENVIRONMENT") c.environment;
  server = record {
    addr = set env (text "DEVOPS_TOOLS_SERVER_ADDR") c.server.addr;
    cors_origin = set env (text "DEVOPS_TOOLS_CORS_ORIGIN") c.server.cors_origin;
  };
  auth = record c.auth {
    provider = set env (text "DEVOPS_TOOLS_AUTH_PROVIDER") c.auth.provider;
    session = record c.auth.session { signing_key = env (text "DEVOPS_TOOLS_SESSION_KEY") };
    ldap = record c.auth.ldap {
      url = set env (text "DEVOPS_TOOLS_LDAP_URL") c.auth.ldap.url;
      bind_dn = set env (text "DEVOPS_TOOLS_LDAP_BIND_DN") c.auth.ldap.bind_dn;
      bind_password = env (text "DEVOPS_TOOLS_LDAP_BIND_PASSWORD");
    };
    oidc = record c.auth.oidc {
      issuer_url = set env (text "DEVOPS_TOOLS_OIDC_ISSUER_URL") c.auth.oidc.issuer_url;
      client_id = set env (text "DEVOPS_TOOLS_OIDC_CLIENT_ID") c.auth.oidc.client_id;
    };
    bootstrap = record c.auth.bootstrap {
      password_login = record c.auth.bootstrap.password_login {
        password_hash =
            set env (text "DEVOPS_TOOLS_BOOTSTRAP_PASSWORD_HASH")
              c.auth.bootstrap.password_login.password_hash;
      };
    };
  };
  prometheus_url = set env (text "DEVOPS_TOOLS_PROMETHEUS_URL") c.prometheus_url;
  loki_url = set env (text "DEVOPS_TOOLS_LOKI_URL") c.loki_url;
  configs = record {
    consul = record c.configs.consul {
      address = set env (text "DEVOPS_TOOLS_CONFIGS_CONSUL_ADDR") c.configs.consul.address;
      prefix = set env (text "DEVOPS_TOOLS_CONFIGS_CONSUL_PREFIX") c.configs.consul.prefix;
    };
    git = record c.configs.git {
      url = set env (text "DEVOPS_TOOLS_CONFIGS_GIT_URL") c.configs.git.url;
      project = set env (text "DEVOPS_TOOLS_CONFIGS_GIT_PROJECT") c.configs.git.project;
      branch = set env (text "DEVOPS_TOOLS_CONFIGS_GIT_BRANCH") c.configs.git.branch;
      base_path = set env (text "DEVOPS_TOOLS_CONFIGS_GIT_BASE_PATH") c.configs.git.base_path;
      token = env gitlab_token;
    };
  };
  image_rebuild = record c.image_rebuild {
    token = either (env (text "DEVOPS_TOOLS_IMAGE_REBUILD_TOKEN")) (env gitlab_token);
    url = either c.image_rebuild.url c.configs.git.url;
  };
}

pub data PasswordError : Type 0 where
  both_given too_short not_hashed : PasswordError

pub data Hashed : Type 0 where
  hashed : AppConfig → Hashed
  password_error : PasswordError → Hashed

abbrev pub bootstrap_password_min_length : ℕ
bootstrap_password_min_length = 8

abbrev pub with_password_hash : Text → AppConfig → AppConfig
with_password_hash hash c = record c {
  auth = record c.auth {
    bootstrap = record c.auth.bootstrap {
      password_login = record c.auth.bootstrap.password_login { password_hash = hash };
    };
  };
}

unfoldable pub apply_bootstrap_password : (Text → Option Text) → Env → AppConfig → Hashed
apply_bootstrap_password hasher env c =
    let pw = env (text "DEVOPS_TOOLS_BOOTSTRAP_PASSWORD") in
    if is_empty pw
    then hashed c
    else if not (is_empty c.auth.bootstrap.password_login.password_hash)
    then password_error both_given
    else if ltb (byte_length pw) bootstrap_password_min_length
    then password_error too_short
    else elim (hasher pw) [
      | none ↦ password_error not_hashed
      | some hash ↦ hashed (with_password_hash hash c)
    ]
