-- ===== src/Tests/Starting.antt =====
-- Loading the configuration, at small inputs (internal/config/config.go).
use devops_tools.Prelude.{
  Text, text, ◌≡◌, ◌≢◌, refl, Bool, true, false, Option, none, some, [], ◌∷◌, pos, lookup, has_key,
  insert, text_dec, ℕ_discrete, ◌==◌, if◌then◌else◌, contains, any, all, filter, dedup, has_prefix,
  equal_fold, trim_space, trim_left, trim_right, to_lower, lower, is_space, byte_length, utf8_width,
  In, is_empty, arith, ◌||◌,
}
use devops_tools.Config.Operations.{
  operations, is_offered, configs_enabled, all_operations, namespace_operations, global_operations,
  config_operations,
}
use devops_tools.Config.Roles as Rbacs
use devops_tools.Config.Roles.{RbacConfig, first_error}
use devops_tools.Auth.Service.{Service, BootstrapConfig, is_enabled, grants, local}
use devops_tools.Auth.Service as Services
use devops_tools.Auth.Local.{LocalUser, index_users}
use devops_tools.Startup.{AppConfig, storage_kind, switches}
use devops_tools.Startup.Hashes.{
  hash_body, after_last, has_char, check_characters, check_bcrypt_hash,
}
use devops_tools.Startup.Environment.{
  Env, set, either, apply_env_overrides, apply_bootstrap_password,
}
use devops_tools.Startup.Defaults.{
  default, default_duration, default_list, apply_defaults, initials, derived_initials, to_upper,
  upper, fields, fields_from, first_char,
}
use devops_tools.Startup.Validation.{
  then_check, refuse_if, check_each, has_infix, is_none, is_nonempty, validate_git, validate_consul,
  validate_configs, validate_rebuild, validate_storage, check_users, validate_local, validate_login,
  validate_provider, validate, branch_of, rebuild_url_empty,
}
use devops_tools.Startup.Loading.{loaded, load, checked, completed, seed_model, load-loaded}
use devops_tools.Startup.Precedence.{with_secrets, validate_rebuild-apply_env_overrides}
use devops_tools.Startup.Entrance.{validate-roles_for}

program : Unit {0}
unfolding lookup has_key insert text_dec ℕ_discrete contains any all filter dedup has_prefix
    equal_fold trim_space trim_left trim_right to_lower lower is_space byte_length utf8_width
    operations is_offered configs_enabled all_operations namespace_operations global_operations
    config_operations Rbacs.validate first_error is_enabled grants storage_kind switches hash_body
    after_last has_char check_characters check_bcrypt_hash set either apply_env_overrides
    apply_bootstrap_password default default_duration default_list apply_defaults initials
    derived_initials to_upper upper fields fields_from first_char then_check refuse_if check_each
    has_infix is_none is_nonempty validate_git validate_consul validate_configs validate_rebuild
    validate_storage check_users validate_local validate_login validate_provider validate branch_of
    load checked completed seed_model with_secrets index_users
program = tt

abbrev hash : Text
hash = text "$2a$10$g8J.N1mZm6FUHfQR5FMYButGpMFIZeYtnd4aJd6sp.gXQQ.LQmUDq"

abbrev is_hash : Text → Bool
is_hash h = has_prefix h (text "$2a$10$")

abbrev is_level : Text → Bool
is_level s = is_empty s || s == text "debug"

abbrev hasher : Text → Option Text
hasher password = some hash

abbrev bootstrap : BootstrapConfig
bootstrap = record {
  users = text "root" ∷ [];
  roles = text "admin" ∷ [];
  password_login = record { username = text "Root"; password_hash = hash };
}

abbrev user : LocalUser
user = record { username = text "Alice"; email = []; roles = []; password_hash = hash }

-- A file that leaves most of it out.
abbrev file : AppConfig
file = record {
  environment = [];
  log_level = [];
  server = record { addr = []; cors_origin = [] };
  auth = record {
    provider = [];
    session = record { ttl = pos 0; signing_key = [] };
    local_users = user ∷ [];
    ldap = record {
      url = [];
      bind_dn = [];
      bind_password = [];
      user_search_base = [];
      user_filter = [];
      email_attribute = [];
      group_search_base = [];
      group_filter = [];
      group_name_attribute = [];
      group_mapping = [];
      default_roles = [];
      tls = record {
        start_tls = false;
        ca_file = [];
        insecure_skip_verify = false;
        insecure_allow_plaintext = false;
      };
    };
    oidc = record {
      issuer_url = [];
      client_id = [];
      display_name = [];
      skip_audience_check = false;
      require_authorized_party = none;
      roles_claim = [];
      group_mapping = [];
    };
    bootstrap = bootstrap;
  };
  storage = record { path = []; backend = []; secret_name = [] };
  ui = record { brand_name = text "My Portal"; brand_initials = [] };
  cluster = record { in_cluster = false; kubeconfig = []; hidden_namespaces = none };
  prometheus_url = [];
  loki_url = [];
  configs = record {
    consul = record { enabled = false; address = []; prefix = [] };
    git = record {
      enabled = false;
      url = [];
      project = [];
      branch = [];
      base_path = [];
      token = [];
    };
  };
  image_rebuild = record {
    enabled = false;
    url = [];
    token = [];
    environments = [];
    build_jobs = [];
    deploy_jobs = [];
    branches = [];
  };
  rbac = record { operations = []; roles = [] };
}

-- Only the environment names the repository.
abbrev env : Env
env name = if name == text "DEVOPS_TOOLS_CONFIGS_GIT_URL" then text "https://git" else []

abbrev ready : AppConfig
ready = apply_defaults (apply_env_overrides env file)

load_ready : load is_hash is_level hasher env (some file) ≡ loaded ready (seed_model ready)
unfolding program
load_ready = refl

load-loaded_example :
    (apply_defaults ready ≡ ready)
    × (validate is_hash is_level ready ≡ none)
    × ((seed_model ready).roles ≡ file.rbac.roles)
    × ((seed_model ready).operations
        ≡ operations (record (switches file) {
          loki_url = set env (text "DEVOPS_TOOLS_LOKI_URL") file.loki_url;
        }))
    × (Rbacs.validate (seed_model ready) ≡ none)
load-loaded_example =
    load-loaded is_hash is_level hasher env file ready (seed_model ready) load_ready

abbrev rebuilding : AppConfig
rebuilding = record file { image_rebuild = record file.image_rebuild { enabled = true } }

validate_rebuild-apply_env_overrides_example :
    let c' = apply_env_overrides env rebuilding in
    (c'.configs.git.url ≡ env (text "DEVOPS_TOOLS_CONFIGS_GIT_URL"))
    × (validate_rebuild c'.image_rebuild ≡ some rebuild_url_empty)
unfolding program
validate_rebuild-apply_env_overrides_example =
    validate_rebuild-apply_env_overrides env rebuilding refl refl refl (λ p. ground arith)

abbrev service : Service (Unit {0})
service = record {
  kind = local;
  verifier = λ _. none;
  login = none;
  sessions = none;
  shared = none;
  dir = none;
  bootstrap = bootstrap;
}

validate-roles_for_example :
    (bootstrap.roles ≢ [])
    × ((role : Text)
        → In role bootstrap.roles
        → contains (Services.roles_for service (text "Root") tt) role ≡ true)
unfolding program
validate-roles_for_example = validate-roles_for is_hash is_level ready service tt refl refl refl
