-- ===== src/Startup.antt =====
-- internal/config/config.go: the configuration of an instance, as the file gives it.
pub mod Hashes
pub mod Environment
pub mod Defaults
pub mod Validation
pub mod Loading
pub mod Precedence
pub mod Entrance
use devops_tools.Prelude.{Text, text, Bool, Option, List, ℤ, Dict, is_empty, if◌then◌else◌, ◌&&◌}
use devops_tools.Config.Operations
use devops_tools.Config.Roles.{RbacConfig}
use devops_tools.Auth.Service.{BootstrapConfig}
use devops_tools.Auth.Local.{LocalUser}

pub record ServerConfig : Type 0 where
  pub addr : Text
  pub cors_origin : Text

-- `ttl` is a duration in nanoseconds.
pub record SessionConfig : Type 0 where
  pub ttl : ℤ
  pub signing_key : Text

pub record LdapTlsConfig : Type 0 where
  pub start_tls : Bool
  pub ca_file : Text
  pub insecure_skip_verify : Bool
  pub insecure_allow_plaintext : Bool

pub record LdapConfig : Type 0 where
  pub url : Text
  pub bind_dn : Text
  pub bind_password : Text
  pub user_search_base : Text
  pub user_filter : Text
  pub email_attribute : Text
  pub group_search_base : Text
  pub group_filter : Text
  pub group_name_attribute : Text
  pub group_mapping : Dict (List Text)
  pub default_roles : List Text
  pub tls : LdapTlsConfig

pub record OidcConfig : Type 0 where
  pub issuer_url : Text
  pub client_id : Text
  pub display_name : Text
  pub skip_audience_check : Bool
  pub require_authorized_party : Option Bool
  pub roles_claim : Text
  pub group_mapping : Dict (List Text)

pub record AuthConfig : Type 0 where
  pub provider : Text
  pub session : SessionConfig
  pub local_users : List LocalUser
  pub ldap : LdapConfig
  pub oidc : OidcConfig
  pub bootstrap : BootstrapConfig

pub record StorageConfig : Type 0 where
  pub path : Text
  pub backend : Text
  pub secret_name : Text

pub record UiConfig : Type 0 where
  pub brand_name : Text
  pub brand_initials : Text

-- `none` is the list that was not configured.
pub record ClusterConfig : Type 0 where
  pub in_cluster : Bool
  pub kubeconfig : Text
  pub hidden_namespaces : Option (List Text)

pub record ConsulSourceConfig : Type 0 where
  pub enabled : Bool
  pub address : Text
  pub prefix : Text

pub record GitSourceConfig : Type 0 where
  pub enabled : Bool
  pub url : Text
  pub project : Text
  pub branch : Text
  pub base_path : Text
  pub token : Text

pub record ConfigsConfig : Type 0 where
  pub consul : ConsulSourceConfig
  pub git : GitSourceConfig

pub record ImageRebuildConfig : Type 0 where
  pub enabled : Bool
  pub url : Text
  pub token : Text
  pub environments : List Text
  pub build_jobs : List Text
  pub deploy_jobs : List Text
  pub branches : Dict Text

-- The sections of impersonation, the archive of logs and its horizon are read elsewhere.
pub record AppConfig : Type 0 where
  pub environment : Text
  pub log_level : Text
  pub server : ServerConfig
  pub auth : AuthConfig
  pub storage : StorageConfig
  pub ui : UiConfig
  pub cluster : ClusterConfig
  pub prometheus_url : Text
  pub loki_url : Text
  pub configs : ConfigsConfig
  pub image_rebuild : ImageRebuildConfig
  pub rbac : RbacConfig

abbrev pub provider_local : Text
provider_local = text "local"

abbrev pub provider_ldap : Text
provider_ldap = text "ldap"

abbrev pub provider_oidc : Text
provider_oidc = text "oidc"

abbrev pub storage_file : Text
storage_file = text "file"

abbrev pub storage_kubernetes : Text
storage_kubernetes = text "kubernetes"

-- StorageConfig.Kind and StorageConfig.SecretNameOr
unfoldable pub storage_kind : StorageConfig → Text
storage_kind c = if is_empty c.backend then storage_file else c.backend

unfoldable pub secret_name_or : StorageConfig → Text → Text
secret_name_or c fallback = if is_empty c.secret_name then fallback else c.secret_name

-- OIDCConfig.RequiresAuthorizedParty
unfoldable pub requires_authorized_party : OidcConfig → Bool
requires_authorized_party o = elim o.require_authorized_party [
  | Option.none ↦ Bool.true
  | Option.some b ↦ b
]

-- ConfigsConfig.Paired
unfoldable pub paired : ConfigsConfig → Bool
paired c = c.consul.enabled && c.git.enabled

-- The switches that decide which operations are offered.
unfoldable pub switches : AppConfig → Operations.Config
switches c = record {
  loki_url = c.loki_url;
  in_cluster = c.cluster.in_cluster;
  consul_enabled = c.configs.consul.enabled;
  git_enabled = c.configs.git.enabled;
  image_rebuild_enabled = c.image_rebuild.enabled;
}
