-- ===== src/Config/Operations.antt =====
-- internal/config/rbac.go: the vocabulary of operations, and what a deployment offers of it.
use devops_tools.Prelude.{
  is_empty, Text, text, Bool, true, not, ◌&&◌, ◌||◌, List, [], ◌∷◌, ◌++◌, ◌==◌,
}
use devops_tools.Prelude.{dedup, filter, if◌then◌else◌}

abbrev pub op_logs : Text
op_logs = text "logs"

abbrev pub op_describe : Text
op_describe = text "describe"

abbrev pub op_metrics : Text
op_metrics = text "metrics"

abbrev pub op_pod_restart : Text
op_pod_restart = text "pod-restart"

abbrev pub op_helm_list : Text
op_helm_list = text "helm-list"

abbrev pub op_helm_history : Text
op_helm_history = text "helm-history"

abbrev pub op_helm_rollback : Text
op_helm_rollback = text "helm-rollback"

abbrev pub op_helm_uninstall : Text
op_helm_uninstall = text "helm-uninstall"

abbrev pub op_secret_list : Text
op_secret_list = text "secret-list"

abbrev pub op_secret_read : Text
op_secret_read = text "secret-read"

abbrev pub op_secret_create : Text
op_secret_create = text "secret-create"

abbrev pub op_secret_update : Text
op_secret_update = text "secret-update"

abbrev pub op_secret_delete : Text
op_secret_delete = text "secret-delete"

abbrev pub op_audit_read : Text
op_audit_read = text "audit-read"

abbrev pub op_access_restore : Text
op_access_restore = text "access-restore"

abbrev pub op_user_list : Text
op_user_list = text "user-list"

abbrev pub op_user_manage : Text
op_user_manage = text "user-manage"

abbrev pub op_config_read : Text
op_config_read = text "config-read"

abbrev pub op_config_write : Text
op_config_write = text "config-write"

abbrev pub op_image_rebuild : Text
op_image_rebuild = text "image-rebuild"

abbrev pub op_pipeline_deploy : Text
op_pipeline_deploy = text "pipeline-deploy"

unfoldable pub namespace_operations : List Text
namespace_operations =
    op_logs ∷ op_describe ∷ op_metrics ∷ op_pod_restart ∷ op_helm_list ∷ op_helm_history
    ∷ op_helm_rollback ∷ op_helm_uninstall ∷ op_secret_list ∷ op_secret_read ∷ op_secret_create
    ∷ op_secret_update ∷ op_secret_delete ∷ op_audit_read ∷ op_image_rebuild ∷ op_pipeline_deploy
    ∷ []

unfoldable pub global_operations : List Text
global_operations = op_user_list ∷ op_user_manage ∷ op_access_restore ∷ op_audit_read ∷ []

unfoldable pub config_operations : List Text
config_operations = op_config_read ∷ op_config_write ∷ []

-- The nested loop walks the three lists in a row, with one map of what was seen.
unfoldable pub all_operations : List Text
all_operations = dedup [] (namespace_operations ++ global_operations ++ config_operations)

-- The settings that switch a feature on.
pub record Config : Type 0 where
  pub loki_url : Text
  pub in_cluster : Bool
  pub consul_enabled : Bool
  pub git_enabled : Bool
  pub image_rebuild_enabled : Bool

-- ConfigsConfig.Enabled
unfoldable pub configs_enabled : Config → Bool
configs_enabled c = c.consul_enabled || c.git_enabled

-- The `switch` of `Operations`: false where the loop continues.
unfoldable pub is_offered : Config → Text → Bool
is_offered c op =
    if op == op_audit_read
    then not (is_empty c.loki_url && not c.in_cluster)
    else if op == op_config_read || op == op_config_write
    then configs_enabled c
    else if op == op_image_rebuild || op == op_pipeline_deploy
    then c.image_rebuild_enabled
    else true

unfoldable pub operations : Config → List Text
operations c = filter (is_offered c) all_operations
