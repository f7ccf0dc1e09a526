-- ===== src/Kube/Restarts.antt =====
-- internal/kube/pods.go: finding the controller of a pod, and restarting it. The API server, the
-- clock and the reading and writing of RFC 3339 times are parameters.
use devops_tools.Prelude.{
  ℕ, ◌+◌, Text, text, Bool, false, Option, none, some, ◌==◌, ltb, if◌then◌else◌,
}
use devops_tools.Kube.{Pod, Owner}

pub data ApiError : Type 0 where
  api_error : Text → ApiError

pub data Fetched (A : Type 0) : Type 0 where
  fetched : A → Fetched A
  not_fetched : ApiError → Fetched A

pub data WorkloadKind : Type 0 where
  deployment stateful_set daemon_set : WorkloadKind

pub record WorkloadRef : Type 0 where
  pub kind : WorkloadKind
  pub name : Text

-- What is asked of the API server in one namespace, in a world `W`. `replica_set` gives the owner
-- of a ReplicaSet, `stamp` the annotation of the pod template, empty if it has none, and `patch`
-- writes it.
pub record Cluster (W : Type 0) : Type 0 where
  pub now : W → ℕ
  pub pod : Text → W → Fetched Pod
  pub replica_set : Text → W → Fetched (Option Owner)
  pub stamp : WorkloadRef → W → Fetched Text
  pub patch : WorkloadRef → Text → W → Option ApiError × W

-- time.Parse and time.Format at RFC 3339, to and from nanoseconds.
pub record Rfc3339 : Type 0 where
  pub parse : Text → Option ℕ
  pub format : ℕ → Text

-- Ten seconds.
abbrev pub restart_dedupe_window : ℕ
restart_dedupe_window = 10_000_000_000

-- `no_controller` is ok=false.
pub data Resolved : Type 0 where
  resolved : WorkloadRef → Resolved
  no_controller : Resolved
  unresolved : ApiError → Resolved

unfoldable pub resolve_replica_set : Fetched (Option Owner) → Resolved
resolve_replica_set (not_fetched e) = unresolved e
resolve_replica_set (fetched none) = no_controller
resolve_replica_set (fetched (some d)) =
    if d.kind == text "Deployment"
    then resolved (record { kind = deployment; name = d.name })
    else no_controller

unfoldable pub resolve_owner : {W : Type 0} → Cluster W → W → Option Owner → Resolved
resolve_owner cluster w none = no_controller
resolve_owner cluster w (some o) =
    if o.kind == text "ReplicaSet"
    then resolve_replica_set (cluster.replica_set o.name w)
    else if o.kind == text "StatefulSet"
    then resolved (record { kind = stateful_set; name = o.name })
    else if o.kind == text "DaemonSet"
    then resolved (record { kind = daemon_set; name = o.name })
    else no_controller

unfoldable pub resolve_workload : {W : Type 0} → Cluster W → Text → W → Resolved
resolve_workload cluster pod w = elim (cluster.pod pod w) [
  | not_fetched e ↦ unresolved e
  | fetched p ↦ resolve_owner cluster w p.owner
]

pub data Restart : Type 0 where
  restarted : WorkloadRef → Restart
  nothing_to_restart : Restart
  not_resolved : ApiError → Restart
  not_restarted : WorkloadRef → ApiError → Restart

module _ {W : Type 0} (times : Rfc3339) (cluster : Cluster W) where
  -- Whether the workload was restarted moments ago.
  unfoldable pub is_recent : Text → ℕ → Bool
  is_recent last now = elim (times.parse last) [
    | none ↦ false
    | some t ↦ ltb now (t + restart_dedupe_window)
  ]

  unfoldable pub patched : WorkloadRef → Option ApiError × W → Restart × W
  patched wl (none, w) = (restarted wl, w)
  patched wl (some e, w) = (not_restarted wl e, w)

  unfoldable pub restart_workload : WorkloadRef → W → Restart × W
  restart_workload wl w = elim (cluster.stamp wl w) [
    | not_fetched e ↦ (not_restarted wl e, w)
    | fetched last ↦
        if is_recent last (cluster.now w)
        then (restarted wl, w)
        else patched wl (cluster.patch wl (times.format (cluster.now w)) w)
  ]

  unfoldable pub rollout_restart : Text → W → Restart × W
  rollout_restart pod w = elim (resolve_workload cluster pod w) [
    | unresolved e ↦ (not_resolved e, w)
    | no_controller ↦ (nothing_to_restart, w)
    | resolved wl ↦ restart_workload wl w
  ]
