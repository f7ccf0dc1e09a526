-- ===== src/Kube/Deduplication.antt =====
-- Restarting several pods of one workload (internal/kube/pods.go).
use devops_tools.Prelude.{
  ℕ, ◌+◌, ◌*◌, ◌<◌, ◌≤◌, Text, true, false, none, some, ◌≡◌, refl, arith, ◌∙◌,
}
use Prim.Native.Nat.{◌/◌}
use devops_tools.Kube.Restarts.{
  fetched, WorkloadRef, Cluster, Rfc3339, restart_dedupe_window, resolved, resolve_workload,
  restarted, is_recent, patched, restart_workload, rollout_restart,
}

-- RFC 3339 keeps the whole seconds of a time.
abbrev pub KeepsSeconds : Rfc3339 → Type 0
KeepsSeconds times =
    (t : ℕ) → times.parse (times.format t) ≡ some (t / 1_000_000_000 * 1_000_000_000)

module _ {W : Type 0} (times : Rfc3339) (cluster : Cluster W) (seconds : KeepsSeconds times) where
  is_recent-format :
      (t now : ℕ) → now < t + 9_000_000_000 → is_recent times cluster (times.format t) now ≡ true
  unfolding is_recent
  is_recent-format t now soon = rw (is_recent, seconds t) (ground arith)

  is_recent-over :
      (t now : ℕ)
      → t + restart_dedupe_window ≤ now
      → is_recent times cluster (times.format t) now ≡ false
  unfolding is_recent
  is_recent-over t now late = rw (is_recent, seconds t) (ground arith)

  -- A workload that was stamped at a time is not restarted again within nine seconds of it, through
  -- whichever of its pods: the answer is that it was restarted, and the cluster is left alone.
  pub rollout_restart-within :
      (pod : Text) (wl : WorkloadRef) (t : ℕ) (w : W)
      → resolve_workload cluster pod w ≡ resolved wl
      → cluster.stamp wl w ≡ fetched (times.format t)
      → cluster.now w < t + 9_000_000_000
      → rollout_restart times cluster pod w ≡ (restarted wl, w)
  unfolding rollout_restart restart_workload
  rollout_restart-within pod wl t w found stamped soon =
      rw
        (rollout_restart, found, restart_workload, stamped, is_recent-format t (cluster.now w) soon)
        refl

  -- Ten seconds after it was stamped, a workload is restarted again: its pod template is stamped
  -- with the present time.
  pub rollout_restart-after :
      (pod : Text) (wl : WorkloadRef) (t : ℕ) (w w' : W)
      → resolve_workload cluster pod w ≡ resolved wl
      → cluster.stamp wl w ≡ fetched (times.format t)
      → t + restart_dedupe_window ≤ cluster.now w
      → cluster.patch wl (times.format (cluster.now w)) w ≡ (none, w')
      → rollout_restart times cluster pod w ≡ (restarted wl, w')
  unfolding rollout_restart restart_workload patched
  rollout_restart-after pod wl t w w' found stamped late written =
      rw
        (
          rollout_restart,
          found,
          restart_workload,
          stamped,
          is_recent-over t (cluster.now w) late,
          written,
        )
        refl

-- A patch that went through is what is read of the workload from then on, and leaves the pods and
-- their owners as they are.
pub record KeepsPatches {W : Type 0} (cluster : Cluster W) : Type 0 where
  pub stamped :
      (wl : WorkloadRef) (s : Text) (w w' : W)
      → cluster.patch wl s w ≡ (none, w')
      → cluster.stamp wl w' ≡ fetched s
  pub owned :
      (wl : WorkloadRef) (s : Text) (w w' : W) (pod : Text)
      → cluster.patch wl s w ≡ (none, w')
      → resolve_workload cluster pod w' ≡ resolve_workload cluster pod w

module _ {W : Type 0} (times : Rfc3339) (cluster : Cluster W) (seconds : KeepsSeconds times)
    (laws : KeepsPatches cluster) where
  -- Selecting two pods of one workload restarts it once: where it was not restarted lately, the
  -- first restart stamps it, and the second, within nine seconds of the first, leaves the cluster
  -- as the first left it, and both say that it was restarted.
  pub rollout_restart_once :
      (pod pod' : Text) (wl : WorkloadRef) (last : Text) (w w' : W)
      → resolve_workload cluster pod w ≡ resolved wl
      → resolve_workload cluster pod' w ≡ resolved wl
      → cluster.stamp wl w ≡ fetched last
      → is_recent times cluster last (cluster.now w) ≡ false
      → cluster.patch wl (times.format (cluster.now w)) w ≡ (none, w')
      → cluster.now w' < cluster.now w + 9_000_000_000
      → (rollout_restart times cluster pod w ≡ (restarted wl, w'))
        × (rollout_restart times cluster pod' w' ≡ (restarted wl, w'))
  unfolding rollout_restart restart_workload patched
  rollout_restart_once pod pod' wl last w w' found found' stamped old written soon = (
    rw (rollout_restart, found, restart_workload, stamped, old, written) refl,
    rollout_restart-within times cluster seconds pod' wl (cluster.now w) w'
        (laws.owned wl _ w w' pod' written ∙ found') (laws.stamped wl _ w w' written) soon,
  )
