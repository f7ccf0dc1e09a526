-- ===== src/Kube/Rollouts.antt =====
-- internal/kube/rollout.go: how far a rollout has come, and why it does not come further. The
-- workload and the pods that its selector gives are parameters.
use devops_tools.Prelude.{
  ℕ, Text, text, Bool, false, not, ◌||◌, ◌&&◌, Option, none, some, List, [], ◌∷◌, ◌==◌, any, eqb,
  leb, ltb, if◌then◌else◌,
}
use devops_tools.Kube.{Pod, ContainerStatus, Condition}
use devops_tools.Kube.Pods.{is_image_reason}

-- What is read of a Deployment, a StatefulSet and a DaemonSet. `replicas` is `none` where the
-- specification leaves it out.
pub data Workload : Type 0 where
  deployment :
      (replicas : Option ℕ) (generation observed updated all_ ready available : ℕ)
      (conditions : List Condition)
      → Workload
  stateful_set :
      (replicas : Option ℕ) (generation observed updated ready available : ℕ)
      (current_revision update_revision : Text)
      → Workload
  daemon_set : (generation observed scheduled updated ready available : ℕ) → Workload

pub record RolloutStatus : Type 0 where
  pub desired : ℕ
  pub updated : ℕ
  pub ready : ℕ
  pub available : ℕ
  pub done : Bool
  pub deadline_exceeded : Bool
  pub reason : Text
  pub reason_pod : Text

unfoldable pub replicas_or_one : Option ℕ → ℕ
replicas_or_one none = 1
replicas_or_one (some n) = n

unfoldable pub is_exceeded : Condition → Bool
is_exceeded c =
    c.kind == text "Progressing"
    && c.status == text "False"
    && c.reason == text "ProgressDeadlineExceeded"

unfoldable pub progress : Workload → RolloutStatus
progress (deployment replicas generation observed updated all_ ready available conditions) =
    record {
      desired = replicas_or_one replicas;
      updated = updated;
      ready = ready;
      available = available;
      done =
          leb generation observed
          && eqb updated (replicas_or_one replicas)
          && eqb all_ updated
          && eqb available updated;
      deadline_exceeded = any is_exceeded conditions;
      reason = [];
      reason_pod = [];
    }
progress (stateful_set replicas generation observed updated ready available current update_) =
    record {
      desired = replicas_or_one replicas;
      updated = updated;
      ready = ready;
      available = available;
      done =
          leb generation observed
          && eqb updated (replicas_or_one replicas)
          && eqb ready (replicas_or_one replicas)
          && current == update_;
      deadline_exceeded = false;
      reason = [];
      reason_pod = [];
    }
progress (daemon_set generation observed scheduled updated ready available) = record {
  desired = scheduled;
  updated = updated;
  ready = ready;
  available = available;
  done = leb generation observed && eqb updated scheduled && eqb ready scheduled;
  deadline_exceeded = false;
  reason = [];
  reason_pod = [];
}

-- The first condition that tells whether the pod is ready.
unfoldable pub ready_from : List Condition → Bool
ready_from [] = false
ready_from (c ∷ cs) =
    let rest = ready_from cs in if c.kind == text "Ready" then c.status == text "True" else rest

unfoldable pub pod_ready : Pod → Bool
pod_ready p = ready_from p.conditions

abbrev pub reason_image : Text
reason_image = text "image"

abbrev pub reason_crash : Text
reason_crash = text "crash"

abbrev pub reason_config : Text
reason_config = text "config"

abbrev pub reason_unschedulable : Text
reason_unschedulable = text "unschedulable"

unfoldable pub waiting_reason : Text → Option Text
waiting_reason w =
    if is_image_reason w
    then some reason_image
    else if w == text "CrashLoopBackOff"
    then some reason_crash
    else if w == text "CreateContainerConfigError"
    then some reason_config
    else none

unfoldable pub status_reason : ContainerStatus → Option Text
status_reason c = elim c.waiting [ none ↦ none | some w ↦ waiting_reason w ]

unfoldable pub statuses_reason : List ContainerStatus → Option Text
statuses_reason [] = none
statuses_reason (c ∷ cs) =
    let rest = statuses_reason cs in elim (status_reason c) [ none ↦ rest | some r ↦ some r ]

unfoldable pub is_unschedulable : Condition → Bool
is_unschedulable c =
    c.kind == text "PodScheduled" && c.status == text "False" && c.reason == text "Unschedulable"

unfoldable pub pod_stuck_reason : Pod → Text
pod_stuck_reason p = elim (statuses_reason p.statuses) [
  | some r ↦ r
  | none ↦ if any is_unschedulable p.conditions then reason_unschedulable else []
]

unfoldable pub rank : Text → ℕ
rank reason =
    if reason == reason_image
    then 4
    else if reason == reason_crash
    then 3
    else if reason == reason_config
    then 2
    else if reason == reason_unschedulable
    then 1
    else 0

unfoldable pub is_to_blame : Pod → Bool
is_to_blame p = not (p.terminating || pod_ready p)

-- The loop over the pods.
unfoldable pub blame : RolloutStatus → List Pod → RolloutStatus
blame st [] = st
blame st (p ∷ ps) =
    let worse = blame (record st { reason = pod_stuck_reason p; reason_pod = p.name }) ps in
    let same = blame st ps in
    if is_to_blame p && ltb (rank st.reason) (rank (pod_stuck_reason p)) then worse else same

-- RolloutStatus of a workload of a known kind; `pods` is `none` where they could not be listed.
unfoldable pub rollout_status : Workload → Option (List Pod) → RolloutStatus
rollout_status wl pods =
    let st = progress wl in if st.done then st else elim pods [ none ↦ st | some ps ↦ blame st ps ]
