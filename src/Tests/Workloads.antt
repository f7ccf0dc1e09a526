-- ===== src/Tests/Workloads.antt =====
-- Pods, restarts and rollouts, at small inputs (internal/kube).
use devops_tools.Prelude.{
  newest_first, place_newest, ℕ, ◌+◌, ◌*◌, ◌≤◌, Text, text, ◌≡◌, ◌≢◌, refl, arith, true, false,
  none, some, [], ◌∷◌, pos, lookup, text_dec, ℕ_discrete, contains, any, filter, length, In, sym,
  ap,
}
use Prim.Native.Nat.{◌/◌}
use devops_tools.Kube.{Pod}
use devops_tools.Kube.Digits.{itoa, digits, value, value_from, itoa_exact}
use devops_tools.Kube.Pods.{
  PodSummary, summarize, pod_issues, pod_image, label, lacks_image, is_image_reason, tally,
  tally_one, ratio, failing_image, first_image, issues_from,
}
use devops_tools.Kube.Images.{summarize-pod_image}
use devops_tools.Kube.Picking.{
  containers, container_names, annotated, default_container, occurrences, head, move_to_front,
  put_at_first,
}
use devops_tools.Kube.Running.{is_running_of, running_for_app, running_pods_for_app}
use devops_tools.Kube.Restarts.{
  fetched, WorkloadRef, stateful_set, Cluster, Rfc3339, resolve_workload, resolve_owner,
  resolve_replica_set, restarted, is_recent, patched, restart_workload, rollout_restart,
}
use devops_tools.Kube.Deduplication.{KeepsPatches, rollout_restart_once}
use devops_tools.Kube.Rollouts.{
  Workload, daemon_set, progress, rollout_status, rank, pod_stuck_reason, is_to_blame, blame,
  statuses_reason, status_reason, waiting_reason, is_unschedulable, pod_ready, ready_from,
}
use devops_tools.Kube.Diagnosis.{Found, rollout_status-Found}

program : Unit {0}
unfolding lookup text_dec ℕ_discrete contains any filter itoa digits value value_from summarize
    pod_issues pod_image label lacks_image is_image_reason tally tally_one ratio failing_image
    first_image issues_from containers container_names annotated default_container occurrences head
    move_to_front put_at_first is_running_of running_for_app running_pods_for_app newest_first
    place_newest resolve_workload resolve_owner resolve_replica_set is_recent patched
    restart_workload rollout_restart progress rollout_status rank pod_stuck_reason is_to_blame blame
    statuses_reason status_reason waiting_reason is_unschedulable pod_ready ready_from
program = tt

abbrev web : Pod
web = record {
  name = text "web-1";
  phase = text "Running";
  node = text "n1";
  created = 5;
  terminating = false;
  labels = (text "app", text "web") ∷ [];
  annotations = (text "kubectl.kubernetes.io/default-container", text "main") ∷ [];
  statuses =
      (record { ready = true; restarts = 3; image = text "proxy:1"; waiting = none })
      ∷ (record {
        ready = false;
        restarts = 0;
        image = text "app:2";
        waiting = some (text "ImagePullBackOff");
      })
      ∷ [];
  containers =
      (record { name = text "proxy"; image = text "proxy:1" })
      ∷ (record { name = text "main"; image = text "app:2" })
      ∷ [];
  conditions = [];
  owner = some (record { kind = text "StatefulSet"; name = text "web" });
}

abbrev newer : Pod
newer = record web { name = text "web-2"; created = 9 }

itoa_exact_example :
    (s : Text) × (itoa (pos 2_147_483_647) ≡ some s) × (value s ≡ 2_147_483_647) × (length s ≤ 10)
itoa_exact_example = itoa_exact 2_147_483_647 (omega arith)

int_written : itoa (pos 1205) ≡ some (text "1205")
unfolding program
int_written = refl

summarize-pod_image_example :
    (row : PodSummary) × (summarize web ≡ some row)
    × (row.image_unavailable ≡ (pod_issues web).0)
    × (row.unavailable_image ≢ [] → pod_image web ≡ some row.unavailable_image)
summarize-pod_image_example = summarize-pod_image web (omega arith)

main_first : containers web ≡ text "main" ∷ text "proxy" ∷ []
unfolding program
main_first = refl

newest_offered_first :
    running_pods_for_app (text "web") (web ∷ newer ∷ []) ≡ text "web-2" ∷ text "web-1" ∷ []
unfolding program
newest_offered_first = refl

-- A world is the stamp of the one workload, and the time.
abbrev World : Type 0
World = Text × ℕ

-- A time is written as its seconds.
abbrev times : Rfc3339
times = record {
  parse = λ s. elim s [ [] ↦ none | n ∷ _ ↦ some (n * 1_000_000_000) ];
  format = λ t. t / 1_000_000_000 ∷ [];
}

-- A patch takes a second.
abbrev cluster : Cluster World
cluster = record {
  now = λ w. w.1;
  pod = λ name w. fetched web;
  replica_set = λ name w. fetched none;
  stamp = λ wl w. fetched w.0;
  patch = λ wl s w. (none, (s, w.1 + 1_000_000_000));
}

abbrev web_set : WorkloadRef
web_set = record { kind = stateful_set; name = text "web" }

keeps_patches : KeepsPatches cluster
unfolding program
keeps_patches = record {
  stamped = λ wl s w w' p. sym (ap (λ r. fetched r.1.0) p);
  owned = λ wl s w w' pod p. refl;
}

abbrev start : World
start = ([], 100_500_000_000)

abbrev after_first : World
after_first = (100 ∷ [], 101_500_000_000)

rollout_restart_once_example :
    (rollout_restart times cluster (text "web-1") start ≡ (restarted web_set, after_first))
    × (rollout_restart times cluster (text "web-2") after_first ≡ (restarted web_set, after_first))
unfolding program
rollout_restart_once_example =
    rollout_restart_once times cluster (λ t. refl) keeps_patches (text "web-1") (text "web-2")
      web_set [] start after_first refl refl refl refl refl (omega arith)

abbrev later : World
later = (100 ∷ [], 111_000_000_000)

abbrev set : Workload
set = daemon_set 2 2 3 1 2 2

rollout_status-Found_example :
    let st = rollout_status set (some (newer ∷ web ∷ [])) in
    ((progress set).done ≡ true → st ≡ progress set)
    × Found (progress set) (newer ∷ web ∷ []) st
    × ((progress set).done ≡ false
        → (p : Pod) → In p (newer ∷ web ∷ [])
        → is_to_blame p ≡ true
        → rank (pod_stuck_reason p) ≤ rank st.reason)
rollout_status-Found_example = rollout_status-Found set (newer ∷ web ∷ [])

blamed_on_image : (rollout_status set (some (web ∷ []))).reason ≡ text "image"
unfolding program
blamed_on_image = refl
