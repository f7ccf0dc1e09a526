-- ===== src/Kube/Running.antt =====
-- internal/kube/pods.go: the running pods of a service, newest first.
use devops_tools.Prelude.{
  newest_first, NewestFirst, newest_first-NewestFirst, any-newest_first, any-filter, Text, text,
  Bool, not, ◌&&◌, List, [], ◌∷◌, ◌≡◌, refl, arith, ◌==◌, any, contains, map, filter, ◌∙◌,
}
use devops_tools.Kube.{Pod}
use devops_tools.Kube.Pods.{label, app_label_keys}

unfoldable pub is_running_of : Text → Pod → Bool
is_running_of app p =
    p.phase == text "Running"
    && not p.terminating
    && any (λ k. label p.labels k == app) app_label_keys

unfoldable pub running_for_app : Text → List Pod → List Pod
running_for_app app pods = newest_first (λ p. p.created) (filter (is_running_of app) pods)

-- RunningPodsForApp
unfoldable pub running_pods_for_app : Text → List Pod → List Text
running_pods_for_app app pods = map (λ p. p.name) (running_for_app app pods)

contains-names :
    (name : Text) (ps : List Pod)
    → contains (map (λ p. p.name) ps) name ≡ any (λ p. p.name == name) ps
unfolding contains any
contains-names name [] = refl
contains-names name (p ∷ ps) = ground (arith, contains-names name ps)

-- The replacements that are offered for a service's pod are exactly its running pods that are not
-- being deleted, and no pod comes before one that was created later.
pub contains-running_pods_for_app :
    (app : Text) (pods : List Pod)
    → NewestFirst (λ p. p.created) (running_for_app app pods)
      × ((name : Text)
          → contains (running_pods_for_app app pods) name
            ≡ any (λ p. is_running_of app p && p.name == name) pods)
unfolding running_for_app running_pods_for_app
contains-running_pods_for_app app pods = (
  newest_first-NewestFirst (λ p. p.created) (filter (is_running_of app) pods),
  λ name.
      contains-names name (running_for_app app pods)
      ∙ any-newest_first (λ p. p.created) (λ p. p.name == name) (filter (is_running_of app) pods)
      ∙ any-filter (is_running_of app) (λ p. p.name == name) pods,
)
