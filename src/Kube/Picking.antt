-- ===== src/Kube/Picking.antt =====
-- internal/kube/pods.go: the containers of a pod in the order of the log viewer, and the one whose
-- log is opened when none is asked for.
use devops_tools.Prelude.{
  ℕ, ◌+◌, Text, text, true, not, Option, none, some, List, [], ◌∷◌, ◌≡◌, ◌≢◌, refl, arith, ◌==◌,
  is_empty, contains, map, if◌then◌else◌,
}
use devops_tools.Kube.{Pod}
use devops_tools.Kube.Pods.{label}

abbrev pub default_container_annotation : Text
default_container_annotation = text "kubectl.kubernetes.io/default-container"

-- names[i], names[0] = names[0], names[i] at the first i with that name.
unfoldable pub put_at_first : Text → Text → List Text → List Text
put_at_first wanted first [] = []
put_at_first wanted first (x ∷ xs) =
    let rest = put_at_first wanted first xs in if x == wanted then first ∷ xs else x ∷ rest

-- The loop looks for the name from the second place on.
unfoldable pub move_to_front : Text → List Text → List Text
move_to_front wanted [] = []
move_to_front wanted (x ∷ xs) =
    if contains xs wanted then wanted ∷ put_at_first wanted x xs else x ∷ xs

unfoldable pub container_names : Pod → List Text
container_names p = map (λ c. c.name) p.containers

unfoldable pub annotated : Pod → Text
annotated p = label p.annotations default_container_annotation

-- Containers
unfoldable pub containers : Pod → List Text
containers p =
    if not (is_empty (annotated p))
    then move_to_front (annotated p) (container_names p)
    else container_names p

unfoldable pub head : List Text → Option Text
head [] = none
head (x ∷ xs) = some x

-- defaultContainer; `none` is the error of a pod without containers.
unfoldable pub default_container : Pod → Option Text
default_container p =
    if not (is_empty (annotated p)) then some (annotated p) else head (container_names p)

-- How often a name occurs.
unfoldable pub occurrences : Text → List Text → ℕ
occurrences z [] = 0
occurrences z (x ∷ xs) = let rest = occurrences z xs in if x == z then 1 + rest else rest

abbrev once : Text → Text → ℕ
once x z = if x == z then 1 else 0

occurrences-put_at_first :
    (z wanted first : Text) (xs : List Text)
    → contains xs wanted ≡ true
    → occurrences z (put_at_first wanted first xs) + once wanted z ≡ occurrences z xs + once first z
unfolding occurrences put_at_first contains
occurrences-put_at_first z wanted first [] h = absurd (ground arith)
occurrences-put_at_first z wanted first (x ∷ xs) h =
    ground (arith, occurrences-put_at_first z wanted first xs)

occurrences-move_to_front :
    (z wanted : Text) (xs : List Text) → occurrences z (move_to_front wanted xs) ≡ occurrences z xs
unfolding occurrences move_to_front
occurrences-move_to_front z wanted [] = refl
occurrences-move_to_front z wanted (x ∷ xs) = ground (arith, occurrences-put_at_first z wanted x xs)

head-move_to_front :
    (wanted : Text) (xs : List Text)
    → contains xs wanted ≡ true
    → head (move_to_front wanted xs) ≡ some wanted
unfolding head move_to_front contains
head-move_to_front wanted [] h = absurd (ground arith)
head-move_to_front wanted (x ∷ xs) h = ground arith

-- The log viewer offers each container of the pod as often as the pod has it, and the first that it
-- offers is the one whose log is opened by default, unless the pod's annotation names a container
-- that it does not have.
pub occurrences-containers :
    (p : Pod)
    → ((z : Text) → occurrences z (containers p) ≡ occurrences z (container_names p))
      × (is_empty (annotated p) ≡ true → head (containers p) ≡ default_container p)
      × (contains (container_names p) (annotated p) ≡ true
          → annotated p ≢ []
          → head (containers p) ≡ default_container p)
unfolding containers default_container
occurrences-containers p = (
  λ z. ground (arith, occurrences-move_to_front z (annotated p) (container_names p)),
  λ e. rw e refl,
  λ found named_. ground (arith, head-move_to_front (annotated p) (container_names p) found),
)
