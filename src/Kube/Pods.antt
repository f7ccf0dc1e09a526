-- ===== src/Kube/Pods.antt =====
-- internal/kube/pods.go: what the list and the detail of a pod say.
use devops_tools.Prelude.{
  ℕ, ◌+◌, ◌^◌, Text, text, Bool, true, false, not, ◌||◌, ◌&&◌, Option, none, some, List, [], ◌∷◌,
  ◌++◌, pos, ◌==◌, eqb, is_empty, lookup, Dict, if◌then◌else◌, sort_by, map,
}
use Prim.Native.Nat.{◌%◌}
use devops_tools.Kube.{Pod, ContainerStatus, Container}
use devops_tools.Kube.Digits.{itoa}

pub record PodSummary : Type 0 where
  pub name : Text
  pub status : Text
  pub ready : Text
  pub restarts : ℕ
  pub node : Text
  pub created : ℕ
  pub image_unavailable : Bool
  pub unavailable_image : Text

-- The reasons for which an image cannot be pulled.
unfoldable pub is_image_reason : Text → Bool
is_image_reason reason = reason == text "ImagePullBackOff" || reason == text "ErrImagePull"

unfoldable pub lacks_image : ContainerStatus → Bool
lacks_image c = elim c.waiting [ none ↦ false | some reason ↦ is_image_reason reason ]

unfoldable pub is_crashing : ContainerStatus → Bool
is_crashing c = elim c.waiting [ none ↦ false | some reason ↦ reason == text "CrashLoopBackOff" ]

-- The variables of the loop over the statuses; the restarts wrap around as an int32 does.
pub record Tally : Type 0 where
  pub ready : ℕ
  pub total : ℕ
  pub restarts : ℕ
  pub image_unavailable : Bool
  pub unavailable_image : Text

abbrev pub no_tally : Tally
no_tally = record {
  ready = 0;
  total = 0;
  restarts = 0;
  image_unavailable = false;
  unavailable_image = [];
}

unfoldable pub tally_one : ContainerStatus → Tally → Tally
tally_one c t = record {
  ready = if c.ready then t.ready + 1 else t.ready;
  total = t.total + 1;
  restarts = (t.restarts + c.restarts) % 2 ^ 32;
  image_unavailable = if lacks_image c then true else t.image_unavailable;
  unavailable_image =
      if lacks_image c && is_empty t.unavailable_image then c.image else t.unavailable_image;
}

unfoldable pub tally : List ContainerStatus → Tally → Tally
tally [] t = t
tally (c ∷ cs) t = tally cs (tally_one c t)

-- "ready/total"; `none` is the panic of `itoa`.
unfoldable pub ratio : Tally → Option Text
ratio t = elim (itoa (pos t.ready)) [
  | none ↦ none
  | some r ↦ elim (itoa (pos t.total)) [ none ↦ none | some n ↦ some (r ++ text "/" ++ n) ]
]

unfoldable pub summarize : Pod → Option PodSummary
summarize p =
    let t = tally p.statuses no_tally in
    elim (ratio t) [
      | none ↦ none
      | some ready ↦ some (record {
        name = p.name;
        status = p.phase;
        ready = ready;
        restarts = t.restarts;
        node = p.node;
        created = p.created;
        image_unavailable = t.image_unavailable;
        unavailable_image = t.unavailable_image;
      })
    ]

-- PodIssues: whether an image is unavailable, and whether a container crashes in a loop.
unfoldable pub issues_from : List ContainerStatus → Bool × Bool → Bool × Bool
issues_from [] found = found
issues_from (c ∷ cs) (image, crash) = issues_from cs (
  if lacks_image c then true else image,
  if not (lacks_image c) && is_crashing c then true else crash,
)

unfoldable pub pod_issues : Pod → Bool × Bool
pod_issues p = issues_from p.statuses (false, false)

-- The loop of PodImage over the statuses.
unfoldable pub failing_image : List ContainerStatus → Option Text
failing_image [] = none
failing_image (c ∷ cs) =
    let rest = failing_image cs in
    if lacks_image c && not (is_empty c.image) then some c.image else rest

unfoldable pub first_image : List Container → Option Text
first_image [] = none
first_image (c ∷ cs) = some c.image

-- `none` is the error of a pod without containers.
unfoldable pub pod_image : Pod → Option Text
pod_image p = elim (failing_image p.statuses) [ none ↦ first_image p.containers | some i ↦ some i ]

abbrev pub app_label_keys : List Text
app_label_keys = text "app" ∷ text "app.kubernetes.io/name" ∷ text "app.kubernetes.io/instance" ∷ []

-- A missing entry of a map reads as empty.
unfoldable pub label : Dict Text → Text → Text
label labels k = elim (lookup k labels) [ none ↦ [] | some v ↦ v ]

unfoldable pub first_label : Dict Text → List Text → Text
first_label labels [] = []
first_label labels (k ∷ ks) =
    let rest = first_label labels ks in
    if not (is_empty (label labels k)) then label labels k else rest

unfoldable pub pod_app_label : Pod → Text
pod_app_label p = first_label p.labels app_label_keys

-- An event as the API has it, its times as RFC 3339 writes them, or empty for the zero time.
pub record Event : Type 0 where
  pub kind : Text
  pub reason : Text
  pub message : Text
  pub count : ℕ
  pub last_timestamp : Text
  pub event_time : Text

pub record PodEvent : Type 0 where
  pub kind : Text
  pub reason : Text
  pub message : Text
  pub count : ℕ
  pub last : Text

unfoldable pub pod_event : Event → PodEvent
pod_event e = record {
  kind = e.kind;
  reason = e.reason;
  message = e.message;
  count = if eqb e.count 0 then 1 else e.count;
  last = if is_empty e.last_timestamp then e.event_time else e.last_timestamp;
}

unfoldable pub pod_events : List Event → List PodEvent
pod_events events = sort_by (λ e. e.last) (map pod_event events)
