-- ===== src/Kube/Images.antt =====
-- The image that cannot be pulled, as the list, the banner and the rebuild see it
-- (internal/kube/pods.go).
use devops_tools.Prelude.{
  ◌+◌, ◌<◌, ◌≤◌, ◌^◌, Text, text, Bool, true, false, not, ◌||◌, ◌&&◌, Option, none, some, List, [],
  ◌∷◌, ◌≡◌, ◌≢◌, refl, arith, any, length, is_empty, if◌then◌else◌, Option-cases, inl, inr, ◌∙◌,
  sym, ◌++◌,
}
use devops_tools.Kube.{Pod, ContainerStatus}
use devops_tools.Kube.Digits.{itoa_exact}
use devops_tools.Kube.Pods.{
  PodSummary, Tally, no_tally, tally_one, tally, ratio, summarize, lacks_image, is_crashing,
  issues_from, pod_issues, failing_image, pod_image,
}

tally_counts :
    (cs : List ContainerStatus) (t : Tally)
    → t.ready ≤ t.total
    → ((tally cs t).ready ≤ (tally cs t).total) × ((tally cs t).total ≡ t.total + length cs)
unfolding tally tally_one
tally_counts [] t h = (h, omega arith)
tally_counts (c ∷ cs) t h =
    let (le, n) = tally_counts cs (tally_one c t) (ground arith) in (le, omega (arith, n))

tally_unavailable :
    (cs : List ContainerStatus) (t : Tally)
    → (tally cs t).image_unavailable ≡ (t.image_unavailable || any lacks_image cs)
unfolding tally tally_one any
tally_unavailable [] t = ground arith
tally_unavailable (c ∷ cs) t = ground (arith, tally_unavailable cs (tally_one c t))

abbrev or_image : Text → Option Text → Text
or_image seen found = if is_empty seen then (elim found [ none ↦ [] | some i ↦ i ]) else seen

tally_image :
    (cs : List ContainerStatus) (t : Tally)
    → (tally cs t).unavailable_image ≡ or_image t.unavailable_image (failing_image cs)
unfolding tally tally_one failing_image
tally_image [] t = ground arith
tally_image (c ∷ cs) t = ground (arith, tally_image cs (tally_one c t))

issues_image :
    (cs : List ContainerStatus) (found : Bool × Bool)
    → (issues_from cs found).0 ≡ (found.0 || any lacks_image cs)
unfolding issues_from any
issues_image [] (image, crash) = ground arith
issues_image (c ∷ cs) (image, crash) =
    issues_image cs (
      if lacks_image c then true else image,
      if not (lacks_image c) && is_crashing c then true else crash,
    )
    ∙ ground arith

pod_image_named :
    (p : Pod) (t : Tally)
    → t.unavailable_image ≡ or_image [] (failing_image p.statuses)
    → t.unavailable_image ≢ []
    → pod_image p ≡ some t.unavailable_image
unfolding pod_image
pod_image_named p t image h = elim (Option-cases (failing_image p.statuses)) [
  | inl e ↦ absurd (ground arith)
  | inr (i, e) ↦ ground arith
]

-- A pod with fewer containers than an int32 counts has a row in the list. The row says that an
-- image is unavailable exactly when the banner of the pod does; and an image that it names is the
-- one that a rebuild of the pod starts from.
pub summarize-pod_image :
    (p : Pod)
    → length p.statuses < 2 ^ 31
    → (row : PodSummary) × (summarize p ≡ some row)
      × (row.image_unavailable ≡ (pod_issues p).0)
      × (row.unavailable_image ≢ [] → pod_image p ≡ some row.unavailable_image)
unfolding summarize ratio pod_issues pod_image
summarize-pod_image p small =
    let t = tally p.statuses no_tally in
    let (fits, total) = tally_counts p.statuses no_tally (omega arith) in
    let (ready, r, _, _) = itoa_exact t.ready (omega arith) in
    let (all_, n, _, _) = itoa_exact t.total (omega arith) in
    let unavailable = tally_unavailable p.statuses no_tally in
    let banner = issues_image p.statuses (false, false) in
    let image = tally_image p.statuses no_tally in
    (
      record {
        name = p.name;
        status = p.phase;
        ready = ready ++ text "/" ++ all_;
        restarts = t.restarts;
        node = p.node;
        created = p.created;
        image_unavailable = t.image_unavailable;
        unavailable_image = t.unavailable_image;
      },
      rw (summarize, ratio, r, n) refl,
      unavailable ∙ sym banner,
      pod_image_named p t image,
    )
