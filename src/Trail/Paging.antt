-- ===== src/Trail/Paging.antt =====
-- What the cursor of a page leaves behind (internal/auditlog/auditlog.go, podsource.go).
use devops_tools.Prelude.{
  is_empty, ◌-◌, ℕ, ◌≤◌, ◌<◌, Text, true, false, Option, none, some, List, [], ◌≡◌, refl, arith,
  length, take, ltb, ℤ, pos, negsuc, length-take, length-newest_first, newest_first, ◌∙◌, ap,
}
use devops_tools.Trail.{Unmarshal, Entry, Scope, is_empty_scope, Filter, keep}
use devops_tools.Trail.Pods.{PodLister, scan_pods, read_pods, sort_newest_first}
use devops_tools.Trail.Reading.{
  source, Reader, Page, has_source, read_window, new, pod_horizon, walk, paged, read_from, read,
  from_of, floor_of, limit_of, start_of, next_of, window,
}
use devops_tools.Trail.Walking.{walk_stop, walk_on}

module _ (ask : ℕ → ℕ → ℕ → Option (List Entry)) (floor limit to : ℕ) (batch : List Entry) where
  -- A first window that fills the page ends the walk, whatever it held beyond the limit.
  pub read_full_window :
      ltb floor to ≡ true
      → 0 < limit
      → ask (from_of floor to) to limit ≡ some batch
      → limit ≤ length batch
      → read_from ask floor limit to
        ≡ some
            (record { entries = sort_newest_first batch; next = next_of floor (from_of floor to) })
  unfolding read_from paged
  read_full_window h positive e full = ap (paged ask floor limit) (
      walk_on ask floor limit 6 to [] batch (ground arith)
        (ap (ask (from_of floor to) to) (omega arith) ∙ e)
      ∙ walk_stop ask floor limit 5 (from_of floor to) batch (ground arith))

-- A reader over the logs of the own pods.
abbrev pub over_pods : PodLister → ℕ → Reader
over_pods lister horizon = record { loki = none; pods = some lister; horizon = horizon }

pub limit_of-pos : (n : ℤ) → 0 < limit_of n
unfolding limit_of
limit_of-pos (pos n) = ground arith
limit_of-pos (negsuc n) = ground arith

length-cut :
    (limit : ℕ) (es : List Entry)
    → limit ≤ length es
    → length (take limit (sort_newest_first es)) ≡ limit
unfolding sort_newest_first
length-cut limit es full =
    length-take limit (newest_first (λ x. x.time) es)
      (omega (arith, full, length-newest_first (λ x. x.time) es))

start_of-le : (now : ℕ) (to : Option ℕ) → start_of now to ≤ now
unfolding start_of
start_of-le now none = omega arith
start_of-le now (some to) = ground arith

floor_of-le : (now horizon : ℕ) (from : Option ℕ) → now - horizon ≤ floor_of now horizon from
unfolding floor_of
floor_of-le now horizon none = omega arith
floor_of-le now horizon (some t) = ground arith

within : (floor to : ℕ) → to - window ≤ floor → from_of floor to ≡ floor
unfolding from_of
within floor to le = ground arith

-- Where the logs of the pods end is within one window.
from_of-pods :
    (now : ℕ) (f : Filter)
    → from_of (floor_of now pod_horizon f.from) (start_of now f.to)
      ≡ floor_of now pod_horizon f.from
from_of-pods now f =
    within (floor_of now pod_horizon f.from) (start_of now f.to)
      (omega (arith, start_of-le now f.to, floor_of-le now pod_horizon f.from))

at_floor :
    (ask : ℕ → ℕ → ℕ → Option (List Entry)) (floor limit to : ℕ) (batch : List Entry)
    → from_of floor to ≡ floor
    → ltb floor to ≡ true
    → 0 < limit
    → ask floor to limit ≡ some batch
    → limit ≤ length batch
    → read_from ask floor limit to
      ≡ some (record { entries = sort_newest_first batch; next = none })
unfolding next_of
at_floor ask floor limit to batch at h positive asked full =
    read_full_window ask floor limit to batch h positive (ap (λ from. ask from to limit) at ∙ asked)
      full
    ∙ ap (λ next. some (record { entries = sort_newest_first batch; next = next }))
        (ap (next_of floor) at ∙ ground arith)

new-over_pods :
    (own_namespace : Text) (lister : PodLister) (horizon : ℕ)
    → is_empty own_namespace ≡ false
    → new own_namespace none (some lister) horizon ≡ over_pods lister pod_horizon
unfolding new
new-over_pods own_namespace lister horizon e = rw e refl

module _ (unmarshal : Unmarshal) (lister : PodLister) (horizon : ℕ) (sc : Scope) (f : Filter) where
  abbrev listed : ℕ → ℕ → ℕ → Option (List Text) → Option (List Entry)
  listed from to limit none = none
  listed from to limit (some pods) =
      some (take limit (sort_newest_first (scan_pods unmarshal lister sc f from to pods)))

  pub read_pods_listed :
      (pods : List Text) (from to limit : ℕ)
      → lister.own_pods ≡ some pods
      → read_pods unmarshal lister sc f from to limit
        ≡ some (take limit (sort_newest_first (scan_pods unmarshal lister sc f from to pods)))
  unfolding read_pods
  read_pods_listed pods from to limit e = ap (listed from to limit) e

  -- What there is to show of the logs of the pods.
  abbrev pub in_period : List Text → ℕ → List Entry
  in_period pods now =
      scan_pods unmarshal lister sc f (floor_of now pod_horizon f.from) (start_of now f.to) pods

  full_page :
      (pods : List Text) (now : ℕ)
      → lister.own_pods ≡ some pods
      → is_empty_scope sc ≡ false
      → ltb (floor_of now pod_horizon f.from) (start_of now f.to) ≡ true
      → limit_of f.limit < length (in_period pods now)
      → read unmarshal (over_pods lister pod_horizon) sc f now
        ≡ some (record {
          entries =
              sort_newest_first (take (limit_of f.limit) (sort_newest_first (in_period pods now)));
          next = none;
        })
  unfolding read has_source devops_tools.Trail.Reading.source read_window
  full_page pods now e visible below more =
      rw (read, visible)
        (at_floor (read_pods unmarshal lister sc f) (floor_of now pod_horizon f.from)
          (limit_of f.limit) (start_of now f.to)
          (take (limit_of f.limit) (sort_newest_first (in_period pods now))) (from_of-pods now f)
          below (limit_of-pos f.limit)
          (read_pods_listed pods (floor_of now pod_horizon f.from) (start_of now f.to)
            (limit_of f.limit) e)
          (omega (arith, length-cut (limit_of f.limit) (in_period pods now) (omega (arith, more)))))

  -- With the logs of the pods for a source, as `new` builds the reader, the first page is the last:
  -- when there is more to show than the page takes, it has the newest, as many as it takes, and no
  -- further page is offered, so that what was cut off is not reached. This is so for a namespace that
  -- is known, pods that can be listed, a scope that is not empty and a period that is not.
  pub read_cut_off :
      (own_namespace : Text) (pods : List Text) (now : ℕ)
      → is_empty own_namespace ≡ false
      → lister.own_pods ≡ some pods
      → is_empty_scope sc ≡ false
      → ltb (floor_of now pod_horizon f.from) (start_of now f.to) ≡ true
      → limit_of f.limit < length (in_period pods now)
      → let shown = take (limit_of f.limit) (sort_newest_first (in_period pods now)) in
        (read unmarshal (new own_namespace none (some lister) horizon) sc f now
          ≡ some (record { entries = sort_newest_first shown; next = none }))
        × (length shown ≡ limit_of f.limit)
  read_cut_off own_namespace pods now known e visible below more = (
    ap (λ r. read unmarshal r sc f now) (new-over_pods own_namespace lister horizon known)
        ∙ full_page pods now e visible below more,
    length-cut (limit_of f.limit) (in_period pods now) (omega (arith, more)),
  )
