-- ===== src/Trail/Reading.antt =====
-- internal/auditlog/auditlog.go: the page of the trail, read backwards in windows from Loki or from
-- the logs of the own pods. Loki is a parameter: the lines that it answers to a scope, a filter, a
-- window and a limit, in which its query is written.
use devops_tools.Prelude.{
  ℕ, zero, suc, ◌-◌, ◌*◌, ◌++◌, Text, Bool, true, false, not, ◌&&◌, ◌||◌, Option, none, some, List,
  [], ◌∷◌, length, ltb, eqb, ℤ, pos, negsuc, is_empty, if◌then◌else◌,
}
use devops_tools.Trail.{Unmarshal, Entry, parse, Scope, is_empty_scope, Filter, keep}
use devops_tools.Trail.Pods.{PodLister, read_pods, sort_newest_first}

abbrev pub hour : ℕ
hour = 3600 * 1000000000

abbrev pub window : ℕ
window = 24 * hour

abbrev pub steps : ℕ
steps = 7

abbrev pub pod_horizon : ℕ
pod_horizon = 12 * hour

-- loki.Client.QueryRange; `none` is an error.
abbrev pub QueryRange : Type 0
QueryRange = Scope → Filter → ℕ → ℕ → ℕ → Option (List Text)

pub record Reader : Type 0 where
  pub loki : Option QueryRange
  pub pods : Option PodLister
  pub horizon : ℕ

-- The namespace of the service is empty where it could not find out its own.
unfoldable pub new : Text → Option QueryRange → Option PodLister → ℕ → Reader
new own_namespace loki_client pods horizon =
    if is_empty own_namespace
    then record { loki = none; pods = none; horizon = horizon }
    else elim loki_client [
      | some query ↦ record {
        loki = some query;
        pods = none;
        horizon = if eqb horizon 0 then 30 * 24 * hour else horizon;
      }
      | none ↦ elim pods [
        | none ↦ record { loki = none; pods = none; horizon = horizon }
        | some lister ↦ record { loki = none; pods = some lister; horizon = pod_horizon }
      ]
    ]

pub data Source : Type 0 where
  source_loki source_pods source_none : Source

unfoldable pub source : Reader → Source
source r = elim r.loki [
  | some query ↦ source_loki
  | none ↦ elim r.pods [ some lister ↦ source_pods | none ↦ source_none ]
]

pub record Page : Type 0 where
  pub entries : List Entry
  pub next : Option ℕ

unfoldable pub limit_of : ℤ → ℕ
limit_of (negsuc n) = 200
limit_of (pos n) = if eqb n 0 || ltb 500 n then 200 else n

unfoldable pub start_of : ℕ → Option ℕ → ℕ
start_of now none = now
start_of now (some to) = if ltb now to then now else to

unfoldable pub floor_of : ℕ → ℕ → Option ℕ → ℕ
floor_of now horizon none = now - horizon
floor_of now horizon (some from) = if ltb (now - horizon) from then from else now - horizon

-- The beginning of the window that ends at a time.
unfoldable pub from_of : ℕ → ℕ → ℕ
from_of floor to = if ltb (to - window) floor then floor else to - window

unfoldable pub next_of : ℕ → ℕ → Option ℕ
next_of floor to = if not (ltb floor to) then none else some to

unfoldable pub kept_lines : Unmarshal → Scope → Filter → List Text → List Entry
kept_lines unmarshal sc f [] = []
kept_lines unmarshal sc f (line ∷ lines) =
    let rest = kept_lines unmarshal sc f lines in
    elim (parse unmarshal line) [ none ↦ rest | some e ↦ if keep sc f e then e ∷ rest else rest ]

-- read: one window, from its beginning, to its end, at most so many.
unfoldable pub read_window : Unmarshal → Reader → Scope → Filter → ℕ → ℕ → ℕ → Option (List Entry)
read_window unmarshal r sc f from to limit = elim r.pods [
  | some lister ↦ read_pods unmarshal lister sc f from to limit
  | none ↦ elim r.loki [
    | none ↦ none
    | some query ↦ elim (query sc f from to limit) [
      | none ↦ none
      | some lines ↦ some (kept_lines unmarshal sc f lines)
    ]
  ]
]

module _ (ask : ℕ → ℕ → ℕ → Option (List Entry)) (floor limit : ℕ) where
  -- The loop over the windows, with the steps that are left, the end of the next window and what
  -- was read so far.
  unfoldable pub walk : ℕ → ℕ → List Entry → Option (List Entry × ℕ)
  walk zero to out = some (out, to)
  walk (suc left) to out =
      if ltb floor to && ltb (length out) limit
      then elim (ask (from_of floor to) to (limit - length out)) [
        | none ↦ none
        | some batch ↦ walk left (from_of floor to) (out ++ batch)
      ]
      else some (out, to)

  unfoldable pub paged : Option (List Entry × ℕ) → Option Page
  paged none = none
  paged (some (out, to)) =
      some (record { entries = sort_newest_first out; next = next_of floor to })

  unfoldable pub read_from : ℕ → Option Page
  read_from to = paged (walk steps to [])

-- Source() is not SourceNone.
unfoldable pub has_source : Reader → Bool
has_source r = elim (source r) [ source_none ↦ false | _ ↦ true ]

abbrev pub empty_page : Page
empty_page = record { entries = []; next = none }

-- Reader.Read; `none` is an error.
unfoldable pub read : Unmarshal → Reader → Scope → Filter → ℕ → Option Page
read unmarshal r sc f now =
    if not (has_source r)
    then none
    else if is_empty_scope sc
    then some empty_page
    else read_from (read_window unmarshal r sc f) (floor_of now r.horizon f.from) (limit_of f.limit)
        (start_of now f.to)
