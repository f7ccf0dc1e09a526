-- ===== src/Trail/Pods.antt =====
-- internal/auditlog/podsource.go: the trail read out of the logs of the service's own pods. Listing
-- the pods and opening their logs are a parameter.
use devops_tools.Prelude.{
  ℕ, zero, suc, Text, Bool, true, false, not, ◌&&◌, ◌||◌, Option, none, some, List, [], ◌∷◌, ◌++◌,
  length, take, ltb, leb, newest_first, if◌then◌else◌,
}
use devops_tools.Trail.{Unmarshal, Entry, parse, Scope, Filter, keep}

-- What a log gave: its lines, and whether reading broke off after them.
pub record Log : Type 0 where
  pub lines : List Text
  pub is_broken : Bool

-- OwnPods and OwnPodLogs; `none` is an error. A log is asked for from a time on, of the container
-- that runs or of the one before the last restart.
pub record PodLister : Type 0 where
  pub own_pods : Option (List Text)
  pub own_pod_logs : Text → ℕ → Bool → Option Log

abbrev pub max_scanned : ℕ
max_scanned = 200000

unfoldable pub is_between : ℕ → ℕ → Entry → Bool
is_between from to e = not (ltb e.time from || ltb to e.time)

unfoldable pub sort_newest_first : List Entry → List Entry
sort_newest_first = newest_first (λ e. e.time)

module _ (unmarshal : Unmarshal) (lister : PodLister) (sc : Scope) (f : Filter) (from to : ℕ) where
  -- The loop over the lines, at most so many of them.
  unfoldable pub scan_lines : ℕ → List Text → List Entry
  scan_lines zero lines = []
  scan_lines (suc left) [] = []
  scan_lines (suc left) (line ∷ lines) =
      let rest = scan_lines left lines in
      elim (parse unmarshal line) [
        | none ↦ rest
        | some e ↦ if is_between from to e && keep sc f e then e ∷ rest else rest
      ]

  -- The scanner reports that reading broke off only if it came to that place.
  unfoldable pub scan_log : Log → List Entry
  scan_log log =
      if log.is_broken && leb (length log.lines) max_scanned
      then []
      else scan_lines max_scanned log.lines

  -- scan; a log that cannot be read gives nothing, as the caller goes on to the next.
  unfoldable pub scan : Text → Bool → List Entry
  scan pod previous = elim (lister.own_pod_logs pod from previous) [
    | none ↦ []
    | some log ↦ scan_log log
  ]

  unfoldable pub scan_pods : List Text → List Entry
  scan_pods [] = []
  scan_pods (pod ∷ pods) = scan pod false ++ scan pod true ++ scan_pods pods

  -- podSource.read
  unfoldable pub read_pods : ℕ → Option (List Entry)
  read_pods limit = elim lister.own_pods [
    | none ↦ none
    | some pods ↦ some (take limit (sort_newest_first (scan_pods pods)))
  ]
