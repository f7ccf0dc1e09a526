-- ===== src/Trail/Kept.antt =====
-- A test that every window passes is passed by the whole page (internal/auditlog/auditlog.go,
-- podsource.go).
use devops_tools.Prelude.{
  ℕ, zero, suc, ◌-◌, ◌≤◌, Text, Bool, true, false, Option, none, some, List, [], ◌∷◌, ◌++◌, ◌≡◌,
  refl, arith, length, all, all-append, all-take, all-newest_first, Option-cases, Bool-cases, inl,
  inr, ◌∙◌, subst,
}
use devops_tools.Trail.{Unmarshal, Entry, parse, Scope, is_empty_scope, Filter, keep}
use devops_tools.Trail.Pods.{
  PodLister, is_between, sort_newest_first, scan_lines, scan_log, scan, scan_pods, read_pods,
}
use devops_tools.Trail.Walking.{Asked, asked, from_of-le, goes_on, walk_stop, walk_failed, walk_on}
use devops_tools.Trail.Reading.{
  Reader, Page, kept_lines, read_window, walk, paged, read_from, has_source, read, from_of,
  floor_of, limit_of, start_of,
}

-- What was read, if it was, passes the test.
abbrev pub Passing : (Entry → Bool) → Option (List Entry) → Type 0
Passing test none = Unit
Passing test (some batch) = all test batch ≡ true

abbrev pub PagePassing : (Entry → Bool) → Option Page → Type 0
PagePassing test none = Unit
PagePassing test (some page) = all test page.entries ≡ true

module _ (unmarshal : Unmarshal) (lister : PodLister) (sc : Scope) (f : Filter) (from to : ℕ)
    (test : Entry → Bool)
    (passes : (e : Entry) → is_between from to e ≡ true → keep sc f e ≡ true → test e ≡ true) where
  all-scan_lines :
      (left : ℕ) (lines : List Text)
      → all test (scan_lines unmarshal lister sc f from to left lines) ≡ true
  unfolding scan_lines all
  all-scan_lines zero lines = refl
  all-scan_lines (suc left) [] = refl
  all-scan_lines (suc left) (line ∷ lines) = elim (Option-cases (parse unmarshal line)) [
    | inl e ↦ ground (arith, all-scan_lines left lines)
    | inr (x, e) ↦ ground (arith, all-scan_lines left lines, passes x)
  ]

  all-scan :
      (pod : Text) (previous : Bool)
      → all test (scan unmarshal lister sc f from to pod previous) ≡ true
  unfolding scan scan_log all
  all-scan pod previous = elim (Option-cases (lister.own_pod_logs pod from previous)) [
    | inl e ↦ ground arith
    | inr (log, e) ↦ ground (arith, all-scan_lines 200000 log.lines)
  ]

  all-scan_pods :
      (pods : List Text) → all test (scan_pods unmarshal lister sc f from to pods) ≡ true
  unfolding scan_pods all
  all-scan_pods [] = refl
  all-scan_pods (pod ∷ pods) =
      rw (all-append, all-append, all-scan pod false, all-scan pod true, all-scan_pods pods)

  pub read_pods-Passing : (limit : ℕ) → Passing test (read_pods unmarshal lister sc f from to limit)
  unfolding read_pods sort_newest_first
  read_pods-Passing limit = elim (Option-cases lister.own_pods) [
    | inl e ↦ rw (read_pods, e) tt
    | inr (pods, e) ↦
        rw (read_pods, e)
          (all-take test limit _ (
            all-newest_first (λ x. x.time) test (scan_pods unmarshal lister sc f from to pods)
            ∙ all-scan_pods pods))
  ]

module _ (unmarshal : Unmarshal) (sc : Scope) (f : Filter) where
  all-kept_lines : (lines : List Text) → all (keep sc f) (kept_lines unmarshal sc f lines) ≡ true
  unfolding kept_lines all
  all-kept_lines [] = refl
  all-kept_lines (line ∷ lines) = elim (Option-cases (parse unmarshal line)) [
    | inl e ↦ ground (arith, all-kept_lines lines)
    | inr (x, e) ↦ ground (arith, all-kept_lines lines)
  ]

  pub read_window-Passing :
      (r : Reader) (from to limit : ℕ)
      → Passing (keep sc f) (read_window unmarshal r sc f from to limit)
  unfolding read_window
  read_window-Passing r from to limit = elim (Option-cases r.pods) [
    | inr (lister, e) ↦
        rw (read_window, e)
          (read_pods-Passing unmarshal lister sc f from to (keep sc f) (λ _ _ k. k) limit)
    | inl e ↦ elim (Option-cases r.loki) [
      | inl e' ↦ rw (read_window, e, e') tt
      | inr (query, e') ↦ elim (Option-cases (query sc f from to limit)) [
        | inl e'' ↦ rw (read_window, e, e', e'') tt
        | inr (lines, e'') ↦ rw (read_window, e, e', e'') (all-kept_lines lines)
      ]
    ]
  ]

module _ (ask : ℕ → ℕ → ℕ → Option (List Entry)) (floor top limit : ℕ) (test : Entry → Bool)
    (passes : (from to left : ℕ)
      → Asked floor top limit from to left
      → Passing test (ask from to left)) where
  walk-PagePassing :
      (left to : ℕ) (out : List Entry)
      → to ≤ top
      → all test out ≡ true
      → PagePassing test (paged ask floor limit (walk ask floor limit left to out))
  unfolding walk paged sort_newest_first
  walk-PagePassing zero to out le h = all-newest_first (λ x. x.time) test out ∙ h
  walk-PagePassing (suc left) to out le h =
      elim (Bool-cases (goes_on ask floor limit left to out)) [
        | inr e ↦
            rw (walk_stop ask floor limit left to out e)
              (all-newest_first (λ x. x.time) test out ∙ h)
        | inl e ↦ elim (Option-cases (ask (from_of floor to) to (limit - length out))) [
          | inl e' ↦ rw (walk_failed ask floor limit left to out e e') tt
          | inr (batch, e') ↦ rw (walk_on ask floor limit left to out batch e e') (
              walk-PagePassing left (from_of floor to) (out ++ batch)
                (from_of-le floor top to le (ground arith))
                (rw (all-append test out batch, h)
                  (subst (Passing test) e' (
                    passes (from_of floor to) to (limit - length out)
                      (asked floor top limit to (length out) le e)))))
        ]
      ]

-- Every test that all windows pass is passed by the page.
pub read-PagePassing :
    (unmarshal : Unmarshal) (r : Reader) (sc : Scope) (f : Filter) (now : ℕ) (test : Entry → Bool)
    → ((from to left : ℕ)
        → Asked (floor_of now r.horizon f.from) (start_of now f.to) (limit_of f.limit) from to left
        → Passing test (read_window unmarshal r sc f from to left))
    → PagePassing test (read unmarshal r sc f now)
unfolding read read_from all
read-PagePassing unmarshal r sc f now test passes = elim (Bool-cases (has_source r)) [
  | inr e ↦ rw (read, e) tt
  | inl e ↦ elim (Bool-cases (is_empty_scope sc)) [
    | inl e' ↦ rw (read, e, e') refl
    | inr e' ↦
        rw (read, e, e')
          (walk-PagePassing (read_window unmarshal r sc f) (floor_of now r.horizon f.from)
            (start_of now f.to) (limit_of f.limit) test passes 7 (start_of now f.to) []
            (omega arith) refl)
  ]
]
