-- ===== src/Trail/Complete.antt =====
-- Nothing that a reader may see is missing between the ends of a page that is not full
-- (internal/auditlog/auditlog.go, podsource.go).
use devops_tools.Prelude.{
  ℕ, zero, suc, ◌-◌, ◌≤◌, ◌<◌, Text, Bool, true, false, ◌&&◌, Option, none, some, List, [], ◌∷◌,
  ◌++◌, ◌≡◌, refl, arith, ◌⊎◌, length, length-append, In, here, there, In-append_left,
  In-append_right, In-newest_first, NewestFirst, newest_first-NewestFirst, In-take,
  length-newest_first, ltb, Option-cases, Bool-cases, inl, inr, ◌∙◌,
}
use devops_tools.Trail.{Unmarshal, Entry, parse, Scope, is_empty_scope, Filter, keep}
use devops_tools.Trail.Pods.{
  Log, PodLister, max_scanned, is_between, scan_lines, scan_log, scan, scan_pods, read_pods,
  sort_newest_first,
}
use devops_tools.Trail.Reading.{
  source, Reader, Page, has_source, read_window, walk, paged, read_from, read, from_of, floor_of,
  limit_of, start_of, next_of, window,
}
use devops_tools.Trail.Walking.{goes_on, walk_stop, walk_on}
use devops_tools.Trail.Paging.{over_pods, read_pods_listed}

-- A log that holds the entry, is read to its end, and is not longer than what is scanned.
pub record Holds (unmarshal : Unmarshal) (e : Entry) (log : Option Log) : Type 0 where
  pub log' : Log
  pub line : Text
  pub found : log ≡ some log'
  pub is_whole : log'.is_broken ≡ false
  pub is_short : length log'.lines ≤ max_scanned
  pub in_lines : In line log'.lines
  pub parsed : parse unmarshal line ≡ some e

-- The entry stands in the log of some pod, from any time before it on.
pub record Logged (unmarshal : Unmarshal) (lister : PodLister) (e : Entry) : Type 0 where
  pub pods : List Text
  pub pod : Text
  pub previous : Bool
  pub listed : lister.own_pods ≡ some pods
  pub in_pods : In pod pods
  pub held :
      (since : ℕ) → since ≤ e.time → Holds unmarshal e (lister.own_pod_logs pod since previous)

module _ (unmarshal : Unmarshal) (lister : PodLister) (sc : Scope) (f : Filter) (e : Entry)
    (kept : keep sc f e ≡ true) where
  module _ (from to : ℕ) (between : is_between from to e ≡ true) where
    In-scan_lines :
        (left : ℕ) (lines : List Text) (line : Text)
        → In line lines
        → length lines ≤ left
        → parse unmarshal line ≡ some e
        → In e (scan_lines unmarshal lister sc f from to left lines)
    unfolding scan_lines
    In-scan_lines left [] line m le p = elim m [ ]
    In-scan_lines zero (x ∷ lines) line m le p = absurd (omega arith)
    In-scan_lines (suc left) (x ∷ lines) line here le p = rw (scan_lines, p, between, kept) here
    In-scan_lines (suc left) (x ∷ lines) line (there m) le p =
        elim (Option-cases (parse unmarshal x)) [
          | inl n ↦ rw (scan_lines, n) (In-scan_lines left lines line m (omega arith) p)
          | inr (e', q) ↦ elim (Bool-cases (is_between from to e' && keep sc f e')) [
            | inl t ↦
                rw (scan_lines, q, t) (there (In-scan_lines left lines line m (omega arith) p))
            | inr t ↦ rw (scan_lines, q, t) (In-scan_lines left lines line m (omega arith) p)
          ]
        ]

    In-scan :
        (pod : Text) (previous : Bool)
        → Holds unmarshal e (lister.own_pod_logs pod from previous)
        → In e (scan unmarshal lister sc f from to pod previous)
    unfolding scan scan_log
    In-scan pod previous h =
        rw (scan, h.found, scan_log, h.is_whole)
          (In-scan_lines 200000 h.log'.lines h.line h.in_lines h.is_short h.parsed)

    In-scan_pods :
        (pod : Text) (previous : Bool) (pods : List Text)
        → In pod pods
        → Holds unmarshal e (lister.own_pod_logs pod from previous)
        → In e (scan_pods unmarshal lister sc f from to pods)
    unfolding scan_pods
    In-scan_pods pod previous [] m h = elim m [ ]
    In-scan_pods pod false (x ∷ pods) here h =
        In-append_left (scan_pods unmarshal lister sc f from to pods)
          (In-append_left (scan unmarshal lister sc f from to pod true) (In-scan pod false h))
    In-scan_pods pod true (x ∷ pods) here h =
        In-append_left (scan_pods unmarshal lister sc f from to pods)
          (In-append_right (scan unmarshal lister sc f from to pod false) (In-scan pod true h))
    In-scan_pods pod previous (x ∷ pods) (there m) h =
        In-append_right
          (scan unmarshal lister sc f from to x false ++ scan unmarshal lister sc f from to x true)
          (In-scan_pods pod previous pods m h)

  -- One window, which is full or has the entry if it lies in it.
  read_pods-Complete :
      Logged unmarshal lister e
      → (from to limit : ℕ)
      → (batch : List Entry) × (read_pods unmarshal lister sc f from to limit ≡ some batch)
        × ((is_between from to e ≡ true) → (limit ≤ length batch) ⊎ In e batch)
  unfolding sort_newest_first is_between
  read_pods-Complete l from to limit = (
    _,
    read_pods_listed unmarshal lister 0 sc f l.pods from to limit l.listed,
    λ b. In-take limit (
        In-newest_first (λ x. x.time)
          (In-scan_pods from to b l.pod l.previous l.pods l.in_pods (l.held from (ground arith)))),
  )

module _ (ask : ℕ → ℕ → ℕ → Option (List Entry)) (floor limit : ℕ) where
  walk_full :
      (left to : ℕ) (out : List Entry)
      → limit ≤ length out
      → walk ask floor limit left to out ≡ some (out, to)
  unfolding walk
  walk_full zero to out h = refl
  walk_full (suc left) to out h = walk_stop ask floor limit left to out (ground arith)

  module _ (e : Entry)
      (complete : (from to left : ℕ)
        → (batch : List Entry) × (ask from to left ≡ some batch)
          × ((is_between from to e ≡ true) → (left ≤ length batch) ⊎ In e batch)) where
    progress :
        (to : ℕ) (out batch : List Entry)
        → In e out ⊎ (e.time < to)
        → ((is_between (from_of floor to) to e ≡ true)
            → (limit - length out ≤ length batch) ⊎ In e batch)
        → (limit ≤ length (out ++ batch)) ⊎ (In e (out ++ batch) ⊎ (e.time < from_of floor to))
    unfolding is_between
    progress to out batch (inl m) c = inr (inl (In-append_left batch m))
    progress to out batch (inr lt) c = elim (Bool-cases (ltb e.time (from_of floor to))) [
      | inl b ↦ inr (inr (ground arith))
      | inr b ↦ elim (c (ground arith)) [
        | inl l ↦ inl (omega (arith, length-append out batch))
        | inr m ↦ inr (inl (In-append_right out m))
      ]
    ]

    -- The walk ends with a full page, or later than the entry, or with the entry.
    walk-Complete :
        (left to : ℕ) (out : List Entry)
        → In e out ⊎ (e.time < to)
        → (out' : List Entry) × (to' : ℕ) × (walk ask floor limit left to out ≡ some (out', to'))
          × ((limit ≤ length out') ⊎ (e.time < to') ⊎ In e out')
    unfolding walk is_between
    walk-Complete zero to out h =
        (out, to, refl, elim h [ inl m ↦ inr (inr m) | inr lt ↦ inr (inl lt) ])
    walk-Complete (suc left) to out h = elim (Bool-cases (goes_on ask floor limit left to out)) [
      | inr g ↦ (
        out,
        to,
        walk_stop ask floor limit left to out g,
        elim h [ inl m ↦ inr (inr m) | inr lt ↦ inr (inl lt) ],
      )
      | inl g ↦
          let (batch, a, c) = complete (from_of floor to) to (limit - length out) in
          elim (progress to out batch h c) [
            | inl full ↦ (
              out ++ batch,
              from_of floor to,
              walk_on ask floor limit left to out batch g a
                  ∙ walk_full left (from_of floor to) (out ++ batch) full,
              inl full,
            )
            | inr h' ↦
                let (o, t, w, d) = walk-Complete left (from_of floor to) (out ++ batch) h' in
                (o, t, walk_on ask floor limit left to out batch g a ∙ w, d)
          ]
    ]

-- The time down to which a page goes: its cursor, or the floor where it has none.
unfoldable pub bottom_of : ℕ → Option ℕ → ℕ
bottom_of floor none = floor
bottom_of floor (some t) = t

page_end :
    (limit floor to : ℕ) (e : Entry) (out : List Entry)
    → (limit ≤ length out) ⊎ (e.time < to) ⊎ In e out
    → (limit ≤ length (sort_newest_first out))
      ⊎ (e.time < bottom_of floor (next_of floor to))
      ⊎ In e (sort_newest_first out)
unfolding sort_newest_first bottom_of next_of
page_end limit floor to e out (inl full) =
    inl (omega (arith, length-newest_first (λ x. x.time) out))
page_end limit floor to e out (inr (inl lt)) = elim (Bool-cases (ltb floor to)) [
  | inl b ↦ inr (inl (rw b lt))
  | inr b ↦ inr (inl (rw b (ground arith)))
]
page_end limit floor to e out (inr (inr m)) = inr (inr (In-newest_first (λ x. x.time) m))

-- Over the own pods, reading gives a page for a reader who may see anything, with the latest entry
-- first. Take an entry from before the start of the page that the reader may see and asked for, and
-- that a pod's log holds, whatever earlier time the log is asked for from; the log is read unbroken
-- to its end and has at most 200000 lines. It is on the page, unless the page is full or goes down
-- to a later time only.
pub read-Complete :
    (unmarshal : Unmarshal) (lister : PodLister) (horizon : ℕ) (sc : Scope) (f : Filter) (now : ℕ)
    (e : Entry)
    → is_empty_scope sc ≡ false
    → Logged unmarshal lister e
    → keep sc f e ≡ true
    → e.time < start_of now f.to
    → (page : Page) × (read unmarshal (over_pods lister horizon) sc f now ≡ some page)
      × ((limit_of f.limit ≤ length page.entries)
          ⊎ (e.time < bottom_of (floor_of now horizon f.from) page.next)
          ⊎ In e page.entries)
      × NewestFirst (λ x. x.time) page.entries
unfolding read has_source devops_tools.Trail.Reading.source read_window read_from paged
    sort_newest_first
read-Complete unmarshal lister horizon sc f now e visible l kept before =
    let (out, to, w, d) =
      walk-Complete (read_pods unmarshal lister sc f) (floor_of now horizon f.from)
        (limit_of f.limit) e (read_pods-Complete unmarshal lister sc f e kept l) 7
        (start_of now f.to) [] (inr before) in
    (
      record { entries = sort_newest_first out; next = next_of (floor_of now horizon f.from) to },
      rw (visible, w) refl,
      page_end (limit_of f.limit) (floor_of now horizon f.from) to e out d,
      newest_first-NewestFirst (λ x. x.time) out,
    )
