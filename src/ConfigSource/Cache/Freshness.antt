-- ===== src/ConfigSource/Cache/Freshness.antt =====
-- How old a listing may be (internal/configsource/cache.go).
use devops_tools.Prelude.{subst, sym, some_inj}
use devops_tools.Prelude.{
  ◌-◌, ◌≡◌, refl, arith, Bool, true, false, not, Option, none, some, ◌⊎◌, inl, inr, List, [], ◌∷◌,
  In, here, ltb, leb, if◌then◌else◌, Option-cases, Bool-cases,
}
use devops_tools.Store.Model.{Time}
use devops_tools.ConfigSource.Sources.{SourceError, Entry, Reply, ok, error}
use devops_tools.ConfigSource.Cache.{
  Cached, Listing, is_usable, keep, hand_over, list, refreshed, after_put, stale_limit, list_ttl,
}

abbrev pub History : Type 0
History = List (Time × List Entry)

-- What the source was heard to list, and when the call for it ended.
abbrev pub heard : Time → Reply Listing → History → History
heard now (ok (some entries)) h = (now, entries) ∷ h
heard now _ h = h

-- Whether List asks the source.
abbrev pub asks : Time → Cached → Bool
asks now c = elim c.entries as (λ _. Bool) [ none ↦ true | some _ ↦ not (is_usable now c) ]

abbrev pub unread : Cached
unread = record { entries = none; fetched = 0; refreshing = false }

-- The states of the cache, by calls of List, refreshes and Puts in any order, with what was heard.
pub data Reached : History → Cached → Type 0 where
  start : Reached [] unread
  listed :
      {h : History} {c : Cached} (now : Time) (answer : Reply Listing)
      → Reached h c
      → Reached (if asks now c then heard now answer h else h) (list now answer c).1
  refresh_ended :
      {h : History} {c : Cached} (now : Time) (answer : Reply Listing)
      → Reached h c
      → Reached (heard now answer h) (refreshed now answer c)
  put_ended :
      {h : History} {c : Cached} (e : Option SourceError) → Reached h c → Reached h (after_put e c)

abbrev Kept : History → Cached → Type 0
Kept h c = (entries : List Entry) → c.entries ≡ some entries → In (c.fetched, entries) h

keep-Kept :
    (now : Time) (answer : Reply Listing) (h : History) (c : Cached)
    → Kept h c
    → Kept (heard now answer h) (keep now answer c).1
unfolding keep
keep-Kept now (error e) h c k entries p = k entries p
keep-Kept now (ok none) h c k entries p = absurd (ground arith)
keep-Kept now (ok (some es)) h c k entries p =
    subst (λ x. In (now, entries) ((now, x) ∷ h)) (sym (some_inj p)) here

hand_over-Kept :
    (now : Time) (es : List Entry) (h : History) (c : Cached)
    → Kept h c
    → Kept h (hand_over now es c).1
unfolding hand_over
hand_over-Kept now es h c k entries p = ground (arith, k entries)

list-Kept :
    (now : Time) (answer : Reply Listing) (h : History) (c : Cached)
    → Kept h c
    → Kept (if asks now c then heard now answer h else h) (list now answer c).1
unfolding list
list-Kept now answer h c k = go c.entries
  where
    usable :
        (es : List Entry) (b : Bool)
        → Kept
            (if not b then heard now answer h else h)
            (if b then hand_over now es c else keep now answer c).1
    usable es true = hand_over-Kept now es h c k
    usable es false = keep-Kept now answer h c k

    go :
        (l : Listing)
        → Kept
            (if (elim l as (λ _. Bool) [ none ↦ true | some _ ↦ not (is_usable now c) ])
              then heard now answer h
              else h)
            (elim l as (λ _. Reply Listing × Cached) [
              | none ↦ keep now answer c
              | some es ↦ if is_usable now c then hand_over now es c else keep now answer c
            ]).1
    go none = keep-Kept now answer h c k
    go (some es) = usable es (is_usable now c)

Reached-Kept : {h : History} {c : Cached} → Reached h c → Kept h c
unfolding refreshed after_put
Reached-Kept start entries p = absurd (ground arith)
Reached-Kept (listed {h = h} {c = c} now answer r) entries p =
    list-Kept now answer h c (Reached-Kept r) entries p
Reached-Kept (refresh_ended {h = h} {c = c} now answer r) entries p =
    keep-Kept now answer h (record c { refreshing = false }) (Reached-Kept r) entries p
Reached-Kept (put_ended (some e) r) entries p = Reached-Kept r entries p
Reached-Kept (put_ended none r) entries p = absurd (ground arith)

-- In every order of listings, refreshes and saves, a listing that is shown is what the source
-- answers now, or what it answered to a call that ended within the limit on staleness.
pub list_fresh :
    (h : History) (c : Cached) (now : Time) (answer : Reply Listing) (entries : List Entry)
    → Reached h c
    → (list now answer c).0 ≡ ok (some entries)
    → (answer ≡ ok (some entries))
      ⊎ ((then_ : Time) × In (then_, entries) h × (ltb (now - then_) stale_limit ≡ true))
unfolding list keep hand_over is_usable
list_fresh h c now answer entries r shown = elim (Option-cases c.entries) [
  | inl e ↦ inl (ground arith)
  | inr (es, e) ↦ elim (Bool-cases (ltb (now - c.fetched) stale_limit)) [
    | inr u ↦ inl (ground arith)
    | inl u ↦ inr (c.fetched, Reached-Kept r entries (ground arith), u)
  ]
]

-- A save does not always empty the listing for good. If a refresh is started, the source answers
-- it before a save and the answer arrives after the save, then the listing from before the save is
-- shown until it is stale, whatever the source would answer.
pub list_before_put :
    (c : Cached) (old : List Entry) (t t_refreshed t_shown : Time) (a shown : Reply Listing)
    (before : List Entry)
    → c.entries ≡ some old
    → is_usable t c ≡ true
    → leb list_ttl (t - c.fetched) ≡ true
    → c.refreshing ≡ false
    → ltb (t_shown - t_refreshed) stale_limit ≡ true
    → let started = (list t a c).1 in
      let saved = after_put none started in
      let late = refreshed t_refreshed (ok (some before)) saved in
      (started.refreshing ≡ true)
      × (saved.entries ≡ none)
      × ((list t_shown shown late).0 ≡ ok (some before))
unfolding list refreshed after_put keep is_usable hand_over
list_before_put c old t t_refreshed t_shown a shown before e u ttl idle live =
    (ground arith, refl, ground arith)
