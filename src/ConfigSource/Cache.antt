-- ===== src/ConfigSource/Cache.antt =====
-- internal/configsource/cache.go: the listing that is kept. A call reads the clock once.
pub mod Freshness
use devops_tools.Prelude.{
  ℕ, ◌-◌, ◌*◌, Bool, true, false, not, ◌&&◌, Option, none, some, List, ltb, leb, if◌then◌else◌,
}
use devops_tools.Store.Model.{Time}
use devops_tools.ConfigSource.Sources.{SourceError, Entry, Reply, ok, error}

abbrev pub list_ttl : Time
list_ttl = 30 * 1000000000

abbrev pub stale_limit : Time
stale_limit = 600 * 1000000000

-- `none` is the nil listing.
pub record Cached : Type 0 where
  pub entries : Option (List Entry)
  pub fetched : Time
  pub refreshing : Bool

unfoldable pub is_usable : Time → Cached → Bool
is_usable now c = ltb (now - c.fetched) stale_limit

-- A listing, or the nil listing.
abbrev pub Listing : Type 0
Listing = Option (List Entry)

-- Keeping what the source answered; a failure is not kept.
unfoldable pub keep : Time → Reply Listing → Cached → Reply Listing × Cached
keep now (ok fresh) c = (ok fresh, record c { entries = fresh; fetched = now })
keep now (error e) c = (error e, c)

-- Handing over what is kept; a refresh is started where the mark of one is set.
unfoldable pub hand_over : Time → List Entry → Cached → Reply Listing × Cached
hand_over now entries c = (
  ok (some entries),
  if leb list_ttl (now - c.fetched) && not c.refreshing then record c { refreshing = true } else c,
)

-- List, with what the source answers if it is asked.
unfoldable pub list : Time → Reply Listing → Cached → Reply Listing × Cached
list now answer c = elim c.entries [
  | none ↦ keep now answer c
  | some entries ↦ if is_usable now c then hand_over now entries c else keep now answer c
]

-- The end of a refresh, with what the source answered to it.
unfoldable pub refreshed : Time → Reply Listing → Cached → Cached
refreshed now answer c = (keep now answer (record c { refreshing = false })).1

-- After a Put of the source.
unfoldable pub after_put : Option SourceError → Cached → Cached
after_put (some e) c = c
after_put none c = record c { entries = none; fetched = 0 }
