-- ===== src/Trail/Cursor.antt =====
-- Where the page after a full one begins (internal/auditlog/auditlog.go).
use devops_tools.Prelude.{ℕ, Option, if◌then◌else◌}
use devops_tools.Trail.{Unmarshal, Entry, Scope, Filter}
use devops_tools.Trail.Pods.{PodLister}
use devops_tools.Trail.Reading.{QueryRange, Reader, from_of, floor_of, start_of, hour}
use devops_tools.Prelude.{◌*◌, eqb}

abbrev pub loki_horizon : ℕ → ℕ
loki_horizon horizon = if eqb horizon 0 then 30 * 24 * hour else horizon

module _ (unmarshal : Unmarshal) (query : QueryRange) (pods : Option PodLister) (horizon : ℕ)
    (sc : Scope) (f : Filter) where
  abbrev pub floor : ℕ → ℕ
  floor now = floor_of now (loki_horizon horizon) f.from

  -- Where the first window begins.
  abbrev pub first_from : ℕ → ℕ
  first_from now = from_of (floor now) (start_of now f.to)
