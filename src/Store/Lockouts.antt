-- ===== src/Store/Lockouts.antt =====
-- internal/store/users.go: the lockouts that every replica honours.
pub mod Laws
use devops_tools.Prelude.{Text, not, none, some, Dict, lookup, insert, erase, has_key}
use devops_tools.Prelude.{filter, ltb, if◌then◌else◌}
use devops_tools.Store.Model.{Model, Time, Change, write, no_change, key}

unfoldable pub locked_until : Model → Text → Time → Time
locked_until m username now =
    let until : Time = elim (lookup (key username) m.lockouts) [ none ↦ 0 | some t ↦ t ] in
    if ltb until now then 0 else until

unfoldable pub prune_lockouts : Time → Dict Time → Dict Time
prune_lockouts now lockouts = filter (λ (_, until). not (ltb until now)) lockouts

unfoldable pub lock_until : Text → Time → Change Unit
lock_until username until now m = record {
  verdict = write;
  model = record m { lockouts = insert (key username) until (prune_lockouts now m.lockouts) };
  out = tt;
}

unfoldable pub unlock : Text → Change Unit
unlock username now m =
    if not (has_key (key username) m.lockouts)
    then record { verdict = no_change; model = m; out = tt }
    else record {
      verdict = write;
      model = record m { lockouts = prune_lockouts now (erase (key username) m.lockouts) };
      out = tt;
    }
