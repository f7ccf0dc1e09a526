-- ===== src/Tests/Auditing.antt =====
-- Reading the audit trail, at small inputs (internal/api/audit.go, internal/auditlog).
use devops_tools.Prelude.{
  ℕ, ◌-◌, ◌*◌, ◌≤◌, Text, text, ◌≡◌, refl, arith, true, false, none, some, [], ◌∷◌, lookup, length,
  take, contains, any, all, In, here, there, text_dec, ℕ_discrete, eqb, has_prefix, to_lower, lower,
  is_space, sort_by, place, text_leb, set_add, place_newest, newest_first, NewestFirst, ◌⊎◌, leb,
  pos, if◌then◌else◌, ◌<◌,
}
use devops_tools.Config.Roles.{RoleSpec}
use devops_tools.Rbac
use devops_tools.Rbac.{
  Authorizer, allowed, allowed_global, any_role, has_op, namespace_grant_allows, namespaces_for_op,
  collect_grants, collect_roles,
}
use devops_tools.Auth.Service.{Account}
use devops_tools.Trail.{
  Unmarshal, Entry, Raw, parse, Scope, is_empty_scope, has_none, Filter, keep, in_scope, is_global,
  matches, has_substring, haystack,
}
use devops_tools.Trail.Pods.{
  Log, PodLister, is_between, sort_newest_first, scan_lines, scan_log, scan, scan_pods, read_pods,
}
use devops_tools.Trail.Reading
use devops_tools.Trail.Reading.{
  QueryRange, Reader, Page, has_source, kept_lines, read_window, walk, paged, read_from, read,
  from_of, floor_of, limit_of, start_of, next_of, hour, pod_horizon, new,
}
use devops_tools.Trail.Scopes.{
  add_namespaces, audit_scope, Query, filter_of, number_of, time_of, from_unix_milli, to_unix_milli,
  next_milli, Listing, listed, AuditServer, answer, serve_scope, handle_audit_log,
}
use devops_tools.Trail.Scopes as Handler
use devops_tools.Trail.Seen.{may_see, handle_audit_log-Seen}
use devops_tools.Trail.Bounds.{over_loki, read-Asked}
use devops_tools.Trail.Paging.{over_pods, read_cut_off}
use devops_tools.Trail.Complete.{Logged, bottom_of, read-Complete}

program : Unit {0}
unfolding lookup take contains any all text_dec ℕ_discrete has_prefix to_lower lower is_space
    sort_by place text_leb set_add place_newest newest_first allowed allowed_global any_role has_op
    namespace_grant_allows namespaces_for_op Rbac.listing collect_grants collect_roles parse
    is_empty_scope has_none keep in_scope is_global matches has_substring haystack is_between
    sort_newest_first scan_lines scan_log scan scan_pods read_pods Reading.source has_source
    kept_lines read_window walk paged read_from read from_of floor_of limit_of start_of next_of new
    add_namespaces audit_scope filter_of number_of time_of from_unix_milli to_unix_milli next_milli
    Handler.listing answer serve_scope handle_audit_log may_see bottom_of
program = tt

-- A day and more after the beginning of time.
abbrev noon : ℕ
noon = 1000 * hour

abbrev raw_entry : ℕ → Text → Text → Raw
raw_entry time namespace operation = record {
  time = time;
  msg = text "action";
  user = text "alice";
  environment = [];
  namespace = namespace;
  operation = operation;
  target = text "web";
  allowed = true;
  success = true;
  error = [];
}

abbrev entry : ℕ → Text → Text → Entry
entry time namespace operation = record {
  time = time;
  user = text "alice";
  environment = [];
  namespace = namespace;
  operation = operation;
  target = text "web";
  allowed = true;
  success = true;
  error = [];
}

abbrev unmarshal : Unmarshal
unmarshal line = lookup line (
    (text "restart", raw_entry (noon - 2 * hour) (text "shop") (text "pod-restart"))
    ∷ (text "exec", raw_entry (noon - 1 * hour) (text "shop") (text "exec"))
    ∷ (text "login", raw_entry (noon - 3 * hour) [] (text "login"))
    ∷ [])

abbrev restarted : Entry
restarted = entry (noon - 2 * hour) (text "shop") (text "pod-restart")

abbrev lister : PodLister
lister = record {
  own_pods = some (text "web-1" ∷ []);
  own_pod_logs = λ pod since previous.
      if previous
      then none
      else some (record {
        lines = text "login" ∷ text "restart" ∷ text "GET /" ∷ text "exec" ∷ [];
        is_broken = false;
      });
}

abbrev reader_of_shop : RoleSpec
reader_of_shop = record {
  description = [];
  namespaces = record { namespace = text "shop"; operations = text "audit-read" ∷ [] } ∷ [];
  global = [];
  configs = [];
}

abbrev authz : Authorizer
authz = record { cfg = record { operations = []; roles = (text "dev", reader_of_shop) ∷ [] } }

abbrev alice : Account
alice = record { username = text "alice"; email = []; roles = text "dev" ∷ []; groups = [] }

abbrev server : AuditServer
server = record {
  authz = authz;
  audit_log = some (over_pods lister pod_horizon);
  operations = [];
  archive_note = [];
  archive_url = [];
}

abbrev no_query : Query
no_query = record { operation = []; user = []; filter = []; to = none; from = none; limit = none }

handle_audit_log-Seen_example :
    (may_see authz (some alice) restarted ≡ true) × (matches (filter_of no_query) restarted ≡ true)
unfolding program
handle_audit_log-Seen_example =
    handle_audit_log-Seen unmarshal server (some alice) no_query noon _ restarted refl (there here)

abbrev of_shop : Scope
of_shop = record { namespaces = text "shop" ∷ []; all = false; global = false }

abbrev any_one : Filter
any_one = record { operation = []; user = []; text = []; to = none; from = none; limit = pos 1 }

abbrev executed : Entry
executed = entry (noon - 1 * hour) (text "shop") (text "exec")

-- The restart of two hours ago is in the window and on no page.
read_cut_off_example :
    (read unmarshal (new (text "ops") none (some lister) 0) of_shop any_one noon
      ≡ some (record { entries = executed ∷ []; next = none }))
    × (length (executed ∷ []) ≡ limit_of any_one.limit)
unfolding program
read_cut_off_example =
    read_cut_off unmarshal lister 0 of_shop any_one (text "ops") (text "web-1" ∷ []) noon refl refl
      refl refl (omega arith)

abbrev last_line : QueryRange
last_line sc f from to left =
    if leb noon to then some (text "exec" ∷ []) else some (text "login" ∷ [])

-- It fails on the last window.
abbrev failing : QueryRange
failing sc f from to left = if leb noon to then none else some (text "login" ∷ [])

abbrev all_lines : QueryRange
all_lines sc f from to left = some (text "login" ∷ text "restart" ∷ text "exec" ∷ [])

-- It refuses a query that asks for nothing.
abbrev picky : QueryRange
picky sc f from to left = if eqb left 0 then none else all_lines sc f from to left

read-Asked_example :
    read unmarshal (over_loki all_lines (48 * hour)) of_shop any_one noon
    ≡ read unmarshal (over_loki picky (48 * hour)) of_shop any_one noon
read-Asked_example =
    read-Asked unmarshal all_lines picky (48 * hour) of_shop any_one noon
      (λ from to left a chosen. ground (arith, a.some_wanted))

abbrev web_log : Log
web_log = record {
  lines = text "login" ∷ text "restart" ∷ text "GET /" ∷ text "exec" ∷ [];
  is_broken = false;
}

restarted-Logged : Logged unmarshal lister restarted
unfolding program
restarted-Logged = record {
  pods = text "web-1" ∷ [];
  pod = text "web-1";
  previous = false;
  listed = refl;
  in_pods = here;
  held = λ since le. record {
    log' = web_log;
    line = text "restart";
    found = refl;
    is_whole = refl;
    is_short = omega arith;
    in_lines = there here;
    parsed = refl;
  };
}

abbrev any_many : Filter
any_many = record any_one { limit = pos 50 }

read-Complete_example :
    (page : Page) × (read unmarshal (over_pods lister pod_horizon) of_shop any_many noon
      ≡ some page)
    × ((limit_of any_many.limit ≤ length page.entries)
        ⊎ (restarted.time < bottom_of (floor_of noon pod_horizon any_many.from) page.next)
        ⊎ In restarted page.entries)
    × NewestFirst (λ x. x.time) page.entries
unfolding program
read-Complete_example =
    read-Complete unmarshal lister pod_horizon of_shop any_many noon restarted refl restarted-Logged
      refl (omega arith)

restart_listed :
    read unmarshal (over_pods lister pod_horizon) of_shop any_many noon
    ≡ some (record { entries = executed ∷ restarted ∷ []; next = none })
unfolding program
restart_listed = refl
