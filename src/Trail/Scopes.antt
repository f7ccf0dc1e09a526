-- ===== src/Trail/Scopes.antt =====
-- internal/api/audit.go: what a reader may see of the trail, and the handler that serves a page.
use devops_tools.Prelude.{
  ℕ, ◌+◌, ◌-◌, ◌*◌, Text, Bool, true, not, Option, none, some, List, [], ◌∷◌, ◌++◌, ◌==◌, ltb, eqb,
  ℤ, pos, negsuc, if◌then◌else◌,
}
use Prim.Native.Nat.{◌/◌}
use devops_tools.Config.Roles.{star}
use devops_tools.Config.Operations.{op_audit_read}
use devops_tools.Rbac.{Authorizer, allowed_global, namespaces_for_op}
use devops_tools.Auth.Service.{Account}
use devops_tools.Trail.{Unmarshal, Entry, Scope, no_scope, is_empty_scope, Filter}
use devops_tools.Trail.Reading.{Reader, Source, source, has_source, Page, read}

-- The loop over the namespaces of a grant, which a wildcard ends.
unfoldable pub add_namespaces : Scope → List Text → Scope
add_namespaces sc [] = sc
add_namespaces sc (ns ∷ rest) =
    let more = add_namespaces (record sc { namespaces = sc.namespaces ++ ns ∷ [] }) rest in
    if ns == star then record sc { all = true; namespaces = [] } else more

unfoldable pub audit_scope : Authorizer → Option Account → Scope
audit_scope authz none = no_scope
audit_scope authz (some user) =
    add_namespaces (record no_scope { global = allowed_global authz user.roles op_audit_read })
      (namespaces_for_op authz user.roles op_audit_read)

abbrev pub million : ℕ
million = 1000000

-- 1970 in nanoseconds since the zero time.
abbrev pub unix_epoch : ℕ
unix_epoch = 62135596800 * 1000 * million

-- time.UnixMilli; `none` is the zero time. A time before it is `some 0`, which lies before the times
-- of the clock and of the entries as it does.
unfoldable pub from_unix_milli : ℤ → Option ℕ
from_unix_milli (pos n) = some (unix_epoch + n * million)
from_unix_milli (negsuc n) =
    let before = (n + 1) * million in
    if eqb before unix_epoch then none else some (unix_epoch - before)

-- Time.UnixMilli
unfoldable pub to_unix_milli : ℕ → ℤ
to_unix_milli t =
    if ltb t unix_epoch
    then negsuc ((unix_epoch - t - 1) / million)
    else pos ((t - unix_epoch) / million)

-- The query of the request; `none` is a number that is missing or is none.
pub record Query : Type 0 where
  pub operation : Text
  pub user : Text
  pub filter : Text
  pub to : Option ℤ
  pub from : Option ℤ
  pub limit : Option ℤ

unfoldable pub time_of : Option ℤ → Option ℕ
time_of none = none
time_of (some n) = from_unix_milli n

unfoldable pub number_of : Option ℤ → ℤ
number_of none = pos 0
number_of (some n) = n

unfoldable pub filter_of : Query → Filter
filter_of q = record {
  operation = q.operation;
  user = q.user;
  text = q.filter;
  to = time_of q.to;
  from = time_of q.from;
  limit = number_of q.limit;
}

pub record Listing : Type 0 where
  pub entries : List Entry
  pub next : ℤ
  pub source : Source
  pub horizon : ℕ
  pub operations : List Text
  pub namespaces : List Text
  pub all_namespaces : Bool
  pub global : Bool
  pub archive_note : Text
  pub archive_url : Text

pub data AuditReply : Type 0 where
  unavailable : AuditReply
  forbidden : AuditReply
  bad_gateway : AuditReply
  listed : Listing → AuditReply

-- What the handler uses of the server.
pub record AuditServer : Type 0 where
  pub authz : Authorizer
  pub audit_log : Option Reader
  pub operations : List Text
  pub archive_note : Text
  pub archive_url : Text

unfoldable pub next_milli : Option ℕ → ℤ
next_milli none = pos 0
next_milli (some t) = to_unix_milli t

unfoldable pub listing : AuditServer → Reader → Scope → Page → Listing
listing s r sc page = record {
  entries = page.entries;
  next = next_milli page.next;
  source = source r;
  horizon = r.horizon / (1000 * million);
  operations = s.operations;
  namespaces = sc.namespaces;
  all_namespaces = sc.all;
  global = sc.global;
  archive_note = s.archive_note;
  archive_url = s.archive_url;
}

unfoldable pub answer : AuditServer → Reader → Scope → Option Page → AuditReply
answer s r sc none = bad_gateway
answer s r sc (some page) = listed (listing s r sc page)

unfoldable pub serve_scope : Unmarshal → AuditServer → Reader → Scope → Query → ℕ → AuditReply
serve_scope unmarshal s r sc q now =
    if is_empty_scope sc then forbidden else answer s r sc (read unmarshal r sc (filter_of q) now)

-- handleAuditLog, at a time on the clock.
unfoldable pub handle_audit_log : Unmarshal → AuditServer → Option Account → Query → ℕ → AuditReply
handle_audit_log unmarshal s user q now = elim s.audit_log [
  | none ↦ unavailable
  | some r ↦
      if not (has_source r)
      then unavailable
      else serve_scope unmarshal s r (audit_scope s.authz user) q now
]
