-- ===== src/Trail/Seen.antt =====
-- Who sees which entry of the audit trail (internal/api/audit.go).
use devops_tools.Prelude.{
  ℕ, Text, Bool, true, false, ◌||◌, Option, none, some, List, [], ◌∷◌, ◌++◌, ◌≡◌, refl, arith, ◌==◌,
  all, any, In, all-In, contains, contains-append, if◌then◌else◌, Option-cases, Bool-cases, inl,
  inr, subst,
}
use devops_tools.Config.Roles.{star}
use devops_tools.Config.Operations.{op_audit_read}
use devops_tools.Rbac.{Authorizer, allowed, allowed_global, namespaces_for_op}
use devops_tools.Rbac.Scopes.{any-namespaces_for_op}
use devops_tools.Auth.Service.{Account}
use devops_tools.Trail.{
  Unmarshal, Entry, Scope, no_scope, is_empty_scope, Filter, is_global, in_scope, matches, keep,
}
use devops_tools.Trail.Reading.{Reader, Page, has_source}
use devops_tools.Trail.Kept.{PagePassing, read_window-Passing, read-PagePassing}
use devops_tools.Trail.Scopes.{
  add_namespaces, audit_scope, Query, filter_of, Listing, AuditReply, listed, AuditServer, listing,
  answer, serve_scope, handle_audit_log,
}

-- What the roles grant: the global right for what belongs to no namespace, else the right in the
-- namespace of the entry.
unfoldable pub may_see : Authorizer → Option Account → Entry → Bool
may_see authz none e = false
may_see authz (some user) e =
    if is_global e
    then allowed_global authz user.roles op_audit_read
    else allowed authz user.roles e.namespace op_audit_read

-- The scope reaches a namespace.
abbrev reaches : Scope → Text → Bool
reaches sc ns = sc.all || contains sc.namespaces ns

reaches-add_namespaces :
    (sc : Scope) (ns : Text) (names : List Text)
    → reaches (add_namespaces sc names) ns
      ≡ (reaches sc ns || any (λ n. n == star || n == ns) names)
unfolding add_namespaces any contains
reaches-add_namespaces sc ns [] = ground arith
reaches-add_namespaces sc ns (name ∷ names) = ground (
  arith,
  reaches-add_namespaces (record sc { namespaces = sc.namespaces ++ name ∷ [] }) ns names,
  contains-append ns sc.namespaces (name ∷ []),
)

global-add_namespaces :
    (sc : Scope) (names : List Text) → (add_namespaces sc names).global ≡ sc.global
unfolding add_namespaces
global-add_namespaces sc [] = refl
global-add_namespaces sc (name ∷ names) =
    ground
      (arith, global-add_namespaces (record sc { namespaces = sc.namespaces ++ name ∷ [] }) names)

-- The scope of a reader holds exactly the entries that their roles let them see.
pub in_scope-audit_scope :
    (authz : Authorizer) (user : Option Account) (e : Entry)
    → in_scope (audit_scope authz user) e ≡ may_see authz user e
unfolding in_scope audit_scope may_see contains
in_scope-audit_scope authz none e = ground arith
in_scope-audit_scope authz (some user) e = ground (
  arith,
  reaches-add_namespaces
      (record no_scope { global = allowed_global authz user.roles op_audit_read }) e.namespace
      (namespaces_for_op authz user.roles op_audit_read),
  global-add_namespaces (record no_scope { global = allowed_global authz user.roles op_audit_read })
      (namespaces_for_op authz user.roles op_audit_read),
  any-namespaces_for_op authz user.roles e.namespace op_audit_read,
)

abbrev ReplyPassing : (Entry → Bool) → AuditReply → Type 0
ReplyPassing test (listed l) = all test l.entries ≡ true
ReplyPassing test _ = Unit

answer-ReplyPassing :
    (test : Entry → Bool) (s : AuditServer) (r : Reader) (sc : Scope) (page : Option Page)
    → PagePassing test page
    → ReplyPassing test (answer s r sc page)
unfolding answer listing
answer-ReplyPassing test s r sc none h = tt
answer-ReplyPassing test s r sc (some page) h = h

handle_audit_log-ReplyPassing :
    (unmarshal : Unmarshal) (s : AuditServer) (user : Option Account) (q : Query) (now : ℕ)
    → ReplyPassing
        (keep (audit_scope s.authz user) (filter_of q))
        (handle_audit_log unmarshal s user q now)
unfolding handle_audit_log serve_scope
handle_audit_log-ReplyPassing unmarshal s user q now = elim (Option-cases s.audit_log) [
  | inl e ↦ rw (handle_audit_log, e) tt
  | inr (r, e) ↦ elim (Bool-cases (has_source r)) [
    | inr e' ↦ rw (handle_audit_log, e, e') tt
    | inl e' ↦ elim (Bool-cases (is_empty_scope (audit_scope s.authz user))) [
      | inl e'' ↦ rw (handle_audit_log, e, e', e'') tt
      | inr e'' ↦
          rw (handle_audit_log, e, e', e'')
            (answer-ReplyPassing _ s r _ _ (
              read-PagePassing unmarshal r (audit_scope s.authz user) (filter_of q) now _
                (λ from to left _.
                  read_window-Passing unmarshal (audit_scope s.authz user) (filter_of q) r from to
                    left)))
    ]
  ]
]

keep-may_see :
    (authz : Authorizer) (user : Option Account) (f : Filter) (e : Entry)
    → keep (audit_scope authz user) f e ≡ true
    → (may_see authz user e ≡ true) × (matches f e ≡ true)
unfolding keep
keep-may_see authz user f e h = (ground (arith, in_scope-audit_scope authz user e), ground arith)

-- What a reader is shown, whatever the source answers, is what their roles let them see and what
-- they asked for.
pub handle_audit_log-Seen :
    (unmarshal : Unmarshal) (s : AuditServer) (user : Option Account) (q : Query) (now : ℕ)
    (l : Listing) (e : Entry)
    → handle_audit_log unmarshal s user q now ≡ listed l
    → In e l.entries
    → (may_see s.authz user e ≡ true) × (matches (filter_of q) e ≡ true)
handle_audit_log-Seen unmarshal s user q now l e h m = keep-may_see s.authz user (filter_of q) e (
    all-In (keep (audit_scope s.authz user) (filter_of q))
      (subst (ReplyPassing _) h (handle_audit_log-ReplyPassing unmarshal s user q now)) m)
