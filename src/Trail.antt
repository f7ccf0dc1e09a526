-- ===== src/Trail.antt =====
-- internal/auditlog/auditlog.go and internal/audit/audit.go: what a reader of the audit trail may
-- see, what they asked for, and an entry read back from a line of the log. A time is nanoseconds;
-- where the source tests for the zero time, the zero time is `none`.
pub mod Pods
pub mod Reading
pub mod Scopes
pub mod Walking
pub mod Kept
pub mod Seen
pub mod Bounds
pub mod Paging
pub mod Cursor
pub mod Complete
use devops_tools.Prelude.{
  ℕ, Text, text, Bool, true, false, not, ◌&&◌, ◌||◌, Option, none, some, List, [], ◌∷◌, ◌++◌, ◌==◌,
  is_empty, contains, has_prefix, to_lower, ℤ, if◌then◌else◌,
}

-- What encoding/json reads from a line; a field that the line lacks is empty.
pub record Raw : Type 0 where
  pub time : ℕ
  pub msg : Text
  pub user : Text
  pub environment : Text
  pub namespace : Text
  pub operation : Text
  pub target : Text
  pub allowed : Bool
  pub success : Bool
  pub error : Text

pub record Entry : Type 0 where
  pub time : ℕ
  pub user : Text
  pub environment : Text
  pub namespace : Text
  pub operation : Text
  pub target : Text
  pub allowed : Bool
  pub success : Bool
  pub error : Text

-- json.Unmarshal of a line; `none` is its error.
abbrev pub Unmarshal : Type 0
Unmarshal = Text → Option Raw

abbrev pub action_msg : Text
action_msg = text "action"

unfoldable pub parse : Unmarshal → Text → Option Entry
parse unmarshal line = elim (unmarshal line) [
  | none ↦ none
  | some raw ↦
      if not (raw.msg == action_msg)
      then none
      else some (record {
        time = raw.time;
        user = raw.user;
        environment = raw.environment;
        namespace = raw.namespace;
        operation = raw.operation;
        target = raw.target;
        allowed = raw.allowed;
        success = raw.success;
        error = raw.error;
      })
]

pub record Scope : Type 0 where
  pub namespaces : List Text
  pub all : Bool
  pub global : Bool

abbrev pub no_scope : Scope
no_scope = record { namespaces = []; all = false; global = false }

unfoldable pub has_none : List Text → Bool
has_none [] = true
has_none (x ∷ xs) = false

-- Scope.Empty
unfoldable pub is_empty_scope : Scope → Bool
is_empty_scope sc = not sc.all && not sc.global && has_none sc.namespaces

pub record Filter : Type 0 where
  pub operation : Text
  pub user : Text
  pub text : Text
  pub to : Option ℕ
  pub from : Option ℕ
  pub limit : ℤ

-- strings.Contains
unfoldable pub has_substring : Text → Text → Bool
has_substring [] needle = has_prefix [] needle
has_substring (c ∷ s) needle = has_prefix (c ∷ s) needle || has_substring s needle

unfoldable pub is_global : Entry → Bool
is_global e = is_empty e.namespace || e.namespace == text "-"

unfoldable pub in_scope : Scope → Entry → Bool
in_scope sc e =
    if is_global e
    then sc.global
    else if not sc.all
    then contains sc.namespaces e.namespace
    else true

abbrev pub space : Text
space = text " "

unfoldable pub haystack : Entry → Text
haystack e = to_lower (
    e.user ++ space ++ e.namespace ++ space ++ e.operation ++ space ++ e.target ++ space ++ e.error)

-- The entry is what the reader asked for.
unfoldable pub matches : Filter → Entry → Bool
matches f e =
    (is_empty f.operation || e.operation == f.operation)
    && (is_empty f.user || has_substring (to_lower e.user) (to_lower f.user))
    && (is_empty f.text || has_substring (haystack e) (to_lower f.text))

unfoldable pub keep : Scope → Filter → Entry → Bool
keep sc f e = if in_scope sc e then matches f e else false
