-- ===== src/Trail/Bounds.antt =====
-- The windows that are asked for (internal/auditlog/auditlog.go).
use devops_tools.Prelude.{
  ℕ, zero, suc, ◌-◌, ◌≤◌, true, Option, none, some, List, [], ◌++◌, ◌≡◌, refl, arith, length, ℤ,
  pos, negsuc, if◌then◌else◌, Option-cases, Bool-cases, inl, inr, ◌∙◌, subst, sym, ap,
}
use devops_tools.Trail.{Unmarshal, Entry, Scope, is_empty_scope, Filter}
use devops_tools.Trail.Reading.{
  source, QueryRange, Reader, Page, empty_page, has_source, kept_lines, read_window, walk, paged,
  read_from, read, from_of, floor_of, limit_of, start_of, window,
}
use devops_tools.Trail.Walking.{Asked, asked, from_of-le, goes_on, walk_stop, walk_failed, walk_on}

module _ (ask ask' : ℕ → ℕ → ℕ → Option (List Entry)) (floor top limit : ℕ)
    (agree : (from to left : ℕ)
      → Asked floor top limit from to left
      → ask from to left ≡ ask' from to left) where
  pub walk-agree :
      (left to : ℕ) (out : List Entry)
      → to ≤ top
      → walk ask floor limit left to out ≡ walk ask' floor limit left to out
  unfolding walk
  walk-agree zero to out le = refl
  walk-agree (suc left) to out le = elim (Bool-cases (goes_on ask floor limit left to out)) [
    | inr e ↦
        walk_stop ask floor limit left to out e ∙ sym (walk_stop ask' floor limit left to out e)
    | inl e ↦ elim (Option-cases (ask' (from_of floor to) to (limit - length out))) [
      | inl e' ↦
          walk_failed ask floor limit left to out e (same e ∙ e')
          ∙ sym (walk_failed ask' floor limit left to out e e')
      | inr (batch, e') ↦
          walk_on ask floor limit left to out batch e (same e ∙ e')
          ∙ walk-agree left (from_of floor to) (out ++ batch) (earlier e)
          ∙ sym (walk_on ask' floor limit left to out batch e e')
    ]
  ]
    where
      same :
          goes_on ask floor limit left to out ≡ true
          → ask (from_of floor to) to (limit - length out)
            ≡ ask' (from_of floor to) to (limit - length out)
      same e =
          agree (from_of floor to) to (limit - length out)
            (asked floor top limit to (length out) le e)

      earlier : goes_on ask floor limit left to out ≡ true → from_of floor to ≤ top
      earlier e = from_of-le floor top to le (ground arith)

limit_of-le : (n : ℤ) → limit_of n ≤ 500
unfolding limit_of
limit_of-le (pos n) = ground arith
limit_of-le (negsuc n) = ground arith

start_of-le : (now : ℕ) (to : Option ℕ) → start_of now to ≤ now
unfolding start_of
start_of-le now none = omega arith
start_of-le now (some to) = ground arith

floor_of-horizon : (now horizon : ℕ) (from : Option ℕ) → now - horizon ≤ floor_of now horizon from
unfolding floor_of
floor_of-horizon now horizon none = omega arith
floor_of-horizon now horizon (some t) = ground arith

floor_of-from : (now horizon t : ℕ) → t ≤ floor_of now horizon (some t)
unfolding floor_of
floor_of-from now horizon t = ground arith

-- A reader over Loki.
abbrev pub over_loki : QueryRange → ℕ → Reader
over_loki query horizon = record { loki = some query; pods = none; horizon = horizon }

module _ (unmarshal : Unmarshal) (query query' : QueryRange) (horizon : ℕ) (sc : Scope)
    (f : Filter) where
  read_window-agree :
      (from to left : ℕ)
      → query sc f from to left ≡ query' sc f from to left
      → read_window unmarshal (over_loki query horizon) sc f from to left
        ≡ read_window unmarshal (over_loki query' horizon) sc f from to left
  unfolding read_window
  read_window-agree from to left e = rw e refl

Asked-wider :
    {floor floor' top limit limit' from to left : ℕ}
    → floor' ≤ floor
    → limit ≤ limit'
    → Asked floor top limit from to left
    → Asked floor' top limit' from to left
Asked-wider h h' a = record {
  not_before = omega (arith, a.not_before);
  not_empty = a.not_empty;
  not_after = a.not_after;
  within_a_day = a.within_a_day;
  some_wanted = a.some_wanted;
  not_too_many = omega (arith, a.not_too_many);
}

since :
    (now horizon : ℕ) (f : Filter) (from to left : ℕ)
    → Asked (floor_of now horizon f.from) now (limit_of f.limit) from to left
    → (t : ℕ) → f.from ≡ some t
    → t ≤ from
since now horizon f from to left a t e = omega (
  arith,
  a.not_before,
  subst (λ o. t ≤ floor_of now horizon o) (sym e) (floor_of-from now horizon t),
)

-- A query of Loki lies within the horizon and the period that was chosen, ends by now, spans at
-- most a day and asks for 1 to 500 lines: a page does not depend on what other queries would answer.
pub read-Asked :
    (unmarshal : Unmarshal) (query query' : QueryRange) (horizon : ℕ) (sc : Scope) (f : Filter)
    (now : ℕ)
    → ((from to left : ℕ)
        → Asked (now - horizon) now 500 from to left
        → ((t : ℕ) → f.from ≡ some t → t ≤ from)
        → query sc f from to left ≡ query' sc f from to left)
    → read unmarshal (over_loki query horizon) sc f now
      ≡ read unmarshal (over_loki query' horizon) sc f now
unfolding read read_from paged has_source is_empty_scope devops_tools.Trail.Reading.source
read-Asked unmarshal query query' horizon sc f now agree =
    ap
      (λ walked.
        if is_empty_scope sc
        then some empty_page
        else paged (read_window unmarshal (over_loki query horizon) sc f)
            (floor_of now horizon f.from) (limit_of f.limit) walked)
      (walk-agree (read_window unmarshal (over_loki query horizon) sc f)
        (read_window unmarshal (over_loki query' horizon) sc f) (floor_of now horizon f.from) now
        (limit_of f.limit) reads 7 (start_of now f.to) [] (start_of-le now f.to))
  where
    reads :
        (from to left : ℕ)
        → Asked (floor_of now horizon f.from) now (limit_of f.limit) from to left
        → read_window unmarshal (over_loki query horizon) sc f from to left
          ≡ read_window unmarshal (over_loki query' horizon) sc f from to left
    reads from to left a = read_window-agree unmarshal query query' horizon sc f from to left (
        agree from to left
          (Asked-wider (floor_of-horizon now horizon f.from) (limit_of-le f.limit) a)
          (since now horizon f from to left a))
