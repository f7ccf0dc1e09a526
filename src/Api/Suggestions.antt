-- ===== src/Api/Suggestions.antt =====
-- internal/api/access.go: the paths that the role editor suggests.
use devops_tools.Prelude.{
  ℕ, Text, Option, none, some, Bool, false, List, [], ◌∷◌, ◌++◌, map, eqb, if◌then◌else◌, dedup,
  sort, ◌≡◌, refl, ap, ◌∙◌, arith, contains, has_prefix, ◌||◌, ◌&&◌, any, ◌==◌, contains-sort,
  contains-dedup, contains-append, Bool-cases, inl, inr, sym,
}
use devops_tools.ConfigSource.Sources.{Entry, SourceError, Reply, ok}

unfoldable pub add_to_first : ℕ → List Text → List Text
add_to_first c [] = (c ∷ []) ∷ []
add_to_first c (part ∷ parts) = (c ∷ part) ∷ parts

-- strings.Split(path, "/")
unfoldable pub split_path : Text → List Text
split_path [] = [] ∷ []
split_path (c ∷ s) =
    let rest = split_path s in if eqb c b'/' then [] ∷ rest else add_to_first c rest

-- strings.Join(parts, "/")
unfoldable pub join_path : List Text → Text
join_path [] = []
join_path (part ∷ []) = part
join_path (part ∷ next ∷ parts) = part ++ b'/' ∷ join_path (next ∷ parts)

-- parts[:i] for the i from 1 that are less than the length.
unfoldable pub leading : List Text → List (List Text)
leading [] = []
leading (part ∷ []) = []
leading (part ∷ next ∷ parts) = (part ∷ []) ∷ map (λ parts'. part ∷ parts') (leading (next ∷ parts))

unfoldable pub folders_of : Text → List Text
folders_of path = map join_path (leading (split_path path))

unfoldable pub folders_of_all : List Entry → List Text
folders_of_all [] = []
folders_of_all (e ∷ entries) = folders_of e.path ++ folders_of_all entries

-- The folders, each once and in order, and then the entries.
unfoldable pub config_path_suggestions : List Entry → List Text
config_path_suggestions entries =
    sort (dedup [] (folders_of_all entries)) ++ map (λ e. e.path) entries

unfoldable joined : List Text → List Text
joined parts = map join_path (leading parts)

join-cons_cons :
    (x y : Text) (lists : List (List Text))
    → map join_path (map (λ l. x ∷ l) (map (λ l. y ∷ l) lists))
      ≡ map (λ q. x ++ b'/' ∷ q) (map join_path (map (λ l. y ∷ l) lists))
unfolding join_path
join-cons_cons x y [] = refl
join-cons_cons x y (l ∷ lists) =
    ap (λ t. (x ++ b'/' ∷ join_path (y ∷ l)) ∷ t) (join-cons_cons x y lists)

-- The folders below the first part.
joined-cons :
    (x y : Text) (parts : List Text)
    → joined (x ∷ y ∷ parts) ≡ x ∷ map (λ q. x ++ b'/' ∷ q) (joined (y ∷ parts))
unfolding joined leading join_path
joined-cons x y [] = refl
joined-cons x y (z ∷ parts) = ap (λ t. x ∷ t) (join-cons_cons x y ([] ∷ leading (z ∷ parts)))

joined-add_to_first :
    (c : ℕ) (x : Text) (parts : List Text)
    → joined ((c ∷ x) ∷ parts) ≡ map (λ q. c ∷ q) (joined (x ∷ parts))
joined-add_to_first c x [] = unfold joined leading in refl
joined-add_to_first c x (y ∷ parts) =
    joined-cons (c ∷ x) y parts
    ∙ (ap (λ t. (c ∷ x) ∷ t) (twice (joined (y ∷ parts)))
        ∙ ap (map (λ q. c ∷ q)) (sym (joined-cons x y parts)))
  where
    twice :
        (qs : List Text)
        → map (λ q. c ∷ x ++ b'/' ∷ q) qs ≡ map (λ q. c ∷ q) (map (λ q. x ++ b'/' ∷ q) qs)
    twice [] = refl
    twice (q ∷ qs) = ap (λ t. (c ∷ x ++ b'/' ∷ q) ∷ t) (twice qs)

abbrev after_first : ℕ → List Text → Text → Bool
after_first c qs [] = false
after_first c qs (d ∷ p) = eqb c d && contains qs p

contains-map_cons :
    (c : ℕ) (qs : List Text) (p : Text) → contains (map (λ q. c ∷ q) qs) p ≡ after_first c qs p
unfolding contains
contains-map_cons c [] [] = refl
contains-map_cons c [] (d ∷ p) = ground arith
contains-map_cons c (q ∷ qs) [] = ground (arith, contains-map_cons c qs [])
contains-map_cons c (q ∷ qs) (d ∷ p) = ground (arith, contains-map_cons c qs (d ∷ p))

pub split_path-cons : (s : Text) → (x : Text) × (xs : List Text) × (split_path s ≡ x ∷ xs)
unfolding split_path add_to_first
split_path-cons [] = ([], [], refl)
split_path-cons (c ∷ s) = elim (Bool-cases (eqb c b'/')) [
  | inl e ↦ ([], split_path s, rw e)
  | inr e ↦ let (x, xs, f) = split_path-cons s in (c ∷ x, xs, rw (e, f))
]

contains-joined_slash :
    (y : Text) (parts : List Text) (p : Text)
    → contains (joined ([] ∷ y ∷ parts)) p ≡ ([] == p || after_first b'/' (joined (y ∷ parts)) p)
unfolding contains
contains-joined_slash y parts p =
    rw (joined-cons [] y parts)
      (ap (λ b. [] == p || b) (contains-map_cons b'/' (joined (y ∷ parts)) p))

contains-joined : (s p : Text) → contains (joined (split_path s)) p ≡ has_prefix s (p ++ b'/' ∷ [])
unfolding split_path has_prefix add_to_first
contains-joined [] [] = unfold joined leading contains in refl
contains-joined [] (d ∷ p) = unfold joined leading contains in refl
contains-joined (c ∷ s) [] =
    let (x, xs, f) = split_path-cons s in
    ground (
      arith,
      contains-joined_slash x xs [],
      joined-add_to_first c x xs,
      contains-map_cons c (joined (x ∷ xs)) [],
    )
contains-joined (c ∷ s) (d ∷ p) =
    let (x, xs, f) = split_path-cons s in
    ground (
      arith,
      contains-joined s p,
      contains-joined_slash x xs (d ∷ p),
      joined-add_to_first c x xs,
      contains-map_cons c (joined (x ∷ xs)) (d ∷ p),
    )

-- A text is a folder of a path exactly when the path goes on from it with a slash.
contains-folders_of : (s p : Text) → contains (folders_of s) p ≡ has_prefix s (p ++ b'/' ∷ [])
unfolding folders_of joined
contains-folders_of s p = contains-joined s p

contains-folders_of_all :
    (entries : List Entry) (p : Text)
    → contains (folders_of_all entries) p ≡ any (λ e. has_prefix e.path (p ++ b'/' ∷ [])) entries
unfolding folders_of_all contains any
contains-folders_of_all [] p = refl
contains-folders_of_all (e ∷ entries) p = ground (
  arith,
  contains-append p (folders_of e.path) (folders_of_all entries),
  contains-folders_of e.path p,
  contains-folders_of_all entries p,
)

contains-paths :
    (entries : List Entry) (p : Text)
    → contains (map (λ e. e.path) entries) p ≡ any (λ e. e.path == p) entries
unfolding contains any
contains-paths [] p = refl
contains-paths (e ∷ entries) p = ground (arith, contains-paths entries p)

-- The role editor suggests exactly the paths of the entries and the folders above them: a path is
-- suggested if and only if it is that of an entry, or some entry's path goes on from it with a
-- slash.
pub contains-config_path_suggestions :
    (entries : List Entry) (p : Text)
    → contains (config_path_suggestions entries) p
      ≡ (any (λ e. has_prefix e.path (p ++ b'/' ∷ [])) entries || any (λ e. e.path == p) entries)
unfolding config_path_suggestions
contains-config_path_suggestions entries p =
    contains-append p (sort (dedup [] (folders_of_all entries))) (map (λ e. e.path) entries)
    ∙ rw
        (
          contains-sort p (dedup [] (folders_of_all entries)),
          contains-dedup p (folders_of_all entries),
          contains-folders_of_all entries p,
          contains-paths entries p,
        )
        refl

-- What the editor is told: the root, and the suggestions or the error of the source.
pub record PathListing : Type 0 where
  pub root : Text
  pub paths : List Text
  pub error : Option SourceError

unfoldable pub handle_config_paths : Text → Reply (List Entry) → PathListing
handle_config_paths root (ok entries) = record {
  root = root;
  paths = config_path_suggestions entries;
  error = none;
}
handle_config_paths root (Reply.error e) = record { root = root; paths = []; error = some e }
