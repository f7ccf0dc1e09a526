-- ===== src/Gitlab/Image/Reading.antt =====
-- What is read out of an image reference stands in it (internal/gitlab/image.go).
use mathlib.Core.List.{append_assoc}
use devops_tools.Prelude.{
  ℕ, Text, ◌≡◌, refl, ap, sym, subst, ◌∙◌, arith, Bool, true, false, ◌||◌, some, inl, inr,
  Option-cases, Bool-cases, [], ◌∷◌, ◌++◌, eqb, contains, any,
}
use devops_tools.Gitlab.Image.{
  TagConvention, ImageRef, parsed, split_last, split_first, last_segment, atoi, project_of,
  read_tag, read_repo, parse_image,
}

split_last-some : (c : ℕ) (s a b : Text) → split_last c s ≡ some (a, b) → s ≡ a ++ c ∷ b
unfolding split_last
split_last-some c [] a b h = absurd (ground arith)
split_last-some c (d ∷ s) a b h = elim (Option-cases (split_last c s)) [
  | inl e ↦ ground arith
  | inr ((a', b'), e) ↦ ground (arith, split_last-some c s a' b' e)
]

split_first-some : (c : ℕ) (s a b : Text) → split_first c s ≡ some (a, b) → s ≡ a ++ c ∷ b
unfolding split_first
split_first-some c [] a b h = absurd (ground arith)
split_first-some c (d ∷ s) a b h = elim (Option-cases (split_first c s)) [
  | inl e ↦ ground arith
  | inr ((a', b'), e) ↦ ground (arith, split_first-some c s a' b' e)
]

split_first-before :
    (c : ℕ) (s a b : Text) → split_first c s ≡ some (a, b) → any (λ d. eqb d c) a ≡ false
unfolding split_first any
split_first-before c [] a b h = absurd (ground arith)
split_first-before c (d ∷ s) a b h = elim (Option-cases (split_first c s)) [
  | inl e ↦ ground arith
  | inr ((a', b'), e) ↦ ground (arith, split_first-before c s a' b' e)
]

-- What a tag was read as.
record TagRead (conv : TagConvention) (project tag : Text) (ref : ImageRef) : Type 0 where
  rest : Text
  tag_is : tag ≡ ref.environment ++ b'-' ∷ rest
  configured : contains conv.environments ref.environment ≡ true
  numbered : atoi (last_segment b'-' rest) ≡ some ref.pipeline
  project_is : ref.project_path ≡ project

read_tag-parsed :
    (conv : TagConvention) (project tag : Text) (ref : ImageRef)
    → read_tag conv project tag ≡ parsed ref
    → TagRead conv project tag ref
unfolding read_tag
read_tag-parsed conv project tag ref h = elim (Option-cases (split_first b'-' tag)) [
  | inl e ↦ absurd (ground arith)
  | inr ((environment, rest), e) ↦ elim (Bool-cases (contains conv.environments environment)) [
    | inr n ↦ absurd (ground arith)
    | inl y ↦ elim (Option-cases (atoi (last_segment b'-' rest))) [
      | inl a ↦ absurd (ground arith)
      | inr (pipeline, a) ↦
          let same : ref
              ≡ record { project_path = project; environment = environment; pipeline = pipeline } =
            ground arith in
          record {
            rest = rest;
            tag_is =
                split_first-some b'-' tag environment rest e
                ∙ ap (λ r. r.environment ++ b'-' ∷ rest) (sym same);
            configured = ap (λ r. contains conv.environments r.environment) same ∙ y;
            numbered = a ∙ ap (λ r. some r.pipeline) (sym same);
            project_is = ap (λ r. r.project_path) same;
          }
    ]
  ]
]

-- A dot or a colon, by which a registry is told from a group.
abbrev pub is_host_char : ℕ → Bool
is_host_char c = eqb c b'.' || eqb c b':'

-- What stands before the project: nothing, where the project begins with a segment without dot and
-- colon; or a registry, which is a segment that has one, and a slash.
pub data Registry : Text → Text → Type 0 where
  no_registry :
      {project : Text} (first rest : Text)
      → project ≡ first ++ b'/' ∷ rest
      → any (λ c. eqb c b'/') first ≡ false
      → any is_host_char first ≡ false
      → Registry [] project
  registry :
      {project : Text} (host : Text)
      → any (λ c. eqb c b'/') host ≡ false
      → any is_host_char host ≡ true
      → Registry (host ++ b'/' ∷ []) project

-- What an image reference was read as.
pub record ReadFrom (conv : TagConvention) (image : Text) (ref : ImageRef) : Type 0 where
  pub prefix : Text
  pub rest : Text
  pub image_is : image ≡ (prefix ++ ref.project_path) ++ b':' ∷ (ref.environment ++ b'-' ∷ rest)
  pub before : Registry prefix ref.project_path
  pub configured : contains conv.environments ref.environment ≡ true
  pub numbered : atoi (last_segment b'-' rest) ≡ some ref.pipeline

project_of-prefix :
    (repo first rest : Text)
    → repo ≡ first ++ b'/' ∷ rest
    → any (λ c. eqb c b'/') first ≡ false
    → (prefix : Text) × (repo ≡ prefix ++ project_of repo first rest)
      × Registry prefix (project_of repo first rest)
unfolding project_of
project_of-prefix repo first rest e whole =
    elim (Bool-cases (any (λ c. eqb c b'.' || eqb c b':') first)) [
      | inl y ↦ (
        first ++ b'/' ∷ [],
        rw y (e ∙ sym (append_assoc first (b'/' ∷ []) rest)),
        registry first whole y,
      )
      | inr n ↦ ([], rw n refl, rw n (no_registry first rest e whole n))
    ]

read_repo-parsed :
    (conv : TagConvention) (repo tag : Text) (ref : ImageRef)
    → read_repo conv repo tag ≡ parsed ref
    → (prefix : Text) × (repo ≡ prefix ++ ref.project_path)
      × Registry prefix ref.project_path
      × TagRead conv ref.project_path tag ref
unfolding read_repo
read_repo-parsed conv repo tag ref h = elim (Option-cases (split_first b'/' repo)) [
  | inl e ↦ absurd (ground arith)
  | inr ((first, rest), e) ↦
      let (prefix, whole, before) =
        project_of-prefix repo first rest (split_first-some b'/' repo first rest e)
          (split_first-before b'/' repo first rest e) in
      let t = read_tag-parsed conv (project_of repo first rest) tag ref (read_on first rest e) in
      (
        prefix,
        whole ∙ ap (λ p. prefix ++ p) (sym t.project_is),
        subst (Registry prefix) (sym t.project_is) before,
        subst (λ p. TagRead conv p tag ref) (sym t.project_is) t,
      )
]
  where
    read_on :
        (first rest : Text)
        → split_first b'/' repo ≡ some (first, rest)
        → read_tag conv (project_of repo first rest) tag ≡ parsed ref
    read_on [] rest e = absurd (ground arith)
    read_on (c ∷ first) rest e = go (project_of repo (c ∷ first) rest) refl
      where
        go :
            (p : Text)
            → project_of repo (c ∷ first) rest ≡ p
            → read_tag conv (project_of repo (c ∷ first) rest) tag ≡ parsed ref
        go [] q = absurd (ground arith)
        go (x ∷ p) q = ground arith

-- What is read out of an image reference stands in it: the project, a colon, one of the configured
-- environments, a dash, and a last segment that is the number of the pipeline. Before the project
-- stands a registry and a slash, where the first segment has a dot or a colon, and else nothing.
pub parse_image-ReadFrom :
    (conv : TagConvention) (image : Text) (ref : ImageRef)
    → parse_image conv image ≡ parsed ref
    → ReadFrom conv image ref
unfolding parse_image
parse_image-ReadFrom conv image ref h = elim (Option-cases (split_last b'/' image)) [
  | inl e ↦ absurd (ground arith)
  | inr ((directory, base), e) ↦ elim (Option-cases (split_last b':' base)) [
    | inl f ↦ absurd (ground arith)
    | inr ((name, tag), f) ↦
        let (prefix, whole, before, t) =
          read_repo-parsed conv (directory ++ b'/' ∷ name) tag ref (ground arith) in
        record {
          prefix = prefix;
          rest = t.rest;
          image_is =
              split_last-some b'/' image directory base e
              ∙ ap (λ b. directory ++ b'/' ∷ b) (split_last-some b':' base name tag f)
              ∙ sym (append_assoc directory (b'/' ∷ name) (b':' ∷ tag))
              ∙ ap (λ r. r ++ b':' ∷ tag) whole
              ∙ ap (λ x. (prefix ++ ref.project_path) ++ b':' ∷ x) t.tag_is;
          before = before;
          configured = t.configured;
          numbered = t.numbered;
        }
  ]
]
