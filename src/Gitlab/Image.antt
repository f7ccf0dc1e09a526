-- ===== src/Gitlab/Image.antt =====
-- internal/gitlab/image.go: reading the pipeline out of an image reference.
pub mod Reading
use devops_tools.Prelude.{
  ℕ, suc, ◌+◌, ◌-◌, ◌*◌, ◌^◌, Text, text, Bool, true, false, not, ◌&&◌, ◌||◌, Option, none, some,
  List, [], ◌∷◌, ◌++◌, eqb, leb, any, is_empty, contains, if◌then◌else◌,
}

pub record TagConvention : Type 0 where
  pub environments : List Text
  pub build_jobs : List Text
  pub deploy_jobs : List Text

pub record ImageRef : Type 0 where
  pub project_path : Text
  pub environment : Text
  pub pipeline : ℕ

pub data ImageError : Type 0 where
  no_reference no_tag no_project empty_project no_segments no_pipeline : ImageError
  unknown_environment : Text → ImageError

pub data Parsed : Type 0 where
  parsed : ImageRef → Parsed
  refused : ImageError → Parsed

-- What stands before and after the last occurrence of a character.
unfoldable pub split_last : ℕ → Text → Option (Text × Text)
split_last c [] = none
split_last c (d ∷ s) = elim (split_last c s) [
  | some (a, b) ↦ some (d ∷ a, b)
  | none ↦ if eqb d c then some ([], s) else none
]

-- What stands before and after the first.
unfoldable pub split_first : ℕ → Text → Option (Text × Text)
split_first c [] = none
split_first c (d ∷ s) =
    let rest = split_first c s in
    if eqb d c then some ([], s) else elim rest [ none ↦ none | some (a, b) ↦ some (d ∷ a, b) ]

-- What stands after the last occurrence, or the whole text.
unfoldable pub last_segment : ℕ → Text → Text
last_segment c s = elim (split_last c s) [ none ↦ s | some (a, b) ↦ b ]

unfoldable pub digits : Text → ℕ → Option ℕ
digits [] n = some n
digits (c ∷ s) n =
    let rest = digits s (10 * n + (c - b'0')) in if leb b'0' c && leb c b'9' then rest else none

-- strconv.Atoi of a text without a minus sign.
unfoldable pub unsigned : Text → Option ℕ
unsigned [] = none
unsigned (c ∷ s) = elim (digits (c ∷ s) 0) [
  | none ↦ none
  | some n ↦ if leb n (2 ^ 63 - 1) then some n else none
]

unfoldable pub atoi : Text → Option ℕ
atoi [] = none
atoi (c ∷ s) = if eqb c b'+' then unsigned s else unsigned (c ∷ s)

-- The first segment is a registry if it has a dot or a colon.
unfoldable pub project_of : Text → Text → Text → Text
project_of repo first rest = if any (λ c. eqb c b'.' || eqb c b':') first then rest else repo

unfoldable pub read_tag : TagConvention → Text → Text → Parsed
read_tag conv project tag = elim (split_first b'-' tag) [
  | none ↦ refused no_segments
  | some (environment, rest) ↦
      if not (contains conv.environments environment)
      then refused (unknown_environment environment)
      else elim (atoi (last_segment b'-' rest)) [
        | none ↦ refused no_pipeline
        | some pipeline ↦
            parsed
              (record { project_path = project; environment = environment; pipeline = pipeline })
      ]
]

unfoldable pub read_repo : TagConvention → Text → Text → Parsed
read_repo conv repo tag = elim (split_first b'/' repo) [
  | none ↦ refused no_project
  | some (first, rest) ↦
      if is_empty first
      then refused no_project
      else let project = project_of repo first rest in
        if is_empty project then refused empty_project else read_tag conv project tag
]

unfoldable pub parse_image : TagConvention → Text → Parsed
parse_image conv image = elim (split_last b'/' image) [
  | none ↦ refused no_reference
  | some (directory, base) ↦ elim (split_last b':' base) [
    | none ↦ refused no_tag
    | some (name, tag) ↦ read_repo conv (directory ++ b'/' ∷ name) tag
  ]
]
