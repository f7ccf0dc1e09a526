-- ===== src/Tests/Images.antt =====
-- An image reference (internal/gitlab/image.go).
use devops_tools.Prelude.{Text, text, refl, [], ◌∷◌, any, contains, text_dec, ℕ_discrete}
use devops_tools.Gitlab.Image.{
  TagConvention, ImageRef, parse_image, split_last, split_first, last_segment, digits, unsigned,
  atoi, project_of, read_tag, read_repo,
}
use devops_tools.Gitlab.Image.Reading.{ReadFrom, parse_image-ReadFrom}

program : Unit {0}
unfolding any contains text_dec ℕ_discrete parse_image split_last split_first last_segment digits
    unsigned atoi project_of read_tag read_repo
program = tt

abbrev convention : TagConvention
convention = record {
  environments = text "dev" ∷ text "preprod" ∷ [];
  build_jobs = [];
  deploy_jobs = [];
}

abbrev image : Text
image = text "registry.example:5000/shop/api/web:dev-debug-4711"

abbrev ref : ImageRef
ref = record { project_path = text "shop/api/web"; environment = text "dev"; pipeline = 4711 }

parse_image-ReadFrom_example : ReadFrom convention image ref
unfolding program
parse_image-ReadFrom_example = parse_image-ReadFrom convention image ref refl
