-- ===== src/Tests/Files.antt =====
-- Configuration files at small inputs (internal/configsource).
use devops_tools.Prelude.{◌-◌, Text, text, ◌≡◌, refl, true, false, Option, none, some, ◌⊎◌, arith}
use devops_tools.Prelude.{[], ◌∷◌, In, text_dec, ◌==◌, ℕ_discrete, if◌then◌else◌, ltb}
use devops_tools.Store.Model.{Time}
use devops_tools.ConfigSource.Sources.{
  SourceError, conflict, File, Editor, Entry, ok, Source, Secondary,
}
use devops_tools.ConfigSource.Pair.Saving.{ReadsBack}
use devops_tools.ConfigSource.Cache.{Cached, list, keep, hand_over, is_usable, stale_limit}
use devops_tools.ConfigSource.Cache.Freshness.{Reached, start, listed, History, list_fresh}
use devops_tools.Tests.World.{version_of}

program : Unit {0}
unfolding text_dec ℕ_discrete list keep hand_over is_usable
program = tt

abbrev file_of : Text → Text → File
file_of path content = record {
  path = path;
  version = version_of content;
  content = content;
  author = [];
  updated_at = [];
}

-- One file, the same under every path.
abbrev commit : Text → Text → Text → Editor → Text → Option SourceError × Text
commit path content version editor g =
    if version == version_of g then (none, content) else (some conflict, g)

abbrev pub repository : Source Text
repository = record {
  list = λ g. ok (record { path = text "shop/a.yaml"; version = version_of g } ∷ []);
  get = λ path g. ok (file_of path g);
  put = commit;
}

abbrev pub agent : Secondary Text
agent = record {
  get = λ path c. ok (file_of path c);
  put_unchecked = λ path content c. (none, content);
}

committed :
    (path content version : Text) (editor : Editor) (g g' : Text)
    → commit path content version editor g ≡ (none, g')
    → (f : File) × (repository.get path g' ≡ ok f) × (f.content ≡ content)
committed path content version editor g g' h = (file_of path g', refl, ground arith)

pub both_read_back : ReadsBack repository agent
both_read_back = record {
  git_reads = committed;
  secondary_reads = λ path content c c' h. (file_of path c', refl, ground arith);
}

abbrev editor : Editor
editor = record { username = text "alice"; email = text "a@x" }

abbrev entry : Entry
entry = record { path = text "a.yaml"; version = text "1" }

-- The cache once it has listed at time 5.
abbrev warm : Cached
warm = record { entries = some (entry ∷ []); fetched = 5; refreshing = false }

abbrev asked : History
asked = (5, entry ∷ []) ∷ []

warm-Reached : Reached asked warm
unfolding program
warm-Reached = listed 5 (ok (some (entry ∷ []))) start

list_fresh_example :
    (ok (some []) ≡ ok (some (entry ∷ [])))
    ⊎ ((then_ : Time) × In (then_, entry ∷ []) asked × (ltb (9 - then_) stale_limit ≡ true))
unfolding program
list_fresh_example = list_fresh asked warm 9 (ok (some [])) (entry ∷ []) warm-Reached refl
