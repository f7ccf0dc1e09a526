-- ===== src/ConfigSource/Pair.antt =====
-- internal/configsource/pair.go: a Git repository and the Consul store that follows it.
pub mod Saving
use devops_tools.Prelude.{
  ℕ, Text, text, Bool, true, false, ◌||◌, Option, none, some, List, [], ◌∷◌, ◌++◌, eqb, ◌==◌,
  trim_right, if◌then◌else◌,
}
use devops_tools.ConfigSource.Sources.{
  SourceError, not_found, conflict, failed, File, Editor, Reply, ok, error, Source, Secondary,
}

pub data Drift : Type 0 where
  matching differing missing_in_consul missing_in_git : Drift

-- How a save ends: `lagging` is ErrSecondaryLagging.
pub data PutError : Type 0 where
  refused : SourceError → PutError
  lagging : SourceError → PutError
  other_side : PutError

pub data Side : Type 0 where
  git consul unknown : Side

abbrev pub is_newline : ℕ → Bool
is_newline c = eqb c 13 || eqb c 10

-- strings.TrimRight(s, "\r\n"), on both
unfoldable pub same_config : Text → Text → Bool
same_config a b = trim_right is_newline a == trim_right is_newline b

-- The comparison, from what reading each side gave.
unfoldable pub drift : Reply File → Reply File → Reply Drift
drift (error (failed m)) c = error (failed m)
drift (error conflict) c = error conflict
drift (ok g) (error (failed m)) = error (failed m)
drift (ok g) (error conflict) = error conflict
drift (error not_found) (error (failed m)) = error (failed m)
drift (error not_found) (error conflict) = error conflict
drift (error not_found) (error not_found) = error not_found
drift (ok g) (error not_found) = ok missing_in_consul
drift (error not_found) (ok c) = ok missing_in_git
drift (ok g) (ok c) = if same_config g.content c.content then ok matching else ok differing

-- The file with the verdict, or without one where the comparison could not be made.
unfoldable pub with_drift : Reply File → Reply Drift → Reply (File × Option Drift)
with_drift (error e) d = error e
with_drift (ok f) (error _) = ok (f, none)
with_drift (ok f) (ok d) = ok (f, some d)

unfoldable pub wanted : Side → Reply File → Reply File → Reply File
wanted consul g c = c
wanted _ g c = g

module _ {G C : Type 0} (git_source : Source G) (secondary : Secondary C) where
  -- What follows the commit.
  unfoldable pub put_secondary : Text → Text → Option SourceError × G → C → Option PutError × G × C
  put_secondary path content (some e, g) c = (some (refused e), g, c)
  put_secondary path content (none, g) c =
      let (e, c') = secondary.put_unchecked path content c in
      (elim e [ none ↦ none | some x ↦ some (lagging x) ], g, c')

  unfoldable pub put : Text → Text → Text → Editor → G → C → Option PutError × G × C
  put path content version editor g c =
      put_secondary path content (git_source.put path content version editor g) c

  unfoldable pub put_side : Side → Text → Text → G → C → Option PutError × G × C
  put_side consul path content g c =
      let (e, c') = secondary.put_unchecked path content c in
      (elim e [ none ↦ none | some x ↦ some (refused x) ], g, c')
  put_side git path content g c = (some other_side, g, c)
  put_side unknown path content g c = (some other_side, g, c)

  -- The two sides are read side by side: `g` and `c` are their states at either read.
  unfoldable pub compare : Text → G → C → Reply Drift
  compare path g c = drift (git_source.get path g) (secondary.get path c)

  unfoldable pub get_with_drift : Side → Text → G → C → Reply (File × Option Drift)
  get_with_drift side path g c =
      let in_git = git_source.get path g in
      let in_consul = secondary.get path c in
      with_drift (wanted side in_git in_consul) (drift in_git in_consul)

  -- `secondary_state`, for the audit record.
  unfoldable pub described : Text → Reply File → Text
  described expected (error not_found) = text "absent"
  described expected (error _) = text "unknown"
  described expected (ok f) =
      if same_config f.content expected
      then text "identical"
      else text "differed at index " ++ f.version

  unfoldable pub secondary_state : Text → Text → C → Text
  secondary_state path expected c = described expected (secondary.get path c)
