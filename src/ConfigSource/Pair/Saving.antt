-- ===== src/ConfigSource/Pair/Saving.antt =====
-- What a save leaves on the two sides (internal/configsource/pair.go).
use devops_tools.Prelude.{Text, ◌≡◌, refl, arith, Option, none, some, ==_refl, sym, ◌∙◌, trim_right}
use devops_tools.ConfigSource.Sources.{SourceError, File, Editor, ok, Source, Secondary}
use devops_tools.ConfigSource.Pair.{
  matching, PutError, refused, lagging, same_config, is_newline, drift, compare, put, put_secondary,
}

-- Both sides give back what was written to them without an error.
pub record ReadsBack {G C : Type 0} (git : Source G) (secondary : Secondary C) : Type 0 where
  pub git_reads :
      (path content version : Text) (editor : Editor) (g g' : G)
      → git.put path content version editor g ≡ (none, g')
      → (f : File) × (git.get path g' ≡ ok f) × (f.content ≡ content)
  pub secondary_reads :
      (path content : Text) (c c' : C)
      → secondary.put_unchecked path content c ≡ (none, c')
      → (f : File) × (secondary.get path c' ≡ ok f) × (f.content ≡ content)

-- How a save ends, by its error.
pub data Saved {G C : Type 0} (git : Source G) (secondary : Secondary C) (path content : Text)
    (c : C) : Option PutError × G × C → Type 0 where
  in_effect :
      {g' : G} {c' : C}
      → compare git secondary path g' c' ≡ ok matching
      → Saved git secondary path content c (none, g', c')
  committed :
      {g' : G} {c' : C} {e : SourceError} (f : File)
      → git.get path g' ≡ ok f
      → f.content ≡ content
      → Saved git secondary path content c (some (lagging e), g', c')
  untouched :
      {g' : G} {e : SourceError} → Saved git secondary path content c (some (refused e), g', c)

drift_same : (f h : File) → f.content ≡ h.content → drift (ok f) (ok h) ≡ ok matching
unfolding drift same_config
drift_same f h e = ground (arith, ==_refl (trim_right is_newline f.content))

module _ {G C : Type 0} (git : Source G) (secondary : Secondary C)
    (r : ReadsBack git secondary) where
  agree :
      (path : Text) (f h : File) (g : G) (c : C)
      → git.get path g ≡ ok f
      → secondary.get path c ≡ ok h
      → f.content ≡ h.content
      → compare git secondary path g c ≡ ok matching
  unfolding compare
  agree path f h g c read found e = rw (read, found) (drift_same f h e)

  -- A save that reports no error is in effect: the comparison of the two sides says that they
  -- match. One that reports the lag is in the repository. One that the repository refuses has not
  -- touched the running side.
  pub put-Saved :
      (path content version : Text) (editor : Editor) (g : G) (c : C)
      → Saved git secondary path content c (put git secondary path content version editor g c)
  unfolding put put_secondary
  put-Saved path content version editor g c = go (git.put path content version editor g) refl
    where
      second :
          (g' : G) (f : File)
          → git.get path g' ≡ ok f
          → f.content ≡ content
          → (x : Option SourceError × C) → secondary.put_unchecked path content c ≡ x
          → Saved git secondary path content c (
            elim x.0 as (λ _. Option PutError) [ none ↦ none | some e ↦ some (lagging e) ],
            g',
            x.1,
          )
      second g' f read same (some e, c') q = committed f read same
      second g' f read same (none, c') q =
          let (h, found, eq) = r.secondary_reads path content c c' q in
          in_effect (agree path f h g' c' read found (same ∙ sym eq))

      go :
          (x : Option SourceError × G)
          → git.put path content version editor g ≡ x
          → Saved git secondary path content c (put_secondary git secondary path content x c)
      go (some e, g') p = untouched
      go (none, g') p =
          let (f, read, same) = r.git_reads path content version editor g g' p in
          second g' f read same (secondary.put_unchecked path content c) refl
