-- ===== src/Gitlab/Pipelines/Releasing.antt =====
-- Which jobs are started (internal/gitlab/pipelines.go).
use devops_tools.Prelude.{
  ℕ, Text, text, Bool, true, false, List, [], ◌∷◌, ◌≡◌, refl, ap, ◌∙◌, sym, subst, contains,
  Bool-cases, inl, inr,
}
use devops_tools.Gitlab.Pipelines.{
  Job, Client, fetched, released, play_job, release, release_each, sort_in, play_manual_deploy_jobs,
  release_fetched,
}

differ : false ≡ true → ⊥
differ h = cc

module _ {W : Type 0} (client : Client W) (project : Text) (allowed : List Text) where
  -- The jobs are taken in their order. One whose name is allowed is played, and counts as started if
  -- GitLab took that; every other is left for a person, and GitLab is not called for it.
  pub data Releases : List Job → W → List Text × List Text × W → Type 0 where
    all_taken : {w : W} → Releases [] w ([], [], w)
    started :
        {j : Job} {jobs : List Job} {w w1 w' : W} {played manual : List Text}
        → contains allowed j.name ≡ true
        → play_job client project j.id w ≡ (true, w1)
        → Releases jobs w1 (played, manual, w')
        → Releases (j ∷ jobs) w (j.name ∷ played, manual, w')
    not_started :
        {j : Job} {jobs : List Job} {w w1 w' : W} {played manual : List Text}
        → contains allowed j.name ≡ true
        → play_job client project j.id w ≡ (false, w1)
        → Releases jobs w1 (played, manual, w')
        → Releases (j ∷ jobs) w (played, j.name ∷ manual, w')
    left_waiting :
        {j : Job} {jobs : List Job} {w w' : W} {played manual : List Text}
        → contains allowed j.name ≡ false
        → Releases jobs w (played, manual, w')
        → Releases (j ∷ jobs) w (played, j.name ∷ manual, w')

  module _ (j : Job) (w : W) where
    release-allowed :
        contains allowed j.name ≡ true
        → release client project allowed j w ≡ play_job client project j.id w
    unfolding release
    release-allowed c = rw c refl

    release-other :
        contains allowed j.name ≡ false → release client project allowed j w ≡ (false, w)
    unfolding release
    release-other c = rw c refl

  sort_in-Releases :
      (j : Job) (jobs : List Job) (w : W) (x : Bool × W) (rest : List Text × List Text × W)
      → release client project allowed j w ≡ x
      → Releases jobs x.1 rest
      → Releases (j ∷ jobs) w (sort_in client project j x rest)
  sort_in-Releases j jobs w (true, w1) (played, manual, w') e r =
      elim (Bool-cases (contains allowed j.name)) [
        | inl c ↦ started c (sym (release-allowed j w c) ∙ e) r
        | inr c ↦ absurd (differ (ap (λ x. x.0) (sym (release-other j w c) ∙ e)))
      ]
  sort_in-Releases j jobs w (false, w1) (played, manual, w') e r =
      elim (Bool-cases (contains allowed j.name)) [
        | inl c ↦ not_started c (sym (release-allowed j w c) ∙ e) r
        | inr c ↦ left_waiting c (
            subst (λ v. Releases jobs v (played, manual, w'))
              (ap (λ x. x.1) (sym e ∙ release-other j w c)) r)
      ]

  release_each-Releases :
      (jobs : List Job) (w : W) → Releases jobs w (release_each client project allowed jobs w)
  unfolding release_each
  release_each-Releases [] w = all_taken
  release_each-Releases (j ∷ jobs) w =
      sort_in-Releases j jobs w (release client project allowed j w) _ refl
        (release_each-Releases jobs (release client project allowed j w).1)

  -- When the manual jobs of the pipeline can be fetched, they are released: each is on exactly one of
  -- the two lists, only jobs of an allowed name are played, and only those that GitLab started are
  -- reported as such.
  pub play_manual-Releases :
      (pipeline : ℕ) (w : W) (jobs : List Job)
      → client.pipeline_jobs project pipeline (text "manual") w ≡ fetched jobs
      → (played : List Text) × (manual : List Text) × (w' : W) × (play_manual_deploy_jobs client
            project pipeline allowed w
          ≡ (released played manual, w'))
        × Releases jobs w (played, manual, w')
  unfolding play_manual_deploy_jobs release_fetched
  play_manual-Releases pipeline w jobs e = (
    (release_each client project allowed jobs w).0,
    (release_each client project allowed jobs w).1,
    (release_each client project allowed jobs w).2,
    ap (λ x. release_fetched client project allowed x w) e,
    release_each-Releases jobs w,
  )
