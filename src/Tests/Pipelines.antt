-- ===== src/Tests/Pipelines.antt =====
-- Releasing the manual jobs of a pipeline, at small inputs (internal/gitlab/pipelines.go).
use devops_tools.Prelude.{
  if◌then◌else◌, true, ℕ, Text, text, ◌≡◌, refl, none, List, [], ◌∷◌, contains, text_dec,
  ℕ_discrete, ◌==◌,
}
use devops_tools.Gitlab.Pipelines.{
  Job, Client, fetched, answered, retried, job_result, released, play_job, play_succeeded,
  is_success, release, release_each, release_fetched, play_manual_deploy_jobs, retry_build_job,
  retry_named, first_named, retry_job, in_progress, retry_answer, fresh_job,
}
use devops_tools.Gitlab.Pipelines.Releasing.{Releases, play_manual-Releases}

program : Unit {0}
unfolding contains text_dec ℕ_discrete play_job play_succeeded is_success release release_each
    release_fetched play_manual_deploy_jobs retry_build_job retry_named first_named retry_job
    in_progress retry_answer fresh_job job_result
program = tt

abbrev waiting : ℕ → Text → Job
waiting id name = record { id = id; name = name; status = text "manual"; web_url = [] }

abbrev built : Job
built = record { id = 7; name = text "build"; status = text "running"; web_url = [] }

-- Every call is noted in the world by the id of its job.
abbrev client : Client (List ℕ)
client = record {
  pipeline_jobs = λ project pipeline status w.
      if status == text "manual"
      then fetched (waiting 1 (text "deploy") ∷ waiting 2 (text "deploy-production") ∷ [])
      else fetched (built ∷ []);
  retry = λ project id w. (answered 201 none, id ∷ w);
  play = λ project id w. (answered 200 none, id ∷ w);
}

play_manual-Releases_example :
    (played : List Text) × (manual : List Text) × (w' : List ℕ) × (play_manual_deploy_jobs client
        (text "shop")
        4711
        (text "deploy" ∷ [])
        []
      ≡ (released played manual, w'))
    × Releases client
        (text "shop")
        (text "deploy" ∷ [])
        (waiting 1 (text "deploy") ∷ waiting 2 (text "deploy-production") ∷ [])
        []
        (played, manual, w')
unfolding program
play_manual-Releases_example =
    play_manual-Releases client (text "shop") (text "deploy" ∷ []) 4711 [] _ refl

only_deploy_played :
    play_manual_deploy_jobs client (text "shop") 4711 (text "deploy" ∷ []) []
    ≡ (released (text "deploy" ∷ []) (text "deploy-production" ∷ []), 1 ∷ [])
unfolding program
only_deploy_played = refl

-- A build that runs is left alone.
running_build_left : retry_build_job client (text "shop") 4711 (text "build" ∷ []) [] ≡ (
  retried (record {
    name = text "build";
    id = 7;
    status = text "running";
    web_url = [];
    already_running = true;
  }),
  [],
)
unfolding program
running_build_left = refl
