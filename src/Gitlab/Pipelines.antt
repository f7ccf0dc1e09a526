-- ===== src/Gitlab/Pipelines.antt =====
-- internal/gitlab/pipelines.go: running a build again, and releasing the manual jobs of a pipeline.
-- The calls of GitLab are a parameter; an id is a number that GitLab gave, never below zero.
pub mod Releasing
use devops_tools.Prelude.{
  ℕ, Text, text, Bool, true, false, not, ◌||◌, Option, none, some, List, [], ◌∷◌, ◌==◌, contains,
  map, eqb, if◌then◌else◌,
}
use Prim.Native.Nat.{◌/◌}

pub record Job : Type 0 where
  pub id : ℕ
  pub name : Text
  pub status : Text
  pub web_url : Text

pub record JobResult : Type 0 where
  pub name : Text
  pub id : ℕ
  pub status : Text
  pub web_url : Text
  pub already_running : Bool

unfoldable pub in_progress : Text → Bool
in_progress status =
    status == text "created"
    || status == text "pending"
    || status == text "running"
    || status == text "preparing"
    || status == text "waiting_for_resource"
    || status == text "scheduled"

pub data Fetched (A : Type 0) : Type 0 where
  fetched : A → Fetched A
  missing : Fetched A
  fetch_failed : Fetched A

-- The answer to a POST: none, or a status with the job that its body holds, if it holds one.
pub data Posted : Type 0 where
  unanswered : Posted
  answered : ℕ → Option Job → Posted

-- The project and the pipeline, or the job, that a call is about; the jobs are those in a state.
pub record Client (W : Type 0) : Type 0 where
  pub pipeline_jobs : Text → ℕ → Text → W → Fetched (List Job)
  pub retry : Text → ℕ → W → Posted × W
  pub play : Text → ℕ → W → Posted × W

pub data RetryError : Type 0 where
  pipeline_gone not_fetched not_answered not_permitted : RetryError
  bad_status : ℕ → RetryError

pub data Retried : Type 0 where
  retried : JobResult → Retried
  not_retried : RetryError → Retried

-- The first job with one of the names.
unfoldable pub first_named : List Text → List Job → Option Job
first_named names [] = none
first_named names (j ∷ jobs) =
    let rest = first_named names jobs in if contains names j.name then some j else rest

unfoldable pub job_result : Job → Bool → JobResult
job_result j running = record {
  name = j.name;
  id = j.id;
  status = j.status;
  web_url = j.web_url;
  already_running = running;
}

-- The new job, or the old one where the answer names none.
unfoldable pub fresh_job : Job → Option Job → Job
fresh_job target none = target
fresh_job target (some j) = if eqb j.id 0 then target else j

unfoldable pub is_success : ℕ → Bool
is_success status = eqb (status / 100) 2

unfoldable pub retry_answer : Job → Posted → Retried
retry_answer target unanswered = not_retried not_answered
retry_answer target (answered status body) =
    if eqb status 403
    then not_retried not_permitted
    else if not (is_success status)
    then not_retried (bad_status status)
    else retried (job_result (fresh_job target body) false)

unfoldable pub play_succeeded : Posted → Bool
play_succeeded unanswered = false
play_succeeded (answered status body) = is_success status

pub data Played : Type 0 where
  released : List Text → List Text → Played
  not_released : Played

module _ {W : Type 0} (client : Client W) (project : Text) where
  unfoldable pub retry_job : Job → W → Retried × W
  retry_job target w =
      if in_progress target.status
      then (retried (job_result target true), w)
      else let (answer, w') = client.retry project target.id w in (retry_answer target answer, w')

  unfoldable pub retry_named : List Text → Fetched (List Job) → W → Retried × W
  retry_named names missing w = (not_retried pipeline_gone, w)
  retry_named names fetch_failed w = (not_retried not_fetched, w)
  retry_named names (fetched jobs) w = elim (first_named names jobs) [
    | none ↦ (not_retried pipeline_gone, w)
    | some target ↦ retry_job target w
  ]

  -- RetryBuildJob
  unfoldable pub retry_build_job : ℕ → List Text → W → Retried × W
  retry_build_job pipeline names w =
      retry_named names (client.pipeline_jobs project pipeline [] w) w

  -- FailedJobNames
  unfoldable pub failed_job_names : ℕ → W → List Text
  failed_job_names pipeline w = elim (client.pipeline_jobs project pipeline (text "failed") w) [
    | fetched jobs ↦ map (λ j. j.name) jobs
    | _ ↦ []
  ]

  unfoldable pub play_job : ℕ → W → Bool × W
  play_job id w = let (answer, w') = client.play project id w in (play_succeeded answer, w')

  -- One job: whether it was started.
  unfoldable pub release : List Text → Job → W → Bool × W
  release allowed j w = if contains allowed j.name then play_job j.id w else (false, w)

  abbrev pub sort_in : Job → Bool × W → List Text × List Text × W → List Text × List Text × W
  sort_in j (started, w) (played, manual, w') =
      if started then (j.name ∷ played, manual, w') else (played, j.name ∷ manual, w')

  -- The loop over the manual jobs: what was started, what still waits.
  unfoldable pub release_each : List Text → List Job → W → List Text × List Text × W
  release_each allowed [] w = ([], [], w)
  release_each allowed (j ∷ jobs) w =
      sort_in j (release allowed j w) (release_each allowed jobs (release allowed j w).1)

  unfoldable pub release_fetched : List Text → Fetched (List Job) → W → Played × W
  release_fetched allowed (fetched jobs) w =
      let (played, manual, w') = release_each allowed jobs w in (released played manual, w')
  release_fetched allowed missing w = (not_released, w)
  release_fetched allowed fetch_failed w = (not_released, w)

  -- PlayManualDeployJobs
  unfoldable pub play_manual_deploy_jobs : ℕ → List Text → W → Played × W
  play_manual_deploy_jobs pipeline allowed w =
      release_fetched allowed (client.pipeline_jobs project pipeline (text "manual") w) w
