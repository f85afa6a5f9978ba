-- ===== src/Executor.antt =====
-- oxana/src/executor.rs: what becomes of a job, or a batch of jobs, after its worker has run. The
-- worker and the hooks of the settings are code of the user, and parameters here; so is how long the
-- worker ran. Reports and logs are left out. `config.fail` is the second part of a result: the error
-- that stops the process.
pub mod Safe
pub mod Start
use oxana.Base.{
  ℕ, ◌+◌, String, Bool, true, false, Option, none, some, List, [], ◌∷◌, ◌==◌, ltb, not, ◌||◌,
  unwrap_or, map, if◌then◌else◌,
}
use oxana.Base.Lists.{length}
use oxana.Errors.{Result, ok, err, OxanaError, generic_error}
use oxana.Envelope.{JobEnvelope, JobMeta}
use oxana.Json.{Json}
use oxana.Redis.{Redis}
use oxana.Exec.{Exec, pure, fail, attempt, ◌>>=◌, ◌>>◌}
use oxana.Storage.{StorageInternal, finish_with_success_batch, retry_in, kill, set_started_at_batch}

pub data ExecutionResult (Error : Type 0) : Type 0 where
  success : ExecutionResult Error
  failed : Error → ExecutionResult Error
  panicked : String → ExecutionResult Error

pub data WorkerResultKind : Type 0 where
  success panicked failed : WorkerResultKind

pub record JobExecutionPolicy : Type 0 where
  pub max_retries : ℕ
  pub retry_delay : ℕ

pub record Settings (Error : Type 0) : Type 0 where
  pub format_error : Error → String
  pub retry_delay_override : Option (Error → ℕ → ℕ → Option ℕ)

-- The trait `Processable` of oxana/src/worker.rs: a worker for one job or for a batch.
pub record Worker (V Error : Type 0) : Type 0 where
  pub len : ℕ
  pub should_resume : Bool
  pub max_retries : ℕ → ℕ
  pub retry_delay : ℕ → ℕ → ℕ
  pub process : List (JobMeta V) → ExecutionResult Error

pub record FailedJobMetadata (V : Type 0) : Type 0 where
  pub job_id : String
  pub args : V
  pub retry_count : ℕ
  pub max_retries : ℕ
  pub will_retry : Bool
  pub terminal : Bool

-- The names of the job and the worker are left out.
pub record WorkerFailureMetadata (V : Type 0) : Type 0 where
  pub batch_size : ℕ
  pub jobs : List (FailedJobMetadata V)
  pub queue : String
  pub will_retry : Bool
  pub terminal : Bool

abbrev pub overridden :
    {Error : Type 0} → Option (Error → ℕ → ℕ → Option ℕ) → Error → ℕ → ℕ → Option ℕ
overridden none error retries delay = none
overridden (some f) error retries delay = f error retries delay

module _ {V : Type 0} where
  abbrev pub zip :
      List (JobEnvelope V) → List JobExecutionPolicy → List (JobEnvelope V × JobExecutionPolicy)
  zip [] ps = []
  zip (e ∷ es) [] = []
  zip (e ∷ es) (p ∷ ps) = (e, p) ∷ zip es ps

  unfoldable pub failed_job : JobEnvelope V × JobExecutionPolicy → FailedJobMetadata V
  failed_job (e, p) =
      let will_retry = ltb e.meta.retries p.max_retries in
      record {
        job_id = e.id;
        args = e.job.args;
        retry_count = e.meta.retries;
        max_retries = p.max_retries;
        will_retry = will_retry;
        terminal = not will_retry;
      }

  abbrev pub any_will_retry : List (FailedJobMetadata V) → Bool
  any_will_retry [] = false
  any_will_retry (j ∷ js) = j.will_retry || any_will_retry js

  abbrev first_queue : List (JobEnvelope V) → String
  first_queue [] = ""
  first_queue (e ∷ es) = e.queue

  unfoldable pub failure_metadata :
      List (JobEnvelope V) → List JobExecutionPolicy → WorkerFailureMetadata V
  unfolding failed_job
  failure_metadata es ps =
      let jobs = map failed_job (zip es ps) in
      record {
        batch_size = length jobs;
        jobs = jobs;
        queue = first_queue es;
        will_retry = any_will_retry jobs;
        terminal = not (any_will_retry jobs);
      }

  unfoldable pub retry_delay :
      {Error : Type 0} → Settings Error → Error → JobEnvelope V → JobExecutionPolicy → ℕ
  retry_delay settings error e p =
      unwrap_or (overridden settings.retry_delay_override error e.meta.retries p.retry_delay)
        p.retry_delay

  abbrev policies_from :
      {Error : Type 0} → Worker V Error → ℕ → List (JobEnvelope V) → List JobExecutionPolicy
  policies_from worker index [] = []
  policies_from worker index (e ∷ es) =
      record {
        max_retries = worker.max_retries index;
        retry_delay = worker.retry_delay index e.meta.retries;
      }
      ∷ policies_from worker (index + 1) es

  abbrev pub cleared : JobEnvelope V → JobEnvelope V
  cleared e = let meta : JobMeta V = e.meta in record e { meta = record meta { state = none } }

module _ ⦃R : Redis⦄ {V : Type 0} (J : Json V) (s : StorageInternal) where
  unfoldable pub handle_err : String → JobEnvelope V → ℕ → ℕ → ℕ → Exec R.Db (Unit {0})
  handle_err err_msg e retry_delay max_retries now = elim (ltb e.meta.retries max_retries) [
    | true ↦ retry_in J s e.id retry_delay err_msg now
    | false ↦ kill J s e err_msg
  ]

  -- Remaining claims are left for recovery after the first error. `clock` is the time at which a
  -- job is retried.
  unfoldable pub handle_batch :
      String
      → (JobEnvelope V → JobExecutionPolicy → ℕ)
      → (String → ℕ)
      → List (JobEnvelope V × JobExecutionPolicy)
      → Exec R.Db (Option OxanaError)
  handle_batch err_msg delay clock [] = pure none
  handle_batch err_msg delay clock ((e, p) ∷ rest) = do
    handled ← attempt (handle_err err_msg e (delay e p) p.max_retries (clock e.id))
    elim handled [ ok done ↦ handle_batch err_msg delay clock rest | err error ↦ pure (some error) ]

  abbrev pub error_of : Result (Unit {0}) → Option OxanaError
  error_of (ok done) = none
  error_of (err error) = some error

  module _ {Error : Type 0} (settings : Settings Error) (clock : String → ℕ) where
    unfoldable pub finish_batch_result :
        ExecutionResult Error
        → List (JobEnvelope V)
        → List JobExecutionPolicy
        → Exec R.Db (WorkerResultKind × Option OxanaError)
    finish_batch_result success es ps = do
      finished ← attempt (finish_with_success_batch s es)
      pure (success, error_of finished)
    finish_batch_result (failed e) es ps = do
      failure ← handle_batch (settings.format_error e) (retry_delay settings e) clock (zip es ps)
      pure (failed, failure)
    finish_batch_result (panicked message) es ps = do
      failure ← handle_batch message (λ e p. p.retry_delay) clock (zip es ps)
      pure (panicked, failure)

    -- The kind of the result, how long the worker ran and the envelopes as they were left.
    unfoldable pub run_batch :
        Worker V Error
        → ℕ
        → ℕ
        → List (JobEnvelope V)
        → Exec R.Db ((WorkerResultKind × Option OxanaError) × ℕ × List (JobEnvelope V))
    run_batch worker now duration_ms [] = pure ((success, none), 0, [])
    run_batch worker now duration_ms (e ∷ es) = elim (worker.len == length (e ∷ es)) [
      | false ↦ fail generic_error
      | true ↦ do
        let policies = policies_from worker 0 (e ∷ es)
        let resumed = if worker.should_resume then e ∷ es else map cleared (e ∷ es)
        started ← set_started_at_batch J s now resumed
        kind ← finish_batch_result (worker.process (map (λ x. x.meta) started)) started policies
        pure (kind, duration_ms, started)
    ]

    unfoldable pub run :
        Worker V Error
        → ℕ
        → ℕ
        → JobEnvelope V
        → Exec R.Db ((WorkerResultKind × Option OxanaError) × ℕ × List (JobEnvelope V))
    run worker now duration_ms e = run_batch worker now duration_ms (e ∷ [])
