-- ===== src/Envelope/Laws.antt =====
-- What the constructors and updates of an envelope (oxana/src/job_envelope.rs) keep and set.
use oxana.Base.{
  ℕ, ◌+◌, ◌≤◌, ◌<◌, ◌^◌, ◌≡◌, ◌%◌, refl, String, Bool, true, none, some, is_some, arith,
}
use oxana.Errors.{ok}
use oxana.Envelope.{
  JobEnvelope, Job, skip, new_scheduled, new_cron, with_error, with_retries_incremented,
}

-- The two identifiers of an envelope agree.
abbrev pub IdAgrees {ℓ} : {V : Type ℓ} → JobEnvelope V → Type 0
IdAgrees e = e.id ≡ e.meta.id

-- The envelope of a job for its next retry: one retry more, as a `u32`, the error, no start, and the same
-- job, queue and state.
pub record IsRetryOf {ℓ} {V : Type ℓ} (e : JobEnvelope V) (error : String) (e' : JobEnvelope V)
    : Type ℓ where
  pub id : e'.id ≡ e.id
  pub job : e'.job ≡ e.job
  pub queue : e'.queue ≡ e.queue
  pub retries : e'.meta.retries ≡ (e.meta.retries + 1) % 2 ^ 32
  pub error_kept : e'.meta.error ≡ some error
  pub not_started : e'.meta.started_at ≡ none
  pub state : e'.meta.state ≡ e.meta.state

-- The envelope of a job that is killed: the error, and the same job, queue, retries and state.
pub record IsKilledFrom {ℓ} {V : Type ℓ} (e : JobEnvelope V) (error : String) (e' : JobEnvelope V)
    : Type ℓ where
  pub id : e'.id ≡ e.id
  pub job : e'.job ≡ e.job
  pub queue : e'.queue ≡ e.queue
  pub retries : e'.meta.retries ≡ e.meta.retries
  pub error_kept : e'.meta.error ≡ some error
  pub state : e'.meta.state ≡ e.meta.state

module _ {ℓ} {V : Type ℓ} where
  pub with_retries_incremented-IsRetryOf :
      (e : JobEnvelope V) (error : String) → IsRetryOf e error (with_retries_incremented e error)
  unfolding with_retries_incremented
  with_retries_incremented-IsRetryOf e error = record {
    id = refl;
    job = refl;
    queue = refl;
    retries = refl;
    error_kept = refl;
    not_started = refl;
    state = refl;
  }

  pub with_error-IsKilledFrom :
      (e : JobEnvelope V) (error : String) → IsKilledFrom e error (with_error e error)
  unfolding with_error
  with_error-IsKilledFrom e error = record {
    id = refl;
    job = refl;
    queue = refl;
    retries = refl;
    error_kept = refl;
    state = refl;
  }

  -- A cron envelope that is built is unique with the conflict strategy `Skip`, is due neither
  -- before now nor before its occurrence, has agreeing identifiers, and starts with no retries;
  -- and the job does not ask for `Replace`.
  pub new_cron_lem :
      (queue occurrence : String) (job : Job V) (due : ℕ) (resurrect : Bool) (now : ℕ)
      (e : JobEnvelope V) (declared : Bool)
      → new_cron queue occurrence job due resurrect now ≡ ok (e, declared)
      → (e.meta.unique ≡ true)
        × (e.meta.on_conflict ≡ some skip)
        × (now ≤ e.meta.scheduled_at)
        × (due ≤ e.meta.scheduled_at)
        × IdAgrees e
        × (e.meta.retries ≡ 0)
        × (job.on_conflict ≡ skip)
  unfolding new_cron
  new_cron_lem queue occurrence job due resurrect now e declared h = ground arith

  -- A scheduled envelope has agreeing identifiers, is due neither before now nor before the time
  -- asked for, and is unique exactly when the job has an identifier of its own; the conflict
  -- strategy is recorded exactly then.
  pub new_scheduled_lem :
      (queue uuid : String) (job : Job V) (created scheduled due now : ℕ)
      → let e = new_scheduled queue job uuid created scheduled due now in
        IdAgrees e
        × (now ≤ e.meta.scheduled_at)
        × (due ≤ e.meta.scheduled_at)
        × (e.meta.unique ≡ is_some job.unique_id)
        × (is_some e.meta.on_conflict ≡ is_some job.unique_id)
  unfolding new_scheduled
  new_scheduled_lem queue uuid job created scheduled due now = ground arith

  -- A retry keeps the job, its queue, its state and its times of creation and scheduling, records
  -- the error, clears the start time and, below the largest `u32`, counts one retry more.
  pub with_retries_incremented_lem :
      (e : JobEnvelope V) (error : String)
      → e.meta.retries + 1 < 2 ^ 32
      → let e' = with_retries_incremented e error in
        (e'.meta.retries ≡ e.meta.retries + 1)
        × (e'.meta.error ≡ some error)
        × (e'.meta.started_at ≡ none)
        × (e'.meta.state ≡ e.meta.state)
        × (e'.job ≡ e.job)
        × (e'.queue ≡ e.queue)
        × (e'.meta.created_at ≡ e.meta.created_at)
        × (e'.meta.scheduled_at ≡ e.meta.scheduled_at)
        × IdAgrees e'
  unfolding with_retries_incremented
  with_retries_incremented_lem e error h = ground arith
