-- ===== src/Envelope.antt =====
-- oxana/src/job_envelope.rs: the envelope that a job travels in. Timestamps are microseconds since
-- the epoch. The JSON values that a job carries are opaque: `V` stands for `serde_json::Value`.
pub mod Laws
use Prim.Native.String.{◌++◌ as str_append}
use oxana.Base.{
  ℕ, ◌+◌, ◌-◌, ◌/◌, ◌%◌, ◌^◌, String, Bool, true, false, Option, none, some, ltb, max_of, is_some,
  unwrap_or, if◌then◌else◌,
}
use oxana.Errors.{Result, ok, err, generic_error}

pub data JobConflictStrategy : Type 0 where
  skip replace : JobConflictStrategy

pub record JobData {ℓ} (V : Type ℓ) : Type ℓ where
  pub name : String
  pub args : V

pub record JobMeta {ℓ} (V : Type ℓ) : Type ℓ where
  pub id : String
  pub on_demand : Option Bool
  pub retries : ℕ  -- u32
  pub unique : Bool
  pub on_conflict : Option JobConflictStrategy
  pub created_at : ℕ
  pub scheduled_at : ℕ
  pub started_at : Option ℕ
  pub state : Option V
  pub resurrect : Bool
  pub error : Option String
  pub throttle_cost : Option ℕ

pub record JobEnvelope {ℓ} (V : Type ℓ) : Type ℓ where
  pub id : String
  pub job : JobData V
  pub queue : String
  pub meta : JobMeta V

-- What the hooks of the trait `Job` (oxana/src/worker.rs) answer for one job, and its JSON.
pub record Job {ℓ} (V : Type ℓ) : Type ℓ where
  pub name : String
  pub unique_id : Option String
  pub on_conflict : JobConflictStrategy
  pub should_resurrect : Bool
  pub throttle_cost : Option ℕ
  pub value : V

abbrev pub u32 : ℕ → ℕ
u32 n = n % 2 ^ 32

abbrev pub is_replace : JobConflictStrategy → Bool
is_replace skip = false
is_replace replace = true

module _ {ℓ} {V : Type ℓ} where
  -- A unique job is named after its type and its own identifier.
  unfoldable pub unique_job_id : Job V → Option String
  unique_job_id j = elim j.unique_id [
    | none ↦ none
    | some unique_id ↦ some (str_append j.name (str_append "/" unique_id))
  ]

  -- `uuid` is the fresh identifier of an ordinary job; `created` and `scheduled` are the two
  -- readings of the clock.
  unfoldable pub new : String → Job V → String → ℕ → ℕ → JobEnvelope V
  unfolding unique_job_id
  new queue job uuid created scheduled =
      let unique_id = unique_job_id job in
      let unique = is_some unique_id in
      let id = unwrap_or unique_id uuid in
      record {
        id = id;
        job = record { name = job.name; args = job.value };
        queue = queue;
        meta = record {
          id = id;
          on_demand = none;
          retries = 0;
          unique = unique;
          on_conflict = if unique then some job.on_conflict else none;
          created_at = created;
          scheduled_at = scheduled;
          started_at = none;
          state = none;
          resurrect = job.should_resurrect;
          error = none;
          throttle_cost = job.throttle_cost;
        };
      }

  unfoldable pub with_scheduled_at : JobEnvelope V → ℕ → ℕ → JobEnvelope V
  with_scheduled_at e scheduled_at now =
      let meta : JobMeta V = e.meta in
      record e { meta = record meta { scheduled_at = max_of scheduled_at now } }

  unfoldable pub new_scheduled : String → Job V → String → ℕ → ℕ → ℕ → ℕ → JobEnvelope V
  unfolding new with_scheduled_at
  new_scheduled queue job uuid created scheduled scheduled_at now =
      with_scheduled_at (new queue job uuid created scheduled) scheduled_at now

  -- The second part says whether the job declares its own unique identifier.
  unfoldable pub new_cron : String → String → Job V → ℕ → Bool → ℕ → Result (JobEnvelope V × Bool)
  unfolding unique_job_id
  new_cron queue occurrence_id job scheduled_at resurrect now =
      let unique_id = unique_job_id job in
      let id = unwrap_or unique_id occurrence_id in
      let declared_unique = is_some unique_id in
      if is_replace job.on_conflict
      then err generic_error
      else ok (
        record {
          id = id;
          job = record { name = job.name; args = job.value };
          queue = queue;
          meta = record {
            id = id;
            on_demand = none;
            retries = 0;
            unique = true;
            on_conflict = some (if declared_unique then job.on_conflict else skip);
            created_at = now;
            scheduled_at = max_of scheduled_at now;
            started_at = none;
            state = none;
            resurrect = resurrect;
            error = none;
            throttle_cost = none;
          };
        },
        declared_unique,
      )

  unfoldable pub with_error : JobEnvelope V → String → JobEnvelope V
  with_error e error =
      let meta : JobMeta V = e.meta in record e { meta = record meta { error = some error } }

  -- The count of retries is a `u32` and wraps as one.
  unfoldable pub with_retries_incremented : JobEnvelope V → String → JobEnvelope V
  with_retries_incremented e error = record {
    id = e.id;
    job = e.job;
    queue = e.queue;
    meta = record {
      id = e.id;
      on_demand = e.meta.on_demand;
      retries = u32 (e.meta.retries + 1);
      unique = e.meta.unique;
      on_conflict = e.meta.on_conflict;
      created_at = e.meta.created_at;
      scheduled_at = e.meta.scheduled_at;
      started_at = none;
      state = e.meta.state;
      resurrect = e.meta.resurrect;
      error = some error;
      throttle_cost = e.meta.throttle_cost;
    };
  }

  unfoldable pub effective_scheduled_at_micros : JobMeta V → ℕ
  effective_scheduled_at_micros m = if ltb 0 m.scheduled_at then m.scheduled_at else m.created_at

  -- `(reference - scheduled).max(0)` is subtraction that stops at 0.
  unfoldable pub latency_micros : JobMeta V → ℕ → ℕ
  unfolding effective_scheduled_at_micros
  latency_micros m now = unwrap_or m.started_at now - effective_scheduled_at_micros m

  unfoldable pub latency_millis : JobMeta V → ℕ → ℕ
  unfolding latency_micros
  latency_millis m now = latency_micros m now / 1000
