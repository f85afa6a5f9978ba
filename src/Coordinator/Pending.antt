-- ===== src/Coordinator/Pending.antt =====
-- `load_pending_job`, `route_job`, `process_pending_job`, `process_pending_batch` and `process_result`
-- of oxana/src/coordinator.rs: what becomes of a claimed job. The factories of the registry are code of
-- the user: `build` and `build_batch` stand for its methods, `display` for the texts of errors. Tasks
-- and channels are of tokio: what is sent or handed on is the result. A permit goes with its job. The
-- second part of a result is the error that stops the process.
use Prim.Native.String.{◌++◌ as str_append}
use oxana.Base.{ℕ, String, Bool, true, false, Option, none, some, List, [], ◌∷◌, map, min_of}
use oxana.Base.Lists.{length}
use oxana.Errors.{Result, ok, err, OxanaError}
use oxana.Envelope.{JobEnvelope}
use oxana.Json.{Json}
use oxana.Redis.{Redis}
use oxana.Exec.{Exec, pure, ◌>>=◌, ◌>>◌}
use oxana.Storage.{StorageInternal, kill}
use oxana.Storage.Claimed.{get_claimed_job}
use oxana.Storage.Deletion.{delete_job}
use oxana.Executor.{Settings, Worker, WorkerResultKind, run, run_batch}
use oxana.Collector.{WorkerResult, u64_max}
use oxana.Registry.Batch.{InvalidBatchJob}
use oxana.Coordinator.Batcher.{WorkerBatchConfig}
use oxana.Coordinator.Invalid.{invalid_jobs_by_index, split_invalid}

pub record BatchKey : Type 0 where
  pub worker : String
  pub queue : String

unfoldable pub from_envelope : {V : Type 0} → JobEnvelope V → BatchKey
from_envelope e = record { worker = e.job.name; queue = e.queue }

-- A job that is loaded goes to the batcher of its key, or to a worker of its own.
pub data Routed (V : Type 0) : Type 0 where
  batched : BatchKey → WorkerBatchConfig → JobEnvelope V → Routed V
  single : JobEnvelope V → Routed V

pub record BatchBuild (V Error : Type 0) : Type 0 where
  pub job : Option (Worker V Error)
  pub invalid : List InvalidBatchJob

unfoldable pub process_result :
    {V : Type 0}
    → (WorkerResultKind × Option OxanaError) × ℕ × List (JobEnvelope V)
    → Option WorkerResult × Option OxanaError
process_result ((kind, failure), duration_ms, []) = (none, failure)
process_result ((kind, failure), duration_ms, e ∷ es) = (
  some (record {
    kind = kind;
    worker_name = e.job.name;
    queue = e.queue;
    execution_ms = duration_ms;
    job_count = min_of (length (e ∷ es)) u64_max;
  }),
  failure,
)

abbrev pub invalid_job : String → String → String
invalid_job name error = str_append "Invalid job: " (str_append name (str_append " - " error))

abbrev pub invalid_batch : String → String → String
invalid_batch name error =
    str_append "Invalid job batch: " (str_append name (str_append " - " error))

module _ ⦃R : Redis⦄ {V : Type 0} (J : Json V) (s : StorageInternal) where
  module _ (transient : OxanaError → Bool) (json_queue : String → Option String) (reads : ℕ) where
    -- What is not found has its claim dropped.
    abbrev loaded : String → Option (JobEnvelope V) → Exec R.Db (Option (JobEnvelope V))
    loaded id (some e) = pure (some e)
    loaded id none = do delete_job json_queue s id; pure none

    -- The flag says that the cancellation wins; a read that it cuts short changes nothing.
    unfoldable pub load_pending_job : Bool → String → Exec R.Db (Option (JobEnvelope V))
    unfolding get_claimed_job delete_job
    load_pending_job true id = pure none
    load_pending_job false id = get_claimed_job J transient s reads id >>= loaded id

    abbrev destination :
        (String → Option WorkerBatchConfig) → Option (JobEnvelope V) → Option (Routed V)
    destination batch_config none = none
    destination batch_config (some e) = elim (batch_config e.job.name) [
      | some config ↦ some (batched (from_envelope e) config e)
      | none ↦ some (single e)
    ]

    unfoldable pub route_job :
        (String → Option WorkerBatchConfig) → Bool → String → Exec R.Db (Option (Routed V))
    unfolding load_pending_job from_envelope
    route_job batch_config is_cancelled id = do
      pending ← load_pending_job is_cancelled id
      pure (destination batch_config pending)

  -- Each job is killed with its error, until a kill fails.
  unfoldable pub kill_each :
      (String → String) → List (JobEnvelope V × String) → Exec R.Db (Unit {0})
  kill_each text [] = pure tt
  kill_each text ((e, error) ∷ rest) = do kill J s e (text error); kill_each text rest

  module _ {Error : Type 0} (settings : Settings Error) (clock : String → ℕ)
      (display : OxanaError → String) (now duration_ms : ℕ) where
    unfoldable pub process_pending_job :
        (JobEnvelope V → Result (Worker V Error))
        → JobEnvelope V
        → Exec R.Db (Option WorkerResult × Option OxanaError)
    unfolding process_result
    process_pending_job build e = elim (build e) [
      | err error ↦ do kill J s e (invalid_job e.job.name (display error)); pure (none, none)
      | ok worker ↦ do
        outcome ← run J s settings clock worker now duration_ms e
        pure (process_result outcome)
    ]

    -- The valid jobs of a batch run, if the batch has a worker.
    unfoldable pub run_valid :
        Option (Worker V Error)
        → List (JobEnvelope V)
        → Exec R.Db (Option WorkerResult × Option OxanaError)
    unfolding process_result
    run_valid none valid = pure (none, none)
    run_valid (some worker) valid = do
      outcome ← run_batch J s settings clock worker now duration_ms valid
      pure (process_result outcome)

    -- Without invalid jobs the split leaves the batch as it is.
    unfoldable pub process_built :
        String
        → List (JobEnvelope V)
        → Result (BatchBuild V Error)
        → Exec R.Db (Option WorkerResult × Option OxanaError)
    unfolding kill_each run_valid invalid_jobs_by_index split_invalid
    process_built worker_name pending (err error) = do
      kill_each (λ message. message)
          (map (λ e. (e, invalid_batch worker_name (display error))) pending)
      pure (none, none)
    process_built worker_name pending (ok batch) = do
      let (valid, invalid) =
          split_invalid (invalid_jobs_by_index batch.invalid (length pending)) 0 pending
      kill_each (invalid_job worker_name) invalid
      run_valid batch.job valid

    unfoldable pub process_pending_batch :
        (String → List V → Result (BatchBuild V Error))
        → List (JobEnvelope V)
        → Exec R.Db (Option WorkerResult × Option OxanaError)
    unfolding process_built
    process_pending_batch build_batch [] = pure (none, none)
    process_pending_batch build_batch (first ∷ rest) =
        process_built first.job.name (first ∷ rest)
          (build_batch first.job.name (map (λ e. e.job.args) (first ∷ rest)))
