-- ===== src/Drainer.antt =====
-- oxana/src/drainer.rs: a queue is drained one job after another. The registry and the workers are the
-- user's: `build` is the worker of an envelope, whether it resumes and what it makes of the job's
-- metadata, `none` for a success; a worker that panics is left out, and so are the heartbeat and the
-- record of the process. The counts are of `u64`, and wrap as in a release build.
pub mod Below
pub mod Counts
pub mod Ends
use oxana.Base.{
  ℕ, zero, suc, ◌+◌, String, Bool, true, false, Option, none, some, List, [], ◌∷◌, not,
}
use oxana.Errors.{Result, ok, err, OxanaError}
use oxana.Envelope.{JobEnvelope, JobMeta}
use oxana.Json.{Json}
use oxana.Redis.{Redis}
use oxana.Exec.{Exec, pure, fail, ◌>>=◌, ◌>>◌}
use oxana.Executor.{cleared}
use oxana.Storage.{
  StorageInternal, dequeue, get_job, update_job, finish_with_success, kill, lift, u64,
}

pub data ProcessJobResult : Type 0 where
  success failed missing : ProcessJobResult

pub record DrainStats : Type 0 where
  pub processed : ℕ
  pub succeeded : ℕ
  pub failed : ℕ
  pub missing : ℕ

pub record DrainWorker (V Error : Type 0) : Type 0 where
  pub should_resume : Bool
  pub process : JobMeta V → Option Error

abbrev pub no_drain_stats : DrainStats
no_drain_stats = record { processed = 0; succeeded = 0; failed = 0; missing = 0 }

abbrev pub counted : ProcessJobResult → DrainStats → DrainStats
counted success s = record s {
  processed = u64 (s.processed + 1);
  succeeded = u64 (s.succeeded + 1);
}
counted failed s = record s { processed = u64 (s.processed + 1); failed = u64 (s.failed + 1) }
counted missing s = record s { processed = u64 (s.processed + 1); missing = u64 (s.missing + 1) }

module _ ⦃R : Redis⦄ {V Error : Type 0} (J : Json V) (s : StorageInternal)
    (build : JobEnvelope V → Result (DrainWorker V Error)) (format_error : Error → String) where
  -- The state of a job that does not resume is cleared in its payload too.
  unfoldable pub start_over : Bool → JobEnvelope V → Exec R.Db (JobEnvelope V)
  start_over true e = pure e
  start_over false e = do update_job J s (cleared e); pure (cleared e)

  unfoldable pub finish_job : JobEnvelope V → Option Error → Exec R.Db ProcessJobResult
  finish_job e none = do finish_with_success s e; pure success
  finish_job e (some error) = do kill J s e (format_error error); pure failed

  unfoldable pub process_envelope : Option (JobEnvelope V) → Exec R.Db ProcessJobResult
  unfolding start_over finish_job
  process_envelope none = pure missing
  process_envelope (some e) = do
    worker ← lift (build e)
    started ← start_over worker.should_resume e
    finish_job started (worker.process started.meta)

  unfoldable pub process_job : String → Exec R.Db ProcessJobResult
  unfolding process_envelope
  process_job id = get_job J s id >>= process_envelope

  -- The loop on fuel; `none` is a loop that has not come to its end.
  unfoldable pub drain_queue : ℕ → String → DrainStats → Exec R.Db (Option DrainStats)
  unfolding process_job
  drain_queue zero queue_key stats = pure none
  drain_queue (suc fuel) queue_key stats = dequeue s queue_key >>= λ found. elim found [
    | none ↦ pure (some stats)
    | some id ↦ process_job id >>= λ r. drain_queue fuel queue_key (counted r stats)
  ]
