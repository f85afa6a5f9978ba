-- ===== src/Coordinator/Batcher.antt =====
-- `run_batcher`, `flush_batcher` and `spawn_batch` of oxana/src/coordinator.rs. What happens to the
-- task comes as a list of events; a batch that is spawned runs on its own. A timeout is only waited
-- for while a job is held, and an event after the task's end is not looked at.
use oxana.Base.{ℕ, Bool, true, false, List, [], ◌∷◌, ◌++◌, ◌&&◌, ◌||◌, leb, if◌then◌else◌}
use oxana.Base.Lists.{length}

pub record WorkerBatchConfig : Type 0 where
  pub size : ℕ
  pub timeout_is_zero : Bool

-- A cancellation comes with the jobs that stand in the channel when it is closed.
pub data Event {ℓ} (Job : Type ℓ) : Type ℓ where
  received : Job → Event Job
  closed timed_out : Event Job
  cancelled : List Job → Event Job

-- The batches in the order in which they are spawned, and the jobs that are held at the end.
abbrev pub Spawned {ℓ} : Type ℓ → Type ℓ
Spawned Job = List (List Job) × List Job

module _ {ℓ} {Job : Type ℓ} where
  abbrev pub spawn_batch : List Job → Spawned Job → Spawned Job
  spawn_batch [] rest = rest
  spawn_batch (j ∷ js) (batches, held) = ((j ∷ js) ∷ batches, held)

  unfoldable pub flush_batcher : ℕ → List Job → List Job → Spawned Job
  flush_batcher size [] pending = spawn_batch pending ([], [])
  flush_batcher size (job ∷ rx) pending =
      let pending' = pending ++ job ∷ [] in
      let full = spawn_batch pending' (flush_batcher size rx []) in
      let room = flush_batcher size rx pending' in if leb size (length pending') then full else room

  abbrev pub is_empty : List Job → Bool
  is_empty [] = true
  is_empty (j ∷ js) = false

  unfoldable pub run_batcher : WorkerBatchConfig → List (Event Job) → List Job → Spawned Job
  unfolding flush_batcher
  run_batcher config [] pending = ([], pending)
  run_batcher config (received job ∷ events) pending =
      let pending' = pending ++ job ∷ [] in
      let full = spawn_batch pending' (run_batcher config events []) in
      let room = run_batcher config events pending' in
      if leb config.size (length pending') || (is_empty pending && config.timeout_is_zero)
      then full
      else room
  run_batcher config (closed ∷ events) pending = spawn_batch pending ([], [])
  run_batcher config (timed_out ∷ events) pending =
      spawn_batch pending (run_batcher config events [])
  run_batcher config (cancelled rx ∷ events) pending = flush_batcher config.size rx pending
