-- ===== src/Coordinator/Batches.antt =====
-- What the batcher of oxana/src/coordinator.rs makes of the jobs that it receives.
use mathlib.Core.List.{append_assoc, append-nil}
use oxana.Base.{
  ℕ, ◌≤◌, ◌<◌, Bool, true, false, List, [], ◌∷◌, ◌++◌, ◌≡◌, refl, sym, ◌∙◌, ap, arith, leb, ◌||◌,
  ◌&&◌, if◌then◌else◌,
}
use oxana.Base.Lists.{length, length-append}
use oxana.Coordinator.Batcher.{
  WorkerBatchConfig, Event, received, closed, timed_out, cancelled, Spawned, spawn_batch,
  flush_batcher, is_empty, run_batcher,
}

roomy : (size n : ℕ) (b : Bool) → leb size n || b ≡ false → n < size
roomy size n b e = ground (arith, e)

module _ {ℓ} {Job : Type ℓ} where
  abbrev pub concat : List (List Job) → List Job
  concat [] = []
  concat (b ∷ bs) = b ++ concat bs

  -- The jobs that reach the task before it ends.
  abbrev pub jobs_of : List (Event Job) → List Job
  jobs_of [] = []
  jobs_of (received job ∷ events) = job ∷ jobs_of events
  jobs_of (closed ∷ events) = []
  jobs_of (timed_out ∷ events) = jobs_of events
  jobs_of (cancelled rx ∷ events) = rx

  -- Every job of a result, the held ones last.
  abbrev pub all_of : Spawned Job → List Job
  all_of (batches, held) = concat batches ++ held

  all-spawn :
      (pending : List Job) (rest : Spawned Job)
      → all_of (spawn_batch pending rest) ≡ pending ++ all_of rest
  all-spawn [] rest = refl
  all-spawn (j ∷ js) (batches, held) = append_assoc (j ∷ js) (concat batches) held

  all-if :
      (b : Bool) (x y : Spawned Job) {z : List Job}
      → all_of x ≡ z
      → all_of y ≡ z
      → all_of (if b then x else y) ≡ z
  all-if true x y h k = h
  all-if false x y h k = k

  -- A job that is received stands behind those that are held.
  behind :
      (pending : List Job) (job : Job) (rest : List Job) {x : List Job}
      → x ≡ (pending ++ job ∷ []) ++ rest
      → x ≡ pending ++ job ∷ rest
  behind pending job rest h = h ∙ append_assoc pending (job ∷ []) rest

  all-flush :
      (size : ℕ) (rx pending : List Job) → all_of (flush_batcher size rx pending) ≡ pending ++ rx
  unfolding flush_batcher
  all-flush size [] pending = all-spawn pending ([], [])
  all-flush size (job ∷ rx) pending =
      all-if (leb size (length (pending ++ job ∷ [])))
        (spawn_batch (pending ++ job ∷ []) (flush_batcher size rx []))
        (flush_batcher size rx (pending ++ job ∷ []))
        (behind pending job rx (
          all-spawn (pending ++ job ∷ []) (flush_batcher size rx [])
          ∙ ap (λ js. (pending ++ job ∷ []) ++ js) (all-flush size rx [])))
        (behind pending job rx (all-flush size rx (pending ++ job ∷ [])))

  -- The jobs held at first and those that the task receives stand in its batches, the ones still
  -- held after them, in the order of arrival.
  pub run_batcher-whole :
      (config : WorkerBatchConfig) (events : List (Event Job)) (pending : List Job)
      → all_of (run_batcher config events pending) ≡ pending ++ jobs_of events
  unfolding run_batcher
  run_batcher-whole config [] pending = sym (append-nil pending)
  run_batcher-whole config (received job ∷ events) pending =
      all-if
        (leb config.size (length (pending ++ job ∷ []))
          || (is_empty pending && config.timeout_is_zero))
        (spawn_batch (pending ++ job ∷ []) (run_batcher config events []))
        (run_batcher config events (pending ++ job ∷ []))
        (behind pending job (jobs_of events) (
          all-spawn (pending ++ job ∷ []) (run_batcher config events [])
          ∙ ap (λ js. (pending ++ job ∷ []) ++ js) (run_batcher-whole config events [])))
        (behind pending job (jobs_of events)
          (run_batcher-whole config events (pending ++ job ∷ [])))
  run_batcher-whole config (closed ∷ events) pending = all-spawn pending ([], [])
  run_batcher-whole config (timed_out ∷ events) pending =
      all-spawn pending (run_batcher config events [])
      ∙ ap (λ js. pending ++ js) (run_batcher-whole config events [])
  run_batcher-whole config (cancelled rx ∷ events) pending = all-flush config.size rx pending

  -- Each batch has a job, and at most `size`.
  abbrev pub Sized : ℕ → List (List Job) → Type 0
  Sized size [] = Unit {0}
  Sized size (b ∷ bs) = (0 < length b) × (length b ≤ size) × Sized size bs

  Sized-spawn :
      (size : ℕ) (pending : List Job) (rest : Spawned Job)
      → length pending ≤ size
      → Sized size rest.0
      → Sized size (spawn_batch pending rest).0
  Sized-spawn size [] rest h s = s
  Sized-spawn size (j ∷ js) (batches, held) h s = (omega arith, h, s)

  Sized-if :
      (size : ℕ) (b : Bool) (x y : Spawned Job)
      → Sized size x.0
      → (b ≡ false → Sized size y.0)
      → Sized size (if b then x else y).0
  Sized-if size true x y h k = h
  Sized-if size false x y h k = k refl

  grown :
      (size : ℕ) (pending : List Job) (job : Job)
      → length pending < size
      → length (pending ++ job ∷ []) ≤ size
  grown size pending job h = omega (arith, length-append pending (job ∷ []))

  Sized-flush :
      (size : ℕ) (rx pending : List Job)
      → length pending < size
      → Sized size (flush_batcher size rx pending).0
  unfolding flush_batcher
  Sized-flush size [] pending h = Sized-spawn size pending ([], []) (omega arith) tt
  Sized-flush size (job ∷ rx) pending h =
      Sized-if size (leb size (length (pending ++ job ∷ []))) _ _
        (Sized-spawn size (pending ++ job ∷ []) _ (grown size pending job h)
          (Sized-flush size rx [] (omega arith)))
        (λ room. Sized-flush size rx (pending ++ job ∷ []) (ground (arith, room)))

  -- If fewer jobs than the configured size are held at first, no batch is empty or larger than that
  -- size.
  pub run_batcher-Sized :
      (config : WorkerBatchConfig) (events : List (Event Job)) (pending : List Job)
      → length pending < config.size
      → Sized config.size (run_batcher config events pending).0
  unfolding run_batcher
  run_batcher-Sized config [] pending h = tt
  run_batcher-Sized config (received job ∷ events) pending h =
      Sized-if config.size
        (leb config.size (length (pending ++ job ∷ []))
          || (is_empty pending && config.timeout_is_zero))
        _ _
        (Sized-spawn config.size (pending ++ job ∷ []) _ (grown config.size pending job h)
          (run_batcher-Sized config events [] (omega arith)))
        (λ room. run_batcher-Sized config events (pending ++ job ∷ []) (roomy config.size _ _ room))
  run_batcher-Sized config (closed ∷ events) pending h =
      Sized-spawn config.size pending ([], []) (omega arith) tt
  run_batcher-Sized config (timed_out ∷ events) pending h =
      Sized-spawn config.size pending _ (omega arith)
        (run_batcher-Sized config events [] (omega arith))
  run_batcher-Sized config (cancelled rx ∷ events) pending h = Sized-flush config.size rx pending h

  abbrev pub ends : List (Event Job) → Bool
  ends [] = false
  ends (received job ∷ events) = ends events
  ends (closed ∷ events) = true
  ends (timed_out ∷ events) = ends events
  ends (cancelled rx ∷ events) = true

  spawn-held : (pending : List Job) (rest : Spawned Job) → (spawn_batch pending rest).1 ≡ rest.1
  spawn-held [] rest = refl
  spawn-held (j ∷ js) (batches, held) = refl

  held-if : (b : Bool) (x y : Spawned Job) → x.1 ≡ [] → y.1 ≡ [] → (if b then x else y).1 ≡ []
  held-if true x y h k = h
  held-if false x y h k = k

  flush-held : (size : ℕ) (rx pending : List Job) → (flush_batcher size rx pending).1 ≡ []
  unfolding flush_batcher
  flush-held size [] pending = spawn-held pending ([], [])
  flush-held size (job ∷ rx) pending =
      held-if (leb size (length (pending ++ job ∷ [])))
        (spawn_batch (pending ++ job ∷ []) (flush_batcher size rx []))
        (flush_batcher size rx (pending ++ job ∷ []))
        (spawn-held (pending ++ job ∷ []) _ ∙ flush-held size rx [])
        (flush-held size rx (pending ++ job ∷ []))

  -- No job is held when the events end the task, by the channel's end or by a cancellation.
  pub run_batcher-ended :
      (config : WorkerBatchConfig) (events : List (Event Job)) (pending : List Job)
      → ends events ≡ true
      → (run_batcher config events pending).1 ≡ []
  unfolding run_batcher
  run_batcher-ended config [] pending h = cc
  run_batcher-ended config (received job ∷ events) pending h =
      held-if
        (leb config.size (length (pending ++ job ∷ []))
          || (is_empty pending && config.timeout_is_zero))
        (spawn_batch (pending ++ job ∷ []) (run_batcher config events []))
        (run_batcher config events (pending ++ job ∷ []))
        (spawn-held (pending ++ job ∷ []) _ ∙ run_batcher-ended config events [] h)
        (run_batcher-ended config events (pending ++ job ∷ []) h)
  run_batcher-ended config (closed ∷ events) pending h = spawn-held pending ([], [])
  run_batcher-ended config (timed_out ∷ events) pending h =
      spawn-held pending _ ∙ run_batcher-ended config events [] h
  run_batcher-ended config (cancelled rx ∷ events) pending h = flush-held config.size rx pending
