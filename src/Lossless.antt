-- ===== src/Lossless.antt =====
-- The places of jobs after the operations of oxana/src/storage_internal.rs and
-- oxana/src/executor.rs, over every world, that is whatever other clients do before a round trip and
-- whatever becomes of the round trip. What the other clients do is limited by a predicate on their
-- acts. A stored job has a place if its identifier stands in a list other than the one of dead jobs,
-- or in one of the sorted sets, and its payload does not name the list of dead jobs as its queue.
use oxana.Base.{ℕ, String, true, Option, none, List, [], ◌∷◌, ◌≡◌, ◌≢◌, refl, str_eq, eq_refl}
use oxana.Base.Lists.{elem}
use oxana.Redis.{Redis}
use oxana.Envelope.{JobEnvelope}
use oxana.Json.{Json}
use oxana.Exec.{Exec, World}
use oxana.Exec.Triple.{Granted, Triple, Stable, Outcome-safe}
use oxana.Scripts.{hget}
use oxana.Safety.Places.{or_true}
use oxana.Safety.Scripts.{Safe}
use oxana.Safety.Operations.{
  dequeue-Safe, finish_with_success_batch-Safe, kill-Safe, enqueue_scheduled-Safe,
  retry_all_now-Safe,
}
use oxana.Safety.Retry.{retry_in-Safe}
use oxana.Storage.{
  StorageInternal, current_processing_queue, dequeue, finish_with_success_batch, kill, retry_in,
  enqueue_scheduled, retry_all_now,
}
use oxana.Recovery.{resurrect}
use oxana.Recovery.Safe.{OwnKeys, resurrect-Safe}
use oxana.Enqueue.{JobDestination}
use oxana.Enqueue.Chunk.{Raw, any_unique}
use oxana.Enqueue.Requests.{enqueue_chunk_w_conn}
use oxana.Enqueue.Unique.{Queued, enqueue_chunk-Safe}
use oxana.Executor.{Worker, Settings, run_batch}
use oxana.Executor.Safe.{GoneStable, ids_of}
use oxana.Executor.Start.{Held, run_batch-Safe}

module _ ⦃R : Redis⦄ {V : Type 0} (J : Json V) (s : StorageInternal) where
  -- An act of another client that loses no job.
  abbrev pub Keeping : (R.Db → R.Db) → Type 0
  Keeping f = (d : R.Db) → Safe J s.keys d → Safe J s.keys (f d)

  kept :
      {A : Type 0} {G : (R.Db → R.Db) → Type 0} (stable : Stable G (Safe J s.keys) (Safe J s.keys))
      {Q : A → Type 0} {P : R.Db → Type 0} (m : Exec R.Db A)
      → Triple G (Safe J s.keys) P m (λ a d. Q a × Safe J s.keys d)
      → (w : World R.Db) → P w.db
      → Granted G w.turns
      → Safe J s.keys (m w).1.db
  kept {G = G} stable m t w p g = Outcome-safe G (Safe J s.keys) _ (m w).0 (m w).1.db (t.at w p g).1

  keeping : Stable Keeping (Safe J s.keys) (Safe J s.keys)
  keeping f g d p = g d p

  -- If every stored job has a place at first and no act of another client changes that, every
  -- stored job has a place after `dequeue`, whatever becomes of its round trips; the claims of this
  -- process do not stand in the list of dead jobs.
  pub dequeue-keeps :
      (queue : String) (w : World R.Db)
      → current_processing_queue s ≢ s.keys.dead
      → Granted Keeping w.turns
      → Safe J s.keys w.db
      → Safe J s.keys (dequeue s queue w).1.db
  dequeue-keeps queue w live g p =
      kept keeping (dequeue s queue) (dequeue-Safe J s Keeping keeping queue live) w p g

  -- If every stored job has a place at first and no act of another client changes that, every
  -- stored job has a place after `finish_with_success_batch`, whatever becomes of its round trips.
  pub finish_with_success_batch-keeps :
      (es : List (JobEnvelope V)) (w : World R.Db)
      → Granted Keeping w.turns
      → Safe J s.keys w.db
      → Safe J s.keys (finish_with_success_batch s es w).1.db
  finish_with_success_batch-keeps es w g p =
      kept keeping (finish_with_success_batch s es)
        (finish_with_success_batch-Safe J s Keeping keeping es) w p g

  -- If every stored job has a place at first and no act of another client changes that, every
  -- stored job has a place after `kill`, whatever becomes of its round trips.
  pub kill-keeps :
      (e : JobEnvelope V) (error : String) (w : World R.Db)
      → Granted Keeping w.turns
      → Safe J s.keys w.db
      → Safe J s.keys (kill J s e error w).1.db
  kill-keeps e error w g p =
      kept keeping (kill J s e error) (kill-Safe J s Keeping keeping e error) w p g

  -- An act that loses no job and stores none under a name whose payload is gone.
  abbrev pub Retaining : String → (R.Db → R.Db) → Type 0
  Retaining id f =
      (d : R.Db)
      → Safe J s.keys d
      → Safe J s.keys (f d) × (hget d s.keys.jobs id ≡ none → hget (f d) s.keys.jobs id ≡ none)

  -- If every stored job has a place at first and no act of another client changes that or stores
  -- this job once it is gone, every stored job has a place after `retry_in`, whatever becomes of
  -- its round trips.
  pub retry_in-keeps :
      (id error : String) (delay_s now : ℕ) (w : World R.Db)
      → Granted (Retaining id) w.turns
      → Safe J s.keys w.db
      → Safe J s.keys (retry_in J s id delay_s error now w).1.db
  retry_in-keeps id error delay_s now w g p =
      kept (λ f h d q. (h d q).0) (retry_in J s id delay_s error now)
        (retry_in-Safe J s (Retaining id) (λ f h d q. (h d q).0) id error now delay_s
          (λ f h d q. ((h d q.1).1 q.0, (h d q.1).0)))
        w p g

  -- If every stored job has a place at first and no act of another client changes that, every
  -- stored job has a place after the promotion of the jobs that are due, from the schedule or the
  -- retries, whatever becomes of its round trips.
  pub enqueue_scheduled-keeps :
      (scheduled : String) (now : ℕ) (w : World R.Db)
      → Granted Keeping w.turns
      → Safe J s.keys w.db
      → Safe J s.keys (enqueue_scheduled J s scheduled now w).1.db
  enqueue_scheduled-keeps scheduled now w g p =
      kept keeping (enqueue_scheduled J s scheduled now)
        (enqueue_scheduled-Safe J s Keeping keeping scheduled now) w p g

  -- If every stored job has a place at first and no act of another client changes that, every
  -- stored job has a place after the promotion of all retries, whatever becomes of its round trips.
  pub retry_all_now-keeps :
      (w : World R.Db)
      → Granted Keeping w.turns
      → Safe J s.keys w.db
      → Safe J s.keys (retry_all_now J s w).1.db
  retry_all_now-keeps w g p =
      kept keeping (retry_all_now J s) (retry_all_now-Safe J s Keeping keeping) w p g

  -- If every stored job has a place at first and no act of another client changes that, every
  -- stored job has a place after the recovery from dead processes, whatever becomes of its round
  -- trips; the records of processes have keys of their own.
  pub resurrect-keeps :
      (dead_process_threshold now : ℕ) (w : World R.Db)
      → OwnKeys s.keys
      → Granted Keeping w.turns
      → Safe J s.keys w.db
      → Safe J s.keys (resurrect J s dead_process_threshold now w).1.db
  resurrect-keeps dead_process_threshold now w own g p =
      kept keeping (resurrect J s dead_process_threshold now)
        (resurrect-Safe J s Keeping keeping own dead_process_threshold now) w p g

  -- If every stored job has a place at first and no act of another client changes that, every
  -- stored job has a place after the enqueueing of a chunk with a unique job, whether it writes,
  -- skips, replaces or fails, on any fuel; no job of the chunk names the list of dead jobs as its
  -- queue.
  pub enqueue_chunk-keeps :
      (raw_queue : String → Option Raw) (fuel : ℕ) (destination : JobDestination)
      (es : List (JobEnvelope V)) (written : List String) (w : World R.Db)
      → any_unique es ≡ true
      → Queued s.keys es
      → Granted Keeping w.turns
      → Safe J s.keys w.db
      → Safe J s.keys (enqueue_chunk_w_conn J raw_queue s fuel destination es written w).1.db
  enqueue_chunk-keeps raw_queue fuel destination es written w unique queued g p =
      kept keeping (enqueue_chunk_w_conn J raw_queue s fuel destination es written)
        (enqueue_chunk-Safe J raw_queue s Keeping keeping fuel destination es written unique queued)
        w p g

  -- An act that loses no job, stores none of the batch anew and takes none of its claims.
  abbrev pub Respecting : List (JobEnvelope V) → (R.Db → R.Db) → Type 0
  Respecting es f =
      (d : R.Db)
      → Safe J s.keys d
      → Safe J s.keys (f d)
        × ((i : String)
            → elem i (ids_of es) ≡ true
            → hget d s.keys.jobs i ≡ none
            → hget (f d) s.keys.jobs i ≡ none)
        × (Held s d es → Held s (f d) es)

  respecting : (es : List (JobEnvelope V)) → Stable (Respecting es) (Safe J s.keys) (Safe J s.keys)
  respecting es f h d p = (h d p).0

  gone_stable :
      (es : List (JobEnvelope V)) (ids : List String)
      → ((i : String) → elem i ids ≡ true → elem i (ids_of es) ≡ true)
      → GoneStable J s (Respecting es) (respecting es) ids
  unfolding elem
  gone_stable es [] sub = tt
  gone_stable es (id ∷ ids) sub = (
    λ f h d p. ((h d p.1).1 id (sub id (rw (eq_refl id) refl)) p.0, (h d p.1).0),
    gone_stable es ids λ i e. sub i (rw e (or_true (str_eq id i))),
  )

  -- If every stored job has a place at first, this process holds a claim of each job of the batch,
  -- its claims do not stand in the list of dead jobs, and no act of another client loses a job,
  -- takes these claims or stores a job of the batch once it is gone, then every stored job has a
  -- place after `run_batch`, whatever the worker's result, a panic included, and whatever becomes
  -- of its round trips.
  pub run_batch-keeps :
      {Error : Type 0} (settings : Settings Error) (clock : String → ℕ) (worker : Worker V Error)
      (now duration_ms : ℕ) (es : List (JobEnvelope V)) (w : World R.Db)
      → current_processing_queue s ≢ s.keys.dead
      → Held s w.db es
      → Granted (Respecting es) w.turns
      → Safe J s.keys w.db
      → Safe J s.keys (run_batch J s settings clock worker now duration_ms es w).1.db
  run_batch-keeps settings clock worker now duration_ms es w live held g p =
      kept (respecting es) (run_batch J s settings clock worker now duration_ms es)
        (run_batch-Safe J s (Respecting es) (respecting es) live settings clock worker now
          duration_ms es (gone_stable es (ids_of es) λ i e. e)
          (λ f h d q. ((h d q.0).0, (h d q.0).2 q.1)))
        w (p, held) g
