-- ===== src/Enqueue/Try.antt =====
-- `try_enqueue` of oxana/src/storage_internal.rs for a unique job that gives way, for a client that is
-- alone with a connection that holds and keys of the right kinds.
use oxana.Base.{
  ℕ, suc, String, true, false, Option, none, some, [], ◌∷◌, ◌≡◌, refl, ◌∙◌, str_eq, eq_refl,
  if◌then◌else◌, ◌||◌, not,
}
use oxana.Base.Lists.{elem}
use oxana.Redis.{Redis, hash, list}
use oxana.Errors.{ok}
use oxana.Envelope.{JobEnvelope, JobConflictStrategy}
use oxana.Json.{Json}
use oxana.Keys.{namespace_queue}
use oxana.Exec.{Exec, alone, ◌>>=◌, pure, fail, round_trip}
use oxana.Scripts.{hget, checked}
use oxana.Storage.{StorageInternal, connection}
use oxana.Enqueue.{queue, Input, lookup, Conflict, EnqueueOutcome}
use oxana.Enqueue.Script.{enqueue_script, plan, commit, write_one, clear_places, require_types}
use oxana.Enqueue.Chunk.{Raw, pending_of, replacement_ids, parse_snapshots, conflict_of}
use oxana.Enqueue.Requests.{
  try_enqueue, enqueue_chunk_w_conn, send_pending, read_snapshots, drop_existing, ask_existing,
  input_arg, invoke,
}

module _ ⦃R : Redis⦄ {V : Type 0} (J : Json V) (raw_queue : String → Option Raw)
    (s : StorageInternal) where
  -- Alone, for a unique job with the conflict strategy `Skip`, if a job under its identifier is
  -- stored, nothing is written and the answer is none.
  pub try_enqueue-existing :
      (fuel : ℕ) (e : JobEnvelope V) (payload : String) (d : R.Db)
      → e.meta.unique ≡ true
      → e.meta.on_conflict ≡ some JobConflictStrategy.skip
      → R.fits d s.keys.jobs hash ≡ true
      → hget d s.keys.jobs e.id ≡ some payload
      → alone (try_enqueue J raw_queue s fuel e) d ≡ (ok none, d)
  unfolding alone try_enqueue connection ◌>>=◌ round_trip pure fail checked enqueue_chunk_w_conn
      send_pending pending_of replacement_ids read_snapshots parse_snapshots drop_existing
      ask_existing elem
  try_enqueue-existing fuel e payload d unique conflict fits stored =
      rw (unique, conflict, fits, stored) refl

  script-fresh :
      (i : Input) (d : R.Db)
      → i.conflict ≡ Conflict.skip
      → R.fits d s.keys.jobs hash ≡ true
      → R.fits d i.queue_key list ≡ true
      → str_eq s.keys.jobs i.queue_key ≡ false
      → hget d s.keys.jobs i.id ≡ none
      → enqueue_script s.keys.jobs s.keys.schedule s.keys.retry queue [] (i ∷ []) d ≡ (
        ok ([], EnqueueOutcome.enqueued ∷ []),
        R.lpush i.queue_key i.id (R.hset s.keys.jobs i.id i.payload d),
      )
  unfolding enqueue_script plan commit write_one clear_places require_types checked
  script-fresh i d conflict fits_jobs fits_queue differ absent =
      rw (conflict, fits_jobs, absent, require_types, lookup, differ, fits_queue) refl

  conflict_lem :
      (e : JobEnvelope V)
      → e.meta.unique ≡ true
      → e.meta.on_conflict ≡ some JobConflictStrategy.skip
      → conflict_of e ≡ Conflict.skip
  conflict_lem e unique conflict = rw (unique, conflict) refl

  -- The rest of `try_enqueue` behind the question whether the job exists.
  abbrev insert : ℕ → JobEnvelope V → Exec R.Db (Option String)
  insert fuel e = invoke J raw_queue s fuel queue [] (e ∷ []) [] >>= λ written.
      pure (if not e.meta.unique || elem e.id written then some e.id else none)

  asked :
      (fuel : ℕ) (e : JobEnvelope V) (d : R.Db)
      → e.meta.unique ≡ true
      → e.meta.on_conflict ≡ some JobConflictStrategy.skip
      → R.fits d s.keys.jobs hash ≡ true
      → hget d s.keys.jobs e.id ≡ none
      → alone (try_enqueue J raw_queue s fuel e) d ≡ alone (insert fuel e) d
  unfolding alone try_enqueue connection ◌>>=◌ round_trip pure fail checked enqueue_chunk_w_conn
      send_pending pending_of replacement_ids read_snapshots parse_snapshots drop_existing
      ask_existing elem
  asked fuel e d unique conflict fits absent = rw (unique, conflict, fits, absent) refl

  inserted :
      (fuel : ℕ) (e : JobEnvelope V) (d : R.Db)
      → enqueue_script s.keys.jobs s.keys.schedule s.keys.retry queue []
          (input_arg J raw_queue s e ∷ [])
          d
        ≡ (
          ok ([], EnqueueOutcome.enqueued ∷ []),
          R.lpush (namespace_queue s.keys e.queue) e.id (R.hset s.keys.jobs e.id (J.to_string e) d),
        )
      → e.meta.unique ≡ true
      → alone (insert (suc fuel) e) d ≡ (
        ok (some e.id),
        R.lpush (namespace_queue s.keys e.queue) e.id (R.hset s.keys.jobs e.id (J.to_string e) d),
      )
  unfolding alone ◌>>=◌ round_trip pure fail invoke elem
  inserted fuel e d script unique = rw (script, unique, eq_refl e.id) refl

  -- Alone, for a unique job with the conflict strategy `Skip`, if no job under its identifier is
  -- stored, the jobs and the queue have different keys and these hold what they are for, it is
  -- stored, its identifier stands first in its queue, and the answer is the identifier. One call of
  -- the script is enough.
  pub try_enqueue-fresh :
      (fuel : ℕ) (e : JobEnvelope V) (d : R.Db)
      → e.meta.unique ≡ true
      → e.meta.on_conflict ≡ some JobConflictStrategy.skip
      → R.fits d s.keys.jobs hash ≡ true
      → R.fits d (namespace_queue s.keys e.queue) list ≡ true
      → str_eq s.keys.jobs (namespace_queue s.keys e.queue) ≡ false
      → hget d s.keys.jobs e.id ≡ none
      → alone (try_enqueue J raw_queue s (suc fuel) e) d ≡ (
        ok (some e.id),
        R.lpush (namespace_queue s.keys e.queue) e.id (R.hset s.keys.jobs e.id (J.to_string e) d),
      )
  try_enqueue-fresh fuel e d unique conflict fits_jobs fits_queue differ absent =
      asked (suc fuel) e d unique conflict fits_jobs absent
      ∙ inserted fuel e d
          (script-fresh (input_arg J raw_queue s e) d (conflict_lem e unique conflict) fits_jobs
            fits_queue differ absent)
          unique
