-- ===== src/Storage/Alone.antt =====
-- `kill`, `dequeue` and `finish_with_success_batch` of oxana/src/storage_internal.rs for a client that
-- is alone with a connection that holds and keys of the right kinds.
use mathlib.Core.List.{drop_last, get_last?}
use oxana.Base.{
  ◌-◌, String, true, Option, none, some, List, [], ◌∷◌, ◌≡◌, ◌≢◌, refl, sym, ◌∙◌, ap, arith, str_eq,
  eq_refl, unwrap_or, map, if◌then◌else◌,
}
use oxana.Base.Lists.{count, elem, remove_first, count-remove_first}
use oxana.Redis.{Redis, hash, list, set_list}
use oxana.Errors.{Result, ok}
use oxana.Envelope.{JobEnvelope, with_error}
use oxana.Envelope.Laws.{IsKilledFrom, with_error-IsKilledFrom}
use oxana.Json.{Json}
use oxana.Keys.{namespace_queue}
use oxana.Exec.{alone, ◌>>=◌, round_trip}
use oxana.Scripts.{hget, lrange, checked, finish_success, release_all}
use oxana.Storage.{
  StorageInternal, current_processing_queue, kill, dequeue, lmove, lmove_found,
  finish_with_success_batch, claimed_connection, connection,
}
use oxana.Storage.Endings.{Dead, finish_dead-Dead, differ}

module _ ⦃R : Redis⦄ where
  -- Alone, if the keys hold what they are for and the claims are not the list of dead jobs, `kill`
  -- of a job succeeds: the newest of the dead jobs is the text of an envelope with the error and with the
  -- same identifier, job, queue, retries and state; no more than the limit are kept if there is one, the
  -- job is stored no longer, and one claim of it is gone.
  pub kill-Dead :
      {V : Type 0} (J : Json V) (s : StorageInternal) (e : JobEnvelope V) (error : String)
      (d : R.Db)
      → R.fits d s.keys.jobs hash ≡ true
      → R.fits d s.keys.dead list ≡ true
      → R.fits d (current_processing_queue s) list ≡ true
      → current_processing_queue s ≢ s.keys.dead
      → (e' : JobEnvelope V) × IsKilledFrom e error e'
        × Dead s.keys.jobs s.keys.dead
            (current_processing_queue s)
            e.id
            (J.to_string e')
            d
            (unwrap_or s.dead_job_limit 0)
            (alone (kill J s e error) d)
  unfolding alone kill claimed_connection connection ◌>>=◌ round_trip with_error
  kill-Dead J s e error d fits_jobs fits_dead fits_claims ne = (
    with_error e error,
    with_error-IsKilledFrom e error,
    finish_dead-Dead s.keys.jobs s.keys.dead (current_processing_queue s) e.id _ d
        (unwrap_or s.dead_job_limit 0) fits_jobs fits_dead fits_claims ne,
  )

  -- The oldest entry of a queue is claimed.
  pub record Claimed (source target id : String) (d : R.Db) (out : Result (Option String) × R.Db)
      : Type 0 where
    pub answer : out.0 ≡ ok (some id)
    pub rest : lrange out.1 source ≡ drop_last (lrange d source)
    pub claim : lrange out.1 target ≡ id ∷ lrange d target

  view-moved :
      (source target id : String) (d : R.Db)
      → R.view (R.lpush target id (R.rpop source d)) ≡ (
          let w = set_list source (drop_last (lrange d source)) (R.view d) in
          set_list target (id ∷ w.lists target) w)
  view-moved source target id d =
      R.view-lpush target id (R.rpop source d)
      ∙ ap (λ w. set_list target (id ∷ w.lists target) w) (R.view-rpop source d)

  lmove-Claimed :
      (source target id : String) (d : R.Db)
      → R.fits d source list ≡ true
      → R.fits d target list ≡ true
      → source ≢ target
      → get_last? (lrange d source) ≡ some id
      → Claimed source target id d (lmove source target d)
  unfolding lmove checked
  lmove-Claimed source target id d fits_source fits_target ne last =
      rw (fits_source, last, lmove_found, fits_target)
        (record {
          answer = refl;
          rest =
              ap (λ w. w.lists source) (view-moved source target id d)
              ∙ rw (differ target source λ e. ne (sym e)) (rw (eq_refl source) refl);
          claim =
              ap (λ w. w.lists target) (view-moved source target id d)
              ∙ rw (eq_refl target) (rw (differ source target ne) refl);
        })

  -- Alone, if the keys of the queue and of the claims differ and hold lists, `dequeue` of a queue
  -- that is not empty claims its oldest entry, and takes no other.
  pub dequeue-Claimed :
      (s : StorageInternal) (queue id : String) (d : R.Db)
      → R.fits d (namespace_queue s.keys queue) list ≡ true
      → R.fits d (current_processing_queue s) list ≡ true
      → namespace_queue s.keys queue ≢ current_processing_queue s
      → get_last? (lrange d (namespace_queue s.keys queue)) ≡ some id
      → Claimed
          (namespace_queue s.keys queue)
          (current_processing_queue s)
          id
          d
          (alone (dequeue s queue) d)
  unfolding alone dequeue connection ◌>>=◌ round_trip
  dequeue-Claimed s queue id d fits_queue fits_claims ne last =
      lmove-Claimed (namespace_queue s.keys queue) (current_processing_queue s) id d fits_queue
        fits_claims ne last

  hget-release_all :
      (jobs processing : String) (ids : List String) (d : R.Db) (i : String)
      → hget (release_all jobs processing ids d) jobs i
        ≡ (if elem i ids then none else hget d jobs i)
  unfolding release_all elem
  hget-release_all jobs processing [] d i = refl
  hget-release_all jobs processing (id ∷ ids) d i =
      hget-release_all jobs processing ids (R.lrem_first processing id (R.hdel jobs id d)) i
      ∙ ground (arith, released jobs processing id d i)
    where
      released :
          (jobs processing id : String) (d : R.Db) (i : String)
          → hget (R.lrem_first processing id (R.hdel jobs id d)) jobs i
            ≡ (if str_eq id i then none else hget d jobs i)
      released jobs processing id d i =
          ap (λ w. w.hashes jobs i) (R.view-lrem_first processing id (R.hdel jobs id d))
          ∙ ap (λ w. w.hashes jobs i) (R.view-hdel jobs id d)
          ∙ rw (eq_refl jobs) refl

  count-release_all :
      (jobs processing : String) (ids : List String) (d : R.Db) (i : String)
      → count i (lrange (release_all jobs processing ids d) processing)
        ≡ count i (lrange d processing) - count i ids
  unfolding release_all count
  count-release_all jobs processing [] d i = omega arith
  count-release_all jobs processing (id ∷ ids) d i =
      count-release_all jobs processing ids (R.lrem_first processing id (R.hdel jobs id d)) i
      ∙ ground (arith, released jobs processing id d i)
    where
      released :
          (jobs processing id : String) (d : R.Db) (i : String)
          → count i (lrange (R.lrem_first processing id (R.hdel jobs id d)) processing) ≡ (
              if str_eq id i
              then count i (lrange d processing) - 1
              else count i (lrange d processing))
      released jobs processing id d i =
          ap (λ w. count i (w.lists processing))
            (R.view-lrem_first processing id (R.hdel jobs id d))
          ∙ rw (eq_refl processing) refl
          ∙ ap (λ w. count i (remove_first id (w.lists processing))) (R.view-hdel jobs id d)
          ∙ count-remove_first id i (lrange d processing)

  -- Each job of a batch is stored no longer and has a claim less, for each time it stands in the batch.
  pub record Finished (jobs processing : String) (ids : List String) (d : R.Db)
      (out : Result (Unit {0}) × R.Db) : Type 0 where
    pub answer : out.0 ≡ ok tt
    pub payloads : (i : String) → hget out.1 jobs i ≡ (if elem i ids then none else hget d jobs i)
    pub claims :
        (i : String)
        → count i (lrange out.1 processing) ≡ count i (lrange d processing) - count i ids

  finish_success-Finished :
      (jobs processing : String) (ids : List String) (d : R.Db)
      → R.fits d jobs hash ≡ true
      → R.fits d processing list ≡ true
      → Finished jobs processing ids d (finish_success jobs processing ids d)
  unfolding finish_success checked
  finish_success-Finished jobs processing ids d fits_jobs fits_claims =
      rw (fits_jobs, fits_claims)
        (record {
          answer = refl;
          payloads = hget-release_all jobs processing ids d;
          claims = count-release_all jobs processing ids d;
        })

  -- Alone, if the keys hold what they are for, `finish_with_success_batch` of one job or more
  -- succeeds: each is stored no longer and loses a claim for each time that it stands in the batch,
  -- and no other payload or claim changes.
  pub finish_with_success_batch-Finished :
      {V : Type 0} (s : StorageInternal) (e : JobEnvelope V) (es : List (JobEnvelope V)) (d : R.Db)
      → R.fits d s.keys.jobs hash ≡ true
      → R.fits d (current_processing_queue s) list ≡ true
      → Finished s.keys.jobs
          (current_processing_queue s)
          (map (λ x. x.id) (e ∷ es))
          d
          (alone (finish_with_success_batch s (e ∷ es)) d)
  unfolding alone finish_with_success_batch claimed_connection connection ◌>>=◌ round_trip
  finish_with_success_batch-Finished s e es d fits_jobs fits_claims =
      finish_success-Finished s.keys.jobs (current_processing_queue s) (map (λ x. x.id) (e ∷ es)) d
        fits_jobs fits_claims
