-- ===== src/Storage.antt =====
-- oxana/src/storage_internal.rs: the operations on claimed and scheduled jobs. Each takes the
-- times that it reads from the clock as arguments. A connection that cannot be had is a round trip
-- that is refused; `claimed_connection` tries again until its window ends, and what is modelled of
-- it is how it ends.
pub mod Effects
pub mod Endings
pub mod Alone
pub mod Deletion
pub mod Listing
pub mod Claimed
pub mod Revival
pub mod Upkeep
use mathlib.Core.List.{drop_last, get_last?}
use oxana.Base.{
  ℕ, ◌+◌, ◌*◌, ◌%◌, ◌^◌, String, Bool, true, false, Option, none, some, List, [], ◌∷◌, ◌&&◌, map,
  if◌then◌else◌, unwrap_or,
}
use oxana.Errors.{Result, ok, err, OxanaError, json_error, job_not_found, deadpool_redis_error}
use oxana.Envelope.{JobMeta, JobEnvelope, with_error, with_retries_incremented}
use oxana.Json.{Json}
use oxana.Keys.{StorageKeys, namespace_queue, processing_queue}
use oxana.Redis.{Redis, hash, list, zset}
use oxana.Exec.{Exec, Command, pure, fail, round_trip, ◌>>=◌, ◌>>◌}
use oxana.Scripts.{
  hget, lrange, checked, finish_success, finish_dead, retry_failed, promote_scheduled,
  resurrect_claim,
}

pub record StorageInternal : Type 0 where
  pub keys : StorageKeys
  pub process_id : String
  pub dead_job_limit : Option ℕ

abbrev pub u64 : ℕ → ℕ
u64 n = n % 2 ^ 64

abbrev pub current_processing_queue : StorageInternal → String
current_processing_queue s = processing_queue s.keys s.process_id

module _ ⦃R : Redis⦄ where
  unfoldable pub connection : Exec R.Db (Unit {0})
  connection = round_trip (λ d. (ok tt, d))

  unfoldable pub claimed_connection : Exec R.Db (Unit {0})
  unfolding connection
  claimed_connection = connection

  -- HGET of a payload
  abbrev pub read_payload : String → String → Command R.Db (Option String)
  read_payload jobs id d = checked (R.fits d jobs hash) (ok (hget d jobs id), d) d

  abbrev pub lmove_found : String → String → Option String → Command R.Db (Option String)
  lmove_found target source none d = (ok none, d)
  lmove_found target source (some id) d =
      checked (R.fits d target list) (ok (some id), R.lpush target id (R.rpop source d)) d

  -- LMOVE source target RIGHT LEFT
  unfoldable pub lmove : String → String → Command R.Db (Option String)
  lmove source target d =
      checked (R.fits d source list) (lmove_found target source (get_last? (lrange d source)) d) d

  -- LREM key 1 value
  unfoldable pub lrem_one : String → String → Command R.Db (Unit {0})
  lrem_one key id d = checked (R.fits d key list) (ok tt, R.lrem_first key id d) d

  abbrev pub lift : {A : Type 0} → Result A → Exec R.Db A
  lift (ok a) = pure a
  lift (err e) = fail e

  abbrev pub read_due : String → ℕ → Command R.Db (List (String × ℕ))
  read_due key now d = checked (R.fits d key zset) (ok (R.zrangebyscore d key now), d) d

  abbrev pub read_members : String → Command R.Db (List (String × ℕ))
  read_members key d = checked (R.fits d key zset) (ok (R.zrange d key), d) d

  unfoldable pub dequeue : StorageInternal → String → Exec R.Db (Option String)
  dequeue s queue = do
    connection
    round_trip (lmove (namespace_queue s.keys queue) (current_processing_queue s))

  unfoldable pub finish_with_success_batch :
      {V : Type 0} → StorageInternal → List (JobEnvelope V) → Exec R.Db (Unit {0})
  finish_with_success_batch s [] = pure tt
  finish_with_success_batch s (e ∷ es) = do
    claimed_connection
    round_trip (finish_success s.keys.jobs (current_processing_queue s) (e.id ∷ map (λ x. x.id) es))

  unfoldable pub finish_with_success :
      {V : Type 0} → StorageInternal → JobEnvelope V → Exec R.Db (Unit {0})
  finish_with_success s e = finish_with_success_batch s (e ∷ [])

-- A payload read back: the error of serde_json is a value here, which the callers test.
abbrev pub parse : {V : Type 0} → Json V → Option String → Result (Option (JobEnvelope V))
parse J none = ok none
parse J (some p) = elim (J.from_str p) [ none ↦ err json_error | some e ↦ ok (some e) ]

module _ ⦃R : Redis⦄ {V : Type 0} (J : Json V) where
  unfoldable pub get_job_w_conn : StorageInternal → String → Exec R.Db (Option (JobEnvelope V))
  get_job_w_conn s id = do
    payload ← round_trip (read_payload s.keys.jobs id)
    lift (parse J payload)

  unfoldable pub get_job : StorageInternal → String → Exec R.Db (Option (JobEnvelope V))
  get_job s id = do connection; get_job_w_conn s id

  -- HSET of one payload after another
  unfoldable pub write_payloads : StorageKeys → List (JobEnvelope V) → R.Db → R.Db
  write_payloads keys [] d = d
  write_payloads keys (e ∷ es) d = write_payloads keys es (R.hset keys.jobs e.id (J.to_string e) d)

  unfoldable pub hset_payloads : StorageKeys → List (JobEnvelope V) → Command R.Db (Unit {0})
  unfolding write_payloads
  hset_payloads keys es d = checked (R.fits d keys.jobs hash) (ok tt, write_payloads keys es d) d

  unfoldable pub update_job : StorageInternal → JobEnvelope V → Exec R.Db (Unit {0})
  update_job s e = do connection; round_trip (hset_payloads s.keys (e ∷ []))

  unfoldable pub update_jobs : StorageInternal → List (JobEnvelope V) → Exec R.Db (Unit {0})
  update_jobs s [] = pure tt
  update_jobs s (e ∷ es) = do claimed_connection; round_trip (hset_payloads s.keys (e ∷ es))

  unfoldable pub update_state : StorageInternal → String → V → Exec R.Db (Unit {0})
  update_state s id state = do
    found ← get_job s id
    elim found [
      | none ↦ fail job_not_found
      | some e ↦
          let meta : JobMeta V = e.meta in
          update_job s (record e { meta = record meta { state = some state } })
    ]

  abbrev pub started : ℕ → JobEnvelope V → JobEnvelope V
  started now e =
      let meta : JobMeta V = e.meta in record e { meta = record meta { started_at = some now } }

  -- The envelopes of the caller are changed too, and come back.
  unfoldable pub set_started_at_batch :
      StorageInternal → ℕ → List (JobEnvelope V) → Exec R.Db (List (JobEnvelope V))
  set_started_at_batch s now es = do
    update_jobs s (map (started now) es)
    pure (map (started now) es)

  unfoldable pub retry_in : StorageInternal → String → ℕ → String → ℕ → Exec R.Db (Unit {0})
  retry_in s id delay_s error now = do
    claimed_connection
    found ← get_job_w_conn s id
    elim found [
      | none ↦ round_trip (lrem_one (current_processing_queue s) id)
      | some e ↦
          let e' = with_retries_incremented e error in
          round_trip (
            retry_failed s.keys.jobs s.keys.retry (current_processing_queue s) e'.id
              (J.to_string e') (u64 (now + delay_s * 1000000)))
    ]

  unfoldable pub kill : StorageInternal → JobEnvelope V → String → Exec R.Db (Unit {0})
  kill s e error = do
    claimed_connection
    let e' = with_error e error
    round_trip (
        finish_dead s.keys.jobs s.keys.dead (current_processing_queue s) e'.id (J.to_string e')
          (unwrap_or s.dead_job_limit 0))

  -- The payload and its envelope; a payload that is no envelope is skipped by the callers.
  unfoldable pub transition_snapshot :
      StorageInternal → String → Exec R.Db (Option String × Result (Option (JobEnvelope V)))
  transition_snapshot s id = do
    payload ← round_trip (read_payload s.keys.jobs id)
    pure (payload, parse J payload)

  abbrev pub queue_of : StorageInternal → Option (JobEnvelope V) → String
  queue_of s none = namespace_queue s.keys ""
  queue_of s (some e) = namespace_queue s.keys e.queue

  abbrev pub should_resurrect : Option (JobEnvelope V) → Bool
  should_resurrect none = false
  should_resurrect (some e) = e.meta.resurrect

  -- One round of the loop: how many jobs it moved.
  unfoldable pub promote_one : StorageInternal → String → String × ℕ → Exec R.Db ℕ
  unfolding transition_snapshot
  promote_one s scheduled (id, score) = do
    snapshot ← transition_snapshot s id
    elim snapshot.1 [
      | err e ↦ pure 0
      | ok envelope ↦ round_trip (
          promote_scheduled s.keys.jobs scheduled (queue_of s envelope) id (unwrap_or snapshot.0 "")
            score)
    ]

  unfoldable pub promote_scheduled_jobs :
      StorageInternal → String → ℕ → List (String × ℕ) → Exec R.Db ℕ
  promote_scheduled_jobs s scheduled count [] = pure count
  promote_scheduled_jobs s scheduled count (job ∷ jobs) = do
    moved ← promote_one s scheduled job
    promote_scheduled_jobs s scheduled (count + moved) jobs

  unfoldable pub enqueue_scheduled : StorageInternal → String → ℕ → Exec R.Db ℕ
  enqueue_scheduled s scheduled now = do
    connection
    jobs ← round_trip (read_due scheduled now)
    promote_scheduled_jobs s scheduled 0 jobs

  unfoldable pub retry_all_now : StorageInternal → Exec R.Db ℕ
  retry_all_now s = do
    connection
    jobs ← round_trip (read_members s.keys.retry)
    promote_scheduled_jobs s s.keys.retry 0 jobs

  unfoldable pub resurrect_one : StorageInternal → String → String → Exec R.Db ℕ
  unfolding transition_snapshot
  resurrect_one s processing id = do
    snapshot ← transition_snapshot s id
    elim snapshot.1 [
      | err e ↦ pure 0
      | ok envelope ↦ round_trip (
          resurrect_claim s.keys.jobs processing (queue_of s envelope) id (unwrap_or snapshot.0 "")
            (should_resurrect envelope))
    ]
