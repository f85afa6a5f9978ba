-- ===== src/Enqueue/Requests.antt =====
-- `enqueue_chunk_w_conn` of oxana/src/storage_internal.rs and its callers. The loop that follows the
-- changes of replaced payloads has no bound in the source; here it runs as often as `fuel` says. The
-- pipelines without MULTI are one round trip for each of their commands.
use oxana.Base.{
  ℕ, zero, suc, ◌+◌, ◌*◌, String, Bool, true, false, Option, none, some, List, [], ◌∷◌, ◌||◌, not,
  leb, ◌==◌, is_some, map, if◌then◌else◌,
}
use oxana.Base.Lists.{elem}
use oxana.Errors.{ok, generic_error}
use oxana.Envelope.{JobEnvelope, with_scheduled_at}
use oxana.Json.{Json}
use oxana.Keys.{namespace_queue}
use oxana.Redis.{Redis, hash, list, zset}
use oxana.Exec.{Exec, Command, pure, fail, pipeline, round_trip, ◌>>=◌, ◌>>◌}
use oxana.Scripts.{hget, checked}
use oxana.Storage.{StorageInternal, connection, lift}
use oxana.Enqueue.{
  JobDestination, queue, schedule, EnqueueSnapshot, EnqueueSnapshotComparison, Snapshot, Input,
  EnqueueOutcome, skipped, enqueued, replaced, lookup,
}
use oxana.Enqueue.Script.{enqueue_script}
use oxana.Enqueue.Chunk.{
  Raw, skips, any_unique, pending_of, replacement_ids, conflict_of, Snapshots, parse_snapshots,
  update_snapshots,
}

module _ ⦃R : Redis⦄ {V : Type 0} (J : Json V) (raw_queue : String → Option Raw)
    (s : StorageInternal) where
  abbrev pub write_payload : JobEnvelope V → Command R.Db (Unit {0})
  write_payload e d =
      checked (R.fits d s.keys.jobs hash) (ok tt, R.hset s.keys.jobs e.id (J.to_string e) d) d

  abbrev pub write_place : JobDestination → JobEnvelope V → Command R.Db (Unit {0})
  write_place queue e d =
      let key = namespace_queue s.keys e.queue in
      checked (R.fits d key list) (ok tt, R.lpush key e.id d) d
  write_place schedule e d =
      checked (R.fits d s.keys.schedule zset)
        (ok tt, R.zadd s.keys.schedule e.meta.scheduled_at e.id d) d

  abbrev pub ordinary_commands :
      JobDestination → List (JobEnvelope V) → List (Command R.Db (Unit {0}))
  ordinary_commands destination [] = []
  ordinary_commands destination (e ∷ es) =
      write_payload e ∷ write_place destination e ∷ ordinary_commands destination es

  abbrev pub read_many : List String → Command R.Db (List (String × Option String))
  read_many ids d =
      checked (R.fits d s.keys.jobs hash) (ok (map (λ id. (id, hget d s.keys.jobs id)) ids), d) d

  -- Nothing is asked where nothing is replaced.
  unfoldable pub read_snapshots : List String → Exec R.Db (List (String × Option String))
  read_snapshots [] = pure []
  read_snapshots (id ∷ ids) = round_trip (read_many (id ∷ ids))

  abbrev pub exists_command : String → Command R.Db Bool
  exists_command id d =
      checked (R.fits d s.keys.jobs hash) (ok (is_some (hget d s.keys.jobs id)), d) d

  abbrev pub known_existing : Option (Option EnqueueSnapshot) → Exec R.Db Bool → Exec R.Db Bool
  known_existing none ask = ask
  known_existing (some snapshot) ask = pure (is_some snapshot)

  unfoldable pub ask_existing : Snapshots → JobEnvelope V → Exec R.Db Bool
  ask_existing snapshots e = elim (skips e) [
    | true ↦ known_existing (lookup e.id snapshots) (round_trip (exists_command e.id))
    | false ↦ pure false
  ]

  -- The jobs that are left, with those that give way to an existing one left out.
  unfoldable pub drop_existing : Snapshots → List (JobEnvelope V) → Exec R.Db (List (JobEnvelope V))
  drop_existing snapshots [] = pure []
  drop_existing snapshots (e ∷ es) = do
    existing ← ask_existing snapshots e
    rest ← drop_existing snapshots es
    pure (if existing then rest else e ∷ rest)

  abbrev expected_of : Option EnqueueSnapshot → Option (EnqueueSnapshotComparison × String)
  expected_of none = none
  expected_of (some x) = some (x.comparison, x.expected)

  abbrev queue_key_of : Option EnqueueSnapshot → Option String
  queue_key_of none = none
  queue_key_of (some x) = some (namespace_queue s.keys x.queue)

  abbrev pub snapshot_arg : String × Option EnqueueSnapshot → Snapshot
  snapshot_arg (id, x) = record { id = id; expected = expected_of x; queue_key = queue_key_of x }

  abbrev pub input_arg : JobEnvelope V → Input
  input_arg e = record {
    id = e.id;
    payload = J.to_string e;
    queue_key = namespace_queue s.keys e.queue;
    conflict = conflict_of e;
    score = e.meta.scheduled_at;
  }

  -- The identifiers of unique jobs that were written are kept.
  abbrev pub written_after : List (JobEnvelope V) → List EnqueueOutcome → List String → List String
  written_after [] os written = written
  written_after (e ∷ es) [] written = written
  written_after (e ∷ es) (skipped ∷ os) written = written_after es os written
  written_after (e ∷ es) (enqueued ∷ os) written =
      written_after es os (if e.meta.unique then e.id ∷ written else written)
  written_after (e ∷ es) (replaced ∷ os) written =
      written_after es os (if e.meta.unique then e.id ∷ written else written)

  unfoldable pub invoke :
      ℕ → JobDestination → Snapshots → List (JobEnvelope V) → List String → Exec R.Db (List String)
  invoke zero destination snapshots pending written = fail generic_error
  invoke (suc fuel) destination snapshots pending written = do
    (changed, outcomes) ← round_trip (
        enqueue_script s.keys.jobs s.keys.schedule s.keys.retry destination
          (map snapshot_arg snapshots) (map input_arg pending))
    elim changed [
      | [] ↦ pure (written_after pending outcomes written)
      | c ∷ cs ↦ do
        parsed ← lift (parse_snapshots raw_queue (c ∷ cs))
        invoke fuel destination (update_snapshots parsed snapshots) pending written
    ]

  unfoldable pub send_pending :
      ℕ → JobDestination → List (JobEnvelope V) → List String → Exec R.Db (List String)
  send_pending fuel destination [] written = pure written
  send_pending fuel destination (e ∷ es) written = do
    payloads ← read_snapshots (replacement_ids [] (e ∷ es))
    snapshots ← lift (parse_snapshots raw_queue payloads)
    left ← drop_existing snapshots (e ∷ es)
    elim left [ [] ↦ pure written | x ∷ xs ↦ invoke fuel destination snapshots (x ∷ xs) written ]

  -- The identifiers of the unique jobs that were written in this request come back.
  unfoldable pub enqueue_chunk_w_conn :
      ℕ → JobDestination → List (JobEnvelope V) → List String → Exec R.Db (List String)
  enqueue_chunk_w_conn fuel destination es written = elim (any_unique es) [
    | false ↦ do answer ← pipeline (ordinary_commands destination es); lift answer; pure written
    | true ↦ send_pending fuel destination (pending_of written [] es) written
  ]

  unfoldable pub enqueue_w_conn : ℕ → JobDestination → JobEnvelope V → Exec R.Db String
  enqueue_w_conn fuel destination e = do
    enqueue_chunk_w_conn fuel destination (e ∷ []) []
    pure e.id

  unfoldable pub enqueue : ℕ → JobEnvelope V → Exec R.Db String
  enqueue fuel e = do connection; enqueue_w_conn fuel queue e

  unfoldable pub try_enqueue : ℕ → JobEnvelope V → Exec R.Db (Option String)
  try_enqueue fuel e = do
    connection
    written ← enqueue_chunk_w_conn fuel queue (e ∷ []) []
    pure (if not e.meta.unique || elem e.id written then some e.id else none)

  -- `now` is the clock's reading.
  unfoldable pub enqueue_at : ℕ → JobEnvelope V → ℕ → Exec R.Db String
  enqueue_at fuel e now = elim (leb e.meta.scheduled_at now) [
    | true ↦ enqueue fuel e
    | false ↦ do connection; enqueue_w_conn fuel schedule e
  ]

  -- `now`, `later` and `then` are the readings of `enqueue_in`, `with_scheduled_at` and `enqueue_at`.
  unfoldable pub enqueue_in : ℕ → JobEnvelope V → ℕ → ℕ → ℕ → ℕ → Exec R.Db String
  enqueue_in fuel e delay_s now later at = elim (delay_s == 0) [
    | true ↦ enqueue fuel e
    | false ↦ enqueue_at fuel (with_scheduled_at e (now + delay_s * 1000000) later) at
  ]

  unfoldable pub enqueue_chunks :
      ℕ → JobDestination → List (List (JobEnvelope V)) → List String → Exec R.Db (Unit {0})
  enqueue_chunks fuel destination [] written = pure tt
  enqueue_chunks fuel destination (chunk ∷ chunks) written = do
    written' ← enqueue_chunk_w_conn fuel destination chunk written
    enqueue_chunks fuel destination chunks written'
