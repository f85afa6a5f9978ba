-- ===== src/Recovery.antt =====
-- The recovery from dead processes in oxana/src/storage_internal.rs: which processes count as dead,
-- and what is done with their claims. Times are milliseconds. `Process::id` of oxana/src/stats.rs
-- makes the names of the processes.
pub mod Live
pub mod Safe
use Prim.Native.String.{◌++◌ as str_append, [] as empty_text, ◌∷◌ as cons_text}
use Prim.Native.String.{◌++◌ as str_append}
use oxana.Base.{
  ℕ, zero, suc, ◌+◌, ◌*◌, ◌/◌, String, Bool, true, false, Option, none, some, List, [], ◌∷◌, ◌++◌,
  ◌==◌, ltb, str_eq, starts_with, unwrap_or, max_of, if◌then◌else◌,
}
use oxana.Base.Lists.{elem, length}
use oxana.Errors.{Result, ok, err, json_error}
use oxana.Envelope.{JobEnvelope}
use oxana.Json.{Json}
use oxana.Keys.{StorageKeys, processing_queue}
use oxana.Redis.{Redis, hash, list, zset}
use oxana.Exec.{Exec, Command, pure, fail, pipeline, round_trip, ◌>>=◌, ◌>>◌}
use oxana.Scripts.{lrange, checked}
use oxana.Storage.{StorageInternal, connection, lift, resurrect_one}

pub record Process : Type 0 where
  pub hostname : String
  pub pid : String  -- as it is printed
  pub instance_id : String

unfoldable pub process_id : Process → String
process_id p =
    if str_eq p.instance_id ""
    then str_append p.hostname (str_append "-" p.pid)
    else str_append p.hostname (str_append "-" (str_append p.pid (str_append "-" p.instance_id)))

-- The text behind the last colon, if there is one.
unfoldable pub behind_colon : String → Option String
behind_colon empty_text = none
behind_colon (cons_text c s) =
    let later = behind_colon s in
    elim later [ some t ↦ some t | none ↦ if starts_with (cons_text c s) ":" then some s else none ]

-- `rsplit(':').next()`
abbrev pub last_part : String → String
last_part s = unwrap_or (behind_colon s) s

abbrev pub names_of : List (String × ℕ) → List String
names_of [] = []
names_of ((id, score) ∷ rest) = id ∷ names_of rest

unfoldable pub stale : ℕ → ℕ → List (String × ℕ) → List String
stale now threshold [] = []
stale now threshold ((id, score) ∷ rest) =
    let after = stale now threshold rest in
    if ltb (score + threshold) now then id ∷ after else after

-- The owners of the lists that have no record.
unfoldable pub unrecorded : List String → List String → List String
unfolding behind_colon
unrecorded active [] = []
unrecorded active (q ∷ qs) =
    let after = unrecorded active qs in
    if elem (last_part q) active then after else last_part q ∷ after

unfoldable pub dead_process_ids_in : List (String × ℕ) → List String → ℕ → ℕ → List String
unfolding stale unrecorded
dead_process_ids_in process_ids all_processing_queues now dead_process_threshold =
    stale now dead_process_threshold process_ids
    ++ unrecorded (names_of process_ids) all_processing_queues

-- `cleanup`: a payload goes when its job became due, or was created, too long ago. A week in seconds.
abbrev pub job_expire_time : ℕ
job_expire_time = 7 * 24 * 60 * 60

unfoldable pub is_expired : {V : Type 0} → ℕ → Option (JobEnvelope V) → Bool
is_expired now none = true
is_expired now (some e) =
    ltb (max_of e.meta.created_at e.meta.scheduled_at / 1000000 + job_expire_time) now

module _ ⦃R : Redis⦄ {V : Type 0} (J : Json V) (s : StorageInternal) where
  abbrev pub read_list : String → Command R.Db (List String)
  read_list key d = checked (R.fits d key list) (ok (lrange d key), d) d

  -- The claims of one process, as they stood when they were read.
  unfoldable pub resurrect_claims : String → ℕ → List String → Exec R.Db ℕ
  resurrect_claims processing resurrected_count [] = pure resurrected_count
  resurrect_claims processing resurrected_count (id ∷ ids) = do
    moved ← resurrect_one J s processing id
    resurrect_claims processing (resurrected_count + moved) ids

  abbrev pub forget_member : String → Command R.Db (Unit {0})
  forget_member process d =
      checked (R.fits d s.keys.processes zset) (ok tt, R.zrem s.keys.processes process d) d

  abbrev pub forget_data : String → Command R.Db (Unit {0})
  forget_data process d =
      checked (R.fits d s.keys.processes_data hash) (ok tt, R.hdel s.keys.processes_data process d)
        d

  -- The record of a process goes when no claim of it is left.
  unfoldable pub forget_process : String → List String → Exec R.Db (Unit {0})
  forget_process process [] = do
    answer ← pipeline (forget_member process ∷ forget_data process ∷ [])
    lift answer
  forget_process process (claim ∷ claims) = pure tt

  unfoldable pub resurrect_process : String → Exec R.Db ℕ
  resurrect_process process = do
    job_ids ← round_trip (read_list (processing_queue s.keys process))
    count ← resurrect_claims (processing_queue s.keys process) 0 job_ids
    left ← round_trip (read_list (processing_queue s.keys process))
    forget_process process left
    pure count

  unfoldable pub resurrect_all : List String → Exec R.Db (Unit {0})
  resurrect_all [] = pure tt
  resurrect_all (process ∷ processes) = do resurrect_process process; resurrect_all processes

  abbrev pub read_processes : Command R.Db (List (String × ℕ))
  read_processes d =
      checked (R.fits d s.keys.processes zset) (ok (R.zrange d s.keys.processes), d) d

  abbrev pub scan_queues : Command R.Db (List String)
  scan_queues d = (ok (R.scan d (str_append s.keys.processing_queue_prefix ":")), d)

  -- The lists are scanned before the records are read.
  unfoldable pub resurrect : ℕ → ℕ → Exec R.Db (Unit {0})
  resurrect dead_process_threshold now = do
    connection
    queues ← round_trip scan_queues
    processes ← round_trip read_processes
    resurrect_all (dead_process_ids_in processes queues now dead_process_threshold)

  unfoldable pub self_cleanup : Exec R.Db (Unit {0})
  self_cleanup = do
    connection
    answer ← pipeline (forget_member s.process_id ∷ forget_data s.process_id ∷ [])
    lift answer
