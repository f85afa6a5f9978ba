-- ===== src/Storage/Listing.antt =====
-- The operations of oxana/src/storage_internal.rs that read a part of a list or a sorted set, and the
-- counts. The bounds of a listing are `isize` in the source; here they are numbers.
use oxana.Base.{ℕ, ◌+◌, ◌-◌, String, Option, none, some, List, [], ◌∷◌, map}
use oxana.Base.Lists.{length, take, drop}
use oxana.Errors.{Result, ok, err}
use oxana.Envelope.{JobEnvelope}
use oxana.Json.{Json}
use oxana.Keys.{namespace_queue}
use oxana.Redis.{Redis, hash, list, zset}
use oxana.Exec.{Exec, Command, pure, round_trip, ◌>>=◌, ◌>>◌}
use oxana.Scripts.{hget, lrange, checked}
use oxana.Storage.{StorageInternal, connection, parse, lift}

pub record QueueListOpts : Type 0 where
  pub count : ℕ
  pub offset : ℕ

-- The entries from `start` up to `stop`, that one too.
abbrev pub slice : {A : Type 0} → ℕ → ℕ → List A → List A
slice start stop xs = take (stop + 1 - start) (drop start xs)

-- Of no jobs, `stop` is `start - 1`, or 0 at the start, where the first entry comes all the same.
abbrev pub listed : {A : Type 0} → QueueListOpts → List A → List A
listed opts xs = slice opts.offset (opts.offset + opts.count - 1) xs

abbrev members : List (String × ℕ) → List String
members xs = map (λ (i, score). i) xs

module _ ⦃R : Redis⦄ where
  abbrev pub lrange_command : String → QueueListOpts → Command R.Db (List String)
  lrange_command key opts d = checked (R.fits d key list) (ok (listed opts (lrange d key)), d) d

  abbrev pub zrange_command : String → QueueListOpts → Command R.Db (List String)
  zrange_command key opts d =
      checked (R.fits d key zset) (ok (listed opts (members (R.zrange d key))), d) d

  -- HMGET of the payloads
  abbrev pub hmget_command : String → List String → Command R.Db (List (Option String))
  hmget_command jobs ids d = checked (R.fits d jobs hash) (ok (map (hget d jobs) ids), d) d

  abbrev llen_command : String → Command R.Db ℕ
  llen_command key d = checked (R.fits d key list) (ok (length (lrange d key)), d) d

  abbrev zcard_command : String → Command R.Db ℕ
  zcard_command key d = checked (R.fits d key zset) (ok (length (R.zrange d key)), d) d

  unfoldable pub enqueued_count : StorageInternal → String → Exec R.Db ℕ
  enqueued_count s queue = do connection; round_trip (llen_command (namespace_queue s.keys queue))

  unfoldable pub dead_count : StorageInternal → Exec R.Db ℕ
  dead_count s = do connection; round_trip (llen_command s.keys.dead)

  unfoldable pub retries_count : StorageInternal → Exec R.Db ℕ
  retries_count s = do connection; round_trip (zcard_command s.keys.retry)

  unfoldable pub scheduled_count : StorageInternal → Exec R.Db ℕ
  scheduled_count s = do connection; round_trip (zcard_command s.keys.schedule)

module _ {V : Type 0} (J : Json V) where
  abbrev add_parsed :
      Result (Option (JobEnvelope V))
      → Result (List (JobEnvelope V))
      → Result (List (JobEnvelope V))
  add_parsed (err x) later = err x
  add_parsed (ok none) later = later
  add_parsed (ok (some e)) (err x) = err x
  add_parsed (ok (some e)) (ok es) = ok (e ∷ es)

  -- The payloads that exist; one that is no envelope ends the listing.
  unfoldable pub parse_all : List (Option String) → Result (List (JobEnvelope V))
  parse_all [] = ok []
  parse_all (p ∷ ps) = add_parsed (parse J p) (parse_all ps)

  -- The dead jobs have their payloads in the list, and what is no envelope is passed over.
  unfoldable pub parse_readable : List String → List (JobEnvelope V)
  parse_readable [] = []
  parse_readable (p ∷ ps) = elim (J.from_str p) [
    | none ↦ parse_readable ps
    | some e ↦ e ∷ parse_readable ps
  ]

  abbrev put_parsed :
      Result (Option (JobEnvelope V))
      → Result (List (Option (JobEnvelope V)))
      → Result (List (Option (JobEnvelope V)))
  put_parsed (err x) later = err x
  put_parsed (ok e) (err x) = err x
  put_parsed (ok e) (ok es) = ok (e ∷ es)

  unfoldable pub parse_each : List (Option String) → Result (List (Option (JobEnvelope V)))
  parse_each [] = ok []
  parse_each (p ∷ ps) = put_parsed (parse J p) (parse_each ps)

  module _ ⦃R : Redis⦄ (s : StorageInternal) where
    unfoldable pub jobs_w_conn : List String → Exec R.Db (List (Option (JobEnvelope V)))
    jobs_w_conn [] = pure []
    jobs_w_conn (id ∷ ids) = do
      records ← round_trip (hmget_command s.keys.jobs (id ∷ ids))
      lift (parse_each records)

    unfoldable pub get_many : List String → Exec R.Db (List (JobEnvelope V))
    get_many ids = do
      connection
      payloads ← round_trip (hmget_command s.keys.jobs ids)
      lift (parse_all payloads)

    abbrev get_listed : List String → Exec R.Db (List (JobEnvelope V))
    get_listed [] = pure []
    get_listed (id ∷ ids) = get_many (id ∷ ids)

    unfoldable pub list_queue_jobs : String → QueueListOpts → Exec R.Db (List (JobEnvelope V))
    list_queue_jobs queue opts = do
      connection
      job_ids ← round_trip (lrange_command (namespace_queue s.keys queue) opts)
      get_listed job_ids

    unfoldable pub list_dead : QueueListOpts → Exec R.Db (List (JobEnvelope V))
    list_dead opts = do
      connection
      entries ← round_trip (lrange_command s.keys.dead opts)
      pure (parse_readable entries)

    unfoldable pub list_retries : QueueListOpts → Exec R.Db (List (JobEnvelope V))
    list_retries opts = do
      connection
      job_ids ← round_trip (zrange_command s.keys.retry opts)
      get_listed job_ids

    unfoldable pub list_scheduled : QueueListOpts → Exec R.Db (List (JobEnvelope V))
    list_scheduled opts = do
      connection
      job_ids ← round_trip (zrange_command s.keys.schedule opts)
      get_listed job_ids
