-- ===== src/Storage/Upkeep.antt =====
-- Operations of oxana/src/storage_internal.rs on whole queues, on stored configurations, and the
-- heartbeat. The texts of a configuration and of the record of the process are those of serde_json,
-- and parameters here.
pub mod Wiped
use mathlib.Core.Path.{subst}
use oxana.Base.{
  ℕ, String, Bool, true, false, Option, none, some, List, [], ◌∷◌, map, ◌≡◌, ◌≢◌, ◌⊎◌, refl, sym,
  ap, ◌∙◌, str_eq, eq_refl, Bool-cases, inl, inr, ◌||◌,
}
use oxana.Base.Lists.{elem, str_eq-distinct}
use oxana.Errors.{Result, ok, err, json_error}
use oxana.Keys.{namespace_queue}
use oxana.Redis.{Redis, hash, list, zset}
use oxana.Exec.{
  Exec, Command, pure, fail, round_trip, pipeline, attempt, alone, first_error, ◌>>=◌, ◌>>◌,
}
use oxana.Queue.{QueueRuntimeConfig, QueueState, active, queue_config_or_default}
use oxana.Scripts.{hget, lrange, checked}
use oxana.Storage.{StorageInternal, connection, lift}
use oxana.Storage.Revival.{del_command, read_all}
use oxana.Storage.Listing.{hmget_command}

module _ ⦃R : Redis⦄ where
  -- HDEL of several fields
  unfoldable pub hdel_all : String → List String → R.Db → R.Db
  hdel_all key [] d = d
  hdel_all key (f ∷ fs) d = hdel_all key fs (R.hdel key f d)

  abbrev pub hdel_all_command : String → List String → Command R.Db (Unit {0})
  hdel_all_command key fields d = checked (R.fits d key hash) (ok tt, hdel_all key fields d) d

  abbrev pub hset_command : String → String → String → Command R.Db (Unit {0})
  hset_command key field value d = checked (R.fits d key hash) (ok tt, R.hset key field value d) d

  abbrev pub hdel_one_command : String → String → Command R.Db (Unit {0})
  hdel_one_command key field d = checked (R.fits d key hash) (ok tt, R.hdel key field d) d

  abbrev pub zadd_command : String → ℕ → String → Command R.Db (Unit {0})
  zadd_command key score member d = checked (R.fits d key zset) (ok tt, R.zadd key score member d) d

  abbrev hget_command : String → String → Command R.Db (Option String)
  hget_command key field d = checked (R.fits d key hash) (ok (hget d key field), d) d

  abbrev pub wipe_jobs : StorageInternal → String → List String → Exec R.Db (Unit {0})
  wipe_jobs s queue_key [] = round_trip (del_command queue_key)
  wipe_jobs s queue_key (id ∷ ids) = do
    answer ← pipeline (hdel_all_command s.keys.jobs (id ∷ ids) ∷ del_command queue_key ∷ [])
    lift answer

  unfoldable pub wipe_queue : StorageInternal → String → Exec R.Db (Unit {0})
  unfolding hdel_all
  wipe_queue s queue = do
    connection
    job_ids ← round_trip (read_all (namespace_queue s.keys queue))
    wipe_jobs s (namespace_queue s.keys queue) job_ids

  unfoldable pub wipe_dead : StorageInternal → Exec R.Db (Unit {0})
  wipe_dead s = do connection; round_trip (del_command s.keys.dead)

  unfoldable pub ping : StorageInternal → String → ℕ → Exec R.Db (Unit {0})
  ping s process now = do
    connection
    answer ← pipeline (
        zadd_command s.keys.processes now s.process_id
        ∷ hset_command s.keys.processes_data s.process_id process
        ∷ [])
    lift answer

  module _ (to_text : QueueRuntimeConfig → String) (of_text : String → Option QueueRuntimeConfig)
      (s : StorageInternal) where
    abbrev read_config : Option String → Result (Option QueueRuntimeConfig)
    read_config none = ok none
    read_config (some text) = elim (of_text text) [
      | none ↦ err json_error
      | some config ↦ ok (some config)
    ]

    unfoldable pub queue_config : String → Exec R.Db (Option QueueRuntimeConfig)
    queue_config queue = do
      connection
      text ← round_trip (hget_command s.keys.queue_configs queue)
      lift (read_config text)

    unfoldable pub stored_or_default : String → QueueRuntimeConfig → Exec R.Db QueueRuntimeConfig
    unfolding queue_config queue_config_or_default
    stored_or_default queue default_config = do
      config ← queue_config queue
      pure (queue_config_or_default config default_config)

    abbrev put_config :
        String
        → Result (Option QueueRuntimeConfig)
        → Result (List (String × QueueRuntimeConfig))
        → Result (List (String × QueueRuntimeConfig))
    put_config queue (err e) rest = err e
    put_config queue (ok none) rest = rest
    put_config queue (ok (some config)) (err e) = err e
    put_config queue (ok (some config)) (ok rest) = ok ((queue, config) ∷ rest)

    unfoldable pub config_map :
        List String → List (Option String) → Result (List (String × QueueRuntimeConfig))
    config_map [] texts = ok []
    config_map (queue ∷ queues) [] = ok []
    config_map (queue ∷ queues) (text ∷ texts) =
        put_config queue (read_config text) (config_map queues texts)

    unfoldable pub queue_configs : List String → Exec R.Db (List (String × QueueRuntimeConfig))
    unfolding config_map
    queue_configs [] = pure []
    queue_configs (queue ∷ queues) = do
      connection
      texts ← round_trip (hmget_command s.keys.queue_configs (queue ∷ queues))
      lift (config_map (queue ∷ queues) texts)

    unfoldable pub set_queue_config : String → QueueRuntimeConfig → Exec R.Db (Unit {0})
    set_queue_config queue config = do
      connection
      round_trip (hset_command s.keys.queue_configs queue (to_text config))

    unfoldable pub reset_queue_config : String → Exec R.Db (Unit {0})
    reset_queue_config queue = do
      connection
      round_trip (hdel_one_command s.keys.queue_configs queue)

    abbrev config_or_none : Option QueueRuntimeConfig → QueueRuntimeConfig
    config_or_none none = record { concurrency = none; state = active }
    config_or_none (some config) = config

    -- A concurrency that is stored stays, and none is made up.
    unfoldable pub set_queue_state : String → QueueState → Exec R.Db (Unit {0})
    unfolding queue_config set_queue_config
    set_queue_state queue state = do
      config ← queue_config queue
      set_queue_config queue (record (config_or_none config) { state = state })
