-- ===== src/Coordinator/Watcher.antt =====
-- `run_queue_watcher` and `run_queue_config_watcher` of oxana/src/coordinator.rs, and `get_or_create`
-- of oxana/src/semaphores_map.rs. A round is given what the server answers in it; the order of the
-- queues that it names stands for that of the set of new queues. The two tasks of a queue are of
-- tokio: `spawned` is the queues for which they were spawned, and the wait between rounds is left out.
use oxana.Base.{ℕ, String, Bool, true, false, Option, none, some, List, [], ◌∷◌, str_eq}
use oxana.Base.Lists.{elem}
use oxana.Errors.{Result, ok, err, OxanaError}
use oxana.Failures.{track_redis_result}
use oxana.Registry.{Map, put}
use oxana.Queue.{
  QueueConfig, QueueKind, static_queue, dynamic_queue, QueueConcurrency, QueueRuntimeConfig,
  key_or_prefix, stored_runtime_default, effective_runtime_config, runtime_queue_config,
}
use oxana.Control.{QueueControl, apply_config}
use oxana.Control

pub record Watcher : Type 0 where
  pub tracked_queues : List String
  pub spawned : List String
  pub controls : Map QueueControl
  pub failures : ℕ

pub record Round : Type 0 where
  pub queues : Result (List String)
  pub stored : String → Result (Option QueueRuntimeConfig)
  pub is_cancelled : Bool

pub data Watched : Type 0 where
  waiting finished : Watched
  failed : OxanaError → Watched

unfoldable pub get_or_create :
    Map QueueControl → String → QueueRuntimeConfig → QueueControl × Map QueueControl
get_or_create controls key config = elim (controls key) [
  | some control ↦ (control, controls)
  | none ↦ (Control.new config, put key (some (Control.new config)) controls)
]

-- The configuration of the base is read only for another queue.
unfoldable pub read_runtime_config :
    (String → Result (Option QueueRuntimeConfig))
    → String
    → String
    → QueueRuntimeConfig
    → Result QueueRuntimeConfig
unfolding runtime_queue_config
read_runtime_config stored queue base defaults = elim (str_eq queue base) [
  | true ↦ elim (stored queue) [
    | err e ↦ err e
    | ok own ↦ ok (runtime_queue_config true own none defaults)
  ]
  | false ↦ elim (stored base) [
    | err e ↦ err e
    | ok of_base ↦ elim (stored queue) [
      | err e ↦ err e
      | ok own ↦ ok (runtime_queue_config false own of_base defaults)
    ]
  ]
]

abbrev pub track_queue : QueueConcurrency → String → QueueRuntimeConfig → Watcher → Watcher
track_queue concurrency queue runtime w =
    let config = effective_runtime_config concurrency runtime in
    let (control, controls) = get_or_create w.controls queue config in
    record w {
      tracked_queues = queue ∷ w.tracked_queues;
      spawned = queue ∷ w.spawned;
      controls = put queue (some (apply_config control config)) controls;
    }

-- A queue that is tracked is passed over. The first configuration that cannot be read ends the watch.
unfoldable pub track_queues :
    QueueConcurrency
    → (String → Result QueueRuntimeConfig)
    → List String
    → Watcher
    → Result (Unit {0}) × Watcher
unfolding elem get_or_create effective_runtime_config apply_config
track_queues concurrency config_of [] w = (ok tt, w)
track_queues concurrency config_of (queue ∷ queues) w = elim (elem queue w.tracked_queues) [
  | true ↦ track_queues concurrency config_of queues w
  | false ↦ elim (config_of queue) [
    | err e ↦ (err e, w)
    | ok runtime ↦
        track_queues concurrency config_of queues (track_queue concurrency queue runtime w)
  ]
]

abbrev pub after_round : QueueKind → Bool → Result (Unit {0}) × Watcher → Watched × Watcher
after_round kind is_cancelled (err e, w) = (failed e, w)
after_round kind true (ok done, w) = (finished, w)
after_round (static_queue key) false (ok done, w) = (finished, w)
after_round (dynamic_queue prefix interval) false (ok done, w) = (waiting, w)

abbrev pub discovered : ℕ → QueueKind → Result (List String) → ℕ → Result (Option (List String)) × ℕ
discovered tolerance (static_queue key) answer failures = (ok (some (key ∷ [])), failures)
discovered tolerance (dynamic_queue prefix interval) answer failures =
    track_redis_result tolerance answer failures

abbrev pub track_discovered :
    QueueConcurrency
    → (String → Result QueueRuntimeConfig)
    → Result (Option (List String))
    → Watcher
    → Result (Unit {0}) × Watcher
track_discovered concurrency config_of (err e) w = (err e, w)
track_discovered concurrency config_of (ok none) w = (ok tt, w)
track_discovered concurrency config_of (ok (some queues)) w =
    track_queues concurrency config_of queues w

unfoldable pub watch_round : ℕ → QueueConfig → Round → Watcher → Watched × Watcher
unfolding track_queues track_redis_result read_runtime_config stored_runtime_default
watch_round tolerance config r w =
    let defaults = stored_runtime_default config.concurrency in
    let (queues, failures) = discovered tolerance config.kind r.queues w.failures in
    after_round config.kind r.is_cancelled (
      track_discovered config.concurrency
        (λ queue. read_runtime_config r.stored queue (key_or_prefix config.kind) defaults) queues
        (record w { failures = failures }))

-- One tick of the watch on the configuration of a queue.
abbrev pub tick :
    ℕ → QueueConcurrency → Result QueueRuntimeConfig → QueueControl → ℕ → Result QueueControl × ℕ
tick tolerance concurrency answer control failures =
    let (tracked, failures') = track_redis_result tolerance answer failures in
    (
      elim tracked [
        | err e ↦ err e
        | ok none ↦ ok control
        | ok (some runtime) ↦
            ok (apply_config control (effective_runtime_config concurrency runtime))
      ],
      failures',
    )
