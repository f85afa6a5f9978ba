-- ===== src/Queue.antt =====
-- oxana/src/queue.rs: the configuration of a queue, and what of it can be overridden at run time.
-- A panic of an assertion is `none`. Durations are milliseconds.
pub mod Config
use oxana.Base.{ℕ, String, Bool, true, false, Option, none, some, ltb, unwrap_or, if◌then◌else◌}

pub data QueueKind : Type 0 where
  static_queue : String → QueueKind
  dynamic_queue : String → ℕ → QueueKind

pub data QueueConcurrency : Type 0 where
  fixed dynamic : ℕ → QueueConcurrency

pub record QueueThrottle : Type 0 where
  pub window_ms : ℕ
  pub limit : ℕ

pub record QueueConfig : Type 0 where
  pub kind : QueueKind
  pub concurrency : QueueConcurrency
  pub throttle : Option QueueThrottle

pub data QueueState : Type 0 where
  active paused : QueueState

pub record QueueRuntimeConfig : Type 0 where
  pub concurrency : Option ℕ
  pub state : QueueState

unfoldable pub as_dynamic : String → QueueConfig
as_dynamic prefix = record {
  kind = dynamic_queue prefix 500;
  concurrency = fixed 1;
  throttle = none;
}

unfoldable pub as_static : String → QueueConfig
as_static key = record { kind = static_queue key; concurrency = fixed 1; throttle = none }

unfoldable pub with_concurrency : QueueConfig → ℕ → Option QueueConfig
with_concurrency c concurrency =
    if ltb 0 concurrency then some (record c { concurrency = fixed concurrency }) else none

unfoldable pub dynamic_concurrency : QueueConfig → ℕ → QueueConfig
dynamic_concurrency c default_concurrency = record c { concurrency = dynamic default_concurrency }

unfoldable pub with_throttle : QueueConfig → QueueThrottle → QueueConfig
with_throttle c throttle = record c { throttle = some throttle }

abbrev pub with_interval : QueueKind → ℕ → Option QueueKind
with_interval (static_queue key) interval = none
with_interval (dynamic_queue prefix old) interval =
    if ltb 0 interval then some (dynamic_queue prefix interval) else none

abbrev pub with_kind : QueueConfig → Option QueueKind → Option QueueConfig
with_kind c none = none
with_kind c (some kind) = some (record c { kind = kind })

unfoldable pub discovery_interval : QueueConfig → ℕ → Option QueueConfig
discovery_interval c interval = with_kind c (with_interval c.kind interval)

abbrev pub static_key : QueueKind → Option String
static_key (static_queue key) = some key
static_key (dynamic_queue prefix interval) = none

abbrev pub key_or_prefix : QueueKind → String
key_or_prefix (static_queue key) = key
key_or_prefix (dynamic_queue prefix interval) = prefix

abbrev pub default_concurrency : QueueConcurrency → ℕ
default_concurrency (fixed n) = n
default_concurrency (dynamic n) = n

abbrev pub is_dynamic : QueueConcurrency → Bool
is_dynamic (fixed n) = false
is_dynamic (dynamic n) = true

abbrev pub is_active : QueueState → Bool
is_active active = true
is_active paused = false

unfoldable pub stored_runtime_default : QueueConcurrency → QueueRuntimeConfig
stored_runtime_default c = record {
  concurrency = if is_dynamic c then some (default_concurrency c) else none;
  state = active;
}

abbrev pub effective_concurrency : QueueConcurrency → Option ℕ → ℕ
effective_concurrency (fixed n) stored = n
effective_concurrency (dynamic n) stored = unwrap_or stored n

unfoldable pub effective_runtime_config : QueueConcurrency → QueueRuntimeConfig → QueueRuntimeConfig
effective_runtime_config c runtime = record {
  concurrency = some (effective_concurrency c runtime.concurrency);
  state = runtime.state;
}

abbrev pub or : Option ℕ → Option ℕ → Option ℕ
or none b = b
or (some a) b = some a

unfoldable pub with_defaults : QueueRuntimeConfig → QueueRuntimeConfig → QueueRuntimeConfig
with_defaults c defaults = record c { concurrency = or c.concurrency defaults.concurrency }

-- Coordinator (oxana/src/coordinator.rs): what holds for one queue of a dynamic kind is what is
-- stored for it, else for its base, else the default of the code. `queue_config_or_default` of
-- oxana/src/storage_internal.rs fills a stored configuration up, or stands in for an absent one.
unfoldable pub queue_config_or_default :
    Option QueueRuntimeConfig → QueueRuntimeConfig → QueueRuntimeConfig
unfolding with_defaults
queue_config_or_default none defaults = defaults
queue_config_or_default (some stored) defaults = with_defaults stored defaults

unfoldable pub runtime_queue_config :
    Bool
    → Option QueueRuntimeConfig
    → Option QueueRuntimeConfig
    → QueueRuntimeConfig
    → QueueRuntimeConfig
unfolding queue_config_or_default
runtime_queue_config is_base own base defaults =
    if is_base
    then queue_config_or_default own defaults
    else queue_config_or_default own (queue_config_or_default base defaults)
