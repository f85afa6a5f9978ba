-- ===== src/Web/Queues.antt =====
-- The configurations of queues in oxana-web/src/handlers.rs: what a page says of a queue, from the
-- catalog of the code and the stored configurations. The maps are association lists.
use oxana.Base.{
  ℕ, Bool, false, Option, none, some, List, [], ◌∷◌, not, ◌==◌, if◌then◌else◌, unwrap_or,
}
use oxana.Base.Decimal.{Bytes, bytes_eq}
use oxana.Queue.{QueueConcurrency, fixed, dynamic, active, QueueRuntimeConfig, with_defaults}
use oxana.QueueStats.{queue_base}

pub record QueueInfo : Type 0 where
  pub key : Bytes
  pub concurrency : ℕ
  pub dynamic : Bool
  pub dynamic_concurrency : Bool

abbrev pub Stored : Type 0
Stored = List (Bytes × QueueRuntimeConfig)

abbrev pub base_queue_key : Bytes → Bytes
base_queue_key = queue_base

abbrev pub find_queue : List QueueInfo → Bytes → Option QueueInfo
find_queue [] key = none
find_queue (q ∷ qs) key = if bytes_eq q.key key then some q else find_queue qs key

abbrev pub get : Stored → Bytes → Option QueueRuntimeConfig
get [] key = none
get ((k, config) ∷ rest) key = if bytes_eq k key then some config else get rest key

abbrev dynamic_of : Option QueueInfo → Bool
dynamic_of none = false
dynamic_of (some q) = q.dynamic_concurrency

unfoldable pub queue_uses_dynamic_concurrency : List QueueInfo → Bytes → Bool
queue_uses_dynamic_concurrency catalog queue_key =
    dynamic_of (find_queue catalog (base_queue_key queue_key))

-- `QueueRuntimeConfig::new`
abbrev new_config : ℕ → QueueRuntimeConfig
new_config concurrency = record { concurrency = some concurrency; state = active }

abbrev pub config_of : Option QueueInfo → QueueRuntimeConfig
config_of none = new_config 1
config_of (some q) = new_config q.concurrency

unfoldable pub default_queue_runtime_config : List QueueInfo → Bytes → QueueRuntimeConfig
default_queue_runtime_config catalog queue_key =
    config_of (find_queue catalog (base_queue_key queue_key))

unfoldable pub queue_runtime_config_keys : Bytes → List Bytes
queue_runtime_config_keys queue_key =
    let base_key = base_queue_key queue_key in
    if bytes_eq base_key queue_key then base_key ∷ [] else base_key ∷ queue_key ∷ []

-- A stored concurrency counts for a dynamic one only.
unfoldable pub merge_queue_runtime_config :
    List QueueInfo → Bytes → QueueRuntimeConfig → QueueRuntimeConfig → QueueRuntimeConfig
unfolding queue_uses_dynamic_concurrency with_defaults
merge_queue_runtime_config catalog queue_key config default_config =
    with_defaults
      (if queue_uses_dynamic_concurrency catalog queue_key
        then config
        else record config { concurrency = none })
      default_config

abbrev pub merged :
    List QueueInfo → Bytes → Option QueueRuntimeConfig → QueueRuntimeConfig → QueueRuntimeConfig
merged catalog queue_key none default_config = default_config
merged catalog queue_key (some config) default_config =
    merge_queue_runtime_config catalog queue_key config default_config

unfoldable pub queue_runtime_config_from_map : List QueueInfo → Stored → Bytes → QueueRuntimeConfig
unfolding merge_queue_runtime_config default_queue_runtime_config
queue_runtime_config_from_map catalog stored_configs queue_key =
    let base_key = base_queue_key queue_key in
    let base_config =
      merged catalog base_key (get stored_configs base_key)
        (default_queue_runtime_config catalog base_key) in
    if bytes_eq queue_key base_key
    then base_config
    else merged catalog queue_key (get stored_configs queue_key) base_config

pub data QueueConcurrencyStatus : Type 0 where
  fixed_concurrency : QueueConcurrencyStatus
  default_concurrency override_concurrency : ℕ → QueueConcurrencyStatus

abbrev pub concurrency_stored : Option QueueRuntimeConfig → Option ℕ
concurrency_stored none = none
concurrency_stored (some config) = config.concurrency

abbrev pub status_of : ℕ → Option ℕ → QueueConcurrencyStatus
status_of inherited none = default_concurrency inherited
status_of inherited (some n) =
    if n == inherited then default_concurrency inherited else override_concurrency inherited

unfoldable pub queue_concurrency_status_from_map :
    List QueueInfo → Stored → Bytes → QueueConcurrencyStatus
unfolding queue_uses_dynamic_concurrency default_queue_runtime_config queue_runtime_config_from_map
queue_concurrency_status_from_map catalog stored_configs queue_key =
    let base_key = base_queue_key queue_key in
    let configured_default =
      unwrap_or (default_queue_runtime_config catalog base_key).concurrency 1 in
    let direct_concurrency = concurrency_stored (get stored_configs queue_key) in
    let inherited_default =
      unwrap_or (queue_runtime_config_from_map catalog stored_configs base_key).concurrency
        configured_default in
    if not (queue_uses_dynamic_concurrency catalog queue_key)
    then fixed_concurrency
    else if bytes_eq queue_key base_key
    then status_of configured_default direct_concurrency
    else status_of inherited_default direct_concurrency

-- The concurrency of the code, as the catalog tells it.
abbrev pub concurrency_of : QueueInfo → QueueConcurrency
concurrency_of q = if q.dynamic_concurrency then dynamic q.concurrency else fixed q.concurrency
