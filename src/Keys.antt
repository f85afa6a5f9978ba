-- ===== src/Keys.antt =====
-- oxana/src/storage_keys.rs, and `namespace_queue` and `processing_queue` of
-- oxana/src/storage_internal.rs: the names of the Redis keys.
pub mod Distinct
use Prim.Native.String.{◌++◌ as str_append}
use oxana.Base.{String, Bool, true, false, str_eq, starts_with, if◌then◌else◌}

pub record StorageKeys : Type 0 where
  pub namespace : String
  pub jobs : String
  pub dead : String
  pub schedule : String
  pub retry : String
  pub queue_prefix : String
  pub processing_queue_prefix : String
  pub processes : String
  pub processes_data : String
  pub stats : String
  pub queue_configs : String
  pub metrics_prefix : String

-- An absent namespace comes as the empty text.
abbrev pub namespace_or_default : String → String
namespace_or_default given = if str_eq given "" then "oxanus" else given

unfoldable pub new : String → StorageKeys
new given =
    let namespace = namespace_or_default given in
    record {
      namespace = namespace;
      jobs = str_append namespace ":jobs";
      dead = str_append namespace ":dead";
      schedule = str_append namespace ":schedule";
      retry = str_append namespace ":retry";
      queue_prefix = str_append namespace ":queue";
      processing_queue_prefix = str_append namespace ":processing";
      processes = str_append namespace ":processes";
      processes_data = str_append namespace ":processes_data";
      stats = str_append namespace ":stats";
      queue_configs = str_append namespace ":queue_configs";
      metrics_prefix = str_append namespace ":metrics";
    }

-- A name that starts with the namespace is taken for a key already.
unfoldable pub namespace_queue : StorageKeys → String → String
namespace_queue keys queue =
    if starts_with queue keys.namespace
    then queue
    else str_append keys.queue_prefix (str_append ":" queue)

unfoldable pub processing_queue : StorageKeys → String → String
processing_queue keys process_id =
    str_append keys.processing_queue_prefix (str_append ":" process_id)
