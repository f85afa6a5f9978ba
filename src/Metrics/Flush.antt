-- ===== src/Metrics/Flush.antt =====
-- The pipelines of storage_internal.rs that write counts: `flush_job_metrics`, `flush_result_stats` and
-- `write_queue_length_stats`, as the commands that they send, and the names of the keys.
use oxana.Base.{
  ℕ, ◌+◌, String, List, [], ◌∷◌, ◌++◌, ltb, min_of, map, if◌then◌else◌, Option, unwrap_or,
}
use oxana.Base.Lists.{length}
use oxana.Base.Decimal.{Bytes, show}
use oxana.Keys.{StorageKeys}
use oxana.Collector.{PendingStats, i64_max}
use oxana.Metrics.{
  ℤ, pos, negsuc, utf8, MetricIdentity, QueueCounterTotals, plus, metrics_retention_secs,
}
use oxana.Metrics.Fields.{field_key, metric_field, queue_metric_field}
use oxana.Metrics.Histogram.{histogram_bitfield_increment_args}
use oxana.Metrics.Buffer.{
  PendingJobMetrics, JobMetricsBuffer, increments, queue_increments, is_empty,
}
use oxana.Metrics.Lengths.{minute_of}

-- The Redis commands HINCRBY, HSET, EXPIRE and BITFIELD.
pub data MetricsCommand : Type 0 where
  hincr : Bytes → Bytes → ℕ → MetricsCommand
  hset : Bytes → Bytes → ℤ → MetricsCommand
  expire : Bytes → ℕ → MetricsCommand
  bitfield : Bytes → List Bytes → MetricsCommand

abbrev pub show_int : ℤ → Bytes
show_int (pos n) = show n
show_int (negsuc n) = b'-' ∷ show (n + 1)

abbrev under_metrics : StorageKeys → Bytes → ℤ → Bytes
under_metrics keys part minute = utf8 keys.metrics_prefix ++ part ++ show_int minute

unfoldable pub metrics_counter_key : StorageKeys → ℤ → Bytes
metrics_counter_key keys minute = under_metrics keys (b':' ∷ b'j' ∷ b':' ∷ []) minute

unfoldable pub metrics_queue_length_key : StorageKeys → ℤ → Bytes
metrics_queue_length_key keys minute = under_metrics keys (b':' ∷ b'q' ∷ b':' ∷ []) minute

unfoldable pub metrics_queue_counter_key : StorageKeys → ℤ → Bytes
metrics_queue_counter_key keys minute = under_metrics keys (b':' ∷ b'q' ∷ b'c' ∷ b':' ∷ []) minute

unfoldable pub metrics_histogram_key : StorageKeys → MetricIdentity → ℤ → Bytes
unfolding field_key
metrics_histogram_key keys identity minute =
    under_metrics keys (b':' ∷ b'h' ∷ b':' ∷ field_key identity ++ b':' ∷ []) minute

unfoldable pub redis_metric_increment : ℕ → ℕ
redis_metric_increment value = min_of value i64_max

-- The fields of a hash that are incremented, with what they are incremented by. `field` names them.
unfoldable pub increment_fields : (Bytes → Bytes) → List (Bytes × ℕ) → List (Bytes × ℕ)
unfolding redis_metric_increment
increment_fields field [] = []
increment_fields field ((metric, value) ∷ rest) =
    let after = increment_fields field rest in
    if ltb 0 value then (field metric, redis_metric_increment value) ∷ after else after

abbrev hincr_all : Bytes → List (Bytes × ℕ) → List MetricsCommand
hincr_all key fields = map (λ (field, n). hincr key field n) fields

abbrev histogram_commands : Bytes → List Bytes → List MetricsCommand
histogram_commands key args =
    if ltb 2 (length args) then bitfield key args ∷ expire key metrics_retention_secs ∷ [] else []

unfoldable pub worker_commands :
    StorageKeys → List ((ℤ × MetricIdentity) × PendingJobMetrics) → List MetricsCommand
unfolding increment_fields metric_field metrics_counter_key metrics_histogram_key
    histogram_bitfield_increment_args
worker_commands keys [] = []
worker_commands keys (((minute, identity), metrics) ∷ rest) =
    let counter_key = metrics_counter_key keys minute in
    hincr_all counter_key (increment_fields (metric_field identity) (increments metrics))
    ++ expire counter_key metrics_retention_secs
      ∷ histogram_commands (metrics_histogram_key keys identity minute)
          (histogram_bitfield_increment_args metrics.histogram)
    ++ worker_commands keys rest

unfoldable pub queue_commands :
    StorageKeys → List ((ℤ × String) × QueueCounterTotals) → List MetricsCommand
unfolding increment_fields queue_metric_field metrics_queue_counter_key
queue_commands keys [] = []
queue_commands keys (((minute, queue), metrics) ∷ rest) =
    let counter_key = metrics_queue_counter_key keys minute in
    hincr_all counter_key
      (increment_fields (queue_metric_field (utf8 queue)) (queue_increments metrics))
    ++ expire counter_key metrics_retention_secs ∷ queue_commands keys rest

-- Nothing is sent for an empty buffer.
unfoldable pub flush_job_metrics : StorageKeys → JobMetricsBuffer → List MetricsCommand
unfolding is_empty worker_commands queue_commands
flush_job_metrics keys buffer =
    if is_empty buffer
    then []
    else worker_commands keys buffer.entries ++ queue_commands keys buffer.queue_entries

abbrev stat_field : String → String → Bytes
stat_field queue stat_name = utf8 queue ++ b':' ∷ utf8 stat_name

abbrev stat_command : StorageKeys → String → String → ℕ → List MetricsCommand
stat_command keys queue stat_name value =
    if ltb 0 value then hincr (utf8 keys.stats) (stat_field queue stat_name) value ∷ [] else []

-- The counts of queues since the last flush. They are not negative.
unfoldable pub flush_result_stats : StorageKeys → PendingStats → List MetricsCommand
flush_result_stats keys [] = []
flush_result_stats keys ((queue, s) ∷ rest) =
    stat_command keys queue "processed" s.processed
    ++ stat_command keys queue "succeeded" s.succeeded
    ++ stat_command keys queue "panicked" s.panicked
    ++ stat_command keys queue "failed" s.failed
    ++ flush_result_stats keys rest

abbrev length_commands : StorageKeys → Bytes → ℤ → List (String × ℤ) → List MetricsCommand
length_commands keys queue_length_key refreshed_at [] =
    expire queue_length_key metrics_retention_secs ∷ []
length_commands keys queue_length_key refreshed_at ((queue, count) ∷ rest) =
    hset (utf8 keys.stats) (stat_field queue "enqueued") count
    ∷ hset (utf8 keys.stats) (stat_field queue "enqueued_at") refreshed_at
    ∷ hset queue_length_key (utf8 queue) count
    ∷ length_commands keys queue_length_key refreshed_at rest

unfoldable pub write_queue_length_stats : StorageKeys → List (String × ℤ) → ℤ → List MetricsCommand
unfolding metrics_queue_length_key
write_queue_length_stats keys lengths refreshed_at =
    length_commands keys (metrics_queue_length_key keys (minute_of refreshed_at)) refreshed_at
      lengths

-- The histogram of a worker over some minutes, from the answers to BITFIELD.
unfoldable pub add_buckets : List ℕ → List (Option ℕ) → List ℕ
add_buckets [] values = []
add_buckets (total ∷ totals) [] = total ∷ totals
add_buckets (total ∷ totals) (value ∷ values) =
    plus total (unwrap_or value 0) ∷ add_buckets totals values

unfoldable pub metrics_histogram_counts_for : List (List (Option ℕ)) → List ℕ → List ℕ
unfolding add_buckets
metrics_histogram_counts_for [] totals = totals
metrics_histogram_counts_for (values ∷ rest) totals =
    metrics_histogram_counts_for rest (add_buckets totals values)
