-- ===== src/Metrics.antt =====
-- oxana/src/metrics.rs: the counts of jobs and executions by worker, queue and minute. A text of Rust
-- is the list of its bytes here. The two records that `impl_job_metric_aggregation!` serves differ
-- in a time stamp, so a point is a time stamp and totals. A count is a `u64` and saturates. A map is
-- an association list in the order of insertion.
pub mod Fields
pub mod Histogram
pub mod Buffer
pub mod Consistent
pub mod Aggregate
pub mod Lengths
pub mod Flush
pub mod Snapshots
pub mod Written
pub mod Sums
use Prim.Native.Char.{code}
use oxana.Base.{
  ℕ, ◌+◌, ◌-◌, ◌*◌, ◌/◌, ◌%◌, ◌^◌, String, Bool, true, false, List, [], ◌∷◌, ◌++◌, ltb, ◌==◌,
  min_of, if◌then◌else◌,
}
use oxana.Base.Decimal.{Bytes, bytes_eq}
use oxana.Collector.{saturating_add, u64_max}

-- The bytes of a character, and of a text.
abbrev utf8_char : ℕ → Bytes → Bytes
utf8_char c rest =
    if ltb c 128
    then c ∷ rest
    else if ltb c 2048
    then (192 + c / 64) ∷ (128 + c % 64) ∷ rest
    else if ltb c 65536
    then (224 + c / 4096) ∷ (128 + c / 64 % 64) ∷ (128 + c % 64) ∷ rest
    else (240 + c / 262144) ∷ (128 + c / 4096 % 64) ∷ (128 + c / 64 % 64) ∷ (128 + c % 64) ∷ rest

abbrev pub utf8 : String → Bytes
utf8 String.[] = []
utf8 (String.◌∷◌ c s) = utf8_char (code c) (utf8 s)

-- A count read from Redis is an `i64`; `negsuc n` is -(n + 1).
pub data ℤ : Type 0 where
  pos : ℕ → ℤ
  negsuc : ℕ → ℤ

-- `u64::try_from(raw_value).unwrap_or_default()`
abbrev pub unsigned : ℤ → ℕ
unsigned (pos n) = n
unsigned (negsuc n) = 0

abbrev pub metrics_retention_secs : ℕ
metrics_retention_secs = 24 * 60 * 60

abbrev pub metric_processed_jobs : Bytes
metric_processed_jobs = b'p' ∷ []

abbrev pub metric_failed_jobs : Bytes
metric_failed_jobs = b'f' ∷ []

abbrev pub metric_panicked_jobs : Bytes
metric_panicked_jobs = b'p' ∷ b'n' ∷ []

abbrev pub metric_successful_executions : Bytes
metric_successful_executions = b'x' ∷ b's' ∷ []

abbrev pub metric_failed_executions : Bytes
metric_failed_executions = b'x' ∷ b'f' ∷ []

abbrev pub metric_panicked_executions : Bytes
metric_panicked_executions = b'x' ∷ b'p' ∷ b'n' ∷ []

abbrev pub metric_execution_ms : Bytes
metric_execution_ms = b'm' ∷ b's' ∷ []

abbrev pub job_metric_keys : List Bytes
job_metric_keys =
    metric_processed_jobs ∷ metric_failed_jobs ∷ metric_panicked_jobs ∷ metric_successful_executions
    ∷ metric_failed_executions ∷ metric_panicked_executions ∷ metric_execution_ms ∷ []

abbrev pub queue_metric_succeeded_jobs : Bytes
queue_metric_succeeded_jobs = b's' ∷ []

pub record MetricIdentity : Type 0 where
  pub worker : Bytes

pub record JobMetricsTotals : Type 0 where
  pub processed : ℕ
  pub succeeded : ℕ
  pub failed : ℕ
  pub panicked : ℕ
  pub successful_executions : ℕ
  pub failed_executions : ℕ
  pub panicked_executions : ℕ
  pub execution_ms : ℕ

pub record JobMetricsPoint : Type 0 where
  pub timestamp : ℤ
  pub counts : JobMetricsTotals

abbrev pub no_totals : JobMetricsTotals
no_totals = record {
  processed = 0;
  succeeded = 0;
  failed = 0;
  panicked = 0;
  successful_executions = 0;
  failed_executions = 0;
  panicked_executions = 0;
  execution_ms = 0;
}

abbrev pub plus : ℕ → ℕ → ℕ
plus = saturating_add u64_max

-- A field of another name counts nothing.
unfoldable pub add_metric : Bytes → ℕ → JobMetricsTotals → JobMetricsTotals
add_metric metric value t =
    if bytes_eq metric metric_processed_jobs
    then record t { processed = plus t.processed value }
    else if bytes_eq metric metric_failed_jobs
    then record t { failed = plus t.failed value }
    else if bytes_eq metric metric_panicked_jobs
    then record t { panicked = plus t.panicked value }
    else if bytes_eq metric metric_successful_executions
    then record t { successful_executions = plus t.successful_executions value }
    else if bytes_eq metric metric_failed_executions
    then record t { failed_executions = plus t.failed_executions value }
    else if bytes_eq metric metric_panicked_executions
    then record t { panicked_executions = plus t.panicked_executions value }
    else if bytes_eq metric metric_execution_ms
    then record t { execution_ms = plus t.execution_ms value }
    else t

-- The executions of older records are not counted, and stand for their jobs. The sum of the three
-- counts is one of `u64` and wraps.
unfoldable pub finalize : JobMetricsTotals → JobMetricsTotals
finalize t =
    let succeeded = t.processed - t.failed in
    if (t.successful_executions + t.failed_executions + t.panicked_executions) % 2 ^ 64 == 0
    then record t {
      succeeded = succeeded;
      successful_executions = succeeded;
      failed_executions = t.failed;
      panicked_executions = t.panicked;
    }
    else record t { succeeded = succeeded }

unfoldable pub failed_executions_without_panics : JobMetricsTotals → ℕ
failed_executions_without_panics t = t.failed_executions - t.panicked_executions

pub record QueueCounterTotals : Type 0 where
  pub processed : ℕ
  pub succeeded : ℕ
  pub failed : ℕ
