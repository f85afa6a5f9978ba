-- ===== src/Metrics/Snapshots.antt =====
-- `job_metrics`, `job_metrics_for` and `queue_length_metrics` of storage_internal.rs: what a query of
-- the metrics returns. `hgetall` and `hget` read the hash under a key, `bitfield_get` the buckets of a
-- histogram; the connection and its failures are left out.
use oxana.Base.{ℕ, List, [], ◌∷◌, Option, none, some, map, unwrap_or}
use oxana.Base.Lists.{length}
use oxana.Base.Decimal.{Bytes}
use oxana.Keys.{StorageKeys}
use oxana.Metrics.{ℤ, pos, MetricIdentity, JobMetricsTotals, JobMetricsPoint, job_metric_keys}
use oxana.Metrics.Fields.{metric_field}
use oxana.Metrics.Histogram.{
  JobMetricsHistogramBucket, histogram_buckets_from_counts, histogram_bitfield_fetch_args,
}
use oxana.Metrics.Aggregate.{Hash, WorkerMetricsSummary, aggregate_counter_hashes, sixty_times}
use oxana.Metrics.Lengths.{
  JobMetricsQuery, QueueLengthMetricsSeries, metric_minutes, queue_length_series_from_hashes,
}
use oxana.Metrics.Flush.{
  metrics_counter_key, metrics_queue_length_key, metrics_histogram_key,
  metrics_histogram_counts_for,
}

pub record JobMetricsSnapshot : Type 0 where
  pub starts_at : ℤ
  pub ends_at : ℤ
  pub minutes : ℕ
  pub totals : JobMetricsTotals
  pub series : List JobMetricsPoint
  pub workers : List WorkerMetricsSummary

pub record JobMetricsDetail : Type 0 where
  pub identity : MetricIdentity
  pub starts_at : ℤ
  pub ends_at : ℤ
  pub minutes : ℕ
  pub totals : JobMetricsTotals
  pub series : List JobMetricsPoint
  pub histogram : List JobMetricsHistogramBucket

pub record QueueLengthMetricsSnapshot : Type 0 where
  pub starts_at : ℤ
  pub ends_at : ℤ
  pub minutes : ℕ
  pub queues : List QueueLengthMetricsSeries

abbrev first : List ℤ → Option ℤ
first [] = none
first (x ∷ xs) = some x

abbrev last : List ℤ → Option ℤ
last [] = none
last (x ∷ xs) = elim xs [ [] ↦ some x | y ∷ ys ↦ last xs ]

abbrev pub starts_at : List ℤ → ℤ
starts_at minutes = sixty_times (unwrap_or (first minutes) (pos 0))

abbrev pub ends_at : List ℤ → ℤ
ends_at minutes = sixty_times (unwrap_or (last minutes) (pos 0))

-- The fields of one worker that a hash has, in the order in which they are asked for.
unfoldable pub fields_found : (Bytes → Option ℤ) → List Bytes → Hash
fields_found get [] = []
fields_found get (field ∷ fields) = elim (get field) [
  | none ↦ fields_found get fields
  | some value ↦ (field, value) ∷ fields_found get fields
]

module _ (keys : StorageKeys) (hgetall : Bytes → Hash) (hget : Bytes → Bytes → Option ℤ)
    (bitfield_get : Bytes → List Bytes → List (Option ℕ)) where
  unfoldable pub metrics_counter_hashes : List ℤ → List Hash
  unfolding metrics_counter_key
  metrics_counter_hashes minutes = map (λ minute. hgetall (metrics_counter_key keys minute)) minutes

  unfoldable pub queue_length_metric_hashes : List ℤ → List Hash
  unfolding metrics_queue_length_key
  queue_length_metric_hashes minutes =
      map (λ minute. hgetall (metrics_queue_length_key keys minute)) minutes

  unfoldable pub metrics_counter_hashes_for : List ℤ → MetricIdentity → List Hash
  unfolding metrics_counter_key fields_found metric_field
  metrics_counter_hashes_for minutes identity =
      let fields = map (metric_field identity) job_metric_keys in
      map (λ minute. fields_found (hget (metrics_counter_key keys minute)) fields) minutes

  abbrev no_buckets : List ℕ
  no_buckets = 0 ∷ 0 ∷ 0 ∷ 0 ∷ 0 ∷ 0 ∷ 0 ∷ 0 ∷ 0 ∷ 0 ∷ 0 ∷ 0 ∷ 0 ∷ 0 ∷ []

  unfoldable pub histogram_for : List ℤ → MetricIdentity → List ℕ
  unfolding metrics_histogram_key histogram_bitfield_fetch_args metrics_histogram_counts_for
  histogram_for minutes identity =
      let fetch_args = histogram_bitfield_fetch_args in
      metrics_histogram_counts_for
        (map (λ minute. bitfield_get (metrics_histogram_key keys identity minute) fetch_args)
          minutes)
        no_buckets

  unfoldable pub job_metrics : JobMetricsQuery → ℤ → JobMetricsSnapshot
  unfolding metric_minutes metrics_counter_hashes aggregate_counter_hashes
  job_metrics query now_ts =
      let minutes = metric_minutes now_ts query in
      let aggregation = aggregate_counter_hashes minutes (metrics_counter_hashes minutes) none in
      record {
        starts_at = starts_at minutes;
        ends_at = ends_at minutes;
        minutes = length minutes;
        totals = aggregation.totals;
        series = aggregation.series;
        workers = aggregation.workers;
      }

  unfoldable pub job_metrics_for : MetricIdentity → JobMetricsQuery → ℤ → JobMetricsDetail
  unfolding metric_minutes metrics_counter_hashes_for aggregate_counter_hashes histogram_for
      histogram_buckets_from_counts
  job_metrics_for identity query now_ts =
      let minutes = metric_minutes now_ts query in
      let aggregation =
        aggregate_counter_hashes minutes (metrics_counter_hashes_for minutes identity)
          (some identity) in
      record {
        identity = identity;
        starts_at = starts_at minutes;
        ends_at = ends_at minutes;
        minutes = length minutes;
        totals = aggregation.totals;
        series = aggregation.series;
        histogram = histogram_buckets_from_counts (histogram_for minutes identity);
      }

  unfoldable pub queue_length_metrics : JobMetricsQuery → ℤ → QueueLengthMetricsSnapshot
  unfolding metric_minutes queue_length_metric_hashes queue_length_series_from_hashes
  queue_length_metrics query now_ts =
      let minutes = metric_minutes now_ts query in
      record {
        starts_at = starts_at minutes;
        ends_at = ends_at minutes;
        minutes = length minutes;
        queues = queue_length_series_from_hashes minutes (queue_length_metric_hashes minutes);
      }
