-- ===== src/Metrics/Aggregate.antt =====
-- The aggregations of metrics.rs: what the hashes of some minutes add up to. A hash is the list of its
-- fields, in the order in which they come; the points and the hashes go through in step, and a hash
-- behind the last minute is not looked at.
use oxana.Base.{
  ℕ, zero, suc, ◌+◌, ◌*◌, Bool, false, Option, none, some, List, [], ◌∷◌, map, ◌==◌, ltb, not,
  if◌then◌else◌,
}
use oxana.Base.Decimal.{Bytes, bytes_eq}
use oxana.Base.Sorting.{sort_by, bytes_le}
use oxana.Metrics.{
  ℤ, pos, negsuc, unsigned, MetricIdentity, JobMetricsTotals, JobMetricsPoint, QueueCounterTotals,
  no_totals, add_metric, finalize, plus, metric_processed_jobs, metric_failed_jobs,
  queue_metric_succeeded_jobs,
}
use oxana.Metrics.Fields.{split_metric_field, split_queue_metric_field}

abbrev pub Hash : Type 0
Hash = List (Bytes × ℤ)

pub record WorkerMetricsSummary : Type 0 where
  pub identity : MetricIdentity
  pub totals : JobMetricsTotals
  pub series : List JobMetricsPoint

pub record JobMetricsAggregation : Type 0 where
  pub totals : JobMetricsTotals
  pub series : List JobMetricsPoint
  pub workers : List WorkerMetricsSummary

abbrev pub sixty_times : ℤ → ℤ
sixty_times (pos n) = pos (n * 60)
sixty_times (negsuc n) = negsuc (n * 60 + 59)

abbrev pub point_at : ℤ → JobMetricsPoint
point_at minute = record { timestamp = sixty_times minute; counts = no_totals }

abbrev pub add_to_point : Bytes → ℕ → JobMetricsPoint → JobMetricsPoint
add_to_point metric value p = record p { counts = add_metric metric value p.counts }

abbrev pub finalize_point : JobMetricsPoint → JobMetricsPoint
finalize_point p = record p { counts = finalize p.counts }

-- `get_mut(idx)`
abbrev pub modify : {A : Type 0} → ℕ → (A → A) → List A → List A
modify idx f [] = []
modify zero f (x ∷ xs) = f x ∷ xs
modify (suc idx) f (x ∷ xs) = x ∷ modify idx f xs

abbrev add_to_summary : ℕ → Bytes → ℕ → WorkerMetricsSummary → WorkerMetricsSummary
add_to_summary idx metric value w = record w {
  totals = add_metric metric value w.totals;
  series = modify idx (add_to_point metric value) w.series;
}

unfoldable pub add_to_worker :
    List JobMetricsPoint
    → ℕ
    → MetricIdentity
    → Bytes
    → ℕ
    → List WorkerMetricsSummary
    → List WorkerMetricsSummary
add_to_worker template idx identity metric value [] =
    add_to_summary idx metric value
      (record { identity = identity; totals = no_totals; series = template })
    ∷ []
add_to_worker template idx identity metric value (w ∷ ws) =
    let after = add_to_worker template idx identity metric value ws in
    if bytes_eq w.identity.worker identity.worker
    then add_to_summary idx metric value w ∷ ws
    else w ∷ after

-- The point of the minute, the totals and the workers.
pub record Building : Type 0 where
  pub point : JobMetricsTotals
  pub totals : JobMetricsTotals
  pub workers : List WorkerMetricsSummary

abbrev pub excluded : Option MetricIdentity → MetricIdentity → Bool
excluded none identity = false
excluded (some expected) identity = not (bytes_eq expected.worker identity.worker)

abbrev pub add_entry :
    List JobMetricsPoint
    → ℕ
    → Option MetricIdentity
    → ℕ
    → Option (MetricIdentity × Bytes)
    → Building
    → Building
add_entry template idx filter value none b = b
add_entry template idx filter value (some (identity, metric)) b =
    if excluded filter identity then b else record {
      point = add_metric metric value b.point;
      totals = add_metric metric value b.totals;
      workers = add_to_worker template idx identity metric value b.workers;
    }

unfoldable pub add_hash :
    List JobMetricsPoint → ℕ → Option MetricIdentity → Hash → Building → Building
unfolding split_metric_field
add_hash template idx filter [] b = b
add_hash template idx filter ((field, raw_value) ∷ rest) b =
    add_hash template idx filter rest
      (add_entry template idx filter (unsigned raw_value) (split_metric_field field) b)

abbrev pub with_point : JobMetricsPoint → JobMetricsAggregation → JobMetricsAggregation
with_point p a = record a { series = p ∷ a.series }

abbrev pub point_of : JobMetricsPoint → Building → JobMetricsPoint
point_of p b = finalize_point (record p { counts = b.point })

unfoldable pub add_hashes :
    List JobMetricsPoint
    → Option MetricIdentity
    → ℕ
    → List JobMetricsPoint
    → List Hash
    → JobMetricsTotals
    → List WorkerMetricsSummary
    → JobMetricsAggregation
unfolding add_hash
add_hashes template filter idx [] hashes totals workers = record {
  totals = totals;
  series = [];
  workers = workers;
}
add_hashes template filter idx (p ∷ ps) [] totals workers = record {
  totals = totals;
  series = p ∷ ps;
  workers = workers;
}
add_hashes template filter idx (p ∷ ps) (hash ∷ hashes) totals workers =
    let b =
      add_hash template idx filter hash
        (record { point = p.counts; totals = totals; workers = workers }) in
    with_point (point_of p b) (add_hashes template filter (idx + 1) ps hashes b.totals b.workers)

abbrev pub worker_before : WorkerMetricsSummary → WorkerMetricsSummary → Bool
worker_before a b =
    if a.totals.execution_ms == b.totals.execution_ms
    then if a.totals.processed == b.totals.processed
      then bytes_le a.identity.worker b.identity.worker
      else ltb b.totals.processed a.totals.processed
    else ltb b.totals.execution_ms a.totals.execution_ms

abbrev finalize_summary : WorkerMetricsSummary → WorkerMetricsSummary
finalize_summary w = record w { totals = finalize w.totals; series = map finalize_point w.series }

abbrev pub finished : JobMetricsAggregation → JobMetricsAggregation
finished a = record a {
  totals = finalize a.totals;
  workers = sort_by worker_before (map finalize_summary a.workers);
}

unfoldable pub aggregate_counter_hashes :
    List ℤ → List Hash → Option MetricIdentity → JobMetricsAggregation
unfolding add_hashes sort_by
aggregate_counter_hashes minutes hashes filter =
    let template = map point_at minutes in
    finished (add_hashes template filter 0 template hashes no_totals [])

-- The counts of queues.
abbrev add_queue_metric : Bytes → ℕ → QueueCounterTotals → QueueCounterTotals
add_queue_metric metric value q =
    if bytes_eq metric metric_processed_jobs
    then record q { processed = plus q.processed value }
    else if bytes_eq metric queue_metric_succeeded_jobs
    then record q { succeeded = plus q.succeeded value }
    else if bytes_eq metric metric_failed_jobs
    then record q { failed = plus q.failed value }
    else q

unfoldable pub add_to_queue :
    Bytes → Bytes → ℕ → List (Bytes × QueueCounterTotals) → List (Bytes × QueueCounterTotals)
add_to_queue queue metric value [] =
    (queue, add_queue_metric metric value (record { processed = 0; succeeded = 0; failed = 0 }))
    ∷ []
add_to_queue queue metric value ((k, q) ∷ rest) =
    let after = add_to_queue queue metric value rest in
    if bytes_eq k queue then (k, add_queue_metric metric value q) ∷ rest else (k, q) ∷ after

abbrev add_queue_entry :
    ℕ
    → Option (Bytes × Bytes)
    → List (Bytes × QueueCounterTotals)
    → List (Bytes × QueueCounterTotals)
add_queue_entry value none queues = queues
add_queue_entry value (some (queue, metric)) queues = add_to_queue queue metric value queues

unfoldable pub add_queue_hash :
    Hash → List (Bytes × QueueCounterTotals) → List (Bytes × QueueCounterTotals)
unfolding add_to_queue split_queue_metric_field
add_queue_hash [] queues = queues
add_queue_hash ((field, raw_value) ∷ rest) queues =
    add_queue_hash rest
      (add_queue_entry (unsigned raw_value) (split_queue_metric_field field) queues)

unfoldable pub add_queue_hashes :
    List Hash → List (Bytes × QueueCounterTotals) → List (Bytes × QueueCounterTotals)
unfolding add_queue_hash
add_queue_hashes [] queues = queues
add_queue_hashes (hash ∷ hashes) queues = add_queue_hashes hashes (add_queue_hash hash queues)

unfoldable pub aggregate_queue_counter_hashes : List Hash → List (Bytes × QueueCounterTotals)
unfolding add_queue_hashes
aggregate_queue_counter_hashes hashes = add_queue_hashes hashes []
