-- ===== src/Metrics/Buffer.antt =====
-- `JobMetricsBuffer` of metrics.rs: the counts that wait for the next flush. The minute comes from the
-- clock.
use oxana.Base.{
  ℕ, zero, suc, String, Bool, true, false, List, [], ◌∷◌, ◌&&◌, ◌==◌, str_eq, if◌then◌else◌,
}
use oxana.Base.Decimal.{Bytes, bytes_eq}
use oxana.Executor.{WorkerResultKind, success, panicked, failed}
use oxana.Collector.{WorkerResult}
use oxana.Metrics.{
  ℤ, pos, negsuc, MetricIdentity, QueueCounterTotals, plus, utf8, metric_processed_jobs,
  metric_failed_jobs, metric_panicked_jobs, metric_successful_executions, metric_failed_executions,
  metric_panicked_executions, metric_execution_ms, queue_metric_succeeded_jobs,
}
use oxana.Metrics.Histogram.{histogram_bucket_index}

pub record PendingJobMetrics : Type 0 where
  pub processed : ℕ
  pub failed : ℕ
  pub panicked : ℕ
  pub successful_executions : ℕ
  pub failed_executions : ℕ
  pub panicked_executions : ℕ
  pub execution_ms : ℕ
  pub histogram : List ℕ

abbrev pub no_metrics : PendingJobMetrics
no_metrics = record {
  processed = 0;
  failed = 0;
  panicked = 0;
  successful_executions = 0;
  failed_executions = 0;
  panicked_executions = 0;
  execution_ms = 0;
  histogram = 0 ∷ 0 ∷ 0 ∷ 0 ∷ 0 ∷ 0 ∷ 0 ∷ 0 ∷ 0 ∷ 0 ∷ 0 ∷ 0 ∷ 0 ∷ 0 ∷ [];
}

abbrev pub no_queue_metrics : QueueCounterTotals
no_queue_metrics = record { processed = 0; succeeded = 0; failed = 0 }

pub record JobMetricsBuffer : Type 0 where
  pub entries : List ((ℤ × MetricIdentity) × PendingJobMetrics)
  pub queue_entries : List ((ℤ × String) × QueueCounterTotals)

-- Counts one in a bucket, if there is such a one.
unfoldable pub bump : List ℕ → ℕ → List ℕ
bump [] i = []
bump (n ∷ ns) zero = plus n 1 ∷ ns
bump (n ∷ ns) (suc i) = n ∷ bump ns i

abbrev pub record_kind : WorkerResultKind → ℕ → ℕ → PendingJobMetrics → PendingJobMetrics
record_kind success execution_ms job_count m = record m {
  successful_executions = plus m.successful_executions 1;
  execution_ms = plus m.execution_ms execution_ms;
  histogram = bump m.histogram (histogram_bucket_index execution_ms);
}
record_kind panicked execution_ms job_count m = record m {
  failed = plus m.failed job_count;
  panicked = plus m.panicked job_count;
  failed_executions = plus m.failed_executions 1;
  panicked_executions = plus m.panicked_executions 1;
}
record_kind failed execution_ms job_count m = record m {
  failed = plus m.failed job_count;
  failed_executions = plus m.failed_executions 1;
}

unfoldable pub record_job : WorkerResult → PendingJobMetrics → PendingJobMetrics
unfolding bump
record_job r m =
    record_kind r.kind r.execution_ms r.job_count
      (record m { processed = plus m.processed r.job_count })

abbrev pub record_queue_kind : WorkerResultKind → ℕ → QueueCounterTotals → QueueCounterTotals
record_queue_kind success job_count q = record q { succeeded = plus q.succeeded job_count }
record_queue_kind panicked job_count q = record q { failed = plus q.failed job_count }
record_queue_kind failed job_count q = record q { failed = plus q.failed job_count }

unfoldable pub record_queue : WorkerResult → QueueCounterTotals → QueueCounterTotals
record_queue r q =
    record_queue_kind r.kind r.job_count (record q { processed = plus q.processed r.job_count })

abbrev pub int_eq : ℤ → ℤ → Bool
int_eq (pos a) (pos b) = a == b
int_eq (pos a) (negsuc b) = false
int_eq (negsuc a) (pos b) = false
int_eq (negsuc a) (negsuc b) = a == b

-- `entry(key).or_default()`, and what is done with it.
unfoldable pub upsert :
    {K M : Type 0} → (K → K → Bool) → K → M → (M → M) → List (K × M) → List (K × M)
upsert eq key default f [] = (key, f default) ∷ []
upsert eq key default f ((k, m) ∷ rest) =
    let after = upsert eq key default f rest in if eq k key then (k, f m) ∷ rest else (k, m) ∷ after

abbrev pub same_entry : ℤ × MetricIdentity → ℤ × MetricIdentity → Bool
same_entry (m, i) (n, j) = int_eq m n && bytes_eq i.worker j.worker

abbrev pub same_queue : ℤ × String → ℤ × String → Bool
same_queue (m, q) (n, r) = int_eq m n && str_eq q r

-- `record`; the minute is the clock's.
unfoldable pub record_metrics : ℤ → WorkerResult → JobMetricsBuffer → JobMetricsBuffer
unfolding upsert record_job record_queue
record_metrics minute r b = record {
  entries =
      upsert same_entry (minute, record { worker = utf8 r.worker_name }) no_metrics (record_job r)
        b.entries;
  queue_entries =
      upsert same_queue (minute, r.queue) no_queue_metrics (record_queue r) b.queue_entries;
}

unfoldable pub is_empty : JobMetricsBuffer → Bool
is_empty b = elim b.entries [
  | [] ↦ elim b.queue_entries [ [] ↦ true | e ∷ es ↦ false ]
  | e ∷ es ↦ false
]

abbrev pub cleared : JobMetricsBuffer
cleared = record { entries = []; queue_entries = [] }

-- `PendingJobMetrics::increments`
abbrev pub increments : PendingJobMetrics → List (Bytes × ℕ)
increments m =
    (metric_processed_jobs, m.processed)
    ∷ (metric_failed_jobs, m.failed)
    ∷ (metric_panicked_jobs, m.panicked)
    ∷ (metric_successful_executions, m.successful_executions)
    ∷ (metric_failed_executions, m.failed_executions)
    ∷ (metric_panicked_executions, m.panicked_executions)
    ∷ (metric_execution_ms, m.execution_ms)
    ∷ []

-- `QueueCounterTotals::increments`
abbrev pub queue_increments : QueueCounterTotals → List (Bytes × ℕ)
queue_increments q =
    (metric_processed_jobs, q.processed)
    ∷ (queue_metric_succeeded_jobs, q.succeeded)
    ∷ (metric_failed_jobs, q.failed)
    ∷ []
