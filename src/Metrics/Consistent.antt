-- ===== src/Metrics/Consistent.antt =====
-- `JobMetricsBuffer::record` of metrics.rs: the counts of an entry, against one another.
use oxana.Base.{
  ℕ, zero, suc, ◌+◌, ◌≤◌, ◌<◌, List, [], ◌∷◌, ◌≡◌, refl, ◌∙◌, arith, Bool-cases, inl, inr,
}
use oxana.Base.Lists.{length}
use oxana.Executor.{WorkerResultKind, success, panicked, failed}
use oxana.Collector.{WorkerResult, u64_max}
use oxana.Metrics.{ℤ, MetricIdentity, plus, utf8}
use oxana.Metrics.Histogram.{histogram_bucket_index, histogram_bucket_index-lt}
use oxana.Metrics.Buffer.{
  PendingJobMetrics, no_metrics, JobMetricsBuffer, bump, record_kind, record_job, upsert,
  same_entry, record_metrics,
}

abbrev pub sum : List ℕ → ℕ
sum [] = 0
sum (n ∷ ns) = n + sum ns

-- A histogram has fourteen buckets.
abbrev pub Buckets : List ℕ → Type 0
Buckets h = length h ≡ 14

-- The counts of an entry fit together: panics are failures, failures are processed, and as long as the
-- count of successes has not come to its end, the histogram has one entry for each.
pub record IsConsistent (m : PendingJobMetrics) : Type 0 where
  pub bounded : m.processed ≤ u64_max
  pub failed_processed : m.failed ≤ m.processed
  pub panicked_failed : m.panicked ≤ m.failed
  pub panics : m.panicked_executions ≤ m.failed_executions
  pub executions_bounded : m.failed_executions ≤ u64_max
  pub buckets : Buckets m.histogram
  pub counted : m.successful_executions < u64_max → sum m.histogram ≡ m.successful_executions

sum-bump : (h : List ℕ) (i : ℕ) → i < length h → sum h < u64_max → sum (bump h i) ≡ sum h + 1
unfolding bump
sum-bump [] i lt small = absurd (omega arith)
sum-bump (n ∷ ns) zero lt small = ground arith
sum-bump (n ∷ ns) (suc i) lt small = omega (arith, sum-bump ns i (omega arith) (omega arith))

length-bump : (h : List ℕ) (i : ℕ) → length (bump h i) ≡ length h
unfolding bump
length-bump [] i = refl
length-bump (n ∷ ns) zero = omega arith
length-bump (n ∷ ns) (suc i) = omega (arith, length-bump ns i)

record_kind-IsConsistent :
    (kind : WorkerResultKind) (ms n : ℕ) (m : PendingJobMetrics)
    → IsConsistent m
    → IsConsistent (record_kind kind ms n (record m { processed = plus m.processed n }))
record_kind-IsConsistent success ms n m c = record {
  bounded = ground arith;
  failed_processed = ground (arith, c.bounded, c.failed_processed);
  panicked_failed = c.panicked_failed;
  panics = c.panics;
  executions_bounded = c.executions_bounded;
  buckets = length-bump m.histogram (histogram_bucket_index ms) ∙ c.buckets;
  counted = λ below.
      sum-bump m.histogram (histogram_bucket_index ms)
        (let lt = histogram_bucket_index-lt ms in omega (arith, c.buckets))
        (let e = c.counted (ground arith) in ground arith)
      ∙ (let e = c.counted (ground arith) in ground arith);
}
record_kind-IsConsistent panicked ms n m c = record {
  bounded = ground (arith, c.bounded);
  failed_processed = ground (arith, c.bounded, c.failed_processed);
  panicked_failed = ground (arith, c.bounded, c.failed_processed, c.panicked_failed);
  panics = ground (arith, c.panics, c.executions_bounded);
  executions_bounded = ground (arith, c.executions_bounded);
  buckets = c.buckets;
  counted = c.counted;
}
record_kind-IsConsistent failed ms n m c = record {
  bounded = ground (arith, c.bounded);
  failed_processed = ground (arith, c.bounded, c.failed_processed);
  panicked_failed = ground (arith, c.bounded, c.failed_processed, c.panicked_failed);
  panics = ground (arith, c.panics, c.executions_bounded);
  executions_bounded = ground (arith, c.executions_bounded);
  buckets = c.buckets;
  counted = c.counted;
}

no_metrics-IsConsistent : IsConsistent no_metrics
no_metrics-IsConsistent = record {
  bounded = omega arith;
  failed_processed = omega arith;
  panicked_failed = omega arith;
  panics = omega arith;
  executions_bounded = omega arith;
  buckets = refl;
  counted = λ below. refl;
}

abbrev pub AllConsistent : List ((ℤ × MetricIdentity) × PendingJobMetrics) → Type 0
AllConsistent [] = Unit {0}
AllConsistent ((k, m) ∷ rest) = IsConsistent m × AllConsistent rest

upsert-AllConsistent :
    (k : ℤ × MetricIdentity) (f : PendingJobMetrics → PendingJobMetrics)
    → ((m : PendingJobMetrics) → IsConsistent m → IsConsistent (f m))
    → (es : List ((ℤ × MetricIdentity) × PendingJobMetrics)) → AllConsistent es
    → AllConsistent (upsert same_entry k no_metrics f es)
unfolding upsert
upsert-AllConsistent k f keep [] h = (keep no_metrics no_metrics-IsConsistent, tt)
upsert-AllConsistent k f keep ((j, m) ∷ rest) h = elim (Bool-cases (same_entry j k)) [
  | inl same ↦ rw same (keep m h.0, h.1)
  | inr other ↦ rw other (h.0, upsert-AllConsistent k f keep rest h.1)
]

-- The buffer after some results, the last of which comes first, each at its minute.
abbrev pub recorded : List (ℤ × WorkerResult) → JobMetricsBuffer → JobMetricsBuffer
recorded [] b = b
recorded ((minute, r) ∷ rs) b = record_metrics minute r (recorded rs b)

-- If the counts of each entry fit together at first, they do after any results at any minutes.
pub record_metrics-AllConsistent :
    (rs : List (ℤ × WorkerResult)) (b : JobMetricsBuffer)
    → AllConsistent b.entries
    → AllConsistent (recorded rs b).entries
unfolding record_metrics record_job
record_metrics-AllConsistent [] b h = h
record_metrics-AllConsistent ((minute, r) ∷ rs) b h =
    upsert-AllConsistent (minute, record { worker = utf8 r.worker_name }) (record_job r)
      (λ m c. record_kind-IsConsistent r.kind r.execution_ms r.job_count m c) _
      (record_metrics-AllConsistent rs b h)
