-- ===== src/Metrics/Written.antt =====
-- What the fields that a flush writes count for when they are read again.
use oxana.Base.{
  ℕ, ◌+◌, ◌<◌, ◌^◌, true, List, [], ◌∷◌, ltb, map, if◌then◌else◌, Option, arith, ◌≡◌, Bool-cases,
  inl, inr,
}
use oxana.Base.Lists.{length}
use oxana.Base.Decimal.{Bytes, bytes_eq}
use oxana.Metrics.{
  pos, MetricIdentity, job_metric_keys, metric_processed_jobs, metric_failed_jobs,
  metric_panicked_jobs, metric_successful_executions, metric_failed_executions,
  metric_panicked_executions, metric_execution_ms,
}
use oxana.Metrics.Fields.{metric_field, contains, split_metric_field-metric_field}
use oxana.Metrics.Buffer.{PendingJobMetrics, increments}
use oxana.Metrics.Aggregate.{Hash, excluded}
use oxana.Metrics.Flush.{increment_fields, redis_metric_increment}
use oxana.Metrics.Sums.{field_sum}

-- A hash that did not exist, after its fields have been incremented.
abbrev pub hash_of : List (Bytes × ℕ) → Hash
hash_of fields = map (λ (field, n). (field, pos n)) fields

pub data JobCount : Type 0 where
  processed failed panicked successful_executions failed_executions panicked_executions : JobCount
  execution_ms : JobCount

-- The names of the seven counts, and the counts of an entry that waits.
abbrev pub name_of : JobCount → Bytes
name_of processed = metric_processed_jobs
name_of failed = metric_failed_jobs
name_of panicked = metric_panicked_jobs
name_of successful_executions = metric_successful_executions
name_of failed_executions = metric_failed_executions
name_of panicked_executions = metric_panicked_executions
name_of execution_ms = metric_execution_ms

abbrev pub pending_of : JobCount → PendingJobMetrics → ℕ
pending_of processed m = m.processed
pending_of failed m = m.failed
pending_of panicked m = m.panicked
pending_of successful_executions m = m.successful_executions
pending_of failed_executions m = m.failed_executions
pending_of panicked_executions m = m.panicked_executions
pending_of execution_ms m = m.execution_ms

abbrev Known : List (Bytes × ℕ) → Type 0
Known [] = Unit {0}
Known ((metric, value) ∷ rest) = (contains job_metric_keys metric ≡ true) × Known rest

abbrev matching : JobCount → List (Bytes × ℕ) → ℕ
matching c [] = 0
matching c ((metric, value) ∷ rest) =
    (if bytes_eq metric (name_of c) then redis_metric_increment value else 0) + matching c rest

written_sum :
    (c : JobCount) (filter : Option MetricIdentity) (identity : MetricIdentity)
    (fields : List (Bytes × ℕ))
    → length identity.worker < 2 ^ 64
    → Known fields
    → field_sum (name_of c) filter (hash_of (increment_fields (metric_field identity) fields))
      ≡ (if excluded filter identity then 0 else matching c fields)
unfolding increment_fields field_sum redis_metric_increment
written_sum c filter identity [] fits known = ground arith
written_sum c filter identity ((metric, value) ∷ rest) fits known =
    let after = written_sum c filter identity rest fits known.1 in
    let read = split_metric_field-metric_field identity metric fits known.0 in
    elim (Bool-cases (ltb 0 value)) [
      | inl counted ↦ rw (counted, read) (ground (arith, after))
      | inr nothing ↦ rw nothing (ground (arith, after))
    ]

-- If a hash that did not exist gets the increments that a flush sends for an entry, each of the seven
-- counts, summed over its fields as the aggregation splits them, is that of the entry, or the greatest
-- `i64` where that is less, and nothing where the filter leaves the entry's worker out. The worker's name is shorter than 2 ^ 64.
pub increments-field_sum :
    (c : JobCount) (filter : Option MetricIdentity) (identity : MetricIdentity)
    (m : PendingJobMetrics)
    → length identity.worker < 2 ^ 64
    → field_sum
        (name_of c)
        filter
        (hash_of (increment_fields (metric_field identity) (increments m)))
      ≡ (if excluded filter identity then 0 else redis_metric_increment (pending_of c m))
unfolding redis_metric_increment
increments-field_sum c filter identity m fits =
    rw (written_sum c filter identity (increments m) fits (ground arith)) (matched c)
  where
    matched :
        (c : JobCount)
        → (if excluded filter identity then 0 else matching c (increments m))
          ≡ (if excluded filter identity then 0 else redis_metric_increment (pending_of c m))
    matched processed = ground arith
    matched failed = ground arith
    matched panicked = ground arith
    matched successful_executions = ground arith
    matched failed_executions = ground arith
    matched panicked_executions = ground arith
    matched execution_ms = ground arith
