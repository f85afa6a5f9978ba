-- ===== src/Examples/Counts.antt =====
-- Metrics, the counts of queues and the pages of the web interface on small data.
use oxana.Base.{
  ℕ, ◌+◌, ◌-◌, ◌*◌, ◌<◌, ◌^◌, ◌%◌, true, none, some, List, [], ◌∷◌, ◌≡◌, ◌⊎◌, refl, arith, min_of,
  ltb, if◌then◌else◌, Option, ◌&&◌, ◌==◌,
}
use oxana.Base.Lists.{length, take, drop}
use oxana.Base.Decimal.{bytes_eq}
use oxana.Executor.{WorkerResultKind}
use oxana.Collector.{u64_max}
use oxana.Queue.{QueueState, effective_runtime_config, runtime_queue_config, stored_runtime_default}
use oxana.Metrics.{
  pos, utf8, MetricIdentity, job_metric_keys, metric_execution_ms, metric_processed_jobs,
}
use oxana.Metrics.Fields.{
  metric_field, split_metric_field, contains, split_metric_field-metric_field,
}
use oxana.Metrics.Histogram.{
  histogram_bucket_index, histogram_bucket_intervals_ms, histogram_bucket_count, Between,
  histogram_bucket_index-Between,
}
use oxana.Metrics.Buffer.{cleared, increments, record_job, no_metrics}
use oxana.Metrics.Consistent.{recorded, AllConsistent, record_metrics-AllConsistent}
use oxana.Metrics.Aggregate.{Hash, aggregate_counter_hashes, excluded}
use oxana.Metrics.Flush.{increment_fields, redis_metric_increment}
use oxana.Metrics.Sums.{
  Counter, metric_of, value_of, field_sum, field_sums, Points, aggregate_counter_hashes-Points,
}
use oxana.Metrics.Written.{JobCount, name_of, hash_of, pending_of, increments-field_sum}
use oxana.QueueStats.{aggregate_queue_stats, queue_base}
use oxana.QueueStats.Weights.{Count}
use oxana.QueueStats.Sums.{group_total, field_total, aggregate_queue_stats-total}
use oxana.Web.Pagination.{
  present, missing, page_of, pages, clamp_number, range_start, range_end, page_of-Window,
  pages-whole,
}
use oxana.Web.Queues.{
  QueueInfo, Stored, get, find_queue, base_queue_key, concurrency_of, queue_runtime_config_from_map,
}
use oxana.Web.Shown.{queue_runtime_config_from_map-effective}

abbrev mailer : MetricIdentity
mailer = record { worker = utf8 "app::Mailer|x" }

short : length mailer.worker < 2 ^ 64
short = omega arith

known : contains job_metric_keys metric_execution_ms ≡ true
known = refl

split_metric_field-metric_field_example :
    split_metric_field (metric_field mailer metric_execution_ms)
    ≡ some (mailer, metric_execution_ms)
split_metric_field-metric_field_example =
    split_metric_field-metric_field mailer metric_execution_ms short known

histogram_bucket_index-Between_example :
    Between 250 histogram_bucket_intervals_ms (histogram_bucket_index 250)
    ⊎ ((250 ≡ u64_max) × (histogram_bucket_index 250 ≡ histogram_bucket_count - 1))
histogram_bucket_index-Between_example = histogram_bucket_index-Between 250 (omega arith)

abbrev success_result : oxana.Collector.WorkerResult
success_result = record {
  kind = WorkerResultKind.success;
  worker_name = "app::Mailer";
  queue = "mails";
  execution_ms = 250;
  job_count = 3;
}

record_metrics-AllConsistent_example :
    AllConsistent
      (recorded ((pos 7, success_result) ∷ (pos 8, success_result) ∷ []) cleared).entries
record_metrics-AllConsistent_example =
    record_metrics-AllConsistent ((pos 7, success_result) ∷ (pos 8, success_result) ∷ []) cleared tt

abbrev minute_hash : Hash
minute_hash = (metric_field mailer metric_processed_jobs, pos 3) ∷ (utf8 "other", pos 9) ∷ []

aggregate_counter_hashes-Points_example :
    let a = aggregate_counter_hashes (pos 7 ∷ pos 8 ∷ []) (minute_hash ∷ minute_hash ∷ []) none in
    (value_of Counter.processed a.totals
      ≡ min_of
          (field_sums (metric_of Counter.processed) none (minute_hash ∷ minute_hash ∷ []))
          u64_max)
    × Points Counter.processed none a.series (minute_hash ∷ minute_hash ∷ [])
aggregate_counter_hashes-Points_example =
    aggregate_counter_hashes-Points Counter.processed (pos 7 ∷ pos 8 ∷ [])
      (minute_hash ∷ minute_hash ∷ []) none

increments-field_sum_example :
    field_sum (name_of JobCount.execution_ms) (some mailer) (
      hash_of (
        increment_fields (metric_field mailer) (increments (record_job success_result no_metrics))))
    ≡ (if excluded (some mailer) mailer
        then 0
        else redis_metric_increment
            (pending_of JobCount.execution_ms (record_job success_result no_metrics)))
increments-field_sum_example =
    increments-field_sum JobCount.execution_ms (some mailer) mailer
      (record_job success_result no_metrics) short

abbrev stats : Hash
stats =
    (utf8 "batch:processed", pos 2)
    ∷ (utf8 "batch#north:processed", pos 4)
    ∷ (utf8 "batch#north:failed", pos 1)
    ∷ (utf8 "malformed", pos 99)
    ∷ []

aggregate_queue_stats-total_example :
    group_total Count.processed
        (utf8 "batch")
        (aggregate_queue_stats (utf8 "batch#north" ∷ []) stats true (pos 1000)).0
      % 2 ^ 64
    ≡ field_total Count.processed (utf8 "batch") (utf8 "batch#north" ∷ []) true stats % 2 ^ 64
aggregate_queue_stats-total_example =
    aggregate_queue_stats-total Count.processed (utf8 "batch") (utf8 "batch#north" ∷ []) stats true
      (pos 1000)

abbrev three : List ℕ
three = 10 ∷ 20 ∷ 30 ∷ []

-- The job of the second entry is gone.
abbrev read : ℕ → Option ℕ
read i = if i == 20 then none else some i

page_of-Window_example :
    let p = page_of read 1 three in
    let entries = take 51 (drop ((1 - 1) * 50) three) in
    (p.jobs ≡ take 50 (present read entries))
    × (p.has_next ≡ (ltb (1 * 50) (length three) && (missing read entries == 0)))
    × (range_end p + 1 ≡ range_start p + length p.jobs)
page_of-Window_example =
    page_of-Window read 1 three (omega arith) (omega arith) (omega arith) (omega arith)

none_missing : missing some three ≡ 0
unfolding missing
none_missing = refl

pages-whole_example : pages some (clamp_number 9 (length three)) three ≡ present some three
pages-whole_example = pages-whole some 9 three (omega arith) (omega arith) none_missing

abbrev mails : QueueInfo
mails = record { key = utf8 "mails"; concurrency = 4; dynamic = true; dynamic_concurrency = true }

abbrev stored : Stored
stored = (utf8 "mails#a", record { concurrency = some 7; state = QueueState.paused }) ∷ []

found : find_queue (mails ∷ []) (base_queue_key (utf8 "mails#a")) ≡ some mails
unfolding queue_base
found = refl

queue_runtime_config_from_map-effective_example :
    queue_runtime_config_from_map (mails ∷ []) stored (utf8 "mails#a")
    ≡ effective_runtime_config (concurrency_of mails) (
        runtime_queue_config
          (bytes_eq (utf8 "mails#a") (base_queue_key (utf8 "mails#a")))
          (get stored (utf8 "mails#a"))
          (get stored (base_queue_key (utf8 "mails#a")))
          (stored_runtime_default (concurrency_of mails)))
queue_runtime_config_from_map-effective_example =
    queue_runtime_config_from_map-effective (mails ∷ []) stored (utf8 "mails#a") mails found
