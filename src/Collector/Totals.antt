-- ===== src/Collector/Totals.antt =====
-- The counts of oxana/src/result_collector.rs over any sequence of results.
use oxana.Base.{
  ℕ, ◌+◌, ◌≤◌, String, Bool, true, false, Option, List, [], ◌∷◌, ◌≡◌, refl, ◌∙◌, ap, arith, str_eq,
  eq_iff, min_of, if◌then◌else◌,
}
use oxana.Executor.{WorkerResultKind, success, panicked, failed}
use oxana.Collector.{
  Stats, WorkerResult, PendingStats, Collector, i64_max, u64_max, saturating_add, counted, no_stats,
  record_result, record_in, update_stats,
}

-- A job is counted as processed where it is counted as succeeded or failed, up to the greatest
-- value, and a panic is a failure.
abbrev pub Balanced : ℕ → Stats → Type 0
Balanced limit s =
    (s.processed ≡ min_of (s.succeeded + s.failed) limit)
    × (s.panicked ≤ s.failed)
    × (s.failed ≤ limit)

counted-Balanced :
    (limit : ℕ) (kind : WorkerResultKind) (n : ℕ) (s : Stats)
    → Balanced limit s
    → Balanced limit (counted limit kind n s)
counted-Balanced limit success n s b = ground (arith, b)
counted-Balanced limit panicked n s b = ground (arith, b)
counted-Balanced limit failed n s b = ground (arith, b)

abbrev pub AllBalanced : PendingStats → Type 0
AllBalanced [] = Unit {0}
AllBalanced ((queue, s) ∷ rest) = Balanced i64_max s × AllBalanced rest

AllBalanced-if :
    (b : Bool) (x y : PendingStats)
    → AllBalanced x
    → AllBalanced y
    → AllBalanced (if b then x else y)
AllBalanced-if true x y h k = h
AllBalanced-if false x y h k = k

record_in-Balanced :
    (r : WorkerResult) (p : PendingStats) → AllBalanced p → AllBalanced (record_in r p)
unfolding record_in record_result
record_in-Balanced r [] h =
    (counted-Balanced i64_max r.kind _ no_stats (refl, omega arith, omega arith), tt)
record_in-Balanced r ((queue, s) ∷ rest) h =
    AllBalanced-if (str_eq queue r.queue) ((queue, record_result r s) ∷ rest)
      ((queue, s) ∷ record_in r rest) (counted-Balanced i64_max r.kind _ s h.0, h.1)
      (h.0, record_in-Balanced r rest h.1)

-- The collector after some results, the last of which comes first.
abbrev pub collected : Option ℕ → List WorkerResult → Collector → Collector
collected exit_when_processed [] c = c
collected exit_when_processed (r ∷ rs) c =
    update_stats exit_when_processed r (collected exit_when_processed rs c)

-- If the counts of the process and those of each queue agree among each other at first, they do
-- after any results.
pub update_stats-Balanced :
    (exit_when_processed : Option ℕ) (rs : List WorkerResult) (c : Collector)
    → Balanced u64_max c.stats × AllBalanced c.pending_stats
    → let c' = collected exit_when_processed rs c in
      Balanced u64_max c'.stats × AllBalanced c'.pending_stats
unfolding update_stats
update_stats-Balanced exit_when_processed [] c h = h
update_stats-Balanced exit_when_processed (r ∷ rs) c h =
    let k = update_stats-Balanced exit_when_processed rs c h in
    (counted-Balanced u64_max r.kind r.job_count _ k.0, record_in-Balanced r _ k.1)

-- What a queue counts as processed; an absent queue counts nothing.
abbrev pub processed_of : String → PendingStats → ℕ
processed_of queue [] = 0
processed_of queue ((q, s) ∷ rest) = if str_eq q queue then s.processed else processed_of queue rest

-- The jobs of a queue among some results.
abbrev pub jobs_of : String → List WorkerResult → ℕ
jobs_of queue [] = 0
jobs_of queue (r ∷ rs) =
    if str_eq r.queue queue then r.job_count + jobs_of queue rs else jobs_of queue rs

processed-record_result :
    (r : WorkerResult) (s : Stats)
    → (record_result r s).processed
      ≡ saturating_add i64_max s.processed (min_of r.job_count i64_max)
unfolding record_result
processed-record_result r s = by_kind r.kind
  where
    by_kind :
        (kind : WorkerResultKind)
        → (counted i64_max kind (min_of r.job_count i64_max) s).processed
          ≡ saturating_add i64_max s.processed (min_of r.job_count i64_max)
    by_kind success = refl
    by_kind panicked = refl
    by_kind failed = refl

processed-if :
    (queue : String) (b : Bool) (x y : PendingStats)
    → processed_of queue (if b then x else y)
      ≡ (if b then processed_of queue x else processed_of queue y)
processed-if queue true x y = refl
processed-if queue false x y = refl

processed-record_in :
    (queue : String) (r : WorkerResult) (p : PendingStats)
    → processed_of queue (record_in r p) ≡ (
        if str_eq r.queue queue
        then saturating_add i64_max (processed_of queue p) (min_of r.job_count i64_max)
        else processed_of queue p)
unfolding record_in
processed-record_in queue r [] =
    ap (λ n. if str_eq r.queue queue then n else 0) (processed-record_result r no_stats)
processed-record_in queue r ((q, s) ∷ rest) =
    processed-if queue (str_eq q r.queue) ((q, record_result r s) ∷ rest)
      ((q, s) ∷ record_in r rest)
    ∙ ground (
      arith,
      processed-record_result r s,
      processed-record_in queue r rest,
      eq_iff q r.queue,
      eq_iff q queue,
      eq_iff r.queue queue,
    )

-- If nothing waits to be flushed at first, what waits for a queue as processed is the number of its
-- jobs in the results, up to the greatest value of the counter.
pub processed-jobs_of :
    (exit_when_processed : Option ℕ) (queue : String) (rs : List WorkerResult) (c : Collector)
    → c.pending_stats ≡ []
    → processed_of queue (collected exit_when_processed rs c).pending_stats
      ≡ min_of (jobs_of queue rs) i64_max
unfolding update_stats
processed-jobs_of exit_when_processed queue [] c e = ap (processed_of queue) e
processed-jobs_of exit_when_processed queue (r ∷ rs) c e =
    processed-record_in queue r (collected exit_when_processed rs c).pending_stats
    ∙ ground (arith, processed-jobs_of exit_when_processed queue rs c e)
