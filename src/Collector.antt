-- ===== src/Collector.antt =====
-- oxana/src/result_collector.rs: the counts of finished jobs, in memory and for each queue until they
-- are flushed to Redis. A count of the process is a `u64` and one of a queue an `i64`; both saturate.
-- The maps are association lists with one entry for a name.
pub mod Totals
use oxana.Base.{
  ℕ, ◌+◌, ◌-◌, ◌^◌, String, Bool, true, false, Option, none, some, List, [], ◌∷◌, ◌&&◌, ◌||◌, ltb,
  leb, min_of, str_eq, is_some, unwrap_or, if◌then◌else◌,
}
use oxana.Executor.{WorkerResultKind, success, panicked, failed}
use oxana.Errors.{Result, ok, err}

pub record Stats : Type 0 where
  pub processed : ℕ
  pub succeeded : ℕ
  pub panicked : ℕ
  pub failed : ℕ

pub record WorkerResult : Type 0 where
  pub kind : WorkerResultKind
  pub worker_name : String
  pub queue : String
  pub execution_ms : ℕ
  pub job_count : ℕ

abbrev pub u64_max : ℕ
u64_max = 2 ^ 64 - 1

abbrev pub i64_max : ℕ
i64_max = 2 ^ 63 - 1

abbrev pub saturating_add : ℕ → ℕ → ℕ → ℕ
saturating_add limit a b = min_of (a + b) limit

-- The count of one result, at a width whose greatest value is `limit`.
abbrev pub counted : ℕ → WorkerResultKind → ℕ → Stats → Stats
counted limit success n s = record {
  processed = saturating_add limit s.processed n;
  succeeded = saturating_add limit s.succeeded n;
  panicked = s.panicked;
  failed = s.failed;
}
counted limit panicked n s = record {
  processed = saturating_add limit s.processed n;
  succeeded = s.succeeded;
  panicked = saturating_add limit s.panicked n;
  failed = saturating_add limit s.failed n;
}
counted limit failed n s = record {
  processed = saturating_add limit s.processed n;
  succeeded = s.succeeded;
  panicked = s.panicked;
  failed = saturating_add limit s.failed n;
}

abbrev pub no_stats : Stats
no_stats = record { processed = 0; succeeded = 0; panicked = 0; failed = 0 }

-- `QueueResultStats::record`
unfoldable pub record_result : WorkerResult → Stats → Stats
record_result r = counted i64_max r.kind (min_of r.job_count i64_max)

abbrev pub PendingStats : Type 0
PendingStats = List (String × Stats)

unfoldable pub record_in : WorkerResult → PendingStats → PendingStats
unfolding record_result
record_in r [] = (r.queue, record_result r no_stats) ∷ []
record_in r ((queue, s) ∷ rest) =
    let after = record_in r rest in
    if str_eq queue r.queue then (queue, record_result r s) ∷ rest else (queue, s) ∷ after

abbrev pub contains : String → List String → Bool
contains i [] = false
contains i (x ∷ xs) = str_eq x i || contains i xs

pub record Collector : Type 0 where
  pub stats : Stats
  pub pending_stats : PendingStats
  pub active_queues : List String
  pub cancelled : Bool

-- `exit_when_processed` is the setting that ends a run after so many jobs.
unfoldable pub update_stats : Option ℕ → WorkerResult → Collector → Collector
unfolding record_in
update_stats exit_when_processed r c =
    let stats = counted u64_max r.kind r.job_count c.stats in
    record {
      stats = stats;
      pending_stats = record_in r c.pending_stats;
      active_queues =
          if contains r.queue c.active_queues then c.active_queues else r.queue ∷ c.active_queues;
      cancelled = c.cancelled || reached exit_when_processed stats.processed;
    }
  where
    reached : Option ℕ → ℕ → Bool
    reached none processed = false
    reached (some limit) processed = leb limit processed

-- `flush_pending_stats`, with how the flush and its tracking ended.
unfoldable pub flush_pending_stats : Result (Option (Unit {0})) → Collector → Result Collector
flush_pending_stats (ok (some flushed)) c = ok (record {
  stats = c.stats;
  pending_stats = [];
  active_queues = c.active_queues;
  cancelled = c.cancelled;
})
flush_pending_stats (ok none) c = ok c
flush_pending_stats (err e) c = err e

abbrev pub length_of : String → List (String × ℕ) → Option ℕ
length_of queue [] = none
length_of queue ((q, n) ∷ rest) =
    let found = length_of queue rest in if str_eq q queue then some n else found

abbrev keep_long : List (String × ℕ) → List String → List String
keep_long lengths [] = []
keep_long lengths (q ∷ qs) =
    let rest = keep_long lengths qs in
    if ltb 0 (unwrap_or (length_of q lengths) 0) then q ∷ rest else rest

-- The lengths of the queues are absent after a failure that was tolerated.
unfoldable pub prune_active_queues : List String → Option (List (String × ℕ)) → List String
prune_active_queues active_queues none = active_queues
prune_active_queues active_queues (some lengths) = keep_long lengths active_queues
