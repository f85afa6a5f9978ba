-- ===== src/Examples/Records.antt =====
-- Counts, throttles, processes, names and envelopes at concrete values.
use oxana.Base.{
  ℕ, ◌+◌, ◌≤◌, ◌<◌, String, true, false, none, some, List, [], ◌∷◌, ◌≡◌, ◌≢◌, refl, arith,
}
use oxana.Base.Lists.{length, elem}
use oxana.Errors.{ok}
use oxana.Collector.{Collector, WorkerResult, no_stats, u64_max}
use oxana.Collector.Totals.{Balanced, AllBalanced, collected, update_stats-Balanced}
use oxana.Executor.{WorkerResultKind}
use oxana.Throttler.{Throttler, Millis, state_w_conn, first, expired, remove_expired}
use oxana.Throttler.Window.{Step, step, after, Within, consume-bounded, throttled_for-enough}
use oxana.Recovery.{dead_process_ids_in}
use oxana.Recovery.Live.{live-not_dead}
use oxana.Registry.{
  WorkerRegistry, WorkerConfig, WorkerConfigKind, empty, register_worker_with, factories_for,
  registered, register_legacy_names, register_legacy_name, put,
}
use oxana.Registry.Names.{DistinctNames, register_worker_with-found}
use oxana.Keys.{new, namespace_queue, processing_queue}
use oxana.Keys.Distinct.{IsPlain, lists_distinct}
use oxana.Envelope.{JobEnvelope, Job, skip, new_cron, unique_job_id}
use oxana.Examples.World.{distinct}

abbrev result : WorkerResultKind → ℕ → WorkerResult
result kind n = record {
  kind = kind;
  worker_name = "mail";
  queue = "mails";
  execution_ms = 7;
  job_count = n;
}

abbrev fresh : Collector
fresh = record { stats = no_stats; pending_stats = []; active_queues = []; cancelled = false }

abbrev results : List WorkerResult
results = result WorkerResultKind.panicked 2 ∷ result WorkerResultKind.success 3 ∷ []

update_stats-Balanced_example :
    let c = collected (some 5) results fresh in
    Balanced u64_max c.stats × AllBalanced c.pending_stats
update_stats-Balanced_example =
    update_stats-Balanced (some 5) results fresh ((refl, omega arith, omega arith), tt)

abbrev one_in_ten : Throttler
one_in_ten = record { limit = 1; window_ms = 10 }

-- Two processes ask before either adds its requests.
abbrev overlapping : List Step
overlapping =
    Step.adds 0 ∷ Step.adds 0 ∷ Step.asks (some 2) 20000 20001 ∷ Step.asks none 19999 20000 ∷ []

overlapping-Within : Within one_in_ten 3 overlapping
unfolding step state_w_conn remove_expired first
overlapping-Within = (omega arith, (omega arith, (omega arith, (omega arith, tt))))

consume-bounded_example : length (after one_in_ten overlapping).scores < 1 + 3
consume-bounded_example = consume-bounded one_in_ten 3 overlapping (omega arith) overlapping-Within

oldest : first (state_w_conn one_in_ten 14000 (9000 ∷ 4500 ∷ [])).1 ≡ some 4500
unfolding first state_w_conn remove_expired
oldest = refl

waits : (state_w_conn one_in_ten 14000 (9000 ∷ 4500 ∷ [])).0.throttled_for ≡ some (Millis.millis 20)
unfolding first state_w_conn remove_expired
waits = refl

throttled_for-enough_example : (expired one_in_ten (14000 + 20000) 4500 ≡ true) × (10 < 20)
throttled_for-enough_example =
    throttled_for-enough one_in_ten 14000 4500 20 (9000 ∷ 4500 ∷ []) oldest (omega arith) waits

recorded : elem "host-1-x" ("host-1-x" ∷ "host-2-y" ∷ []) ≡ true
unfolding elem
recorded = refl

other : ◌≡◌ {A = String} "host-2-y" "host-1-x" → 9500 ≤ 1000 + 5000
other e = absurd (distinct "host-2-y" "host-1-x" refl e)

live-not_dead_example :
    elem "host-1-x" (
      dead_process_ids_in
        (("host-1-x", 9000) ∷ ("host-2-y", 1000) ∷ [])
        ("app:processing:host-1-x" ∷ [])
        9500
        5000)
    ≡ false
live-not_dead_example =
    live-not_dead "host-1-x" (("host-1-x", 9000) ∷ ("host-2-y", 1000) ∷ [])
      ("app:processing:host-1-x" ∷ []) 9500 5000 ((λ e. omega arith), ((λ e. other e), tt)) recorded

abbrev mailer : WorkerConfig ℕ String
mailer = record {
  name = "mail";
  legacy_names = "old_mail" ∷ [];
  factories = 4;
  on_demand = none;
  kind = WorkerConfigKind.normal;
}

abbrev with_mailer : WorkerRegistry ℕ String
with_mailer = record {
  jobs = put "mail" (some 4) (λ k. none);
  aliases = put "old_mail" (some "mail") (put "mail" none (λ k. none));
  schedules = put "mail" none (λ k. none);
  on_demand_jobs = put "mail" none (λ k. none);
}

registers : register_worker_with mailer false empty ≡ some with_mailer
unfolding register_worker_with registered register_legacy_names register_legacy_name empty
registers = refl

nothing-Distinct : DistinctNames {F = ℕ} {On = String} empty
unfolding empty
nothing-Distinct name target e = refl

register_worker_with-found_example :
    DistinctNames with_mailer × (factories_for with_mailer "mail" ≡ some 4)
register_worker_with-found_example =
    register_worker_with-found mailer false empty with_mailer nothing-Distinct registers

mails-IsPlain : IsPlain "app" "mails"
unfolding new
mails-IsPlain = refl

lists_distinct_example :
    (namespace_queue (new "app") "mails" ≢ processing_queue (new "app") "host-1")
    × ((new "app").dead ≢ namespace_queue (new "app") "mails")
    × ((new "app").dead ≢ processing_queue (new "app") "host-1")
lists_distinct_example = lists_distinct "app" "mails" "host-1" mails-IsPlain

abbrev report : Job String
report = record {
  name = "report";
  unique_id = some "1";
  on_conflict = skip;
  should_resurrect = true;
  throttle_cost = none;
  value = "{}";
}

abbrev next_report : JobEnvelope String
next_report = record {
  id = "report/1";
  job = record { name = "report"; args = "{}" };
  queue = "mails";
  meta = record {
    id = "report/1";
    on_demand = none;
    retries = 0;
    unique = true;
    on_conflict = some skip;
    created_at = 50;
    scheduled_at = 60;
    started_at = none;
    state = none;
    resurrect = true;
    error = none;
    throttle_cost = none;
  };
}

reports : new_cron "mails" "report:60" report 60 true 50 ≡ ok (next_report, true)
unfolding new_cron unique_job_id
reports = refl
