-- ===== src/Examples/Parts.antt =====
-- Permits, batches, cron jobs and failures at concrete values.
use oxana.Base.{ℕ, ◌≤◌, true, false, none, some, List, [], ◌∷◌, ◌≡◌, ◌⊎◌, refl, arith, leb}
use oxana.Base.Lists.{length}
use oxana.Errors.{Result, ok, err, pool_timeout}
use oxana.Queue.{QueueRuntimeConfig, QueueState, is_active}
use oxana.Control.{QueueControl, try_acquire, may_acquire, new, Step, Acquirer, step}
use oxana.Control.Permits.{start, acquire-bounded}
use oxana.Control.Waiting.{after, acquire-blocked}
use oxana.Coordinator.Batcher.{WorkerBatchConfig, Event, run_batcher}
use oxana.Coordinator.Batches.{run_batcher-whole, run_batcher-Sized, all_of, Sized}
use oxana.Coordinator.Invalid.{split_invalid, invalid_jobs_by_index}
use oxana.Coordinator.Split.{Reads, split_invalid-Reads}
use oxana.Registry.Batch.{Parsed, read_from}
use oxana.Cron.{Round, Ending, unique_loop, unique_cron_action}
use oxana.Cron.Waiting.{Decided, Free, enqueue-Free}
use oxana.Failures.{track_redis_result, escalated}
use oxana.Failures.Tolerance.{tolerated-in_a_row, count_after}

abbrev two_permits : QueueRuntimeConfig
two_permits = record { concurrency = some 1; state = QueueState.active }

abbrev taken : QueueControl
taken = record { concurrency = 1; active = 1; queue_state = QueueState.active }

acquires : try_acquire (new two_permits) ≡ some taken
unfolding try_acquire may_acquire new
acquires = refl

acquire-bounded_example :
    (is_active (new two_permits).queue_state ≡ true) × (1 ≤ (new two_permits).concurrency)
acquire-bounded_example =
    acquire-bounded {config = two_permits} {c = new two_permits} {c' = taken} start acquires

abbrev one_permit : QueueRuntimeConfig
one_permit = record { concurrency = some 1; state = QueueState.active }

-- The first task takes the permit, and the second one waits.
abbrev crowded : List Step
crowded = Step.tries 2 ∷ Step.arrives 2 ∷ Step.tries 1 ∷ Step.arrives 1 ∷ []

second_waits : (after one_permit crowded).tasks 2 ≡ Acquirer.waiting false
unfolding step try_acquire may_acquire new
second_waits = refl

acquire-blocked_example :
    let s = after one_permit crowded in
    (s.control.queue_state ≡ QueueState.paused) ⊎ (s.control.concurrency ≤ s.held)
acquire-blocked_example = acquire-blocked one_permit crowded 2 second_waits

abbrev pairs : WorkerBatchConfig
pairs = record { size = 2; timeout_is_zero = false }

abbrev events : List (Event ℕ)
events = Event.received 1 ∷ Event.received 2 ∷ Event.received 3 ∷ Event.cancelled (4 ∷ 5 ∷ []) ∷ []

run_batcher-whole_example : all_of (run_batcher pairs events []) ≡ 1 ∷ 2 ∷ 3 ∷ 4 ∷ 5 ∷ []
run_batcher-whole_example = run_batcher-whole pairs events []

run_batcher-Sized_example : Sized 2 (run_batcher pairs events []).0
run_batcher-Sized_example = run_batcher-Sized pairs events [] (omega arith)

-- An argument that is 0 cannot be read.
abbrev read_positive : ℕ → Parsed ℕ
read_positive n = elim (leb 1 n) [ true ↦ Parsed.valid n | false ↦ Parsed.invalid "zero" ]

split_invalid-Reads_example :
    let (jobs, errors) = read_from read_positive 0 (7 ∷ 0 ∷ 9 ∷ []) in
    let runs = (split_invalid {A = ℕ} (invalid_jobs_by_index errors 3) 0 (7 ∷ 0 ∷ 9 ∷ [])).0 in
    Reads read_positive (λ n. n) runs jobs × (length runs ≡ length jobs)
split_invalid-Reads_example = split_invalid-Reads {A = ℕ} read_positive (λ n. n) (7 ∷ 0 ∷ 9 ∷ [])

-- The job is there before its time, then Redis does not answer, then it is gone.
abbrev rounds : List Round
rounds =
    record { existing = some true; now = 3 }
    ∷ record { existing = none; now = 4 }
    ∷ record { existing = some false; now = 5 }
    ∷ []

enqueues : unique_loop 10 false rounds ≡ Ending.should_enqueue
unfolding unique_loop unique_cron_action
enqueues = refl

skips : unique_loop 5 false rounds ≡ Ending.should_skip
unfolding unique_loop unique_cron_action
skips = refl

enqueue-Free_example : Decided (Free 10) false rounds
enqueue-Free_example = enqueue-Free 10 false rounds enqueues

abbrev failures : List (Result ℕ)
failures = err pool_timeout ∷ ok 1 ∷ err pool_timeout ∷ []

tolerated-in_a_row_example :
    (track_redis_result {A = ℕ} 2 (err pool_timeout) (count_after 2 failures)).0
    ≡ escalated pool_timeout true
tolerated-in_a_row_example = tolerated-in_a_row 2 failures pool_timeout (omega arith)
