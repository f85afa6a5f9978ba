-- ===== src/Examples/Taking.antt =====
-- A dispatcher and a drain on a server with one job, and the upkeep of its lists.
use oxana.Base.{◌<◌, String, Bool, false, Option, none, some, List, [], ◌∷◌, ◌≡◌, ◌≢◌, refl, arith}
use oxana.Base.Lists.{length}
use oxana.Errors.{ok, OxanaError, pool_timeout}
use oxana.Keys.{namespace_queue, processing_queue}
use oxana.Redis.Memory.{memory, Store}
use oxana.Exec.{alone, World}
use oxana.Exec.Triple.{Granted}
use oxana.Scripts.{lrange}
use oxana.Queue.{QueueConfig, QueueState, QueueKind, QueueConcurrency}
use oxana.Storage.{current_processing_queue}
use oxana.Storage.Upkeep.{wipe_queue}
use oxana.Storage.Upkeep.Wiped.{Wiped, wipe_queue-Wiped}
use oxana.Storage.Revival.{Revived, revive_entries}
use oxana.Storage.Revival.Accounts.{Accounts, revive_entries-Accounts}
use oxana.Enqueue.Chunk.{Raw}
use oxana.Enqueue.Script.{commit, write_one, clear_places}
use oxana.Dispatcher.{Popped, Popping, PopError, pop_queue_message}
use oxana.Dispatcher.Claims.{Claimed, Apart, own}
use oxana.Dispatcher.Pop.{pop_queue_message-Claimed}
use oxana.Control.{release}
use oxana.Dispatcher.Rounds.{Others, Round, Sending, Dispatcher}
use oxana.Drainer.{DrainWorker, drain_queue, no_drain_stats}
use oxana.Drainer.Ends.{Complete, drain_queue-Ends}
use oxana.Examples.Text.{json}
use oxana.Examples.World.{storage, mail, queued, turns, busy, distinct}

abbrev transient : OxanaError → Bool
transient e = false

abbrev popping : Popping
popping = record {
  dequeue_timeout = 500;
  throttled_queue_fallback_wait = 100;
  reads = 2;
  now = 1000;
  current = 1001;
  later = 1002;
}

abbrev throttled_mails : QueueConfig
throttled_mails = record {
  kind = QueueKind.static_queue "mails";
  concurrency = QueueConcurrency.fixed 2;
  throttle = some (record { window_ms = 1000; limit = 5 });
}

away : namespace_queue storage.keys "mails" ≢ current_processing_queue storage
unfolding namespace_queue processing_queue
away = distinct "app:queue:mails" "app:processing:host-1-x" refl

others-Apart : Granted (Apart ⦃R = memory⦄ storage) turns
others-Apart = ((λ d. refl), ((λ d. refl), tt))

pop_queue_message-Claimed_example :
    let (r, w') =
      pop_queue_message ⦃R = memory⦄ json transient
        (λ n. "x")
        storage
        popping
        "mails"
        throttled_mails
        busy in
    (popped : Popped) × (r ≡ ok popped)
    × Claimed ⦃R = memory⦄ storage
        (lrange ⦃R = memory⦄ queued (own ⦃R = memory⦄ storage))
        popped
        w'.db
pop_queue_message-Claimed_example =
    pop_queue_message-Claimed ⦃R = memory⦄ json transient (λ n. "x") storage popping "mails"
      throttled_mails busy away others-Apart

abbrev idle : Dispatcher
idle = record {
  control = record { concurrency = 2; active = 1; queue_state = QueueState.active };
  failures = 0;
  popped = [];
  sent = [];
}

-- A worker drops its permit during the second try, whose error is one of the claim.
abbrev rounds : List (Others × Round)
rounds =
    ((λ c. c), Round.tried (λ c. c) (Popped.job "mail/1") Sending.received false)
    ∷ (
      (λ (control, failures). (control, 0)),
      Round.tried (λ (control, failures). (release control, failures))
          (Popped.pop_failed (PopError.claim_error pool_timeout)) Sending.received false,
    )
    ∷ []

abbrev mail_worker : DrainWorker String String
mail_worker = record { should_resume = false; process = λ meta. none }

dead_away : storage.keys.dead ≢ namespace_queue storage.keys "mails"
unfolding namespace_queue
dead_away = distinct "app:dead" "app:queue:mails" refl

claims_away : current_processing_queue storage ≢ namespace_queue storage.keys "mails"
unfolding namespace_queue processing_queue
claims_away = distinct "app:processing:host-1-x" "app:queue:mails" refl

one_job : length (lrange ⦃R = memory⦄ queued (namespace_queue storage.keys "mails")) < 2
unfolding commit write_one clear_places namespace_queue
one_job = omega arith

abbrev lonely : World Store
lonely = record { db = queued; turns = [] }

drain_queue-Ends_example :
    Complete ⦃R = memory⦄ json storage
      (λ e. ok mail_worker)
      (λ e. e)
      "mails"
      claims_away
      dead_away
      lonely
      (drain_queue ⦃R = memory⦄ json storage
        (λ e. ok mail_worker)
        (λ e. e)
        2
        "mails"
        no_drain_stats
        lonely)
drain_queue-Ends_example =
    drain_queue-Ends ⦃R = memory⦄ json storage (λ e. ok mail_worker) (λ e. e) "mails" claims_away
      dead_away 2 lonely one_job tt

abbrev entries : List String
entries = json.to_string mail ∷ "not an envelope" ∷ []

abbrev raw : String → Option Raw
raw payload = none

revive_entries-Accounts_example :
    let (r, w') = revive_entries ⦃R = memory⦄ json raw storage 3 entries 0 busy in
    (o : Revived) × (r ≡ ok o) × Accounts ⦃R = memory⦄ json raw storage 3 entries 0 busy o w'
revive_entries-Accounts_example =
    revive_entries-Accounts ⦃R = memory⦄ json raw storage 3 entries 0 busy

jobs_away : namespace_queue storage.keys "mails" ≢ storage.keys.jobs
unfolding namespace_queue
jobs_away = distinct "app:queue:mails" "app:jobs" refl

wipe_queue-Wiped_example :
    Wiped ⦃R = memory⦄ "app:jobs"
      (namespace_queue storage.keys "mails")
      queued
      (alone (wipe_queue ⦃R = memory⦄ storage "mails") queued)
wipe_queue-Wiped_example = wipe_queue-Wiped ⦃R = memory⦄ storage "mails" queued refl refl jobs_away
