-- ===== src/Examples/Watch.antt =====
-- A round of the watcher of a dynamic queue that finds a queue which is tracked, and a new one.
use oxana.Base.{false, none, [], ◌∷◌, ◌≡◌, refl}
use oxana.Base.Lists.{elem}
use oxana.Errors.{ok}
use oxana.Queue.{QueueConfig, dynamic_queue, dynamic}
use oxana.Coordinator.Watcher.{Watcher, Round, watch_round}
use oxana.Coordinator.Watching.{IsOnce, Covers, queues_of, watch_round-Covers}

abbrev config : QueueConfig
config = record { kind = dynamic_queue "mails#" 5; concurrency = dynamic 4; throttle = none }

abbrev watcher : Watcher
watcher = record {
  tracked_queues = "mails#1" ∷ [];
  spawned = "mails#1" ∷ [];
  controls = λ key. none;
  failures = 1;
}

abbrev found : Round
found = record {
  queues = ok ("mails#2" ∷ "mails#1" ∷ []);
  stored = λ queue. ok none;
  is_cancelled = false;
}

watcher-IsOnce : IsOnce watcher
unfolding elem
watcher-IsOnce = record { distinct = (refl, tt); same = refl }

watch_round-Covers_example :
    let (next, w') = watch_round 3 config found watcher in
    IsOnce w' × Covers next (queues_of config.kind found.queues) w'
watch_round-Covers_example = watch_round-Covers 3 config found watcher watcher-IsOnce

-- The new queue is the only one that is added.
spawned_next : (watch_round 3 config found watcher).1.spawned ≡ "mails#2" ∷ "mails#1" ∷ []
unfolding watch_round elem
spawned_next = refl
