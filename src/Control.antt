-- ===== src/Control.antt =====
-- oxana/src/semaphores_map.rs: the permits of one queue, and the tasks that wait for one. The mutex
-- makes each section of code that holds it one step; a step of `Shared` is such a section, with the
-- `notify_waiters` behind it, or a part of the loop of `acquire`. tokio's `notify_waiters` wakes every
-- `Notified` that has been created, awaited or not, and stores nothing for those to come.
-- `QueuePermit::drop` is `release`.
pub mod Permits
pub mod Waiting
use oxana.Base.{
  ℕ, zero, suc, List, [], ◌∷◌, ◌+◌, ◌-◌, ◌==◌, if◌then◌else◌, Bool, true, false, Option, none, some,
  ◌&&◌, ltb, unwrap_or,
}
use oxana.Queue.{QueueState, is_active, QueueRuntimeConfig}

pub record QueueControl : Type 0 where
  pub concurrency : ℕ
  pub active : ℕ
  pub queue_state : QueueState

unfoldable pub new : QueueRuntimeConfig → QueueControl
new config = record {
  concurrency = unwrap_or config.concurrency 1;
  active = 0;
  queue_state = config.state;
}

unfoldable pub may_acquire : QueueControl → Bool
may_acquire c = is_active c.queue_state && ltb c.active c.concurrency

unfoldable pub try_acquire : QueueControl → Option QueueControl
unfolding may_acquire
try_acquire c = elim (may_acquire c) [
  | true ↦
      some
        (record { concurrency = c.concurrency; active = c.active + 1; queue_state = c.queue_state })
  | false ↦ none
]

unfoldable pub apply_config : QueueControl → QueueRuntimeConfig → QueueControl
apply_config c config = record {
  concurrency = unwrap_or config.concurrency c.concurrency;
  active = c.active;
  queue_state = config.state;
}

unfoldable pub release : QueueControl → QueueControl
release c = record {
  concurrency = c.concurrency;
  active = c.active - 1;
  queue_state = c.queue_state;
}

-- A task in `acquire`: its `Notified` is created, or awaited after a try; `woken` says that it has been
-- notified.
pub data Acquirer : Type 0 where
  absent : Acquirer
  created waiting : Bool → Acquirer

pub record Shared : Type 0 where
  pub control : QueueControl
  pub tasks : ℕ → Acquirer
  pub held : ℕ

abbrev pub put_task : ℕ → Acquirer → (ℕ → Acquirer) → ℕ → Acquirer
put_task i task tasks j = if i == j then task else tasks j

abbrev pub notified : Acquirer → Acquirer
notified absent = absent
notified (created woken) = created true
notified (waiting woken) = waiting true

unfoldable pub notify_waiters : (ℕ → Acquirer) → ℕ → Acquirer
notify_waiters tasks i = notified (tasks i)

pub data Step : Type 0 where
  -- `self.notify.notified()`, the locked section of `acquire`, and the end of `notified.await`
  arrives tries resumes : ℕ → Step
  releases : Step
  applies : QueueRuntimeConfig → Step

abbrev pub arrive : ℕ → Acquirer → Shared → Shared
arrive i absent s = record s { tasks = put_task i (created false) s.tasks }
arrive i (created woken) s = s
arrive i (waiting woken) s = s

abbrev pub tried : ℕ → Bool → Option QueueControl → Shared → Shared
tried i woken none s = record s { tasks = put_task i (waiting woken) s.tasks }
tried i woken (some control) s = record s {
  control = control;
  tasks = put_task i absent s.tasks;
  held = s.held + 1;
}

abbrev pub try_task : ℕ → Acquirer → Shared → Shared
try_task i absent s = s
try_task i (created woken) s = tried i woken (try_acquire s.control) s
try_task i (waiting woken) s = s

-- The loop of `acquire` creates its next `Notified`.
abbrev pub resume : ℕ → Acquirer → Shared → Shared
resume i absent s = s
resume i (created woken) s = s
resume i (waiting false) s = s
resume i (waiting true) s = record s { tasks = put_task i (created false) s.tasks }

-- A permit is dropped, if one is held.
abbrev pub drop_permit : ℕ → Shared → Shared
drop_permit zero s = s
drop_permit (suc held) s = record s {
  control = release s.control;
  tasks = notify_waiters s.tasks;
  held = held;
}

unfoldable pub step : Step → Shared → Shared
unfolding try_acquire apply_config release notify_waiters
step (arrives i) s = arrive i (s.tasks i) s
step (tries i) s = try_task i (s.tasks i) s
step (resumes i) s = resume i (s.tasks i) s
step releases s = drop_permit s.held s
step (applies config) s = record s {
  control = apply_config s.control config;
  tasks = notify_waiters s.tasks;
}

abbrev pub start : QueueRuntimeConfig → Shared
start config = record { control = new config; tasks = λ i. absent; held = 0 }
