-- ===== src/Control/Permits.antt =====
-- The permits of oxana/src/semaphores_map.rs over every interleaving of its steps.
use oxana.Base.{ℕ, ◌+◌, ◌≤◌, ◌<◌, true, some, ◌≡◌, refl, arith}
use oxana.Queue.{is_active, QueueRuntimeConfig}
use oxana.Control.{QueueControl, new, try_acquire, apply_config, release, may_acquire}

-- The control and how many permits are held, after some steps of the tasks that share it. A task
-- that drops a permit holds one.
pub data Reachable (config : QueueRuntimeConfig) : QueueControl → ℕ → Type 0 where
  start : Reachable config (new config) 0
  acquired :
      {c c' : QueueControl} {held : ℕ}
      → Reachable config c held
      → try_acquire c ≡ some c'
      → Reachable config c' (held + 1)
  applied :
      {c : QueueControl} {held : ℕ} (next : QueueRuntimeConfig)
      → Reachable config c held
      → Reachable config (apply_config c next) held
  released :
      {c : QueueControl} {held : ℕ}
      → Reachable config c (held + 1)
      → Reachable config (release c) held

-- A try succeeds exactly if the queue is active and below its concurrency, and counts one more.
try_acquire_lem :
    (c c' : QueueControl)
    → try_acquire c ≡ some c'
    → (is_active c.queue_state ≡ true)
      × (c.active < c.concurrency)
      × (c'.active ≡ c.active + 1)
      × (c'.concurrency ≡ c.concurrency)
unfolding try_acquire may_acquire
try_acquire_lem c c' e = ground arith

-- The count of active permits is the number of permits held, after any steps.
pub active-held :
    {config : QueueRuntimeConfig} {c : QueueControl} {held : ℕ}
    → Reachable config c held
    → c.active ≡ held
unfolding new apply_config release
active-held start = refl
active-held (acquired {c} {c'} r e) =
    let h = active-held r in let t = try_acquire_lem c c' e in omega arith
active-held (applied next r) = active-held r
active-held (released r) = let h = active-held r in omega arith

-- A permit is given only while the queue is active, and never past its concurrency.
pub acquire-bounded :
    {config : QueueRuntimeConfig} {c c' : QueueControl} {held : ℕ}
    → Reachable config c held
    → try_acquire c ≡ some c'
    → (is_active c.queue_state ≡ true) × (held + 1 ≤ c.concurrency)
acquire-bounded {c = c} {c' = c'} r e =
    let h = active-held r in let t = try_acquire_lem c c' e in (t.0, (omega arith))
