-- ===== src/Control/Waiting.antt =====
-- The tasks that wait in `acquire` of oxana/src/semaphores_map.rs, over every interleaving of the steps.
use oxana.Base.{
  ℕ, zero, suc, ◌+◌, ◌≤◌, ◌==◌, Bool, true, false, Option, none, some, List, [], ◌∷◌, ◌≡◌, refl,
  sym, arith, ◌⊎◌, Bool-cases, inl, inr,
}
use oxana.Queue.{paused, QueueRuntimeConfig}
use oxana.Control.{
  QueueControl, new, try_acquire, apply_config, release, may_acquire, Acquirer, absent, created,
  waiting, Shared, Step, arrives, tries, resumes, releases, applies, put_task, notified,
  notify_waiters, arrive, tried, try_task, resume, drop_permit, step, start,
}

-- A task that waits and has not been notified has nothing to take, and each permit that is held counts.
pub record IsQuiet (s : Shared) : Type 0 where
  pub counted : s.control.active ≡ s.held
  pub blocked : (i : ℕ) → s.tasks i ≡ waiting false → may_acquire s.control ≡ false

-- The state after some steps, the last of which comes first.
abbrev pub after : QueueRuntimeConfig → List Step → Shared
after config [] = start config
after config (x ∷ xs) = step x (after config xs)

abbrev Blocks : QueueControl → Acquirer → Type 0
Blocks c task = task ≡ waiting false → may_acquire c ≡ false

put_task-Blocks :
    (c : QueueControl) (i : ℕ) (task : Acquirer) (tasks : ℕ → Acquirer)
    → Blocks c task
    → ((j : ℕ) → Blocks c (tasks j))
    → (j : ℕ) → Blocks c (put_task i task tasks j)
put_task-Blocks c i task tasks h hs j = elim (Bool-cases (i == j)) [
  | inl e ↦ rw e h
  | inr e ↦ rw e (hs j)
]

created-Blocks : (c : QueueControl) (woken : Bool) → Blocks c (created woken)
created-Blocks c woken e = cc

absent-Blocks : (c : QueueControl) → Blocks c absent
absent-Blocks c e = cc

notified-Blocks : (c : QueueControl) (task : Acquirer) → Blocks c (notified task)
notified-Blocks c absent e = cc
notified-Blocks c (created woken) e = cc
notified-Blocks c (waiting woken) e = cc

-- A permit that is taken leaves nothing where there was nothing to take.
acquired_lem :
    (c c' : QueueControl)
    → try_acquire c ≡ some c'
    → (may_acquire c ≡ true) × (c'.active ≡ c.active + 1)
unfolding try_acquire may_acquire
acquired_lem c c' e = ground arith

missed_lem : (c : QueueControl) → try_acquire c ≡ none → may_acquire c ≡ false
unfolding try_acquire may_acquire
missed_lem c e = ground arith

arrive-IsQuiet : (i : ℕ) (task : Acquirer) (s : Shared) → IsQuiet s → IsQuiet (arrive i task s)
arrive-IsQuiet i absent s q = record {
  counted = q.counted;
  blocked =
      put_task-Blocks s.control i (created false) s.tasks (created-Blocks s.control false)
        q.blocked;
}
arrive-IsQuiet i (created woken) s q = q
arrive-IsQuiet i (waiting woken) s q = q

tried-IsQuiet :
    (i : ℕ) (woken : Bool) (answer : Option QueueControl) (s : Shared)
    → try_acquire s.control ≡ answer
    → IsQuiet s
    → IsQuiet (tried i woken answer s)
tried-IsQuiet i woken none s e q = record {
  counted = q.counted;
  blocked =
      put_task-Blocks s.control i (waiting woken) s.tasks (λ x. missed_lem s.control e) q.blocked;
}
tried-IsQuiet i woken (some c) s e q =
    let t = acquired_lem s.control c e in
    record {
      counted = omega (arith, t.1, q.counted);
      blocked =
          put_task-Blocks c i absent s.tasks (absent-Blocks c)
            (λ j w. absurd (let h = q.blocked j w in ground (arith, t.0, h)));
    }

try_task-IsQuiet : (i : ℕ) (task : Acquirer) (s : Shared) → IsQuiet s → IsQuiet (try_task i task s)
try_task-IsQuiet i absent s q = q
try_task-IsQuiet i (created woken) s q = tried-IsQuiet i woken (try_acquire s.control) s refl q
try_task-IsQuiet i (waiting woken) s q = q

resume-IsQuiet : (i : ℕ) (task : Acquirer) (s : Shared) → IsQuiet s → IsQuiet (resume i task s)
resume-IsQuiet i absent s q = q
resume-IsQuiet i (created woken) s q = q
resume-IsQuiet i (waiting false) s q = q
resume-IsQuiet i (waiting true) s q = record {
  counted = q.counted;
  blocked =
      put_task-Blocks s.control i (created false) s.tasks (created-Blocks s.control false)
        q.blocked;
}

drop_permit-IsQuiet :
    (held : ℕ) (s : Shared) → s.held ≡ held → IsQuiet s → IsQuiet (drop_permit held s)
unfolding release notify_waiters
drop_permit-IsQuiet zero s e q = q
drop_permit-IsQuiet (suc held) s e q = record {
  counted = omega (arith, q.counted, e);
  blocked = λ i. notified-Blocks _ (s.tasks i);
}

step-IsQuiet : (x : Step) (s : Shared) → IsQuiet s → IsQuiet (step x s)
unfolding step apply_config notify_waiters
step-IsQuiet (arrives i) s q = arrive-IsQuiet i (s.tasks i) s q
step-IsQuiet (tries i) s q = try_task-IsQuiet i (s.tasks i) s q
step-IsQuiet (resumes i) s q = resume-IsQuiet i (s.tasks i) s q
step-IsQuiet releases s q = drop_permit-IsQuiet s.held s refl q
step-IsQuiet (applies config) s q = record {
  counted = q.counted;
  blocked = λ i. notified-Blocks (apply_config s.control config) (s.tasks i);
}

after-IsQuiet : (config : QueueRuntimeConfig) (xs : List Step) → IsQuiet (after config xs)
unfolding new
after-IsQuiet config [] = record { counted = refl; blocked = λ i e. cc }
after-IsQuiet config (x ∷ xs) = step-IsQuiet x (after config xs) (after-IsQuiet config xs)

refused_lem :
    (c : QueueControl)
    → may_acquire c ≡ false
    → (c.queue_state ≡ paused) ⊎ (c.concurrency ≤ c.active)
unfolding may_acquire
refused_lem c e = ground arith

-- After any steps of the tasks that share a control, a task that waits in `acquire` and has not been
-- notified since it created its `Notified` waits while the queue is paused or as many permits are held
-- as its concurrency allows.
pub acquire-blocked :
    (config : QueueRuntimeConfig) (xs : List Step) (i : ℕ)
    → (after config xs).tasks i ≡ waiting false
    → let s = after config xs in (s.control.queue_state ≡ paused) ⊎ (s.control.concurrency ≤ s.held)
acquire-blocked config xs i e =
    let q = after-IsQuiet config xs in
    let r = refused_lem (after config xs).control (q.blocked i e) in rw (sym q.counted) r
