-- ===== src/Coordinator/Watching.antt =====
-- The queues that the watcher of oxana/src/coordinator.rs tracks, and the tasks that it spawns.
use oxana.Base.{
  ℕ, String, Bool, true, false, List, [], ◌∷◌, ◌≡◌, refl, str_eq, eq_refl, eq_iff, arith,
  Bool-cases, inl, inr,
}
use mathlib.Core.Path.{subst}
use oxana.Base.Lists.{elem}
use oxana.Errors.{Result, ok, err}
use oxana.Failures.{track_redis_result, record_redis_failure, escalated}
use oxana.Safety.Places.{or_true}
use oxana.Queue.{
  QueueConfig, QueueKind, static_queue, dynamic_queue, QueueConcurrency, QueueRuntimeConfig,
}
use oxana.Coordinator.Apart.{AllDistinct}
use oxana.Coordinator.Watcher.{
  Watcher, Round, Watched, waiting, finished, failed, track_queue, track_queues, after_round,
  discovered, track_discovered, watch_round,
}

-- Tasks were spawned once for each queue that is tracked, and for no other.
pub record IsOnce (w : Watcher) : Type 0 where
  pub distinct : AllDistinct w.spawned
  pub same : w.spawned ≡ w.tracked_queues

abbrev Tracks : List String → Watcher → Type 0
Tracks queues w = (q : String) → elem q queues ≡ true → elem q w.spawned ≡ true

abbrev Settled : Result (Unit {0}) → List String → Watcher → Type 0
Settled (err e) queues w = Unit {0}
Settled (ok done) queues w = Tracks queues w

-- A round that does not fail has tasks for each queue that it found.
abbrev pub Covers : Watched → List String → Watcher → Type 0
Covers (failed e) queues w = Unit {0}
Covers waiting queues w = Tracks queues w
Covers finished queues w = Tracks queues w

abbrev named : Result (List String) → List String
named (ok queues) = queues
named (err e) = []

abbrev pub queues_of : QueueKind → Result (List String) → List String
queues_of (static_queue key) answer = key ∷ []
queues_of (dynamic_queue prefix interval) answer = named answer

-- What a round of tracking leaves.
abbrev Tracked : List String → Watcher → Result (Unit {0}) × Watcher → Type 0
Tracked queues w (r, w') = IsOnce w' × Tracks w.spawned w' × Settled r queues w'

track_queue-IsOnce :
    (concurrency : QueueConcurrency) (queue : String) (runtime : QueueRuntimeConfig) (w : Watcher)
    → IsOnce w
    → elem queue w.tracked_queues ≡ false
    → IsOnce (track_queue concurrency queue runtime w)
track_queue-IsOnce concurrency queue runtime w o fresh = record {
  distinct = (rw o.same fresh, o.distinct);
  same = rw o.same refl;
}

Settled-cons :
    (r : Result (Unit {0})) (queue : String) (queues : List String) (w : Watcher)
    → elem queue w.spawned ≡ true
    → Settled r queues w
    → Settled r (queue ∷ queues) w
unfolding elem
Settled-cons (err e) queue queues w here s = tt
Settled-cons (ok done) queue queues w here s = λ q m. elim (Bool-cases (str_eq queue q)) [
  | inl e ↦ subst (λ x. elem x w.spawned ≡ true) ((eq_iff queue q).0 e) here
  | inr e ↦ s q (ground (arith, m, e))
]

module _ (concurrency : QueueConcurrency) (config_of : String → Result QueueRuntimeConfig) where
  track_queues-Tracked :
      (queues : List String) (w : Watcher)
      → IsOnce w
      → Tracked queues w (track_queues concurrency config_of queues w)
  unfolding track_queues elem
  track_queues-Tracked [] w o = (o, (λ q m. m), λ q m. absurd (ground (arith, m)))
  track_queues-Tracked (queue ∷ queues) w o = elim (Bool-cases (elem queue w.tracked_queues)) [
    | inl known ↦
        rw (track_queues, known)
          (let (o', kept, settled) = track_queues-Tracked queues w o in
            (o', kept, Settled-cons _ queue queues _ (kept queue (rw o.same known)) settled))
    | inr fresh ↦
        rw (track_queues, fresh)
          (new (config_of queue) (λ runtime.
            track_queues-Tracked queues (track_queue concurrency queue runtime w)
              (track_queue-IsOnce concurrency queue runtime w o fresh)))
  ]
    where
      new :
          (answer : Result QueueRuntimeConfig)
          → ((runtime : QueueRuntimeConfig)
              → let w' = track_queue concurrency queue runtime w in
                Tracked queues w' (track_queues concurrency config_of queues w'))
          → Tracked (queue ∷ queues) w (elim answer [
            | err e ↦ (err e, w)
            | ok runtime ↦
                track_queues concurrency config_of queues (track_queue concurrency queue runtime w)
          ])
      new (err e) later = (o, (λ q m. m), tt)
      new (ok runtime) later =
          let (o', kept, settled) = later runtime in
          (
            o',
            (λ q m. kept q (rw m (or_true (str_eq queue q)))),
            Settled-cons _ queue queues _ (kept queue (rw (eq_refl queue) refl)) settled,
          )

abbrev Checked : List String → Result (Unit {0}) × Watcher → Type 0
Checked queues (r, w) = IsOnce w × Settled r queues w

module _ (tolerance : ℕ) where
  after_round-Checked :
      (kind : QueueKind) (is_cancelled : Bool) (queues : List String)
      (p : Result (Unit {0}) × Watcher)
      → Checked queues p
      → let (next, w') = after_round kind is_cancelled p in IsOnce w' × Covers next queues w'
  after_round-Checked kind is_cancelled queues (err e, w) h = (h.0, tt)
  after_round-Checked kind true queues (ok done, w) h = h
  after_round-Checked (static_queue key) false queues (ok done, w) h = h
  after_round-Checked (dynamic_queue prefix interval) false queues (ok done, w) h = h

  track_discovered-Checked :
      (concurrency : QueueConcurrency) (config_of : String → Result QueueRuntimeConfig)
      (kind : QueueKind) (answer : Result (List String)) (w : Watcher) (failures : ℕ)
      → IsOnce w
      → let (queues, failures') = discovered tolerance kind answer failures in
        Checked
          (queues_of kind answer)
          (track_discovered concurrency config_of queues (record w { failures = failures' }))
  unfolding track_redis_result elem
  track_discovered-Checked concurrency config_of (static_queue key) answer w failures o =
      let (o', kept, settled) =
        track_queues-Tracked concurrency config_of (key ∷ []) (record w { failures = failures })
          (record { distinct = o.distinct; same = o.same }) in
      (o', settled)
  track_discovered-Checked concurrency config_of (dynamic_queue prefix interval) (ok queues) w
        failures o =
      let (o', kept, settled) =
        track_queues-Tracked concurrency config_of queues (record w { failures = 0 })
          (record { distinct = o.distinct; same = o.same }) in
      (o', settled)
  track_discovered-Checked concurrency config_of (dynamic_queue prefix interval) (err e) w failures
        o =
      refused (record_redis_failure tolerance failures).0
        (record w { failures = (record_redis_failure tolerance failures).1 })
        (record { distinct = o.distinct; same = o.same })
    where
      refused :
          (over : Bool) (w' : Watcher)
          → IsOnce w'
          → Checked [] (track_discovered concurrency config_of (escalated e over) w')
      refused true w' o' = (o', tt)
      refused false w' o' = (o', λ q m. absurd (ground (arith, m)))

  -- If tasks were spawned once for each queue that is tracked and for no other, that is so after a
  -- round of the watcher, even one that fails; and if it does not fail, each queue that it found has
  -- its tasks.
  pub watch_round-Covers :
      (config : QueueConfig) (r : Round) (w : Watcher)
      → IsOnce w
      → let (next, w') = watch_round tolerance config r w in
        IsOnce w' × Covers next (queues_of config.kind r.queues) w'
  unfolding watch_round
  watch_round-Covers config r w o =
      after_round-Checked config.kind r.is_cancelled (queues_of config.kind r.queues) _
        (track_discovered-Checked config.concurrency _ config.kind r.queues w w.failures o)
