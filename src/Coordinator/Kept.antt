-- ===== src/Coordinator/Kept.antt =====
-- `process_pending_batch` of oxana/src/coordinator.rs as a whole, over every world.
use oxana.Base.{
  ℕ, ◌+◌, String, true, Option, none, some, List, [], ◌∷◌, ◌≡◌, ◌≢◌, refl, str_eq, eq_refl, arith,
  Bool-cases, inl, inr,
}
use oxana.Base.Lists.{elem, length}
use oxana.Errors.{Result, ok, err, OxanaError}
use oxana.Envelope.{JobEnvelope}
use oxana.Json.{Json}
use oxana.Redis.{Redis}
use oxana.Exec.{World}
use oxana.Exec.Triple.{Granted, Triple, Stable, Outcome-safe, Triple-pure, Triple-bind}
use oxana.Scripts.{hget, lrange}
use oxana.Safety.Places.{or_true}
use oxana.Safety.Scripts.{Safe}
use oxana.Safety.Operations.{LosesNone, seq, done, kill-Safe}
use oxana.Storage.{StorageInternal, current_processing_queue}
use oxana.Executor.{Settings}
use oxana.Executor.Safe.{GoneStable, ids_of}
use oxana.Executor.Start.{Held}
use oxana.Coordinator.Invalid.{with_pending, invalid_jobs_by_index, split_invalid}
use oxana.Coordinator.Apart.{AllDistinct, split_invalid-Lacking, split_invalid-Apart}
use oxana.Coordinator.Pending.{
  BatchBuild, invalid_job, kill_each, process_built, process_pending_batch,
}
use oxana.Coordinator.Safe.{Held-along, kill_each-Ready, run_valid-Safe}

module _ ⦃R : Redis⦄ {V : Type 0} (J : Json V) (s : StorageInternal) where
  -- An act of another client that loses no job, stores no job of the batch that is gone, and takes no
  -- claim of one.
  abbrev pub Sparing : List (JobEnvelope V) → (R.Db → R.Db) → Type 0
  Sparing es f =
      (d : R.Db)
      → Safe J s.keys d
      → Safe J s.keys (f d)
        × ((i : String)
            → elem i (ids_of es) ≡ true
            → (hget d s.keys.jobs i ≡ none → hget (f d) s.keys.jobs i ≡ none)
              × (elem i (lrange d (current_processing_queue s)) ≡ true
                  → elem i (lrange (f d) (current_processing_queue s)) ≡ true))

  sparing : (es : List (JobEnvelope V)) → Stable (Sparing es) (Safe J s.keys) (Safe J s.keys)
  sparing es f h d p = (h d p).0

  gone_stable :
      (es : List (JobEnvelope V)) (ids : List String)
      → ((i : String) → elem i ids ≡ true → elem i (ids_of es) ≡ true)
      → GoneStable J s (Sparing es) (sparing es) ids
  unfolding elem
  gone_stable es [] sub = tt
  gone_stable es (id ∷ ids) sub = (
    λ f h d p. (((h d p.1).1 id (sub id (rw (eq_refl id) refl))).0 p.0, (h d p.1).0),
    gone_stable es ids λ i e. sub i (rw e (or_true (str_eq id i))),
  )

  Held-stable :
      (es valid : List (JobEnvelope V))
      → ((i : String) → elem i (ids_of valid) ≡ true → elem i (ids_of es) ≡ true)
      → Stable (Sparing es) (Safe J s.keys) (λ d. Safe J s.keys d × Held s d valid)
  Held-stable es valid sub f h d p =
      ((h d p.0).0, Held-along J s d (f d) valid (λ i m. ((h d p.0).1 i (sub i m)).1) p.1)

  valid_sub :
      (invalid : ℕ → Option String) (jobs : List (JobEnvelope V)) (i : String)
      → elem i (ids_of (split_invalid invalid 0 jobs).0) ≡ true
      → elem i (ids_of jobs) ≡ true
  valid_sub invalid jobs i m = elim (Bool-cases (elem i (ids_of jobs))) [
    | inl e ↦ e
    | inr e ↦ absurd (let l = split_invalid-Lacking invalid 0 i jobs e in ground (arith, l.0))
  ]

  with_pending-Held :
      (d : R.Db) (job : JobEnvelope V) (o : Option String)
      (p : List (JobEnvelope V) × List (JobEnvelope V × String))
      → Held s d (job ∷ [])
      → Held s d p.0
      → Held s d (with_pending job o p).0
  with_pending-Held d job none p h hs = (h.0, hs)
  with_pending-Held d job (some error) p h hs = hs

  valid-Held :
      (invalid : ℕ → Option String) (index : ℕ) (d : R.Db) (jobs : List (JobEnvelope V))
      → Held s d jobs
      → Held s d (split_invalid invalid index jobs).0
  unfolding split_invalid
  valid-Held invalid index d [] h = tt
  valid-Held invalid index d (job ∷ jobs) h =
      with_pending-Held d job (invalid index) (split_invalid invalid (index + 1) jobs) (h.0, tt)
        (valid-Held invalid (index + 1) d jobs h.1)

  module _ (live : current_processing_queue s ≢ s.keys.dead) {Error : Type 0}
      (settings : Settings Error) (clock : String → ℕ) (display : OxanaError → String)
      (now duration_ms : ℕ) (build_batch : String → List V → Result (BatchBuild V Error)) where
    kill_each-Safe :
        (G : (R.Db → R.Db) → Type 0) (stable : Stable G (Safe J s.keys) (Safe J s.keys))
        (text : String → String) (jobs : List (JobEnvelope V × String))
        → LosesNone J s G stable (kill_each J s text jobs) (λ _. Unit {0})
    unfolding kill_each
    kill_each-Safe G stable text [] = done J s G stable tt
    kill_each-Safe G stable text ((e, error) ∷ rest) =
        seq J s G stable _ _ (kill-Safe J s G stable e (text error))
          λ _ _. kill_each-Safe G stable text rest

    abbrev Batch : List (JobEnvelope V) → R.Db → Type 0
    Batch pending d = Safe J s.keys d × Held s d pending

    process_built-Safe :
        (worker_name : String) (pending : List (JobEnvelope V))
        (built : Result (BatchBuild V Error))
        → AllDistinct (ids_of pending)
        → Triple
            (Sparing pending)
            (Safe J s.keys)
            (Batch pending)
            (process_built J s settings clock display now duration_ms worker_name pending built)
            (λ _ d. Unit {0} × Safe J s.keys d)
    unfolding process_built
    process_built-Safe worker_name pending (err error) distinct = record {
      at = λ w p g.
          (seq J s (Sparing pending) (sparing pending) _ _
              (kill_each-Safe (Sparing pending) (sparing pending) (λ message. message) _)
              λ _ _. done J s (Sparing pending) (sparing pending) (none, none)).at
            w p.0 g;
    }
    process_built-Safe worker_name pending (ok batch) distinct =
        let G = Sparing pending in
        let invalid = invalid_jobs_by_index batch.invalid (length pending) in
        let (valid, killed) = split_invalid invalid 0 pending in
        let held = Held-stable pending valid (valid_sub invalid pending) in
        record {
          at = λ w p g.
              (Triple-bind G (Safe J s.keys) _ _ _
                  (kill_each-Ready J s live G (sparing pending) valid held (invalid_job worker_name)
                    killed (split_invalid-Apart invalid 0 pending distinct))
                  λ _.
                    run_valid-Safe J s live G (sparing pending) valid held settings clock display
                      now duration_ms
                      (gone_stable pending (ids_of valid) (valid_sub invalid pending)) batch.job).at
                w (p.0, valid-Held invalid 0 w.db pending p.1) g;
        }

    process_pending_batch-Safe :
        (pending : List (JobEnvelope V))
        → AllDistinct (ids_of pending)
        → Triple
            (Sparing pending)
            (Safe J s.keys)
            (Batch pending)
            (process_pending_batch J s settings clock display now duration_ms build_batch pending)
            (λ _ d. Unit {0} × Safe J s.keys d)
    unfolding process_pending_batch
    process_pending_batch-Safe [] distinct =
        Triple-pure (Sparing []) (Safe J s.keys) _ _ λ d p. ((tt, p.0), p.0)
    process_pending_batch-Safe (first ∷ rest) distinct =
        process_built-Safe first.job.name (first ∷ rest) _ distinct

    -- If every stored job has a place at first, this process holds a claim of each job of the batch,
    -- which have different names, its claims do not stand in the list of dead jobs, and no act of
    -- another client loses a job, takes these claims or stores a job of the batch once it is gone,
    -- then every stored job has a place after `process_pending_batch`, whatever the factory and the
    -- worker make of the batch, and whatever becomes of the round trips.
    pub process_pending_batch-keeps :
        (pending : List (JobEnvelope V)) (w : World R.Db)
        → AllDistinct (ids_of pending)
        → Held s w.db pending
        → Granted (Sparing pending) w.turns
        → Safe J s.keys w.db
        → Safe J s.keys
            (process_pending_batch J s settings clock display now duration_ms build_batch pending
              w).1.db
    process_pending_batch-keeps pending w distinct held g p =
        let m =
          process_pending_batch J s settings clock display now duration_ms build_batch pending in
        Outcome-safe (Sparing pending) (Safe J s.keys) (λ _ d. Unit {0} × Safe J s.keys d) (m w).0
          (m w).1.db ((process_pending_batch-Safe pending distinct).at w (p, held) g).1
