-- ===== src/Executor/Start.antt =====
-- `run_batch` of oxana/src/executor.rs from its start on, and the places of every job. While the
-- batch starts, this process holds the claim of each of its jobs.
use mathlib.Core.Path.{subst}
use oxana.Base.{
  ℕ, String, Bool, true, false, some, List, [], ◌∷◌, ◌≡◌, ◌≢◌, refl, sym, ◌∙◌, map, eq_refl, ◌==◌,
  if◌then◌else◌,
}
use oxana.Base.Lists.{elem, length}
use oxana.Redis.{Redis}
use oxana.Errors.{ok, generic_error}
use oxana.Envelope.{JobEnvelope}
use oxana.Json.{Json, reread}
use oxana.Keys.{namespace_queue}
use oxana.Exec.Triple.{
  Outcome, Triple, Stable, Triple-pure, Triple-fail, Triple-round_trip, Triple-bind, Triple-test,
}
use oxana.Scripts.{lrange, checked}
use oxana.Safety.{in_list}
use oxana.Safety.Places.{Located-set_field}
use oxana.Safety.Moves.{store}
use oxana.Safety.Scripts.{Safe}
use oxana.Safety.Operations.{seq, done}
use oxana.Storage.{
  StorageInternal, current_processing_queue, connection, claimed_connection, write_payloads,
  hset_payloads, update_jobs, started, set_started_at_batch,
}
use oxana.Executor.Safe.{GoneStable, ids_of, finish_batch_result-Safe}
use oxana.Executor.{Settings, Worker, run_batch, cleared}

-- The claim of each job is held, and its queue is not the list of dead jobs.
abbrev pub Held :
    ⦃R : Redis⦄ → {V : Type 0} → StorageInternal → R.Db → List (JobEnvelope V) → Type 0
Held s d [] = Unit {0}
Held s d (e ∷ es) =
    ((elem e.id (lrange d (current_processing_queue s)) ≡ true)
      × (namespace_queue s.keys e.queue ≢ s.keys.dead))
    × Held s d es

module _ ⦃R : Redis⦄ {V : Type 0} (J : Json V) (s : StorageInternal) (G : (R.Db → R.Db) → Type 0)
    (stable : Stable G (Safe J s.keys) (Safe J s.keys)) where
  Held-map :
      (f : JobEnvelope V → JobEnvelope V)
      → ((e : JobEnvelope V) → ((f e).id ≡ e.id) × ((f e).queue ≡ e.queue))
      → (d : R.Db) (es : List (JobEnvelope V)) → Held s d es
      → Held s d (map f es)
  Held-map f same d [] h = tt
  Held-map f same d (e ∷ es) h = (rw ((same e).0, (same e).1) h.0, Held-map f same d es h.1)

  ids-map :
      (f : JobEnvelope V → JobEnvelope V)
      → ((e : JobEnvelope V) → (f e).id ≡ e.id)
      → (es : List (JobEnvelope V)) → ids_of (map f es) ≡ ids_of es
  ids-map f same [] = refl
  ids-map f same (e ∷ es) = rw (same e, ids-map f same es) refl

  Held-hset :
      (id payload : String) (d : R.Db) (es : List (JobEnvelope V))
      → Held s d es
      → Held s (R.hset s.keys.jobs id payload d) es
  Held-hset id payload d [] h = tt
  Held-hset id payload d (e ∷ es) h = (
    subst
        (λ w.
          (elem e.id (w.lists (current_processing_queue s)) ≡ true)
          × (namespace_queue s.keys e.queue ≢ s.keys.dead))
        (sym (R.view-hset s.keys.jobs id payload d)) h.0,
    Held-hset id payload d es h.1,
  )

  module _ (live : current_processing_queue s ≢ s.keys.dead) where
    store-Safe :
        (e : JobEnvelope V) (d : R.Db)
        → elem e.id (lrange d (current_processing_queue s)) ≡ true
        → namespace_queue s.keys e.queue ≢ s.keys.dead
        → Safe J s.keys d
        → Safe J s.keys (R.hset s.keys.jobs e.id (J.to_string e) d)
    store-Safe e d claimed queued = rw (R.view-hset s.keys.jobs e.id (J.to_string e) d) (
        store J s.keys (R.view d) _ e.id _ (reread J.is_null e) (J.from_str-to_string e) queued
          (λ i. rw (eq_refl s.keys.jobs))
          (λ i ne h. Located-set_field s.keys _ s.keys.jobs e.id (some (J.to_string e)) i h)
          (in_list (current_processing_queue s) live claimed))

    write_payloads-Safe :
        (es : List (JobEnvelope V)) (d : R.Db)
        → Held s d es
        → Safe J s.keys d
        → Safe J s.keys (write_payloads J s.keys es d)
    unfolding write_payloads
    write_payloads-Safe [] d h p = p
    write_payloads-Safe (e ∷ es) d h p =
        write_payloads-Safe es _ (Held-hset e.id _ d es h.1) (store-Safe e d h.0.0 h.0.1 p)

    module _ (es : List (JobEnvelope V))
        (held_stable : Stable G (Safe J s.keys) (λ d. Safe J s.keys d × Held s d es)) where
      abbrev Start : R.Db → Type 0
      Start d = Safe J s.keys d × Held s d es

      claimed_connection-Start : Triple G (Safe J s.keys) Start claimed_connection (λ _ d. Start d)
      unfolding claimed_connection connection
      claimed_connection-Start =
          Triple-round_trip G (Safe J s.keys) _ _ held_stable (λ d p. p.0) λ d p. (p, p.0)

      write :
          (xs : List (JobEnvelope V)) (fits : Bool) (d : R.Db)
          → Held s d xs
          → Safe J s.keys d
          → let r = checked fits (ok tt, write_payloads J s.keys xs d) d in
            Outcome (λ _ d. Unit {0} × Safe J s.keys d) (Safe J s.keys) r.0 r.1
      unfolding checked
      write xs true d h p = let q = write_payloads-Safe xs d h p in ((tt, q), q)
      write xs false d h p = p

      update_jobs-Safe :
          (xs : List (JobEnvelope V))
          → ((d : R.Db) → Held s d es → Held s d xs)
          → Triple G (Safe J s.keys) Start (update_jobs J s xs) (λ _ d. Unit {0} × Safe J s.keys d)
      unfolding update_jobs hset_payloads
      update_jobs-Safe [] h = Triple-pure G (Safe J s.keys) tt _ λ d p. ((tt, p.0), p.0)
      update_jobs-Safe (x ∷ xs) h =
          Triple-bind G (Safe J s.keys) _ _ _ claimed_connection-Start λ _.
            Triple-round_trip G (Safe J s.keys) _ _ held_stable (λ d p. p.0)
              λ d p. write (x ∷ xs) _ d (h d p.1) p.0

      set_started_at_batch-Safe :
          (now : ℕ) (xs : List (JobEnvelope V))
          → ((d : R.Db) → Held s d es → Held s d xs)
          → Triple G
              (Safe J s.keys)
              Start
              (set_started_at_batch J s now xs)
              (λ started d. (ids_of started ≡ ids_of xs) × Safe J s.keys d)
      unfolding set_started_at_batch
      set_started_at_batch-Safe now xs h =
          Triple-bind G (Safe J s.keys) _ _ _
            (update_jobs-Safe (map (started J now) xs)
              λ d held. Held-map (started J now) (λ e. (refl, refl)) d xs (h d held))
            λ _.
              Triple-pure G (Safe J s.keys) _ _
                λ d p. ((ids-map (started J now) (λ e. refl) xs, p.1), p.1)

  module _ (live : current_processing_queue s ≢ s.keys.dead) {Error : Type 0}
      (settings : Settings Error) (clock : String → ℕ) where
    resumed-Held :
        (resume : Bool) (es : List (JobEnvelope V)) (d : R.Db)
        → Held s d es
        → Held s d (if resume then es else map cleared es)
    resumed-Held true es d h = h
    resumed-Held false es d h = Held-map cleared (λ e. (refl, refl)) d es h

    resumed-ids :
        (resume : Bool) (es : List (JobEnvelope V))
        → ids_of (if resume then es else map cleared es) ≡ ids_of es
    resumed-ids true es = refl
    resumed-ids false es = ids-map cleared (λ e. refl) es

    pub run_batch-Safe :
        (worker : Worker V Error) (now duration_ms : ℕ) (es : List (JobEnvelope V))
        → GoneStable J s G stable (ids_of es)
        → Stable G (Safe J s.keys) (λ d. Safe J s.keys d × Held s d es)
        → Triple G
            (Safe J s.keys)
            (λ d. Safe J s.keys d × Held s d es)
            (run_batch J s settings clock worker now duration_ms es)
            (λ _ d. Unit {0} × Safe J s.keys d)
    unfolding run_batch
    run_batch-Safe worker now duration_ms [] gone held_stable =
        Triple-pure G (Safe J s.keys) _ _ λ d p. ((tt, p.0), p.0)
    run_batch-Safe worker now duration_ms (e ∷ es) gone held_stable =
        Triple-test G (Safe J s.keys) _ (worker.len == length (e ∷ es))
          (Triple-bind G (Safe J s.keys) _ _ _
            (set_started_at_batch-Safe live (e ∷ es) held_stable now _
              (resumed-Held worker.should_resume (e ∷ es)))
            λ started. record {
              at = λ w p g.
                  (seq J s G stable _ _
                      (finish_batch_result-Safe J s G stable settings clock _ started _ (
                        subst (GoneStable J s G stable)
                          (sym (p.0 ∙ resumed-ids worker.should_resume (e ∷ es))) gone))
                      λ kind _. done J s G stable _).at
                    w p.1 g;
            })
          (Triple-fail G (Safe J s.keys) generic_error _ λ d p. p.0)
