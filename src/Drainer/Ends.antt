-- ===== src/Drainer/Ends.antt =====
-- The loop of `drain_queue`, and its counts.
use oxana.Base.{
  ℕ, zero, suc, ◌+◌, ◌<◌, String, Bool, true, false, Option, none, some, List, [], ◌∷◌, ◌≡◌, ◌≢◌,
  refl, ap, ◌∙◌, arith, eq_refl,
}
use mathlib.Core.List.{get_last?, drop_last}
use oxana.Base.Lists.{length, str_eq-distinct}
use oxana.Errors.{Result, ok, err}
use oxana.Envelope.{JobEnvelope}
use oxana.Json.{Json}
use oxana.Keys.{namespace_queue}
use oxana.Redis.{Redis, list}
use oxana.Exec.{World, pure, ◌>>=◌}
use oxana.Exec.Triple.{Outcome, Triple, Triple-pure, Triple-bind, Triple-round_trip, Granted}
use oxana.Exec.Keeping.{Triple-weaken}
use oxana.Scripts.{lrange, checked}
use oxana.Storage.{
  StorageInternal, connection, current_processing_queue, dequeue, lmove, lmove_found,
}
use oxana.Drainer.{
  DrainStats, DrainWorker, ProcessJobResult, counted, process_job, drain_queue, no_drain_stats,
}
use oxana.Drainer.Counts.{Drained, Tells, tally, tally_lem, drain_queue-Tells}
use oxana.Drainer.Below.{Below, Shortening, below, connection-KeepsBelow, process_job-KeepsBelow}

length-drop_last :
    (xs : List String) (id : String)
    → get_last? xs ≡ some id
    → length (drop_last xs) + 1 ≡ length xs
length-drop_last [] id e = cc
length-drop_last (x ∷ []) id e = refl
length-drop_last (x ∷ y ∷ ys) id e = omega (arith, length-drop_last (y ∷ ys) id e)

module _ ⦃R : Redis⦄ {V Error : Type 0} (J : Json V) (s : StorageInternal)
    (build : JobEnvelope V → Result (DrainWorker V Error)) (format_error : Error → String)
    (queue_key : String) (apart : current_processing_queue s ≢ namespace_queue s.keys queue_key)
    (dead : s.keys.dead ≢ namespace_queue s.keys queue_key) where
  abbrev key : String
  key = namespace_queue s.keys queue_key

  abbrev Others : (R.Db → R.Db) → Type 0
  Others = Shortening s key apart dead

  abbrev Short : ℕ → R.Db → Type 0
  Short n d = Below s key apart dead n d

  abbrev Anything : R.Db → Type 0
  Anything d = Unit {0}

  -- What is left behind a job that was taken.
  abbrev Taken : ℕ → Option String → R.Db → Type 0
  Taken n none d = Unit {0}
  Taken n (some id) d = Short n d

  taken :
      (n : ℕ) (fits : Bool) (r : Result (Option String) × R.Db) (d : R.Db)
      → Outcome (Taken n) Anything r.0 r.1
      → Outcome (Taken n) Anything (checked fits r d).0 (checked fits r d).1
  unfolding checked
  taken n true r d h = h
  taken n false r d h = tt

  moved :
      (n : ℕ) (id : String) (d : R.Db)
      → get_last? (lrange d key) ≡ some id
      → Short (suc n) d
      → Short n (R.lpush (current_processing_queue s) id (R.rpop key d))
  moved n id d last h =
      let behind : lrange (R.rpop key d) key ≡ drop_last (lrange d key) =
        ap (λ v. v.lists key) (R.view-rpop key d) ∙ rw (eq_refl key) refl in
      let left : lrange (R.lpush (current_processing_queue s) id (R.rpop key d)) key
          ≡ drop_last (lrange d key) =
        ap (λ v. v.lists key) (R.view-lpush (current_processing_queue s) id (R.rpop key d))
        ∙ rw (str_eq-distinct (current_processing_queue s) key apart) behind in
      rw (ap length left) (omega (arith, length-drop_last (lrange d key) id last, h))

  lmove-Taken :
      (n : ℕ) (d : R.Db)
      → Short (suc n) d
      → let r = lmove key (current_processing_queue s) d in Outcome (Taken n) Anything r.0 r.1
  unfolding lmove
  lmove-Taken n d h = taken n (R.fits d key list) _ d (found (get_last? (lrange d key)) refl)
    where
      found :
          (last : Option String)
          → get_last? (lrange d key) ≡ last
          → let r = lmove_found (current_processing_queue s) key last d in
            Outcome (Taken n) Anything r.0 r.1
      found none e = (tt, tt)
      found (some id) e =
          taken n (R.fits d (current_processing_queue s) list)
            (ok (some id), R.lpush (current_processing_queue s) id (R.rpop key d)) d
            (moved n id d e h, tt)

  dequeue-Taken : (n : ℕ) → Triple Others Anything (Short (suc n)) (dequeue s queue_key) (Taken n)
  unfolding dequeue
  dequeue-Taken n =
      Triple-bind Others Anything (λ _ d. Short (suc n) d) connection _
        (Triple-weaken Others connection (λ d h. tt)
          (connection-KeepsBelow s key apart dead (suc n)))
        (λ x.
          Triple-round_trip Others Anything (Taken n) _ (below s key apart dead (suc n)) (λ d h. tt)
            (λ d h. lmove-Taken n d h))

  -- The loop came to its end.
  abbrev Ended : Option DrainStats → R.Db → Type 0
  Ended out d = (stats : DrainStats) × (out ≡ some stats)

  drain_queue-Ended :
      (fuel : ℕ) (stats : DrainStats)
      → Triple Others Anything
          (Short fuel)
          (drain_queue J s build format_error fuel queue_key stats)
          Ended
  unfolding drain_queue
  drain_queue-Ended zero stats =
      Triple-pure Others Anything none _ (λ d h. absurd (omega (arith, h)))
  drain_queue-Ended (suc fuel) stats =
      Triple-bind Others Anything (Taken fuel) (dequeue s queue_key) _ (dequeue-Taken fuel)
        (found (λ r. drain_queue-Ended fuel (counted r stats)))
    where
      found :
          ((r : ProcessJobResult)
            → Triple Others Anything
                (Short fuel)
                (drain_queue J s build format_error fuel queue_key (counted r stats))
                Ended)
          → (id : Option String)
          → Triple Others Anything
              (Taken fuel id)
              (elim id [
                | none ↦ pure (some stats)
                | some id ↦ process_job J s build format_error id >>= λ r.
                    drain_queue J s build format_error fuel queue_key (counted r stats)
              ])
              Ended
      found later none = Triple-pure Others Anything (some stats) _ (λ d h. ((stats, refl), tt))
      found later (some id) =
          Triple-bind Others Anything (λ _ d. Short fuel d) (process_job J s build format_error id)
            _
            (Triple-weaken Others (process_job J s build format_error id) (λ d h. tt)
              (process_job-KeepsBelow s key apart dead J build format_error fuel id))
            later

  -- A drain that does not fail has come to its end, with the counts of the jobs that it took.
  abbrev pub Complete : World R.Db → Result (Option DrainStats) × World R.Db → Type 0
  Complete w (err e, w') = Unit {0}
  Complete w (ok none, w') = ⊥
  Complete w (ok (some stats), w') =
      (rs : List ProcessJobResult) × Drained J s build format_error queue_key rs w w'
      × (stats ≡ tally rs)

  complete :
      (w : World R.Db) (r : Result (Option DrainStats)) (w' : World R.Db)
      → Outcome Ended Anything r w'.db
      → Tells J s build format_error queue_key 0 0 0 0 w (r, w')
      → Complete w (r, w')
  complete w (err e) w' o t = tt
  complete w (ok none) w' ((stats, e), x) t = cc
  complete w (ok (some stats)) w' o (rs, drained, same) = (rs, drained, same ∙ tally_lem rs)

  -- Fuel above the length of the queue is enough: a drain that does not fail comes to its end, an
  -- empty queue, after some jobs were taken and processed one after another, and its counts are the
  -- number of these jobs and the numbers of those that succeeded, failed and were missing, modulo
  -- 2 ^ 64. Other clients do not lengthen the queue, and it is neither the list of dead jobs nor that
  -- of the claims.
  pub drain_queue-Ends :
      (fuel : ℕ) (w : World R.Db)
      → length (lrange w.db key) < fuel
      → Granted Others w.turns
      → Complete w (drain_queue J s build format_error fuel queue_key no_drain_stats w)
  drain_queue-Ends fuel w enough granted =
      let (r, w') = drain_queue J s build format_error fuel queue_key no_drain_stats w in
      complete w r w' ((drain_queue-Ended fuel no_drain_stats).at w enough granted).1
        (drain_queue-Tells J s build format_error queue_key fuel 0 0 0 0 w)
