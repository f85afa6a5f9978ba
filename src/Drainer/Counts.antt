-- ===== src/Drainer/Counts.antt =====
-- What `drain_queue` counts, against the results of the jobs that it took.
use oxana.Base.{
  ℕ, zero, suc, ◌+◌, ◌^◌, ◌%◌, String, Option, none, some, List, [], ◌∷◌, ◌≡◌, refl, ◌∙◌, arith,
}
use mathlib.Core.Path.{subst}
use oxana.Base.Lists.{length}
use oxana.Errors.{Result, ok, err}
use oxana.Envelope.{JobEnvelope}
use oxana.Json.{Json}
use oxana.Redis.{Redis}
use oxana.Exec.{World, pure, continue, ◌>>=◌}
use oxana.Storage.{StorageInternal, dequeue}
use oxana.Drainer.{
  DrainStats, DrainWorker, ProcessJobResult, success, failed, missing, counted, process_job,
  drain_queue,
}

abbrev successes : List ProcessJobResult → ℕ
successes [] = 0
successes (success ∷ rs) = 1 + successes rs
successes (failed ∷ rs) = successes rs
successes (missing ∷ rs) = successes rs

abbrev failures : List ProcessJobResult → ℕ
failures [] = 0
failures (success ∷ rs) = failures rs
failures (failed ∷ rs) = 1 + failures rs
failures (missing ∷ rs) = failures rs

abbrev misses : List ProcessJobResult → ℕ
misses [] = 0
misses (success ∷ rs) = misses rs
misses (failed ∷ rs) = misses rs
misses (missing ∷ rs) = 1 + misses rs

abbrev stats_of : ℕ → ℕ → ℕ → ℕ → DrainStats
stats_of a b c d = record {
  processed = a % 2 ^ 64;
  succeeded = b % 2 ^ 64;
  failed = c % 2 ^ 64;
  missing = d % 2 ^ 64;
}

-- The counts of some results.
abbrev pub tally : List ProcessJobResult → DrainStats
tally rs = stats_of (length rs) (successes rs) (failures rs) (misses rs)

abbrev tallied : ℕ → ℕ → ℕ → ℕ → List ProcessJobResult → DrainStats
tallied a b c d rs = stats_of (a + length rs) (b + successes rs) (c + failures rs) (d + misses rs)

stats_eq :
    {a a' b b' c c' d d' : ℕ}
    → a ≡ a'
    → b ≡ b'
    → c ≡ c'
    → d ≡ d'
    → Path DrainStats
        (record { processed = a; succeeded = b; failed = c; missing = d })
        (record { processed = a'; succeeded = b'; failed = c'; missing = d' })
stats_eq p q r t = rw (p, q, r, t) refl

pub tally_lem : (rs : List ProcessJobResult) → tallied 0 0 0 0 rs ≡ tally rs
tally_lem rs = stats_eq (omega arith) (omega arith) (omega arith) (omega arith)

-- One job more, by its result.
abbrev one_more : ProcessJobResult → ℕ → ℕ → ℕ → ℕ → DrainStats
one_more r a b c d =
    stats_of (a + 1) (b + successes (r ∷ [])) (c + failures (r ∷ [])) (d + misses (r ∷ []))

counted_lem :
    (r : ProcessJobResult) (a b c d : ℕ) → one_more r a b c d ≡ counted r (stats_of a b c d)
counted_lem success a b c d = stats_eq (omega arith) (omega arith) (omega arith) (omega arith)
counted_lem failed a b c d = stats_eq (omega arith) (omega arith) (omega arith) (omega arith)
counted_lem missing a b c d = stats_eq (omega arith) (omega arith) (omega arith) (omega arith)

tallied-cons :
    (r : ProcessJobResult) (rs : List ProcessJobResult) (a b c d : ℕ)
    → tallied (a + 1) (b + successes (r ∷ [])) (c + failures (r ∷ [])) (d + misses (r ∷ [])) rs
      ≡ tallied a b c d (r ∷ rs)
tallied-cons success rs a b c d = stats_eq (omega arith) (omega arith) (omega arith) (omega arith)
tallied-cons failed rs a b c d = stats_eq (omega arith) (omega arith) (omega arith) (omega arith)
tallied-cons missing rs a b c d = stats_eq (omega arith) (omega arith) (omega arith) (omega arith)

module _ ⦃R : Redis⦄ {V Error : Type 0} (J : Json V) (s : StorageInternal)
    (build : JobEnvelope V → Result (DrainWorker V Error)) (format_error : Error → String)
    (queue_key : String) where
  -- From `w` to `w'`, one job after another is taken from the queue and processed, with these results,
  -- until the queue has none.
  abbrev pub Drained : List ProcessJobResult → World R.Db → World R.Db → Type 0
  Drained [] w w' = dequeue s queue_key w ≡ (ok none, w')
  Drained (r ∷ rs) w w' =
      (id : String) × (taken : World R.Db) × (behind : World R.Db) × (dequeue s queue_key w
        ≡ (ok (some id), taken))
      × (process_job J s build format_error id taken ≡ (ok r, behind))
      × Drained rs behind w'

  -- What a loop that began with these counts tells, if it comes to its end.
  abbrev pub Tells : ℕ → ℕ → ℕ → ℕ → World R.Db → Result (Option DrainStats) × World R.Db → Type 0
  Tells a b c d w (err e, w') = Unit {0}
  Tells a b c d w (ok none, w') = Unit {0}
  Tells a b c d w (ok (some stats), w') =
      (rs : List ProcessJobResult) × Drained rs w w' × (stats ≡ tallied a b c d rs)

  Tells-cons :
      (r : ProcessJobResult) (a b c d : ℕ) (id : String) (w taken behind : World R.Db)
      (out : Result (Option DrainStats)) (w' : World R.Db)
      → dequeue s queue_key w ≡ (ok (some id), taken)
      → process_job J s build format_error id taken ≡ (ok r, behind)
      → Tells
          (a + 1)
          (b + successes (r ∷ []))
          (c + failures (r ∷ []))
          (d + misses (r ∷ []))
          behind
          (out, w')
      → Tells a b c d w (out, w')
  Tells-cons r a b c d id w taken behind (err e) w' p q t = tt
  Tells-cons r a b c d id w taken behind (ok none) w' p q t = tt
  Tells-cons r a b c d id w taken behind (ok (some stats)) w' p q (rs, drained, same) =
      (r ∷ rs, (id, taken, behind, p, q, drained), same ∙ tallied-cons r rs a b c d)

  abbrev Later : ℕ → Type 0
  Later fuel =
      (a b c d : ℕ) (w : World R.Db)
      → Tells a b c d w (drain_queue J s build format_error fuel queue_key (stats_of a b c d) w)

  module _ (fuel a b c d : ℕ) (w : World R.Db) (later : Later fuel) where
    processed :
        (id : String) (taken : World R.Db) (y : Result ProcessJobResult) (behind : World R.Db)
        → dequeue s queue_key w ≡ (ok (some id), taken)
        → process_job J s build format_error id taken ≡ (y, behind)
        → Tells a b c d w (
            continue y
              (λ r.
                drain_queue J s build format_error fuel queue_key (counted r (stats_of a b c d)))
              behind)
    processed id taken (err e) behind p q = tt
    processed id taken (ok r) behind p q =
        let next =
          subst
            (λ stats.
              Tells (a + 1) (b + successes (r ∷ [])) (c + failures (r ∷ [])) (d + misses (r ∷ []))
                behind (drain_queue J s build format_error fuel queue_key stats behind))
            (counted_lem r a b c d)
            (later (a + 1) (b + successes (r ∷ [])) (c + failures (r ∷ [])) (d + misses (r ∷ []))
              behind) in
        Tells-cons r a b c d id w taken behind _ _ p q next

    found :
        (x : Result (Option String)) (taken : World R.Db)
        → dequeue s queue_key w ≡ (x, taken)
        → Tells a b c d w (
            continue x
              (λ id. elim id [
                | none ↦ pure (some (stats_of a b c d))
                | some id ↦ process_job J s build format_error id >>= λ r.
                    drain_queue J s build format_error fuel queue_key (counted r (stats_of a b c d))
              ])
              taken)
    unfolding pure ◌>>=◌
    found (err e) taken p = tt
    found (ok none) taken p =
        ([], p, stats_eq (omega arith) (omega arith) (omega arith) (omega arith))
    found (ok (some id)) taken p =
        processed id taken (process_job J s build format_error id taken).0
          (process_job J s build format_error id taken).1 p refl

  pub drain_queue-Tells : (fuel : ℕ) → Later fuel
  unfolding drain_queue ◌>>=◌ pure
  drain_queue-Tells zero a b c d w = tt
  drain_queue-Tells (suc fuel) a b c d w =
      found fuel a b c d w (drain_queue-Tells fuel) (dequeue s queue_key w).0
        (dequeue s queue_key w).1 refl
