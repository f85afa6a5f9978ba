-- ===== src/Coordinator/Split.antt =====
-- Which jobs of a batch run, by oxana/src/worker_registry.rs and by oxana/src/coordinator.rs.
use oxana.Base.{
  ℕ, suc, ◌+◌, ◌≤◌, ◌<◌, String, Option, none, some, List, [], ◌∷◌, ◌≡◌, refl, ◌∙◌, ap, arith, map,
}
use oxana.Base.Lists.{length}
use oxana.Registry.Batch.{InvalidBatchJob, Parsed, valid, invalid, with_job, read_from}
use oxana.Coordinator.Invalid.{invalid_jobs_by_index, with_pending, split_invalid}

module _ {V A P : Type 0} (from_value : V → Parsed A) (args : P → V) where
  -- The jobs to run are those that the worker got, each with its own arguments.
  abbrev pub Reads : List P → List A → Type 0
  Reads [] [] = Unit {0}
  Reads [] (a ∷ jobs) = ⊥
  Reads (p ∷ ps) [] = ⊥
  Reads (p ∷ ps) (a ∷ jobs) = (from_value (args p) ≡ valid a) × Reads ps jobs

  not_here :
      (i : InvalidBatchJob) (is : List InvalidBatchJob) (n j : ℕ)
      → i.index < j
      → invalid_jobs_by_index (i ∷ is) n j ≡ invalid_jobs_by_index is n j
  unfolding invalid_jobs_by_index
  not_here i is n j h = ground arith

  here :
      (error : String) (is : List InvalidBatchJob) (n i : ℕ)
      → i < n
      → invalid_jobs_by_index (record { index = i; error = error } ∷ is) n i ≡ some error
  unfolding invalid_jobs_by_index
  here error is n i h = ground arith

  -- No error stands before the first place that is read.
  below :
      (values : List V) (i n j : ℕ)
      → j < i
      → invalid_jobs_by_index (read_from from_value i values).1 n j ≡ none
  unfolding read_from invalid_jobs_by_index
  below [] i n j h = refl
  below (v ∷ vs) i n j h = go (from_value v) (below vs (i + 1) n j (omega arith))
    where
      go :
          (parsed : Parsed A)
          → invalid_jobs_by_index (read_from from_value (i + 1) vs).1 n j ≡ none
          → invalid_jobs_by_index (with_job i parsed (read_from from_value (i + 1) vs)).1 n j ≡ none
      go (valid a) rest = rest
      go (invalid error) rest = ground (arith, rest, h)

  run :
      (p : P) (a : A) (o : Option String) (s : List P × List (P × String)) (jobs : List A)
      → o ≡ none
      → from_value (args p) ≡ valid a
      → Reads s.0 jobs
      → Reads (with_pending p o s).0 (a ∷ jobs)
  run p a none (ps, killed) jobs e reads rest = (reads, rest)
  run p a (some error) (ps, killed) jobs e reads rest = cc

  kill :
      (p : P) (error : String) (o : Option String) (s : List P × List (P × String)) (jobs : List A)
      → o ≡ some error
      → Reads s.0 jobs
      → Reads (with_pending p o s).0 jobs
  kill p error none (ps, killed) jobs e rest = cc
  kill p error (some x) (ps, killed) jobs e rest = rest

  split_lem :
      (ps : List P) (i n : ℕ) (at : ℕ → Option String)
      → i + length ps ≤ n
      → ((j : ℕ)
          → i ≤ j
          → at j ≡ invalid_jobs_by_index (read_from from_value i (map args ps)).1 n j)
      → Reads (split_invalid at i ps).0 (read_from from_value i (map args ps)).0
  unfolding read_from split_invalid
  split_lem [] i n at h agree = tt
  split_lem (p ∷ ps) i n at h agree =
      go (from_value (args p)) refl agree (split_lem ps (i + 1) n at (omega arith))
    where
      go :
          (parsed : Parsed A)
          → from_value (args p) ≡ parsed
          → ((j : ℕ)
              → i ≤ j
              → at j
                ≡ invalid_jobs_by_index
                    (with_job i parsed (read_from from_value (i + 1) (map args ps))).1
                    n
                    j)
          → (((j : ℕ)
                → i + 1 ≤ j
                → at j ≡ invalid_jobs_by_index (read_from from_value (i + 1) (map args ps)).1 n j)
              → Reads
                  (split_invalid at (i + 1) ps).0
                  (read_from from_value (i + 1) (map args ps)).0)
          → Reads
              (with_pending p (at i) (split_invalid at (i + 1) ps)).0
              (with_job i parsed (read_from from_value (i + 1) (map args ps))).0
      go (valid a) e agrees rest =
          run p a (at i) (split_invalid at (i + 1) ps) _
            (agrees i (omega arith) ∙ below (map args ps) (i + 1) n i (omega arith)) e
            (rest λ j le. agrees j (omega arith))
      go (invalid error) e agrees rest =
          kill p error (at i) (split_invalid at (i + 1) ps) _
            (agrees i (omega arith) ∙ here error _ n i (omega arith))
            (rest λ j le. agrees j (omega arith) ∙ not_here _ _ n j (omega arith))

  Reads-length : (ps : List P) (jobs : List A) → Reads ps jobs → length ps ≡ length jobs
  Reads-length [] [] r = refl
  Reads-length [] (a ∷ jobs) r = absurd r
  Reads-length (p ∷ ps) [] r = absurd r
  Reads-length (p ∷ ps) (a ∷ jobs) r = ap suc (Reads-length ps jobs r.1)

-- The jobs of a batch that the coordinator runs are those that the registry could read, in the same
-- order, each with its own arguments, and as many as the worker got.
pub split_invalid-Reads :
    {V A P : Type 0} (from_value : V → Parsed A) (args : P → V) (pending : List P)
    → let (jobs, errors) = read_from from_value 0 (map args pending) in
      let runs = (split_invalid (invalid_jobs_by_index errors (length pending)) 0 pending).0 in
      Reads from_value args runs jobs × (length runs ≡ length jobs)
split_invalid-Reads from_value args pending =
    let r = split_lem from_value args pending 0 (length pending) _ (omega arith) λ j h. refl in
    (r, Reads-length from_value args _ _ r)
