-- ===== src/Coordinator/Apart.antt =====
-- The split of `process_pending_batch` in oxana/src/coordinator.rs: the names of the jobs that are
-- killed and of those that run.
use oxana.Base.{
  ℕ, ◌+◌, String, Bool, true, false, Option, none, some, List, [], ◌∷◌, ◌≡◌, refl, map, str_eq,
  ◌||◌, arith, eq_iff,
}
use oxana.Base.Lists.{elem}
use oxana.Envelope.{JobEnvelope}
use oxana.Executor.Safe.{ids_of}
use oxana.Coordinator.Invalid.{with_pending, split_invalid}

abbrev pub AllDistinct : List String → Type 0
AllDistinct [] = Unit {0}
AllDistinct (i ∷ is) = (elem i is ≡ false) × AllDistinct is

or_false : (a b : Bool) → (a || b) ≡ false → (a ≡ false) × (b ≡ false)
or_false true b h = ground (arith, h)
or_false false b h = (refl, h)

abbrev Split : Type 0 → Type 0
Split V = List (JobEnvelope V) × List (JobEnvelope V × String)

module _ {V : Type 0} where
  abbrev killed_ids : List (JobEnvelope V × String) → List String
  killed_ids killed = map (λ k. k.0.id) killed

  abbrev Lacking : String → Split V → Type 0
  Lacking id (valid, killed) =
      (elem id (ids_of valid) ≡ false) × (elem id (killed_ids killed) ≡ false)

  -- No job that is killed has the name of one that runs.
  abbrev pub Apart : List (JobEnvelope V × String) → List (JobEnvelope V) → Type 0
  Apart [] valid = Unit {0}
  Apart ((e, error) ∷ rest) valid = (elem e.id (ids_of valid) ≡ false) × Apart rest valid

  with_pending-Lacking :
      (id : String) (job : JobEnvelope V) (o : Option String) (p : Split V)
      → str_eq job.id id ≡ false
      → Lacking id p
      → Lacking id (with_pending job o p)
  unfolding elem
  with_pending-Lacking id job none p h l = (rw (h, l.0) refl, l.1)
  with_pending-Lacking id job (some error) p h l = (l.0, rw (h, l.1) refl)

  pub split_invalid-Lacking :
      (invalid : ℕ → Option String) (index : ℕ) (id : String) (jobs : List (JobEnvelope V))
      → elem id (ids_of jobs) ≡ false
      → Lacking id (split_invalid invalid index jobs)
  unfolding split_invalid elem
  split_invalid-Lacking invalid index id [] h = (refl, refl)
  split_invalid-Lacking invalid index id (job ∷ jobs) h =
      let (first, later) = or_false (str_eq job.id id) (elem id (ids_of jobs)) h in
      with_pending-Lacking id job (invalid index) (split_invalid invalid (index + 1) jobs) first
        (split_invalid-Lacking invalid (index + 1) id jobs later)

  Apart-cons :
      (job : JobEnvelope V) (killed : List (JobEnvelope V × String)) (valid : List (JobEnvelope V))
      → elem job.id (killed_ids killed) ≡ false
      → Apart killed valid
      → Apart killed (job ∷ valid)
  unfolding elem
  Apart-cons job [] valid h a = tt
  Apart-cons job ((e, error) ∷ rest) valid h a =
      let (first, later) = or_false (str_eq e.id job.id) (elem job.id (killed_ids rest)) h in
      (
        ground (arith, first, a.0, eq_iff e.id job.id, eq_iff job.id e.id),
        Apart-cons job rest valid later a.1,
      )

  with_pending-Apart :
      (job : JobEnvelope V) (o : Option String) (p : Split V)
      → Lacking job.id p
      → Apart p.1 p.0
      → let q = with_pending job o p in Apart q.1 q.0
  with_pending-Apart job none p l a = Apart-cons job p.1 p.0 l.1 a
  with_pending-Apart job (some error) p l a = (l.0, a)

  pub split_invalid-Apart :
      (invalid : ℕ → Option String) (index : ℕ) (jobs : List (JobEnvelope V))
      → AllDistinct (ids_of jobs)
      → let p = split_invalid invalid index jobs in Apart p.1 p.0
  unfolding split_invalid
  split_invalid-Apart invalid index [] d = tt
  split_invalid-Apart invalid index (job ∷ jobs) d =
      with_pending-Apart job (invalid index) (split_invalid invalid (index + 1) jobs)
        (split_invalid-Lacking invalid (index + 1) job.id jobs d.0)
        (split_invalid-Apart invalid (index + 1) jobs d.1)
