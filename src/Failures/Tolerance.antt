-- ===== src/Failures/Tolerance.antt =====
-- `track_redis_result` of oxana/src/storage_internal.rs over a sequence of results.
use oxana.Base.{ℕ, ◌+◌, ◌^◌, ◌<◌, ◌≤◌, leb, List, [], ◌∷◌, ◌≡◌, refl, ap, arith}
use oxana.Base.Lists.{length}
use oxana.Envelope.{u32}
use oxana.Errors.{Result, ok, err, OxanaError}
use oxana.Failures.{track_redis_result, escalated, record_redis_failure}

bump : (a b : ℕ) → a ≡ b → b + 1 < 2 ^ 32 → u32 (a + 1) ≡ b + 1
bump a b e small = omega arith

module _ {A : Type 0} (failure_tolerance : ℕ) where
  -- The count after some results, the last of which comes first.
  abbrev pub count_after : List (Result A) → ℕ
  count_after [] = 0
  count_after (r ∷ before) = (track_redis_result failure_tolerance r (count_after before)).1

  -- How many of the last results are failures, with no success between.
  abbrev pub failures_in_a_row : List (Result A) → ℕ
  failures_in_a_row [] = 0
  failures_in_a_row (ok a ∷ before) = 0
  failures_in_a_row (err e ∷ before) = failures_in_a_row before + 1

  in_a_row-length : (rs : List (Result A)) → failures_in_a_row rs ≤ length rs
  in_a_row-length [] = omega arith
  in_a_row-length (ok a ∷ rs) = omega arith
  in_a_row-length (err e ∷ rs) = let h = in_a_row-length rs in omega arith

  count-in_a_row :
      (rs : List (Result A)) → length rs < 2 ^ 32 → count_after rs ≡ failures_in_a_row rs
  unfolding track_redis_result record_redis_failure
  count-in_a_row [] small = refl
  count-in_a_row (ok a ∷ rs) small = refl
  count-in_a_row (err e ∷ rs) small =
      let l = in_a_row-length rs in
      bump (count_after rs) (failures_in_a_row rs) (count-in_a_row rs (omega arith)) (omega arith)

-- After fewer than 2 ^ 32 - 1 results, a failure is passed on as an error exactly if it makes the
-- number of failures in a row reach the tolerance; before that it is a value that stands for no
-- answer.
pub tolerated-in_a_row :
    {A : Type 0} (failure_tolerance : ℕ) (before : List (Result A)) (e : OxanaError)
    → length before + 1 < 2 ^ 32
    → (track_redis_result {A = A} failure_tolerance
        (err e)
        (count_after failure_tolerance before)).0
      ≡ escalated e (leb failure_tolerance (failures_in_a_row failure_tolerance before + 1))
unfolding track_redis_result record_redis_failure
tolerated-in_a_row failure_tolerance before e small =
    let l = in_a_row-length failure_tolerance before in
    ap (λ n. escalated e (leb failure_tolerance n))
      (bump _ _ (count-in_a_row failure_tolerance before (omega arith)) (omega arith))
