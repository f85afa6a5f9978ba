-- ===== src/Coordinator/Invalid.antt =====
-- `invalid_jobs_by_index` and the split of `process_pending_batch` in oxana/src/coordinator.rs: the
-- jobs of a batch whose arguments cannot be read are killed, and the others run.
use oxana.Base.{ℕ, ◌+◌, String, Option, none, some, List, [], ◌∷◌, ◌==◌, ltb, ◌&&◌, if◌then◌else◌}
use oxana.Registry.Batch.{InvalidBatchJob}

-- The first error at each place counts, and none past the end.
unfoldable pub invalid_jobs_by_index : List InvalidBatchJob → ℕ → ℕ → Option String
invalid_jobs_by_index [] envelope_count index = none
invalid_jobs_by_index (i ∷ is) envelope_count index =
    let rest = invalid_jobs_by_index is envelope_count index in
    if ltb i.index envelope_count && (i.index == index) then some i.error else rest

-- The jobs to run, and those to kill with their errors.
abbrev pub with_pending :
    {A : Type 0} → A → Option String → List A × List (A × String) → List A × List (A × String)
with_pending job none (valid, killed) = (job ∷ valid, killed)
with_pending job (some error) (valid, killed) = (valid, (job, error) ∷ killed)

unfoldable pub split_invalid :
    {A : Type 0} → (ℕ → Option String) → ℕ → List A → List A × List (A × String)
split_invalid invalid index [] = ([], [])
split_invalid invalid index (job ∷ jobs) =
    with_pending job (invalid index) (split_invalid invalid (index + 1) jobs)
