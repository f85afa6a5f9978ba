-- ===== src/Registry/Batch.antt =====
-- `job_batch_factory` of oxana/src/worker_registry.rs: the arguments of a batch that can be read, and
-- the places of those that cannot. `from_value` is serde_json's reading of one argument; its error is
-- the text it prints.
use oxana.Base.{ℕ, ◌+◌, String, Option, none, some, List, [], ◌∷◌}

pub record InvalidBatchJob : Type 0 where
  pub index : ℕ
  pub error : String

pub data Parsed (A : Type 0) : Type 0 where
  valid : A → Parsed A
  invalid : String → Parsed A

abbrev pub with_job :
    {A : Type 0} → ℕ → Parsed A → List A × List InvalidBatchJob → List A × List InvalidBatchJob
with_job index (valid job) (jobs, errors) = (job ∷ jobs, errors)
with_job index (invalid error) (jobs, errors) =
    (jobs, record { index = index; error = error } ∷ errors)

module _ {V A : Type 0} (from_value : V → Parsed A) where
  unfoldable pub read_from : ℕ → List V → List A × List InvalidBatchJob
  read_from index [] = ([], [])
  read_from index (value ∷ values) =
      with_job index (from_value value) (read_from (index + 1) values)

  -- The jobs of the batch worker, where there are any.
  abbrev pub bound : List A → Option (List A)
  bound [] = none
  bound (j ∷ js) = some (j ∷ js)

  unfoldable pub job_batch_factory : List V → Option (List A) × List InvalidBatchJob
  unfolding read_from
  job_batch_factory values = let (jobs, errors) = read_from 0 values in (bound jobs, errors)
