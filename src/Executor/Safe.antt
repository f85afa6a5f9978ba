-- ===== src/Executor/Safe.antt =====
-- `finish_batch_result` of oxana/src/executor.rs, and the places of every job.
use oxana.Base.{ℕ, String, Option, none, some, List, [], ◌∷◌, map, ltb}
use oxana.Redis.{Redis}
use oxana.Errors.{OxanaError, Result, ok, err}
use oxana.Envelope.{JobEnvelope}
use oxana.Json.{Json}
use oxana.Exec.{Exec, pure}
use oxana.Exec.Triple.{Stable, Triple-test}
use oxana.Safety.Scripts.{Safe}
use oxana.Safety.Operations.{LosesNone, seq, done, finish_with_success_batch-Safe, kill-Safe}
use oxana.Safety.Retry.{Found, retry_in-Safe}
use oxana.Safety.Pipelines.{attempt-Safe}
use oxana.Storage.{StorageInternal}
use oxana.Executor.{
  ExecutionResult, success, failed, panicked, JobExecutionPolicy, Settings, zip, handle_err,
  handle_batch, finish_batch_result,
}

abbrev pub ids_of : {V : Type 0} → List (JobEnvelope V) → List String
ids_of es = map (λ e. e.id) es

module _ ⦃R : Redis⦄ {V : Type 0} (J : Json V) (s : StorageInternal) (G : (R.Db → R.Db) → Type 0)
    (stable : Stable G (Safe J s.keys) (Safe J s.keys)) where
  -- Nobody stores a payload under one of these names after it is gone.
  abbrev pub GoneStable : List String → Type 0
  GoneStable [] = Unit {0}
  GoneStable (id ∷ ids) = Stable G (Safe J s.keys) (Found J s G stable id none) × GoneStable ids

  abbrev AllGone : List (JobEnvelope V × JobExecutionPolicy) → Type 0
  AllGone [] = Unit {0}
  AllGone ((e, p) ∷ rest) = Stable G (Safe J s.keys) (Found J s G stable e.id none) × AllGone rest

  zip-AllGone :
      (es : List (JobEnvelope V)) (ps : List JobExecutionPolicy)
      → GoneStable (ids_of es)
      → AllGone (zip es ps)
  zip-AllGone [] ps g = tt
  zip-AllGone (e ∷ es) [] g = tt
  zip-AllGone (e ∷ es) (p ∷ ps) g = (g.0, zip-AllGone es ps g.1)

  pub handle_err-Safe :
      (err_msg : String) (e : JobEnvelope V) (delay max_retries now : ℕ)
      → Stable G (Safe J s.keys) (Found J s G stable e.id none)
      → LosesNone J s G stable (handle_err J s err_msg e delay max_retries now) (λ _. Unit {0})
  unfolding handle_err
  handle_err-Safe err_msg e delay max_retries now gone =
      Triple-test G (Safe J s.keys) _ (ltb e.meta.retries max_retries)
        (retry_in-Safe J s G stable e.id err_msg now delay gone) (kill-Safe J s G stable e err_msg)

  handle_batch-Safe :
      (err_msg : String) (delay : JobEnvelope V → JobExecutionPolicy → ℕ) (clock : String → ℕ)
      (jobs : List (JobEnvelope V × JobExecutionPolicy))
      → AllGone jobs
      → LosesNone J s G stable (handle_batch J s err_msg delay clock jobs) (λ _. Unit {0})
  unfolding handle_batch
  handle_batch-Safe err_msg delay clock [] gone = done J s G stable none
  handle_batch-Safe err_msg delay clock ((e, p) ∷ rest) gone =
      seq J s G stable _ _
        (attempt-Safe J s G stable _
          (handle_err-Safe err_msg e (delay e p) p.max_retries (clock e.id) gone.0))
        λ handled _. go handled (handle_batch-Safe err_msg delay clock rest gone.1)
    where
      go :
          {m : Exec R.Db (Option OxanaError)} (handled : Result (Unit {0}))
          → LosesNone J s G stable m (λ _. Unit {0})
          → LosesNone J s G stable
              (elim handled [ ok x ↦ m | err error ↦ pure (some error) ])
              (λ _. Unit {0})
      go (ok x) h = h
      go (err error) h = done J s G stable (some error)

  pub finish_batch_result-Safe :
      {Error : Type 0} (settings : Settings Error) (clock : String → ℕ)
      (result : ExecutionResult Error) (es : List (JobEnvelope V)) (ps : List JobExecutionPolicy)
      → GoneStable (ids_of es)
      → LosesNone J s G stable (finish_batch_result J s settings clock result es ps) (λ _. Unit {0})
  unfolding finish_batch_result
  finish_batch_result-Safe settings clock success es ps gone =
      seq J s G stable _ _
        (attempt-Safe J s G stable _ (finish_with_success_batch-Safe J s G stable es))
        λ r _. done J s G stable _
  finish_batch_result-Safe settings clock (failed e) es ps gone =
      seq J s G stable _ _ (handle_batch-Safe _ _ clock (zip es ps) (zip-AllGone es ps gone))
        λ r _. done J s G stable _
  finish_batch_result-Safe settings clock (panicked message) es ps gone =
      seq J s G stable _ _ (handle_batch-Safe _ _ clock (zip es ps) (zip-AllGone es ps gone))
        λ r _. done J s G stable _
