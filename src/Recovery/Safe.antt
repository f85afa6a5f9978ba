-- ===== src/Recovery/Safe.antt =====
-- The recovery of oxana/src/storage_internal.rs, and the places of every job.
use oxana.Base.{ℕ, ◌+◌, String, none, List, [], ◌∷◌, ◌≢◌, refl, arith, eq_iff}
use oxana.Redis.{Redis, View, set_score}
use oxana.Json.{Json}
use oxana.Keys.{StorageKeys, processing_queue}
use oxana.Exec.Triple.{Stable}
use oxana.Storage.{StorageInternal}
use oxana.Safety.{Located, in_list, scheduled, retried}
use oxana.Safety.Places.{Located-set_field}
use oxana.Safety.Moves.{move}
use oxana.Safety.Scripts.{Safe}
use oxana.Safety.Commands.{Keeps, Keeps-ok, Keeps-checked}
use oxana.Safety.Operations.{
  LosesNone, send, seq, done, connection-Safe, checked_read, resurrect_one-Safe,
}
use oxana.Safety.Pipelines.{pipeline-Safe, lift-Safe}
use oxana.Recovery.{
  dead_process_ids_in, resurrect_claims, forget_member, forget_data, forget_process,
  resurrect_process, resurrect_all, resurrect,
}

-- The records of the processes stand under keys of their own.
pub record OwnKeys (keys : StorageKeys) : Type 0 where
  pub not_schedule : keys.processes ≢ keys.schedule
  pub not_retry : keys.processes ≢ keys.retry
  pub not_jobs : keys.processes_data ≢ keys.jobs

module _ ⦃R : Redis⦄ {V : Type 0} (J : Json V) (s : StorageInternal) (G : (R.Db → R.Db) → Type 0)
    (stable : Stable G (Safe J s.keys) (Safe J s.keys)) where
  Located-forget :
      OwnKeys s.keys
      → (process i : String) (w : View) → Located s.keys w i
      → Located s.keys (set_score s.keys.processes process none w) i
  Located-forget own process i w (in_list k live h) = in_list k live h
  Located-forget own process i w (scheduled t h) =
      scheduled t (ground (arith, eq_iff s.keys.processes s.keys.schedule, own.not_schedule))
  Located-forget own process i w (retried t h) =
      retried t (ground (arith, eq_iff s.keys.processes s.keys.retry, own.not_retry))

  forget_member-Safe :
      OwnKeys s.keys
      → (process : String) (d : R.Db) → Safe J s.keys d
      → Keeps J s.keys (forget_member J s process d)
  forget_member-Safe own process d p =
      Keeps-checked J s.keys _
        (Keeps-ok J s.keys tt (
          rw (R.view-zrem s.keys.processes process d) (
            move J s.keys (R.view d) _ (λ i. refl) (λ i. Located-forget own process i (R.view d))
              p)))
        p

  forget_data-Safe :
      OwnKeys s.keys
      → (process : String) (d : R.Db) → Safe J s.keys d
      → Keeps J s.keys (forget_data J s process d)
  forget_data-Safe own process d p =
      Keeps-checked J s.keys _
        (Keeps-ok J s.keys tt (
          rw (R.view-hdel s.keys.processes_data process d) (
            move J s.keys (R.view d) _
              (λ i. ground (arith, eq_iff s.keys.processes_data s.keys.jobs, own.not_jobs))
              (λ i h. Located-set_field s.keys (R.view d) s.keys.processes_data process none i h)
              p)))
        p

  module _ (own : OwnKeys s.keys) where
    resurrect_claims-Safe :
        (processing : String) (count : ℕ) (ids : List String)
        → LosesNone J s G stable (resurrect_claims J s processing count ids) (λ _. Unit {0})
    unfolding resurrect_claims
    resurrect_claims-Safe processing count [] = done J s G stable count
    resurrect_claims-Safe processing count (id ∷ ids) =
        seq J s G stable _ _ (resurrect_one-Safe J s G stable processing id)
          λ moved _. resurrect_claims-Safe processing (count + moved) ids

    forget_process-Safe :
        (process : String) (left : List String)
        → LosesNone J s G stable (forget_process J s process left) (λ _. Unit {0})
    unfolding forget_process
    forget_process-Safe process [] =
        seq J s G stable _ _
          (pipeline-Safe J s G stable _ (
            (λ d p. forget_member-Safe own process d p),
            ((λ d p. forget_data-Safe own process d p), tt),
          ))
          λ answer _. lift-Safe J s G stable answer
    forget_process-Safe process (claim ∷ claims) = done J s G stable tt

    resurrect_process-Safe :
        (process : String) → LosesNone J s G stable (resurrect_process J s process) (λ _. Unit {0})
    unfolding resurrect_process
    resurrect_process-Safe process =
        seq J s G stable _ _ (send J s G stable _ λ d p. checked_read J s G stable _ _ d p) λ ids _.
          seq J s G stable _ _ (resurrect_claims-Safe (processing_queue s.keys process) 0 ids)
            λ count _.
              seq J s G stable _ _ (send J s G stable _ λ d p. checked_read J s G stable _ _ d p)
                λ left _.
                  seq J s G stable _ _ (forget_process-Safe process left)
                    λ _ _. done J s G stable count

    resurrect_all-Safe :
        (processes : List String)
        → LosesNone J s G stable (resurrect_all J s processes) (λ _. Unit {0})
    unfolding resurrect_all
    resurrect_all-Safe [] = done J s G stable tt
    resurrect_all-Safe (process ∷ processes) =
        seq J s G stable _ _ (resurrect_process-Safe process)
          λ count _. resurrect_all-Safe processes

    -- The recovery from dead processes.
    pub resurrect-Safe :
        (dead_process_threshold now : ℕ)
        → LosesNone J s G stable (resurrect J s dead_process_threshold now) (λ _. Unit {0})
    unfolding resurrect
    resurrect-Safe dead_process_threshold now =
        seq J s G stable _ _ (connection-Safe J s G stable) λ _ _.
          seq J s G stable _ _ (send J s G stable _ λ d p. Keeps-ok J s.keys _ p) λ queues _.
            seq J s G stable _ _ (send J s G stable _ λ d p. checked_read J s G stable _ _ d p)
              λ processes _.
                resurrect_all-Safe (dead_process_ids_in processes queues now dead_process_threshold)
