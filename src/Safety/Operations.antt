-- ===== src/Safety/Operations.antt =====
-- The operations of oxana/src/storage_internal.rs on claimed and scheduled jobs, and the places of
-- every job. The connection does what it likes at each round trip.
use oxana.Base.{
  ℕ, ◌+◌, String, Bool, true, false, Option, none, some, List, [], ◌∷◌, ◌≡◌, ◌≢◌, ◌⊎◌, inl, inr,
  refl, sym, ◌∙◌, unwrap_or,
}
use oxana.Redis.{Redis, hash}
use oxana.Errors.{OxanaError, json_error, Result, ok, err}
use oxana.Envelope.{JobEnvelope}
use oxana.Json.{Json}
use oxana.Keys.{StorageKeys, namespace_queue}
use oxana.Exec.{Exec, Command, pure, fail, round_trip, ◌>>=◌}
use oxana.Exec.Triple.{
  Outcome, Triple, Stable, Triple-pure, Triple-fail, Triple-round_trip, Triple-bind,
}
use oxana.Scripts.{hget, checked}
use oxana.Safety.Scripts.{Safe}
use oxana.Safety.Commands.{
  Keeps, finish_success-Safe, finish_dead-Safe, lmove-Safe, promote_scheduled-Safe,
  resurrect_claim-Safe,
}
use oxana.Storage.{
  StorageInternal, current_processing_queue, connection, claimed_connection, parse, read_payload,
  dequeue, finish_with_success_batch, kill, transition_snapshot, promote_one,
  promote_scheduled_jobs, enqueue_scheduled, retry_all_now, resurrect_one, queue_of,
}

module _ ⦃R : Redis⦄ {V : Type 0} (J : Json V) (s : StorageInternal) (G : (R.Db → R.Db) → Type 0)
    (stable : Stable G (Safe J s.keys) (Safe J s.keys)) where
  abbrev keys : StorageKeys
  keys = s.keys

  -- From a safe state to one, with a fact about the result.
  abbrev pub LosesNone : {A : Type 0} → Exec R.Db A → (A → Type 0) → Type 0
  LosesNone m Q = Triple G (Safe J keys) (Safe J keys) m (λ a d. Q a × Safe J keys d)

  pub outcome :
      {A : Type 0} (r : Result A) (d : R.Db)
      → Outcome (λ _ _. Unit {0}) (Safe J keys) r d
      → Outcome (λ _ d. Unit {0} × Safe J keys d) (Safe J keys) r d
  outcome (ok a) d h = ((tt, h.1), h.1)
  outcome (err e) d h = h

  -- A command that keeps every job.
  pub send :
      {A : Type 0} (c : Command R.Db A)
      → ((d : R.Db) → Safe J keys d → Keeps J keys (c d))
      → LosesNone (round_trip c) (λ _. Unit {0})
  send c h =
      Triple-round_trip G (Safe J keys) _ c stable (λ d p. p)
        (λ d p. outcome (c d).0 (c d).1 (h d p).at)

  pub seq :
      {A B : Type 0} {Q : A → Type 0} {S : B → Type 0} (m : Exec R.Db A) (f : A → Exec R.Db B)
      → LosesNone m Q
      → ((a : A) → Q a → LosesNone (f a) S)
      → LosesNone (m >>= f) S
  seq m f hm hf =
      Triple-bind G (Safe J keys) _ m f hm λ a. record { at = λ w p g. (hf a p.0).at w p.1 g }

  pub done : {A : Type 0} (a : A) → LosesNone (pure a) (λ _. Unit {0})
  done a = Triple-pure G (Safe J keys) a _ λ d p. ((tt, p), p)

  pub stop : {A : Type 0} {Q : A → Type 0} (e : OxanaError) → LosesNone (fail e) Q
  stop e = Triple-fail G (Safe J keys) e _ λ d p. p

  pub connection-Safe : LosesNone connection (λ _. Unit {0})
  unfolding connection
  connection-Safe = send _ λ d p. record { at = (tt, p) }

  pub claimed_connection-Safe : LosesNone claimed_connection (λ _. Unit {0})
  unfolding claimed_connection
  claimed_connection-Safe = connection-Safe

  -- A payload that was read names a queue other than the list of dead jobs.
  abbrev pub Queued : Option String → Type 0
  Queued payload =
      (p : String) (e : JobEnvelope V)
      → payload ≡ some p
      → J.from_str p ≡ some e
      → namespace_queue keys e.queue ≢ keys.dead

  read-Safe : (id : String) → LosesNone (round_trip (read_payload keys.jobs id)) Queued
  unfolding checked
  read-Safe id =
      Triple-round_trip G (Safe J keys) _ _ stable (λ d p. p)
        λ d p. read d p (R.fits d keys.jobs hash)
    where
      read :
          (d : R.Db)
          → Safe J keys d
          → (b : Bool)
          → let r = checked b (ok (hget d keys.jobs id), d) d in
            Outcome (λ a d. Queued a × Safe J keys d) (Safe J keys) r.0 r.1
      read d p true = (((λ payload e stored parsed. p.queued id payload e stored parsed), p), p)
      read d p false = p

  pub dequeue-Safe :
      (queue : String)
      → current_processing_queue s ≢ keys.dead
      → LosesNone (dequeue s queue) (λ _. Unit {0})
  unfolding dequeue
  dequeue-Safe queue live =
      seq _ _ connection-Safe λ _ _. send _ λ d p. lmove-Safe J keys _ _ d live p

  pub finish_with_success_batch-Safe :
      (es : List (JobEnvelope V)) → LosesNone (finish_with_success_batch s es) (λ _. Unit {0})
  unfolding finish_with_success_batch
  finish_with_success_batch-Safe [] = done tt
  finish_with_success_batch-Safe (e ∷ es) =
      seq _ _ claimed_connection-Safe λ _ _. send _ λ d p. finish_success-Safe J keys _ _ d p

  pub kill-Safe :
      (e : JobEnvelope V) (error : String) → LosesNone (kill J s e error) (λ _. Unit {0})
  unfolding kill
  kill-Safe e error =
      seq _ _ claimed_connection-Safe λ _ _. send _ λ d p. finish_dead-Safe J keys _ _ _ _ d p

  -- What a snapshot names as its queue is not the list of dead jobs, if the snapshot has a payload.
  abbrev Snapshot : Option String × Result (Option (JobEnvelope V)) → Type 0
  Snapshot (payload, parsed) = (parsed ≡ parse J payload) × Queued payload

  transition_snapshot-Safe : (id : String) → LosesNone (transition_snapshot J s id) Snapshot
  unfolding transition_snapshot
  transition_snapshot-Safe id =
      seq _ _ (read-Safe id)
        λ payload queued. Triple-pure G (Safe J keys) _ _ λ d p. (((refl, queued), p), p)

  named_queue :
      (found : Option (JobEnvelope V)) (envelope : Option (JobEnvelope V))
      → ok envelope ≡ elim found [ none ↦ err json_error | some e ↦ ok (some e) ]
      → ((e : JobEnvelope V) → found ≡ some e → namespace_queue keys e.queue ≢ keys.dead)
      → queue_of J s envelope ≢ keys.dead
  named_queue none envelope e live = cc
  named_queue (some found) none e live = cc
  named_queue (some found) (some x) e live = live x cc

  live-queue :
      (payload : Option String) (envelope : Option (JobEnvelope V))
      → ok envelope ≡ parse J payload
      → Queued payload
      → (unwrap_or payload "" ≡ "") ⊎ (queue_of J s envelope ≢ keys.dead)
  live-queue none envelope e queued = inl refl
  live-queue (some p) envelope e queued =
      inr (named_queue (J.from_str p) envelope e λ x. queued p x refl)

  -- The callers of a snapshot skip a payload that is no envelope.
  by_snapshot :
      (r : Result (Option (JobEnvelope V))) (f : Option (JobEnvelope V) → Exec R.Db ℕ)
      → ((envelope : Option (JobEnvelope V))
          → r ≡ ok envelope
          → LosesNone (f envelope) (λ _. Unit {0}))
      → LosesNone (elim r [ ok envelope ↦ f envelope | err e ↦ pure 0 ]) (λ _. Unit {0})
  by_snapshot (ok envelope) f h = h envelope refl
  by_snapshot (err e) f h = done 0

  promote_one-Safe :
      (scheduled : String) (job : String × ℕ)
      → LosesNone (promote_one J s scheduled job) (λ _. Unit {0})
  unfolding promote_one
  promote_one-Safe scheduled (id, score) = seq _ _ (transition_snapshot-Safe id) λ snapshot fact.
      by_snapshot snapshot.1 _ λ envelope e. send _ λ d p.
        promote_scheduled-Safe J keys _ _ _ _ _ d
          (live-queue snapshot.0 envelope (sym e ∙ fact.0) fact.1) p

  pub promote_scheduled_jobs-Safe :
      (scheduled : String) (count : ℕ) (jobs : List (String × ℕ))
      → LosesNone (promote_scheduled_jobs J s scheduled count jobs) (λ _. Unit {0})
  unfolding promote_scheduled_jobs
  promote_scheduled_jobs-Safe scheduled count [] = done count
  promote_scheduled_jobs-Safe scheduled count (job ∷ jobs) =
      seq _ _ (promote_one-Safe scheduled job)
        λ moved _. promote_scheduled_jobs-Safe scheduled (count + moved) jobs

  pub checked_read :
      {A : Type 0} (fits : Bool) (a : A) (d : R.Db)
      → Safe J keys d
      → Keeps J keys (checked fits (ok a, d) d)
  unfolding checked
  checked_read true a d p = record { at = (tt, p) }
  checked_read false a d p = record { at = p }

  pub enqueue_scheduled-Safe :
      (scheduled : String) (now : ℕ)
      → LosesNone (enqueue_scheduled J s scheduled now) (λ _. Unit {0})
  unfolding enqueue_scheduled
  enqueue_scheduled-Safe scheduled now = seq _ _ connection-Safe λ _ _.
      seq _ _ (send _ λ d p. checked_read _ _ d p)
        λ jobs _. promote_scheduled_jobs-Safe scheduled 0 jobs

  pub retry_all_now-Safe : LosesNone (retry_all_now J s) (λ _. Unit {0})
  unfolding retry_all_now
  retry_all_now-Safe = seq _ _ connection-Safe λ _ _.
      seq _ _ (send _ λ d p. checked_read _ _ d p)
        λ jobs _. promote_scheduled_jobs-Safe keys.retry 0 jobs

  pub resurrect_one-Safe :
      (processing id : String) → LosesNone (resurrect_one J s processing id) (λ _. Unit {0})
  unfolding resurrect_one
  resurrect_one-Safe processing id = seq _ _ (transition_snapshot-Safe id) λ snapshot fact.
      by_snapshot snapshot.1 _ λ envelope e. send _ λ d p.
        resurrect_claim-Safe J keys _ _ _ _ _ d
          (live-queue snapshot.0 envelope (sym e ∙ fact.0) fact.1) p
