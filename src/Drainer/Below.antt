-- ===== src/Drainer/Below.antt =====
-- What the processing of a job leaves of the queue that is drained: as much as there was, or less.
use oxana.Base.{
  ℕ, ◌≤◌, ◌<◌, String, Bool, true, false, Option, none, some, List, [], ◌∷◌, ◌≡◌, ◌≢◌, refl, sym,
  ap, ◌∙◌, arith,
}
use mathlib.Core.Path.{subst}
use oxana.Base.Lists.{length, str_eq-distinct}
use oxana.Errors.{Result, ok, err}
use oxana.Envelope.{JobEnvelope}
use oxana.Json.{Json}
use oxana.Redis.{Redis, hash}
use oxana.Exec.{Exec, Command, round_trip}
use oxana.Exec.Triple.{Stable}
use oxana.Exec.Keeping.{Keeps, command-Keeps, pure-Keeps, fail-Keeps, bind-Keeps}
use oxana.Scripts.{lrange, checked, release_all, finish_success, finish_dead, trimmed}
use oxana.Storage.{
  StorageInternal, connection, claimed_connection, current_processing_queue, get_job,
  get_job_w_conn, read_payload, parse, lift, update_job, hset_payloads, write_payloads,
  finish_with_success, finish_with_success_batch, kill,
}
use oxana.Executor.{cleared}
use oxana.Drainer.{
  DrainWorker, start_over, finish_job, process_envelope, process_job, success, failed, missing,
}

module _ ⦃R : Redis⦄ (s : StorageInternal) (key : String) (apart : current_processing_queue s ≢ key)
    (dead : s.keys.dead ≢ key) where
  -- The list keeps its entries.
  abbrev Same : (R.Db → R.Db) → Type 0
  Same f = (d : R.Db) → lrange (f d) key ≡ lrange d key

  lpush-Same : (k i : String) → k ≢ key → Same (R.lpush k i)
  lpush-Same k i h d =
      ap (λ v. v.lists key) (R.view-lpush k i d) ∙ rw (str_eq-distinct k key h) refl

  ltrim-Same : (k : String) (n : ℕ) → k ≢ key → Same (R.ltrim k n)
  ltrim-Same k n h d =
      ap (λ v. v.lists key) (R.view-ltrim k n d) ∙ rw (str_eq-distinct k key h) refl

  lrem_first-Same : (k i : String) → k ≢ key → Same (R.lrem_first k i)
  lrem_first-Same k i h d =
      ap (λ v. v.lists key) (R.view-lrem_first k i d) ∙ rw (str_eq-distinct k key h) refl

  hdel-Same : (k f : String) → Same (R.hdel k f)
  hdel-Same k f d = ap (λ v. v.lists key) (R.view-hdel k f d)

  hset-Same : (k f v : String) → Same (R.hset k f v)
  hset-Same k f v d = ap (λ w. w.lists key) (R.view-hset k f v d)

  release_all-Same :
      (jobs : String) (ids : List String) → Same (release_all jobs (current_processing_queue s) ids)
  unfolding release_all
  release_all-Same jobs [] d = refl
  release_all-Same jobs (id ∷ ids) d =
      release_all-Same jobs ids (R.lrem_first (current_processing_queue s) id (R.hdel jobs id d))
      ∙ lrem_first-Same (current_processing_queue s) id apart (R.hdel jobs id d)
      ∙ hdel-Same jobs id d

  trimmed-Same : (b : Bool) (limit : ℕ) → Same (trimmed b s.keys.dead limit)
  trimmed-Same true limit d = ltrim-Same s.keys.dead limit dead d
  trimmed-Same false limit d = refl

  pub checked-Same :
      {A : Type 0} (fits : Bool) (r : Result A × R.Db) (d : R.Db)
      → lrange r.1 key ≡ lrange d key
      → lrange (checked fits r d).1 key ≡ lrange d key
  unfolding checked
  checked-Same true r d h = h
  checked-Same false r d h = refl

  -- Other clients do not lengthen the list.
  abbrev pub Shortening : (R.Db → R.Db) → Type 0
  Shortening f = (d : R.Db) → length (lrange (f d) key) ≤ length (lrange d key)

  abbrev pub Below : ℕ → R.Db → Type 0
  Below n d = length (lrange d key) < n

  pub below : (n : ℕ) → Stable Shortening (Below n) (Below n)
  below n f g d h = omega (arith, g d, h)

  abbrev pub KeepsBelow : {A : Type 0} → ℕ → Exec R.Db A → Type 0
  KeepsBelow n m = Keeps Shortening (Below n) m

  pub command-KeepsBelow :
      {A : Type 0} (n : ℕ) (c : Command R.Db A)
      → ((d : R.Db) → lrange (c d).1 key ≡ lrange d key)
      → KeepsBelow n (round_trip c)
  command-KeepsBelow n c same =
      command-Keeps Shortening (Below n) c (below n)
        (λ d h. subst (λ xs. length xs < n) (sym (same d)) h)

  pub connection-KeepsBelow : (n : ℕ) → KeepsBelow n connection
  unfolding connection
  connection-KeepsBelow n = command-KeepsBelow n _ (λ d. refl)

  pub kill-KeepsBelow :
      {V : Type 0} (J : Json V) (n : ℕ) (e : JobEnvelope V) (error : String)
      → KeepsBelow n (kill J s e error)
  unfolding kill finish_dead claimed_connection
  kill-KeepsBelow J n e error =
      bind-Keeps Shortening (Below n) connection _ (connection-KeepsBelow n) (λ x.
        command-KeepsBelow n _ (λ d. checked-Same _ _ d (
          trimmed-Same _ _ _
          ∙ lrem_first-Same _ _ apart _
          ∙ hdel-Same _ _ _
          ∙ lpush-Same s.keys.dead _ dead d)))

  pub finish_with_success-KeepsBelow :
      {V : Type 0} (n : ℕ) (e : JobEnvelope V) → KeepsBelow n (finish_with_success s e)
  unfolding finish_with_success finish_with_success_batch finish_success claimed_connection
  finish_with_success-KeepsBelow n e =
      bind-Keeps Shortening (Below n) connection _ (connection-KeepsBelow n) (λ x.
        command-KeepsBelow n _
          (λ d. checked-Same _ _ d (release_all-Same s.keys.jobs (e.id ∷ []) d)))

  pub update_job-KeepsBelow :
      {V : Type 0} (J : Json V) (n : ℕ) (e : JobEnvelope V) → KeepsBelow n (update_job J s e)
  unfolding update_job hset_payloads write_payloads
  update_job-KeepsBelow J n e =
      bind-Keeps Shortening (Below n) connection _ (connection-KeepsBelow n) (λ x.
        command-KeepsBelow n _
          (λ d. checked-Same _ _ d (hset-Same s.keys.jobs e.id (J.to_string e) d)))

  lift-KeepsBelow : {A : Type 0} (n : ℕ) (r : Result A) → KeepsBelow n (lift r)
  lift-KeepsBelow n (ok a) = pure-Keeps Shortening (Below n) a
  lift-KeepsBelow n (err e) = fail-Keeps Shortening (Below n) _ e

  get_job-KeepsBelow :
      {V : Type 0} (J : Json V) (n : ℕ) (id : String) → KeepsBelow n (get_job J s id)
  unfolding get_job get_job_w_conn
  get_job-KeepsBelow J n id =
      bind-Keeps Shortening (Below n) connection _ (connection-KeepsBelow n) (λ x.
        bind-Keeps Shortening (Below n) (round_trip (read_payload s.keys.jobs id)) _
          (command-KeepsBelow n _ (λ d. checked-Same (R.fits d s.keys.jobs hash) _ d refl))
          (λ payload. lift-KeepsBelow n (parse J payload)))

  module _ {V Error : Type 0} (J : Json V) (build : JobEnvelope V → Result (DrainWorker V Error))
      (format_error : Error → String) where
    start_over-KeepsBelow :
        (n : ℕ) (resume : Bool) (e : JobEnvelope V)
        → KeepsBelow n (start_over J s build format_error resume e)
    unfolding start_over
    start_over-KeepsBelow n true e = pure-Keeps Shortening (Below n) e
    start_over-KeepsBelow n false e =
        bind-Keeps Shortening (Below n) (update_job J s (cleared e)) _
          (update_job-KeepsBelow J n (cleared e)) (λ x. pure-Keeps Shortening (Below n) (cleared e))

    finish_job-KeepsBelow :
        (n : ℕ) (e : JobEnvelope V) (result : Option Error)
        → KeepsBelow n (finish_job J s build format_error e result)
    unfolding finish_job
    finish_job-KeepsBelow n e none =
        bind-Keeps Shortening (Below n) (finish_with_success s e) _
          (finish_with_success-KeepsBelow n e) (λ x. pure-Keeps Shortening (Below n) success)
    finish_job-KeepsBelow n e (some error) =
        bind-Keeps Shortening (Below n) (kill J s e (format_error error)) _
          (kill-KeepsBelow J n e (format_error error)) (λ x. pure-Keeps Shortening (Below n) failed)

    process_envelope-KeepsBelow :
        (n : ℕ) (found : Option (JobEnvelope V))
        → KeepsBelow n (process_envelope J s build format_error found)
    unfolding process_envelope
    process_envelope-KeepsBelow n none = pure-Keeps Shortening (Below n) missing
    process_envelope-KeepsBelow n (some e) =
        bind-Keeps Shortening (Below n) (lift (build e)) _ (lift-KeepsBelow n (build e)) (λ worker.
          bind-Keeps Shortening (Below n) (start_over J s build format_error worker.should_resume e)
            _ (start_over-KeepsBelow n worker.should_resume e)
            (λ started. finish_job-KeepsBelow n started (worker.process started.meta)))

    pub process_job-KeepsBelow :
        (n : ℕ) (id : String) → KeepsBelow n (process_job J s build format_error id)
    unfolding process_job
    process_job-KeepsBelow n id =
        bind-Keeps Shortening (Below n) (get_job J s id) _ (get_job-KeepsBelow J n id)
          (process_envelope-KeepsBelow n)
