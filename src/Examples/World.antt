-- ===== src/Examples/World.antt =====
-- A server in memory with one job, and what other clients and the connection do meanwhile.
use oxana.Base.{String, true, false, none, some, List, [], ◌∷◌, ◌≡◌, ◌≢◌, refl, str_eq, eq_iff}
use oxana.Errors.{pool_timeout}
use oxana.Envelope.{JobEnvelope, JobConflictStrategy}
use oxana.Keys.{namespace_queue, processing_queue}
use oxana.Redis.Memory.{memory, empty, Store}
use oxana.Exec.{World, Turn, Fault}
use oxana.Exec.Triple.{Granted}
use oxana.Storage.{StorageInternal, current_processing_queue}
use oxana.Safety.Scripts.{Safe}
use oxana.Enqueue.{JobDestination, Input, Conflict}
use oxana.Enqueue.Script.{Write, commit}
use oxana.Enqueue.Commit.{commit-Safe}
use oxana.Lossless.{Keeping}
use oxana.Examples.Text.{json}

pub distinct : (a b : String) → str_eq a b ≡ false → a ≢ b
distinct a b h e = cc ((eq_iff a b).1 e, h)

abbrev pub storage : StorageInternal
storage = record {
  keys = record {
    namespace = "app";
    jobs = "app:jobs";
    dead = "app:dead";
    schedule = "app:schedule";
    retry = "app:retry";
    queue_prefix = "app:queue";
    processing_queue_prefix = "app:processing";
    processes = "app:processes";
    processes_data = "app:processes_data";
    stats = "app:stats";
    queue_configs = "app:queue_configs";
    metrics_prefix = "app:metrics";
  };
  process_id = "host-1-x";
  dead_job_limit = some 10;
}

abbrev pub mail : JobEnvelope String
mail = record {
  id = "mail/1";
  job = record { name = "mail"; args = "hello" };
  queue = "mails";
  meta = record {
    id = "mail/1";
    on_demand = none;
    retries = 1;
    unique = true;
    on_conflict = some JobConflictStrategy.skip;
    created_at = 5;
    scheduled_at = 5;
    started_at = none;
    state = none;
    resurrect = true;
    error = none;
    throttle_cost = none;
  };
}

abbrev pub mail_input : Input
mail_input = record {
  id = "mail/1";
  payload = json.to_string mail;
  queue_key = "app:queue:mails";
  conflict = Conflict.skip;
  score = 5;
}

abbrev pub mail_write : Write
mail_write = record { input = mail_input; replacing = none }

-- The job stands in its queue.
abbrev pub queued : Store
queued =
    commit ⦃R = memory⦄ "app:jobs" "app:schedule" "app:retry" JobDestination.queue (mail_write ∷ [])
      empty

pub empty-Safe : Safe ⦃R = memory⦄ json storage.keys empty
empty-Safe = record { located = λ i p h. cc; queued = λ i p e h h'. cc }

pub queued-Safe : Safe ⦃R = memory⦄ json storage.keys queued
unfolding namespace_queue
queued-Safe =
    commit-Safe ⦃R = memory⦄ json storage.keys JobDestination.queue (mail_write ∷ []) empty
      (
        (
          mail,
          json.from_str-to_string mail,
          distinct "app:queue:mails" "app:dead" refl,
          distinct "app:queue:mails" "app:dead" refl,
        ),
        tt,
      )
      empty-Safe

-- Another client acts, and an answer is lost at the second round trip.
abbrev pub turns : List (Turn Store)
turns =
    record { others = λ d. d; fault = Fault.answered }
    ∷ record { others = λ d. d; fault = Fault.unanswered pool_timeout }
    ∷ []

abbrev pub busy : World Store
busy = record { db = queued; turns = turns }

pub granted : Granted (Keeping ⦃R = memory⦄ json storage) turns
granted = ((λ d p. p), ((λ d p. p), tt))

-- Neither the queue nor the claims are the list of dead jobs.
pub queue_live : namespace_queue storage.keys "mails" ≢ storage.keys.dead
unfolding namespace_queue
queue_live = distinct "app:queue:mails" "app:dead" refl

pub claims_live : current_processing_queue storage ≢ storage.keys.dead
unfolding processing_queue
claims_live = distinct "app:processing:host-1-x" "app:dead" refl
