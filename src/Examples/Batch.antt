-- ===== src/Examples/Batch.antt =====
-- A batch of two claimed jobs, the arguments of one of which cannot be read.
use oxana.Base.{String, false, none, some, [], ◌∷◌, refl}
use oxana.Base.Lists.{elem}
use oxana.Errors.{OxanaError, ok}
use oxana.Envelope.{JobEnvelope}
use oxana.Keys.{namespace_queue, processing_queue}
use oxana.Redis.Memory.{memory, empty, Store}
use oxana.Exec.{◌>>=◌, round_trip}
use oxana.Scripts.{checked}
use oxana.Safety.Scripts.{Safe}
use oxana.Storage.{dequeue, connection, lmove}
use oxana.Enqueue.{JobDestination}
use oxana.Enqueue.Script.{Write, commit, write_one, clear_places}
use oxana.Enqueue.Commit.{commit-Safe}
use oxana.Executor.{ExecutionResult}
use oxana.Executor.Start.{Held}
use oxana.Executor.Safe.{ids_of}
use oxana.Lossless.{dequeue-keeps}
use oxana.Coordinator.Apart.{AllDistinct}
use oxana.Coordinator.Pending.{BatchBuild, process_pending_batch}
use oxana.Coordinator.Kept.{process_pending_batch-keeps}
use oxana.Examples.Text.{json}
use oxana.Examples.World.{
  distinct, storage, mail, mail_input, mail_write, empty-Safe, turns, queue_live, claims_live,
}

abbrev letter : JobEnvelope String
letter = record mail { id = "mail/2" }

abbrev letter_write : Write
letter_write = record {
  input = record mail_input { id = "mail/2"; payload = json.to_string letter };
  replacing = none;
}

abbrev two_queued : Store
two_queued =
    commit ⦃R = memory⦄ "app:jobs" "app:schedule" "app:retry" JobDestination.queue
      (mail_write ∷ letter_write ∷ []) empty

two_queued-Safe : Safe ⦃R = memory⦄ json storage.keys two_queued
two_queued-Safe =
    commit-Safe ⦃R = memory⦄ json storage.keys JobDestination.queue (mail_write ∷ letter_write ∷ [])
      empty
      (
        (
          mail,
          json.from_str-to_string mail,
          queue_live,
          distinct "app:queue:mails" "app:dead" refl,
        ),
        (
          (
            letter,
            json.from_str-to_string letter,
            queue_live,
            distinct "app:queue:mails" "app:dead" refl,
          ),
          tt,
        ),
      )
      empty-Safe

abbrev one_claimed : Store
one_claimed = (dequeue ⦃R = memory⦄ storage "mails" (record { db = two_queued; turns = [] })).1.db

abbrev two_claimed : Store
two_claimed = (dequeue ⦃R = memory⦄ storage "mails" (record { db = one_claimed; turns = [] })).1.db

two_claimed-Safe : Safe ⦃R = memory⦄ json storage.keys two_claimed
two_claimed-Safe =
    dequeue-keeps ⦃R = memory⦄ json storage "mails" (record { db = one_claimed; turns = [] })
      claims_live tt
      (dequeue-keeps ⦃R = memory⦄ json storage "mails" (record { db = two_queued; turns = [] })
        claims_live tt two_queued-Safe)

two-Held : Held ⦃R = memory⦄ storage two_claimed (mail ∷ letter ∷ [])
unfolding dequeue connection ◌>>=◌ round_trip lmove checked commit write_one clear_places
    namespace_queue processing_queue elem
two-Held = (
  (refl, distinct "app:queue:mails" "app:dead" refl),
  ((refl, distinct "app:queue:mails" "app:dead" refl), tt),
)

two-AllDistinct : AllDistinct (ids_of (mail ∷ letter ∷ []))
unfolding elem
two-AllDistinct = (refl, (refl, tt))

-- The second job is invalid, and the worker of the first one fails.
abbrev half_built : BatchBuild String String
half_built = record {
  job = some (record {
    len = 1;
    should_resume = false;
    max_retries = λ index. 3;
    retry_delay = λ index retries. 25;
    process = λ metas. ExecutionResult.failed "refused";
  });
  invalid = record { index = 1; error = "no text" } ∷ [];
}

abbrev display : OxanaError → String
display e = "error"

process_pending_batch-keeps_example :
    Safe ⦃R = memory⦄ json storage.keys
      (process_pending_batch ⦃R = memory⦄ json storage
        (record { format_error = λ e. e; retry_delay_override = none })
        (λ id. 1000)
        display
        900
        40
        (λ name args. ok half_built)
        (mail ∷ letter ∷ [])
        (record { db = two_claimed; turns = turns })).1.db
process_pending_batch-keeps_example =
    process_pending_batch-keeps ⦃R = memory⦄ json storage claims_live
      (record { format_error = λ e. e; retry_delay_override = none }) (λ id. 1000) display 900 40
      (λ name args. ok half_built) (mail ∷ letter ∷ []) (record { db = two_claimed; turns = turns })
      two-AllDistinct two-Held
      ((λ d p. (p, λ i m. ((λ e. e), λ e. e))), ((λ d p. (p, λ i m. ((λ e. e), λ e. e))), tt))
      two_claimed-Safe
