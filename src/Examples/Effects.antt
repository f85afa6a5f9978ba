-- ===== src/Examples/Effects.antt =====
-- What the operations leave on a server with one job.
use mathlib.Core.List.{get_last?}
use oxana.Base.{String, false, Option, none, some, [], ◌∷◌, ◌≡◌, ◌≢◌, refl, str_eq}
use oxana.Errors.{ok}
use oxana.Envelope.{JobEnvelope}
use oxana.Envelope.Laws.{IsRetryOf, IsKilledFrom}
use oxana.Keys.{namespace_queue, processing_queue}
use oxana.Redis.Memory.{memory, empty}
use oxana.Exec.{alone}
use oxana.Scripts.{hget, lrange}
use oxana.Storage.{current_processing_queue, finish_with_success_batch, kill, retry_in, u64}
use oxana.Storage.Effects.{Retried, Fits, retry_in-Retried}
use oxana.Storage.Endings.{Dead}
use oxana.Storage.Alone.{kill-Dead, Finished, finish_with_success_batch-Finished}
use oxana.Enqueue.Chunk.{Raw}
use oxana.Enqueue.Script.{commit, write_one, clear_places}
use oxana.Enqueue.Requests.{try_enqueue}
use oxana.Enqueue.Try.{try_enqueue-fresh}
use oxana.Examples.Text.{json}
use oxana.Examples.World.{storage, mail, queued, claims_live, distinct}

-- The payload of the job is stored, and it is the job's.
stored : hget ⦃R = memory⦄ queued storage.keys.jobs "mail/1" ≡ some (json.to_string mail)
unfolding commit write_one clear_places
stored = refl

kinds : Fits ⦃R = memory⦄ json storage queued
kinds = record { jobs = refl; retry = refl; dead = refl; claims = refl }

retry_in-Retried_example :
    (e' : JobEnvelope String) × IsRetryOf mail "refused" e'
    × Retried ⦃R = memory⦄ json storage queued mail
        (json.to_string e')
        (u64 25001000)
        (alone (retry_in ⦃R = memory⦄ json storage "mail/1" 25 "refused" 1000) queued)
retry_in-Retried_example =
    retry_in-Retried ⦃R = memory⦄ json storage "mail/1" (json.to_string mail) "refused" mail 25 1000
      queued kinds stored (json.from_str-to_string mail)

kill-Dead_example :
    (e' : JobEnvelope String) × IsKilledFrom mail "refused" e'
    × Dead ⦃R = memory⦄ "app:jobs" "app:dead"
        (current_processing_queue storage)
        "mail/1"
        (json.to_string e')
        queued
        10
        (alone (kill ⦃R = memory⦄ json storage mail "refused") queued)
kill-Dead_example =
    kill-Dead ⦃R = memory⦄ json storage mail "refused" queued refl refl refl claims_live

last : get_last? (lrange ⦃R = memory⦄ queued (namespace_queue storage.keys "mails")) ≡ some "mail/1"
unfolding commit write_one clear_places namespace_queue
last = refl

apart : namespace_queue storage.keys "mails" ≢ current_processing_queue storage
unfolding namespace_queue processing_queue
apart = distinct "app:queue:mails" "app:processing:host-1-x" refl

finish_with_success_batch-Finished_example :
    Finished ⦃R = memory⦄ "app:jobs"
      (current_processing_queue storage)
      ("mail/1" ∷ [])
      queued
      (alone (finish_with_success_batch ⦃R = memory⦄ storage (mail ∷ [])) queued)
finish_with_success_batch-Finished_example =
    finish_with_success_batch-Finished ⦃R = memory⦄ storage mail [] queued refl refl

abbrev no_raw : String → Option Raw
no_raw s = none

not_jobs : str_eq storage.keys.jobs (namespace_queue storage.keys "mails") ≡ false
unfolding namespace_queue
not_jobs = refl

try_enqueue-fresh_example : alone (try_enqueue ⦃R = memory⦄ json no_raw storage 1 mail) empty ≡ (
  ok (some "mail/1"),
  memory.lpush
      (namespace_queue storage.keys "mails")
      "mail/1"
      (memory.hset "app:jobs" "mail/1" (json.to_string mail) empty),
)
try_enqueue-fresh_example =
    try_enqueue-fresh ⦃R = memory⦄ json no_raw storage 0 mail empty refl refl refl refl not_jobs
      refl
