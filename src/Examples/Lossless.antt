-- ===== src/Examples/Lossless.antt =====
-- The operations on a server with one job, while another client acts and an answer is lost.
use oxana.Base.{String, false, Option, none, [], ◌∷◌, refl}
use oxana.Keys.{namespace_queue, processing_queue}
use oxana.Redis.Memory.{memory, Store}
use oxana.Exec.{World, ◌>>=◌, round_trip}
use oxana.Scripts.{checked}
use oxana.Safety.Scripts.{Safe}
use oxana.Storage.{dequeue, enqueue_scheduled, connection, lmove}
use oxana.Recovery.{resurrect}
use oxana.Recovery.Safe.{OwnKeys}
use oxana.Base.Lists.{elem}
use oxana.Enqueue.{JobDestination}
use oxana.Enqueue.Script.{commit, write_one, clear_places}
use oxana.Enqueue.Chunk.{Raw}
use oxana.Enqueue.Requests.{enqueue_chunk_w_conn}
use oxana.Executor.{Worker, Settings, ExecutionResult, run_batch}
use oxana.Executor.Start.{Held}
use oxana.Lossless.{
  dequeue-keeps, enqueue_scheduled-keeps, resurrect-keeps, enqueue_chunk-keeps, run_batch-keeps,
}
use oxana.Examples.Text.{json}
use oxana.Examples.World.{
  distinct, storage, mail, queued, queued-Safe, turns, busy, granted, queue_live, claims_live,
}

abbrev KeptBy : World Store → Type 0
KeptBy w = Safe ⦃R = memory⦄ json storage.keys w.db

dequeue-keeps_example : KeptBy (dequeue ⦃R = memory⦄ storage "mails" busy).1
dequeue-keeps_example =
    dequeue-keeps ⦃R = memory⦄ json storage "mails" busy claims_live granted queued-Safe

enqueue_scheduled-keeps_example :
    KeptBy (enqueue_scheduled ⦃R = memory⦄ json storage "app:schedule" 1000 busy).1
enqueue_scheduled-keeps_example =
    enqueue_scheduled-keeps ⦃R = memory⦄ json storage "app:schedule" 1000 busy granted queued-Safe

own_keys : OwnKeys storage.keys
own_keys = record {
  not_schedule = distinct "app:processes" "app:schedule" refl;
  not_retry = distinct "app:processes" "app:retry" refl;
  not_jobs = distinct "app:processes_data" "app:jobs" refl;
}

resurrect-keeps_example : KeptBy (resurrect ⦃R = memory⦄ json storage 5000 9000 busy).1
resurrect-keeps_example =
    resurrect-keeps ⦃R = memory⦄ json storage 5000 9000 busy own_keys granted queued-Safe

abbrev no_raw : String → Option Raw
no_raw s = none

enqueue_chunk-keeps_example :
    KeptBy
      (enqueue_chunk_w_conn ⦃R = memory⦄ json no_raw storage 3 JobDestination.queue
        (mail ∷ mail ∷ [])
        []
        busy).1
enqueue_chunk-keeps_example =
    enqueue_chunk-keeps ⦃R = memory⦄ json storage no_raw 3 JobDestination.queue (mail ∷ mail ∷ [])
      [] busy refl (queue_live, (queue_live, tt)) granted queued-Safe

-- The job is claimed.
abbrev claimed : Store
claimed = (dequeue ⦃R = memory⦄ storage "mails" (record { db = queued; turns = [] })).1.db

claimed-Safe : Safe ⦃R = memory⦄ json storage.keys claimed
claimed-Safe =
    dequeue-keeps ⦃R = memory⦄ json storage "mails" (record { db = queued; turns = [] }) claims_live
      tt queued-Safe

claim-Held : Held ⦃R = memory⦄ storage claimed (mail ∷ [])
unfolding dequeue connection ◌>>=◌ round_trip lmove checked commit write_one clear_places
    namespace_queue processing_queue elem
claim-Held = ((refl, distinct "app:queue:mails" "app:dead" refl), tt)

abbrev worker : Worker String String
worker = record {
  len = 1;
  should_resume = false;
  max_retries = λ index. 3;
  retry_delay = λ index retries. 25;
  process = λ metas. ExecutionResult.failed "refused";
}

abbrev settings : Settings String
settings = record { format_error = λ e. e; retry_delay_override = none }

abbrev running : World Store
running = record { db = claimed; turns = turns }

run_batch-keeps_example :
    KeptBy
      (run_batch ⦃R = memory⦄ json storage settings
        (λ id. 1000)
        worker
        900
        40
        (mail ∷ [])
        running).1
run_batch-keeps_example =
    run_batch-keeps ⦃R = memory⦄ json storage settings (λ id. 1000) worker 900 40 (mail ∷ [])
      running claims_live claim-Held
      ((λ d p. (p, (λ i h e. e), λ h. h)), ((λ d p. (p, (λ i h e. e), λ h. h)), tt)) claimed-Safe
