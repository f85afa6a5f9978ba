-- ===== src/Examples/Deletion.antt =====
-- The deletion of the job of a server with one job.
use oxana.Base.{String, Option, none, some, true, ◌≡◌, refl, ap, ◌∙◌, [], ◌∷◌}
use oxana.Errors.{ok}
use oxana.Redis.{hash}
use oxana.Redis.Memory.{memory}
use oxana.Envelope.{JobEnvelope}
use oxana.Exec.{alone}
use oxana.Scripts.{hget, checked}
use oxana.Enqueue.Script.{commit, write_one, clear_places}
use oxana.Storage.Deletion.{
  Deleted, delete_job, delete_job-Deleted, delete_job-alone, deletion, transaction,
}
use oxana.Keys.{namespace_queue, processing_queue}
use oxana.Examples.Text.{json}
use oxana.Examples.World.{storage, mail, queued}

abbrev queue_name : Option (JobEnvelope String) → Option String
queue_name none = none
queue_name (some e) = some e.queue

abbrev json_queue : String → Option String
json_queue payload = queue_name (json.from_str payload)

fits : memory.fits queued storage.keys.jobs hash ≡ true
fits = refl

stored : hget ⦃R = memory⦄ queued storage.keys.jobs "mail/1" ≡ some (json.to_string mail)
unfolding commit write_one clear_places
stored = refl

named : json_queue (json.to_string mail) ≡ some "mails"
named = ap queue_name (json.from_str-to_string mail)

carried_out :
    (transaction
      (deletion ⦃R = memory⦄ storage "mail/1" (namespace_queue storage.keys "mails" ∷ []))
      queued).0
    ≡ ok tt
unfolding transaction checked commit write_one clear_places namespace_queue processing_queue
carried_out = refl

succeeds : (alone (delete_job ⦃R = memory⦄ json_queue storage "mail/1") queued).0 ≡ ok tt
succeeds =
    ap (λ r. r.0)
      (delete_job-alone ⦃R = memory⦄ json_queue storage "mail/1" (json.to_string mail) "mails"
        queued fits stored named)
    ∙ carried_out

delete_job-Deleted_example :
    Deleted ⦃R = memory⦄ storage "mail/1" "mails" queued
      (alone (delete_job ⦃R = memory⦄ json_queue storage "mail/1") queued).1
delete_job-Deleted_example =
    delete_job-Deleted ⦃R = memory⦄ json_queue storage "mail/1" (json.to_string mail) "mails" queued
      fits stored named succeeds
