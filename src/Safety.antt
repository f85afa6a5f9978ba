-- ===== src/Safety.antt =====
-- The places of a job: its identifier stands in a list that the program reads (a queue or the
-- claims of a process) or in one of the two sorted sets of times. The modules below are about the
-- transitions of oxana/src/storage_internal.rs.
pub mod Places
pub mod Moves
pub mod Scripts
pub mod Commands
pub mod Operations
pub mod Retry
pub mod Pipelines
use oxana.Base.{ℕ, String, Option, none, some, ◌≡◌, ◌≢◌, ◌⊎◌, true}
use oxana.Base.Lists.{elem}
use oxana.Redis.{View}
use oxana.Keys.{StorageKeys, namespace_queue}
use oxana.Envelope.{JobEnvelope}
use oxana.Json.{Json}

-- Where an identifier may stand. The list of dead jobs holds payloads and is not such a place.
pub data Located (keys : StorageKeys) (w : View) (i : String) : Type 0 where
  in_list : (k : String) → k ≢ keys.dead → elem i (w.lists k) ≡ true → Located keys w i
  scheduled : (s : ℕ) → w.zsets keys.schedule i ≡ some s → Located keys w i
  retried : (s : ℕ) → w.zsets keys.retry i ≡ some s → Located keys w i

-- Every stored payload has a place, and none names the list of dead jobs as its queue.
pub record IsSafe {V : Type 0} (J : Json V) (keys : StorageKeys) (w : View) : Type 0 where
  pub located : (i p : String) → w.hashes keys.jobs i ≡ some p → Located keys w i
  pub queued :
      (i p : String) (e : JobEnvelope V)
      → w.hashes keys.jobs i ≡ some p
      → J.from_str p ≡ some e
      → namespace_queue keys e.queue ≢ keys.dead
