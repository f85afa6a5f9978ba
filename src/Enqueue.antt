-- ===== src/Enqueue.antt =====
-- The script oxana/src/enqueue.lua, which writes one chunk of jobs, and the types of
-- oxana/src/storage_internal.rs that go with it. The server runs the script as a whole.
pub mod Script
pub mod Commit
pub mod Safe
pub mod Replace
pub mod Try
pub mod Unique
pub mod Chunk
pub mod Requests
pub mod Lists
use Prim.Native.String.{len, slice}
use oxana.Base.{
  ℕ, ◌-◌, leb, ◌++◌, String, Bool, true, false, Option, none, some, List, [], ◌∷◌, ◌&&◌, str_eq,
  starts_with, not, is_some, if◌then◌else◌,
}
use oxana.Errors.{Result, ok}
use oxana.Redis.{Redis, Kind, hash, list, zset}
use oxana.Exec.{Command}
use oxana.Scripts.{hget, checked}

pub data JobDestination : Type 0 where
  queue schedule : JobDestination

pub data Conflict : Type 0 where
  default replace skip : Conflict

pub data EnqueueSnapshotComparison : Type 0 where
  exact suffix prefix : EnqueueSnapshotComparison

pub record EnqueueSnapshot : Type 0 where
  pub expected : String
  pub queue : String
  pub comparison : EnqueueSnapshotComparison

-- One argument of each kind. A snapshot names the key of its queue; an absent payload has none.
pub record Snapshot : Type 0 where
  pub id : String
  pub expected : Option (EnqueueSnapshotComparison × String)
  pub queue_key : Option String

pub record Input : Type 0 where
  pub id : String
  pub payload : String
  pub queue_key : String
  pub conflict : Conflict
  pub score : ℕ

pub data EnqueueOutcome : Type 0 where
  skipped enqueued replaced : EnqueueOutcome

abbrev pub lookup {ℓ} : {A : Type ℓ} → String → List (String × A) → Option A
lookup id [] = none
lookup id ((i, a) ∷ rest) = let found = lookup id rest in if str_eq i id then some a else found

abbrev pub is_default : Conflict → Bool
is_default default = true
is_default replace = false
is_default skip = false

-- `string.sub(payload, -#expected) == expected`, for an expected text that is not empty
unfoldable pub ends_with : String → String → Bool
ends_with payload expected =
    leb (len expected) (len payload)
    && str_eq (slice payload (len payload - len expected) (len payload)) expected

unfoldable pub compare_payload : EnqueueSnapshotComparison → String → String → Bool
unfolding ends_with
compare_payload exact expected payload = str_eq payload expected
compare_payload suffix expected payload = ends_with payload expected
compare_payload prefix expected payload = starts_with payload expected

abbrev pub same_snapshot : Option (EnqueueSnapshotComparison × String) → Option String → Bool
same_snapshot none none = true
same_snapshot none (some p) = false
same_snapshot (some c) none = false
same_snapshot (some (mode, expected)) (some p) = compare_payload mode expected p
