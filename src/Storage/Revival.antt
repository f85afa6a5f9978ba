-- ===== src/Storage/Revival.antt =====
-- `revive_all_dead` and `restore_claimed_dead_entries` of oxana/src/storage_internal.rs. The fresh part
-- of the claim's key comes from an argument. `fuel` is that of `enqueue`.
pub mod Accounts
use Prim.Native.String.{◌++◌ as str_append}
use oxana.Base.{
  ℕ, ◌+◌, String, Bool, true, false, Option, none, some, List, [], ◌∷◌, ◌++◌, ◌≡◌, refl, ap, arith,
  ◌==◌,
}
use oxana.Errors.{Result, ok, err, OxanaError}
use oxana.Envelope.{JobEnvelope}
use oxana.Json.{Json}
use oxana.Redis.{Redis, list}
use oxana.Exec.{Exec, Command, World, pure, fail, attempt, round_trip, pipeline, ◌>>=◌, ◌>>◌}
use oxana.Scripts.{lrange, checked}
use oxana.Storage.{StorageInternal, connection, lift}
use oxana.Enqueue.Chunk.{Raw}
use oxana.Enqueue.Requests.{enqueue}

pub data Revived : Type 0 where
  revived : ℕ → Revived
  stopped : OxanaError → List String → Revived

module _ ⦃R : Redis⦄ where
  -- A list without entries does not exist.
  unfoldable pub claim_dead : String → String → Command R.Db ℕ
  claim_dead dead claim_key d = elim (lrange d dead) [
    | [] ↦ (ok 0, d)
    | entry ∷ entries ↦ (ok 1, R.rename_list dead claim_key d)
  ]

  abbrev pub del_command : String → Command R.Db (Unit {0})
  del_command key d = (ok tt, R.del key d)

  abbrev rpush_command : String → List String → Command R.Db (Unit {0})
  rpush_command key entries d = checked (R.fits d key list) (ok tt, R.rpush key entries d) d

  abbrev pub read_all : String → Command R.Db (List String)
  read_all key d = checked (R.fits d key list) (ok (lrange d key), d) d

  unfoldable pub restore_claimed_dead_entries :
      StorageInternal → String → List String → Exec R.Db (Unit {0})
  restore_claimed_dead_entries s claim_key [] = do connection; round_trip (del_command claim_key)
  restore_claimed_dead_entries s claim_key (entry ∷ entries) = do
    connection
    answer ← pipeline (rpush_command s.keys.dead (entry ∷ entries) ∷ del_command claim_key ∷ [])
    lift answer

module _ ⦃R : Redis⦄ {V : Type 0} (J : Json V) (raw : String → Option Raw) (s : StorageInternal)
    (fuel : ℕ) where
  -- What is no envelope is passed over. The first job that cannot be enqueued ends the loop.
  unfoldable pub revive_entries : List String → ℕ → Exec R.Db Revived
  revive_entries [] revived_count = pure (revived revived_count)
  revive_entries (entry ∷ entries) revived_count = elim (J.from_str entry) [
    | none ↦ revive_entries entries revived_count
    | some e ↦ attempt (enqueue J raw s fuel e) >>= λ answer. elim answer [
      | ok id ↦ revive_entries entries (revived_count + 1)
      | err x ↦ pure (stopped x (entry ∷ entries))
    ]
  ]

  unfoldable pub finish_revival : String → Revived → Exec R.Db ℕ
  unfolding restore_claimed_dead_entries
  finish_revival claim_key (revived count) = do
    connection
    round_trip (del_command claim_key)
    pure count
  finish_revival claim_key (stopped e entries) = do
    attempt (restore_claimed_dead_entries s claim_key entries)
    fail e

  unfoldable pub revive_all_dead : String → Exec R.Db ℕ
  unfolding revive_entries finish_revival claim_dead
  revive_all_dead fresh = do
    let claim_key = str_append s.keys.dead (str_append ":reviving:" fresh)
    connection
    claimed ← round_trip (claim_dead s.keys.dead claim_key)
    elim (claimed == 0) [
      | true ↦ pure 0
      | false ↦ do
        entries ← round_trip (read_all claim_key)
        outcome ← revive_entries entries 0
        finish_revival claim_key outcome
    ]
