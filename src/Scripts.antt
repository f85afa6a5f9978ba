-- ===== src/Scripts.antt =====
-- The scripts beside oxana/src/storage_internal.rs that move one job: finish_success.lua,
-- finish_dead.lua, retry_failed.lua, promote_scheduled.lua and resurrect_claim.lua. The server runs
-- a script as a whole. Each script tests the kinds of its keys before it writes.
use oxana.Base.{
  ℕ, String, Bool, true, false, Option, none, some, List, [], ◌∷◌, ◌&&◌, ◌==◌, ltb, str_eq,
  if◌then◌else◌,
}
use oxana.Base.Lists.{elem}
use oxana.Errors.{Result, ok, err, deadpool_redis_error}
use oxana.Redis.{Redis, hash, list, zset}
use oxana.Exec.{Command}

-- A text argument that stands for an absent payload is empty.
abbrev pub expected_payload : String → Option String
expected_payload arg = if str_eq arg "" then none else some arg

abbrev pub same_payload : Option String → Option String → Bool
same_payload none none = true
same_payload none (some b) = false
same_payload (some a) none = false
same_payload (some a) (some b) = str_eq a b

abbrev pub same_score : Option ℕ → ℕ → Bool
same_score none s = false
same_score (some t) s = t == s

module _ ⦃R : Redis⦄ where
  abbrev pub hget : R.Db → String → String → Option String
  hget d k f = (R.view d).hashes k f

  abbrev pub lrange : R.Db → String → List String
  lrange d k = (R.view d).lists k

  abbrev pub zscore : R.Db → String → String → Option ℕ
  zscore d k i = (R.view d).zsets k i

  -- The answer WRONGTYPE, before anything is written.
  abbrev pub wrong_type : {A : Type 0} → Command R.Db A
  wrong_type d = (err deadpool_redis_error, d)

  -- What a script answers and leaves, if the kinds of its keys are right.
  unfoldable pub checked : {A : Type 0} → Bool → Result A × R.Db → Command R.Db A
  checked fits done d = if fits then done else wrong_type d

  -- A stale snapshot causes no writes.
  unfoldable pub if_current : Bool → Result ℕ × R.Db → Command R.Db ℕ
  if_current current done d = if current then done else (ok 0, d)

  unfoldable pub release_all : String → String → List String → R.Db → R.Db
  release_all jobs processing [] d = d
  release_all jobs processing (id ∷ ids) d =
      release_all jobs processing ids (R.lrem_first processing id (R.hdel jobs id d))

  unfoldable pub finish_success : String → String → List String → Command R.Db (Unit {0})
  finish_success jobs processing ids d =
      checked (R.fits d jobs hash && R.fits d processing list)
        (ok tt, release_all jobs processing ids d) d

  abbrev pub trimmed : Bool → String → ℕ → R.Db → R.Db
  trimmed bounded dead limit d = if bounded then R.ltrim dead limit d else d

  unfoldable pub finish_dead :
      String → String → String → String → String → ℕ → Command R.Db (Unit {0})
  finish_dead jobs dead processing id payload limit d =
      checked (R.fits d jobs hash && R.fits d dead list && R.fits d processing list)
        (
          ok tt,
          trimmed (ltb 0 limit) dead limit
              (R.lrem_first processing id (R.hdel jobs id (R.lpush dead payload d))),
        )
        d

  unfoldable pub retry_failed :
      String → String → String → String → String → ℕ → Command R.Db (Unit {0})
  retry_failed jobs retry processing id payload score d =
      checked (R.fits d jobs hash && R.fits d retry zset && R.fits d processing list)
        (ok tt, R.lrem_first processing id (R.zadd retry score id (R.hset jobs id payload d))) d

  abbrev pub promote : String → String → String → Option String → R.Db → Result ℕ × R.Db
  promote scheduled queue id none d = (ok 0, R.zrem scheduled id d)
  promote scheduled queue id (some p) d = (ok 1, R.zrem scheduled id (R.lpush queue id d))

  unfoldable pub promote_scheduled : String → String → String → String → String → ℕ → Command R.Db ℕ
  promote_scheduled jobs scheduled queue id payload score d =
      checked (R.fits d jobs hash && R.fits d scheduled zset && R.fits d queue list)
        (if_current
          (same_score (zscore d scheduled id) score
            && same_payload (hget d jobs id) (expected_payload payload))
          (promote scheduled queue id (hget d jobs id) d) d)
        d

  abbrev pub requeue : String → String → String → Bool → Option String → R.Db → R.Db
  requeue jobs queue id resurrect none d = d
  requeue jobs queue id true (some p) d = R.lpush queue id d
  requeue jobs queue id false (some p) d = R.hdel jobs id d

  unfoldable pub resurrect_claim :
      String → String → String → String → String → Bool → Command R.Db ℕ
  resurrect_claim jobs processing queue id payload resurrect d =
      checked (R.fits d jobs hash && R.fits d processing list && R.fits d queue list)
        (if_current
          (elem id (lrange d processing)
            && same_payload (hget d jobs id) (expected_payload payload))
          (ok 1, R.lrem_first processing id (requeue jobs queue id resurrect (hget d jobs id) d)) d)
        d
