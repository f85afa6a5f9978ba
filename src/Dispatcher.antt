-- ===== src/Dispatcher.antt =====
-- oxana/src/dispatcher.rs: how a job is claimed for a worker. The requests of a throttle stand in a
-- sorted set at the server; the names of its members are fresh, and come from an argument.
pub mod Claims
pub mod Keeping
pub mod Returning
pub mod Pop
pub mod Rounds
use oxana.Base.{
  unwrap_or, ℕ, zero, suc, ◌+◌, ◌<◌, ◌^◌, String, Bool, true, false, Option, none, some, List, [],
  ◌∷◌, map, ltb, if◌then◌else◌,
}
use oxana.Errors.{Result, ok, err, OxanaError}
use oxana.Envelope.{JobEnvelope}
use oxana.Json.{Json}
use oxana.Keys.{namespace_queue}
use oxana.Redis.{Redis, zset}
use oxana.Exec.{Exec, Command, pure, fail, attempt, round_trip, ◌>>=◌, ◌>>◌}
use oxana.Queue.{QueueThrottle, QueueConfig}
use oxana.Scripts.{checked}
use oxana.Storage.{StorageInternal, connection, lmove, current_processing_queue}
use oxana.Storage.Claimed.{get_claimed_job}
use oxana.Throttler.{
  build_key, Throttler, ThrottlerState, Millis, millis, negative, state_w_conn, consume, expired,
}

pub data PopError : Type 0 where
  before_claim : OxanaError → PopError
  claim_error : OxanaError → PopError

-- What a try to claim a job comes to: a job, none after a wait of so many milliseconds, or an error.
pub data Popped : Type 0 where
  job : String → Popped
  nothing : ℕ → Popped
  pop_failed : PopError → Popped

abbrev pub throttler_of : QueueThrottle → Throttler
throttler_of t = record { limit = t.limit; window_ms = t.window_ms }

-- A wait that does not fit a `u64` falls back too.
abbrev pub wait_for : ℕ → Option Millis → ℕ
wait_for fallback_wait none = fallback_wait
wait_for fallback_wait (some negative) = fallback_wait
wait_for fallback_wait (some (millis n)) = if ltb n (2 ^ 64) then n else fallback_wait

module _ ⦃R : Redis⦄ where
  abbrev scores : R.Db → String → List ℕ
  scores d key = map (λ (i, score). score) (R.zrange d key)

  unfoldable pub drop_expired : Throttler → ℕ → String → List (String × ℕ) → R.Db → R.Db
  drop_expired t now key [] d = d
  drop_expired t now key ((i, score) ∷ rest) d =
      let after = drop_expired t now key rest d in
      if expired t now score then R.zrem key i after else after

  unfoldable pub add_requests : String → ℕ → (ℕ → String) → ℕ → R.Db → R.Db
  add_requests key time fresh zero d = d
  add_requests key time fresh (suc n) d =
      R.zadd key time (fresh n) (add_requests key time fresh n d)

  abbrev pub state_command : Throttler → String → ℕ → Command R.Db ThrottlerState
  state_command t key now d =
      checked (R.fits d key zset)
        (ok (state_w_conn t now (scores d key)).0, drop_expired t now key (R.zrange d key) d) d

  -- The second pipeline of `consume`.
  abbrev pub consume_command :
      String → Option ℕ → ℕ → (ℕ → String) → ThrottlerState → Command R.Db ThrottlerState
  consume_command key cost current fresh seen d =
      checked (R.fits d key zset)
        (
          ok (consume cost current seen (scores d key)).0,
          add_requests key current fresh (unwrap_or cost 1) d,
        )
        d

  -- It is not sent for a cost of 0, nor where the throttle does not allow it.
  abbrev pub add_cost :
      String → Option ℕ → ℕ → (ℕ → String) → ThrottlerState → Bool → ℕ → Exec R.Db ThrottlerState
  add_cost key cost current fresh seen false effective_cost = pure seen
  add_cost key cost current fresh seen true zero = pure seen
  add_cost key cost current fresh seen true (suc n) =
      round_trip (consume_command key cost current fresh seen)

  unfoldable pub claim_job : StorageInternal → String → Exec R.Db Popped
  claim_job s queue_key = do
    connected ← attempt connection
    elim connected [
      | err e ↦ pure (pop_failed (before_claim e))
      | ok done ↦ do
        claimed ←
            attempt
              (round_trip (lmove (namespace_queue s.keys queue_key) (current_processing_queue s)))
        elim claimed [
          | err e ↦ pure (pop_failed (claim_error e))
          | ok none ↦ pure (nothing 0)
          | ok (some id) ↦ pure (job id)
        ]
    ]

  abbrev pub after_wait : ℕ → Popped → Popped
  after_wait wait (nothing waited) = nothing wait
  after_wait wait (job id) = job id
  after_wait wait (pop_failed e) = pop_failed e

  unfoldable pub pop_queue_message_wo_throttle : StorageInternal → String → ℕ → Exec R.Db Popped
  unfolding claim_job
  pop_queue_message_wo_throttle s queue_key timeout = do
    popped ← claim_job s queue_key
    pure (after_wait timeout popped)

-- The settings, and the clock at the three readings of it.
pub record Popping : Type 0 where
  pub dequeue_timeout : ℕ
  pub throttled_queue_fallback_wait : ℕ
  pub reads : ℕ
  pub now : ℕ
  pub current : ℕ
  pub later : ℕ

abbrev pub cost_in : {V : Type 0} → Option (JobEnvelope V) → Option ℕ
cost_in none = none
cost_in (some e) = e.meta.throttle_cost

module _ ⦃R : Redis⦄ {V : Type 0} (J : Json V) (transient : OxanaError → Bool) (fresh : ℕ → String)
    (s : StorageInternal) (p : Popping) (queue_key : String) where
  abbrev pub state : Throttler → Exec R.Db ThrottlerState
  state t = do connection; round_trip (state_command t (build_key queue_key) p.now)

  abbrev pub consume_cost : Throttler → Option ℕ → Exec R.Db ThrottlerState
  consume_cost t cost = do
    connection
    seen ← round_trip (state_command t (build_key queue_key) p.later)
    add_cost (build_key queue_key) cost p.current fresh seen seen.is_allowed (unwrap_or cost 1)

  -- From here on a claim is known to exist.
  unfoldable pub charge : Throttler → String → Exec R.Db Popped
  unfolding get_claimed_job
  charge t id = do
    charged ←
        attempt
          (do found ← get_claimed_job J transient s p.reads id; consume_cost t (cost_in found))
    elim charged [ err e ↦ pure (pop_failed (claim_error e)) | ok seen ↦ pure (job id) ]

  unfoldable pub pop_queue_message_w_throttle : Throttler → Exec R.Db Popped
  unfolding charge claim_job
  pop_queue_message_w_throttle t = do
    seen ← attempt (state t)
    elim seen [
      | err e ↦ pure (pop_failed (before_claim e))
      | ok seen ↦
          let wait = wait_for p.throttled_queue_fallback_wait seen.throttled_for in
          elim seen.is_allowed [
            | false ↦ pure (nothing wait)
            | true ↦ do
              popped ← claim_job s queue_key
              elim popped [
                | job id ↦ charge t id
                | nothing waited ↦ pure (nothing wait)
                | pop_failed e ↦ pure (pop_failed e)
              ]
          ]
    ]

  unfoldable pub pop_queue_message : QueueConfig → Exec R.Db Popped
  unfolding pop_queue_message_w_throttle pop_queue_message_wo_throttle
  pop_queue_message config = elim config.throttle [
    | some t ↦ pop_queue_message_w_throttle (throttler_of t)
    | none ↦ pop_queue_message_wo_throttle s queue_key p.dequeue_timeout
  ]
