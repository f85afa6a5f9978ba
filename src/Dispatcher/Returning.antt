-- ===== src/Dispatcher/Returning.antt =====
-- `pop_queue_message` comes to a result whatever the connection does.
use oxana.Base.{ℕ, String, Bool, true, false, Option, none, some}
use oxana.Errors.{Result, ok, err, OxanaError}
use oxana.Json.{Json}
use oxana.Keys.{namespace_queue}
use oxana.Redis.{Redis}
use oxana.Exec.{pure, attempt, round_trip, ◌>>=◌}
use oxana.Exec.Triple.{Returns, Returns-bind, Returns-pure, Returns-attempt}
use oxana.Queue.{QueueConfig, QueueThrottle}
use oxana.Storage.{StorageInternal, connection, lmove, current_processing_queue}
use oxana.Throttler.{Throttler, ThrottlerState}
use oxana.Dispatcher.{
  throttler_of, after_wait, wait_for, Popped, Popping, job, nothing, pop_failed, before_claim,
  claim_error, claim_job, pop_queue_message, charge, pop_queue_message_w_throttle,
  pop_queue_message_wo_throttle,
}

module _ ⦃R : Redis⦄ {V : Type 0} (J : Json V) (transient : OxanaError → Bool) (fresh : ℕ → String)
    (s : StorageInternal) (p : Popping) (queue_key : String) where
  claim_job-Returns : Returns (claim_job s queue_key)
  unfolding claim_job
  claim_job-Returns = Returns-bind (attempt connection) _ (Returns-attempt connection) connected
    where
      claimed :
          (r : Result (Option String))
          → Returns {Db = R.Db} {A = Popped} (elim r [
            | err e ↦ pure (pop_failed (claim_error e))
            | ok none ↦ pure (nothing 0)
            | ok (some id) ↦ pure (job id)
          ])
      claimed (err e) = Returns-pure (pop_failed (claim_error e))
      claimed (ok none) = Returns-pure (nothing 0)
      claimed (ok (some id)) = Returns-pure (job id)

      connected :
          (r : Result (Unit {0}))
          → Returns {Db = R.Db} {A = Popped} (elim r [
            | err e ↦ pure (pop_failed (before_claim e))
            | ok x ↦ do
              claimed ← attempt (
                  round_trip
                    (lmove (namespace_queue s.keys queue_key) (current_processing_queue s)))
              elim claimed [
                | err e ↦ pure (pop_failed (claim_error e))
                | ok none ↦ pure (nothing 0)
                | ok (some id) ↦ pure (job id)
              ]
          ])
      connected (err e) = Returns-pure (pop_failed (before_claim e))
      connected (ok x) =
          Returns-bind (attempt (round_trip (lmove _ _))) _ (Returns-attempt _) claimed

  charge-Returns :
      (t : Throttler) (id : String) → Returns (charge J transient fresh s p queue_key t id)
  unfolding charge
  charge-Returns t id = Returns-bind (attempt _) _ (Returns-attempt _) charged
    where
      charged :
          (r : Result ThrottlerState)
          → Returns {Db = R.Db} {A = Popped}
              (elim r [ err e ↦ pure (pop_failed (claim_error e)) | ok seen ↦ pure (job id) ])
      charged (err e) = Returns-pure (pop_failed (claim_error e))
      charged (ok seen) = Returns-pure (job id)

  continued-Returns :
      (t : Throttler) (wait : ℕ) (popped : Popped)
      → Returns {Db = R.Db} {A = Popped} (elim popped [
        | job id ↦ charge J transient fresh s p queue_key t id
        | nothing waited ↦ pure (nothing wait)
        | pop_failed e ↦ pure (pop_failed e)
      ])
  continued-Returns t wait (job id) = charge-Returns t id
  continued-Returns t wait (nothing n) = Returns-pure (nothing wait)
  continued-Returns t wait (pop_failed e) = Returns-pure (pop_failed e)

  w_throttle-Returns :
      (t : Throttler) → Returns (pop_queue_message_w_throttle J transient fresh s p queue_key t)
  unfolding pop_queue_message_w_throttle
  w_throttle-Returns t = Returns-bind (attempt _) _ (Returns-attempt _) looked
    where
      allowed :
          (wait : ℕ) (b : Bool)
          → Returns {Db = R.Db} {A = Popped} (elim b [
            | false ↦ pure (nothing wait)
            | true ↦ do
              popped ← claim_job s queue_key
              elim popped [
                | job id ↦ charge J transient fresh s p queue_key t id
                | nothing waited ↦ pure (nothing wait)
                | pop_failed e ↦ pure (pop_failed e)
              ]
          ])
      allowed wait false = Returns-pure (nothing wait)
      allowed wait true =
          Returns-bind (claim_job s queue_key) _ claim_job-Returns (continued-Returns t wait)

      looked :
          (r : Result ThrottlerState)
          → Returns {Db = R.Db} {A = Popped} (elim r [
            | err e ↦ pure (pop_failed (before_claim e))
            | ok seen ↦
                let wait = wait_for p.throttled_queue_fallback_wait seen.throttled_for in
                elim seen.is_allowed [
                  | false ↦ pure (nothing wait)
                  | true ↦ do
                    popped ← claim_job s queue_key
                    elim popped [
                      | job id ↦ charge J transient fresh s p queue_key t id
                      | nothing waited ↦ pure (nothing wait)
                      | pop_failed e ↦ pure (pop_failed e)
                    ]
                ]
          ])
      looked (err e) = Returns-pure (pop_failed (before_claim e))
      looked (ok seen) =
          allowed (wait_for p.throttled_queue_fallback_wait seen.throttled_for) seen.is_allowed

  pub pop_queue_message-Returns :
      (config : QueueConfig) → Returns (pop_queue_message J transient fresh s p queue_key config)
  unfolding pop_queue_message pop_queue_message_wo_throttle
  pop_queue_message-Returns config = throttled config.throttle
    where
      throttled :
          (throttle : Option QueueThrottle)
          → Returns (elim throttle [
            | some t ↦ pop_queue_message_w_throttle J transient fresh s p queue_key (throttler_of t)
            | none ↦ pop_queue_message_wo_throttle s queue_key p.dequeue_timeout
          ])
      throttled (some t) = w_throttle-Returns (throttler_of t)
      throttled none =
          Returns-bind (claim_job s queue_key) _ claim_job-Returns
            (λ popped. Returns-pure (after_wait p.dequeue_timeout popped))
