-- ===== src/Dispatcher/Pop.antt =====
-- The claims of the process, the list that `dequeue_w_conn` moves jobs into, around `pop_queue_message`.
use mathlib.Core.Path.{subst}
use oxana.Base.{
  ℕ, String, Bool, true, false, Option, none, some, List, ◌∷◌, ◌≡◌, ◌≢◌, inr, refl, unwrap_or,
}
use oxana.Errors.{Result, ok, err, OxanaError}
use oxana.Json.{Json}
use oxana.Keys.{namespace_queue}
use oxana.Redis.{Redis}
use oxana.Exec.{Exec, World, pure, attempt, round_trip, ◌>>=◌}
use oxana.Exec.Triple.{Outcome, Granted, Triple-kept}
use oxana.Scripts.{lrange}
use oxana.Queue.{QueueConfig, QueueThrottle}
use oxana.Storage.{StorageInternal, connection, current_processing_queue}
use oxana.Storage.Claimed.{get_claimed_job}
use oxana.Throttler.{Throttler, ThrottlerState, build_key}
use oxana.Dispatcher.Claims.{
  own, Holds, Apart, Claimed, Always, Done, done, then, claim_job-Claimed,
}
use oxana.Dispatcher.Returning.{pop_queue_message-Returns}
use oxana.Exec.Keeping.{bind-Keeps}
use oxana.Dispatcher.Keeping.{
  LeavesClaims, connection-LeavesClaims, state_command-LeavesClaims, add_cost-LeavesClaims,
  get_claimed_job-LeavesClaims,
}
use oxana.Dispatcher.{
  cost_in, state_command, throttler_of, consume_cost, after_wait, state, wait_for, Popped, Popping,
  job, nothing, pop_failed, before_claim, claim_error, claim_job, pop_queue_message, charge,
  pop_queue_message_w_throttle, pop_queue_message_wo_throttle,
}

module _ ⦃R : Redis⦄ {V : Type 0} (J : Json V) (transient : OxanaError → Bool) (fresh : ℕ → String)
    (s : StorageInternal) (p : Popping) (queue_key : String) (ids : List String)
    (away : namespace_queue s.keys queue_key ≢ current_processing_queue s) where
  charge-Claimed :
      (t : Throttler) (id : String)
      → Done s (Claimed s ids) (Holds s (id ∷ ids)) (charge J transient fresh s p queue_key t id)
  unfolding charge
  charge-Claimed t id =
      then s (attempt charging) _ (Triple-kept (Apart s) charging charging-Keeps) charged
    where
      charging : Exec R.Db ThrottlerState
      charging = do
        found ← get_claimed_job J transient s p.reads id
        consume_cost J transient fresh s p queue_key t (cost_in found)

      charging-Keeps : LeavesClaims s (id ∷ ids) charging
      charging-Keeps =
          bind-Keeps (Apart s) (Holds s (id ∷ ids)) (get_claimed_job J transient s p.reads id) _
            (get_claimed_job-LeavesClaims s J transient (id ∷ ids) p.reads id)
            (λ found.
              bind-Keeps (Apart s) (Holds s (id ∷ ids)) connection _
                (connection-LeavesClaims s (id ∷ ids))
                (λ x.
                  bind-Keeps (Apart s) (Holds s (id ∷ ids))
                    (round_trip (state_command t (build_key queue_key) p.later)) _
                    (state_command-LeavesClaims s (id ∷ ids) t (build_key queue_key) p.later)
                    (λ seen.
                      add_cost-LeavesClaims s (id ∷ ids) (build_key queue_key) (cost_in found)
                        p.current fresh seen seen.is_allowed (unwrap_or (cost_in found) 1))))

      charged :
          (r : Result ThrottlerState)
          → Done s
              (Claimed s ids)
              (Holds s (id ∷ ids))
              (elim r [ err e ↦ pure (pop_failed (claim_error e)) | ok seen ↦ pure (job id) ])
      charged (err e) = done s _ (pop_failed (claim_error e)) (λ d h. inr (id, h))
      charged (ok seen) = done s _ (job id) (λ d h. h)

  pop_queue_message_wo_throttle-Claimed :
      (timeout : ℕ)
      → Done s (Claimed s ids) (Holds s ids) (pop_queue_message_wo_throttle s queue_key timeout)
  unfolding pop_queue_message_wo_throttle
  pop_queue_message_wo_throttle-Claimed timeout =
      then s (claim_job s queue_key) _ (claim_job-Claimed s queue_key ids away) waited
    where
      waited :
          (popped : Popped)
          → Done s (Claimed s ids) (Claimed s ids popped) (pure (after_wait timeout popped))
      waited (job id) = done s _ (job id) (λ d h. h)
      waited (nothing n) = done s _ (nothing timeout) (λ d h. h)
      waited (pop_failed e) = done s _ (pop_failed e) (λ d h. h)

  abbrev continued : Throttler → ℕ → Popped → Exec R.Db Popped
  continued t wait popped = elim popped [
    | job id ↦ charge J transient fresh s p queue_key t id
    | nothing waited ↦ pure (nothing wait)
    | pop_failed e ↦ pure (pop_failed e)
  ]

  continued-Claimed :
      (t : Throttler) (wait : ℕ) (popped : Popped)
      → Done s (Claimed s ids) (Claimed s ids popped) (continued t wait popped)
  continued-Claimed t wait (job id) = charge-Claimed t id
  continued-Claimed t wait (nothing n) = done s _ (nothing wait) (λ d h. h)
  continued-Claimed t wait (pop_failed e) = done s _ (pop_failed e) (λ d h. h)

  pop_queue_message_w_throttle-Claimed :
      (t : Throttler)
      → Done s
          (Claimed s ids)
          (Holds s ids)
          (pop_queue_message_w_throttle J transient fresh s p queue_key t)
  unfolding pop_queue_message_w_throttle
  pop_queue_message_w_throttle-Claimed t =
      then s (attempt looking) _ (Triple-kept (Apart s) looking looking-Keeps) looked
    where
      looking : Exec R.Db ThrottlerState
      looking = state J transient fresh s p queue_key t

      looking-Keeps : LeavesClaims s ids looking
      looking-Keeps =
          bind-Keeps (Apart s) (Holds s ids) connection _ (connection-LeavesClaims s ids)
            (λ x. state_command-LeavesClaims s ids t (build_key queue_key) p.now)

      allowed :
          (wait : ℕ) (b : Bool)
          → Done s (Claimed s ids) (Holds s ids) (elim b [
            | false ↦ pure (nothing wait)
            | true ↦ claim_job s queue_key >>= continued t wait
          ])
      allowed wait false = done s _ (nothing wait) (λ d h. h)
      allowed wait true =
          then s (claim_job s queue_key) _ (claim_job-Claimed s queue_key ids away)
            (continued-Claimed t wait)

      looked :
          (r : Result ThrottlerState)
          → Done s (Claimed s ids) (Holds s ids) (elim r [
            | err e ↦ pure (pop_failed (before_claim e))
            | ok seen ↦
                let wait = wait_for p.throttled_queue_fallback_wait seen.throttled_for in
                elim seen.is_allowed [
                  | false ↦ pure (nothing wait)
                  | true ↦ claim_job s queue_key >>= continued t wait
                ]
          ])
      looked (err e) = done s _ (pop_failed (before_claim e)) (λ d h. h)
      looked (ok seen) =
          allowed (wait_for p.throttled_queue_fallback_wait seen.throttled_for) seen.is_allowed

  pop_queue_message-Done :
      (config : QueueConfig)
      → Done s
          (Claimed s ids)
          (Holds s ids)
          (pop_queue_message J transient fresh s p queue_key config)
  unfolding pop_queue_message
  pop_queue_message-Done config = throttled config.throttle
    where
      throttled :
          (throttle : Option QueueThrottle)
          → Done s (Claimed s ids) (Holds s ids) (elim throttle [
            | some t ↦ pop_queue_message_w_throttle J transient fresh s p queue_key (throttler_of t)
            | none ↦ pop_queue_message_wo_throttle s queue_key p.dequeue_timeout
          ])
      throttled (some t) = pop_queue_message_w_throttle-Claimed (throttler_of t)
      throttled none = pop_queue_message_wo_throttle-Claimed p.dequeue_timeout

module _ ⦃R : Redis⦄ {V : Type 0} (J : Json V) (transient : OxanaError → Bool) (fresh : ℕ → String)
    (s : StorageInternal) (p : Popping) (queue_key : String) where
  -- Whatever becomes of its round trips, a try to claim a job comes to one of its results, and that is
  -- true of the claims of the process: with a job, that one has been added to the claims; with none,
  -- or with an error before the claim, they are as they were; with an error of the claim, one job
  -- has been added at most. Other clients leave the claims of this process alone, and the queue is
  -- not the list of those claims.
  pub pop_queue_message-Claimed :
      (config : QueueConfig) (w : World R.Db)
      → namespace_queue s.keys queue_key ≢ current_processing_queue s
      → Granted (Apart s) w.turns
      → let (r, w') = pop_queue_message J transient fresh s p queue_key config w in
        (popped : Popped) × (r ≡ ok popped) × Claimed s (lrange w.db (own s)) popped w'.db
  pop_queue_message-Claimed config w away granted =
      let (r, w') = pop_queue_message J transient fresh s p queue_key config w in
      let (popped, e) = pop_queue_message-Returns J transient fresh s p queue_key config w in
      let done =
        pop_queue_message-Done J transient fresh s p queue_key (lrange w.db (own s)) away config in
      let o = (done.at w refl granted).1 in
      (popped, e, (subst (λ r. Outcome (Claimed s (lrange w.db (own s))) (Always s) r w'.db) e o).0)
