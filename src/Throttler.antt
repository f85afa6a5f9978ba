-- ===== src/Throttler.antt =====
-- oxana/src/throttler.rs: how many jobs of a queue may start within a window. What stands in the
-- sorted set of the throttle are the times of the requests in microseconds; the members' names are
-- fresh. The commands of one pipeline are a step, and `consume` is two. The expiry of the whole key,
-- which only comes when no request is left in the window, is left out.
pub mod Window
use Prim.Native.String.{◌++◌ as str_append}
use oxana.Base.{
  String, ℕ, zero, suc, ◌+◌, ◌-◌, ◌*◌, ◌/◌, Bool, true, false, Option, none, some, List, [], ◌∷◌,
  ◌++◌, ltb, leb, min_of, ◌==◌, unwrap_or, if◌then◌else◌,
}
use oxana.Base.Lists.{length}

pub record Throttler : Type 0 where
  pub limit : ℕ
  pub window_ms : ℕ

-- A signed number of milliseconds, of which the callers use what is not negative.
pub data Millis : Type 0 where
  millis : ℕ → Millis
  negative : Millis

pub record ThrottlerState : Type 0 where
  pub requests : ℕ
  pub is_allowed : Bool
  pub throttled_for : Option Millis

abbrev pub build_key : String → String
build_key key = str_append "oxana:throttler:" key

abbrev pub window_micros : Throttler → ℕ
window_micros t = t.window_ms * 1000

-- ZREMRANGEBYSCORE key 0 (now - window), where the bound may be negative
abbrev pub expired : Throttler → ℕ → ℕ → Bool
expired t now score = leb (score + window_micros t) now

unfoldable pub remove_expired : Throttler → ℕ → List ℕ → List ℕ
remove_expired t now [] = []
remove_expired t now (score ∷ rest) =
    let kept = remove_expired t now rest in if expired t now score then kept else score ∷ kept

-- ZRANGE key 0 0: the lowest score
abbrev pub lower : ℕ → Option ℕ → ℕ
lower score none = score
lower score (some other) = min_of score other

unfoldable pub first : List ℕ → Option ℕ
first [] = none
first (score ∷ rest) = some (lower score (first rest))

-- Division of a negative number of microseconds rounds towards 0.
abbrev pub rounded : ℕ → Millis
rounded behind = if behind == 0 then millis 1 else if behind == 1 then millis 0 else negative

abbrev pub wait_from : Throttler → ℕ → ℕ → Millis
wait_from t now start =
    if leb start (now + window_micros t)
    then millis ((now + window_micros t - start) / 1000 + 1)
    else rounded ((start - (now + window_micros t)) / 1000)

abbrev pub throttled : Throttler → ℕ → Bool → Option ℕ → Option Millis
throttled t now true start = none
throttled t now false none = none
throttled t now false (some start) = some (wait_from t now start)

unfoldable pub state_w_conn : Throttler → ℕ → List ℕ → ThrottlerState × List ℕ
unfolding remove_expired first
state_w_conn t now scores =
    let kept = remove_expired t now scores in
    let is_allowed = ltb (length kept) t.limit in
    (
      record {
        requests = length kept;
        is_allowed = is_allowed;
        throttled_for = throttled t now is_allowed (first kept);
      },
      kept,
    )

abbrev pub add_times : ℕ → ℕ → List ℕ → List ℕ
add_times zero time scores = scores
add_times (suc n) time scores = time ∷ add_times n time scores

-- What `consume` does once `state_w_conn` has answered `seen`: other processes may have changed the set
-- in between. `current` is the clock before that.
unfoldable pub consume : Option ℕ → ℕ → ThrottlerState → List ℕ → ThrottlerState × List ℕ
consume cost current seen scores =
    let effective_cost = unwrap_or cost 1 in
    if seen.is_allowed
    then (
      record seen { requests = seen.requests + effective_cost },
      add_times effective_cost current scores,
    )
    else (seen, scores)
