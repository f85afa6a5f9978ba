-- ===== src/Dispatcher/Rounds.antt =====
-- `run` of oxana/src/dispatcher.rs: its rounds, with the permits of the queue. What the branches of the
-- two `select!` come to is given for each round: a permit, the result of the try, and what becomes of
-- the job that is sent to the worker, and what others do to the shared state before the round and while
-- it holds its permit: workers drop permits, the watcher applies a configuration, and every task of the
-- process counts failures in a row. A permit goes with its job; Rust releases it where its owner goes
-- out of scope.
use oxana.Base.{ℕ, String, Bool, true, false, Option, none, some, List, [], ◌∷◌, ◌≡◌, ◌⊎◌}
use oxana.Errors.{Result, ok, err, OxanaError, generic_error}
use oxana.Failures.{track_redis_result}
use oxana.Control.{QueueControl, try_acquire, release}
use oxana.Dispatcher.{Popped, job, nothing, pop_failed, before_claim, claim_error}

-- What becomes of a job that is sent: the branch of the cancellation may win.
pub data Sending : Type 0 where
  received closed sending_cancelled : Sending

-- What others do to the permits and to the count of failures in a row.
abbrev pub Others : Type 0
Others = QueueControl × ℕ → QueueControl × ℕ

-- A round: cancelled before a permit, or during the try, or a try with its result, and whether the
-- token is cancelled when the sending has failed.
pub data Round : Type 0 where
  stopped : Round
  cancelled : Others → Round
  tried : Others → Popped → Sending → Bool → Round

pub record Dispatcher : Type 0 where
  pub control : QueueControl
  pub failures : ℕ
  -- The jobs that a try came back with, and those that a worker received, the newest first.
  pub popped : List String
  pub sent : List String

pub data Next : Type 0 where
  continue finish : Next
  failed : OxanaError → Next

abbrev meanwhile : Others → Dispatcher → Dispatcher
meanwhile others d =
    let shared = others (d.control, d.failures) in
    record d { control = shared.0; failures = shared.1 }

abbrev released : Dispatcher → Dispatcher
released d = record d { control = release d.control }

unfoldable pub send : String → Sending → Bool → Dispatcher → Next × Dispatcher
send id received is_cancelled d = (continue, record d { sent = id ∷ d.sent })
send id sending_cancelled is_cancelled d = (finish, released d)
send id closed true d = (finish, released d)
send id closed false d = (failed generic_error, released d)

abbrev after_tracking :
    Result (Option (Option String)) → Sending → Bool → Dispatcher → Next × Dispatcher
after_tracking (err e) sending is_cancelled d = (failed e, released d)
after_tracking (ok (some (some id))) sending is_cancelled d = send id sending is_cancelled d
after_tracking (ok (some none)) sending is_cancelled d = (continue, released d)
after_tracking (ok none) sending is_cancelled d = (continue, released d)

abbrev track_popped : ℕ → Result (Option String) → Sending → Bool → Dispatcher → Next × Dispatcher
track_popped tolerance result sending is_cancelled d =
    let (tracked, failures) = track_redis_result tolerance result d.failures in
    after_tracking tracked sending is_cancelled (record d { failures = failures })

-- `d` holds the permit. A claim that is in doubt ends the run, whatever the tolerance.
unfoldable pub handle_popped : ℕ → Popped → Sending → Bool → Dispatcher → Next × Dispatcher
unfolding send track_redis_result
handle_popped tolerance (job id) sending is_cancelled d =
    track_popped tolerance (ok (some id)) sending is_cancelled (record d { popped = id ∷ d.popped })
handle_popped tolerance (nothing wait) sending is_cancelled d =
    track_popped tolerance (ok none) sending is_cancelled d
handle_popped tolerance (pop_failed (before_claim e)) sending is_cancelled d =
    track_popped tolerance (err e) sending is_cancelled d
handle_popped tolerance (pop_failed (claim_error e)) sending is_cancelled d = (failed e, released d)

-- A round that gets no permit waits on.
unfoldable pub round : ℕ → Round → Dispatcher → Next × Dispatcher
unfolding handle_popped try_acquire
round tolerance stopped d = (finish, d)
round tolerance (cancelled others) d = elim (try_acquire d.control) [
  | none ↦ (finish, d)
  | some control ↦ (finish, released (meanwhile others (record d { control = control })))
]
round tolerance (tried others popped sending is_cancelled) d = elim (try_acquire d.control) [
  | none ↦ (continue, d)
  | some control ↦
      handle_popped tolerance popped sending is_cancelled
        (meanwhile others (record d { control = control }))
]

abbrev proceed : Next → Dispatcher → Next × Dispatcher → Next × Dispatcher
proceed continue d later = later
proceed finish d later = (finish, d)
proceed (failed e) d later = (failed e, d)

-- Each round with what others have done before it.
unfoldable pub run : ℕ → List (Others × Round) → Dispatcher → Next × Dispatcher
unfolding round
run tolerance [] d = (continue, d)
run tolerance ((others, r) ∷ rs) d =
    let (next, d') = round tolerance r (meanwhile others d) in proceed next d' (run tolerance rs d')

-- While the run goes on, each job that a try came back with was received by a worker; when it has ended,
-- the last one may not have been.
abbrev pub Settled : Next → Dispatcher → Type 0
Settled continue d = d.popped ≡ d.sent
Settled finish d = (d.popped ≡ d.sent) ⊎ ((id : String) × (d.popped ≡ id ∷ d.sent))
Settled (failed e) d = (d.popped ≡ d.sent) ⊎ ((id : String) × (d.popped ≡ id ∷ d.sent))
