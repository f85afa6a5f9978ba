-- ===== src/Failures.antt =====
-- `track_redis_result` of oxana/src/storage_internal.rs: how many failures of Redis in a row are
-- tolerated. The count is an atomic `u32`, which wraps.
pub mod Tolerance
use oxana.Base.{ℕ, ◌+◌, Option, none, some, Bool, true, false, leb}
use oxana.Envelope.{u32}
use oxana.Errors.{Result, ok, err, OxanaError}

abbrev pub record_redis_success : ℕ → ℕ
record_redis_success count = 0

-- What `fetch_add` leaves, and whether the tolerance is used up.
unfoldable pub record_redis_failure : ℕ → ℕ → Bool × ℕ
record_redis_failure failure_tolerance count =
    (leb failure_tolerance (u32 (count + 1)), u32 (count + 1))

abbrev pub escalated {ℓ} : {A : Type ℓ} → OxanaError → Bool → Result (Option A)
escalated e true = err e
escalated e false = ok none

unfoldable pub track_redis_result {ℓ} : {A : Type ℓ} → ℕ → Result A → ℕ → Result (Option A) × ℕ
unfolding record_redis_failure
track_redis_result failure_tolerance (ok a) count = (ok (some a), record_redis_success count)
track_redis_result failure_tolerance (err e) count =
    let (over, count') = record_redis_failure failure_tolerance count in (escalated e over, count')
