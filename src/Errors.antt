-- ===== src/Errors.antt =====
-- oxana/src/error.rs: the errors that the modelled code makes or passes on, without the values that
-- the foreign libraries put inside them, and the result type of Rust.
use oxana.Base.{Bool, true, false}

pub data OxanaError : Type 0 where
  shutdown_timeout generic_error job_not_found json_error : OxanaError
  job_factory_error worker_error try_from_int_error std_io_error : OxanaError
  deadpool_redis_error pool_timeout pool_backend config_error job_state_json_error : OxanaError

pub data Result {ℓ} (A : Type ℓ) : Type ℓ where
  ok : A → Result A
  err : OxanaError → Result A

infixl 5 ◌>>=◌
abbrev pub ◌>>=◌ {ℓ κ} : {A : Type ℓ} {B : Type κ} → Result A → (A → Result B) → Result B
ok a >>= f = f a
err e >>= f = err e

abbrev pub is_ok {ℓ} : {A : Type ℓ} → Result A → Bool
is_ok (ok a) = true
is_ok (err e) = false
