-- ===== src/Storage/Claimed.antt =====
-- `get_claimed_job` of oxana/src/storage_internal.rs. Which errors of the connection are transient is
-- a matter of their values, which errors do not carry here, and a parameter. The waits between the
-- reads end after five seconds; how many reads that leaves time for is an argument.
use oxana.Base.{ℕ, zero, suc, String, Bool, true, false, Option}
use oxana.Errors.{Result, ok, err, OxanaError}
use oxana.Envelope.{JobEnvelope}
use oxana.Json.{Json}
use oxana.Redis.{Redis}
use oxana.Exec.{Exec, pure, fail, attempt, ◌>>=◌}
use oxana.Storage.{StorageInternal, get_job}

module _ ⦃R : Redis⦄ {V : Type 0} (J : Json V) (transient : OxanaError → Bool)
    (s : StorageInternal) where
  unfoldable pub retry_read :
      String → ℕ → Result (Option (JobEnvelope V)) → Exec R.Db (Option (JobEnvelope V))
  retry_read id reads (ok envelope) = pure envelope
  retry_read id zero (err e) = fail e
  retry_read id (suc reads) (err e) = elim (transient e) [
    | true ↦ attempt (get_job J s id) >>= retry_read id reads
    | false ↦ fail e
  ]

  unfoldable pub get_claimed_job : ℕ → String → Exec R.Db (Option (JobEnvelope V))
  unfolding retry_read
  get_claimed_job reads id = attempt (get_job J s id) >>= retry_read id reads
