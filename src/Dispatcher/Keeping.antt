-- ===== src/Dispatcher/Keeping.antt =====
-- The claims of the process around the requests of a throttle, and around reads.
use oxana.Base.{
  ℕ, zero, suc, String, Bool, true, false, Option, List, [], ◌∷◌, ◌≡◌, inl, inr, refl, ◌∙◌, ap,
  Bool-cases,
}
use oxana.Errors.{Result, ok, err, OxanaError}
use oxana.Envelope.{JobEnvelope}
use oxana.Json.{Json}
use oxana.Redis.{Redis, hash, zset}
use oxana.Exec.{Exec, Command, fail, attempt, round_trip, ◌>>=◌}
use oxana.Scripts.{lrange, checked}
use oxana.Storage.{StorageInternal, connection, get_job, get_job_w_conn, lift, read_payload, parse}
use oxana.Storage.Claimed.{get_claimed_job, retry_read}
use oxana.Throttler.{Throttler, ThrottlerState, expired}
use oxana.Exec.Keeping.{Keeps, pure-Keeps, fail-Keeps, bind-Keeps, attempt-Keeps, command-Keeps}
use oxana.Dispatcher.Claims.{own, Holds, Apart}
use oxana.Dispatcher.{drop_expired, add_requests, state_command, add_cost}

module _ ⦃R : Redis⦄ (s : StorageInternal) where
  -- An action that leaves the claims as they are, however it ends.
  abbrev pub LeavesClaims : {A : Type 0} → List String → Exec R.Db A → Type 0
  LeavesClaims ids m = Keeps (Apart s) (Holds s ids) m

  command-LeavesClaims :
      {A : Type 0} (ids : List String) (c : Command R.Db A)
      → ((d : R.Db) → lrange (c d).1 (own s) ≡ lrange d (own s))
      → LeavesClaims ids (round_trip c)
  command-LeavesClaims ids c same =
      command-Keeps (Apart s) (Holds s ids) c (λ f g d h. g d ∙ h) (λ d h. same d ∙ h)

  pub connection-LeavesClaims : (ids : List String) → LeavesClaims ids connection
  unfolding connection
  connection-LeavesClaims ids = command-LeavesClaims ids _ (λ d. refl)

  pub checked-lists :
      {A : Type 0} (fits : Bool) (r : Result A × R.Db) (d : R.Db)
      → lrange r.1 (own s) ≡ lrange d (own s)
      → lrange (checked fits r d).1 (own s) ≡ lrange d (own s)
  unfolding checked
  checked-lists true r d h = h
  checked-lists false r d h = refl

  drop_expired-lists :
      (t : Throttler) (now : ℕ) (key : String) (members : List (String × ℕ)) (d : R.Db)
      → lrange (drop_expired t now key members d) (own s) ≡ lrange d (own s)
  unfolding drop_expired
  drop_expired-lists t now key [] d = refl
  drop_expired-lists t now key ((i, score) ∷ rest) d =
      let after = drop_expired-lists t now key rest d in
      elim (Bool-cases (expired t now score)) [
        | inl e ↦
            rw e (
              ap (λ v. v.lists (own s)) (R.view-zrem key i (drop_expired t now key rest d)) ∙ after)
        | inr e ↦ rw e after
      ]

  add_requests-lists :
      (key : String) (time : ℕ) (fresh : ℕ → String) (n : ℕ) (d : R.Db)
      → lrange (add_requests key time fresh n d) (own s) ≡ lrange d (own s)
  unfolding add_requests
  add_requests-lists key time fresh zero d = refl
  add_requests-lists key time fresh (suc n) d =
      ap (λ v. v.lists (own s)) (R.view-zadd key time (fresh n) (add_requests key time fresh n d))
      ∙ add_requests-lists key time fresh n d

  pub state_command-LeavesClaims :
      (ids : List String) (t : Throttler) (key : String) (now : ℕ)
      → LeavesClaims ids (round_trip (state_command t key now))
  state_command-LeavesClaims ids t key now =
      command-LeavesClaims ids _ (λ d.
        checked-lists (R.fits d key zset) _ d (drop_expired-lists t now key (R.zrange d key) d))

  pub add_cost-LeavesClaims :
      (ids : List String) (key : String) (cost : Option ℕ) (current : ℕ) (fresh : ℕ → String)
      (seen : ThrottlerState) (allowed : Bool) (n : ℕ)
      → LeavesClaims ids (add_cost key cost current fresh seen allowed n)
  add_cost-LeavesClaims ids key cost current fresh seen false n =
      pure-Keeps (Apart s) (Holds s ids) seen
  add_cost-LeavesClaims ids key cost current fresh seen true zero =
      pure-Keeps (Apart s) (Holds s ids) seen
  add_cost-LeavesClaims ids key cost current fresh seen true (suc n) =
      command-LeavesClaims ids _
        (λ d. checked-lists (R.fits d key zset) _ d (add_requests-lists key current fresh _ d))

  module _ {V : Type 0} (J : Json V) (transient : OxanaError → Bool) where
    lift-LeavesClaims : {A : Type 0} (ids : List String) (r : Result A) → LeavesClaims ids (lift r)
    lift-LeavesClaims ids (ok a) = pure-Keeps (Apart s) (Holds s ids) a
    lift-LeavesClaims ids (err e) = fail-Keeps (Apart s) (Holds s ids) _ e

    get_job-LeavesClaims : (ids : List String) (id : String) → LeavesClaims ids (get_job J s id)
    unfolding get_job get_job_w_conn
    get_job-LeavesClaims ids id =
        bind-Keeps (Apart s) (Holds s ids) connection _ (connection-LeavesClaims ids) (λ x.
          bind-Keeps (Apart s) (Holds s ids) (round_trip (read_payload s.keys.jobs id)) _
            (command-LeavesClaims ids _ (λ d. checked-lists (R.fits d s.keys.jobs hash) _ d refl))
            (λ payload. lift-LeavesClaims ids (parse J payload)))

    retry_read-LeavesClaims :
        (ids : List String) (id : String) (reads : ℕ) (r : Result (Option (JobEnvelope V)))
        → LeavesClaims ids (retry_read J transient s id reads r)
    unfolding retry_read
    retry_read-LeavesClaims ids id reads (ok e) = pure-Keeps (Apart s) (Holds s ids) e
    retry_read-LeavesClaims ids id zero (err e) = fail-Keeps (Apart s) (Holds s ids) _ e
    retry_read-LeavesClaims ids id (suc reads) (err e) =
        again (transient e) (retry_read-LeavesClaims ids id reads)
      where
        again :
            (b : Bool)
            → ((r : Result (Option (JobEnvelope V)))
                → LeavesClaims ids (retry_read J transient s id reads r))
            → LeavesClaims {A = Option (JobEnvelope V)} ids (elim b [
              | true ↦ attempt (get_job J s id) >>= retry_read J transient s id reads
              | false ↦ fail e
            ])
        again true later =
            bind-Keeps (Apart s) (Holds s ids) (attempt (get_job J s id)) _
              (attempt-Keeps (Apart s) (Holds s ids) (get_job J s id) (get_job-LeavesClaims ids id))
              later
        again false later = fail-Keeps (Apart s) (Holds s ids) _ e

    pub get_claimed_job-LeavesClaims :
        (ids : List String) (reads : ℕ) (id : String)
        → LeavesClaims ids (get_claimed_job J transient s reads id)
    unfolding get_claimed_job
    get_claimed_job-LeavesClaims ids reads id =
        bind-Keeps (Apart s) (Holds s ids) (attempt (get_job J s id)) _
          (attempt-Keeps (Apart s) (Holds s ids) (get_job J s id) (get_job-LeavesClaims ids id))
          (retry_read-LeavesClaims ids id reads)
