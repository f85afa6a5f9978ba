-- ===== src/Storage/Effects.antt =====
-- What the operations of oxana/src/storage_internal.rs on a claimed job leave behind, for a client
-- that is alone with a connection that holds and keys of the right kinds.
use mathlib.Core.Path.{subst}
use oxana.Base.{ℕ, ◌+◌, ◌-◌, ◌*◌, String, true, some, List, ◌≡◌, refl, sym, ◌∙◌, ap, eq_refl}
use oxana.Base.Lists.{count, remove_first, count-remove_first}
use oxana.Redis.{Redis, hash, list, zset, set_list, set_field, set_score}
use oxana.Errors.{Result, ok}
use oxana.Envelope.{JobEnvelope, with_retries_incremented}
use oxana.Envelope.Laws.{IsRetryOf, with_retries_incremented-IsRetryOf}
use oxana.Json.{Json}
use oxana.Exec.{alone, ◌>>=◌, pure, fail, round_trip}
use oxana.Scripts.{hget, lrange, zscore, checked, retry_failed}
use oxana.Storage.{
  StorageInternal, current_processing_queue, retry_in, get_job_w_conn, claimed_connection,
  connection, parse, u64,
}

module _ ⦃R : Redis⦄ {V : Type 0} (J : Json V) (s : StorageInternal) where
  abbrev claims : R.Db → String → ℕ
  claims d id = count id (lrange d (current_processing_queue s))

  -- The kinds of the keys that a claimed job's transitions write.
  pub record Fits (d : R.Db) : Type 0 where
    pub jobs : R.fits d s.keys.jobs hash ≡ true
    pub retry : R.fits d s.keys.retry zset ≡ true
    pub dead : R.fits d s.keys.dead list ≡ true
    pub claims : R.fits d (current_processing_queue s) list ≡ true

  retry_in-alone :
      (id payload error : String) (e : JobEnvelope V) (delay_s now : ℕ) (d : R.Db)
      → Fits d
      → hget d s.keys.jobs id ≡ some payload
      → J.from_str payload ≡ some e
      → alone (retry_in J s id delay_s error now) d
        ≡ retry_failed s.keys.jobs s.keys.retry
            (current_processing_queue s)
            e.id
            (J.to_string (with_retries_incremented e error))
            (u64 (now + delay_s * 1000000))
            d
  unfolding alone retry_in claimed_connection connection get_job_w_conn checked ◌>>=◌ pure fail
      round_trip with_retries_incremented
  retry_in-alone id payload error e delay_s now d fits stored parsed =
      rw (fits.jobs, stored, parse, parsed) refl

  -- A job is stored with a further retry, due at the time of the retry, and one claim of it is gone.
  pub record Retried (d : R.Db) (e : JobEnvelope V) (payload : String) (score : ℕ)
      (out : Result (Unit {0}) × R.Db) : Type 0 where
    pub answer : out.0 ≡ ok tt
    pub stored : hget out.1 s.keys.jobs e.id ≡ some payload
    pub due : zscore out.1 s.keys.retry e.id ≡ some score
    pub claimed : claims out.1 e.id ≡ claims d e.id - 1

  view-retry :
      (id payload : String) (score : ℕ) (d : R.Db)
      → R.view (
          R.lrem_first
            (current_processing_queue s)
            id
            (R.zadd s.keys.retry score id (R.hset s.keys.jobs id payload d)))
        ≡ set_list
            (current_processing_queue s)
            (remove_first id (lrange d (current_processing_queue s)))
            (set_score s.keys.retry id
              (some score)
              (set_field s.keys.jobs id (some payload) (R.view d)))
  view-retry id payload score d =
      rw
        (
          R.view-lrem_first (current_processing_queue s) id
              (R.zadd s.keys.retry score id (R.hset s.keys.jobs id payload d)),
          R.view-zadd s.keys.retry score id (R.hset s.keys.jobs id payload d),
          R.view-hset s.keys.jobs id payload d,
        )
        refl

  claimed_lem :
      (id : String) (xs : List String) (d : R.Db)
      → xs ≡ remove_first id (lrange d (current_processing_queue s))
      → count id xs ≡ claims d id - 1
  claimed_lem id xs d e =
      ap (count id) e
      ∙ count-remove_first id id (lrange d (current_processing_queue s))
      ∙ rw (eq_refl id) refl

  retry_failed-Retried :
      (e : JobEnvelope V) (payload : String) (score : ℕ) (d : R.Db)
      → Fits d
      → Retried d e payload score
          (retry_failed s.keys.jobs s.keys.retry (current_processing_queue s) e.id payload score d)
  unfolding retry_failed checked
  retry_failed-Retried e payload score d fits =
      rw (fits.jobs, fits.retry, fits.claims)
        (record {
          answer = refl;
          stored =
              ap (λ w. w.hashes s.keys.jobs e.id) (view-retry e.id payload score d)
              ∙ rw (eq_refl s.keys.jobs) (rw (eq_refl e.id) refl);
          due =
              ap (λ w. w.zsets s.keys.retry e.id) (view-retry e.id payload score d)
              ∙ rw (eq_refl s.keys.retry) (rw (eq_refl e.id) refl);
          claimed = claimed_lem e.id _ d (
              ap (λ w. w.lists (current_processing_queue s)) (view-retry e.id payload score d)
              ∙ rw (eq_refl (current_processing_queue s)) refl);
        })

  -- Alone, if the keys hold what they are for, `retry_in` of a stored job that parses succeeds: the
  -- job waits for its retry, and what is stored for it is the text of an envelope with one retry more,
  -- as a `u32`, with the error, without a start, and with the same identifier, job, queue and state;
  -- and one claim of it is gone.
  pub retry_in-Retried :
      (id payload error : String) (e : JobEnvelope V) (delay_s now : ℕ) (d : R.Db)
      → Fits d
      → hget d s.keys.jobs id ≡ some payload
      → J.from_str payload ≡ some e
      → (e' : JobEnvelope V) × IsRetryOf e error e'
        × Retried d e
            (J.to_string e')
            (u64 (now + delay_s * 1000000))
            (alone (retry_in J s id delay_s error now) d)
  retry_in-Retried id payload error e delay_s now d fits stored parsed = (
    with_retries_incremented e error,
    with_retries_incremented-IsRetryOf e error,
    subst
        (Retried d e (J.to_string (with_retries_incremented e error))
          (u64 (now + delay_s * 1000000)))
        (sym (retry_in-alone id payload error e delay_s now d fits stored parsed))
        (retry_failed-Retried e _ _ d fits),
  )
