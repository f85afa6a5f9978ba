-- ===== src/Storage/Upkeep/Wiped.antt =====
-- What `wipe_queue` leaves, for a client that is alone with a connection that holds.
use mathlib.Core.Path.{subst}
use oxana.Base.{
  String, true, false, none, List, [], ◌∷◌, ◌≡◌, ◌≢◌, ◌⊎◌, refl, sym, ap, ◌∙◌, str_eq, eq_refl,
  Bool-cases, inl, inr,
}
use oxana.Base.Lists.{elem, str_eq-distinct}
use oxana.Errors.{Result, ok}
use oxana.Keys.{namespace_queue}
use oxana.Redis.{Redis, hash, list}
use oxana.Exec.{pure, fail, round_trip, pipeline, attempt, alone, ◌>>=◌}
use oxana.Scripts.{hget, lrange, checked}
use oxana.Storage.{StorageInternal, connection}
use oxana.Storage.Upkeep.{wipe_queue, wipe_jobs, hdel_all}

module _ ⦃R : Redis⦄ where
  hdel_all-gone :
      (key : String) (fields : List String) (d : R.Db) (f : String)
      → (hget d key f ≡ none) ⊎ (elem f fields ≡ true)
      → hget (hdel_all key fields d) key f ≡ none
  unfolding hdel_all elem
  hdel_all-gone key [] d f (inl e) = e
  hdel_all-gone key [] d f (inr e) = cc
  hdel_all-gone key (g ∷ gs) d f h =
      hdel_all-gone key gs (R.hdel key g d) f (elim (Bool-cases (str_eq g f)) [
        | inl same ↦
            inl (ap (λ v. v.hashes key f) (R.view-hdel key g d) ∙ rw (eq_refl key, same) refl)
        | inr other ↦ elim h [
          | inl e ↦ inl (ap (λ v. v.hashes key f) (R.view-hdel key g d) ∙ rw (eq_refl key, other) e)
          | inr e ↦ inr (rw other at e)
        ]
      ])

  hdel_all-kept :
      (key : String) (fields : List String) (d : R.Db) (f : String)
      → elem f fields ≡ false
      → hget (hdel_all key fields d) key f ≡ hget d key f
  unfolding hdel_all elem
  hdel_all-kept key [] d f h = refl
  hdel_all-kept key (g ∷ gs) d f h = elim (Bool-cases (str_eq g f)) [
    | inl same ↦ cc (h, same)
    | inr other ↦
        hdel_all-kept key gs (R.hdel key g d) f (rw other at h)
        ∙ ap (λ v. v.hashes key f) (R.view-hdel key g d)
        ∙ rw (eq_refl key, other) refl
  ]

  pub record Wiped (jobs queue_key : String) (d : R.Db) (out : Result (Unit {0}) × R.Db)
      : Type 0 where
    pub answer : out.0 ≡ ok tt
    pub empty : lrange out.1 queue_key ≡ []
    pub gone : (id : String) → elem id (lrange d queue_key) ≡ true → hget out.1 jobs id ≡ none
    pub kept :
        (id : String) → elem id (lrange d queue_key) ≡ false → hget out.1 jobs id ≡ hget d jobs id

  module _ (s : StorageInternal) (queue : String) (d : R.Db) where
    abbrev queue_key : String
    queue_key = namespace_queue s.keys queue

    wipe_jobs-alone :
        (ids : List String)
        → R.fits d s.keys.jobs hash ≡ true
        → alone (wipe_jobs s queue_key ids) d
          ≡ (ok tt, R.del queue_key (hdel_all s.keys.jobs ids d))
    unfolding alone round_trip pipeline attempt pure fail ◌>>=◌ checked hdel_all
    wipe_jobs-alone [] fits = refl
    wipe_jobs-alone (id ∷ ids) fits = rw fits refl

    wipe_queue-alone :
        R.fits d s.keys.jobs hash ≡ true
        → R.fits d queue_key list ≡ true
        → alone (wipe_queue s queue) d
          ≡ (ok tt, R.del queue_key (hdel_all s.keys.jobs (lrange d queue_key) d))
    unfolding wipe_queue alone connection round_trip ◌>>=◌ checked pure fail
    wipe_queue-alone jobs_fits fits = rw fits (wipe_jobs-alone (lrange d queue_key) jobs_fits)

    -- For a client that is alone with a connection that holds, with keys of the right kinds, and a queue
    -- whose key is not that of the payloads, `wipe_queue` empties the queue and deletes the payloads of the jobs in it, and no other.
    pub wipe_queue-Wiped :
        R.fits d s.keys.jobs hash ≡ true
        → R.fits d queue_key list ≡ true
        → queue_key ≢ s.keys.jobs
        → Wiped s.keys.jobs queue_key d (alone (wipe_queue s queue) d)
    wipe_queue-Wiped jobs_fits fits apart =
        let ids = lrange d queue_key in
        let wiped = hdel_all s.keys.jobs ids d in
        let left : (id : String)
            → hget (R.del queue_key wiped) s.keys.jobs id ≡ hget wiped s.keys.jobs id =
          λ id.
            ap (λ v. v.hashes s.keys.jobs id) (R.view-del queue_key wiped)
            ∙ rw (str_eq-distinct queue_key s.keys.jobs apart) refl in
        subst (Wiped s.keys.jobs queue_key d) (sym (wipe_queue-alone jobs_fits fits)) (record {
          answer = refl;
          empty =
              ap (λ v. v.lists queue_key) (R.view-del queue_key wiped)
              ∙ rw (eq_refl queue_key) refl;
          gone = λ id h. left id ∙ hdel_all-gone s.keys.jobs ids d id (inr h);
          kept = λ id h. left id ∙ hdel_all-kept s.keys.jobs ids d id h;
        })
