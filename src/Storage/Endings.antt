-- ===== src/Storage/Endings.antt =====
-- What `dequeue`, `kill` and `finish_with_success_batch` of oxana/src/storage_internal.rs leave behind,
-- for a client that is alone with a connection that holds and keys of the right kinds.
use oxana.Base.{
  ℕ, ◌-◌, String, Bool, true, false, none, List, ◌∷◌, ◌≡◌, ◌≢◌, refl, sym, ◌∙◌, ap, str_eq, eq_refl,
  eq_iff, ltb, if◌then◌else◌, Bool-cases, inl, inr,
}
use oxana.Base.Lists.{count, take, remove_first, count-remove_first}
use oxana.Redis.{Redis, hash, list, set_list, set_field}
use oxana.Errors.{Result, ok}
use oxana.Scripts.{hget, lrange, checked, trimmed, finish_dead}

-- What a list of dead jobs keeps: everything, or the newest of a limit.
abbrev pub newest : ℕ → List String → List String
newest limit xs = if ltb 0 limit then take limit xs else xs

module _ ⦃R : Redis⦄ where
  pub differ : (a b : String) → a ≢ b → str_eq a b ≡ false
  differ a b ne = elim (Bool-cases (str_eq a b)) [
    | inl e ↦ absurd (ne ((eq_iff a b).0 e))
    | inr e ↦ e
  ]

  trimmed-newest :
      (b : Bool) (dead : String) (limit : ℕ) (d : R.Db)
      → lrange (trimmed b dead limit d) dead
        ≡ (if b then take limit (lrange d dead) else lrange d dead)
  trimmed-newest true dead limit d =
      ap (λ w. w.lists dead) (R.view-ltrim dead limit d) ∙ rw (eq_refl dead) refl
  trimmed-newest false dead limit d = refl

  trimmed-hget :
      (b : Bool) (dead : String) (limit : ℕ) (d : R.Db) (k f : String)
      → hget (trimmed b dead limit d) k f ≡ hget d k f
  trimmed-hget true dead limit d k f = ap (λ w. w.hashes k f) (R.view-ltrim dead limit d)
  trimmed-hget false dead limit d k f = refl

  trimmed-lrange :
      (b : Bool) (dead key : String) (limit : ℕ) (d : R.Db)
      → str_eq dead key ≡ false
      → lrange (trimmed b dead limit d) key ≡ lrange d key
  trimmed-lrange true dead key limit d ne =
      ap (λ w. w.lists key) (R.view-ltrim dead limit d) ∙ rw ne refl
  trimmed-lrange false dead key limit d ne = refl

  module _ (jobs dead processing id payload : String) (d : R.Db) where
    abbrev buried : R.Db
    buried = R.lrem_first processing id (R.hdel jobs id (R.lpush dead payload d))

    view-buried :
        R.view buried
        ≡ set_list processing
            (remove_first id
              ((set_list dead (payload ∷ lrange d dead) (R.view d)).lists processing))
            (set_field jobs id none (set_list dead (payload ∷ lrange d dead) (R.view d)))
    view-buried =
        rw
          (
            R.view-lrem_first processing id (R.hdel jobs id (R.lpush dead payload d)),
            R.view-hdel jobs id (R.lpush dead payload d),
            R.view-lpush dead payload d,
          )
          refl

    -- The payload is the newest dead job and no longer an active one, and one claim is gone.
    pub record Dead (limit : ℕ) (out : Result (Unit {0}) × R.Db) : Type 0 where
      pub answer : out.0 ≡ ok tt
      pub gone : hget out.1 jobs id ≡ none
      pub buried_as : lrange out.1 dead ≡ newest limit (payload ∷ lrange d dead)
      pub claimed : count id (lrange out.1 processing) ≡ count id (lrange d processing) - 1

    pub finish_dead-Dead :
        (limit : ℕ)
        → R.fits d jobs hash ≡ true
        → R.fits d dead list ≡ true
        → R.fits d processing list ≡ true
        → processing ≢ dead
        → Dead limit (finish_dead jobs dead processing id payload limit d)
    unfolding finish_dead checked
    finish_dead-Dead limit fits_jobs fits_dead fits_claims ne =
        rw (fits_jobs, fits_dead, fits_claims)
          (record {
            answer = refl;
            gone =
                trimmed-hget (ltb 0 limit) dead limit buried jobs id
                ∙ ap (λ w. w.hashes jobs id) view-buried
                ∙ rw (eq_refl jobs) (rw (eq_refl id) refl);
            buried_as =
                trimmed-newest (ltb 0 limit) dead limit buried
                ∙ ap (newest limit) (
                    ap (λ w. w.lists dead) view-buried
                    ∙ rw (differ processing dead ne) (rw (eq_refl dead) refl));
            claimed =
                ap (count id) (
                  trimmed-lrange (ltb 0 limit) dead processing limit buried
                    (differ dead processing λ e. ne (sym e))
                  ∙ ap (λ w. w.lists processing) view-buried
                  ∙ rw (eq_refl processing) (rw (differ dead processing λ e. ne (sym e)) refl))
                ∙ count-remove_first id id (lrange d processing)
                ∙ rw (eq_refl id) refl;
          })
