-- ===== src/Safety/Commands.antt =====
-- The commands that oxana/src/storage_internal.rs sends on a claimed or scheduled job, and the
-- places of every job.
use mathlib.Core.List.{get_last?}
use mathlib.Core.Path.{subst}
use oxana.Base.{
  ℕ, String, Bool, true, false, Option, none, some, List, ◌≡◌, ◌≢◌, ◌⊎◌, inl, inr, str_eq, eq_iff,
  and_left, and_right, eq_refl, Bool-cases, if◌then◌else◌, refl, ltb,
}
use oxana.Base.Lists.{elem, elem-cons_self}
use oxana.Redis.{Redis}
use oxana.Errors.{OxanaError, Result, ok, err}
use oxana.Envelope.{JobEnvelope}
use oxana.Json.{Json}
use oxana.Keys.{StorageKeys, namespace_queue}
use oxana.Exec.Triple.{Outcome}
use oxana.Safety.{Located, in_list}
use oxana.Safety.Places.{Located-lpush, Located-rpop}
use oxana.Safety.Moves.{move}
use oxana.Safety.Scripts.{
  Safe, release_all-Safe, release-Safe, lpush_dead-Safe, ltrim_dead-Safe, drop_claim-Safe,
  drop_member-Safe, requeue-Safe, promote-Safe, retry-Safe,
}
use oxana.Scripts.{
  hget, lrange, same_payload, expected_payload, finish_success, finish_dead, retry_failed,
  promote_scheduled, resurrect_claim, promote, requeue, checked, if_current,
}
use oxana.Storage.{lmove, lmove_found, lrem_one}

module _ ⦃R : Redis⦄ {V : Type 0} (J : Json V) (keys : StorageKeys) where
  -- A command, from a safe state, ends in one.
  pub record Keeps {A : Type 0} (r : Result A × R.Db) : Type 0 where
    pub at : Outcome (λ _ _. Unit {0}) (Safe J keys) r.0 r.1

  pub Keeps-ok : {A : Type 0} (a : A) {d : R.Db} → Safe J keys d → Keeps (ok a, d)
  Keeps-ok a s = record { at = (tt, s) }

  Keeps-err : {A : Type 0} {e : OxanaError} {d : R.Db} → Safe J keys d → Keeps {A = A} (err e, d)
  Keeps-err s = record { at = s }

  pub Keeps-checked :
      {A : Type 0} (fits : Bool) {done : Result A × R.Db} {d : R.Db}
      → Keeps done
      → Safe J keys d
      → Keeps (checked fits done d)
  unfolding checked
  Keeps-checked true done s = done
  Keeps-checked false done s = Keeps-err s

  Keeps-if_current :
      {current : Bool} {done : Result ℕ × R.Db} {d : R.Db}
      → (current ≡ true → Keeps done)
      → Safe J keys d
      → Keeps (if_current current done d)
  unfolding if_current
  Keeps-if_current {current = true} done s = done refl
  Keeps-if_current {current = false} done s = Keeps-ok 0 s

  pub finish_success-Safe :
      (processing : String) (ids : List String) (d : R.Db)
      → Safe J keys d
      → Keeps (finish_success keys.jobs processing ids d)
  unfolding finish_success
  finish_success-Safe processing ids d s =
      Keeps-checked _ (Keeps-ok tt (release_all-Safe J keys processing ids d s)) s

  trim-Safe :
      (b : Bool) (limit : ℕ) (d : R.Db)
      → Safe J keys d
      → Safe J keys (if b then R.ltrim keys.dead limit d else d)
  trim-Safe true limit d s = ltrim_dead-Safe J keys limit d s
  trim-Safe false limit d s = s

  pub finish_dead-Safe :
      (processing id payload : String) (limit : ℕ) (d : R.Db)
      → Safe J keys d
      → Keeps (finish_dead keys.jobs keys.dead processing id payload limit d)
  unfolding finish_dead
  finish_dead-Safe processing id payload limit d s =
      Keeps-checked _
        (Keeps-ok tt (
          trim-Safe (ltb 0 limit) limit _
            (release-Safe J keys processing id _ (lpush_dead-Safe J keys payload d s))))
        s

  pub retry_failed-Safe :
      (processing id payload : String) (score : ℕ) (e : JobEnvelope V) (d : R.Db)
      → J.from_str payload ≡ some e
      → namespace_queue keys e.queue ≢ keys.dead
      → Safe J keys d
      → Keeps (retry_failed keys.jobs keys.retry processing id payload score d)
  unfolding retry_failed
  retry_failed-Safe processing id payload score e d parsed live s =
      Keeps-checked _
        (Keeps-ok tt (retry-Safe J keys processing id payload e score d parsed live s)) s

  pub lrem_one-Safe :
      (processing id : String) (d : R.Db)
      → hget d keys.jobs id ≡ none
      → Safe J keys d
      → Keeps (lrem_one processing id d)
  unfolding lrem_one
  lrem_one-Safe processing id d gone s =
      Keeps-checked _ (Keeps-ok tt (drop_claim-Safe J keys processing id d gone s)) s

  -- The last entry of a list goes to the front of another, which may be the same.
  moved-Safe :
      (source target id : String) (d : R.Db)
      → target ≢ keys.dead
      → get_last? (lrange d source) ≡ some id
      → Safe J keys d
      → Safe J keys (R.lpush target id (R.rpop source d))
  moved-Safe source target id d live last =
      rw (R.view-lpush target id (R.rpop source d), R.view-rpop source d)
        (move J keys (R.view d) _ (λ i. refl)
          (λ i h. elim (Bool-cases (str_eq id i)) [
            | inl same ↦
                subst (Located keys _) ((eq_iff id i).0 same)
                  (in_list target live (rw (eq_refl target) (elem-cons_self id _)))
            | inr ne ↦
                Located-lpush keys _ target id i
                  (Located-rpop keys (R.view d) source id i last ne h)
          ]))

  lmove_found-Safe :
      (source target : String) (d : R.Db) (last : Option String)
      → target ≢ keys.dead
      → get_last? (lrange d source) ≡ last
      → Safe J keys d
      → Keeps (lmove_found target source last d)
  lmove_found-Safe source target d none live e s = Keeps-ok none s
  lmove_found-Safe source target d (some id) live e s =
      Keeps-checked _ (Keeps-ok (some id) (moved-Safe source target id d live e s)) s

  pub lmove-Safe :
      (source target : String) (d : R.Db)
      → target ≢ keys.dead
      → Safe J keys d
      → Keeps (lmove source target d)
  unfolding lmove
  lmove-Safe source target d live s =
      Keeps-checked _ (lmove_found-Safe source target d _ live refl s) s

  same-none : (p : Option String) → same_payload p none ≡ true → p ≡ none
  same-none none h = refl
  same-none (some p) h = cc

  -- An argument that stands for no payload matches none that is stored.
  absent_payload :
      (p payload : String)
      → payload ≡ ""
      → same_payload (some p) (expected_payload payload) ≡ true
      → ⊥
  absent_payload p payload absent same = cc (rw ((eq_iff payload "").1 absent) at same)

  promoted-Safe :
      (scheduled queue id payload : String) (stored : Option String) (d : R.Db)
      → (payload ≡ "") ⊎ (queue ≢ keys.dead)
      → hget d keys.jobs id ≡ stored
      → same_payload stored (expected_payload payload) ≡ true
      → Safe J keys d
      → Keeps (promote scheduled queue id stored d)
  promoted-Safe scheduled queue id payload none d live e same s =
      Keeps-ok 0 (drop_member-Safe J keys scheduled id d e s)
  promoted-Safe scheduled queue id payload (some p) d (inr live) e same s =
      Keeps-ok 1 (promote-Safe J keys scheduled queue id d live s)
  promoted-Safe scheduled queue id payload (some p) d (inl absent) e same s =
      absurd (absent_payload p payload absent same)

  pub promote_scheduled-Safe :
      (scheduled queue id payload : String) (score : ℕ) (d : R.Db)
      → (payload ≡ "") ⊎ (queue ≢ keys.dead)
      → Safe J keys d
      → Keeps (promote_scheduled keys.jobs scheduled queue id payload score d)
  unfolding promote_scheduled
  promote_scheduled-Safe scheduled queue id payload score d live s =
      Keeps-checked _
        (Keeps-if_current
          (λ same. promoted-Safe scheduled queue id payload _ d live refl (and_right _ _ same) s) s)
        s

  requeued-Safe :
      (processing queue id payload : String) (again : Bool) (stored : Option String) (d : R.Db)
      → (payload ≡ "") ⊎ (queue ≢ keys.dead)
      → hget d keys.jobs id ≡ stored
      → elem id (lrange d processing) ≡ true
      → same_payload stored (expected_payload payload) ≡ true
      → Safe J keys d
      → Safe J keys (R.lrem_first processing id (requeue keys.jobs queue id again stored d))
  requeued-Safe processing queue id payload again none d live e claimed same s =
      drop_claim-Safe J keys processing id d e s
  requeued-Safe processing queue id payload false (some p) d live e claimed same s =
      release-Safe J keys processing id d s
  requeued-Safe processing queue id payload true (some p) d (inr live) e claimed same s =
      requeue-Safe J keys processing queue id d live claimed s
  requeued-Safe processing queue id payload true (some p) d (inl absent) e claimed same s =
      absurd (absent_payload p payload absent same)

  pub resurrect_claim-Safe :
      (processing queue id payload : String) (again : Bool) (d : R.Db)
      → (payload ≡ "") ⊎ (queue ≢ keys.dead)
      → Safe J keys d
      → Keeps (resurrect_claim keys.jobs processing queue id payload again d)
  unfolding resurrect_claim
  resurrect_claim-Safe processing queue id payload again d live s =
      Keeps-checked _
        (Keeps-if_current
          (λ both. Keeps-ok 1 (
            requeued-Safe processing queue id payload again _ d live refl (and_left _ _ both)
              (and_right _ _ both) s))
          s)
        s
