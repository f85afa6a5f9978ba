-- ===== src/Safety/Scripts.antt =====
-- The scripts beside oxana/src/storage_internal.rs. A queue's key is not the key of the dead jobs,
-- where a script pushes.
use oxana.Base.{
  ℕ, String, true, none, some, List, [], ◌∷◌, ◌≡◌, ◌≢◌, inl, inr, arith, str_eq, eq_iff, eq_refl,
  Bool-cases, sym, refl,
}
use mathlib.Core.Path.{subst}
use oxana.Base.Lists.{elem, remove_first, elem-cons_self, remove_first-cons_self}
use oxana.Redis.{Redis, View, set_list}
use oxana.Envelope.{JobEnvelope}
use oxana.Json.{Json}
use oxana.Keys.{StorageKeys, namespace_queue}
use oxana.Safety.{Located, in_list, retried, IsSafe}
use oxana.Safety.Places.{
  Located-set_field, Located-lpush, Located-lrem_first, Located-set_dead, Located-zadd,
  Located-zrem,
}
use oxana.Safety.Moves.{forget, move, store}
use oxana.Scripts.{release_all}

module _ ⦃R : Redis⦄ {V : Type 0} (J : Json V) (keys : StorageKeys) where
  -- The state of the server is safe.
  abbrev pub Safe : R.Db → Type 0
  Safe d = IsSafe J keys (R.view d)

  -- HDEL of a payload and LREM of one claim.
  pub release-Safe :
      (processing id : String) (d : R.Db)
      → Safe d
      → Safe (R.lrem_first processing id (R.hdel keys.jobs id d))
  release-Safe processing id d =
      forget J keys (R.view d) _ id
        (λ i.
          rw (R.view-lrem_first processing id (R.hdel keys.jobs id d), R.view-hdel keys.jobs id d)
            (rw (eq_refl keys.jobs)))
        (λ i ne h.
          rw (R.view-lrem_first processing id (R.hdel keys.jobs id d), R.view-hdel keys.jobs id d)
            (Located-lrem_first keys _ processing id i ne
              (Located-set_field keys _ keys.jobs id none i h)))

  pub release_all-Safe :
      (processing : String) (ids : List String) (d : R.Db)
      → Safe d
      → Safe (release_all keys.jobs processing ids d)
  unfolding release_all
  release_all-Safe processing [] d s = s
  release_all-Safe processing (id ∷ ids) d s =
      release_all-Safe processing ids _ (release-Safe processing id d s)

  -- What is written to the list of dead jobs.
  set_dead-IsSafe :
      (xs : List String) (w : View) → IsSafe J keys w → IsSafe J keys (set_list keys.dead xs w)
  set_dead-IsSafe xs w = move J keys w _ (λ i. refl) (λ i. Located-set_dead keys w xs i)

  pub lpush_dead-Safe : (payload : String) (d : R.Db) → Safe d → Safe (R.lpush keys.dead payload d)
  lpush_dead-Safe payload d s = rw (R.view-lpush keys.dead payload d) (set_dead-IsSafe _ _ s)

  pub ltrim_dead-Safe : (n : ℕ) (d : R.Db) → Safe d → Safe (R.ltrim keys.dead n d)
  ltrim_dead-Safe n d s = rw (R.view-ltrim keys.dead n d) (set_dead-IsSafe _ _ s)

  -- LREM of a claim whose payload is gone.
  pub drop_claim-Safe :
      (processing id : String) (d : R.Db)
      → (R.view d).hashes keys.jobs id ≡ none
      → Safe d
      → Safe (R.lrem_first processing id d)
  drop_claim-Safe processing id d gone = rw (R.view-lrem_first processing id d) (
      forget J keys (R.view d) _ id (λ i. ground (arith, eq_iff id i, gone))
        (λ i ne h. Located-lrem_first keys _ processing id i ne h))

  -- ZREM of a member whose payload is gone.
  pub drop_member-Safe :
      (zkey id : String) (d : R.Db)
      → (R.view d).hashes keys.jobs id ≡ none
      → Safe d
      → Safe (R.zrem zkey id d)
  drop_member-Safe zkey id d gone = rw (R.view-zrem zkey id d) (
      forget J keys (R.view d) _ id (λ i. ground (arith, eq_iff id i, gone))
        (λ i ne h. Located-zrem keys _ zkey id i ne h))

  -- The requeueing of a claim: the new entry stands in the queue, or the old one still does where
  -- the queue is the processing list itself.
  pub requeue-Safe :
      (processing queue id : String) (d : R.Db)
      → queue ≢ keys.dead
      → elem id ((R.view d).lists processing) ≡ true
      → Safe d
      → Safe (R.lrem_first processing id (R.lpush queue id d))
  requeue-Safe processing queue id d live claimed =
      rw (R.view-lrem_first processing id (R.lpush queue id d), R.view-lpush queue id d)
        (move J keys (R.view d) _ (λ i. refl)
          (λ i h. elim (Bool-cases (str_eq id i)) [
            | inl same ↦ subst (Located keys _) ((eq_iff id i).0 same) (requeued (R.view d) claimed)
            | inr ne ↦
                Located-lrem_first keys _ processing id i ne (Located-lpush keys _ queue id i h)
          ]))
    where
      requeued :
          (w : View)
          → elem id (w.lists processing) ≡ true
          → Located keys
              (set_list processing
                (remove_first id ((set_list queue (id ∷ w.lists queue) w).lists processing))
                (set_list queue (id ∷ w.lists queue) w))
              id
      requeued w h = in_list queue live (elim (Bool-cases (str_eq processing queue)) [
        | inl e ↦
            let same = (eq_iff processing queue).0 e in
            rw e (
              rw ((eq_iff queue processing).1 (sym same))
                (rw (remove_first-cons_self id (w.lists queue)) (rw same at h)))
        | inr ne ↦ rw ne (rw (eq_refl queue) (elem-cons_self id _))
      ])

  -- The promotion of a member to its queue.
  pub promote-Safe :
      (zkey queue id : String) (d : R.Db)
      → queue ≢ keys.dead
      → Safe d
      → Safe (R.zrem zkey id (R.lpush queue id d))
  promote-Safe zkey queue id d live =
      rw (R.view-zrem zkey id (R.lpush queue id d), R.view-lpush queue id d)
        (move J keys (R.view d) _ (λ i. refl)
          (λ i h. elim (Bool-cases (str_eq id i)) [
            | inl same ↦
                subst (Located keys _) ((eq_iff id i).0 same)
                  (in_list queue live (rw (eq_refl queue) (elem-cons_self id _)))
            | inr ne ↦ Located-zrem keys _ zkey id i ne (Located-lpush keys _ queue id i h)
          ]))

  pub retry-Safe :
      (processing id payload : String) (e : JobEnvelope V) (score : ℕ) (d : R.Db)
      → J.from_str payload ≡ some e
      → namespace_queue keys e.queue ≢ keys.dead
      → Safe d
      → Safe
          (R.lrem_first processing id (R.zadd keys.retry score id (R.hset keys.jobs id payload d)))
  retry-Safe processing id payload e score d parsed live =
      rw
        (
          R.view-lrem_first processing id
              (R.zadd keys.retry score id (R.hset keys.jobs id payload d)),
          R.view-zadd keys.retry score id (R.hset keys.jobs id payload d),
          R.view-hset keys.jobs id payload d,
        )
        (store J keys (R.view d) _ id payload e parsed live (λ i. rw (eq_refl keys.jobs))
          (λ i ne h. Located-lrem_first keys _ processing id i ne (
            Located-zadd keys _ keys.retry id score i
              (Located-set_field keys _ keys.jobs id (some payload) i h)))
          (retried score (rw (eq_refl keys.retry) (rw (eq_refl id)))))
