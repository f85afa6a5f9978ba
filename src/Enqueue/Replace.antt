-- ===== src/Enqueue/Replace.antt =====
-- What oxana/src/enqueue.lua leaves of a job that it replaces.
use mathlib.Core.Path.{subst}
use oxana.Base.{
  String, Bool, true, false, Option, none, some, List, [], ◌∷◌, ◌≡◌, refl, ◌∙◌, ap, arith, eq_refl,
  eq_iff, if◌then◌else◌,
}
use oxana.Base.Lists.{count, remove_all}
use oxana.Redis.{Redis, set_list, set_field}
use oxana.Scripts.{hget, lrange}
use oxana.Enqueue.{queue, Input}
use oxana.Enqueue.Script.{clear_places, remove_old, is_key, write_one}

count-remove_all : (i : String) (xs : List String) → count i (remove_all i xs) ≡ 0
unfolding count remove_all
count-remove_all i [] = refl
count-remove_all i (x ∷ xs) = ground (arith, count-remove_all i xs)

count-cons : (i : String) (xs : List String) → count i xs ≡ 0 → count i (i ∷ xs) ≡ 1
unfolding count
count-cons i xs h = rw (eq_refl i, h)

module _ ⦃R : Redis⦄ (jobs schedule_key retry : String) where
  count-lrem_all : (k i : String) (d : R.Db) → count i (lrange (R.lrem_all k i d) k) ≡ 0
  count-lrem_all k i d =
      ap (λ w. count i (w.lists k)) (R.view-lrem_all k i d)
      ∙ rw (eq_refl k) (count-remove_all i (lrange d k))

  cleared_queue :
      (b : Bool) (i : Input) (d : R.Db)
      → (b ≡ true → count i.id (lrange d i.queue_key) ≡ 0)
      → count i.id (lrange (if b then d else R.lrem_all i.queue_key i.id d) i.queue_key) ≡ 0
  cleared_queue true i d h = h refl
  cleared_queue false i d h = count-lrem_all i.queue_key i.id d

  old_cleared :
      (old : Option String) (i : Input) (d : R.Db)
      → is_key old i.queue_key ≡ true
      → count i.id (lrange (remove_old old i.id d) i.queue_key) ≡ 0
  old_cleared none i d h = cc
  old_cleared (some old) i d h =
      subst (λ k. count i.id (lrange (R.lrem_all old i.id d) k) ≡ 0) ((eq_iff old i.queue_key).0 h)
        (count-lrem_all old i.id d)

  clear_places_lem :
      (old : Option String) (i : Input) (d : R.Db)
      → count i.id (lrange (clear_places schedule_key retry (some old) i d) i.queue_key) ≡ 0
  unfolding clear_places
  clear_places_lem old i d = cleared_queue (is_key old i.queue_key) i _ (old_cleared old i _)

  pushed :
      (k i payload : String) (d : R.Db)
      → let w = set_field jobs i (some payload) (R.view d) in
        R.view (R.lpush k i (R.hset jobs i payload d)) ≡ set_list k (i ∷ w.lists k) w
  pushed k i payload d =
      R.view-lpush k i (R.hset jobs i payload d)
      ∙ ap (λ w. set_list k (i ∷ w.lists k) w) (R.view-hset jobs i payload d)

  -- A job that replaces one stands exactly once in its queue, with its new payload.
  pub write_one-once :
      (old : Option String) (i : Input) (d : R.Db)
      → let d' =
          write_one jobs schedule_key retry queue (record { input = i; replacing = some old }) d in
        (count i.id (lrange d' i.queue_key) ≡ 1) × (hget d' jobs i.id ≡ some i.payload)
  unfolding write_one
  write_one-once old i d =
      let now =
        pushed i.queue_key i.id i.payload (clear_places schedule_key retry (some old) i d) in
      (
        ap (λ w. count i.id (w.lists i.queue_key)) now
            ∙ rw (eq_refl i.queue_key) (count-cons i.id _ (clear_places_lem old i d)),
        ap (λ w. w.hashes jobs i.id) now ∙ rw (eq_refl jobs) (rw (eq_refl i.id)),
      )
