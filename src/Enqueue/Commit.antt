-- ===== src/Enqueue/Commit.antt =====
-- The writes of oxana/src/enqueue.lua, and the places of other jobs.
use oxana.Base.{
  String, Bool, true, false, Option, none, some, List, [], ◌∷◌, ◌≡◌, ◌≢◌, refl, ◌∙◌, ap, str_eq,
  eq_refl, if◌then◌else◌,
}
use oxana.Base.Lists.{elem-cons_self}
use oxana.Redis.{Redis, View, set_field}
use oxana.Envelope.{JobEnvelope}
use oxana.Json.{Json}
use oxana.Keys.{StorageKeys, namespace_queue}
use oxana.Safety.{Located, in_list, scheduled, IsSafe}
use oxana.Safety.Places.{
  Located-lrem_all, Located-zrem, Located-lpush, Located-zadd, Located-set_field,
}
use oxana.Safety.Moves.{store}
use oxana.Safety.Scripts.{Safe}
use oxana.Enqueue.{JobDestination, queue, schedule, Input}
use oxana.Enqueue.Script.{Write, clear_places, remove_old, is_key, place, write_one, commit}

module _ ⦃R : Redis⦄ {V : Type 0} (J : Json V) (keys : StorageKeys) where
  -- No payload changes, and every other identifier keeps its places.
  record Spares (id : String) (w w' : View) : Type 0 where
    same : (k f : String) → w'.hashes k f ≡ w.hashes k f
    others : (i : String) → str_eq id i ≡ false → Located keys w i → Located keys w' i

  Spares-refl : (id : String) (w : View) → Spares id w w
  Spares-refl id w = record { same = λ k f. refl; others = λ i ne h. h }

  Spares-trans :
      {id : String} {w w' w'' : View} → Spares id w w' → Spares id w' w'' → Spares id w w''
  Spares-trans p q = record {
    same = λ k f. q.same k f ∙ p.same k f;
    others = λ i ne h. q.others i ne (p.others i ne h);
  }

  Spares-lrem_all : (k id : String) (d : R.Db) → Spares id (R.view d) (R.view (R.lrem_all k id d))
  Spares-lrem_all k id d = rw (R.view-lrem_all k id d) (record {
    same = λ _ f. refl;
    others = λ i ne h. Located-lrem_all keys (R.view d) k id i ne h;
  })

  Spares-zrem : (k id : String) (d : R.Db) → Spares id (R.view d) (R.view (R.zrem k id d))
  Spares-zrem k id d =
      rw (R.view-zrem k id d)
        (record { same = λ _ f. refl; others = λ i ne h. Located-zrem keys (R.view d) k id i ne h })

  Spares-remove_old :
      (old : Option String) (id : String) (d : R.Db)
      → Spares id (R.view d) (R.view (remove_old old id d))
  Spares-remove_old none id d = Spares-refl id (R.view d)
  Spares-remove_old (some old) id d = Spares-lrem_all old id d

  Spares-if :
      (b : Bool) (id k : String) (w : View) (d : R.Db)
      → Spares id w (R.view d)
      → Spares id w (R.view (if b then d else R.lrem_all k id d))
  Spares-if true id k w d h = h
  Spares-if false id k w d h = Spares-trans h (Spares-lrem_all k id d)

  Spares-clear_places :
      (replacing : Option (Option String)) (i : Input) (d : R.Db)
      → Spares i.id (R.view d) (R.view (clear_places keys.schedule keys.retry replacing i d))
  unfolding clear_places
  Spares-clear_places none i d = Spares-refl i.id (R.view d)
  Spares-clear_places (some old) i d =
      Spares-if (is_key old i.queue_key) i.id i.queue_key (R.view d) _ (
        Spares-trans (Spares-zrem keys.schedule i.id d)
          (Spares-trans (Spares-zrem keys.retry i.id _) (Spares-remove_old old i.id _)))

  -- What is written is an envelope whose queue, as the queue that is pushed to, is no list of dead jobs.
  abbrev pub Valid : Input → Type 0
  Valid i =
      (e : JobEnvelope V) × (J.from_str i.payload ≡ some e)
      × (namespace_queue keys e.queue ≢ keys.dead)
      × (i.queue_key ≢ keys.dead)

  hset-hash :
      (id payload : String) (w : View) (i : String)
      → (set_field keys.jobs id (some payload) w).hashes keys.jobs i
        ≡ (if str_eq id i then some payload else w.hashes keys.jobs i)
  hset-hash id payload w i = rw (eq_refl keys.jobs)

  -- A payload is stored and its identifier placed, after some of its places were cleared.
  placed-Safe :
      (destination : JobDestination) (i : Input) (w : View) (d : R.Db)
      → Valid i
      → Spares i.id w (R.view d)
      → IsSafe J keys w
      → Safe J keys (place keys.schedule destination i (R.hset keys.jobs i.id i.payload d))
  placed-Safe queue i w d (e, parsed, live, target) spares =
      rw
        (
          R.view-lpush i.queue_key i.id (R.hset keys.jobs i.id i.payload d),
          R.view-hset keys.jobs i.id i.payload d,
        )
        (store J keys w _ i.id i.payload e parsed live
          (λ j.
            hset-hash i.id i.payload (R.view d) j
            ∙ ap (λ x. if str_eq i.id j then some i.payload else x) (spares.same keys.jobs j))
          (λ j ne h.
            Located-lpush keys _ i.queue_key i.id j
              (Located-set_field keys _ keys.jobs i.id (some i.payload) j (spares.others j ne h)))
          (in_list i.queue_key target (rw (eq_refl i.queue_key) (elem-cons_self i.id _))))
  placed-Safe schedule i w d (e, parsed, live, target) spares =
      rw
        (
          R.view-zadd keys.schedule i.score i.id (R.hset keys.jobs i.id i.payload d),
          R.view-hset keys.jobs i.id i.payload d,
        )
        (store J keys w _ i.id i.payload e parsed live
          (λ j.
            hset-hash i.id i.payload (R.view d) j
            ∙ ap (λ x. if str_eq i.id j then some i.payload else x) (spares.same keys.jobs j))
          (λ j ne h.
            Located-zadd keys _ keys.schedule i.id i.score j
              (Located-set_field keys _ keys.jobs i.id (some i.payload) j (spares.others j ne h)))
          (scheduled i.score (rw (eq_refl keys.schedule) (rw (eq_refl i.id)))))

  abbrev pub AllValid : List Write → Type 0
  AllValid [] = Unit {0}
  AllValid (w ∷ ws) = Valid w.input × AllValid ws

  pub commit-Safe :
      (destination : JobDestination) (ws : List Write) (d : R.Db)
      → AllValid ws
      → Safe J keys d
      → Safe J keys (commit keys.jobs keys.schedule keys.retry destination ws d)
  unfolding commit write_one
  commit-Safe destination [] d valid s = s
  commit-Safe destination (w ∷ ws) d valid s = commit-Safe destination ws _ valid.1 (
      placed-Safe destination w.input (R.view d) _ valid.0
        (Spares-clear_places w.replacing w.input d) s)
