-- ===== src/Storage/Deletion.antt =====
-- `delete_job` of oxana/src/storage_internal.rs. `json_queue` is the part of serde_json that finds
-- the text of the field `queue` in a payload, if the payload is JSON and has one.
use Prim.Native.String.{◌++◌ as str_append}
use mathlib.Core.Path.{subst}
use oxana.Base.{
  String, Bool, true, false, Option, none, some, List, [], ◌∷◌, ◌≡◌, refl, sym, ◌∙◌, ap, map,
  eq_refl, str_eq, if◌then◌else◌, arith,
}
use oxana.Base.Lists.{elem, remove_all, elem-remove_all}
use oxana.Errors.{Result, ok, err}
use oxana.Keys.{namespace_queue}
use oxana.Redis.{Redis, set_score, hash, list, zset}
use oxana.Exec.{Exec, Command, round_trip, alone, first_error, pure, ◌>>=◌, ◌>>◌}
use oxana.Scripts.{hget, lrange, zscore, checked}
use oxana.Storage.{StorageInternal, connection, current_processing_queue, read_payload}

module _ {Db : Type 0} where
  abbrev both : Result (Unit {0}) × Db → Result (Unit {0}) × Db → Result (Unit {0}) × Db
  both (r, d) (rs, d') = (first_error r rs, d')

  -- MULTI and EXEC: an error reply does not stop the commands behind it.
  unfoldable pub transaction : List (Command Db (Unit {0})) → Command Db (Unit {0})
  transaction [] d = (ok tt, d)
  transaction (c ∷ cs) d = both (c d) (transaction cs (c d).1)

module _ ⦃R : Redis⦄ where
  abbrev pub hdel_command : String → String → Command R.Db (Unit {0})
  hdel_command key id d = checked (R.fits d key hash) (ok tt, R.hdel key id d) d

  abbrev pub zrem_command : String → String → Command R.Db (Unit {0})
  zrem_command key id d = checked (R.fits d key zset) (ok tt, R.zrem key id d) d

  abbrev pub lrem_command : String → String → Command R.Db (Unit {0})
  lrem_command id key d = checked (R.fits d key list) (ok tt, R.lrem_all key id d) d

  abbrev pub deletion : StorageInternal → String → List String → List (Command R.Db (Unit {0}))
  deletion s id keys =
      hdel_command s.keys.jobs id
      ∷ zrem_command s.keys.schedule id
      ∷ zrem_command s.keys.retry id
      ∷ lrem_command id (current_processing_queue s)
      ∷ map (lrem_command id) keys

  module _ (json_queue : String → Option String) (s : StorageInternal) where
    abbrev scan_command : Command R.Db (List String)
    scan_command d = (ok (R.scan d (str_append s.keys.queue_prefix ":")), d)

    -- The queue that the payload names, or every queue if it names none.
    unfoldable pub queue_keys : Option String → Exec R.Db (List String)
    queue_keys none = pure []
    queue_keys (some payload) = elim (json_queue payload) [
      | some queue ↦ pure (namespace_queue s.keys queue ∷ [])
      | none ↦ round_trip scan_command
    ]

    unfoldable pub delete_job : String → Exec R.Db (Unit {0})
    delete_job id = do
      connection
      payload ← round_trip (read_payload s.keys.jobs id)
      keys ← queue_keys payload
      round_trip (transaction (deletion s id keys))

  -- What a list of commands that all succeed leaves.
  accepted :
      (fits : Bool) (done d : R.Db)
      → (checked fits (ok tt, done) d).0 ≡ ok tt
      → (checked fits (ok tt, done) d).1 ≡ done
  unfolding checked
  accepted true done d e = refl
  accepted false done d e = cc

  first_ok : (r rs : Result (Unit {0})) → first_error r rs ≡ ok tt → (r ≡ ok tt) × (rs ≡ ok tt)
  first_ok (ok tt) rs e = (refl, e)
  first_ok (err x) rs e = (e, cc)

  step :
      (c : Command R.Db (Unit {0})) (cs : List (Command R.Db (Unit {0}))) (done d : R.Db)
      → ((c d).0 ≡ ok tt → (c d).1 ≡ done)
      → (transaction (c ∷ cs) d).0 ≡ ok tt
      → ((transaction cs done).0 ≡ ok tt) × ((transaction (c ∷ cs) d).1 ≡ (transaction cs done).1)
  unfolding transaction
  step c cs done d h e =
      let oks = first_ok (c d).0 (transaction cs (c d).1).0 e in
      let same = h oks.0 in
      (sym (ap (λ x. (transaction cs x).0) same) ∙ oks.1, ap (λ x. (transaction cs x).1) same)

  abbrev lrem_each : String → List String → R.Db → R.Db
  lrem_each id [] d = d
  lrem_each id (k ∷ ks) d = lrem_each id ks (R.lrem_all k id d)

  lrems :
      (id : String) (ks : List String) (d : R.Db)
      → (transaction (map (lrem_command id) ks) d).0 ≡ ok tt
      → (transaction (map (lrem_command id) ks) d).1 ≡ lrem_each id ks d
  unfolding transaction
  lrems id [] d e = refl
  lrems id (k ∷ ks) d e =
      let h =
        step (lrem_command id k) (map (lrem_command id) ks) (R.lrem_all k id d) d
          (accepted (R.fits d k list) (R.lrem_all k id d) d) e in
      h.1 ∙ lrems id ks (R.lrem_all k id d) h.0

  hashes-lrem_each :
      (id : String) (ks : List String) (d : R.Db)
      → (R.view (lrem_each id ks d)).hashes ≡ (R.view d).hashes
  hashes-lrem_each id [] d = refl
  hashes-lrem_each id (k ∷ ks) d =
      hashes-lrem_each id ks (R.lrem_all k id d) ∙ ap (λ w. w.hashes) (R.view-lrem_all k id d)

  zsets-lrem_each :
      (id : String) (ks : List String) (d : R.Db)
      → (R.view (lrem_each id ks d)).zsets ≡ (R.view d).zsets
  zsets-lrem_each id [] d = refl
  zsets-lrem_each id (k ∷ ks) d =
      zsets-lrem_each id ks (R.lrem_all k id d) ∙ ap (λ w. w.zsets) (R.view-lrem_all k id d)

  -- Once the entry is gone from a list, it stays so.
  one_gone :
      (id k i : String) (d : R.Db)
      → elem id (lrange (R.lrem_all k id d) i)
        ≡ (if str_eq k i then false else elem id (lrange d i))
  one_gone id k i d =
      ap (λ w. elem id (w.lists i)) (R.view-lrem_all k id d)
      ∙ within (remove_all id (lrange d k)) (lrange d i) (str_eq k i)
          (elem-remove_all id id (lrange d k) ∙ rw (eq_refl id) refl)
    where
      within :
          (xs ys : List String) (b : Bool)
          → elem id xs ≡ false
          → elem id (if b then xs else ys) ≡ (if b then false else elem id ys)
      within xs ys true e = e
      within xs ys false e = refl

  stays :
      (id i : String) (ks : List String) (d : R.Db)
      → elem id (lrange d i) ≡ false
      → elem id (lrange (lrem_each id ks d) i) ≡ false
  stays id i [] d e = e
  stays id i (k ∷ ks) d e =
      stays id i ks (R.lrem_all k id d) (one_gone id k i d ∙ ground (arith, e))

  gone : (id k : String) (d : R.Db) → elem id (lrange (R.lrem_all k id d) k) ≡ false
  gone id k d = one_gone id k k d ∙ rw (eq_refl k) refl

  -- The job is gone from the payloads, the sorted sets, the claims of this process and one queue, and no
  -- other payload changes.
  pub record Deleted (s : StorageInternal) (id queue : String) (d d' : R.Db) : Type 0 where
    pub payload : hget d' s.keys.jobs id ≡ none
    pub not_scheduled : zscore d' s.keys.schedule id ≡ none
    pub not_retried : zscore d' s.keys.retry id ≡ none
    pub not_claimed : elem id (lrange d' (current_processing_queue s)) ≡ false
    pub not_queued : elem id (lrange d' (namespace_queue s.keys queue)) ≡ false
    pub others : (i : String) → str_eq id i ≡ false → hget d' s.keys.jobs i ≡ hget d s.keys.jobs i

  abbrev unplaced : StorageInternal → String → R.Db → R.Db
  unplaced s id d = R.zrem s.keys.retry id (R.zrem s.keys.schedule id (R.hdel s.keys.jobs id d))

  deletion_lem :
      (s : StorageInternal) (id : String) (ks : List String) (d : R.Db)
      → (transaction (deletion s id ks) d).0 ≡ ok tt
      → (transaction (deletion s id ks) d).1
        ≡ lrem_each id (current_processing_queue s ∷ ks) (unplaced s id d)
  deletion_lem s id ks d e =
      let d1 = R.hdel s.keys.jobs id d in
      let d2 = R.zrem s.keys.schedule id d1 in
      let h1 = step (hdel_command s.keys.jobs id) _ d1 d (accepted _ _ d) e in
      let h2 = step (zrem_command s.keys.schedule id) _ d2 d1 (accepted _ _ d1) h1.0 in
      let h3 = step (zrem_command s.keys.retry id) _ (unplaced s id d) d2 (accepted _ _ d2) h2.0 in
      h1.1 ∙ h2.1 ∙ h3.1 ∙ lrems id (current_processing_queue s ∷ ks) (unplaced s id d) h3.0

  deletion-Deleted :
      (s : StorageInternal) (id queue : String) (d : R.Db)
      → let d' =
          lrem_each id
            (current_processing_queue s ∷ namespace_queue s.keys queue ∷ [])
            (unplaced s id d) in
        Deleted s id queue d d'
  deletion-Deleted s id queue d =
      let claims = current_processing_queue s in
      let key = namespace_queue s.keys queue in
      let d0 = R.hdel s.keys.jobs id d in
      let d1 = R.zrem s.keys.schedule id d0 in
      let d2 = unplaced s id d in
      let ks = claims ∷ key ∷ [] in
      let hashes =
        hashes-lrem_each id ks d2
        ∙ ap (λ w. w.hashes) (R.view-zrem s.keys.retry id d1)
        ∙ ap (λ w. w.hashes) (R.view-zrem s.keys.schedule id d0)
        ∙ ap (λ w. w.hashes) (R.view-hdel s.keys.jobs id d) in
      let zsets =
        zsets-lrem_each id ks d2
        ∙ ap (λ w. w.zsets) (R.view-zrem s.keys.retry id d1)
        ∙ ap (λ z. (set_score s.keys.retry id none z).zsets) (R.view-zrem s.keys.schedule id d0) in
      record {
        payload = ap (λ h. h s.keys.jobs id) hashes ∙ rw (eq_refl s.keys.jobs, eq_refl id) refl;
        not_scheduled =
            ap (λ z. z s.keys.schedule id) zsets
            ∙ rw (eq_refl s.keys.schedule, eq_refl id) (ground arith);
        not_retried =
            ap (λ z. z s.keys.retry id) zsets ∙ rw (eq_refl s.keys.retry, eq_refl id) refl;
        not_claimed = stays id claims (key ∷ []) (R.lrem_all claims id d2) (gone id claims d2);
        not_queued = gone id key (R.lrem_all claims id d2);
        others = λ i ne. ap (λ h. h s.keys.jobs i) hashes ∙ rw (eq_refl s.keys.jobs, ne) refl;
      }

  named_keys :
      (json_queue : String → Option String) (s : StorageInternal) (payload queue : String)
      → json_queue payload ≡ some queue
      → queue_keys json_queue s (some payload) ≡ pure (namespace_queue s.keys queue ∷ [])
  unfolding queue_keys
  named_keys json_queue s payload queue named = rw (queue_keys, named) refl

  pub delete_job-alone :
      (json_queue : String → Option String) (s : StorageInternal) (id payload queue : String)
      (d : R.Db)
      → R.fits d s.keys.jobs hash ≡ true
      → hget d s.keys.jobs id ≡ some payload
      → json_queue payload ≡ some queue
      → alone (delete_job json_queue s id) d
        ≡ transaction (deletion s id (namespace_queue s.keys queue ∷ [])) d
  unfolding alone delete_job connection ◌>>=◌ round_trip pure checked
  delete_job-alone json_queue s id payload queue d fits stored named =
      rw (fits, stored, named_keys json_queue s payload queue named) refl

  -- Alone, for a stored job whose payload names a queue, a `delete_job` that no key of another kind
  -- stops leaves no payload, schedule, retry or entry of its queue for the job, nor a claim of it in the
  -- list of the process that deletes it, and every other payload as it was. Claims of other
  -- processes are not touched on.
  pub delete_job-Deleted :
      (json_queue : String → Option String) (s : StorageInternal) (id payload queue : String)
      (d : R.Db)
      → R.fits d s.keys.jobs hash ≡ true
      → hget d s.keys.jobs id ≡ some payload
      → json_queue payload ≡ some queue
      → (alone (delete_job json_queue s id) d).0 ≡ ok tt
      → Deleted s id queue d (alone (delete_job json_queue s id) d).1
  delete_job-Deleted json_queue s id payload queue d fits stored named e =
      let run = delete_job-alone json_queue s id payload queue d fits stored named in
      subst (Deleted s id queue d)
        (sym (
          ap (λ r. r.1) run
          ∙ deletion_lem s id (namespace_queue s.keys queue ∷ []) d (sym (ap (λ r. r.0) run) ∙ e)))
        (deletion-Deleted s id queue d)
