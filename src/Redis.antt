-- ===== src/Redis.antt =====
-- The Redis server, which the repository calls and does not contain: an interface of the commands
-- that oxana/src/storage_internal.rs and the scripts beside it send. The laws state the documented
-- effect of each command on what the keyspace holds, at a key of the right kind; the callers test
-- the kind first. Scores are whole numbers, since the program only writes times in microseconds.
pub mod Memory
use mathlib.Core.List.{drop_last}
use oxana.Base.{
  ℕ, ◌≤◌, String, Bool, true, false, Option, none, some, List, [], ◌∷◌, ◌≡◌, ◌&&◌, str_eq, ◌++◌,
  if◌then◌else◌,
}
use oxana.Base.Lists.{remove_first, remove_all, take}

pub data Kind : Type 0 where
  hash list zset : Kind

-- What the keyspace holds. A list starts at its left end.
pub record View : Type 0 where
  pub hashes : String → String → Option String
  pub lists : String → List String
  pub zsets : String → String → Option ℕ

abbrev pub set_field : String → String → Option String → View → View
set_field k f v w =
    let old = w.hashes in
    record w { hashes = λ k' f'. if str_eq k k' && str_eq f f' then v else old k' f' }

abbrev pub set_list : String → List String → View → View
set_list k xs w = let old = w.lists in record w { lists = λ k'. if str_eq k k' then xs else old k' }

abbrev pub set_score : String → String → Option ℕ → View → View
set_score k i s w =
    let old = w.zsets in
    record w { zsets = λ k' i'. if str_eq k k' && str_eq i i' then s else old k' i' }

-- Nothing is left under a key.
abbrev pub drop_key : String → View → View
drop_key k w =
    let hashes = w.hashes in
    let lists = w.lists in
    let zsets = w.zsets in
    record {
      hashes = λ k' f. if str_eq k k' then none else hashes k' f;
      lists = λ k'. if str_eq k k' then [] else lists k';
      zsets = λ k' i. if str_eq k k' then none else zsets k' i;
    }

-- Every member comes with its score, and no score passes the bound.
abbrev pub AllDue : View → String → ℕ → List (String × ℕ) → Type 0
AllDue w k max [] = Unit {0}
AllDue w k max ((i, s) ∷ rest) = (w.zsets k i ≡ some s) × (s ≤ max) × AllDue w k max rest

pub record Redis : Type 1 where
  pub Db : Type 0
  pub view : Db → View
  -- TYPE key: the key is absent or of this kind
  pub fits : Db → String → Kind → Bool
  -- ZRANGEBYSCORE key 0 max WITHSCORES
  pub zrangebyscore : Db → String → ℕ → List (String × ℕ)
  -- ZRANGE key 0 -1 WITHSCORES
  pub zrange : Db → String → List (String × ℕ)
  -- SCAN MATCH prefix*
  pub scan : Db → String → List String
  -- HSET key field value, HDEL key field
  pub hset : String → String → String → Db → Db
  pub hdel : String → String → Db → Db
  -- LPUSH key value, RPOP key, LREM key 1 value, LREM key 0 value, LTRIM key 0 (count - 1)
  pub lpush : String → String → Db → Db
  pub rpop : String → Db → Db
  pub lrem_first : String → String → Db → Db
  pub lrem_all : String → String → Db → Db
  pub ltrim : String → ℕ → Db → Db
  -- RPUSH key value value..., DEL key, RENAME of a list
  pub rpush : String → List String → Db → Db
  pub del : String → Db → Db
  pub rename_list : String → String → Db → Db
  -- ZADD key score member, ZREM key member
  pub zadd : String → ℕ → String → Db → Db
  pub zrem : String → String → Db → Db
  pub view-hset : (k f v : String) (d : Db) → view (hset k f v d) ≡ set_field k f (some v) (view d)
  pub view-hdel : (k f : String) (d : Db) → view (hdel k f d) ≡ set_field k f none (view d)
  pub view-lpush :
      (k i : String) (d : Db) → view (lpush k i d) ≡ set_list k (i ∷ (view d).lists k) (view d)
  pub view-rpop :
      (k : String) (d : Db) → view (rpop k d) ≡ set_list k (drop_last ((view d).lists k)) (view d)
  pub view-lrem_first :
      (k i : String) (d : Db)
      → view (lrem_first k i d) ≡ set_list k (remove_first i ((view d).lists k)) (view d)
  pub view-lrem_all :
      (k i : String) (d : Db)
      → view (lrem_all k i d) ≡ set_list k (remove_all i ((view d).lists k)) (view d)
  pub view-ltrim :
      (k : String) (n : ℕ) (d : Db)
      → view (ltrim k n d) ≡ set_list k (take n ((view d).lists k)) (view d)
  pub view-rpush :
      (k : String) (is : List String) (d : Db)
      → view (rpush k is d) ≡ set_list k ((view d).lists k ++ is) (view d)
  pub view-del : (k : String) (d : Db) → view (del k d) ≡ drop_key k (view d)
  pub view-rename_list :
      (k k' : String) (d : Db)
      → view (rename_list k k' d)
        ≡ set_list k' ((view d).lists k) (drop_key k (drop_key k' (view d)))
  pub view-zadd :
      (k : String) (s : ℕ) (i : String) (d : Db)
      → view (zadd k s i d) ≡ set_score k i (some s) (view d)
  pub view-zrem : (k i : String) (d : Db) → view (zrem k i d) ≡ set_score k i none (view d)
  pub zrangebyscore-due :
      (d : Db) (k : String) (max : ℕ) → AllDue (view d) k max (zrangebyscore d k max)
