-- ===== src/Redis/Memory.antt =====
-- A keyspace in memory, which meets the laws of the interface: the tests run on it. It keeps a log
-- of the members that were ever added to a sorted set and of the lists that were ever pushed to,
-- in order to list them.
use mathlib.Core.List.{drop_last}
use oxana.Base.{
  ℕ, String, true, Option, none, some, List, [], ◌∷◌, ◌++◌, refl, starts_with, leb, if◌then◌else◌,
  arith,
}
use oxana.Base.Lists.{remove_first, remove_all, take}
use oxana.Redis.{View, Redis, AllDue, set_field, set_list, set_score, drop_key}

pub record Store : Type 0 where
  pub contents : View
  pub members : List String
  pub keys : List String

abbrev due_member : View → String → ℕ → String → Option ℕ → List (String × ℕ) → List (String × ℕ)
due_member w k max i none rest = rest
due_member w k max i (some s) rest = if leb s max then (i, s) ∷ rest else rest

unfoldable pub due : View → String → ℕ → List String → List (String × ℕ)
due w k max [] = []
due w k max (i ∷ is) = let rest = due w k max is in due_member w k max i (w.zsets k i) rest

pub due-AllDue :
    (w : View) (k : String) (max : ℕ) (is : List String) → AllDue w k max (due w k max is)
unfolding due
due-AllDue w k max [] = tt
due-AllDue w k max (i ∷ is) = ground (arith, due-AllDue w k max is)

abbrev ranked_member : String → Option ℕ → List (String × ℕ) → List (String × ℕ)
ranked_member i none rest = rest
ranked_member i (some s) rest = (i, s) ∷ rest

unfoldable pub ranked : View → String → List String → List (String × ℕ)
ranked w k [] = []
ranked w k (i ∷ is) = let rest = ranked w k is in ranked_member i (w.zsets k i) rest

unfoldable pub matching : String → List String → List String
matching prefix [] = []
matching prefix (k ∷ ks) =
    let rest = matching prefix ks in if starts_with k prefix then k ∷ rest else rest

abbrev pub on_view : (View → View) → Store → Store
on_view f d = let old = d.contents in record d { contents = f old }

-- An in-memory server, where no key has a wrong kind.
abbrev pub memory : Redis
memory = record {
  Db = Store;
  view = λ d. d.contents;
  fits = λ d k t. true;
  zrangebyscore = λ d k max. due d.contents k max d.members;
  zrange = λ d k. ranked d.contents k d.members;
  scan = λ d prefix. matching prefix d.keys;
  hset = λ k f v. on_view (set_field k f (some v));
  hdel = λ k f. on_view (set_field k f none);
  lpush = λ k i d. record d {
    contents = set_list k (i ∷ d.contents.lists k) d.contents;
    keys = k ∷ d.keys;
  };
  rpop = λ k d. on_view (set_list k (drop_last (d.contents.lists k))) d;
  lrem_first = λ k i d. on_view (set_list k (remove_first i (d.contents.lists k))) d;
  lrem_all = λ k i d. on_view (set_list k (remove_all i (d.contents.lists k))) d;
  ltrim = λ k n d. on_view (set_list k (take n (d.contents.lists k))) d;
  rpush = λ k is d. record d {
    contents = set_list k (d.contents.lists k ++ is) d.contents;
    keys = k ∷ d.keys;
  };
  del = λ k. on_view (drop_key k);
  rename_list = λ k k' d. record d {
    contents = set_list k' (d.contents.lists k) (drop_key k (drop_key k' d.contents));
    keys = k' ∷ d.keys;
  };
  zadd =
      λ k s i d. record d { contents = set_score k i (some s) d.contents; members = i ∷ d.members };
  zrem = λ k i. on_view (set_score k i none);
  view-hset = λ k f v d. refl;
  view-hdel = λ k f d. refl;
  view-lpush = λ k i d. refl;
  view-rpop = λ k d. refl;
  view-lrem_first = λ k i d. refl;
  view-lrem_all = λ k i d. refl;
  view-ltrim = λ k n d. refl;
  view-rpush = λ k is d. refl;
  view-del = λ k d. refl;
  view-rename_list = λ k k' d. refl;
  view-zadd = λ k s i d. refl;
  view-zrem = λ k i d. refl;
  zrangebyscore-due = λ d k max. due-AllDue d.contents k max d.members;
}

abbrev pub empty : Store
empty = record {
  contents = record { hashes = λ k f. none; lists = λ k. []; zsets = λ k i. none };
  members = [];
  keys = [];
}
