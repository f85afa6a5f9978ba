-- ===== src/Safety/Places.antt =====
-- How each command changes the places of an identifier.
use mathlib.Core.List.{drop_last, get_last?}
use oxana.Base.{
  ℕ, String, Bool, true, false, Option, none, some, List, [], ◌∷◌, ◌≡◌, ◌≢◌, inl, inr, refl, sym,
  ◌∙◌, arith, str_eq, ◌&&◌, eq_iff, eq_refl, Bool-cases, ◌||◌,
}
use oxana.Base.Lists.{elem, remove_first, remove_all, elem-remove_first_ne, elem-remove_all}
use oxana.Redis.{View, set_field, set_list, set_score}
use oxana.Keys.{StorageKeys}
use oxana.Safety.{Located, in_list, scheduled, retried}

pub or_true : (b : Bool) → (b || true) ≡ true
or_true true = refl
or_true false = refl

or_mono : (a b c : Bool) → (b ≡ true → c ≡ true) → (a || b) ≡ true → (a || c) ≡ true
or_mono true b c f h = refl
or_mono false b c f h = f h

-- The entries of a list reach from the last one back.
elem-drop_last :
    (i j : String) (xs : List String)
    → get_last? xs ≡ some j
    → str_eq j i ≡ false
    → elem i xs ≡ true
    → elem i (drop_last xs) ≡ true
unfolding elem
elem-drop_last i j [] e ne h = ground arith
elem-drop_last i j (x ∷ []) e ne h = ground arith
elem-drop_last i j (x ∷ y ∷ xs) e ne h =
    or_mono (str_eq x i) (elem i (y ∷ xs)) (elem i (drop_last (y ∷ xs)))
      (elem-drop_last i j (y ∷ xs) e ne) h

module _ (keys : StorageKeys) (w : View) where
  Located-set_list :
      (k : String) (xs : List String) (i : String)
      → (elem i (w.lists k) ≡ true → elem i xs ≡ true)
      → Located keys w i
      → Located keys (set_list k xs w) i
  Located-set_list k xs i keep (in_list k' live h) =
      in_list k' live (ground (arith, eq_iff k k', keep))
  Located-set_list k xs i keep (scheduled s h) = scheduled s h
  Located-set_list k xs i keep (retried s h) = retried s h

  -- HSET and HDEL write no place.
  pub Located-set_field :
      (k f : String) (v : Option String) (i : String)
      → Located keys w i
      → Located keys (set_field k f v w) i
  Located-set_field k f v i (in_list k' live h) = in_list k' live h
  Located-set_field k f v i (scheduled t h) = scheduled t h
  Located-set_field k f v i (retried t h) = retried t h

  -- LPUSH adds a place and takes none away.
  pub Located-lpush :
      (k j i : String) → Located keys w i → Located keys (set_list k (j ∷ w.lists k) w) i
  unfolding elem
  Located-lpush k j i = Located-set_list k (j ∷ w.lists k) i (λ h. rw h (or_true (str_eq j i)))

  pub Located-lpush_self :
      (k i : String) → k ≢ keys.dead → Located keys (set_list k (i ∷ w.lists k) w) i
  unfolding elem
  Located-lpush_self k i live = in_list k live (rw (eq_refl k) (rw (eq_refl i)))

  -- LREM takes places of its own value only.
  pub Located-lrem_first :
      (k j i : String)
      → str_eq j i ≡ false
      → Located keys w i
      → Located keys (set_list k (remove_first j (w.lists k)) w) i
  Located-lrem_first k j i ne =
      Located-set_list k _ i (λ h. elem-remove_first_ne j i (w.lists k) ne ∙ h)

  pub Located-lrem_all :
      (k j i : String)
      → str_eq j i ≡ false
      → Located keys w i
      → Located keys (set_list k (remove_all j (w.lists k)) w) i
  Located-lrem_all k j i ne =
      Located-set_list k _ i (λ h. rw (elem-remove_all j i (w.lists k), ne) h)

  -- RPOP takes a place of the last entry only.
  pub Located-rpop :
      (k j i : String)
      → get_last? (w.lists k) ≡ some j
      → str_eq j i ≡ false
      → Located keys w i
      → Located keys (set_list k (drop_last (w.lists k)) w) i
  Located-rpop k j i last ne = Located-set_list k _ i (elem-drop_last i j (w.lists k) last ne)

  -- What is done to the list of dead jobs takes no place.
  pub Located-set_dead :
      (xs : List String) (i : String) → Located keys w i → Located keys (set_list keys.dead xs w) i
  Located-set_dead xs i (in_list k' live h) =
      in_list k' live (ground (arith, eq_iff keys.dead k', λ (e : keys.dead ≡ k'). live (sym e)))
  Located-set_dead xs i (scheduled t h) = scheduled t h
  Located-set_dead xs i (retried t h) = retried t h

  score_kept :
      (k j : String) (s : ℕ) (k' i : String) (t : ℕ)
      → w.zsets k' i ≡ some t
      → (t' : ℕ) × ((set_score k j (some s) w).zsets k' i ≡ some t')
  score_kept k j s k' i t h = elim (Bool-cases (str_eq k k' && str_eq j i)) [
    | inl e ↦ (s, rw e)
    | inr e ↦ (t, rw e h)
  ]

  -- ZADD adds a place and takes none away.
  pub Located-zadd :
      (k j : String) (s : ℕ) (i : String)
      → Located keys w i
      → Located keys (set_score k j (some s) w) i
  Located-zadd k j s i (in_list k' live h) = in_list k' live h
  Located-zadd k j s i (scheduled t h) =
      let (t', e) = score_kept k j s keys.schedule i t h in scheduled t' e
  Located-zadd k j s i (retried t h) =
      let (t', e) = score_kept k j s keys.retry i t h in retried t' e

  pub Located-zadd_retry : (s : ℕ) (i : String) → Located keys (set_score keys.retry i (some s) w) i
  Located-zadd_retry s i = retried s (rw (eq_refl keys.retry) (rw (eq_refl i)))

  -- ZREM takes a place of its own member only.
  pub Located-zrem :
      (k j i : String)
      → str_eq j i ≡ false
      → Located keys w i
      → Located keys (set_score k j none w) i
  Located-zrem k j i ne (in_list k' live h) = in_list k' live h
  Located-zrem k j i ne (scheduled t h) = scheduled t (ground arith)
  Located-zrem k j i ne (retried t h) = retried t (ground arith)
