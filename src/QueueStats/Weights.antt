-- ===== src/QueueStats/Weights.antt =====
-- The counts of a queue and of its group, and what an update adds to them.
use oxana.Base.{
  ℕ, ◌+◌, ◌^◌, ◌%◌, Bool, true, false, List, [], ◌∷◌, if◌then◌else◌, ◌≡◌, refl, arith, Bool-cases,
  inl, inr,
}
use oxana.Base.Decimal.{Bytes, bytes_eq, bytes_eq_sound}
use oxana.Collector.{Stats, no_stats}
use oxana.Metrics.{utf8}
use oxana.Metrics.Buffer.{upsert}
use oxana.QueueStats.{
  add_counts, add_stat, QueueStats, add_to_group, no_group, queue_base, Counters,
}

module _ {K M : Type 0} (weight : K → M → ℕ) where
  abbrev pub weigh : List (K × M) → ℕ
  weigh [] = 0
  weigh ((k, m) ∷ rest) = weight k m + weigh rest

  -- An entry that is changed or made weighs so much more.
  pub upsert-weigh :
      (same : K → K → Bool) (k : K) (new : M) (f : M → M) (n : ℕ) (xs : List (K × M))
      → ((a : K) (m : M) → same a k ≡ true → weight a (f m) % 2 ^ 64 ≡ (weight a m + n) % 2 ^ 64)
      → weight k (f new) % 2 ^ 64 ≡ n % 2 ^ 64
      → weigh (upsert same k new f xs) % 2 ^ 64 ≡ (weigh xs + n) % 2 ^ 64
  unfolding upsert
  upsert-weigh same k new f n [] changed made = ground (arith, made)
  upsert-weigh same k new f n ((a, m) ∷ xs) changed made = elim (Bool-cases (same a k)) [
    | inl e ↦ rw e (omega (arith, changed a m e))
    | inr e ↦ rw e (omega (arith, upsert-weigh same k new f n xs changed made))
  ]

pub data Count : Type 0 where
  processed succeeded panicked failed : Count

abbrev pub name_of : Count → Bytes
name_of processed = utf8 "processed"
name_of succeeded = utf8 "succeeded"
name_of panicked = utf8 "panicked"
name_of failed = utf8 "failed"

abbrev pub value_of : Count → Stats → ℕ
value_of processed s = s.processed
value_of succeeded s = s.succeeded
value_of panicked s = s.panicked
value_of failed s = s.failed

abbrev pub in_counters : Count → Bytes → Bytes → Stats → ℕ
in_counters k base queue s = if bytes_eq (queue_base queue) base then value_of k s else 0

abbrev pub in_groups : Count → Bytes → Bytes → QueueStats → ℕ
in_groups k base key g = if bytes_eq key base then value_of k g.counts else 0

pub value-add_stat :
    (k : Count) (stat : Bytes) (n : ℕ) (s : Stats)
    → value_of k (add_stat stat n s) % 2 ^ 64
      ≡ (value_of k s + (if bytes_eq stat (name_of k) then n else 0)) % 2 ^ 64
value-add_stat k stat n s = elim (Bool-cases (bytes_eq stat (name_of k))) [
  | inl e ↦ rw (e, bytes_eq_sound stat (name_of k) e) (known k)
  | inr e ↦ rw e (other k e)
]
  where
    known :
        (k : Count) → value_of k (add_stat (name_of k) n s) % 2 ^ 64 ≡ (value_of k s + n) % 2 ^ 64
    known processed = ground arith
    known succeeded = ground arith
    known panicked = ground arith
    known failed = ground arith

    other :
        (k : Count)
        → bytes_eq stat (name_of k) ≡ false
        → value_of k (add_stat stat n s) % 2 ^ 64 ≡ (value_of k s + 0) % 2 ^ 64
    other processed e = ground arith
    other succeeded e = ground arith
    other panicked e = ground arith
    other failed e = ground arith

-- The counts of a queue are changed.
pub entry-weigh :
    (k : Count) (base queue : Bytes) (f : Stats → Stats) (n : ℕ) (xs : Counters)
    → ((s : Stats) → value_of k (f s) % 2 ^ 64 ≡ (value_of k s + n) % 2 ^ 64)
    → weigh (in_counters k base) (upsert bytes_eq queue no_stats f xs) % 2 ^ 64
      ≡ (weigh (in_counters k base) xs + (if bytes_eq (queue_base queue) base then n else 0))
        % 2 ^ 64
entry-weigh k base queue f n xs changed =
    upsert-weigh (in_counters k base) bytes_eq queue no_stats f
      (if bytes_eq (queue_base queue) base then n else 0) xs
      (λ a s e. rw (bytes_eq_sound a queue e) (here s)) (made k changed)
  where
    here :
        (s : Stats)
        → in_counters k base queue (f s) % 2 ^ 64
          ≡ (in_counters k base queue s + (if bytes_eq (queue_base queue) base then n else 0))
            % 2 ^ 64
    here s = elim (Bool-cases (bytes_eq (queue_base queue) base)) [
      | inl e ↦ rw e (changed s)
      | inr e ↦ rw e refl
    ]

    made :
        (k : Count)
        → ((s : Stats) → value_of k (f s) % 2 ^ 64 ≡ (value_of k s + n) % 2 ^ 64)
        → in_counters k base queue (f no_stats) % 2 ^ 64
          ≡ (if bytes_eq (queue_base queue) base then n else 0) % 2 ^ 64
    made k changed = elim (Bool-cases (bytes_eq (queue_base queue) base)) [
      | inl e ↦ rw e (fresh k (changed no_stats))
      | inr e ↦ rw e refl
    ]
      where
        fresh :
            (k : Count)
            → value_of k (f no_stats) % 2 ^ 64 ≡ (value_of k no_stats + n) % 2 ^ 64
            → value_of k (f no_stats) % 2 ^ 64 ≡ n % 2 ^ 64
        fresh processed e = omega (arith, e)
        fresh succeeded e = omega (arith, e)
        fresh panicked e = omega (arith, e)
        fresh failed e = omega (arith, e)

value-add_counts :
    (k : Count) (s t : Stats)
    → value_of k (add_counts s t) % 2 ^ 64 ≡ (value_of k s + value_of k t) % 2 ^ 64
value-add_counts processed s t = omega arith
value-add_counts succeeded s t = omega arith
value-add_counts panicked s t = omega arith
value-add_counts failed s t = omega arith

pub add_to_group-share :
    (k : Count) (base queue : Bytes) (counts : Stats) (g : QueueStats)
    → in_groups k base (queue_base queue) (add_to_group queue counts g) % 2 ^ 64
      ≡ (in_groups k base (queue_base queue) g + in_counters k base queue counts) % 2 ^ 64
add_to_group-share k base queue counts g = elim (Bool-cases (bytes_eq (queue_base queue) base)) [
  | inl e ↦ rw e (value-add_counts k g.counts counts)
  | inr e ↦ rw e refl
]

pub no_group-share : (k : Count) (base key : Bytes) → in_groups k base key no_group ≡ 0
no_group-share processed base key = ground arith
no_group-share succeeded base key = ground arith
no_group-share panicked base key = ground arith
no_group-share failed base key = ground arith
