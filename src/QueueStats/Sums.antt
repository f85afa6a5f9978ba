-- ===== src/QueueStats/Sums.antt =====
-- The counts of the groups, against the fields that were read.
use oxana.Base.{
  ℕ, ◌+◌, ◌^◌, ◌%◌, Bool, true, false, List, [], ◌∷◌, ltb, not, ◌&&◌, if◌then◌else◌, Option, none,
  some, ◌≡◌, refl, ◌∙◌, arith, Bool-cases, inl, inr,
}
use oxana.Base.Decimal.{Bytes, bytes_eq, rsplit_once, bytes_eq_sound}
use oxana.Collector.{no_stats}
use oxana.Metrics.{ℤ, utf8}
use oxana.Metrics.Buffer.{upsert}
use oxana.Metrics.Aggregate.{Hash}
use oxana.QueueStats.{
  add_stat, add_to_group, no_group, Reading, read_field, i64_bits, queue_base, skipped, Counters,
  Groups, aggregate_queue_stats, group_counters, create_counters, requested, read_fields,
  enqueued_snapshots,
}
use oxana.QueueStats.Weights.{
  weigh, upsert-weigh, Count, processed, succeeded, panicked, failed, name_of, in_counters,
  in_groups, value-add_stat, entry-weigh, add_to_group-share, no_group-share,
}

-- What a field counts for in the group `base`.
abbrev pub share : Count → Bytes → List Bytes → Bool → ℤ → Option (Bytes × Bytes) → ℕ
share k base queues filter value none = 0
share k base queues filter value (some (queue, stat)) =
    if not (skipped filter queues queue)
      && bytes_eq (queue_base queue) base
      && bytes_eq stat (name_of k)
    then i64_bits value
    else 0

unfoldable pub field_total : Count → Bytes → List Bytes → Bool → Hash → ℕ
unfolding rsplit_once queue_base
field_total k base queues filter [] = 0
field_total k base queues filter ((key, value) ∷ rest) =
    share k base queues filter value (rsplit_once b':' key) + field_total k base queues filter rest

-- The count of the groups of a name. There is one such group at most.
abbrev pub group_total : Count → Bytes → Groups → ℕ
group_total k base groups = weigh (in_groups k base) groups

enqueued-unnamed : (k : Count) → bytes_eq (utf8 "enqueued") (name_of k) ≡ false
enqueued-unnamed processed = refl
enqueued-unnamed succeeded = refl
enqueued-unnamed panicked = refl
enqueued-unnamed failed = refl

enqueued_at-unnamed : (k : Count) → bytes_eq (utf8 "enqueued_at") (name_of k) ≡ false
enqueued_at-unnamed processed = refl
enqueued_at-unnamed succeeded = refl
enqueued_at-unnamed panicked = refl
enqueued_at-unnamed failed = refl

read_field-weigh :
    (k : Count) (base : Bytes) (queues : List Bytes) (filter : Bool) (value : ℤ)
    (parts : Option (Bytes × Bytes)) (r : Reading)
    → weigh (in_counters k base) (read_field queues filter value parts r).counters % 2 ^ 64
      ≡ (weigh (in_counters k base) r.counters + share k base queues filter value parts) % 2 ^ 64
read_field-weigh k base queues filter value none r = ground arith
read_field-weigh k base queues filter value (some (queue, stat)) r =
    elim (Bool-cases (skipped filter queues queue)) [
      | inl out ↦ rw out (ground arith)
      | inr within ↦ rw within (elim (Bool-cases (bytes_eq stat (utf8 "enqueued"))) [
        | inl e ↦
            rw (e, bytes_eq_sound stat (utf8 "enqueued") e) (ground (arith, enqueued-unnamed k))
        | inr e ↦ rw e (elim (Bool-cases (bytes_eq stat (utf8 "enqueued_at"))) [
          | inl f ↦
              rw (f, bytes_eq_sound stat (utf8 "enqueued_at") f)
                (ground (arith, enqueued_at-unnamed k))
          | inr f ↦
              rw
                (
                  f,
                  either (bytes_eq (queue_base queue) base) (bytes_eq stat (name_of k))
                      (i64_bits value),
                )
                (entry-weigh k base queue (add_stat stat (i64_bits value))
                  (if bytes_eq stat (name_of k) then i64_bits value else 0) r.counters
                  (value-add_stat k stat (i64_bits value)))
        ])
      ])
    ]
  where
    either :
        (a b : Bool) (n : ℕ) → (if a && b then n else 0) ≡ (if a then (if b then n else 0) else 0)
    either true b n = refl
    either false b n = refl

read_fields-weigh :
    (k : Count) (base : Bytes) (queues : List Bytes) (filter : Bool) (fields : Hash) (r : Reading)
    → weigh (in_counters k base) (read_fields queues filter fields r).counters % 2 ^ 64
      ≡ (weigh (in_counters k base) r.counters + field_total k base queues filter fields) % 2 ^ 64
unfolding read_fields field_total
read_fields-weigh k base queues filter [] r = ground arith
read_fields-weigh k base queues filter ((key, value) ∷ rest) r =
    let parts = rsplit_once b':' key in
    let later =
      read_fields-weigh k base queues filter rest (read_field queues filter value parts r) in
    omega (arith, later, read_field-weigh k base queues filter value parts r)

opened-weigh :
    (k : Count) (base queue : Bytes) (xs : Counters)
    → weigh (in_counters k base) (upsert bytes_eq queue no_stats (λ s. s) xs) % 2 ^ 64
      ≡ weigh (in_counters k base) xs % 2 ^ 64
opened-weigh k base queue xs =
    let h = entry-weigh k base queue (λ s. s) 0 xs (λ s. omega arith) in ground (arith, h)

requested-weigh :
    (k : Count) (base : Bytes) (queues : List Bytes)
    → weigh (in_counters k base) (requested queues) % 2 ^ 64 ≡ 0
unfolding requested
requested-weigh k base [] = refl
requested-weigh k base (q ∷ qs) =
    omega (arith, requested-weigh k base qs, opened-weigh k base q (requested qs))

group_counters-weigh :
    (k : Count) (base : Bytes) (counters : Counters)
    → group_total k base (group_counters counters) % 2 ^ 64
      ≡ weigh (in_counters k base) counters % 2 ^ 64
unfolding group_counters
group_counters-weigh k base [] = refl
group_counters-weigh k base ((queue, counts) ∷ rest) = omega (
  arith,
  group_counters-weigh k base rest,
  upsert-weigh (in_groups k base) bytes_eq (queue_base queue) no_group (add_to_group queue counts)
      (in_counters k base queue counts) (group_counters rest)
      (λ a g e.
        rw (bytes_eq_sound a (queue_base queue) e) (add_to_group-share k base queue counts g))
      (omega (
        arith,
        add_to_group-share k base queue counts no_group,
        no_group-share k base (queue_base queue),
      )),
)

create_counters-weigh :
    (k : Count) (base : Bytes) (enqueued : List (Bytes × ℕ)) (xs : Counters)
    → weigh (in_counters k base) (create_counters enqueued xs) % 2 ^ 64
      ≡ weigh (in_counters k base) xs % 2 ^ 64
unfolding create_counters
create_counters-weigh k base [] xs = refl
create_counters-weigh k base ((queue, n) ∷ rest) xs = elim (Bool-cases (ltb 0 n)) [
  | inl e ↦ rw e (
      create_counters-weigh k base rest (upsert bytes_eq queue no_stats (λ s. s) xs)
      ∙ opened-weigh k base queue xs)
  | inr e ↦ rw e (create_counters-weigh k base rest xs)
]

-- In two's complement, each count of the group of a name is the sum of the fields of the hash that
-- name this count and a queue of the group, the group's own or one with a suffix. With the filter,
-- only the queues count whose group has one of the requested queues.
pub aggregate_queue_stats-total :
    (k : Count) (base : Bytes) (queues : List Bytes) (stats : Hash) (filter : Bool) (now : ℤ)
    → group_total k base (aggregate_queue_stats queues stats filter now).0 % 2 ^ 64
      ≡ field_total k base queues filter stats % 2 ^ 64
unfolding aggregate_queue_stats
aggregate_queue_stats-total k base queues stats filter now =
    let start : Reading = record { counters = requested queues; snapshots = [] } in
    let r = read_fields queues filter stats start in
    let enqueued = enqueued_snapshots now r.snapshots in
    omega (
      arith,
      group_counters-weigh k base (create_counters enqueued r.counters),
      create_counters-weigh k base enqueued r.counters,
      read_fields-weigh k base queues filter stats start,
      requested-weigh k base queues,
    )
