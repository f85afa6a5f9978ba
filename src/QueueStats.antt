-- ===== src/QueueStats.antt =====
-- oxana/src/storage_internal/queue_stats.rs, and how `build_queue_stats` of storage_internal.rs uses
-- it. Numbers of `i64` are integers where they are compared, and are added in two's complement, since
-- the sums wrap. Latencies and rates are of floating point and left out. The maps are association lists
-- with one entry for a name.
pub mod Weights
pub mod Sums
pub mod Lengths
use oxana.Base.{
  ℕ, zero, suc, ◌+◌, ◌-◌, ◌<◌, ◌^◌, ◌%◌, ◌==◌, Bool, true, false, List, [], ◌∷◌, ltb, leb, map, not,
  ◌&&◌, ◌||◌, if◌then◌else◌, Option, none, some,
}
use oxana.Base.Decimal.{Bytes, bytes_eq, split_once, rsplit_once}
use oxana.Collector.{Stats, no_stats}
use oxana.Metrics.{ℤ, pos, negsuc, utf8}
use oxana.Metrics.Buffer.{upsert}
use oxana.Metrics.Aggregate.{Hash}

abbrev pub queue_length_snapshot_ttl_secs : ℕ
queue_length_snapshot_ttl_secs = 120

pub record QueueLengthSnapshot : Type 0 where
  pub enqueued : Option ℤ
  pub refreshed_at : Option ℤ

-- Whether `a - b` is more than `n`. A difference that is out of the range of `i64` saturates, on the
-- same side of `n`.
abbrev pub exceeds : ℤ → ℤ → ℕ → Bool
exceeds (pos a) (pos b) n = ltb (b + n) a
exceeds (pos a) (negsuc b) n = ltb n (a + b + 1)
exceeds (negsuc a) (pos b) n = false
exceeds (negsuc a) (negsuc b) n = ltb (a + n) b

-- `usize::try_from`
abbrev pub to_usize : ℤ → Option ℕ
to_usize (pos n) = some n
to_usize (negsuc n) = none

unfoldable pub fresh_enqueued : QueueLengthSnapshot → ℤ → Option ℕ
fresh_enqueued s now = elim s.refreshed_at [
  | none ↦ none
  | some refreshed_at ↦ elim (exceeds now refreshed_at queue_length_snapshot_ttl_secs) [
    | true ↦ none
    | false ↦ elim s.enqueued [ none ↦ none | some enqueued ↦ to_usize enqueued ]
  ]
]

-- An `i64` in two's complement.
abbrev pub i64_bits : ℤ → ℕ
i64_bits (pos n) = n % 2 ^ 64
i64_bits (negsuc n) = 2 ^ 64 - 1 - n % 2 ^ 64

abbrev pub wrapping_add : ℕ → ℕ → ℕ
wrapping_add a b = (a + b) % 2 ^ 64

abbrev pub before : Bytes → Option (Bytes × Bytes) → Bytes
before queue none = queue
before queue (some (base, suffix)) = base

unfoldable pub queue_base : Bytes → Bytes
unfolding split_once
queue_base queue = before queue (split_once b'#' queue)

abbrev pub same_base : Bytes → List Bytes → Bool
same_base queue [] = false
same_base queue (q ∷ qs) = bytes_eq (queue_base q) (queue_base queue) || same_base queue qs

abbrev pub skipped : Bool → List Bytes → Bytes → Bool
skipped filter queues queue = filter && not (same_base queue queues)

abbrev pub add_stat : Bytes → ℕ → Stats → Stats
add_stat stat n s =
    if bytes_eq stat (utf8 "processed")
    then record s { processed = wrapping_add s.processed n }
    else if bytes_eq stat (utf8 "succeeded")
    then record s { succeeded = wrapping_add s.succeeded n }
    else if bytes_eq stat (utf8 "panicked")
    then record s { panicked = wrapping_add s.panicked n }
    else if bytes_eq stat (utf8 "failed")
    then record s { failed = wrapping_add s.failed n }
    else s

abbrev pub Counters : Type 0
Counters = List (Bytes × Stats)

abbrev pub Snapshots : Type 0
Snapshots = List (Bytes × QueueLengthSnapshot)

abbrev no_snapshot : QueueLengthSnapshot
no_snapshot = record { enqueued = none; refreshed_at = none }

pub record Reading : Type 0 where
  pub counters : Counters
  pub snapshots : Snapshots

-- A field of the hash of counts. An unknown count keeps its queue visible.
abbrev read_stat : Bytes → Bytes → ℤ → Reading → Reading
read_stat queue stat value r =
    if bytes_eq stat (utf8 "enqueued")
    then record r {
      snapshots =
          upsert bytes_eq queue no_snapshot (λ s. record s { enqueued = some value }) r.snapshots;
    }
    else if bytes_eq stat (utf8 "enqueued_at")
    then record r {
      snapshots =
          upsert bytes_eq queue no_snapshot (λ s. record s { refreshed_at = some value })
            r.snapshots;
    }
    else record r {
      counters = upsert bytes_eq queue no_stats (add_stat stat (i64_bits value)) r.counters;
    }

abbrev pub read_field : List Bytes → Bool → ℤ → Option (Bytes × Bytes) → Reading → Reading
read_field queues filter value none r = r
read_field queues filter value (some (queue, stat)) r =
    if skipped filter queues queue then r else read_stat queue stat value r

unfoldable pub read_fields : List Bytes → Bool → Hash → Reading → Reading
unfolding rsplit_once queue_base upsert
read_fields queues filter [] r = r
read_fields queues filter ((key, value) ∷ rest) r =
    read_fields queues filter rest (read_field queues filter value (rsplit_once b':' key) r)

unfoldable pub requested : List Bytes → Counters
unfolding upsert
requested [] = []
requested (q ∷ qs) = upsert bytes_eq q no_stats (λ s. s) (requested qs)

unfoldable pub enqueued_snapshots : ℤ → Snapshots → List (Bytes × ℕ)
unfolding fresh_enqueued
enqueued_snapshots now [] = []
enqueued_snapshots now ((queue, s) ∷ rest) = elim (fresh_enqueued s now) [
  | none ↦ enqueued_snapshots now rest
  | some enqueued ↦ (queue, enqueued) ∷ enqueued_snapshots now rest
]

-- A zero snapshot can serve an existing queue, but cannot create one.
unfoldable pub create_counters : List (Bytes × ℕ) → Counters → Counters
unfolding upsert
create_counters [] counters = counters
create_counters ((queue, enqueued) ∷ rest) counters =
    create_counters rest
      (if ltb 0 enqueued then upsert bytes_eq queue no_stats (λ s. s) counters else counters)

pub record DynamicQueueStats : Type 0 where
  pub suffix : Bytes
  pub enqueued : ℕ
  pub counts : Stats

-- The key of a group stands beside it in the list of groups.
pub record QueueStats : Type 0 where
  pub enqueued : ℕ
  pub counts : Stats
  pub queues : List DynamicQueueStats

abbrev pub no_group : QueueStats
no_group = record { enqueued = 0; counts = no_stats; queues = [] }

abbrev pub add_counts : Stats → Stats → Stats
add_counts s t = record {
  processed = wrapping_add s.processed t.processed;
  succeeded = wrapping_add s.succeeded t.succeeded;
  panicked = wrapping_add s.panicked t.panicked;
  failed = wrapping_add s.failed t.failed;
}

abbrev dynamic_queue :
    Option (Bytes × Bytes) → Stats → List DynamicQueueStats → List DynamicQueueStats
dynamic_queue none counts queues = queues
dynamic_queue (some (base, suffix)) counts queues =
    record { suffix = suffix; enqueued = 0; counts = counts } ∷ queues

abbrev pub add_to_group : Bytes → Stats → QueueStats → QueueStats
add_to_group queue counts g = record g {
  counts = add_counts g.counts counts;
  queues = dynamic_queue (split_once b'#' queue) counts g.queues;
}

abbrev pub Groups : Type 0
Groups = List (Bytes × QueueStats)

unfoldable pub group_counters : Counters → Groups
unfolding queue_base upsert split_once
group_counters [] = []
group_counters ((queue, counts) ∷ rest) =
    upsert bytes_eq (queue_base queue) no_group (add_to_group queue counts) (group_counters rest)

unfoldable pub aggregate_queue_stats : List Bytes → Hash → Bool → ℤ → Groups × List (Bytes × ℕ)
unfolding read_fields requested enqueued_snapshots create_counters group_counters
aggregate_queue_stats queues stats filter now =
    let r =
      read_fields queues filter stats (record { counters = requested queues; snapshots = [] }) in
    let enqueued = enqueued_snapshots now r.snapshots in
    (group_counters (create_counters enqueued r.counters), enqueued)
