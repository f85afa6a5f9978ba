-- ===== src/QueueStats/Lengths.antt =====
-- `build_queue_stats` and `queue_lengths_and_latencies` of storage_internal.rs: the lengths of the
-- queues in the groups, and the order of the groups. `llen` is the length of a queue at the server.
use oxana.Base.{
  ℕ, Bool, true, false, List, [], ◌∷◌, ◌++◌, map, Option, none, some, unwrap_or, ◌≡◌, if◌then◌else◌,
}
use mathlib.Core.List.{Permᴰ}
use oxana.Base.Decimal.{Bytes, bytes_eq}
use oxana.Base.Sorting.{sort_by, bytes_le, bytes_le-total, Sorted, sort_by-Sorted, sort_by-Perm}
use oxana.Metrics.{ℤ}
use oxana.Metrics.Aggregate.{Hash}
use oxana.QueueStats.{QueueStats, DynamicQueueStats, aggregate_queue_stats, wrapping_add}

abbrev snapshot_of : List (Bytes × ℕ) → Bytes → Option ℕ
snapshot_of [] key = none
snapshot_of ((k, n) ∷ rest) key = if bytes_eq k key then some n else snapshot_of rest key

-- A fresh snapshot serves for the length that the server has.
unfoldable pub queue_length : (Bytes → ℕ) → List (Bytes × ℕ) → Bytes → ℕ
queue_length llen snapshots key = unwrap_or (snapshot_of snapshots key) (llen key)

abbrev pub dynamic_queue_key : Bytes → Bytes → Bytes
dynamic_queue_key key suffix = key ++ b'#' ∷ suffix

abbrev pub suffix_before : DynamicQueueStats → DynamicQueueStats → Bool
suffix_before a b = bytes_le a.suffix b.suffix

abbrev pub key_before : Bytes × QueueStats → Bytes × QueueStats → Bool
key_before a b = bytes_le a.0 b.0

abbrev pub total_enqueued : ℕ → List DynamicQueueStats → ℕ
total_enqueued n [] = n
total_enqueued n (q ∷ qs) = total_enqueued (wrapping_add n q.enqueued) qs

module _ (llen : Bytes → ℕ) (snapshots : List (Bytes × ℕ)) where
  abbrev pub with_length : Bytes → DynamicQueueStats → DynamicQueueStats
  with_length key q = record q {
    enqueued = queue_length llen snapshots (dynamic_queue_key key q.suffix);
  }

  -- A group without queues of its own is a queue, and another one has the sum of its queues.
  abbrev lengths_for : Bytes → QueueStats → List DynamicQueueStats → QueueStats
  lengths_for key g [] = record g { enqueued = queue_length llen snapshots key }
  lengths_for key g (q ∷ qs) =
      let queues = map (with_length key) (q ∷ qs) in
      record g {
        enqueued = total_enqueued g.enqueued queues;
        queues = sort_by suffix_before queues;
      }

  unfoldable pub with_lengths : Bytes × QueueStats → Bytes × QueueStats
  unfolding queue_length sort_by
  with_lengths (key, g) = (key, lengths_for key g g.queues)

unfoldable pub build_queue_stats :
    (Bytes → ℕ) → List Bytes → Hash → Bool → ℤ → List (Bytes × QueueStats)
unfolding aggregate_queue_stats with_lengths sort_by
build_queue_stats llen queues stats filter now =
    let (groups, snapshots) = aggregate_queue_stats queues stats filter now in
    sort_by key_before (map (with_lengths llen snapshots) groups)

key_before-total : (a b : Bytes × QueueStats) → key_before a b ≡ false → key_before b a ≡ true
key_before-total a b h = bytes_le-total a.0 b.0 h

-- The groups come in the order of their names, and are those of the aggregation, each with its
-- lengths: none is lost, doubled or made.
pub build_queue_stats-Sorted :
    (llen : Bytes → ℕ) (queues : List Bytes) (stats : Hash) (filter : Bool) (now : ℤ)
    → let (groups, snapshots) = aggregate_queue_stats queues stats filter now in
      Sorted key_before (build_queue_stats llen queues stats filter now)
      × Permᴰ
          (build_queue_stats llen queues stats filter now)
          (map (with_lengths llen snapshots) groups)
unfolding build_queue_stats
build_queue_stats-Sorted llen queues stats filter now =
    let (groups, snapshots) = aggregate_queue_stats queues stats filter now in
    let found = map (with_lengths llen snapshots) groups in
    (sort_by-Sorted key_before key_before-total found, sort_by-Perm key_before found)
