-- ===== src/Metrics/Lengths.antt =====
-- The lengths of queues minute by minute, of metrics.rs, and the minutes of a query.
use oxana.Base.{
  ℕ, zero, suc, ◌+◌, ◌-◌, ◌*◌, ◌/◌, Bool, List, [], ◌∷◌, map, ◌==◌, ltb, leb, max_of, min_of,
  if◌then◌else◌,
}
use oxana.Base.Decimal.{Bytes, bytes_eq}
use oxana.Metrics.{ℤ, pos, negsuc, unsigned}
use oxana.Base.Sorting.{sort_by, bytes_le}
use oxana.Metrics.Aggregate.{Hash, sixty_times, modify}

pub record QueueLengthMetricsPoint : Type 0 where
  pub timestamp : ℤ
  pub enqueued : ℕ

pub record QueueLengthMetricsSeries : Type 0 where
  pub queue : Bytes
  pub series : List QueueLengthMetricsPoint

abbrev sampled : ℕ → QueueLengthMetricsPoint → QueueLengthMetricsPoint
sampled value p = record p { enqueued = value }

unfoldable pub set_length :
    List QueueLengthMetricsPoint
    → ℕ
    → Bytes
    → ℕ
    → List QueueLengthMetricsSeries
    → List QueueLengthMetricsSeries
set_length template idx queue value [] =
    record { queue = queue; series = modify idx (sampled value) template } ∷ []
set_length template idx queue value (q ∷ qs) =
    let after = set_length template idx queue value qs in
    if bytes_eq q.queue queue
    then record q { series = modify idx (sampled value) q.series } ∷ qs
    else q ∷ after

unfoldable pub set_lengths :
    List QueueLengthMetricsPoint
    → ℕ
    → Hash
    → List QueueLengthMetricsSeries
    → List QueueLengthMetricsSeries
unfolding set_length
set_lengths template idx [] qs = qs
set_lengths template idx ((queue, raw_value) ∷ rest) qs =
    set_lengths template idx rest (set_length template idx queue (unsigned raw_value) qs)

unfoldable pub set_all_lengths :
    List QueueLengthMetricsPoint
    → ℕ
    → List Hash
    → List QueueLengthMetricsSeries
    → List QueueLengthMetricsSeries
unfolding set_lengths
set_all_lengths template idx [] qs = qs
set_all_lengths template idx (hash ∷ hashes) qs =
    set_all_lengths template (idx + 1) hashes (set_lengths template idx hash qs)

abbrev peak : List QueueLengthMetricsPoint → ℕ
peak [] = 0
peak (p ∷ ps) = max_of p.enqueued (peak ps)

abbrev queue_before : QueueLengthMetricsSeries → QueueLengthMetricsSeries → Bool
queue_before a b =
    if peak a.series == peak b.series
    then bytes_le a.queue b.queue
    else ltb (peak b.series) (peak a.series)

unfoldable pub queue_length_series_from_hashes : List ℤ → List Hash → List QueueLengthMetricsSeries
unfolding set_all_lengths sort_by
queue_length_series_from_hashes minutes hashes =
    let template =
      map (λ minute. record { timestamp = sixty_times minute; enqueued = 0 }) minutes in
    sort_by queue_before (set_all_lengths template 0 hashes [])

pub record JobMetricsQuery : Type 0 where
  pub minutes : ℕ

unfoldable pub effective_minutes : JobMetricsQuery → ℕ
effective_minutes q = if q.minutes == 0 then 60 else min_of q.minutes (24 * 60)

abbrev int_minus : ℤ → ℕ → ℤ
int_minus (pos a) n = if leb n a then pos (a - n) else negsuc (n - a - 1)
int_minus (negsuc a) n = negsuc (a + n)

abbrev count_up : ℕ → ℤ → List ℤ
count_up zero end = []
count_up (suc n) end = int_minus end n ∷ count_up n end

-- `div_euclid(60)`
abbrev pub minute_of : ℤ → ℤ
minute_of (pos n) = pos (n / 60)
minute_of (negsuc n) = negsuc (n / 60)

-- The minutes up to the present one, the oldest first.
unfoldable pub metric_minutes : ℤ → JobMetricsQuery → List ℤ
unfolding effective_minutes
metric_minutes now_ts query = count_up (effective_minutes query) (minute_of now_ts)
