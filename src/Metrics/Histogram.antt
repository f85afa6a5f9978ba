-- ===== src/Metrics/Histogram.antt =====
-- The histogram of execution times of metrics.rs, and the arguments of BITFIELD that store it.
use oxana.Base.{
  ℕ, zero, suc, ◌+◌, ◌-◌, ◌^◌, ◌≤◌, ◌<◌, String, Option, none, some, List, [], ◌∷◌, ◌≡◌, ◌⊎◌, inl,
  inr, refl, ltb, ◌==◌, unwrap_or, if◌then◌else◌, arith, Bool-cases,
}
use oxana.Base.Lists.{length}
use oxana.Base.Decimal.{Bytes, show}
use oxana.Collector.{u64_max}
use oxana.Metrics.{utf8}

abbrev pub histogram_bucket_count : ℕ
histogram_bucket_count = 14

abbrev pub histogram_bucket_intervals_ms : List ℕ
histogram_bucket_intervals_ms =
    25 ∷ 50 ∷ 100 ∷ 250 ∷ 500 ∷ 1000 ∷ 2500 ∷ 5000 ∷ 10000 ∷ 30000 ∷ 60000 ∷ 120000 ∷ 300000
    ∷ u64_max ∷ []

abbrev pub histogram_bucket_labels : List String
histogram_bucket_labels =
    "25ms" ∷ "50ms" ∷ "100ms" ∷ "250ms" ∷ "500ms" ∷ "1s" ∷ "2.5s" ∷ "5s" ∷ "10s" ∷ "30s" ∷ "60s"
    ∷ "120s" ∷ "5min" ∷ "Slow" ∷ []

abbrev next : Option ℕ → Option ℕ
next none = none
next (some i) = some (suc i)

-- The place of the first bound above the duration.
unfoldable pub position_above : ℕ → List ℕ → Option ℕ
position_above duration_ms [] = none
position_above duration_ms (upper ∷ uppers) =
    let later = next (position_above duration_ms uppers) in
    if ltb duration_ms upper then some 0 else later

unfoldable pub histogram_bucket_index : ℕ → ℕ
unfolding position_above
histogram_bucket_index duration_ms =
    unwrap_or (position_above duration_ms histogram_bucket_intervals_ms)
      (histogram_bucket_count - 1)

abbrev increment_args : ℕ → List ℕ → List Bytes
increment_args idx [] = []
increment_args idx (value ∷ values) =
    let rest = increment_args (idx + 1) values in
    if value == 0 then rest else utf8 "INCRBY" ∷ utf8 "u16" ∷ (b'#' ∷ show idx) ∷ show value ∷ rest

unfoldable pub histogram_bitfield_increment_args : List ℕ → List Bytes
histogram_bitfield_increment_args buckets = utf8 "OVERFLOW" ∷ utf8 "SAT" ∷ increment_args 0 buckets

abbrev fetch_args : ℕ → ℕ → List Bytes
fetch_args idx zero = []
fetch_args idx (suc n) = utf8 "GET" ∷ utf8 "u16" ∷ (b'#' ∷ show idx) ∷ fetch_args (idx + 1) n

unfoldable pub histogram_bitfield_fetch_args : List Bytes
histogram_bitfield_fetch_args = fetch_args 0 histogram_bucket_count

pub record JobMetricsHistogramBucket : Type 0 where
  pub label : String
  pub upper_bound_ms : Option ℕ
  pub count : ℕ

-- The last bucket has no bound.
abbrev buckets_from : List String → List ℕ → List ℕ → List JobMetricsHistogramBucket
buckets_from [] bounds counts = []
buckets_from (label ∷ labels) bounds [] = []
buckets_from (label ∷ labels) [] (n ∷ counts) = []
buckets_from (label ∷ labels) (bound ∷ []) (n ∷ counts) =
    record { label = label; upper_bound_ms = none; count = n } ∷ []
buckets_from (label ∷ labels) (bound ∷ next_bound ∷ bounds) (n ∷ counts) =
    record { label = label; upper_bound_ms = some bound; count = n }
    ∷ buckets_from labels (next_bound ∷ bounds) counts

unfoldable pub histogram_buckets_from_counts : List ℕ → List JobMetricsHistogramBucket
histogram_buckets_from_counts = buckets_from histogram_bucket_labels histogram_bucket_intervals_ms

-- The duration reaches every bound before place `i`, and lies under the one at `i`.
abbrev pub Between : ℕ → List ℕ → ℕ → Type 0
Between duration_ms [] i = ⊥
Between duration_ms (upper ∷ uppers) zero = duration_ms < upper
Between duration_ms (upper ∷ uppers) (suc i) = (upper ≤ duration_ms) × Between duration_ms uppers i

abbrev AllReached : ℕ → List ℕ → Type 0
AllReached duration_ms [] = Unit {0}
AllReached duration_ms (upper ∷ uppers) = (upper ≤ duration_ms) × AllReached duration_ms uppers

abbrev Found : ℕ → List ℕ → Option ℕ → Type 0
Found duration_ms uppers none = AllReached duration_ms uppers
Found duration_ms uppers (some i) = Between duration_ms uppers i

next-Found :
    (duration_ms upper : ℕ) (uppers : List ℕ) (o : Option ℕ)
    → upper ≤ duration_ms
    → Found duration_ms uppers o
    → Found duration_ms (upper ∷ uppers) (next o)
next-Found duration_ms upper uppers none h f = (h, f)
next-Found duration_ms upper uppers (some i) h f = (h, f)

position_above-Found :
    (duration_ms : ℕ) (uppers : List ℕ)
    → Found duration_ms uppers (position_above duration_ms uppers)
unfolding position_above
position_above-Found duration_ms [] = tt
position_above-Found duration_ms (upper ∷ uppers) = elim (Bool-cases (ltb duration_ms upper)) [
  | inl below ↦ rw below (ground arith)
  | inr reached ↦ rw reached (
      next-Found duration_ms upper uppers (position_above duration_ms uppers) (ground arith)
        (position_above-Found duration_ms uppers))
]

-- Every duration but the greatest `u64` reaches all bounds before its bucket's and lies under that
-- one; the greatest is counted in the last bucket.
pub histogram_bucket_index-Between :
    (duration_ms : ℕ)
    → duration_ms < 2 ^ 64
    → Between duration_ms histogram_bucket_intervals_ms (histogram_bucket_index duration_ms)
      ⊎ ((duration_ms ≡ u64_max)
          × (histogram_bucket_index duration_ms ≡ histogram_bucket_count - 1))
unfolding histogram_bucket_index
histogram_bucket_index-Between duration_ms fits =
    decide (position_above duration_ms histogram_bucket_intervals_ms)
      (position_above-Found duration_ms histogram_bucket_intervals_ms)
  where
    decide :
        (o : Option ℕ)
        → Found duration_ms histogram_bucket_intervals_ms o
        → Between duration_ms histogram_bucket_intervals_ms (unwrap_or o 13)
          ⊎ ((duration_ms ≡ u64_max) × (unwrap_or o 13 ≡ 13))
    decide (some i) f = inl f
    decide none f = inr (omega arith, refl)

Between-lt :
    (duration_ms : ℕ) (uppers : List ℕ) (i : ℕ) → Between duration_ms uppers i → i < length uppers
Between-lt duration_ms [] i b = absurd b
Between-lt duration_ms (upper ∷ uppers) zero b = omega arith
Between-lt duration_ms (upper ∷ uppers) (suc i) b =
    omega (arith, Between-lt duration_ms uppers i b.1)

pub histogram_bucket_index-lt : (duration_ms : ℕ) → histogram_bucket_index duration_ms < 14
unfolding histogram_bucket_index
histogram_bucket_index-lt duration_ms =
    decide (position_above duration_ms histogram_bucket_intervals_ms)
      (position_above-Found duration_ms histogram_bucket_intervals_ms)
  where
    decide :
        (o : Option ℕ) → Found duration_ms histogram_bucket_intervals_ms o → unwrap_or o 13 < 14
    decide (some i) f = omega (arith, Between-lt duration_ms histogram_bucket_intervals_ms i f)
    decide none f = omega arith
