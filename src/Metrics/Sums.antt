-- ===== src/Metrics/Sums.antt =====
-- What the aggregation of metrics.rs adds up, against the plain sums of the fields.
use mathlib.Core.Path.{subst}
use oxana.Base.{
  ℕ, ◌+◌, ◌≤◌, Bool, true, false, Option, none, some, List, [], ◌∷◌, ◌≡◌, refl, sym, ap, ◌∙◌, not,
  ◌&&◌, map, min_of, if◌then◌else◌, arith, Bool-cases, inl, inr,
}
use oxana.Base.Lists.{take, length}
use oxana.Base.Decimal.{Bytes, bytes_eq, bytes_eq_sound}
use oxana.Collector.{u64_max}
use oxana.Metrics.{
  ℤ, pos, unsigned, MetricIdentity, JobMetricsTotals, JobMetricsPoint, no_totals, add_metric,
  finalize, plus, metric_processed_jobs, metric_failed_jobs, metric_panicked_jobs,
  metric_execution_ms,
}
use oxana.Metrics.Fields.{split_metric_field}
use oxana.Metrics.Aggregate.{
  Hash, WorkerMetricsSummary, Building, excluded, add_entry, add_to_worker, add_hash, add_hashes,
  aggregate_counter_hashes, point_at,
}

-- The counts that older records have too.
pub data Counter : Type 0 where
  processed failed panicked execution_ms : Counter

abbrev pub metric_of : Counter → Bytes
metric_of processed = metric_processed_jobs
metric_of failed = metric_failed_jobs
metric_of panicked = metric_panicked_jobs
metric_of execution_ms = metric_execution_ms

abbrev pub value_of : Counter → JobMetricsTotals → ℕ
value_of processed t = t.processed
value_of failed t = t.failed
value_of panicked t = t.panicked
value_of execution_ms t = t.execution_ms

abbrev pub counts : Bytes → Option MetricIdentity → Option (MetricIdentity × Bytes) → Bool
counts name filter none = false
counts name filter (some (identity, metric)) =
    not (excluded filter identity) && bytes_eq metric name

-- The sum of the fields of one hash that have the metric's name.
unfoldable pub field_sum : Bytes → Option MetricIdentity → Hash → ℕ
field_sum name filter [] = 0
field_sum name filter ((field, raw_value) ∷ rest) =
    (if counts name filter (split_metric_field field) then unsigned raw_value else 0)
    + field_sum name filter rest

unfoldable pub field_sums : Bytes → Option MetricIdentity → List Hash → ℕ
unfolding field_sum
field_sums name filter [] = 0
field_sums name filter (hash ∷ hashes) = field_sum name filter hash + field_sums name filter hashes

value-add_metric :
    (c : Counter) (metric : Bytes) (value : ℕ) (t : JobMetricsTotals)
    → value_of c (add_metric metric value t)
      ≡ (if bytes_eq metric (metric_of c) then plus (value_of c t) value else value_of c t)
unfolding add_metric
value-add_metric c metric value t = elim (Bool-cases (bytes_eq metric (metric_of c))) [
  | inl same ↦ rw same (
      subst (λ m. value_of c (add_metric m value t) ≡ plus (value_of c t) value)
        (sym (bytes_eq_sound metric (metric_of c) same)) (at c))
  | inr other ↦ rw other (away c other)
]
  where
    at : (c : Counter) → value_of c (add_metric (metric_of c) value t) ≡ plus (value_of c t) value
    at processed = refl
    at failed = refl
    at panicked = refl
    at execution_ms = refl

    away :
        (c : Counter)
        → bytes_eq metric (metric_of c) ≡ false
        → value_of c (add_metric metric value t) ≡ value_of c t
    away processed other = ground arith
    away failed other = ground arith
    away panicked other = ground arith
    away execution_ms other = ground arith

value-finalize : (c : Counter) (t : JobMetricsTotals) → value_of c (finalize t) ≡ value_of c t
unfolding finalize
value-finalize processed t = ground arith
value-finalize failed t = ground arith
value-finalize panicked t = ground arith
value-finalize execution_ms t = ground arith

-- The totals, or the point of the minute.
abbrev part : Bool → Building → JobMetricsTotals
part true b = b.totals
part false b = b.point

capped : (a x y : ℕ) → min_of (min_of (a + x) u64_max + y) u64_max ≡ min_of (a + (x + y)) u64_max
capped a x y = ground arith

value-add_entry :
    (c : Counter) (which : Bool) (template : List JobMetricsPoint) (idx : ℕ)
    (filter : Option MetricIdentity) (value : ℕ) (s : Option (MetricIdentity × Bytes))
    (b : Building)
    → value_of c (part which b) ≤ u64_max
    → value_of c (part which (add_entry template idx filter value s b))
      ≡ min_of
          (value_of c (part which b) + (if counts (metric_of c) filter s then value else 0))
          u64_max
value-add_entry c which template idx filter value none b h = ground arith
value-add_entry c which template idx filter value (some (identity, metric)) b h =
    elim (Bool-cases (excluded filter identity)) [
      | inl out ↦ rw out (ground arith)
      | inr counted ↦ rw counted (added which h)
    ]
  where
    added :
        (which : Bool)
        → value_of c (part which b) ≤ u64_max
        → value_of c (
            part which (record {
              point = add_metric metric value b.point;
              totals = add_metric metric value b.totals;
              workers = add_to_worker template idx identity metric value b.workers;
            }))
          ≡ min_of
              (value_of c (part which b) + (if bytes_eq metric (metric_of c) then value else 0))
              u64_max
    added true h = ground (arith, value-add_metric c metric value b.totals)
    added false h = ground (arith, value-add_metric c metric value b.point)

value-add_hash :
    (c : Counter) (which : Bool) (template : List JobMetricsPoint) (idx : ℕ)
    (filter : Option MetricIdentity) (hash : Hash) (b : Building)
    → value_of c (part which b) ≤ u64_max
    → value_of c (part which (add_hash template idx filter hash b))
      ≡ min_of (value_of c (part which b) + field_sum (metric_of c) filter hash) u64_max
unfolding add_hash field_sum
value-add_hash c which template idx filter [] b h = ground arith
value-add_hash c which template idx filter ((field, raw_value) ∷ rest) b h =
    let s = split_metric_field field in
    let v = unsigned raw_value in
    let b' = add_entry template idx filter v s b in
    let e = value-add_entry c which template idx filter v s b h in
    value-add_hash c which template idx filter rest b' (ground (arith, e))
    ∙ rw e (
        capped (value_of c (part which b)) (if counts (metric_of c) filter s then v else 0)
          (field_sum (metric_of c) filter rest))

value-add_hashes :
    (c : Counter) (template : List JobMetricsPoint) (filter : Option MetricIdentity) (idx : ℕ)
    (ps : List JobMetricsPoint) (hashes : List Hash) (totals : JobMetricsTotals)
    (workers : List WorkerMetricsSummary)
    → value_of c totals ≤ u64_max
    → value_of c (add_hashes template filter idx ps hashes totals workers).totals
      ≡ min_of
          (value_of c totals + field_sums (metric_of c) filter (take (length ps) hashes))
          u64_max
unfolding add_hashes field_sums
value-add_hashes c template filter idx [] hashes totals workers h = ground arith
value-add_hashes c template filter idx (p ∷ ps) [] totals workers h = ground arith
value-add_hashes c template filter idx (p ∷ ps) (hash ∷ hashes) totals workers h =
    let b : Building = record { point = p.counts; totals = totals; workers = workers } in
    let b' = add_hash template idx filter hash b in
    let e = value-add_hash c true template idx filter hash b h in
    value-add_hashes c template filter (idx + 1) ps hashes b'.totals b'.workers (ground (arith, e))
    ∙ rw e (
        capped (value_of c totals) (field_sum (metric_of c) filter hash)
          (field_sums (metric_of c) filter (take (length ps) hashes)))

-- Each point against the sum of its hash; a minute without a hash counts nothing.
abbrev pub Points : Counter → Option MetricIdentity → List JobMetricsPoint → List Hash → Type 0
Points c filter [] hashes = Unit {0}
Points c filter (p ∷ ps) [] = (value_of c p.counts ≡ 0) × Points c filter ps []
Points c filter (p ∷ ps) (hash ∷ hashes) =
    (value_of c p.counts ≡ min_of (field_sum (metric_of c) filter hash) u64_max)
    × Points c filter ps hashes

-- Points that count nothing yet.
abbrev Fresh : Counter → List JobMetricsPoint → Type 0
Fresh c [] = Unit {0}
Fresh c (p ∷ ps) = (value_of c p.counts ≡ 0) × Fresh c ps

Fresh-Points :
    (c : Counter) (filter : Option MetricIdentity) (ps : List JobMetricsPoint)
    → Fresh c ps
    → Points c filter ps []
Fresh-Points c filter [] f = tt
Fresh-Points c filter (p ∷ ps) f = (f.0, Fresh-Points c filter ps f.1)

add_hashes-Points :
    (c : Counter) (template : List JobMetricsPoint) (filter : Option MetricIdentity) (idx : ℕ)
    (ps : List JobMetricsPoint) (hashes : List Hash) (totals : JobMetricsTotals)
    (workers : List WorkerMetricsSummary)
    → Fresh c ps
    → Points c filter (add_hashes template filter idx ps hashes totals workers).series hashes
unfolding add_hashes
add_hashes-Points c template filter idx [] hashes totals workers f = tt
add_hashes-Points c template filter idx (p ∷ ps) [] totals workers f =
    Fresh-Points c filter (p ∷ ps) f
add_hashes-Points c template filter idx (p ∷ ps) (hash ∷ hashes) totals workers f =
    let b : Building = record { point = p.counts; totals = totals; workers = workers } in
    let b' = add_hash template idx filter hash b in
    (
      value-finalize c b'.point
          ∙ value-add_hash c false template idx filter hash b (omega (arith, f.0))
          ∙ ap (λ n. min_of (n + field_sum (metric_of c) filter hash) u64_max) f.0
          ∙ ground arith,
      add_hashes-Points c template filter (idx + 1) ps hashes b'.totals b'.workers f.1,
    )

Fresh-template : (c : Counter) (minutes : List ℤ) → Fresh c (map point_at minutes)
Fresh-template c [] = tt
Fresh-template c (m ∷ ms) = (nothing c, Fresh-template c ms)
  where
    nothing : (c : Counter) → value_of c no_totals ≡ 0
    nothing processed = refl
    nothing failed = refl
    nothing panicked = refl
    nothing execution_ms = refl

length-template : (minutes : List ℤ) → length (map point_at minutes) ≡ length minutes
length-template [] = refl
length-template (m ∷ ms) = omega (arith, length-template ms)

-- Processed, failed and panicked jobs and the time of executions add up: the totals are the sums of the
-- fields of the hashes that have a minute, and each point is the sum of its own hash, up to the
-- greatest `u64`. With a filter only the fields of that worker count.
pub aggregate_counter_hashes-Points :
    (c : Counter) (minutes : List ℤ) (hashes : List Hash) (filter : Option MetricIdentity)
    → let a = aggregate_counter_hashes minutes hashes filter in
      (value_of c a.totals
        ≡ min_of (field_sums (metric_of c) filter (take (length minutes) hashes)) u64_max)
      × Points c filter a.series hashes
unfolding aggregate_counter_hashes
aggregate_counter_hashes-Points c minutes hashes filter =
    let template = map point_at minutes in
    let zero = (Fresh-template c (pos 0 ∷ [])).0 in
    (
      value-finalize c (add_hashes template filter 0 template hashes no_totals []).totals
          ∙ value-add_hashes c template filter 0 template hashes no_totals [] (omega (arith, zero))
          ∙ rw (zero, length-template minutes) (ground arith),
      add_hashes-Points c template filter 0 template hashes no_totals [] (Fresh-template c minutes),
    )
