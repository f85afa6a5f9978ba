-- ===== src/Metrics/Fields.antt =====
-- The names of the fields that metrics.rs stores counts under, and what it reads back from a name.
use oxana.Base.{
  ℕ, ◌<◌, ◌^◌, Bool, true, false, Option, none, some, List, [], ◌∷◌, ◌++◌, ◌≡◌, refl, ◌||◌, not,
  ltb, ◌==◌, if◌then◌else◌, arith, Bool-cases, inl, inr,
}
use mathlib.Core.Path.{subst}
use mathlib.Core.List.{append_assoc}
use oxana.Base.Lists.{length, take}
use oxana.Base.Decimal.{
  Bytes, bytes_eq, show, parse_usize, split_once, rsplit_once, is_char_boundary, Lacks,
  parse_usize-show, show-Lacks, split_once-append, rsplit_once-append, is_char_boundary-length,
  bytes_eq_sound,
}
use oxana.Metrics.{
  MetricIdentity, job_metric_keys, metric_processed_jobs, metric_failed_jobs,
  queue_metric_succeeded_jobs,
}

unfoldable pub field_key : MetricIdentity → Bytes
field_key identity = show (length identity.worker) ++ b':' ∷ identity.worker

-- The worker's name is cut at its length, if that is in the text and cuts no character.
abbrev cut : Bytes → Option ℕ → Option MetricIdentity
cut rest none = none
cut rest (some worker_len) =
    if ltb (length rest) worker_len || not (is_char_boundary rest worker_len)
    then none
    else some (record { worker = take worker_len rest })

abbrev identity_from : Option (Bytes × Bytes) → Option MetricIdentity
identity_from none = none
identity_from (some (worker_len, rest)) = cut rest (parse_usize worker_len)

unfoldable pub from_field_key : Bytes → Option MetricIdentity
from_field_key key = identity_from (split_once b':' key)

unfoldable pub metric_field : MetricIdentity → Bytes → Bytes
unfolding field_key
metric_field identity metric = field_key identity ++ b'|' ∷ metric

abbrev pub contains : List Bytes → Bytes → Bool
contains [] metric = false
contains (k ∷ ks) metric = bytes_eq k metric || contains ks metric

abbrev with_metric : Bytes → Option MetricIdentity → Option (MetricIdentity × Bytes)
with_metric metric none = none
with_metric metric (some identity) = some (identity, metric)

abbrev metric_from : Option (Bytes × Bytes) → Option (MetricIdentity × Bytes)
metric_from none = none
metric_from (some (identity_key, metric)) =
    if contains job_metric_keys metric
    then with_metric metric (from_field_key identity_key)
    else none

unfoldable pub split_metric_field : Bytes → Option (MetricIdentity × Bytes)
unfolding from_field_key
split_metric_field field = metric_from (rsplit_once b'|' field)

unfoldable pub queue_metric_field : Bytes → Bytes → Bytes
queue_metric_field queue metric = show (length queue) ++ b':' ∷ (queue ++ b'|' ∷ metric)

abbrev pub queue_metric_keys : List Bytes
queue_metric_keys = metric_processed_jobs ∷ queue_metric_succeeded_jobs ∷ metric_failed_jobs ∷ []

-- Here the length has to be that of the whole rest.
abbrev whole : Bytes → Bytes → Option ℕ → Option (Bytes × Bytes)
whole queue metric none = none
whole queue metric (some queue_len) =
    if not (length queue == queue_len) || not (is_char_boundary queue queue_len)
    then none
    else some (queue, metric)

abbrev queue_from : Bytes → Option (Bytes × Bytes) → Option (Bytes × Bytes)
queue_from metric none = none
queue_from metric (some (queue_len, queue)) = whole queue metric (parse_usize queue_len)

abbrev queue_metric_from : Option (Bytes × Bytes) → Option (Bytes × Bytes)
queue_metric_from none = none
queue_metric_from (some (queue_key, metric)) =
    if contains queue_metric_keys metric
    then queue_from metric (split_once b':' queue_key)
    else none

unfoldable pub split_queue_metric_field : Bytes → Option (Bytes × Bytes)
split_queue_metric_field field = queue_metric_from (rsplit_once b'|' field)

take-length : (xs : Bytes) → take (length xs) xs ≡ xs
take-length [] = refl
take-length (x ∷ xs) = rw (take-length xs)

-- An identity is read back from its key, if its name is shorter than 2 ^ 64.
pub from_field_key-field_key :
    (identity : MetricIdentity)
    → length identity.worker < 2 ^ 64
    → from_field_key (field_key identity) ≡ some identity
unfolding from_field_key field_key
from_field_key-field_key identity fits =
    let w = identity.worker in
    rw (split_once-append b':' (show (length w)) w (show-Lacks b':' (length w) (omega arith))) (
      rw (parse_usize-show (length w) fits, is_char_boundary-length w, take-length w)
        (ground arith))

abbrev All : (Bytes → Type 0) → List Bytes → Type 0
All P [] = Unit {0}
All P (k ∷ ks) = P k × All P ks

chosen :
    (P : Bytes → Type 0) (ks : List Bytes) (metric : Bytes)
    → All P ks
    → contains ks metric ≡ true
    → P metric
chosen P [] metric h e = cc
chosen P (k ∷ ks) metric h e = elim (Bool-cases (bytes_eq k metric)) [
  | inl same ↦ subst P (bytes_eq_sound k metric same) h.0
  | inr other ↦ chosen P ks metric h.1 (rw other at e)
]

-- A field is taken apart into the identity and the metric that it was made of, whatever bytes the
-- worker's name has, if that is shorter than 2 ^ 64 and the metric is one of those of jobs.
pub split_metric_field-metric_field :
    (identity : MetricIdentity) (metric : Bytes)
    → length identity.worker < 2 ^ 64
    → contains job_metric_keys metric ≡ true
    → split_metric_field (metric_field identity metric) ≡ some (identity, metric)
unfolding split_metric_field metric_field
split_metric_field-metric_field identity metric fits known =
    let plain = chosen (Lacks b'|') job_metric_keys metric (ground arith) known in
    rw (rsplit_once-append b'|' (field_key identity) metric plain)
      (rw (known, from_field_key-field_key identity fits))

-- So is the field of a queue, whose length has to be that of the whole name.
pub split_queue_metric_field-queue_metric_field :
    (queue metric : Bytes)
    → length queue < 2 ^ 64
    → contains queue_metric_keys metric ≡ true
    → split_queue_metric_field (queue_metric_field queue metric) ≡ some (queue, metric)
unfolding split_queue_metric_field queue_metric_field
split_queue_metric_field-queue_metric_field queue metric fits known =
    let plain = chosen (Lacks b'|') queue_metric_keys metric (ground arith) known in
    let len = show (length queue) in
    rw (← (append_assoc len (b':' ∷ queue) (b'|' ∷ metric))) (
      rw (rsplit_once-append b'|' (len ++ b':' ∷ queue) metric plain) (
        rw (known, split_once-append b':' len queue (show-Lacks b':' (length queue) (omega arith)))
          (rw (parse_usize-show (length queue) fits, is_char_boundary-length queue)
            (ground arith))))
