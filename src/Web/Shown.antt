-- ===== src/Web/Shown.antt =====
-- What a page says of a queue, against what the coordinator runs it with.
use oxana.Base.{
  ℕ, Bool, true, false, Option, none, some, List, [], ◌∷◌, ◌≡◌, ◌≢◌, refl, sym, ap, ◌∙◌, not, ◌==◌,
  if◌then◌else◌, arith, Option-cases, Bool-cases, inl, inr,
}
use oxana.Base.Decimal.{Bytes, bytes_eq, bytes_eq_sound, bytes_eq_refl, split_once}
use oxana.Queue.{
  QueueState, active, or, QueueRuntimeConfig, with_defaults, effective_runtime_config,
  runtime_queue_config, stored_runtime_default,
}
use mathlib.Core.Path.{subst}
use oxana.QueueStats.{queue_base, before}
use oxana.Web.Queues.{
  QueueInfo, Stored, find_queue, get, queue_runtime_config_from_map, concurrency_of, base_queue_key,
  queue_concurrency_status_from_map, QueueConcurrencyStatus, fixed_concurrency, default_concurrency,
  config_of, default_queue_runtime_config, override_concurrency, merged,
  queue_uses_dynamic_concurrency, merge_queue_runtime_config, status_of, concurrency_stored,
}

split_once-before : (c : ℕ) (xs : Bytes) → split_once c (before xs (split_once c xs)) ≡ none
unfolding split_once
split_once-before c [] = refl
split_once-before c (x ∷ xs) = elim (Bool-cases (x == c)) [
  | inl e ↦ rw (split_once, e) refl
  | inr e ↦ elim (Option-cases (split_once c xs)) [
    | inl f ↦ rw (split_once, e, f) (rw (split_once, e, f) refl)
    | inr ((a, b), f) ↦
        let later : split_once c a ≡ none =
          subst (λ o. split_once c (before xs o) ≡ none) f (split_once-before c xs) in
        rw (split_once, e, f) (rw (split_once, e, later) refl)
  ]
]

-- The base of a base key is that key.
queue_base-queue_base : (key : Bytes) → queue_base (queue_base key) ≡ queue_base key
unfolding queue_base
queue_base-queue_base key = ap (before (queue_base key)) (split_once-before b'#' key)

abbrev merged_by : Bool → Option QueueRuntimeConfig → QueueRuntimeConfig → QueueRuntimeConfig
merged_by uses none default_config = default_config
merged_by uses (some config) default_config =
    with_defaults (if uses then config else record config { concurrency = none }) default_config

merged-merged_by :
    (catalog : List QueueInfo) (key : Bytes) (uses : Bool) (config : Option QueueRuntimeConfig)
    (default_config : QueueRuntimeConfig)
    → queue_uses_dynamic_concurrency catalog key ≡ uses
    → merged catalog key config default_config ≡ merged_by uses config default_config
unfolding merge_queue_runtime_config
merged-merged_by catalog key uses none default_config e = refl
merged-merged_by catalog key uses (some config) default_config e = rw e refl

uses_of :
    (catalog : List QueueInfo) (key : Bytes) (q : QueueInfo)
    → find_queue catalog (base_queue_key key) ≡ some q
    → queue_uses_dynamic_concurrency catalog key ≡ q.dynamic_concurrency
unfolding queue_uses_dynamic_concurrency
uses_of catalog key q found = rw found refl

base_shown :
    (q : QueueInfo) (own base : Option QueueRuntimeConfig)
    → merged_by q.dynamic_concurrency own (config_of (some q))
      ≡ effective_runtime_config
          (concurrency_of q)
          (runtime_queue_config true own base (stored_runtime_default (concurrency_of q)))
unfolding effective_runtime_config runtime_queue_config stored_runtime_default
base_shown q own base = ground arith

own_shown :
    (q : QueueInfo) (own base : Option QueueRuntimeConfig)
    → merged_by q.dynamic_concurrency own
        (merged_by q.dynamic_concurrency base (config_of (some q)))
      ≡ effective_runtime_config
          (concurrency_of q)
          (runtime_queue_config false own base (stored_runtime_default (concurrency_of q)))
unfolding effective_runtime_config runtime_queue_config stored_runtime_default
own_shown q own base = ground arith

abbrev own_or_base :
    Bool
    → Bool
    → Option QueueRuntimeConfig
    → Option QueueRuntimeConfig
    → QueueRuntimeConfig
    → QueueRuntimeConfig
own_or_base true uses own base config = merged_by uses base config
own_or_base false uses own base config = merged_by uses own (merged_by uses base config)

shown_lem :
    (catalog : List QueueInfo) (stored : Stored) (queue_key : Bytes) (q : QueueInfo)
    → find_queue catalog (base_queue_key queue_key) ≡ some q
    → queue_runtime_config_from_map catalog stored queue_key
      ≡ own_or_base
          (bytes_eq queue_key (base_queue_key queue_key))
          q.dynamic_concurrency
          (get stored queue_key)
          (get stored (base_queue_key queue_key))
          (config_of (some q))
unfolding queue_runtime_config_from_map
shown_lem catalog stored queue_key q found =
    let base_key = base_queue_key queue_key in
    let own = get stored queue_key in
    let base = get stored base_key in
    let found_base : find_queue catalog (base_queue_key base_key) ≡ some q =
      rw (queue_base-queue_base queue_key) found in
    let uses = uses_of catalog queue_key q found in
    let base_uses = uses_of catalog base_key q found_base in
    elim (Bool-cases (bytes_eq queue_key base_key)) [
      | inl e ↦
          rw (e, default_queue_runtime_config, found_base)
            (merged-merged_by catalog base_key q.dynamic_concurrency base (config_of (some q))
              base_uses)
      | inr e ↦
          rw (e, default_queue_runtime_config, found_base)
            (rw
              (merged-merged_by catalog base_key q.dynamic_concurrency base (config_of (some q))
                base_uses)
              (merged-merged_by catalog queue_key q.dynamic_concurrency own _ uses))
    ]

-- The page of a queue of the catalog shows what the coordinator runs the queue with: the configuration
-- that is stored for the queue, over the one that is stored for its base, over that of the code.
pub queue_runtime_config_from_map-effective :
    (catalog : List QueueInfo) (stored : Stored) (queue_key : Bytes) (q : QueueInfo)
    → find_queue catalog (base_queue_key queue_key) ≡ some q
    → queue_runtime_config_from_map catalog stored queue_key
      ≡ effective_runtime_config (concurrency_of q) (
          runtime_queue_config
            (bytes_eq queue_key (base_queue_key queue_key))
            (get stored queue_key)
            (get stored (base_queue_key queue_key))
            (stored_runtime_default (concurrency_of q)))
queue_runtime_config_from_map-effective catalog stored queue_key q found =
    let base_key = base_queue_key queue_key in
    let own = get stored queue_key in
    let base = get stored base_key in
    shown_lem catalog stored queue_key q found ∙ elim (Bool-cases (bytes_eq queue_key base_key)) [
      | inl e ↦ rw e (
          ap (λ k. merged_by q.dynamic_concurrency (get stored k) (config_of (some q)))
            (sym (bytes_eq_sound queue_key base_key e))
          ∙ base_shown q own base)
      | inr e ↦ rw e (own_shown q own base)
    ]

-- What a status says of the concurrency that is shown.
abbrev pub Tells : QueueConcurrencyStatus → Option ℕ → Type 0
Tells fixed_concurrency shown = (n : ℕ) × (shown ≡ some n)
Tells (default_concurrency n) shown = shown ≡ some n
Tells (override_concurrency n) shown = (m : ℕ) × (shown ≡ some m) × (m ≢ n)

equal : (m n : ℕ) → m == n ≡ true → m ≡ n
equal m n e = ground arith

different : (m n : ℕ) → m == n ≡ false → m ≢ n
different m n e = ground arith

status_of-Tells :
    (inherited : ℕ) (own : Option QueueRuntimeConfig) (state : QueueState)
    → Tells
        (status_of inherited (concurrency_stored own))
        (merged_by true own (record { concurrency = some inherited; state = state })).concurrency
unfolding with_defaults
status_of-Tells inherited none state = refl
status_of-Tells inherited (some c) state = stored c.concurrency
  where
    stored : (n : Option ℕ) → Tells (status_of inherited n) (or n (some inherited))
    stored none = refl
    stored (some n) = elim (Bool-cases (n == inherited)) [
      | inl e ↦ rw e (ap some (equal n inherited e))
      | inr e ↦ rw e (n, refl, different n inherited e)
    ]

fixed-Tells :
    (own : Option QueueRuntimeConfig) (n : ℕ) (state : QueueState)
    → (m : ℕ) × ((merged_by false own (record { concurrency = some n; state = state })).concurrency
        ≡ some m)
unfolding with_defaults
fixed-Tells none n state = (n, refl)
fixed-Tells (some c) n state = (n, refl)

told :
    (uses : Bool) (inherited : ℕ) (own : Option QueueRuntimeConfig) (state : QueueState)
    → Tells
        (if not uses then fixed_concurrency else status_of inherited (concurrency_stored own))
        (merged_by uses own (record { concurrency = some inherited; state = state })).concurrency
told true inherited own state = status_of-Tells inherited own state
told false inherited own state = fixed-Tells own inherited state

filled :
    (uses : Bool) (base : Option QueueRuntimeConfig) (n : ℕ)
    → (m : ℕ) × (state : QueueState) × (merged_by uses base
          (record { concurrency = some n; state = active })
        ≡ record { concurrency = some m; state = state })
unfolding with_defaults
filled uses none n = (n, active, refl)
filled false (some c) n = (n, c.state, refl)
filled true (some c) n = put c.concurrency
  where
    put :
        (stored : Option ℕ)
        → (m : ℕ) × (state : QueueState) × (◌≡◌ {A = QueueRuntimeConfig}
            (record { concurrency = or stored (some n); state = c.state })
            (record { concurrency = some m; state = state }))
    put none = (n, c.state, refl)
    put (some m) = (m, c.state, refl)

-- For a queue of the catalog the status on its page tells what the concurrency shown there is: as an
-- override, another number than the default that a reset brings back, as a default, that number, and
-- some number if it is fixed by the code.
pub queue_concurrency_status_from_map-Tells :
    (catalog : List QueueInfo) (stored : Stored) (queue_key : Bytes) (q : QueueInfo)
    → find_queue catalog (base_queue_key queue_key) ≡ some q
    → Tells
        (queue_concurrency_status_from_map catalog stored queue_key)
        (queue_runtime_config_from_map catalog stored queue_key).concurrency
unfolding queue_concurrency_status_from_map
queue_concurrency_status_from_map-Tells catalog stored queue_key q found =
    let base_key = base_queue_key queue_key in
    let own = get stored queue_key in
    let base = get stored base_key in
    let same_base = queue_base-queue_base queue_key in
    let found_base : find_queue catalog (base_queue_key base_key) ≡ some q = rw same_base found in
    let uses = uses_of catalog queue_key q found in
    let shown = shown_lem catalog stored queue_key q found in
    let inherited : queue_runtime_config_from_map catalog stored base_key
        ≡ merged_by q.dynamic_concurrency base (config_of (some q)) =
      shown_lem catalog stored base_key q found_base
      ∙ ap
          (λ k.
            own_or_base (bytes_eq base_key k) q.dynamic_concurrency base (get stored k)
              (config_of (some q)))
          same_base
      ∙ ap (λ b. own_or_base b q.dynamic_concurrency base base (config_of (some q)))
          (bytes_eq_refl base_key) in
    let (m, state, filled) = filled q.dynamic_concurrency base q.concurrency in
    elim (Bool-cases (bytes_eq queue_key base_key)) [
      | inl e ↦
          rw (shown, e)
            (rw (uses, default_queue_runtime_config, found_base)
              (subst
                (λ k.
                  Tells
                    (if not q.dynamic_concurrency
                      then fixed_concurrency
                      else status_of q.concurrency (concurrency_stored (get stored k)))
                    (merged_by q.dynamic_concurrency base (config_of (some q))).concurrency)
                (sym (bytes_eq_sound queue_key base_key e))
                (told q.dynamic_concurrency q.concurrency base active)))
      | inr e ↦
          rw (shown, e) (rw (uses, inherited, filled) (told q.dynamic_concurrency m own state))
    ]
