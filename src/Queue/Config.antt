-- ===== src/Queue/Config.antt =====
-- Which of the stored configurations of a queue counts, for `runtime_queue_config` of
-- oxana/src/coordinator.rs and `effective_runtime_config` of oxana/src/queue.rs.
use oxana.Base.{ℕ, Bool, true, false, Option, none, some, List, [], ◌∷◌, ◌≡◌, arith}
use oxana.Queue.{
  QueueConcurrency, QueueState, active, QueueRuntimeConfig, stored_runtime_default,
  effective_runtime_config, effective_concurrency, runtime_queue_config,
}

-- The configurations that are asked, the nearest first.
abbrev asked :
    Bool → Option QueueRuntimeConfig → Option QueueRuntimeConfig → List (Option QueueRuntimeConfig)
asked true own base = own ∷ []
asked false own base = own ∷ base ∷ []

abbrev concurrency_in : List (Option QueueRuntimeConfig) → Option ℕ
concurrency_in [] = none
concurrency_in (none ∷ cs) = concurrency_in cs
concurrency_in (some c ∷ cs) = elim c.concurrency [ none ↦ concurrency_in cs | some n ↦ some n ]

abbrev state_in : List (Option QueueRuntimeConfig) → QueueState
state_in [] = active
state_in (none ∷ cs) = state_in cs
state_in (some c ∷ cs) = c.state

-- A queue runs with its fixed concurrency, or for a dynamic one with the first that is stored, its
-- own before its base's, else the default of the code. It is paused as its own stored configuration
-- says, else as its base's says, else not. The configuration of a base key is asked alone.
pub effective-runtime_queue_config :
    (c : QueueConcurrency) (is_base : Bool) (own base : Option QueueRuntimeConfig)
    → effective_runtime_config c (runtime_queue_config is_base own base (stored_runtime_default c))
      ≡ record {
        concurrency = some (effective_concurrency c (concurrency_in (asked is_base own base)));
        state = state_in (asked is_base own base);
      }
unfolding effective_runtime_config runtime_queue_config stored_runtime_default
effective-runtime_queue_config c is_base own base = ground arith
