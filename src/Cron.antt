-- ===== src/Cron.antt =====
-- `unique_cron_action` and the loop of `cron_job_loop` in oxana/src/storage_internal.rs that waits
-- for the former occurrence of a unique job.
pub mod Waiting
use oxana.Base.{
  ℕ, Bool, true, false, Option, none, some, List, [], ◌∷◌, ◌&&◌, ◌||◌, leb, if◌then◌else◌,
}

pub data UniqueCronAction : Type 0 where
  enqueue wait skip : UniqueCronAction

unfoldable pub unique_cron_action : Bool → Bool → ℕ → ℕ → UniqueCronAction
unique_cron_action existing_job previously_observed_existing_job scheduled_at now =
    if leb scheduled_at now && (existing_job || previously_observed_existing_job)
    then skip
    else if existing_job
    then wait
    else enqueue

-- A round reads whether the job exists, or not even that when Redis fails within the tolerance, and
-- then the clock.
pub record Round : Type 0 where
  pub existing : Option Bool
  pub now : ℕ

-- How the loop ends: with or without a job to enqueue, or when the process stops.
pub data Ending : Type 0 where
  should_enqueue should_skip cancelled : Ending

abbrev pub action : ℕ → Bool → Round → UniqueCronAction × Bool
action scheduled_at observed r = elim r.existing [
  | none ↦ (wait, observed)
  | some existing ↦ (unique_cron_action existing observed scheduled_at r.now, observed || existing)
]

abbrev pub end_round : UniqueCronAction → Ending → Ending
end_round skip rest = should_skip
end_round wait rest = rest
end_round enqueue rest = should_enqueue

-- The rounds before the process stops.
unfoldable pub unique_loop : ℕ → Bool → List Round → Ending
unfolding unique_cron_action
unique_loop scheduled_at observed [] = cancelled
unique_loop scheduled_at observed (r ∷ rs) =
    let (act, observed') = action scheduled_at observed r in
    end_round act (unique_loop scheduled_at observed' rs)
