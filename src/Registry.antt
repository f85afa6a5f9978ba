-- ===== src/Registry.antt =====
-- oxana/src/worker_registry.rs: the workers by the names of their jobs, and the older names that
-- stand for them. A map is a function here. `F` stands for the factories of one worker, `On` for what
-- a job that can be enqueued on demand comes with; a schedule is parsed by the library cron, whose
-- answer comes in the configuration, and a panic is `none`.
pub mod Names
pub mod Batch
use oxana.Base.{
  ℕ, ◌+◌, String, Bool, true, false, Option, none, some, List, [], ◌∷◌, ◌&&◌, ◌||◌, not, is_some,
  str_eq, unwrap_or, if◌then◌else◌,
}

abbrev pub Map {ℓ} : Type ℓ → Type ℓ
Map A = String → Option A

abbrev pub put {ℓ} : {A : Type ℓ} → String → Option A → Map A → Map A
put k v m k' = if str_eq k k' then v else m k'

pub record CronJob : Type 0 where
  pub schedule : String
  pub queue_key : String
  pub resurrect : Bool

-- A cron worker comes with its schedule if that is valid.
pub data WorkerConfigKind : Type 0 where
  normal : WorkerConfigKind
  cron : Option CronJob → WorkerConfigKind

pub record WorkerRegistry (F On : Type 0) : Type 0 where
  pub jobs : Map F
  pub aliases : Map String
  pub schedules : Map CronJob
  pub on_demand_jobs : Map On

pub record WorkerConfig (F On : Type 0) : Type 0 where
  pub name : String
  pub legacy_names : List String
  pub factories : F
  pub on_demand : Option On
  pub kind : WorkerConfigKind

-- An older name gives way to a job of that name and to an alias that is there.
abbrev pub alias_of : {F : Type 0} → Option F → Option String → Bool → String → Option String
alias_of (some f) old same canonical = old
alias_of none (some target) same canonical = some target
alias_of none none true canonical = none
alias_of none none false canonical = some canonical

abbrev is_cron : WorkerConfigKind → Bool
is_cron normal = false
is_cron (cron job) = true

module _ {F On : Type 0} where
  unfoldable pub empty : WorkerRegistry F On
  empty = record {
    jobs = λ k. none;
    aliases = λ k. none;
    schedules = λ k. none;
    on_demand_jobs = λ k. none;
  }

  unfoldable pub register_legacy_name : String → String → WorkerRegistry F On → WorkerRegistry F On
  register_legacy_name canonical_name legacy_name r = record {
    jobs = r.jobs;
    aliases =
        put legacy_name
          (alias_of (r.jobs legacy_name) (r.aliases legacy_name) (str_eq legacy_name canonical_name)
            canonical_name)
          r.aliases;
    schedules = r.schedules;
    on_demand_jobs = r.on_demand_jobs;
  }

  unfoldable pub register_legacy_names :
      String → List String → WorkerRegistry F On → WorkerRegistry F On
  unfolding register_legacy_name
  register_legacy_names name [] r = r
  register_legacy_names name (legacy ∷ names) r =
      register_legacy_names name names (register_legacy_name name legacy r)

  abbrev with_schedule : String → Option CronJob → WorkerRegistry F On → WorkerRegistry F On
  with_schedule name job r = record {
    jobs = r.jobs;
    aliases = r.aliases;
    schedules = put name job r.schedules;
    on_demand_jobs = r.on_demand_jobs;
  }

  -- Its job, with no alias of its name.
  unfoldable pub registered : WorkerConfig F On → WorkerRegistry F On → WorkerRegistry F On
  registered c r = record {
    jobs = put c.name (some c.factories) r.jobs;
    aliases = put c.name none r.aliases;
    schedules = r.schedules;
    on_demand_jobs = put c.name c.on_demand r.on_demand_jobs;
  }

  abbrev pub scheduled_as :
      WorkerConfigKind → String → WorkerRegistry F On → Option (WorkerRegistry F On)
  scheduled_as normal name r = some (with_schedule name none r)
  scheduled_as (cron none) name r = none
  scheduled_as (cron (some job)) name r = some (with_schedule name (some job) r)

  abbrev pub with_legacy_names :
      String → List String → Option (WorkerRegistry F On) → Option (WorkerRegistry F On)
  with_legacy_names name names none = none
  with_legacy_names name names (some r) = some (register_legacy_names name names r)

  -- The second argument says whether a factory of cron envelopes is given.
  unfoldable pub register_worker_with :
      WorkerConfig F On → Bool → WorkerRegistry F On → Option (WorkerRegistry F On)
  unfolding registered register_legacy_names
  register_worker_with c typed r =
      if typed || not (is_cron c.kind)
      then with_legacy_names c.name c.legacy_names (scheduled_as c.kind c.name (registered c r))
      else none

  unfoldable pub resolve_name : WorkerRegistry F On → String → String
  resolve_name r name = if is_some (r.jobs name) then name else unwrap_or (r.aliases name) name

  unfoldable pub factories_for : WorkerRegistry F On → String → Option F
  unfolding resolve_name
  factories_for r name = r.jobs (resolve_name r name)
