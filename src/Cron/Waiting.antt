-- ===== src/Cron/Waiting.antt =====
-- The rounds of the loop of `cron_job_loop` in oxana/src/storage_internal.rs.
use mathlib.Core.Path.{subst}
use oxana.Base.{
  ℕ, ◌∙◌, ◌⊎◌, inl, inr, ◌≤◌, ◌<◌, Bool, true, false, Option, none, some, List, [], ◌∷◌, ◌++◌, ◌||◌,
  ◌≡◌, refl, ap, arith,
}
use oxana.Cron.{
  UniqueCronAction, enqueue, wait, skip, unique_cron_action, Round, Ending, should_enqueue,
  should_skip, end_round, unique_loop,
}

abbrev saw_job : Round → Bool
saw_job r = elim r.existing [ none ↦ false | some existing ↦ existing ]

abbrev any_saw : List Round → Bool
any_saw [] = false
any_saw (r ∷ rs) = saw_job r || any_saw rs

-- The loop went on through `before` and ended in the round `last`.
pub record Decided (Q : Bool → Round → Type 0) (observed : Bool) (rs : List Round) : Type 0 where
  pub before : List Round
  pub last : Round
  pub after : List Round
  pub split : rs ≡ before ++ last ∷ after
  pub holds : Q (observed || any_saw before) last

-- The round saw no job, and before the scheduled time if a round before it saw one.
abbrev pub Free : ℕ → Bool → Round → Type 0
Free scheduled_at seen r = (r.existing ≡ some false) × (seen ≡ true → r.now < scheduled_at)

-- The time has come, and this round or one before it saw the job.
abbrev pub Late : ℕ → Bool → Round → Type 0
Late scheduled_at seen r = (scheduled_at ≤ r.now) × (seen || saw_job r ≡ true)

or_assoc : (a b c : Bool) → (a || b) || c ≡ a || (b || c)
or_assoc true b c = refl
or_assoc false b c = refl

or_false : (a : Bool) → a ≡ a || false
or_false true = refl
or_false false = refl

later :
    {Q : Bool → Round → Type 0} {observed observed' : Bool} (r : Round) {rs : List Round}
    → observed' ≡ observed || saw_job r
    → Decided Q observed' rs
    → Decided Q observed (r ∷ rs)
later {Q = Q} {observed = observed} r e d = record {
  before = r ∷ d.before;
  last = d.last;
  after = d.after;
  split = ap (λ x. r ∷ x) d.split;
  holds =
      subst (λ b. Q b d.last)
        (ap (λ b. b || any_saw d.before) e ∙ or_assoc observed (saw_job r) (any_saw d.before))
        d.holds;
}

now-Decided :
    {Q : Bool → Round → Type 0} {observed : Bool} (r : Round) (rs : List Round)
    → Q observed r
    → Decided Q observed (r ∷ rs)
now-Decided {Q = Q} {observed = observed} r rs q = record {
  before = [];
  last = r;
  after = rs;
  split = refl;
  holds = subst (λ b. Q b r) (or_false observed) q;
}

enqueue_lem :
    (existing observed : Bool) (scheduled_at now : ℕ)
    → unique_cron_action existing observed scheduled_at now ≡ enqueue
    → (existing ≡ false) × (observed ≡ true → now < scheduled_at)
unfolding unique_cron_action
enqueue_lem existing observed scheduled_at now e = ground arith

skip_lem :
    (existing observed : Bool) (scheduled_at now : ℕ)
    → unique_cron_action existing observed scheduled_at now ≡ skip
    → (scheduled_at ≤ now) × (observed || existing ≡ true)
unfolding unique_cron_action
skip_lem existing observed scheduled_at now e = ground arith

ended :
    (act : UniqueCronAction) (rest : Ending)
    → end_round act rest ≡ should_enqueue
    → (act ≡ enqueue) ⊎ (rest ≡ should_enqueue)
ended enqueue rest e = inl refl
ended wait rest e = inr e
ended skip rest e = cc

skipped :
    (act : UniqueCronAction) (rest : Ending)
    → end_round act rest ≡ should_skip
    → (act ≡ skip) ⊎ (rest ≡ should_skip)
skipped skip rest e = inl refl
skipped wait rest e = inr e
skipped enqueue rest e = cc

-- An occurrence is enqueued in a round that sees no job under its identifier, and once a round saw
-- one, only before the occurrence's own time.
pub enqueue-Free :
    (scheduled_at : ℕ) (observed : Bool) (rs : List Round)
    → unique_loop scheduled_at observed rs ≡ should_enqueue
    → Decided (Free scheduled_at) observed rs
unfolding unique_loop
enqueue-Free scheduled_at observed [] e = cc
enqueue-Free scheduled_at observed (r ∷ rs) e =
    round (λ o. enqueue-Free scheduled_at o rs) r.existing r.now e
  where
    round :
        (rest : (o : Bool)
          → unique_loop scheduled_at o rs ≡ should_enqueue
          → Decided (Free scheduled_at) o rs)
        (existing : Option Bool) (now : ℕ)
        → unique_loop scheduled_at observed (record { existing = existing; now = now } ∷ rs)
          ≡ should_enqueue
        → Decided (Free scheduled_at) observed (record { existing = existing; now = now } ∷ rs)
    round rest none now e = later _ (or_false observed) (rest observed e)
    round rest (some existing) now e = elim (ended _ _ e) [
      | inl act ↦
          now-Decided _ rs
            (let h = enqueue_lem existing observed scheduled_at now act in (ap some h.0, h.1))
      | inr more ↦ later _ refl (rest (observed || existing) more)
    ]

-- An occurrence is skipped only when its time has come while a job under its identifier was seen.
pub skip-Late :
    (scheduled_at : ℕ) (observed : Bool) (rs : List Round)
    → unique_loop scheduled_at observed rs ≡ should_skip
    → Decided (Late scheduled_at) observed rs
unfolding unique_loop
skip-Late scheduled_at observed [] e = cc
skip-Late scheduled_at observed (r ∷ rs) e =
    round (λ o. skip-Late scheduled_at o rs) r.existing r.now e
  where
    round :
        (rest : (o : Bool)
          → unique_loop scheduled_at o rs ≡ should_skip
          → Decided (Late scheduled_at) o rs)
        (existing : Option Bool) (now : ℕ)
        → unique_loop scheduled_at observed (record { existing = existing; now = now } ∷ rs)
          ≡ should_skip
        → Decided (Late scheduled_at) observed (record { existing = existing; now = now } ∷ rs)
    round rest none now e = later _ (or_false observed) (rest observed e)
    round rest (some existing) now e = elim (skipped _ _ e) [
      | inl act ↦ now-Decided _ rs (skip_lem existing observed scheduled_at now act)
      | inr more ↦ later _ refl (rest (observed || existing) more)
    ]
