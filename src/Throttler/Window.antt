-- ===== src/Throttler/Window.antt =====
-- What oxana/src/throttler.rs lets through within a window, and how long it makes a caller wait.
use oxana.Base.{
  none, ℕ, zero, suc, ◌+◌, ◌*◌, ◌≤◌, ◌<◌, Bool, true, false, Option, some, List, [], ◌∷◌, ◌≡◌, refl,
  sym, ◌∙◌, ap, arith, ltb, leb, some_inj, unwrap_or, if◌then◌else◌,
}
use oxana.Base.Lists.{length}
use oxana.Throttler.{
  Throttler, Millis, millis, ThrottlerState, window_micros, expired, remove_expired, first,
  wait_from, throttled, state_w_conn, add_times, consume,
}

length-remove_expired :
    (t : Throttler) (now : ℕ) (scores : List ℕ)
    → length (remove_expired t now scores) ≤ length scores
unfolding remove_expired
length-remove_expired t now [] = omega arith
length-remove_expired t now (s ∷ scores) = ground (arith, length-remove_expired t now scores)

length-add_times :
    (n time : ℕ) (scores : List ℕ) → length (add_times n time scores) ≡ n + length scores
length-add_times zero time scores = omega arith
length-add_times (suc n) time scores = omega (arith, length-add_times n time scores)

-- A call of `consume` whose first pipeline has answered: its cost, its time and the answer.
pub record Call : Type 0 where
  pub cost : Option ℕ
  pub current : ℕ
  pub seen : ThrottlerState

-- The sorted set, and the calls that are between their two pipelines.
pub record Shared : Type 0 where
  pub scores : List ℕ
  pub calls : List Call

-- The first pipeline of a call, its second one, or its failure before that; `state` of any process.
-- A call is named by its place.
pub data Step : Type 0 where
  asks : Option ℕ → ℕ → ℕ → Step
  adds fails : ℕ → Step
  looks : ℕ → Step

abbrev pub ask : Option ℕ → ℕ → ThrottlerState × List ℕ → List Call → Shared
ask cost current (seen, kept) calls = record {
  scores = kept;
  calls = record { cost = cost; current = current; seen = seen } ∷ calls;
}

-- The call at a place, and the others.
abbrev pub kept : Call → Option Call × List Call → Option Call × List Call
kept call (found, rest) = (found, call ∷ rest)

abbrev pub pick : ℕ → List Call → Option Call × List Call
pick i [] = (none, [])
pick zero (call ∷ calls) = (some call, calls)
pick (suc i) (call ∷ calls) = kept call (pick i calls)

abbrev pub add : List ℕ → Option Call × List Call → Shared
add scores (none, calls) = record { scores = scores; calls = calls }
add scores (some call, calls) = record {
  scores = (consume call.cost call.current call.seen scores).1;
  calls = calls;
}

unfoldable pub step : Throttler → Step → Shared → Shared
unfolding state_w_conn consume
step t (asks cost current now) s = ask cost current (state_w_conn t now s.scores) s.calls
step t (adds i) s = add s.scores (pick i s.calls)
step t (fails i) s = record { scores = s.scores; calls = (pick i s.calls).1 }
step t (looks now) s = record { scores = (state_w_conn t now s.scores).1; calls = s.calls }

-- The state after some steps, the last of which comes first.
abbrev pub after : Throttler → List Step → Shared
after t [] = record { scores = []; calls = [] }
after t (x ∷ xs) = step t x (after t xs)

-- What a call may still add, and the calls together.
abbrev pub open_cost : Call → ℕ
open_cost call = if call.seen.is_allowed then unwrap_or call.cost 1 else 0

abbrev pub open_costs : List Call → ℕ
open_costs [] = 0
open_costs (call ∷ calls) = open_cost call + open_costs calls

-- At no time do the open calls add more than `budget`.
abbrev pub Within : Throttler → ℕ → List Step → Type 0
Within t budget [] = Unit {0}
Within t budget (x ∷ xs) = (open_costs (after t (x ∷ xs)).calls ≤ budget) × Within t budget xs

-- What stands in the set and what may still come to it.
abbrev total : Shared → ℕ
total s = length s.scores + open_costs s.calls

open_costs-pick :
    (i : ℕ) (calls : List Call)
    → open_costs calls
      ≡ (elim (pick i calls).0 [ none ↦ 0 | some call ↦ open_cost call ])
        + open_costs (pick i calls).1
open_costs-pick i [] = omega arith
open_costs-pick zero (call ∷ calls) = refl
open_costs-pick (suc i) (call ∷ calls) = omega (arith, open_costs-pick i calls)

length-consume :
    (call : Call) (scores : List ℕ)
    → length (consume call.cost call.current call.seen scores).1 ≡ open_cost call + length scores
unfolding consume
length-consume call scores =
    ground (arith, length-add_times (unwrap_or call.cost 1) call.current scores)

total-add :
    (scores : List ℕ) (found : Option Call) (calls : List Call)
    → total (add scores (found, calls))
      ≡ length scores + ((elim found [ none ↦ 0 | some call ↦ open_cost call ]) + open_costs calls)
total-add scores none calls = omega arith
total-add scores (some call) calls = omega (arith, length-consume call scores)

-- A call is allowed only below the limit.
asked :
    (limit kept old others cost budget : ℕ)
    → 0 < limit
    → kept ≤ old
    → old + others < limit + budget
    → (if ltb kept limit then cost else 0) + others ≤ budget
    → kept + ((if ltb kept limit then cost else 0) + others) < limit + budget
asked limit kept old others cost budget positive less h fits = ground arith

step-total :
    (t : Throttler) (budget : ℕ) (x : Step) (s : Shared)
    → 0 < t.limit
    → total s < t.limit + budget
    → open_costs (step t x s).calls ≤ budget
    → total (step t x s) < t.limit + budget
unfolding step state_w_conn
step-total t budget (asks cost current now) s positive h fits =
    asked t.limit (length (remove_expired t now s.scores)) (length s.scores) (open_costs s.calls)
      (unwrap_or cost 1) budget positive (length-remove_expired t now s.scores) h fits
step-total t budget (adds i) s positive h fits =
    let e = total-add s.scores (pick i s.calls).0 (pick i s.calls).1 in
    let o = open_costs-pick i s.calls in omega (arith, e, o, h)
step-total t budget (fails i) s positive h fits =
    let o = open_costs-pick i s.calls in omega (arith, o, h)
step-total t budget (looks now) s positive h fits =
    omega (arith, length-remove_expired t now s.scores, h)

after-total :
    (t : Throttler) (budget : ℕ) (xs : List Step)
    → 0 < t.limit
    → Within t budget xs
    → total (after t xs) < t.limit + budget
after-total t budget [] positive within = omega arith
after-total t budget (x ∷ xs) positive within =
    step-total t budget x (after t xs) positive (after-total t budget xs positive within.1) within.0

-- With a limit above 0, if the calls that are between their two pipelines never have more than `budget`
-- to add together, then after any steps of any processes fewer requests than the limit and the budget
-- together stand in the window.
pub consume-bounded :
    (t : Throttler) (budget : ℕ) (xs : List Step)
    → 0 < t.limit
    → Within t budget xs
    → length (after t xs).scores < t.limit + budget
consume-bounded t budget xs positive within =
    let h = after-total t budget xs positive within in omega (arith, h)

waited :
    (b : Bool) (n m : ℕ) (z : Millis) → b ≡ true → (if b then millis n else z) ≡ millis m → n ≡ m
waited true n m z b e = cc
waited false n m z b e = cc

wait_lem :
    (t : Throttler) (now start m : ℕ)
    → start ≤ now
    → wait_from t now start ≡ millis m
    → (now + window_micros t < start + m * 1000) × (t.window_ms < m)
wait_lem t now start m h e =
    let q = waited (leb start (now + window_micros t)) _ m _ (ground (arith, h)) e in
    (omega (arith, q, h), omega (arith, q, h))

not_allowed :
    (t : Throttler) (now start : ℕ) (b : Bool) (m : Millis)
    → throttled t now b (some start) ≡ some m
    → wait_from t now start ≡ m
not_allowed t now start true m e = cc
not_allowed t now start false m e = some_inj e

-- If the oldest request of the window is not later than now, a caller that is told to wait, and
-- waits as long, finds it expired; and the wait is longer than a whole window.
pub throttled_for-enough :
    (t : Throttler) (now start m : ℕ) (scores : List ℕ)
    → first (state_w_conn t now scores).1 ≡ some start
    → start ≤ now
    → (state_w_conn t now scores).0.throttled_for ≡ some (millis m)
    → (expired t (now + m * 1000) start ≡ true) × (t.window_ms < m)
unfolding state_w_conn
throttled_for-enough t now start m scores oldest h e =
    let kept = remove_expired t now scores in
    let w = wait_lem t now start m h (
      not_allowed t now start (ltb (length kept) t.limit) (millis m)
        (sym (ap (throttled t now (ltb (length kept) t.limit)) oldest) ∙ e)) in
    (ground (arith, w.0), w.1)
