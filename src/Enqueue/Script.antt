-- ===== src/Enqueue/Script.antt =====
-- oxana/src/enqueue.lua: the plan of a chunk, the test of the keys and the writes.
use oxana.Base.{
  ◌++◌, String, Bool, true, false, Option, none, some, List, [], ◌∷◌, ◌&&◌, str_eq, not, is_some,
  if◌then◌else◌,
}
use oxana.Errors.{Result, ok}
use oxana.Redis.{Redis, Kind, hash, list, zset}
use oxana.Exec.{Command}
use oxana.Scripts.{hget, checked}
use oxana.Enqueue.{
  JobDestination, queue, schedule, Conflict, default, replace, skip, EnqueueOutcome, skipped,
  enqueued, replaced, Snapshot, Input, lookup, is_default, same_snapshot,
}

-- What the plan knows of an identifier: whether its payload is present, and its queue.
abbrev pub Present : Type 0
Present = List (String × Bool)

abbrev pub QueueKeys : Type 0
QueueKeys = List (String × Option String)

pub record Write : Type 0 where
  pub input : Input
  -- The old queue of a job that is replaced; an absent one is an error of Lua.
  pub replacing : Option (Option String)

abbrev exists_in : Option Bool → Bool → Bool → Bool
exists_in none unconditional stored = not unconditional && stored
exists_in (some b) unconditional stored = b

abbrev flatten : Option (Option String) → Option String
flatten none = none
flatten (some q) = q

abbrev planned : Conflict → Bool → Option String → Option (Option (Option String) × EnqueueOutcome)
planned skip true old = none
planned skip false old = some (none, enqueued)
planned replace true old = some (some old, replaced)
planned replace false old = some (none, enqueued)
planned default exists old = some (none, enqueued)

abbrev Plan : Type 0
Plan = List Write × List EnqueueOutcome

abbrev same_kind : Kind → Kind → Bool
same_kind hash hash = true
same_kind hash list = false
same_kind hash zset = false
same_kind list hash = false
same_kind list list = true
same_kind list zset = false
same_kind zset hash = false
same_kind zset list = false
same_kind zset zset = true

abbrev target : String → JobDestination → Input → Option String × Kind
target schedule_key queue i = (some i.queue_key, list)
target schedule_key schedule i = (some schedule_key, zset)

module _ ⦃R : Redis⦄ where
  -- In input order; `rest` is the plan of the inputs behind.
  abbrev pub with_plan : Input → Option (Option (Option String) × EnqueueOutcome) → Plan → Plan
  with_plan i none (writes, outcomes) = (writes, skipped ∷ outcomes)
  with_plan i (some (replacing, outcome)) (writes, outcomes) =
      (record { input = i; replacing = replacing } ∷ writes, outcome ∷ outcomes)

  abbrev pub known :
      Input → Bool → Option (Option (Option String) × EnqueueOutcome) → Present → Present
  known i exists none present = (i.id, exists) ∷ present
  known i exists (some p) present = (i.id, true) ∷ present

  abbrev pub known_queue :
      Input → Option (Option (Option String) × EnqueueOutcome) → QueueKeys → QueueKeys
  known_queue i none queue_keys = queue_keys
  known_queue i (some p) queue_keys = (i.id, some i.queue_key) ∷ queue_keys

  unfoldable pub plan : String → R.Db → Present → QueueKeys → List Input → Plan
  plan jobs d present queue_keys [] = ([], [])
  plan jobs d present queue_keys (i ∷ is) =
      let exists =
        exists_in (lookup i.id present) (is_default i.conflict) (is_some (hget d jobs i.id)) in
      let p = planned i.conflict exists (flatten (lookup i.id queue_keys)) in
      with_plan i p (plan jobs d (known i exists p present) (known_queue i p queue_keys) is)

  -- `require_type` for one key after another: a key that was asked before must be of the same kind.
  unfoldable pub require_types : R.Db → List (String × Kind) → List (String × Kind) → Bool
  require_types d asked [] = true
  require_types d asked ((key, kind) ∷ rest) =
      let now = R.fits d key kind && require_types d ((key, kind) ∷ asked) rest in
      let again = require_types d asked rest in
      elim (lookup key asked) [ none ↦ now | some before ↦ same_kind before kind && again ]

  -- The keys of a write in the order in which they are tested; `none` where a key is absent.
  abbrev keys_of :
      String
      → String
      → JobDestination
      → Input
      → Option (Option String)
      → List (Option String × Kind)
  keys_of schedule_key retry destination i none = target schedule_key destination i ∷ []
  keys_of schedule_key retry destination i (some old) =
      target schedule_key destination i
      ∷ (some schedule_key, zset)
      ∷ (some retry, zset)
      ∷ (old, list)
      ∷ (some i.queue_key, list)
      ∷ []

  abbrev all_present : List (Option String × Kind) → Option (List (String × Kind))
  all_present [] = some []
  all_present ((none, kind) ∷ rest) = none
  all_present ((some key, kind) ∷ rest) = elim (all_present rest) [
    | none ↦ none
    | some keys ↦ some ((key, kind) ∷ keys)
  ]

  abbrev keys_of_all : String → String → JobDestination → List Write → List (Option String × Kind)
  keys_of_all schedule_key retry destination [] = []
  keys_of_all schedule_key retry destination (w ∷ ws) =
      keys_of schedule_key retry destination w.input w.replacing
      ++ keys_of_all schedule_key retry destination ws

  abbrev pub preflight : String → String → String → JobDestination → List Write → R.Db → Bool
  preflight jobs schedule_key retry destination ws d =
      elim (all_present (keys_of_all schedule_key retry destination ws)) [
        | none ↦ false
        | some keys ↦ require_types d ((jobs, hash) ∷ []) keys
      ]

  abbrev pub remove_old : Option String → String → R.Db → R.Db
  remove_old none id d = d
  remove_old (some old) id d = R.lrem_all old id d

  abbrev pub is_key : Option String → String → Bool
  is_key none key = false
  is_key (some old) key = str_eq old key

  -- A job that is replaced leaves the sorted sets, its old queue and its new one.
  unfoldable pub clear_places : String → String → Option (Option String) → Input → R.Db → R.Db
  clear_places schedule_key retry none i d = d
  clear_places schedule_key retry (some old) i d =
      let cleared = remove_old old i.id (R.zrem retry i.id (R.zrem schedule_key i.id d)) in
      if is_key old i.queue_key then cleared else R.lrem_all i.queue_key i.id cleared

  abbrev pub place : String → JobDestination → Input → R.Db → R.Db
  place schedule_key queue i d = R.lpush i.queue_key i.id d
  place schedule_key schedule i d = R.zadd schedule_key i.score i.id d

  unfoldable pub write_one : String → String → String → JobDestination → Write → R.Db → R.Db
  unfolding clear_places
  write_one jobs schedule_key retry destination w d =
      let i : Input = w.input in
      place schedule_key destination i
        (R.hset jobs i.id i.payload (clear_places schedule_key retry w.replacing i d))

  unfoldable pub commit : String → String → String → JobDestination → List Write → R.Db → R.Db
  unfolding write_one
  commit jobs schedule_key retry destination [] d = d
  commit jobs schedule_key retry destination (w ∷ ws) d =
      commit jobs schedule_key retry destination ws
        (write_one jobs schedule_key retry destination w d)

  -- The snapshots that are stale, with what is stored now.
  abbrev pub changed : String → R.Db → List Snapshot → List (String × Option String)
  changed jobs d [] = []
  changed jobs d (s ∷ ss) =
      let rest = changed jobs d ss in
      if same_snapshot s.expected (hget d jobs s.id) then rest else (s.id, hget d jobs s.id) ∷ rest

  abbrev pub present_of : String → R.Db → List Snapshot → Present
  present_of jobs d [] = []
  present_of jobs d (s ∷ ss) = (s.id, is_some (hget d jobs s.id)) ∷ present_of jobs d ss

  abbrev pub queue_keys_of : List Snapshot → QueueKeys
  queue_keys_of [] = []
  queue_keys_of (s ∷ ss) = (s.id, s.queue_key) ∷ queue_keys_of ss

  abbrev pub Answer : Type 0
  Answer = List (String × Option String) × List EnqueueOutcome

  abbrev pub finish : String → String → String → JobDestination → Plan → Command R.Db Answer
  finish jobs schedule_key retry destination (ws, outcomes) d =
      checked (preflight jobs schedule_key retry destination ws d)
        (ok ([], outcomes), commit jobs schedule_key retry destination ws d) d

  -- A stale snapshot causes no writes.
  abbrev pub if_fresh : List (String × Option String) → Result Answer × R.Db → Command R.Db Answer
  if_fresh [] done d = done
  if_fresh (c ∷ cs) done d = (ok (c ∷ cs, []), d)

  unfoldable pub enqueue_script :
      String → String → String → JobDestination → List Snapshot → List Input → Command R.Db Answer
  unfolding plan commit require_types
  enqueue_script jobs schedule_key retry destination snapshots inputs d =
      checked (R.fits d jobs hash)
        (if_fresh (changed jobs d snapshots)
          (finish jobs schedule_key retry destination
            (plan jobs d (present_of jobs d snapshots) (queue_keys_of snapshots) inputs) d)
          d)
        d
