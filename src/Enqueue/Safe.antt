-- ===== src/Enqueue/Safe.antt =====
-- The script oxana/src/enqueue.lua, and the places of every job.
use oxana.Base.{String, Option, none, some, List, [], ◌∷◌}
use oxana.Redis.{Redis}
use oxana.Errors.{Result}
use oxana.Json.{Json}
use oxana.Keys.{StorageKeys}
use oxana.Safety.Scripts.{Safe}
use oxana.Safety.Commands.{Keeps, Keeps-ok, Keeps-checked}
use oxana.Enqueue.{JobDestination, EnqueueOutcome, Snapshot, Input}
use oxana.Enqueue.Script.{
  Present, QueueKeys, Write, plan, with_plan, Answer, enqueue_script, if_fresh, finish,
}
use oxana.Enqueue.Commit.{Valid, AllValid, commit-Safe}

module _ ⦃R : Redis⦄ {V : Type 0} (J : Json V) (keys : StorageKeys) where
  abbrev pub Inputs : List Input → Type 0
  Inputs [] = Unit {0}
  Inputs (i ∷ is) = Valid J keys i × Inputs is

  -- The writes of a plan are of inputs of the chunk.
  with_plan-AllValid :
      (i : Input) (p : Option (Option (Option String) × EnqueueOutcome))
      (rest : List Write × List EnqueueOutcome)
      → Valid J keys i
      → AllValid J keys rest.0
      → AllValid J keys (with_plan i p rest).0
  with_plan-AllValid i none (ws, os) v vs = vs
  with_plan-AllValid i (some (replacing, o)) (ws, os) v vs = (v, vs)

  plan-AllValid :
      (d : R.Db) (is : List Input)
      → Inputs is
      → (present : Present) (queue_keys : QueueKeys)
      → AllValid J keys (plan keys.jobs d present queue_keys is).0
  unfolding plan
  plan-AllValid d [] h present queue_keys = tt
  plan-AllValid d (i ∷ is) h present queue_keys =
      with_plan-AllValid i _ _ h.0 (plan-AllValid d is h.1 _ _)

  if_fresh-Safe :
      (stale : List (String × Option String)) {r : Result Answer × R.Db} {d : R.Db}
      → Keeps J keys r
      → Safe J keys d
      → Keeps J keys (if_fresh stale r d)
  if_fresh-Safe [] k s = k
  if_fresh-Safe (c ∷ cs) k s = Keeps-ok J keys _ s

  finish-Safe :
      (destination : JobDestination) (p : List Write × List EnqueueOutcome) (d : R.Db)
      → AllValid J keys p.0
      → Safe J keys d
      → Keeps J keys (finish keys.jobs keys.schedule keys.retry destination p d)
  finish-Safe destination (ws, os) d v s =
      Keeps-checked J keys _ (Keeps-ok J keys _ (commit-Safe J keys destination ws d v s)) s

  -- The script, from a safe state, ends in one.
  pub enqueue_script-Safe :
      (destination : JobDestination) (snapshots : List Snapshot) (inputs : List Input) (d : R.Db)
      → Inputs inputs
      → Safe J keys d
      → Keeps J keys
          (enqueue_script keys.jobs keys.schedule keys.retry destination snapshots inputs d)
  unfolding enqueue_script
  enqueue_script-Safe destination snapshots inputs d valid s =
      Keeps-checked J keys _
        (if_fresh-Safe _
          (finish-Safe destination (plan keys.jobs d _ _ inputs) d
            (plan-AllValid d inputs valid _ _) s)
          s)
        s
