-- ===== src/Enqueue/Unique.antt =====
-- `enqueue_chunk_w_conn` of oxana/src/storage_internal.rs for a chunk with unique jobs, and the
-- places of every job.
use oxana.Base.{
  ℕ, zero, suc, String, Bool, true, false, Option, none, some, List, [], ◌∷◌, ◌≡◌, ◌≢◌, map,
  if◌then◌else◌,
}
use oxana.Redis.{Redis}
use oxana.Errors.{generic_error}
use oxana.Envelope.{JobEnvelope}
use oxana.Json.{Json, reread}
use oxana.Keys.{StorageKeys, namespace_queue}
use oxana.Exec.{Exec, Command, pure, round_trip, ◌>>=◌}
use oxana.Exec.Triple.{Stable, Triple-pure, Triple-test}
use oxana.Storage.{StorageInternal, lift}
use oxana.Safety.Scripts.{Safe}
use oxana.Safety.Commands.{Keeps}
use oxana.Safety.Operations.{LosesNone, send, seq, done, stop, checked_read}
use oxana.Safety.Pipelines.{lift-Safe}
use oxana.Enqueue.{JobDestination, EnqueueOutcome, EnqueueSnapshot, lookup}
use oxana.Enqueue.Safe.{Inputs, enqueue_script-Safe}
use oxana.Enqueue.Chunk.{
  Raw, skips, any_unique, pending_of, Snapshots, parse_snapshots, update_snapshots,
}
use oxana.Enqueue.Requests.{
  written_after, snapshot_arg, input_arg, read_snapshots, known_existing, drop_existing,
  ask_existing, invoke, send_pending, enqueue_chunk_w_conn,
}

-- No job of the chunk names the list of dead jobs as its queue.
abbrev pub Queued : {V : Type 0} → StorageKeys → List (JobEnvelope V) → Type 0
Queued keys [] = Unit {0}
Queued keys (e ∷ es) = (namespace_queue keys e.queue ≢ keys.dead) × Queued keys es

module _ ⦃R : Redis⦄ {V : Type 0} (J : Json V) (raw_queue : String → Option Raw)
    (s : StorageInternal) (G : (R.Db → R.Db) → Type 0)
    (stable : Stable G (Safe J s.keys) (Safe J s.keys)) where
  Inputs-map :
      (es : List (JobEnvelope V))
      → Queued s.keys es
      → Inputs J s.keys (map (input_arg J raw_queue s) es)
  Inputs-map [] q = tt
  Inputs-map (e ∷ es) q =
      ((reread J.is_null e, J.from_str-to_string e, q.0, q.0), Inputs-map es q.1)

  Queued-if :
      (b : Bool) (e : JobEnvelope V) (es fs : List (JobEnvelope V))
      → (namespace_queue s.keys e.queue ≢ s.keys.dead)
      → Queued s.keys es
      → Queued s.keys fs
      → Queued s.keys (if b then es else e ∷ fs)
  Queued-if true e es fs h q r = q
  Queued-if false e es fs h q r = (h, r)

  pending_of-Queued :
      (written seen : List String) (es : List (JobEnvelope V))
      → Queued s.keys es
      → Queued s.keys (pending_of written seen es)
  unfolding pending_of
  pending_of-Queued written seen [] q = tt
  pending_of-Queued written seen (e ∷ es) q =
      Queued-if _ e _ _ q.0 (pending_of-Queued written seen es q.1)
        (pending_of-Queued written (e.id ∷ seen) es q.1)

  asked-Safe :
      (c : Command R.Db Bool) (found : Option (Option EnqueueSnapshot))
      → ((d : R.Db) → Safe J s.keys d → Keeps J s.keys (c d))
      → LosesNone J s G stable (known_existing J raw_queue s found (round_trip c)) (λ _. Unit {0})
  asked-Safe c none h = send J s G stable c h
  asked-Safe c (some x) h = done J s G stable _

  ask_existing-Safe :
      (snapshots : Snapshots) (e : JobEnvelope V)
      → LosesNone J s G stable (ask_existing J raw_queue s snapshots e) (λ _. Unit {0})
  unfolding ask_existing
  ask_existing-Safe snapshots e =
      Triple-test G (Safe J s.keys) _ (skips e)
        (asked-Safe _ (lookup e.id snapshots) λ d p. checked_read J s G stable _ _ d p)
        (done J s G stable false)

  drop_existing-Queued :
      (snapshots : Snapshots) (es : List (JobEnvelope V))
      → Queued s.keys es
      → LosesNone J s G stable (drop_existing J raw_queue s snapshots es) (Queued s.keys)
  unfolding drop_existing
  drop_existing-Queued snapshots [] q = Triple-pure G (Safe J s.keys) _ _ λ d p. ((tt, p), p)
  drop_existing-Queued snapshots (e ∷ es) q =
      seq J s G stable _ _ (ask_existing-Safe snapshots e) λ existing _.
        seq J s G stable _ _ (drop_existing-Queued snapshots es q.1) λ rest r.
          Triple-pure G (Safe J s.keys) _ _ λ d p. ((Queued-if existing e rest rest q.0 r r, p), p)

  invoke-Safe :
      (fuel : ℕ) (destination : JobDestination) (pending : List (JobEnvelope V))
      (written : List String)
      → Queued s.keys pending
      → (snapshots : Snapshots)
      → LosesNone J s G stable
          (invoke J raw_queue s fuel destination snapshots pending written)
          (λ _. Unit {0})
  unfolding invoke
  invoke-Safe zero destination pending written q snapshots = stop J s G stable generic_error
  invoke-Safe (suc fuel) destination pending written q snapshots =
      seq J s G stable _ _
        (send J s G stable _ λ d p.
          enqueue_script-Safe J s.keys destination (map (snapshot_arg J raw_queue s) snapshots) _ d
            (Inputs-map pending q) p)
        λ answer _. go answer.1 answer.0 (invoke-Safe fuel destination pending written q)
    where
      go :
          (outcomes : List EnqueueOutcome) (changed : List (String × Option String))
          → ((ss : Snapshots)
              → LosesNone J s G stable
                  (invoke J raw_queue s fuel destination ss pending written)
                  (λ _. Unit {0}))
          → LosesNone J s G stable
              (elim changed [
                | [] ↦ pure (written_after J raw_queue s pending outcomes written)
                | c ∷ cs ↦ lift (parse_snapshots raw_queue (c ∷ cs)) >>= λ parsed.
                    invoke J raw_queue s fuel destination
                      (update_snapshots parsed snapshots)
                      pending
                      written
              ])
              (λ _. Unit {0})
      go outcomes [] again = done J s G stable _
      go outcomes (c ∷ cs) again =
          seq J s G stable _ _ (lift-Safe J s G stable (parse_snapshots raw_queue (c ∷ cs)))
            λ parsed _. again _

  read_snapshots-Safe :
      (ids : List String)
      → LosesNone J s G stable (read_snapshots J raw_queue s ids) (λ _. Unit {0})
  unfolding read_snapshots
  read_snapshots-Safe [] = done J s G stable []
  read_snapshots-Safe (id ∷ ids) = send J s G stable _ λ d p. checked_read J s G stable _ _ d p

  left-Safe :
      (fuel : ℕ) (destination : JobDestination) (written : List String) (snapshots : Snapshots)
      (left : List (JobEnvelope V))
      → Queued s.keys left
      → LosesNone J s G stable
          (elim left [
            | [] ↦ pure written
            | x ∷ xs ↦ invoke J raw_queue s fuel destination snapshots (x ∷ xs) written
          ])
          (λ _. Unit {0})
  left-Safe fuel destination written snapshots [] q = done J s G stable written
  left-Safe fuel destination written snapshots (x ∷ xs) q =
      invoke-Safe fuel destination (x ∷ xs) written q snapshots

  send_pending-Safe :
      (fuel : ℕ) (destination : JobDestination) (es : List (JobEnvelope V)) (written : List String)
      → Queued s.keys es
      → LosesNone J s G stable
          (send_pending J raw_queue s fuel destination es written)
          (λ _. Unit {0})
  unfolding send_pending
  send_pending-Safe fuel destination [] written q = done J s G stable written
  send_pending-Safe fuel destination (e ∷ es) written q =
      seq J s G stable _ _ (read_snapshots-Safe _) λ payloads _.
        seq J s G stable _ _ (lift-Safe J s G stable (parse_snapshots raw_queue payloads))
          λ snapshots _.
            seq J s G stable _ _ (drop_existing-Queued snapshots (e ∷ es) q)
              λ left r. left-Safe fuel destination written snapshots left r

  chosen :
      {A : Type 0} (b : Bool) (m : Exec R.Db A) {n : Exec R.Db A}
      → b ≡ true
      → LosesNone J s G stable n (λ _. Unit {0})
      → LosesNone J s G stable (elim b [ false ↦ m | true ↦ n ]) (λ _. Unit {0})
  chosen true m e h = h
  chosen false m e h = cc

  -- A chunk with a unique job.
  pub enqueue_chunk-Safe :
      (fuel : ℕ) (destination : JobDestination) (es : List (JobEnvelope V)) (written : List String)
      → any_unique es ≡ true
      → Queued s.keys es
      → LosesNone J s G stable
          (enqueue_chunk_w_conn J raw_queue s fuel destination es written)
          (λ _. Unit {0})
  unfolding enqueue_chunk_w_conn
  enqueue_chunk-Safe fuel destination es written unique q =
      chosen (any_unique es) _ unique
        (send_pending-Safe fuel destination _ written (pending_of-Queued written [] es q))
