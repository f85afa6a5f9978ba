-- ===== src/Safety/Pipelines.antt =====
-- Pipelines, and looking at an answer.
use oxana.Base.{List, [], ◌∷◌}
use oxana.Redis.{Redis}
use oxana.Errors.{Result, ok, err}
use oxana.Json.{Json}
use oxana.Exec.{Exec, Command, attempt, pipeline, first_error}
use oxana.Exec.Triple.{Stable, Triple-attempt}
use oxana.Storage.{StorageInternal, lift}
use oxana.Safety.Scripts.{Safe}
use oxana.Safety.Commands.{Keeps}
use oxana.Safety.Operations.{LosesNone, send, seq, done, stop}

module _ ⦃R : Redis⦄ {V : Type 0} (J : Json V) (s : StorageInternal) (G : (R.Db → R.Db) → Type 0)
    (stable : Stable G (Safe J s.keys) (Safe J s.keys)) where
  pub attempt-Safe :
      {A : Type 0} {Q : A → Type 0} (m : Exec R.Db A)
      → LosesNone J s G stable m Q
      → LosesNone J s G stable (attempt m) (λ _. Unit {0})
  attempt-Safe m h = Triple-attempt G (Safe J s.keys) _ m _ h λ r d e. (tt, e)

  pub lift-Safe : {A : Type 0} (r : Result A) → LosesNone J s G stable (lift r) (λ _. Unit {0})
  lift-Safe (ok a) = done J s G stable a
  lift-Safe (err e) = stop J s G stable e

  abbrev pub AllKeep : List (Command R.Db (Unit {0})) → Type 0
  AllKeep [] = Unit {0}
  AllKeep (c ∷ cs) = ((d : R.Db) → Safe J s.keys d → Keeps J s.keys (c d)) × AllKeep cs

  pub pipeline-Safe :
      (cs : List (Command R.Db (Unit {0})))
      → AllKeep cs
      → LosesNone J s G stable (pipeline cs) (λ _. Unit {0})
  unfolding pipeline
  pipeline-Safe [] h = done J s G stable (ok tt)
  pipeline-Safe (c ∷ cs) h =
      seq J s G stable _ _ (attempt-Safe _ (send J s G stable c h.0)) λ first _.
        seq J s G stable _ _ (pipeline-Safe cs h.1)
          λ rest _. done J s G stable (first_error first rest)
