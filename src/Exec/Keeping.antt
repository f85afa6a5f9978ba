-- ===== src/Exec/Keeping.antt =====
-- Actions that keep a fact about the server, whatever the connection does and however they end.
use oxana.Errors.{OxanaError, Result, ok, err}
use oxana.Exec.{Exec, Command, pure, fail, attempt, round_trip, ◌>>=◌}
use oxana.Exec.Triple.{
  Outcome, Triple, Stable, Triple-pure, Triple-fail, Triple-round_trip, Triple-bind, Triple-attempt,
}

module _ {Db : Type 0} (G : (Db → Db) → Type 0) (I : Db → Type 0) where
  abbrev pub Keeps : {A : Type 0} → Exec Db A → Type 0
  Keeps m = Triple G I I m (λ _ d. I d)

  held : {A : Type 0} (r : Result A) (d : Db) → I d → Outcome (λ _ d. I d) I r d
  held (ok a) d h = (h, h)
  held (err e) d h = h

  pub command-Keeps :
      {A : Type 0} (c : Command Db A)
      → Stable G I I
      → ((d : Db) → I d → I (c d).1)
      → Keeps (round_trip c)
  command-Keeps c stable same =
      Triple-round_trip G I _ c stable (λ d h. h) (λ d h. held (c d).0 (c d).1 (same d h))

  pub pure-Keeps : {A : Type 0} (a : A) → Keeps (pure a)
  pure-Keeps a = Triple-pure G I a _ (λ d h. (h, h))

  pub fail-Keeps : (A : Type 0) (e : OxanaError) → Keeps {A = A} (fail e)
  fail-Keeps A e = Triple-fail G I e _ (λ d h. h)

  pub bind-Keeps :
      {A B : Type 0} (m : Exec Db A) (f : A → Exec Db B)
      → Keeps m
      → ((a : A) → Keeps (f a))
      → Keeps (m >>= f)
  bind-Keeps m f h k = Triple-bind G I _ m f h k

  pub attempt-Keeps : {A : Type 0} (m : Exec Db A) → Keeps m → Keeps (attempt m)
  attempt-Keeps m h = Triple-attempt G I _ m (λ _ d. I d) h (λ r d e. e)

-- What is safe at both ends may be forgotten.
pub Triple-weaken :
    {Db A : Type 0} (G : (Db → Db) → Type 0) {P E E' : Db → Type 0} {Q : A → Db → Type 0}
    (m : Exec Db A)
    → ((d : Db) → E d → E' d)
    → Triple G E P m Q
    → Triple G E' P m Q
Triple-weaken G {E = E} {E' = E'} {Q = Q} m weaker t = record {
  at = λ w p g. ((t.at w p g).0, weakened (m w).0 (m w).1.db (t.at w p g).1);
}
  where
    weakened : (r : Result _) (d : _) → Outcome Q E r d → Outcome Q E' r d
    weakened (ok a) d (q, e) = (q, weaker d e)
    weakened (err x) d e = weaker d e
