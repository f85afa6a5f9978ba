-- ===== src/Exec/Triple.antt =====
-- Pre- and postconditions of actions, whatever the connection does and whatever other clients do
-- within what is granted of them.
use oxana.Base.{◌≡◌, refl, ap, ◌∙◌, List, [], ◌∷◌, Bool, true, false}
use oxana.Errors.{OxanaError, Result, ok, err}
use oxana.Exec.{
  Fault, answered, refused, unanswered, Turn, World, Exec, Command, pure, fail, attempt, round_trip,
  ◌>>=◌, finish, start, continue,
}

-- What holds of a result and of the state behind it.
abbrev pub Outcome : {Db A : Type 0} → (A → Db → Type 0) → (Db → Type 0) → Result A → Db → Type 0
Outcome Q E (ok a) d = Q a d × E d
Outcome Q E (err e) d = E d

-- Every act of the other clients is granted.
abbrev pub Granted : {Db : Type 0} → ((Db → Db) → Type 0) → List (Turn Db) → Type 0
Granted G [] = Unit {0}
Granted G (t ∷ ts) = G t.others × Granted G ts

module _ {Db : Type 0} (G : (Db → Db) → Type 0) (E : Db → Type 0) where
  -- From a state with `P`, `m` ends in a state with `E`, and if it returns a value, with `Q` of it.
  pub record Triple {A : Type 0} (P : Db → Type 0) (m : Exec Db A) (Q : A → Db → Type 0)
      : Type 0 where
    pub at :
        (w : World Db)
        → P w.db
        → Granted G w.turns
        → Granted G (m w).1.turns × Outcome Q E (m w).0 (m w).1.db

  -- The fact holds in spite of the other clients.
  abbrev pub Stable : (Db → Type 0) → Type 0
  Stable P = (f : Db → Db) → G f → (d : Db) → P d → P (f d)

  pub Triple-pure :
      {A : Type 0} (a : A) {P : Db → Type 0} (Q : A → Db → Type 0)
      → ((d : Db) → P d → Q a d × E d)
      → Triple P (pure a) Q
  unfolding pure
  Triple-pure a Q h = record { at = λ w p g. (g, h w.db p) }

  pub Triple-fail :
      {A : Type 0} (e : OxanaError) {P : Db → Type 0} (Q : A → Db → Type 0)
      → ((d : Db) → P d → E d)
      → Triple P (fail e) Q
  unfolding fail
  Triple-fail e Q h = record { at = λ w p g. (g, h w.db p) }

  module _ {A : Type 0} (Q : A → Db → Type 0) where
    pub Outcome-safe : (r : Result A) (d : Db) → Outcome Q E r d → E d
    Outcome-safe (ok a) d h = h.1
    Outcome-safe (err e) d h = h

    module _ {P : Db → Type 0} (c : Command Db A) (stable : Stable P) (safe : (d : Db) → P d → E d)
        (post : (d : Db) → P d → Outcome Q E (c d).0 (c d).1) where
      finish_lem :
          (fault : Fault) (ts : List (Turn Db)) (d : Db)
          → P d
          → Granted G ts
          → let w = finish fault ts c d in Granted G w.1.turns × Outcome Q E w.0 w.1.db
      finish_lem answered ts d p g = (g, post d p)
      finish_lem (refused e) ts d p g = (g, safe d p)
      finish_lem (unanswered e) ts d p g = (g, Outcome-safe (c d).0 (c d).1 (post d p))

      start_lem :
          (ts : List (Turn Db)) (d : Db)
          → P d
          → Granted G ts
          → let w = start ts c d in Granted G w.1.turns × Outcome Q E w.0 w.1.db
      start_lem [] d p g = finish_lem answered [] d p g
      start_lem (t ∷ ts) d p g = finish_lem t.fault ts (t.others d) (stable t.others g.0 d p) g.1

      -- A command is checked from a state that the others may have changed before.
      pub Triple-round_trip : Triple P (round_trip c) Q
      unfolding round_trip
      Triple-round_trip = record { at = λ w p g. start_lem w.turns w.db p g }

    module _ {B : Type 0} {R : B → Db → Type 0} (m : Exec Db A) (f : A → Exec Db B) where
      continue_lem :
          (r : Result A) (w : World Db)
          → ((a : A) → Triple (Q a) (f a) R)
          → Granted G w.turns
          → Outcome Q E r w.db
          → let w' = continue r f w in Granted G w'.1.turns × Outcome R E w'.0 w'.1.db
      continue_lem (ok a) w tf g h = (tf a).at w h.0 g
      continue_lem (err e) w tf g h = (g, h)

      pub Triple-bind :
          {P : Db → Type 0} → Triple P m Q → ((a : A) → Triple (Q a) (f a) R) → Triple P (m >>= f) R
      unfolding ◌>>=◌
      Triple-bind tm tf = record {
        at = λ w p g. let (r, w') = m w in continue_lem r w' tf (tm.at w p g).0 (tm.at w p g).1;
      }

    -- What is safe after either end of an action is so after trying it.
    pub Triple-attempt :
        {P : Db → Type 0} (m : Exec Db A) (S : Result A → Db → Type 0)
        → Triple P m Q
        → ((r : Result A) (d : Db) → E d → S r d)
        → Triple P (attempt m) S
    unfolding attempt
    Triple-attempt m S tm h = record {
      at = λ w p g.
          let (g', o) = tm.at w p g in
          let e = Outcome-safe (m w).0 (m w).1.db o in (g', (h (m w).0 (m w).1.db e, e));
    }

    pub Triple-test :
        {P : Db → Type 0} (b : Bool) {m n : Exec Db A}
        → Triple P m Q
        → Triple P n Q
        → Triple P (elim b [ true ↦ m | false ↦ n ]) Q
    Triple-test true tm tn = tm
    Triple-test false tm tn = tn

-- A command that is tried: it is answered, refused, or carried out without an answer.
pub Triple-tried :
    {Db A : Type 0} (G : (Db → Db) → Type 0) {P : Db → Type 0} (c : Command Db A)
    (S : Result A → Db → Type 0)
    → Stable G (λ _. Unit {0}) P
    → ((d : Db) → P d → S (c d).0 (c d).1)
    → ((e : OxanaError) (d : Db) → P d → S (err e) d × S (err e) (c d).1)
    → Triple G (λ _. Unit {0}) P (attempt (round_trip c)) S
unfolding attempt round_trip
Triple-tried {Db} G {P} c S stable done lost = record { at = λ w p g. tried w.turns w.db p g }
  where
    ended :
        (fault : Fault) (ts : List (Turn Db)) (d : Db)
        → P d
        → Granted G ts
        → let w = finish fault ts c d in Granted G w.1.turns × (S w.0 w.1.db × Unit {0})
    ended answered ts d p g = (g, (done d p, tt))
    ended (refused e) ts d p g = (g, ((lost e d p).0, tt))
    ended (unanswered e) ts d p g = (g, ((lost e d p).1, tt))

    tried :
        (ts : List (Turn Db)) (d : Db)
        → P d
        → Granted G ts
        → let w = start ts c d in Granted G w.1.turns × (S w.0 w.1.db × Unit {0})
    tried [] d p g = ended answered [] d p g
    tried (t ∷ ts) d p g = ended t.fault ts (t.others d) (stable t.others g.0 d p) g.1

-- An action that keeps a fact keeps it when it is tried.
pub Triple-kept :
    {Db A : Type 0} (G : (Db → Db) → Type 0) {P E : Db → Type 0} {Q : A → Db → Type 0}
    (m : Exec Db A)
    → Triple G E P m Q
    → Triple G (λ _. Unit {0}) P (attempt m) (λ _ d. E d)
unfolding attempt
Triple-kept G {E = E} {Q = Q} m t = record {
  at = λ w p g. let (g', o) = t.at w p g in (g', (Outcome-safe G E Q (m w).0 (m w).1.db o, tt));
}

-- An action that always returns a value, whatever the connection does.
module _ {Db : Type 0} where
  abbrev pub Returns : {A : Type 0} → Exec Db A → Type 0
  Returns {A} m = (w : World Db) → (a : A) × ((m w).0 ≡ ok a)

  pub Returns-pure : {A : Type 0} (a : A) → Returns (pure a)
  unfolding pure
  Returns-pure a w = (a, refl)

  pub Returns-attempt : {A : Type 0} (m : Exec Db A) → Returns (attempt m)
  unfolding attempt
  Returns-attempt m w = ((m w).0, refl)

  pub Returns-bind :
      {A B : Type 0} (m : Exec Db A) (f : A → Exec Db B)
      → Returns m
      → ((a : A) → Returns (f a))
      → Returns (m >>= f)
  unfolding ◌>>=◌
  Returns-bind m f h k w =
      let (a, e) = h w in
      let (b, e') = k a (m w).1 in (b, ap (λ r. (continue r f (m w).1).0) e ∙ e')
