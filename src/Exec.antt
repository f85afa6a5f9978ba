-- ===== src/Exec.antt =====
-- The asynchronous methods of oxana/src/storage_internal.rs, as actions on a world: the server's
-- state, and what the environment does at the round trips to come. Before a round trip other
-- clients may act on the server; the round trip is then answered, or refused before it reached the
-- server, or carried out while its answer is lost. A world without turns is one where this client
-- is alone and the connection holds. `?` in Rust is `◌>>=◌` here.
pub mod Triple
pub mod Keeping
use oxana.Base.{List, [], ◌∷◌}
use oxana.Errors.{OxanaError, Result, ok, err}

pub data Fault : Type 0 where
  answered : Fault
  refused : OxanaError → Fault
  unanswered : OxanaError → Fault

pub record Turn (Db : Type 0) : Type 0 where
  pub others : Db → Db
  pub fault : Fault

pub record World (Db : Type 0) : Type 0 where
  pub db : Db
  pub turns : List (Turn Db)

abbrev pub Exec : Type 0 → Type 0 → Type 0
Exec Db A = World Db → Result A × World Db

-- A command or a script, which the server carries out as a whole.
abbrev pub Command : Type 0 → Type 0 → Type 0
Command Db A = Db → Result A × Db

module _ {Db A : Type 0} where
  unfoldable pub pure : A → Exec Db A
  pure a w = (ok a, w)

  unfoldable pub fail : OxanaError → Exec Db A
  fail e w = (err e, w)

  abbrev finish : Fault → List (Turn Db) → Command Db A → Db → Result A × World Db
  finish answered ts c d = let (r, d') = c d in (r, record { db = d'; turns = ts })
  finish (refused e) ts c d = (err e, record { db = d; turns = ts })
  finish (unanswered e) ts c d = let (r, d') = c d in (err e, record { db = d'; turns = ts })

  abbrev start : List (Turn Db) → Command Db A → Db → Result A × World Db
  start [] c d = finish answered [] c d
  start (t ∷ ts) c d = finish t.fault ts c (t.others d)

  unfoldable pub round_trip : Command Db A → Exec Db A
  round_trip c w = start w.turns c w.db

  -- The outcome for a client that is alone with a connection that holds.
  unfoldable pub alone : Exec Db A → Db → Result A × Db
  alone m d = let (r, w) = m (record { db = d; turns = [] }) in (r, w.db)

  -- What a failure is, for a caller that looks at it.
  unfoldable pub attempt : Exec Db A → Exec Db (Result A)
  attempt m w = let (r, w') = m w in (ok r, w')

module _ {Db A B : Type 0} where
  abbrev pub continue : Result A → (A → Exec Db B) → Exec Db B
  continue (ok a) f w = f a w
  continue (err e) f w = (err e, w)

  infixl 10 ◌>>=◌ ◌>>◌
  -- Opening this opens `pure`, `fail` and `round_trip` too.
  unfoldable pub ◌>>=◌ : Exec Db A → (A → Exec Db B) → Exec Db B
  unfolding pure fail round_trip
  ◌>>=◌ m f w = let (r, w') = m w in continue r f w'

  abbrev pub ◌>>◌ : Exec Db A → Exec Db B → Exec Db B
  m >> n = m >>= λ _. n

abbrev pub first_error : Result (Unit {0}) → Result (Unit {0}) → Result (Unit {0})
first_error (ok done) rest = rest
first_error (err e) rest = err e

-- A pipeline without MULTI, one round trip for each command. The commands behind an error reply are
-- carried out all the same.
unfoldable pub pipeline : {Db : Type 0} → List (Command Db (Unit {0})) → Exec Db (Result (Unit {0}))
pipeline [] = pure (ok tt)
pipeline (c ∷ cs) = do
  first ← attempt (round_trip c)
  rest ← pipeline cs
  pure (first_error first rest)
