-- ===== src/Dispatcher/Claims.antt =====
-- The claims of the process, the list that `dequeue_w_conn` moves jobs into, around `pop_queue_message`.
use mathlib.Core.List.{get_last?}
use oxana.Base.{
  eq_refl, String, Bool, true, false, Option, none, some, List, ◌∷◌, ◌≡◌, ◌≢◌, ◌⊎◌, inl, inr, ◌∙◌,
  ap,
}
use oxana.Base.Lists.{str_eq-distinct}
use oxana.Errors.{Result, ok, err, OxanaError}
use oxana.Keys.{namespace_queue}
use oxana.Redis.{Redis, list}
use oxana.Exec.{Exec, pure, attempt, round_trip, ◌>>=◌}
use oxana.Exec.Triple.{Triple, Stable, Triple-pure, Triple-bind, Triple-tried}
use oxana.Scripts.{lrange, checked}
use oxana.Storage.{StorageInternal, connection, lmove, lmove_found, current_processing_queue}
use oxana.Dispatcher.{Popped, job, nothing, pop_failed, before_claim, claim_error, claim_job}

module _ ⦃R : Redis⦄ (s : StorageInternal) where
  abbrev pub own : String
  own = current_processing_queue s

  -- The process has these claims.
  abbrev pub Holds : List String → R.Db → Type 0
  Holds ids d = lrange d own ≡ ids

  -- An act of another client that leaves the claims of this process alone.
  abbrev pub Apart : (R.Db → R.Db) → Type 0
  Apart f = (d : R.Db) → lrange (f d) own ≡ lrange d own

  -- What the result of a try says of the claims, if they were these before.
  abbrev pub Claimed : List String → Popped → R.Db → Type 0
  Claimed ids (job id) d = Holds (id ∷ ids) d
  Claimed ids (nothing wait) d = Holds ids d
  Claimed ids (pop_failed (before_claim e)) d = Holds ids d
  Claimed ids (pop_failed (claim_error e)) d = Holds ids d ⊎ ((id : String) × Holds (id ∷ ids) d)

  pub apart : (ids : List String) → Stable Apart (λ _. Unit {0}) (Holds ids)
  apart ids f g d h = g d ∙ h

  -- The move takes the last job of the queue, or nothing.
  abbrev Moved : List String → Result (Option String) → R.Db → Type 0
  Moved ids (ok none) d = Holds ids d
  Moved ids (ok (some id)) d = Holds (id ∷ ids) d
  Moved ids (err e) d = Holds ids d

  checked-Moved :
      (fits : Bool) (r : Result (Option String) × R.Db) (ids : List String) (d : R.Db)
      → Moved ids r.0 r.1
      → Holds ids d
      → Moved ids (checked fits r d).0 (checked fits r d).1
  unfolding checked
  checked-Moved true r ids d m h = m
  checked-Moved false r ids d m h = h

  pushed :
      (source id : String) (ids : List String) (d : R.Db)
      → source ≢ own
      → Holds ids d
      → Holds (id ∷ ids) (R.lpush own id (R.rpop source d))
  pushed source id ids d away h =
      let behind : lrange (R.rpop source d) own ≡ ids =
        ap (λ v. v.lists own) (R.view-rpop source d) ∙ rw (str_eq-distinct source own away) h in
      ap (λ v. v.lists own) (R.view-lpush own id (R.rpop source d))
      ∙ rw (eq_refl own) (ap (λ xs. id ∷ xs) behind)

  lmove-Moved :
      (source : String) (ids : List String) (d : R.Db)
      → source ≢ own
      → Holds ids d
      → Moved ids (lmove source own d).0 (lmove source own d).1
  unfolding lmove
  lmove-Moved source ids d away h =
      checked-Moved (R.fits d source list) (lmove_found own source (get_last? (lrange d source)) d)
        ids d (found (get_last? (lrange d source))) h
    where
      found :
          (last : Option String)
          → Moved ids (lmove_found own source last d).0 (lmove_found own source last d).1
      found none = h
      found (some id) =
          checked-Moved (R.fits d own list) (ok (some id), R.lpush own id (R.rpop source d)) ids d
            (pushed source id ids d away h) h

  -- The move may have come to its end although its answer is lost.
  abbrev Sent : List String → Result (Option String) → R.Db → Type 0
  Sent ids (ok none) d = Holds ids d
  Sent ids (ok (some id)) d = Holds (id ∷ ids) d
  Sent ids (err e) d = Holds ids d ⊎ ((id : String) × Holds (id ∷ ids) d)

  Moved-Sent :
      (ids : List String) (r : Result (Option String)) (d : R.Db) → Moved ids r d → Sent ids r d
  Moved-Sent ids (ok none) d m = m
  Moved-Sent ids (ok (some id)) d m = m
  Moved-Sent ids (err e) d m = inl m

  Moved-lost :
      (ids : List String) (r : Result (Option String)) (e : OxanaError) (d : R.Db)
      → Moved ids r d
      → Sent ids (err e) d
  Moved-lost ids (ok none) e d m = inl m
  Moved-lost ids (ok (some id)) e d m = inr (id, m)
  Moved-lost ids (err x) e d m = inl m

  -- Reading the connection, or a key, changes nothing.
  pub connection-Tried :
      {P : R.Db → Type 0}
      → Stable Apart (λ _. Unit {0}) P
      → Triple Apart (λ _. Unit {0}) P (attempt connection) (λ _ d. P d)
  unfolding connection
  connection-Tried stable = Triple-tried Apart _ _ stable (λ d p. p) (λ e d p. (p, p))

  abbrev pub Always : R.Db → Type 0
  Always d = Unit {0}

  abbrev pub Done : {A : Type 0} → (A → R.Db → Type 0) → (R.Db → Type 0) → Exec R.Db A → Type 0
  Done Q P m = Triple Apart Always P m Q

  pub done :
      {A : Type 0} {P : R.Db → Type 0} (Q : A → R.Db → Type 0) (a : A)
      → ((d : R.Db) → P d → Q a d)
      → Done Q P (pure a)
  done Q a h = Triple-pure Apart Always a Q (λ d p. (h d p, tt))

  pub then :
      {A B : Type 0} {P : R.Db → Type 0} {Q : A → R.Db → Type 0} {S : B → R.Db → Type 0}
      (m : Exec R.Db A) (f : A → Exec R.Db B)
      → Done Q P m
      → ((a : A) → Done S (Q a) (f a))
      → Done S P (m >>= f)
  then {Q = Q} m f h k = Triple-bind Apart Always Q m f h k

  pub claim_job-Claimed :
      (queue_key : String) (ids : List String)
      → namespace_queue s.keys queue_key ≢ own
      → Done (Claimed ids) (Holds ids) (claim_job s queue_key)
  unfolding claim_job
  claim_job-Claimed queue_key ids away =
      then (attempt connection) _ (connection-Tried (apart ids)) connected
    where
      claimed :
          (r : Result (Option String))
          → Done (Claimed ids) (Sent ids r) (elim r [
            | err e ↦ pure (pop_failed (claim_error e))
            | ok none ↦ pure (nothing 0)
            | ok (some id) ↦ pure (job id)
          ])
      claimed (err e) = done (Claimed ids) (pop_failed (claim_error e)) (λ d p. p)
      claimed (ok none) = done (Claimed ids) (nothing 0) (λ d p. p)
      claimed (ok (some id)) = done (Claimed ids) (job id) (λ d p. p)

      connected :
          (r : Result (Unit {0}))
          → Done (Claimed ids) (Holds ids) (elim r [
            | err e ↦ pure (pop_failed (before_claim e))
            | ok done ↦ do
              claimed ← attempt (round_trip (lmove (namespace_queue s.keys queue_key) own))
              elim claimed [
                | err e ↦ pure (pop_failed (claim_error e))
                | ok none ↦ pure (nothing 0)
                | ok (some id) ↦ pure (job id)
              ]
          ])
      connected (err e) = done (Claimed ids) (pop_failed (before_claim e)) (λ d p. p)
      connected (ok x) =
          then (attempt (round_trip (lmove (namespace_queue s.keys queue_key) own))) _
            (Triple-tried Apart _ (Sent ids) (apart ids)
              (λ d p. Moved-Sent ids _ _ (lmove-Moved _ ids d away p))
              (λ e d p. (inl p, Moved-lost ids _ e _ (lmove-Moved _ ids d away p))))
            claimed
