-- ===== src/Coordinator/Safe.antt =====
-- `process_pending_batch` of oxana/src/coordinator.rs, and the places of every job. Until the valid
-- jobs of a batch start, this process holds the claim of each of them.
use oxana.Base.{
  ℕ, String, Bool, true, false, Option, none, some, List, [], ◌∷◌, ◌≡◌, ◌≢◌, refl, sym, ◌∙◌, ap,
  str_eq, eq_refl, eq_iff, arith, Bool-cases, inl, inr,
}
use mathlib.Core.Path.{subst}
use oxana.Base.Lists.{elem, remove_first, elem-remove_first_ne, str_eq-distinct}
use oxana.Errors.{ok, OxanaError}
use oxana.Envelope.{JobEnvelope, with_error}
use oxana.Json.{Json}
use oxana.Redis.{Redis}
use oxana.Exec.Triple.{Outcome, Triple, Stable, Triple-pure, Triple-round_trip, Triple-bind}
use oxana.Scripts.{lrange, checked, trimmed, finish_dead}
use oxana.Safety.Places.{or_true}
use oxana.Safety.Scripts.{Safe}
use oxana.Safety.Commands.{finish_dead-Safe}
use oxana.Storage.{StorageInternal, current_processing_queue, connection, claimed_connection, kill}
use oxana.Executor.{Settings, Worker}
use oxana.Executor.Safe.{GoneStable, ids_of}
use oxana.Executor.Start.{Held, run_batch-Safe}
use oxana.Coordinator.Apart.{Apart}
use oxana.Coordinator.Pending.{kill_each, run_valid}

elem_apart :
    (i j : String) (xs : List String) → elem i xs ≡ false → elem j xs ≡ true → str_eq i j ≡ false
elem_apart i j xs out within = elim (Bool-cases (str_eq i j)) [
  | inl e ↦ absurd (ground (arith, subst (λ k. elem k xs ≡ true) (sym ((eq_iff i j).0 e)) within))
  | inr e ↦ e
]

module _ ⦃R : Redis⦄ {V : Type 0} (J : Json V) (s : StorageInternal) where
  abbrev claims : R.Db → List String
  claims d = lrange d (current_processing_queue s)

  pub Held-along :
      (d d' : R.Db) (es : List (JobEnvelope V))
      → ((i : String)
          → elem i (ids_of es) ≡ true
          → elem i (claims d) ≡ true
          → elem i (claims d') ≡ true)
      → Held s d es
      → Held s d' es
  unfolding elem
  Held-along d d' [] f h = tt
  Held-along d d' (e ∷ es) f h = (
    (f e.id (rw (eq_refl e.id) refl) h.0.0, h.0.1),
    Held-along d d' es (λ i m. f i (rw m (or_true (str_eq e.id i)))) h.1,
  )

  module _ (live : current_processing_queue s ≢ s.keys.dead) where
    apart : str_eq s.keys.dead (current_processing_queue s) ≡ false
    apart = str_eq-distinct s.keys.dead (current_processing_queue s) λ e. live (sym e)

    claims-trimmed :
        (b : Bool) (limit : ℕ) (d : R.Db) → claims (trimmed b s.keys.dead limit d) ≡ claims d
    claims-trimmed true limit d =
        ap (λ v. v.lists (current_processing_queue s)) (R.view-ltrim s.keys.dead limit d)
        ∙ rw apart refl
    claims-trimmed false limit d = refl

    claims-finish_dead :
        (id payload : String) (b : Bool) (limit : ℕ) (d : R.Db)
        → claims (
            trimmed b s.keys.dead limit (
              R.lrem_first
                (current_processing_queue s)
                id
                (R.hdel s.keys.jobs id (R.lpush s.keys.dead payload d))))
          ≡ remove_first id (claims d)
    claims-finish_dead id payload b limit d =
        let own = current_processing_queue s in
        let pushed = R.lpush s.keys.dead payload d in
        let dropped = R.hdel s.keys.jobs id pushed in
        let kept : claims dropped ≡ claims d =
          ap (λ v. v.lists own) (R.view-hdel s.keys.jobs id pushed)
          ∙ ap (λ v. v.lists own) (R.view-lpush s.keys.dead payload d)
          ∙ rw apart refl in
        claims-trimmed b limit (R.lrem_first own id dropped)
        ∙ ap (λ v. v.lists own) (R.view-lrem_first own id dropped)
        ∙ rw (eq_refl own) (ap (remove_first id) kept)

    module _ (G : (R.Db → R.Db) → Type 0) (stable : Stable G (Safe J s.keys) (Safe J s.keys))
        (valid : List (JobEnvelope V))
        (held_stable : Stable G (Safe J s.keys) (λ d. Safe J s.keys d × Held s d valid)) where
      abbrev Ready : R.Db → Type 0
      Ready d = Safe J s.keys d × Held s d valid

      killed :
          (fits : Bool) (new d : R.Db)
          → let r = checked fits (ok tt, new) d in
            Outcome (λ _ _. Unit {0}) (Safe J s.keys) r.0 r.1
            → Held s new valid
            → Outcome (λ _ d. Ready d) (Safe J s.keys) r.0 r.1
      unfolding checked
      killed true new d o h = ((o.1, h), o.1)
      killed false new d o h = o

      kill-Ready :
          (e : JobEnvelope V) (error : String)
          → elem e.id (ids_of valid) ≡ false
          → Triple G (Safe J s.keys) Ready (kill J s e error) (λ _ d. Ready d)
      unfolding kill finish_dead claimed_connection connection with_error
      kill-Ready e error out =
          Triple-bind G (Safe J s.keys) _ _ _
            (Triple-round_trip G (Safe J s.keys) (λ _ d. Ready d) _ held_stable (λ d p. p.0)
              λ d p. (p, p.0))
            λ _.
              Triple-round_trip G (Safe J s.keys) _ _ held_stable (λ d p. p.0)
                λ d p. killed _ _ d (finish_dead-Safe J s.keys _ _ _ _ d p.0).at (
                  Held-along d _ valid
                    (λ i m h. rw (claims-finish_dead e.id _ _ _ d) (
                      elem-remove_first_ne e.id i (claims d)
                        (elem_apart e.id i (ids_of valid) out m)
                      ∙ h))
                    p.1)

      pub kill_each-Ready :
          (text : String → String) (invalid : List (JobEnvelope V × String))
          → Apart invalid valid
          → Triple G (Safe J s.keys) Ready (kill_each J s text invalid) (λ _ d. Ready d)
      unfolding kill_each
      kill_each-Ready text [] a = Triple-pure G (Safe J s.keys) tt _ λ d p. (p, p.0)
      kill_each-Ready text ((e, error) ∷ rest) a =
          Triple-bind G (Safe J s.keys) _ _ _ (kill-Ready e (text error) a.0)
            λ _. kill_each-Ready text rest a.1

      module _ {Error : Type 0} (settings : Settings Error) (clock : String → ℕ)
          (display : OxanaError → String) (now duration_ms : ℕ)
          (gone : GoneStable J s G stable (ids_of valid)) where
        pub run_valid-Safe :
            (worker : Option (Worker V Error))
            → Triple G
                (Safe J s.keys)
                Ready
                (run_valid J s settings clock display now duration_ms worker valid)
                (λ _ d. Unit {0} × Safe J s.keys d)
        unfolding run_valid
        run_valid-Safe none = Triple-pure G (Safe J s.keys) _ _ λ d p. ((tt, p.0), p.0)
        run_valid-Safe (some worker) =
            Triple-bind G (Safe J s.keys) _ _ _
              (run_batch-Safe J s G stable live settings clock worker now duration_ms valid gone
                held_stable)
              λ outcome. Triple-pure G (Safe J s.keys) _ _ λ d p. (p, p.1)
