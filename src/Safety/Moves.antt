-- ===== src/Safety/Moves.antt =====
-- Three kinds of transitions: a job is forgotten, moved, or stored.

use mathlib.Core.Path.{subst}
use oxana.Base.{
  ◌⊎◌, refl, ap, some_inj, String, Bool, true, false, Option, none, some, ◌≡◌, ◌≢◌, inl, inr,
  str_eq, eq_iff, if◌then◌else◌, sym, ◌∙◌,
}
use oxana.Redis.{View}
use oxana.Envelope.{JobEnvelope}
use oxana.Json.{Json}
use oxana.Keys.{StorageKeys, namespace_queue}
use oxana.Safety.{Located, IsSafe}

if_none :
    (b : Bool) (x : Option String) {p : String}
    → (if b then none else x) ≡ some p
    → (b ≡ false) × (x ≡ some p)
if_none true x h = cc
if_none false x h = (refl, h)

if_some :
    (b : Bool) (q : String) (x : Option String) {p : String}
    → (if b then some q else x) ≡ some p
    → ((b ≡ true) × (q ≡ p)) ⊎ ((b ≡ false) × (x ≡ some p))
if_some true q x h = inl (refl, some_inj h)
if_some false q x h = inr (refl, h)

module _ {V : Type 0} (J : Json V) (keys : StorageKeys) (w w' : View) where
  -- A job whose payload goes may lose its places.
  pub forget :
      (id : String)
      → ((i : String)
          → w'.hashes keys.jobs i ≡ (if str_eq id i then none else w.hashes keys.jobs i))
      → ((i : String) → str_eq id i ≡ false → Located keys w i → Located keys w' i)
      → IsSafe J keys w
      → IsSafe J keys w'
  forget id hash place s = record {
    located = λ i p h.
        let (ne, old) = if_none (str_eq id i) _ (sym (hash i) ∙ h) in
        place i ne (s.located i p old);
    queued = λ i p e h. s.queued i p e (if_none (str_eq id i) _ (sym (hash i) ∙ h)).1;
  }

  -- No place goes and no payload changes.
  pub move :
      ((i : String) → w'.hashes keys.jobs i ≡ w.hashes keys.jobs i)
      → ((i : String) → Located keys w i → Located keys w' i)
      → IsSafe J keys w
      → IsSafe J keys w'
  move hash place s = record {
    located = λ i p h. place i (s.located i p (sym (hash i) ∙ h));
    queued = λ i p e h. s.queued i p e (sym (hash i) ∙ h);
  }

  -- A payload is written, and its job has a place.
  pub store :
      (id payload : String) (e : JobEnvelope V)
      → J.from_str payload ≡ some e
      → namespace_queue keys e.queue ≢ keys.dead
      → ((i : String)
          → w'.hashes keys.jobs i ≡ (if str_eq id i then some payload else w.hashes keys.jobs i))
      → ((i : String) → str_eq id i ≡ false → Located keys w i → Located keys w' i)
      → Located keys w' id
      → IsSafe J keys w
      → IsSafe J keys w'
  store id payload e parsed live hash place at s = record {
    located = λ i p h. elim (if_some (str_eq id i) payload _ (sym (hash i) ∙ h)) [
      | inl (eq, _) ↦ subst (Located keys w') ((eq_iff id i).0 eq) at
      | inr (ne, old) ↦ place i ne (s.located i p old)
    ];
    queued = λ i p e' h h'. elim (if_some (str_eq id i) payload _ (sym (hash i) ∙ h)) [
      | inl (_, eq) ↦
          subst (λ x. namespace_queue keys x.queue ≢ keys.dead)
            (some_inj (sym parsed ∙ ap J.from_str eq ∙ h')) live
      | inr (_, old) ↦ s.queued i p e' old h'
    ];
  }
