-- ===== src/Keys/Distinct.antt =====
-- When two names stand for the same key, and when they do not.
use Prim.Native.String.{◌++◌ as str_append}
use Prim.Native.String.append
use Prim.Native.Char.{Char, code}
use text.Mathlib.TextLemmas.{
  append_cancel_left, append_assoc, head-eq_of_cons-eq, tail-eq_of_cons-eq,
}
use text.Mathlib.TextPositions.{starts_with-append}
use oxana.Base.{
  String, true, false, ◌≡◌, ◌≢◌, refl, sym, ap, ◌∙◌, starts_with, arith, Bool-cases, inl, inr,
}
use oxana.Keys.{StorageKeys, new, namespace_or_default, namespace_queue, processing_queue}

-- A queue name that does not start with the namespace.
abbrev pub IsPlain : String → String → Type 0
IsPlain given queue = starts_with queue (new given).namespace ≡ false

-- A queue's own key starts with the namespace.
prefixed : (n q : String) → starts_with (str_append (str_append n ":queue") q) n ≡ true
prefixed n q = rw (append_assoc n ":queue" q) (starts_with-append n (str_append ":queue" q))

-- Naming a queue is idempotent: the key of a queue is its own name.
pub namespace_queue_idem :
    (given queue : String)
    → namespace_queue (new given) (namespace_queue (new given) queue)
      ≡ namespace_queue (new given) queue
unfolding namespace_queue new
namespace_queue_idem given queue =
    elim (Bool-cases (starts_with queue (namespace_or_default given))) [
      | inl inside ↦ rw inside (rw inside)
      | inr outside ↦
          rw outside (rw (prefixed (namespace_or_default given) (str_append ":" queue)) refl)
    ]

-- Two queue names that do not start with the namespace and stand for one key are the same name.
pub namespace_queue_inj :
    (given p q : String)
    → IsPlain given p
    → IsPlain given q
    → namespace_queue (new given) p ≡ namespace_queue (new given) q
    → p ≡ q
unfolding namespace_queue new
namespace_queue_inj given p q hp hq e =
    append_cancel_left ":" p q
      (append_cancel_left (str_append (namespace_or_default given) ":queue") _ _ (rw (hp, hq) at e))

-- Past the namespace, the keys of queues, of claims and of dead jobs differ in a letter.
queue_tail :
    (r : String) → str_append ":queue" r ≡ String.◌∷◌ ":" (String.◌∷◌ "q" (str_append "ueue" r))
queue_tail r = append.cons ":" "queue" r ∙ ap (String.◌∷◌ ":") (append.cons "q" "ueue" r)

processing_tail :
    (r : String)
    → str_append ":processing" r ≡ String.◌∷◌ ":" (String.◌∷◌ "p" (str_append "rocessing" r))
processing_tail r =
    append.cons ":" "processing" r ∙ ap (String.◌∷◌ ":") (append.cons "p" "rocessing" r)

queue_not_processing : (r s : String) → str_append ":queue" r ≢ str_append ":processing" s
queue_not_processing r s e =
    let e' = sym (queue_tail r) ∙ e ∙ processing_tail s in
    let q-eq-p : ◌≡◌ {A = Char} "q" "p" = head-eq_of_cons-eq (tail-eq_of_cons-eq e') in
    absurd (omega (arith, ap code q-eq-p))

dead_not_queue : (r : String) → ":dead" ≢ str_append ":queue" r
dead_not_queue r e =
    let d-eq-q : ◌≡◌ {A = Char} "d" "q" =
      head-eq_of_cons-eq (tail-eq_of_cons-eq (e ∙ queue_tail r)) in
    absurd (omega (arith, ap code d-eq-q))

dead_not_processing : (r : String) → ":dead" ≢ str_append ":processing" r
dead_not_processing r e =
    let d-eq-p : ◌≡◌ {A = Char} "d" "p" =
      head-eq_of_cons-eq (tail-eq_of_cons-eq (e ∙ processing_tail r)) in
    absurd (omega (arith, ap code d-eq-p))

module _ (given : String) where
  abbrev keys : StorageKeys
  keys = new given

  abbrev namespace : String
  namespace = namespace_or_default given

  queue_key :
      (queue : String)
      → IsPlain given queue
      → namespace_queue keys queue
        ≡ str_append namespace (str_append ":queue" (str_append ":" queue))
  unfolding namespace_queue new
  queue_key queue plain = rw plain (append_assoc namespace ":queue" _)

  processing_key :
      (process : String)
      → processing_queue keys process
        ≡ str_append namespace (str_append ":processing" (str_append ":" process))
  unfolding processing_queue new
  processing_key process = append_assoc namespace ":processing" _

  -- The three lists that a claimed job can move between have different keys: the list of a queue
  -- whose name does not start with the namespace, the processing list of any process, and the list
  -- of dead jobs.
  pub lists_distinct :
      (queue process : String)
      → IsPlain given queue
      → (namespace_queue keys queue ≢ processing_queue keys process)
        × (keys.dead ≢ namespace_queue keys queue)
        × (keys.dead ≢ processing_queue keys process)
  unfolding new
  lists_distinct queue process plain = (
    λ e. queue_not_processing _ _ (
        append_cancel_left namespace _ _
          (sym (queue_key queue plain) ∙ e ∙ processing_key process)),
    λ e. dead_not_queue _ (append_cancel_left namespace _ _ (e ∙ queue_key queue plain)),
    λ e. dead_not_processing _ (append_cancel_left namespace _ _ (e ∙ processing_key process)),
  )
