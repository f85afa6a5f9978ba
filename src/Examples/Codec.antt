-- ===== src/Examples/Codec.antt =====
-- Texts that can be read back, put together from those of the parts.
use Prim.Native.Char.{Char, code}
use Prim.Native.String.{[] as empty_text, ◌∷◌ as cons_text}
use oxana.Base.{
  ℕ, zero, suc, String, Bool, true, false, Option, none, some, ◌≡◌, refl, ap, ◌∙◌, ◌==◌,
  if◌then◌else◌,
}

pub record Codec {ℓ} (A : Type ℓ) : Type ℓ where
  pub write : A → String → String
  pub read : String → Option (A × String)
  pub read-write : (a : A) (rest : String) → read (write a rest) ≡ some (a, rest)

abbrev is_one : Char → Bool
is_one c = code c == b'1'

abbrev up : Option (ℕ × String) → Option (ℕ × String)
up none = none
up (some (n, rest)) = some (suc n, rest)

unfoldable pub read_number : String → Option (ℕ × String)
read_number empty_text = none
read_number (cons_text c s) =
    let more = read_number s in if is_one c then up more else some (zero, s)

unfoldable pub write_number : ℕ → String → String
write_number zero rest = cons_text ";" rest
write_number (suc n) rest = cons_text "1" (write_number n rest)

pub read-write_number : (n : ℕ) (rest : String) → read_number (write_number n rest) ≡ some (n, rest)
unfolding read_number write_number
read-write_number zero rest = refl
read-write_number (suc n) rest = ap up (read-write_number n rest)

unfoldable pub number : Codec ℕ
number = record { write = write_number; read = read_number; read-write = read-write_number }

abbrev with_char : Char → Option (String × String) → Option (String × String)
with_char c none = none
with_char c (some (s, rest)) = some (cons_text c s, rest)

unfoldable pub read_text : String → Option (String × String)
read_text empty_text = none
read_text (cons_text c empty_text) = if is_one c then none else some (empty_text, empty_text)
read_text (cons_text c (cons_text d s)) =
    let more = read_text s in
    if is_one c then with_char d more else some (empty_text, cons_text d s)

unfoldable pub write_text : String → String → String
write_text empty_text rest = cons_text ";" rest
write_text (cons_text c s) rest = cons_text "1" (cons_text c (write_text s rest))

pub read-write_text : (s rest : String) → read_text (write_text s rest) ≡ some (s, rest)
unfolding read_text write_text
read-write_text empty_text empty_text = refl
read-write_text empty_text (cons_text d rest) = refl
read-write_text (cons_text c s) rest = ap (with_char c) (read-write_text s rest)

unfoldable pub text : Codec String
text = record { write = write_text; read = read_text; read-write = read-write_text }

module _ {ℓ κ} {A : Type ℓ} {B : Type κ} where
  abbrev with_first : A → Option (B × String) → Option ((A × B) × String)
  with_first a none = none
  with_first a (some (b, rest)) = some ((a, b), rest)

  abbrev then_read :
      (String → Option (B × String)) → Option (A × String) → Option ((A × B) × String)
  then_read read none = none
  then_read read (some (a, rest)) = with_first a (read rest)

  unfoldable pub pair : Codec A → Codec B → Codec (A × B)
  pair ca cb = record {
    write = λ (a, b) rest. ca.write a (cb.write b rest);
    read = λ s. then_read cb.read (ca.read s);
    read-write = λ (a, b) rest.
        ap (then_read cb.read) (ca.read-write a (cb.write b rest))
        ∙ ap (with_first a) (cb.read-write b rest);
  }

  abbrev with_to : (A → B) → Option (A × String) → Option (B × String)
  with_to to none = none
  with_to to (some (a, rest)) = some (to a, rest)

  -- A type that stands for another, in both ways.
  unfoldable pub along :
      Codec A → (to : A → B) (from : B → A) → ((b : B) → to (from b) ≡ b) → Codec B
  along ca to from to-from = record {
    write = λ b rest. ca.write (from b) rest;
    read = λ s. with_to to (ca.read s);
    read-write = λ b rest.
        ap (with_to to) (ca.read-write (from b) rest) ∙ ap (λ x. some (x, rest)) (to-from b);
  }

abbrev of_number : ℕ → Bool
of_number zero = false
of_number (suc n) = true

abbrev to_number : Bool → ℕ
to_number false = zero
to_number true = suc zero

pub of-to_number : (b : Bool) → of_number (to_number b) ≡ b
of-to_number false = refl
of-to_number true = refl

unfoldable pub truth : Codec Bool
unfolding along number
truth = along number of_number to_number of-to_number

module _ {ℓ} {A : Type ℓ} where
  abbrev with_some : Option (A × String) → Option (Option A × String)
  with_some none = none
  with_some (some (a, rest)) = some (some a, rest)

  abbrev if_present :
      (String → Option (A × String)) → Option (Bool × String) → Option (Option A × String)
  if_present read none = none
  if_present read (some (false, rest)) = some (none, rest)
  if_present read (some (true, rest)) = with_some (read rest)

  abbrev write_optional : Codec A → Option A → String → String
  write_optional ca none rest = truth.write false rest
  write_optional ca (some a) rest = truth.write true (ca.write a rest)

  pub read-write_optional :
      (ca : Codec A) (o : Option A) (rest : String)
      → if_present ca.read (truth.read (write_optional ca o rest)) ≡ some (o, rest)
  read-write_optional ca none rest = ap (if_present ca.read) (truth.read-write false rest)
  read-write_optional ca (some a) rest =
      ap (if_present ca.read) (truth.read-write true (ca.write a rest))
      ∙ ap with_some (ca.read-write a rest)

  unfoldable pub optional : Codec A → Codec (Option A)
  optional ca = record {
    write = write_optional ca;
    read = λ s. if_present ca.read (truth.read s);
    read-write = read-write_optional ca;
  }
