-- ===== src/Base/Decimal.antt =====
-- Texts by their bytes, numbers in decimal, and the searches of Rust's `str` that the source uses.
-- A byte is a native number.
use oxana.Base.Tests.{ltb, leb, ◌==◌, if◌then◌else◌, Bool-cases}
use mathlib.Core.Logic.{inl, inr}
use oxana.Base.Lists.{length}
use Prim.Native.Nat.{ℕ, zero, suc, ◌+◌, ◌-◌, ◌*◌, ◌/◌, ◌%◌, ◌^◌, ◌≤◌, ◌<◌}
use mathlib.Core.Path.{◌≡◌, refl, ◌∙◌}
use mathlib.Core.Bool.{Bool, true, false, ◌&&◌, ◌||◌}
use mathlib.Core.Option.{Option, none, some}
use mathlib.Core.List.{List, [], ◌∷◌, ◌++◌}
use native.Mathlib.Omega.{arith}

abbrev pub Bytes : Type 0
Bytes = List ℕ

abbrev pub bytes_eq : Bytes → Bytes → Bool
bytes_eq [] [] = true
bytes_eq [] (y ∷ ys) = false
bytes_eq (x ∷ xs) [] = false
bytes_eq (x ∷ xs) (y ∷ ys) = x == y && bytes_eq xs ys

-- The digits of `n` in front of `rest`; `n` rounds are enough.
unfoldable pub digits : ℕ → ℕ → Bytes → Bytes
digits zero n rest = (48 + n % 10) ∷ rest
digits (suc f) n rest = elim (ltb n 10) [
  | true ↦ (48 + n) ∷ rest
  | false ↦ digits f (n / 10) ((48 + n % 10) ∷ rest)
]

-- `n.to_string()` of an unsigned number
unfoldable pub show : ℕ → Bytes
unfolding digits
show n = digits n n []

abbrev pub is_digit : ℕ → Bool
is_digit c = leb 48 c && leb c 57

unfoldable pub parse_digits : ℕ → Bytes → Option ℕ
parse_digits acc [] = some acc
parse_digits acc (c ∷ cs) =
    let rest = parse_digits (acc * 10 + (c - 48)) cs in
    if is_digit c && ltb (acc * 10 + (c - 48)) (2 ^ 64) then rest else none

-- `parse::<usize>()`: a sign `+` may stand in front, and a number that does not fit is refused.
unfoldable pub parse_usize : Bytes → Option ℕ
unfolding parse_digits
parse_usize [] = none
parse_usize (c ∷ []) = if is_digit c then some (c - 48) else none
parse_usize (c ∷ d ∷ ds) = if c == 43 then parse_digits 0 (d ∷ ds) else parse_digits 0 (c ∷ d ∷ ds)

-- `split_once` and `rsplit_once` at a byte
unfoldable pub split_once : ℕ → Bytes → Option (Bytes × Bytes)
split_once c [] = none
split_once c (x ∷ xs) =
    let later = split_once c xs in
    if x == c
    then some ([], xs)
    else elim later [ none ↦ none | some (before, after) ↦ some (x ∷ before, after) ]

unfoldable pub rsplit_once : ℕ → Bytes → Option (Bytes × Bytes)
rsplit_once c [] = none
rsplit_once c (x ∷ xs) =
    let later = rsplit_once c xs in
    elim later [
      | some (before, after) ↦ some (x ∷ before, after)
      | none ↦ if x == c then some ([], xs) else none
    ]

-- `is_char_boundary`: no byte that continues a character stands there.
unfoldable pub is_char_boundary : Bytes → ℕ → Bool
is_char_boundary bs zero = true
is_char_boundary [] (suc n) = false
is_char_boundary (b ∷ []) (suc zero) = true
is_char_boundary (b ∷ c ∷ bs) (suc zero) = ltb c 128 || leb 192 c
is_char_boundary (b ∷ bs) (suc (suc n)) = is_char_boundary bs (suc n)

-- No byte of the text is `c`.
abbrev pub Lacks : ℕ → Bytes → Type 0
Lacks c [] = Unit {0}
Lacks c (x ∷ xs) = (x == c ≡ false) × Lacks c xs

parse_digit :
    (a d v : ℕ) (rest : Bytes)
    → d < 10
    → a * 10 + d ≡ v
    → v < 2 ^ 64
    → parse_digits a ((48 + d) ∷ rest) ≡ parse_digits v rest
unfolding parse_digits
parse_digit a d v rest small e fits =
    let same : a * 10 + (48 + d - 48) ≡ v = omega arith in rw same (ground arith)

parse_digits-digits :
    (f n : ℕ) (rest : Bytes)
    → n ≤ f
    → n < 2 ^ 64
    → parse_digits 0 (digits f n rest) ≡ parse_digits n rest
unfolding digits
parse_digits-digits zero n rest h fits =
    parse_digit 0 (n % 10) n rest (omega arith) (omega arith) fits
parse_digits-digits (suc f) n rest h fits = elim (Bool-cases (ltb n 10)) [
  | inl small ↦ rw (digits, small) (parse_digit 0 n n rest (ground arith) (omega arith) fits)
  | inr large ↦
      rw (digits, large)
        (parse_digits-digits f (n / 10) ((48 + n % 10) ∷ rest) (ground arith) (omega arith)
          ∙ parse_digit (n / 10) (n % 10) n rest (omega arith) (omega arith) fits)
]

-- A text that starts with a digit.
abbrev StartsWithDigit : Bytes → Type 0
StartsWithDigit [] = ⊥
StartsWithDigit (c ∷ cs) = is_digit c ≡ true

digits-StartsWithDigit : (f n : ℕ) (rest : Bytes) → StartsWithDigit (digits f n rest)
unfolding digits
digits-StartsWithDigit zero n rest = ground arith
digits-StartsWithDigit (suc f) n rest = elim (Bool-cases (ltb n 10)) [
  | inl small ↦ rw (digits, small) (ground arith)
  | inr large ↦ rw (digits, large) (digits-StartsWithDigit f (n / 10) ((48 + n % 10) ∷ rest))
]

plain_digits : (bs : Bytes) → StartsWithDigit bs → parse_usize bs ≡ parse_digits 0 bs
unfolding parse_usize parse_digits
plain_digits [] h = absurd h
plain_digits (c ∷ []) h = ground arith
plain_digits (c ∷ d ∷ ds) h = ground arith

-- A printed number that fits is read back.
pub parse_usize-show : (n : ℕ) → n < 2 ^ 64 → parse_usize (show n) ≡ some n
unfolding show parse_digits
parse_usize-show n fits =
    plain_digits (digits n n []) (digits-StartsWithDigit n n [])
    ∙ parse_digits-digits n n [] (omega arith) fits

digits-Lacks : (c f n : ℕ) (rest : Bytes) → 57 < c → Lacks c rest → Lacks c (digits f n rest)
unfolding digits
digits-Lacks c zero n rest h k = (ground arith, k)
digits-Lacks c (suc f) n rest h k = elim (Bool-cases (ltb n 10)) [
  | inl small ↦ rw (digits, small) (ground arith, k)
  | inr large ↦
      rw (digits, large) (digits-Lacks c f (n / 10) ((48 + n % 10) ∷ rest) h (ground arith, k))
]

-- A number is printed without any byte above the digits.
pub show-Lacks : (c n : ℕ) → 57 < c → Lacks c (show n)
unfolding show
show-Lacks c n h = digits-Lacks c n n [] h tt

pub split_once-append :
    (c : ℕ) (xs ys : Bytes) → Lacks c xs → split_once c (xs ++ c ∷ ys) ≡ some (xs, ys)
unfolding split_once
split_once-append c [] ys h = ground arith
split_once-append c (x ∷ xs) ys h = rw (h.0, split_once-append c xs ys h.1)

rsplit_once-Lacks : (c : ℕ) (xs : Bytes) → Lacks c xs → rsplit_once c xs ≡ none
unfolding rsplit_once
rsplit_once-Lacks c [] h = refl
rsplit_once-Lacks c (x ∷ xs) h = rw (rsplit_once-Lacks c xs h.1, h.0)

pub rsplit_once-append :
    (c : ℕ) (xs ys : Bytes) → Lacks c ys → rsplit_once c (xs ++ c ∷ ys) ≡ some (xs, ys)
unfolding rsplit_once
rsplit_once-append c [] ys h = rw (rsplit_once-Lacks c ys h) (ground arith)
rsplit_once-append c (x ∷ xs) ys h = rw (rsplit_once-append c xs ys h)

pub is_char_boundary-length : (bs : Bytes) → is_char_boundary bs (length bs) ≡ true
unfolding is_char_boundary
is_char_boundary-length [] = refl
is_char_boundary-length (b ∷ []) = refl
is_char_boundary-length (b ∷ c ∷ bs) = is_char_boundary-length (c ∷ bs)

pub bytes_eq_refl : (xs : Bytes) → bytes_eq xs xs ≡ true
bytes_eq_refl [] = refl
bytes_eq_refl (x ∷ xs) = ground (arith, bytes_eq_refl xs)

pub bytes_eq_sound : (xs ys : Bytes) → bytes_eq xs ys ≡ true → xs ≡ ys
bytes_eq_sound [] [] h = refl
bytes_eq_sound [] (y ∷ ys) h = cc
bytes_eq_sound (x ∷ xs) [] h = cc
bytes_eq_sound (x ∷ xs) (y ∷ ys) h = ground (arith, bytes_eq_sound xs ys)
