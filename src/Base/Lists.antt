-- ===== src/Base/Lists.antt =====
-- Lists measured by native numbers, and lists of texts as Redis keeps them.
use Prim.Native.Nat.{ℕ, zero, suc, ◌+◌, ◌-◌, ◌≤◌, ◌<◌}
use Prim.Native.String.{String}
use mathlib.Core.Path.{◌≡◌, refl}
use mathlib.Core.Bool.{Bool, true, false, ◌||◌}
use mathlib.Core.List.{List, [], ◌∷◌, ◌++◌}
use native.Mathlib.Omega.{arith}
use text.Mathlib.Text.{◌==◌ as str_eq}
use text.Mathlib.TextEquality.{eq_iff}
use text.Mathlib.TextPositions.{eq_refl}
use oxana.Base.Tests.{if◌then◌else◌, Bool-cases}
use mathlib.Core.Logic.{◌≢◌, inl, inr}

module _ {ℓ} {A : Type ℓ} where
  abbrev pub length : List A → ℕ
  length [] = 0
  length (x ∷ xs) = suc (length xs)

  abbrev pub take : ℕ → List A → List A
  take zero xs = []
  take (suc n) [] = []
  take (suc n) (x ∷ xs) = x ∷ take n xs

  abbrev pub drop : ℕ → List A → List A
  drop zero xs = xs
  drop (suc n) [] = []
  drop (suc n) (x ∷ xs) = drop n xs

  pub length-append : (xs ys : List A) → length (xs ++ ys) ≡ length xs + length ys
  length-append [] ys = omega arith
  length-append (x ∷ xs) ys = omega (arith, length-append xs ys)

  pub length-take-le : (n : ℕ) (xs : List A) → length (take n xs) ≤ n
  length-take-le zero xs = omega arith
  length-take-le (suc n) [] = omega arith
  length-take-le (suc n) (x ∷ xs) = omega (arith, length-take-le n xs)

-- The entry `i` stands in the list.
unfoldable pub elem : String → List String → Bool
elem i [] = false
elem i (x ∷ xs) = str_eq x i || elem i xs

-- LREM key 1 value: the first occurrence goes.
unfoldable pub remove_first : String → List String → List String
remove_first i [] = []
remove_first i (x ∷ xs) = let rest = remove_first i xs in if str_eq x i then xs else x ∷ rest

-- LREM key 0 value: every occurrence goes.
unfoldable pub remove_all : String → List String → List String
remove_all i [] = []
remove_all i (x ∷ xs) = let rest = remove_all i xs in if str_eq x i then rest else x ∷ rest

-- How often the entry stands in the list.
unfoldable pub count : String → List String → ℕ
count i [] = 0
count i (x ∷ xs) = let n = count i xs in if str_eq x i then suc n else n

pub elem-remove_first_ne :
    (i j : String) (xs : List String) → str_eq i j ≡ false → elem j (remove_first i xs) ≡ elem j xs
unfolding elem remove_first
elem-remove_first_ne i j [] h = refl
elem-remove_first_ne i j (x ∷ xs) h =
    ground (arith, elem-remove_first_ne i j xs h, eq_iff x i, eq_iff x j, eq_iff i j)

pub elem-remove_all :
    (i j : String) (xs : List String)
    → elem j (remove_all i xs) ≡ (if str_eq i j then false else elem j xs)
unfolding elem remove_all
elem-remove_all i j [] = ground arith
elem-remove_all i j (x ∷ xs) =
    ground (arith, elem-remove_all i j xs, eq_iff x i, eq_iff x j, eq_iff i j)

pub count-remove_first :
    (i j : String) (xs : List String)
    → count j (remove_first i xs) ≡ (if str_eq i j then count j xs - 1 else count j xs)
unfolding count remove_first
count-remove_first i j [] = ground arith
count-remove_first i j (x ∷ xs) =
    ground (arith, count-remove_first i j xs, eq_iff x i, eq_iff x j, eq_iff i j)

pub count-elem : (i : String) (xs : List String) → elem i xs ≡ true → 0 < count i xs
unfolding count elem
count-elem i [] h = absurd (ground arith)
count-elem i (x ∷ xs) h = ground (arith, count-elem i xs)

pub elem-count : (i : String) (xs : List String) → 0 < count i xs → elem i xs ≡ true
unfolding count elem
elem-count i [] h = absurd (omega arith)
elem-count i (x ∷ xs) h = ground (arith, elem-count i xs)

pub elem-cons_self : (i : String) (xs : List String) → elem i (i ∷ xs) ≡ true
unfolding elem
elem-cons_self i xs = rw (eq_refl i)

pub remove_first-cons_self : (i : String) (xs : List String) → remove_first i (i ∷ xs) ≡ xs
unfolding remove_first
remove_first-cons_self i xs = rw (eq_refl i)

pub str_eq-distinct : (i j : String) → i ≢ j → str_eq i j ≡ false
str_eq-distinct i j h = elim (Bool-cases (str_eq i j)) [
  | inl e ↦ absurd (h ((eq_iff i j).0 e))
  | inr e ↦ e
]
