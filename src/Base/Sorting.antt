-- ===== src/Base/Sorting.antt =====
-- The stable sort of Rust's slices, as an insertion sort with the test whether one entry may stand
-- before another.
use oxana.Base.Tests.{ltb, ◌==◌, if◌then◌else◌, Bool-cases}
use mathlib.Core.Logic.{inl, inr}
use mathlib.Core.Path.{◌≡◌, refl}
use mathlib.Core.Bool.{Bool, true, false}
use mathlib.Core.List.{List, [], ◌∷◌, Permᴰ}
use mathlib.Core.List.Permᴰ
use oxana.Base.Decimal.{Bytes}
use native.Mathlib.Omega.{arith}

-- An entry goes before the first one that it does not stand behind.
unfoldable pub insert_sorted : {A : Type 0} → (A → A → Bool) → A → List A → List A
insert_sorted before x [] = x ∷ []
insert_sorted before x (y ∷ ys) =
    let after = insert_sorted before x ys in if before x y then x ∷ y ∷ ys else y ∷ after

unfoldable pub sort_by : {A : Type 0} → (A → A → Bool) → List A → List A
unfolding insert_sorted
sort_by before [] = []
sort_by before (x ∷ xs) = insert_sorted before x (sort_by before xs)

-- Texts in the order of their bytes.
abbrev pub bytes_le : Bytes → Bytes → Bool
bytes_le [] ys = true
bytes_le (x ∷ xs) [] = false
bytes_le (x ∷ xs) (y ∷ ys) = if x == y then bytes_le xs ys else ltb x y

pub bytes_le-total : (xs ys : Bytes) → bytes_le xs ys ≡ false → bytes_le ys xs ≡ true
bytes_le-total [] ys h = cc
bytes_le-total (x ∷ xs) [] h = refl
bytes_le-total (x ∷ xs) (y ∷ ys) h = ground (arith, bytes_le-total xs ys)

module _ {A : Type 0} (before : A → A → Bool) where
  abbrev Leads : A → List A → Type 0
  Leads x [] = Unit {0}
  Leads x (y ∷ ys) = before x y ≡ true

  -- Each entry may stand before the next one.
  abbrev pub Sorted : List A → Type 0
  Sorted [] = Unit {0}
  Sorted (x ∷ xs) = Leads x xs × Sorted xs

  abbrev pub IsTotal : Type 0
  IsTotal = (x y : A) → before x y ≡ false → before y x ≡ true

  insert_sorted-Leads :
      (x y : A) (ys : List A) → before y x ≡ true → Leads y ys → Leads y (insert_sorted before x ys)
  unfolding insert_sorted
  insert_sorted-Leads x y [] h l = h
  insert_sorted-Leads x y (z ∷ zs) h l = elim (Bool-cases (before x z)) [
    | inl e ↦ rw e h
    | inr e ↦ rw e l
  ]

  insert_sorted-Sorted :
      IsTotal → (x : A) (ys : List A) → Sorted ys → Sorted (insert_sorted before x ys)
  unfolding insert_sorted
  insert_sorted-Sorted total x [] s = (tt, tt)
  insert_sorted-Sorted total x (y ∷ ys) s = elim (Bool-cases (before x y)) [
    | inl e ↦ rw e (e, s)
    | inr e ↦
        rw e (insert_sorted-Leads x y ys (total x y e) s.0, insert_sorted-Sorted total x ys s.1)
  ]

  pub sort_by-Sorted : IsTotal → (xs : List A) → Sorted (sort_by before xs)
  unfolding sort_by
  sort_by-Sorted total [] = tt
  sort_by-Sorted total (x ∷ xs) =
      insert_sorted-Sorted total x (sort_by before xs) (sort_by-Sorted total xs)

  insert_sorted-Perm : (x : A) (ys : List A) → Permᴰ (insert_sorted before x ys) (x ∷ ys)
  unfolding insert_sorted
  insert_sorted-Perm x [] = Permᴰ.refl (x ∷ [])
  insert_sorted-Perm x (y ∷ ys) = elim (Bool-cases (before x y)) [
    | inl e ↦ rw e (Permᴰ.refl (x ∷ y ∷ ys))
    | inr e ↦ rw e (Permᴰ.trans (Permᴰ.cons refl (insert_sorted-Perm x ys)) (Permᴰ.swap refl refl))
  ]

  pub sort_by-Perm : (xs : List A) → Permᴰ (sort_by before xs) xs
  unfolding sort_by
  sort_by-Perm [] = Permᴰ.nil
  sort_by-Perm (x ∷ xs) =
      Permᴰ.trans (insert_sorted-Perm x (sort_by before xs)) (Permᴰ.cons refl (sort_by-Perm xs))
