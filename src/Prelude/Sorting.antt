-- ===== src/Prelude/Sorting.antt =====
-- Python's `sorted` by a strict order on the items: items that the order does not tell apart keep
-- their order.
use Prim.Native.Nat.{suc}
use mathlib.Core.Path.{◌≡◌, refl, ap, ◌∙◌}
use mathlib.Core.Logic.{inl, inr}
use mathlib.Core.Bool.{Bool, true, false}
use mathlib.Core.List.{List, [], ◌∷◌}
use native.Mathlib.Omega.{arith}
use evernight_ai.Prelude.Tests.{if◌then◌else◌, Bool-cases}
use evernight_ai.Prelude.Lists.{All, length}

module _ {ℓ} {A : Type ℓ} where
  unfoldable pub place_by : (A → A → Bool) → A → List A → List A
  place_by before x [] = x ∷ []
  place_by before x (y ∷ ys) =
      let rest = place_by before x ys in if before y x then y ∷ rest else x ∷ y ∷ ys

  unfoldable pub sorted_by : (A → A → Bool) → List A → List A
  unfolding place_by
  sorted_by before [] = []
  sorted_by before (x ∷ xs) = place_by before x (sorted_by before xs)

  All-place_by {κ} :
      (P : A → Type κ) (before : A → A → Bool) (x : A) (l : List A)
      → P x
      → All P l
      → All P (place_by before x l)
  unfolding place_by
  All-place_by P before x [] p h = (p, tt)
  All-place_by P before x (y ∷ ys) p h = ground (arith, p, h, All-place_by P before x ys p h.1)

  -- What all items have, the sorted items have.
  pub All-sorted_by {κ} :
      (P : A → Type κ) (before : A → A → Bool) (l : List A) → All P l → All P (sorted_by before l)
  unfolding sorted_by
  All-sorted_by P before [] h = tt
  All-sorted_by P before (x ∷ xs) h = All-place_by P before x _ h.0 (All-sorted_by P before xs h.1)

  place_by-All {κ} :
      (P : A → Type κ) (before : A → A → Bool) (x : A) (l : List A)
      → All P (place_by before x l)
      → P x × All P l
  unfolding place_by
  place_by-All P before x [] h = h
  place_by-All P before x (y ∷ ys) h = elim (Bool-cases (before y x)) [
    | inl e ↦
        let placed : P y × All P (place_by before x ys) = ground (arith, h, e) in
        let (p, rest) = place_by-All P before x ys placed.1 in (p, (placed.0, rest))
    | inr e ↦ ground (arith, h, e)
  ]

  -- What all sorted items have, the items have.
  pub sorted_by-All {κ} :
      (P : A → Type κ) (before : A → A → Bool) (l : List A) → All P (sorted_by before l) → All P l
  unfolding sorted_by
  sorted_by-All P before [] h = tt
  sorted_by-All P before (x ∷ xs) h =
      let (p, rest) = place_by-All P before x _ h in (p, sorted_by-All P before xs rest)

-- Nothing of the list is before an item in front of it.
abbrev pub Sorted {ℓ} : {A : Type ℓ} (before : A → A → Bool) → List A → Type ℓ
Sorted before [] = Unit
Sorted before (x ∷ xs) = All (λ y. before y x ≡ false) xs × Sorted before xs

module _ {ℓ} {A : Type ℓ} (before : A → A → Bool)
    (asym : (x y : A) → before x y ≡ true → before y x ≡ false)
    (trans : (x y z : A) → before y x ≡ false → before z y ≡ false → before z x ≡ false) where
  All-later :
      (x y : A) (l : List A)
      → before y x ≡ false
      → All (λ z. before z y ≡ false) l
      → All (λ z. before z x ≡ false) l
  All-later x y [] h k = tt
  All-later x y (z ∷ l) h k = (trans x y z h k.0, All-later x y l h k.1)

  place_by-Sorted : (x : A) (l : List A) → Sorted before l → Sorted before (place_by before x l)
  unfolding place_by
  place_by-Sorted x [] h = (tt, tt)
  place_by-Sorted x (y ∷ ys) h = elim (Bool-cases (before y x)) [
    | inl e ↦ rw e (
      All-place_by (λ z. before z y ≡ false) before x ys (asym y x e) h.0,
      place_by-Sorted x ys h.1,
    )
    | inr e ↦ rw e ((e, All-later x y ys e h.0), (h.0, h.1))
  ]

  pub sorted_by-Sorted : (l : List A) → Sorted before (sorted_by before l)
  unfolding sorted_by
  sorted_by-Sorted [] = tt
  sorted_by-Sorted (x ∷ xs) = place_by-Sorted x (sorted_by before xs) (sorted_by-Sorted xs)

module _ {ℓ} {A : Type ℓ} (before : A → A → Bool) where
  length-place_by : (x : A) (l : List A) → length (place_by before x l) ≡ suc (length l)
  unfolding place_by
  length-place_by x [] = refl
  length-place_by x (y ∷ ys) = ground (arith, length-place_by x ys)

  pub length-sorted_by : (l : List A) → length (sorted_by before l) ≡ length l
  unfolding sorted_by
  length-sorted_by [] = refl
  length-sorted_by (x ∷ xs) = length-place_by x (sorted_by before xs) ∙ ap suc (length-sorted_by xs)
