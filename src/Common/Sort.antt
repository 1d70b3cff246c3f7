-- ===== src/Common/Sort.antt =====
-- `Array.prototype.sort`, a stable sort: equal elements keep their order.
use Prim.Native.Nat.{◌+◌}
use mathlib.Core.Path.{◌≡◌, refl}
use mathlib.Core.Logic.{◌⊎◌, inl, inr}
use mathlib.Core.Bool.{Bool, true, false}
use mathlib.Core.List.{List, [], ◌∷◌}
use native.Mathlib.Omega.{arith}
use dashboard_template_api.Common.Tests.{if◌then◌else◌, Bool-cases}
use dashboard_template_api.Common.Lists.{count}

module _ {ℓ} {A : Type ℓ} (le : A → A → Bool) where
  unfoldable pub insert_sorted : A → List A → List A
  insert_sorted x [] = x ∷ []
  insert_sorted x (y ∷ ys) =
      let later = y ∷ insert_sorted x ys in if le x y then x ∷ y ∷ ys else later

  unfoldable pub sort : List A → List A
  unfolding insert_sorted
  sort [] = []
  sort (x ∷ xs) = insert_sorted x (sort xs)

  count-insert_sorted :
      (p : A → Bool) (x : A) (xs : List A)
      → count p (insert_sorted x xs) ≡ (if p x then 1 else 0) + count p xs
  unfolding insert_sorted
  count-insert_sorted p x [] = refl
  count-insert_sorted p x (y ∷ ys) = elim (Bool-cases (le x y)) [
    | inl before ↦ rw before
    | inr behind ↦ rw behind (omega (arith, count-insert_sorted p x ys))
  ]

  -- Sorting keeps every element, as often.
  pub count-sort : (p : A → Bool) (xs : List A) → count p (sort xs) ≡ count p xs
  unfolding sort
  count-sort p [] = refl
  count-sort p (x ∷ xs) = omega (arith, count-insert_sorted p x (sort xs), count-sort p xs)

  -- Each element is at most the next one.
  unfoldable pub IsSorted : List A → Type 0
  IsSorted [] = Unit
  IsSorted (x ∷ []) = Unit
  IsSorted (x ∷ y ∷ ys) = (le x y ≡ true) × IsSorted (y ∷ ys)

  module _ (total : (x y : A) → (le x y ≡ true) ⊎ (le y x ≡ true)) where
    le_of_not : (x y : A) → le x y ≡ false → le y x ≡ true
    le_of_not x y h = elim (total x y) [ inl e ↦ cc | inr e ↦ e ]

    insert_sorted-IsSorted : (x : A) (xs : List A) → IsSorted xs → IsSorted (insert_sorted x xs)
    unfolding insert_sorted IsSorted
    insert_sorted-IsSorted x [] h = tt
    insert_sorted-IsSorted x (y ∷ []) h = elim (Bool-cases (le x y)) [
      | inl before ↦ rw before (before, tt)
      | inr behind ↦ rw behind (le_of_not x y behind, tt)
    ]
    insert_sorted-IsSorted x (y ∷ z ∷ zs) (yz, h) = elim (Bool-cases (le x y)) [
      | inl before ↦ rw before (before, (yz, h))
      | inr behind ↦ elim (Bool-cases (le x z)) [
        | inl between ↦ rw (behind, between) (le_of_not x y behind, (between, h))
        | inr later ↦ rw (behind, later) (yz, rw later at (insert_sorted-IsSorted x (z ∷ zs) h))
      ]
    ]

    pub sort-IsSorted : (xs : List A) → IsSorted (sort xs)
    unfolding sort
    sort-IsSorted [] = unfold IsSorted in tt
    sort-IsSorted (x ∷ xs) = insert_sorted-IsSorted x (sort xs) (sort-IsSorted xs)
