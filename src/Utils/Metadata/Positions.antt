-- ===== src/Utils/Metadata/Positions.antt =====
-- The rows in the order of the fact table.
use mathlib.Core.List.{◌++◌}
use dashboard_template_api.Common.{
  ℕ, ◌+◌, ◌≡◌, refl, ap, ◌∙◌, ◌⊎◌, inl, inr, Bool, true, false, not, ◌&&◌, Option, none, some, List,
  [], ◌∷◌, map, filter, count, String, arith, Bool-cases, leb, all, count-append,
}
use dashboard_template_api.Common.Map.{Map, lookup}
use dashboard_template_api.Common.Sort.{insert_sorted, sort, IsSorted, count-sort, sort-IsSorted}
use dashboard_template_api.Utils.Metadata.{
  FieldMetadata, is_present, position_of, placed, by_position, by_name, sort_by_column_position,
}

-- Two columns in the order of the table: by their positions, then those that have none, by name.
abbrev pub in_table_order : (String → String → Bool) → Option ℕ → Option ℕ → String → String → Bool
in_table_order le (some i) (some j) a b = leb i j
in_table_order le (some i) none a b = true
in_table_order le none (some j) a b = false
in_table_order le none none a b = le a b

abbrev pub table_order : (String → String → Bool) → Map ℕ → FieldMetadata → FieldMetadata → Bool
table_order le positions a b =
    in_table_order le (lookup a.name positions) (lookup b.name positions) a.name b.name

module _ {ℓ} {A : Type ℓ} where
  all-insert_sorted :
      (le : A → A → Bool) (p : A → Bool) (x : A) (xs : List A)
      → all p (insert_sorted le x xs) ≡ (p x && all p xs)
  unfolding insert_sorted
  all-insert_sorted le p x [] = refl
  all-insert_sorted le p x (y ∷ ys) = elim (Bool-cases (le x y)) [
    | inl before ↦ rw before
    | inr behind ↦ rw behind (ground (arith, all-insert_sorted le p x ys))
  ]

  all-sort : (le : A → A → Bool) (p : A → Bool) (xs : List A) → all p (sort le xs) ≡ all p xs
  unfolding sort
  all-sort le p [] = refl
  all-sort le p (x ∷ xs) =
      all-insert_sorted le p x (sort le xs) ∙ ap (λ b. p x && b) (all-sort le p xs)

  all-filter : (p : A → Bool) (xs : List A) → all p (filter p xs) ≡ true
  all-filter p [] = refl
  all-filter p (x ∷ xs) = ground (arith, all-filter p xs)

  count-split :
      (p q : A → Bool) (xs : List A)
      → count q (filter p xs) + count q (filter (λ x. not (p x)) xs) ≡ count q xs
  count-split p q [] = refl
  count-split p q (x ∷ xs) = ground (arith, count-split p q xs)

  count-filter : (p q : A → Bool) (xs : List A) → count q (filter p xs) ≡ count (λ x. q x && p x) xs
  count-filter p q [] = refl
  count-filter p q (x ∷ xs) = ground (arith, count-filter p q xs)

  count-map {κ} :
      {B : Type κ} (f : A → B) (q : B → Bool) (xs : List A)
      → count q (map f xs) ≡ count (λ x. q (f x)) xs
  count-map f q [] = refl
  count-map f q (x ∷ xs) = ground (arith, count-map f q xs)

  -- An order that agrees on the elements at hand sorts them alike.
  IsSorted-agree :
      (le lf : A → A → Bool) (p : A → Bool)
      → ((x y : A) → p x ≡ true → p y ≡ true → le x y ≡ true → lf x y ≡ true)
      → (xs : List A) → all p xs ≡ true
      → IsSorted le xs
      → IsSorted lf xs
  unfolding IsSorted
  IsSorted-agree le lf p agree [] h s = tt
  IsSorted-agree le lf p agree (x ∷ []) h s = tt
  IsSorted-agree le lf p agree (x ∷ y ∷ ys) h (xy, s) = (
    agree x y (ground arith) (ground arith) xy,
    IsSorted-agree le lf p agree (y ∷ ys) (ground arith) s,
  )

  IsSorted-append :
      (le : A → A → Bool) (p q : A → Bool)
      → ((x y : A) → p x ≡ true → q y ≡ true → le x y ≡ true)
      → (xs ys : List A) → all p xs ≡ true
      → all q ys ≡ true
      → IsSorted le xs
      → IsSorted le ys
      → IsSorted le (xs ++ ys)
  unfolding IsSorted
  IsSorted-append le p q across [] ys hp hq sx sy = sy
  IsSorted-append le p q across (x ∷ []) [] hp hq sx sy = tt
  IsSorted-append le p q across (x ∷ []) (y ∷ ys) hp hq sx sy =
      (across x y (ground arith) (ground arith), sy)
  IsSorted-append le p q across (x ∷ z ∷ xs) ys hp hq (xz, sx) sy =
      (xz, IsSorted-append le p q across (z ∷ xs) ys (ground arith) hq sx sy)

leb_total : (i j : ℕ) → (leb i j ≡ true) ⊎ (leb j i ≡ true)
leb_total i j = ground arith

module _ (le : String → String → Bool) where
  agree_at :
      (o p : Option ℕ) (a b : String)
      → is_present o ≡ true
      → is_present p ≡ true
      → leb (position_of o) (position_of p) ≡ true
      → in_table_order le o p a b ≡ true
  agree_at none p a b ho hp h = cc
  agree_at (some i) none a b ho hp h = cc
  agree_at (some i) (some j) a b ho hp h = h

  across_at :
      (o p : Option ℕ) (a b : String)
      → is_present o ≡ true
      → not (is_present p) ≡ true
      → in_table_order le o p a b ≡ true
  across_at none p a b ho hp = cc
  across_at (some i) none a b ho hp = refl
  across_at (some i) (some j) a b ho hp = cc

  unplaced_at :
      (o p : Option ℕ) (a b : String)
      → not (is_present o) ≡ true
      → not (is_present p) ≡ true
      → le a b ≡ true
      → in_table_order le o p a b ≡ true
  unplaced_at (some i) p a b ho hp h = cc
  unplaced_at none (some j) a b ho hp h = cc
  unplaced_at none none a b ho hp h = h

module _ (le : String → String → Bool) (total : (x y : String) → (le x y ≡ true) ⊎ (le y x ≡ true))
    (positions : Map ℕ) where
  placed_agree :
      (x y : FieldMetadata)
      → placed positions x ≡ true
      → placed positions y ≡ true
      → by_position positions x y ≡ true
      → table_order le positions x y ≡ true
  placed_agree x y px py h =
      agree_at le (lookup x.name positions) (lookup y.name positions) x.name y.name px py h

  placed_across :
      (x y : FieldMetadata)
      → placed positions x ≡ true
      → not (placed positions y) ≡ true
      → table_order le positions x y ≡ true
  placed_across x y px py =
      across_at le (lookup x.name positions) (lookup y.name positions) x.name y.name px py

  unplaced_agree :
      (x y : FieldMetadata)
      → not (placed positions x) ≡ true
      → not (placed positions y) ≡ true
      → by_name le x y ≡ true
      → table_order le positions x y ≡ true
  unplaced_agree x y px py h =
      unplaced_at le (lookup x.name positions) (lookup y.name positions) x.name y.name px py h

  placed-IsSorted :
      (fields : List FieldMetadata)
      → IsSorted
          (table_order le positions)
          (sort (by_position positions) (filter (placed positions) fields))
  placed-IsSorted fields =
      IsSorted-agree (by_position positions) _ (placed positions) placed_agree _
        (all-sort (by_position positions) (placed positions) _
          ∙ all-filter (placed positions) fields)
        (sort-IsSorted (by_position positions) (λ x y. leb_total _ _) _)

  unplaced-IsSorted :
      (fields : List FieldMetadata)
      → IsSorted
          (table_order le positions)
          (sort (by_name le) (filter (λ f. not (placed positions f)) fields))
  unplaced-IsSorted fields =
      IsSorted-agree (by_name le) _ (λ f. not (placed positions f)) unplaced_agree _
        (all-sort (by_name le) (λ f. not (placed positions f)) _
          ∙ all-filter (λ f. not (placed positions f)) fields)
        (sort-IsSorted (by_name le) (λ x y. total x.name y.name) _)

  -- Under a total order on the names, the rows that are returned are the rows that were given, each as
  -- often, in the order of the table: those with a position by their positions, then the others by
  -- name; and `unplaced` lists the names of the rows without a position.
  pub sort_by_column_position-IsSorted :
      (fields : List FieldMetadata)
      → IsSorted (table_order le positions) (sort_by_column_position le fields positions).fields
        × ((q : FieldMetadata → Bool)
            → count q (sort_by_column_position le fields positions).fields ≡ count q fields)
        × ((q : String → Bool)
            → count q (sort_by_column_position le fields positions).unplaced
              ≡ count (λ (f : FieldMetadata). q f.name && not (placed positions f)) fields)
  unfolding sort_by_column_position
  sort_by_column_position-IsSorted fields = (
    IsSorted-append _ (placed positions) (λ f. not (placed positions f)) placed_across _ _
        (all-sort (by_position positions) (placed positions) _
          ∙ all-filter (placed positions) fields)
        (all-sort (by_name le) (λ f. not (placed positions f)) _
          ∙ all-filter (λ f. not (placed positions f)) fields)
        (placed-IsSorted fields) (unplaced-IsSorted fields),
    λ q. omega (
      arith,
      count-append q (sort (by_position positions) (filter (placed positions) fields))
          (sort (by_name le) (filter (λ f. not (placed positions f)) fields)),
      count-sort (by_position positions) q (filter (placed positions) fields),
      count-sort (by_name le) q (filter (λ f. not (placed positions f)) fields),
      count-split (placed positions) q fields,
    ),
    λ q.
        count-map (λ (f : FieldMetadata). f.name) q _
        ∙ count-sort (by_name le) (λ f. q f.name) _
        ∙ count-filter (λ f. not (placed positions f)) (λ f. q f.name) fields,
  )
