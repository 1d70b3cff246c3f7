-- ===== src/Utils/Columns/Checks.antt =====
-- When the requested columns pass.
use dashboard_template_api.Common.{
  ◌≡◌, refl, ◌↔◌, Bool, true, false, ◌&&◌, none, List, [], ◌∷◌, ◌++◌, String, arith, all,
  Bool-cases, inl, inr,
}
use dashboard_template_api.Utils.FilterTree.Input.{Value}
use dashboard_template_api.Utils.FilterTree.Tree.{add_name}
use dashboard_template_api.Utils.Columns.{is_column, unknown_columns, refusal, assert_columns}

abbrev empty {ℓ} : {A : Type ℓ} → List A → Bool
empty [] = true
empty (x ∷ xs) = false

empty-snoc : (xs : List String) (x : String) → empty (xs ++ x ∷ []) ≡ false
empty-snoc [] x = refl
empty-snoc (y ∷ xs) x = refl

-- A collected name stays.
add_name-empty : (x : String) (xs : List String) → empty (add_name x xs) ≡ false
unfolding add_name
add_name-empty x [] = refl
add_name-empty x (y ∷ xs) = ground (arith, empty-snoc (y ∷ xs) x)

module _ (show : Value → String) (has : String → Bool) where
  unknown_columns-empty :
      (vs : List Value) (found : List String)
      → empty (unknown_columns show has vs found) ≡ (empty found && all (is_column show has) vs)
  unfolding unknown_columns
  unknown_columns-empty [] found = ground arith
  unknown_columns-empty (v ∷ vs) found = elim (Bool-cases (is_column show has v)) [
    | inl column ↦ rw column (unknown_columns-empty vs found)
    | inr other ↦ rw other (
        ground (
          arith,
          unknown_columns-empty vs (add_name (show v) found),
          add_name-empty (show v) found,
        ))
  ]

  refusal_iff : (xs : List String) → (refusal show has xs ≡ none) ↔ (empty xs ≡ true)
  refusal_iff [] = (λ h. refl, λ h. refl)
  refusal_iff (x ∷ xs) = (λ h. cc, λ h. cc)

  pub assert_columns_iff :
      (names : List Value)
      → (assert_columns show has names ≡ none) ↔ (all (is_column show has) names ≡ true)
  unfolding assert_columns
  assert_columns_iff names =
      rw (unknown_columns-empty names []) at (refusal_iff (unknown_columns show has names []))
