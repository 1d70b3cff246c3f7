-- ===== src/Utils/Columns.antt =====
-- src/utils/identifiers.ts, assertColumns: the check of requested columns against the metadata table.
-- `show` is JavaScript's `String`, for the names that the error quotes.
pub mod Checks
pub mod Tests
use dashboard_template_api.Common.{
  ◌≡◌, refl, ◌↔◌, Bool, true, false, not, ◌&&◌, Option, none, some, List, [], ◌∷◌, String, arith,
  str_eq, if◌then◌else◌, all, Bool-cases, inl, inr,
}
use dashboard_template_api.Utils.FilterTree.Input.{Value, string}
use dashboard_template_api.Utils.FilterTree.Tree.{add_name}

module _ (show : Value → String) (has : String → Bool) where
  -- the column is a non-empty string that the metadata has
  abbrev pub is_column : Value → Bool
  is_column (string s) = not (str_eq s "") && has s
  is_column v = false

  -- the distinct names of the others, after those found so far
  unfoldable pub unknown_columns : List Value → List String → List String
  unfolding add_name
  unknown_columns [] found = found
  unknown_columns (v ∷ vs) found =
      unknown_columns vs (if is_column v then found else add_name (show v) found)

  abbrev pub refusal : List String → Option (List String)
  refusal [] = none
  refusal (x ∷ xs) = some (x ∷ xs)

  -- The names that the error lists; none where nothing is thrown.
  unfoldable pub assert_columns : List Value → Option (List String)
  unfolding unknown_columns
  assert_columns names = refusal (unknown_columns names [])
