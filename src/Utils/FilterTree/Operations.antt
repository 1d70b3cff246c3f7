-- ===== src/Utils/FilterTree/Operations.antt =====
-- src/utils/filter-tree.ts, the operations: those of each family, the shapes of their SQL, and the
-- connectors.
use Prim.Native.String.{String, ◌++◌}
use dashboard_template_api.Common.{ℕ, Bool, false, ◌||◌, List, [], ◌∷◌, ◌==◌}
use dashboard_template_api.Utils.FilterTree.Input.{
  FilterOperation, FilterConnector, SqlTypeFamily, fam_numeric, fam_date, fam_text, fam_boolean,
  fam_other, op_eq, op_neq, op_gt, op_gte, op_lt, op_lte, op_between, op_not_between, op_in,
  op_not_in, op_before, op_after, op_on_or_before, op_on_or_after, op_contains, op_not_contains,
  op_starts, op_not_starts, op_ends, op_not_ends, op_ieq, op_icontains, op_istarts, op_iends,
  op_matches, op_is_null, op_is_not_null, op_is_true, op_is_false, op_is_not_true, op_is_not_false,
  con_and, con_or, con_and_not, con_or_not, con_xor, con_xnor, con_nand, con_nor,
}

abbrev pub allowed_operations : SqlTypeFamily → List FilterOperation
allowed_operations fam_numeric =
    op_eq ∷ op_neq ∷ op_gt ∷ op_gte ∷ op_lt ∷ op_lte ∷ op_between ∷ op_not_between ∷ op_in
    ∷ op_not_in ∷ op_is_null ∷ op_is_not_null ∷ []
allowed_operations fam_date =
    op_eq ∷ op_neq ∷ op_before ∷ op_after ∷ op_on_or_before ∷ op_on_or_after ∷ op_between
    ∷ op_not_between ∷ op_in ∷ op_not_in ∷ op_is_null ∷ op_is_not_null ∷ []
allowed_operations fam_text =
    op_eq ∷ op_neq ∷ op_ieq ∷ op_contains ∷ op_not_contains ∷ op_icontains ∷ op_starts
    ∷ op_not_starts ∷ op_istarts ∷ op_ends ∷ op_not_ends ∷ op_iends ∷ op_matches ∷ op_in ∷ op_not_in
    ∷ op_is_null ∷ op_is_not_null ∷ []
allowed_operations fam_boolean =
    op_eq ∷ op_neq ∷ op_is_true ∷ op_is_false ∷ op_is_not_true ∷ op_is_not_false ∷ op_is_null
    ∷ op_is_not_null ∷ []
allowed_operations fam_other = op_is_null ∷ op_is_not_null ∷ []

-- How an operation is compiled: the tables `VALUELESS_SQL`, `LIKE_OPERATIONS` and `COMPARISON_SQL`
-- and the cases of the `switch`, which share no operation.
pub data Pattern : Type 0 where
  pat_contains pat_starts pat_ends pat_exact : Pattern

pub data Shape : Type 0 where
  valueless : String → Shape
  like : String → Pattern → Shape
  matches : Shape
  between in_list comparison : String → Shape

unfoldable pub shape_of_operation : FilterOperation → Shape
shape_of_operation op_is_null = valueless "IS NULL"
shape_of_operation op_is_not_null = valueless "IS NOT NULL"
shape_of_operation op_is_true = valueless "IS TRUE"
shape_of_operation op_is_false = valueless "IS FALSE"
shape_of_operation op_is_not_true = valueless "IS NOT TRUE"
shape_of_operation op_is_not_false = valueless "IS NOT FALSE"
shape_of_operation op_contains = like "LIKE" pat_contains
shape_of_operation op_not_contains = like "NOT LIKE" pat_contains
shape_of_operation op_icontains = like "ILIKE" pat_contains
shape_of_operation op_starts = like "LIKE" pat_starts
shape_of_operation op_not_starts = like "NOT LIKE" pat_starts
shape_of_operation op_istarts = like "ILIKE" pat_starts
shape_of_operation op_ends = like "LIKE" pat_ends
shape_of_operation op_not_ends = like "NOT LIKE" pat_ends
shape_of_operation op_iends = like "ILIKE" pat_ends
shape_of_operation op_ieq = like "ILIKE" pat_exact
shape_of_operation op_matches = matches
shape_of_operation op_between = between "BETWEEN"
shape_of_operation op_not_between = between "NOT BETWEEN"
shape_of_operation op_in = in_list "IN"
shape_of_operation op_not_in = in_list "NOT IN"
shape_of_operation op_eq = comparison "="
shape_of_operation op_neq = comparison "<>"
shape_of_operation op_gt = comparison ">"
shape_of_operation op_gte = comparison ">="
shape_of_operation op_lt = comparison "<"
shape_of_operation op_lte = comparison "<="
shape_of_operation op_before = comparison "<"
shape_of_operation op_after = comparison ">"
shape_of_operation op_on_or_before = comparison "<="
shape_of_operation op_on_or_after = comparison ">="

-- `allowed.includes(operation)`
unfoldable pub op_code : FilterOperation → ℕ
op_code op_eq = 0
op_code op_neq = 1
op_code op_gt = 2
op_code op_gte = 3
op_code op_lt = 4
op_code op_lte = 5
op_code op_between = 6
op_code op_not_between = 7
op_code op_in = 8
op_code op_not_in = 9
op_code op_before = 10
op_code op_after = 11
op_code op_on_or_before = 12
op_code op_on_or_after = 13
op_code op_contains = 14
op_code op_not_contains = 15
op_code op_starts = 16
op_code op_not_starts = 17
op_code op_ends = 18
op_code op_not_ends = 19
op_code op_ieq = 20
op_code op_icontains = 21
op_code op_istarts = 22
op_code op_iends = 23
op_code op_matches = 24
op_code op_is_null = 25
op_code op_is_not_null = 26
op_code op_is_true = 27
op_code op_is_false = 28
op_code op_is_not_true = 29
op_code op_is_not_false = 30

unfoldable pub includes_operation : List FilterOperation → FilterOperation → Bool
unfolding op_code
includes_operation [] op = false
includes_operation (x ∷ xs) op = op_code x == op_code op || includes_operation xs op

-- `CONNECTOR_COMBINERS`
unfoldable pub combine : FilterConnector → String → String → String
combine con_and left right = left ++ (" AND " ++ right)
combine con_or left right = left ++ (" OR " ++ right)
combine con_and_not left right = left ++ (" AND NOT (" ++ (right ++ ")"))
combine con_or_not left right = left ++ (" OR NOT (" ++ (right ++ ")"))
combine con_xor left right = "(" ++ (left ++ (") <> (" ++ (right ++ ")")))
combine con_xnor left right = "(" ++ (left ++ (") = (" ++ (right ++ ")")))
combine con_nand left right = "NOT ((" ++ (left ++ (") AND (" ++ (right ++ "))")))
combine con_nor left right = "NOT ((" ++ (left ++ (") OR (" ++ (right ++ "))")))
