-- ===== src/Utils/FilterTree/Tests.antt =====
-- A filter on two columns, and the theorems at it.
use Prim.Native.Char.{code}
use dashboard_template_api.Common.{◌↔◌, ◌≡◌, refl, true, false, none, some, [], ◌∷◌, length, ◌==◌}
use dashboard_template_api.Common.Map.{lookup}
use dashboard_template_api.Utils.SqlText.{Holds}
use dashboard_template_api.Utils.Identifiers.{quote_ident, join}
use dashboard_template_api.Utils.FilterTree.Input.{
  op_gte, op_contains, con_or, Value, number, string, absent, known, FilterNode, node, no_children,
  children, no_nodes, add_node, Limits, ok, refused, unknown_column, ◌>>=◌, ◌>>◌, require,
}
use dashboard_template_api.Utils.FilterTree.Typing.{
  Platform, normalize_sql_type, sql_type_family, is_decimal_type, cast_type_of,
}
use dashboard_template_api.Utils.FilterTree.Operations.{
  shape_of_operation, includes_operation, combine,
}
use dashboard_template_api.Utils.FilterTree.Values.{
  re2_step, escape_like, is_re2_compatible, re2_scan, filter_variable, coerce_value,
}
use dashboard_template_api.Utils.FilterTree.Criterion.{
  CompiledFilter, Metadata, compile_shape, compile_criterion,
}
use dashboard_template_api.Utils.FilterTree.Tree.{
  collect_filter_variables, walk, compile_node, tree_to_sql,
}
use dashboard_template_api.Utils.FilterTree.Collected.{
  IsCollected, collect_filter_variables-IsCollected,
}
use dashboard_template_api.Utils.FilterTree.Placeholders.{tree_to_sql-Holds}
use dashboard_template_api.Utils.FilterTree.Permitted.{all_permitted, tree_to_sql_permitted}
use dashboard_template_api.Utils.FilterTree.LikePattern.{like, Matches, like_pattern_iff}
use dashboard_template_api.Utils.FilterTree.Operations.{pat_contains}
use dashboard_template_api.Utils.FilterTree.Criterion.{like_pattern}

runs : Unit {0}
unfolding collect_filter_variables walk tree_to_sql compile_node compile_criterion compile_shape
    combine normalize_sql_type sql_type_family is_decimal_type cast_type_of shape_of_operation
    includes_operation escape_like re2_scan filter_variable coerce_value ◌>>=◌ ◌>>◌ require
    quote_ident join lookup
runs = tt

-- A platform that takes texts as they are and matches nothing.
abbrev js : Platform
js = record {
  trim = λ s. s;
  to_upper_case = λ s. s;
  is_space = λ c. code c == b' ';
  utf16_length = λ s. 0;
  exec = λ pattern s. none;
  to_number = λ s. 0;
  utc_date = λ y m d. (y, m, d);
  utc_abs_ms = λ y m d hh mm ss. 0;
}

abbrev limits : Limits
limits = record { max_depth = 5; max_criteria = 50; max_in_values = 1000; max_pattern_length = 200 }

abbrev metadata : Metadata
metadata = ("price", string "DECIMAL (10, 2)") ∷ ("na\"me", string "VARCHAR") ∷ []

abbrev ten : Value
ten = number (record { is_finite = true; is_safe_integer = true; to_text = "10" })

abbrev price : FilterNode
price =
    node absent absent
      (some (record { variable = string "price"; operation = some op_gte; value = ten }))
      no_children

abbrev name : FilterNode
name =
    node (known con_or) (known true)
      (some
        (record { variable = string "na\"me"; operation = some op_contains; value = string "5%" }))
      no_children

abbrev root : FilterNode
root = node absent absent none (children (add_node price (add_node name no_nodes)))

abbrev result : CompiledFilter
result = record {
  sql = "\"price\" >= CAST(? AS DECIMAL(10,2)) OR NOT (\"na\"\"me\" LIKE ? ESCAPE '\\')";
  params = ten ∷ string "%5\\%%" ∷ [];
}

tree_to_sql-root : tree_to_sql js limits metadata root ≡ ok result
unfolding runs
tree_to_sql-root = refl

tree_to_sql-unknown : tree_to_sql js limits [] root ≡ refused unknown_column
unfolding runs
tree_to_sql-unknown = refl

collect_filter_variables-root : collect_filter_variables limits root ≡ ok ("price" ∷ "na\"me" ∷ [])
unfolding runs
collect_filter_variables-root = refl

-- A lookahead is refused, in a class it is a plain text.
is_re2_compatible-lookahead : is_re2_compatible "a(?=b)" ≡ false
unfolding runs is_re2_compatible re2_step
is_re2_compatible-lookahead = refl

is_re2_compatible-class : is_re2_compatible "[(?=]\\\\1" ≡ true
unfolding runs is_re2_compatible re2_step
is_re2_compatible-class = refl

tree_to_sql-Holds_example : Holds result.sql (length result.params)
tree_to_sql-Holds_example = tree_to_sql-Holds js limits metadata root result tree_to_sql-root

collect_filter_variables-IsCollected_example : IsCollected limits root ("price" ∷ "na\"me" ∷ [])
collect_filter_variables-IsCollected_example =
    collect_filter_variables-IsCollected limits root ("price" ∷ "na\"me" ∷ [])
      collect_filter_variables-root

tree_to_sql_permitted_example : all_permitted js metadata root ≡ true
tree_to_sql_permitted_example =
    tree_to_sql_permitted js metadata limits root result tree_to_sql-root

like_pattern_iff_example :
    (like false (like_pattern pat_contains (escape_like "5%")) "15% off" ≡ true)
    ↔ Matches pat_contains "5%" "15% off"
like_pattern_iff_example = like_pattern_iff pat_contains "5%" "15% off"
