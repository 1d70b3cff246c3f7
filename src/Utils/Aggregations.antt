-- ===== src/Utils/Aggregations.antt =====
-- src/utils/aggregations.ts: the aggregations, their SQL, and those that a measure admits.
use Prim.Native.String.{◌++◌}
use dashboard_template_api.Common.{
  ℕ, Bool, false, ◌||◌, Option, none, some, List, [], ◌∷◌, String, filter, ◌==◌, str_eq,
  if◌then◌else◌,
}
use dashboard_template_api.Utils.FilterTree.Input.{
  SqlTypeFamily, fam_numeric, fam_date, fam_text, fam_boolean, fam_other,
}
use dashboard_template_api.Utils.FilterTree.Typing.{Platform, normalize_sql_type, sql_type_family}

pub data Aggregation : Type 0 where
  sum avg max min count median mode : Aggregation

abbrev pub aggregations : List Aggregation
aggregations = sum ∷ avg ∷ max ∷ min ∷ count ∷ median ∷ mode ∷ []

-- `AGGREGATION_SQL`, which is also the name of the enum's value
unfoldable pub aggregation_sql : Aggregation → String
aggregation_sql sum = "SUM"
aggregation_sql avg = "AVG"
aggregation_sql max = "MAX"
aggregation_sql min = "MIN"
aggregation_sql count = "COUNT"
aggregation_sql median = "MEDIAN"
aggregation_sql mode = "MODE"

unfoldable pub aggregate_expression : Aggregation → String → String
unfolding aggregation_sql
aggregate_expression mode column =
    aggregation_sql mode ++ ("(" ++ (column ++ (" ORDER BY " ++ (column ++ ")"))))
aggregate_expression aggregation column = aggregation_sql aggregation ++ ("(" ++ (column ++ ")"))

abbrev pub allowed_by_family : SqlTypeFamily → List Aggregation
allowed_by_family fam_numeric = aggregations
allowed_by_family fam_date = max ∷ min ∷ count ∷ mode ∷ []
allowed_by_family fam_text = count ∷ mode ∷ []
allowed_by_family fam_boolean = count ∷ mode ∷ []
allowed_by_family fam_other = count ∷ mode ∷ []

abbrev pub numeric_result : List Aggregation
numeric_result = sum ∷ avg ∷ median ∷ count ∷ []

-- `list.includes(aggregation)`
abbrev code_of : Aggregation → ℕ
code_of sum = 0
code_of avg = 1
code_of max = 2
code_of min = 3
code_of count = 4
code_of median = 5
code_of mode = 6

unfoldable pub includes_aggregation : List Aggregation → Aggregation → Bool
includes_aggregation [] aggregation = false
includes_aggregation (a ∷ rest) aggregation =
    code_of a == code_of aggregation || includes_aggregation rest aggregation

-- the value of the enum with this name
abbrev named_in : List Aggregation → String → Option Aggregation
named_in [] name = none
named_in (a ∷ rest) name = if str_eq (aggregation_sql a) name then some a else named_in rest name

unfoldable pub aggregation_named : String → Option Aggregation
unfolding aggregation_sql
aggregation_named name = named_in aggregations name

module _ (js : Platform) where
  unfoldable pub measure_family : String → SqlTypeFamily
  unfolding normalize_sql_type sql_type_family
  measure_family sql_type = sql_type_family (normalize_sql_type js sql_type)

  unfoldable pub allowed_aggregations : String → List Aggregation
  unfolding measure_family includes_aggregation
  allowed_aggregations sql_type =
      let allowed = allowed_by_family (measure_family sql_type) in
      filter (includes_aggregation allowed) aggregations

  unfoldable pub aggregated_value_family : Aggregation → String → SqlTypeFamily
  unfolding measure_family includes_aggregation
  aggregated_value_family aggregation sql_type =
      if includes_aggregation numeric_result aggregation
      then fam_numeric
      else measure_family sql_type
