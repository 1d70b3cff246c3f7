-- ===== src/Security/Complexity/Costs.antt =====
-- src/security/complexity-analyzer.ts: the configuration of the scale, and the price of the arguments
-- of a field.
use dashboard_template_api.Common.{
  ℕ, Bool, false, ◌||◌, not, Option, none, some, List, [], ◌∷◌, String, str_eq, if◌then◌else◌,
  length, filter,
}
use dashboard_template_api.Common.Map.{Map, lookup}
use dashboard_template_api.Security.Complexity.Values.{
  Numbers, JsValue, undefined, null, number, string, boolean, array, object, ValueNode,
  variable_node, int_node, float_node, other_node, null_node, Runtime, property_of, kind_of,
  is_text, is_nullish, string_of, is_truthy, list_of,
}

-- `??` on what a map or a configuration holds
abbrev pub or_default {ℓ} : {A : Type ℓ} → Option A → A → A
or_default none fallback = fallback
or_default (some held) fallback = held

abbrev pub Argument : Type 0
Argument = String × ValueNode

-- `fieldName` of the arguments: the first of this name
unfoldable pub find_argument : String → List Argument → Option ValueNode
find_argument name [] = none
find_argument name ((key, node) ∷ rest) =
    if str_eq key name then some node else find_argument name rest

abbrev pub is_limit : String → Bool
is_limit name = str_eq name "limit" || str_eq name "first"

module _ (N : Numbers) where
  pub record ComplexityAnalyzerConfig : Type 0 where
    pub max_allowed : N.Number
    pub max_root_fields : N.Number
    pub scalar_cost : N.Number
    pub object_cost : N.Number
    pub depth_factor : N.Number
    pub introspection_cost : N.Number
    pub row_cost : N.Number
    pub stats_cost_per_column : N.Number
    pub aggregate_cost : N.Number
    pub holistic_aggregate_cost : N.Number
    pub group_column_cost : N.Number
    pub default_root_field_score : N.Number
    pub root_field_scores : Map N.Number

  -- `API.PAGINATION` of the configuration
  pub record PaginationConfig : Type 0 where
    pub max_limit : Option N.Number
    pub default_limit : Option N.Number

  -- The constructor: `section` holds the numbers that the configuration gives.
  unfoldable pub configure : Map N.Number → Option (Map N.Number) → ComplexityAnalyzerConfig
  unfolding lookup
  configure section scores = record {
    max_allowed = or_default (lookup "MAX_ALLOWED" section) (N.decimal 200 0);
    max_root_fields = or_default (lookup "MAX_ROOT_FIELDS" section) (N.decimal 20 0);
    scalar_cost = or_default (lookup "SCALAR_COST" section) (N.decimal 0 0);
    object_cost = or_default (lookup "OBJECT_COST" section) (N.decimal 1 0);
    depth_factor = or_default (lookup "DEPTH_FACTOR" section) (N.decimal 15 1);
    introspection_cost = or_default (lookup "INTROSPECTION_COST" section) (N.decimal 1000 0);
    row_cost = or_default (lookup "ROW_COST" section) (N.decimal 1 1);
    stats_cost_per_column = or_default (lookup "STATS_COST_PER_COLUMN" section) (N.decimal 5 0);
    aggregate_cost = or_default (lookup "AGGREGATE_COST" section) (N.decimal 2 0);
    holistic_aggregate_cost = or_default (lookup "HOLISTIC_AGGREGATE_COST" section) (N.decimal 5 0);
    group_column_cost = or_default (lookup "GROUP_COLUMN_COST" section) (N.decimal 3 0);
    default_root_field_score =
        or_default (lookup "DEFAULT_ROOT_FIELD_SCORE" section) (N.decimal 5 0);
    root_field_scores = or_default scores [];
  }

  -- `extractNumericValue` of a number or an object shaped like a literal, and of a literal
  unfoldable pub extract_numeric_value : Runtime N → JsValue N.Number → N.Number
  unfolding kind_of is_text property_of string_of
  extract_numeric_value runtime (number n) = n
  extract_numeric_value runtime (object fields) =
      if is_text "IntValue" (kind_of (object fields))
      then N.parse_int (string_of N runtime (property_of "value" fields))
      else if is_text "FloatValue" (kind_of (object fields))
      then N.parse_float (string_of N runtime (property_of "value" fields))
      else N.decimal 0 0
  extract_numeric_value runtime undefined = N.decimal 0 0
  extract_numeric_value runtime null = N.decimal 0 0
  extract_numeric_value runtime (string s) = N.decimal 0 0
  extract_numeric_value runtime (boolean b) = N.decimal 0 0
  extract_numeric_value runtime (array items) = N.decimal 0 0

  -- `Number.isFinite(limit) ? Math.max(limit, 0) : 0`
  abbrev pub bounded_limit : N.Number → N.Number
  bounded_limit limit = if N.is_finite limit then N.larger limit (N.decimal 0 0) else N.decimal 0 0

  abbrev pub default_page : PaginationConfig → N.Number
  default_page pagination = or_default pagination.default_limit (N.decimal 100 0)

  -- a variable's value; one that is not given is undefined
  abbrev pub variable_value : Map (JsValue N.Number) → String → JsValue N.Number
  variable_value variables name = or_default (lookup name variables) undefined

  unfoldable pub resolve_limit :
      Runtime N → PaginationConfig → ValueNode → Map (JsValue N.Number) → N.Number
  unfolding extract_numeric_value is_nullish is_text kind_of lookup
  resolve_limit runtime pagination (variable_node name) variables =
      let held = variable_value variables name in
      if is_nullish held || is_text "NullValue" (kind_of held)
      then default_page pagination
      else bounded_limit (extract_numeric_value runtime held)
  resolve_limit runtime pagination null_node variables = default_page pagination
  resolve_limit runtime pagination (int_node text) variables = bounded_limit (N.parse_int text)
  resolve_limit runtime pagination (float_node text) variables = bounded_limit (N.parse_float text)
  resolve_limit runtime pagination (other_node text) variables = bounded_limit (N.decimal 0 0)

  unfoldable pub rows_cost : ComplexityAnalyzerConfig → PaginationConfig → N.Number → N.Number
  rows_cost config pagination limit =
      N.times (N.smaller limit (or_default pagination.max_limit (N.decimal 1000 0))) config.row_cost

  -- The loop of `calculateArgumentsComplexity`, with the sum and whether a limit was charged.
  unfoldable pub charge_arguments :
      Runtime N
      → ComplexityAnalyzerConfig
      → PaginationConfig
      → Map (JsValue N.Number)
      → List Argument
      → N.Number
      → Bool
      → N.Number × Bool
  unfolding resolve_limit rows_cost
  charge_arguments runtime config pagination variables [] sum charged = (sum, charged)
  charge_arguments runtime config pagination variables ((name, node) ∷ args) sum charged =
      charge_arguments runtime config pagination variables args
        (if is_limit name
          then N.plus sum
              (rows_cost config pagination (resolve_limit runtime pagination node variables))
          else if str_eq name "structuredFilters" || str_eq name "where"
          then N.plus sum (N.decimal 2 0)
          else if str_eq name "orderBy" || str_eq name "sort"
          then N.plus sum (N.decimal 1 0)
          else sum)
        (is_limit name || charged)

  abbrev pub add_default_rows :
      ComplexityAnalyzerConfig → PaginationConfig → Option N.Number → N.Number × Bool → N.Number
  add_default_rows config pagination none (sum, charged) = sum
  add_default_rows config pagination (some limit) (sum, charged) =
      if charged then sum else N.plus sum (rows_cost config pagination limit)

  unfoldable pub calculate_arguments_complexity :
      Runtime N
      → ComplexityAnalyzerConfig
      → PaginationConfig
      → Map (JsValue N.Number)
      → List Argument
      → Option N.Number
      → N.Number
  unfolding charge_arguments rows_cost
  calculate_arguments_complexity runtime config pagination variables args default_limit =
      add_default_rows config pagination default_limit
        (charge_arguments runtime config pagination variables args (N.decimal 0 0) false)

  unfoldable pub argument_value :
      Runtime N → List Argument → String → Map (JsValue N.Number) → JsValue N.Number
  unfolding find_argument
  argument_value runtime args name variables = elim (find_argument name args) [
    | none ↦ undefined
    | some node ↦ or_default (runtime.value_from_ast_untyped node variables) undefined
  ]

  unfoldable pub list_length : JsValue N.Number → ℕ
  unfolding list_of is_nullish
  list_length (array items) = length (list_of N items)
  list_length undefined = 0
  list_length null = 0
  list_length (number n) = 1
  list_length (string s) = 1
  list_length (boolean b) = 1
  list_length (object fields) = 1

  -- An aggregate of `HOLISTIC_AGGREGATIONS`.
  unfoldable pub is_holistic : Runtime N → JsValue N.Number → Bool
  unfolding property_of string_of
  is_holistic runtime (object fields) =
      let aggregation = string_of N runtime (property_of "aggregation" fields) in
      str_eq aggregation "MEDIAN" || str_eq aggregation "MODE"
  is_holistic runtime (array items) =
      let aggregation = string_of N runtime undefined in
      str_eq aggregation "MEDIAN" || str_eq aggregation "MODE"
  is_holistic runtime undefined = false
  is_holistic runtime null = false
  is_holistic runtime (number n) = false
  is_holistic runtime (string s) = false
  is_holistic runtime (boolean b) = false

  -- the `aggregates` argument as a list
  unfoldable pub requested_aggregates : JsValue N.Number → List (JsValue N.Number)
  unfolding list_of is_truthy
  requested_aggregates (array items) = list_of N items
  requested_aggregates undefined = []
  requested_aggregates null = []
  requested_aggregates (number n) = if is_truthy N (number n) then number n ∷ [] else []
  requested_aggregates (string s) = if is_truthy N (string s) then string s ∷ [] else []
  requested_aggregates (boolean b) = if is_truthy N (boolean b) then boolean b ∷ [] else []
  requested_aggregates (object fields) = object fields ∷ []

  unfoldable pub aggregates_cost :
      Runtime N
      → ComplexityAnalyzerConfig
      → String
      → List Argument
      → Map (JsValue N.Number)
      → N.Number
  unfolding argument_value list_length is_holistic requested_aggregates
  aggregates_cost runtime config name args variables =
      if not (str_eq name "getAggregates")
      then N.decimal 0 0
      else (let aggregates =
            requested_aggregates (argument_value runtime args "aggregates" variables) in
          let holistic = length (filter (is_holistic runtime) aggregates) in
          let groups = list_length (argument_value runtime args "groupBy" variables) in
          N.plus
            (N.plus (N.times (N.decimal (length aggregates) 0) config.aggregate_cost)
              (N.times (N.decimal holistic 0) config.holistic_aggregate_cost))
            (N.times (N.decimal groups 0) config.group_column_cost))
