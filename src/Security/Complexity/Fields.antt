-- ===== src/Security/Complexity/Fields.antt =====
-- src/security/complexity-analyzer.ts: the cost of a field and the walk over its selections; none is a
-- walk that has not ended.
use dashboard_template_api.Common.{
  ℕ, zero, suc, ◌&&◌, ◌||◌, Option, none, some, List, [], ◌∷◌, String, str_eq, if◌then◌else◌,
  length,
}
use dashboard_template_api.Common.Map.{Map, lookup}
use dashboard_template_api.Security.Complexity.Values.{
  Numbers, JsValue, undefined, null, number, string, boolean, array, object, Runtime, list_of,
}
use dashboard_template_api.Security.Complexity.Costs.{
  or_default, ComplexityAnalyzerConfig, PaginationConfig, calculate_arguments_complexity,
  argument_value, list_length, aggregates_cost,
}
use dashboard_template_api.Security.Complexity.Score.{
  FieldNode, SelectionSet, field_name, arguments_of, has_selection, plain_field, object_field,
  end_of_set, with_field, with_inline, with_spread,
}

pub record ColumnList : Type 0 where
  pub path : List String
  pub columns : ℕ

unfoldable pub child_column_lists : List ColumnList → FieldNode → List ColumnList
child_column_lists [] child = []
child_column_lists (list ∷ lists) child = follow list.path list (child_column_lists lists child)
  where
    follow : List String → ColumnList → List ColumnList → List ColumnList
    follow [] list rest = list ∷ rest
    follow (step ∷ steps) list rest =
        if str_eq step (field_name child)
        then record { path = steps; columns = list.columns } ∷ rest
        else rest

-- `columnLists.find(…)`: the number of columns of the list that a field stands in, one without a list
unfoldable pub columns_here : List ColumnList → ℕ
columns_here [] = 1
columns_here (list ∷ lists) = elim list.path [
  | [] ↦ list.columns
  | step ∷ steps ↦ columns_here lists
]

-- A sum that goes on when one more part of it is known.
abbrev pub then_charge : {A B : Type 0} → Option A → (A → Option B) → Option B
then_charge none next = none
then_charge (some cost) next = next cost

module _ (N : Numbers) where
  -- What the counter of columns of the request answers for a catalog and a schema.
  pub record ColumnCounter : Type 0 where
    pub columns_of : JsValue N.Number → JsValue N.Number → ℕ
    pub all_columns : ℕ

  -- `SINGLE_COLUMN`
  abbrev pub single_column : ColumnCounter
  single_column = record { columns_of = λ catalog schema. 1; all_columns = 1 }

  abbrev pub projected : JsValue N.Number → ℕ → ℕ
  projected (array items) whole = elim (list_of N items) [ [] ↦ whole | x ∷ xs ↦ length (x ∷ xs) ]
  projected undefined whole = whole
  projected null whole = whole
  projected (number n) whole = whole
  projected (string s) whole = whole
  projected (boolean b) whole = whole
  projected (object fields) whole = whole

  unfoldable pub column_lists_of :
      Runtime N → FieldNode → Map (JsValue N.Number) → ColumnCounter → List ColumnList
  unfolding argument_value list_length list_of
  column_lists_of runtime root variables counter =
      let value = λ (name : String). argument_value N runtime (arguments_of root) name variables in
      let whole = counter.columns_of (value "catalog") (value "schema") in
      if str_eq (field_name root) "getCatalogSchema"
      then record { path = []; columns = whole } ∷ []
      else if str_eq (field_name root) "getFactTableWithMetadata"
      then record { path = "fields" ∷ []; columns = projected (value "fields") whole } ∷ []
      else if str_eq (field_name root) "getCatalogs"
      then record { path = "schemas" ∷ "fields" ∷ []; columns = counter.all_columns } ∷ []
      else if str_eq (field_name root) "getAggregates"
      then record { path = "groupBy" ∷ "field" ∷ []; columns = list_length N (value "groupBy") }
        ∷ record {
          path = "aggregates" ∷ "field" ∷ [];
          columns = list_length N (value "aggregates");
        }
        ∷ []
      else []

  unfoldable pub field_cost :
      ComplexityAnalyzerConfig N → FieldNode → ℕ → List ColumnList → N.Number
  unfolding columns_here lookup
  field_cost config f depth lists =
      if str_eq (field_name f) "__typename"
      then N.decimal 0 0
      else if str_eq (field_name f) "__schema" || str_eq (field_name f) "__type"
      then N.times config.introspection_cost (N.pow config.depth_factor depth)
      else elim depth [
        | zero ↦
            or_default (lookup (field_name f) config.root_field_scores)
              config.default_root_field_score
        | suc d ↦
            if str_eq (field_name f) "stats" && has_selection f
            then N.times config.stats_cost_per_column (N.decimal (columns_here lists) 0)
            else N.times (if has_selection f then config.object_cost else config.scalar_cost)
                (N.pow config.depth_factor (suc d))
      ]

  module _ (runtime : Runtime N) (config : ComplexityAnalyzerConfig N)
      (pagination : PaginationConfig N) (variables : Map (JsValue N.Number)) where
    -- The cost of a field itself, with its arguments and, at the root, its aggregates.
    unfoldable pub own_cost : FieldNode → ℕ → List ColumnList → Option N.Number → N.Number
    unfolding field_cost calculate_arguments_complexity aggregates_cost
    own_cost f depth lists default_limit =
        let cost = N.plus (field_cost config f depth lists) (
          calculate_arguments_complexity N runtime config pagination variables (arguments_of f)
            default_limit) in
        elim depth [
          | zero ↦
              N.plus cost
                (aggregates_cost N runtime config (field_name f) (arguments_of f) variables)
          | suc d ↦ cost
        ]

    -- `calculateFieldComplexity`, with what a spread adds to a sum
    unfoldable mutual
      unfolding own_cost child_column_lists

      pub calculate_field_complexity :
          (ℕ → List ColumnList → String → N.Number → Option N.Number)
          → FieldNode
          → ℕ
          → List ColumnList
          → Option N.Number
          → Option N.Number
      calculate_field_complexity spread (plain_field name args) depth lists default_limit =
          some (own_cost (plain_field name args) depth lists default_limit)
      calculate_field_complexity spread (object_field name args set) depth lists default_limit =
          charge_selections spread set depth lists
            (own_cost (object_field name args set) depth lists default_limit)

      pub charge_selections :
          (ℕ → List ColumnList → String → N.Number → Option N.Number)
          → SelectionSet
          → ℕ
          → List ColumnList
          → N.Number
          → Option N.Number
      charge_selections spread end_of_set depth lists sum = some sum
      charge_selections spread (with_field f rest) depth lists sum =
          then_charge
            (calculate_field_complexity spread f (suc depth) (child_column_lists lists f) none)
            (λ cost. charge_selections spread rest depth lists (N.plus sum cost))
      charge_selections spread (with_inline inner rest) depth lists sum =
          then_charge (charge_selections spread inner depth lists (N.decimal 0 0))
            (λ cost. charge_selections spread rest depth lists (N.plus sum cost))
      charge_selections spread (with_spread name rest) depth lists sum =
          then_charge (spread depth lists name sum)
            (λ total. charge_selections spread rest depth lists total)
