-- ===== src/Security/Complexity/Operation.antt =====
-- src/security/complexity-analyzer.ts: the score of a whole operation, with the defaults of its
-- variables and of its limits.
use dashboard_template_api.Common.{
  ℕ, zero, suc, Bool, true, false, Option, none, some, List, [], ◌∷◌, String,
}
use dashboard_template_api.Common.Map.{Map, lookup, insert}
use dashboard_template_api.Security.Complexity.Values.{
  Numbers, JsValue, undefined, null, number, string, boolean, array, object, ValueNode, Runtime,
}
use dashboard_template_api.Security.Complexity.Costs.{
  or_default, ComplexityAnalyzerConfig, PaginationConfig, default_page, variable_value,
}
use dashboard_template_api.Security.Complexity.Score.{
  FieldNode, SelectionSet, field_name, FragmentMap, root_fields,
}
use dashboard_template_api.Security.Complexity.Fields.{
  ColumnList, ColumnCounter, single_column, then_charge, column_lists_of,
  calculate_field_complexity, charge_selections,
}

-- `OperationDefinitionNode`: the variables it declares, some with a default, and its selections.
pub record Operation : Type 0 where
  pub variable_definitions : List (String × Option ValueNode)
  pub selections : SelectionSet

module _ (N : Numbers) where
  -- The part of the schema that is read: for a root field with a `limit`, the default that the schema
  -- gives it, undefined where it gives none; and none for another field.
  abbrev pub LimitDefaults : Type 0
  LimitDefaults = String → Option (JsValue N.Number)

  -- `ScoringOptions`
  pub record ScoringOptions : Type 0 where
    pub schema : Option LimitDefaults
    pub columns : Option (ColumnCounter N)

  abbrev pub is_undefined : JsValue N.Number → Bool
  is_undefined undefined = true
  is_undefined null = false
  is_undefined (number n) = false
  is_undefined (string s) = false
  is_undefined (boolean b) = false
  is_undefined (array items) = false
  is_undefined (object fields) = false

  module _ (runtime : Runtime N) where
    abbrev pub default_value :
        Option ValueNode
        → JsValue N.Number
        → String
        → Map (JsValue N.Number)
        → Map (JsValue N.Number)
    default_value none held name effective = effective
    default_value (some node) held name effective = elim (is_undefined held) [
      | true ↦ insert name (or_default (runtime.value_from_ast_untyped node []) undefined) effective
      | false ↦ effective
    ]

    unfoldable pub with_default_values :
        List (String × Option ValueNode) → Map (JsValue N.Number) → Map (JsValue N.Number)
    unfolding insert lookup
    with_default_values [] effective = effective
    with_default_values ((name, default_node) ∷ rest) effective =
        with_default_values rest
          (default_value default_node (variable_value N effective name) name effective)

    -- a default that is a number, or else the default page
    abbrev pub page_of : PaginationConfig N → JsValue N.Number → N.Number
    page_of pagination (number n) = n
    page_of pagination undefined = default_page N pagination
    page_of pagination null = default_page N pagination
    page_of pagination (string s) = default_page N pagination
    page_of pagination (boolean b) = default_page N pagination
    page_of pagination (array items) = default_page N pagination
    page_of pagination (object fields) = default_page N pagination

    unfoldable pub default_limit_of :
        PaginationConfig N → FieldNode → Option LimitDefaults → Option N.Number
    default_limit_of pagination root none = none
    default_limit_of pagination root (some schema) = elim (schema (field_name root)) [
      | none ↦ none
      | some limit ↦ some (page_of pagination limit)
    ]

    module _ (config : ComplexityAnalyzerConfig N) (pagination : PaginationConfig N) where
      -- A fragment that is unknown adds nothing.
      abbrev pub add_fragment :
          Option SelectionSet → N.Number → (SelectionSet → Option N.Number) → Option N.Number
      add_fragment none sum enter = some sum
      add_fragment (some set) sum enter = then_charge (enter set) (λ cost. some (N.plus sum cost))

      unfoldable pub spread_fragment :
          FragmentMap
          → Map (JsValue N.Number)
          → ℕ
          → ℕ
          → List ColumnList
          → String
          → N.Number
          → Option N.Number
      unfolding charge_selections lookup
      spread_fragment fragments variables zero depth lists name sum =
          add_fragment (lookup name fragments) sum (λ set. none)
      spread_fragment fragments variables (suc fuel) depth lists name sum =
          add_fragment (lookup name fragments) sum (λ set.
            charge_selections N runtime config pagination variables
              (spread_fragment fragments variables fuel) set depth lists (N.decimal 0 0))

      -- The loop over the root fields.
      unfoldable pub charge_roots :
          FragmentMap
          → Map (JsValue N.Number)
          → ScoringOptions
          → ℕ
          → List FieldNode
          → N.Number
          → Option N.Number
      unfolding calculate_field_complexity spread_fragment column_lists_of default_limit_of
      charge_roots fragments variables options fuel [] sum = some sum
      charge_roots fragments variables options fuel (f ∷ fields) sum =
          then_charge
            (calculate_field_complexity N runtime config pagination variables
              (spread_fragment fragments variables fuel) f 0
              (column_lists_of N runtime f variables (or_default options.columns (single_column N)))
              (default_limit_of pagination f options.schema))
            (λ cost. charge_roots fragments variables options fuel fields (N.plus sum cost))

      unfoldable pub calculate_for_operation :
          Operation → FragmentMap → Map (JsValue N.Number) → ScoringOptions → ℕ → Option N.Number
      unfolding charge_roots with_default_values root_fields
      calculate_for_operation operation fragments variables options fuel =
          then_charge (root_fields fragments fuel operation.selections) (λ fields.
            charge_roots fragments (with_default_values operation.variable_definitions variables)
              options fuel fields (N.decimal 0 0))
