-- ===== src/Security/Complexity/Charged.antt =====
-- Every root field of an operation is charged.
use dashboard_template_api.Common.{ℕ, ◌≡◌, refl, Option, none, some, List, [], ◌∷◌, String, All}
use dashboard_template_api.Common.Map.{Map}
use dashboard_template_api.Security.Complexity.Values.{Numbers, Laws, JsValue, Runtime}
use dashboard_template_api.Security.Complexity.Costs.{
  or_default, ComplexityAnalyzerConfig, PaginationConfig,
}
use dashboard_template_api.Security.Complexity.Charges.{
  Positive, PositiveIfGiven, IsScale, IsCharged,
}
use dashboard_template_api.Security.Complexity.Positive.{plus_positive}
use dashboard_template_api.Security.Complexity.Score.{FieldNode, FragmentMap, root_fields}
use dashboard_template_api.Security.Complexity.Fields.{
  ColumnList, single_column, column_lists_of, then_charge,
}
use dashboard_template_api.Security.Complexity.Operation.{
  Operation, ScoringOptions, with_default_values, default_limit_of, spread_fragment, charge_roots,
  calculate_for_operation,
}
use dashboard_template_api.Security.Complexity.Walked.{
  own, own_cost-positive, own_cost-IsCharged, calculate_field_complexity-grows,
  spread_fragment-grows,
}
use dashboard_template_api.Security.Complexity.Ending.{
  Ends, FieldBelow, SetBelow, IsRanked, FieldsBelow, root_fields-FieldsBelow,
  calculate_field_complexity-Ends, spread_fragment-Ends,
}

module _ (N : Numbers) (L : Laws N) (runtime : Runtime N) (config : ComplexityAnalyzerConfig N)
    (pagination : PaginationConfig N) (scale : IsScale N L config pagination)
    (options : ScoringOptions N)
    (limits : (f : FieldNode)
      → PositiveIfGiven N L (default_limit_of N runtime pagination f options.schema))
    (fragments : FragmentMap) where
  abbrev pub lists_of : Map (JsValue N.Number) → FieldNode → List ColumnList
  lists_of variables f =
      column_lists_of N runtime f variables (or_default options.columns (single_column N))

  abbrev pub limit_of : FieldNode → Option N.Number
  limit_of f = default_limit_of N runtime pagination f options.schema

  module _ (variables : Map (JsValue N.Number)) where
    abbrev pub Charged : N.Number → FieldNode → Type 0
    Charged score f =
        IsCharged N L runtime config pagination variables f (lists_of variables f) (limit_of f)
          score

    abbrev pub ChargedAll : List FieldNode → N.Number → Option N.Number → Type 0
    ChargedAll fields sum none = ⊥
    ChargedAll fields sum (some score) = L.Le sum score × All (Charged score) fields

    abbrev OwnCharge : FieldNode → N.Number → Type 0
    OwnCharge f cost =
        L.Le
          (own N L runtime config pagination scale variables f 0 (lists_of variables f)
            (limit_of f))
          cost

    cost_positive : (f : FieldNode) (cost : N.Number) → OwnCharge f cost → Positive N L cost
    cost_positive f cost owned =
        L.le_trans _ _ _
          (own_cost-positive N L runtime config pagination scale variables f 0
            (lists_of variables f) (limit_of f) (limits f))
          owned

    first_charged :
        (f : FieldNode) (fields : List FieldNode) (sum cost : N.Number) (o : Option N.Number)
        → Positive N L sum
        → OwnCharge f cost
        → ChargedAll fields (N.plus sum cost) o
        → ChargedAll (f ∷ fields) sum o
    first_charged f fields sum cost none h owned h' = h'
    first_charged f fields sum cost (some score) h owned (le, later) = (
      L.le_trans _ _ _ (L.le_plus_left _ _ (cost_positive f cost owned)) le,
      (
        own_cost-IsCharged N L runtime config pagination scale variables f (lists_of variables f)
            (limit_of f) score (limits f)
            (L.le_trans _ _ _ owned (L.le_trans _ _ _ (L.le_plus_right _ _ h) le)),
        later,
      ),
    )

    then_charged :
        (f : FieldNode) (fields : List FieldNode) (sum : N.Number) (o : Option N.Number)
        (next : N.Number → Option N.Number)
        → Positive N L sum
        → Ends o
        → ((cost : N.Number) → o ≡ some cost → OwnCharge f cost)
        → ((cost : N.Number) → Positive N L cost → ChargedAll fields (N.plus sum cost) (next cost))
        → ChargedAll (f ∷ fields) sum (then_charge o next)
    then_charged f fields sum none next h ends grows rest = absurd ends
    then_charged f fields sum (some cost) next h ends grows rest =
        let owned = grows cost refl in
        first_charged f fields sum cost (next cost) h owned (rest cost (cost_positive f cost owned))

    charge_roots-Charged :
        (rank : String → ℕ) (ranked : IsRanked rank fragments) (bound : ℕ) (fields : List FieldNode)
        (sum : N.Number)
        → Positive N L sum
        → All (FieldBelow rank bound) fields
        → ChargedAll fields sum
            (charge_roots N runtime config pagination fragments variables options bound fields sum)
    unfolding charge_roots
    charge_roots-Charged rank ranked bound [] sum h below = (L.le_refl sum, tt)
    charge_roots-Charged rank ranked bound (f ∷ fields) sum h (here, later) =
        then_charged f fields sum _ _ h
          (calculate_field_complexity-Ends rank fragments ranked N runtime config pagination
            variables bound (spread_fragment N runtime config pagination fragments variables bound)
            (λ d ls n s lower.
              spread_fragment-Ends rank fragments ranked N runtime config pagination variables bound
                d ls n s lower)
            f 0 _ _ here)
          (λ cost e.
            calculate_field_complexity-grows N L runtime config pagination scale variables
              (spread_fragment N runtime config pagination fragments variables bound)
              (λ d ls n s t.
                spread_fragment-grows N L runtime config pagination scale variables fragments bound
                  d ls n s t)
              f 0 _ _ cost e)
          (λ cost p.
            charge_roots-Charged rank ranked bound fields _ (plus_positive N L _ _ h p) later)

  abbrev pub OperationCharged :
      Map (JsValue N.Number) → Option (List FieldNode) → Option N.Number → Type 0
  OperationCharged variables none score = ⊥
  OperationCharged variables (some fields) none = ⊥
  OperationCharged variables (some fields) (some score) = All (Charged variables score) fields

  roots_charged :
      (variables : Map (JsValue N.Number)) (fields : List FieldNode) (sum : N.Number)
      (o : Option N.Number)
      → ChargedAll variables fields sum o
      → OperationCharged variables (some fields) o
  roots_charged variables fields sum none h = h
  roots_charged variables fields sum (some score) (le, h) = h

  charged_fields :
      (rank : String → ℕ) (ranked : IsRanked rank fragments) (bound : ℕ)
      (variables : Map (JsValue N.Number)) (o : Option (List FieldNode))
      → FieldsBelow rank fragments ranked bound o
      → OperationCharged variables o (
          then_charge o (λ fields.
            charge_roots N runtime config pagination fragments variables options bound fields
              (N.decimal 0 0)))
  charged_fields rank ranked bound variables none h = h
  charged_fields rank ranked bound variables (some fields) h =
      roots_charged variables fields _ _
        (charge_roots-Charged variables rank ranked bound fields _ (L.le_refl _) h)

  -- Where the costs of the scale and the default limits are not negative, and the fragments form no
  -- cycle, an operation has root fields and a score, and the score is at least what each root field
  -- asks of the database: its configured score, the rows of every limit that it gives, the rows of
  -- the default limit if it gives none, and its aggregates and group columns.
  pub calculate_for_operation-OperationCharged :
      (rank : String → ℕ) (ranked : IsRanked rank fragments) (bound : ℕ) (operation : Operation)
      (variables : Map (JsValue N.Number))
      → SetBelow rank bound operation.selections
      → OperationCharged
          (with_default_values N runtime operation.variable_definitions variables)
          (root_fields fragments bound operation.selections)
          (calculate_for_operation N runtime config pagination operation fragments variables options
            bound)
  unfolding calculate_for_operation
  calculate_for_operation-OperationCharged rank ranked bound operation variables below =
      charged_fields rank ranked bound
        (with_default_values N runtime operation.variable_definitions variables) _
        (root_fields-FieldsBelow rank fragments ranked bound operation.selections below)
