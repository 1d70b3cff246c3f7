-- ===== src/Security/Complexity/Positive.antt =====
-- The parts of a score are not negative.
use dashboard_template_api.Common.{
  ℕ, zero, suc, Bool, true, false, ◌&&◌, ◌||◌, not, Option, none, some, List, [], ◌∷◌, String,
  str_eq, if◌then◌else◌,
}
use dashboard_template_api.Common.Map.{Map, lookup}
use dashboard_template_api.Security.Complexity.Values.{
  Numbers, Laws, JsValue, ValueNode, variable_node, int_node, float_node, other_node, null_node,
  Runtime, kind_of, is_text, is_nullish,
}
use dashboard_template_api.Security.Complexity.Costs.{
  or_default, Argument, ComplexityAnalyzerConfig, PaginationConfig, bounded_limit, default_page,
  variable_value, resolve_limit, rows_cost, aggregates_cost,
}
use dashboard_template_api.Security.Complexity.Score.{FieldNode, field_name, has_selection}
use dashboard_template_api.Security.Complexity.Fields.{ColumnList, field_cost}
use dashboard_template_api.Security.Complexity.Charges.{
  Positive, PositiveIfGiven, PositiveScores, IsScale,
}

pub if_keeps {ℓ κ} :
    {A : Type ℓ} (P : A → Type κ) (b : Bool) (x y : A) → P x → P y → P (if b then x else y)
if_keeps P true x y px py = px
if_keeps P false x y px py = py

module _ (N : Numbers) (L : Laws N) where
  pub plus_positive : (a b : N.Number) → Positive N L a → Positive N L b → Positive N L (N.plus a b)
  plus_positive a b ha hb = L.le_trans _ a _ ha (L.le_plus_left a b hb)

  or_default_positive :
      (given : Option N.Number) (fallback : N.Number)
      → PositiveIfGiven N L given
      → Positive N L fallback
      → Positive N L (or_default given fallback)
  or_default_positive none fallback h d = d
  or_default_positive (some a) fallback h d = h

  lookup_positive :
      (name : String) (scores : Map N.Number) (fallback : N.Number)
      → PositiveScores N L scores
      → Positive N L fallback
      → Positive N L (or_default (lookup name scores) fallback)
  unfolding lookup
  lookup_positive name [] fallback h d = d
  lookup_positive name ((key, score) ∷ rest) fallback (here, later) d =
      if_keeps (λ (o : Option N.Number). Positive N L (or_default o fallback)) (str_eq key name) _ _
        here (lookup_positive name rest fallback later d)

  module _ (runtime : Runtime N) (config : ComplexityAnalyzerConfig N)
      (pagination : PaginationConfig N) (scale : IsScale N L config pagination)
      (variables : Map (JsValue N.Number)) where
    bounded_limit_positive : (limit : N.Number) → Positive N L (bounded_limit N limit)
    bounded_limit_positive limit =
        if_keeps (Positive N L) (N.is_finite limit) _ _ (L.larger_positive limit) (L.le_refl _)

    default_page_positive : Positive N L (default_page N pagination)
    default_page_positive =
        or_default_positive pagination.default_limit _ scale.default_rows (L.decimal_positive 100 0)

    pub resolve_limit_positive :
        (node : ValueNode) → Positive N L (resolve_limit N runtime pagination node variables)
    unfolding resolve_limit
    resolve_limit_positive (variable_node name) =
        if_keeps (Positive N L)
          (is_nullish (variable_value N variables name)
            || is_text "NullValue" (kind_of (variable_value N variables name)))
          _ _ default_page_positive (bounded_limit_positive _)
    resolve_limit_positive null_node = default_page_positive
    resolve_limit_positive (int_node text) = bounded_limit_positive _
    resolve_limit_positive (float_node text) = bounded_limit_positive _
    resolve_limit_positive (other_node text) = bounded_limit_positive _

    pub rows_cost_positive :
        (limit : N.Number) → Positive N L limit → Positive N L (rows_cost N config pagination limit)
    unfolding rows_cost
    rows_cost_positive limit h =
        L.times_positive _ _
          (L.smaller_positive _ _ h
            (or_default_positive pagination.max_limit _ scale.max_rows (L.decimal_positive 1000 0)))
          scale.row

    pub aggregates_cost_positive :
        (name : String) (args : List Argument)
        → Positive N L (aggregates_cost N runtime config name args variables)
    unfolding aggregates_cost
    aggregates_cost_positive name args =
        if_keeps (Positive N L) (not (str_eq name "getAggregates")) _ _ (L.le_refl _) (
          plus_positive _ _
            (plus_positive _ _ (L.times_positive _ _ (L.decimal_positive _ 0) scale.aggregate)
              (L.times_positive _ _ (L.decimal_positive _ 0) scale.holistic))
            (L.times_positive _ _ (L.decimal_positive _ 0) scale.group))

    weighted_positive :
        (base : N.Number) (depth : ℕ)
        → Positive N L base
        → Positive N L (N.times base (N.pow config.depth_factor depth))
    weighted_positive base depth h = L.times_positive _ _ h (L.pow_positive _ depth scale.factor)

    pub field_cost_positive :
        (f : FieldNode) (depth : ℕ) (lists : List ColumnList)
        → Positive N L (field_cost N config f depth lists)
    unfolding field_cost
    field_cost_positive f zero lists =
        if_keeps (Positive N L) (str_eq (field_name f) "__typename") _ _ (L.le_refl _) (
          if_keeps (Positive N L)
            (str_eq (field_name f) "__schema" || str_eq (field_name f) "__type") _ _
            (weighted_positive _ 0 scale.introspection)
            (lookup_positive (field_name f) config.root_field_scores _ scale.roots
              scale.default_root))
    field_cost_positive f (suc d) lists =
        if_keeps (Positive N L) (str_eq (field_name f) "__typename") _ _ (L.le_refl _) (
          if_keeps (Positive N L)
            (str_eq (field_name f) "__schema" || str_eq (field_name f) "__type") _ _
            (weighted_positive _ (suc d) scale.introspection)
            (if_keeps (Positive N L) (str_eq (field_name f) "stats" && has_selection f) _ _
              (L.times_positive _ _ scale.stats (L.decimal_positive _ 0))
              (weighted_positive _ (suc d)
                (if_keeps (Positive N L) (has_selection f) _ _ scale.nested scale.scalar))))
