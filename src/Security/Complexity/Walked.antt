-- ===== src/Security/Complexity/Walked.antt =====
-- A walk over selections only adds to the sum, and ends where no fragment spreads itself.
use dashboard_template_api.Common.{ℕ, zero, suc, ◌≡◌, refl, Option, none, some, List, String}
use mathlib.Core.Path.{subst}
use dashboard_template_api.Common.Map.{Map, lookup}
use dashboard_template_api.Security.Complexity.Values.{Numbers, Laws, JsValue, Runtime}
use dashboard_template_api.Security.Complexity.Costs.{
  Argument, ComplexityAnalyzerConfig, PaginationConfig,
}
use dashboard_template_api.Security.Complexity.Charges.{
  Positive, PositiveIfGiven, IsScale, DefaultCharged, IsCharged,
}
use dashboard_template_api.Security.Complexity.Positive.{
  plus_positive, field_cost_positive, aggregates_cost_positive,
}
use dashboard_template_api.Security.Complexity.Rows.{
  LimitsCharged-le, arguments_cost, arguments_cost-positive, arguments_cost-LimitsCharged,
  arguments_cost-DefaultCharged,
}
use dashboard_template_api.Security.Complexity.Score.{
  FieldNode, plain_field, object_field, SelectionSet, end_of_set, with_field, with_inline,
  with_spread, field_name, arguments_of, FragmentMap,
}
use dashboard_template_api.Security.Complexity.Fields.{
  ColumnList, then_charge, child_column_lists, field_cost, own_cost, calculate_field_complexity,
  charge_selections,
}
use dashboard_template_api.Security.Complexity.Operation.{add_fragment, spread_fragment}

pub then_charge-some :
    {A B : Type 0} (o : Option A) (next : A → Option B) (total : B)
    → then_charge o next ≡ some total
    → (c : A) × (o ≡ some c) × (next c ≡ some total)
then_charge-some none next total e = cc
then_charge-some (some c) next total e = (c, refl, e)

module _ (N : Numbers) (L : Laws N) (runtime : Runtime N) (config : ComplexityAnalyzerConfig N)
    (pagination : PaginationConfig N) (scale : IsScale N L config pagination)
    (variables : Map (JsValue N.Number)) where
  pub le_some : (a b : N.Number) → some a ≡ some b → L.Le a b
  le_some a b e = let same : a ≡ b = cc e in subst (λ (x : N.Number). L.Le a x) same (L.le_refl a)

  abbrev pub own : FieldNode → ℕ → List ColumnList → Option N.Number → N.Number
  own f depth lists limit = own_cost N runtime config pagination variables f depth lists limit

  abbrev args_of : FieldNode → Option N.Number → N.Number
  args_of f limit = arguments_cost N L runtime config pagination scale variables f limit

  base_positive :
      (f : FieldNode) (depth : ℕ) (lists : List ColumnList) (limit : Option N.Number)
      → PositiveIfGiven N L limit
      → Positive N L (N.plus (field_cost N config f depth lists) (args_of f limit))
  base_positive f depth lists limit given =
      plus_positive N L _ _
        (field_cost_positive N L runtime config pagination scale variables f depth lists)
        (arguments_cost-positive N L runtime config pagination scale variables f limit given)

  pub own_cost-positive :
      (f : FieldNode) (depth : ℕ) (lists : List ColumnList) (limit : Option N.Number)
      → PositiveIfGiven N L limit
      → Positive N L (own f depth lists limit)
  unfolding own_cost
  own_cost-positive f zero lists limit given =
      plus_positive N L _ _ (base_positive f 0 lists limit given) (
        aggregates_cost_positive N L runtime config pagination scale variables (field_name f)
          (arguments_of f))
  own_cost-positive f (suc d) lists limit given = base_positive f (suc d) lists limit given

  DefaultCharged-le :
      (args : List Argument) (limit : Option N.Number) (a b : N.Number)
      → L.Le a b
      → DefaultCharged N L runtime config pagination variables args limit a
      → DefaultCharged N L runtime config pagination variables args limit b
  DefaultCharged-le args none a b h c = tt
  DefaultCharged-le args (some limit) a b h c = λ e. L.le_trans _ _ _ (c e) h

  pub own_cost-IsCharged :
      (f : FieldNode) (lists : List ColumnList) (limit : Option N.Number) (score : N.Number)
      → PositiveIfGiven N L limit
      → L.Le (own f 0 lists limit) score
      → IsCharged N L runtime config pagination variables f lists limit score
  unfolding own_cost
  own_cost-IsCharged f lists limit score given h =
      let base : L.Le (N.plus (field_cost N config f 0 lists) (args_of f limit)) score =
        L.le_trans _ _ _
          (L.le_plus_left _ _ (
            aggregates_cost_positive N L runtime config pagination scale variables (field_name f)
              (arguments_of f)))
          h in
      let args : L.Le (args_of f limit) score =
        L.le_trans _ _ _
          (L.le_plus_right _ _
            (field_cost_positive N L runtime config pagination scale variables f 0 lists))
          base in
      (
        L.le_trans _ _ _
            (L.le_plus_left _ _
              (arguments_cost-positive N L runtime config pagination scale variables f limit given))
            base,
        LimitsCharged-le N L runtime config pagination scale variables (arguments_of f) _ _ args (
            arguments_cost-LimitsCharged N L runtime config pagination scale variables f limit
              given),
        DefaultCharged-le (arguments_of f) limit _ _ args (
            arguments_cost-DefaultCharged N L runtime config pagination scale variables f limit
              given),
        L.le_trans _ _ _ (L.le_plus_right _ _ (base_positive f 0 lists limit given)) h,
      )

  abbrev pub Spread : Type 0
  Spread = ℕ → List ColumnList → String → N.Number → Option N.Number

  module _ (spread : Spread)
      (grows : (depth : ℕ) (lists : List ColumnList) (name : String) (sum total : N.Number)
        → spread depth lists name sum ≡ some total
        → L.Le sum total) where
    mutual
      unfolding calculate_field_complexity

      pub calculate_field_complexity-grows :
          (f : FieldNode) (depth : ℕ) (lists : List ColumnList) (limit : Option N.Number)
          (cost : N.Number)
          → calculate_field_complexity N runtime config pagination variables spread f depth lists
              limit
            ≡ some cost
          → L.Le (own f depth lists limit) cost
      calculate_field_complexity-grows (plain_field name args) depth lists limit cost e =
          le_some _ _ e
      calculate_field_complexity-grows (object_field name args set) depth lists limit cost e =
          charge_selections-grows set depth lists _ cost e

      pub charge_selections-grows :
          (set : SelectionSet) (depth : ℕ) (lists : List ColumnList) (sum total : N.Number)
          → charge_selections N runtime config pagination variables spread set depth lists sum
            ≡ some total
          → L.Le sum total
      charge_selections-grows end_of_set depth lists sum total e = le_some _ _ e
      charge_selections-grows (with_field f rest) depth lists sum total e =
          let (cost, ef, er) = then_charge-some _ _ total e in
          L.le_trans _ _ _
            (L.le_plus_left _ _ (
              L.le_trans _ _ _
                (own_cost-positive f (suc depth) (child_column_lists lists f) none tt)
                (calculate_field_complexity-grows f (suc depth) (child_column_lists lists f) none
                  cost ef)))
            (charge_selections-grows rest depth lists _ total er)
      charge_selections-grows (with_inline inner rest) depth lists sum total e =
          let (cost, ei, er) = then_charge-some _ _ total e in
          L.le_trans _ _ _
            (L.le_plus_left _ _ (charge_selections-grows inner depth lists _ cost ei))
            (charge_selections-grows rest depth lists _ total er)
      charge_selections-grows (with_spread name rest) depth lists sum total e =
          let (reached, es, er) = then_charge-some _ _ total e in
          L.le_trans _ _ _ (grows depth lists name sum reached es)
            (charge_selections-grows rest depth lists reached total er)

  add_fragment-grows :
      (o : Option SelectionSet) (sum total : N.Number) (enter : SelectionSet → Option N.Number)
      → ((set : SelectionSet) (cost : N.Number) → enter set ≡ some cost → Positive N L cost)
      → add_fragment N runtime config pagination o sum enter ≡ some total
      → L.Le sum total
  add_fragment-grows none sum total enter h e = le_some _ _ e
  add_fragment-grows (some set) sum total enter h e =
      let (cost, ec, et) = then_charge-some _ _ total e in
      L.le_trans _ _ _ (L.le_plus_left _ _ (h set cost ec)) (le_some _ _ et)

  -- A fragment adds what its selections cost.
  pub spread_fragment-grows :
      (fragments : FragmentMap) (fuel depth : ℕ) (lists : List ColumnList) (name : String)
      (sum total : N.Number)
      → spread_fragment N runtime config pagination fragments variables fuel depth lists name sum
        ≡ some total
      → L.Le sum total
  unfolding spread_fragment
  spread_fragment-grows fragments zero depth lists name sum total e =
      add_fragment-grows (lookup name fragments) sum total _ (λ set cost f. cc f) e
  spread_fragment-grows fragments (suc fuel) depth lists name sum total e =
      add_fragment-grows (lookup name fragments) sum total _
        (λ set cost f.
          charge_selections-grows
            (spread_fragment N runtime config pagination fragments variables fuel)
            (λ d ls n s t. spread_fragment-grows fragments fuel d ls n s t) set depth lists _ cost
            f)
        e
