-- ===== src/Security/Complexity/Rows.antt =====
-- The arguments of a field are charged: the rows of each limit, or of the default one.
use dashboard_template_api.Common.{
  ◌≡◌, refl, Bool, false, ◌||◌, Option, none, some, List, [], ◌∷◌, str_eq, arith,
}
use dashboard_template_api.Common.Map.{Map}
use dashboard_template_api.Security.Complexity.Values.{Numbers, Laws, JsValue, Runtime}
use dashboard_template_api.Security.Complexity.Costs.{
  Argument, is_limit, ComplexityAnalyzerConfig, PaginationConfig, charge_arguments,
  add_default_rows, calculate_arguments_complexity,
}
use dashboard_template_api.Security.Complexity.Score.{FieldNode, arguments_of}
use dashboard_template_api.Security.Complexity.Charges.{
  Positive, PositiveIfGiven, IsScale, LimitsCharged, has_limit, DefaultCharged,
}
use dashboard_template_api.Security.Complexity.Positive.{
  if_keeps, plus_positive, resolve_limit_positive, rows_cost_positive,
}

module _ (N : Numbers) (L : Laws N) where
  module _ (runtime : Runtime N) (config : ComplexityAnalyzerConfig N)
      (pagination : PaginationConfig N) (scale : IsScale N L config pagination)
      (variables : Map (JsValue N.Number)) where
    -- Each argument only adds to the sum.
    charge_arguments-grows :
        (args : List Argument) (sum : N.Number) (charged : Bool)
        → L.Le sum (charge_arguments N runtime config pagination variables args sum charged).0
    unfolding charge_arguments
    charge_arguments-grows [] sum charged = L.le_refl sum
    charge_arguments-grows ((name, node) ∷ args) sum charged =
        L.le_trans _ _ _
          (if_keeps (L.Le sum) (is_limit name) _ _
            (L.le_plus_left _ _ (
              rows_cost_positive N L runtime config pagination scale variables _
                (resolve_limit_positive N L runtime config pagination scale variables node)))
            (if_keeps (L.Le sum) (str_eq name "structuredFilters" || str_eq name "where") _ _
              (L.le_plus_left _ _ (L.decimal_positive 2 0))
              (if_keeps (L.Le sum) (str_eq name "orderBy" || str_eq name "sort") _ _
                (L.le_plus_left _ _ (L.decimal_positive 1 0)) (L.le_refl sum))))
          (charge_arguments-grows args _ (is_limit name || charged))

    pub LimitsCharged-le :
        (args : List Argument) (a b : N.Number)
        → L.Le a b
        → LimitsCharged N L runtime config pagination variables args a
        → LimitsCharged N L runtime config pagination variables args b
    LimitsCharged-le [] a b h charged = tt
    LimitsCharged-le ((name, node) ∷ args) a b h (here, later) =
        (λ e. L.le_trans _ _ _ (here e) h, LimitsCharged-le args a b h later)

    charge_arguments-LimitsCharged :
        (args : List Argument) (sum : N.Number) (charged : Bool)
        → Positive N L sum
        → LimitsCharged N L runtime config pagination variables args
            (charge_arguments N runtime config pagination variables args sum charged).0
    unfolding charge_arguments
    charge_arguments-LimitsCharged [] sum charged h = tt
    charge_arguments-LimitsCharged ((name, node) ∷ args) sum charged h = (
      λ e.
          L.le_trans _ _ _ (rw e (L.le_plus_right _ _ h))
            (charge_arguments-grows args _ (is_limit name || charged)),
      charge_arguments-LimitsCharged args _ (is_limit name || charged) (
          if_keeps (Positive N L) (is_limit name) _ _
            (plus_positive N L _ _ h (
              rows_cost_positive N L runtime config pagination scale variables _
                (resolve_limit_positive N L runtime config pagination scale variables node)))
            (if_keeps (Positive N L) (str_eq name "structuredFilters" || str_eq name "where") _ _
              (plus_positive N L _ _ h (L.decimal_positive 2 0))
              (if_keeps (Positive N L) (str_eq name "orderBy" || str_eq name "sort") _ _
                (plus_positive N L _ _ h (L.decimal_positive 1 0)) h))),
    )

    charge_arguments-has_limit :
        (args : List Argument) (sum : N.Number) (charged : Bool)
        → charged ≡ false
        → has_limit args ≡ false
        → (charge_arguments N runtime config pagination variables args sum charged).1 ≡ false
    unfolding charge_arguments
    charge_arguments-has_limit [] sum charged c h = c
    charge_arguments-has_limit ((name, node) ∷ args) sum charged c h =
        charge_arguments-has_limit args _ (is_limit name || charged) (ground (arith, c, h))
          (ground (arith, h))

    add_default_rows-grows :
        (default_limit : Option N.Number) (sum : N.Number) (charged : Bool)
        → PositiveIfGiven N L default_limit
        → L.Le sum (add_default_rows N config pagination default_limit (sum, charged))
    add_default_rows-grows none sum charged h = L.le_refl sum
    add_default_rows-grows (some limit) sum charged h =
        if_keeps (L.Le sum) charged _ _ (L.le_refl sum) (
          L.le_plus_left _ _
            (rows_cost_positive N L runtime config pagination scale variables limit h))

    add_default_rows-DefaultCharged :
        (args : List Argument) (default_limit : Option N.Number) (sum : N.Number) (charged : Bool)
        → (has_limit args ≡ false → charged ≡ false)
        → Positive N L sum
        → DefaultCharged N L runtime config pagination variables args default_limit
            (add_default_rows N config pagination default_limit (sum, charged))
    add_default_rows-DefaultCharged args none sum charged c h = tt
    add_default_rows-DefaultCharged args (some limit) sum charged c h =
        λ e. rw (c e) (L.le_plus_right _ _ h)

    abbrev pub arguments_cost : FieldNode → Option N.Number → N.Number
    arguments_cost f default_limit =
        calculate_arguments_complexity N runtime config pagination variables (arguments_of f)
          default_limit

    module _ (f : FieldNode) (default_limit : Option N.Number)
        (given : PositiveIfGiven N L default_limit) where
      pub arguments_cost-positive : Positive N L (arguments_cost f default_limit)
      unfolding calculate_arguments_complexity
      arguments_cost-positive =
          L.le_trans _ _ _ (charge_arguments-grows (arguments_of f) _ false)
            (add_default_rows-grows default_limit _ _ given)

      pub arguments_cost-LimitsCharged :
          LimitsCharged N L runtime config pagination variables
            (arguments_of f)
            (arguments_cost f default_limit)
      unfolding calculate_arguments_complexity
      arguments_cost-LimitsCharged =
          LimitsCharged-le (arguments_of f) _ _ (add_default_rows-grows default_limit _ _ given)
            (charge_arguments-LimitsCharged (arguments_of f) _ false (L.le_refl _))

      pub arguments_cost-DefaultCharged :
          DefaultCharged N L runtime config pagination variables
            (arguments_of f)
            default_limit
            (arguments_cost f default_limit)
      unfolding calculate_arguments_complexity
      arguments_cost-DefaultCharged =
          add_default_rows-DefaultCharged (arguments_of f) default_limit _ _
            (λ e. charge_arguments-has_limit (arguments_of f) _ false refl e)
            (charge_arguments-grows (arguments_of f) _ false)
