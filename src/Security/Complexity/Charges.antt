-- ===== src/Security/Complexity/Charges.antt =====
-- What the score of an operation has to pay for, and the scales under which it does.
use dashboard_template_api.Common.{◌≡◌, Bool, true, false, ◌||◌, Option, none, some, List, [], ◌∷◌}
use dashboard_template_api.Common.Map.{Map}
use dashboard_template_api.Security.Complexity.Values.{Numbers, Laws, JsValue, Runtime}
use dashboard_template_api.Security.Complexity.Costs.{
  Argument, is_limit, ComplexityAnalyzerConfig, PaginationConfig, resolve_limit, rows_cost,
  aggregates_cost,
}
use dashboard_template_api.Security.Complexity.Score.{FieldNode, field_name, arguments_of}
use dashboard_template_api.Security.Complexity.Fields.{ColumnList, field_cost}

-- Whether an argument asks for a number of rows.
abbrev pub has_limit : List Argument → Bool
has_limit [] = false
has_limit ((name, node) ∷ args) = is_limit name || has_limit args

module _ (N : Numbers) (L : Laws N) where
  abbrev pub Positive : N.Number → Type 0
  Positive a = L.Le (N.decimal 0 0) a

  abbrev pub PositiveIfGiven : Option N.Number → Type 0
  PositiveIfGiven none = Unit
  PositiveIfGiven (some a) = Positive a

  abbrev pub PositiveScores : Map N.Number → Type 0
  PositiveScores [] = Unit
  PositiveScores ((name, score) ∷ rest) = Positive score × PositiveScores rest

  -- A scale whose costs are not negative.
  pub record IsScale (config : ComplexityAnalyzerConfig N) (pagination : PaginationConfig N)
      : Type 0 where
    pub scalar : Positive config.scalar_cost
    pub nested : Positive config.object_cost
    pub factor : Positive config.depth_factor
    pub introspection : Positive config.introspection_cost
    pub row : Positive config.row_cost
    pub stats : Positive config.stats_cost_per_column
    pub aggregate : Positive config.aggregate_cost
    pub holistic : Positive config.holistic_aggregate_cost
    pub group : Positive config.group_column_cost
    pub default_root : Positive config.default_root_field_score
    pub roots : PositiveScores config.root_field_scores
    pub max_rows : PositiveIfGiven pagination.max_limit
    pub default_rows : PositiveIfGiven pagination.default_limit

  module _ (runtime : Runtime N) (config : ComplexityAnalyzerConfig N)
      (pagination : PaginationConfig N) (variables : Map (JsValue N.Number)) where
    -- What the rows of one argument cost is in the sum.
    abbrev pub LimitsCharged : List Argument → N.Number → Type 0
    LimitsCharged [] score = Unit
    LimitsCharged ((name, node) ∷ args) score =
        (is_limit name ≡ true
          → L.Le (rows_cost N config pagination (resolve_limit N runtime pagination node variables))
              score)
        × LimitsCharged args score

    abbrev pub DefaultCharged : List Argument → Option N.Number → N.Number → Type 0
    DefaultCharged args none score = Unit
    DefaultCharged args (some limit) score =
        has_limit args ≡ false → L.Le (rows_cost N config pagination limit) score

    -- What a root field asks of the database is in the score: its own score, the rows of each limit
    -- that it gives, or of the default one, and its aggregates.
    abbrev pub IsCharged : FieldNode → List ColumnList → Option N.Number → N.Number → Type 0
    IsCharged f lists default_limit score =
        L.Le (field_cost N config f 0 lists) score
        × LimitsCharged (arguments_of f) score
        × DefaultCharged (arguments_of f) default_limit score
        × L.Le (aggregates_cost N runtime config (field_name f) (arguments_of f) variables) score
