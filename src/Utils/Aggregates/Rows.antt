-- ===== src/Utils/Aggregates/Rows.antt =====
-- src/utils/aggregate-query.ts: the rows of the LONG format. A row is an object with string keys;
-- `missing` is null.
use mathlib.Core.List.{◌++◌}
use dashboard_template_api.Common.{not, List, [], ◌∷◌, map, filter, String}
use dashboard_template_api.Common.Map.{Map, lookup, insert}
use dashboard_template_api.Utils.FilterTree.Typing.{set_has}
use dashboard_template_api.Utils.Aggregates.Params.{or_else, long_measure_column, long_value_column}

-- the columns that are no alias
abbrev pub identifiers : List String → List String → List String
identifiers columns aliased = filter (λ column. not (set_has aliased column)) columns

unfoldable pub long_columns : List String → List String → List String
long_columns columns aliased =
    identifiers columns aliased ++ long_measure_column ∷ long_value_column ∷ []

-- A cell of a melted row: what the row holds, or the alias.
module _ {J : Type 0} (missing : J) (text : String → J) where
  -- the loop that fills `base`
  unfoldable pub copy_columns : List String → Map J → Map J → Map J
  unfolding insert lookup
  copy_columns [] row base = base
  copy_columns (column ∷ columns) row base =
      copy_columns columns row (insert column (or_else missing (lookup column row)) base)

  unfoldable pub melt_row : List String → List String → Map J → List (Map J)
  unfolding copy_columns insert lookup
  melt_row columns aliased row =
      map
        (λ alias. insert long_value_column (or_else missing (lookup alias row)) (
          insert long_measure_column (text alias)
            (copy_columns (identifiers columns aliased) row [])))
        aliased

  unfoldable pub melt_rows : List (Map J) → List String → List String → List (Map J)
  unfolding melt_row
  melt_rows [] columns aliased = []
  melt_rows (row ∷ rows) columns aliased =
      melt_row columns aliased row ++ melt_rows rows columns aliased
