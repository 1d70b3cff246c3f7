-- ===== src/Export/Params/Lists.antt =====
-- src/export/export-params.ts: the items of `sort`, `groupBy` and `aggregates`.
use dashboard_template_api.Common.{
  not, Option, none, some, List, [], ◌∷◌, String, str_eq, if◌then◌else◌,
}
use dashboard_template_api.Common.Result.{Result, done, thrown, ◌>>=◌, ◌>>◌, check, traverse}
use dashboard_template_api.Export.AfterCursor.{KeyColumn}
use dashboard_template_api.Export.AfterCursor.Token.{direction_of}
use dashboard_template_api.Utils.FilterTree.Typing.{set_has}
use dashboard_template_api.Utils.Aggregations.{Aggregation, aggregation_named}
use dashboard_template_api.Utils.Aggregates.Input.{
  TimeGrain, second, minute, hour, day, week, month, quarter, year, GroupByInput, AggregateInput,
}
use dashboard_template_api.Export.Params.{
  ExportPlatform, ExportParamError, empty_name, bad_sort_item, sort_twice, bad_direction,
  bad_group_item, unknown_grain, bad_aggregate_item, unknown_aggregation, non_empty, split,
  trimmed_parts,
}

unfoldable pub column_name : String → Result ExportParamError String
unfolding check ◌>>◌
column_name name = do check (not (str_eq name "")) empty_name; done name

-- The name of a grain in upper case, as `TIME_GRAIN_PART` has it.
abbrev pub grain_name : TimeGrain → String
grain_name second = "SECOND"
grain_name minute = "MINUTE"
grain_name hour = "HOUR"
grain_name day = "DAY"
grain_name week = "WEEK"
grain_name month = "MONTH"
grain_name quarter = "QUARTER"
grain_name year = "YEAR"

abbrev pub grain_in : List TimeGrain → String → Option TimeGrain
grain_in [] name = none
grain_in (grain ∷ grains) name =
    if str_eq (grain_name grain) name then some grain else grain_in grains name

unfoldable pub grain_named : String → Option TimeGrain
grain_named name = grain_in (second ∷ minute ∷ hour ∷ day ∷ week ∷ month ∷ quarter ∷ year ∷ []) name

-- a value that was found, or the error
abbrev pub found_or {ℓ} : {A : Type ℓ} → ExportParamError → Option A → Result ExportParamError A
found_or e none = thrown e
found_or e (some a) = done a

module _ (platform : ExportPlatform) where
  abbrev pub upper : String → String
  upper s = platform.js.to_upper_case s

  -- a sort item of which the parts are known, after the columns seen
  unfoldable pub sort_key : List String → String → String → Result ExportParamError KeyColumn
  unfolding column_name ◌>>=◌ ◌>>◌ check
  sort_key seen column direction = do
    check (not (str_eq column "")) bad_sort_item
    field ← column_name column
    check (not (set_has seen field)) (sort_twice field)
    order ←
        found_or bad_direction
          (direction_of (upper (if str_eq direction "" then "asc" else direction)))
    done (record { field = field; order = order })

  abbrev pub sort_key_of : List String → List String → Result ExportParamError KeyColumn
  sort_key_of seen (column ∷ []) = sort_key seen column ""
  sort_key_of seen (column ∷ direction ∷ []) = sort_key seen column direction
  sort_key_of seen parts = thrown bad_sort_item

  -- `parseSort`, after the columns seen
  unfoldable pub parse_sort : List String → List String → Result ExportParamError (List KeyColumn)
  unfolding sort_key split ◌>>=◌
  parse_sort seen [] = done []
  parse_sort seen (item ∷ items) = sort_key_of seen (trimmed_parts platform b':' item) >>= λ k.
      parse_sort (k.field ∷ seen) items >>= λ rest. done (k ∷ rest)

  unfoldable pub group_param : String → String → Result ExportParamError GroupByInput
  unfolding column_name grain_named ◌>>=◌ ◌>>◌ check
  group_param column grain_raw = do
    check (not (str_eq column "")) bad_group_item
    field ← column_name column
    grain ← grain_of (non_empty grain_raw)
    done (record { field = field; grain = grain })
    where
      grain_of : Option String → Result ExportParamError (Option TimeGrain)
      grain_of none = done none
      grain_of (some raw) =
          found_or unknown_grain (grain_named (upper raw)) >>= λ grain. done (some grain)

  abbrev pub group_param_of : List String → Result ExportParamError GroupByInput
  group_param_of (column ∷ []) = group_param column ""
  group_param_of (column ∷ grain ∷ []) = group_param column grain
  group_param_of parts = thrown bad_group_item

  unfoldable pub parse_group_by : List String → Result ExportParamError (List GroupByInput)
  unfolding group_param split traverse
  parse_group_by items = traverse (λ item. group_param_of (trimmed_parts platform b':' item)) items

  unfoldable pub aggregate_param : String → String → String → Result ExportParamError AggregateInput
  unfolding column_name aggregation_named ◌>>=◌ ◌>>◌ check
  aggregate_param measure_raw aggregation_raw alias = do
    check (not (str_eq measure_raw "")) bad_aggregate_item
    measure ← column_name measure_raw
    aggregation ← aggregation_of (non_empty aggregation_raw)
    done (record { measure = measure; aggregation = aggregation; alias = non_empty alias })
    where
      aggregation_of : Option String → Result ExportParamError (Option Aggregation)
      aggregation_of none = done none
      aggregation_of (some raw) =
          found_or unknown_aggregation (aggregation_named (upper raw)) >>= λ a. done (some a)

  abbrev pub aggregate_param_of : List String → Result ExportParamError AggregateInput
  aggregate_param_of (measure ∷ []) = aggregate_param measure "" ""
  aggregate_param_of (measure ∷ aggregation ∷ []) = aggregate_param measure aggregation ""
  aggregate_param_of (measure ∷ aggregation ∷ alias ∷ []) =
      aggregate_param measure aggregation alias
  aggregate_param_of parts = thrown bad_aggregate_item

  unfoldable pub parse_aggregates : List String → Result ExportParamError (List AggregateInput)
  unfolding aggregate_param split traverse
  parse_aggregates items =
      traverse (λ item. aggregate_param_of (trimmed_parts platform b':' item)) items
