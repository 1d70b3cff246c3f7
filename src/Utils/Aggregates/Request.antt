-- ===== src/Utils/Aggregates/Request.antt =====
-- src/utils/aggregate-query.ts, `resolveAggregateParams`: the columns of the result, its sort, and the
-- whole validation of a request.
use mathlib.Core.List.{◌++◌}
use dashboard_template_api.Common.{
  Bool, true, false, not, ◌&&◌, ◌||◌, Option, some, List, [], ◌∷◌, map, filter, length, String, ltb,
  leb, str_eq, if◌then◌else◌, all,
}
use dashboard_template_api.Common.Map.{Map}
use dashboard_template_api.Common.Result.{Result, done, ◌>>=◌, ◌>>◌, check, traverse, fold}
use dashboard_template_api.Export.AfterCursor.{Direction, asc}
use dashboard_template_api.Utils.FilterTree.Input.{Value, Field, known, unknown}
use dashboard_template_api.Utils.FilterTree.Typing.{Platform, set_has}
use dashboard_template_api.Utils.FilterTree.Values.{is_empty_text}
use dashboard_template_api.Utils.Metadata.{FieldMetadata}
use dashboard_template_api.Utils.Aggregates.Input.{
  ResolvedGroup, ResolvedAggregate, ResolvedSort, ResolvedAggregateParams, GroupByInput,
  AggregateInput, AggregateSortInput, AggregateFormat, long, AggregateRequest, AggregatesConfig,
  AggregateError, no_aggregate, too_many_aggregates, too_many_groups, duplicate_group,
  duplicate_output, reserved_output, unknown_sort, bad_order,
}
use dashboard_template_api.Utils.Aggregates.Params.{
  row_count_column, long_measure_column, long_value_column, or_else, aggregate_bounds,
  label_column_of, first_repeat, is_none, check_columns, resolve_group, resolve_aggregate,
}

abbrev pub group_fields : List ResolvedGroup → List String
group_fields groups = map (λ (g : ResolvedGroup). g.field) groups

-- a label column that is there, and not an empty text
abbrev pub is_labelled : ResolvedGroup → Bool
is_labelled g = not (is_empty_text (or_else "" g.label_field))

abbrev pub label_columns : List ResolvedGroup → List String
label_columns groups =
    map (λ (g : ResolvedGroup). label_column_of g.field) (filter is_labelled groups)

abbrev pub aliases : List ResolvedAggregate → List String
aliases aggregates = map (λ (a : ResolvedAggregate). a.alias) aggregates

abbrev pub row_count_names : Bool → List String
row_count_names counted = if counted then row_count_column ∷ [] else []

-- `outputColumns`
unfoldable pub output_columns : List ResolvedGroup → List ResolvedAggregate → Bool → List String
unfolding label_column_of
output_columns groups aggregates counted =
    group_fields groups ++ (label_columns groups ++ (aliases aggregates ++ row_count_names counted))

-- the LONG format: a column that is no alias has none of its names
abbrev pub is_reserved : List String → String → Bool
is_reserved aliased name =
    not (set_has aliased name) && (str_eq name long_measure_column || str_eq name long_value_column)

abbrev pub format_fits : Option AggregateFormat → List String → List String → Bool
format_fits (some long) outputs aliased = all (λ name. not (is_reserved aliased name)) outputs
format_fits format outputs aliased = true

-- `sort.some((item) => item.by === name)`
abbrev pub sort_names : List ResolvedSort → List String
sort_names sort = map (λ (s : ResolvedSort). s.by) sort

abbrev pub push_sort : String → Direction → List ResolvedSort → List ResolvedSort
push_sort name order sort =
    if set_has (sort_names sort) name
    then sort
    else sort ++ (record { by = name; order = order }) ∷ []

abbrev pub is_order : Field Direction → Bool
is_order unknown = false
is_order order = true

abbrev pub order_or_asc : Field Direction → Direction
order_or_asc (known order) = order
order_or_asc order = asc

-- one turn of the loop over the sort of the request
unfoldable pub add_sort :
    List String → AggregateSortInput → List ResolvedSort → Result AggregateError (List ResolvedSort)
unfolding ◌>>◌ check
add_sort outputs item sort = do
  check (set_has outputs item.by) unknown_sort
  check (is_order item.order) bad_order
  done (push_sort item.by (order_or_asc item.order) sort)

-- the tie-break on every group column
unfoldable pub add_group_sorts : List ResolvedGroup → List ResolvedSort → List ResolvedSort
add_group_sorts [] sort = sort
add_group_sorts (g ∷ groups) sort = add_group_sorts groups (push_sort g.field asc sort)

-- the output columns and the sort, once the groups and the aggregates are resolved
unfoldable pub resolve_outputs :
    AggregateRequest
    → List ResolvedGroup
    → List ResolvedAggregate
    → Result AggregateError ResolvedAggregateParams
unfolding output_columns first_repeat fold add_sort add_group_sorts ◌>>=◌ ◌>>◌ check
resolve_outputs request groups aggregates = do
  let counted = or_else true request.include_row_count
  let outputs = output_columns groups aggregates counted
  check (is_none (first_repeat [] outputs)) duplicate_output
  check (format_fits request.format outputs (aliases aggregates)) reserved_output
  sort ← fold (add_sort outputs) (or_else [] request.sort) []
  done (record {
    groups = groups;
    aggregates = aggregates;
    sort = add_group_sorts groups sort;
    include_row_count = counted;
  })

abbrev pub group_by : AggregateRequest → List GroupByInput
group_by request = or_else [] request.group_by

abbrev pub requested : AggregateRequest → List AggregateInput
requested request = or_else [] request.aggregates

abbrev pub requested_fields : AggregateRequest → List String
requested_fields request = map (λ (g : GroupByInput). g.field) (group_by request)

abbrev pub requested_measures : AggregateRequest → List String
requested_measures request = map (λ (a : AggregateInput). a.measure) (requested request)

module _ (js : Platform) (show : Value → String) (config : Option AggregatesConfig)
    (request : AggregateRequest) (metadata : Map FieldMetadata) where
  -- the checks on the request alone
  unfoldable pub check_request : Result AggregateError (Unit {0})
  unfolding aggregate_bounds check_columns first_repeat ◌>>◌ check
  check_request = do
    let bounds = aggregate_bounds config
    check (ltb 0 (length (requested request))) no_aggregate
    check (leb (length (requested request)) bounds.0) too_many_aggregates
    check (leb (length (group_by request)) bounds.1) too_many_groups
    check_columns js show metadata (requested_fields request)
    check_columns js show metadata (requested_measures request)
    check (is_none (first_repeat [] (requested_fields request))) duplicate_group

  unfoldable pub resolve_aggregate_params : Result AggregateError ResolvedAggregateParams
  unfolding check_request traverse resolve_group resolve_aggregate resolve_outputs ◌>>=◌ ◌>>◌
  resolve_aggregate_params = do
    check_request
    groups ← traverse (resolve_group js show metadata) (group_by request)
    aggregates ← traverse (resolve_aggregate js show metadata) (requested request)
    resolve_outputs request groups aggregates
