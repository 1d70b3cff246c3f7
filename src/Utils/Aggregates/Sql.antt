-- ===== src/Utils/Aggregates/Sql.antt =====
-- src/utils/aggregate-query.ts: the SQL of an aggregate query, of its page and of its count.
use Prim.Native.String.{◌++◌}
use mathlib.Core.List
use dashboard_template_api.Common.{
  ℕ, ◌-◌, ◌^◌, Bool, not, Option, none, some, List, [], ◌∷◌, map, filter, String, leb,
  if◌then◌else◌,
}
use dashboard_template_api.Common.Result.{Result, done, thrown, ◌>>=◌}
use dashboard_template_api.Export.AfterCursor.{Direction, asc, desc}
use dashboard_template_api.Utils.Identifiers.{quote_ident, join}
use dashboard_template_api.Utils.Decimal.{decimal}
use dashboard_template_api.Utils.FilterTree.Input.{Value}
use dashboard_template_api.Utils.FilterTree.Values.{is_empty_text}
use dashboard_template_api.Utils.FilterTree.Criterion.{CompiledFilter}
use dashboard_template_api.Utils.FilterTree.Tree.{build_where}
use dashboard_template_api.Utils.Aggregations.{aggregate_expression}
use dashboard_template_api.Utils.Pagination.{Number, natural, out_of_range}
use dashboard_template_api.Utils.Aggregates.Input.{
  TimeGrain, second, minute, hour, day, week, month, quarter, year, Truncation, as_date,
  as_timestamp, as_timestamptz, ResolvedGroup, ResolvedAggregate, ResolvedSort, AggregatePage,
  AggregateError, bad_bound,
}
use dashboard_template_api.Utils.Aggregates.Params.{or_else, label_column_of, row_count_column}
use dashboard_template_api.Utils.Aggregates.Request.{is_labelled}

pub record AggregateQuery : Type 0 where
  pub sql : String
  pub values : List Value

abbrev pub time_grain_part : TimeGrain → String
time_grain_part second = "second"
time_grain_part minute = "minute"
time_grain_part hour = "hour"
time_grain_part day = "day"
time_grain_part week = "week"
time_grain_part month = "month"
time_grain_part quarter = "quarter"
time_grain_part year = "year"

abbrev pub truncated : Option TimeGrain → Option Truncation → String → String
truncated none truncation column = column
truncated (some grain) none column = column
truncated (some grain) (some as_date) column =
    "CAST(date_trunc('" ++ (time_grain_part grain ++ ("', " ++ (column ++ ") AS DATE)")))
truncated (some grain) (some as_timestamptz) column =
    "timezone('UTC', date_trunc('"
    ++ (time_grain_part grain ++ ("', timezone('UTC', " ++ (column ++ ")))")))
truncated (some grain) (some as_timestamp) column =
    "date_trunc('" ++ (time_grain_part grain ++ ("', " ++ (column ++ ")")))

unfoldable pub group_expression : ResolvedGroup → String
unfolding quote_ident
group_expression g = truncated g.grain g.truncation (quote_ident g.field)

unfoldable pub sql_clauses : List String → String
unfolding join
sql_clauses clauses = join " " (filter (λ clause. not (is_empty_text clause)) clauses)

abbrev pub max_safe_integer : ℕ
max_safe_integer = 2 ^ 53 - 1

unfoldable pub pagination_bound : Number → Result AggregateError ℕ
pagination_bound out_of_range = thrown bad_bound
pagination_bound (natural n) = if leb n max_safe_integer then done n else thrown bad_bound

abbrev pub values_of : Option CompiledFilter → List Value
values_of none = []
values_of (some f) = f.params

abbrev pub grouping : List ResolvedGroup → String
grouping groups = "GROUP BY " ++ join ", " (map group_expression groups)

unfoldable pub build_group_count_query :
    List ResolvedGroup → Option CompiledFilter → String → AggregateQuery
unfolding join group_expression sql_clauses build_where
build_group_count_query groups filter table = record {
  sql =
      "SELECT COUNT(*) AS total FROM ("
      ++ (sql_clauses (("SELECT 1 FROM " ++ table) ∷ build_where filter ∷ grouping groups ∷ [])
          ++ ")");
  values = values_of filter;
}

abbrev pub group_item : ResolvedGroup → String
group_item g = group_expression g ++ (" AS " ++ quote_ident g.field)

abbrev pub label_item : ResolvedGroup → String
label_item g =
    "ANY_VALUE("
    ++ (quote_ident (or_else "" g.label_field)
        ++ (") AS " ++ quote_ident (label_column_of g.field)))

abbrev pub aggregate_item : ResolvedAggregate → String
aggregate_item a =
    aggregate_expression a.aggregation (quote_ident a.measure) ++ (" AS " ++ quote_ident a.alias)

abbrev pub count_items : Bool → List String
count_items counted = if counted then ("COUNT(*) AS " ++ quote_ident row_count_column) ∷ [] else []

abbrev pub selection : List ResolvedGroup → List ResolvedAggregate → Bool → List String
selection groups aggregates counted = List.◌++◌ (map group_item groups) (
    List.◌++◌ (map label_item (filter is_labelled groups))
      (List.◌++◌ (map aggregate_item aggregates) (count_items counted)))

abbrev pub group_by_clause : List ResolvedGroup → String
group_by_clause [] = ""
group_by_clause (g ∷ groups) = grouping (g ∷ groups)

unfoldable pub build_aggregate_select :
    List ResolvedGroup
    → List ResolvedAggregate
    → Bool
    → Option CompiledFilter
    → String
    → AggregateQuery
unfolding quote_ident join group_expression aggregate_expression label_column_of sql_clauses
    build_where
build_aggregate_select groups aggregates counted filter table = record {
  sql = sql_clauses (
      ("SELECT " ++ (join ", " (selection groups aggregates counted) ++ (" FROM " ++ table)))
      ∷ build_where filter
      ∷ group_by_clause groups
      ∷ []);
  values = values_of filter;
}

abbrev pub direction_sql : Direction → String
direction_sql asc = "ASC"
direction_sql desc = "DESC"

abbrev pub sort_item : ResolvedSort → String
sort_item s = quote_ident s.by ++ (" " ++ direction_sql s.order)

unfoldable pub build_output_order_by : List ResolvedSort → String
unfolding quote_ident join
build_output_order_by [] = ""
build_output_order_by (s ∷ sort) = "ORDER BY " ++ join ", " (map sort_item (s ∷ sort))

unfoldable pub build_aggregate_query : AggregatePage → String → Result AggregateError AggregateQuery
unfolding pagination_bound build_aggregate_select sql_clauses build_output_order_by ◌>>=◌
build_aggregate_query page table = do
  limit ← pagination_bound page.limit
  offset ← pagination_bound page.offset
  let p = page.params
  let inner = build_aggregate_select p.groups p.aggregates p.include_row_count page.filter table
  done (record {
    sql = sql_clauses (
        ("SELECT * FROM (" ++ (inner.sql ++ ")"))
        ∷ build_output_order_by p.sort
        ∷ ("LIMIT " ++ (decimal limit ++ (" OFFSET " ++ decimal offset)))
        ∷ []);
    values = inner.values;
  })
