-- ===== src/Utils/Aggregates/Tests.antt =====
-- Sales by region and month, on a table with a label column.
use Prim.Native.Char.{code}
use dashboard_template_api.Common.{
  ◌≡◌, refl, ◌≢◌, true, false, none, some, List, [], ◌∷◌, String, ◌==◌, length,
}
use dashboard_template_api.Common.Map.{Map, lookup, insert}
use dashboard_template_api.Common.Result.{
  done, thrown, ◌>>=◌, ◌>>◌, check, traverse, fold, map_error, Pointwise,
}
use dashboard_template_api.Export.AfterCursor.{asc, desc}
use dashboard_template_api.Utils.SqlText.{Holds, ends_inside, placeholders}
use dashboard_template_api.Utils.Identifiers.{quote_ident, split_path, join, qualified_table}
use dashboard_template_api.Utils.Decimal.{digits, decimal}
use dashboard_template_api.Utils.Columns.{unknown_columns, assert_columns}
use dashboard_template_api.Utils.FilterTree.Input.{Value, string, known}
use dashboard_template_api.Utils.FilterTree.Names.{no_repeats}
use dashboard_template_api.Utils.FilterTree.Typing.{
  Platform, normalize_sql_type, sql_type_family, is_decimal_type,
}
use dashboard_template_api.Utils.FilterTree.Tree.{build_where, add_name}
use dashboard_template_api.Utils.Aggregations.{
  sum, avg, aggregation_sql, aggregate_expression, includes_aggregation, aggregation_named,
  measure_family, allowed_aggregations,
}
use dashboard_template_api.Utils.Metadata.{FieldMetadata, type_family_of, resolve_label_field}
use dashboard_template_api.Utils.Pagination.{natural}
use dashboard_template_api.Utils.Aggregates.Input.{
  month, as_timestamp, ResolvedAggregateParams, AggregateRequest, undefined_metadata, long,
}
use dashboard_template_api.Utils.Aggregates.Params.{
  aggregate_bounds, alias_pattern, default_alias, label_column_of, first_repeat, get_metadata,
  resolve_truncation, effective_aggregation, check_columns, group_of, resolve_group,
  resolve_aggregate,
}
use dashboard_template_api.Utils.Aggregates.Request.{
  aliases, group_by, requested, output_columns, add_sort, add_group_sorts, resolve_outputs,
  check_request, resolve_aggregate_params,
}
use dashboard_template_api.Utils.Aggregates.Sql.{
  AggregateQuery, group_expression, sql_clauses, pagination_bound, build_aggregate_select,
  build_output_order_by, build_aggregate_query,
}
use dashboard_template_api.Utils.Aggregates.Rows.{long_columns}
use dashboard_template_api.Utils.Aggregates.Outputs.{outputs_of}
use dashboard_template_api.Utils.Aggregates.Resolved.{
  IsResolved, resolve_aggregate_params-IsResolved,
}
use dashboard_template_api.Utils.Aggregates.Checked.{
  IsGroupOf, IsAggregateOf, resolve_aggregate_params-fits,
}
use dashboard_template_api.Utils.Aggregates.Defined.{resolve_aggregate_params_defined}
use dashboard_template_api.Utils.Aggregates.Placeholders.{build_aggregate_query-Holds}
use dashboard_template_api.Utils.Aggregates.LongRows.{resolve_aggregate_params-long_columns}

runs : Unit {0}
unfolding ◌>>=◌ ◌>>◌ check traverse fold map_error lookup insert quote_ident split_path join
    qualified_table digits decimal unknown_columns assert_columns normalize_sql_type sql_type_family
    is_decimal_type build_where add_name aggregation_sql aggregate_expression includes_aggregation
    aggregation_named measure_family allowed_aggregations type_family_of resolve_label_field
    aggregate_bounds alias_pattern default_alias label_column_of first_repeat get_metadata
    resolve_truncation effective_aggregation check_columns group_of resolve_group resolve_aggregate
    output_columns add_sort add_group_sorts resolve_outputs check_request resolve_aggregate_params
    group_expression sql_clauses pagination_bound build_aggregate_select build_output_order_by
    build_aggregate_query
runs = tt

-- A platform that takes texts as they are and matches nothing.
abbrev js : Platform
js = record {
  trim = λ s. s;
  to_upper_case = λ s. s;
  is_space = λ c. code c == b' ';
  utf16_length = λ s. 0;
  exec = λ pattern s. none;
  to_number = λ s. 0;
  utc_date = λ y m d. (y, m, d);
  utc_abs_ms = λ y m d hh mm ss. 0;
}

abbrev show : Value → String
show (string s) = s
show v = ""

abbrev field : String → String → List String → FieldMetadata
field name sql_type labels = record {
  name = name;
  label = name;
  sql_type = sql_type;
  is_primary_key = false;
  is_categorical = false;
  parent_name = none;
  label_for = none;
  label_fields = labels;
  unit = none;
  display_format = none;
  family = none;
  description = none;
  default_aggregation = none;
}

abbrev metadata : Map FieldMetadata
metadata =
    ("region", field "region" "VARCHAR" ("region_name" ∷ []))
    ∷ ("sold_at", field "sold_at" "TIMESTAMP" [])
    ∷ ("price", field "price" "DOUBLE" [])
    ∷ []

abbrev request : AggregateRequest
request = record {
  group_by = some (
      (record { field = "region"; grain = none })
      ∷ (record { field = "sold_at"; grain = some month })
      ∷ []);
  aggregates = some (
      (record { measure = "price"; aggregation = none; alias = none })
      ∷ (record { measure = "price"; aggregation = some avg; alias = some "mean" })
      ∷ []);
  sort = some ((record { by = "mean"; order = known desc }) ∷ []);
  include_row_count = none;
  format = some long;
}

abbrev resolved : ResolvedAggregateParams
resolved = record {
  groups =
      (record {
        field = "region";
        grain = none;
        truncation = none;
        label_field = some "region_name";
      })
      ∷ (record {
        field = "sold_at";
        grain = some month;
        truncation = some as_timestamp;
        label_field = none;
      })
      ∷ [];
  aggregates =
      (record { measure = "price"; aggregation = sum; alias = "price_sum" })
      ∷ (record { measure = "price"; aggregation = avg; alias = "mean" })
      ∷ [];
  sort =
      (record { by = "mean"; order = desc })
      ∷ (record { by = "region"; order = asc })
      ∷ (record { by = "sold_at"; order = asc })
      ∷ [];
  include_row_count = true;
}

resolves : resolve_aggregate_params js show none request metadata ≡ done resolved
unfolding runs
resolves = refl

resolve_aggregate_params-IsResolved_example : IsResolved request resolved
resolve_aggregate_params-IsResolved_example =
    resolve_aggregate_params-IsResolved js show none request metadata resolved resolves

resolve_aggregate_params-fits_example :
    Pointwise (IsGroupOf js metadata) (group_by request) resolved.groups
    × Pointwise (IsAggregateOf js metadata) (requested request) resolved.aggregates
resolve_aggregate_params-fits_example =
    resolve_aggregate_params-fits js show metadata none request resolved resolves

resolve_aggregate_params_defined_example :
    resolve_aggregate_params js show none request [] ≢ thrown undefined_metadata
resolve_aggregate_params_defined_example = resolve_aggregate_params_defined js show [] none request

resolve_aggregate_params-long_columns_example :
    no_repeats (long_columns (outputs_of resolved) (aliases resolved.aggregates)) ≡ true
resolve_aggregate_params-long_columns_example =
    resolve_aggregate_params-long_columns js show none request metadata resolved refl resolves

abbrev page : AggregateQuery
page = record {
  sql =
      "SELECT * FROM (SELECT \"region\" AS \"region\", date_trunc('month', \"sold_at\") AS \"sold_at\", ANY_VALUE(\"region_name\") AS \"region__label\", SUM(\"price\") AS \"price_sum\", AVG(\"price\") AS \"mean\", COUNT(*) AS \"row_count\" FROM \"c\".\"s\".\"t\" WHERE \"price\" > ? GROUP BY \"region\", date_trunc('month', \"sold_at\")) ORDER BY \"mean\" DESC, \"region\" ASC, \"sold_at\" ASC LIMIT 50 OFFSET 100";
  values = string "10" ∷ [];
}

builds :
    build_aggregate_query
      (record {
        params = resolved;
        filter = some (record { sql = "\"price\" > ?"; params = string "10" ∷ [] });
        limit = natural 50;
        offset = natural 100;
      })
      (qualified_table "c" "s" "t")
    ≡ done page
unfolding runs
builds = refl

bound : Holds "\"price\" > ?" 1
unfolding ends_inside placeholders
bound = record { closed = refl; count = refl }

build_aggregate_query-Holds_example :
    Holds page.sql (length page.values) × (page.values ≡ string "10" ∷ [])
build_aggregate_query-Holds_example =
    build_aggregate_query-Holds (some (record { sql = "\"price\" > ?"; params = string "10" ∷ [] }))
      bound "c" "s" "t" resolved (natural 50) (natural 100) page builds
