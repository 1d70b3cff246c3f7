-- ===== src/Export/Params/Request.antt =====
-- src/export/export-params.ts, `parseExportParams`: the validation of a whole request.
use dashboard_template_api.Common.{
  ℕ, Bool, true, false, not, ◌||◌, min, Option, none, some, List, [], ◌∷◌, String, str_eq,
  if◌then◌else◌,
}
use dashboard_template_api.Common.Map.{Map}
use dashboard_template_api.Common.Result.{Result, done, thrown, ◌>>=◌, ◌>>◌, check, traverse}
use dashboard_template_api.Export.AfterCursor.{KeyColumn}
use dashboard_template_api.Utils.FilterTree.Input.{Value, Entries}
use dashboard_template_api.Utils.FilterTree.Typing.{set_has}
use dashboard_template_api.Utils.Aggregates.Input.{GroupByInput, AggregateInput}
use dashboard_template_api.Utils.Aggregates.Params.{first_repeat, is_none}
use dashboard_template_api.Export.Params.{
  ExportPlatform, ExportFormat, arrow, csv, parquet, ParquetCompression, snappy, zstd, gzip,
  ExportParamSource, ExportParamError, unknown_parameters, unknown_format, field_twice,
  bom_without_csv, compression_without_parquet, unknown_compression, group_by_without_aggregates,
  fields_with_aggregates, read_string, read_list, read_filters, read_limit, read_bom, lower,
}
use dashboard_template_api.Export.Params.Settings.{ExportSettings}
use dashboard_template_api.Export.Params.Lists.{
  column_name, parse_sort, parse_group_by, parse_aggregates, found_or,
}

pub record ExportParams : Type 0 where
  pub catalog : Option String
  pub schema : Option String
  pub fields : Option (List String)
  pub filters : Option Entries
  pub sort : Option (List KeyColumn)
  pub group_by : Option (List GroupByInput)
  pub aggregates : Option (List AggregateInput)
  pub format : ExportFormat
  pub limit : ℕ
  pub explicit_limit : Bool
  pub after : Option String
  pub bom : Bool
  pub compression : ParquetCompression

abbrev pub known_parameters : List String
known_parameters =
    "catalog" ∷ "schema" ∷ "fields" ∷ "filters" ∷ "sort" ∷ "groupBy" ∷ "aggregates" ∷ "format"
    ∷ "limit" ∷ "after" ∷ "bom" ∷ "compression" ∷ []

abbrev pub unknown_names : Map Value → List String
unknown_names [] = []
unknown_names ((name, v) ∷ input) =
    let rest = unknown_names input in if set_has known_parameters name then rest else name ∷ rest

abbrev pub no_unknown : List String → Result ExportParamError (Unit {0})
no_unknown [] = done tt
no_unknown (name ∷ names) = thrown (unknown_parameters (name ∷ names))

abbrev pub format_named : String → Option ExportFormat
format_named name =
    if str_eq name "arrow"
    then some arrow
    else if str_eq name "csv"
    then some csv
    else if str_eq name "parquet"
    then some parquet
    else none

abbrev pub is_csv : ExportFormat → Bool
is_csv csv = true
is_csv arrow = false
is_csv parquet = false

abbrev pub is_parquet : ExportFormat → Bool
is_parquet parquet = true
is_parquet arrow = false
is_parquet csv = false

abbrev pub codec_named : String → Option ParquetCompression
codec_named name =
    if str_eq name "snappy"
    then some snappy
    else if str_eq name "zstd"
    then some zstd
    else if str_eq name "gzip"
    then some gzip
    else none

abbrev pub raw_or : Option String → String → String
raw_or none fallback = fallback
raw_or (some raw) fallback = raw

abbrev pub no_repeat : Option String → Result ExportParamError (Unit {0})
no_repeat none = done tt
no_repeat (some name) = thrown (field_twice name)

-- names that are not empty and all distinct
unfoldable pub check_fields : Option (List String) → Result ExportParamError (Option (List String))
unfolding column_name first_repeat traverse ◌>>=◌ ◌>>◌
check_fields none = done none
check_fields (some raw) = do
  fields ← traverse column_name raw
  no_repeat (first_repeat [] fields)
  done (some fields)

unfoldable pub codec_of : ExportFormat → Option String → Result ExportParamError ParquetCompression
unfolding ◌>>◌ check
codec_of format none = done snappy
codec_of format (some name) = do
  check (is_parquet format) compression_without_parquet
  found_or unknown_compression (codec_named name)

unfoldable pub limit_under : ℕ → Option ℕ → ℕ
limit_under max_rows none = min max_rows max_rows
limit_under max_rows (some requested) = min requested max_rows

-- a parser on a list that may be absent
abbrev pub parse_given {ℓ} :
    {A : Type ℓ}
    → (List String → Result ExportParamError A)
    → Option (List String)
    → Result ExportParamError (Option A)
parse_given parse none = done none
parse_given parse (some items) = parse items >>= λ a. done (some a)

abbrev pub items_or_none : Option (List String) → List String
items_or_none none = []
items_or_none (some items) = items

-- `groupBy` is read where there are aggregates.
unfoldable pub parse_groups :
    ExportPlatform
    → Option (List String)
    → Option (List String)
    → Result ExportParamError (Option (List GroupByInput))
unfolding parse_group_by ◌>>=◌
parse_groups platform groups none = done none
parse_groups platform groups (some aggregates) =
    parse_group_by platform (items_or_none groups) >>= λ g. done (some g)

module _ (platform : ExportPlatform) (settings : ExportSettings) (source : ExportParamSource) where
  -- The last statement, which reads the filters, the lists and the cursor.
  unfoldable pub assemble :
      Map Value
      → Option String
      → Option String
      → Option (List String)
      → ExportFormat
      → Option ℕ
      → Bool
      → ParquetCompression
      → Option (List String)
      → Option (List String)
      → Option (List String)
      → Result ExportParamError ExportParams
  unfolding read_filters read_string parse_sort parse_groups parse_aggregates limit_under ◌>>=◌
  assemble input catalog schema fields format requested bom compression sort_raw groups_raw
        aggregates_raw =
      do
        filters ← read_filters platform source input
        sort ← parse_given (parse_sort platform []) sort_raw
        group_by ← parse_groups platform groups_raw aggregates_raw
        aggregates ← parse_given (parse_aggregates platform) aggregates_raw
        after ← read_string platform input "after"
        done (record {
          catalog = catalog;
          schema = schema;
          fields = fields;
          filters = filters;
          sort = sort;
          group_by = group_by;
          aggregates = aggregates;
          format = format;
          limit = limit_under settings.max_rows requested;
          explicit_limit = not (is_none requested);
          after = after;
          bom = bom;
          compression = compression;
        })

  unfoldable pub parse_export_params : Map Value → Result ExportParamError ExportParams
  unfolding assemble read_string read_list read_limit read_bom check_fields codec_of ◌>>=◌ ◌>>◌
      check
  parse_export_params input = do
    no_unknown (unknown_names input)
    catalog ← read_string platform input "catalog"
    schema ← read_string platform input "schema"
    format_raw ← read_string platform input "format"
    format ←
        found_or unknown_format (format_named (platform.to_lower_case (raw_or format_raw "arrow")))
    fields_raw ← read_list platform source input "fields"
    fields ← check_fields fields_raw
    requested ← read_limit platform source input
    bom ← read_bom platform input
    check (not bom || is_csv format) bom_without_csv
    compression_raw ← read_string platform input "compression"
    compression ← codec_of format (lower platform compression_raw)
    sort_raw ← read_list platform source input "sort"
    groups_raw ← read_list platform source input "groupBy"
    aggregates_raw ← read_list platform source input "aggregates"
    check (is_none groups_raw || not (is_none aggregates_raw)) group_by_without_aggregates
    check (is_none aggregates_raw || is_none fields) fields_with_aggregates
    assemble input catalog schema fields format requested bom compression sort_raw groups_raw
        aggregates_raw
