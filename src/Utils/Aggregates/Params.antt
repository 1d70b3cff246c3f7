-- ===== src/Utils/Aggregates/Params.antt =====
-- src/utils/aggregate-query.ts, `resolveAggregateParams`: the validation of a request and its
-- implicit values. `show` is JavaScript's `String`.
use Prim.Native.Char.{Char, code}
use Prim.Native.String
use dashboard_template_api.Common.{
  ℕ, Bool, true, false, not, ◌&&◌, ◌||◌, Option, none, some, List, [], ◌∷◌, map, String, leb, ◌==◌,
  if◌then◌else◌,
}
use dashboard_template_api.Common.Map.{Map, lookup}
use dashboard_template_api.Common.Result.{Result, done, thrown, ◌>>=◌, ◌>>◌, check, map_error}
use dashboard_template_api.Utils.FilterTree.Input.{Value, string, SqlTypeFamily, fam_numeric}
use dashboard_template_api.Utils.FilterTree.Typing.{
  Platform, set_has, normalize_sql_type, timezone_types, is_digit,
}
use dashboard_template_api.Utils.Columns.{assert_columns}
use dashboard_template_api.Utils.Aggregations.{
  Aggregation, sum, avg, max, min, count, median, mode, aggregation_named, measure_family,
  allowed_aggregations, includes_aggregation, aggregated_value_family,
}
use dashboard_template_api.Utils.Metadata.{
  FieldMetadata, TypeFamily, date, timestamp, type_family_of, resolve_label_field,
}
use dashboard_template_api.Utils.Aggregates.Input.{
  TimeGrain, day, week, month, quarter, year, Truncation, as_date, as_timestamp, as_timestamptz,
  ResolvedGroup, ResolvedAggregate, GroupByInput, AggregateInput, AggregatesConfig, AggregateError,
  no_default_aggregation, grain_not_temporal, grain_not_allowed, aggregation_not_allowed, bad_alias,
  not_numeric, undefined_metadata, unknown_columns, label_error,
}

abbrev pub row_count_column : String
row_count_column = "row_count"

abbrev pub long_measure_column : String
long_measure_column = "measure"

abbrev pub long_value_column : String
long_value_column = "value"

abbrev pub or_else {ℓ} : {A : Type ℓ} → A → Option A → A
or_else fallback none = fallback
or_else fallback (some a) = a

-- the bounds on the aggregates and on the group columns
abbrev max_of : Option AggregatesConfig → Option ℕ × Option ℕ
max_of none = (none, none)
max_of (some c) = (c.max_aggregates, c.max_group_by)

unfoldable pub aggregate_bounds : Option AggregatesConfig → ℕ × ℕ
aggregate_bounds config = (or_else 20 (max_of config).0, or_else 4 (max_of config).1)

-- `ALIAS_PATTERN`
abbrev is_lower : Char → Bool
is_lower c = (leb b'a' (code c) && leb (code c) b'z') || code c == b'_'

abbrev alias_rest : String → Bool
alias_rest String.[] = true
alias_rest (String.◌∷◌ c s) = (is_lower c || is_digit c) && alias_rest s

unfoldable pub alias_pattern : String → Bool
alias_pattern String.[] = false
alias_pattern (String.◌∷◌ c s) = is_lower c && alias_rest s

-- `aggregation.toLowerCase()`
abbrev pub lower_case : Aggregation → String
lower_case sum = "sum"
lower_case avg = "avg"
lower_case max = "max"
lower_case min = "min"
lower_case count = "count"
lower_case median = "median"
lower_case mode = "mode"

unfoldable pub default_alias : String → Aggregation → String
default_alias measure aggregation = String.◌++◌ measure (String.◌++◌ "_" (lower_case aggregation))

unfoldable pub label_column_of : String → String
label_column_of field = String.◌++◌ field "__label"

-- `names.find((name, index) => names.indexOf(name) !== index)`, after the names `seen`
unfoldable pub first_repeat : List String → List String → Option String
first_repeat seen [] = none
first_repeat seen (name ∷ names) =
    let later = first_repeat (name ∷ seen) names in if set_has seen name then some name else later

abbrev pub is_none {ℓ} : {A : Type ℓ} → Option A → Bool
is_none none = true
is_none (some a) = false

-- `metadataByName.get(name)!`
unfoldable pub get_metadata : Option FieldMetadata → Result AggregateError FieldMetadata
get_metadata none = thrown undefined_metadata
get_metadata (some f) = done f

-- `DATE_GRAINS.includes(grain)`
abbrev pub is_date_grain : TimeGrain → Bool
is_date_grain day = true
is_date_grain week = true
is_date_grain month = true
is_date_grain quarter = true
is_date_grain year = true
is_date_grain grain = false

abbrev pub columns_error : Option (List String) → Result AggregateError (Unit {0})
columns_error none = done tt
columns_error (some names) = thrown (unknown_columns names)

module _ (js : Platform) where
  abbrev pub truncation_of : TypeFamily → TimeGrain → String → Result AggregateError Truncation
  truncation_of date grain sql_type =
      if is_date_grain grain then done as_date else thrown grain_not_allowed
  truncation_of timestamp grain sql_type = done (
      if set_has timezone_types (normalize_sql_type js sql_type)
      then as_timestamptz
      else as_timestamp)
  truncation_of family grain sql_type = thrown grain_not_temporal

  unfoldable pub resolve_truncation : FieldMetadata → TimeGrain → Result AggregateError Truncation
  unfolding type_family_of normalize_sql_type
  resolve_truncation field grain =
      truncation_of (type_family_of js field.sql_type) grain field.sql_type

  abbrev declared : Option String → Option Aggregation
  declared none = none
  declared (some name) = aggregation_named name

  abbrev pub implied_aggregation :
      Option Aggregation → SqlTypeFamily → Result AggregateError Aggregation
  implied_aggregation (some aggregation) family = done aggregation
  implied_aggregation none fam_numeric = done sum
  implied_aggregation none family = thrown no_default_aggregation

  unfoldable pub effective_aggregation :
      Option Aggregation → FieldMetadata → Result AggregateError Aggregation
  unfolding aggregation_named measure_family
  effective_aggregation (some explicit) measure = done explicit
  effective_aggregation none measure =
      implied_aggregation (declared measure.default_aggregation)
        (measure_family js measure.sql_type)

  unfoldable pub assert_numeric_aggregate :
      Aggregation → FieldMetadata → Result AggregateError (Unit {0})
  unfolding aggregated_value_family
  assert_numeric_aggregate aggregation measure =
      elim (aggregated_value_family js aggregation measure.sql_type) [
        | fam_numeric ↦ done tt
        | _ ↦ thrown not_numeric
      ]

  module _ (show : Value → String) (metadata : Map FieldMetadata) where
    -- `assertColumns`, on names of the request
    unfoldable pub check_columns : List String → Result AggregateError (Unit {0})
    unfolding assert_columns lookup
    check_columns names =
        columns_error
          (assert_columns show (λ name. not (is_none (lookup name metadata))) (map string names))

    -- a group column: its truncation where it has a grain, its label column otherwise
    unfoldable pub group_of :
        String → FieldMetadata → Option TimeGrain → Result AggregateError ResolvedGroup
    unfolding lookup resolve_truncation resolve_label_field map_error ◌>>=◌
    group_of field meta none = do
      label ← map_error label_error (resolve_label_field field metadata none)
      done (record { field = field; grain = none; truncation = none; label_field = label })
    group_of field meta (some grain) = do
      truncation ← resolve_truncation meta grain
      done (record {
        field = field;
        grain = some grain;
        truncation = some truncation;
        label_field = none;
      })

    unfoldable pub resolve_group : GroupByInput → Result AggregateError ResolvedGroup
    unfolding lookup get_metadata group_of ◌>>=◌
    resolve_group g = do
      meta ← get_metadata (lookup g.field metadata)
      group_of g.field meta g.grain

    unfoldable pub resolve_aggregate : AggregateInput → Result AggregateError ResolvedAggregate
    unfolding lookup get_metadata effective_aggregation allowed_aggregations includes_aggregation
        default_alias ◌>>=◌ ◌>>◌ check
    resolve_aggregate a = do
      meta ← get_metadata (lookup a.measure metadata)
      effective ← effective_aggregation a.aggregation meta
      check (includes_aggregation (allowed_aggregations js meta.sql_type) effective)
          aggregation_not_allowed
      check (is_none a.alias || alias_pattern (or_else "" a.alias)) bad_alias
      done (record {
        measure = a.measure;
        aggregation = effective;
        alias = or_else (default_alias a.measure effective) a.alias;
      })
