-- ===== src/Export/Params.antt =====
-- src/export/export-params.ts, the readers: the parameters of an export as the query string or the JSON
-- body gives them, and the errors that refuse them. Case, trimming and JSON are JavaScript's.
use Prim.Native.Char.{Char, code}
use Prim.Native.String
use dashboard_template_api.Common.{
  ℕ, Bool, true, false, not, ◌&&◌, ◌||◌, Option, none, some, List, [], ◌∷◌, map, String, ltb, ◌==◌,
  str_eq, if◌then◌else◌,
}
use dashboard_template_api.Common.Map.{Map, lookup}
use dashboard_template_api.Common.Result.{Result, done, thrown, ◌>>=◌, ◌>>◌, check}
use dashboard_template_api.Utils.FilterTree.Input.{
  Value, undefined, null, bool, number, string, array, object, Items, nil, cons, Entries,
}
use dashboard_template_api.Utils.FilterTree.Typing.{Platform, is_digit}
use dashboard_template_api.Utils.Decimal.Digits.{number_of}
pub mod Settings
pub mod Lists
pub mod Request
pub mod Accepted
pub mod Checked
pub mod Parts
pub mod Transports
pub mod Tests

pub record ExportPlatform : Type 0 where
  pub js : Platform
  pub to_lower_case : String → String
  pub parse_json : String → Option Value

pub data ExportFormat : Type 0 where
  arrow csv parquet : ExportFormat

pub data ParquetCompression : Type 0 where
  snappy zstd gzip : ParquetCompression

pub data ExportParamSource : Type 0 where
  query body : ExportParamSource

-- `badParameter`, all of status 400: one for each place that throws it.
pub data ExportParamError : Type 0 where
  unknown_parameters : List String → ExportParamError
  not_a_string not_strings : String → ExportParamError
  empty_name bad_sort_item bad_direction bad_group_item unknown_grain bad_aggregate_item
        unknown_aggregation filters_not_json filters_not_object bad_limit bad_bom unknown_format
        bom_without_csv compression_without_parquet unknown_compression group_by_without_aggregates
        fields_with_aggregates :
      ExportParamError
  sort_twice field_twice : String → ExportParamError

-- `input[name]`
abbrev pub get_value : String → Map Value → Value
get_value name input = or_undefined (lookup name input)
  where
    or_undefined : Option Value → Value
    or_undefined none = undefined
    or_undefined (some v) = v

abbrev pub non_empty : String → Option String
non_empty s = if str_eq s "" then none else some s

-- `/^\d+$/`
abbrev pub all_digits : String → Bool
all_digits String.[] = true
all_digits (String.◌∷◌ c s) = is_digit c && all_digits s

module _ (platform : ExportPlatform) where
  -- `readString` of the value of a parameter
  unfoldable pub string_of_value : String → Value → Result ExportParamError (Option String)
  string_of_value name undefined = done none
  string_of_value name null = done none
  string_of_value name (string s) = done (non_empty (platform.js.trim s))
  string_of_value name (bool b) = thrown (not_a_string name)
  string_of_value name (number n) = thrown (not_a_string name)
  string_of_value name (array items) = thrown (not_a_string name)
  string_of_value name (object entries) = thrown (not_a_string name)

  unfoldable pub read_string : Map Value → String → Result ExportParamError (Option String)
  unfolding string_of_value lookup
  read_string input name = string_of_value name (get_value name input)

  -- `text.split(separator)`, the separator by its code: always one part or more
  unfoldable pub split : ℕ → String → List String
  split separator String.[] = "" ∷ []
  split separator (String.◌∷◌ c s) =
      let parts = split separator s in if code c == separator then "" ∷ parts else with_char c parts
    where
      with_char : Char → List String → List String
      with_char c [] = String.◌∷◌ c "" ∷ []
      with_char c (part ∷ parts) = String.◌∷◌ c part ∷ parts

  -- the parts around a separator, trimmed
  abbrev pub trimmed_parts : ℕ → String → List String
  trimmed_parts separator s = map platform.js.trim (split separator s)

  -- the strings of an array; none where an element is not one
  abbrev pub strings_of : Items → Option (List String)
  strings_of nil = some []
  strings_of (cons (string s) items) = with_string s (strings_of items)
    where
      with_string : String → Option (List String) → Option (List String)
      with_string s none = none
      with_string s (some rest) = some (s ∷ rest)
  strings_of (cons v items) = none

  abbrev pub trimmed_strings :
      String → Option (List String) → Result ExportParamError (Option (List String))
  trimmed_strings name none = thrown (not_strings name)
  trimmed_strings name (some []) = done none
  trimmed_strings name (some (s ∷ rest)) = done (some (map platform.js.trim (s ∷ rest)))

  abbrev pub split_commas : Option String → Option (List String)
  split_commas none = none
  split_commas (some raw) = some (trimmed_parts b',' raw)

  -- `readList` of the value of a parameter
  unfoldable pub list_of_value :
      ExportParamSource → String → Value → Result ExportParamError (Option (List String))
  unfolding string_of_value split ◌>>=◌
  list_of_value body name (array items) = trimmed_strings name (strings_of items)
  list_of_value source name v = string_of_value name v >>= λ raw. done (split_commas raw)

  unfoldable pub read_list :
      ExportParamSource → Map Value → String → Result ExportParamError (Option (List String))
  unfolding list_of_value lookup
  read_list source input name = list_of_value source name (get_value name input)

  abbrev pub filter_object : Value → Result ExportParamError (Option Entries)
  filter_object (object entries) = done (some entries)
  filter_object v = thrown filters_not_object

  abbrev pub parsed_filters : Option String → Result ExportParamError (Option Entries)
  parsed_filters none = done none
  parsed_filters (some raw) = elim (platform.parse_json raw) [
    | none ↦ thrown filters_not_json
    | some v ↦ filter_object v
  ]

  -- `readFilters` of the value of the parameter
  unfoldable pub filters_of_value :
      ExportParamSource → Value → Result ExportParamError (Option Entries)
  unfolding string_of_value ◌>>=◌
  filters_of_value source undefined = done none
  filters_of_value source null = done none
  filters_of_value source (string s) = string_of_value "filters" (string s) >>= parsed_filters
  filters_of_value query v = string_of_value "filters" v >>= parsed_filters
  filters_of_value body v = filter_object v

  unfoldable pub read_filters :
      ExportParamSource → Map Value → Result ExportParamError (Option Entries)
  unfolding filters_of_value lookup
  read_filters source input = filters_of_value source (get_value "filters" input)

  -- a row count from its digits
  unfoldable pub limit_of_text : Option String → Result ExportParamError (Option ℕ)
  unfolding number_of check ◌>>◌
  limit_of_text none = done none
  limit_of_text (some raw) = do
    check (not (str_eq raw "") && all_digits raw && ltb 0 (number_of raw 0)) bad_limit
    done (some (number_of raw 0))

  unfoldable pub limit_of_value : ExportParamSource → Value → Result ExportParamError (Option ℕ)
  unfolding limit_of_text string_of_value ◌>>=◌
  limit_of_value body (number n) = limit_of_text (some n.to_text)
  limit_of_value source v = string_of_value "limit" v >>= limit_of_text

  unfoldable pub read_limit : ExportParamSource → Map Value → Result ExportParamError (Option ℕ)
  unfolding limit_of_value lookup
  read_limit source input = limit_of_value source (get_value "limit" input)

  abbrev pub flag_of : Option String → Result ExportParamError Bool
  flag_of none = done false
  flag_of (some raw) =
      if str_eq raw "0" || str_eq raw "false"
      then done false
      else if str_eq raw "1" || str_eq raw "true"
      then done true
      else thrown bad_bom

  abbrev pub lower : Option String → Option String
  lower none = none
  lower (some raw) = some (platform.to_lower_case raw)

  unfoldable pub bom_of_value : Value → Result ExportParamError Bool
  unfolding string_of_value ◌>>=◌
  bom_of_value (bool b) = done b
  bom_of_value v = string_of_value "bom" v >>= λ raw. flag_of (lower raw)

  unfoldable pub read_bom : Map Value → Result ExportParamError Bool
  unfolding bom_of_value lookup
  read_bom input = bom_of_value (get_value "bom" input)
