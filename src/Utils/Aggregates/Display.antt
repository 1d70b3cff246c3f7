-- ===== src/Utils/Aggregates/Display.antt =====
-- src/utils/aggregate-query.ts: the d3 format and the unit of an aggregate.
use Prim.Native.Char.{code}
use dashboard_template_api.Common.{
  Bool, true, false, not, ◌&&◌, Option, none, some, String, ◌==◌, str_eq, if◌then◌else◌,
}
use dashboard_template_api.Utils.FilterTree.Typing.{Platform, is_digit}
use dashboard_template_api.Utils.FilterTree.Values.{is_empty_text}
use dashboard_template_api.Utils.Aggregations.{Aggregation, count, avg, median}
use dashboard_template_api.Utils.Metadata.{FieldMetadata, integer, type_family_of}

-- `\d+d$`; the flag says that a digit was read
abbrev digits_then_d : Bool → String → Bool
digits_then_d read String.[] = false
digits_then_d read (String.◌∷◌ c s) =
    let more = digits_then_d true s in
    if is_digit c then more else read && str_eq (String.◌∷◌ c s) "d"

-- `(\.\d+)?d$`, from the beginning of the text
abbrev is_integer_end : String → Bool
is_integer_end String.[] = false
is_integer_end (String.◌∷◌ c s) =
    if code c == b'.' then digits_then_d false s else str_eq (String.◌∷◌ c s) "d"

-- `.replace(/(\.\d+)?d$/, '.2f')`
unfoldable pub fractional_format : String → String
fractional_format String.[] = ""
fractional_format (String.◌∷◌ c s) =
    let rest = fractional_format s in
    if is_integer_end (String.◌∷◌ c s) then ".2f" else String.◌∷◌ c rest

abbrev averages : Aggregation → Bool
averages avg = true
averages median = true
averages aggregation = false

module _ (js : Platform) where
  abbrev is_integer_measure : FieldMetadata → Bool
  is_integer_measure measure = elim (type_family_of js measure.sql_type) [
    | integer ↦ true
    | _ ↦ false
  ]

  abbrev fractional : Bool → Option String → Option String
  fractional applies none = none
  fractional applies (some format) =
      if applies && not (is_empty_text format) then some (fractional_format format) else some format

  unfoldable pub aggregate_display_format : Aggregation → FieldMetadata → Option String
  unfolding type_family_of fractional_format
  aggregate_display_format count measure = some ",d"
  aggregate_display_format aggregation measure =
      fractional (averages aggregation && is_integer_measure measure) measure.display_format

unfoldable pub aggregate_unit : Aggregation → FieldMetadata → Option String
aggregate_unit count measure = none
aggregate_unit aggregation measure = measure.unit
