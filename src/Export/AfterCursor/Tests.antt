-- ===== src/Export/AfterCursor/Tests.antt =====
-- An export sorted by one column and completed by a key column, and its theorems at it.
use dashboard_template_api.Common.{
  all, ◌++◌, ◌≡◌, refl, ◌≢◌, ◌||◌, if◌then◌else◌, Bool, true, false, not, ◌&&◌, Option, none, some,
  List, [], ◌∷◌, map, String, str_eq, length, arith,
}
use dashboard_template_api.Utils.Identifiers.{quote_ident, join}
use dashboard_template_api.Utils.SqlText.{Holds}
use dashboard_template_api.Export.AfterCursor.{
  asc, desc, ascending, KeyColumn, complete_total_order, names_field, build_after_predicate,
  terms_from, zip_values,
}
use dashboard_template_api.Export.AfterCursor.Placeholders.{build_after_predicate-Holds}
use dashboard_template_api.Export.AfterCursor.Resume.{Values, Row, some_holds, row_after}
use dashboard_template_api.Export.AfterCursor.Order.{
  TotalOrder, explicit_sort, completing, includes, complete_total_order-names,
}
use dashboard_template_api.Export.AfterCursor.Token.{
  Codec, Json, ok, encode_cursor, decode_cursor, pair, assert_cursor_order,
}
use dashboard_template_api.Export.AfterCursor.Token.RoundTrip.{decode_cursor-encode_cursor}

runs : Unit {0}
unfolding complete_total_order build_after_predicate row_after terms_from some_holds decode_cursor
    encode_cursor assert_cursor_order quote_ident join
runs = tt

-- A column of truth values, written `t` and `f`.
abbrev flags : Values
flags = record {
  Value = Bool;
  eq = λ a b. if a then b else not b;
  lt = λ a b. not a && b;
  read = λ field text. str_eq text "t";
}

read_flag : (v : Bool) → str_eq (if v then "t" else "f") "t" ≡ v
read_flag true = refl
read_flag false = refl

flags_order : TotalOrder flags
flags_order = record {
  text = λ field v. if v then "t" else "f";
  read_text = λ field v. read_flag v;
  eq_comm = λ a b. ground arith;
  trichotomy = λ a b. ground arith;
}

abbrev sort : List KeyColumn
sort = record { field = "open"; order = desc } ∷ record { field = ""; order = asc } ∷ []

abbrev order : List KeyColumn
order = record { field = "open"; order = desc } ∷ record { field = "paid"; order = asc } ∷ []

order-sort : complete_total_order sort ("open" ∷ "paid" ∷ []) [] ≡ order
unfolding runs
order-sort = refl

abbrev key : List (Option String)
key = some "t" ∷ some "f" ∷ []

-- A row that is open, and paid as told.
abbrev open_row : Option Bool → Row flags
open_row paid field = if str_eq field "open" then some true else paid

after-paid : row_after flags (zip_values order key) (open_row (some true)) ≡ true
unfolding runs
after-paid = refl

after-unpaid : row_after flags (zip_values order key) (open_row (some false)) ≡ false
unfolding runs
after-unpaid = refl

build_after_predicate-text :
    (build_after_predicate order key).sql
    ≡ "((\"open\" < ? OR \"open\" IS NULL)) OR (\"open\" IS NOT DISTINCT FROM ? AND (\"paid\" > ? OR \"paid\" IS NULL))"
unfolding runs
build_after_predicate-text = refl

build_after_predicate-Holds_example :
    Holds (build_after_predicate order key).sql (length (build_after_predicate order key).params)
build_after_predicate-Holds_example = build_after_predicate-Holds order key

complete_total_order-names_example :
    (rest : List String) × (complete_total_order sort ("open" ∷ "paid" ∷ []) []
      ≡ explicit_sort sort ++ map ascending rest)
    × (all (λ x. not (names_field (explicit_sort sort) x)) rest ≡ true)
    × (names_field (complete_total_order sort ("open" ∷ "paid" ∷ []) []) "paid" ≡ (
        names_field (explicit_sort sort) "paid"
        || includes (completing ("open" ∷ "paid" ∷ []) []) "paid"))
complete_total_order-names_example =
    complete_total_order-names sort ("open" ∷ "paid" ∷ []) [] "paid"

abbrev paid : Row flags
paid = open_row (some true)

abbrev missing : Row flags
missing = open_row none

-- A codec that writes nothing down.
abbrev plain : Codec
plain = record { Text = Json; stringify = λ j. j; parse = λ j. some j; parse_stringify = λ j. refl }

order-non_empty : order ≢ []
order-non_empty e = cc

decode_cursor-encode_cursor_example :
    decode_cursor plain (encode_cursor plain order key)
    ≡ ok (record { order = map pair order; values = key })
decode_cursor-encode_cursor_example =
    decode_cursor-encode_cursor plain order key order-non_empty refl
