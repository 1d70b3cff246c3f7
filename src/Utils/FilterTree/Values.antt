-- ===== src/Utils/FilterTree/Values.antt =====
-- src/utils/filter-tree.ts: checks of the variables and values of a criterion.
use Prim.Native.Char.{Char, code}
use Prim.Native.String.{String}
use text.Mathlib.Text.{starts_with}
use dashboard_template_api.Common.{
  ℕ, zero, suc, Bool, true, false, not, ◌&&◌, ◌||◌, Option, none, some, List, leb, ◌==◌, str_eq,
  if◌then◌else◌,
}
use dashboard_template_api.Utils.FilterTree.Input.{
  SqlTypeFamily, fam_numeric, fam_date, fam_text, fam_boolean, Value, undefined, null, bool, number,
  string, invalid_variable, invalid_value, Checked, ok, refused,
}
use dashboard_template_api.Utils.FilterTree.Typing.{
  Platform, set_has, unsigned_types, integer_types, timezone_types,
}

abbrev pub is_empty_text : String → Bool
is_empty_text s = str_eq s ""

unfoldable pub filter_variable : Value → Checked String
filter_variable (string s) = if is_empty_text s then refused invalid_variable else ok s
filter_variable _ = refused invalid_variable

abbrev pub is_wildcard : Char → Bool
is_wildcard c = code c == b'\\' || (code c == b'%' || code c == b'_')

unfoldable pub escape_like : String → String
escape_like String.[] = ""
escape_like (String.◌∷◌ c s) =
    let rest = escape_like s in
    if is_wildcard c then String.◌∷◌ "\\" (String.◌∷◌ c rest) else String.◌∷◌ c rest

-- `pattern[i + 1] === c`
abbrev head_is : ℕ → String → Bool
head_is k String.[] = false
head_is k (String.◌∷◌ c s) = code c == k

abbrev second_is : ℕ → String → Bool
second_is k String.[] = false
second_is k (String.◌∷◌ c s) = head_is k s

abbrev head_is_back_reference : String → Bool
head_is_back_reference String.[] = false
head_is_back_reference (String.◌∷◌ c s) =
    (leb b'1' (code c) && leb (code c) b'9') || (code c == b'k' && head_is b'<' s)

-- `(?` goes on with one of `=`, `!`, `<` and `>`
abbrev starts_unsupported_group : String → Bool
starts_unsupported_group String.[] = false
starts_unsupported_group (String.◌∷◌ c s) =
    code c == b'?' && (head_is b'=' s || (head_is b'!' s || (head_is b'<' s || head_is b'>' s)))

-- the characters after `[` that are skipped: `^`, `]` or both
abbrev class_skip : String → ℕ
class_skip s =
    if head_is b'^' s then (if second_is b']' s then 2 else 1) else if head_is b']' s then 1 else 0

-- One turn of the loop: how many characters it skips beside, and whether it is in a class then;
-- none where it refuses the pattern.
unfoldable pub re2_step : Bool → Char → String → Option (ℕ × Bool)
re2_step in_class c s =
    if code c == b'\\'
    then (if head_is_back_reference s then none else some (1, in_class))
    else if in_class
    then some (0, not (code c == b']'))
    else if code c == b'['
    then some (class_skip s, true)
    else if code c == b'(' && starts_unsupported_group s
    then none
    else some (0, false)

unfoldable pub re2_scan : ℕ → Bool → String → Bool
re2_scan skip in_class String.[] = true
re2_scan zero in_class (String.◌∷◌ c s) = elim (re2_step in_class c s) [
  | none ↦ false
  | some (k, b) ↦ re2_scan k b s
]
re2_scan (suc skip) in_class (String.◌∷◌ c s) = re2_scan skip in_class s

-- `assertRe2Compatible`
unfoldable pub is_re2_compatible : String → Bool
is_re2_compatible pattern = re2_scan 0 false pattern

abbrev pub is_scalar : Value → Bool
is_scalar (bool b) = true
is_scalar (number n) = true
is_scalar (string s) = true
is_scalar _ = false

abbrev pub is_absent : Value → Bool
is_absent undefined = true
is_absent null = true
is_absent _ = false

abbrev is_some {ℓ} : {A : Type ℓ} → Option A → Bool
is_some none = false
is_some (some a) = true

abbrev join_option {ℓ} : {A : Type ℓ} → Option (Option A) → Option A
join_option none = none
join_option (some o) = o

-- `match[i]`
unfoldable pub group : ℕ → List (Option String) → Option String
group i List.[] = none
group zero (List.◌∷◌ g gs) = g
group (suc i) (List.◌∷◌ g gs) = group i gs

module _ (js : Platform) where
  abbrev to_number_or : ℕ → Option String → ℕ
  to_number_or n none = n
  to_number_or n (some s) = js.to_number s

  abbrev at_most : ℕ → Option String → Bool
  at_most bound none = true
  at_most bound (some s) = leb (js.to_number s) bound

  abbrev same_date : ℕ × ℕ × ℕ → ℕ → ℕ → ℕ → Bool
  same_date (y, m, d) year month day = y == year && (m == month && d == day)

  -- `isValidCalendarDate`; the patterns give the groups of the year, the month and the day
  unfoldable pub is_valid_calendar_date : List (Option String) → Bool
  unfolding group
  is_valid_calendar_date gs =
      let year = to_number_or 0 (group 1 gs) in
      let month = to_number_or 0 (group 2 gs) in
      let day = to_number_or 0 (group 3 gs) in
      same_date (js.utc_date year month day) year month day
      && (at_most 23 (group 4 gs)
          && ((not (is_some (group 4 gs)) || at_most 59 (group 5 gs)) && at_most 59 (group 6 gs)))

  abbrev iso_date_pattern : String
  iso_date_pattern = "^(\\d{4})-(\\d{2})-(\\d{2})$"

  abbrev iso_datetime_pattern : String
  iso_datetime_pattern =
      "^(\\d{4})-(\\d{2})-(\\d{2})(?:[T ](\\d{2}):(\\d{2})(?::(\\d{2})(?:\\.\\d{1,9})?)?(Z|[+-]\\d{2}:?\\d{2})?)?$"

  abbrev timestamp_ns_max_abs_ms : ℕ
  timestamp_ns_max_abs_ms = 9223372036854

  abbrev in_ns_range : List (Option String) → Bool
  in_ns_range gs =
      leb
        (js.utc_abs_ms (to_number_or 0 (group 1 gs)) (to_number_or 0 (group 2 gs))
          (to_number_or 0 (group 3 gs)) (to_number_or 0 (group 4 gs)) (to_number_or 0 (group 5 gs))
          (to_number_or 0 (group 6 gs)))
        timestamp_ns_max_abs_ms

  -- an offset other than `Z`, on a type without a time zone
  abbrev drops_offset : Option String → String → Bool
  drops_offset none sql_type = false
  drops_offset (some offset) sql_type =
      not (is_empty_text offset)
      && (not (str_eq offset "Z") && not (set_has timezone_types sql_type))

  abbrev date_matches : String → Option (List (Option String)) → Bool
  date_matches sql_type none = false
  date_matches sql_type (some gs) =
      is_valid_calendar_date gs
      && ((not (str_eq sql_type "TIMESTAMP_NS") || in_ns_range gs)
          && not (drops_offset (group 7 gs) sql_type))

  abbrev is_date_value : String → String → Bool
  is_date_value sql_type s =
      date_matches sql_type
        (js.exec (if str_eq sql_type "DATE" then iso_date_pattern else iso_datetime_pattern) s)

  abbrev numeric_pattern : Bool → String
  numeric_pattern is_integer =
      if is_integer then "^-?\\d+$" else "^-?\\d+(\\.\\d+)?([eE][+-]?\\d+)?$"

  abbrev sign_fits : String → String → Bool
  sign_fits sql_type shown = not (set_has unsigned_types sql_type && starts_with shown "-")

  -- the tests of `coerceValue` for each family
  abbrev fits : SqlTypeFamily → String → Value → Bool
  fits fam_numeric sql_type (number n) =
      n.is_finite
      && ((not (set_has integer_types sql_type) || n.is_safe_integer)
          && sign_fits sql_type n.to_text)
  fits fam_numeric sql_type (string s) =
      is_some (js.exec (numeric_pattern (set_has integer_types sql_type)) s) && sign_fits sql_type s
  fits fam_date sql_type (string s) = is_date_value sql_type s
  fits fam_text sql_type (string s) = true
  fits fam_boolean sql_type (bool b) = true
  fits family sql_type value = false

  unfoldable pub coerce_value : SqlTypeFamily → String → Value → Checked Value
  coerce_value family sql_type value =
      if fits family sql_type value then ok value else refused invalid_value
