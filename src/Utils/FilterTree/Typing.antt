-- ===== src/Utils/FilterTree/Typing.antt =====
-- src/utils/filter-tree.ts, the typing tables: families of SQL types and the
-- type that a value is cast to. `trim`, `toUpperCase` and the class `\s` are JavaScript's.
use Prim.Native.Char.{Char, code}
use Prim.Native.String.{String}
use dashboard_template_api.Common.{
  ℕ, ◌+◌, ◌*◌, ◌-◌, Bool, true, false, ◌&&◌, ◌||◌, Option, none, some, List, [], ◌∷◌, leb, ◌==◌,
  str_eq, if◌then◌else◌,
}
use dashboard_template_api.Utils.FilterTree.Input.{
  SqlTypeFamily, fam_numeric, fam_date, fam_text, fam_boolean, fam_other,
}

-- What is JavaScript's: string methods, regular expressions and the calendar. `exec` gives the
-- groups of a match; `utc_date` is the date that `Date.UTC` makes of a year, a month from 1 and a day,
-- read back; `utc_abs_ms` is the distance of such a time from the epoch.
pub record Platform : Type 0 where
  pub trim : String → String
  pub to_upper_case : String → String
  pub is_space : Char → Bool
  pub utf16_length : String → ℕ
  pub exec : String → String → Option (List (Option String))
  pub to_number : String → ℕ
  pub utc_date : ℕ → ℕ → ℕ → ℕ × ℕ × ℕ
  pub utc_abs_ms : ℕ → ℕ → ℕ → ℕ → ℕ → ℕ → ℕ

abbrev pub set_has : List String → String → Bool
set_has [] s = false
set_has (x ∷ xs) s = str_eq x s || set_has xs s

abbrev pub unsigned_types : List String
unsigned_types = "UTINYINT" ∷ "USMALLINT" ∷ "UINTEGER" ∷ "UBIGINT" ∷ "UHUGEINT" ∷ []

abbrev pub integer_types : List String
integer_types =
    "TINYINT" ∷ "SMALLINT" ∷ "INTEGER" ∷ "BIGINT" ∷ "HUGEINT" ∷ "UTINYINT" ∷ "USMALLINT"
    ∷ "UINTEGER" ∷ "UBIGINT" ∷ "UHUGEINT" ∷ []

abbrev pub float_types : List String
float_types = "FLOAT" ∷ "DOUBLE" ∷ []

abbrev pub date_types : List String
date_types =
    "DATE" ∷ "TIMESTAMP" ∷ "TIMESTAMP_S" ∷ "TIMESTAMP_MS" ∷ "TIMESTAMP_NS"
    ∷ "TIMESTAMP WITH TIME ZONE" ∷ "TIMESTAMPTZ" ∷ []

abbrev pub timezone_types : List String
timezone_types = "TIMESTAMP WITH TIME ZONE" ∷ "TIMESTAMPTZ" ∷ []

-- `.replace(/\s+/g, ' ')`; the flag says that the run before is whitespace.
unfoldable pub collapse_spaces : (Char → Bool) → Bool → String → String
collapse_spaces is_space inside String.[] = ""
collapse_spaces is_space inside (String.◌∷◌ c s) =
    let run = collapse_spaces is_space true s in
    let next = collapse_spaces is_space false s in
    if is_space c then (if inside then run else String.◌∷◌ " " run) else String.◌∷◌ c next

abbrev is_bracket : Char → Bool
is_bracket c = code c == b'(' || (code c == b')' || code c == b',')

abbrev skip_space : String → String
skip_space String.[] = ""
skip_space (String.◌∷◌ c s) = if code c == b' ' then s else String.◌∷◌ c s

abbrev starts_bracket : String → Bool
starts_bracket String.[] = false
starts_bracket (String.◌∷◌ c s) = is_bracket c

-- `.replace(/\s*([(),])\s*/g, '$1')`, on a text whose runs of whitespace are single spaces
unfoldable pub tighten_brackets : String → String
tighten_brackets String.[] = ""
tighten_brackets (String.◌∷◌ c s) =
    let rest = tighten_brackets s in
    if is_bracket c
    then String.◌∷◌ c (skip_space rest)
    else (if code c == b' ' && starts_bracket rest then rest else String.◌∷◌ c rest)

unfoldable pub normalize_sql_type : Platform → String → String
unfolding collapse_spaces tighten_brackets
normalize_sql_type js sql_type =
    tighten_brackets (collapse_spaces js.is_space false (js.to_upper_case (js.trim sql_type)))

abbrev pub is_digit : Char → Bool
is_digit c = leb b'0' (code c) && leb (code c) b'9'

abbrev digit : Char → ℕ
digit c = code c - b'0'

-- `\d{1,2}`: its number and what follows
abbrev pub two_digits : String → Option (ℕ × String)
two_digits String.[] = none
two_digits (String.◌∷◌ c String.[]) = if is_digit c then some (digit c, "") else none
two_digits (String.◌∷◌ c (String.◌∷◌ d s)) =
    if is_digit c
    then (if is_digit d then some (10 * digit c + digit d, s) else some (digit c, String.◌∷◌ d s))
    else none

-- The precision and the scale of `(p)` or `(p,s)`; a missing scale is 0.
abbrev pub scale_of : ℕ → Option (ℕ × String) → Option (ℕ × ℕ)
scale_of precision none = none
scale_of precision (some (scale, rest)) = if str_eq rest ")" then some (precision, scale) else none

abbrev pub after_precision : ℕ → String → Option (ℕ × ℕ)
after_precision precision String.[] = none
after_precision precision (String.◌∷◌ c s) =
    if code c == b','
    then scale_of precision (two_digits s)
    else scale_of precision (some (0, String.◌∷◌ c s))

abbrev pub precision_scale : Option (ℕ × String) → Option (ℕ × ℕ)
precision_scale none = none
precision_scale (some (precision, rest)) = after_precision precision rest

abbrev pub decimal_max_precision : ℕ
decimal_max_precision = 38

abbrev pub fits_decimal : Option (ℕ × ℕ) → Bool
fits_decimal none = false
fits_decimal (some (precision, scale)) =
    leb 1 precision && leb precision decimal_max_precision && leb scale precision

unfoldable pub strip_prefix : String → String → Option String
strip_prefix String.[] s = some s
strip_prefix (String.◌∷◌ c p) String.[] = none
strip_prefix (String.◌∷◌ c p) (String.◌∷◌ d s) =
    let rest = strip_prefix p s in if code c == code d then rest else none

-- what follows `DECIMAL`: nothing, or its precision
unfoldable pub decimal_suffix : Option String → Bool
decimal_suffix none = false
decimal_suffix (some String.[]) = true
decimal_suffix (some (String.◌∷◌ c s)) =
    if code c == b'(' then fits_decimal (precision_scale (two_digits s)) else false

unfoldable pub is_decimal_type : String → Bool
unfolding strip_prefix decimal_suffix
is_decimal_type normalized = decimal_suffix (strip_prefix "DECIMAL" normalized)

abbrev pub is_numeric_type : String → Bool
is_numeric_type s = set_has integer_types s || (set_has float_types s || is_decimal_type s)

-- `sqlTypeFamily`, on a normalized type
unfoldable pub sql_type_family : String → SqlTypeFamily
sql_type_family s =
    if is_numeric_type s
    then fam_numeric
    else if set_has date_types s
    then fam_date
    else if str_eq s "VARCHAR"
    then fam_text
    else if str_eq s "BOOLEAN"
    then fam_boolean
    else fam_other

unfoldable pub is_integer_sql_type : Platform → String → Bool
is_integer_sql_type js sql_type = set_has integer_types (normalize_sql_type js sql_type)

unfoldable pub cast_type_of : String → String
cast_type_of sql_type = if str_eq sql_type "DECIMAL" then "DECIMAL(38,9)" else sql_type
