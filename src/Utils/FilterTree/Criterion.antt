-- ===== src/Utils/FilterTree/Criterion.antt =====
-- src/utils/filter-tree.ts: compilation of a criterion.
use Prim.Native.String.{String, ◌++◌}
use mathlib.Core.List
use dashboard_template_api.Common.{
  ℕ, suc, Bool, true, not, ◌&&◌, Option, none, some, List, ltb, leb, ◌==◌, str_eq, if◌then◌else◌,
}
use dashboard_template_api.Common.Map.{Map, lookup}
use dashboard_template_api.Utils.Identifiers.{quote_ident, join}
use dashboard_template_api.Utils.FilterTree.Input.{
  FilterOperation, SqlTypeFamily, fam_numeric, fam_date, Value, undefined, string, array, object,
  Items, nil, cons, Entries, end, entry, FilterCriterion, Limits, unknown_column,
  operation_not_allowed, takes_no_value, requires_text, pattern_too_long, unsupported_pattern,
  requires_range, requires_array, too_many_values, requires_scalars, requires_scalar, Checked, ok,
  refused, ◌>>=◌, ◌>>◌, require,
}
use dashboard_template_api.Utils.FilterTree.Typing.{
  Platform, normalize_sql_type, sql_type_family, cast_type_of,
}
use dashboard_template_api.Utils.FilterTree.Operations.{
  allowed_operations, includes_operation, shape_of_operation, Shape, valueless, like, matches,
  between, in_list, comparison, Pattern, pat_contains, pat_starts, pat_ends, pat_exact,
}
use dashboard_template_api.Utils.FilterTree.Values.{
  is_empty_text, filter_variable, escape_like, is_re2_compatible, is_scalar, is_absent,
  coerce_value,
}

pub record CompiledFilter : Type 0 where
  pub sql : String
  pub params : List Value

module _ (js : Platform) where
  -- `bind`: the placeholder of a value, and its parameter
  abbrev pub placeholder : SqlTypeFamily → String → String
  placeholder fam_numeric sql_type = "CAST(? AS " ++ (cast_type_of sql_type ++ ")")
  placeholder fam_date sql_type = "CAST(? AS " ++ (cast_type_of sql_type ++ ")")
  placeholder family sql_type = "?"

  abbrev pub bind : SqlTypeFamily → String → Value → Checked CompiledFilter
  bind family sql_type raw = do
    value ← coerce_value js family sql_type raw
    ok (record { sql = placeholder family sql_type; params = List.◌∷◌ value List.[] })

  -- `value.map(bind)`, with the texts apart
  unfoldable pub bind_all : SqlTypeFamily → String → Items → Checked (List String × List Value)
  bind_all family sql_type nil = ok (List.[], List.[])
  bind_all family sql_type (cons raw raws) = do
    one ← bind family sql_type raw
    (texts, params) ← bind_all family sql_type raws
    ok (List.◌∷◌ one.sql texts, List.◌++◌ one.params params)

abbrev pub like_pattern : Pattern → String → String
like_pattern pat_contains escaped = "%" ++ (escaped ++ "%")
like_pattern pat_starts escaped = escaped ++ "%"
like_pattern pat_ends escaped = "%" ++ escaped
like_pattern pat_exact escaped = escaped

abbrev pub text_of : Value → String
text_of (string s) = s
text_of _ = ""

abbrev pub items_of : Value → Items
items_of (array items) = items
items_of _ = nil

unfoldable pub count_items : Items → ℕ
count_items nil = 0
count_items (cons x xs) = suc (count_items xs)

unfoldable pub all_scalar : Items → Bool
all_scalar nil = true
all_scalar (cons x xs) = is_scalar x && all_scalar xs

abbrev pub entries_of : Value → Entries
entries_of (object entries) = entries
entries_of _ = end

-- `Object.keys(range).length`
unfoldable pub count_entries : Entries → ℕ
count_entries end = 0
count_entries (entry key v es) = suc (count_entries es)

-- `range[name]`, undefined without that key
unfoldable pub get_entry : String → Entries → Value
get_entry name end = undefined
get_entry name (entry key v es) = if str_eq key name then v else get_entry name es

-- exactly the keys `min` and `max`, with scalars
abbrev is_range : Entries → Bool
is_range es =
    count_entries es == 2 && (is_scalar (get_entry "min" es) && is_scalar (get_entry "max" es))

-- What a criterion is compiled with: its column, quoted, with the family and the type, and the value.
pub record Context : Type 0 where
  pub js : Platform
  pub limits : Limits
  pub quoted : String
  pub family : SqlTypeFamily
  pub sql_type : String

module _ (c : Context) where
  open c use {js, limits, quoted, family, sql_type}

  abbrev pub compile_valueless : String → Value → Checked CompiledFilter
  compile_valueless keyword value = do
    require (is_absent value) takes_no_value
    ok (record { sql = quoted ++ (" " ++ keyword); params = List.[] })

  abbrev pub compile_like : String → Pattern → Value → Checked CompiledFilter
  compile_like operator pattern value = do
    require (not (is_empty_text (text_of value))) requires_text
    ok (record {
      sql = quoted ++ (" " ++ (operator ++ " ? ESCAPE '\\'"));
      params = List.◌∷◌ (string (like_pattern pattern (escape_like (text_of value)))) List.[];
    })

  abbrev pub compile_matches : Value → Checked CompiledFilter
  compile_matches value = do
    require (not (is_empty_text (text_of value))) requires_text
    require (leb (js.utf16_length (text_of value)) limits.max_pattern_length) pattern_too_long
    require (is_re2_compatible (text_of value)) unsupported_pattern
    ok (record {
      sql = "regexp_matches(" ++ (quoted ++ ", ?)");
      params = List.◌∷◌ (string (text_of value)) List.[];
    })

  abbrev pub compile_between : String → Entries → Checked CompiledFilter
  compile_between keyword range = do
    require (is_range range) requires_range
    low ← bind js family sql_type (get_entry "min" range)
    high ← bind js family sql_type (get_entry "max" range)
    ok (record {
      sql = quoted ++ (" " ++ (keyword ++ (" " ++ (low.sql ++ (" AND " ++ high.sql)))));
      params = List.◌++◌ low.params high.params;
    })

  abbrev pub compile_in : String → Items → Checked CompiledFilter
  compile_in keyword items = do
    require (ltb 0 (count_items items)) requires_array
    require (leb (count_items items) limits.max_in_values) too_many_values
    require (all_scalar items) requires_scalars
    (texts, params) ← bind_all js family sql_type items
    ok (record {
      sql = quoted ++ (" " ++ (keyword ++ (" (" ++ (join ", " texts ++ ")"))));
      params = params;
    })

  abbrev pub compile_comparison : String → Value → Checked CompiledFilter
  compile_comparison operator value = do
    require (is_scalar value) requires_scalar
    one ← bind js family sql_type value
    ok (record { sql = quoted ++ (" " ++ (operator ++ (" " ++ one.sql))); params = one.params })

  unfoldable pub compile_shape : Shape → Value → Checked CompiledFilter
  unfolding count_items all_scalar count_entries get_entry bind_all escape_like
  compile_shape (valueless keyword) value = compile_valueless keyword value
  compile_shape (like operator pattern) value = compile_like operator pattern value
  compile_shape matches value = compile_matches value
  compile_shape (between keyword) value = compile_between keyword (entries_of value)
  compile_shape (in_list keyword) value = compile_in keyword (items_of value)
  compile_shape (comparison operator) value = compile_comparison operator value

-- `metadataByName`: the `sqlType` of each column
abbrev pub Metadata : Type 0
Metadata = Map Value

abbrev pub known_column : Option Value → Checked Value
known_column none = refused unknown_column
known_column (some v) = ok v

-- An operation that is not one of the enum is in no list of allowed ones.
abbrev pub allowed_operation : SqlTypeFamily → Option FilterOperation → Checked FilterOperation
allowed_operation family none = refused operation_not_allowed
allowed_operation family (some op) =
    if includes_operation (allowed_operations family) op
    then ok op
    else refused operation_not_allowed

module _ (js : Platform) (limits : Limits) (metadata : Metadata) where
  unfoldable pub compile_criterion : FilterCriterion → Checked CompiledFilter
  unfolding filter_variable lookup sql_type_family includes_operation shape_of_operation
  compile_criterion criterion = do
    column ← filter_variable criterion.variable
    meta ← known_column (lookup column metadata)
    let sql_type = normalize_sql_type js (text_of meta)
    let family = sql_type_family sql_type
    op ← allowed_operation family criterion.operation
    compile_shape
        (record {
          js = js;
          limits = limits;
          quoted = quote_ident column;
          family = family;
          sql_type = sql_type;
        })
        (shape_of_operation op) criterion.value
