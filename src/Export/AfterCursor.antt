-- ===== src/Export/AfterCursor.antt =====
-- src/export/after-cursor.ts: the total order of an export, the predicate that resumes after a key,
-- and the `after` token. `JSON` and base64url are the platform's: `stringify` and `parse` stand for
-- the two of them in a row, and `parse` gives nothing where the source's `try` fails.
pub mod Placeholders
pub mod Resume
pub mod Reading
pub mod Order
pub mod Token
pub mod Tests
use Prim.Native.String.{String, ◌++◌}
use mathlib.Core.List.{flat_map}
use mathlib.Core.List
use dashboard_template_api.Common.{
  ℕ, Bool, true, false, not, ◌&&◌, ◌||◌, Option, none, some, List, [], ◌∷◌, map, ◌==◌, str_eq,
  if◌then◌else◌, length, filter, all,
}
use dashboard_template_api.Utils.Identifiers.{quote_ident, join}

pub data Direction : Type 0 where
  asc desc : Direction

-- `SortItem`
pub record KeyColumn : Type 0 where
  pub field : String
  pub order : Direction

abbrev pub direction_sql : Direction → String
direction_sql asc = "ASC"
direction_sql desc = "DESC"

abbrev pub all_columns_field : String
all_columns_field = ""

abbrev pub is_empty : List String → Bool
is_empty [] = true
is_empty (x ∷ xs) = false

-- `named.has(field)`, over the fields of the explicit sort
unfoldable pub names_field : List KeyColumn → String → Bool
names_field [] field = false
names_field (k ∷ ks) field = str_eq k.field field || names_field ks field

abbrev pub ascending : String → KeyColumn
ascending field = record { field = field; order = asc }

unfoldable pub complete_total_order : List KeyColumn → List String → List String → List KeyColumn
unfolding names_field
complete_total_order sort columns primary_keys =
    let explicit = filter (λ k. not (str_eq k.field all_columns_field)) sort in
    let candidates = if is_empty primary_keys then columns else primary_keys in
    List.◌++◌ explicit
      (map ascending (filter (λ field. not (names_field explicit field)) candidates))

abbrev order_item : KeyColumn → String
order_item k = quote_ident k.field ++ (" " ++ (direction_sql k.order ++ " NULLS LAST"))

unfoldable pub build_order_by : List KeyColumn → String
build_order_by order = "ORDER BY " ++ join ", " (map order_item order)

-- A key column with the key's value there, as DuckDB text; `none` is NULL.
abbrev pub KeyValue : Type 0
KeyValue = KeyColumn × Option String

-- `values[i]` beside `order[i]`: `decodeCursor` has checked that there is one for each column.
abbrev pub zip_values : List KeyColumn → List (Option String) → List KeyValue
zip_values [] vs = []
zip_values (k ∷ ks) [] = []
zip_values (k ∷ ks) (v ∷ vs) = (k, v) ∷ zip_values ks vs

-- One term of the predicate: equality on the columns before, and the column that comes after.
pub record Term : Type 0 where
  pub earlier : List KeyValue
  pub key : KeyColumn
  pub value : String

-- the loop over the columns, with those already passed
unfoldable pub terms_from : List KeyValue → List KeyValue → List Term
terms_from earlier [] = []
terms_from earlier ((k, none) ∷ rest) = terms_from (List.◌++◌ earlier ((k, none) ∷ [])) rest
terms_from earlier ((k, some v) ∷ rest) =
    record { earlier = earlier; key = k; value = v }
    ∷ terms_from (List.◌++◌ earlier ((k, some v) ∷ [])) rest

abbrev pub same_sql : KeyValue → String
same_sql (k, v) = quote_ident k.field ++ " IS NOT DISTINCT FROM ?"

abbrev comparison : Direction → String
comparison asc = ">"
comparison desc = "<"

abbrev pub after_sql : KeyColumn → String
after_sql k =
    "("
    ++ (quote_ident k.field
        ++ (" " ++ (comparison k.order ++ (" ? OR " ++ (quote_ident k.field ++ " IS NULL)")))))

-- `parts.join(' AND ')`
abbrev pub term_sql : Term → String
term_sql t = join " AND " (List.◌++◌ (map same_sql t.earlier) (after_sql t.key ∷ []))

abbrev pub term_params : Term → List (Option String)
term_params t = List.◌++◌ (map (λ (kv : KeyValue). kv.1) t.earlier) (some t.value ∷ [])

pub record SqlFragment : Type 0 where
  pub sql : String
  pub params : List (Option String)

abbrev pub terms_sql : List Term → String
terms_sql [] = "FALSE"
terms_sql (t ∷ ts) = join " OR " (map (λ (u : Term). "(" ++ (term_sql u ++ ")")) (t ∷ ts))

unfoldable pub all_params : List Term → List (Option String)
all_params [] = []
all_params (t ∷ ts) = List.◌++◌ (term_params t) (all_params ts)

unfoldable pub build_after_predicate : List KeyColumn → List (Option String) → SqlFragment
unfolding terms_from all_params
build_after_predicate order values =
    let terms = terms_from [] (zip_values order values) in
    record { sql = terms_sql terms; params = all_params terms }
