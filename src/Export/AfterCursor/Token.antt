-- ===== src/Export/AfterCursor/Token.antt =====
-- src/export/after-cursor.ts, the `after` token: encoding, decoding with its checks, and the check against the request's order.
pub mod RoundTrip
use mathlib.Core.Bool.{Bool, true, false, ◌&&◌}
use dashboard_template_api.Common.{
  ℕ, suc, ◌≡◌, refl, ◌≢◌, Option, none, some, List, [], ◌∷◌, map, String, arith, ◌==◌,
  if◌then◌else◌, length, str_eq, eq_iff,
}
use dashboard_template_api.Export.AfterCursor.{Direction, asc, desc, KeyColumn, direction_sql}

-- A parsed JSON document.
mutual
  pub data Json : Type 0 where
    null : Json
    bool : Bool → Json
    number : ℕ → Json
    string : String → Json
    array : Items → Json
    object : Fields → Json

  pub data Items : Type 0 where
    nil : Items
    cons : Json → Items → Items

  pub data Fields : Type 0 where
    end : Fields
    field : String → Json → Fields → Fields

-- base64url over `JSON.stringify`, and the two ways back; what was written is read back.
pub record Codec : Type 1 where
  pub Text : Type 0
  pub stringify : Json → Text
  pub parse : Text → Option Json
  pub parse_stringify : (j : Json) → parse (stringify j) ≡ some j

pub record ExportCursor : Type 0 where
  pub order : List (String × Direction)
  pub values : List (Option String)

pub data CursorError : Type 0 where
  bad_token other_order : CursorError

pub data Decoded : Type 0 where
  ok : ExportCursor → Decoded
  refused : CursorError → Decoded

abbrev pair_json : KeyColumn → Json
pair_json k = array (cons (string k.field) (cons (string (direction_sql k.order)) nil))

abbrev value_json : Option String → Json
value_json none = null
value_json (some v) = string v

abbrev pub items_of {ℓ} : {A : Type ℓ} → (A → Json) → List A → Items
items_of f [] = nil
items_of f (x ∷ xs) = cons (f x) (items_of f xs)

pub document : List KeyColumn → List (Option String) → Json
document order values = object (
    field "s" (array (items_of pair_json order))
      (field "k" (array (items_of value_json values)) end))

-- `document.s`, undefined without such a field; a parsed object has each name once
unfoldable pub get_field : String → Fields → Option Json
get_field name end = none
get_field name (field key j fs) = if str_eq key name then some j else get_field name fs

abbrev fields_of : Json → Fields
fields_of (object fs) = fs
fields_of j = end

abbrev pub direction_of : String → Option Direction
direction_of s = if str_eq s "ASC" then some asc else if str_eq s "DESC" then some desc else none

infixl 5 ◌>>=◌
abbrev ◌>>=◌ {ℓ κ} : {A : Type ℓ} {B : Type κ} → Option A → (A → Option B) → Option B
none >>= k = none
some a >>= k = k a

-- one checked pair of `s`
abbrev pub pair_of : Json → Option (String × Direction)
pair_of (array (cons (string name) (cons (string dir) nil))) = do
  o ← direction_of dir
  some (name, o)
pair_of j = none

-- one checked value of `k`
abbrev pub value_of : Json → Option (Option String)
value_of null = some none
value_of (string v) = some (some v)
value_of j = none

-- `every`, with what passed
unfoldable pub all_of {ℓ} : {A : Type ℓ} → (Json → Option A) → Items → Option (List A)
all_of f nil = some []
all_of f (cons j js) = do a ← f j; rest ← all_of f js; some (a ∷ rest)

abbrev array_of : Option Json → Option Items
array_of (some (array js)) = some js
array_of _ = none

abbrev non_empty {ℓ} : {A : Type ℓ} → List A → Option (List A)
non_empty [] = none
non_empty (x ∷ xs) = some (x ∷ xs)

-- `k.length !== s.length` is refused
abbrev aligned : List (String × Direction) → List (Option String) → Option ExportCursor
aligned order values =
    if length values == length order then some (record { order = order; values = values }) else none

unfoldable pub shape_of : Json → Option ExportCursor
unfolding get_field all_of
shape_of j = do
  s ← array_of (get_field "s" (fields_of j))
  k ← array_of (get_field "k" (fields_of j))
  pairs ← all_of pair_of s
  order ← non_empty pairs
  values ← all_of value_of k
  aligned order values

abbrev decoded : Option ExportCursor → Decoded
decoded none = refused bad_token
decoded (some c) = ok c

module _ (codec : Codec) where
  unfoldable pub encode_cursor : List KeyColumn → List (Option String) → codec.Text
  unfolding document
  encode_cursor order values = codec.stringify (document order values)

  unfoldable pub decode_cursor : codec.Text → Decoded
  unfolding shape_of
  decode_cursor token = decoded (codec.parse token >>= shape_of)

abbrev pub pair : KeyColumn → String × Direction
pair k = (k.field, k.order)

abbrev same_direction : Direction → Direction → Bool
same_direction asc asc = true
same_direction desc desc = true
same_direction _ _ = false

-- the `every` of `assertCursorOrder`, on orders of one length
unfoldable pub same_columns : List (String × Direction) → List KeyColumn → Bool
same_columns [] ks = true
same_columns (p ∷ ps) [] = false
same_columns ((name, dir) ∷ ps) (k ∷ ks) =
    str_eq name k.field && same_direction dir k.order && same_columns ps ks

unfoldable pub assert_cursor_order : ExportCursor → List KeyColumn → Option CursorError
unfolding same_columns
assert_cursor_order c order =
    if length c.order == length order && same_columns c.order order then none else some other_order
