-- ===== src/Export/AfterCursor/Token/RoundTrip.antt =====
-- A token that was issued is read back, and is accepted under its own order alone.
use dashboard_template_api.Common.{
  suc, ◌≡◌, refl, sym, &&_split, ◌∙◌, ap, ◌≢◌, ◌↔◌, Bool, true, false, Option, none, some, List, [],
  ◌∷◌, map, String, arith, ==_iff, if◌then◌else◌, length, eq_iff,
}
use dashboard_template_api.Export.AfterCursor.{Direction, asc, desc, KeyColumn, direction_sql}
use dashboard_template_api.Export.AfterCursor.Token.{
  Codec, ExportCursor, ok, pair_json, value_json, pair_of, value_of, items_of, all_of, document,
  direction_of, same_direction, other_order, encode_cursor, decode_cursor, pair, same_columns,
  assert_cursor_order,
}

direction_of-direction_sql : (o : Direction) → direction_of (direction_sql o) ≡ some o
direction_of-direction_sql asc = refl
direction_of-direction_sql desc = refl

all_of-pairs :
    (order : List KeyColumn) → all_of pair_of (items_of pair_json order) ≡ some (map pair order)
unfolding all_of
all_of-pairs [] = refl
all_of-pairs (k ∷ ks) = rw (direction_of-direction_sql k.order, all_of-pairs ks)

all_of-values :
    (values : List (Option String)) → all_of value_of (items_of value_json values) ≡ some values
unfolding all_of
all_of-values [] = refl
all_of-values (none ∷ vs) = rw (all_of-values vs)
all_of-values (some v ∷ vs) = rw (all_of-values vs)

length-pairs : (order : List KeyColumn) → length (map pair order) ≡ length order
length-pairs [] = refl
length-pairs (k ∷ ks) = ap suc (length-pairs ks)

same_direction-eq : (a b : Direction) → same_direction a b ≡ true → a ≡ b
same_direction-eq asc asc h = refl
same_direction-eq desc desc h = refl
same_direction-eq asc desc h = cc
same_direction-eq desc asc h = cc

same_direction_refl : (a : Direction) → same_direction a a ≡ true
same_direction_refl asc = refl
same_direction_refl desc = refl

same_columns-eq :
    (ps : List (String × Direction)) (ks : List KeyColumn)
    → length ps ≡ length ks
    → same_columns ps ks ≡ true
    → ps ≡ map pair ks
unfolding same_columns
same_columns-eq [] [] e h = refl
same_columns-eq [] (k ∷ ks) e h = absurd (omega arith)
same_columns-eq (p ∷ ps) [] e h = absurd (omega arith)
same_columns-eq ((name, dir) ∷ ps) (k ∷ ks) e h =
    ground (arith, eq_iff name k.field, same_direction-eq dir k.order, same_columns-eq ps ks)

same_columns-pairs : (ks : List KeyColumn) → same_columns (map pair ks) ks ≡ true
unfolding same_columns
same_columns-pairs [] = refl
same_columns-pairs (k ∷ ks) =
    ground (arith, eq_iff k.field k.field, same_direction_refl k.order, same_columns-pairs ks)

tests_passed : (b : Bool) → (if b then none else some other_order) ≡ none → b ≡ true
tests_passed true h = refl
tests_passed false h = cc

-- Decoding an issued token gives the order and the key that it was issued for, for a non-empty
-- order with one value for each column.
pub decode_cursor-encode_cursor :
    (codec : Codec) (order : List KeyColumn) (values : List (Option String))
    → order ≢ []
    → length values ≡ length order
    → decode_cursor codec (encode_cursor codec order values)
      ≡ ok (record { order = map pair order; values = values })
unfolding decode_cursor encode_cursor
decode_cursor-encode_cursor codec [] values h e = absurd (h refl)
decode_cursor-encode_cursor codec (k ∷ ks) values h e = rw (
  codec.parse_stringify (document (k ∷ ks) values),
  direction_of-direction_sql k.order,
  all_of-pairs ks,
  all_of-values values,
  (==_iff (length values) (length (map pair (k ∷ ks)))).1 (e ∙ sym (length-pairs (k ∷ ks))),
)

-- A cursor is accepted exactly under the order that it names.
pub assert_cursor_order_iff :
    (c : ExportCursor) (order : List KeyColumn)
    → (assert_cursor_order c order ≡ none) ↔ (c.order ≡ map pair order)
unfolding assert_cursor_order
assert_cursor_order_iff c order = (
  λ h.
      let (same_length, same) = &&_split _ _ (tests_passed _ h) in
      same_columns-eq c.order order ((==_iff _ _).0 same_length) same,
  λ e. rw (e, (==_iff _ _).1 (length-pairs order), same_columns-pairs order),
)
