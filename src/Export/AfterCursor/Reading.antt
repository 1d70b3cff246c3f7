-- ===== src/Export/AfterCursor/Reading.antt =====
-- The text of the resume predicate, read as an SQL condition with its placeholders.
use Prim.Native.String.{◌++◌}
use mathlib.Core.List
use dashboard_template_api.Common.{Option, none, some, List, [], ◌∷◌, String}
use dashboard_template_api.Utils.Identifiers.{quote_ident}
use dashboard_template_api.Export.AfterCursor.{Direction, asc, desc, KeyColumn, KeyValue, Term}
use dashboard_template_api.Export.AfterCursor.Resume.{
  Truth, no_t, unknown, of_bool, and_t, or_t, Values, Row, not_distinct, is_null,
}

-- An SQL condition on the columns of a row. A placeholder has the text that is bound to it.
pub data Condition : Type 0 where
  never : Condition
  greater less : String → String → Condition
  same : String → Option String → Condition
  null : String → Condition
  both either : Condition → Condition → Condition
  grouped : Condition → Condition

-- How SQL writes a condition; AND binds tighter than OR.
unfoldable pub written : Condition → String
written never = "FALSE"
written (greater field text) = quote_ident field ++ " > ?"
written (less field text) = quote_ident field ++ " < ?"
written (same field text) = quote_ident field ++ " IS NOT DISTINCT FROM ?"
written (null field) = quote_ident field ++ " IS NULL"
written (both a b) = written a ++ (" AND " ++ written b)
written (either a b) = written a ++ (" OR " ++ written b)
written (grouped a) = "(" ++ (written a ++ ")")

-- The texts bound to the placeholders, from left to right.
unfoldable pub binds : Condition → List (Option String)
binds never = []
binds (greater field text) = some text ∷ []
binds (less field text) = some text ∷ []
binds (same field text) = text ∷ []
binds (null field) = []
binds (both a b) = List.◌++◌ (binds a) (binds b)
binds (either a b) = List.◌++◌ (binds a) (binds b)
binds (grouped a) = binds a

module _ (d : Values) where
  abbrev above : Option d.Value → d.Value → Truth
  above none v = unknown
  above (some c) v = of_bool (d.lt v c)

  abbrev below : Option d.Value → d.Value → Truth
  below none v = unknown
  below (some c) v = of_bool (d.lt c v)

  abbrev value_of : String → Option String → Option d.Value
  value_of field none = none
  value_of field (some text) = some (d.read field text)

  -- The truth value of a condition at a row.
  unfoldable pub meaning : Row d → Condition → Truth
  meaning row never = no_t
  meaning row (greater field text) = above (row field) (d.read field text)
  meaning row (less field text) = below (row field) (d.read field text)
  meaning row (same field text) = of_bool (not_distinct d (row field) (value_of field text))
  meaning row (null field) = is_null d (row field)
  meaning row (both a b) = and_t (meaning row a) (meaning row b)
  meaning row (either a b) = or_t (meaning row a) (meaning row b)
  meaning row (grouped a) = meaning row a

abbrev beyond : Direction → String → String → Condition
beyond asc field text = greater field text
beyond desc field text = less field text

abbrev after_condition : KeyColumn → String → Condition
after_condition k text = grouped (either (beyond k.order k.field text) (null k.field))

abbrev all_conditions : List KeyValue → Condition → Condition
all_conditions [] c = c
all_conditions (kv ∷ kvs) c = both (same kv.0.field kv.1) (all_conditions kvs c)

abbrev term_condition : Term → Condition
term_condition t = grouped (all_conditions t.earlier (after_condition t.key t.value))

abbrev some_condition : List Term → Condition
some_condition [] = never
some_condition (t ∷ []) = term_condition t
some_condition (t ∷ u ∷ ts) = either (term_condition t) (some_condition (u ∷ ts))
