-- ===== src/Security/Complexity/Values.antt =====
-- src/security/complexity-analyzer.ts: the numbers it computes with, and the values of arguments and
-- variables. The numbers are JavaScript's, of which the code uses the operations listed here.
use dashboard_template_api.Common.{
  ℕ, Bool, true, false, not, Option, List, [], ◌∷◌, String, str_eq, if◌then◌else◌,
}
use dashboard_template_api.Common.Map.{Map}

pub record Numbers : Type 1 where
  pub Number : Type 0
  -- the number with these digits, so many of them behind the point
  pub decimal : ℕ → ℕ → Number
  pub plus : Number → Number → Number
  pub times : Number → Number → Number
  pub smaller : Number → Number → Number
  pub larger : Number → Number → Number
  -- `Math.pow(factor, depth)`
  pub pow : Number → ℕ → Number
  pub is_zero : Number → Bool
  pub is_finite : Number → Bool
  pub parse_int : String → Number
  pub parse_float : String → Number

-- What the code relies on: sums, products, powers and bounds of numbers that are not negative.
pub record Laws (N : Numbers) : Type 1 where
  pub Le : N.Number → N.Number → Type 0
  pub le_refl : (a : N.Number) → Le a a
  pub le_trans : (a b c : N.Number) → Le a b → Le b c → Le a c
  pub le_plus_left : (a b : N.Number) → Le (N.decimal 0 0) b → Le a (N.plus a b)
  pub le_plus_right : (a b : N.Number) → Le (N.decimal 0 0) a → Le b (N.plus a b)
  pub decimal_positive : (digits places : ℕ) → Le (N.decimal 0 0) (N.decimal digits places)
  pub times_positive :
      (a b : N.Number)
      → Le (N.decimal 0 0) a
      → Le (N.decimal 0 0) b
      → Le (N.decimal 0 0) (N.times a b)
  pub pow_positive :
      (a : N.Number) (depth : ℕ) → Le (N.decimal 0 0) a → Le (N.decimal 0 0) (N.pow a depth)
  pub smaller_positive :
      (a b : N.Number)
      → Le (N.decimal 0 0) a
      → Le (N.decimal 0 0) b
      → Le (N.decimal 0 0) (N.smaller a b)
  pub larger_positive : (a : N.Number) → Le (N.decimal 0 0) (N.larger a (N.decimal 0 0))

-- A value of a variable or of an argument; a field that an object lacks is undefined.
mutual
  pub data JsValue (Number : Type 0) : Type 0 where
    undefined null : JsValue Number
    number : Number → JsValue Number
    string : String → JsValue Number
    boolean : Bool → JsValue Number
    array : JsArray Number → JsValue Number
    object : JsFields Number → JsValue Number

  pub data JsArray (Number : Type 0) : Type 0 where
    empty_array : JsArray Number
    item : JsValue Number → JsArray Number → JsArray Number

  pub data JsFields (Number : Type 0) : Type 0 where
    empty_object : JsFields Number
    property : String → JsValue Number → JsFields Number → JsFields Number

-- `ValueNode`: a literal of the document; `other_node` is one of any kind not named here.
pub data ValueNode : Type 0 where
  variable_node int_node float_node other_node : String → ValueNode
  null_node : ValueNode

-- The language and GraphQL: `valueFromASTUntyped`, none where it throws, and the text that `String`
-- makes of a value that is not a string.
pub record Runtime (N : Numbers) : Type 0 where
  pub value_from_ast_untyped : ValueNode → Map (JsValue N.Number) → Option (JsValue N.Number)
  pub other_text : JsValue N.Number → String

unfoldable pub property_of : {Number : Type 0} → String → JsFields Number → JsValue Number
property_of name empty_object = undefined
property_of name (property key held rest) =
    let later = property_of name rest in if str_eq key name then held else later

-- `value.kind`
unfoldable pub kind_of : {Number : Type 0} → JsValue Number → JsValue Number
unfolding property_of
kind_of (object fields) = property_of "kind" fields
kind_of undefined = undefined
kind_of null = undefined
kind_of (number n) = undefined
kind_of (string s) = undefined
kind_of (boolean b) = undefined
kind_of (array items) = undefined

unfoldable pub is_text : {Number : Type 0} → String → JsValue Number → Bool
is_text wanted (string s) = str_eq s wanted
is_text wanted undefined = false
is_text wanted null = false
is_text wanted (number n) = false
is_text wanted (boolean b) = false
is_text wanted (array items) = false
is_text wanted (object fields) = false

-- `value === undefined || value === null`
unfoldable pub is_nullish : {Number : Type 0} → JsValue Number → Bool
is_nullish undefined = true
is_nullish null = true
is_nullish (number n) = false
is_nullish (string s) = false
is_nullish (boolean b) = false
is_nullish (array items) = false
is_nullish (object fields) = false

module _ (N : Numbers) where
  -- `String(value)`
  unfoldable pub string_of : Runtime N → JsValue N.Number → String
  string_of runtime (string s) = s
  string_of runtime undefined = runtime.other_text undefined
  string_of runtime null = runtime.other_text null
  string_of runtime (number n) = runtime.other_text (number n)
  string_of runtime (boolean b) = runtime.other_text (boolean b)
  string_of runtime (array items) = runtime.other_text (array items)
  string_of runtime (object fields) = runtime.other_text (object fields)

  -- whether a value counts as true
  unfoldable pub is_truthy : JsValue N.Number → Bool
  is_truthy undefined = false
  is_truthy null = false
  is_truthy (number n) = not (N.is_zero n)
  is_truthy (string s) = not (str_eq s "")
  is_truthy (boolean b) = b
  is_truthy (array items) = true
  is_truthy (object fields) = true

  unfoldable pub list_of : JsArray N.Number → List (JsValue N.Number)
  list_of empty_array = []
  list_of (item held rest) = held ∷ list_of rest
