-- ===== src/Security/Complexity/Tests.antt =====
-- An operation with a limit, a fragment at its root and a field whose limit is left out.
use dashboard_template_api.Common.{
  ℕ, ◌+◌, ◌*◌, ◌^◌, ◌≤◌, max, min, ◌≡◌, refl, Bool, true, false, none, some, [], ◌∷◌, String,
  str_eq, if◌then◌else◌, leb, arith,
}
use mathlib.Core.Path.{subst}
use dashboard_template_api.Common.Map.{lookup}
use dashboard_template_api.Security.Complexity.Values.{
  Numbers, Laws, number, string, array, item, empty_array, int_node, other_node, Runtime,
}
use dashboard_template_api.Security.Complexity.Costs.{
  ComplexityAnalyzerConfig, PaginationConfig, configure, argument_value,
}
use dashboard_template_api.Security.Complexity.Charges.{PositiveIfGiven, IsScale}
use dashboard_template_api.Security.Complexity.Score.{
  FieldNode, plain_field, object_field, SelectionSet, end_of_set, with_field, with_inline,
  with_spread, FragmentMap, root_fields, count_root_fields,
}
use dashboard_template_api.Security.Complexity.Operation.{
  Operation, ScoringOptions, with_default_values, default_limit_of, calculate_for_operation,
}
use dashboard_template_api.Security.Complexity.Ending.{IsRanked, SetBelow}
use dashboard_template_api.Security.Complexity.Charged.{
  OperationCharged, calculate_for_operation-OperationCharged,
}

runs : Unit {0}
unfolding calculate_for_operation default_limit_of root_fields count_root_fields configure lookup
    SetBelow argument_value
runs = tt

-- whole numbers, the digits behind the point not told apart
abbrev naturals : Numbers
naturals = record {
  Number = ℕ;
  decimal = λ digits places. digits;
  plus = λ a b. a + b;
  times = λ a b. a * b;
  smaller = λ a b. min a b;
  larger = λ a b. max a b;
  pow = λ a depth. a ^ depth;
  is_zero = λ a. leb a 0;
  is_finite = λ a. true;
  parse_int = λ text. if str_eq text "50" then 50 else 0;
  parse_float = λ text. 0;
}

least : (a : ℕ) → 0 ≤ a
least a = omega arith

plus_left : (a b : ℕ) → a ≤ a + b
plus_left a b = omega arith

plus_right : (a b : ℕ) → b ≤ a + b
plus_right a b = omega arith

abbrev natural_laws : Laws naturals
natural_laws = record {
  Le = λ a b. a ≤ b;
  le_refl = λ a. ≤-same a;
  le_trans = λ a b c p q. ≤-chain a b c p q;
  le_plus_left = λ a b h. plus_left a b;
  le_plus_right = λ a b h. plus_right a b;
  decimal_positive = λ digits places. least digits;
  times_positive = λ a b ha hb. least (a * b);
  pow_positive = λ a depth h. least (a ^ depth);
  smaller_positive = λ a b ha hb. least (min a b);
  larger_positive = λ a. least (max a 0);
}
  where
    ≤-same : (a : ℕ) → a ≤ a
    ≤-same a = omega arith

    ≤-chain : (a b c : ℕ) → a ≤ b → b ≤ c → a ≤ c
    ≤-chain a b c p q = omega (arith, p, q)

abbrev runtime : Runtime naturals
runtime = record {
  value_from_ast_untyped = λ node variables. some (array (item (string "region") empty_array));
  other_text = λ held. "";
}

abbrev scale : ComplexityAnalyzerConfig naturals
scale = configure naturals [] (some (("getFactTable", 8) ∷ []))

abbrev pagination : PaginationConfig naturals
pagination = record { max_limit = some 1000; default_limit = some 30 }

scale-IsScale : IsScale naturals natural_laws scale pagination
unfolding runs
scale-IsScale = record {
  scalar = least _;
  nested = least _;
  factor = least _;
  introspection = least _;
  row = least _;
  stats = least _;
  aggregate = least _;
  holistic = least _;
  group = least _;
  default_root = least _;
  roots = (least 8, tt);
  max_rows = least 1000;
  default_rows = least 30;
}

abbrev options : ScoringOptions naturals
options = record { schema = some (λ name. some (number 20)); columns = none }

limits :
    (f : FieldNode)
    → PositiveIfGiven naturals natural_laws
        (default_limit_of naturals runtime pagination f options.schema)
unfolding runs
limits f = least 20

abbrev table : SelectionSet
table = with_field (plain_field "getFactTable" []) end_of_set

abbrev fragments : FragmentMap
fragments = ("Table", table) ∷ []

abbrev operation : Operation
operation = record {
  variable_definitions = [];
  selections =
      with_field
        (object_field "getAggregates"
          (("limit", int_node "50") ∷ ("groupBy", other_node "ListValue") ∷ [])
          (with_field (plain_field "total" []) end_of_set))
        (with_inline (with_spread "Table" end_of_set) (with_spread "Table" end_of_set));
}

calculate_for_operation-operation :
    calculate_for_operation naturals runtime scale pagination operation fragments [] options 1
    ≡ some 86
unfolding runs
calculate_for_operation-operation = refl

-- a fragment spread twice at the root is expanded once
count_root_fields-operation :
    count_root_fields (str_eq "__typename") fragments 1 operation.selections ≡ some 2
unfolding runs
count_root_fields-operation = refl

abbrev rank : String → ℕ
rank name = 0

table_below :
    (b : Bool) (set : SelectionSet)
    → (if b then some table else none) ≡ some set
    → SetBelow rank 0 set
unfolding runs
table_below true set e = subst (λ m. SetBelow rank 0 m) (table_same set e) (tt, tt)
  where
    table_same : (set : SelectionSet) → some table ≡ some set → table ≡ set
    table_same set e = cc
table_below false set e = cc

fragments-IsRanked : IsRanked rank fragments
unfolding runs
fragments-IsRanked name set e = table_below (str_eq "Table" name) set e

operation-SetBelow : SetBelow rank 1 operation.selections
unfolding runs
operation-SetBelow = ((tt, tt), ((omega arith, tt), (omega arith, tt)))

calculate_for_operation-OperationCharged_example :
    OperationCharged naturals natural_laws runtime scale pagination scale-IsScale options limits
      fragments
      (with_default_values naturals runtime [] [])
      (root_fields fragments 1 operation.selections)
      (calculate_for_operation naturals runtime scale pagination operation fragments [] options 1)
calculate_for_operation-OperationCharged_example =
    calculate_for_operation-OperationCharged naturals natural_laws runtime scale pagination
      scale-IsScale options limits fragments rank fragments-IsRanked 1 operation []
      operation-SetBelow
