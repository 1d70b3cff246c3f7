-- ===== src/Security/DepthLimit/Tests.antt =====
-- An operation with a named fragment, and one whose fragment spreads itself.
use dashboard_template_api.Common.{
  Bool, ℕ, ◌≡◌, refl, ◌≢◌, none, some, [], ◌∷◌, String, arith, str_eq, if◌then◌else◌, true, false,
}
use mathlib.Core.Path.{subst}
use dashboard_template_api.Common.Map.{lookup}
use dashboard_template_api.Security.DepthLimit.{
  Node, leaf, selecting, no_more, field, fragment_spread, Fragments, depth_of, enter_fragment,
  calculate_node_depth, depth_limit_errors,
}
use dashboard_template_api.Security.DepthLimit.Depth.{
  SpreadsBelow, IsAcyclic, calculate_node_depth-ends, spreads, calculate_node_depth-cycle,
}

runs : Unit {0}
unfolding calculate_node_depth depth_of enter_fragment depth_limit_errors lookup SpreadsBelow
runs = tt

abbrev fragments : Fragments
fragments = ("Row", selecting (field (selecting (field leaf no_more)) no_more)) ∷ []

abbrev operation : Node
operation = selecting (field (selecting (fragment_spread "Row" no_more)) no_more)

calculate_node_depth-operation : calculate_node_depth fragments 1 operation 0 ≡ some 3
unfolding runs
calculate_node_depth-operation = refl

depth_limit_errors-operation : depth_limit_errors fragments 1 2 (operation ∷ []) ≡ some (3 ∷ [])
unfolding runs
depth_limit_errors-operation = refl

abbrev rank : String → ℕ
rank name = 0

abbrev row : Node
row = selecting (field (selecting (field leaf no_more)) no_more)

row_below : (b : Bool) (n : Node) → (if b then some row else none) ≡ some n → SpreadsBelow rank 0 n
unfolding runs
row_below true n e = subst (λ m. SpreadsBelow rank 0 m) (row_same n e) ((tt, tt), tt)
  where
    row_same : (n : Node) → some row ≡ some n → row ≡ n
    row_same n e = cc
row_below false n e = cc

fragments-IsAcyclic : IsAcyclic rank fragments
unfolding runs
fragments-IsAcyclic name n e = row_below (str_eq "Row" name) n e

operation-SpreadsBelow : SpreadsBelow rank 1 operation
unfolding runs
operation-SpreadsBelow = ((omega arith, tt), tt)

calculate_node_depth-ends_example : calculate_node_depth fragments 1 operation 0 ≢ none
calculate_node_depth-ends_example =
    calculate_node_depth-ends rank fragments fragments-IsAcyclic 1 operation 0
      operation-SpreadsBelow

-- A fragment that spreads itself below a field, beside a leaf.
abbrev nested : Node
nested = selecting (field leaf (field (selecting (fragment_spread "Row" no_more)) no_more))

calculate_node_depth-cycle_example :
    calculate_node_depth (("Row", nested) ∷ []) 100 (selecting (field nested no_more)) 0 ≡ none
unfolding spreads lookup
calculate_node_depth-cycle_example =
    calculate_node_depth-cycle (("Row", nested) ∷ []) "Row" nested
      (selecting (field nested no_more)) 100 0 refl refl refl
