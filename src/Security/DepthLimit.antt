-- ===== src/Security/DepthLimit.antt =====
-- src/security/depth-limit.ts: the depth of an operation. The parsed document is GraphQL's; `fuel`
-- bounds how many named fragments are entered within one another.
pub mod Depth
pub mod Tests
use dashboard_template_api.Common.{
  ℕ, zero, suc, ◌+◌, max, Bool, true, false, Option, none, some, List, [], ◌∷◌, String, ltb,
  if◌then◌else◌,
}
use dashboard_template_api.Common.Map.{Map, lookup}

-- `SelectableNode` and its selections; a field may have no selection set.
mutual
  pub data Node : Type 0 where
    leaf : Node
    selecting : Selections → Node

  pub data Selections : Type 0 where
    no_more : Selections
    field inline_fragment : Node → Selections → Selections
    fragment_spread : String → Selections → Selections

-- `context.getFragment`
abbrev pub Fragments : Type 0
Fragments = Map Node

abbrev pub deeper : Option ℕ → Option ℕ → Option ℕ
deeper none b = none
deeper (some a) none = none
deeper (some a) (some b) = some (max a b)

-- the depth within a fragment, or the current one where there is no such fragment
abbrev pub spread_depth : (Node → Option ℕ) → Option Node → ℕ → Option ℕ
spread_depth enter none current = some current
spread_depth enter (some fragment) current = enter fragment

-- `calculateNodeDepth`, with what entering a fragment gives; none stands for a recursion that has not
-- ended.
unfoldable mutual
  pub depth_of : (ℕ → String → Option ℕ) → Node → ℕ → Option ℕ
  depth_of enter leaf current = some current
  depth_of enter (selecting selections) current = deepest enter selections current

  -- `Math.max(...depths, currentDepth)`
  pub deepest : (ℕ → String → Option ℕ) → Selections → ℕ → Option ℕ
  deepest enter no_more current = some current
  deepest enter (field n rest) current =
      deeper (depth_of enter n (suc current)) (deepest enter rest current)
  deepest enter (inline_fragment n rest) current =
      deeper (depth_of enter n current) (deepest enter rest current)
  deepest enter (fragment_spread name rest) current =
      deeper (enter current name) (deepest enter rest current)

unfoldable pub enter_fragment : Fragments → ℕ → ℕ → String → Option ℕ
unfolding depth_of lookup
enter_fragment fragments zero current name = elim (lookup name fragments) [
  | none ↦ some current
  | some n ↦ none
]
enter_fragment fragments (suc fuel) current name =
    spread_depth (λ n. depth_of (enter_fragment fragments fuel) n current) (lookup name fragments)
      current

unfoldable pub calculate_node_depth : Fragments → ℕ → Node → ℕ → Option ℕ
unfolding depth_of enter_fragment
calculate_node_depth fragments fuel n current = depth_of (enter_fragment fragments fuel) n current

-- `Document`: the depth of each operation that exceeds the limit
unfoldable pub depth_limit_errors : Fragments → ℕ → ℕ → List Node → Option (List ℕ)
unfolding calculate_node_depth
depth_limit_errors fragments fuel max_depth [] = some []
depth_limit_errors fragments fuel max_depth (operation ∷ operations) =
    report max_depth (calculate_node_depth fragments fuel operation 0)
      (depth_limit_errors fragments fuel max_depth operations)
  where
    report : ℕ → Option ℕ → Option (List ℕ) → Option (List ℕ)
    report max_depth none errors = none
    report max_depth (some depth) none = none
    report max_depth (some depth) (some errors) =
        some (if ltb max_depth depth then depth ∷ errors else errors)
