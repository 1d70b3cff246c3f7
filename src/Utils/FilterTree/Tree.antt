-- ===== src/Utils/FilterTree/Tree.antt =====
-- src/utils/filter-tree.ts: the validation of a tree, its compilation and the clauses built from it.
use Prim.Native.String.{String, ◌++◌}
use mathlib.Core.List
use dashboard_template_api.Common.{
  ℕ, suc, Bool, true, false, not, Option, none, some, List, [], leb, if◌then◌else◌,
}
use dashboard_template_api.Common.Map.{insert}
use dashboard_template_api.Utils.FilterTree.Input.{
  FilterOperation, FilterConnector, con_and, Value, Field, known, unknown, FilterCriterion,
  FilterNode, not_an_object, node, no_children, not_an_array, children, FilterNodes, no_nodes,
  add_node, Limits, BadInput, not_object, not_exactly_one, invalid_connector, invalid_negate,
  root_not_group, empty_group, too_deep, too_many_criteria, invalid_operation, Checked, ok, refused,
  ◌>>=◌, ◌>>◌, require,
}
use dashboard_template_api.Utils.FilterTree.Typing.{Platform, set_has}
use dashboard_template_api.Utils.FilterTree.Operations.{combine}
use dashboard_template_api.Utils.FilterTree.Values.{is_empty_text, filter_variable}
use dashboard_template_api.Utils.FilterTree.Criterion.{CompiledFilter, Metadata, compile_criterion}

-- `names` and `criteriaCount`, while the tree is walked
pub record Walked : Type 0 where
  pub names : List String
  pub criteria : ℕ

-- `names.add(name)`
unfoldable pub add_name : String → List String → List String
add_name name names = if set_has names name then names else List.◌++◌ names (List.◌∷◌ name List.[])

abbrev pub has_operation : Option FilterOperation → Bool
has_operation none = false
has_operation (some op) = true

abbrev is_known {ℓ} : {A : Type ℓ} → Field A → Bool
is_known unknown = false
is_known field = true

unfoldable pub walk_leaf : Limits → FilterCriterion → Walked → Checked Walked
unfolding filter_variable add_name
walk_leaf limits c w = do
  require (leb (suc w.criteria) limits.max_criteria) too_many_criteria
  require (has_operation c.operation) invalid_operation
  name ← filter_variable c.variable
  ok (record { names = add_name name w.names; criteria = suc w.criteria })

-- the checks of `connector` and `negate`
abbrev pub check_node : Field FilterConnector → Field Bool → Checked (Unit {0})
check_node connector negate = do
  require (is_known connector) invalid_connector
  require (is_known negate) invalid_negate

unfoldable mutual
  unfolding walk_leaf

  pub walk : Limits → FilterNode → ℕ → Bool → Walked → Checked Walked
  walk limits not_an_object depth is_root w = refused not_object
  walk limits (node connector negate none no_children) depth is_root w = refused not_exactly_one
  walk limits (node connector negate (some c) not_an_array) depth is_root w =
      refused not_exactly_one
  walk limits (node connector negate (some c) (children nodes)) depth is_root w =
      refused not_exactly_one
  walk limits (node connector negate (some c) no_children) depth is_root w = do
    check_node connector negate
    require (not is_root) root_not_group
    walk_leaf limits c w
  walk limits (node connector negate none not_an_array) depth is_root w = do
    check_node connector negate
    refused empty_group
  walk limits (node connector negate none (children no_nodes)) depth is_root w = do
    check_node connector negate
    refused empty_group
  walk limits (node connector negate none (children (add_node child nodes))) depth is_root w = do
    check_node connector negate
    require (leb depth limits.max_depth) too_deep
    w1 ← walk limits child (suc depth) false w
    walk_all limits nodes (suc depth) w1

  -- `children.forEach`
  pub walk_all : Limits → FilterNodes → ℕ → Walked → Checked Walked
  walk_all limits no_nodes depth w = ok w
  walk_all limits (add_node child nodes) depth w = do
    w1 ← walk limits child depth false w
    walk_all limits nodes depth w1

abbrev pub names_of : Checked Walked → Checked (List String)
names_of (ok w) = ok w.names
names_of (refused e) = refused e

unfoldable pub collect_filter_variables : Limits → FilterNode → Checked (List String)
unfolding walk
collect_filter_variables limits root =
    names_of (walk limits root 0 true (record { names = List.[]; criteria = 0 }))

abbrev pub connector_of : FilterNode → FilterConnector
connector_of (node (known connector) negate criterion nodes) = connector
connector_of n = con_and

abbrev pub is_negated : Field Bool → Bool
is_negated (known b) = b
is_negated field = false

abbrev pub negated : Bool → String → String
negated b sql = if b then "NOT (" ++ (sql ++ ")") else sql

-- The text of a group from that of its children: negated, bare at the root, in parentheses below it.
abbrev pub group_sql : Field Bool → Bool → String → String
group_sql negate is_root sql =
    if is_negated negate
    then "NOT (" ++ (sql ++ ")")
    else if is_root
    then sql
    else "(" ++ (sql ++ ")")

module _ (js : Platform) (limits : Limits) (metadata : Metadata) where
  -- `compileNode`; a node that `collectFilterVariables` refuses is not reached, and is left empty here.
  unfoldable mutual
    unfolding compile_criterion combine

    pub compile_node : FilterNode → Bool → Checked CompiledFilter
    compile_node not_an_object is_root = ok (record { sql = ""; params = List.[] })
    compile_node (node connector negate (some c) nodes) is_root = do
      one ← compile_criterion js limits metadata c
      ok (record one { sql = negated (is_negated negate) one.sql })
    compile_node (node connector negate none no_children) is_root =
        ok (record { sql = ""; params = List.[] })
    compile_node (node connector negate none not_an_array) is_root =
        ok (record { sql = ""; params = List.[] })
    compile_node (node connector negate none (children no_nodes)) is_root =
        ok (record { sql = group_sql negate is_root ""; params = List.[] })
    compile_node (node connector negate none (children (add_node child nodes))) is_root = do
      first ← compile_node child false
      all ← compile_rest nodes first
      ok (record all { sql = group_sql negate is_root all.sql })

    -- the turns of `reduce` after the first child
    pub compile_rest : FilterNodes → CompiledFilter → Checked CompiledFilter
    compile_rest no_nodes left = ok left
    compile_rest (add_node child nodes) left = do
      right ← compile_node child false
      compile_rest nodes (record {
        sql = combine (connector_of child) left.sql right.sql;
        params = List.◌++◌ left.params right.params;
      })

  unfoldable pub tree_to_sql : FilterNode → Checked CompiledFilter
  unfolding collect_filter_variables compile_node
  tree_to_sql root = do names ← collect_filter_variables limits root; compile_node root true

unfoldable pub build_where : Option CompiledFilter → String
build_where none = ""
build_where (some f) = if is_empty_text f.sql then "" else "WHERE " ++ f.sql

unfoldable pub build_filter_predicate : Option CompiledFilter → CompiledFilter
build_filter_predicate none = record { sql = ""; params = List.[] }
build_filter_predicate (some f) =
    if is_empty_text f.sql
    then record { sql = ""; params = List.[] }
    else record f { sql = " AND (" ++ (f.sql ++ ")") }

-- What `loadMetadata` gives for a name: a row, no row, or the error of the load.
pub data LoadedRow : Type 0 where
  row : Value → LoadedRow
  no_row load_failed : LoadedRow

pub data TreeResult : Type 0 where
  compiled : CompiledFilter → TreeResult
  bad_input : BadInput → TreeResult
  failed_load : TreeResult

-- `rows.find((row) => row instanceof Error)`
unfoldable pub has_failure : List LoadedRow → Bool
has_failure List.[] = false
has_failure (List.◌∷◌ load_failed rows) = true
has_failure (List.◌∷◌ r rows) = has_failure rows

-- `names.forEach`: a row that is missing sets nothing
unfoldable pub index_rows : List String → List LoadedRow → Metadata → Metadata
unfolding insert
index_rows List.[] rows m = m
index_rows (List.◌∷◌ name names) List.[] m = m
index_rows (List.◌∷◌ name names) (List.◌∷◌ (row v) rows) m = index_rows names rows (insert name v m)
index_rows (List.◌∷◌ name names) (List.◌∷◌ r rows) m = index_rows names rows m

abbrev tree_result : Checked CompiledFilter → TreeResult
tree_result (ok f) = compiled f
tree_result (refused e) = bad_input e

-- `compileFilterTree`, on a tree that is there; the loader is a parameter
unfoldable pub compile_filter_tree :
    Platform → Limits → (List String → List LoadedRow) → FilterNode → TreeResult
unfolding collect_filter_variables has_failure index_rows tree_to_sql
compile_filter_tree js limits load_metadata root = elim (collect_filter_variables limits root) [
  | refused e ↦ bad_input e
  | ok names ↦
      if has_failure (load_metadata names)
      then failed_load
      else tree_result (tree_to_sql js limits (index_rows names (load_metadata names) []) root)
]
