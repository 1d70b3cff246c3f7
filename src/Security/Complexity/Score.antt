-- ===== src/Security/Complexity/Score.antt =====
-- src/security/complexity-analyzer.ts: a parsed operation and its root fields. `fuel` bounds how many
-- named fragments are entered within one another; none is a walk that has not ended.
use dashboard_template_api.Common.{
  ℕ, zero, suc, Bool, true, false, not, Option, none, some, List, [], ◌∷◌, ◌++◌, String, length,
  filter,
}
use dashboard_template_api.Common.Map.{Map, lookup}
use dashboard_template_api.Utils.FilterTree.Typing.{set_has}
use dashboard_template_api.Security.Complexity.Costs.{Argument}

-- `FieldNode`, with a selection set or without, and `SelectionSetNode`.
mutual
  pub data FieldNode : Type 0 where
    plain_field : String → List Argument → FieldNode
    object_field : String → List Argument → SelectionSet → FieldNode

  pub data SelectionSet : Type 0 where
    end_of_set : SelectionSet
    with_field : FieldNode → SelectionSet → SelectionSet
    with_inline : SelectionSet → SelectionSet → SelectionSet
    with_spread : String → SelectionSet → SelectionSet

abbrev pub field_name : FieldNode → String
field_name (plain_field name args) = name
field_name (object_field name args set) = name

abbrev pub arguments_of : FieldNode → List Argument
arguments_of (plain_field name args) = args
arguments_of (object_field name args set) = args

abbrev pub has_selection : FieldNode → Bool
has_selection (plain_field name args) = false
has_selection (object_field name args set) = true

-- The root fields and the fragments already expanded.
abbrev pub Collected : Type 0
Collected = List FieldNode × List String

abbrev pub then_collect : Option Collected → (List String → Option Collected) → Option Collected
then_collect none next = none
then_collect (some (fields, visited)) next = append_to fields (next visited)
  where
    append_to : List FieldNode → Option Collected → Option Collected
    append_to fields none = none
    append_to fields (some (others, visited)) = some (fields ++ others, visited)

-- `collectRootFields`, with what expanding a fragment gives
unfoldable pub collect_root_fields :
    (String → List String → Option Collected) → SelectionSet → List String → Option Collected
collect_root_fields expand end_of_set visited = some ([], visited)
collect_root_fields expand (with_field f rest) visited =
    then_collect (some (f ∷ [], visited)) (λ seen. collect_root_fields expand rest seen)
collect_root_fields expand (with_inline inner rest) visited =
    then_collect (collect_root_fields expand inner visited)
      (λ seen. collect_root_fields expand rest seen)
collect_root_fields expand (with_spread name rest) visited =
    then_collect (expand name visited) (λ seen. collect_root_fields expand rest seen)

abbrev pub FragmentMap : Type 0
FragmentMap = Map SelectionSet

-- A fragment that is unknown or visited adds no field.
abbrev pub expanded :
    Option SelectionSet → Bool → List String → (SelectionSet → Option Collected) → Option Collected
expanded none seen visited inner = some ([], visited)
expanded (some set) true visited inner = some ([], visited)
expanded (some set) false visited inner = inner set

unfoldable pub expand_fragment : FragmentMap → ℕ → String → List String → Option Collected
unfolding collect_root_fields lookup
expand_fragment fragments zero name visited =
    expanded (lookup name fragments) (set_has visited name) visited (λ set. none)
expand_fragment fragments (suc fuel) name visited =
    expanded (lookup name fragments) (set_has visited name) visited
      (λ set. collect_root_fields (expand_fragment fragments fuel) set (name ∷ visited))

abbrev pub fields_collected : Option Collected → Option (List FieldNode)
fields_collected none = none
fields_collected (some (fields, visited)) = some fields

unfoldable pub root_fields : FragmentMap → ℕ → SelectionSet → Option (List FieldNode)
unfolding collect_root_fields expand_fragment
root_fields fragments fuel set =
    fields_collected (collect_root_fields (expand_fragment fragments fuel) set [])

-- `countRootFields`, where `is_meta` tells the names that start with two underscores
unfoldable pub count_root_fields : (String → Bool) → FragmentMap → ℕ → SelectionSet → Option ℕ
unfolding root_fields
count_root_fields is_meta fragments fuel set = counted (root_fields fragments fuel set)
  where
    counted : Option (List FieldNode) → Option ℕ
    counted none = none
    counted (some fields) = some (length (filter (λ f. not (is_meta (field_name f))) fields))
