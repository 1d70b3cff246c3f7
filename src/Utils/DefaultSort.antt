-- ===== src/Utils/DefaultSort.antt =====
-- src/utils/default-sort.ts: the order in which the pages of a table are read.
pub mod Order
pub mod Tests
use mathlib.Core.List.{◌++◌}
use dashboard_template_api.Common.{
  Bool, true, false, not, ◌&&◌, ◌||◌, Option, none, some, List, [], ◌∷◌, map, filter, String,
  str_eq, if◌then◌else◌,
}
use dashboard_template_api.Utils.FilterTree.Input.{string, Value}
use dashboard_template_api.Utils.FilterTree.Typing.{set_has}
use dashboard_template_api.Utils.FilterTree.Tree.{add_name}
use dashboard_template_api.Utils.Columns.{assert_columns}
use dashboard_template_api.Export.AfterCursor.{
  KeyColumn, asc, ascending, names_field, is_empty, all_columns_field,
}

-- A row of the metadata table, as far as it is read here.
pub record MetadataField : Type 0 where
  pub name : String
  pub is_primary_key : Bool

abbrev pub all_columns_sort : KeyColumn
all_columns_sort = record { field = all_columns_field; order = asc }

abbrev pub names_of : List MetadataField → List String
names_of fields = map (λ (f : MetadataField). f.name) fields

abbrev pub primary_keys : List MetadataField → List String
primary_keys fields = names_of (filter (λ (f : MetadataField). f.is_primary_key) fields)

-- `byName.has`
abbrev pub is_known : List MetadataField → String → Bool
is_known fields name = set_has (names_of fields) name

abbrev pub usable : List MetadataField → List String → List String
usable fields columns = filter (is_known fields) columns

-- `warnWithoutKey`: the schemas that a warning has named
abbrev pub warn_without_key : String → List String → List String
warn_without_key key warned = add_name key warned

-- The order and the warned schemas, or the unknown columns of the sort.
pub data Sorted : Type 0 where
  sorted : List KeyColumn → List String → Sorted
  unknown_sort : List String → Sorted

-- the order without an explicit sort
unfoldable pub default_sort : String → List MetadataField → List String → List String → Sorted
unfolding add_name
default_sort key fields cluster_by warned =
    let columns = usable fields cluster_by in
    let ordering = if is_empty columns then usable fields (primary_keys fields) else columns in
    if is_empty ordering
    then sorted (all_columns_sort ∷ []) (warn_without_key key warned)
    else sorted (map ascending ordering) warned

-- the primary keys that break ties, or every column of a schema without one
abbrev pub tie_columns : List MetadataField → List String
tie_columns fields =
    let keys = usable fields (primary_keys fields) in
    if is_empty keys then names_of fields else keys

-- the explicit sort with its tiebreakers
unfoldable pub with_tiebreakers : List KeyColumn → List MetadataField → List KeyColumn
unfolding names_field
with_tiebreakers explicit fields =
    explicit
    ++ map ascending (filter (λ field. not (names_field explicit field)) (tie_columns fields))

abbrev explicit_result : Option (List String) → List KeyColumn → List String → Sorted
explicit_result none order warned = sorted order warned
explicit_result (some names) order warned = unknown_sort names

module _ (show : Value → String) where
  -- `resolveEffectiveSort`, on the loaded metadata and `cluster_by`; `key` names the schema, and an
  -- absent sort is an empty one.
  unfoldable pub resolve_effective_sort :
      List KeyColumn → String → List MetadataField → List String → List String → Sorted
  unfolding default_sort with_tiebreakers assert_columns add_name
  resolve_effective_sort [] key fields cluster_by warned = default_sort key fields cluster_by warned
  resolve_effective_sort (k ∷ ks) key fields cluster_by warned =
      explicit_result
        (assert_columns show (is_known fields) (map (λ (i : KeyColumn). string i.field) (k ∷ ks)))
        (with_tiebreakers (k ∷ ks) fields)
        (if is_empty (usable fields (primary_keys fields))
          then warn_without_key key warned
          else warned)
