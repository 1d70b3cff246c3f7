-- ===== src/Utils/Metadata.antt =====
-- src/utils/metadata-mapping.ts: rows of the `metadata` table as fields, their label columns, their
-- order, and the family and the operations of a column. `le` is JavaScript's order on strings,
-- `show` its `String`, `truthy` its `Boolean`.
pub mod Labels
pub mod Choice
pub mod Positions
pub mod Tests
use mathlib.Core.List.{◌++◌}
use dashboard_template_api.Common.{
  ℕ, ◌≡◌, Bool, true, false, not, Option, none, some, List, [], ◌∷◌, map, filter, String, leb,
  str_eq, if◌then◌else◌,
}
use dashboard_template_api.Common.Map.{Map, lookup, insert}
use dashboard_template_api.Common.Result.{Result, done, thrown}
use dashboard_template_api.Common.Sort.{sort}
use dashboard_template_api.Utils.FilterTree.Input.{
  FilterOperation, SqlTypeFamily, fam_numeric, fam_date, fam_text, fam_boolean, fam_other, Value,
  undefined, null, string,
}
use dashboard_template_api.Utils.FilterTree.Typing.{
  Platform, set_has, normalize_sql_type, sql_type_family, is_integer_sql_type,
}
use dashboard_template_api.Utils.FilterTree.Operations.{allowed_operations}
use dashboard_template_api.Utils.FilterTree.Values.{is_empty_text}

abbrev pub metadata_columns : List String
metadata_columns =
    "name" ∷ "label" ∷ "sql_type" ∷ "is_primary_key" ∷ "is_categorical" ∷ "parent_name"
    ∷ "label_for" ∷ "unit" ∷ "display_format" ∷ "family" ∷ "description" ∷ "default_aggregation"
    ∷ []

pub record FieldMetadata : Type 0 where
  pub name : String
  pub label : String
  pub sql_type : String
  pub is_primary_key : Bool
  pub is_categorical : Bool
  pub parent_name : Option String
  pub label_for : Option String
  pub label_fields : List String
  pub unit : Option String
  pub display_format : Option String
  pub family : Option String
  pub description : Option String
  pub default_aggregation : Option String

module _ (show : Value → String) (truthy : Value → Bool) where
  abbrev nullable_text : Value → Option String
  nullable_text null = none
  nullable_text undefined = none
  nullable_text v = some (show v)

  -- `value ?? text`, as a text
  abbrev text_or : String → Value → String
  text_or text null = text
  text_or text undefined = text
  text_or text v = show v

  -- a raw row, by column name
  unfoldable pub to_field_metadata : (String → Value) → FieldMetadata
  to_field_metadata row = record {
    name = show (row "name");
    label = text_or (show (row "name")) (row "label");
    sql_type = text_or (show (string "")) (row "sql_type");
    is_primary_key = truthy (row "is_primary_key");
    is_categorical = truthy (row "is_categorical");
    parent_name = nullable_text (row "parent_name");
    label_for = nullable_text (row "label_for");
    label_fields = [];
    unit = nullable_text (row "unit");
    display_format = nullable_text (row "display_format");
    family = nullable_text (row "family");
    description = nullable_text (row "description");
    default_aggregation = nullable_text (row "default_aggregation");
  }

pub data TypeFamily : Type 0 where
  integer number date timestamp text boolean other : TypeFamily

abbrev refine_family : SqlTypeFamily → Bool → Bool → TypeFamily
refine_family fam_numeric is_integer is_date = if is_integer then integer else number
refine_family fam_date is_integer is_date = if is_date then date else timestamp
refine_family fam_text is_integer is_date = text
refine_family fam_boolean is_integer is_date = boolean
refine_family fam_other is_integer is_date = other

unfoldable pub type_family_of : Platform → String → TypeFamily
unfolding normalize_sql_type sql_type_family
type_family_of js sql_type =
    let normalized = normalize_sql_type js sql_type in
    refine_family (sql_type_family normalized) (is_integer_sql_type js sql_type)
      (str_eq normalized "DATE")

unfoldable pub filter_operations_of : Platform → String → List FilterOperation
unfolding normalize_sql_type sql_type_family
filter_operations_of js sql_type =
    allowed_operations (sql_type_family (normalize_sql_type js sql_type))

-- `labelsByCode.get(name) ?? []`
abbrev pub listed : Option (List String) → List String
listed none = []
listed (some names) = names

unfoldable pub labels_of : String → Map (List String) → List String
unfolding lookup
labels_of code labels = listed (lookup code labels)

abbrev pub push_label : Option String → String → Map (List String) → Map (List String)
push_label none name labels = labels
push_label (some code) name labels = insert code (labels_of code labels ++ name ∷ []) labels

-- the loop that fills `labelsByCode`
unfoldable pub labels_by_code : List FieldMetadata → Map (List String) → Map (List String)
unfolding insert labels_of
labels_by_code [] labels = labels
labels_by_code (f ∷ fields) labels = labels_by_code fields (push_label f.label_for f.name labels)

abbrev pub is_present : Option ℕ → Bool
is_present (some i) = true
is_present none = false

-- `positions.has(name)`
abbrev pub has_position : Map ℕ → String → Bool
has_position positions name = is_present (lookup name positions)

-- `positions.get(name)`, of a column that has one
abbrev pub position_of : Option ℕ → ℕ
position_of (some i) = i
position_of none = 0

pub record PhysicallyOrderedFields : Type 0 where
  pub fields : List FieldMetadata
  pub unplaced : List String

-- the two comparisons of `sortByColumnPosition`, as "not after"
abbrev pub by_position : Map ℕ → FieldMetadata → FieldMetadata → Bool
by_position positions a b =
    leb (position_of (lookup a.name positions)) (position_of (lookup b.name positions))

abbrev pub placed : Map ℕ → FieldMetadata → Bool
placed positions f = has_position positions f.name

module _ (le : String → String → Bool) where
  abbrev pub by_name : FieldMetadata → FieldMetadata → Bool
  by_name a b = le a.name b.name

  -- one row of the `map` of `withLabelFields`
  abbrev pub with_labels : Map (List String) → FieldMetadata → FieldMetadata
  with_labels labels f = record f { label_fields = sort le (labels_of f.name labels) }

  unfoldable pub with_label_fields : List FieldMetadata → List FieldMetadata
  unfolding labels_by_code labels_of sort
  with_label_fields fields = map (with_labels (labels_by_code fields [])) fields

  unfoldable pub sort_by_column_position : List FieldMetadata → Map ℕ → PhysicallyOrderedFields
  unfolding sort lookup
  sort_by_column_position fields positions =
      let unplaced = sort by_name (filter (λ f. not (placed positions f)) fields) in
      record {
        fields = sort (by_position positions) (filter (placed positions) fields) ++ unplaced;
        unplaced = map (λ (f : FieldMetadata). f.name) unplaced;
      }

-- `fields.find((field) => field.name === name) ?? null`
unfoldable pub find_field : String → List FieldMetadata → Option FieldMetadata
find_field name [] = none
find_field name (f ∷ fields) = if str_eq f.name name then some f else find_field name fields

unfoldable pub to_field_metadata_with_labels :
    (String → String → Bool)
    → (Value → String)
    → (Value → Bool)
    → List (String → Value)
    → String
    → Option FieldMetadata
unfolding find_field with_label_fields to_field_metadata
to_field_metadata_with_labels le show truthy rows name =
    find_field name (with_label_fields le (map (to_field_metadata show truthy) rows))

-- a row that is missing is left out
unfoldable pub index_metadata_by_name :
    List (Option FieldMetadata) → Map FieldMetadata → Map FieldMetadata
unfolding insert
index_metadata_by_name [] index = index
index_metadata_by_name (none ∷ rows) index = index_metadata_by_name rows index
index_metadata_by_name (some f ∷ rows) index = index_metadata_by_name rows (insert f.name f index)

-- `requested` is not a label column of `field_name`
pub data LabelError : Type 0 where
  not_a_label_column : (field_name requested : String) → LabelError

abbrev pub first_of : List String → Option String
first_of [] = none
first_of (name ∷ names) = some name

abbrev pub candidates : Option FieldMetadata → List String
candidates none = []
candidates (some f) = f.label_fields

unfoldable pub resolve_label_field :
    String → Map FieldMetadata → Option String → Result LabelError (Option String)
unfolding lookup
resolve_label_field field_name metadata none =
    done (first_of (candidates (lookup field_name metadata)))
resolve_label_field field_name metadata (some requested) =
    let labels = candidates (lookup field_name metadata) in
    if is_empty_text requested
    then done (first_of labels)
    else if set_has labels requested
    then done (some requested)
    else thrown (not_a_label_column field_name requested)
