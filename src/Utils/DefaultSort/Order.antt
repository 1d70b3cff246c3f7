-- ===== src/Utils/DefaultSort/Order.antt =====
-- Which columns the resolved order names.
use dashboard_template_api.Utils.FilterTree.Typing.{set_has}
use dashboard_template_api.Common.{
  refl, ap, [], Bool, true, false, not, ◌&&◌, if◌then◌else◌, filter, str_eq, eq_iff, arith,
  Bool-cases, inl, inr, ◌≡◌, ◌∙◌, ◌||◌, Option, none, some, List, ◌∷◌, String,
}
use dashboard_template_api.Utils.FilterTree.Input.{Value}
use dashboard_template_api.Export.AfterCursor.{KeyColumn, names_field, is_empty}
use dashboard_template_api.Export.AfterCursor.Order.{
  includes, names_field-append, names_field-ascending,
}
use dashboard_template_api.Utils.DefaultSort.{
  MetadataField, tie_columns, names_of, primary_keys, is_known, with_tiebreakers, sorted,
  explicit_result, resolve_effective_sort,
}

with_tiebreakers-names :
    (explicit : List KeyColumn) (fields : List MetadataField) (field : String)
    → names_field (with_tiebreakers explicit fields) field
      ≡ (names_field explicit field || includes (tie_columns fields) field)
unfolding with_tiebreakers
with_tiebreakers-names explicit fields field =
    names_field-append explicit _ field ∙ names_field-ascending explicit (tie_columns fields) field

explicit_order :
    (o : Option (List String)) (order sort : List KeyColumn) (warned w : List String)
    → explicit_result o order warned ≡ sorted sort w
    → sort ≡ order
explicit_order none order sort warned w h = cc
explicit_order (some names) order sort warned w h = cc

-- Some row of the metadata is a primary key; one of this name is; a row has this name.
abbrev pub has_key : List MetadataField → Bool
has_key [] = false
has_key (f ∷ fields) = f.is_primary_key || has_key fields

abbrev pub is_key : List MetadataField → String → Bool
is_key [] name = false
is_key (f ∷ fields) name = (f.is_primary_key && str_eq f.name name) || is_key fields name

abbrev pub is_column : List MetadataField → String → Bool
is_column [] name = false
is_column (f ∷ fields) name = str_eq f.name name || is_column fields name

usable-primary_keys :
    (known : String → Bool) (fields : List MetadataField)
    → ((name : String) → set_has (names_of fields) name ≡ true → known name ≡ true)
    → filter known (primary_keys fields) ≡ primary_keys fields
usable-primary_keys known [] h = refl
usable-primary_keys known (f ∷ fields) h =
    let rest = usable-primary_keys known fields (λ name p. h name (ground (arith, p))) in
    let head = h f.name (ground (arith, eq_iff f.name f.name)) in
    elim (Bool-cases f.is_primary_key) [
      | inl key ↦ rw (key, head, rest) refl
      | inr other ↦ rw other rest
    ]

is_empty-primary_keys :
    (fields : List MetadataField) → is_empty (primary_keys fields) ≡ not (has_key fields)
is_empty-primary_keys [] = refl
is_empty-primary_keys (f ∷ fields) = ground (arith, is_empty-primary_keys fields)

includes-primary_keys :
    (fields : List MetadataField) (name : String)
    → includes (primary_keys fields) name ≡ is_key fields name
unfolding includes
includes-primary_keys [] name = refl
includes-primary_keys (f ∷ fields) name = ground (arith, includes-primary_keys fields name)

includes-names_of :
    (fields : List MetadataField) (name : String)
    → includes (names_of fields) name ≡ is_column fields name
unfolding includes
includes-names_of [] name = refl
includes-names_of (f ∷ fields) name = ground (arith, includes-names_of fields name)

includes-tie_columns :
    (fields : List MetadataField) (name : String)
    → includes (tie_columns fields) name
      ≡ (if has_key fields then is_key fields name else is_column fields name)
includes-tie_columns fields name = rw (usable-primary_keys (is_known fields) fields (λ x p. p)) (
    rw (is_empty-primary_keys fields) (elim (Bool-cases (has_key fields)) [
      | inl keyed ↦ rw keyed (includes-primary_keys fields name)
      | inr unkeyed ↦ rw unkeyed (includes-names_of fields name)
    ]))

-- An explicit sort that is accepted is completed to one that names, beside its own columns, exactly
-- the primary keys of the metadata, or every column of it where no row is a primary key.
pub resolve_effective_sort-names :
    (show : Value → String) (k : KeyColumn) (ks : List KeyColumn) (key : String)
    (fields : List MetadataField) (cluster_by warned : List String) (sort : List KeyColumn)
    (w : List String)
    → resolve_effective_sort show (k ∷ ks) key fields cluster_by warned ≡ sorted sort w
    → (field : String)
    → names_field sort field ≡ (
        names_field (k ∷ ks) field
        || (if has_key fields then is_key fields field else is_column fields field))
unfolding resolve_effective_sort
resolve_effective_sort-names show k ks key fields cluster_by warned sort w h field =
    rw (explicit_order _ _ sort _ w h) (with_tiebreakers-names (k ∷ ks) fields field)
    ∙ ap (λ b. names_field (k ∷ ks) field || b) (includes-tie_columns fields field)
