-- ===== src/Utils/Metadata/Labels.antt =====
-- The label columns of a column are those that point at it.
use mathlib.Core.List.{◌++◌, append_assoc, append-nil}
use text.Mathlib.TextEquality.{eq_iff}
use dashboard_template_api.Common.{
  ◌≡◌, refl, sym, ap, ◌∙◌, ◌⊎◌, inl, inr, Bool, true, false, Option, none, some, List, [], ◌∷◌, map,
  count, String, str_eq, Bool-cases, if◌then◌else◌,
}
use dashboard_template_api.Common.Result.{Pointwise}
use dashboard_template_api.Common.Map.{Map, lookup, lookup-insert}
use dashboard_template_api.Common.Sort.{IsSorted, count-sort, sort-IsSorted}
use dashboard_template_api.Utils.Metadata.{
  FieldMetadata, labels_of, push_label, labels_by_code, with_labels, with_label_fields,
}

abbrev pub points_to : String → Option String → Bool
points_to code none = false
points_to code (some c) = str_eq c code

-- The names of the columns that `label_for` makes labels of `code`.
abbrev pub names_pointing : String → List FieldMetadata → List String
names_pointing code [] = []
names_pointing code (f ∷ fields) =
    let rest = names_pointing code fields in
    if points_to code f.label_for then f.name ∷ rest else rest

labels_of-push_label :
    (code name : String) (o : Option String) (labels : Map (List String))
    → labels_of code (push_label o name labels)
      ≡ labels_of code labels ++ (if points_to code o then name ∷ [] else [])
unfolding labels_of
labels_of-push_label code name none labels = sym (append-nil _)
labels_of-push_label code name (some c) labels = elim (Bool-cases (str_eq c code)) [
  | inl same ↦ rw (lookup-insert, same, (eq_iff c code).0 same) refl
  | inr other ↦ rw (lookup-insert, other) (sym (append-nil _))
]

if_cons {ℓ} :
    {A : Type ℓ} (b : Bool) (x : A) (xs : List A)
    → (if b then x ∷ [] else []) ++ xs ≡ (if b then x ∷ xs else xs)
if_cons true x xs = refl
if_cons false x xs = refl

labels_of-labels_by_code :
    (code : String) (fields : List FieldMetadata) (labels : Map (List String))
    → labels_of code (labels_by_code fields labels)
      ≡ labels_of code labels ++ names_pointing code fields
unfolding labels_by_code
labels_of-labels_by_code code [] labels = sym (append-nil _)
labels_of-labels_by_code code (f ∷ fields) labels =
    labels_of-labels_by_code code fields (push_label f.label_for f.name labels)
    ∙ rw (labels_of-push_label code f.name f.label_for labels) (
        append_assoc (labels_of code labels) _ _
        ∙ ap (λ xs. labels_of code labels ++ xs)
            (if_cons (points_to code f.label_for) f.name (names_pointing code fields)))

-- What the label columns of `code` are: every name once for each row that points at it.
pub labels_of-names :
    (code : String) (fields : List FieldMetadata)
    → labels_of code (labels_by_code fields []) ≡ names_pointing code fields
labels_of-names code fields =
    labels_of-labels_by_code code fields [] ∙ (unfold labels_of lookup in refl)

-- One row before and after.
abbrev pub IsLabelled :
    (String → String → Bool) → List FieldMetadata → FieldMetadata → FieldMetadata → Type 0
IsLabelled le fields f g =
    (g ≡ (record f { label_fields = g.label_fields }))
    × IsSorted le g.label_fields
    × ((p : String → Bool) → count p g.label_fields ≡ count p (names_pointing f.name fields))

module _ (le : String → String → Bool)
    (total : (x y : String) → (le x y ≡ true) ⊎ (le y x ≡ true)) where
  with_label_fields_each :
      (fields rows : List FieldMetadata)
      → Pointwise (IsLabelled le fields) rows (map (with_labels le (labels_by_code fields [])) rows)
  unfolding Pointwise
  with_label_fields_each fields [] = tt
  with_label_fields_each fields (f ∷ rows) = (
    (
      refl,
      sort-IsSorted le total _,
      λ p. count-sort le p _ ∙ ap (count p) (labels_of-names f.name fields),
    ),
    with_label_fields_each fields rows,
  )

  -- Under a total order on the names, the rows keep all else, and the label columns of each row are
  -- in that order and are the names of the rows whose `label_for` is its own name, as often.
  pub with_label_fields-IsLabelled :
      (fields : List FieldMetadata)
      → Pointwise (IsLabelled le fields) fields (with_label_fields le fields)
  unfolding with_label_fields
  with_label_fields-IsLabelled fields = with_label_fields_each fields fields
