-- ===== src/Utils/Metadata/Choice.antt =====
-- The label column that is chosen points at the column that it labels.
use text.Mathlib.TextEquality.{eq_iff}
use dashboard_template_api.Common.{
  ◌≡◌, refl, sym, ap, ◌∙◌, inl, inr, Bool, true, Option, none, some, List, [], ◌∷◌, map, count,
  String, str_eq, arith, Bool-cases, ltb,
}
use dashboard_template_api.Common.Map.{Map, lookup, lookup-insert}
use dashboard_template_api.Common.Result.{Result, done}
use dashboard_template_api.Common.Sort.{sort, count-sort}
use dashboard_template_api.Utils.FilterTree.Typing.{set_has}
use dashboard_template_api.Utils.FilterTree.Values.{is_empty_text}
use dashboard_template_api.Utils.Metadata.{
  FieldMetadata, LabelError, with_labels, with_label_fields, labels_by_code, index_metadata_by_name,
  resolve_label_field, candidates, first_of,
}
use dashboard_template_api.Utils.Metadata.Labels.{names_pointing, labels_of-names}

set_has-count : (xs : List String) (s : String) → set_has xs s ≡ ltb 0 (count (λ x. str_eq x s) xs)
set_has-count [] s = refl
set_has-count (x ∷ xs) s = ground (arith, set_has-count xs s)

pub set_has-sort :
    (le : String → String → Bool) (xs : List String) (s : String)
    → set_has (sort le xs) s ≡ set_has xs s
set_has-sort le xs s =
    set_has-count (sort le xs) s
    ∙ ap (ltb 0) (count-sort le (λ x. str_eq x s) xs)
    ∙ sym (set_has-count xs s)

set_has-first_of : (xs : List String) (s : String) → first_of xs ≡ some s → set_has xs s ≡ true
set_has-first_of [] s h = cc
set_has-first_of (x ∷ xs) s h = ground (arith, h, eq_iff x s)

done_injective {ℓ} :
    (E : Type 0) {A : Type ℓ} (x y : A) → ◌≡◌ {A = Result E A} (done x) (done y) → x ≡ y
done_injective E x y h = cc

-- What is answered is one of the candidates.
resolve_label_field-candidates :
    (name : String) (metadata : Map FieldMetadata) (requested : Option String) (label : String)
    → resolve_label_field name metadata requested ≡ done (some label)
    → set_has (candidates (lookup name metadata)) label ≡ true
unfolding resolve_label_field
resolve_label_field-candidates name metadata none label h =
    set_has-first_of _ label (done_injective LabelError _ _ h)
resolve_label_field-candidates name metadata (some r) label h =
    elim (Bool-cases (is_empty_text r)) [
      | inl blank ↦ set_has-first_of _ label (done_injective LabelError _ _ (rw blank at h))
      | inr asked ↦ elim (Bool-cases (set_has (candidates (lookup name metadata)) r)) [
        | inl there ↦ cc (done_injective LabelError _ _ (rw (asked, there) at h), there)
        | inr missing ↦ absurd (cc (rw (asked, missing) at h))
      ]
    ]

-- The index holds rows of the list, each under its name, or what it held before.
module _ (le : String → String → Bool) (fields : List FieldMetadata) where
  -- The row of a name was completed from these rows.
  abbrev IsCompleted : String → Option FieldMetadata → Type 0
  IsCompleted name none = Unit
  IsCompleted name (some f) = f.label_fields ≡ sort le (names_pointing name fields)

  index-IsCompleted :
      (rows : List FieldMetadata) (index : Map FieldMetadata)
      → ((name : String) → IsCompleted name (lookup name index))
      → (name : String)
      → IsCompleted name (
          lookup name (
            index_metadata_by_name
              (map some (map (with_labels le (labels_by_code fields [])) rows))
              index))
  unfolding index_metadata_by_name
  index-IsCompleted [] index h name = h name
  index-IsCompleted (f ∷ rows) index h name =
      index-IsCompleted rows _
        (λ asked. elim (Bool-cases (str_eq f.name asked)) [
          | inl same ↦
              rw (lookup-insert, same)
                (ap (sort le) (labels_of-names f.name fields)
                  ∙ ap (λ n. sort le (names_pointing n fields)) ((eq_iff f.name asked).0 same))
          | inr other ↦ rw (lookup-insert, other) (h asked)
        ])
        name

  completed-names :
      (name label : String) (o : Option FieldMetadata)
      → IsCompleted name o
      → set_has (candidates o) label ≡ true
      → set_has (names_pointing name fields) label ≡ true
  completed-names name label none c h = cc
  completed-names name label (some f) c h =
      sym (set_has-sort le (names_pointing name fields) label)
      ∙ ap (λ xs. set_has xs label) (sym c)
      ∙ h

  -- A label column that is chosen for a column, on the index of completed rows, is the name of a row
  -- whose `label_for` is that column: whether it was requested or not.
  pub resolve_label_field-points :
      (name : String) (requested : Option String) (label : String)
      → resolve_label_field name
          (index_metadata_by_name (map some (with_label_fields le fields)) [])
          requested
        ≡ done (some label)
      → set_has (names_pointing name fields) label ≡ true
  unfolding with_label_fields lookup
  resolve_label_field-points name requested label h =
      completed-names name label _ (index-IsCompleted fields [] (λ asked. tt) name)
        (resolve_label_field-candidates name _ requested label h)
