-- ===== src/Utils/Metadata/Tests.antt =====
-- A fact table with a code column, its label and a stale row.
use Prim.Native.Char.{code}
use dashboard_template_api.Common.{
  ℕ, ◌≡◌, refl, ◌⊎◌, inl, inr, Bool, true, false, not, ◌&&◌, Option, none, some, List, [], ◌∷◌,
  count, String, ltb, ◌==◌, arith, if◌then◌else◌,
}
use dashboard_template_api.Common.Map.{Map, lookup}
use dashboard_template_api.Common.Sort.{IsSorted, sort}
use dashboard_template_api.Utils.FilterTree.Typing.{set_has}
use dashboard_template_api.Utils.Metadata.{
  FieldMetadata, with_label_fields, index_metadata_by_name, resolve_label_field,
  sort_by_column_position, placed,
}
use dashboard_template_api.Utils.Metadata.Labels.{names_pointing}
use dashboard_template_api.Utils.Metadata.Choice.{resolve_label_field-points}
use dashboard_template_api.Utils.Metadata.Positions.{table_order, sort_by_column_position-IsSorted}

-- Texts by their characters.
abbrev before : String → String → Bool
before String.[] t = true
before (String.◌∷◌ c s) String.[] = false
before (String.◌∷◌ c s) (String.◌∷◌ d t) =
    let rest = before s t in if code c == code d then rest else ltb (code c) (code d)

before_total : (s t : String) → (before s t ≡ true) ⊎ (before t s ≡ true)
before_total String.[] t = inl refl
before_total (String.◌∷◌ c s) String.[] = inr refl
before_total (String.◌∷◌ c s) (String.◌∷◌ d t) = ground (arith, before_total s t)

abbrev field : String → Option String → FieldMetadata
field name label_for = record {
  name = name;
  label = name;
  sql_type = "VARCHAR";
  is_primary_key = false;
  is_categorical = true;
  parent_name = none;
  label_for = label_for;
  label_fields = [];
  unit = none;
  display_format = none;
  family = none;
  description = none;
  default_aggregation = none;
}

abbrev fields : List FieldMetadata
fields =
    field "region_name" (some "region")
    ∷ field "stale" none
    ∷ field "region" none
    ∷ field "region_code" (some "region")
    ∷ []

resolve_label_field-points_example : set_has (names_pointing "region" fields) "region_code" ≡ true
unfolding resolve_label_field index_metadata_by_name with_label_fields lookup sort
resolve_label_field-points_example =
    resolve_label_field-points before fields "region" none "region_code" refl

abbrev positions : Map ℕ
positions = ("region", 0) ∷ ("region_code", 1) ∷ ("region_name", 2) ∷ []

sort_by_column_position-IsSorted_example :
    IsSorted (table_order before positions) (sort_by_column_position before fields positions).fields
    × ((q : FieldMetadata → Bool)
        → count q (sort_by_column_position before fields positions).fields ≡ count q fields)
    × ((q : String → Bool)
        → count q (sort_by_column_position before fields positions).unplaced
          ≡ count (λ (f : FieldMetadata). q f.name && not (placed positions f)) fields)
sort_by_column_position-IsSorted_example =
    sort_by_column_position-IsSorted before before_total positions fields
