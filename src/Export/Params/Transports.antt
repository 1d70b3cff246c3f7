-- ===== src/Export/Params/Transports.antt =====
-- A query string and a JSON body of texts alone mean the same request.
use dashboard_template_api.Common.{
  ◌≡◌, refl, Bool, Option, List, [], ◌∷◌, String, ℕ, str_eq, Bool-cases, inl, inr,
}
use dashboard_template_api.Common.Map.{Map, lookup}
use dashboard_template_api.Utils.FilterTree.Input.{Value, undefined, null, string}
use dashboard_template_api.Export.Params.{
  ExportPlatform, ExportFormat, ParquetCompression, query, body, get_value, list_of_value,
  read_list, filters_of_value, read_filters, limit_of_value, read_limit,
}
use dashboard_template_api.Export.Params.Settings.{ExportSettings}
use dashboard_template_api.Export.Params.Request.{assemble, parse_export_params}

-- A text, or nothing.
pub data IsText : Value → Type 0 where
  is_undefined : IsText undefined
  is_null : IsText null
  is_string : (s : String) → IsText (string s)

abbrev pub AreTexts : Map Value → Type 0
AreTexts [] = Unit
AreTexts ((name, v) ∷ input) = IsText v × AreTexts input

get_value-IsText :
    (name : String) (input : Map Value) → AreTexts input → IsText (get_value name input)
unfolding lookup
get_value-IsText name [] t = is_undefined
get_value-IsText name ((key, v) ∷ input) (here, later) = elim (Bool-cases (str_eq key name)) [
  | inl same ↦ rw same here
  | inr other ↦ rw other (get_value-IsText name input later)
]

module _ (platform : ExportPlatform) where
  list_of_value-same :
      (name : String) (v : Value)
      → IsText v
      → list_of_value platform query name v ≡ list_of_value platform body name v
  unfolding list_of_value
  list_of_value-same name _ is_undefined = refl
  list_of_value-same name _ is_null = refl
  list_of_value-same name _ (is_string s) = refl

  filters_of_value-same :
      (v : Value) → IsText v → filters_of_value platform query v ≡ filters_of_value platform body v
  unfolding filters_of_value
  filters_of_value-same _ is_undefined = refl
  filters_of_value-same _ is_null = refl
  filters_of_value-same _ (is_string s) = refl

  limit_of_value-same :
      (v : Value) → IsText v → limit_of_value platform query v ≡ limit_of_value platform body v
  unfolding limit_of_value
  limit_of_value-same _ is_undefined = refl
  limit_of_value-same _ is_null = refl
  limit_of_value-same _ (is_string s) = refl

  module _ (input : Map Value) (texts : AreTexts input) where
    read_list-same :
        (name : String) → read_list platform query input name ≡ read_list platform body input name
    unfolding read_list
    read_list-same name =
        list_of_value-same name (get_value name input) (get_value-IsText name input texts)

    read_filters-same : read_filters platform query input ≡ read_filters platform body input
    unfolding read_filters
    read_filters-same =
        filters_of_value-same (get_value "filters" input) (get_value-IsText "filters" input texts)

    read_limit-same : read_limit platform query input ≡ read_limit platform body input
    unfolding read_limit
    read_limit-same =
        limit_of_value-same (get_value "limit" input) (get_value-IsText "limit" input texts)

    assemble-same :
        (settings : ExportSettings) (catalog schema : Option String) (fields : Option (List String))
        (format : ExportFormat) (requested : Option ℕ) (bom : Bool)
        (compression : ParquetCompression)
        (sort_raw groups_raw aggregates_raw : Option (List String))
        → assemble platform settings query input catalog schema fields format requested bom
            compression sort_raw groups_raw aggregates_raw
          ≡ assemble platform settings body input catalog schema fields format requested bom
              compression sort_raw groups_raw aggregates_raw
    unfolding assemble
    assemble-same settings catalog schema fields format requested bom compression sort_raw
          groups_raw aggregates_raw =
        rw read_filters-same refl

    -- Where every value is a text or is missing, the parameters of a query string and those of a JSON
    -- body are read alike: the two give the same request, or the same error.
    pub parse_export_params-same :
        (settings : ExportSettings)
        → parse_export_params platform settings query input
          ≡ parse_export_params platform settings body input
    unfolding parse_export_params
    parse_export_params-same settings = simp (read_list-same, read_limit-same, assemble-same) refl
