-- ===== src/Export/Params/Checked.antt =====
-- What the parameters of an accepted request satisfy.
use dashboard_template_api.Common.{
  ℕ, ◌<◌, ◌≤◌, ◌≡◌, refl, sym, ◌∙◌, Bool, true, false, not, ◌||◌, Option, some, List, [], ◌∷◌,
  String,
}
use dashboard_template_api.Common.Map.{Map}
use dashboard_template_api.Common.Result.{
  done, Ensures, Ensures-done, Ensures->>=, Ensures-check, Ensures-after, Ensures-then, Ensures->>,
  Ensures-any,
}
use dashboard_template_api.Utils.FilterTree.Input.{Value}
use dashboard_template_api.Utils.Aggregates.Params.{is_none}
use dashboard_template_api.Export.Params.{
  ExportPlatform, ExportFormat, ParquetCompression, snappy, ExportParamSource, read_limit,
  read_filters, read_string, read_list, read_bom, lower, unknown_format,
}
use dashboard_template_api.Export.Params.Settings.{
  ExportSettings, load_export_settings, max_rows-positive,
}
use dashboard_template_api.Export.Params.Lists.{found_or, parse_sort, parse_aggregates}
use dashboard_template_api.Export.Params.Request.{
  ExportParams, unknown_names, no_unknown, is_csv, is_parquet, codec_of, check_fields, format_named,
  raw_or, parse_groups, parse_given, assemble, parse_export_params,
}
use dashboard_template_api.Export.Params.Parts.{
  IsProjection, IsOrder, IsCount, not-false, check_fields-IsProjection, read_limit-IsCount,
  parse_given-Given, limit_under-bounds, codec_of-packed, parse_groups-same, keys-IsOrder,
  Given-IsOrder,
}

-- What the rest of the export relies on.
pub record IsChecked (settings : ExportSettings) (input : Map Value) (p : ExportParams)
    : Type 0 where
  pub known : unknown_names input ≡ []
  pub projected : IsProjection p.fields
  pub sorted : IsOrder p.sort
  pub low : 0 < p.limit
  pub high : p.limit ≤ settings.max_rows
  pub whole : p.explicit_limit ≡ false → p.limit ≡ settings.max_rows
  pub grouped : is_none p.group_by ≡ is_none p.aggregates
  pub apart : (is_none p.aggregates || is_none p.fields) ≡ true
  pub marked : (not p.bom || is_csv p.format) ≡ true
  pub packed : is_parquet p.format ≡ false → p.compression ≡ snappy

module _ (platform : ExportPlatform) (settings : ExportSettings) (source : ExportParamSource) where
  module _ (input : Map Value) (all_known : unknown_names input ≡ [])
      (ceiling : 0 < settings.max_rows) where
    assemble-IsChecked :
        (catalog schema : Option String) (fields : Option (List String)) (format : ExportFormat)
        (requested : Option ℕ) (bom : Bool) (compression : ParquetCompression)
        (sort_raw groups_raw aggregates_raw : Option (List String))
        → IsProjection fields
        → IsCount requested
        → (not bom || is_csv format) ≡ true
        → (is_parquet format ≡ false → compression ≡ snappy)
        → (is_none aggregates_raw || is_none fields) ≡ true
        → Ensures (IsChecked settings input) (
            assemble platform settings source input catalog schema fields format requested bom
              compression sort_raw groups_raw aggregates_raw)
    unfolding assemble
    assemble-IsChecked catalog schema fields format requested bom compression sort_raw groups_raw
          aggregates_raw projected counted marked packed apart =
        Ensures-then _ (read_filters platform source input) _ λ filters e.
          Ensures->>= _ _ (parse_given (parse_sort platform []) sort_raw) _
            (parse_given-Given (λ keys. IsOrder (some keys)) _ (keys-IsOrder platform) sort_raw)
            λ sort (ordered, s).
              Ensures->>= _ _ (parse_groups platform groups_raw aggregates_raw) _
                (parse_groups-same platform groups_raw aggregates_raw)
                λ groups same.
                  Ensures->>= _ _ (parse_given (parse_aggregates platform) aggregates_raw) _
                    (parse_given-Given (λ a. Unit {0}) _ (λ items. Ensures-any _) aggregates_raw)
                    λ aggregates (any, both).
                      Ensures-then _ (read_string platform input "after") _ λ after r.
                        let (low, high, whole) =
                          limit_under-bounds settings.max_rows requested ceiling counted in
                        Ensures-done _ _ _ (record {
                          known = all_known;
                          projected = projected;
                          sorted = Given-IsOrder platform sort ordered;
                          low = low;
                          high = high;
                          whole = λ omitted. whole (not-false _ omitted);
                          grouped = same ∙ sym both;
                          apart = rw both apart;
                          marked = marked;
                          packed = packed;
                        })

  no_unknown-done : (names : List String) (u : Unit {0}) → no_unknown names ≡ done u → names ≡ []
  no_unknown-done [] u e = refl
  no_unknown-done (name ∷ names) u e = cc

  parse_export_params-Ensures :
      (input : Map Value)
      → 0 < settings.max_rows
      → Ensures (IsChecked settings input) (parse_export_params platform settings source input)
  unfolding parse_export_params
  parse_export_params-Ensures input ceiling =
      Ensures-after _ (no_unknown (unknown_names input)) _ λ u known.
        Ensures-then _ (read_string platform input "catalog") _ λ catalog e1.
          Ensures-then _ (read_string platform input "schema") _ λ schema e2.
            Ensures-then _ (read_string platform input "format") _ λ format_raw e3.
              Ensures-then _
                (found_or unknown_format
                  (format_named (platform.to_lower_case (raw_or format_raw "arrow"))))
                _
                λ format e4.
                  Ensures-then _ (read_list platform source input "fields") _ λ fields_raw e5.
                    Ensures->>= _ _ (check_fields fields_raw) _
                      (check_fields-IsProjection fields_raw)
                      λ fields projected.
                        Ensures->>= _ _ (read_limit platform source input) _
                          (read_limit-IsCount platform source input)
                          λ requested counted. Ensures-then _ (read_bom platform input) _ λ bom e6.
                            Ensures-check _ (not bom || is_csv format) _ _ λ marked.
                              Ensures-then _ (read_string platform input "compression") _
                                λ compression_raw e7.
                                  Ensures->>= _ _ (codec_of format (lower platform compression_raw))
                                    _ (codec_of-packed format (lower platform compression_raw))
                                    λ compression packed.
                                      Ensures-then _ (read_list platform source input "sort") _
                                        λ sort_raw e8.
                                          Ensures-then _ (read_list platform source input "groupBy")
                                            _
                                            λ groups_raw e9.
                                              Ensures-then _
                                                (read_list platform source input "aggregates") _
                                                λ aggregates_raw e10. Ensures->> _ _ _ (
                                                  Ensures-check _
                                                    (is_none aggregates_raw || is_none fields) _ _
                                                    λ apart.
                                                      assemble-IsChecked input
                                                        (no_unknown-done _ u known) ceiling catalog
                                                        schema fields format requested bom
                                                        compression sort_raw groups_raw
                                                        aggregates_raw projected counted marked
                                                        packed apart)

-- Under the settings that any configuration gives, a request that is accepted, from a query string or
-- from a body, names known parameters alone; its columns, and those of its sort, are not empty and each
-- is given once; it asks for at least one row and at most the ceiling, and for the ceiling where it
-- names no limit; it groups exactly when it aggregates, and then projects no columns; a byte order mark
-- comes with csv alone, and outside parquet the codec is the default one.
pub parse_export_params-IsChecked :
    (platform : ExportPlatform) (coerce : Value → Option ℕ) (default_dir : String)
    (section : Map Value) (source : ExportParamSource) (input : Map Value)
    → let settings = load_export_settings platform.js coerce default_dir section in
      Ensures (IsChecked settings input) (parse_export_params platform settings source input)
parse_export_params-IsChecked platform coerce default_dir section source input =
    parse_export_params-Ensures platform
      (load_export_settings platform.js coerce default_dir section) source input
      (max_rows-positive platform.js coerce default_dir section)
