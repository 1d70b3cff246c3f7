-- ===== src/Export/Params/Tests.antt =====
-- A request for a csv export and one that aggregates.
use dashboard_template_api.Common.{◌≡◌, refl, true, false, none, some, [], ◌∷◌, arith}
use dashboard_template_api.Common.Map.{Map, lookup}
use dashboard_template_api.Common.Result.{done, thrown, ◌>>=◌, ◌>>◌, check, traverse, Ensures}
use dashboard_template_api.Export.AfterCursor.{desc}
use dashboard_template_api.Utils.FilterTree.Input.{Value, JsNumber, string, number, null}
use dashboard_template_api.Utils.Aggregates.Params.{first_repeat}
use dashboard_template_api.Utils.Decimal.Digits.{number_of}
use dashboard_template_api.Export.Params.{
  ExportPlatform, csv, snappy, query, body, field_twice, split, string_of_value, read_string,
  list_of_value, read_list, filters_of_value, read_filters, limit_of_text, limit_of_value,
  read_limit, bom_of_value, read_bom,
}
use dashboard_template_api.Export.Params.Settings.{
  ExportSettings, load_export_settings, positive_int, non_negative_int,
}
use dashboard_template_api.Export.Params.Lists.{column_name, sort_key, parse_sort}
use dashboard_template_api.Export.Params.Request.{
  ExportParams, check_fields, codec_of, limit_under, parse_groups, assemble, parse_export_params,
}
use dashboard_template_api.Utils.Decimal.{decimal, digits}
use dashboard_template_api.Export.Params.Accepted.{
  by_number, first_rows, parse_export_params-AsksFor,
}
use dashboard_template_api.Export.Params.Checked.{IsChecked, parse_export_params-IsChecked}
use dashboard_template_api.Export.Params.Transports.{
  AreTexts, is_string, is_null, parse_export_params-same,
}

runs : Unit {0}
unfolding parse_export_params assemble parse_groups limit_under codec_of check_fields column_name
    sort_key parse_sort load_export_settings positive_int non_negative_int read_string
    string_of_value read_list list_of_value read_filters filters_of_value read_limit limit_of_value
    limit_of_text read_bom bom_of_value split first_repeat number_of lookup traverse check ◌>>=◌
    ◌>>◌
runs = tt

-- texts that are trimmed and in lower case already
abbrev platform : ExportPlatform
platform = record {
  js = record {
    trim = λ s. s;
    to_upper_case = λ s. "DESC";
    is_space = λ c. false;
    utf16_length = λ s. 0;
    exec = λ pattern s. none;
    to_number = λ s. 0;
    utc_date = λ y m d. (y, m, d);
    utc_abs_ms = λ y m d h i s. 0;
  };
  to_lower_case = λ s. s;
  parse_json = λ s. none;
}

abbrev settings : ExportSettings
settings = load_export_settings platform.js (λ v. none) "/tmp/exports" []

abbrev request : Map Value
request =
    ("format", string "csv")
    ∷ ("fields", string "region,value")
    ∷ ("sort", string "value:desc")
    ∷ ("limit", string "250")
    ∷ ("after", null)
    ∷ []

abbrev accepted : ExportParams
accepted = record {
  catalog = none;
  schema = none;
  fields = some ("region" ∷ "value" ∷ []);
  filters = none;
  sort = some (record { field = "value"; order = desc } ∷ []);
  group_by = none;
  aggregates = none;
  format = csv;
  limit = 250;
  explicit_limit = true;
  after = none;
  bom = false;
  compression = snappy;
}

parse_export_params-request : parse_export_params platform settings query request ≡ done accepted
unfolding runs
parse_export_params-request = refl

parse_export_params-repeated :
    parse_export_params platform settings query (("fields", string "region,region") ∷ [])
    ≡ thrown (field_twice "region")
unfolding runs
parse_export_params-repeated = refl

parse_export_params-IsChecked_example :
    Ensures (IsChecked settings request) (parse_export_params platform settings query request)
parse_export_params-IsChecked_example =
    parse_export_params-IsChecked platform (λ v. none) "/tmp/exports" [] query request

request-AreTexts : AreTexts request
request-AreTexts = (
  is_string "csv",
  (is_string "region,value", (is_string "value:desc", (is_string "250", (is_null, tt)))),
)

parse_export_params-same_example :
    parse_export_params platform settings query request
    ≡ parse_export_params platform settings body request
parse_export_params-same_example =
    parse_export_params-same platform request request-AreTexts settings

-- The number as JavaScript prints it.
abbrev twelve : JsNumber
twelve = record { is_finite = true; is_safe_integer = true; to_text = "12" }

twelve_text : twelve.to_text ≡ decimal 12
unfolding decimal digits
twelve_text = refl

parse_export_params-AsksFor_example :
    parse_export_params platform settings body (("limit", number twelve) ∷ [])
    ≡ done (first_rows platform settings 12)
parse_export_params-AsksFor_example =
    parse_export_params-AsksFor platform settings body 12 (number twelve) (omega arith)
      (omega arith) refl refl (by_number twelve twelve_text)
