-- ===== src/Export/Params/Settings.antt =====
-- src/export/export-params.ts, `loadExportSettings`: the guards of the endpoint. `coerce` is `Number` of
-- a value of the configuration, where it is an integer that is not negative.
use dashboard_template_api.Common.{
  ℕ, ◌<◌, Option, none, some, String, ltb, str_eq, if◌then◌else◌, arith,
}
use dashboard_template_api.Common.Map.{Map}
use dashboard_template_api.Utils.FilterTree.Input.{
  Value, undefined, null, bool, number, string, array, object,
}
use dashboard_template_api.Utils.FilterTree.Typing.{Platform}
use dashboard_template_api.Export.Params.{get_value}

pub record ExportSettings : Type 0 where
  pub max_rows : ℕ
  pub max_concurrent_per_ip : ℕ
  pub max_concurrent_total : ℕ
  pub timeout_ms : ℕ
  pub transfer_timeout_ms : ℕ
  pub tmp_min_free_mb : ℕ
  pub tmp_dir : String

module _ (js : Platform) (coerce : Value → Option ℕ) where
  abbrev pub positive_or : Option ℕ → ℕ → ℕ
  positive_or none fallback = fallback
  positive_or (some n) fallback = if ltb 0 n then n else fallback

  unfoldable pub positive_int : Value → ℕ → ℕ
  positive_int raw fallback = positive_or (coerce raw) fallback

  abbrev pub coerced_or : Option ℕ → ℕ → ℕ
  coerced_or none fallback = fallback
  coerced_or (some n) fallback = n

  -- an empty text and null count as missing, though `Number` makes 0 of them
  unfoldable pub non_negative_int : Value → ℕ → ℕ
  non_negative_int null fallback = fallback
  non_negative_int (string s) fallback =
      if str_eq s "" then fallback else coerced_or (coerce (string s)) fallback
  non_negative_int undefined fallback = coerced_or (coerce undefined) fallback
  non_negative_int (bool b) fallback = coerced_or (coerce (bool b)) fallback
  non_negative_int (number n) fallback = coerced_or (coerce (number n)) fallback
  non_negative_int (array items) fallback = coerced_or (coerce (array items)) fallback
  non_negative_int (object entries) fallback = coerced_or (coerce (object entries)) fallback

  -- the trimmed directory, or the default one, below the system's
  abbrev pub directory_of : String → Value → String
  directory_of default_dir (string s) =
      let dir = js.trim s in if str_eq dir "" then default_dir else dir
  directory_of default_dir v = default_dir

  -- `section` is the EXPORT section, empty where there is none.
  unfoldable pub load_export_settings : String → Map Value → ExportSettings
  unfolding positive_int non_negative_int
  load_export_settings default_dir section = record {
    max_rows = positive_int (get_value "MAX_ROWS" section) 5000000;
    max_concurrent_per_ip = positive_int (get_value "MAX_CONCURRENT_PER_IP" section) 2;
    max_concurrent_total = positive_int (get_value "MAX_CONCURRENT_TOTAL" section) 2;
    timeout_ms = positive_int (get_value "TIMEOUT_MS" section) 120000;
    transfer_timeout_ms = positive_int (get_value "TRANSFER_TIMEOUT_MS" section) 600000;
    tmp_min_free_mb = non_negative_int (get_value "TMP_MIN_FREE_MB" section) 1024;
    tmp_dir = directory_of default_dir (get_value "TMP_DIR" section);
  }

  positive_or-positive : (o : Option ℕ) (fallback : ℕ) → 0 < fallback → 0 < positive_or o fallback
  positive_or-positive none fallback h = h
  positive_or-positive (some n) fallback h = ground (arith, h)

  pub max_rows-positive :
      (default_dir : String) (section : Map Value)
      → 0 < (load_export_settings default_dir section).max_rows
  unfolding load_export_settings positive_int
  max_rows-positive default_dir section =
      positive_or-positive (coerce (get_value "MAX_ROWS" section)) 5000000 (omega arith)
