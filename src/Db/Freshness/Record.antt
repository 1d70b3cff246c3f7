-- ===== src/Db/Freshness/Record.antt =====
-- src/db/catalog-freshness.ts, `recordResult`: what a probe's result changes in the monitor.
use mathlib.Core.List.{◌++◌}
use dashboard_template_api.Common.{
  Bool, true, false, not, ◌||◌, Option, none, some, List, [], ◌∷◌, all, String, str_eq,
  if◌then◌else◌,
}
use dashboard_template_api.Common.Map.{Map, lookup, insert}
use dashboard_template_api.Utils.FilterTree.Typing.{set_has}
use dashboard_template_api.Utils.FilterTree.Values.{is_empty_text}
use dashboard_template_api.Db.Freshness.{
  DataVersion, no_data_version, SchemaProbe, CatalogProbeResult, Served, SchemaFreshnessStatus,
  CatalogFreshnessStatus, CatalogFreshnessMonitor, Expected, or_else,
}

abbrev pub catalog_failure : String → String → CatalogProbeResult
catalog_failure catalog error = record {
  catalog = catalog;
  schemas = [];
  discovered = none;
  discovery_error = none;
  error = some error;
}

abbrev pub unknown_catalog : CatalogFreshnessStatus
unknown_catalog = record {
  last_probe_at = none;
  last_probe_ok = none;
  last_error = none;
  last_change_at = none;
  discovered_schemas = none;
  schemas = [];
}

abbrev pub unknown_schema : String → SchemaFreshnessStatus
unknown_schema served = record {
  served_version = served;
  served_updated_at = none;
  probed_version = none;
  probed_updated_at = none;
  last_probe_at = none;
  last_error = none;
}

-- What the loop over the schemas of a result collects.
pub record Recorded : Type 0 where
  pub changed : Bool
  pub failure : Option String
  pub expected : Expected
  pub schemas : Map SchemaFreshnessStatus

abbrev pub differs : List String → List String → Bool
differs served reconciled =
    not (all (set_has served) reconciled) || not (all (set_has reconciled) served)

module _ (served : Served) (catalog probed_at : String) where
  -- the schema list of the result
  abbrev pub record_list :
      Option (List String) → Option String → Expected → Map SchemaFreshnessStatus → Recorded
  record_list none discovery_error expected schemas = record {
    changed = false;
    failure = some (or_else "unreadable schema list" discovery_error);
    expected = expected;
    schemas = schemas;
  }
  record_list (some discovered) discovery_error expected schemas =
      let reconciled = served.reconcile_schemas catalog discovered in
      let moved = differs (served.get_schemas catalog) reconciled in
      record {
        changed = moved;
        failure = none;
        expected =
            if moved
            then record expected {
              schema_lists = expected.schema_lists ++ (catalog, reconciled) ∷ [];
            }
            else expected;
        schemas = schemas;
      }

  -- a marker that was read, or not
  abbrev pub record_marker :
      String → SchemaProbe → Option DataVersion → SchemaFreshnessStatus → Recorded → Recorded
  record_marker schema probe none status r =
      let error = or_else "unreadable marker" probe.error in
      record r {
        failure =
            if str_eq (served.get_data_version catalog schema) no_data_version
            then r.failure
            else some error;
        schemas =
            insert schema
              (record status { last_probe_at = some probed_at; last_error = some error }) r.schemas;
      }
  record_marker schema probe (some marker) status r =
      let moved = not (str_eq marker.version (served.get_data_version catalog schema)) in
      record r {
        changed = r.changed || moved;
        expected =
            if moved
            then record r.expected {
              versions = r.expected.versions ++ (catalog, schema, marker.version) ∷ [];
            }
            else r.expected;
        schemas =
            insert schema
              (record status {
                last_probe_at = some probed_at;
                last_error = none;
                probed_version = some marker.version;
                probed_updated_at = marker.updated_at;
              })
              r.schemas;
      }

  unfoldable pub record_schemas : Map SchemaProbe → Recorded → Recorded
  unfolding lookup insert
  record_schemas [] r = r
  record_schemas ((schema, probe) ∷ probes) r = record_schemas probes (
      record_marker schema probe probe.marker
        (or_else (unknown_schema (served.get_data_version catalog schema))
          (lookup schema r.schemas))
        r)

-- `recordResult`: whether the catalog changed, what is expected, and the monitor
pub record Outcome : Type 0 where
  pub changed : Bool
  pub expected : Expected
  pub monitor : CatalogFreshnessMonitor

abbrev pub set_status :
    String → CatalogFreshnessStatus → CatalogFreshnessMonitor → CatalogFreshnessMonitor
set_status catalog status m = record m { catalog_status = insert catalog status m.catalog_status }

abbrev pub is_none {ℓ} : {A : Type ℓ} → Option A → Bool
is_none none = true
is_none (some a) = false

-- `if (result.error)`: an empty text counts as none
abbrev pub failed_with : Option String → Option String
failed_with none = none
failed_with (some error) = if is_empty_text error then none else some error

abbrev pub recorded :
    CatalogProbeResult
    → String
    → CatalogFreshnessStatus
    → Recorded
    → CatalogFreshnessMonitor
    → Outcome
recorded result probed_at status r m = record {
  changed = r.changed;
  expected = r.expected;
  monitor =
      set_status result.catalog
        (record status {
          last_probe_ok = some (is_none r.failure);
          last_error = r.failure;
          last_change_at = if r.changed then some probed_at else status.last_change_at;
          schemas = r.schemas;
        })
        m;
}

abbrev pub record_readable :
    Served
    → CatalogProbeResult
    → String
    → CatalogFreshnessStatus
    → Option String
    → Expected
    → CatalogFreshnessMonitor
    → Outcome
record_readable served result probed_at status (some error) expected m = record {
  changed = false;
  expected = expected;
  monitor =
      set_status result.catalog
        (record status { last_probe_ok = some false; last_error = some error }) m;
}
record_readable served result probed_at status none expected m =
    recorded result probed_at status
      (record_schemas served result.catalog probed_at result.schemas (
        record_list served result.catalog probed_at result.discovered result.discovery_error
          expected status.schemas))
      m

-- the status of the result's catalog, as the probe dates it
unfoldable pub status_of :
    CatalogProbeResult → String → Map CatalogFreshnessStatus → CatalogFreshnessStatus
unfolding lookup
status_of result probed_at known = record (or_else unknown_catalog (lookup result.catalog known)) {
  last_probe_at = some probed_at;
  discovered_schemas = result.discovered;
}

unfoldable pub record_result :
    Served → CatalogProbeResult → String → Expected → CatalogFreshnessMonitor → Outcome
unfolding status_of insert record_schemas
record_result served result probed_at expected m =
    record_readable served result probed_at (status_of result probed_at m.catalog_status)
      (failed_with result.error) expected m
