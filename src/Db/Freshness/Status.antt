-- ===== src/Db/Freshness/Status.antt =====
-- src/db/catalog-freshness.ts, `getStatus`: what the metrics show.
use dashboard_template_api.Common.{ℕ, Bool, Option, none, some, [], map, String}
use dashboard_template_api.Common.Map.{Map, lookup}
use dashboard_template_api.Db.Freshness.{
  DataVersion, Served, SchemaFreshnessStatus, CatalogFreshnessStatus, CatalogFreshnessMonitor,
}

pub record FreshnessStatus : Type 0 where
  pub enabled : Bool
  pub interval_ms : ℕ
  pub last_reload_at : Option String
  pub last_reload_error : Option String
  pub skipped_ticks : ℕ
  pub catalogs : Map CatalogFreshnessStatus

abbrev probed_schemas : Option CatalogFreshnessStatus → Map SchemaFreshnessStatus
probed_schemas none = []
probed_schemas (some known) = known.schemas

abbrev schema_status : DataVersion → Option SchemaFreshnessStatus → SchemaFreshnessStatus
schema_status served none = record {
  served_version = served.version;
  served_updated_at = served.updated_at;
  probed_version = none;
  probed_updated_at = none;
  last_probe_at = none;
  last_error = none;
}
schema_status served (some probed) = record probed {
  served_version = served.version;
  served_updated_at = served.updated_at;
}

abbrev catalog_status :
    Map SchemaFreshnessStatus → Option CatalogFreshnessStatus → CatalogFreshnessStatus
catalog_status schemas none = record {
  last_probe_at = none;
  last_probe_ok = none;
  last_error = none;
  last_change_at = none;
  discovered_schemas = none;
  schemas = schemas;
}
catalog_status schemas (some known) = record known { schemas = schemas }

abbrev with_schemas : Map DataVersion → Option CatalogFreshnessStatus → CatalogFreshnessStatus
with_schemas versions known =
    catalog_status
      (map (λ v. (v.0, schema_status v.1 (lookup v.0 (probed_schemas known)))) versions) known

unfoldable pub get_status : Served → CatalogFreshnessMonitor → FreshnessStatus
unfolding lookup
get_status served m = record {
  enabled = m.enabled;
  interval_ms = m.interval_ms;
  last_reload_at = m.last_reload_at;
  last_reload_error = m.last_reload_error;
  skipped_ticks = m.skipped_ticks;
  catalogs =
      map (λ c. (c.0, with_schemas c.1 (lookup c.0 m.catalog_status))) served.get_data_versions;
}
