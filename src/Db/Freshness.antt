-- ===== src/Db/Freshness.antt =====
-- src/db/catalog-freshness.ts: the monitor that reads the data markers of the catalogs and reloads
-- them when they changed. A probe is cut at its awaits: the markers are read, then the catalogs are
-- reloaded; what is served at each of these moments is an argument. Dates are texts.
pub mod Record
pub mod Reader
pub mod Probe
pub mod Status
pub mod Changes
pub mod Stable
pub mod Listed
pub mod Tests
use mathlib.Core.List.{◌++◌}
use dashboard_template_api.Common.{
  ℕ, suc, ◌+◌, Bool, true, false, not, ◌&&◌, ◌||◌, Option, none, some, List, [], ◌∷◌, map, filter,
  length, all, String, str_eq, ◌==◌, if◌then◌else◌,
}
use dashboard_template_api.Common.Map.{Map, lookup, insert}
use dashboard_template_api.Common.Result.{Result, done, thrown}
use dashboard_template_api.Utils.FilterTree.Typing.{set_has}
use dashboard_template_api.Utils.FilterTree.Values.{is_empty_text}

pub record DataVersion : Type 0 where
  pub version : String
  pub updated_at : Option String

abbrev pub no_data_version : String
no_data_version = "none"

pub record SchemaProbe : Type 0 where
  pub marker : Option DataVersion
  pub error : Option String

pub record CatalogProbeResult : Type 0 where
  pub catalog : String
  pub schemas : Map SchemaProbe
  pub discovered : Option (List String)
  pub discovery_error : Option String
  pub error : Option String

-- What the database layer serves, as the monitor reads it.
pub record Served : Type 0 where
  pub entries : List String
  pub get_schemas : String → List String
  pub reconcile_schemas : String → List String → List String
  pub get_data_version : String → String → String
  pub get_data_versions : Map (Map DataVersion)

pub record SchemaFreshnessStatus : Type 0 where
  pub served_version : String
  pub served_updated_at : Option String
  pub probed_version : Option String
  pub probed_updated_at : Option String
  pub last_probe_at : Option String
  pub last_error : Option String

pub record CatalogFreshnessStatus : Type 0 where
  pub last_probe_at : Option String
  pub last_probe_ok : Option Bool
  pub last_error : Option String
  pub last_change_at : Option String
  pub discovered_schemas : Option (List String)
  pub schemas : Map SchemaFreshnessStatus

pub record FreshnessSettings : Type 0 where
  pub enabled : Bool
  pub interval_ms : Option ℕ

-- `queue`: the `forceReload` of the probes that wait for their turn.
pub record CatalogFreshnessMonitor : Type 0 where
  pub enabled : Bool
  pub interval_ms : ℕ
  pub timer : Bool
  pub queue : List Bool
  pub running : Bool
  pub skipped_ticks : ℕ
  pub last_reload_at : Option String
  pub last_reload_error : Option String
  pub catalog_status : Map CatalogFreshnessStatus

-- `ReloadExpectations`: catalog, schema and version; catalog and schemas
pub record Expected : Type 0 where
  pub versions : List (String × String × String)
  pub schema_lists : List (String × List String)

abbrev pub or_else {ℓ} : {A : Type ℓ} → A → Option A → A
or_else fallback none = fallback
or_else fallback (some a) = a

-- an interval that is not finite and above 0 is `none`
unfoldable pub new_monitor : FreshnessSettings → CatalogFreshnessMonitor
new_monitor settings = record {
  enabled = settings.enabled;
  interval_ms = or_else 60000 settings.interval_ms;
  timer = false;
  queue = [];
  running = false;
  skipped_ticks = 0;
  last_reload_at = none;
  last_reload_error = none;
  catalog_status = [];
}

unfoldable pub start : CatalogFreshnessMonitor → CatalogFreshnessMonitor
start m = if not m.enabled || m.timer then m else record m { timer = true }

unfoldable pub stop : CatalogFreshnessMonitor → CatalogFreshnessMonitor
stop m = record m { timer = false }

-- `probeNow`: the probe is queued behind the others
unfoldable pub probe_now : Bool → CatalogFreshnessMonitor → CatalogFreshnessMonitor
probe_now force m = record m { queue = m.queue ++ force ∷ [] }

unfoldable pub tick : CatalogFreshnessMonitor → CatalogFreshnessMonitor
unfolding probe_now
tick m = if m.running then record m { skipped_ticks = m.skipped_ticks + 1 } else probe_now false m
