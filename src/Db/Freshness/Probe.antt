-- ===== src/Db/Freshness/Probe.antt =====
-- src/db/catalog-freshness.ts, `runProbe` and `getStatus`.
use mathlib.Core.List.{◌++◌}
use dashboard_template_api.Common.{
  Bool, true, false, not, ◌&&◌, Option, none, some, List, [], ◌∷◌, map, filter, length, all, String,
  str_eq, ◌==◌, if◌then◌else◌,
}
use dashboard_template_api.Common.Map.{Map}
use dashboard_template_api.Common.Result.{Result, done, thrown}
use dashboard_template_api.Utils.FilterTree.Typing.{set_has}
use dashboard_template_api.Db.Freshness.{
  DataVersion, CatalogProbeResult, Served, Expected, CatalogFreshnessMonitor,
}
use dashboard_template_api.Db.Freshness.Record.{catalog_failure, record_result}

pub record ProbeOutcome : Type 0 where
  pub changed : List String
  pub reloaded : Bool
  pub versions : Map (Map DataVersion)

-- A probe that takes its turn, with its `forceReload`.
unfoldable pub begin : CatalogFreshnessMonitor → Option (Bool × CatalogFreshnessMonitor)
begin m = elim m.queue [
  | [] ↦ none
  | force ∷ queue ↦
      if m.running then none else some (force, record m { queue = queue; running = true })
]

-- the targets that the reader gets
unfoldable pub targets : Served → List (String × List String)
targets served = map (λ catalog. (catalog, served.get_schemas catalog)) served.entries

-- a reader that throws fails for each catalog
abbrev pub results_of :
    List String → Result String (List CatalogProbeResult) → List CatalogProbeResult
results_of catalogs (done results) = results
results_of catalogs (thrown message) = map (λ catalog. catalog_failure catalog message) catalogs

pub record Read : Type 0 where
  pub changed : List String
  pub expected : Expected
  pub monitor : CatalogFreshnessMonitor

-- the loop over the results
unfoldable pub record_all : Served → String → List CatalogProbeResult → Read → Read
unfolding record_result
record_all served probed_at [] r = r
record_all served probed_at (result ∷ results) r =
    let o = record_result served result probed_at r.expected r.monitor in
    record_all served probed_at results (record {
      changed = if o.changed then r.changed ++ result.catalog ∷ [] else r.changed;
      expected = o.expected;
      monitor = o.monitor;
    })

pub data Step : Type 0 where
  ended : ProbeOutcome → CatalogFreshnessMonitor → Step
  reloading : Read → Step

abbrev pub is_empty {ℓ} : {A : Type ℓ} → List A → Bool
is_empty [] = true
is_empty (x ∷ xs) = false

abbrev pub step_of : Bool → Served → Read → Step
step_of true served r =
    ended (record { changed = r.changed; reloaded = false; versions = served.get_data_versions })
      (record (r.monitor) { running = false })
step_of false served r = reloading r

abbrev pub decide_probe : Served → Bool → Read → Step
decide_probe served force r = step_of (is_empty r.changed && not force) served r

abbrev pub unread : CatalogFreshnessMonitor → Read
unread m = record {
  changed = [];
  expected = record { versions = []; schema_lists = [] };
  monitor = m;
}

-- From the reading of the markers to the end, or to the reload; `catalogs` were the targets.
unfoldable pub after_read :
    Served
    → List String
    → Bool
    → String
    → Result String (List CatalogProbeResult)
    → CatalogFreshnessMonitor
    → Step
unfolding record_all
after_read served catalogs force probed_at read m =
    decide_probe served force (record_all served probed_at (results_of catalogs read) (unread m))

unfoldable pub same_schemas : List String → List String → Bool
same_schemas a b = (length a == length b) && all (set_has b) a

-- The warnings of a reload that serves something else than what was probed.
abbrev pub unexpected_versions :
    Served → List (String × String × String) → List (String × String × String)
unexpected_versions served expected =
    filter (λ e. not (str_eq (served.get_data_version e.0 e.1) e.2)) expected

abbrev pub unexpected_lists : Served → List (String × List String) → List (String × List String)
unexpected_lists served expected =
    filter (λ e. not (same_schemas (served.get_schemas e.0) e.1)) expected

pub record Reloaded : Type 0 where
  pub outcome : Result String ProbeOutcome
  pub warned : Expected
  pub monitor : CatalogFreshnessMonitor

-- The end of a probe that reloaded: the reload gives its date or its error; `served` is what is served
-- then.
unfoldable pub after_reload : Served → Bool → Result String String → Read → Reloaded
unfolding same_schemas
after_reload served force (done now) r = record {
  outcome =
      done (record { changed = r.changed; reloaded = true; versions = served.get_data_versions });
  warned = record {
    versions = unexpected_versions served r.expected.versions;
    schema_lists = unexpected_lists served r.expected.schema_lists;
  };
  monitor = record (r.monitor) {
    last_reload_at = some now;
    last_reload_error = none;
    running = false;
  };
}
after_reload served force (thrown message) r = record {
  outcome =
      if force
      then thrown message
      else done
          (record { changed = r.changed; reloaded = false; versions = served.get_data_versions });
  warned = record { versions = []; schema_lists = [] };
  monitor = record (r.monitor) { last_reload_error = some message; running = false };
}
