-- ===== src/Db/Freshness/Tests.antt =====
-- A catalog with two schemas, of which one was written to.
use dashboard_template_api.Common.{
  ◌≡◌, refl, ◌||◌, not, Bool, true, false, none, some, List, [], ◌∷◌, String, str_eq, if◌then◌else◌,
}
use dashboard_template_api.Common.Map.{lookup, insert}
use dashboard_template_api.Common.Result.{Result, done, thrown}
use dashboard_template_api.Utils.FilterTree.Typing.{set_has}
use dashboard_template_api.Db.Schemas.{SchemaPolicy, reconcile_schema_list, order_discovered}
use dashboard_template_api.Db.Freshness.{
  DataVersion, CatalogProbeResult, Served, CatalogFreshnessMonitor, new_monitor,
}
use dashboard_template_api.Db.Freshness.Record.{status_of, record_schemas, record_result}
use dashboard_template_api.Db.Freshness.Reader.{
  read_markers, any_unreadable, keep_listed, read_catalog,
}
use dashboard_template_api.Db.Freshness.Probe.{
  Read, is_empty, results_of, record_all, unread, after_read, after_reload,
}
use dashboard_template_api.Db.Freshness.Changes.{
  catalogs_of, is_reloading, is_relisted, changed_catalogs, after_read_lem,
}
use dashboard_template_api.Db.Freshness.Stable.{is_relisted-stable}
use dashboard_template_api.Db.Freshness.Listed.{read_catalog-listed}

runs : Unit {0}
unfolding lookup insert reconcile_schema_list order_discovered new_monitor status_of record_schemas
    record_result read_markers any_unreadable keep_listed read_catalog record_all after_read
    after_reload
runs = tt

abbrev before : String → String → Bool
before a b = true

abbrev allow_list : SchemaPolicy
allow_list = record { configured = "main" ∷ "stock" ∷ []; explicit = true }

abbrev served : Served
served = record {
  entries = "c" ∷ [];
  get_schemas = λ catalog. "main" ∷ "stock" ∷ [];
  reconcile_schemas =
      λ catalog discovered. (reconcile_schema_list before discovered allow_list).schemas;
  get_data_version = λ catalog schema. "1";
  get_data_versions = [];
}

abbrev marker : String → Result String DataVersion
marker schema =
    if str_eq schema "main"
    then done (record { version = "2"; updated_at = none })
    else thrown "dropped"

abbrev dropped : CatalogProbeResult
dropped =
    read_catalog marker (done ("main" ∷ [])) "c" ("main" ∷ "stock" ∷ []) none
      (done ("stock" ∷ "main" ∷ []))

-- Of three schemas one is dropped between the two lists, and one has no readable marker.
abbrev three : List String
three = "main" ∷ "stock" ∷ "old" ∷ []

read_catalog-listed_example :
    (set_has three "stock" ≡ true)
    × (set_has three "stock" ≡ true)
    × (set_has ("main" ∷ "stock" ∷ []) "stock" ≡ true)
unfolding runs
read_catalog-listed_example =
    read_catalog-listed marker ("main" ∷ "stock" ∷ []) "c" three three "stock" refl refl

abbrev monitor : CatalogFreshnessMonitor
monitor = new_monitor (record { enabled = true; interval_ms = none })

abbrev probed : Result String (List CatalogProbeResult)
probed = done (dropped ∷ [])

found : changed_catalogs served (results_of ("c" ∷ []) probed) ≡ "c" ∷ []
unfolding runs
found = refl

unreadable : changed_catalogs served (results_of ("c" ∷ []) (thrown "no instance")) ≡ []
unreadable = refl

after_read_lem_example :
    (catalogs_of (after_read served ("c" ∷ []) false "t" probed monitor)
      ≡ changed_catalogs served (results_of ("c" ∷ []) probed))
    × (is_reloading (after_read served ("c" ∷ []) false "t" probed monitor)
        ≡ (false || not (is_empty (changed_catalogs served (results_of ("c" ∷ []) probed)))))
after_read_lem_example = after_read_lem served ("c" ∷ []) false "t" probed monitor

abbrev read : Read
read = record_all served "t" (results_of ("c" ∷ []) probed) (unread monitor)

is_relisted-stable_example : is_relisted served "c" (some ("stock" ∷ "main" ∷ [])) ≡ false
unfolding runs
is_relisted-stable_example =
    is_relisted-stable before allow_list served "c" ("stock" ∷ "main" ∷ []) ("stock" ∷ "main" ∷ [])
      refl refl λ s. refl
