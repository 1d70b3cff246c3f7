-- ===== src/Db/Freshness/Changes.antt =====
-- What a probe takes for a change, and when it reloads.
use mathlib.Core.List.{◌++◌, append-nil, append_assoc}
use dashboard_template_api.Common.{
  ◌≡◌, refl, sym, ap, ◌∙◌, Bool, true, false, not, ◌&&◌, ◌||◌, Option, none, some, List, [], ◌∷◌,
  String, str_eq, arith, if◌then◌else◌,
}
use dashboard_template_api.Common.Map.{Map, lookup}
use dashboard_template_api.Common.Result.{Result}
use dashboard_template_api.Db.Freshness.{
  DataVersion, SchemaProbe, CatalogProbeResult, Served, Expected, SchemaFreshnessStatus,
  CatalogFreshnessStatus, CatalogFreshnessMonitor, or_else,
}
use dashboard_template_api.Db.Freshness.Record.{
  Recorded, differs, record_list, record_marker, record_schemas, unknown_schema, status_of,
  failed_with, record_readable, record_result,
}
use dashboard_template_api.Db.Freshness.Probe.{
  results_of, Read, record_all, Step, ended, reloading, step_of, is_empty, unread, after_read,
}

-- A marker that was read and is not the version served.
abbrev pub is_moved : Served → String → String → Option DataVersion → Bool
is_moved served catalog schema none = false
is_moved served catalog schema (some marker) =
    not (str_eq marker.version (served.get_data_version catalog schema))

abbrev pub any_moved : Served → String → Map SchemaProbe → Bool
any_moved served catalog [] = false
any_moved served catalog ((schema, probe) ∷ probes) =
    is_moved served catalog schema probe.marker || any_moved served catalog probes

-- A list that was read and is reconciled to other schemas than those served.
abbrev pub is_relisted : Served → String → Option (List String) → Bool
is_relisted served catalog none = false
is_relisted served catalog (some discovered) =
    differs (served.get_schemas catalog) (served.reconcile_schemas catalog discovered)

abbrev pub is_failed : Option String → Bool
is_failed none = false
is_failed (some error) = true

-- A change: a catalog that was read, and another list of schemas or another version.
abbrev pub is_changed : Served → CatalogProbeResult → Bool
is_changed served result =
    not (is_failed (failed_with result.error))
    && (is_relisted served result.catalog result.discovered
        || any_moved served result.catalog result.schemas)

module _ (served : Served) (catalog probed_at : String) where
  record_marker-changed :
      (schema : String) (probe : SchemaProbe) (marker : Option DataVersion)
      (status : SchemaFreshnessStatus) (r : Recorded)
      → (record_marker served catalog probed_at schema probe marker status r).changed
        ≡ (r.changed || is_moved served catalog schema marker)
  record_marker-changed schema probe none status r = ground arith
  record_marker-changed schema probe (some marker) status r = refl

  record_schemas-changed :
      (probes : Map SchemaProbe) (r : Recorded)
      → (record_schemas served catalog probed_at probes r).changed
        ≡ (r.changed || any_moved served catalog probes)
  unfolding record_schemas
  record_schemas-changed [] r = ground arith
  record_schemas-changed ((schema, probe) ∷ probes) r =
      let status =
        or_else (unknown_schema (served.get_data_version catalog schema))
          (lookup schema r.schemas) in
      record_schemas-changed probes
        (record_marker served catalog probed_at schema probe probe.marker status r)
      ∙ ground (arith, record_marker-changed schema probe probe.marker status r)

  record_list-changed :
      (discovered : Option (List String)) (error : Option String) (expected : Expected)
      (schemas : Map SchemaFreshnessStatus)
      → (record_list served catalog probed_at discovered error expected schemas).changed
        ≡ is_relisted served catalog discovered
  record_list-changed none error expected schemas = refl
  record_list-changed (some discovered) error expected schemas = refl

record_readable-changed :
    (served : Served) (result : CatalogProbeResult) (probed_at : String)
    (status : CatalogFreshnessStatus) (error : Option String) (expected : Expected)
    (m : CatalogFreshnessMonitor)
    → (record_readable served result probed_at status error expected m).changed ≡ (
        not (is_failed error)
        && (is_relisted served result.catalog result.discovered
            || any_moved served result.catalog result.schemas))
record_readable-changed served result probed_at status (some error) expected m = refl
record_readable-changed served result probed_at status none expected m =
    record_schemas-changed served result.catalog probed_at result.schemas _
    ∙ ap (λ b. b || any_moved served result.catalog result.schemas)
        (record_list-changed served result.catalog probed_at result.discovered
          result.discovery_error expected status.schemas)

-- What the monitor held before has no part in it.
record_result-changed :
    (served : Served) (result : CatalogProbeResult) (probed_at : String) (expected : Expected)
    (m : CatalogFreshnessMonitor)
    → (record_result served result probed_at expected m).changed ≡ is_changed served result
unfolding record_result
record_result-changed served result probed_at expected m =
    record_readable-changed served result probed_at (status_of result probed_at m.catalog_status)
      (failed_with result.error) expected m

-- The catalogs of the results that changed.
abbrev pub changed_catalogs : Served → List CatalogProbeResult → List String
changed_catalogs served [] = []
changed_catalogs served (result ∷ results) =
    let rest = changed_catalogs served results in
    if is_changed served result then result.catalog ∷ rest else rest

snoc-or :
    (b : Bool) (x : String) (xs ys : List String)
    → (if b then xs ++ x ∷ [] else xs) ++ ys ≡ xs ++ (if b then x ∷ ys else ys)
snoc-or true x xs ys = append_assoc xs (x ∷ []) ys
snoc-or false x xs ys = refl

record_all-changed :
    (served : Served) (probed_at : String) (results : List CatalogProbeResult) (r : Read)
    → (record_all served probed_at results r).changed ≡ r.changed ++ changed_catalogs served results
unfolding record_all
record_all-changed served probed_at [] r = sym (append-nil r.changed)
record_all-changed served probed_at (result ∷ results) r =
    record_all-changed served probed_at results _
    ∙ rw (record_result-changed served result probed_at r.expected r.monitor) (
        snoc-or (is_changed served result) result.catalog r.changed
          (changed_catalogs served results))

abbrev pub catalogs_of : Step → List String
catalogs_of (ended outcome m) = outcome.changed
catalogs_of (reloading r) = r.changed

abbrev pub is_reloading : Step → Bool
is_reloading (ended outcome m) = false
is_reloading (reloading r) = true

step_of-catalogs :
    (quiet : Bool) (served : Served) (r : Read)
    → (catalogs_of (step_of quiet served r) ≡ r.changed)
      × (is_reloading (step_of quiet served r) ≡ not quiet)
step_of-catalogs true served r = (refl, refl)
step_of-catalogs false served r = (refl, refl)

-- A probe finds changed exactly the catalogs that were read and whose reconciled schemas, or the
-- version of a schema that was read, are not those served: whatever failed to be read counts for
-- nothing, and so does all that the monitor held before. It reloads exactly when forced to or when
-- there is such a catalog.
pub after_read_lem :
    (served : Served) (catalogs : List String) (force : Bool) (probed_at : String)
    (read : Result String (List CatalogProbeResult)) (m : CatalogFreshnessMonitor)
    → (catalogs_of (after_read served catalogs force probed_at read m)
        ≡ changed_catalogs served (results_of catalogs read))
      × (is_reloading (after_read served catalogs force probed_at read m)
          ≡ (force || not (is_empty (changed_catalogs served (results_of catalogs read)))))
unfolding after_read
after_read_lem served catalogs force probed_at read m =
    let results = results_of catalogs read in
    let r = record_all served probed_at results (unread m) in
    let changed = record_all-changed served probed_at results (unread m) in
    let (catalogs, reloads) = step_of-catalogs (is_empty r.changed && not force) served r in
    (
      catalogs ∙ changed,
      reloads ∙ ap (λ names. not (is_empty names && not force)) changed ∙ ground arith,
    )
