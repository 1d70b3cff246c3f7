-- ===== src/Db/Freshness/Reader.antt =====
-- src/db/catalog-freshness.ts, `readCatalog`: the schema list and the markers of one catalog. What the
-- throw-away instance answers is an argument: the attach, the list, each marker and the second list.
use dashboard_template_api.Common.{
  Bool, true, false, ◌||◌, Option, none, some, List, [], ◌∷◌, filter, String, if◌then◌else◌,
}
use dashboard_template_api.Common.Map.{Map, insert}
use dashboard_template_api.Common.Result.{Result, done, thrown}
use dashboard_template_api.Utils.FilterTree.Typing.{set_has}
use dashboard_template_api.Db.Freshness.{DataVersion, SchemaProbe, CatalogProbeResult}
use dashboard_template_api.Db.Freshness.Record.{catalog_failure}

abbrev pub probe_of : Result String DataVersion → SchemaProbe
probe_of (done marker) = record { marker = some marker; error = none }
probe_of (thrown message) = record { marker = none; error = some message }

-- the served schemas that are listed, or all of them without a list
abbrev pub to_read : Option (List String) → List String → List String
to_read none schemas = schemas
to_read (some listed) schemas = filter (set_has listed) schemas

abbrev pub is_unreadable : SchemaProbe → Bool
is_unreadable probe = elim probe.marker [ some marker ↦ false | none ↦ true ]

unfoldable pub any_unreadable : Map SchemaProbe → Bool
any_unreadable [] = false
any_unreadable ((schema, probe) ∷ probes) = is_unreadable probe || any_unreadable probes

-- `delete schemas[schema]` of those that are not in the second list
unfoldable pub keep_listed : List String → Map SchemaProbe → Map SchemaProbe
keep_listed fresh [] = []
keep_listed fresh ((schema, probe) ∷ probes) =
    let rest = keep_listed fresh probes in
    if set_has fresh schema then (schema, probe) ∷ rest else rest

abbrev pub listed_of : Result String (List String) → Option (List String)
listed_of (done names) = some names
listed_of (thrown message) = none

abbrev error_of : Result String (List String) → Option String
error_of (done names) = none
error_of (thrown message) = some message

unfoldable pub read_markers :
    (String → Result String DataVersion) → List String → Map SchemaProbe → Map SchemaProbe
unfolding insert
read_markers read [] schemas = schemas
read_markers read (schema ∷ names) schemas =
    read_markers read names (insert schema (probe_of (read schema)) schemas)

-- The list is read again where a marker failed.
abbrev pub relisted :
    Result String (List String)
    → Option (List String)
    → Map SchemaProbe
    → Option (List String) × Map SchemaProbe
relisted second none schemas = (none, schemas)
relisted (thrown message) (some listed) schemas = (some listed, schemas)
relisted (done fresh) (some listed) schemas =
    if any_unreadable schemas
    then (some fresh, keep_listed fresh schemas)
    else (some listed, schemas)

module _ (read : String → Result String DataVersion) (second : Result String (List String)) where
  unfoldable pub read_catalog :
      String → List String → Option String → Result String (List String) → CatalogProbeResult
  unfolding read_markers any_unreadable keep_listed
  read_catalog catalog served (some message) first = catalog_failure catalog message
  read_catalog catalog served none first =
      let listed = listed_of first in
      let answer = relisted second listed (read_markers read (to_read listed served) []) in
      record {
        catalog = catalog;
        schemas = answer.1;
        discovered = answer.0;
        discovery_error = error_of first;
        error = none;
      }
