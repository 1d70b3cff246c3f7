-- ===== src/Db/Freshness/Listed.antt =====
-- Which schemas the reader answers for.
use text.Mathlib.TextEquality.{eq_iff}
use dashboard_template_api.Common.{
  ◌≡◌, refl, sym, ap, ◌∙◌, inl, inr, Bool, true, false, ◌&&◌, ◌||◌, Option, none, some, List, [],
  ◌∷◌, String, str_eq, arith, Bool-cases,
}
use dashboard_template_api.Common.Map.{Map, insert}
use dashboard_template_api.Common.Result.{Result, done}
use dashboard_template_api.Utils.FilterTree.Typing.{set_has}
use dashboard_template_api.Db.Schemas.Served.{set_has-filter}
use dashboard_template_api.Db.Freshness.{DataVersion, SchemaProbe}
use dashboard_template_api.Db.Freshness.Reader.{
  probe_of, to_read, keep_listed, read_markers, relisted, read_catalog, any_unreadable,
}

-- The schemas that a result has a probe of.
abbrev pub has_probe : Map SchemaProbe → String → Bool
has_probe [] s = false
has_probe ((schema, probe) ∷ probes) s = str_eq schema s || has_probe probes s

-- A schema is in the list, where there is one.
abbrev pub in_list : Option (List String) → String → Bool
in_list none s = true
in_list (some names) s = set_has names s

has_probe-insert :
    (schema : String) (probe : SchemaProbe) (probes : Map SchemaProbe) (s : String)
    → has_probe (insert schema probe probes) s ≡ (has_probe probes s || str_eq schema s)
unfolding insert
has_probe-insert schema probe [] s = ground arith
has_probe-insert schema probe ((name, held) ∷ probes) s = elim (Bool-cases (str_eq name schema)) [
  | inl same ↦ rw same (ground (arith, ap (λ n. str_eq n s) ((eq_iff name schema).0 same)))
  | inr other ↦ rw other (ground (arith, has_probe-insert schema probe probes s))
]

module _ (read : String → Result String DataVersion) where
  has_probe-read_markers :
      (names : List String) (probes : Map SchemaProbe) (s : String)
      → has_probe (read_markers read names probes) s ≡ (has_probe probes s || set_has names s)
  unfolding read_markers
  has_probe-read_markers [] probes s = ground arith
  has_probe-read_markers (name ∷ names) probes s =
      has_probe-read_markers names _ s
      ∙ ground (arith, has_probe-insert name (probe_of (read name)) probes s)

-- Equal names are listed alike.
set_has_same :
    (names : List String) (x y : String) → str_eq x y ≡ true → set_has names x ≡ set_has names y
set_has_same names x y h = ap (set_has names) ((eq_iff x y).0 h)

has_probe-keep_listed :
    (fresh : List String) (probes : Map SchemaProbe) (s : String)
    → has_probe (keep_listed fresh probes) s ≡ (has_probe probes s && set_has fresh s)
unfolding keep_listed
has_probe-keep_listed fresh [] s = refl
has_probe-keep_listed fresh ((schema, probe) ∷ probes) s =
    elim (Bool-cases (set_has fresh schema)) [
      | inl there ↦
          rw there (
            ground
              (arith, has_probe-keep_listed fresh probes s, set_has_same fresh schema s, there))
      | inr gone ↦
          rw gone (
            ground (arith, has_probe-keep_listed fresh probes s, set_has_same fresh schema s, gone))
    ]

has_probe-to_read :
    (listed : Option (List String)) (served : List String) (s : String)
    → set_has (to_read listed served) s ≡ (set_has served s && in_list listed s)
has_probe-to_read none served s = ground arith
has_probe-to_read (some names) served s = set_has-filter (set_has names) served s

has_probe-relisted :
    (fresh names : List String) (probes : Map SchemaProbe) (s : String)
    → any_unreadable (relisted (done fresh) (some names) probes).1 ≡ true
    → has_probe (relisted (done fresh) (some names) probes).1 s ≡ true
    → (has_probe probes s && set_has fresh s) ≡ true
has_probe-relisted fresh names probes s unreadable there =
    elim (Bool-cases (any_unreadable probes)) [
      | inl failed ↦ sym (has_probe-keep_listed fresh probes s) ∙ (rw failed at there)
      | inr read ↦ absurd (cc (read, rw read at unreadable))
    ]

-- When a marker of the result could not be read and the schemas were listed a second time, every
-- schema that the result answers for was to be read, and stands in the second list as in the first: a
-- schema that was dropped between the two lists is no unreadable marker.
pub read_catalog-listed :
    (read : String → Result String DataVersion) (fresh : List String) (catalog : String)
    (served names : List String) (s : String)
    → any_unreadable (read_catalog read (done fresh) catalog served none (done names)).schemas
      ≡ true
    → has_probe (read_catalog read (done fresh) catalog served none (done names)).schemas s ≡ true
    → (set_has served s ≡ true) × (set_has names s ≡ true) × (set_has fresh s ≡ true)
unfolding read_catalog
read_catalog-listed read fresh catalog served names s unreadable h =
    let probes = read_markers read (to_read (some names) served) [] in
    let probed = has_probe-read_markers read (to_read (some names) served) [] s in
    let known = has_probe-to_read (some names) served s in
    let both = has_probe-relisted fresh names probes s unreadable h in
    (ground (arith, both, probed, known), ground (arith, both, probed, known), ground (arith, both))
