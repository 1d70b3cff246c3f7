-- ===== src/Db/Schemas/Served.antt =====
-- Which schemas are served.
use text.Mathlib.TextEquality.{eq_iff}
use dashboard_template_api.Common.{
  ◌≡◌, refl, ap, ◌∙◌, inl, inr, Bool, false, not, ◌&&◌, ◌||◌, List, [], ◌∷◌, filter, String, str_eq,
  arith, Bool-cases, if◌then◌else◌,
}
use dashboard_template_api.Utils.FilterTree.Typing.{set_has}
use dashboard_template_api.Utils.Metadata.Choice.{set_has-sort}
use dashboard_template_api.Db.Schemas.{
  SchemaPolicy, is_empty, main_first, order_discovered, intersected, reconcile_schema_list,
}

-- Some configured schema was discovered.
abbrev pub meets : List String → List String → Bool
meets discovered [] = false
meets discovered (s ∷ configured) = set_has discovered s || meets discovered configured

pub set_has-filter :
    (p : String → Bool) (xs : List String) (s : String)
    → set_has (filter p xs) s ≡ (set_has xs s && p s)
set_has-filter p [] s = refl
set_has-filter p (x ∷ xs) s = elim (Bool-cases (str_eq x s)) [
  | inl same ↦ ground (arith, set_has-filter p xs s, same, ap p ((eq_iff x s).0 same))
  | inr other ↦ ground (arith, set_has-filter p xs s, other)
]

filter-empty :
    (discovered xs : List String)
    → is_empty (filter (set_has discovered) xs) ≡ not (meets discovered xs)
filter-empty discovered [] = refl
filter-empty discovered (x ∷ xs) = ground (arith, filter-empty discovered xs)

-- The served schemas: of an explicit list, the discovered ones, or all of it where none was discovered;
-- otherwise the discovered schemas, or `main` where there are none.
abbrev pub is_served : SchemaPolicy → List String → String → Bool
is_served policy discovered s =
    if policy.explicit
    then set_has policy.configured s
      && (not (meets discovered policy.configured) || set_has discovered s)
    else if is_empty discovered
    then str_eq "main" s
    else set_has discovered s

intersected-schemas :
    (configured missing shared : List String) (s : String)
    → set_has (intersected configured missing shared).schemas s
      ≡ (if is_empty shared then set_has configured s else set_has shared s)
intersected-schemas configured missing [] s = refl
intersected-schemas configured missing (x ∷ shared) s = refl

module _ (before : String → String → Bool) where
  -- The schemas that a catalog serves after a discovery: of an explicit list, those discovered, or the
  -- whole list where none is; without one, those discovered, or `main` where there are none.
  pub reconcile_schema_list_lem :
      (discovered : List String) (policy : SchemaPolicy) (s : String)
      → set_has (reconcile_schema_list before discovered policy).schemas s
        ≡ is_served policy discovered s
  unfolding reconcile_schema_list
  reconcile_schema_list_lem discovered policy s = elim (Bool-cases policy.explicit) [
    | inl explicit ↦ rw explicit (
        intersected-schemas policy.configured _ _ s
        ∙ ground (
          arith,
          filter-empty discovered policy.configured,
          set_has-filter (set_has discovered) policy.configured s,
        ))
    | inr implicit ↦ rw implicit (elim (Bool-cases (is_empty discovered)) [
      | inl blank ↦ rw blank (ground arith)
      | inr there ↦
          rw there (unfold order_discovered in set_has-sort (main_first before) discovered s)
    ])
  ]
