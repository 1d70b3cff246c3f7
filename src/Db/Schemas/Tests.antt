-- ===== src/Db/Schemas/Tests.antt =====
-- A catalog with an explicit list and one without.
use dashboard_template_api.Common.{◌≡◌, refl, true, false, [], ◌∷◌, String, Bool}
use dashboard_template_api.Common.Sort.{insert_sorted, sort}
use dashboard_template_api.Db.Schemas.{SchemaPolicy, reconcile_schema_list, order_discovered}

runs : Unit {0}
unfolding reconcile_schema_list order_discovered sort insert_sorted
runs = tt

-- An order that keeps what it is given.
abbrev before : String → String → Bool
before a b = true

abbrev allow_list : SchemaPolicy
allow_list = record { configured = "sales" ∷ "stock" ∷ []; explicit = true }

explicit : (reconcile_schema_list before ("other" ∷ "stock" ∷ []) allow_list).schemas ≡ "stock" ∷ []
unfolding runs
explicit = refl

main_leads :
    (reconcile_schema_list before
      ("a" ∷ "main" ∷ "b" ∷ [])
      (record { configured = "main" ∷ []; explicit = false })).schemas
    ≡ "main" ∷ "a" ∷ "b" ∷ []
unfolding runs
main_leads = refl
