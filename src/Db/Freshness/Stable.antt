-- ===== src/Db/Freshness/Stable.antt =====
-- A discovery that finds what was found before is no change.
use text.Mathlib.TextEquality.{eq_iff}
use dashboard_template_api.Common.{
  ◌≡◌, refl, sym, ◌∙◌, Bool, false, some, List, [], ◌∷◌, String, arith, all,
}
use dashboard_template_api.Utils.FilterTree.Typing.{set_has}
use dashboard_template_api.Utils.FilterTree.Names.{all_own}
use dashboard_template_api.Db.Schemas.{SchemaPolicy, is_empty, reconcile_schema_list}
use dashboard_template_api.Db.Schemas.Served.{meets, is_served, reconcile_schema_list_lem}
use dashboard_template_api.Db.Freshness.{Served}
use dashboard_template_api.Db.Freshness.Record.{differs}
use dashboard_template_api.Db.Freshness.Changes.{is_relisted}

all_alike :
    (p q : String → Bool) → ((s : String) → p s ≡ q s) → (xs : List String) → all p xs ≡ all q xs
all_alike p q h [] = refl
all_alike p q h (x ∷ xs) = ground (arith, h x, all_alike p q h xs)

alike-differs :
    (xs ys : List String) → ((s : String) → set_has xs s ≡ set_has ys s) → differs xs ys ≡ false
alike-differs xs ys h = ground (
  arith,
  all_alike (set_has xs) (set_has ys) h ys,
  all_own ys,
  all_alike (set_has ys) (set_has xs) (λ s. sym (h s)) xs,
  all_own xs,
)

module _ (first second : List String)
    (alike : (s : String) → set_has first s ≡ set_has second s) where
  meets_alike : (configured : List String) → meets first configured ≡ meets second configured
  meets_alike [] = refl
  meets_alike (s ∷ configured) = ground (arith, alike s, meets_alike configured)

  is_served_alike :
      (policy : SchemaPolicy) (s : String)
      → is_empty first ≡ is_empty second
      → is_served policy first s ≡ is_served policy second s
  is_served_alike policy s e = ground (arith, e, alike s, meets_alike policy.configured)

is_empty_alike :
    (first second : List String)
    → ((s : String) → set_has first s ≡ set_has second s)
    → is_empty first ≡ is_empty second
is_empty_alike [] [] h = refl
is_empty_alike [] (x ∷ xs) h = absurd (ground (arith, h x, eq_iff x x))
is_empty_alike (x ∷ xs) [] h = absurd (ground (arith, h x, eq_iff x x))
is_empty_alike (x ∷ xs) (y ∷ ys) h = refl

-- Where a catalog serves what a discovery was reconciled to, a probe that discovers the same schemas,
-- in any order, does not take the list for a change: neither a fallback to the configured list or
-- to `main`, nor a configured schema that is missing, makes the pod reload again and again.
pub is_relisted-stable :
    (before : String → String → Bool) (policy : SchemaPolicy) (served : Served) (catalog : String)
    (first second : List String)
    → served.get_schemas catalog ≡ (reconcile_schema_list before first policy).schemas
    → served.reconcile_schemas catalog second ≡ (reconcile_schema_list before second policy).schemas
    → ((s : String) → set_has first s ≡ set_has second s)
    → is_relisted served catalog (some second) ≡ false
is_relisted-stable before policy served catalog first second now again alike =
    rw (now, again)
      (alike-differs _ _ λ s.
        reconcile_schema_list_lem before first policy s
        ∙ is_served_alike first second alike policy s (is_empty_alike first second alike)
        ∙ sym (reconcile_schema_list_lem before second policy s))
