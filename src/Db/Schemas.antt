-- ===== src/Db/Schemas.antt =====
-- src/db/schema-reconciliation.ts: the schemas that a catalog serves. `before` is JavaScript's order
-- on strings, as "not after".
pub mod Served
pub mod Tests
use mathlib.Core.List.{◌++◌}
use dashboard_template_api.Common.{
  Bool, true, false, not, List, [], ◌∷◌, filter, String, str_eq, if◌then◌else◌,
}
use dashboard_template_api.Common.Sort.{sort}
use dashboard_template_api.Utils.FilterTree.Typing.{set_has}

pub record SchemaPolicy : Type 0 where
  pub configured : List String
  pub explicit : Bool

pub record SchemaReconciliation : Type 0 where
  pub schemas : List String
  pub missing : List String
  pub kept_configured : Bool

abbrev pub is_empty {ℓ} : {A : Type ℓ} → List A → Bool
is_empty [] = true
is_empty (x ∷ xs) = false

-- the schemas of an explicit list, by those that were discovered
abbrev pub intersected : List String → List String → List String → SchemaReconciliation
intersected configured missing [] = record {
  schemas = configured;
  missing = missing;
  kept_configured = true;
}
intersected configured missing (s ∷ shared) = record {
  schemas = s ∷ shared;
  missing = missing;
  kept_configured = false;
}

module _ (before : String → String → Bool) where
  -- the comparison of `orderDiscovered`
  abbrev pub main_first : String → String → Bool
  main_first a b =
      if str_eq a b
      then true
      else if str_eq a "main"
      then true
      else if str_eq b "main"
      then false
      else before a b

  unfoldable pub order_discovered : List String → List String
  unfolding sort
  order_discovered discovered = sort main_first discovered

  unfoldable pub reconcile_schema_list : List String → SchemaPolicy → SchemaReconciliation
  unfolding order_discovered
  reconcile_schema_list discovered policy =
      if policy.explicit
      then intersected policy.configured
          (filter (λ s. not (set_has discovered s)) policy.configured)
          (filter (set_has discovered) policy.configured)
      else record {
        schemas = if is_empty discovered then "main" ∷ [] else order_discovered discovered;
        missing = [];
        kept_configured = false;
      }
