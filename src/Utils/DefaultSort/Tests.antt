-- ===== src/Utils/DefaultSort/Tests.antt =====
-- A sort by price, completed by the key of the schema.
use dashboard_template_api.Common.{
  if◌then◌else◌, ◌≡◌, refl, true, false, ◌||◌, List, [], ◌∷◌, String,
}
use dashboard_template_api.Export.AfterCursor.{KeyColumn, asc, desc, names_field}
use dashboard_template_api.Utils.FilterTree.Input.{Value}
use dashboard_template_api.Utils.Columns.{assert_columns}
use dashboard_template_api.Utils.DefaultSort.{
  MetadataField, sorted, resolve_effective_sort, default_sort, with_tiebreakers,
}
use dashboard_template_api.Utils.DefaultSort.Order.{
  resolve_effective_sort-names, has_key, is_key, is_column, has_key, is_key, is_column,
}

runs : Unit {0}
unfolding resolve_effective_sort default_sort assert_columns with_tiebreakers names_field
runs = tt

abbrev show_nothing : Value → String
show_nothing v = ""

abbrev fields : List MetadataField
fields =
    record { name = "id"; is_primary_key = true }
    ∷ record { name = "price"; is_primary_key = false }
    ∷ []

abbrev by_price : KeyColumn
by_price = record { field = "price"; order = desc }

abbrev by_id : KeyColumn
by_id = record { field = "id"; order = asc }

resolve_effective_sort-price :
    resolve_effective_sort show_nothing (by_price ∷ []) "sales" fields [] []
    ≡ sorted (by_price ∷ by_id ∷ []) []
unfolding runs
resolve_effective_sort-price = refl

resolve_effective_sort-default :
    resolve_effective_sort show_nothing [] "sales" fields ("gone" ∷ []) [] ≡ sorted (by_id ∷ []) []
unfolding runs
resolve_effective_sort-default = refl

resolve_effective_sort-names_example : names_field (by_price ∷ by_id ∷ []) "id" ≡ (
    names_field (by_price ∷ []) "id"
    || (if has_key fields then is_key fields "id" else is_column fields "id"))
resolve_effective_sort-names_example =
    resolve_effective_sort-names show_nothing by_price [] "sales" fields [] []
      (by_price ∷ by_id ∷ []) [] resolve_effective_sort-price "id"
