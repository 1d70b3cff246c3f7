-- ===== src/Utils/Aggregates/Placeholders.antt =====
-- The SQL of an aggregate query binds one value for each of its placeholders.
use Prim.Native.String.{String, ◌++◌}
use mathlib.Core.List
use dashboard_template_api.Common.{ℕ, ◌≡◌, refl, Bool, Option, List, [], ◌∷◌, map, arith, length}
use dashboard_template_api.Common.Result.{
  done, Ensures, Ensures-done, Ensures->>=, Ensures-any, Ensures_at,
}
use dashboard_template_api.Export.AfterCursor.{Direction, asc, desc}
use dashboard_template_api.Utils.SqlText.{Holds, Holds-append}
use dashboard_template_api.Utils.Identifiers.{quote_ident, split_path, qualified_table}
use dashboard_template_api.Utils.Identifiers.Joining.{Holds-subst}
use dashboard_template_api.Utils.Identifiers.Quoting.{quote_ident-Holds}
use dashboard_template_api.Utils.Pagination.{Number}
use dashboard_template_api.Utils.Decimal.{decimal}
use dashboard_template_api.Utils.Decimal.Digits.{decimal-Holds}
use dashboard_template_api.Utils.FilterTree.Criterion.{CompiledFilter}
use dashboard_template_api.Utils.FilterTree.SafeTypes.{is_bare, IsPlain}
use dashboard_template_api.Utils.Aggregates.Input.{
  ResolvedGroup, ResolvedAggregate, ResolvedSort, ResolvedAggregateParams, AggregateError,
}
use dashboard_template_api.Utils.Aggregates.Sql.{
  AggregateQuery, group_expression, pagination_bound, values_of, grouping, build_group_count_query,
  group_by_clause, build_aggregate_select, direction_sql, sort_item, build_output_order_by,
  build_aggregate_query,
}
use dashboard_template_api.Utils.Aggregates.Clauses.{
  plain, join-IsPlain, All-map, group_expression-IsPlain, selection-IsPlain, IsBoundFilter,
  build_where-Holds, empty_plain, three_clauses, paged_clauses,
}

grouping-IsPlain : (groups : List ResolvedGroup) → IsPlain (grouping groups)
unfolding is_bare
grouping-IsPlain groups = Holds-append (plain "GROUP BY " refl) (
    join-IsPlain ", " _ (plain ", " refl)
      (All-map group_expression group_expression-IsPlain groups))

group_by_clause-IsPlain : (groups : List ResolvedGroup) → IsPlain (group_by_clause groups)
group_by_clause-IsPlain [] = empty_plain tt
group_by_clause-IsPlain (g ∷ groups) = grouping-IsPlain (g ∷ groups)

direction-IsPlain : (d : Direction) → IsPlain (direction_sql d)
unfolding is_bare
direction-IsPlain asc = plain _ refl
direction-IsPlain desc = plain _ refl

sort_item-IsPlain : (s : ResolvedSort) → IsPlain (sort_item s)
unfolding is_bare
sort_item-IsPlain s =
    Holds-append (quote_ident-Holds s.by)
      (Holds-append (plain " " refl) (direction-IsPlain s.order))

build_output_order_by-IsPlain : (sort : List ResolvedSort) → IsPlain (build_output_order_by sort)
unfolding is_bare build_output_order_by
build_output_order_by-IsPlain [] = empty_plain tt
build_output_order_by-IsPlain (s ∷ sort) = Holds-append (plain "ORDER BY " refl) (
    join-IsPlain ", " (map sort_item (s ∷ sort)) (plain ", " refl)
      (All-map sort_item sort_item-IsPlain (s ∷ sort)))

-- The quoted name of a table is plain.
pub qualified_table-IsPlain :
    (catalog schema table : String) → IsPlain (qualified_table catalog schema table)
unfolding is_bare qualified_table
qualified_table-IsPlain catalog schema table =
    let levels = catalog ∷ List.◌++◌ (split_path schema) (table ∷ []) in
    join-IsPlain "." (map quote_ident levels) (plain "." refl)
      (All-map quote_ident quote_ident-Holds levels)

-- A query with as many values as placeholders.
abbrev pub IsBoundQuery : AggregateQuery → Type 0
IsBoundQuery q = Holds q.sql (length q.values)

module _ (filter : Option CompiledFilter) (bound : IsBoundFilter filter)
    (catalog schema table : String) where
  abbrev from : String
  from = qualified_table catalog schema table

  from-IsPlain : IsPlain from
  from-IsPlain = qualified_table-IsPlain catalog schema table

  select-Holds :
      (groups : List ResolvedGroup) (aggregates : List ResolvedAggregate) (counted : Bool)
      → IsBoundQuery (build_aggregate_select groups aggregates counted filter from)
  unfolding is_bare build_aggregate_select
  select-Holds groups aggregates counted =
      three_clauses _ _ _ _
        (Holds-append (plain "SELECT " refl) (
          Holds-append
            (join-IsPlain ", " _ (plain ", " refl) (selection-IsPlain groups aggregates counted))
            (Holds-append (plain " FROM " refl) from-IsPlain)))
        (build_where-Holds filter bound) (group_by_clause-IsPlain groups)

  -- The count of the groups binds one value for each placeholder, on a quoted table and any filter that
  -- binds its own.
  pub build_group_count_query-Holds :
      (groups : List ResolvedGroup) → IsBoundQuery (build_group_count_query groups filter from)
  unfolding is_bare build_group_count_query
  build_group_count_query-Holds groups = Holds-subst (omega arith) (
      Holds-append (plain "SELECT COUNT(*) AS total FROM (" refl) (
        Holds-append
          (three_clauses _ _ _ _ (Holds-append (plain "SELECT 1 FROM " refl) from-IsPlain)
            (build_where-Holds filter bound) (grouping-IsPlain groups))
          (plain ")" refl)))

  paginated-IsPlain :
      (limit offset : ℕ) → IsPlain ("LIMIT " ++ (decimal limit ++ (" OFFSET " ++ decimal offset)))
  unfolding is_bare
  paginated-IsPlain limit offset = Holds-append (plain "LIMIT " refl) (
      Holds-append (decimal-Holds limit)
        (Holds-append (plain " OFFSET " refl) (decimal-Holds offset)))

  page-Holds :
      (params : ResolvedAggregateParams) (limit offset : Number)
      → Ensures
          (λ q. IsBoundQuery q × (q.values ≡ values_of filter))
          (build_aggregate_query
            (record { params = params; filter = filter; limit = limit; offset = offset })
            from)
  unfolding is_bare build_aggregate_query
  page-Holds params limit offset =
      Ensures->>= (λ n. Unit {0}) _ (pagination_bound limit) _ (Ensures-any _)
        λ l u.
          Ensures->>= (λ n. Unit {0}) _ (pagination_bound offset) _ (Ensures-any _)
            λ o v. Ensures-done AggregateError _ _ (
              paged_clauses _ _ _ _
                  (Holds-subst (omega arith) (
                    Holds-append (plain "SELECT * FROM (" refl) (
                      Holds-append
                        (select-Holds params.groups params.aggregates params.include_row_count)
                        (plain ")" refl))))
                  (build_output_order_by-IsPlain params.sort) (paginated-IsPlain l o),
              refl,
            )

  -- The SQL of a page of aggregates, on a quoted table and with a filter whose text holds a placeholder
  -- for each of its parameters: outside of quoted names it holds exactly as many placeholders as
  -- values come with it, and these are the filter's, whatever characters the columns, the labels and
  -- the aliases have.
  pub build_aggregate_query-Holds :
      (params : ResolvedAggregateParams) (limit offset : Number) (q : AggregateQuery)
      → build_aggregate_query
          (record { params = params; filter = filter; limit = limit; offset = offset })
          from
        ≡ done q
      → Holds q.sql (length q.values) × (q.values ≡ values_of filter)
  build_aggregate_query-Holds params limit offset q =
      Ensures_at (λ q. IsBoundQuery q × (q.values ≡ values_of filter)) _ q
        (page-Holds params limit offset)
