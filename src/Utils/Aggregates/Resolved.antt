-- ===== src/Utils/Aggregates/Resolved.antt =====
-- What a resolved request satisfies.
use dashboard_template_api.Common.{◌≡◌, refl, ap, ◌∙◌, Bool, true, Option, List, [], String, all}
use dashboard_template_api.Common.Map.{Map}
use dashboard_template_api.Common.Result.{
  done, fold, traverse, Ensures-weaken, Ensures, Ensures-done, Ensures->>=, Ensures->>,
  Ensures-check, Ensures-any, Ensures_at,
}
use dashboard_template_api.Utils.FilterTree.Input.{Value}
use dashboard_template_api.Utils.FilterTree.Typing.{Platform, set_has}
use dashboard_template_api.Utils.FilterTree.Names.{
  all_own, no_repeats, add_names, no_repeats-add_names,
}
use dashboard_template_api.Utils.Metadata.{FieldMetadata}
use dashboard_template_api.Utils.Aggregates.Input.{
  ResolvedGroup, ResolvedAggregate, ResolvedSort, ResolvedAggregateParams, AggregateRequest,
  AggregatesConfig, AggregateError, duplicate_output, reserved_output,
}
use dashboard_template_api.Utils.Aggregates.Params.{or_else, resolve_group, resolve_aggregate}
use dashboard_template_api.Utils.Aggregates.Request.{
  group_by, requested, check_request, group_fields, aliases, output_columns, sort_names, add_sort,
  add_group_sorts, format_fits, resolve_outputs, resolve_aggregate_params,
}
use dashboard_template_api.Utils.Aggregates.Outputs.{
  first_repeat_none, sort_names-add_group_sorts, requested_sorts, fold-sorts, all-add_names,
  all_first, outputs_of,
}

-- The output columns are distinct; the sort names the requested columns and then every group column,
-- each once and all of them output columns.
pub record IsResolved (request : AggregateRequest) (p : ResolvedAggregateParams) : Type 0 where
  pub outputs_distinct : no_repeats (outputs_of p) ≡ true
  pub sort_columns :
      sort_names p.sort
      ≡ add_names (group_fields p.groups) (add_names (requested_sorts (or_else [] request.sort)) [])
  pub sort_distinct : no_repeats (sort_names p.sort) ≡ true
  pub sort_known : all (set_has (outputs_of p)) (sort_names p.sort) ≡ true

module _ (request : AggregateRequest) (groups : List ResolvedGroup)
    (aggregates : List ResolvedAggregate) where
  abbrev resolved : Bool → List ResolvedSort → ResolvedAggregateParams
  resolved counted sort = record {
    groups = groups;
    aggregates = aggregates;
    sort = add_group_sorts groups sort;
    include_row_count = counted;
  }

  resolved-IsResolved :
      (counted : Bool) (sort : List ResolvedSort)
      → no_repeats (output_columns groups aggregates counted) ≡ true
      → sort_names sort ≡ add_names (requested_sorts (or_else [] request.sort)) []
      → all
          (set_has (output_columns groups aggregates counted))
          (requested_sorts (or_else [] request.sort))
        ≡ true
      → IsResolved request (resolved counted sort)
  unfolding output_columns
  resolved-IsResolved counted sort distinct names known = record {
    outputs_distinct = distinct;
    sort_columns =
        sort_names-add_group_sorts groups sort ∙ ap (add_names (group_fields groups)) names;
    sort_distinct =
        rw (sort_names-add_group_sorts, names)
          (no_repeats-add_names (group_fields groups) _ (
            no_repeats-add_names (requested_sorts (or_else [] request.sort)) []
              (unfold no_repeats in refl)));
    sort_known =
        rw (sort_names-add_group_sorts, names)
          (all-add_names _ (group_fields groups) _
            (all_first _ (group_fields groups) _ (all_own (group_fields groups)))
            (all-add_names _ (requested_sorts (or_else [] request.sort)) [] known refl));
  }

  -- Beside, the groups and the aggregates are kept.
  abbrev pub IsResolvedFrom : ResolvedAggregateParams → Type 0
  IsResolvedFrom p =
      IsResolved request p
      × (p.groups ≡ groups)
      × (p.aggregates ≡ aggregates)
      × (format_fits request.format (outputs_of p) (aliases p.aggregates) ≡ true)

  pub resolve_outputs-IsResolvedFrom :
      Ensures IsResolvedFrom (resolve_outputs request groups aggregates)
  unfolding resolve_outputs
  resolve_outputs-IsResolvedFrom =
      let counted = or_else true request.include_row_count in
      let outputs = output_columns groups aggregates counted in
      Ensures-check IsResolvedFrom _ duplicate_output _ λ distinct.
        Ensures-check IsResolvedFrom (format_fits request.format outputs (aliases aggregates))
          reserved_output _
          λ fits.
            (Ensures->>= _ _ (fold (add_sort outputs) (or_else [] request.sort) []) _
              (fold-sorts outputs (or_else [] request.sort) [])
              λ sort (names, known).
                Ensures-done AggregateError IsResolvedFrom (resolved counted sort) (
                  resolved-IsResolved counted sort (first_repeat_none [] outputs distinct).1 names
                      known,
                  refl,
                  refl,
                  fits,
                ))

module _ (js : Platform) (show : Value → String) (config : Option AggregatesConfig)
    (request : AggregateRequest) (metadata : Map FieldMetadata) where
  -- What the groups and the aggregates of a request are mapped to, beside the outputs.
  pub Ensures-resolve_aggregate_params :
      (P : ResolvedAggregateParams → Type 0) (G : List ResolvedGroup → Type 0)
      (A : List ResolvedAggregate → Type 0)
      → Ensures G (traverse (resolve_group js show metadata) (group_by request))
      → Ensures A (traverse (resolve_aggregate js show metadata) (requested request))
      → ((groups : List ResolvedGroup) (aggregates : List ResolvedAggregate)
          → G groups
          → A aggregates
          → Ensures P (resolve_outputs request groups aggregates))
      → Ensures P (resolve_aggregate_params js show config request metadata)
  unfolding resolve_aggregate_params
  Ensures-resolve_aggregate_params P G A hg ha outputs =
      Ensures->> P (check_request js show config request metadata) _ (
        Ensures->>= G P _ _ hg
          λ groups g. Ensures->>= A P _ _ ha λ aggregates a. outputs groups aggregates g a)

  -- A request that is accepted has distinct output columns, and a sort that names the requested
  -- columns and then every group column, each once and all of them output columns.
  pub resolve_aggregate_params-IsResolved :
      (p : ResolvedAggregateParams)
      → resolve_aggregate_params js show config request metadata ≡ done p
      → IsResolved request p
  resolve_aggregate_params-IsResolved p = Ensures_at (IsResolved request) _ p (
      Ensures-resolve_aggregate_params (IsResolved request) (λ g. Unit {0}) (λ a. Unit {0})
        (Ensures-any _) (Ensures-any _)
        λ groups aggregates g a.
          Ensures-weaken _ _ _ (resolve_outputs-IsResolvedFrom request groups aggregates)
            λ q h. h.0)
