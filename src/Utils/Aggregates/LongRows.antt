-- ===== src/Utils/Aggregates/LongRows.antt =====
-- The rows and the columns of the LONG format.
use mathlib.Core.List.{◌++◌, append_assoc}
use dashboard_template_api.Common.{
  ◌≡◌, refl, sym, ap, ◌∙◌, inl, inr, Bool, true, false, not, ◌||◌, Option, none, some, List, [],
  ◌∷◌, map, filter, String, str_eq, eq_iff, arith, Bool-cases, if◌then◌else◌, all,
}
use dashboard_template_api.Common.Map.{Map, lookup, insert, lookup-insert}
use dashboard_template_api.Common.Result.{done, Pointwise, Ensures_at, Ensures-weaken, Ensures-any}
use dashboard_template_api.Utils.FilterTree.Input.{Value}
use dashboard_template_api.Utils.FilterTree.Typing.{Platform, set_has}
use dashboard_template_api.Utils.FilterTree.Names.{no_repeats, no_repeats-snoc, set_has-snoc}
use dashboard_template_api.Utils.Metadata.{FieldMetadata}
use dashboard_template_api.Utils.Aggregates.Input.{
  AggregateRequest, AggregatesConfig, ResolvedAggregateParams, long,
}
use dashboard_template_api.Utils.Aggregates.Params.{or_else, long_measure_column, long_value_column}
use dashboard_template_api.Utils.Aggregates.Request.{is_reserved, aliases, resolve_aggregate_params}
use dashboard_template_api.Utils.Aggregates.Rows.{identifiers, long_columns, copy_columns, melt_row}
use dashboard_template_api.Utils.Aggregates.Outputs.{outputs_of}
use dashboard_template_api.Utils.Aggregates.Resolved.{
  Ensures-resolve_aggregate_params, resolve_outputs-IsResolvedFrom,
}

module _ {J : Type 0} (missing : J) (text : String → J) where
  lookup-copy_columns :
      (columns : List String) (row base : Map J) (asked : String)
      → lookup asked (copy_columns missing text columns row base) ≡ (
          if set_has columns asked
          then some (or_else missing (lookup asked row))
          else lookup asked base)
  unfolding copy_columns
  lookup-copy_columns [] row base asked = refl
  lookup-copy_columns (column ∷ columns) row base asked =
      lookup-copy_columns columns row _ asked ∙ elim (Bool-cases (str_eq column asked)) [
        | inl same ↦ rw (lookup-insert, same, (eq_iff column asked).0 same) (ground arith)
        | inr other ↦ rw (lookup-insert, other) refl
      ]

  -- All of a melted row: the value and the name of its alias, and the row's other columns.
  abbrev pub IsMelted : List String → List String → Map J → String → Map J → Type 0
  IsMelted columns aliased row alias melted =
      (asked : String)
      → lookup asked melted ≡ (
          if str_eq long_value_column asked
          then some (or_else missing (lookup alias row))
          else if str_eq long_measure_column asked
          then some (text alias)
          else if set_has (identifiers columns aliased) asked
          then some (or_else missing (lookup asked row))
          else none)

  IsMelted-each :
      (columns aliased names : List String) (row : Map J)
      → Pointwise (IsMelted columns aliased row) names (
          map
            (λ alias. insert long_value_column (or_else missing (lookup alias row)) (
              insert long_measure_column
                (text alias)
                (copy_columns missing text (identifiers columns aliased) row [])))
            names)
  unfolding Pointwise
  IsMelted-each columns aliased [] row = tt
  IsMelted-each columns aliased (alias ∷ names) row = (
    λ asked. rw (lookup-insert, lookup-insert, lookup-copy_columns) (unfold lookup in refl),
    IsMelted-each columns aliased names row,
  )

  -- One row for each alias, in the order of the aliases; each holds the alias under `measure`, its value
  -- under `value`, and every other column that is no alias with the row's value.
  pub melt_row-IsMelted :
      (columns aliased : List String) (row : Map J)
      → Pointwise (IsMelted columns aliased row) aliased (melt_row missing text columns aliased row)
  unfolding melt_row
  melt_row-IsMelted columns aliased row = IsMelted-each columns aliased aliased row

set_has-filter :
    (p : String → Bool) (names : List String) (y : String)
    → set_has names y ≡ false
    → set_has (filter p names) y ≡ false
set_has-filter p [] y h = refl
set_has-filter p (x ∷ names) y h = ground (arith, set_has-filter p names y)

no_repeats-filter :
    (p : String → Bool) (names : List String)
    → no_repeats names ≡ true
    → (no_repeats (filter p names) ≡ true)
unfolding no_repeats
no_repeats-filter p [] h = refl
no_repeats-filter p (x ∷ names) h = elim (Bool-cases (p x)) [
  | inl kept ↦ rw kept (ground (arith, no_repeats-filter p names, set_has-filter p names x))
  | inr left ↦ rw left (no_repeats-filter p names (ground arith))
]

-- No column but an alias has the name of a column of the format.
apart :
    (aliased outputs : List String) (name : String)
    → all (λ n. not (is_reserved aliased n)) outputs ≡ true
    → (str_eq name long_measure_column || str_eq name long_value_column) ≡ true
    → set_has (identifiers outputs aliased) name ≡ false
apart aliased [] name h r = refl
apart aliased (x ∷ outputs) name h r =
    ground (arith, apart aliased outputs name, h, r, eq_iff x name)

long_columns-distinct :
    (aliased outputs : List String)
    → no_repeats outputs ≡ true
    → all (λ n. not (is_reserved aliased n)) outputs ≡ true
    → no_repeats (long_columns outputs aliased) ≡ true
unfolding long_columns
long_columns-distinct aliased outputs distinct clear =
    let left = identifiers outputs aliased in
    let measured =
      no_repeats-snoc left long_measure_column (no_repeats-filter _ outputs distinct)
        (apart aliased outputs long_measure_column clear refl) in
    ap no_repeats (sym (append_assoc left (long_measure_column ∷ []) (long_value_column ∷ [])))
    ∙ no_repeats-snoc (left ++ long_measure_column ∷ []) long_value_column measured (
        set_has-snoc left long_measure_column long_value_column
        ∙ ground (arith, apart aliased outputs long_value_column clear refl))

module _ (js : Platform) (show : Value → String) (config : Option AggregatesConfig)
    (request : AggregateRequest) (metadata : Map FieldMetadata) where
  -- A request that is accepted for the LONG format gives rows whose columns have distinct names: the
  -- columns that are no alias, then `measure` and `value`.
  pub resolve_aggregate_params-long_columns :
      (p : ResolvedAggregateParams)
      → request.format ≡ some long
      → resolve_aggregate_params js show config request metadata ≡ done p
      → no_repeats (long_columns (outputs_of p) (aliases p.aggregates)) ≡ true
  resolve_aggregate_params-long_columns p format =
      Ensures_at (λ p. no_repeats (long_columns (outputs_of p) (aliases p.aggregates)) ≡ true) _ p
        (Ensures-resolve_aggregate_params js show config request metadata _ (λ g. Unit {0})
          (λ a. Unit {0}) (Ensures-any _) (Ensures-any _)
          λ groups aggregates g a.
            Ensures-weaken _ _ _ (resolve_outputs-IsResolvedFrom request groups aggregates)
              λ q h. long_columns-distinct _ _ h.0.outputs_distinct (rw format at h.3))
