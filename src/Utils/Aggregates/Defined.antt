-- ===== src/Utils/Aggregates/Defined.antt =====
-- The rows that `metadataByName.get` is asked for are there.
use dashboard_template_api.Common.{
  ◌≡◌, refl, ◌≢◌, inl, inr, Bool, true, false, not, Option, none, some, List, [], ◌∷◌, map, String,
  arith, Bool-cases, all, All, length, ltb, leb,
}
use dashboard_template_api.Common.Map.{Map, lookup}
use dashboard_template_api.Common.Result.{
  done, thrown, check, Ensures, Ensures_at, Ensures-after, Ensures-any, Ensures-weaken, Ensures->>,
  traverse, Fails, Fails-done, Fails->>=, Fails->>, Fails-check, Fails-traverse, Fails-fold,
  Fails_at,
}
use dashboard_template_api.Utils.FilterTree.Input.{
  Value, string, SqlTypeFamily, fam_numeric, fam_date, fam_text, fam_boolean, fam_other,
}
use dashboard_template_api.Utils.FilterTree.Typing.{Platform}
use dashboard_template_api.Utils.Columns.{is_column}
use dashboard_template_api.Utils.Columns.Checks.{assert_columns_iff}
use dashboard_template_api.Utils.Aggregations.{Aggregation}
use dashboard_template_api.Utils.Metadata.{
  FieldMetadata, TypeFamily, integer, number, date, timestamp, text, boolean, other,
}
use dashboard_template_api.Utils.Aggregates.Input.{
  TimeGrain, ResolvedGroup, ResolvedAggregate, ResolvedSort, GroupByInput, AggregateInput,
  AggregateSortInput, AggregateRequest, AggregatesConfig, AggregateError, undefined_metadata,
  no_aggregate, too_many_aggregates, too_many_groups,
}
use dashboard_template_api.Utils.Aggregates.Params.{
  is_none, aggregate_bounds, is_date_grain, get_metadata, columns_error, check_columns,
  truncation_of, resolve_truncation, implied_aggregation, effective_aggregation, group_of,
  resolve_group, resolve_aggregate,
}
use dashboard_template_api.Utils.Aggregates.Request.{
  group_by, requested, requested_fields, requested_measures, add_sort, check_request,
  resolve_outputs, resolve_aggregate_params,
}

-- An error that the code raises for the client, not the TypeError.
abbrev is_client : AggregateError → Bool
is_client undefined_metadata = false
is_client e = true

abbrev IsClientError : AggregateError → Type 0
IsClientError e = is_client e ≡ true

abbrev is_there : Map FieldMetadata → String → Bool
is_there metadata name = not (is_none (lookup name metadata))

-- What holds of every image holds of every element at its image.
All-map {ℓ κ ν} :
    {A : Type ℓ} {B : Type κ} (P : B → Type ν) (f : A → B) (xs : List A)
    → All P (map f xs)
    → All (λ x. P (f x)) xs
All-map P f [] h = tt
All-map P f (x ∷ xs) (p, h) = (p, All-map P f xs h)

module _ (js : Platform) (show : Value → String) (metadata : Map FieldMetadata) where
  columns_there :
      (names : List String)
      → all (is_column show (is_there metadata)) (map string names) ≡ true
      → All (λ name. is_there metadata name ≡ true) names
  columns_there [] h = tt
  columns_there (name ∷ names) h = (ground arith, columns_there names (ground arith))

  columns_error-none : (o : Option (List String)) → columns_error o ≡ done tt → o ≡ none
  columns_error-none none h = refl
  columns_error-none (some names) h = cc

  check_columns-there :
      (names : List String) (u : Unit {0})
      → check_columns js show metadata names ≡ done u
      → All (λ name. is_there metadata name ≡ true) names
  unfolding check_columns
  check_columns-there names u h =
      columns_there names (
        (assert_columns_iff show (is_there metadata) (map string names)).0 (columns_error-none _ h))

  columns_error-Fails : (o : Option (List String)) → Fails IsClientError (columns_error o)
  unfolding Fails
  columns_error-Fails none = tt
  columns_error-Fails (some names) = refl

  get_metadata-Fails :
      (o : Option FieldMetadata) → not (is_none o) ≡ true → Fails IsClientError (get_metadata o)
  unfolding Fails get_metadata
  get_metadata-Fails none h = cc
  get_metadata-Fails (some f) h = tt

  truncation_of-Fails :
      (family : TypeFamily) (grain : TimeGrain) (sql_type : String)
      → Fails IsClientError (truncation_of js family grain sql_type)
  unfolding Fails
  truncation_of-Fails date grain sql_type = elim (Bool-cases (is_date_grain grain)) [
    | inl daily ↦ rw daily tt
    | inr finer ↦ rw finer refl
  ]
  truncation_of-Fails timestamp grain sql_type = tt
  truncation_of-Fails integer grain sql_type = refl
  truncation_of-Fails number grain sql_type = refl
  truncation_of-Fails text grain sql_type = refl
  truncation_of-Fails boolean grain sql_type = refl
  truncation_of-Fails other grain sql_type = refl

  group_of-Fails :
      (field : String) (meta : FieldMetadata) (grain : Option TimeGrain)
      → Fails IsClientError (group_of js show metadata field meta grain)
  unfolding group_of resolve_truncation
  group_of-Fails field meta none = Fails-done _ _
  group_of-Fails field meta (some grain) = search (Fails->>=, truncation_of-Fails, Fails-done)

  implied_aggregation-Fails :
      (declared : Option Aggregation) (family : SqlTypeFamily)
      → Fails IsClientError (implied_aggregation js declared family)
  unfolding Fails
  implied_aggregation-Fails (some a) family = tt
  implied_aggregation-Fails none fam_numeric = tt
  implied_aggregation-Fails none fam_date = refl
  implied_aggregation-Fails none fam_text = refl
  implied_aggregation-Fails none fam_boolean = refl
  implied_aggregation-Fails none fam_other = refl

  effective_aggregation-Fails :
      (explicit : Option Aggregation) (meta : FieldMetadata)
      → Fails IsClientError (effective_aggregation js explicit meta)
  unfolding effective_aggregation
  effective_aggregation-Fails (some a) meta = Fails-done _ a
  effective_aggregation-Fails none meta = implied_aggregation-Fails _ _

  resolve_group-Fails :
      (g : GroupByInput)
      → is_there metadata g.field ≡ true
      → Fails IsClientError (resolve_group js show metadata g)
  unfolding resolve_group
  resolve_group-Fails g h =
      Fails->>= _ (get_metadata (lookup g.field metadata)) _ (get_metadata-Fails _ h)
        λ meta e. group_of-Fails g.field meta g.grain

  resolve_aggregate-Fails :
      (a : AggregateInput)
      → is_there metadata a.measure ≡ true
      → Fails IsClientError (resolve_aggregate js show metadata a)
  unfolding resolve_aggregate
  resolve_aggregate-Fails a h =
      Fails->>= _ (get_metadata (lookup a.measure metadata)) _ (get_metadata-Fails _ h) λ meta e.
        Fails->>= _ (effective_aggregation js a.aggregation meta) _
          (effective_aggregation-Fails a.aggregation meta)
          λ effective e2. search (Fails->>, Fails-check, Fails-done)

  add_sort-Fails :
      (outputs : List String) (item : AggregateSortInput) (sort : List ResolvedSort)
      → Fails IsClientError (add_sort outputs item sort)
  unfolding add_sort
  add_sort-Fails outputs item sort = search (Fails->>, Fails-check, Fails-done)

  resolve_outputs-Fails :
      (request : AggregateRequest) (groups : List ResolvedGroup)
      (aggregates : List ResolvedAggregate)
      → Fails IsClientError (resolve_outputs request groups aggregates)
  unfolding resolve_outputs
  resolve_outputs-Fails request groups aggregates =
      search (Fails->>, Fails->>=, Fails-check, Fails-fold, add_sort-Fails, Fails-done)

  module _ (config : Option AggregatesConfig) (request : AggregateRequest) where
    check_columns-Fails :
        (names : List String) → Fails IsClientError (check_columns js show metadata names)
    unfolding check_columns
    check_columns-Fails names = columns_error-Fails _

    check_request-Fails : Fails IsClientError (check_request js show config request metadata)
    unfolding check_request
    check_request-Fails = search (Fails->>, Fails-check, check_columns-Fails) depth 9

    -- What the checks of the request leave true.
    AreThere : Unit {0} → Type 0
    AreThere u =
        All (λ name. is_there metadata name ≡ true) (requested_fields request)
        × All (λ name. is_there metadata name ≡ true) (requested_measures request)

    check_request-AreThere : Ensures AreThere (check_request js show config request metadata)
    unfolding check_request AreThere
    check_request-AreThere =
        Ensures->> AreThere (check (ltb 0 (length (requested request))) no_aggregate) _ (
          Ensures->> AreThere
            (check (leb (length (requested request)) (aggregate_bounds config).0)
              too_many_aggregates)
            _
            (Ensures->> AreThere
              (check (leb (length (group_by request)) (aggregate_bounds config).1) too_many_groups)
              _
              (Ensures-after AreThere (check_columns js show metadata (requested_fields request)) _
                λ a fields.
                  Ensures-after AreThere
                    (check_columns js show metadata (requested_measures request)) _
                    λ b measures.
                      Ensures-weaken (λ u. Unit {0}) AreThere _ (Ensures-any _)
                        λ u t. (check_columns-there _ a fields, check_columns-there _ b measures))))

    resolve-Fails : Fails IsClientError (resolve_aggregate_params js show config request metadata)
    unfolding resolve_aggregate_params AreThere
    resolve-Fails =
        Fails->> _ (check_request js show config request metadata) _ check_request-Fails λ u passed.
          let (fields, measures) = Ensures_at AreThere _ u check_request-AreThere passed in
          Fails->>= _ (traverse (resolve_group js show metadata) (group_by request)) _
            (Fails-traverse _ (λ (g : GroupByInput). is_there metadata g.field ≡ true) _
              resolve_group-Fails _
              (All-map (λ name. is_there metadata name ≡ true) (λ (g : GroupByInput). g.field)
                (group_by request) fields))
            λ groups e.
              Fails->>= _ (traverse (resolve_aggregate js show metadata) (requested request)) _
                (Fails-traverse _ (λ (a : AggregateInput). is_there metadata a.measure ≡ true) _
                  resolve_aggregate-Fails _
                  (All-map (λ name. is_there metadata name ≡ true)
                    (λ (a : AggregateInput). a.measure) (requested request) measures))
                λ aggregates e2. resolve_outputs-Fails request groups aggregates

    -- A request is refused by a client error or accepted; the rows that it reads of the metadata
    -- are all there, so that the code raises no TypeError.
    pub resolve_aggregate_params_defined :
        resolve_aggregate_params js show config request metadata ≢ thrown undefined_metadata
    resolve_aggregate_params_defined h =
        cc (Fails_at IsClientError _ undefined_metadata resolve-Fails h)
