-- ===== src/Utils/Aggregates/Checked.antt =====
-- What a resolved request keeps of its groups and aggregates, and what its columns satisfy.
use dashboard_template_api.Common.{
  ◌≡◌, refl, inl, inr, Bool, true, false, ◌||◌, Option, none, some, filter, String, arith,
  Bool-cases, if◌then◌else◌, all,
}
use dashboard_template_api.Common.Map.{Map, lookup}
use dashboard_template_api.Common.Result.{
  done, map_error, Pointwise, Ensures, Ensures-done, Ensures->>=, Ensures-check, Ensures-thrown,
  Ensures-traverse, Ensures-any, Ensures_at, Ensures-weaken,
}
use dashboard_template_api.Utils.FilterTree.Input.{
  Value, SqlTypeFamily, fam_numeric, fam_date, fam_text, fam_boolean, fam_other,
}
use dashboard_template_api.Utils.FilterTree.Typing.{Platform}
use dashboard_template_api.Utils.Aggregations.{
  Aggregation, sum, avg, max, min, count, median, mode, aggregations, allowed_by_family,
  allowed_aggregations, includes_aggregation, measure_family,
}
use dashboard_template_api.Utils.Metadata.{
  FieldMetadata, TypeFamily, date, timestamp, integer, number, text, boolean, other, type_family_of,
  resolve_label_field,
}
use dashboard_template_api.Utils.Aggregates.Input.{
  TimeGrain, ResolvedGroup, ResolvedAggregate, ResolvedAggregateParams, GroupByInput,
  AggregateInput, AggregateRequest, AggregatesConfig, AggregateError, bad_alias,
  aggregation_not_allowed, label_error,
}
use dashboard_template_api.Utils.Aggregates.Params.{
  or_else, is_none, is_date_grain, get_metadata, truncation_of, resolve_truncation,
  effective_aggregation, group_of, alias_pattern, resolve_group, resolve_aggregate,
}
use dashboard_template_api.Utils.Aggregates.Request.{group_by, requested, resolve_aggregate_params}
use dashboard_template_api.Utils.Aggregates.Resolved.{
  Ensures-resolve_aggregate_params, resolve_outputs-IsResolvedFrom,
}

-- SUM, AVG and MEDIAN ask for a number, MIN and MAX for a number or a time; COUNT and MODE take all.
abbrev pub is_ordered : SqlTypeFamily → Bool
is_ordered fam_numeric = true
is_ordered fam_date = true
is_ordered family = false

abbrev pub is_numeric : SqlTypeFamily → Bool
is_numeric fam_numeric = true
is_numeric family = false

abbrev pub admits : SqlTypeFamily → Aggregation → Bool
admits family sum = is_numeric family
admits family avg = is_numeric family
admits family median = is_numeric family
admits family max = is_ordered family
admits family min = is_ordered family
admits family count = true
admits family mode = true

every : (P : Aggregation → Bool) → all P aggregations ≡ true → (a : Aggregation) → P a ≡ true
every P h sum = ground (arith, h)
every P h avg = ground (arith, h)
every P h max = ground (arith, h)
every P h min = ground (arith, h)
every P h count = ground (arith, h)
every P h median = ground (arith, h)
every P h mode = ground (arith, h)

abbrev listed : SqlTypeFamily → Aggregation → Bool
listed family =
    includes_aggregation (filter (includes_aggregation (allowed_by_family family)) aggregations)

abbrev implies : Bool → Bool → Bool
implies b c = if b then c else true

listed-admits :
    (family : SqlTypeFamily) (a : Aggregation) → implies (listed family a) (admits family a) ≡ true
unfolding includes_aggregation
listed-admits fam_numeric a =
    every (λ a. implies (listed fam_numeric a) (admits fam_numeric a)) refl a
listed-admits fam_date a = every (λ a. implies (listed fam_date a) (admits fam_date a)) refl a
listed-admits fam_text a = every (λ a. implies (listed fam_text a) (admits fam_text a)) refl a
listed-admits fam_boolean a =
    every (λ a. implies (listed fam_boolean a) (admits fam_boolean a)) refl a
listed-admits fam_other a = every (λ a. implies (listed fam_other a) (admits fam_other a)) refl a

implied : (b c : Bool) → implies b c ≡ true → b ≡ true → c ≡ true
implied b c i h = ground arith

module _ (js : Platform) where
  allowed_admits :
      (sql_type : String) (a : Aggregation)
      → includes_aggregation (allowed_aggregations js sql_type) a ≡ true
      → admits (measure_family js sql_type) a ≡ true
  unfolding allowed_aggregations
  allowed_admits sql_type a h = implied _ _ (listed-admits (measure_family js sql_type) a) h

  -- A grain stands on a date, where it is of a day or more, or on a timestamp.
  abbrev pub is_truncatable : TypeFamily → TimeGrain → Bool
  is_truncatable date grain = is_date_grain grain
  is_truncatable timestamp grain = true
  is_truncatable family grain = false

  abbrev pub IsGrained : FieldMetadata → Option TimeGrain → ResolvedGroup → Type 0
  IsGrained meta none r = (r.grain ≡ none) × (r.truncation ≡ none)
  IsGrained meta (some grain) r =
      (r.grain ≡ some grain)
      × (is_none r.truncation ≡ false)
      × (r.label_field ≡ none)
      × (is_truncatable (type_family_of js meta.sql_type) grain ≡ true)

  -- A group keeps its column, which the metadata has, and its grain fits the column's type.
  abbrev pub IsGroupOf : Map FieldMetadata → GroupByInput → ResolvedGroup → Type 0
  IsGroupOf metadata g r =
      (meta : FieldMetadata) × (lookup g.field metadata ≡ some meta)
      × (r.field ≡ g.field)
      × IsGrained meta g.grain r

  -- An aggregate keeps its measure, which the metadata has, and its aggregation, which the measure's
  -- type admits.
  abbrev pub IsAggregateOf : Map FieldMetadata → AggregateInput → ResolvedAggregate → Type 0
  IsAggregateOf metadata a r =
      (meta : FieldMetadata) × (lookup a.measure metadata ≡ some meta)
      × (r.measure ≡ a.measure)
      × (or_else r.aggregation a.aggregation ≡ r.aggregation)
      × (or_else r.alias a.alias ≡ r.alias)
      × (admits (measure_family js meta.sql_type) r.aggregation ≡ true)

  Ensures-get_metadata :
      (o : Option FieldMetadata) → Ensures (λ meta. o ≡ some meta) (get_metadata o)
  unfolding get_metadata
  Ensures-get_metadata none = Ensures-thrown _ _
  Ensures-get_metadata (some meta) = Ensures-done AggregateError _ meta refl

  truncation_of-fits :
      (family : TypeFamily) (grain : TimeGrain) (sql_type : String)
      → Ensures (λ t. is_truncatable family grain ≡ true) (truncation_of js family grain sql_type)
  truncation_of-fits date grain sql_type = elim (Bool-cases (is_date_grain grain)) [
    | inl daily ↦ rw daily (Ensures-done AggregateError _ _ refl)
    | inr finer ↦ rw finer (Ensures-thrown _ _)
  ]
  truncation_of-fits timestamp grain sql_type = Ensures-done AggregateError _ _ refl
  truncation_of-fits integer grain sql_type = Ensures-thrown _ _
  truncation_of-fits number grain sql_type = Ensures-thrown _ _
  truncation_of-fits text grain sql_type = Ensures-thrown _ _
  truncation_of-fits boolean grain sql_type = Ensures-thrown _ _
  truncation_of-fits other grain sql_type = Ensures-thrown _ _

  -- The aggregation of the request is kept.
  effective_aggregation-kept :
      (explicit : Option Aggregation) (meta : FieldMetadata)
      → Ensures (λ a. or_else a explicit ≡ a) (effective_aggregation js explicit meta)
  effective_aggregation-kept (some a) meta =
      unfold effective_aggregation in Ensures-done AggregateError _ a refl
  effective_aggregation-kept none meta = Ensures-weaken _ _ _ (Ensures-any _) λ a t. refl

  alias_kept :
      (o : Option String) (fallback : String) → or_else (or_else fallback o) o ≡ or_else fallback o
  alias_kept none fallback = refl
  alias_kept (some a) fallback = refl

  module _ (show : Value → String) (metadata : Map FieldMetadata) where
    group_of-fits :
        (field : String) (meta : FieldMetadata) (grain : Option TimeGrain)
        → Ensures
            (λ r. (r.field ≡ field) × IsGrained meta grain r)
            (group_of js show metadata field meta grain)
    unfolding group_of resolve_truncation
    group_of-fits field meta none =
        Ensures->>= (λ l. Unit {0}) _
          (map_error label_error (resolve_label_field field metadata none)) _ (Ensures-any _)
          λ label t.
            Ensures-done AggregateError _
              (record { field = field; grain = none; truncation = none; label_field = label })
              (refl, (refl, refl))
    group_of-fits field meta (some grain) =
        Ensures->>= _ _ (resolve_truncation js meta grain) _
          (truncation_of-fits (type_family_of js meta.sql_type) grain meta.sql_type)
          λ t fits.
            Ensures-done AggregateError _
              (record {
                field = field;
                grain = some grain;
                truncation = some t;
                label_field = none;
              })
              (refl, (refl, refl, refl, fits))

    resolve_group-fits :
        (g : GroupByInput) → Ensures (IsGroupOf metadata g) (resolve_group js show metadata g)
    unfolding resolve_group
    resolve_group-fits g =
        Ensures->>= (λ meta. lookup g.field metadata ≡ some meta) _ _ _
          (Ensures-get_metadata (lookup g.field metadata))
          λ meta found.
            Ensures-weaken _ _ _ (group_of-fits g.field meta g.grain)
              λ r (field, grained). (meta, found, field, grained)

    resolve_aggregate-fits :
        (a : AggregateInput)
        → Ensures (IsAggregateOf metadata a) (resolve_aggregate js show metadata a)
    unfolding resolve_aggregate
    resolve_aggregate-fits a =
        Ensures->>= (λ meta. lookup a.measure metadata ≡ some meta) _ _ _
          (Ensures-get_metadata (lookup a.measure metadata))
          λ meta found.
            Ensures->>= _ _ _ _ (effective_aggregation-kept a.aggregation meta) λ effective kept.
              Ensures-check _ _ aggregation_not_allowed _ λ allowed.
                Ensures-check _ (is_none a.alias || alias_pattern (or_else "" a.alias)) bad_alias _
                  λ shaped. Ensures-done AggregateError _ _ (
                    meta,
                    found,
                    refl,
                    kept,
                    alias_kept a.alias _,
                    allowed_admits meta.sql_type effective allowed,
                  )

    abbrev AreFit : AggregateRequest → ResolvedAggregateParams → Type 0
    AreFit request p =
        Pointwise (IsGroupOf metadata) (group_by request) p.groups
        × Pointwise (IsAggregateOf metadata) (requested request) p.aggregates

    -- In a request that is accepted, each group column keeps its name and is a column of the metadata,
    -- and its grain stands on a timestamp, or on a date where it is of a day or more; each aggregate
    -- keeps its measure, which the metadata has, and what the request says of the aggregation and of the
    -- alias, and the measure's type admits the aggregation: a number for SUM, AVG and MEDIAN, a number or
    -- a time for MIN and MAX.
    pub resolve_aggregate_params-fits :
        (config : Option AggregatesConfig) (request : AggregateRequest)
        (p : ResolvedAggregateParams)
        → resolve_aggregate_params js show config request metadata ≡ done p
        → Pointwise (IsGroupOf metadata) (group_by request) p.groups
          × Pointwise (IsAggregateOf metadata) (requested request) p.aggregates
    resolve_aggregate_params-fits config request p = Ensures_at (AreFit request) _ p (
        Ensures-resolve_aggregate_params js show config request metadata (AreFit request)
          (Pointwise (IsGroupOf metadata) (group_by request))
          (Pointwise (IsAggregateOf metadata) (requested request))
          (Ensures-traverse (IsGroupOf metadata) _ resolve_group-fits (group_by request))
          (Ensures-traverse (IsAggregateOf metadata) _ resolve_aggregate-fits (requested request))
          λ groups aggregates hg ha.
            Ensures-weaken _ _ _ (resolve_outputs-IsResolvedFrom request groups aggregates)
              λ q (r, eg, ea, fits). (rw eg hg, rw ea ha))
