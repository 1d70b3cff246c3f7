-- ===== src/Utils/Aggregates/Input.antt =====
-- src/utils/aggregate-query.ts, the data: requests, their resolved form and the errors.
use dashboard_template_api.Common.{ℕ, Bool, Option, List, String}
use dashboard_template_api.Export.AfterCursor.{Direction}
use dashboard_template_api.Utils.FilterTree.Input.{Field}
use dashboard_template_api.Utils.FilterTree.Criterion.{CompiledFilter}
use dashboard_template_api.Utils.Aggregations.{Aggregation}
use dashboard_template_api.Utils.Metadata.{LabelError}
use dashboard_template_api.Utils.Pagination.{Number}

pub data TimeGrain : Type 0 where
  second minute hour day week month quarter year : TimeGrain

pub data Truncation : Type 0 where
  as_date as_timestamp as_timestamptz : Truncation

pub record ResolvedGroup : Type 0 where
  pub field : String
  pub grain : Option TimeGrain
  pub truncation : Option Truncation
  pub label_field : Option String

pub record ResolvedAggregate : Type 0 where
  pub measure : String
  pub aggregation : Aggregation
  pub alias : String

pub record ResolvedSort : Type 0 where
  pub by : String
  pub order : Direction

pub record ResolvedAggregateParams : Type 0 where
  pub groups : List ResolvedGroup
  pub aggregates : List ResolvedAggregate
  pub sort : List ResolvedSort
  pub include_row_count : Bool

-- `AggregatePageParams`
pub record AggregatePage : Type 0 where
  pub params : ResolvedAggregateParams
  pub filter : Option CompiledFilter
  pub limit : Number
  pub offset : Number

pub record GroupByInput : Type 0 where
  pub field : String
  pub grain : Option TimeGrain

pub record AggregateInput : Type 0 where
  pub measure : String
  pub aggregation : Option Aggregation
  pub alias : Option String

pub record AggregateSortInput : Type 0 where
  pub by : String
  pub order : Field Direction

pub data AggregateFormat : Type 0 where
  objects arrays long : AggregateFormat

pub record AggregateRequest : Type 0 where
  pub group_by : Option (List GroupByInput)
  pub aggregates : Option (List AggregateInput)
  pub sort : Option (List AggregateSortInput)
  pub include_row_count : Option Bool
  pub format : Option AggregateFormat

-- `config.API.AGGREGATES`
pub record AggregatesConfig : Type 0 where
  pub max_aggregates : Option ℕ
  pub max_group_by : Option ℕ

-- One error for each place that throws; `undefined_metadata` is the TypeError of reading a row that
-- `metadataByName` does not have.
pub data AggregateError : Type 0 where
  no_aggregate too_many_aggregates too_many_groups duplicate_group no_default_aggregation
        grain_not_temporal grain_not_allowed aggregation_not_allowed bad_alias duplicate_output
        reserved_output unknown_sort bad_order not_numeric undefined_metadata bad_bound :
      AggregateError
  unknown_columns : List String → AggregateError
  label_error : LabelError → AggregateError
