-- ===== src/Utils/FilterTree/Input.antt =====
-- src/utils/filter-tree.ts, the input: operations, connectors, criteria and nodes as a request can
-- send them, well formed or not, and the errors that refuse them.
use dashboard_template_api.Common.{ℕ, Bool, Option, String}

pub data FilterOperation : Type 0 where
  op_eq op_neq op_gt op_gte op_lt op_lte op_between op_not_between op_in op_not_in op_before
        op_after op_on_or_before op_on_or_after op_contains op_not_contains op_starts op_not_starts
        op_ends op_not_ends op_ieq op_icontains op_istarts op_iends op_matches op_is_null
        op_is_not_null op_is_true op_is_false op_is_not_true op_is_not_false :
      FilterOperation

pub data FilterConnector : Type 0 where
  con_and con_or con_and_not con_or_not con_xor con_xnor con_nand con_nor : FilterConnector

pub data SqlTypeFamily : Type 0 where
  fam_numeric fam_date fam_text fam_boolean fam_other : SqlTypeFamily

-- A JavaScript number, by what the code asks of it: `Number.isFinite`, `Number.isSafeInteger` and
-- `String(value)`.
pub record JsNumber : Type 0 where
  pub is_finite : Bool
  pub is_safe_integer : Bool
  pub to_text : String

-- A value of the request; an object gives each key once.
mutual
  pub data Value : Type 0 where
    undefined null : Value
    bool : Bool → Value
    number : JsNumber → Value
    string : String → Value
    array : Items → Value
    object : Entries → Value

  pub data Items : Type 0 where
    nil : Items
    cons : Value → Items → Items

  pub data Entries : Type 0 where
    end : Entries
    entry : String → Value → Entries → Entries

-- A field that is absent (or null), a valid value of its type, or anything else.
pub data Field {ℓ} (A : Type ℓ) : Type ℓ where
  absent : Field A
  known : A → Field A
  unknown : Field A

-- `operation` is none where the request's is not one of `FILTER_OPERATIONS`.
pub record FilterCriterion : Type 0 where
  pub variable : Value
  pub operation : Option FilterOperation
  pub value : Value

-- A node of the tree: its connector, `negate`, criterion and children.
mutual
  pub data FilterNode : Type 0 where
    not_an_object : FilterNode
    node : Field FilterConnector → Field Bool → Option FilterCriterion → Children → FilterNode

  pub data Children : Type 0 where
    no_children not_an_array : Children
    children : FilterNodes → Children

  pub data FilterNodes : Type 0 where
    no_nodes : FilterNodes
    add_node : FilterNode → FilterNodes → FilterNodes

pub record Limits : Type 0 where
  pub max_depth : ℕ
  pub max_criteria : ℕ
  pub max_in_values : ℕ
  pub max_pattern_length : ℕ

-- The error of `badInput`, one for each place that raises it.
pub data BadInput : Type 0 where
  not_object not_exactly_one invalid_connector invalid_negate root_not_group empty_group too_deep
        too_many_criteria invalid_operation invalid_variable unknown_column operation_not_allowed
        invalid_value takes_no_value requires_text pattern_too_long unsupported_pattern
        requires_range requires_array too_many_values requires_scalars requires_scalar :
      BadInput

pub data Checked {ℓ} (A : Type ℓ) : Type ℓ where
  ok : A → Checked A
  refused : BadInput → Checked A

infixl 5 ◌>>=◌
unfoldable pub ◌>>=◌ {ℓ κ} : {A : Type ℓ} {B : Type κ} → Checked A → (A → Checked B) → Checked B
ok a >>= k = k a
refused e >>= k = refused e

infixl 5 ◌>>◌
unfoldable pub ◌>>◌ {ℓ κ} : {A : Type ℓ} {B : Type κ} → Checked A → Checked B → Checked B
ok a >> k = k
refused e >> k = refused e

-- `if (!test) throw error`
unfoldable pub require : Bool → BadInput → Checked (Unit {0})
require b e = elim b [ Bool.true ↦ ok tt | Bool.false ↦ refused e ]
