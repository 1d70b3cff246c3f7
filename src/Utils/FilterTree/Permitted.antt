-- ===== src/Utils/FilterTree/Permitted.antt =====
-- Which columns and operations a compiled tree can contain.
use dashboard_template_api.Common.{
  ◌≡◌, refl, Bool, true, false, ◌&&◌, Option, none, some, arith, if◌then◌else◌,
}
use dashboard_template_api.Common.Map.{lookup}
use dashboard_template_api.Utils.FilterTree.Input.{
  FilterOperation, SqlTypeFamily, Value, FilterCriterion, FilterNode, not_an_object, node,
  no_children, not_an_array, children, FilterNodes, no_nodes, add_node, Limits,
  operation_not_allowed, ok, refused,
}
use dashboard_template_api.Utils.FilterTree.Typing.{Platform, normalize_sql_type, sql_type_family}
use dashboard_template_api.Utils.FilterTree.Operations.{allowed_operations, includes_operation}
use dashboard_template_api.Utils.FilterTree.Values.{filter_variable}
use dashboard_template_api.Utils.FilterTree.Criterion.{
  CompiledFilter, Metadata, text_of, known_column, allowed_operation, compile_criterion,
}
use dashboard_template_api.Utils.FilterTree.Tree.{
  collect_filter_variables, compile_node, compile_rest, tree_to_sql,
}
use dashboard_template_api.Utils.FilterTree.Bindings.{
  Binds, Binds->>=, Binds-ok, Binds-refused, Binds-map, Binds-any, Binds_result,
}

module _ (js : Platform) (metadata : Metadata) where
  abbrev family_allows : Option Value → Option FilterOperation → Bool
  family_allows none op = false
  family_allows (some meta) none = false
  family_allows (some meta) (some op) =
      includes_operation
        (allowed_operations (sql_type_family (normalize_sql_type js (text_of meta)))) op

  -- The column is in the metadata, and its type allows the operation.
  abbrev pub is_permitted : FilterCriterion → Bool
  is_permitted c = family_allows (lookup (text_of c.variable) metadata) c.operation

  -- Every criterion of a node is permitted.
  unfoldable mutual
    pub all_permitted : FilterNode → Bool
    all_permitted not_an_object = true
    all_permitted (node connector negate (some c) nodes) = is_permitted c
    all_permitted (node connector negate none no_children) = true
    all_permitted (node connector negate none not_an_array) = true
    all_permitted (node connector negate none (children nodes)) = each_permitted nodes

    pub each_permitted : FilterNodes → Bool
    each_permitted no_nodes = true
    each_permitted (add_node n ns) = all_permitted n && each_permitted ns

  variable_text : (v : Value) → Binds (λ s. text_of v ≡ s) (filter_variable v)
  unfolding Binds filter_variable
  variable_text v = ground arith

  known_column_lem : (o : Option Value) → Binds (λ meta. o ≡ some meta) (known_column o)
  known_column_lem none = Binds-refused _ _
  known_column_lem (some v) = Binds-ok _ v refl

  allowed_operation_lem :
      (family : SqlTypeFamily) (o : Option FilterOperation)
      → Binds
          (λ op. (o ≡ some op) × (includes_operation (allowed_operations family) op ≡ true))
          (allowed_operation family o)
  allowed_operation_lem family none = Binds-refused _ _
  allowed_operation_lem family (some op) =
      included (includes_operation (allowed_operations family) op) refl
    where
      included :
          (b : Bool)
          → includes_operation (allowed_operations family) op ≡ b
          → Binds
              (λ x. (some op ≡ some x) × (includes_operation (allowed_operations family) x ≡ true))
              (if b then ok op else refused operation_not_allowed)
      included true h = Binds-ok _ op (refl, h)
      included false h = Binds-refused _ _

  criterion_permitted :
      (limits : Limits) (c : FilterCriterion)
      → Binds (λ f. is_permitted c ≡ true) (compile_criterion js limits metadata c)
  unfolding compile_criterion
  criterion_permitted limits c =
      Binds->>= (λ s. text_of c.variable ≡ s) _ (filter_variable c.variable) _
        (variable_text c.variable)
        (λ column e.
          Binds->>= (λ meta. lookup column metadata ≡ some meta) _
            (known_column (lookup column metadata)) _ (known_column_lem (lookup column metadata))
            (λ meta em.
              Binds->>=
                (λ op.
                  (c.operation ≡ some op)
                  × (includes_operation
                        (allowed_operations
                          (sql_type_family (normalize_sql_type js (text_of meta))))
                        op
                      ≡ true))
                _
                (allowed_operation (sql_type_family (normalize_sql_type js (text_of meta)))
                  c.operation)
                _ (allowed_operation_lem _ c.operation)
                (λ op h.
                  let (eo, allowed) = h in
                  Binds-map (λ f. Unit {0}) _ _ (Binds-any _) (λ f u. rw (e, em, eo) allowed))))

  module _ (limits : Limits) where
    mutual
      unfolding compile_node all_permitted

      node_permitted :
          (n : FilterNode) (is_root : Bool)
          → Binds (λ f. all_permitted n ≡ true) (compile_node js limits metadata n is_root)
      node_permitted not_an_object is_root = Binds-ok _ _ refl
      node_permitted (node connector negate (some c) nodes) is_root =
          Binds->>= (λ f. is_permitted c ≡ true) _ (compile_criterion js limits metadata c) _
            (criterion_permitted limits c) (λ one h. Binds-ok _ _ h)
      node_permitted (node connector negate none no_children) is_root = Binds-ok _ _ refl
      node_permitted (node connector negate none not_an_array) is_root = Binds-ok _ _ refl
      node_permitted (node connector negate none (children no_nodes)) is_root = Binds-ok _ _ refl
      node_permitted (node connector negate none (children (add_node child nodes))) is_root =
          Binds->>= (λ f. all_permitted child ≡ true) _
            (compile_node js limits metadata child false) _ (node_permitted child false)
            (λ first h.
              Binds->>= (λ f. each_permitted nodes ≡ true) _
                (compile_rest js limits metadata nodes first) _ (rest_permitted nodes first)
                (λ all ha. Binds-ok _ _ (rw h ha)))

      rest_permitted :
          (nodes : FilterNodes) (left : CompiledFilter)
          → Binds (λ f. each_permitted nodes ≡ true) (compile_rest js limits metadata nodes left)
      rest_permitted no_nodes left = Binds-ok _ _ refl
      rest_permitted (add_node child nodes) left =
          Binds->>= (λ f. all_permitted child ≡ true) _
            (compile_node js limits metadata child false) _ (node_permitted child false)
            (λ right h.
              Binds-map (λ f. each_permitted nodes ≡ true) _ _ (rest_permitted nodes _)
                (λ f hr. rw h hr))

    -- A tree compiles only if each of its criteria names a column of the metadata, with an operation
    -- that the family of that column's type allows.
    pub tree_to_sql_permitted :
        (root : FilterNode) (f : CompiledFilter)
        → tree_to_sql js limits metadata root ≡ ok f
        → all_permitted root ≡ true
    unfolding tree_to_sql
    tree_to_sql_permitted root f e =
        Binds_result (λ g. all_permitted root ≡ true) (tree_to_sql js limits metadata root) f
          (Binds->>= (λ names. Unit {0}) _ (collect_filter_variables limits root) _ (Binds-any _)
            (λ names u. node_permitted root true))
          e
