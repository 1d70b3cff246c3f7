-- ===== src/Utils/FilterTree/Placeholders.antt =====
-- A compiled tree binds one parameter for each of its placeholders.
use Prim.Native.String.{String, ◌++◌}
use dashboard_template_api.Common.{
  ℕ, ◌+◌, ◌≡◌, refl, Bool, true, false, none, some, List, arith, length, length-append,
}
use dashboard_template_api.Utils.SqlText.{ends_inside, placeholders, Holds, Holds-append}
use dashboard_template_api.Utils.Identifiers.Joining.{Holds-subst}
use dashboard_template_api.Utils.FilterTree.Input.{
  FilterConnector, con_and, con_or, con_and_not, con_or_not, con_xor, con_xnor, con_nand, con_nor,
  Field, absent, known, unknown, FilterNode, not_an_object, node, no_children, not_an_array,
  children, FilterNodes, no_nodes, add_node, Limits, ok,
}
use dashboard_template_api.Utils.FilterTree.Typing.{Platform}
use dashboard_template_api.Utils.FilterTree.Operations.{combine}
use dashboard_template_api.Utils.FilterTree.Criterion.{CompiledFilter, Metadata, compile_criterion}
use dashboard_template_api.Utils.FilterTree.Tree.{
  connector_of, is_negated, negated, group_sql, compile_node, compile_rest, tree_to_sql,
  collect_filter_variables,
}
use dashboard_template_api.Utils.FilterTree.SafeTypes.{is_bare, is_bare-IsPlain}
use dashboard_template_api.Utils.FilterTree.Bindings.{
  IsBound, Binds, Binds->>=, Binds-ok, Binds-any, Binds_result,
}
use dashboard_template_api.Utils.FilterTree.Bound.{compile_criterion-Holds}

text : Unit {0}
unfolding ends_inside placeholders
text = tt

-- Words before, between and after two texts.
around :
    {a b : String} {m n : ℕ} (x y z : String)
    → Holds x 0
    → Holds y 0
    → Holds z 0
    → Holds a m
    → Holds b n
    → Holds (x ++ (a ++ (y ++ (b ++ z)))) (m + n)
around x y z hx hy hz ha hb =
    Holds-subst (omega arith)
      (Holds-append hx (Holds-append ha (Holds-append hy (Holds-append hb hz))))

enclosed :
    {a : String} {n : ℕ} (x z : String)
    → Holds x 0
    → Holds z 0
    → Holds a n
    → Holds (x ++ (a ++ z)) n
enclosed x z hx hz h = Holds-subst (omega arith) (Holds-append hx (Holds-append h hz))

-- A word between two texts.
joined :
    {a b : String} {m n : ℕ} (y : String)
    → Holds y 0
    → Holds a m
    → Holds b n
    → Holds (a ++ (y ++ b)) (m + n)
joined y hy ha hb = Holds-subst (omega arith) (Holds-append ha (Holds-append hy hb))

combine-Holds :
    (connector : FilterConnector) {a b : String} {m n : ℕ}
    → Holds a m
    → Holds b n
    → Holds (combine connector a b) (m + n)
unfolding combine is_bare
combine-Holds con_and ha hb = joined " AND " (is_bare-IsPlain _ refl) ha hb
combine-Holds con_or ha hb = joined " OR " (is_bare-IsPlain _ refl) ha hb
combine-Holds con_and_not ha hb = Holds-subst (omega arith) (
    Holds-append ha
      (enclosed " AND NOT (" ")" (is_bare-IsPlain _ refl) (is_bare-IsPlain _ refl) hb))
combine-Holds con_or_not ha hb = Holds-subst (omega arith) (
    Holds-append ha (enclosed " OR NOT (" ")" (is_bare-IsPlain _ refl) (is_bare-IsPlain _ refl) hb))
combine-Holds con_xor ha hb =
    around "(" ") <> (" ")" (is_bare-IsPlain _ refl) (is_bare-IsPlain _ refl)
      (is_bare-IsPlain _ refl) ha hb
combine-Holds con_xnor ha hb =
    around "(" ") = (" ")" (is_bare-IsPlain _ refl) (is_bare-IsPlain _ refl)
      (is_bare-IsPlain _ refl) ha hb
combine-Holds con_nand ha hb =
    around "NOT ((" ") AND (" "))" (is_bare-IsPlain _ refl) (is_bare-IsPlain _ refl)
      (is_bare-IsPlain _ refl) ha hb
combine-Holds con_nor ha hb =
    around "NOT ((" ") OR (" "))" (is_bare-IsPlain _ refl) (is_bare-IsPlain _ refl)
      (is_bare-IsPlain _ refl) ha hb

negated-Holds : (b : Bool) {s : String} {n : ℕ} → Holds s n → Holds (negated b s) n
unfolding is_bare
negated-Holds true h = enclosed "NOT (" ")" (is_bare-IsPlain _ refl) (is_bare-IsPlain _ refl) h
negated-Holds false h = h

group_sql-Holds :
    (b is_root : Bool) {s : String} {n : ℕ} → Holds s n → Holds (group_sql (known b) is_root s) n
unfolding is_bare
group_sql-Holds true is_root h =
    enclosed "NOT (" ")" (is_bare-IsPlain _ refl) (is_bare-IsPlain _ refl) h
group_sql-Holds false true h = h
group_sql-Holds false false h = enclosed "(" ")" (is_bare-IsPlain _ refl) (is_bare-IsPlain _ refl) h

group_Holds :
    (negate : Field Bool) (is_root : Bool) {s : String} {n : ℕ}
    → Holds s n
    → Holds (group_sql negate is_root s) n
group_Holds absent is_root h = group_sql-Holds false is_root h
group_Holds (known b) is_root h = group_sql-Holds b is_root h
group_Holds unknown is_root h = group_sql-Holds false is_root h

empty-IsBound : IsBound (record { sql = ""; params = List.[] })
unfolding text
empty-IsBound = record { closed = refl; count = refl }

module _ (js : Platform) (limits : Limits) (metadata : Metadata) where
  mutual
    unfolding compile_node

    compile_node-Holds :
        (n : FilterNode) (is_root : Bool)
        → Binds IsBound (compile_node js limits metadata n is_root)
    compile_node-Holds not_an_object is_root = Binds-ok IsBound _ empty-IsBound
    compile_node-Holds (node connector negate (some c) nodes) is_root =
        Binds->>= IsBound IsBound (compile_criterion js limits metadata c) _
          (compile_criterion-Holds js limits metadata c)
          (λ one h. Binds-ok IsBound _ (negated-Holds (is_negated negate) h))
    compile_node-Holds (node connector negate none no_children) is_root =
        Binds-ok IsBound _ empty-IsBound
    compile_node-Holds (node connector negate none not_an_array) is_root =
        Binds-ok IsBound _ empty-IsBound
    compile_node-Holds (node connector negate none (children no_nodes)) is_root =
        Binds-ok IsBound _ (group_Holds negate is_root empty-IsBound)
    compile_node-Holds (node connector negate none (children (add_node child nodes))) is_root =
        Binds->>= IsBound IsBound (compile_node js limits metadata child false) _
          (compile_node-Holds child false)
          (λ first h.
            Binds->>= IsBound IsBound (compile_rest js limits metadata nodes first) _
              (compile_rest-Holds nodes first h)
              (λ all ha. Binds-ok IsBound _ (group_Holds negate is_root ha)))

    compile_rest-Holds :
        (nodes : FilterNodes) (left : CompiledFilter)
        → IsBound left
        → Binds IsBound (compile_rest js limits metadata nodes left)
    compile_rest-Holds no_nodes left h = Binds-ok IsBound _ h
    compile_rest-Holds (add_node child nodes) left h =
        Binds->>= IsBound IsBound (compile_node js limits metadata child false) _
          (compile_node-Holds child false)
          (λ right hr. compile_rest-Holds nodes _ (
            Holds-subst (omega (arith, length-append left.params right.params))
              (combine-Holds (connector_of child) h hr)))

  tree_to_sql-Binds : (root : FilterNode) → Binds IsBound (tree_to_sql js limits metadata root)
  unfolding tree_to_sql
  tree_to_sql-Binds root =
      Binds->>= (λ names. Unit {0}) IsBound (collect_filter_variables limits root) _ (Binds-any _)
        (λ names u. compile_node-Holds root true)

  -- The predicate that a tree is compiled to leaves every quoted column name closed, whatever
  -- characters the request's names and values have, and holds exactly as many `?` placeholders outside
  -- of names as parameters come with it.
  pub tree_to_sql-Holds :
      (root : FilterNode) (f : CompiledFilter)
      → tree_to_sql js limits metadata root ≡ ok f
      → Holds f.sql (length f.params)
  tree_to_sql-Holds root f e = Binds_result IsBound _ f (tree_to_sql-Binds root) e
