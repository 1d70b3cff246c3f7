-- ===== src/Utils/FilterTree/Collected.antt =====
-- What the validation of a tree collects, and the bounds that it enforces.
use dashboard_template_api.Common.{
  ℕ, suc, ◌+◌, ◌≤◌, ◌≡◌, refl, sym, ap, ◌∙◌, max, Bool, true, false, none, some, List, [], ◌∷◌,
  ◌++◌, arith, leb→le, leb, String,
}
use dashboard_template_api.Utils.FilterTree.Input.{
  Value, string, FilterCriterion, FilterNode, not_an_object, node, no_children, not_an_array,
  children, FilterNodes, no_nodes, add_node, Limits, Checked, ok, refused,
}
use dashboard_template_api.Utils.FilterTree.Typing.{set_has}
use dashboard_template_api.Utils.FilterTree.Values.{filter_variable}
use dashboard_template_api.Utils.FilterTree.Tree.{
  Walked, walk_leaf, walk, walk_all, collect_filter_variables, names_of,
}
use dashboard_template_api.Utils.FilterTree.Names.{
  add_names, add_names-append, no_repeats, no_repeats-add_names, set_has-add_names,
}
use dashboard_template_api.Utils.FilterTree.Bindings.{
  Binds, Binds->>=, Binds-ok, Binds-guard, Binds->>, Binds-refused, Binds-map,
}

-- The column names of a tree in reading order, its criteria, and how deep its groups are nested.
abbrev pub text_variable : Value → List String
text_variable (string s) = s ∷ []
text_variable v = []

unfoldable mutual
  pub variables : FilterNode → List String
  variables not_an_object = []
  variables (node connector negate (some c) nodes) = text_variable c.variable
  variables (node connector negate none no_children) = []
  variables (node connector negate none not_an_array) = []
  variables (node connector negate none (children nodes)) = all_variables nodes

  pub all_variables : FilterNodes → List String
  all_variables no_nodes = []
  all_variables (add_node n ns) = variables n ++ all_variables ns

unfoldable mutual
  pub criteria_count : FilterNode → ℕ
  criteria_count not_an_object = 0
  criteria_count (node connector negate (some c) nodes) = 1
  criteria_count (node connector negate none no_children) = 0
  criteria_count (node connector negate none not_an_array) = 0
  criteria_count (node connector negate none (children nodes)) = all_criteria nodes

  pub all_criteria : FilterNodes → ℕ
  all_criteria no_nodes = 0
  all_criteria (add_node n ns) = criteria_count n + all_criteria ns

unfoldable mutual
  pub nesting : FilterNode → ℕ
  nesting not_an_object = 0
  nesting (node connector negate (some c) nodes) = 0
  nesting (node connector negate none no_children) = 0
  nesting (node connector negate none not_an_array) = 0
  nesting (node connector negate none (children nodes)) = suc (all_nesting nodes)

  pub all_nesting : FilterNodes → ℕ
  all_nesting no_nodes = 0
  all_nesting (add_node n ns) = max (nesting n) (all_nesting ns)

-- What a walk of a part with these names, criteria and nesting has done.
record Added (limits : Limits) (xs : List String) (count deep depth : ℕ) (w v : Walked)
    : Type 0 where
  names : v.names ≡ add_names xs w.names
  criteria : v.criteria ≡ w.criteria + count
  bounded : w.criteria ≤ limits.max_criteria → v.criteria ≤ limits.max_criteria
  shallow : depth ≤ suc limits.max_depth → deep + depth ≤ suc limits.max_depth

Added-nothing : (limits : Limits) (depth : ℕ) (w : Walked) → Added limits [] 0 0 depth w w
unfolding add_names
Added-nothing limits depth w = record {
  names = refl;
  criteria = omega arith;
  bounded = λ h. h;
  shallow = λ h. omega arith;
}

Added-then :
    (limits : Limits) (xs ys : List String) (m n d e depth : ℕ) (w u v : Walked)
    → Added limits xs m d depth w u
    → Added limits ys n e depth u v
    → Added limits (xs ++ ys) (m + n) (max d e) depth w v
Added-then limits xs ys m n d e depth w u v a b = record {
  names = b.names ∙ ap (add_names ys) a.names ∙ sym (add_names-append xs ys w.names);
  criteria = omega (arith, a.criteria, b.criteria);
  bounded = λ h. b.bounded (a.bounded h);
  shallow = λ h. ground (arith, a.shallow h, b.shallow h);
}

filter_variable_lem : (v : Value) → Binds (λ s. text_variable v ≡ s ∷ []) (filter_variable v)
unfolding Binds filter_variable
filter_variable_lem v = ground arith

leaf-Added :
    (limits : Limits) (c : FilterCriterion) (depth : ℕ) (w : Walked)
    → Binds (Added limits (text_variable c.variable) 1 0 depth w) (walk_leaf limits c w)
unfolding walk_leaf add_names
leaf-Added limits c depth w =
    let P = Added limits (text_variable c.variable) 1 0 depth w in
    Binds-guard P (leb (suc w.criteria) limits.max_criteria) _ _ (λ within. Binds->> P _ _ (
      Binds->>= (λ s. text_variable c.variable ≡ s ∷ []) P (filter_variable c.variable) _
        (filter_variable_lem c.variable)
        (λ name e. Binds-ok P _ (record {
          names = rw e refl;
          criteria = omega arith;
          bounded = λ h. leb→le _ _ within;
          shallow = λ h. omega arith;
        }))))

-- A group stands one level above its children.
group-Added :
    (limits : Limits) (xs : List String) (n d depth : ℕ) (w v : Walked)
    → leb depth limits.max_depth ≡ true
    → Added limits xs n d (suc depth) w v
    → Added limits xs n (suc d) depth w v
group-Added limits xs n d depth w v within a = record {
  names = a.names;
  criteria = a.criteria;
  bounded = a.bounded;
  shallow = λ h. omega (arith, a.shallow (omega (arith, leb→le depth limits.max_depth within)));
}

module _ (limits : Limits) where
  mutual
    unfolding walk variables criteria_count nesting

    walk-Added :
        (n : FilterNode) (depth : ℕ) (is_root : Bool) (w : Walked)
        → Binds
            (Added limits (variables n) (criteria_count n) (nesting n) depth w)
            (walk limits n depth is_root w)
    walk-Added not_an_object depth is_root w = Binds-refused _ _
    walk-Added (node connector negate none no_children) depth is_root w = Binds-refused _ _
    walk-Added (node connector negate (some c) not_an_array) depth is_root w = Binds-refused _ _
    walk-Added (node connector negate (some c) (children nodes)) depth is_root w = Binds-refused _ _
    walk-Added (node connector negate (some c) no_children) depth is_root w =
        Binds->> _ _ _ (Binds->> _ _ _ (leaf-Added limits c depth w))
    walk-Added (node connector negate none not_an_array) depth is_root w =
        Binds->> _ _ _ (Binds-refused _ _)
    walk-Added (node connector negate none (children no_nodes)) depth is_root w =
        Binds->> _ _ _ (Binds-refused _ _)
    walk-Added (node connector negate none (children (add_node child nodes))) depth is_root w =
        Binds->> _ _ _ (
          Binds-guard _ (leb depth limits.max_depth) _ _ (λ within.
            Binds->>=
              (Added limits (variables child) (criteria_count child) (nesting child) (suc depth) w)
              _ (walk limits child (suc depth) false w) _ (walk-Added child (suc depth) false w)
              (λ u a.
                Binds-map
                  (Added limits (all_variables nodes) (all_criteria nodes) (all_nesting nodes)
                    (suc depth) u)
                  _ (walk_all limits nodes (suc depth) u) (walk_all-Added nodes (suc depth) u)
                  (λ v b.
                    group-Added limits _ _ _ depth w v within
                      (Added-then limits _ _ _ _ _ _ (suc depth) w u v a b)))))

    walk_all-Added :
        (ns : FilterNodes) (depth : ℕ) (w : Walked)
        → Binds
            (Added limits (all_variables ns) (all_criteria ns) (all_nesting ns) depth w)
            (walk_all limits ns depth w)
    walk_all-Added no_nodes depth w = Binds-ok _ _ (Added-nothing limits depth w)
    walk_all-Added (add_node child nodes) depth w =
        Binds->>= (Added limits (variables child) (criteria_count child) (nesting child) depth w) _
          (walk limits child depth false w) _ (walk-Added child depth false w)
          (λ u a.
            Binds-map
              (Added limits (all_variables nodes) (all_criteria nodes) (all_nesting nodes) depth u)
              _ (walk_all limits nodes depth u) (walk_all-Added nodes depth u)
              (λ v b. Added-then limits _ _ _ _ _ _ depth w u v a b))

-- What a validated tree is known to satisfy.
pub record IsCollected (limits : Limits) (root : FilterNode) (names : List String) : Type 0 where
  pub first_seen : names ≡ add_names (variables root) []
  pub once : no_repeats names ≡ true
  pub every : (x : String) → set_has names x ≡ set_has (variables root) x
  pub few : criteria_count root ≤ limits.max_criteria
  pub shallow : nesting root ≤ suc limits.max_depth

start : Walked
start = record { names = []; criteria = 0 }

ok_names : (v : Walked) (names : List String) → names_of (ok v) ≡ ok names → v.names ≡ names
ok_names v names e = cc

collected :
    (limits : Limits) (root : FilterNode) (m : Checked Walked) (names : List String)
    → Binds (Added limits (variables root) (criteria_count root) (nesting root) 0 start) m
    → names_of m ≡ ok names
    → IsCollected limits root names
unfolding Binds start no_repeats
collected limits root (refused e) names h eq = cc
collected limits root (ok v) names h eq = record {
  first_seen = cc;
  once = rw (sym (ok_names v names eq), h.names) (no_repeats-add_names (variables root) [] refl);
  every = λ x. rw (sym (ok_names v names eq), h.names) (set_has-add_names (variables root) [] x);
  few = omega (arith, h.criteria, h.bounded (omega arith));
  shallow = omega (arith, h.shallow (omega arith));
}

-- A tree that passes validation yields its distinct column names, each at its first appearance in
-- reading order; it has at most the allowed number of criteria, and its groups are nested at most
-- the allowed number of levels below the root.
pub collect_filter_variables-IsCollected :
    (limits : Limits) (root : FilterNode) (names : List String)
    → collect_filter_variables limits root ≡ ok names
    → IsCollected limits root names
unfolding collect_filter_variables start
collect_filter_variables-IsCollected limits root names e =
    collected limits root (walk limits root 0 true start) names
      (walk-Added limits root 0 true start) e
