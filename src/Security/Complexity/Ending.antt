-- ===== src/Security/Complexity/Ending.antt =====
-- The walks over an operation end where no fragment spreads itself.
use dashboard_template_api.Common.{
  ℕ, zero, suc, ◌<◌, ◌≤◌, ◌≡◌, refl, Bool, true, false, Option, none, some, List, [], ◌∷◌, String,
  All, All-append, arith,
}
use dashboard_template_api.Common.Map.{Map, lookup}
use dashboard_template_api.Security.Complexity.Values.{Numbers, JsValue, Runtime}
use dashboard_template_api.Security.Complexity.Costs.{ComplexityAnalyzerConfig, PaginationConfig}
use dashboard_template_api.Security.Complexity.Score.{
  FieldNode, plain_field, object_field, SelectionSet, end_of_set, with_field, with_inline,
  with_spread, Collected, then_collect, collect_root_fields, expanded, expand_fragment, FragmentMap,
  fields_collected, root_fields,
}
use dashboard_template_api.Security.Complexity.Fields.{
  ColumnList, then_charge, child_column_lists, calculate_field_complexity, charge_selections,
}
use dashboard_template_api.Security.Complexity.Operation.{add_fragment, spread_fragment}

-- A computation that has ended.
abbrev pub Ends : {A : Type 0} → Option A → Type 0
Ends none = ⊥
Ends (some a) = Unit

pub then_charge-Ends :
    {A B : Type 0} (o : Option A) (next : A → Option B)
    → Ends o
    → ((a : A) → Ends (next a))
    → Ends (then_charge o next)
then_charge-Ends none next h n = h
then_charge-Ends (some a) next h n = n a

-- Every fragment that is spread has a rank below the bound.
module _ (rank : String → ℕ) where
  unfoldable mutual
    pub FieldBelow : ℕ → FieldNode → Type 0
    FieldBelow bound (plain_field name args) = Unit
    FieldBelow bound (object_field name args set) = SetBelow bound set

    pub SetBelow : ℕ → SelectionSet → Type 0
    SetBelow bound end_of_set = Unit
    SetBelow bound (with_field f rest) = FieldBelow bound f × SetBelow bound rest
    SetBelow bound (with_inline inner rest) = SetBelow bound inner × SetBelow bound rest
    SetBelow bound (with_spread name rest) = (rank name < bound) × SetBelow bound rest

  -- Fragments without a cycle: each spreads fragments of lower rank alone.
  abbrev pub IsRanked : FragmentMap → Type 0
  IsRanked fragments =
      (name : String) (set : SelectionSet)
      → lookup name fragments ≡ some set
      → SetBelow (rank name) set

  mutual
    unfolding FieldBelow

    FieldBelow-mono :
        (low high : ℕ) → low ≤ high → (f : FieldNode) → FieldBelow low f → FieldBelow high f
    FieldBelow-mono low high h (plain_field name args) below = tt
    FieldBelow-mono low high h (object_field name args set) below =
        SetBelow-mono low high h set below

    SetBelow-mono :
        (low high : ℕ) → low ≤ high → (set : SelectionSet) → SetBelow low set → SetBelow high set
    SetBelow-mono low high h end_of_set below = tt
    SetBelow-mono low high h (with_field f rest) (here, later) =
        (FieldBelow-mono low high h f here, SetBelow-mono low high h rest later)
    SetBelow-mono low high h (with_inline inner rest) (here, later) =
        (SetBelow-mono low high h inner here, SetBelow-mono low high h rest later)
    SetBelow-mono low high h (with_spread name rest) (here, later) =
        (omega (arith, h, here), SetBelow-mono low high h rest later)

  -- Collected fields, each of them below the bound.
  abbrev pub CollectedBelow : ℕ → Option Collected → Type 0
  CollectedBelow bound none = ⊥
  CollectedBelow bound (some (fields, visited)) = All (FieldBelow bound) fields

  fields_below :
      (low high : ℕ)
      → low ≤ high
      → (fields : List FieldNode) → All (FieldBelow low) fields
      → All (FieldBelow high) fields
  fields_below low high h [] below = tt
  fields_below low high h (f ∷ fields) (here, later) =
      (FieldBelow-mono low high h f here, fields_below low high h fields later)

  CollectedBelow-mono :
      (low high : ℕ)
      → low ≤ high
      → (o : Option Collected) → CollectedBelow low o
      → CollectedBelow high o
  CollectedBelow-mono low high h none below = below
  CollectedBelow-mono low high h (some (fields, visited)) below =
      fields_below low high h fields below

  then_collect-CollectedBelow :
      (bound : ℕ) (o : Option Collected) (next : List String → Option Collected)
      → CollectedBelow bound o
      → ((seen : List String) → CollectedBelow bound (next seen))
      → CollectedBelow bound (then_collect o next)
  then_collect-CollectedBelow bound none next h n = h
  then_collect-CollectedBelow bound (some (fields, visited)) next h n =
      appended fields visited (next visited) h (n visited)
    where
      appended :
          (fields : List FieldNode) (visited : List String) (rest : Option Collected)
          → All (FieldBelow bound) fields
          → CollectedBelow bound rest
          → CollectedBelow bound (then_collect (some (fields, visited)) (λ seen. rest))
      appended fields visited none h n = n
      appended fields visited (some (others, seen)) h n =
          All-append (FieldBelow bound) fields others h n

  collect_root_fields-CollectedBelow :
      (bound : ℕ) (expand : String → List String → Option Collected)
      → ((name : String) (visited : List String)
          → rank name < bound
          → CollectedBelow bound (expand name visited))
      → (set : SelectionSet) (visited : List String) → SetBelow bound set
      → CollectedBelow bound (collect_root_fields expand set visited)
  unfolding collect_root_fields FieldBelow
  collect_root_fields-CollectedBelow bound expand h end_of_set visited below = tt
  collect_root_fields-CollectedBelow bound expand h (with_field f rest) visited (here, later) =
      then_collect-CollectedBelow bound (some (f ∷ [], visited)) _ (here, tt)
        (λ seen. collect_root_fields-CollectedBelow bound expand h rest seen later)
  collect_root_fields-CollectedBelow bound expand h (with_inline inner rest) visited (here, later) =
      then_collect-CollectedBelow bound (collect_root_fields expand inner visited) _
        (collect_root_fields-CollectedBelow bound expand h inner visited here)
        (λ seen. collect_root_fields-CollectedBelow bound expand h rest seen later)
  collect_root_fields-CollectedBelow bound expand h (with_spread name rest) visited (here, later) =
      then_collect-CollectedBelow bound (expand name visited) _ (h name visited here)
        (λ seen. collect_root_fields-CollectedBelow bound expand h rest seen later)

  expanded-CollectedBelow :
      (bound : ℕ) (o : Option SelectionSet) (seen : Bool) (visited : List String)
      (inner : SelectionSet → Option Collected)
      → ((set : SelectionSet) → o ≡ some set → CollectedBelow bound (inner set))
      → CollectedBelow bound (expanded o seen visited inner)
  expanded-CollectedBelow bound none seen visited inner h = tt
  expanded-CollectedBelow bound (some set) true visited inner h = tt
  expanded-CollectedBelow bound (some set) false visited inner h = h set refl

  add_fragment-Ends :
      (N : Numbers) (runtime : Runtime N) (config : ComplexityAnalyzerConfig N)
      (pagination : PaginationConfig N) (o : Option SelectionSet) (sum : N.Number)
      (enter : SelectionSet → Option N.Number)
      → ((set : SelectionSet) → o ≡ some set → Ends (enter set))
      → Ends (add_fragment N runtime config pagination o sum enter)
  add_fragment-Ends N runtime config pagination none sum enter h = tt
  add_fragment-Ends N runtime config pagination (some set) sum enter h =
      then_charge-Ends (enter set) _ (h set refl) (λ cost. tt)

  module _ (fragments : FragmentMap) (ranked : IsRanked fragments) where
    -- enough fuel: more than the rank of the fragment
    expand_fragment-CollectedBelow :
        (fuel bound : ℕ) (name : String) (visited : List String)
        → rank name < fuel
        → rank name < bound
        → CollectedBelow bound (expand_fragment fragments fuel name visited)
    unfolding expand_fragment
    expand_fragment-CollectedBelow zero bound name visited h below = absurd (omega (arith, h))
    expand_fragment-CollectedBelow (suc fuel) bound name visited h below =
        expanded-CollectedBelow bound (lookup name fragments) _ visited _ (λ set e.
          CollectedBelow-mono (rank name) bound (omega (arith, below)) _ (
            collect_root_fields-CollectedBelow (rank name) (expand_fragment fragments fuel)
              (λ n seen lower.
                expand_fragment-CollectedBelow fuel (rank name) n seen (omega (arith, h, lower))
                  lower)
              set (name ∷ visited) (ranked name set e)))

    abbrev pub FieldsBelow : ℕ → Option (List FieldNode) → Type 0
    FieldsBelow bound none = ⊥
    FieldsBelow bound (some fields) = All (FieldBelow bound) fields

    fields_collected-FieldsBelow :
        (bound : ℕ) (o : Option Collected)
        → CollectedBelow bound o
        → FieldsBelow bound (fields_collected o)
    fields_collected-FieldsBelow bound none h = h
    fields_collected-FieldsBelow bound (some (fields, visited)) h = h

    pub root_fields-FieldsBelow :
        (bound : ℕ) (set : SelectionSet)
        → SetBelow bound set
        → FieldsBelow bound (root_fields fragments bound set)
    unfolding root_fields
    root_fields-FieldsBelow bound set below = fields_collected-FieldsBelow bound _ (
        collect_root_fields-CollectedBelow bound (expand_fragment fragments bound)
          (λ n seen lower. expand_fragment-CollectedBelow bound bound n seen lower lower) set []
          below)

    module _ (N : Numbers) (runtime : Runtime N) (config : ComplexityAnalyzerConfig N)
        (pagination : PaginationConfig N) (variables : Map (JsValue N.Number)) where
      mutual
        unfolding calculate_field_complexity FieldBelow

        pub calculate_field_complexity-Ends :
            (bound : ℕ) (spread : ℕ → List ColumnList → String → N.Number → Option N.Number)
            → ((depth : ℕ) (lists : List ColumnList) (name : String) (sum : N.Number)
                → rank name < bound
                → Ends (spread depth lists name sum))
            → (f : FieldNode) (depth : ℕ) (lists : List ColumnList) (limit : Option N.Number)
            → FieldBelow bound f
            → Ends (
                calculate_field_complexity N runtime config pagination variables spread f depth
                  lists limit)
        calculate_field_complexity-Ends bound spread h (plain_field name args) depth lists limit
              below =
            tt
        calculate_field_complexity-Ends bound spread h (object_field name args set) depth lists
              limit below =
            charge_selections-Ends bound spread h set depth lists _ below

        pub charge_selections-Ends :
            (bound : ℕ) (spread : ℕ → List ColumnList → String → N.Number → Option N.Number)
            → ((depth : ℕ) (lists : List ColumnList) (name : String) (sum : N.Number)
                → rank name < bound
                → Ends (spread depth lists name sum))
            → (set : SelectionSet) (depth : ℕ) (lists : List ColumnList) (sum : N.Number)
            → SetBelow bound set
            → Ends
                (charge_selections N runtime config pagination variables spread set depth lists sum)
        charge_selections-Ends bound spread h end_of_set depth lists sum below = tt
        charge_selections-Ends bound spread h (with_field f rest) depth lists sum (here, later) =
            then_charge-Ends _ _
              (calculate_field_complexity-Ends bound spread h f (suc depth)
                (child_column_lists lists f) none here)
              (λ cost. charge_selections-Ends bound spread h rest depth lists _ later)
        charge_selections-Ends bound spread h (with_inline inner rest) depth lists sum
              (here, later) =
            then_charge-Ends _ _ (charge_selections-Ends bound spread h inner depth lists _ here)
              (λ cost. charge_selections-Ends bound spread h rest depth lists _ later)
        charge_selections-Ends bound spread h (with_spread name rest) depth lists sum
              (here, later) =
            then_charge-Ends _ _ (h depth lists name sum here)
              (λ total. charge_selections-Ends bound spread h rest depth lists total later)

      pub spread_fragment-Ends :
          (fuel depth : ℕ) (lists : List ColumnList) (name : String) (sum : N.Number)
          → rank name < fuel
          → Ends (
              spread_fragment N runtime config pagination fragments variables fuel depth lists name
                sum)
      unfolding spread_fragment
      spread_fragment-Ends zero depth lists name sum h = absurd (omega (arith, h))
      spread_fragment-Ends (suc fuel) depth lists name sum h =
          add_fragment-Ends N runtime config pagination (lookup name fragments) sum _ (λ set e.
            charge_selections-Ends (rank name)
              (spread_fragment N runtime config pagination fragments variables fuel)
              (λ d ls n s lower. spread_fragment-Ends fuel d ls n s (omega (arith, h, lower))) set
              depth lists _ (ranked name set e))
