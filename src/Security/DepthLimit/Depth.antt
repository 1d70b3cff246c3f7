-- ===== src/Security/DepthLimit/Depth.antt =====
-- That the computation of the depth ends, and what it computes.
use dashboard_template_api.Common.{
  Bool, true, false, ◌||◌, ◌⊎◌, str_eq, ℕ, zero, suc, ◌<◌, ◌≡◌, refl, ◌≢◌, Option, none, some,
  String, arith, eq_iff, Option-cases, inl, inr,
}
use dashboard_template_api.Common.Map.{lookup}
use dashboard_template_api.Security.DepthLimit.{
  Node, leaf, selecting, Selections, no_more, field, inline_fragment, fragment_spread, Fragments,
  deeper, depth_of, deepest, enter_fragment, calculate_node_depth,
}

some_none :
    (a b : Bool) (x y : Option ℕ)
    → (a || b) ≡ true
    → (a ≡ true → x ≡ none)
    → (b ≡ true → y ≡ none)
    → (x ≡ none) ⊎ (y ≡ none)
some_none true b x y h f g = inl (f refl)
some_none false b x y h f g = inr (g h)

-- Every fragment that a node spreads has a rank below the bound.
module _ (rank : String → ℕ) where
  unfoldable mutual
    pub SpreadsBelow : ℕ → Node → Type 0
    SpreadsBelow bound leaf = Unit
    SpreadsBelow bound (selecting selections) = AllBelow bound selections

    pub AllBelow : ℕ → Selections → Type 0
    AllBelow bound no_more = Unit
    AllBelow bound (field n rest) = SpreadsBelow bound n × AllBelow bound rest
    AllBelow bound (inline_fragment n rest) = SpreadsBelow bound n × AllBelow bound rest
    AllBelow bound (fragment_spread name rest) = (rank name < bound) × AllBelow bound rest

  -- Fragments without a cycle: each spreads fragments of lower rank alone.
  abbrev pub IsAcyclic : Fragments → Type 0
  IsAcyclic fragments =
      (name : String) (n : Node) → lookup name fragments ≡ some n → SpreadsBelow (rank name) n

  deeper-some : (a b : Option ℕ) → a ≢ none → b ≢ none → deeper a b ≢ none
  deeper-some a b ha hb = ground arith

  mutual
    unfolding SpreadsBelow depth_of

    depth_of-ends :
        (enter : ℕ → String → Option ℕ) (bound : ℕ)
        → ((current : ℕ) (name : String) → rank name < bound → enter current name ≢ none)
        → (n : Node) (current : ℕ) → SpreadsBelow bound n
        → depth_of enter n current ≢ none
    depth_of-ends enter bound h leaf current below = λ e. cc
    depth_of-ends enter bound h (selecting selections) current below =
        deepest-ends enter bound h selections current below

    deepest-ends :
        (enter : ℕ → String → Option ℕ) (bound : ℕ)
        → ((current : ℕ) (name : String) → rank name < bound → enter current name ≢ none)
        → (selections : Selections) (current : ℕ) → AllBelow bound selections
        → deepest enter selections current ≢ none
    deepest-ends enter bound h no_more current below = λ e. cc
    deepest-ends enter bound h (field n rest) current (here, later) =
        deeper-some _ _ (depth_of-ends enter bound h n (suc current) here)
          (deepest-ends enter bound h rest current later)
    deepest-ends enter bound h (inline_fragment n rest) current (here, later) =
        deeper-some _ _ (depth_of-ends enter bound h n current here)
          (deepest-ends enter bound h rest current later)
    deepest-ends enter bound h (fragment_spread name rest) current (here, later) =
        deeper-some _ _ (h current name here) (deepest-ends enter bound h rest current later)

  module _ (fragments : Fragments) (acyclic : IsAcyclic fragments) where
    enter_fragment-ends :
        (fuel current : ℕ) (name : String)
        → rank name < fuel
        → enter_fragment fragments fuel current name ≢ none
    unfolding enter_fragment
    enter_fragment-ends zero current name h = absurd (omega (arith, h))
    enter_fragment-ends (suc fuel) current name h = elim (Option-cases (lookup name fragments)) [
      | inl missing ↦ rw missing (λ e. cc)
      | inr found ↦
          let (n, e) = found in
          rw e (
            depth_of-ends (enter_fragment fragments fuel) (rank name)
              (λ c m lower. enter_fragment-ends fuel c m (omega (arith, h, lower))) n current
              (acyclic name n e))
    ]

    -- In a document whose fragments form no cycle, the depth of every node is computed: where the
    -- fragments have ranks that fall along their spreads, it enters at most as many fragments within
    -- one another as the bound on the ranks of those that the node spreads.
    pub calculate_node_depth-ends :
        (bound : ℕ) (n : Node) (current : ℕ)
        → SpreadsBelow bound n
        → calculate_node_depth fragments bound n current ≢ none
    unfolding calculate_node_depth
    calculate_node_depth-ends bound n current below =
        depth_of-ends (enter_fragment fragments bound) bound
          (λ c m lower. enter_fragment-ends bound c m lower) n current below

-- A node that spreads this fragment, at any place in it.
unfoldable mutual
  pub spreads : String → Node → Bool
  spreads name leaf = false
  spreads name (selecting selections) = any_spreads name selections

  pub any_spreads : String → Selections → Bool
  any_spreads name no_more = false
  any_spreads name (field n rest) = spreads name n || any_spreads name rest
  any_spreads name (inline_fragment n rest) = spreads name n || any_spreads name rest
  any_spreads name (fragment_spread other rest) = str_eq other name || any_spreads name rest

deeper-none : (a b : Option ℕ) → (a ≡ none) ⊎ (b ≡ none) → deeper a b ≡ none
deeper-none none b h = refl
deeper-none (some a) none h = refl
deeper-none (some a) (some b) (inl e) = cc
deeper-none (some a) (some b) (inr e) = cc

module _ (enter : ℕ → String → Option ℕ) (name : String)
    (never : (current : ℕ) → enter current name ≡ none) where
  mutual
    unfolding spreads depth_of

    depth_of-spreads :
        (n : Node) (current : ℕ) → spreads name n ≡ true → depth_of enter n current ≡ none
    depth_of-spreads leaf current h = cc
    depth_of-spreads (selecting selections) current h = deepest-spreads selections current h

    deepest-spreads :
        (selections : Selections) (current : ℕ)
        → any_spreads name selections ≡ true
        → deepest enter selections current ≡ none
    deepest-spreads no_more current h = cc
    deepest-spreads (field n rest) current h = deeper-none _ _ (
        some_none (spreads name n) (any_spreads name rest) _ _ h (depth_of-spreads n (suc current))
          (deepest-spreads rest current))
    deepest-spreads (inline_fragment n rest) current h = deeper-none _ _ (
        some_none (spreads name n) (any_spreads name rest) _ _ h (depth_of-spreads n current)
          (deepest-spreads rest current))
    deepest-spreads (fragment_spread other rest) current h = deeper-none _ _ (
        some_none (str_eq other name) (any_spreads name rest) _ _ h
          (λ same. rw ((eq_iff other name).0 same) (never current)) (deepest-spreads rest current))

enter_cycle :
    (fragments : Fragments) (name : String) (n : Node)
    → lookup name fragments ≡ some n
    → spreads name n ≡ true
    → (fuel current : ℕ) → enter_fragment fragments fuel current name ≡ none
unfolding enter_fragment
enter_cycle fragments name n e h zero current = rw (enter_fragment, e) refl
enter_cycle fragments name n e h (suc fuel) current =
    rw (enter_fragment, e)
      (depth_of-spreads (enter_fragment fragments fuel) name (enter_cycle fragments name n e h fuel)
        n current h)

-- In a document with a fragment that spreads itself, at any place in it, the computation of the depth
-- of an operation that spreads that fragment, at any place in it, never ends: no number of entered
-- fragments is enough.
pub calculate_node_depth-cycle :
    (fragments : Fragments) (name : String) (n operation : Node) (fuel current : ℕ)
    → lookup name fragments ≡ some n
    → spreads name n ≡ true
    → spreads name operation ≡ true
    → calculate_node_depth fragments fuel operation current ≡ none
unfolding calculate_node_depth
calculate_node_depth-cycle fragments name n operation fuel current e h there =
    depth_of-spreads (enter_fragment fragments fuel) name (enter_cycle fragments name n e h fuel)
      operation current there
