-- ===== src/Common/Map.antt =====
-- A JavaScript `Map` with string keys as an association list in insertion order.
use Prim.Native.String.{String}
use mathlib.Core.Path.{◌≡◌, refl}
use mathlib.Core.Logic.{inl, inr}
use mathlib.Core.Option.{Option, none, some}
use mathlib.Core.List.{List, [], ◌∷◌}
use native.Mathlib.Omega.{arith}
use text.Mathlib.Text.{◌==◌ as str_eq}
use text.Mathlib.TextEquality.{eq_iff}
use dashboard_template_api.Common.Tests.{if◌then◌else◌, Bool-cases}

abbrev pub Map {ℓ} : Type ℓ → Type ℓ
Map V = List (String × V)

module _ {ℓ} {V : Type ℓ} where
  -- `map.get(key)`
  unfoldable pub lookup : String → Map V → Option V
  lookup key [] = none
  lookup key ((name, held) ∷ entries) = if str_eq name key then some held else lookup key entries

  -- `map.set(key, value)`: an entry that is there keeps its place
  unfoldable pub insert : String → V → Map V → Map V
  insert key value [] = (key, value) ∷ []
  insert key value ((name, held) ∷ entries) =
      if str_eq name key then (name, value) ∷ entries else (name, held) ∷ insert key value entries

  -- `map.delete(key)`
  unfoldable pub erase : String → Map V → Map V
  erase key [] = []
  erase key ((name, held) ∷ entries) =
      let left = erase key entries in if str_eq name key then left else (name, held) ∷ left

  module _ (key asked : String) where
    pub lookup-insert :
        (value : V) (entries : Map V)
        → lookup asked (insert key value entries)
          ≡ (if str_eq key asked then some value else lookup asked entries)
    unfolding lookup insert
    lookup-insert value [] = refl
    lookup-insert value ((name, held) ∷ entries) =
        let ih = lookup-insert value entries in
        ground (arith, ih, eq_iff name key, eq_iff key asked, eq_iff name asked)

    pub lookup-erase :
        (entries : Map V)
        → lookup asked (erase key entries)
          ≡ (if str_eq key asked then none else lookup asked entries)
    unfolding lookup erase
    lookup-erase [] = ground arith
    lookup-erase ((name, held) ∷ entries) =
        let ih = lookup-erase entries in
        ground (arith, ih, eq_iff name key, eq_iff name asked, eq_iff key asked)

pub ruleset map_laws = (lookup-insert, lookup-erase)

-- No key stands twice, as in every `Map`.
abbrev pub IsUnique {ℓ} : {V : Type ℓ} → Map V → Type ℓ
IsUnique [] = Unit
IsUnique ((k, v) ∷ m) = (lookup k m ≡ none) × IsUnique m

pub insert-IsUnique {ℓ} :
    {V : Type ℓ} (key : String) (value : V) (entries : Map V)
    → IsUnique entries
    → IsUnique (insert key value entries)
unfolding insert lookup
insert-IsUnique key value [] u = (refl, tt)
insert-IsUnique key value ((name, held) ∷ entries) (absent, u) =
    elim (Bool-cases (str_eq name key)) [
      | inl same ↦ rw same (absent, u)
      | inr other ↦ rw other (
        ground (arith, lookup-insert key name value entries, eq_iff name key, eq_iff key name),
        insert-IsUnique key value entries u,
      )
    ]
