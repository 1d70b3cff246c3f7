-- ===== src/Utils/FilterTree/Names.antt =====
-- Column names collected one by one: each once, at its first appearance.
use dashboard_template_api.Common.{
  all, ◌≡◌, refl, sym, ap, ◌∙◌, Bool, true, false, not, ◌&&◌, ◌||◌, List, [], ◌∷◌, ◌++◌, arith,
  String, str_eq, eq_iff, Bool-cases, inl, inr,
}
use dashboard_template_api.Utils.FilterTree.Typing.{set_has}
use dashboard_template_api.Utils.FilterTree.Tree.{add_name}

-- names added one after another, each at its first appearance
unfoldable pub add_names : List String → List String → List String
unfolding add_name
add_names [] names = names
add_names (x ∷ xs) names = add_names xs (add_name x names)

pub add_names-append :
    (xs ys names : List String) → add_names (xs ++ ys) names ≡ add_names ys (add_names xs names)
unfolding add_names
add_names-append [] ys names = refl
add_names-append (x ∷ xs) ys names = add_names-append xs ys (add_name x names)

unfoldable pub no_repeats : List String → Bool
no_repeats [] = true
no_repeats (x ∷ xs) = not (set_has xs x) && no_repeats xs

pub set_has-snoc :
    (xs : List String) (x y : String) → set_has (xs ++ x ∷ []) y ≡ (set_has xs y || str_eq x y)
set_has-snoc [] x y = ground arith
set_has-snoc (z ∷ xs) x y = ground (arith, set_has-snoc xs x y)

pub no_repeats-snoc :
    (xs : List String) (x : String)
    → no_repeats xs ≡ true
    → set_has xs x ≡ false
    → no_repeats (xs ++ x ∷ []) ≡ true
unfolding no_repeats
no_repeats-snoc [] x h n = refl
no_repeats-snoc (y ∷ xs) x h n =
    ground (arith, no_repeats-snoc xs x, set_has-snoc xs x y, eq_iff x y, eq_iff y x)

-- A text that equals a member is one.
set_has_equal :
    (names : List String) (x y : String)
    → set_has names x ≡ true
    → set_has names y ≡ (set_has names y || str_eq x y)
set_has_equal names x y there = elim (Bool-cases (str_eq x y)) [
  | inl same ↦ ground (arith, ap (set_has names) (sym ((eq_iff x y).0 same)), there)
  | inr other ↦ ground (arith, other)
]

pub set_has-add_name :
    (x : String) (names : List String) (y : String)
    → set_has (add_name x names) y ≡ (set_has names y || str_eq x y)
unfolding add_name
set_has-add_name x names y = elim (Bool-cases (set_has names x)) [
  | inl there ↦ rw there (set_has_equal names x y there)
  | inr new ↦ rw new (set_has-snoc names x y)
]

pub no_repeats-add_name :
    (x : String) (names : List String)
    → no_repeats names ≡ true
    → no_repeats (add_name x names) ≡ true
unfolding add_name
no_repeats-add_name x names h = elim (Bool-cases (set_has names x)) [
  | inl there ↦ rw there h
  | inr new ↦ rw new (no_repeats-snoc names x h new)
]

pub no_repeats-add_names :
    (xs names : List String) → no_repeats names ≡ true → no_repeats (add_names xs names) ≡ true
unfolding add_names
no_repeats-add_names [] names h = h
no_repeats-add_names (x ∷ xs) names h =
    no_repeats-add_names xs (add_name x names) (no_repeats-add_name x names h)

pub set_has-add_names :
    (xs names : List String) (y : String)
    → set_has (add_names xs names) y ≡ (set_has names y || set_has xs y)
unfolding add_names
set_has-add_names [] names y = ground arith
set_has-add_names (x ∷ xs) names y =
    set_has-add_names xs (add_name x names) y ∙ ground (arith, set_has-add_name x names y)

all_tail :
    (y : String) (ys xs : List String)
    → all (set_has ys) xs ≡ true
    → all (set_has (y ∷ ys)) xs ≡ true
all_tail y ys [] h = refl
all_tail y ys (x ∷ xs) h = ground (arith, all_tail y ys xs)

pub all_own : (xs : List String) → all (set_has xs) xs ≡ true
all_own [] = refl
all_own (x ∷ xs) = ground (arith, eq_iff x x, all_tail x xs xs, all_own xs)
