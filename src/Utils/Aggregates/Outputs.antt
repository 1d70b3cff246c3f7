-- ===== src/Utils/Aggregates/Outputs.antt =====
-- The output columns of a resolved request, and the sort on them.
use mathlib.Core.List.{◌++◌}
use dashboard_template_api.Common.{
  ◌≡◌, refl, sym, ap, ◌∙◌, inl, inr, Bool, true, false, not, ◌&&◌, ◌||◌, List, [], ◌∷◌, map, String,
  str_eq, eq_iff, arith, Bool-cases, all,
}
use dashboard_template_api.Common.Result.{
  done, fold, Ensures-weaken, Ensures, Ensures-done, Ensures->>=, Ensures-check,
}
use dashboard_template_api.Export.AfterCursor.{Direction, asc}
use dashboard_template_api.Utils.FilterTree.Typing.{set_has}
use dashboard_template_api.Utils.FilterTree.Tree.{add_name}
use dashboard_template_api.Utils.FilterTree.Names.{no_repeats, add_names}
use dashboard_template_api.Utils.Aggregates.Input.{
  ResolvedGroup, ResolvedSort, ResolvedAggregateParams, AggregateSortInput, AggregateError,
  unknown_sort, bad_order,
}
use dashboard_template_api.Utils.Aggregates.Params.{first_repeat, is_none}
use dashboard_template_api.Utils.Aggregates.Request.{
  is_order, order_or_asc, group_fields, output_columns, sort_names, push_sort, add_sort,
  add_group_sorts,
}

pub all_later :
    (name : String) (seen names : List String)
    → all (λ n. not (set_has (name ∷ seen) n)) names ≡ true
    → all (λ n. not (set_has seen n)) names ≡ true
all_later name seen [] h = refl
all_later name seen (n ∷ names) h = ground (arith, all_later name seen names)

pub apart_itself :
    (name : String) (seen names : List String)
    → all (λ n. not (set_has (name ∷ seen) n)) names ≡ true
    → set_has names name ≡ false
apart_itself name seen [] h = refl
apart_itself name seen (n ∷ names) h =
    ground (arith, apart_itself name seen names, eq_iff name n, eq_iff n name)

-- A list in which no later name was seen, nor repeats.
pub first_repeat_none :
    (seen names : List String)
    → is_none (first_repeat seen names) ≡ true
    → (all (λ name. not (set_has seen name)) names ≡ true) × (no_repeats names ≡ true)
unfolding first_repeat no_repeats
first_repeat_none seen [] h = (refl, refl)
first_repeat_none seen (name ∷ names) h = elim (Bool-cases (set_has seen name)) [
  | inl there ↦ absurd (cc (rw there at h))
  | inr new ↦
      let (apart, distinct) = first_repeat_none (name ∷ seen) names (rw new at h) in
      (
        ground (arith, new, all_later name seen names apart),
        ground (arith, apart_itself name seen names apart, distinct),
      )
]

sort_names-append :
    (xs ys : List ResolvedSort) → sort_names (xs ++ ys) ≡ sort_names xs ++ sort_names ys
sort_names-append [] ys = refl
sort_names-append (x ∷ xs) ys = ap (λ names. x.by ∷ names) (sort_names-append xs ys)

sort_names-push_sort :
    (name : String) (order : Direction) (sort : List ResolvedSort)
    → sort_names (push_sort name order sort) ≡ add_name name (sort_names sort)
unfolding add_name
sort_names-push_sort name order sort = elim (Bool-cases (set_has (sort_names sort) name)) [
  | inl there ↦ rw there refl
  | inr new ↦ rw new (sort_names-append sort _)
]

pub sort_names-add_group_sorts :
    (groups : List ResolvedGroup) (sort : List ResolvedSort)
    → sort_names (add_group_sorts groups sort) ≡ add_names (group_fields groups) (sort_names sort)
unfolding add_group_sorts add_names
sort_names-add_group_sorts [] sort = refl
sort_names-add_group_sorts (g ∷ groups) sort =
    sort_names-add_group_sorts groups (push_sort g.field asc sort)
    ∙ ap (add_names (group_fields groups)) (sort_names-push_sort g.field asc sort)

abbrev pub requested_sorts : List AggregateSortInput → List String
requested_sorts sort = map (λ (i : AggregateSortInput). i.by) sort

-- The loop over the requested sort collects its columns, each of them an output column.
pub fold-sorts :
    (outputs : List String) (items : List AggregateSortInput) (sort : List ResolvedSort)
    → Ensures
        (λ s.
          (sort_names s ≡ add_names (requested_sorts items) (sort_names sort))
          × (all (set_has outputs) (requested_sorts items) ≡ true))
        (fold (add_sort outputs) items sort)
unfolding fold add_names add_sort
fold-sorts outputs [] sort = Ensures-done AggregateError _ sort (refl, refl)
fold-sorts outputs (item ∷ items) sort =
    Ensures->>=
      (λ s. (sort_names s ≡ add_name item.by (sort_names sort)) × (set_has outputs item.by ≡ true))
      _ (add_sort outputs item sort) _
      (Ensures-check _ (set_has outputs item.by) unknown_sort _ λ known.
        Ensures-check _ (is_order item.order) bad_order
          (done (push_sort item.by (order_or_asc item.order) sort))
          λ ordered.
            Ensures-done AggregateError _ _
              (sort_names-push_sort item.by (order_or_asc item.order) sort, known))
      λ s (here, known). Ensures-weaken _ _ _ (fold-sorts outputs items s) λ t (rest, others).
        (rest ∙ ap (add_names (requested_sorts items)) here, ground (arith, known, others))

module _ (q : String → Bool) where
  all-member :
      (names : List String) (x : String) → set_has names x ≡ true → all q names ≡ true → q x ≡ true
  all-member [] x there h = cc
  all-member (n ∷ names) x there h = elim (Bool-cases (str_eq n x)) [
    | inl same ↦ sym (ap q ((eq_iff n x).0 same)) ∙ ground (arith, h)
    | inr other ↦ all-member names x (ground (arith, other)) (ground arith)
  ]

  all-append : (xs ys : List String) → all q (xs ++ ys) ≡ (all q xs && all q ys)
  all-append [] ys = refl
  all-append (x ∷ xs) ys = ground (arith, all-append xs ys)

  pub all-add_names :
      (xs names : List String)
      → all q xs ≡ true
      → all q names ≡ true
      → all q (add_names xs names) ≡ true
  unfolding add_names add_name
  all-add_names [] names hx h = h
  all-add_names (x ∷ xs) names hx h = elim (Bool-cases (set_has names x)) [
    | inl there ↦ rw there (all-add_names xs names (ground arith) h)
    | inr new ↦
        rw new (all-add_names xs _ (ground arith) (ground (arith, all-append names (x ∷ []))))
  ]

set_has-append :
    (xs ys : List String) (y : String) → set_has (xs ++ ys) y ≡ (set_has xs y || set_has ys y)
set_has-append [] ys y = refl
set_has-append (x ∷ xs) ys y = ground (arith, set_has-append xs ys y)

-- What a list of columns holds, a longer one holds.
pub all_first :
    (xs ys zs : List String) → all (set_has ys) zs ≡ true → all (set_has (ys ++ xs)) zs ≡ true
all_first xs ys [] h = refl
all_first xs ys (z ∷ zs) h = ground (arith, set_has-append ys xs z, all_first xs ys zs)

-- The output columns of a resolved request.
abbrev pub outputs_of : ResolvedAggregateParams → List String
outputs_of p = output_columns p.groups p.aggregates p.include_row_count
