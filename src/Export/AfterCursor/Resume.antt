-- ===== src/Export/AfterCursor/Resume.antt =====
-- What the resume predicate selects, read with SQL's three truth values.
use mathlib.Core.Bool.{Bool, true, false, ◌&&◌, ◌||◌}
use dashboard_template_api.Common.{
  ◌≡◌, refl, ◌∙◌, ap, Option, none, some, List, [], ◌∷◌, ◌++◌, arith, String, inl, ◌⊎◌,
}
use dashboard_template_api.Export.AfterCursor.{
  Direction, asc, desc, KeyColumn, KeyValue, Term, terms_from, zip_values,
}

pub data Truth : Type 0 where
  yes_t no_t unknown : Truth

abbrev pub of_bool : Bool → Truth
of_bool true = yes_t
of_bool false = no_t

abbrev pub and_t : Truth → Truth → Truth
and_t no_t q = no_t
and_t yes_t q = q
and_t unknown no_t = no_t
and_t unknown yes_t = unknown
and_t unknown unknown = unknown

abbrev pub or_t : Truth → Truth → Truth
or_t yes_t q = yes_t
or_t no_t q = q
or_t unknown yes_t = yes_t
or_t unknown no_t = unknown
or_t unknown unknown = unknown

and_t-yes : (b : Bool) → and_t (of_bool b) yes_t ≡ of_bool b
and_t-yes true = refl
and_t-yes false = refl

or_t-no : (b : Bool) → or_t (of_bool b) no_t ≡ of_bool b
or_t-no true = refl
or_t-no false = refl

and_t_regroup :
    (e : Truth) (s r : Bool)
    → (e ≡ yes_t) ⊎ (e ≡ no_t)
    → and_t (and_t e (of_bool s)) (of_bool r) ≡ and_t e (of_bool (s && r))
and_t_regroup e s r h = ground arith

or_t_regroup :
    (e : Truth) (a s r : Bool)
    → (e ≡ yes_t) ⊎ (e ≡ no_t)
    → or_t (and_t e (of_bool a)) (and_t (and_t e (of_bool s)) (of_bool r))
      ≡ and_t e (of_bool (a || (s && r)))
or_t_regroup e a s r h = ground arith

-- The values of a column as DuckDB compares them, and the value that a key's text stands for.
pub record Values : Type 1 where
  pub Value : Type 0
  pub eq : Value → Value → Bool
  pub lt : Value → Value → Bool
  pub read : String → String → Value

module _ (d : Values) where
  open d use {Value, eq, lt, read}

  -- A row gives each column a value, or NULL.
  abbrev pub Row : Type 0
  Row = String → Option Value

  abbrev pub bound : KeyValue → Option Value
  bound (k, none) = none
  bound (k, some text) = some (read k.field text)

  -- `a IS NOT DISTINCT FROM b`
  abbrev pub not_distinct : Option Value → Option Value → Bool
  not_distinct none none = true
  not_distinct none (some b) = false
  not_distinct (some a) none = false
  not_distinct (some a) (some b) = eq a b

  -- `c > v` or `c < v`, unknown at NULL
  abbrev pub compare_sql : Direction → Option Value → Value → Truth
  compare_sql o none v = unknown
  compare_sql asc (some c) v = of_bool (lt v c)
  compare_sql desc (some c) v = of_bool (lt c v)

  abbrev pub is_null : Option Value → Truth
  is_null none = yes_t
  is_null (some c) = no_t

  unfoldable pub all_same : Row → List KeyValue → Truth
  all_same row [] = yes_t
  all_same row (kv ∷ kvs) =
      and_t (of_bool (not_distinct (row kv.0.field) (bound kv))) (all_same row kvs)

  -- The meaning of `term_sql` on a row.
  abbrev pub term_holds : Row → Term → Truth
  term_holds row t = and_t (all_same row t.earlier) (
      or_t (compare_sql t.key.order (row t.key.field) (read t.key.field t.value))
        (is_null (row t.key.field)))

  -- The meaning of `terms_sql`.
  unfoldable pub some_holds : Row → List Term → Truth
  some_holds row [] = no_t
  some_holds row (t ∷ ts) = or_t (term_holds row t) (some_holds row ts)

  -- The order that the predicate has to follow, NULLs last in both directions.
  abbrev pub value_after : Direction → Option Value → Option Value → Bool
  value_after o none c = false
  value_after o (some v) none = true
  value_after asc (some v) (some c) = lt v c
  value_after desc (some v) (some c) = lt c v

  -- A row stands strictly after a key: it does so at the first column where the two differ.
  unfoldable pub row_after : List KeyValue → Row → Bool
  row_after [] row = false
  row_after (kv ∷ kvs) row =
      value_after kv.0.order (bound kv) (row kv.0.field)
      || (not_distinct (row kv.0.field) (bound kv) && row_after kvs row)

  all_same-append :
      (row : Row) (xs ys : List KeyValue)
      → all_same row (xs ++ ys) ≡ and_t (all_same row xs) (all_same row ys)
  unfolding all_same
  all_same-append row [] ys = refl
  all_same-append row (x ∷ xs) ys = ground (arith, all_same-append row xs ys)

  all_same-cases :
      (row : Row) (xs : List KeyValue) → (all_same row xs ≡ yes_t) ⊎ (all_same row xs ≡ no_t)
  unfolding all_same
  all_same-cases row [] = inl refl
  all_same-cases row (x ∷ xs) = ground (arith, all_same-cases row xs)

  all_same-snoc :
      (row : Row) (xs : List KeyValue) (kv : KeyValue)
      → all_same row (xs ++ kv ∷ [])
        ≡ and_t (all_same row xs) (of_bool (not_distinct (row kv.0.field) (bound kv)))
  all_same-snoc row xs kv =
      all_same-append row xs (kv ∷ [])
      ∙ ap (and_t (all_same row xs)) (unfold all_same in and_t-yes _)

  -- `(c > v OR c IS NULL)` never comes out unknown.
  compare_sql-or_null :
      (o : Direction) (c : Option Value) (v : Value)
      → or_t (compare_sql o c v) (is_null c) ≡ of_bool (value_after o (some v) c)
  compare_sql-or_null o none v = refl
  compare_sql-or_null asc (some c) v = or_t-no _
  compare_sql-or_null desc (some c) v = or_t-no _

  some_holds-terms_from :
      (row : Row) (earlier rest : List KeyValue)
      → some_holds row (terms_from earlier rest)
        ≡ and_t (all_same row earlier) (of_bool (row_after rest row))
  unfolding some_holds terms_from row_after
  some_holds-terms_from row earlier [] = ground (arith, all_same-cases row earlier)
  some_holds-terms_from row earlier ((k, none) ∷ rest) =
      some_holds-terms_from row (earlier ++ (k, none) ∷ []) rest
      ∙ ap (λ e. and_t e (of_bool (row_after rest row))) (all_same-snoc row earlier (k, none))
      ∙ and_t_regroup _ _ _ (all_same-cases row earlier)
  some_holds-terms_from row earlier ((k, some v) ∷ rest) =
      rw
        (
          compare_sql-or_null,
          some_holds-terms_from row (earlier ++ (k, some v) ∷ []) rest,
          all_same-snoc,
        )
        (or_t_regroup (all_same row earlier) _ _ _ (all_same-cases row earlier))

  -- The terms of a key, read by SQL's three-valued logic, against the order of the export.
  pub after_predicate_lem :
      (order : List KeyColumn) (values : List (Option String)) (row : Row)
      → some_holds row (terms_from [] (zip_values order values))
        ≡ of_bool (row_after (zip_values order values) row)
  after_predicate_lem order values row =
      some_holds-terms_from row [] (zip_values order values) ∙ unfold all_same in refl
