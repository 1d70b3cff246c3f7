-- ===== src/Export/AfterCursor/Order.antt =====
-- The completed order of an export, and the order of the rows that it induces.
use mathlib.Core.Option
use dashboard_template_api.Common.{
  ℕ, ◌+◌, ◌≡◌, refl, ◌∙◌, Bool, true, false, not, ◌&&◌, ◌||◌, Option, none, some, List, [], ◌∷◌,
  ◌++◌, map, String, arith, if◌then◌else◌, filter, all, str_eq, eq_iff, Bool-cases, inl, inr,
}
use dashboard_template_api.Export.AfterCursor.{
  Direction, asc, desc, KeyColumn, KeyValue, names_field, is_empty, ascending, all_columns_field,
  complete_total_order,
}
use dashboard_template_api.Export.AfterCursor.Resume.{
  Values, Row, bound, not_distinct, value_after, row_after,
}

-- `xs.includes(field)`
unfoldable pub includes : List String → String → Bool
includes [] field = false
includes (x ∷ xs) field = str_eq x field || includes xs field

-- The explicit part of a sort, and the columns that complete it.
abbrev pub explicit_sort : List KeyColumn → List KeyColumn
explicit_sort sort = filter (λ k. not (str_eq k.field all_columns_field)) sort

abbrev pub completing : List String → List String → List String
completing columns primary_keys = if is_empty primary_keys then columns else primary_keys

pub names_field-append :
    (xs ys : List KeyColumn) (field : String)
    → names_field (xs ++ ys) field ≡ (names_field xs field || names_field ys field)
unfolding names_field
names_field-append [] ys field = refl
names_field-append (x ∷ xs) ys field = ground (arith, names_field-append xs ys field)

names_field-cons :
    (ks : List KeyColumn) (x : String) (ys : List KeyColumn) (b : Bool) (field : String)
    → (names_field ks field || names_field ys field) ≡ (names_field ks field || b)
    → (names_field ks field || names_field (ascending x ∷ ys) field)
      ≡ (names_field ks field || (str_eq x field || b))
unfolding names_field
names_field-cons ks x ys b field h = ground arith

pub names_field-ascending :
    (ks : List KeyColumn) (xs : List String) (field : String)
    → (names_field ks field
        || names_field (map ascending (filter (λ x. not (names_field ks x)) xs)) field)
      ≡ (names_field ks field || includes xs field)
unfolding includes
names_field-ascending ks [] field = unfold names_field in refl
names_field-ascending ks (x ∷ xs) field =
    let ih = names_field-ascending ks xs field in
    elim (Bool-cases (names_field ks x)) [
      | inl named ↦ rw named (ground (arith, ih, named, eq_iff x field))
      | inr new ↦ rw new (names_field-cons ks x _ _ field ih)
    ]

all-filter : {A : Type 0} (p : A → Bool) (xs : List A) → all p (filter p xs) ≡ true
all-filter p [] = refl
all-filter p (x ∷ xs) = elim (Bool-cases (p x)) [
  | inl kept ↦ rw (kept, kept) (all-filter p xs)
  | inr dropped ↦ rw dropped (all-filter p xs)
]

-- The completed order is the explicit sort, in its order and with its directions, and behind it
-- ascending columns that the explicit sort does not name; and it names a column exactly when the
-- explicit sort names it or it is a primary key (any column of the table, without a primary key).
pub complete_total_order-names :
    (sort : List KeyColumn) (columns primary_keys : List String) (field : String)
    → (rest : List String) × (complete_total_order sort columns primary_keys
        ≡ explicit_sort sort ++ map ascending rest)
      × (all (λ x. not (names_field (explicit_sort sort) x)) rest ≡ true)
      × (names_field (complete_total_order sort columns primary_keys) field ≡ (
          names_field (explicit_sort sort) field
          || includes (completing columns primary_keys) field))
unfolding complete_total_order
complete_total_order-names sort columns primary_keys field = (
  filter (λ x. not (names_field (explicit_sort sort) x)) (completing columns primary_keys),
  refl,
  all-filter (λ x. not (names_field (explicit_sort sort) x)) (completing columns primary_keys),
  names_field-append (explicit_sort sort) _ field
      ∙ names_field-ascending (explicit_sort sort) (completing columns primary_keys) field,
)

abbrev pub indicator : Bool → ℕ
indicator b = if b then 1 else 0

-- What the export relies on in DuckDB: values of a column are in a strict total order, and the text
-- of a value reads back as the value.
pub record TotalOrder (d : Values) : Type 0 where
  pub text : String → d.Value → String
  pub read_text : (field : String) (v : d.Value) → d.read field (text field v) ≡ v
  pub eq_comm : (a b : d.Value) → d.eq a b ≡ d.eq b a
  pub trichotomy :
      (a b : d.Value) → indicator (d.lt a b) + indicator (d.lt b a) + indicator (d.eq a b) ≡ 1

module _ (d : Values) (t : TotalOrder d) where
  -- The key of a row, as `X-Next-After` carries it.
  abbrev pub key_of : Row d → List KeyColumn → List KeyValue
  key_of row [] = []
  key_of row (k ∷ ks) = (k, Option.map (t.text k.field) (row k.field)) ∷ key_of row ks

  unfoldable pub same_key : Row d → Row d → List KeyColumn → Bool
  same_key r s [] = true
  same_key r s (k ∷ ks) = not_distinct d (s k.field) (r k.field) && same_key r s ks

  bound-key_of :
      (k : KeyColumn) (v : Option d.Value) → bound d (k, Option.map (t.text k.field) v) ≡ v
  bound-key_of k none = refl
  bound-key_of k (some v) = rw t.read_text

  value_trichotomy :
      (o : Direction) (a b : Option d.Value)
      → indicator (value_after d o a b)
          + indicator (value_after d o b a)
          + indicator (not_distinct d b a)
        ≡ 1
  value_trichotomy asc none none = refl
  value_trichotomy desc none none = refl
  value_trichotomy asc none (some b) = refl
  value_trichotomy desc none (some b) = refl
  value_trichotomy asc (some a) none = refl
  value_trichotomy desc (some a) none = refl
  value_trichotomy asc (some a) (some b) = ground (arith, t.trichotomy a b, t.eq_comm a b)
  value_trichotomy desc (some a) (some b) = ground (arith, t.trichotomy a b, t.eq_comm a b)

  not_distinct_comm : (a b : Option d.Value) → not_distinct d a b ≡ not_distinct d b a
  not_distinct_comm none none = refl
  not_distinct_comm none (some b) = refl
  not_distinct_comm (some a) none = refl
  not_distinct_comm (some a) (some b) = t.eq_comm a b

  -- Of two rows exactly one of three holds: the second comes strictly after the key of the first,
  -- the first strictly after the key of the second, or they agree on every column of the order; so
  -- resuming after a row's key skips no row behind it and repeats none before it.
  pub row_after_trichotomy :
      (order : List KeyColumn) (r s : Row d)
      → indicator (row_after d (key_of r order) s)
          + indicator (row_after d (key_of s order) r)
          + indicator (same_key r s order)
        ≡ 1
  unfolding row_after same_key
  row_after_trichotomy [] r s = refl
  row_after_trichotomy (k ∷ ks) r s =
      let a = r k.field in
      let b = s k.field in
      rw (bound-key_of k a, bound-key_of k b)
        (ground
          (arith, value_trichotomy k.order a b, not_distinct_comm a b, row_after_trichotomy ks r s))
