-- ===== src/Utils/Aggregates/Clauses.antt =====
-- The parts of an aggregate query: none but the filter holds a placeholder.
use Prim.Native.String.{String, ◌++◌}
use dashboard_template_api.Common.{
  ℕ, ◌≡◌, refl, Bool, true, false, not, Option, none, some, List, [], ◌∷◌, map, filter, arith, All,
  All-append, length, Bool-cases, inl, inr, eq_iff,
}
use dashboard_template_api.Utils.SqlText.{Holds, Holds-append}
use dashboard_template_api.Utils.Identifiers.{quote_ident, join}
use dashboard_template_api.Utils.Identifiers.Joining.{IsClosed, total, Holds-subst, Holds-join}
use dashboard_template_api.Utils.Identifiers.Quoting.{quote_ident-Holds}
use dashboard_template_api.Utils.FilterTree.Values.{is_empty_text}
use dashboard_template_api.Utils.FilterTree.Criterion.{CompiledFilter}
use dashboard_template_api.Utils.FilterTree.Tree.{build_where}
use dashboard_template_api.Utils.FilterTree.SafeTypes.{is_bare, is_bare-IsPlain, IsPlain}
use dashboard_template_api.Utils.Aggregations.{
  Aggregation, sum, avg, max, min, count, median, mode, aggregate_expression, aggregation_sql,
}
use dashboard_template_api.Utils.Aggregates.Input.{
  TimeGrain, second, minute, hour, day, week, month, quarter, year, Truncation, as_date,
  as_timestamp, as_timestamptz, ResolvedGroup, ResolvedAggregate,
}
use dashboard_template_api.Utils.Aggregates.Params.{label_column_of, row_count_column}
use dashboard_template_api.Utils.Aggregates.Request.{is_labelled}
use dashboard_template_api.Utils.Aggregates.Sql.{
  time_grain_part, truncated, group_expression, sql_clauses, values_of, group_item, label_item,
  aggregate_item, count_items, selection,
}

bare : Unit {0}
unfolding is_bare
bare = tt

-- A text without placeholders, by its parts.
pub plain : (s : String) → is_bare s ≡ true → IsPlain s
plain = is_bare-IsPlain

-- A text that holds no placeholders is closed.
All-total : (parts : List String) → All IsPlain parts → All IsClosed parts × (total parts ≡ 0)
unfolding total
All-total [] h = (tt, refl)
All-total (s ∷ parts) (p, h) =
    let (closed, none_left) = All-total parts h in
    ((p.closed, closed), omega (arith, p.count, none_left))

pub join-IsPlain :
    (sep : String) (parts : List String)
    → IsPlain sep
    → All IsPlain parts
    → IsPlain (join sep parts)
join-IsPlain sep parts hs h =
    let (closed, none_left) = All-total parts h in
    Holds-subst none_left (Holds-join sep parts hs closed)

pub All-map {ℓ} :
    {A : Type ℓ} (f : A → String)
    → ((x : A) → IsPlain (f x))
    → (xs : List A) → All IsPlain (map f xs)
All-map f h [] = tt
All-map f h (x ∷ xs) = (h x, All-map f h xs)

time_grain_part-IsPlain : (grain : TimeGrain) → IsPlain (time_grain_part grain)
unfolding bare
time_grain_part-IsPlain second = plain _ refl
time_grain_part-IsPlain minute = plain _ refl
time_grain_part-IsPlain hour = plain _ refl
time_grain_part-IsPlain day = plain _ refl
time_grain_part-IsPlain week = plain _ refl
time_grain_part-IsPlain month = plain _ refl
time_grain_part-IsPlain quarter = plain _ refl
time_grain_part-IsPlain year = plain _ refl

truncated-IsPlain :
    (grain : Option TimeGrain) (t : Option Truncation) (column : String)
    → IsPlain column
    → IsPlain (truncated grain t column)
unfolding bare
truncated-IsPlain none t column h = h
truncated-IsPlain (some grain) none column h = h
truncated-IsPlain (some grain) (some as_date) column h = Holds-append (plain _ refl) (
    Holds-append (time_grain_part-IsPlain grain)
      (Holds-append (plain _ refl) (Holds-append h (plain _ refl))))
truncated-IsPlain (some grain) (some as_timestamptz) column h = Holds-append (plain _ refl) (
    Holds-append (time_grain_part-IsPlain grain)
      (Holds-append (plain _ refl) (Holds-append h (plain _ refl))))
truncated-IsPlain (some grain) (some as_timestamp) column h = Holds-append (plain _ refl) (
    Holds-append (time_grain_part-IsPlain grain)
      (Holds-append (plain _ refl) (Holds-append h (plain _ refl))))

-- A word before and after.
around-IsPlain :
    (x y : String) {s : String}
    → is_bare x ≡ true
    → is_bare y ≡ true
    → IsPlain s
    → IsPlain (x ++ (s ++ y))
around-IsPlain x y hx hy h = Holds-append (plain x hx) (Holds-append h (plain y hy))

-- An expression under a name.
as-IsPlain : (name : String) {s : String} → IsPlain s → IsPlain (s ++ (" AS " ++ quote_ident name))
unfolding bare
as-IsPlain name h = Holds-append h (Holds-append (plain _ refl) (quote_ident-Holds name))

pub group_expression-IsPlain : (g : ResolvedGroup) → IsPlain (group_expression g)
unfolding group_expression
group_expression-IsPlain g = truncated-IsPlain g.grain g.truncation _ (quote_ident-Holds g.field)

aggregation_sql-is_bare : (a : Aggregation) → is_bare (aggregation_sql a) ≡ true
unfolding bare aggregation_sql
aggregation_sql-is_bare sum = refl
aggregation_sql-is_bare avg = refl
aggregation_sql-is_bare max = refl
aggregation_sql-is_bare min = refl
aggregation_sql-is_bare count = refl
aggregation_sql-is_bare median = refl
aggregation_sql-is_bare mode = refl

call-IsPlain :
    (a : Aggregation) {column : String}
    → IsPlain column
    → IsPlain (aggregation_sql a ++ ("(" ++ (column ++ ")")))
unfolding bare
call-IsPlain a h =
    Holds-append (plain _ (aggregation_sql-is_bare a)) (around-IsPlain "(" ")" refl refl h)

aggregate_expression-IsPlain :
    (a : Aggregation) (column : String) → IsPlain column → IsPlain (aggregate_expression a column)
unfolding bare aggregate_expression
aggregate_expression-IsPlain sum column h = call-IsPlain sum h
aggregate_expression-IsPlain avg column h = call-IsPlain avg h
aggregate_expression-IsPlain max column h = call-IsPlain max h
aggregate_expression-IsPlain min column h = call-IsPlain min h
aggregate_expression-IsPlain count column h = call-IsPlain count h
aggregate_expression-IsPlain median column h = call-IsPlain median h
aggregate_expression-IsPlain mode column h =
    Holds-append (plain _ (aggregation_sql-is_bare mode))
      (Holds-append (plain "(" refl) (Holds-append h (around-IsPlain " ORDER BY " ")" refl refl h)))

label_item-IsPlain : (g : ResolvedGroup) → IsPlain (label_item g)
unfolding bare
label_item-IsPlain g = Holds-append (plain "ANY_VALUE(" refl) (
    Holds-append (quote_ident-Holds _)
      (Holds-append (plain ") AS " refl) (quote_ident-Holds (label_column_of g.field))))

count_items-IsPlain : (counted : Bool) → All IsPlain (count_items counted)
unfolding bare
count_items-IsPlain true = (Holds-append (plain _ refl) (quote_ident-Holds row_count_column), tt)
count_items-IsPlain false = tt

pub selection-IsPlain :
    (groups : List ResolvedGroup) (aggregates : List ResolvedAggregate) (counted : Bool)
    → All IsPlain (selection groups aggregates counted)
unfolding bare
selection-IsPlain groups aggregates counted =
    All-append IsPlain (map group_item groups) _
      (All-map group_item (λ g. as-IsPlain g.field (group_expression-IsPlain g)) groups)
      (All-append IsPlain (map label_item (filter is_labelled groups)) _
        (All-map label_item (λ g. label_item-IsPlain g) (filter is_labelled groups))
        (All-append IsPlain (map aggregate_item aggregates) _
          (All-map aggregate_item
            (λ a.
              as-IsPlain a.alias
                (aggregate_expression-IsPlain a.aggregation _ (quote_ident-Holds a.measure)))
            aggregates)
          (count_items-IsPlain counted)))

-- What a filter binds.
abbrev pub IsBoundFilter : Option CompiledFilter → Type 0
IsBoundFilter none = Unit
IsBoundFilter (some f) = Holds f.sql (length f.params)

-- An empty text binds nothing.
empty-Holds : (s : String) (n : ℕ) → is_empty_text s ≡ true → Holds s n → Holds "" n
empty-Holds s n blank h = rw ((eq_iff s "").0 blank) at h

pub build_where-Holds :
    (filter : Option CompiledFilter)
    → IsBoundFilter filter
    → Holds (build_where filter) (length (values_of filter))
unfolding bare build_where
build_where-Holds none h = plain _ refl
build_where-Holds (some f) h = elim (Bool-cases (is_empty_text f.sql)) [
  | inl blank ↦ rw blank (empty-Holds f.sql _ blank h)
  | inr there ↦ rw there (Holds-subst (omega arith) (Holds-append (plain "WHERE " refl) h))
]

pub empty_plain : Unit {0} → IsPlain ""
unfolding bare
empty_plain u = plain "" refl

-- Empty clauses hold no placeholder.
total-filter :
    (clauses : List String)
    → total (filter (λ clause. not (is_empty_text clause)) clauses) ≡ total clauses
unfolding bare total
total-filter [] = refl
total-filter (c ∷ clauses) = elim (Bool-cases (is_empty_text c)) [
  | inl blank ↦
      rw (blank, (eq_iff c "").0 blank)
        (omega (arith, (empty_plain tt).count, total-filter clauses))
  | inr there ↦ rw there (omega (arith, total-filter clauses))
]

All-filter {ℓ κ} :
    {A : Type ℓ} (P : A → Type κ) (p : A → Bool) (xs : List A) → All P xs → All P (filter p xs)
All-filter P p [] h = tt
All-filter P p (x ∷ xs) (hx, h) = elim (Bool-cases (p x)) [
  | inl kept ↦ rw kept (hx, All-filter P p xs h)
  | inr left ↦ rw left (All-filter P p xs h)
]

sql_clauses-Holds :
    (clauses : List String) → All IsClosed clauses → Holds (sql_clauses clauses) (total clauses)
unfolding bare sql_clauses
sql_clauses-Holds clauses h = Holds-subst (total-filter clauses) (
    Holds-join " " _ (plain " " refl)
      (All-filter IsClosed (λ clause. not (is_empty_text clause)) clauses h))

-- Three clauses, of which the middle one binds.
pub three_clauses :
    (a b c : String) (n : ℕ)
    → IsPlain a
    → Holds b n
    → IsPlain c
    → Holds (sql_clauses (a ∷ b ∷ c ∷ [])) n
unfolding total
three_clauses a b c n ha hb hc =
    Holds-subst (omega (arith, ha.count, hb.count, hc.count))
      (sql_clauses-Holds (a ∷ b ∷ c ∷ []) (ha.closed, (hb.closed, (hc.closed, tt))))

-- Three clauses, of which the first one binds.
pub paged_clauses :
    (a b c : String) (n : ℕ)
    → Holds a n
    → IsPlain b
    → IsPlain c
    → Holds (sql_clauses (a ∷ b ∷ c ∷ [])) n
unfolding total
paged_clauses a b c n ha hb hc =
    Holds-subst (omega (arith, ha.count, hb.count, hc.count))
      (sql_clauses-Holds (a ∷ b ∷ c ∷ []) (ha.closed, (hb.closed, (hc.closed, tt))))
