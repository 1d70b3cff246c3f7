-- ===== src/Export/AfterCursor/Placeholders.antt =====
-- The resume predicate binds one parameter for each of its placeholders.
use Prim.Native.String.{String, ◌++◌ as ◌⧺◌}
use dashboard_template_api.Common.{
  suc, ◌+◌, ◌≡◌, refl, ap, Option, some, List, [], ◌∷◌, ◌++◌, map, arith, length, length-append,
  All, All-append,
}
use dashboard_template_api.Utils.SqlText.{ends_inside, placeholders, Holds, Holds-append}
use dashboard_template_api.Utils.Identifiers.Quoting.{sql_laws}
use dashboard_template_api.Utils.Identifiers.Joining.{
  IsClosed, total, total-append, Holds-subst, Holds-join,
}
use dashboard_template_api.Export.AfterCursor.{
  Direction, asc, desc, KeyColumn, KeyValue, Term, same_sql, after_sql, term_sql, term_params,
  terms_sql, all_params, build_after_predicate,
}

text : Unit {0}
unfolding ends_inside placeholders
text = tt

same_sql-Holds : (kv : KeyValue) → Holds (same_sql kv) 1
unfolding text
same_sql-Holds (k, v) = record { closed = simp sql_laws; count = simp sql_laws }

after_sql-Holds : (k : KeyColumn) → Holds (after_sql k) 1
unfolding text
after_sql-Holds k = by_direction k.field k.order
  where
    by_direction :
        (field : String) (o : Direction) → Holds (after_sql (record { field = field; order = o })) 1
    by_direction field asc = record { closed = simp sql_laws; count = simp sql_laws }
    by_direction field desc = record { closed = simp sql_laws; count = simp sql_laws }

and-Holds : Holds " AND " 0
unfolding text
and-Holds = record { closed = refl; count = refl }

or-Holds : Holds " OR " 0
unfolding text
or-Holds = record { closed = refl; count = refl }

same-total :
    (kvs : List KeyValue)
    → All IsClosed (map same_sql kvs) × (total (map same_sql kvs) ≡ length kvs)
unfolding total
same-total [] = (tt, refl)
same-total (kv ∷ kvs) =
    let (closed, count) = same-total kvs in
    let h = same_sql-Holds kv in ((h.closed, closed), omega (arith, h.count, count))

length-bound : (kvs : List KeyValue) → length (map (λ (kv : KeyValue). kv.1) kvs) ≡ length kvs
length-bound [] = refl
length-bound (kv ∷ kvs) = ap suc (length-bound kvs)

length-params : (t : Term) → length (term_params t) ≡ length t.earlier + 1
length-params t = omega (
  arith,
  length-append (map (λ (kv : KeyValue). kv.1) t.earlier) (some t.value ∷ []),
  length-bound t.earlier,
)

term-total :
    (t : Term) → total (map same_sql t.earlier ++ after_sql t.key ∷ []) ≡ length (term_params t)
unfolding total
term-total t =
    let (closed, count) = same-total t.earlier in
    let h = after_sql-Holds t.key in
    omega (
      arith,
      count,
      h.count,
      length-params t,
      total-append (map same_sql t.earlier) (after_sql t.key ∷ []),
    )

term_sql-Holds : (t : Term) → Holds (term_sql t) (length (term_params t))
term_sql-Holds t =
    let (closed, count) = same-total t.earlier in
    let h = after_sql-Holds t.key in
    Holds-subst (term-total t) (
      Holds-join " AND " _ and-Holds
        (All-append IsClosed (map same_sql t.earlier) _ closed (h.closed, tt)))

abbrev wrapped : Term → String
wrapped t = "(" ⧺ (term_sql t ⧺ ")")

wrapped-Holds : (t : Term) → Holds (wrapped t) (length (term_params t))
unfolding text
wrapped-Holds t = Holds-subst (omega arith) (
    Holds-append {m = 0} (record { closed = refl; count = refl })
      (Holds-append {n = 0} (term_sql-Holds t) (record { closed = refl; count = refl })))

wrapped-total :
    (ts : List Term)
    → All IsClosed (map wrapped ts) × (total (map wrapped ts) ≡ length (all_params ts))
unfolding total all_params
wrapped-total [] = (tt, refl)
wrapped-total (t ∷ ts) =
    let (closed, count) = wrapped-total ts in
    let h = wrapped-Holds t in
    (
      (h.closed, closed),
      omega (arith, h.count, count, length-append (term_params t) (all_params ts)),
    )

terms_sql-Holds : (ts : List Term) → Holds (terms_sql ts) (length (all_params ts))
unfolding text all_params
terms_sql-Holds [] = record { closed = refl; count = refl }
terms_sql-Holds (t ∷ ts) =
    let (closed, count) = wrapped-total (t ∷ ts) in
    Holds-subst count (Holds-join " OR " _ or-Holds closed)

-- The resume predicate leaves every quoted identifier closed, whatever characters the column names
-- have, and holds exactly as many `?` placeholders outside of identifiers as parameters come with it.
pub build_after_predicate-Holds :
    (order : List KeyColumn) (values : List (Option String))
    → Holds
        (build_after_predicate order values).sql
        (length (build_after_predicate order values).params)
unfolding build_after_predicate
build_after_predicate-Holds order values = terms_sql-Holds _
