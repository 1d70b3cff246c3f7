-- ===== src/Utils/Identifiers/Quoting.antt =====
-- A quoted identifier reads back as the name that it quotes, whatever follows it.
use Prim.Native.Char.{Char, code}
use Prim.Native.String.{String, [], ◌∷◌, ◌++◌}
use text.Mathlib.TextLemmas.{nil-append, cons-append, append_assoc}
use dashboard_template_api.Common.{
  ◌≡◌, refl, ap, ◌≢◌, Bool, true, false, Option, none, some, arith, ◌==◌, if◌then◌else◌, Bool-cases,
  inl, inr,
}
use dashboard_template_api.Utils.SqlText.{
  ends_inside, placeholders, Holds, ends_inside-append, placeholders-append,
}
use dashboard_template_api.Utils.Identifiers.{double_quotes, quote_ident}

abbrev cons_name : Char → Option (String × String) → Option (String × String)
cons_name c none = none
cons_name c (some (name, rest)) = some (c ∷ name, rest)

-- The reading of a quoted identifier after its opening quote, as SQL states it: a doubled quote
-- stands for one, a single one ends the name. The flag says that a quote has just been read.
unfoldable pub read_body : Bool → String → Option (String × String)
read_body false [] = none
read_body true [] = some ([], [])
read_body false (c ∷ s) =
    let closing = read_body true s in
    let longer = cons_name c (read_body false s) in if code c == b'"' then closing else longer
read_body true (c ∷ s) =
    let doubled = cons_name c (read_body false s) in
    if code c == b'"' then doubled else some ([], c ∷ s)

unfoldable pub read_ident : String → Option (String × String)
unfolding read_body
read_ident [] = none
read_ident (c ∷ s) = if code c == b'"' then read_body false s else none

-- The text does not go on with a quote.
abbrev pub StartsClear : String → Type 0
StartsClear [] = Unit
StartsClear (c ∷ s) = code c ≢ b'"'

read_body-clear : (rest : String) → StartsClear rest → read_body true rest ≡ some ([], rest)
unfolding read_body
read_body-clear [] h = refl
read_body-clear (c ∷ s) h = ground arith

module _ (c : Char) (s : String) where
  read_body-quote : code c == b'"' ≡ true → read_body false (c ∷ s) ≡ read_body true s
  unfolding read_body
  read_body-quote h = rw h

  read_body-plain :
      code c == b'"' ≡ false → read_body false (c ∷ s) ≡ cons_name c (read_body false s)
  unfolding read_body
  read_body-plain h = rw h

  read_body-doubled :
      code c == b'"' ≡ true → read_body true (c ∷ s) ≡ cons_name c (read_body false s)
  unfolding read_body
  read_body-doubled h = rw h

quote-append : (s : String) → read_body false ("\"" ++ s) ≡ read_body true s
quote-append s = rw (cons-append, nil-append) (read_body-quote _ s refl)

read_body-double_quotes :
    (name rest : String)
    → StartsClear rest
    → read_body false (double_quotes name ++ ("\"" ++ rest)) ≡ some (name, rest)
unfolding double_quotes
read_body-double_quotes [] rest h = rw (nil-append, quote-append) (read_body-clear rest h)
read_body-double_quotes (c ∷ name) rest h =
    let ih = read_body-double_quotes name rest h in
    elim (Bool-cases (code c == b'"')) [
      | inl same ↦
          rw (same, cons-append, cons-append, read_body-quote c _ same, read_body-doubled c _ same)
            (ap (cons_name c) ih)
      | inr other ↦ rw (other, cons-append, read_body-plain c _ other) (ap (cons_name c) ih)
    ]

read_ident-quote : (s : String) → read_ident ("\"" ++ s) ≡ read_body false s
unfolding read_ident
read_ident-quote s = rw (cons-append, nil-append)

-- A quoted name, followed by any text that does not begin with a double quote, reads back as that
-- name and that text: no name reaches beyond its quotes, and two names are never quoted alike.
pub read_ident-quote_ident :
    (name rest : String)
    → StartsClear rest
    → read_ident (quote_ident name ++ rest) ≡ some (name, rest)
unfolding quote_ident
read_ident-quote_ident name rest h =
    rw (append_assoc, read_ident-quote, append_assoc) (read_body-double_quotes name rest h)

-- Inside its quotes a name with doubled quotes stays inside, and shows no placeholder.
double_quotes_inside :
    (name : String)
    → (ends_inside true (double_quotes name) ≡ true) × (placeholders true (double_quotes name) ≡ 0)
unfolding double_quotes ends_inside placeholders
double_quotes_inside [] = (refl, refl)
double_quotes_inside (c ∷ name) = ground (arith, double_quotes_inside name)

quote_mark :
    (ends_inside false "\"" ≡ true)
    × (ends_inside true "\"" ≡ false)
    × (placeholders false "\"" ≡ 0)
    × (placeholders true "\"" ≡ 0)
unfolding ends_inside placeholders
quote_mark = (refl, refl, refl, refl)

-- A quoted name is closed and holds no placeholder.
pub quote_ident-Holds : (name : String) → Holds (quote_ident name) 0
unfolding quote_ident
quote_ident-Holds name = record {
  closed =
      rw (ends_inside-append, ends_inside-append, quote_mark.0, (double_quotes_inside name).0)
        quote_mark.1;
  count =
      rw (placeholders-append, placeholders-append, quote_mark.0, (double_quotes_inside name).0)
        (omega (arith, (double_quotes_inside name).1, quote_mark));
}

-- Once a name is quoted, SQL text goes on outside of it.
pub ends_inside-quote_ident : (name : String) → ends_inside false (quote_ident name) ≡ false
ends_inside-quote_ident name = (quote_ident-Holds name).closed

pub placeholders-quote_ident : (name : String) → placeholders false (quote_ident name) ≡ 0
placeholders-quote_ident name = (quote_ident-Holds name).count

pub ruleset sql_laws =
    (ends_inside-append, placeholders-append, ends_inside-quote_ident, placeholders-quote_ident)
