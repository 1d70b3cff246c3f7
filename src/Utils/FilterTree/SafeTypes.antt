-- ===== src/Utils/FilterTree/SafeTypes.antt =====
-- The SQL types that a cast can name leave the text around them as it is.
use Prim.Native.Char.{Char, code}
use Prim.Native.String.{String}
use dashboard_template_api.Common.{
  ℕ, ◌+◌, ◌-◌, ◌*◌, ◌≡◌, refl, sym, Bool, true, false, not, ◌&&◌, Option, none, some, List, [], ◌∷◌,
  arith, All, all, ◌==◌, str_eq, eq_iff, if◌then◌else◌, Bool-cases, inl, inr,
}
use dashboard_template_api.Utils.SqlText.{ends_inside, placeholders, Holds}
use dashboard_template_api.Utils.FilterTree.Input.{
  SqlTypeFamily, fam_numeric, fam_date, fam_text, fam_boolean, fam_other,
}
use dashboard_template_api.Utils.FilterTree.Typing.{
  strip_prefix, decimal_suffix, two_digits, scale_of, fits_decimal, precision_scale,
  after_precision, is_decimal_type, is_digit, cast_type_of, set_has, integer_types, float_types,
  is_numeric_type, date_types, sql_type_family,
}

text : Unit {0}
unfolding ends_inside placeholders
text = tt

-- A text without quotes or placeholders to speak of.
abbrev pub IsPlain : String → Type 0
IsPlain s = Holds s 0

cons-IsPlain :
    (c : Char) (s : String)
    → (code c == b'"') ≡ false
    → (code c == b'?') ≡ false
    → IsPlain s
    → IsPlain (String.◌∷◌ c s)
unfolding text
cons-IsPlain c s q h p = record {
  closed = ground (arith, p.closed);
  count = ground (arith, p.count);
}

digit-IsPlain : (c : Char) (s : String) → is_digit c ≡ true → IsPlain s → IsPlain (String.◌∷◌ c s)
digit-IsPlain c s h p = cons-IsPlain c s (ground arith) (ground arith) p

scale-IsPlain : (n : ℕ) (s : String) → str_eq s ")" ≡ true → IsPlain s
unfolding text
scale-IsPlain n s h = rw ((eq_iff s ")").0 h) (record { closed = refl; count = refl })

bracket-IsPlain :
    (n m : ℕ) (s : String) → fits_decimal (scale_of n (some (m, s))) ≡ true → IsPlain s
bracket-IsPlain n m s h = elim (Bool-cases (str_eq s ")")) [
  | inl closing ↦ scale-IsPlain n s closing
  | inr other ↦ absurd (ground (arith, other))
]

-- Reading two digits leaves a plain rest of plain texts alone.
module _ (k : Option (ℕ × String) → Bool) (none_fails : k none ≡ false)
    (rest-IsPlain : (n : ℕ) (rest : String) → k (some (n, rest)) ≡ true → IsPlain rest) where
  if_passes :
      (b : Bool) (x : Option (ℕ × String))
      → k (if b then x else none) ≡ true
      → (b ≡ true) × (k x ≡ true)
  if_passes true x h = (refl, h)
  if_passes false x h = absurd (ground (arith, none_fails))

  two-IsPlain :
      (c d : Char) (s : String) (b : Bool)
      → is_digit c ≡ true
      → is_digit d ≡ b
      → k (
          if b
          then some (10 * (code c - b'0') + (code d - b'0'), s)
          else some (code c - b'0', String.◌∷◌ d s))
        ≡ true
      → IsPlain (String.◌∷◌ c (String.◌∷◌ d s))
  two-IsPlain c d s true hc hd h = digit-IsPlain c _ hc (digit-IsPlain d s hd (rest-IsPlain _ s h))
  two-IsPlain c d s false hc hd h = digit-IsPlain c _ hc (rest-IsPlain _ _ h)

  two_digits-IsPlain : (s : String) → k (two_digits s) ≡ true → IsPlain s
  two_digits-IsPlain String.[] h = absurd (ground (arith, none_fails))
  two_digits-IsPlain (String.◌∷◌ c String.[]) h =
      let (d, passes) = if_passes (is_digit c) _ h in
      digit-IsPlain c "" d (rest-IsPlain _ "" passes)
  two_digits-IsPlain (String.◌∷◌ c (String.◌∷◌ d s)) h =
      let (first, passes) = if_passes (is_digit c) _ h in
      two-IsPlain c d s (is_digit d) first refl passes

scale_digits-IsPlain :
    (n : ℕ) (s : String) → fits_decimal (scale_of n (two_digits s)) ≡ true → IsPlain s
scale_digits-IsPlain n =
    two_digits-IsPlain (λ o. fits_decimal (scale_of n o)) refl (bracket-IsPlain n)

after_precision-IsPlain :
    (n : ℕ) (s : String) → fits_decimal (after_precision n s) ≡ true → IsPlain s
after_precision-IsPlain n String.[] h = cc
after_precision-IsPlain n (String.◌∷◌ c s) h = elim (Bool-cases (code c == b',')) [
  | inl comma ↦
      cons-IsPlain c s (ground arith) (ground arith)
        (scale_digits-IsPlain n s (ground (arith, comma)))
  | inr other ↦ bracket-IsPlain n 0 (String.◌∷◌ c s) (ground (arith, other))
]

decimal_suffix-IsPlain : (s : String) → decimal_suffix (some s) ≡ true → IsPlain s
unfolding decimal_suffix text
decimal_suffix-IsPlain String.[] h = record { closed = refl; count = refl }
decimal_suffix-IsPlain (String.◌∷◌ c s) h = elim (Bool-cases (code c == b'(')) [
  | inl bracket ↦ cons-IsPlain c s (ground arith) (ground arith) (
      two_digits-IsPlain (λ o. fits_decimal (precision_scale o)) refl after_precision-IsPlain s
        (ground (arith, bracket)))
  | inr other ↦ absurd (ground (arith, other))
]

-- Neither a quote nor a placeholder among the characters.
unfoldable pub is_bare : String → Bool
is_bare String.[] = true
is_bare (String.◌∷◌ c s) = not (code c == b'"') && (not (code c == b'?') && is_bare s)

pub is_bare-IsPlain : (s : String) → is_bare s ≡ true → IsPlain s
unfolding is_bare text
is_bare-IsPlain String.[] h = record { closed = refl; count = refl }
is_bare-IsPlain (String.◌∷◌ c s) h =
    cons-IsPlain c s (ground arith) (ground arith) (is_bare-IsPlain s (ground arith))

strip_prefix-IsPlain :
    (p s : String) → is_bare p ≡ true → decimal_suffix (strip_prefix p s) ≡ true → IsPlain s
unfolding strip_prefix decimal_suffix is_bare
strip_prefix-IsPlain String.[] s hp h = decimal_suffix-IsPlain s h
strip_prefix-IsPlain (String.◌∷◌ c p) String.[] hp h = cc
strip_prefix-IsPlain (String.◌∷◌ c p) (String.◌∷◌ d s) hp h = elim (Bool-cases (code c == code d)) [
  | inl same ↦
      cons-IsPlain d s (ground (arith, same)) (ground (arith, same))
        (strip_prefix-IsPlain p s (ground arith) (ground (arith, same)))
  | inr differ ↦ absurd (ground (arith, differ))
]

set_has-IsPlain : (xs : List String) (s : String) → All IsPlain xs → set_has xs s ≡ true → IsPlain s
set_has-IsPlain [] s hs h = cc
set_has-IsPlain (x ∷ xs) s (hx, hs) h = elim (Bool-cases (str_eq x s)) [
  | inl same ↦ rw (sym ((eq_iff x s).0 same)) hx
  | inr differ ↦ set_has-IsPlain xs s hs (ground (arith, differ))
]

all-IsPlain : (xs : List String) → all is_bare xs ≡ true → All IsPlain xs
all-IsPlain [] h = tt
all-IsPlain (x ∷ xs) h = (is_bare-IsPlain x (ground arith), all-IsPlain xs (ground arith))

-- Membership in a table of plain type names.
member-IsPlain :
    (xs : List String) (s : String) → all is_bare xs ≡ true → set_has xs s ≡ true → IsPlain s
member-IsPlain xs s h has = set_has-IsPlain xs s (all-IsPlain xs h) has

numeric-IsPlain : (s : String) → is_numeric_type s ≡ true → IsPlain s
unfolding is_decimal_type is_bare
numeric-IsPlain s h = elim (Bool-cases (set_has integer_types s)) [
  | inl integer ↦ member-IsPlain integer_types s refl integer
  | inr n ↦ elim (Bool-cases (set_has float_types s)) [
    | inl float ↦ member-IsPlain float_types s refl float
    | inr m ↦ strip_prefix-IsPlain "DECIMAL" s refl (ground (arith, h, n, m))
  ]
]

cast_type_of-IsPlain : (s : String) → IsPlain s → IsPlain (cast_type_of s)
unfolding cast_type_of is_bare
cast_type_of-IsPlain s h = elim (Bool-cases (str_eq s "DECIMAL")) [
  | inl e ↦ rw e (is_bare-IsPlain _ refl)
  | inr e ↦ rw e h
]

-- The family's tests, in their order.
abbrev family_of : Bool → Bool → Bool → Bool → SqlTypeFamily
family_of a b c d =
    if a
    then fam_numeric
    else if b
    then fam_date
    else if c
    then fam_text
    else if d
    then fam_boolean
    else fam_other

family_of-numeric : (a b c d : Bool) → family_of a b c d ≡ fam_numeric → a ≡ true
family_of-numeric a b c d h = ground arith

family_of-date : (a b c d : Bool) → family_of a b c d ≡ fam_date → b ≡ true
family_of-date a b c d h = ground arith

-- The type names of a numeric or a temporal family are plain.
pub numeric_family-IsPlain :
    (s : String) → sql_type_family s ≡ fam_numeric → IsPlain (cast_type_of s)
unfolding sql_type_family
numeric_family-IsPlain s h =
    cast_type_of-IsPlain s (numeric-IsPlain s (family_of-numeric (is_numeric_type s) _ _ _ h))

pub date_family-IsPlain : (s : String) → sql_type_family s ≡ fam_date → IsPlain (cast_type_of s)
unfolding sql_type_family is_bare
date_family-IsPlain s h =
    cast_type_of-IsPlain s
      (member-IsPlain date_types s refl (family_of-date _ (set_has date_types s) _ _ h))
