-- ===== src/Export/Params/Parts.antt =====
-- What each part of an accepted request satisfies.
use dashboard_template_api.Common.{
  ℕ, ◌<◌, ◌≤◌, ◌≡◌, refl, Bool, true, false, not, ◌&&◌, Option, none, some, List, [], ◌∷◌, map,
  String, str_eq, if◌then◌else◌, all, arith, ltb,
}
use dashboard_template_api.Common.Map.{Map}
use dashboard_template_api.Common.Result.{
  Result, done, ◌>>=◌, traverse, Ensures, Ensures-of, Ensures-done, Ensures->>=, Ensures-check,
  Ensures-after, Ensures-then, Ensures->>, Ensures-thrown, Ensures-weaken,
}
use dashboard_template_api.Export.AfterCursor.{KeyColumn}
use dashboard_template_api.Utils.FilterTree.Input.{
  Value, undefined, null, bool, number, string, array, object,
}
use dashboard_template_api.Utils.FilterTree.Typing.{set_has}
use dashboard_template_api.Utils.FilterTree.Names.{no_repeats}
use dashboard_template_api.Utils.Aggregates.Params.{first_repeat, is_none}
use dashboard_template_api.Utils.Aggregates.Outputs.{first_repeat_none, all_later, apart_itself}
use dashboard_template_api.Utils.Decimal.Digits.{number_of}
use dashboard_template_api.Export.AfterCursor.Token.{direction_of}
use dashboard_template_api.Export.Params.{
  ExportPlatform, ExportFormat, snappy, ExportParamSource, ExportParamError, empty_name,
  trimmed_parts, limit_of_text, limit_of_value, read_limit, query, body, get_value, string_of_value,
  all_digits, bad_direction,
}
use dashboard_template_api.Export.Params.Lists.{
  column_name, found_or, upper, sort_key, sort_key_of, parse_sort, parse_group_by,
}
use dashboard_template_api.Export.Params.Request.{
  is_parquet, codec_of, check_fields, limit_under, items_or_none, parse_groups, parse_given,
  no_repeat,
}

abbrev pub is_named : String → Bool
is_named name = not (str_eq name "")

-- Names that are not empty, each once.
abbrev pub IsProjection : Option (List String) → Type 0
IsProjection none = Unit
IsProjection (some names) = (no_repeats names ≡ true) × (all is_named names ≡ true)

abbrev pub IsOrder : Option (List KeyColumn) → Type 0
IsOrder none = Unit
IsOrder (some keys) = IsProjection (some (map (λ k. k.field) keys))

pub column_name-Ensures :
    (name : String) → Ensures (λ field. is_named field ≡ true) (column_name name)
unfolding column_name
column_name-Ensures name =
    Ensures-check _ (is_named name) empty_name _ (λ named. Ensures-done _ _ name named)

pub columns-Ensures :
    (raw : List String) → Ensures (λ fields. all is_named fields ≡ true) (traverse column_name raw)
unfolding traverse
columns-Ensures [] = Ensures-done _ _ [] refl
columns-Ensures (name ∷ raw) =
    Ensures->>= _ _ (column_name name) _ (column_name-Ensures name) λ field named.
      Ensures->>= _ _ (traverse column_name raw) _ (columns-Ensures raw)
        λ fields rest. Ensures-done _ _ (field ∷ fields) (ground (arith, named, rest))

pub no_repeat-done : (o : Option String) (u : Unit {0}) → no_repeat o ≡ done u → is_none o ≡ true
no_repeat-done none u e = refl
no_repeat-done (some name) u e = cc

pub check_fields-IsProjection :
    (raw : Option (List String)) → Ensures IsProjection (check_fields raw)
unfolding check_fields
check_fields-IsProjection none = Ensures-done _ _ none tt
check_fields-IsProjection (some raw) =
    Ensures->>= _ IsProjection (traverse column_name raw) _ (columns-Ensures raw) λ fields named.
      Ensures-after IsProjection (no_repeat (first_repeat [] fields)) _ λ u e.
        Ensures-done _ _ (some fields)
          ((first_repeat_none [] fields (no_repeat-done _ u e)).1, named)

pub not-false : (b : Bool) → b ≡ false → not b ≡ true
not-false b h = ground (arith, h)

pub not-true : (b : Bool) → not b ≡ true → b ≡ false
not-true b h = ground (arith, h)

pub both_true : (a b : Bool) → a ≡ true → b ≡ true → (a && b) ≡ true
both_true a b ha hb = ground (arith, ha, hb)

abbrev pub IsNext : List String → KeyColumn → Type 0
IsNext seen k = (is_named k.field ≡ true) × (set_has seen k.field ≡ false)

abbrev pub AreApart : List String → List KeyColumn → Type 0
AreApart seen keys =
    (all (λ name. not (set_has seen name)) (map (λ k. k.field) keys) ≡ true) × IsOrder (some keys)

module _ (platform : ExportPlatform) where
  pub sort_key-IsNext :
      (seen : List String) (column direction : String)
      → Ensures (IsNext seen) (sort_key platform seen column direction)
  unfolding sort_key
  sort_key-IsNext seen column direction = Ensures->> _ _ _ (
      Ensures->>= _ _ (column_name column) _ (column_name-Ensures column) λ field named.
        Ensures-check _ (not (set_has seen field)) _ _ λ apart.
          Ensures-then _
            (found_or bad_direction
              (direction_of (upper platform (if str_eq direction "" then "asc" else direction))))
            _ λ order e. Ensures-done _ _ _ (named, not-true _ apart))

  pub parts-IsNext :
      (seen parts : List String) → Ensures (IsNext seen) (sort_key_of platform seen parts)
  parts-IsNext seen [] = Ensures-thrown _ _
  parts-IsNext seen (column ∷ []) = sort_key-IsNext seen column ""
  parts-IsNext seen (column ∷ direction ∷ []) = sort_key-IsNext seen column direction
  parts-IsNext seen (column ∷ direction ∷ part ∷ parts) = Ensures-thrown _ _

  pub parse_sort-AreApart :
      (seen items : List String) → Ensures (AreApart seen) (parse_sort platform seen items)
  unfolding parse_sort no_repeats
  parse_sort-AreApart seen [] = Ensures-done _ _ [] (refl, (refl, refl))
  parse_sort-AreApart seen (item ∷ items) =
      Ensures->>= _ _ _ _ (parts-IsNext seen (trimmed_parts platform b':' item)) λ k next.
        Ensures->>= _ _ (parse_sort platform (k.field ∷ seen) items) _
          (parse_sort-AreApart (k.field ∷ seen) items)
          λ keys (apart, (distinct, named)). Ensures-done _ _ (k ∷ keys) (
            both_true _ _ (not-false _ next.1) (all_later k.field seen _ apart),
            (
              both_true _ _ (not-false _ (apart_itself k.field seen _ apart)) distinct,
              both_true _ _ next.0 named,
            ),
          )

abbrev pub IsCount : Option ℕ → Type 0
IsCount none = Unit
IsCount (some n) = 0 < n

pub counted_above : (a b : Bool) (n : ℕ) → (a && b && ltb 0 n) ≡ true → 0 < n
counted_above a b n h = ground (arith, h)

module _ (platform : ExportPlatform) where
  pub limit_of_text-IsCount : (raw : Option String) → Ensures IsCount (limit_of_text platform raw)
  unfolding limit_of_text
  limit_of_text-IsCount none = Ensures-done _ _ none tt
  limit_of_text-IsCount (some raw) = Ensures-check _ _ _ _ λ e.
      Ensures-done _ _ _ (counted_above (not (str_eq raw "")) (all_digits raw) (number_of raw 0) e)

  pub text_IsCount :
      (v : Value) → Ensures IsCount (string_of_value platform "limit" v >>= limit_of_text platform)
  text_IsCount v = Ensures-then _ _ _ λ raw e. limit_of_text-IsCount raw

  pub limit_of_value-IsCount :
      (source : ExportParamSource) (v : Value) → Ensures IsCount (limit_of_value platform source v)
  unfolding limit_of_value
  limit_of_value-IsCount body (number n) = limit_of_text-IsCount (some n.to_text)
  limit_of_value-IsCount body undefined = text_IsCount undefined
  limit_of_value-IsCount body null = text_IsCount null
  limit_of_value-IsCount body (bool b) = text_IsCount (bool b)
  limit_of_value-IsCount body (string s) = text_IsCount (string s)
  limit_of_value-IsCount body (array items) = text_IsCount (array items)
  limit_of_value-IsCount body (object entries) = text_IsCount (object entries)
  limit_of_value-IsCount query (number n) = text_IsCount (number n)
  limit_of_value-IsCount query undefined = text_IsCount undefined
  limit_of_value-IsCount query null = text_IsCount null
  limit_of_value-IsCount query (bool b) = text_IsCount (bool b)
  limit_of_value-IsCount query (string s) = text_IsCount (string s)
  limit_of_value-IsCount query (array items) = text_IsCount (array items)
  limit_of_value-IsCount query (object entries) = text_IsCount (object entries)

  pub read_limit-IsCount :
      (source : ExportParamSource) (input : Map Value)
      → Ensures IsCount (read_limit platform source input)
  unfolding read_limit
  read_limit-IsCount source input = limit_of_value-IsCount source (get_value "limit" input)

abbrev pub Given {ℓ} : {A : Type ℓ} → (A → Type 0) → Option A → Type 0
Given P none = Unit
Given P (some a) = P a

pub parse_given-Given {ℓ} :
    {A : Type ℓ} (P : A → Type 0) (parse : List String → Result ExportParamError A)
    → ((items : List String) → Ensures P (parse items))
    → (raw : Option (List String))
    → Ensures (λ o. Given P o × (is_none o ≡ is_none raw)) (parse_given parse raw)
parse_given-Given P parse h none = Ensures-done _ _ none (tt, refl)
parse_given-Given P parse h (some items) =
    Ensures->>= P _ (parse items) _ (h items) λ a p. Ensures-done _ _ (some a) (p, refl)

pub limit_under-bounds :
    (max_rows : ℕ) (requested : Option ℕ)
    → 0 < max_rows
    → IsCount requested
    → (0 < limit_under max_rows requested)
      × (limit_under max_rows requested ≤ max_rows)
      × (not (not (is_none requested)) ≡ true → limit_under max_rows requested ≡ max_rows)
unfolding limit_under
limit_under-bounds max_rows none h c = ground (arith, h)
limit_under-bounds max_rows (some n) h c = ground (arith, h, c)

pub codec_of-packed :
    (format : ExportFormat) (name : Option String)
    → Ensures (λ codec. is_parquet format ≡ false → codec ≡ snappy) (codec_of format name)
unfolding codec_of
codec_of-packed format none = Ensures-done _ _ snappy (λ e. refl)
codec_of-packed format (some name) =
    Ensures-check _ (is_parquet format) _ _ λ here. Ensures-of _ _ (λ codec e other. cc)

module _ (platform : ExportPlatform) where
  pub parse_groups-same :
      (groups aggregates : Option (List String))
      → Ensures (λ g. is_none g ≡ is_none aggregates) (parse_groups platform groups aggregates)
  unfolding parse_groups
  parse_groups-same groups none = Ensures-done _ _ none refl
  parse_groups-same groups (some a) =
      Ensures-then _ (parse_group_by platform (items_or_none groups)) _
        λ g e. Ensures-done _ _ (some g) refl

  pub keys-IsOrder :
      (items : List String) → Ensures (λ keys. IsOrder (some keys)) (parse_sort platform [] items)
  keys-IsOrder items =
      Ensures-weaken _ _ _ (parse_sort-AreApart platform [] items) λ keys apart. apart.1

  pub Given-IsOrder :
      (o : Option (List KeyColumn)) → Given (λ keys. IsOrder (some keys)) o → IsOrder o
  Given-IsOrder none g = tt
  Given-IsOrder (some keys) g = g
