-- ===== src/Export/Params/Accepted.antt =====
-- A request for a number of rows is accepted.
use Prim.Native.String.{String, ◌++◌}
use mathlib.Core.Path.{subst}
use text.Mathlib.TextLemmas.{nil-append, cons-append}
use dashboard_template_api.Common.{
  ℕ, zero, suc, ◌/◌, ◌%◌, ◌^◌, ◌<◌, ◌≡◌, refl, true, false, min, none, some, [], ◌∷◌, arith, ltb,
  lt→ltb, str_eq, eq_iff, Bool-cases, inl, inr,
}
use dashboard_template_api.Common.Map.{lookup}
use dashboard_template_api.Common.Result.{done, ◌>>=◌, ◌>>◌, check}
use dashboard_template_api.Utils.FilterTree.Input.{Value, string, number, JsNumber}
use dashboard_template_api.Utils.Decimal.{digit_text, digits, decimal}
use dashboard_template_api.Utils.Decimal.Digits.{number_of, number_of-decimal}
use dashboard_template_api.Export.Params.{
  ExportPlatform, non_empty, arrow, snappy, ExportParamSource, query, body, all_digits,
  string_of_value, read_string, list_of_value, read_list, filters_of_value, read_filters,
  limit_of_text, limit_of_value, read_limit, bom_of_value, read_bom,
}
use dashboard_template_api.Export.Params.Settings.{ExportSettings}
use dashboard_template_api.Export.Params.Request.{
  ExportParams, check_fields, codec_of, limit_under, parse_groups, assemble, parse_export_params,
}

all_digits-append :
    (s t : String) → all_digits s ≡ true → all_digits t ≡ true → all_digits (s ++ t) ≡ true
all_digits-append String.[] t hs ht = rw nil-append ht
all_digits-append (String.◌∷◌ c s) t hs ht =
    rw cons-append (ground (arith, hs, all_digits-append s t, ht))

all_digits-digit_text : (d : ℕ) → all_digits (digit_text d) ≡ true
all_digits-digit_text zero = refl
all_digits-digit_text (suc zero) = refl
all_digits-digit_text (suc (suc zero)) = refl
all_digits-digit_text (suc (suc (suc zero))) = refl
all_digits-digit_text (suc (suc (suc (suc zero)))) = refl
all_digits-digit_text (suc (suc (suc (suc (suc zero))))) = refl
all_digits-digit_text (suc (suc (suc (suc (suc (suc zero)))))) = refl
all_digits-digit_text (suc (suc (suc (suc (suc (suc (suc zero))))))) = refl
all_digits-digit_text (suc (suc (suc (suc (suc (suc (suc (suc zero)))))))) = refl
all_digits-digit_text (suc (suc (suc (suc (suc (suc (suc (suc (suc d))))))))) = refl

all_digits-digits : (fuel n : ℕ) → all_digits (digits fuel n) ≡ true
unfolding digits
all_digits-digits zero n = refl
all_digits-digits (suc fuel) n = elim (Bool-cases (ltb n 10)) [
  | inl small ↦ rw small (all_digits-digit_text n)
  | inr large ↦ rw large (
      all_digits-append (digits fuel (n / 10)) (digit_text (n % 10))
        (all_digits-digits fuel (n / 10)) (all_digits-digit_text (n % 10)))
]

all_digits-decimal : (n : ℕ) → all_digits (decimal n) ≡ true
unfolding decimal
all_digits-decimal n = all_digits-digits 16 n

counts_something : (raw : String) → 0 < number_of raw 0 → str_eq raw "" ≡ false
unfolding number_of
counts_something raw h = elim (Bool-cases (str_eq raw "")) [
  | inl empty ↦
      let same : raw ≡ "" = (eq_iff raw "").0 empty in
      absurd (omega (arith, subst (λ (t : String). 0 < number_of t 0) same h))
  | inr full ↦ full
]

module _ (platform : ExportPlatform) where
  limit_of_text-reads :
      (raw : String) (n : ℕ)
      → all_digits raw ≡ true
      → number_of raw 0 ≡ n
      → 0 < n
      → limit_of_text platform (some raw) ≡ done (some n)
  unfolding limit_of_text
  limit_of_text-reads raw n d e h =
      rw (counts_something raw (rw e h), d, e, lt→ltb 0 n h) (unfold check ◌>>◌ in refl)

  -- The value of `limit` that asks for `n` rows: its digits, or in a body the number.
  pub data AsksFor (n : ℕ) : ExportParamSource → Value → Type 0 where
    by_text : (source : ExportParamSource) → AsksFor n source (string (decimal n))
    by_number : (k : JsNumber) → k.to_text ≡ decimal n → AsksFor n body (number k)

  trimmed_limit :
      (n : ℕ)
      → 0 < n
      → n < 2 ^ 53
      → platform.js.trim (decimal n) ≡ decimal n
      → limit_of_text platform (non_empty (platform.js.trim (decimal n))) ≡ done (some n)
  trimmed_limit n low high trimmed =
      rw (trimmed, counts_something (decimal n) (rw (number_of-decimal n high) low))
        (limit_of_text-reads (decimal n) n (all_digits-decimal n) (number_of-decimal n high) low)

  limit_of_value-AsksFor :
      (n : ℕ) (source : ExportParamSource) (v : Value)
      → 0 < n
      → n < 2 ^ 53
      → platform.js.trim (decimal n) ≡ decimal n
      → AsksFor n source v
      → limit_of_value platform source v ≡ done (some n)
  unfolding limit_of_value string_of_value ◌>>=◌
  limit_of_value-AsksFor n _ _ low high trimmed (by_text query) = trimmed_limit n low high trimmed
  limit_of_value-AsksFor n _ _ low high trimmed (by_text body) = trimmed_limit n low high trimmed
  limit_of_value-AsksFor n _ _ low high trimmed (by_number k same) =
      rw same
        (limit_of_text-reads (decimal n) n (all_digits-decimal n) (number_of-decimal n high) low)

  -- `parseExportParams` of a request for rows alone
  abbrev pub first_rows : ExportSettings → ℕ → ExportParams
  first_rows settings n = record {
    catalog = none;
    schema = none;
    fields = none;
    filters = none;
    sort = none;
    group_by = none;
    aggregates = none;
    format = arrow;
    limit = min n settings.max_rows;
    explicit_limit = true;
    after = none;
    bom = false;
    compression = snappy;
  }

  -- A request that asks for a safe number of rows above 0 and for nothing else, by its decimal digits or
  -- in a body by the number itself, is accepted: as an arrow export of all columns, of that many rows or
  -- of the ceiling where it is lower. Trimming leaves the digits, and lower case the name `arrow`.
  pub parse_export_params-AsksFor :
      (settings : ExportSettings) (source : ExportParamSource) (n : ℕ) (v : Value)
      → 0 < n
      → n < 2 ^ 53
      → platform.js.trim (decimal n) ≡ decimal n
      → platform.to_lower_case "arrow" ≡ "arrow"
      → AsksFor n source v
      → parse_export_params platform settings source (("limit", v) ∷ [])
        ≡ done (first_rows settings n)
  unfolding parse_export_params assemble parse_groups limit_under codec_of check_fields read_string
      string_of_value read_list list_of_value read_filters filters_of_value read_limit read_bom
      bom_of_value lookup check ◌>>=◌ ◌>>◌
  parse_export_params-AsksFor settings query n v low high trimmed lowered asks =
      rw (lowered, limit_of_value-AsksFor n query v low high trimmed asks) refl
  parse_export_params-AsksFor settings body n v low high trimmed lowered asks =
      rw (lowered, limit_of_value-AsksFor n body v low high trimmed asks) refl
