-- ===== src/Utils/Decimal/Digits.antt =====
-- Sixteen digits are enough for a safe integer, and none of them is a quote or a placeholder.
use Prim.Native.Char.{code}
use Prim.Native.String.{String, ◌++◌}
use text.Mathlib.TextLemmas.{nil-append, cons-append}
use dashboard_template_api.Common.{
  ℕ, zero, suc, ◌+◌, ◌-◌, ◌*◌, ◌/◌, ◌%◌, ◌^◌, ◌<◌, ◌≡◌, refl, ◌∙◌, arith, ltb, ltb→lt, Bool-cases,
  inl, inr,
}
use dashboard_template_api.Utils.SqlText.{ends_inside, placeholders, Holds, Holds-append}
use dashboard_template_api.Utils.Decimal.{digit_text, digits, decimal}

-- The number that a text of digits stands for, after the digits read so far.
unfoldable pub number_of : String → ℕ → ℕ
number_of String.[] n = n
number_of (String.◌∷◌ c s) n = number_of s (n * 10 + (code c - b'0'))

number_of-append : (s t : String) (n : ℕ) → number_of (s ++ t) n ≡ number_of t (number_of s n)
unfolding number_of
number_of-append String.[] t n = rw nil-append refl
number_of-append (String.◌∷◌ c s) t n = rw cons-append (number_of-append s t _)

number_of-digit_text : (n d : ℕ) → d < 10 → number_of (digit_text d) n ≡ n * 10 + d
unfolding number_of
number_of-digit_text n zero h = omega arith
number_of-digit_text n (suc zero) h = omega arith
number_of-digit_text n (suc (suc zero)) h = omega arith
number_of-digit_text n (suc (suc (suc zero))) h = omega arith
number_of-digit_text n (suc (suc (suc (suc zero)))) h = omega arith
number_of-digit_text n (suc (suc (suc (suc (suc zero))))) h = omega arith
number_of-digit_text n (suc (suc (suc (suc (suc (suc zero)))))) h = omega arith
number_of-digit_text n (suc (suc (suc (suc (suc (suc (suc zero))))))) h = omega arith
number_of-digit_text n (suc (suc (suc (suc (suc (suc (suc (suc zero)))))))) h = omega arith
number_of-digit_text n (suc (suc (suc (suc (suc (suc (suc (suc (suc zero))))))))) h = omega arith
number_of-digit_text n (suc (suc (suc (suc (suc (suc (suc (suc (suc (suc d)))))))))) h =
    absurd (omega arith)

-- A number of at most as many digits as the fuel is read back from its text.
number_of-digits : (fuel n : ℕ) → n < 10 ^ fuel → number_of (digits fuel n) 0 ≡ n
unfolding digits
number_of-digits zero n h = unfold number_of in omega arith
number_of-digits (suc fuel) n h = elim (Bool-cases (ltb n 10)) [
  | inl small ↦ rw small (number_of-digit_text 0 n (ltb→lt n 10 small) ∙ omega arith)
  | inr large ↦
      rw (large, number_of-append)
        (number_of-digit_text _ (n % 10) (omega arith)
          ∙ omega (arith, number_of-digits fuel (n / 10) (omega arith)))
]

digit_text-Holds : (d : ℕ) → Holds (digit_text d) 0
unfolding ends_inside placeholders
digit_text-Holds zero = record { closed = refl; count = refl }
digit_text-Holds (suc zero) = record { closed = refl; count = refl }
digit_text-Holds (suc (suc zero)) = record { closed = refl; count = refl }
digit_text-Holds (suc (suc (suc zero))) = record { closed = refl; count = refl }
digit_text-Holds (suc (suc (suc (suc zero)))) = record { closed = refl; count = refl }
digit_text-Holds (suc (suc (suc (suc (suc zero))))) = record { closed = refl; count = refl }
digit_text-Holds (suc (suc (suc (suc (suc (suc zero)))))) = record { closed = refl; count = refl }
digit_text-Holds (suc (suc (suc (suc (suc (suc (suc zero))))))) = record {
  closed = refl;
  count = refl;
}
digit_text-Holds (suc (suc (suc (suc (suc (suc (suc (suc zero)))))))) = record {
  closed = refl;
  count = refl;
}
digit_text-Holds (suc (suc (suc (suc (suc (suc (suc (suc (suc d))))))))) = record {
  closed = refl;
  count = refl;
}

digits-Holds : (fuel n : ℕ) → Holds (digits fuel n) 0
unfolding digits
digits-Holds zero n = unfold ends_inside placeholders in record { closed = refl; count = refl }
digits-Holds (suc fuel) n = elim (Bool-cases (ltb n 10)) [
  | inl small ↦ rw small (digit_text-Holds n)
  | inr large ↦ rw large (Holds-append (digits-Holds fuel (n / 10)) (digit_text-Holds (n % 10)))
]

-- The text of a safe integer reads back as that number.
pub number_of-decimal : (n : ℕ) → n < 2 ^ 53 → number_of (decimal n) 0 ≡ n
unfolding decimal
number_of-decimal n h = number_of-digits 16 n (omega arith)

pub decimal-Holds : (n : ℕ) → Holds (decimal n) 0
unfolding decimal
decimal-Holds n = digits-Holds 16 n
