-- ===== src/Utils/Decimal.antt =====
-- The decimal text of a natural number, as JavaScript prints a safe integer (below 2 ^ 53, so of at
-- most sixteen digits).
pub mod Digits
use Prim.Native.String
use dashboard_template_api.Common.{ℕ, zero, suc, ◌/◌, ◌%◌, String, ltb, if◌then◌else◌}

abbrev pub digit_text : ℕ → String
digit_text zero = "0"
digit_text (suc zero) = "1"
digit_text (suc (suc zero)) = "2"
digit_text (suc (suc (suc zero))) = "3"
digit_text (suc (suc (suc (suc zero)))) = "4"
digit_text (suc (suc (suc (suc (suc zero))))) = "5"
digit_text (suc (suc (suc (suc (suc (suc zero)))))) = "6"
digit_text (suc (suc (suc (suc (suc (suc (suc zero))))))) = "7"
digit_text (suc (suc (suc (suc (suc (suc (suc (suc zero)))))))) = "8"
digit_text (suc (suc (suc (suc (suc (suc (suc (suc (suc d))))))))) = "9"

-- The last digits of a number, as many as the fuel.
unfoldable pub digits : ℕ → ℕ → String
digits zero n = ""
digits (suc fuel) n =
    let longer = String.◌++◌ (digits fuel (n / 10)) (digit_text (n % 10)) in
    if ltb n 10 then digit_text n else longer

abbrev pub max_digits : ℕ
max_digits = 16

unfoldable pub decimal : ℕ → String
unfolding digits
decimal n = digits max_digits n
