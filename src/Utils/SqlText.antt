-- ===== src/Utils/SqlText.antt =====
-- How a SQL text reads: double quotes delimit an identifier (a doubled quote leaves it and enters it
-- again), and a `?` outside of one is a placeholder.
use Prim.Native.Char.{Char, code}
use Prim.Native.String.{String, [], ◌∷◌, ◌++◌}
use text.Mathlib.TextLemmas.{nil-append, cons-append}
use dashboard_template_api.Common.{ℕ, ◌+◌, ◌≡◌, Bool, false, not, arith, ◌==◌, if◌then◌else◌}

abbrev pub toggle : Bool → Char → Bool
toggle b c = if code c == b'"' then not b else b

-- Whether a text that is read from inside an identifier, or outside, ends inside one.
unfoldable pub ends_inside : Bool → String → Bool
ends_inside b [] = b
ends_inside b (c ∷ s) = ends_inside (toggle b c) s

-- The placeholders of a text.
unfoldable pub placeholders : Bool → String → ℕ
placeholders b [] = 0
placeholders b (c ∷ s) =
    (if code c == b'?' then (if b then 0 else 1) else 0) + placeholders (toggle b c) s

pub ends_inside-append :
    (b : Bool) (s t : String) → ends_inside b (s ++ t) ≡ ends_inside (ends_inside b s) t
unfolding ends_inside
ends_inside-append b [] t = rw nil-append
ends_inside-append b (c ∷ s) t = rw cons-append (ends_inside-append (toggle b c) s t)

pub placeholders-append :
    (b : Bool) (s t : String)
    → placeholders b (s ++ t) ≡ placeholders b s + placeholders (ends_inside b s) t
unfolding ends_inside placeholders
placeholders-append b [] t = rw nil-append (omega arith)
placeholders-append b (c ∷ s) t =
    rw cons-append (omega (arith, placeholders-append (toggle b c) s t))

-- A text that closes its identifiers and holds `n` placeholders.
pub record Holds (s : String) (n : ℕ) : Type 0 where
  pub closed : ends_inside false s ≡ false
  pub count : placeholders false s ≡ n

pub Holds-append : {s t : String} {m n : ℕ} → Holds s m → Holds t n → Holds (s ++ t) (m + n)
Holds-append {s} {t} a b = record {
  closed = rw (ends_inside-append, a.closed) b.closed;
  count = rw (placeholders-append, a.closed, a.count, b.count);
}
