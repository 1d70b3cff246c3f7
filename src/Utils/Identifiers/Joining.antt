-- ===== src/Utils/Identifiers/Joining.antt =====
-- Placeholders of a joined text.
use Prim.Native.String.{String}
use dashboard_template_api.Common.{ℕ, ◌+◌, ◌≡◌, refl, false, List, [], ◌∷◌, ◌++◌, arith, All}
use dashboard_template_api.Utils.SqlText.{ends_inside, placeholders, Holds, Holds-append}
use dashboard_template_api.Utils.Identifiers.{join}

abbrev pub IsClosed : String → Type 0
IsClosed s = ends_inside false s ≡ false

-- The placeholders of the parts together.
unfoldable pub total : List String → ℕ
total [] = 0
total (s ∷ ss) = placeholders false s + total ss

pub total-append : (xs ys : List String) → total (xs ++ ys) ≡ total xs + total ys
unfolding total
total-append [] ys = omega arith
total-append (x ∷ xs) ys = omega (arith, total-append xs ys)

Holds-part : {s : String} → IsClosed s → Holds s (placeholders false s)
Holds-part c = record { closed = c; count = refl }

pub Holds-subst : {s : String} {m n : ℕ} → m ≡ n → Holds s m → Holds s n
Holds-subst e h = record { closed = h.closed; count = omega (arith, h.count) }

-- Joining closed parts by a separator without placeholders keeps their placeholders.
pub Holds-join :
    (sep : String) (parts : List String)
    → Holds sep 0
    → All IsClosed parts
    → Holds (join sep parts) (total parts)
unfolding join total
Holds-join sep [] h c = unfold ends_inside placeholders in record { closed = refl; count = refl }
Holds-join sep (s ∷ []) h (c, cs) = Holds-subst (omega arith) (Holds-part c)
Holds-join sep (s ∷ t ∷ ss) h (c, cs) =
    Holds-subst (omega arith)
      (Holds-append (Holds-part c) (Holds-append h (Holds-join sep (t ∷ ss) h cs)))
