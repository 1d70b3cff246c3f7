-- ===== src/Cache/Invalidation/Patterns.antt =====
-- What the patterns of the keys match.
use Prim.Native.String.{String, ◌++◌}
use text.Mathlib.TextLemmas.{nil-append, cons-append, append-nil}
use dashboard_template_api.Common.{
  ◌≡◌, refl, ◌∙◌, inl, inr, Bool, true, not, ◌&&◌, some, arith, eq_iff, Bool-cases,
}
use dashboard_template_api.Utils.FilterTree.Typing.{strip_prefix}
use dashboard_template_api.Utils.FilterTree.Values.{is_empty_text}
use dashboard_template_api.Cache.Redis.{Glob, is_special}
use dashboard_template_api.Cache.Invalidation.{escape_glob, without_prefix}

-- No character that a pattern gives a meaning to.
unfoldable pub is_literal : String → Bool
is_literal String.[] = true
is_literal (String.◌∷◌ c s) = not (is_special c) && is_literal s

module _ (glob : Glob) where
  pub matches-escape_glob :
      (text pattern rest : String)
      → glob.matches (escape_glob text ++ pattern) (text ++ rest) ≡ glob.matches pattern rest
  unfolding escape_glob
  matches-escape_glob String.[] pattern rest = rw (nil-append, nil-append) refl
  matches-escape_glob (String.◌∷◌ c text) pattern rest = elim (Bool-cases (is_special c)) [
    | inl special ↦
        rw (special, cons-append, cons-append, cons-append)
          (glob.escaped c (escape_glob text ++ pattern) (text ++ rest)
            ∙ matches-escape_glob text pattern rest)
    | inr plain ↦
        rw (plain, cons-append, cons-append)
          (glob.literal c (escape_glob text ++ pattern) (text ++ rest) plain
            ∙ matches-escape_glob text pattern rest)
  ]

  pub matches-literal :
      (text pattern rest : String)
      → is_literal text ≡ true
      → glob.matches (text ++ pattern) (text ++ rest) ≡ glob.matches pattern rest
  unfolding is_literal
  matches-literal String.[] pattern rest h = rw (nil-append, nil-append) refl
  matches-literal (String.◌∷◌ c text) pattern rest h =
      rw (cons-append, cons-append)
        (glob.literal c (text ++ pattern) (text ++ rest) (ground arith)
          ∙ matches-literal text pattern rest (ground arith))

  -- A star at the end.
  pub matches-star : (text : String) → glob.matches "*" text ≡ true
  matches-star text = rw (append-nil, append-nil) at (glob.star "" text "" glob.empty)

strip_prefix-append : (prefix rest : String) → strip_prefix prefix (prefix ++ rest) ≡ some rest
unfolding strip_prefix
strip_prefix-append String.[] rest = rw nil-append refl
strip_prefix-append (String.◌∷◌ c prefix) rest =
    rw cons-append (ground (arith, strip_prefix-append prefix rest))

-- The client's prefix comes off the keys that carry it.
pub without_prefix-append : (prefix key : String) → without_prefix prefix (prefix ++ key) ≡ key
unfolding without_prefix
without_prefix-append prefix key = elim (Bool-cases (is_empty_text prefix)) [
  | inl blank ↦ rw (blank, (eq_iff prefix "").0 blank) (nil-append key)
  | inr there ↦ rw (there, strip_prefix-append) refl
]
