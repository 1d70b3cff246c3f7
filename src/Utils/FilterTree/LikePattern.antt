-- ===== src/Utils/FilterTree/LikePattern.antt =====
-- What the patterns of the LIKE operations match, by the meaning of LIKE with the escape character `\`.
use Prim.Native.Char.{Char, code}
use Prim.Native.String.{String, [], ◌∷◌, ◌++◌}
use text.Mathlib.TextLemmas.{nil-append, cons-append, append-nil}
use text.Mathlib.TextEquality.{Char-path}
use dashboard_template_api.Common.{
  ◌≡◌, refl, sym, ap, ◌∙◌, ◌↔◌, Bool, true, false, ◌&&◌, ◌||◌, arith, ◌==◌, ==_iff, if◌then◌else◌,
  &&_split, Bool-cases, inl, inr,
}
use dashboard_template_api.Utils.FilterTree.Operations.{
  Pattern, pat_contains, pat_starts, pat_ends, pat_exact,
}
use dashboard_template_api.Utils.FilterTree.Values.{escape_like, is_wildcard}
use dashboard_template_api.Utils.FilterTree.Criterion.{like_pattern}

-- `%` matches any run of characters, and `k` what follows it.
unfoldable pub any_suffix : (String → Bool) → String → Bool
any_suffix k [] = k []
any_suffix k (c ∷ s) = k (c ∷ s) || any_suffix k s

-- one character that passes the test, and what follows it
abbrev one : (Char → Bool) → (String → Bool) → String → Bool
one test k [] = false
one test k (c ∷ s) = test c && k s

-- The texts that a pattern matches; the flag says that the escape character has just been read.
unfoldable pub like : Bool → String → String → Bool
unfolding any_suffix
like escaped [] [] = true
like escaped [] (c ∷ s) = false
like true (p ∷ ps) s = one (λ c. code p == code c) (like false ps) s
like false (p ∷ ps) s =
    if code p == b'\\'
    then like true ps s
    else if code p == b'%'
    then any_suffix (like false ps) s
    else if code p == b'_'
    then one (λ c. true) (like false ps) s
    else one (λ c. code p == code c) (like false ps) s

-- the texts that begin with `v`, with what follows it
unfoldable pub after : String → (String → Bool) → String → Bool
after [] k s = k s
after (c ∷ v) k s = one (λ d. code c == code d) (after v k) s

one_same :
    (test : Char → Bool) (k l : String → Bool) (s : String)
    → ((t : String) → k t ≡ l t)
    → one test k s ≡ one test l s
one_same test k l [] h = refl
one_same test k l (c ∷ s) h = ap (λ b. test c && b) (h s)

like_special :
    (c : Char) (p s : String)
    → like false ("\\" ∷ c ∷ p) s ≡ one (λ d. code c == code d) (like false p) s
unfolding like
like_special c p s = refl

like_plain :
    (c : Char) (p s : String)
    → is_wildcard c ≡ false
    → like false (c ∷ p) s ≡ one (λ d. code c == code d) (like false p) s
unfolding like
like_plain c p s h =
    let e : (code c == b'\\') ≡ false = ground arith in
    let f : (code c == b'%') ≡ false = ground arith in
    let g : (code c == b'_') ≡ false = ground arith in rw (e, f, g) refl

-- The escaped form of a text matches that text alone, and the rest of the pattern what follows it.
like-escape_like : (v p s : String) → like false (escape_like v ++ p) s ≡ after v (like false p) s
unfolding escape_like after
like-escape_like [] p s = rw nil-append refl
like-escape_like (c ∷ v) p s = elim (Bool-cases (is_wildcard c)) [
  | inl special ↦
      rw (special, cons-append, cons-append, like_special c (escape_like v ++ p) s)
        (one_same _ _ _ s (like-escape_like v p))
  | inr plain ↦
      rw (plain, cons-append, like_plain c (escape_like v ++ p) s plain)
        (one_same _ _ _ s (like-escape_like v p))
]

after-append : (v : String) (k : String → Bool) (t : String) → after v k (v ++ t) ≡ k t
unfolding after
after-append [] k t = rw nil-append refl
after-append (c ∷ v) k t = rw (cons-append, (==_iff (code c) (code c)).1 refl) (after-append v k t)

same_char : (c d : Char) → (code c == code d) ≡ true → c ≡ d
same_char c d h = Char-path c d ((==_iff (code c) (code d)).0 h)

-- What stands after a text.
after_rest :
    (v : String) (k : String → Bool) (s : String)
    → after v k s ≡ true
    → (t : String) × (s ≡ v ++ t) × (k t ≡ true)
unfolding after
after_rest [] k s h = (s, sym (nil-append s), h)
after_rest (c ∷ v) k [] h = cc
after_rest (c ∷ v) k (d ∷ s) h =
    let (same, rest) = &&_split _ _ h in
    let (t, e, kt) = after_rest v k s rest in
    (t, rw (cons-append, sym (same_char c d same), e) refl, kt)

any_suffix-append : (k : String → Bool) (t u : String) → k u ≡ true → any_suffix k (t ++ u) ≡ true
unfolding any_suffix
any_suffix-append k [] [] h = ap (any_suffix k) (nil-append []) ∙ h
any_suffix-append k [] (c ∷ u) h = rw (nil-append, h) refl
any_suffix-append k (c ∷ t) u h = rw cons-append (ground (arith, any_suffix-append k t u h))

any_suffix_part :
    (k : String → Bool) (s : String)
    → any_suffix k s ≡ true
    → (t : String) × (u : String) × (s ≡ t ++ u) × (k u ≡ true)
unfolding any_suffix
any_suffix_part k [] h = ([], [], sym (nil-append []), h)
any_suffix_part k (c ∷ s) h = elim (Bool-cases (k (c ∷ s))) [
  | inl here ↦ ([], c ∷ s, sym (nil-append (c ∷ s)), here)
  | inr later ↦
      let (t, u, e, ku) = any_suffix_part k s (ground (arith, later)) in
      (c ∷ t, u, rw (cons-append, e) refl, ku)
]

-- What each pattern of a text is for.
abbrev pub Matches : Pattern → String → String → Type 0
Matches pat_exact v s = s ≡ v
Matches pat_starts v s = (t : String) × (s ≡ v ++ t)
Matches pat_ends v s = (t : String) × (s ≡ t ++ v)
Matches pat_contains v s = (t : String) × (u : String) × (s ≡ t ++ (v ++ u))

like_end : (s : String) → like false "" s ≡ true → s ≡ ""
unfolding like
like_end [] h = refl
like_end (c ∷ s) h = cc

any_end : (s : String) → any_suffix (like false "") s ≡ true
any_end s = rw (sym (append-nil s)) (any_suffix-append (like false "") s [] (unfold like in refl))

like_percent : (p s : String) → like false ("%" ++ p) s ≡ any_suffix (like false p) s
unfolding like
like_percent p s = rw (cons-append, nil-append) refl

like_exact : (v s : String) → like false (escape_like v) s ≡ after v (like false "") s
like_exact v s = rw (sym (append-nil (escape_like v))) (like-escape_like v "" s)

like_sound :
    (pattern : Pattern) (v s : String)
    → like false (like_pattern pattern (escape_like v)) s ≡ true
    → Matches pattern v s
like_sound pat_exact v s h =
    let (t, e, kt) = after_rest v (like false "") s (sym (like_exact v s) ∙ h) in
    e ∙ ap (λ x. v ++ x) (like_end t kt) ∙ append-nil v
like_sound pat_starts v s h =
    let (t, e, kt) = after_rest v (like false "%") s (sym (like-escape_like v "%" s) ∙ h) in (t, e)
like_sound pat_ends v s h =
    let (t, u, e, ku) = any_suffix_part _ s (sym (like_percent (escape_like v) s) ∙ h) in
    let (w, f, kw) = after_rest v (like false "") u (sym (like_exact v u) ∙ ku) in
    (t, e ∙ ap (λ x. t ++ x) (f ∙ ap (λ x. v ++ x) (like_end w kw) ∙ append-nil v))
like_sound pat_contains v s h =
    let (t, u, e, ku) = any_suffix_part _ s (sym (like_percent (escape_like v ++ "%") s) ∙ h) in
    let (w, f, kw) = after_rest v (like false "%") u (sym (like-escape_like v "%" u) ∙ ku) in
    (t, w, e ∙ ap (λ x. t ++ x) f)

-- `%` alone matches anything.
like_any : (s : String) → like false "%" s ≡ true
unfolding like
like_any s = any_end s

exact_complete : (v : String) → like false (escape_like v) v ≡ true
unfolding like
exact_complete v =
    like_exact v v
    ∙ ap (after v (like false "")) (sym (append-nil v))
    ∙ after-append v (like false "") []

starts_complete : (v t : String) → like false (escape_like v ++ "%") (v ++ t) ≡ true
starts_complete v t =
    like-escape_like v "%" (v ++ t) ∙ after-append v (like false "%") t ∙ like_any t

like_complete :
    (pattern : Pattern) (v s : String)
    → Matches pattern v s
    → like false (like_pattern pattern (escape_like v)) s ≡ true
like_complete pat_exact v s e = rw e (exact_complete v)
like_complete pat_starts v s (t, e) = rw e (starts_complete v t)
like_complete pat_ends v s (t, e) =
    rw e (like_percent (escape_like v) (t ++ v) ∙ any_suffix-append _ t v (exact_complete v))
like_complete pat_contains v s (t, u, e) = rw e (
    like_percent (escape_like v ++ "%") (t ++ (v ++ u))
    ∙ any_suffix-append _ t (v ++ u) (starts_complete v u))

-- Read as SQL's LIKE reads it with the escape character `\`, the pattern built from a value matches a
-- text exactly when the text equals the value (`exact`), begins with it (`starts`), ends with it
-- (`ends`) or contains it (`contains`): no `%`, `_` or `\` in the value acts as a wildcard.
pub like_pattern_iff :
    (pattern : Pattern) (v s : String)
    → (like false (like_pattern pattern (escape_like v)) s ≡ true) ↔ Matches pattern v s
like_pattern_iff pattern v s = (like_sound pattern v s, like_complete pattern v s)
