-- ===== src/Cache/Invalidation/Tests.antt =====
-- A Redis that answers from a list of keys.
use Prim.Native.Char.{Char, code}
use Prim.Native.String.{String, ◌++◌}
use mathlib.Core.List
use text.Mathlib.TextLemmas.{nil-append, cons-append}
use dashboard_template_api.Common.{
  ◌≡◌, refl, sym, ap, ◌∙◌, Bool, true, false, not, ◌||◌, none, some, List, [], ◌∷◌, filter, arith,
  ◌==◌, if◌then◌else◌, str_eq,
}
use dashboard_template_api.Common.Result.{Result, done, thrown, ◌>>=◌}
use dashboard_template_api.Utils.Identifiers.{join}
use dashboard_template_api.Utils.FilterTree.Typing.{set_has, strip_prefix}
use dashboard_template_api.Db.Schemas.Served.{set_has-filter}
use dashboard_template_api.Cache.Keys.{
  CacheKeyParts, build_cache_key, versioned_segment, split_targets,
}
use dashboard_template_api.Cache.Redis.{Glob, Redis, is_special, Iteration, last, further}
use dashboard_template_api.Cache.Invalidation.{
  escape_glob, without_prefix, scan_from, scan_keys, flush, key_pattern, namespace,
  invalidate_catalog,
}
use dashboard_template_api.Cache.Invalidation.Patterns.{is_literal}
use dashboard_template_api.Cache.Invalidation.Removed.{is_single}
use dashboard_template_api.Cache.Invalidation.Flushed.{invalidate_catalog-removes}

-- Some suffix of the text.
any_suffix : (String → Bool) → String → Bool
any_suffix q String.[] = q ""
any_suffix q (String.◌∷◌ c t) = q (String.◌∷◌ c t) || any_suffix q t

abbrev first_is : Char → (String → Bool) → String → Bool
first_is c q String.[] = false
first_is c q (String.◌∷◌ d t) = if code c == code d then q t else false

-- The flag says that the character before was a backslash.
match : Bool → String → String → Bool
unfolding any_suffix
match escaped String.[] = λ t. str_eq t ""
match true (String.◌∷◌ c p) = first_is c (match false p)
match false (String.◌∷◌ c p) =
    let literal = match true p in
    let rest = match false p in
    if code c == b'*' then any_suffix rest else if code c == b'\\' then literal else first_is c rest

any_suffix-here : (q : String → Bool) (t : String) → q t ≡ true → any_suffix q t ≡ true
unfolding any_suffix
any_suffix-here q String.[] h = h
any_suffix-here q (String.◌∷◌ c t) h = ground (arith, h)

any_suffix-append :
    (q : String → Bool) (before after : String)
    → q after ≡ true
    → any_suffix q (before ++ after) ≡ true
unfolding any_suffix
any_suffix-append q String.[] after h = rw nil-append (any_suffix-here q after h)
any_suffix-append q (String.◌∷◌ c before) after h =
    rw cons-append (ground (arith, any_suffix-append q before after h))

first_is_it : (c : Char) (q : String → Bool) (t : String) → first_is c q (String.◌∷◌ c t) ≡ q t
first_is_it c q t = ground arith

not_star : (c : Char) → is_special c ≡ false → (code c == b'*') ≡ false
not_star c h = ground arith

not_slash : (c : Char) → is_special c ≡ false → (code c == b'\\') ≡ false
not_slash c h = ground arith

match-literal :
    (c : Char) (p t : String)
    → is_special c ≡ false
    → match false (String.◌∷◌ c p) (String.◌∷◌ c t) ≡ match false p t
unfolding match
match-literal c p t h =
    let star = not_star c h in
    let slash = not_slash c h in rw (star, slash) (first_is_it c (match false p) t)

glob : Glob
unfolding match
glob = record {
  matches = match false;
  empty = refl;
  literal = match-literal;
  escaped = λ c p t. first_is_it c (match false p) t;
  star = λ p before after h.
      rw (cons-append, nil-append) (any_suffix-append (match false p) before after h);
}

-- What a result says of a key.
abbrev in_keys : String → Result String (List String) → Bool
in_keys key (done keys) = set_has keys key
in_keys key (thrown e) = false

scanned :
    (store : List String) (pattern key : String)
    → set_has store key ≡ true
    → match false pattern key ≡ true
    → set_has (List.◌++◌ (filter (match false pattern) store) []) key ≡ true
scanned store pattern key there matching =
    ap (λ keys. set_has keys key) (List.append-nil (filter (match false pattern) store))
    ∙ set_has-filter (match false pattern) store key
    ∙ ground (arith, there, matching)

abbrev scan : List String → String → String → Result String (String × List String)
scan store pattern cursor = done ("0", filter (match false pattern) store)

batches_of :
    (store : List String) (pattern cursor : String) (batches : List (List String))
    → Iteration (scan store pattern) cursor batches
    → batches ≡ filter (match false pattern) store ∷ []
batches_of store pattern cursor batches (last e) = cc
batches_of store pattern cursor batches (further e more it) = absurd (cc)

redis : Redis
unfolding match glob
redis = record {
  glob = glob;
  scan = scan;
  pages = λ store. 1;
  del = λ store keys. done (filter (λ key. not (set_has keys key)) store);
  scan_complete = λ store pattern key batches it there matching.
      rw (batches_of store pattern "0" batches it) (scanned store pattern key there matching);
  scan_ends =
      λ store pattern batches it. rw (batches_of store pattern "0" batches it) (omega arith);
  del_removes = λ store keys left key e there.
      sym (ap (in_keys key) e)
      ∙ set_has-filter (λ k. not (set_has keys k)) store key
      ∙ ground (arith, there);
  del_only = λ store keys left key e there.
      ground
        (arith, ap (in_keys key) e, set_has-filter (λ k. not (set_has keys k)) store key, there);
}

runs : Unit {0}
unfolding match any_suffix glob redis escape_glob without_prefix strip_prefix scan_from scan_keys
    flush key_pattern namespace invalidate_catalog build_cache_key versioned_segment split_targets
    join is_literal is_single ◌>>=◌
runs = tt

abbrev parts : CacheKeyParts
parts = record {
  prefix = "facts";
  catalog = "c";
  schema = "main";
  variant = "with-count";
  hash = "3f2a";
}

abbrev version_of : String → String → String
version_of catalog schema = "17"

abbrev store : List String
store = "app*:facts:c:main@17:with-count:3f2a" ∷ "app*:facts:d:main@17:77" ∷ []

flushes :
    invalidate_catalog redis "app*:" (some "c") (some "main") store
    ≡ done ("app*:facts:d:main@17:77" ∷ [])
unfolding runs
flushes = refl

invalidate_catalog-removes_example :
    (invalidate_catalog redis "app*:" (some "c") (some "main") store
      ≡ done ("app*:facts:d:main@17:77" ∷ []))
    × (set_has ("app*:facts:d:main@17:77" ∷ []) ("app*:" ++ build_cache_key version_of parts)
        ≡ false)
unfolding runs
invalidate_catalog-removes_example =
    invalidate_catalog-removes redis "app*:" version_of parts (some "main") store _ _ refl refl refl
      refl refl refl (last refl) refl

-- A Redis that answers one key a page.
abbrev paged : List String → String → String → Result String (String × List String)
paged held glob_text cursor =
    if str_eq cursor "0" then done ("1", "app*:a" ∷ []) else done ("0", "app*:b" ∷ [])

paged-Iteration : Iteration (paged [] "*") "0" (("app*:a" ∷ []) ∷ ("app*:b" ∷ []) ∷ [])
paged-Iteration = further refl refl (last refl)

-- A comparison of two catalogs, under the key that the loader writes for it.
abbrev comparison : CacheKeyParts
comparison = record parts {
  prefix = "cross-database";
  catalog = "c+d";
  schema = "main+main";
  variant = "";
}

compared : build_cache_key version_of comparison ≡ "cross-database:c+d:main@17+main@17:3f2a"
unfolding runs
compared = refl

comparison_stays :
    invalidate_catalog redis "" (some "c") none ("cross-database:c+d:main@17+main@17:3f2a" ∷ [])
    ≡ done ("cross-database:c+d:main@17+main@17:3f2a" ∷ [])
unfolding runs
comparison_stays = refl
