-- ===== src/Cache/Invalidation/Flushed.antt =====
-- An invalidated catalog or schema leaves none of its keys.
use Prim.Native.String.{String, ◌++◌}
use text.Mathlib.TextLemmas.{append_assoc}
use dashboard_template_api.Common.{
  ◌≡◌, refl, ◌∙◌, inl, inr, Bool, true, false, ◌||◌, Option, none, some, List, arith, eq_iff,
  str_eq, Bool-cases, if◌then◌else◌,
}
use dashboard_template_api.Common.Result.{done}
use dashboard_template_api.Utils.Identifiers.{join}
use dashboard_template_api.Utils.FilterTree.Typing.{set_has}
use dashboard_template_api.Utils.FilterTree.Values.{is_empty_text}
use dashboard_template_api.Cache.Keys.{CacheKeyParts, build_cache_key, versioned_segment}
use dashboard_template_api.Cache.Redis.{Glob, Redis, Iteration}
use dashboard_template_api.Cache.Invalidation.{
  schema_pattern, key_pattern, all_catalog, namespace, invalidate_catalog, delete,
}
use dashboard_template_api.Cache.Invalidation.Patterns.{is_literal, matches-literal, matches-star}
use dashboard_template_api.Cache.Invalidation.Removed.{
  is_single, split_targets-single, flush-removes, full_pattern, scanned_keys,
}

-- The schema that is asked for, where one is.
abbrev pub covers : Option String → String → Bool
covers none schema = true
covers (some asked) schema = is_empty_text asked || str_eq asked schema

module _ (glob : Glob) where
  tail_matches :
      (version rest : String) → glob.matches ("*" ++ ":*") (version ++ (":" ++ rest)) ≡ true
  unfolding is_literal
  tail_matches version rest =
      glob.star ":*" version (":" ++ rest)
        (matches-literal glob ":" "*" rest refl ∙ matches-star glob rest)

  any_schema :
      (schema version rest : String)
      → glob.matches ("*" ++ ":*") (schema ++ ("@" ++ (version ++ (":" ++ rest)))) ≡ true
  any_schema schema version rest =
      rw append_assoc at (rw append_assoc at (tail_matches ((schema ++ "@") ++ version) rest))

  one_schema :
      (schema version rest : String)
      → is_literal schema ≡ true
      → glob.matches ((schema ++ "@*") ++ ":*") (schema ++ ("@" ++ (version ++ (":" ++ rest))))
        ≡ true
  unfolding is_literal
  one_schema schema version rest h = rw append_assoc (
      matches-literal glob schema ("@*" ++ ":*") _ h
      ∙ matches-literal glob "@" ("*" ++ ":*") _ refl
      ∙ tail_matches version rest)

  schema_pattern-matches :
      (asked : Option String) (schema version rest : String)
      → is_literal schema ≡ true
      → covers asked schema ≡ true
      → glob.matches (schema_pattern asked ++ ":*") (schema ++ ("@" ++ (version ++ (":" ++ rest))))
        ≡ true
  schema_pattern-matches none schema version rest h c = any_schema schema version rest
  schema_pattern-matches (some asked) schema version rest h c =
      elim (Bool-cases (is_empty_text asked)) [
        | inl blank ↦ rw blank (any_schema schema version rest)
        | inr named ↦
            rw (named, (eq_iff asked schema).0 (ground (arith, named)))
              (one_schema schema version rest h)
      ]

  -- The pattern of a catalog matches whatever begins, goes on with the catalog and one of its schemas.
  key_pattern-matches :
      (asked : Option String) (prefix catalog schema version rest : String)
      → is_empty_text catalog ≡ false
      → is_literal catalog ≡ true
      → is_literal schema ≡ true
      → covers asked schema ≡ true
      → glob.matches
          (key_pattern all_catalog (some catalog) asked)
          (prefix ++ (":" ++ (catalog ++ (":" ++ (schema ++ ("@" ++ (version ++ (":" ++ rest))))))))
        ≡ true
  unfolding key_pattern namespace is_literal
  key_pattern-matches asked prefix catalog schema version rest named hc hs covered = rw named (
      glob.star _ prefix _ (
        matches-literal glob ":" _ _ refl
        ∙ matches-literal glob catalog _ _ hc
        ∙ matches-literal glob ":" _ _ refl
        ∙ schema_pattern-matches asked schema version rest hs covered))

-- The key of a single catalog and schema, part by part.
build_cache_key-parts :
    (version_of : String → String → String) (parts : CacheKeyParts)
    → is_single parts.catalog ≡ true
    → is_single parts.schema ≡ true
    → build_cache_key version_of parts
      ≡ parts.prefix
        ++ (":"
            ++ (parts.catalog
                ++ (":"
                    ++ (parts.schema
                        ++ ("@"
                            ++ (version_of parts.catalog parts.schema
                                ++ (":"
                                    ++ ((if is_empty_text parts.variant
                                          then ""
                                          else parts.variant ++ ":")
                                        ++ parts.hash))))))))
unfolding build_cache_key versioned_segment join
build_cache_key-parts version_of parts hc hs =
    rw (split_targets-single parts.catalog hc, split_targets-single parts.schema hs)
      (rw (append_assoc, append_assoc, append_assoc, append_assoc) refl)

-- Invalidating a catalog, or one schema of it, on a standalone Redis: when the calls of SCAN answer up
-- to the end of the iteration, and DEL answers for the keys of all its batches, the invalidation
-- returns, and it leaves none of the keys that the loaders write for a schema that it covers, of any
-- type and variant, at any version of the data, under any prefix of the client's keys. The catalog
-- and the schema are single ones, and their names hold no character with a meaning in a pattern.
pub invalidate_catalog-removes :
    (redis : Redis) (key_prefix : String) (version_of : String → String → String)
    (parts : CacheKeyParts) (asked : Option String) (store left : List String)
    (batches : List (List String))
    → is_empty_text parts.catalog ≡ false
    → is_single parts.catalog ≡ true
    → is_single parts.schema ≡ true
    → is_literal parts.catalog ≡ true
    → is_literal parts.schema ≡ true
    → covers asked parts.schema ≡ true
    → Iteration
        (redis.scan store
          (full_pattern redis key_prefix (key_pattern all_catalog (some parts.catalog) asked)))
        "0"
        batches
    → delete redis key_prefix store (scanned_keys redis key_prefix batches) ≡ done left
    → (invalidate_catalog redis key_prefix (some parts.catalog) asked store ≡ done left)
      × (set_has left (key_prefix ++ build_cache_key version_of parts) ≡ false)
unfolding invalidate_catalog
invalidate_catalog-removes redis key_prefix version_of parts asked store left batches named sc ss lc
      ls covered it deleted =
    flush-removes redis key_prefix store left _ (build_cache_key version_of parts) batches
      (rw (build_cache_key-parts version_of parts sc ss) (
        key_pattern-matches redis.glob asked parts.prefix parts.catalog parts.schema _ _ named lc ls
          covered))
      it deleted
