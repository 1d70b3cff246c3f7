-- ===== src/Cache/Invalidation.antt =====
-- src/cache/cache-invalidation.ts: the patterns of the keys, and what is deleted from the store, which
-- is the list of its keys. The calls that run side by side are taken one after another.
pub mod Patterns
pub mod Removed
pub mod Flushed
pub mod Routes
pub mod Tests
use Prim.Native.Char.{Char, code}
use Prim.Native.String.{String, ◌++◌}
use mathlib.Core.List
use dashboard_template_api.Common.{
  zero, suc, ℕ, Bool, true, false, not, Option, none, some, List, [], ◌∷◌, map, length, str_eq,
  if◌then◌else◌,
}
use dashboard_template_api.Common.Map.{Map, lookup}
use dashboard_template_api.Common.Result.{Result, done, thrown, ◌>>=◌}
use dashboard_template_api.Utils.FilterTree.Typing.{strip_prefix}
use dashboard_template_api.Utils.FilterTree.Values.{is_empty_text}
use dashboard_template_api.Cache.Redis.{Redis, is_special}

-- `text || fallback`, of a text that may be absent
abbrev pub or_text : String → Option String → String
or_text fallback none = fallback
or_text fallback (some s) = if is_empty_text s then fallback else s

abbrev pub schema_pattern : Option String → String
schema_pattern none = "*"
schema_pattern (some schema) = if is_empty_text schema then "*" else schema ++ "@*"

unfoldable pub namespace : Option String → Option String → String
namespace catalog schema = or_text "default" catalog ++ (":" ++ (schema_pattern schema ++ ":*"))

-- the types of `keyPatterns` and what their keys begin with
abbrev pub key_types : Map String
key_types =
    ("metadata", "metadata")
    ∷ ("catalogMetadata", "catalog-metadata")
    ∷ ("datasetInfo", "dataset-info")
    ∷ ("facts", "facts")
    ∷ ("aggregatedFacts", "aggregated-facts")
    ∷ ("selectOptions", "select-options")
    ∷ ("fieldStats", "field-stats")
    ∷ []

abbrev pub all_catalog : String
all_catalog = "*"

unfoldable pub key_pattern : String → Option String → Option String → String
unfolding namespace
key_pattern start catalog schema = start ++ (":" ++ namespace catalog schema)

-- `escapeGlob`
unfoldable pub escape_glob : String → String
escape_glob String.[] = ""
escape_glob (String.◌∷◌ c s) =
    let rest = escape_glob s in
    if is_special c then String.◌∷◌ "\\" (String.◌∷◌ c rest) else String.◌∷◌ c rest

abbrev or_whole : String → Option String → String
or_whole key none = key
or_whole key (some rest) = rest

-- a returned key without the client's prefix
unfoldable pub without_prefix : String → String → String
unfolding strip_prefix
without_prefix prefix key =
    if is_empty_text prefix then key else or_whole key (strip_prefix prefix key)

abbrev pub catalog_id : Option String → String
catalog_id none = "default"
catalog_id (some catalog) = catalog

module _ (redis : Redis) (key_prefix : String) where
  -- the do/while loop from a cursor; its fuel is never used up where the iteration ends within it
  unfoldable pub scan_from : List String → String → ℕ → String → Result String (List String)
  unfolding without_prefix ◌>>=◌
  scan_from store pattern zero cursor = thrown "The iteration does not end"
  scan_from store pattern (suc fuel) cursor = redis.scan store pattern cursor >>= λ answer.
      let keys = map (without_prefix key_prefix) answer.1 in
      let rest = scan_from store pattern fuel answer.0 in
      if str_eq answer.0 "0" then done keys else (rest >>= λ more. done (List.◌++◌ keys more))

  unfoldable pub scan_keys : List String → String → Result String (List String)
  unfolding escape_glob scan_from
  scan_keys store pattern =
      scan_from store (escape_glob key_prefix ++ pattern) (redis.pages store) "0"

  -- `redis.del(...keys)`, on which the client puts its prefix again; none without keys
  abbrev pub delete : List String → List String → Result String (List String)
  delete store [] = done store
  delete store (key ∷ keys) = redis.del store (map (λ k. key_prefix ++ k) (key ∷ keys))

  unfoldable pub flush : String → List String → Result String (List String)
  unfolding scan_keys ◌>>=◌
  flush pattern store = do keys ← scan_keys store pattern; delete store keys

  unfoldable pub invalidate_catalog :
      Option String → Option String → List String → Result String (List String)
  unfolding flush key_pattern
  invalidate_catalog catalog schema store =
      flush (key_pattern all_catalog (some (catalog_id catalog)) schema) store

  abbrev invalidate_pattern :
      Option String → Option String → Option String → List String → Result String (List String)
  invalidate_pattern none catalog schema store = thrown "Unknown cache type"
  invalidate_pattern (some start) catalog schema store =
      flush (key_pattern start (some (catalog_id catalog)) schema) store

  -- `allCatalog` is one of the patterns
  abbrev pattern_start : String → Option String
  pattern_start cache_type =
      if str_eq cache_type "allCatalog" then some all_catalog else lookup cache_type key_types

  unfoldable pub invalidate_cache_type :
      String → Option String → Option String → List String → Result String (List String)
  unfolding flush key_pattern lookup
  invalidate_cache_type cache_type catalog schema store =
      invalidate_pattern (pattern_start cache_type) catalog schema store

  -- a failure is kept, and the others go on
  abbrev pub note_failure :
      Result String (List String) → String → List String × List String → List String × List String
  note_failure (done left) catalog (store, failures) = (left, failures)
  note_failure (thrown message) catalog (store, failures) =
      (store, List.◌++◌ failures (catalog ∷ []))

  -- the store and the catalogs that failed
  unfoldable pub invalidate_all :
      List String → List String × List String → List String × List String
  unfolding invalidate_catalog
  invalidate_all [] state = state
  invalidate_all (catalog ∷ catalogs) state =
      invalidate_all catalogs
        (note_failure (invalidate_catalog (some catalog) none state.0) catalog state)

  -- `getCacheStats`, of one schema
  unfoldable pub schema_stats : List String → String → String → Map String → Result String (Map ℕ)
  unfolding scan_keys key_pattern ◌>>=◌
  schema_stats store catalog schema [] = done []
  schema_stats store catalog schema ((cache_type, start) ∷ types) = do
    keys ← scan_keys store (key_pattern start (some catalog) (some schema))
    rest ← schema_stats store catalog schema types
    done ((cache_type, length keys) ∷ rest)
