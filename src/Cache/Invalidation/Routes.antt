-- ===== src/Cache/Invalidation/Routes.antt =====
-- src/cache/cache-invalidation.ts: the statistics and the routes, behind the check of the admin key.
-- `Catalogs` is what the database manager answers.
use Prim.Native.String.{String}
use dashboard_template_api.Common.{
  ℕ, Bool, false, not, ◌&&◌, Option, none, some, List, [], ◌∷◌, if◌then◌else◌,
}
use dashboard_template_api.Common.Map.{Map}
use dashboard_template_api.Common.Result.{Result, done, thrown, ◌>>=◌}
use dashboard_template_api.Utils.FilterTree.Values.{is_empty_text}
use dashboard_template_api.Cache.Redis.{Redis}
use dashboard_template_api.Cache.Invalidation.{
  key_types, invalidate_catalog, invalidate_all, schema_stats,
}

pub record Catalogs : Type 0 where
  pub available : List String
  pub is_valid_catalog : String → Bool
  pub is_valid_schema : String → String → Bool
  pub get_schemas : String → List String

-- A parameter of a route, which Express may give as an array.
pub data Param : Type 0 where
  missing : Param
  single : String → Param
  several : List String → Param

unfoldable pub pick_param : Param → Option String
pick_param missing = none
pick_param (single s) = some s
pick_param (several []) = none
pick_param (several (s ∷ rest)) = some s

-- The answers: 404 for a catalog or a schema, 500 with the error, or success with the store left.
pub data Reply : Type 0 where
  no_catalog no_schema : Reply
  failed : String → Reply
  flushed : List String → Reply

abbrev reply_of : Result String (List String) → Reply
reply_of (done left) = flushed left
reply_of (thrown message) = failed message

abbrev valid : (String → Bool) → Option String → Bool
valid known none = false
valid known (some name) = not (is_empty_text name) && known name

abbrev name_of : Option String → String
name_of none = ""
name_of (some name) = name

module _ (redis : Redis) (key_prefix : String) (catalogs : Catalogs) (store : List String) where
  unfoldable pub catalog_route : Param → Reply
  unfolding pick_param invalidate_catalog
  catalog_route param =
      let catalog = pick_param param in
      if valid catalogs.is_valid_catalog catalog
      then reply_of (invalidate_catalog redis key_prefix catalog none store)
      else no_catalog

  unfoldable pub schema_route : Param → Param → Reply
  unfolding pick_param invalidate_catalog
  schema_route catalog_param schema_param =
      let catalog = pick_param catalog_param in
      let schema = pick_param schema_param in
      if not (valid catalogs.is_valid_catalog catalog)
      then no_catalog
      else if not (valid (catalogs.is_valid_schema (name_of catalog)) schema)
      then no_schema
      else reply_of (invalidate_catalog redis key_prefix catalog schema store)

  -- individual failures are only logged
  unfoldable pub all_route : Reply
  unfolding invalidate_all
  all_route = flushed (invalidate_all redis key_prefix catalogs.available (store, [])).0

  unfoldable pub catalog_stats : String → List String → Result String (Map (Map ℕ))
  unfolding schema_stats ◌>>=◌
  catalog_stats catalog [] = done []
  catalog_stats catalog (schema ∷ schemas) = do
    counts ← schema_stats redis key_prefix store catalog schema key_types
    rest ← catalog_stats catalog schemas
    done ((schema, counts) ∷ rest)

  -- `getCacheStats`, over the catalogs
  unfoldable pub cache_stats : List String → Result String (Map (Map (Map ℕ)))
  unfolding catalog_stats ◌>>=◌
  cache_stats [] = done []
  cache_stats (catalog ∷ rest) = do
    counts ← catalog_stats catalog (catalogs.get_schemas catalog)
    others ← cache_stats rest
    done ((catalog, counts) ∷ others)
