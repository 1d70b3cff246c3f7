-- ===== src/Cache/Keys.antt =====
-- src/cache/cache-keys.ts: the key of a cached result, which carries the version of the data.
use Prim.Native.Char.{Char, code}
use Prim.Native.String.{String, ◌++◌}
use dashboard_template_api.Common.{List, [], ◌∷◌, ◌==◌, if◌then◌else◌}
use dashboard_template_api.Utils.Identifiers.{join}
use dashboard_template_api.Utils.FilterTree.Values.{is_empty_text}

pub record CacheKeyParts : Type 0 where
  pub prefix : String
  pub catalog : String
  pub schema : String
  pub variant : String
  pub hash : String

-- `text.split('+')`: the current target is the head of what is returned.
abbrev pub push_target : Char → List String → List String
push_target c [] = (String.◌∷◌ c "") ∷ []
push_target c (target ∷ targets) = (String.◌∷◌ c target) ∷ targets

unfoldable pub split_targets : String → List String
split_targets String.[] = "" ∷ []
split_targets (String.◌∷◌ c s) =
    let targets = split_targets s in if code c == b'+' then "" ∷ targets else push_target c targets

abbrev pub head_or : String → List String → String
head_or other [] = other
head_or other (x ∷ xs) = x

abbrev pub tail_of : List String → List String
tail_of [] = []
tail_of (x ∷ xs) = xs

module _ (version_of : String → String → String) where
  -- `schemas.map(…)`, with the catalogs from the same place on; the first one where there are no more
  abbrev pub versioned : String → List String → List String → List String
  versioned first catalogs [] = []
  versioned first catalogs (schema ∷ schemas) =
      (schema ++ ("@" ++ version_of (head_or first catalogs) schema))
      ∷ versioned first (tail_of catalogs) schemas

  unfoldable pub versioned_segment : String → String → String
  unfolding split_targets join
  versioned_segment catalog schema =
      let catalogs = split_targets catalog in
      catalog ++ (":" ++ join "+" (versioned (head_or "" catalogs) catalogs (split_targets schema)))

  unfoldable pub build_cache_key : CacheKeyParts → String
  unfolding versioned_segment
  build_cache_key parts =
      parts.prefix
      ++ (":"
          ++ (versioned_segment parts.catalog parts.schema
              ++ (":"
                  ++ ((if is_empty_text parts.variant then "" else parts.variant ++ ":")
                      ++ parts.hash))))
