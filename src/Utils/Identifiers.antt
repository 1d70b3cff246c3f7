-- ===== src/Utils/Identifiers.antt =====
-- src/utils/identifiers.ts: quoting of SQL identifiers, qualified names, and the check of the
-- requested columns against the metadata table. `SCHEMA_PATHS_CTE` is a fixed SQL text.
pub mod Joining
pub mod Quoting
pub mod Tests
use Prim.Native.Char.{Char, code}
use Prim.Native.String.{String, [], ◌∷◌, ◌++◌}
use mathlib.Core.List
use mathlib.Core.List.{List}
use dashboard_template_api.Common.{
  ℕ, Bool, true, false, not, ◌||◌, Option, none, some, ◌==◌, str_eq, if◌then◌else◌,
}

-- `name.replace(/"/g, '""')`
unfoldable pub double_quotes : String → String
double_quotes [] = []
double_quotes (c ∷ s) =
    let rest = double_quotes s in if code c == b'"' then c ∷ c ∷ rest else c ∷ rest

unfoldable pub quote_ident : String → String
unfolding double_quotes
quote_ident name = "\"" ++ (double_quotes name ++ "\"")

-- `schema.split('.')`: the current level is the head of what is returned.
abbrev push_level : Char → List String → List String
push_level c List.[] = List.◌∷◌ (c ∷ []) List.[]
push_level c (List.◌∷◌ level levels) = List.◌∷◌ (c ∷ level) levels

unfoldable pub split_path : String → List String
split_path [] = List.◌∷◌ [] List.[]
split_path (c ∷ s) =
    let levels = split_path s in if code c == b'.' then List.◌∷◌ [] levels else push_level c levels

-- `parts.join(sep)`
unfoldable pub join : String → List String → String
join sep List.[] = []
join sep (List.◌∷◌ part List.[]) = part
join sep (List.◌∷◌ part (List.◌∷◌ next parts)) = part ++ (sep ++ join sep (List.◌∷◌ next parts))

unfoldable pub qualified_table : String → String → String → String
unfolding quote_ident split_path join
qualified_table catalog schema table = join "." (
    List.map quote_ident
      (List.◌∷◌ catalog (List.◌++◌ (split_path schema) (List.◌∷◌ table List.[]))))
