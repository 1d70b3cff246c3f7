-- ===== src/Cache/Redis.antt =====
-- The Redis service, as far as the cache relies on it: patterns of keys, the iteration over the keys
-- that match one, and the deletion of keys. All of it is documented behaviour of a standalone Redis: of
-- a cluster, one SCAN answers for a single node.
use Prim.Native.Char.{Char, code}
use Prim.Native.String.{String, ◌++◌}
use mathlib.Core.List
use dashboard_template_api.Common.{
  ℕ, ◌≤◌, length, str_eq, ◌≡◌, Bool, true, false, ◌||◌, List, [], ◌∷◌, ◌==◌,
}
use dashboard_template_api.Common.Result.{Result, done}
use dashboard_template_api.Utils.FilterTree.Typing.{set_has}

-- The characters that a pattern gives a meaning to.
abbrev pub is_special : Char → Bool
is_special c =
    code c == b'*' || (code c == b'?' || (code c == b'[' || (code c == b']' || code c == b'\\')))

abbrev pub concat : List (List String) → List String
concat [] = []
concat (batch ∷ batches) = List.◌++◌ batch (concat batches)

-- What a pattern matches: other characters themselves, an escaped one literally, `*` any text.
pub record Glob : Type 0 where
  pub matches : String → String → Bool
  pub empty : matches "" "" ≡ true
  pub literal :
      (c : Char) (pattern text : String)
      → is_special c ≡ false
      → matches (String.◌∷◌ c pattern) (String.◌∷◌ c text) ≡ matches pattern text
  pub escaped :
      (c : Char) (pattern text : String)
      → matches (String.◌∷◌ "\\" (String.◌∷◌ c pattern)) (String.◌∷◌ c text) ≡ matches pattern text
  pub star :
      (pattern before after : String)
      → matches pattern after ≡ true
      → matches ("*" ++ pattern) (before ++ after) ≡ true

-- A whole iteration from a cursor, and its batches: it ends where the next cursor is "0".
pub data Iteration (scan : String → Result String (String × List String))
    : String → List (List String) → Type 0 where
  last :
      {cursor : String} {batch : List String}
      → scan cursor ≡ done ("0", batch)
      → Iteration scan cursor (batch ∷ [])
  further :
      {cursor next : String} {batch : List String} {batches : List (List String)}
      → scan cursor ≡ done (next, batch)
      → str_eq next "0" ≡ false
      → Iteration scan next batches
      → Iteration scan cursor (batch ∷ batches)

-- `scan`: the call at a cursor, over the keys of the store, with the next cursor and a batch of keys;
-- `del`: the store without the keys. An iteration over a store that stays the same ends, within
-- `pages` calls, and its batches hold every key that matches.
pub record Redis : Type 0 where
  pub glob : Glob
  pub scan : List String → String → String → Result String (String × List String)
  pub pages : List String → ℕ
  pub del : List String → List String → Result String (List String)
  pub scan_complete :
      (store : List String) (pattern key : String) (batches : List (List String))
      → Iteration (scan store pattern) "0" batches
      → set_has store key ≡ true
      → glob.matches pattern key ≡ true
      → set_has (concat batches) key ≡ true
  pub scan_ends :
      (store : List String) (pattern : String) (batches : List (List String))
      → Iteration (scan store pattern) "0" batches
      → length batches ≤ pages store
  pub del_removes :
      (store keys left : List String) (key : String)
      → del store keys ≡ done left
      → set_has keys key ≡ true
      → set_has left key ≡ false
  pub del_only :
      (store keys left : List String) (key : String)
      → del store keys ≡ done left
      → set_has left key ≡ true
      → set_has store key ≡ true
