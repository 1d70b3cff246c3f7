-- ===== src/Cache/Invalidation/Removed.antt =====
-- What an invalidation removes.
use Prim.Native.Char.{code}
use Prim.Native.String.{String, ◌++◌}
use mathlib.Core.List.{append-nil, map-append}
use dashboard_template_api.Common.{
  ℕ, zero, suc, ◌≤◌, length, sym, ◌≡◌, refl, ap, ◌∙◌, inl, inr, Bool, true, false, not, ◌&&◌, List,
  [], ◌∷◌, map, arith, &&_split, ◌==◌, eq_iff, str_eq, Bool-cases,
}
use dashboard_template_api.Common.Result.{
  done, ◌>>=◌, Ensures, Ensures-done, Ensures-of, Ensures_at,
}
use dashboard_template_api.Utils.FilterTree.Typing.{set_has}
use dashboard_template_api.Cache.Keys.{split_targets}
use dashboard_template_api.Cache.Redis.{Redis, concat, Iteration, last, further}
use dashboard_template_api.Cache.Invalidation.{
  escape_glob, without_prefix, scan_from, scan_keys, delete, flush,
}
use dashboard_template_api.Cache.Invalidation.Patterns.{matches-escape_glob, without_prefix-append}

-- The images of a list under the client's prefix.
set_has-map :
    (prefix : String) (keys : List String) (key : String)
    → set_has keys key ≡ true
    → set_has (map (λ k. prefix ++ k) keys) (prefix ++ key) ≡ true
set_has-map prefix [] key h = cc
set_has-map prefix (k ∷ keys) key h = elim (Bool-cases (str_eq k key)) [
  | inl same ↦ ground (
    arith,
    (eq_iff (prefix ++ k) (prefix ++ key)).1 (ap (λ x. prefix ++ x) ((eq_iff k key).0 same)),
  )
  | inr other ↦ ground (arith, set_has-map prefix keys key, other)
]

set_has-without_prefix :
    (prefix : String) (keys : List String) (key : String)
    → set_has keys (prefix ++ key) ≡ true
    → set_has (map (without_prefix prefix) keys) key ≡ true
set_has-without_prefix prefix [] key h = cc
set_has-without_prefix prefix (k ∷ keys) key h = elim (Bool-cases (str_eq k (prefix ++ key))) [
  | inl same ↦ ground (
    arith,
    (eq_iff (without_prefix prefix k) key).1 (
        ap (without_prefix prefix) ((eq_iff k (prefix ++ key)).0 same)
        ∙ without_prefix-append prefix key),
  )
  | inr other ↦ ground (arith, set_has-without_prefix prefix keys key, other)
]

not-true : (b : Bool) → not b ≡ true → b ≡ false
not-true b h = ground arith

-- No separator of targets.
unfoldable pub is_single : String → Bool
is_single String.[] = true
is_single (String.◌∷◌ c s) = not (code c == b'+') && is_single s

pub split_targets-single : (s : String) → is_single s ≡ true → split_targets s ≡ s ∷ []
unfolding split_targets is_single
split_targets-single String.[] h = refl
split_targets-single (String.◌∷◌ c s) h =
    let (other, rest) = &&_split (not (code c == b'+')) (is_single s) h in
    rw (not-true _ other, split_targets-single s rest) refl

module _ (redis : Redis) (key_prefix : String) where
  delete-removes :
      (store keys : List String) (key : String)
      → set_has keys key ≡ true
      → Ensures
          (λ left. set_has left (key_prefix ++ key) ≡ false)
          (delete redis key_prefix store keys)
  delete-removes store [] key h = cc
  delete-removes store (k ∷ keys) key h = Ensures-of _ _ λ left done_left.
      redis.del_removes store _ left (key_prefix ++ key) done_left
        (set_has-map key_prefix (k ∷ keys) key h)

  -- A key that is not there does not come back.
  delete-only :
      (store keys : List String) (key : String)
      → set_has store key ≡ false
      → Ensures (λ left. set_has left key ≡ false) (delete redis key_prefix store keys)
  delete-only store [] key h = Ensures-done String _ store h
  delete-only store (k ∷ keys) key h = Ensures-of _ _ λ left done_left.
      elim (Bool-cases (set_has left key)) [
        | inl there ↦ absurd (cc (h, redis.del_only store _ left key done_left there))
        | inr gone ↦ gone
      ]

  -- The loop collects every batch of the iteration.
  scan_from-done :
      (store : List String) (pattern cursor : String) (batches : List (List String)) (fuel : ℕ)
      → Iteration (redis.scan store pattern) cursor batches
      → length batches ≤ fuel
      → scan_from redis key_prefix store pattern fuel cursor
        ≡ done (map (without_prefix key_prefix) (concat batches))
  unfolding scan_from ◌>>=◌
  scan_from-done store pattern cursor batches zero (last e) h = absurd (omega arith)
  scan_from-done store pattern cursor batches zero (further e more it) h = absurd (omega arith)
  scan_from-done store pattern cursor batches (suc fuel) (last {batch} e) h = rw (e, append-nil)
  scan_from-done store pattern cursor batches (suc fuel)
        (further {next} {batch} {batches = rest} e more it) h =
      let tail = scan_from-done store pattern next rest fuel it (omega arith) in
      rw (e, more, tail) (ap done (sym (map-append _ batch (concat rest))))

  abbrev pub full_pattern : String → String
  full_pattern pattern = escape_glob key_prefix ++ pattern

  -- The keys of an iteration, as the client names them.
  abbrev pub scanned_keys : List (List String) → List String
  scanned_keys batches = map (without_prefix key_prefix) (concat batches)

  scan_keys-done :
      (store : List String) (pattern : String) (batches : List (List String))
      → Iteration (redis.scan store (full_pattern pattern)) "0" batches
      → scan_keys redis key_prefix store pattern ≡ done (scanned_keys batches)
  unfolding scan_keys
  scan_keys-done store pattern batches it =
      scan_from-done store (full_pattern pattern) "0" batches (redis.pages store) it
        (redis.scan_ends store (full_pattern pattern) batches it)

  scanned_keys-has :
      (store : List String) (pattern key : String) (batches : List (List String))
      → Iteration (redis.scan store (full_pattern pattern)) "0" batches
      → set_has store (key_prefix ++ key) ≡ true
      → redis.glob.matches pattern key ≡ true
      → set_has (scanned_keys batches) key ≡ true
  scanned_keys-has store pattern key batches it there matching =
      set_has-without_prefix key_prefix (concat batches) key (
        redis.scan_complete store (full_pattern pattern) (key_prefix ++ key) batches it there
          (matches-escape_glob redis.glob key_prefix pattern key ∙ matching))

  pub flush-removes :
      (store left : List String) (pattern key : String) (batches : List (List String))
      → redis.glob.matches pattern key ≡ true
      → Iteration (redis.scan store (full_pattern pattern)) "0" batches
      → delete redis key_prefix store (scanned_keys batches) ≡ done left
      → (flush redis key_prefix pattern store ≡ done left)
        × (set_has left (key_prefix ++ key) ≡ false)
  flush-removes store left pattern key batches matching it deleted = (
    unfold flush ◌>>=◌ in rw (scan_keys-done store pattern batches it) deleted,
    elim (Bool-cases (set_has store (key_prefix ++ key))) [
      | inl there ↦
          Ensures_at _ _ left
            (delete-removes store (scanned_keys batches) key
              (scanned_keys-has store pattern key batches it there matching))
            deleted
      | inr gone ↦
          Ensures_at _ _ left (delete-only store (scanned_keys batches) (key_prefix ++ key) gone)
            deleted
    ],
  )
