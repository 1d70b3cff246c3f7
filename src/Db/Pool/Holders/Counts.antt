-- ===== src/Db/Pool/Holders/Counts.antt =====
-- How the pool's operations move the counts of connections by their number.
use dashboard_template_api.Common.{
  zero, suc, none, false, Option, if◌then◌else◌, get_elem?, count-append, ℕ, ◌+◌, ◌≤◌, ◌≡◌, refl,
  ◌≢◌, Bool, true, not, ◌&&◌, some, List, [], ◌∷◌, arith, ◌==◌, count, filter,
}
use dashboard_template_api.Db.Pool.{
  Opening, remove_at, connect_at, Connection, Waiter, Pool, reserve, dispatch_from, find_idle,
  set_in_use,
}
use dashboard_template_api.Db.Pool.Holders.{holds, drop_hold}

abbrev pub is_id : ℕ → Connection → Bool
is_id id c = c.id == id

abbrev pub is_idle : ℕ → Connection → Bool
is_idle id c = c.id == id && not c.in_use

abbrev is_of : ℕ → Option (ℕ × ℕ) → Bool
is_of id none = false
is_of id (some c) = c.0 == id

-- An opening that has this connection.
abbrev pub is_opened : ℕ → Opening → Bool
is_opened id o = is_of id o.connected

-- Dispatching touches the queue and the openings alone, and the new openings have no connection.
pub dispatch_from-same :
    (ws : List Waiter) (p : Pool)
    → ((dispatch_from ws p).pool ≡ p.pool) × ((dispatch_from ws p).draining ≡ p.draining)
unfolding dispatch_from
dispatch_from-same [] p = (refl, refl)
dispatch_from-same (w ∷ ws) p = ground (arith, dispatch_from-same ws (reserve (waiting w) p))
  where
    waiting : Waiter → Opening
    waiting x = record { caller = x.caller; enqueued_at = some x.enqueued_at; connected = none }

pub count-is_opened-reserve :
    (id : ℕ) (caller : ℕ) (since : Option ℕ) (p : Pool)
    → count
        (is_opened id)
        (reserve (record { caller = caller; enqueued_at = since; connected = none }) p).openings
      ≡ count (is_opened id) p.openings
count-is_opened-reserve id caller since p = omega (arith, count-append (is_opened id) p.openings _)

pub count-is_opened-dispatch_from :
    (id : ℕ) (ws : List Waiter) (p : Pool)
    → count (is_opened id) (dispatch_from ws p).openings ≡ count (is_opened id) p.openings
unfolding dispatch_from
count-is_opened-dispatch_from id [] p = refl
count-is_opened-dispatch_from id (w ∷ ws) p = ground (
  arith,
  count-is_opened-dispatch_from id ws (
      reserve (record { caller = w.caller; enqueued_at = some w.enqueued_at; connected = none }) p),
  count-is_opened-reserve id w.caller (some w.enqueued_at) p,
)

module _ (id : ℕ) where
  pub count-is_idle-le : (xs : List Connection) → count (is_idle id) xs ≤ count (is_id id) xs
  count-is_idle-le [] = omega arith
  count-is_idle-le (x ∷ xs) = ground (arith, count-is_idle-le xs)

  pub count-is_id-set_in_use :
      (b : Bool) (j : ℕ) (xs : List Connection)
      → count (is_id id) (set_in_use b j xs) ≡ count (is_id id) xs
  unfolding set_in_use
  count-is_id-set_in_use b j [] = refl
  count-is_id-set_in_use b j (x ∷ xs) = ground (arith, count-is_id-set_in_use b j xs)

  pub count-is_idle-set_in_use_ne :
      (b : Bool) (j : ℕ) (xs : List Connection)
      → j ≢ id
      → count (is_idle id) (set_in_use b j xs) ≡ count (is_idle id) xs
  unfolding set_in_use
  count-is_idle-set_in_use_ne b j [] h = refl
  count-is_idle-set_in_use_ne b j (x ∷ xs) h = ground (arith, count-is_idle-set_in_use_ne b j xs h)

  -- Of at most one connection with that number, taking it leaves none idle.
  pub count-is_idle-set_in_use_self :
      (xs : List Connection)
      → count (is_id id) xs ≤ 1
      → count (is_idle id) (set_in_use true id xs) ≡ 0
  unfolding set_in_use
  count-is_idle-set_in_use_self [] h = refl
  count-is_idle-set_in_use_self (x ∷ xs) h =
      ground (arith, count-is_idle-set_in_use_self xs, count-is_idle-le xs)

  pub find_idle-counts :
      (xs : List Connection) (c : Connection)
      → find_idle xs ≡ some c
      → c.id ≡ id
      → 1 ≤ count (is_idle id) xs
  unfolding find_idle
  find_idle-counts [] c h e = cc
  find_idle-counts (x ∷ xs) c h e = ground (arith, find_idle-counts xs c)

  pub count-filter-le :
      (p q : Connection → Bool) (xs : List Connection) → count q (filter p xs) ≤ count q xs
  count-filter-le p q [] = omega arith
  count-filter-le p q (x ∷ xs) = ground (arith, count-filter-le p q xs)

  pub holds-drop_hold_self :
      (xs : List ℕ) → 1 ≤ holds id xs → holds id (drop_hold id xs) + 1 ≡ holds id xs
  unfolding drop_hold
  holds-drop_hold_self [] h = absurd (omega arith)
  holds-drop_hold_self (x ∷ xs) h = ground (arith, holds-drop_hold_self xs)

  pub holds-drop_hold_ne : (j : ℕ) (xs : List ℕ) → j ≢ id → holds id (drop_hold j xs) ≡ holds id xs
  unfolding drop_hold
  holds-drop_hold_ne j [] h = refl
  holds-drop_hold_ne j (x ∷ xs) h = ground (arith, holds-drop_hold_ne j xs h)

  -- An opening that leaves takes its connection along.
  pub count-is_opened-remove_at :
      (os : List Opening) (k : ℕ) (o : Opening)
      → get_elem? os k ≡ some o
      → count (is_opened id) (remove_at os k) + (if is_opened id o then 1 else 0)
        ≡ count (is_opened id) os
  count-is_opened-remove_at [] k o h = cc
  count-is_opened-remove_at (x ∷ os) zero o h = ground arith
  count-is_opened-remove_at (x ∷ os) (suc k) o h =
      ground (arith, count-is_opened-remove_at os k o h)

  pub count-is_opened-connect_at :
      (c : ℕ × ℕ) (os : List Opening) (k : ℕ)
      → count (is_opened id) (connect_at c os k)
        ≤ count (is_opened id) os + (if c.0 == id then 1 else 0)
  count-is_opened-connect_at c [] k = omega arith
  count-is_opened-connect_at c (x ∷ os) zero = ground arith
  count-is_opened-connect_at c (x ∷ os) (suc k) = ground (arith, count-is_opened-connect_at c os k)
