-- ===== src/Db/Pool/Capacity.antt =====
-- Every step of the pool keeps its bounds: the connections open or being opened, the slots that
-- are reserved, and no call waiting beside a connection or a slot that is free.
use dashboard_template_api.Common.{
  ◌&&◌, ℕ, zero, suc, ◌+◌, ◌≤◌, ◌≡◌, refl, Bool, true, false, none, some, List, [], ◌∷◌, ◌++◌,
  arith, length, length-append, get_elem?, Bool-cases, Option-cases, inl, inr,
}
use dashboard_template_api.Db.Pool.{
  Connection, Waiter, Opening, Pool, has_capacity, reserve, dispatch_from, dispatch, is_empty,
  find_idle, set_in_use, record_acquisition, enqueue, acquire, remove_at, give_back, enter_pool,
  opened, entered, opening_failed, is_current, is_connecting, connect_at,
}
use dashboard_template_api.Db.Pool.Lifecycle.{leave_queue}

pub record IsValid (p : Pool) : Type 0 where
  pub fits : length p.pool + p.creating ≤ p.max_connections
  pub slots : p.creating ≡ length p.openings
  pub busy : is_empty p.waiters ≡ false → find_idle p.pool ≡ none
  pub full : is_empty p.waiters ≡ false → p.max_connections ≤ length p.pool + p.creating

module _ (o : Opening) (p : Pool) where
  reserve-fits :
      has_capacity p ≡ true
      → length (reserve o p).pool + (reserve o p).creating ≤ (reserve o p).max_connections
  reserve-fits h = ground arith

  reserve-slots :
      p.creating ≡ length p.openings → (reserve o p).creating ≡ length (reserve o p).openings
  reserve-slots h = ground (arith, length-append p.openings (o ∷ []))

pub dispatch_from-IsValid :
    (ws : List Waiter) (p : Pool)
    → length p.pool + p.creating ≤ p.max_connections
    → p.creating ≡ length p.openings
    → (is_empty ws ≡ false → find_idle p.pool ≡ none)
    → IsValid (dispatch_from ws p)
unfolding dispatch_from
dispatch_from-IsValid [] p f s b = record { fits = f; slots = s; busy = λ h. cc; full = λ h. cc }
dispatch_from-IsValid (w ∷ ws) p f s b =
    let o : Opening = record {
      caller = w.caller;
      enqueued_at = some w.enqueued_at;
      connected = none;
    } in
    elim (Bool-cases (has_capacity p)) [
      | inl room ↦ rw room (
          dispatch_from-IsValid ws (reserve o p) (reserve-fits o p room) (reserve-slots o p s)
            (λ h. b refl))
      | inr none_left ↦
          rw none_left
            (record { fits = f; slots = s; busy = λ h. b refl; full = λ h. ground arith })
    ]

find_idle-append :
    (xs : List Connection) (c : Connection)
    → find_idle xs ≡ none
    → c.in_use ≡ true
    → find_idle (xs ++ c ∷ []) ≡ none
unfolding find_idle
find_idle-append [] c h e = rw e
find_idle-append (x ∷ xs) c h e = ground (arith, find_idle-append xs c)

pub length-set_in_use :
    (b : Bool) (id : ℕ) (xs : List Connection) → length (set_in_use b id xs) ≡ length xs
unfolding set_in_use
length-set_in_use b id [] = refl
length-set_in_use b id (x ∷ xs) = ground (arith, length-set_in_use b id xs)

length-remove_at :
    {A : Type 0} (xs : List A) (k : ℕ) {x : A}
    → get_elem? xs k ≡ some x
    → length (remove_at xs k) + 1 ≡ length xs
length-remove_at [] k h = cc
length-remove_at (y ∷ xs) zero h = omega arith
length-remove_at (y ∷ xs) (suc k) h = omega (arith, length-remove_at xs k h)

length-connect_at : (c : ℕ × ℕ) (xs : List Opening) (k : ℕ) → length (connect_at c xs k) ≡ length xs
length-connect_at c [] k = refl
length-connect_at c (x ∷ xs) zero = refl
length-connect_at c (x ∷ xs) (suc k) = ground (arith, length-connect_at c xs k)

pub leave_queue-empty :
    (caller : ℕ) (ws : List Waiter) → is_empty (leave_queue caller ws) ≡ false → is_empty ws ≡ false
unfolding leave_queue
leave_queue-empty caller [] h = h
leave_queue-empty caller (w ∷ ws) h = refl

module _ (p : Pool) where
  record_acquisition-IsValid : (waited : ℕ) → IsValid p → IsValid (record_acquisition waited p)
  unfolding record_acquisition
  record_acquisition-IsValid waited v = record {
    fits = v.fits;
    slots = v.slots;
    busy = v.busy;
    full = v.full;
  }

  dispatch-IsValid :
      length p.pool + p.creating ≤ p.max_connections
      → p.creating ≡ length p.openings
      → (is_empty p.waiters ≡ false → find_idle p.pool ≡ none)
      → IsValid (dispatch p)
  unfolding dispatch
  dispatch-IsValid = dispatch_from-IsValid p.waiters p

module _ (p : Pool) where
  enqueue-IsValid :
      (caller now : ℕ) → IsValid p → find_idle p.pool ≡ none → IsValid (enqueue caller now p).0
  unfolding enqueue dispatch
  enqueue-IsValid caller now v none_idle = dispatch_from-IsValid _ _ v.fits v.slots (λ h. none_idle)

  acquire_idle-IsValid :
      (c : Connection)
      → IsValid p
      → is_empty p.waiters ≡ true
      → IsValid (record_acquisition 0 (record p { pool = set_in_use true c.id p.pool }))
  unfolding record_acquisition
  acquire_idle-IsValid c v empty = record {
    fits = omega (arith, v.fits, length-set_in_use true c.id p.pool);
    slots = v.slots;
    busy = λ h. cc;
    full = λ h. cc;
  }

  reserve-IsValid :
      (caller : ℕ)
      → IsValid p
      → is_empty p.waiters ≡ true
      → has_capacity p ≡ true
      → IsValid (reserve (record { caller = caller; enqueued_at = none; connected = none }) p)
  reserve-IsValid caller v empty room = record {
    fits = reserve-fits (record { caller = caller; enqueued_at = none; connected = none }) p room;
    slots =
        reserve-slots (record { caller = caller; enqueued_at = none; connected = none }) p v.slots;
    busy = λ h. cc;
    full = λ h. cc;
  }

  give_back-IsValid :
      (o : Opening) (k : ℕ)
      → IsValid p
      → get_elem? p.openings k ≡ some o
      → IsValid (dispatch (give_back k p))
  give_back-IsValid o k v found =
      let gone = length-remove_at p.openings k found in
      dispatch-IsValid (give_back k p) (omega arith) (omega (arith, v.slots)) v.busy

  enter_pool-IsValid :
      (o : Opening) (c : ℕ × ℕ) (k now : ℕ)
      → IsValid p
      → get_elem? p.openings k ≡ some o
      → IsValid (enter_pool o c k now p).0
  unfolding enter_pool
  enter_pool-IsValid o c k now v found =
      let n : Connection = record { id = c.0; instance_id = c.1; in_use = true } in
      let gone = length-remove_at p.openings k found in
      record_acquisition-IsValid _ _ (
        dispatch-IsValid (give_back k (record p { pool = p.pool ++ n ∷ [] }))
          (omega (arith, v.slots, length-append p.pool (n ∷ []))) (omega (arith, v.slots))
          (λ h. find_idle-append p.pool n (v.busy h) refl))

  pub acquire-IsValid :
      (is_aborted : Bool) (caller now : ℕ) → IsValid p → IsValid (acquire is_aborted caller now p).0
  unfolding acquire
  acquire-IsValid true caller now v = v
  acquire-IsValid false caller now v = elim (Bool-cases (is_empty p.waiters)) [
    | inr queue ↦ rw queue (enqueue-IsValid caller now v (v.busy queue))
    | inl empty ↦ elim (Option-cases (find_idle p.pool)) [
      | inr (c, found) ↦ rw (empty, found) (acquire_idle-IsValid c v empty)
      | inl none_idle ↦ elim (Bool-cases (has_capacity p)) [
        | inl room ↦ rw (empty, none_idle, room) (reserve-IsValid caller v empty room)
        | inr no_room ↦ rw (empty, none_idle, no_room) (enqueue-IsValid caller now v none_idle)
      ]
    ]
  ]

  pub opened-IsValid : (k inst id : ℕ) → IsValid p → IsValid (opened k inst id p)
  unfolding opened
  opened-IsValid k inst id v =
      elim (Bool-cases (is_connecting (get_elem? p.openings k) && is_current p.instance_id inst)) [
        | inr skipped ↦ rw skipped v
        | inl ends ↦ rw ends (record {
          fits = v.fits;
          slots = omega (arith, v.slots, length-connect_at (id, inst) p.openings k);
          busy = v.busy;
          full = v.full;
        })
      ]

  pub entered-IsValid : (k now : ℕ) → IsValid p → IsValid (entered k now p).0
  unfolding entered
  entered-IsValid k now v = elim (Option-cases (get_elem? p.openings k)) [
    | inl absent ↦ rw (absent, entered) v
    | inr (o, found) ↦ elim (Option-cases o.connected) [
      | inl connecting ↦ rw (found, entered, connecting) v
      | inr (c, has) ↦ rw (found, entered, has) (enter_pool-IsValid o c k now v found)
    ]
  ]

  pub opening_failed-IsValid : (k : ℕ) → IsValid p → IsValid (opening_failed k p).0
  unfolding opening_failed
  opening_failed-IsValid k v = elim (Option-cases (get_elem? p.openings k)) [
    | inl absent ↦ rw (absent, opening_failed) v
    | inr (o, found) ↦ elim (Option-cases o.connected) [
      | inl connecting ↦ rw (found, opening_failed, connecting) (give_back-IsValid o k v found)
      | inr (c, has) ↦ rw (found, opening_failed, has) v
    ]
  ]
