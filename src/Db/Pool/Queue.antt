-- ===== src/Db/Pool/Queue.antt =====
-- The FIFO queue of waiting acquisitions.
use mathlib.Core.List.{append_assoc, append-nil}
use dashboard_template_api.Common.{
  none, ℕ, zero, suc, ◌+◌, ◌-◌, min, ◌≡◌, refl, sym, true, false, some, List, [], ◌∷◌, ◌++◌, map,
  arith, length, take, drop, Bool-cases, inl, inr,
}
use dashboard_template_api.Db.Pool.{
  Pool, Waiter, Opening, has_capacity, reserve, is_empty, dispatch_from, dispatch, enqueue, acquire,
}
use dashboard_template_api.Db.Pool.Capacity.{IsValid}

-- The opening that `dispatch` makes for a waiter.
abbrev pub opening_of : Waiter → Opening
opening_of w = record { caller = w.caller; enqueued_at = some w.enqueued_at; connected = none }

-- The slots that are free.
abbrev pub spare : Pool → ℕ
spare p = p.max_connections - (length p.pool + p.creating)

module _ (w : Waiter) (ws : List Waiter) (p : Pool) where
  dispatch_from-room :
      has_capacity p ≡ true → dispatch_from (w ∷ ws) p ≡ dispatch_from ws (reserve (opening_of w) p)
  unfolding dispatch_from
  dispatch_from-room h = rw h

  dispatch_from-stop :
      has_capacity p ≡ false → dispatch_from (w ∷ ws) p ≡ record p { waiters = w ∷ ws }
  unfolding dispatch_from
  dispatch_from-stop h = rw h

  spare-reserve : has_capacity p ≡ true → spare p ≡ suc (spare (reserve (opening_of w) p))
  spare-reserve h = ground arith

  spare_none : has_capacity p ≡ false → spare p ≡ zero
  spare_none h = ground arith

take-nil : {A : Type 0} (n : ℕ) → take {A = A} n [] ≡ []
take-nil zero = refl
take-nil (suc n) = refl

drop-nil : {A : Type 0} (n : ℕ) → drop {A = A} n [] ≡ []
drop-nil zero = refl
drop-nil (suc n) = refl

-- A pool that differs in its queue and its openings.
abbrev pub with_queue : Pool → ℕ → List Opening → List Waiter → Pool
with_queue p creating openings waiters = record p {
  creating = creating;
  openings = openings;
  waiters = waiters;
}

dispatch_from_lem :
    (ws : List Waiter) (p : Pool)
    → dispatch_from ws p
      ≡ with_queue p
          (p.creating + min (spare p) (length ws))
          (p.openings ++ map opening_of (take (spare p) ws))
          (drop (spare p) ws)
unfolding dispatch_from
dispatch_from_lem [] p =
    let c : p.creating ≡ p.creating + min (spare p) 0 = omega arith in
    rw (take-nil, drop-nil) (λ i. with_queue p (c i) (sym (append-nil p.openings) i) [])
dispatch_from_lem (w ∷ ws) p = elim (Bool-cases (has_capacity p)) [
  | inr full ↦
      let c : p.creating ≡ p.creating + min 0 (length (w ∷ ws)) = omega arith in
      rw (dispatch_from-stop w ws p full, spare_none w ws p full)
        (λ i. with_queue p (c i) (sym (append-nil p.openings) i) (w ∷ ws))
  | inl room ↦
      let q = reserve (opening_of w) p in
      let c : p.creating + 1 + min (spare q) (length ws)
          ≡ p.creating + min (suc (spare q)) (length (w ∷ ws)) =
        omega arith in
      rw (dispatch_from-room w ws p room, dispatch_from_lem ws q, spare-reserve w ws p room)
        (λ i.
          with_queue p (c i)
            (append_assoc p.openings (opening_of w ∷ []) (map opening_of (take (spare q) ws)) i)
            (drop (spare q) ws))
]

-- Dispatching opens a connection for the calls at the head of the queue, in their order, one for
-- each free slot while calls wait; the others keep their places, and nothing else changes.
pub dispatch_lem :
    (p : Pool)
    → dispatch p
      ≡ with_queue p
          (p.creating + min (spare p) (length p.waiters))
          (p.openings ++ map opening_of (take (spare p) p.waiters))
          (drop (spare p) p.waiters)
unfolding dispatch
dispatch_lem p = dispatch_from_lem p.waiters p

append_nonempty : {A : Type 0} (xs : List A) (x : A) → is_empty (xs ++ x ∷ []) ≡ false
append_nonempty [] x = refl
append_nonempty (y ∷ xs) x = refl

dispatch_from_full :
    (ws : List Waiter) (p : Pool)
    → has_capacity p ≡ false
    → is_empty ws ≡ false
    → dispatch_from ws p ≡ record p { waiters = ws }
dispatch_from_full [] p full h = cc
dispatch_from_full (w ∷ ws) p full h = dispatch_from-stop w ws p full

no_capacity : (p : Pool) → IsValid p → is_empty p.waiters ≡ false → has_capacity p ≡ false
no_capacity p v queue = ground (arith, v.full)

-- While calls wait in a valid pool, a new acquisition takes nothing: it goes to the tail of the
-- queue, and only the counter of queued calls moves beside.
pub acquire-waits :
    (p : Pool) (caller now : ℕ)
    → IsValid p
    → is_empty p.waiters ≡ false
    → acquire false caller now p ≡ (
      record p {
        waiters = p.waiters ++ record { caller = caller; enqueued_at = now } ∷ [];
        acquire_counters = record p.acquire_counters { queued = p.acquire_counters.queued + 1 };
      },
      [],
    )
unfolding acquire
acquire-waits p caller now v queue = rw queue (
    unfold enqueue dispatch in
    rw (dispatch_from_full _ _ (no_capacity p v queue) (append_nonempty p.waiters _)))
