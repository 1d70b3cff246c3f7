-- ===== src/Db/Pool/Holders.antt =====
-- The pool with its clients: which connections are handed out, over every sequence of steps.
-- A client releases only a connection that it holds, and a new connection is a new object.
pub mod Counts
pub mod Exclusive
pub mod Moves
pub mod Bounds
use dashboard_template_api.Common.{
  ℕ, suc, ◌+◌, ◌≤◌, Bool, List, [], ◌∷◌, ◌++◌, ◌==◌, if◌then◌else◌, count,
}
use dashboard_template_api.Db.Pool.{
  Connection, Pool, Outcome, resolved, rejected, Step, new_pool, acquire, initialized, opened,
  entered, opening_failed, release,
}
use dashboard_template_api.Db.Pool.Lifecycle.{on_timeout, on_abort, reload, drain_closed, close}

-- The connections that the outcomes hand out.
abbrev pub granted : List Outcome → List ℕ
granted [] = []
granted (resolved caller id ∷ os) = id ∷ granted os
granted (rejected caller reason ∷ os) = granted os

-- `held` lists the connections handed out and not released; the connections opened so far have
-- numbers below `next`.
pub record World : Type 0 where
  pub pool : Pool
  pub held : List ℕ
  pub next : ℕ

abbrev pub holds : ℕ → List ℕ → ℕ
holds id held = count (λ x. x == id) held

unfoldable pub drop_hold : ℕ → List ℕ → List ℕ
drop_hold id [] = []
drop_hold id (x ∷ xs) = if x == id then xs else x ∷ drop_hold id xs

abbrev pub after : Step → List ℕ → ℕ → World
after (p, os) held next = record { pool = p; held = granted os ++ held; next = next }

pub data Move (w : World) : World → Type 0 where
  acquires :
      (b : Bool) (caller now : ℕ) → Move w (after (acquire b caller now w.pool) w.held w.next)
  initializes : (inst : ℕ) → Move w (record w { pool = initialized inst w.pool })
  opens : (k inst : ℕ) → Move w (record w { pool = opened k inst w.next w.pool; next = suc w.next })
  enters : (k now : ℕ) → Move w (after (entered k now w.pool) w.held w.next)
  fails : (k : ℕ) → Move w (after (opening_failed k w.pool) w.held w.next)
  releases :
      (id now : ℕ)
      → 1 ≤ holds id w.held
      → Move w (after (release id now w.pool) (drop_hold id w.held) w.next)
  times_out : (caller : ℕ) → Move w (after (on_timeout caller w.pool) w.held w.next)
  aborts : (caller : ℕ) → Move w (after (on_abort caller w.pool) w.held w.next)
  reloads : (inst : ℕ) → Move w (record w { pool = reload inst w.pool })
  drains : (old : List Connection) → Move w (record w { pool = drain_closed old w.pool })
  closes : Move w (after (close w.pool) w.held w.next)

abbrev pub start : ℕ → World
start max_connections = record { pool = new_pool max_connections; held = []; next = 0 }

pub data Reach (max_connections : ℕ) : World → Type 0 where
  here : Reach max_connections (start max_connections)
  then_move : {w v : World} → Reach max_connections w → Move w v → Reach max_connections v
