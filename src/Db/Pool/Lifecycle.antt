-- ===== src/Db/Pool/Lifecycle.antt =====
-- src/db/pool.ts: a waiting call that leaves the queue, the reload, the draining of old connections and
-- the end of the pool.
use dashboard_template_api.Common.{
  ℕ, ◌+◌, Bool, false, not, none, some, List, [], ◌∷◌, ◌++◌, map, ltb, ◌==◌, if◌then◌else◌, filter,
  all,
}
use dashboard_template_api.Db.Pool.{
  Connection, Waiter, Pool, Step, dispatch, has_connection, timeout, aborted, closed, rejected,
}

-- `leaveQueue`
unfoldable pub leave_queue : ℕ → List Waiter → List Waiter
leave_queue caller [] = []
leave_queue caller (w ∷ ws) = if w.caller == caller then ws else w ∷ leave_queue caller ws

-- The timer or the abort listener of a waiting call; `cleanup` has removed those of any other.
unfoldable pub on_timeout : ℕ → Pool → Step
unfolding leave_queue
on_timeout caller p = (
  record p {
    waiters = leave_queue caller p.waiters;
    acquire_counters = record p.acquire_counters { timeouts = p.acquire_counters.timeouts + 1 };
  },
  rejected caller timeout ∷ [],
)

unfoldable pub on_abort : ℕ → Pool → Step
unfolding leave_queue
on_abort caller p = (
  record p {
    waiters = leave_queue caller p.waiters;
    acquire_counters = record p.acquire_counters { aborted = p.acquire_counters.aborted + 1 };
  },
  rejected caller aborted ∷ [],
)

-- `reload`, once the new instance is built
unfoldable pub reload : ℕ → Pool → Pool
unfolding dispatch
reload inst p =
    dispatch (record p { instance_id = some inst; draining = p.draining ++ p.pool; pool = [] })

-- `drainAndClose` waits while one of its connections is in use and the time is not up …
unfoldable pub drain_waits : List Connection → ℕ → ℕ → Bool
drain_waits old deadline now = if all (λ c. not c.in_use) old then false else ltb now deadline

-- … and then takes them out of `draining`.
unfoldable pub drain_closed : List Connection → Pool → Pool
unfolding has_connection
drain_closed old p = record p { draining = filter (λ c. not (has_connection c.id old)) p.draining }

-- `close`
unfoldable pub close : Pool → Step
close p = (
  record p { waiters = []; pool = []; draining = []; instance_id = none },
  map (λ (w : Waiter). rejected w.caller closed) p.waiters,
)
