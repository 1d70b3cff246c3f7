-- ===== src/Db/Pool/Moved.antt =====
-- An opened instance, a release, the timer, an abort, a reload and closing keep the pool valid.
use dashboard_template_api.Common.{
  none, ℕ, ◌≡◌, refl, false, some, List, [], ◌∷◌, arith, Bool-cases, inl, inr,
}
use dashboard_template_api.Db.Pool.{
  Connection, Waiter, Pool, reserve, dispatch_from, dispatch, find_idle, has_connection,
  record_acquisition, initialized, release_pooled, release,
}
use dashboard_template_api.Db.Pool.Lifecycle.{on_timeout, on_abort, reload, drain_closed, close}
use dashboard_template_api.Db.Pool.Capacity.{
  IsValid, dispatch_from-IsValid, length-set_in_use, leave_queue-empty,
}

module _ (p : Pool) where
  pub initialized-IsValid : (inst : ℕ) → IsValid p → IsValid (initialized inst p)
  unfolding initialized
  initialized-IsValid inst v = record {
    fits = v.fits;
    slots = v.slots;
    busy = v.busy;
    full = v.full;
  }

  release_pooled-IsValid :
      (id now : ℕ) (ws : List Waiter)
      → p.waiters ≡ ws
      → IsValid p
      → IsValid (release_pooled id now ws p).0
  unfolding release_pooled record_acquisition
  release_pooled-IsValid id now [] e v = record {
    fits = omega (arith, v.fits, length-set_in_use false id p.pool);
    slots = v.slots;
    busy = λ h. ground arith;
    full = λ h. ground arith;
  }
  release_pooled-IsValid id now (w ∷ ws) e v = record {
    fits = v.fits;
    slots = v.slots;
    busy = λ h. ground arith;
    full = λ h. ground arith;
  }

  pub release-IsValid : (id now : ℕ) → IsValid p → IsValid (release id now p).0
  unfolding release
  release-IsValid id now v = elim (Bool-cases (has_connection id p.pool)) [
    | inl pooled ↦ rw pooled (release_pooled-IsValid id now p.waiters refl v)
    | inr retired ↦
        rw retired (record { fits = v.fits; slots = v.slots; busy = v.busy; full = v.full })
  ]

  pub on_timeout-IsValid : (caller : ℕ) → IsValid p → IsValid (on_timeout caller p).0
  unfolding on_timeout
  on_timeout-IsValid caller v = record {
    fits = v.fits;
    slots = v.slots;
    busy = λ h. v.busy (leave_queue-empty caller p.waiters h);
    full = λ h. v.full (leave_queue-empty caller p.waiters h);
  }

  pub on_abort-IsValid : (caller : ℕ) → IsValid p → IsValid (on_abort caller p).0
  unfolding on_abort
  on_abort-IsValid caller v = record {
    fits = v.fits;
    slots = v.slots;
    busy = λ h. v.busy (leave_queue-empty caller p.waiters h);
    full = λ h. v.full (leave_queue-empty caller p.waiters h);
  }

  pub reload-IsValid : (inst : ℕ) → IsValid p → IsValid (reload inst p)
  unfolding reload dispatch find_idle
  reload-IsValid inst v =
      dispatch_from-IsValid p.waiters _ (omega (arith, v.fits)) v.slots (λ h. refl)

  pub drain_closed-IsValid : (old : List Connection) → IsValid p → IsValid (drain_closed old p)
  unfolding drain_closed
  drain_closed-IsValid old v = record {
    fits = v.fits;
    slots = v.slots;
    busy = v.busy;
    full = v.full;
  }

  pub close-IsValid : IsValid p → IsValid (close p).0
  unfolding close
  close-IsValid v = record {
    fits = omega (arith, v.fits);
    slots = v.slots;
    busy = λ h. cc;
    full = λ h. cc;
  }

-- `maxConnections` is never written.
pub max-dispatch_from :
    (ws : List Waiter) (p : Pool) → (dispatch_from ws p).max_connections ≡ p.max_connections
unfolding dispatch_from
max-dispatch_from [] p = refl
max-dispatch_from (w ∷ ws) p = ground (
  arith,
  max-dispatch_from ws (
      reserve (record { caller = w.caller; enqueued_at = some w.enqueued_at; connected = none }) p),
)
