-- ===== src/Db/Pool/Holders/Moves.antt =====
-- Every step of the pool and its clients keeps the connections exclusive.
use dashboard_template_api.Common.{
  ◌&&◌, ℕ, suc, ◌+◌, ◌≤◌, ◌≡◌, refl, Bool, true, false, not, none, some, List, [], ◌∷◌, ◌++◌, arith,
  count, count-append, Bool-cases, Option-cases, inl, inr, get_elem?, map,
}
use dashboard_template_api.Db.Pool.{
  Connection, Waiter, Opening, Pool, rejected, resolved, aborted, closed, open_failed, has_capacity,
  reserve, dispatch, is_empty, find_idle, set_in_use, has_connection, record_acquisition, enqueue,
  acquire, initialized, give_back, enter_pool, opened, entered, opening_failed, is_connecting,
  connect_at, release_pooled, release, new_pool, is_current,
}
use dashboard_template_api.Db.Pool.Lifecycle.{on_timeout, on_abort, reload, drain_closed, close}
use dashboard_template_api.Db.Pool.Holders.{
  World, Move, acquires, initializes, opens, enters, fails, releases, times_out, aborts, reloads,
  drains, closes, Reach, here, then_move, holds, drop_hold, after, granted,
}
use dashboard_template_api.Db.Pool.Holders.Counts.{
  is_id, is_idle, is_opened, dispatch_from-same, count-filter-le, count-is_opened-reserve,
  count-is_opened-dispatch_from, count-is_opened-connect_at, count-is_opened-remove_at,
}
use dashboard_template_api.Db.Pool.Holders.Exclusive.{
  IsExclusive, same_connections, takes_idle, takes_opened, numbers, hands_over, gives_back,
}

module _ (p : Pool) where
  dispatch-same : ((dispatch p).pool ≡ p.pool) × ((dispatch p).draining ≡ p.draining)
  unfolding dispatch
  dispatch-same = dispatch_from-same p.waiters p

  count-is_opened-dispatch :
      (id : ℕ) → count (is_opened id) (dispatch p).openings ≡ count (is_opened id) p.openings
  unfolding dispatch
  count-is_opened-dispatch id = count-is_opened-dispatch_from id p.waiters p

  enqueue-same :
      (caller now : ℕ)
      → ((enqueue caller now p).0.pool ≡ p.pool) × ((enqueue caller now p).0.draining ≡ p.draining)
  unfolding enqueue dispatch
  enqueue-same caller now = dispatch_from-same _ _

  count-is_opened-enqueue :
      (caller now id : ℕ)
      → count (is_opened id) (enqueue caller now p).0.openings ≡ count (is_opened id) p.openings
  unfolding enqueue dispatch
  count-is_opened-enqueue caller now id =
      count-is_opened-dispatch_from id
        (p.waiters ++ record { caller = caller; enqueued_at = now } ∷ [])
        (record p {
          acquire_counters = record p.acquire_counters { queued = p.acquire_counters.queued + 1 };
          waiters = p.waiters ++ record { caller = caller; enqueued_at = now } ∷ [];
        })

le_self : (n : ℕ) → n ≤ n
le_self n = omega arith

module _ (w : World) (v : IsExclusive w) where
  enqueues : (caller now : ℕ) → IsExclusive (after (enqueue caller now w.pool) w.held w.next)
  enqueues caller now =
      let (e, d) = enqueue-same w.pool caller now in
      same_connections w v (enqueue caller now w.pool) e d
        (λ id. omega (arith, count-is_opened-enqueue w.pool caller now id)) (unfold enqueue in refl)

  unchanged : IsExclusive (after (w.pool, []) w.held w.next)
  unchanged = same_connections w v (w.pool, []) refl refl (λ id. le_self _) refl

  acquire-IsExclusive :
      (b : Bool) (caller now : ℕ) → IsExclusive (after (acquire b caller now w.pool) w.held w.next)
  unfolding acquire
  acquire-IsExclusive true caller now =
      same_connections w v (w.pool, rejected caller aborted ∷ []) refl refl (λ id. le_self _) refl
  acquire-IsExclusive false caller now = elim (Bool-cases (is_empty w.pool.waiters)) [
    | inr queue ↦ rw queue (enqueues caller now)
    | inl empty ↦ elim (Option-cases (find_idle w.pool.pool)) [
      | inr (c, found) ↦
          rw (empty, found)
            (takes_idle w v c (resolved caller c.id ∷ [])
              (record_acquisition 0 (record w.pool { pool = set_in_use true c.id w.pool.pool }))
              found refl refl refl refl)
      | inl none_idle ↦ elim (Bool-cases (has_capacity w.pool)) [
        | inl room ↦
            rw (empty, none_idle, room)
              (same_connections w v
                (
                  reserve (record { caller = caller; enqueued_at = none; connected = none }) w.pool,
                  [],
                )
                refl refl (λ id. omega (arith, count-is_opened-reserve id caller none w.pool)) refl)
        | inr no_room ↦ rw (empty, none_idle, no_room) (enqueues caller now)
      ]
    ]
  ]

  opened-IsExclusive :
      (k inst : ℕ)
      → IsExclusive (record w { pool = opened k inst w.next w.pool; next = suc w.next })
  unfolding opened
  opened-IsExclusive k inst =
      elim (Bool-cases
        (is_connecting (get_elem? w.pool.openings k) && is_current w.pool.instance_id inst)) [
          | inr skipped ↦ rw skipped (numbers w v w.pool refl refl λ id. omega arith)
          | inl ends ↦ rw ends (
              numbers w v (record w.pool { openings = connect_at (w.next, inst) w.pool.openings k })
                refl refl (λ id. count-is_opened-connect_at id (w.next, inst) w.pool.openings k))
        ]

  enter_pool-IsExclusive :
      (o : Opening) (c : ℕ × ℕ) (k now : ℕ)
      → get_elem? w.pool.openings k ≡ some o
      → o.connected ≡ some c
      → IsExclusive (after (enter_pool o c k now w.pool) w.held w.next)
  enter_pool-IsExclusive o c k now found has =
      let new : Connection = record { id = c.0; instance_id = c.1; in_use = true } in
      let pushed : Pool = give_back k (record w.pool { pool = w.pool.pool ++ new ∷ [] }) in
      unfold enter_pool record_acquisition in
      takes_opened w v new (enter_pool o c k now w.pool) refl (dispatch-same pushed).0
        (dispatch-same pushed).1
        (λ id.
          rw count-is_opened-dispatch
            (ground (arith, count-is_opened-remove_at id w.pool.openings k o found, has)))
        refl

  entered-IsExclusive : (k now : ℕ) → IsExclusive (after (entered k now w.pool) w.held w.next)
  unfolding entered
  entered-IsExclusive k now = elim (Option-cases (get_elem? w.pool.openings k)) [
    | inl absent ↦ rw (absent, entered) unchanged
    | inr (o, found) ↦ elim (Option-cases o.connected) [
      | inl connecting ↦ rw (found, entered, connecting) unchanged
      | inr (c, has) ↦ rw (found, entered, has) (enter_pool-IsExclusive o c k now found has)
    ]
  ]

  opening_failed-IsExclusive : (k : ℕ) → IsExclusive (after (opening_failed k w.pool) w.held w.next)
  unfolding opening_failed
  opening_failed-IsExclusive k = elim (Option-cases (get_elem? w.pool.openings k)) [
    | inl absent ↦ rw (absent, opening_failed) unchanged
    | inr (o, found) ↦ elim (Option-cases o.connected) [
      | inr (c, has) ↦ rw (found, opening_failed, has) unchanged
      | inl connecting ↦
          let (e, d) = dispatch-same (give_back k w.pool) in
          rw (found, opening_failed, connecting)
            (same_connections w v
              (dispatch (give_back k w.pool), rejected o.caller open_failed ∷ []) e d
              (λ id. omega (
                arith,
                count-is_opened-dispatch (give_back k w.pool) id,
                count-is_opened-remove_at id w.pool.openings k o found,
              ))
              refl)
    ]
  ]

  release-IsExclusive :
      (id now : ℕ)
      → 1 ≤ holds id w.held
      → IsExclusive (after (release id now w.pool) (drop_hold id w.held) w.next)
  unfolding release
  release-IsExclusive id now has = elim (Bool-cases (has_connection id w.pool.pool)) [
    | inl pooled ↦ rw pooled (to_pool w.pool.waiters)
    | inr retired ↦ rw retired (
        gives_back w v id has (record w.pool { draining = set_in_use false id w.pool.draining }, [])
          (inr refl) (inr refl) refl refl)
  ]
    where
      to_pool :
          (ws : List Waiter)
          → IsExclusive (after (release_pooled id now ws w.pool) (drop_hold id w.held) w.next)
      to_pool [] =
          gives_back w v id has (release_pooled id now [] w.pool) (inl refl) (inl refl) refl refl
      to_pool (x ∷ ws) =
          hands_over w v id has (release_pooled id now (x ∷ ws) w.pool) refl refl refl refl

  reload-IsExclusive : (inst : ℕ) → IsExclusive (record w { pool = reload inst w.pool })
  unfolding reload dispatch
  reload-IsExclusive inst =
      let swapped : Pool = record w.pool {
        instance_id = some inst;
        draining = w.pool.draining ++ w.pool.pool;
        pool = [];
      } in
      let (e, d) = dispatch-same swapped in
      let kept = λ (id : ℕ). count-is_opened-dispatch_from id w.pool.waiters swapped in
      let moved = λ (id : ℕ). count-append (is_id id) w.pool.draining w.pool.pool in
      record {
        free = λ id. rw e (omega (arith, v.free id, kept id));
        unique = λ id. rw (e, d) (omega (arith, v.unique id, moved id, kept id));
        fresh =
            λ id h. rw (e, d) ((v.fresh id h).0, omega (arith, v.fresh id h, moved id, kept id));
      }

  drain_closed-IsExclusive :
      (old : List Connection) → IsExclusive (record w { pool = drain_closed old w.pool })
  unfolding drain_closed
  drain_closed-IsExclusive old =
      let left = λ (id : ℕ).
        count-filter-le id (λ c. not (has_connection c.id old)) (is_id id) w.pool.draining in
      record {
        free = v.free;
        unique = λ id. omega (arith, v.unique id, left id);
        fresh = λ id h. ((v.fresh id h).0, omega (arith, v.fresh id h, left id));
      }

granted-rejected :
    (ws : List Waiter) → granted (map (λ (x : Waiter). rejected x.caller closed) ws) ≡ []
granted-rejected [] = refl
granted-rejected (x ∷ ws) = granted-rejected ws

close-IsExclusive : (w : World) → IsExclusive w → IsExclusive (after (close w.pool) w.held w.next)
unfolding close
close-IsExclusive w v = record {
  free = λ id. rw (granted-rejected w.pool.waiters) (omega (arith, v.free id));
  unique = λ id. omega (arith, v.unique id);
  fresh =
      λ id h. rw (granted-rejected w.pool.waiters) ((v.fresh id h).0, omega (arith, v.fresh id h));
}

Move-IsExclusive : {w u : World} → Move w u → IsExclusive w → IsExclusive u
unfolding on_timeout on_abort initialized
Move-IsExclusive {w} (acquires b caller now) v = acquire-IsExclusive w v b caller now
Move-IsExclusive {w} (initializes inst) v =
    same_connections w v (initialized inst w.pool, []) refl refl (λ id. le_self _) refl
Move-IsExclusive {w} (opens k inst) v = opened-IsExclusive w v k inst
Move-IsExclusive {w} (enters k now) v = entered-IsExclusive w v k now
Move-IsExclusive {w} (fails k) v = opening_failed-IsExclusive w v k
Move-IsExclusive {w} (releases id now has) v = release-IsExclusive w v id now has
Move-IsExclusive {w} (times_out caller) v =
    same_connections w v (on_timeout caller w.pool) refl refl (λ id. le_self _) refl
Move-IsExclusive {w} (aborts caller) v =
    same_connections w v (on_abort caller w.pool) refl refl (λ id. le_self _) refl
Move-IsExclusive {w} (reloads inst) v = reload-IsExclusive w v inst
Move-IsExclusive {w} (drains old) v = drain_closed-IsExclusive w v old
Move-IsExclusive {w} closes v = close-IsExclusive w v

-- Whatever the environment does from a new pool, each connection that DuckDB opens being a new object,
-- and as long as the clients release only connections that they hold: a connection is held by one call at most, and then it neither is idle
-- in the pool nor waits in an opening to enter it; and no connection stands twice among the pooled,
-- the retired and the opened ones.
pub Reach-exclusive :
    (max_connections : ℕ) (w : World) (id : ℕ)
    → Reach max_connections w
    → (holds id w.held + count (is_idle id) w.pool.pool + count (is_opened id) w.pool.openings ≤ 1)
      × (count (is_id id) w.pool.pool
            + count (is_id id) w.pool.draining
            + count (is_opened id) w.pool.openings
          ≤ 1)
Reach-exclusive max_connections w id r = let v = keeps r in (v.free id, v.unique id)
  where
    keeps : {u : World} → Reach max_connections u → IsExclusive u
    keeps here =
        unfold new_pool in
        record { free = λ j. omega arith; unique = λ j. omega arith; fresh = λ j h. (refl, refl) }
    keeps (then_move r' m) = Move-IsExclusive m (keeps r')
