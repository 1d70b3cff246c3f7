-- ===== src/Db/Pool/Tests.antt =====
-- A small run of the pool, and its theorems at it.
use dashboard_template_api.Common.{
  true, some, ◌+◌, ◌≤◌, ◌≡◌, refl, false, [], ◌∷◌, ◌++◌, arith, length, count, map, ltb, ◌*◌, ◌/◌,
  ◌-◌, take, drop, min,
}
use dashboard_template_api.Db.Pool.{
  Pool, Waiter, resolved, new_pool, acquire, initialized, opened, entered, release, dispatch,
  rejected, closed,
}
use dashboard_template_api.Common.Sort.{sort, insert_sorted}
use dashboard_template_api.Db.Pool.Stats.{get_stats, wait_ms_of, get_stats_lem}
use dashboard_template_api.Db.Pool.Lifecycle.{reload, drain_closed, close, on_timeout}
use dashboard_template_api.Db.Pool.Capacity.{IsValid}
use dashboard_template_api.Db.Pool.Queue.{opening_of, spare, with_queue, dispatch_lem}
use dashboard_template_api.Db.Pool.Holders.{
  World, Reach, here, then_move, acquires, initializes, opens, enters, releases, after, holds,
  drop_hold, start,
}
use dashboard_template_api.Db.Pool.Holders.Counts.{is_id, is_idle, is_opened}
use dashboard_template_api.Db.Pool.Holders.Moves.{Reach-exclusive}

runs : Unit {0}
unfolding new_pool acquire initialized opened entered release reload dispatch on_timeout close
    drain_closed drop_hold
runs = tt

-- Two calls on a pool of one connection: the second waits.
abbrev asked : World
asked = after (acquire false 7 10 (start 1).pool) [] 0

abbrev ready : World
ready = record asked { pool = initialized 5 asked.pool }

abbrev opening : World
opening = record ready { pool = opened 0 5 0 ready.pool; next = 1 }

abbrev serving : World
serving = after (entered 0 12 opening.pool) opening.held 1

abbrev waiting : World
waiting = after (acquire false 8 15 serving.pool) serving.held 1

abbrev handed : World
handed = after (release 0 20 waiting.pool) (drop_hold 0 waiting.held) 1

handed-waiting :
    ((release 0 20 waiting.pool).1 ≡ resolved 8 0 ∷ [])
    × (handed.pool.waiters ≡ [])
    × (handed.held ≡ 0 ∷ [])
    × (handed.pool.wait_samples ≡ 0 ∷ 5 ∷ [])
unfolding runs
handed-waiting = (refl, refl, refl, refl)

Reach-handed : Reach 1 handed
unfolding runs
Reach-handed =
    then_move
      (then_move
        (then_move
          (then_move (then_move (then_move here (acquires false 7 10)) (initializes 5)) (opens 0 5))
          (enters 0 12))
        (acquires false 8 15))
      (releases 0 20 (omega arith))

-- A reload between the check of `openConnection` and the push: the connection of the instance that
-- is gone enters the live pool.
retired-entered :
    ((entered 0 12 (reload 6 opening.pool)).0.pool
      ≡ record { id = 0; instance_id = 5; in_use = true } ∷ [])
    × ((entered 0 12 (reload 6 opening.pool)).0.instance_id ≡ some 6)
unfolding runs
retired-entered = (refl, refl)

-- An initialization that ends after a reload puts its own instance in place of the reload's.
initialized-reload : (initialized 5 (reload 6 asked.pool)).instance_id ≡ some 5
unfolding runs
initialized-reload = refl

-- A reload empties the pool: a waiting call gets a slot for a connection of the new instance.
reload-waiting :
    ((reload 6 waiting.pool).creating ≡ 1)
    × ((reload 6 waiting.pool).waiters ≡ [])
    × (length (reload 6 waiting.pool).draining ≡ 1)
unfolding runs
reload-waiting = (refl, refl, refl)

timeout-waiting : (on_timeout 8 waiting.pool).0.waiters ≡ []
unfolding runs
timeout-waiting = refl

close-waiting : (close waiting.pool).1 ≡ rejected 8 closed ∷ []
unfolding runs
close-waiting = refl

Reach-exclusive_example :
    (holds 0 handed.held
        + count (is_idle 0) handed.pool.pool
        + count (is_opened 0) handed.pool.openings
      ≤ 1)
    × (count (is_id 0) handed.pool.pool
          + count (is_id 0) handed.pool.draining
          + count (is_opened 0) handed.pool.openings
        ≤ 1)
Reach-exclusive_example = Reach-exclusive 1 handed 0 Reach-handed

abbrev waiter : Waiter
waiter = record { caller = 8; enqueued_at = 15 }

-- The pool after the swap of a reload, with one call waiting.
abbrev swapped : Pool
swapped = record waiting.pool { pool = [] }

dispatch_lem_example :
    dispatch swapped
    ≡ with_queue swapped
        (swapped.creating + min (spare swapped) (length swapped.waiters))
        (swapped.openings ++ map opening_of (take (spare swapped) swapped.waiters))
        (drop (spare swapped) swapped.waiters)
dispatch_lem_example = dispatch_lem swapped

waiting-IsValid : IsValid waiting.pool
unfolding runs
waiting-IsValid = record {
  fits = omega arith;
  slots = refl;
  busy = λ h. refl;
  full = λ h. omega arith;
}

-- Three waits.
abbrev measured : Pool
measured = record serving.pool { wait_samples = 9 ∷ 1 ∷ 4 ∷ [] }

wait_ms_of-measured :
    (get_stats [] measured).wait_ms ≡ record { avg = 5; p95 = 9; max = 9; samples = 3 }
unfolding runs get_stats wait_ms_of sort insert_sorted
wait_ms_of-measured = refl

get_stats_lem_example :
    let stats = get_stats ("main" ∷ []) measured in
    (stats.available + stats.using ≡ stats.total)
    × (count (λ w. ltb stats.wait_ms.max w) measured.wait_samples ≡ 0)
    × (count (λ w. ltb stats.wait_ms.p95 w) measured.wait_samples
          + length measured.wait_samples * 95 / 100
        ≤ length measured.wait_samples - 1)
get_stats_lem_example = get_stats_lem ("main" ∷ []) measured
