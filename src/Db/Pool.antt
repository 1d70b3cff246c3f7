-- ===== src/Db/Pool.antt =====
-- src/db/pool.ts: the acquisition side of `DuckDBPool`. A step is what runs between two awaits:
-- an acquisition, an opening that ends, a release, a timer, a reload's swap, the end of a drain.
-- A connection object is its number, with the number of the DuckDB instance that it belongs to; an
-- acquisition is the number of its call. `openings` lists the calls whose connection is being
-- opened, which the source keeps in the suspended promises beside the counter `creating`. DuckDB
-- itself, the SQL that a new instance runs and the logging are not modelled.
pub mod Lifecycle
pub mod Stats
pub mod Moved
pub mod Queue
pub mod Capacity
pub mod Holders
pub mod Tests
use dashboard_template_api.Common.{
  ℕ, zero, suc, ◌+◌, ◌-◌, String, Bool, true, false, not, Option, none, some, List, [], ◌∷◌, ◌++◌,
  map, ltb, ◌==◌, if◌then◌else◌, length, filter, get_elem?, all, ◌&&◌,
}

-- `ConnectionWrapper`
pub record Connection : Type 0 where
  pub id : ℕ
  pub instance_id : ℕ
  pub in_use : Bool

pub record Waiter : Type 0 where
  pub caller : ℕ
  pub enqueued_at : ℕ

-- A call of `openInReservedSlot`: by `acquire`, or by `dispatch` for a waiter of that time; with
-- the connection that `openConnection` ended with, if it has ended, and the instance of that one.
pub record Opening : Type 0 where
  pub caller : ℕ
  pub enqueued_at : Option ℕ
  pub connected : Option (ℕ × ℕ)

pub record AcquireCounters : Type 0 where
  pub total : ℕ
  pub queued : ℕ
  pub timeouts : ℕ
  pub aborted : ℕ

pub record Pool : Type 0 where
  pub max_connections : ℕ
  pub pool : List Connection
  pub draining : List Connection
  pub instance_id : Option ℕ
  pub creating : ℕ
  pub openings : List Opening
  pub waiters : List Waiter
  pub acquire_counters : AcquireCounters
  pub wait_samples : List ℕ

pub data Reason : Type 0 where
  timeout aborted closed open_failed : Reason

-- What a step does to the promise of a call.
pub data Outcome : Type 0 where
  resolved : ℕ → ℕ → Outcome
  rejected : ℕ → Reason → Outcome

abbrev pub Step : Type 0
Step = Pool × List Outcome

pub new_pool : ℕ → Pool
new_pool max_connections = record {
  max_connections = max_connections;
  pool = [];
  draining = [];
  instance_id = none;
  creating = 0;
  openings = [];
  waiters = [];
  acquire_counters = record { total = 0; queued = 0; timeouts = 0; aborted = 0 };
  wait_samples = [];
}

abbrev pub max_wait_samples : ℕ
max_wait_samples = 1000

abbrev shift : List ℕ → List ℕ
shift [] = []
shift (x ∷ xs) = xs

unfoldable pub record_acquisition : ℕ → Pool → Pool
record_acquisition waited p =
    let samples = p.wait_samples ++ waited ∷ [] in
    record p {
      acquire_counters = record p.acquire_counters { total = p.acquire_counters.total + 1 };
      wait_samples = if ltb max_wait_samples (length samples) then shift samples else samples;
    }

-- `hasCapacity`
abbrev pub has_capacity : Pool → Bool
has_capacity p = ltb (length p.pool + p.creating) p.max_connections

-- `this.creating++` and the call of `openInReservedSlot`
abbrev pub reserve : Opening → Pool → Pool
reserve o p = record p { creating = p.creating + 1; openings = p.openings ++ o ∷ [] }

-- the loop of `dispatch`, over the waiters left
unfoldable pub dispatch_from : List Waiter → Pool → Pool
dispatch_from [] p = record p { waiters = [] }
dispatch_from (w ∷ ws) p =
    let served = dispatch_from ws (
      reserve (record { caller = w.caller; enqueued_at = some w.enqueued_at; connected = none })
        p) in
    if has_capacity p then served else record p { waiters = w ∷ ws }

unfoldable pub dispatch : Pool → Pool
unfolding dispatch_from
dispatch p = dispatch_from p.waiters p

abbrev pub is_empty {ℓ} : {A : Type ℓ} → List A → Bool
is_empty [] = true
is_empty (x ∷ xs) = false

-- `this.pool.find((conn) => !conn.inUse)`
unfoldable pub find_idle : List Connection → Option Connection
find_idle [] = none
find_idle (c ∷ cs) = if c.in_use then find_idle cs else some c

-- `connection.inUse = …` on the first object with that identity
unfoldable pub set_in_use : Bool → ℕ → List Connection → List Connection
set_in_use b id [] = []
set_in_use b id (c ∷ cs) =
    if c.id == id then record c { in_use = b } ∷ cs else c ∷ set_in_use b id cs

-- `findIndex((conn) => conn.conn === connection.conn) >= 0`
unfoldable pub has_connection : ℕ → List Connection → Bool
has_connection id [] = false
has_connection id (c ∷ cs) = if c.id == id then true else has_connection id cs

unfoldable pub enqueue : ℕ → ℕ → Pool → Step
unfolding dispatch
enqueue caller now p = (
  dispatch (record p {
    acquire_counters = record p.acquire_counters { queued = p.acquire_counters.queued + 1 };
    waiters = p.waiters ++ record { caller = caller; enqueued_at = now } ∷ [];
  }),
  [],
)

-- `acquire`, up to its first await; `is_aborted` is the signal's state
unfoldable pub acquire : Bool → ℕ → ℕ → Pool → Step
unfolding enqueue find_idle set_in_use record_acquisition
acquire is_aborted caller now p =
    let open_new = reserve (record { caller = caller; enqueued_at = none; connected = none }) p in
    let fresh = if has_capacity p then (open_new, []) else enqueue caller now p in
    if is_aborted
    then (p, rejected caller aborted ∷ [])
    else if is_empty p.waiters
    then (elim (find_idle p.pool) [
      | some c ↦ (
        record_acquisition 0 (record p { pool = set_in_use true c.id p.pool }),
        resolved caller c.id ∷ [],
      )
      | none ↦ fresh
    ])
    else enqueue caller now p

-- the build that `initializeInstance` started ended: its instance replaces any that is there
unfoldable pub initialized : ℕ → Pool → Pool
initialized inst p = record p { instance_id = some inst }

abbrev pub remove_at {ℓ} : {A : Type ℓ} → List A → ℕ → List A
remove_at [] i = []
remove_at (x ∷ xs) zero = xs
remove_at (x ∷ xs) (suc i) = x ∷ remove_at xs i

-- `this.creating--` when an opening ends
abbrev pub give_back : ℕ → Pool → Pool
give_back k p = record p { creating = p.creating - 1; openings = remove_at p.openings k }

abbrev pub waited_since : Option ℕ → ℕ → ℕ
waited_since none now = 0
waited_since (some t) now = now - t

abbrev pub is_current : Option ℕ → ℕ → Bool
is_current none inst = false
is_current (some i) inst = i == inst

abbrev pub is_connecting : Option Opening → Bool
is_connecting none = false
is_connecting (some o) = elim o.connected [ none ↦ true | some c ↦ false ]

abbrev pub connect_at : ℕ × ℕ → List Opening → ℕ → List Opening
connect_at c [] k = []
connect_at c (o ∷ os) zero = record o { connected = some c } ∷ os
connect_at c (o ∷ os) (suc k) = o ∷ connect_at c os k

-- In the opening with number `k`, `instance.connect()` ended with connection `id` of instance
-- `inst`: `openConnection` returns it, unless another instance has replaced that one, and then the
-- connection is closed and the loop goes on.
unfoldable pub opened : ℕ → ℕ → ℕ → Pool → Pool
opened k inst id p =
    if is_connecting (get_elem? p.openings k) && is_current p.instance_id inst
    then record p { openings = connect_at (id, inst) p.openings k }
    else p

-- `openInReservedSlot` goes on after its await: the connection enters the pool, whatever the
-- instance is by then, and its call gets it. The metrics that the call writes when it goes on in
-- its turn are counted here.
unfoldable pub enter_pool : Opening → ℕ × ℕ → ℕ → ℕ → Pool → Step
unfolding dispatch record_acquisition
enter_pool o c k now p =
    let connection : Connection = record { id = c.0; instance_id = c.1; in_use = true } in
    let entered = record p { pool = p.pool ++ connection ∷ [] } in
    (
      record_acquisition (waited_since o.enqueued_at now) (dispatch (give_back k entered)),
      resolved o.caller c.0 ∷ [],
    )

unfoldable pub entered : ℕ → ℕ → Pool → Step
unfolding enter_pool
entered k now p = elim (get_elem? p.openings k) [
  | none ↦ (p, [])
  | some o ↦ elim o.connected [ none ↦ (p, []) | some c ↦ enter_pool o c k now p ]
]

-- The opening failed, with no connection: the slot goes to the next waiter.
unfoldable pub opening_failed : ℕ → Pool → Step
unfolding dispatch
opening_failed k p = elim (get_elem? p.openings k) [
  | none ↦ (p, [])
  | some o ↦ elim o.connected [
    | none ↦ (dispatch (give_back k p), rejected o.caller open_failed ∷ [])
    | some c ↦ (p, [])
  ]
]

-- the pool's own connection, handed to the head of the queue or marked free
unfoldable pub release_pooled : ℕ → ℕ → List Waiter → Pool → Step
unfolding set_in_use record_acquisition
release_pooled id now [] p = (record p { pool = set_in_use false id p.pool }, [])
release_pooled id now (w ∷ ws) p = (
  record_acquisition (now - w.enqueued_at) (record p { waiters = ws }),
  resolved w.caller id ∷ [],
)

unfoldable pub release : ℕ → ℕ → Pool → Step
unfolding release_pooled has_connection
release id now p =
    if has_connection id p.pool
    then release_pooled id now p.waiters p
    else (record p { draining = set_in_use false id p.draining }, [])
