-- ===== src/Export/ConcurrencyGate.antt =====
-- src/export/concurrency-gate.ts: the ceilings on simultaneous exports, per client and overall.
-- The `release` closure of a granted slot is the slot itself: its client, and the `released` flag
-- that the closure captures.
pub mod Slots
pub mod Tests
use dashboard_template_api.Common.{
  ℕ, ◌+◌, ◌-◌, String, Bool, true, false, Option, none, some, List, [], ◌∷◌, ◌++◌, leb,
  if◌then◌else◌, get_elem?, set,
}
use dashboard_template_api.Common.Map.{Map, lookup, insert, erase}

pub data GateRejection : Type 0 where
  client total : GateRejection

pub record Slot : Type 0 where
  pub client_key : String
  pub released : Bool

pub data GateDecision : Type 0 where
  ok : Slot → GateDecision
  refused : GateRejection → GateDecision

pub record ExportConcurrencyGate : Type 0 where
  pub max_per_client : ℕ
  pub max_total : ℕ
  pub per_client : Map ℕ
  pub total : ℕ

abbrev pub get_or : Option ℕ → ℕ → ℕ
get_or none d = d
get_or (some n) d = n

pub new_gate : ℕ → ℕ → ExportConcurrencyGate
new_gate max_per_client max_total = record {
  max_per_client = max_per_client;
  max_total = max_total;
  per_client = [];
  total = 0;
}

unfoldable pub try_acquire : ExportConcurrencyGate → String → ExportConcurrencyGate × GateDecision
try_acquire g key =
    let current = get_or (lookup key g.per_client) 0 in
    if leb g.max_per_client current
    then (g, refused client)
    else if leb g.max_total g.total
    then (g, refused GateRejection.total)
    else (
      record g { per_client = insert key (current + 1) g.per_client; total = g.total + 1 },
      ok (record { client_key = key; released = false }),
    )

-- A call of the slot's `release`.
unfoldable pub release : ExportConcurrencyGate → Slot → ExportConcurrencyGate × Slot
release g slot =
    let key = slot.client_key in
    let current = get_or (lookup key g.per_client) 1 in
    if slot.released then (g, slot) else (
      record g {
        total = g.total - 1;
        per_client =
            if leb current 1 then erase key g.per_client else insert key (current - 1) g.per_client;
      },
      record slot { released = true },
    )

unfoldable pub active_count : ExportConcurrencyGate → Option String → ℕ
active_count g none = g.total
active_count g (some key) = get_or (lookup key g.per_client) 0

-- The gate with every slot that it has granted, oldest first.
pub record Exports : Type 0 where
  pub gate : ExportConcurrencyGate
  pub slots : List Slot

-- An export asks for a slot, or the slot with that number is released (once more, maybe).
pub data Event : Type 0 where
  acquire : String → Event
  release_slot : ℕ → Event

abbrev pub issue : ExportConcurrencyGate × GateDecision → List Slot → Exports
issue (g, ok slot) slots = record { gate = g; slots = slots ++ slot ∷ [] }
issue (g, refused _) slots = record { gate = g; slots = slots }

abbrev pub return_slot : Option Slot → ℕ → Exports → Exports
return_slot none i x = x
return_slot (some slot) i x =
    let (g, slot') = release x.gate slot in record { gate = g; slots = set x.slots i slot' }

unfoldable pub step : Exports → Event → Exports
step x (acquire key) = issue (try_acquire x.gate key) x.slots
step x (release_slot i) = return_slot (get_elem? x.slots i) i x

unfoldable pub run : Exports → List Event → Exports
run x [] = x
run x (e ∷ es) = run (step x e) es
