-- ===== src/Export/ConcurrencyGate/Slots.antt =====
-- The counters of the gate against the slots that are still open, over whole histories.
use dashboard_template_api.Common.{
  ℕ, zero, suc, ◌+◌, ◌-◌, ◌≤◌, ◌≡◌, refl, String, Bool, true, false, not, ◌&&◌, Option, none, some,
  List, [], ◌∷◌, arith, leb, if◌then◌else◌, get_elem?, set, count, count-append, count-set,
  set_self, str_eq, eq_iff, Option-cases, inl, inr,
}
use dashboard_template_api.Common.Map.{lookup, lookup-insert, lookup-erase}
use dashboard_template_api.Export.ConcurrencyGate.{
  Slot, client, refused, GateRejection, active_count, return_slot, ExportConcurrencyGate, Exports,
  Event, acquire, release_slot, ok, new_gate, try_acquire, release, step, run,
}

abbrev pub is_open : Slot → Bool
is_open s = not s.released

abbrev pub is_open_of : String → Slot → Bool
is_open_of key s = str_eq s.client_key key && not s.released

-- A client with no open slot has no entry.
abbrev pub entry : ℕ → Option ℕ
entry zero = none
entry (suc n) = some (suc n)

pub record IsConsistent (x : Exports) : Type 0 where
  pub overall : x.gate.total ≡ count is_open x.slots
  pub each : (key : String) → lookup key x.gate.per_client ≡ entry (count (is_open_of key) x.slots)
  pub within_total : count is_open x.slots ≤ x.gate.max_total
  pub within_client : (key : String) → count (is_open_of key) x.slots ≤ x.gate.max_per_client

acquire-IsConsistent :
    (x : Exports) (key : String) → IsConsistent x → IsConsistent (step x (acquire key))
unfolding step try_acquire
acquire-IsConsistent x key c = record {
  overall = ground (arith, c.overall, count-append is_open x.slots new);
  each = λ k. ground (
    arith,
    c.each k,
    c.each key,
    eq_iff key k,
    lookup-insert key k (count (is_open_of key) x.slots + 1) x.gate.per_client,
    count-append (is_open_of k) x.slots new,
  );
  within_total = ground (arith, c.overall, c.within_total, count-append is_open x.slots new);
  within_client = λ k.
      ground (
        arith,
        c.each key,
        c.within_client k,
        eq_iff key k,
        count-append (is_open_of k) x.slots new,
      );
}
  where
    new : List Slot
    new = record { client_key = key; released = false } ∷ []

module _ (x : Exports) (i : ℕ) (s : Slot) (found : get_elem? x.slots i ≡ some s)
    (c : IsConsistent x) where
  abbrev closed : Slot
  closed = record { client_key = s.client_key; released = true }

  release_slot-IsConsistent : IsConsistent (return_slot (some s) i x)
  unfolding release
  release_slot-IsConsistent = record {
    overall =
        ground (
          arith,
          c.overall,
          set_self x.slots i s found,
          count-set is_open x.slots i s closed found,
        );
    each = λ k. ground (
      arith,
      c.each k,
      c.each s.client_key,
      eq_iff s.client_key k,
      set_self x.slots i s found,
      lookup-erase s.client_key k x.gate.per_client,
      lookup-insert s.client_key k (count (is_open_of s.client_key) x.slots - 1) x.gate.per_client,
      count-set (is_open_of k) x.slots i s closed found,
      count-set (is_open_of s.client_key) x.slots i s closed found,
    );
    within_total = ground (
      arith,
      c.overall,
      c.within_total,
      set_self x.slots i s found,
      count-set is_open x.slots i s closed found,
    );
    within_client = λ k. ground (
      arith,
      c.within_client k,
      set_self x.slots i s found,
      count-set (is_open_of k) x.slots i s closed found,
    );
  }

step-IsConsistent : (x : Exports) (e : Event) → IsConsistent x → IsConsistent (step x e)
step-IsConsistent x (acquire key) c = acquire-IsConsistent x key c
step-IsConsistent x (release_slot i) c = elim (Option-cases (get_elem? x.slots i)) [
  | inl absent ↦ unfold step in rw absent c
  | inr (s, found) ↦ unfold step in rw found (release_slot-IsConsistent x i s found c)
]

run_keeps : (x : Exports) (es : List Event) → IsConsistent x → IsConsistent (run x es)
unfolding run
run_keeps x [] c = c
run_keeps x (e ∷ es) c = run_keeps (step x e) es (step-IsConsistent x e c)

abbrev pub opened : ℕ → ℕ → Exports
opened max_per_client max_total = record { gate = new_gate max_per_client max_total; slots = [] }

-- After any sequence of requests and releases on a new gate, repeated releases included, the
-- global counter is the number of open slots, each client has an entry exactly when it has open
-- slots and the entry is their number, and no ceiling is exceeded.
pub run-IsConsistent :
    (max_per_client max_total : ℕ) (es : List Event)
    → IsConsistent (run (opened max_per_client max_total) es)
run-IsConsistent max_per_client max_total es = run_keeps (opened max_per_client max_total) es (
    unfold new_gate lookup in
    record {
      overall = refl;
      each = λ k. refl;
      within_total = omega arith;
      within_client = λ k. omega arith;
    })

-- In a consistent state a request is refused for the client exactly when its open slots reach
-- `max_per_client`, else for the total when all open slots reach `max_total`, and is granted a
-- slot of that client otherwise; `active_count` reports these numbers.
pub try_acquire_lem :
    (x : Exports) (key : String)
    → IsConsistent x
    → ((try_acquire x.gate key).1 ≡ (
        if leb x.gate.max_per_client (count (is_open_of key) x.slots)
        then refused client
        else if leb x.gate.max_total (count is_open x.slots)
        then refused GateRejection.total
        else ok (record { client_key = key; released = false })))
      × (active_count x.gate none ≡ count is_open x.slots)
      × (active_count x.gate (some key) ≡ count (is_open_of key) x.slots)
unfolding try_acquire active_count
try_acquire_lem x key c =
    (ground (arith, c.overall, c.each key), c.overall, ground (arith, c.each key))

get_elem?-set_self :
    (xs : List Slot) (i : ℕ) (s t : Slot)
    → get_elem? xs i ≡ some s
    → get_elem? (set xs i t) i ≡ some t
get_elem?-set_self [] i s t h = cc
get_elem?-set_self (x ∷ xs) zero s t h = refl
get_elem?-set_self (x ∷ xs) (suc i) s t h = get_elem?-set_self xs i s t h

released-release : (g : ExportConcurrencyGate) (s : Slot) → (release g s).1.released ≡ true
unfolding release
released-release g s = ground arith

release_of_released :
    (g : ExportConcurrencyGate) (s : Slot) → s.released ≡ true → release g s ≡ (g, s)
unfolding release
release_of_released g s h = ground arith

return_slot_released :
    (x : Exports) (i : ℕ) (s : Slot)
    → get_elem? x.slots i ≡ some s
    → s.released ≡ true
    → return_slot (get_elem? x.slots i) i x ≡ x
return_slot_released x i s found h =
    rw (found, release_of_released x.gate s h, set_self x.slots i s found)

-- Releasing a slot a second time changes nothing, whatever the state.
pub release_slot_idempotent :
    (x : Exports) (i : ℕ)
    → step (step x (release_slot i)) (release_slot i) ≡ step x (release_slot i)
unfolding step
release_slot_idempotent x i = elim (Option-cases (get_elem? x.slots i)) [
  | inl absent ↦ rw (absent, absent)
  | inr (s, found) ↦
      let (g, s') = release x.gate s in
      rw found (
        return_slot_released (record { gate = g; slots = set x.slots i s' }) i s'
          (get_elem?-set_self x.slots i s s' found) (released-release x.gate s))
]
