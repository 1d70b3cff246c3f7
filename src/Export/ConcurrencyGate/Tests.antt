-- ===== src/Export/ConcurrencyGate/Tests.antt =====
-- The gate run on small histories, and its theorems at them.
use dashboard_template_api.Common.{◌≡◌, refl, none, some, List, [], ◌∷◌}
use dashboard_template_api.Common.Map.{lookup, insert, erase}
use dashboard_template_api.Export.ConcurrencyGate.{
  Exports, Event, acquire, release_slot, refused, client, GateRejection, new_gate, try_acquire,
  release, active_count, step, run,
}
use dashboard_template_api.Export.ConcurrencyGate.Slots.{IsConsistent, opened, run-IsConsistent}

gate : Unit {0}
unfolding run step try_acquire release active_count new_gate lookup insert erase
gate = tt

abbrev busy : List Event
busy =
    acquire "a"
    ∷ acquire "a"
    ∷ acquire "a"
    ∷ acquire "b"
    ∷ acquire "c"
    ∷ release_slot 0
    ∷ release_slot 0
    ∷ acquire "c"
    ∷ []

abbrev after : Exports
after = run (opened 2 3) busy

after_counts :
    (active_count after.gate none ≡ 3)
    × (active_count after.gate (some "a") ≡ 1)
    × (lookup "c" after.gate.per_client ≡ some 1)
unfolding gate
after_counts = (refl, refl, refl)

refusals :
    ((try_acquire after.gate "b").1 ≡ refused GateRejection.total)
    × ((try_acquire (run (opened 1 9) busy).gate "b").1 ≡ refused client)
unfolding gate
refusals = (refl, refl)

run-IsConsistent_example : IsConsistent after
run-IsConsistent_example = run-IsConsistent 2 3 busy
