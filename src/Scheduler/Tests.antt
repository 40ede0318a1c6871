-- ===== src/Scheduler/Tests.antt =====
-- A history of the scheduler of crates/nectarpilot-core/src/scheduler.rs.
use roblox.Prelude.{codes, true, List, [], ◌∷◌, ◌≡◌, ◌↔◌, refl, some, ok, if◌then◌else◌, text_eq}
use roblox.Scheduler.{TaskKey, key_eq, is_active, acquire, drop}
use roblox.Scheduler.Exclusion.{
  Event, acquires, drops, run, start, permits_for, run_exclusive, acquire_free,
}

abbrev gather_key : TaskKey
gather_key = record { profile_id = 0; task_name = codes "gather" }

-- The second acquisition is refused, the third follows the drop.
abbrev history : List Event
history = acquires gather_key ∷ acquires gather_key ∷ drops 0 ∷ acquires gather_key ∷ []

history_active : is_active (run history start).scheduler gather_key ≡ true
unfolding is_active acquire drop key_eq text_eq
history_active = refl

run_exclusive_example :
    permits_for gather_key (run history start).permits
    ≡ (if is_active (run history start).scheduler gather_key then 1 else 0)
run_exclusive_example = run_exclusive history gather_key

acquire_free_example :
    ((acquire (run history start).scheduler gather_key).0 ≡ ok (record { key = some gather_key }))
    ↔ (permits_for gather_key (run history start).permits ≡ 0)
acquire_free_example = acquire_free history gather_key
