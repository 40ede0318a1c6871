-- ===== src/Scheduler.antt =====
-- The task scheduler, crates/nectarpilot-core/src/scheduler.rs. Its set of active keys stands behind
-- a mutex, so each operation is one step. A profile id is a number.
pub mod Exclusion
pub mod Tests
use roblox.Prelude.{
  ℕ, zero, suc, Text, text_eq, Bool, true, false, ◌&&◌, ◌||◌, Option, none, some, List, [], ◌∷◌,
  ◌==◌, if◌then◌else◌, Result, ok, err, any,
}

pub record TaskKey : Type 0 where
  pub profile_id : ℕ
  pub task_name : Text

-- `==` of the derived `PartialEq`.
unfoldable pub key_eq : TaskKey → TaskKey → Bool
key_eq j k = j.profile_id == k.profile_id && text_eq j.task_name k.task_name

-- The `HashSet`, as a list with no key twice.
pub record TaskScheduler : Type 0 where
  pub active : List TaskKey

pub data ScheduleError : Type 0 where
  duplicate : (key : TaskKey) → ScheduleError

pub record TaskPermit : Type 0 where
  pub key : Option TaskKey

unfoldable pub is_active : TaskScheduler → TaskKey → Bool
is_active s key = any (λ k. key_eq key k) s.active

abbrev pub remove_key : TaskKey → List TaskKey → List TaskKey
remove_key key [] = []
remove_key key (k ∷ ks) = let rest = remove_key key ks in if key_eq key k then rest else k ∷ rest

unfoldable pub acquire : TaskScheduler → TaskKey → Result ScheduleError TaskPermit × TaskScheduler
unfolding is_active
acquire s key =
    if is_active s key
    then (err (duplicate key), s)
    else (ok (record { key = some key }), record { active = key ∷ s.active })

-- `impl Drop for TaskPermit`: the key is taken out of the permit first.
abbrev pub give_back : Option TaskKey → TaskScheduler → TaskScheduler
give_back none s = s
give_back (some key) s = record { active = remove_key key s.active }

unfoldable pub drop : TaskPermit → TaskScheduler → TaskScheduler
drop permit s = give_back permit.key s
