-- ===== src/Daemon.antt =====
-- How the engine of crates/nectarpilot-core/src/engine.rs starts a worker, and its safe mode: `start`,
-- `record_daemon_crash` and the arm of `dispatch` for `AcknowledgeAttention`. The store is a record
-- of functions on the engine's world. A profile is known by its id.
pub mod SafeMode
pub mod Commands
pub mod Lock
pub mod Acknowledge
pub mod Tests
use roblox.Prelude.{
  ℕ, ◌*◌, codes, Bool, true, false, not, ◌&&◌, ◌||◌, Option, none, some, List, [], length,
  if◌then◌else◌, Result, ok, err,
}
use roblox.Prelude.Early.{Early, ◌>>=◌, ◌>>◌}
use roblox.Contracts.{RunState, idle, faulted}
use roblox.CrashGuard.{CrashLoopGuard, record_crash, clear}
use roblox.Scheduler.{TaskKey, TaskScheduler, TaskPermit, ScheduleError, duplicate, acquire, drop}
use roblox.Engine.{
  AutomationError, safe_mode, invalid_state, worker_already_running, safe_mode_entered, snapshot,
  Engine, same_state, emit, transition,
}

-- The field of a profile that the worker reads.
pub record Profile : Type 0 where
  pub reconnect_enabled : Bool

pub record Daemon (W : Type 0) : Type 0 where
  pub engine : Engine W
  pub scheduler : TaskScheduler
  -- Whether `worker` holds a handle that is not finished.
  pub worker_running : Bool
  pub profile_id : Option ℕ
  pub run_id : ℕ
  pub crash_guard : CrashLoopGuard
  pub safe_mode : Bool

-- The SQLite store, new run ids, and the errors whose text prints an id.
pub record Store (W : Type 0) : Type 0 where
  pub load_profile : ℕ → W → Result AutomationError (Option Profile) × W
  pub set_selected_profile : ℕ → W → Result AutomationError (Unit {0}) × W
  pub set_crash_guard_state : Bool → List ℕ → W → Result AutomationError (Unit {0}) × W
  pub now_v7 : W → ℕ × W
  pub profile_not_found : ℕ → AutomationError
  pub already_scheduled : TaskKey → AutomationError

abbrev pub M : Type 0 → Type 0 → Type 0
M W A = Early (Daemon W) AutomationError A

abbrev pub unless : {W : Type 0} → Bool → AutomationError → M W (Unit {0})
unless good e d = (if good then ok tt else err e, d)

-- A call of the store.
abbrev pub ask : {W A : Type 0} → (W → Result AutomationError A × W) → M W A
ask call d =
    let (answer, w) = call d.engine.world in
    (answer, record d { engine = record (d.engine) { world = w } })

abbrev pub on_engine : {W : Type 0} → (Engine W → Engine W) → M W (Unit {0})
on_engine f d = (ok tt, record d { engine = f d.engine })

abbrev pub automation_run : ℕ → TaskKey
automation_run id = record { profile_id = id; task_name = codes "automation_run" }

module _ {W : Type 0} (store : Store W) where
  -- `.load_profile(profile_id)?.ok_or(ProfileNotFound)?`
  abbrev pub found : ℕ → Option Profile → M W Profile
  found id none d = (err (store.profile_not_found id), d)
  found id (some profile) d = (ok profile, d)

  abbrev pub scheduled : Result ScheduleError TaskPermit → Result AutomationError TaskPermit
  scheduled (ok permit) = ok permit
  scheduled (err (duplicate key)) = err (store.already_scheduled key)

  abbrev pub with_answer :
      Result ScheduleError TaskPermit × TaskScheduler
      → Daemon W
      → Result AutomationError TaskPermit × Daemon W
  with_answer (r, scheduler) d = (scheduled r, record d { scheduler = scheduler })

  unfoldable pub take_permit : ℕ → M W TaskPermit
  take_permit id d = with_answer (acquire d.scheduler (automation_run id)) d

  -- An early return here drops the permit.
  unfoldable pub refuse_second : TaskPermit → M W (Unit {0})
  refuse_second permit d =
      if d.worker_running
      then (err worker_already_running, record d { scheduler = drop permit d.scheduler })
      else (ok tt, d)

  -- The state that a new worker starts in.
  unfoldable pub spawn : ℕ → M W (Unit {0})
  spawn id d =
      let (run, w) = store.now_v7 d.engine.world in
      (
        ok tt,
        record d {
          profile_id = some id;
          run_id = run;
          worker_running = true;
          engine = transition RunState.preflight (codes "start requested") (record (d.engine) {
            world = w;
            cancellation = true;
            pause_sender = true;
            active_task = some (codes "preflight");
          });
        },
      )

  -- It answers with what the new worker is given.
  unfoldable pub start : ℕ → M W (Profile × TaskPermit)
  start id = do
    λ d. unless (not d.safe_mode) safe_mode d
    λ d. unless (same_state d.engine.state idle) (invalid_state d.engine.state (codes "start")) d
    loaded ← ask (store.load_profile id)
    profile ← found id loaded
    ask (store.set_selected_profile id)
    permit ← take_permit id
    refuse_second permit
    spawn id
    λ d. (ok (profile, permit), d)

  -- What follows once the store has the new window.
  unfoldable pub enter_safe_mode : Bool → M W Bool
  enter_safe_mode tripped d =
      let d' = record d { safe_mode = d.safe_mode || tripped } in
      (
        ok tripped,
        if tripped
            then record d' {
              engine = emit (safe_mode_entered (length d.crash_guard.crashes) (10 * 60)) d.engine;
            }
            else d',
      )

  unfoldable pub record_daemon_crash : ℕ → M W Bool
  record_daemon_crash occurred_at d =
      let (tripped, guard) = record_crash occurred_at d.crash_guard in
      (do
        ask (store.set_crash_guard_state (d.safe_mode || tripped) guard.crashes)
        enter_safe_mode tripped)
        (record d { crash_guard = guard })

  abbrev pub wants_attention : RunState → Bool
  wants_attention RunState.needs_attention = true
  wants_attention faulted = true
  wants_attention _ = false

  unfoldable pub to_idle : Engine W → Engine W
  to_idle s =
      if same_state s.state idle
      then emit snapshot s
      else transition idle (codes "attention acknowledged") s

  unfoldable pub acknowledge_attention : M W (Unit {0})
  acknowledge_attention = do
    λ d.
        unless (d.safe_mode || wants_attention d.engine.state)
          (invalid_state d.engine.state (codes "acknowledge_attention")) d
    λ d. (ok tt, record d { crash_guard = clear d.crash_guard })
    ask (store.set_crash_guard_state false [])
    λ d. (ok tt, record d { safe_mode = false })
    on_engine to_idle
