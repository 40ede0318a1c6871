-- ===== src/Engine.antt =====
-- The automation engine of crates/nectarpilot-core/src/engine.rs: its state, its events and the
-- commands that act on a running worker. The backend, the legacy port, the cancellation token, the
-- pause channel and the clock are functions on a world of their own. `log` is not in the code: it
-- keeps the events and the calls of the backend, the newest first. An event is not persisted here.
-- A command runs as one step.

pub mod Worker
pub mod Log
pub mod Steps
pub mod Commands
pub mod Calls
pub mod Outcome
pub mod Tests
use roblox.Prelude.{
  ℕ, ◌+◌, ◌%◌, ◌^◌, Text, codes, Bool, true, false, not, ◌&&◌, Option, none, some, List, [], ◌∷◌,
  ◌++◌, ◌==◌, if◌then◌else◌, Result, ok, err,
}
use roblox.Prelude.Early.{Early, pure, leave, ◌>>=◌, ◌>>◌}
use roblox.Contracts.{RunState, idle, running, paused, recovering, stopping, faulted, ActionOutcome}
use roblox.Reconnect.{ReconnectProgress, Backoff, Attempted}

pub data AutomationError : Type 0 where
  cancelled : AutomationError
  preflight backend invalid_command : (message : Text) → AutomationError
  invalid_state : (current : RunState) (command : Text) → AutomationError
  safe_mode worker_already_running worker_not_running legacy_unavailable : AutomationError
  store scheduler serialization : (message : Text) → AutomationError

-- The `Debug` form of a state.
abbrev pub state_text : RunState → Text
state_text idle = codes "Idle"
state_text RunState.preflight = codes "Preflight"
state_text running = codes "Running"
state_text paused = codes "Paused"
state_text recovering = codes "Recovering"
state_text RunState.needs_attention = codes "NeedsAttention"
state_text stopping = codes "Stopping"
state_text faulted = codes "Faulted"

-- `error.to_string()`
unfoldable pub error_text : AutomationError → Text
error_text AutomationError.cancelled = codes "operation was cancelled"
error_text (AutomationError.preflight message) = codes "preflight failed: " ++ message
error_text (AutomationError.backend message) = codes "automation backend failed: " ++ message
error_text (invalid_command message) = codes "invalid command: " ++ message
error_text (invalid_state current command) =
    codes "cannot run " ++ command ++ codes " while state is " ++ state_text current
error_text safe_mode = codes "safe mode is active; acknowledge diagnostics before starting"
error_text worker_already_running = codes "automation worker is already running"
error_text worker_not_running = codes "automation worker is not running"
error_text legacy_unavailable = codes "legacy compatibility execution is unavailable in this daemon"
error_text (store message) = codes "persistence error: " ++ message
error_text (scheduler message) = codes "scheduler error: " ++ message
error_text (serialization message) = codes "serialization error: " ++ message

-- The times and the JSON details of a result are left out.
pub record ActionResult : Type 0 where
  pub action : Text
  pub outcome : ActionOutcome
  pub message : Text

-- The events that the worker and these commands emit.
pub data DaemonEvent : Type 0 where
  state_changed : (previous current : RunState) (reason : Text) → DaemonEvent
  action_completed : ActionResult → DaemonEvent
  reconnect_progress : ReconnectProgress → DaemonEvent
  safe_mode_entered : (crash_count window_seconds : ℕ) → DaemonEvent
  session_progress : (cycle max_cycles step_index step_count : ℕ) (description : Text) → DaemonEvent
  -- Its payload is left out.
  snapshot : DaemonEvent

pub data Entry : Type 0 where
  emitted : (sequence : ℕ) (event : DaemonEvent) → Entry
  preflighted : Result AutomationError (Unit {0}) → Entry
  executed : ActionResult → Entry
  attempted : (number : ℕ) (answer : Attempted) → Entry
  released emergency_released : Result AutomationError (Unit {0}) → Entry

pub record Engine (W : Type 0) : Type 0 where
  pub world : W
  pub state : RunState
  pub active_task : Option Text
  pub sequence : ℕ
  -- Whether a token and a pause channel are in place, and whether a legacy port is registered.
  pub cancellation : Bool
  pub pause_sender : Bool
  pub legacy_port : Bool
  pub log : List Entry

pub data Command : Type 0 where
  pause resume : Command
  stop : (emergency : Bool) → Command

-- How a `select!` of the worker ended: the cancellation came first, or the call panicked, or it
-- returned.
pub data Raced (A : Type 0) : Type 0 where
  cancelled_first panicked : Raced A
  returned : A → Raced A

-- The same for a reconnect attempt, which has a timeout.
pub data Limited (A : Type 0) : Type 0 where
  cut_by_cancellation cut_by_timeout : Limited A
  returned : A → Limited A

pub record Environment (W : Type 0) : Type 0 where
  pub preflight : W → Raced (Result AutomationError (Unit {0})) × W
  pub execute : W → Raced ActionResult × W
  pub reconnect_attempt :
      (number remaining : ℕ) → W → Limited (Result AutomationError (Unit {0})) × W
  pub release_all_inputs : W → Result AutomationError (Unit {0}) × W
  pub is_cancelled : W → Bool × W
  pub elapsed : W → ℕ × W
  pub sleep : (delay remaining : ℕ) → W → Backoff × W
  -- `CancellationToken::cancel`
  pub cancel : W → W
  -- `watch::Sender::send`, which fails when no receiver is left.
  pub signal : Bool → W → Bool × W
  pub port_pause : W → Result AutomationError (Unit {0}) × W
  pub port_resume : W → Result AutomationError (Unit {0}) × W
  pub port_cancel : W → Result AutomationError (Unit {0}) × W
  -- The commands that other tasks run while the worker waits.
  pub meanwhile : W → List Command × W

abbrev pub state_rank : RunState → ℕ
state_rank idle = 0
state_rank RunState.preflight = 1
state_rank running = 2
state_rank paused = 3
state_rank recovering = 4
state_rank RunState.needs_attention = 5
state_rank stopping = 6
state_rank faulted = 7

-- `==` of the derived `PartialEq`.
abbrev pub same_state : RunState → RunState → Bool
same_state s t = state_rank s == state_rank t

-- `str::starts_with`
unfoldable pub starts_with : Text → Text → Bool
starts_with [] s = true
starts_with (p ∷ ps) [] = false
starts_with (p ∷ ps) (c ∷ s) = p == c && starts_with ps s

abbrev pub is_task : Text → Option Text → Bool
is_task prefix none = false
is_task prefix (some task) = starts_with prefix task

unfoldable pub emit : {W : Type 0} → DaemonEvent → Engine W → Engine W
emit event s =
    let next = (s.sequence + 1) % 2 ^ 64 in
    record s { sequence = next; log = emitted next event ∷ s.log }

-- `transition`, with the test on what the state was.
unfoldable pub moved : {W : Type 0} → Bool → RunState → RunState → Text → Engine W → Engine W
moved same previous current reason s =
    if same
    then record s { state = current }
    else emit (state_changed previous current reason) (record s { state = current })

unfoldable pub transition : {W : Type 0} → RunState → Text → Engine W → Engine W
transition current reason s = moved (same_state s.state current) s.state current reason s

unfoldable pub finish_worker : {W : Type 0} → RunState → Text → Engine W → Engine W
finish_worker final_state reason s =
    transition final_state reason
      (record s { active_task = none; cancellation = false; pause_sender = false })

-- A statement of a command.
abbrev pub M : Type 0 → Type 0
M W = Early (Engine W) AutomationError (Unit {0})

abbrev pub unless : {W : Type 0} → Bool → AutomationError → M W
unless good e s = (if good then ok tt else err e, s)

-- `if self.state() != … { return Err(InvalidState …) }`
unfoldable pub require_state : {W : Type 0} → RunState → Text → M W
require_state needed command s =
    unless (same_state s.state needed) (invalid_state s.state command) s

-- A call of the world alone.
abbrev pub ask : {W : Type 0} → (W → Result AutomationError (Unit {0}) × W) → M W
ask call s = let (answer, w) = call s.world in (answer, record s { world = w })

abbrev pub move_to : {W : Type 0} → RunState → Text → M W
move_to current reason s = (ok tt, transition current reason s)

module _ {W : Type 0} (env : Environment W) where
  -- `if legacy_active { let port = ….ok_or(LegacyUnavailable)?; port.….await?; }`
  unfoldable pub on_port : (W → Result AutomationError (Unit {0}) × W) → M W
  on_port call s =
      if is_task (codes "legacy") s.active_task
      then (do unless s.legacy_port legacy_unavailable; ask call) s
      else (ok tt, s)

  abbrev pub delivered : Bool × W → Result AutomationError (Unit {0}) × W
  delivered (true, w) = (ok tt, w)
  delivered (false, w) = (err worker_not_running, w)

  -- `let sender = ….ok_or(WorkerNotRunning)?; sender.send(…)…?;`
  unfoldable pub signal_pause : Bool → M W
  signal_pause on = do
    λ s. unless s.pause_sender worker_not_running s
    ask (λ w. delivered (env.signal on w))

  unfoldable pub pause_worker : M W
  pause_worker = do
    require_state running (codes "pause")
    λ s.
        unless (not (is_task (codes "quest-scan") s.active_task))
          (invalid_command
            (codes "quest scans cannot be paused; stop or emergency-stop the scan instead"))
          s
    on_port env.port_pause
    signal_pause true
    move_to paused (codes "pause requested")

  unfoldable pub resume_worker : M W
  resume_worker = do
    require_state paused (codes "resume")
    on_port env.port_resume
    signal_pause false
    move_to running (codes "resume requested")

  unfoldable pub cancel_token : Engine W → Engine W
  cancel_token s = if s.cancellation then record s { world = env.cancel s.world } else s

  unfoldable pub stop_state : Bool → Engine W → Engine W
  stop_state emergency s =
      if same_state s.state idle
      then s
      else transition stopping
          (if emergency then codes "emergency stop" else codes "stop requested") s

  unfoldable pub emergency_release : Bool → M W
  emergency_release false s = (ok tt, s)
  emergency_release true s =
      let (answer, w) = env.release_all_inputs s.world in
      (answer, record s { world = w; log = emergency_released answer ∷ s.log })

  -- `port.cancel().await?`, for a legacy run with a port.
  unfoldable pub cancel_port : Bool → M W
  cancel_port legacy_running s =
      if legacy_running && s.legacy_port then ask env.port_cancel s else (ok tt, s)

  unfoldable pub settle_idle : M W
  settle_idle s =
      (ok tt, if s.cancellation then s else transition idle (codes "nothing was running") s)

  unfoldable pub stop_worker : Bool → M W
  stop_worker emergency s =
      let legacy_running = is_task (codes "legacy") s.active_task in
      (do emergency_release emergency; cancel_port legacy_running; settle_idle)
        (stop_state emergency (cancel_token s))

  unfoldable pub obey : Command → M W
  obey pause = pause_worker
  obey resume = resume_worker
  obey (stop emergency) = stop_worker emergency

  -- The commands of other tasks. Their errors go to those who sent them.
  unfoldable pub obey_all : List Command → Engine W → Engine W
  obey_all [] s = s
  obey_all (c ∷ cs) s = obey_all cs (obey c s).1

  unfoldable pub interleave : Engine W → Engine W
  interleave s =
      let (commands, w) = env.meanwhile s.world in obey_all commands (record s { world = w })
