-- ===== src/Platform/Executor.antt =====
-- The native task runtime, crates/nectarpilot-platform/src/task_executor.rs: the session, the broker
-- and a detector behind the trait `TaskRuntime`. The detector, the delays, the clock and the
-- checkpoint of the task's context are functions on worlds of their own.
pub mod Press
pub mod Runs
pub mod Tests
use roblox.Prelude.{
  ℕ, Text, codes, decimal, Bool, true, false, not, ◌&&◌, ◌||◌, Option, none, some, List, [], ◌∷◌,
  ◌++◌, ◌==◌, if◌then◌else◌, Result, ok, err, F32,
}
use roblox.Contracts.Detection.{
  NormalizedRegion, is_valid, DetectionEvidence, Detection, found, uncertain, error,
}
use roblox.Dsl.{MoveDirection}
use roblox.Tasks.{DetectionRequirement, detector_name, DetectedTarget, TaskControl, TaskAction}
use roblox.Tasks.Execution.{
  TaskRuntime, TaskRuntimeError, cancelled_input, focus_lost, session_changed, calibration_changed,
  input, detector,
}
use roblox.Platform.Session.{
  SessionTarget, WindowGeometry, SessionError, window_not_found, ownership_changed, platform,
  SessionProbe, RobloxSession, attach, refresh,
}
use roblox.Platform.Input.{
  Key, MouseButton, InputAction, key_down, key_up, mouse_down, mouse_up, BrokerError,
  wrong_foreground, error_text, InputSink, InputBroker, new, dispatch, cancel, release_all,
  resume_after_focus_check,
}

pub record DetectionContext : Type 0 where
  pub target : SessionTarget
  pub geometry : WindowGeometry
  pub calibration_revision : ℕ

pub record Surroundings (P S D C : Type 0) : Type 0 where
  pub probe : SessionProbe P
  pub sink : InputSink S
  -- `GuardDetector::detect`
  pub detect : DetectionRequirement → DetectionContext → D → Detection DetectedTarget × D
  -- `cancellable_delay`: whether the cancellation came before the end of the delay.
  pub delay : (ms : ℕ) → C → Bool × C
  pub now : C → ℕ
  -- `context.checkpoint()`, true for `Ok`.
  pub checkpoint : C → Bool × C

pub record NativeTaskRuntime (P S D C : Type 0) : Type 0 where
  pub probe : P
  pub session : RobloxSession
  pub broker : InputBroker S
  pub detector : D
  pub dry_run_intents : List (Text × TaskAction)
  pub context : C

-- `SessionError::to_string`
unfoldable pub session_error_text : SessionError → Text
session_error_text (window_not_found pid) =
    codes "no usable top-level window belongs to process " ++ decimal pid
session_error_text ownership_changed = codes "the window is no longer owned by the attached process"
session_error_text (platform message) = codes "platform session query failed: " ++ message

-- `TaskRuntimeError::to_string`
unfoldable pub runtime_error_text : TaskRuntimeError → Text
runtime_error_text cancelled_input = codes "task was cancelled"
runtime_error_text focus_lost = codes "the exact Roblox window lost focus"
runtime_error_text (session_changed reason) = codes "the adopted Roblox session changed: " ++ reason
runtime_error_text calibration_changed = codes "window geometry changed; recalibration is required"
runtime_error_text (input reason) = codes "native input failed: " ++ reason
runtime_error_text (detector reason) = codes "detector failed: " ++ reason

unfoldable pub map_session : SessionError → TaskRuntimeError
map_session e = session_changed (session_error_text e)

unfoldable pub map_broker : BrokerError → TaskRuntimeError
map_broker wrong_foreground = focus_lost
map_broker e = input (error_text e)

-- `.map_err(map_broker)`
abbrev pub broker_result : Result BrokerError (Unit {0}) → Result TaskRuntimeError (Unit {0})
broker_result (ok _) = ok tt
broker_result (err e) = err (map_broker e)

unfoldable pub precondition_detection :
    DetectionRequirement → TaskRuntimeError → ℕ → Detection DetectedTarget
precondition_detection requirement e now =
    let evidence : DetectionEvidence = record {
      detector = detector_name requirement;
      observed_at = now;
      region = none;
      artifact_id = none;
      notes = runtime_error_text e ∷ [];
    } in
    precondition e evidence
  where
    precondition : TaskRuntimeError → DetectionEvidence → Detection DetectedTarget
    precondition focus_lost evidence = uncertain (runtime_error_text focus_lost) evidence
    precondition calibration_changed evidence =
        uncertain (runtime_error_text calibration_changed) evidence
    precondition other evidence =
        error (codes "session_precondition") (runtime_error_text other) (some evidence)

abbrev pub bad_region : Option NormalizedRegion → Bool
bad_region none = false
bad_region (some region) = not (is_valid region)

-- The match on the detector's answer.
unfoldable pub sift : ℕ → Detection DetectedTarget → Detection DetectedTarget
sift revision (found value confidence evidence) =
    if not (value.calibration_revision == revision)
    then uncertain (codes "detector result used a stale geometry calibration") evidence
    else if bad_region evidence.region
    then uncertain (codes "detector evidence has an invalid viewport region") evidence
    else found value confidence evidence
sift revision other = other

abbrev pub direction_key : MoveDirection → Key
direction_key MoveDirection.forward = Key.forward
direction_key MoveDirection.backward = Key.backward
direction_key MoveDirection.left = Key.left
direction_key MoveDirection.right = Key.right

abbrev pub control_key : TaskControl → Key
control_key TaskControl.jump = Key.jump
control_key TaskControl.interact = Key.interact
control_key TaskControl.shift = Key.shift

-- `NativeTaskRuntime::from_session`
unfoldable pub from_session :
    {P S D C : Type 0} → RobloxSession → P → S → D → C → NativeTaskRuntime P S D C
unfolding new
from_session session probe sink guard context = record {
  probe = probe;
  session = session;
  broker = new session.target sink;
  detector = guard;
  dry_run_intents = [];
  context = context;
}

module _ {P S D C : Type 0} (env : Surroundings P S D C) where
  abbrev pub N : Type 0
  N = NativeTaskRuntime P S D C

  -- What a call of the runtime answers, and the runtime that it leaves.
  abbrev pub Answer : Type 0
  Answer = Result TaskRuntimeError (Unit {0}) × N

  -- `let _ = self.broker.cancel();`
  unfoldable pub cancel_broker : N → N
  cancel_broker n = record n { broker = (cancel env.sink n.broker).1 }

  unfoldable pub resume_broker : N → Answer
  resume_broker n =
      let (r, b) = resume_after_focus_check env.sink n.broker in
      (broker_result r, record n { broker = b })

  unfoldable pub check_window : N → Answer
  check_window n =
      let geometry = n.session.geometry in
      if geometry.minimized || geometry.client.width == 0 || geometry.client.height == 0
      then (err focus_lost, cancel_broker n)
      else if not n.session.foreground
      then (err focus_lost, cancel_broker n)
      else resume_broker n

  unfoldable pub after_refresh : Result SessionError Bool → N → Answer
  after_refresh (err e) n = (err (map_session e), n)
  after_refresh (ok true) n = (err calibration_changed, cancel_broker n)
  after_refresh (ok false) n = check_window n

  unfoldable pub ensure_ready : N → Answer
  ensure_ready n =
      let (changed, session, probe) = refresh env.probe n.session n.probe in
      after_refresh changed (record n { session = session; probe = probe })

  unfoldable pub send_to_broker : InputAction → N → Answer
  send_to_broker action n =
      let (r, b) = dispatch env.sink action n.broker in (broker_result r, record n { broker = b })

  unfoldable pub after_delay : Bool → Answer → Answer
  after_delay true (release, n) = (err cancelled_input, cancel_broker n)
  after_delay false (release, n) = (release, n)

  unfoldable pub after_press : InputAction → ℕ → Answer → Answer
  after_press up ms (err e, n) = (err e, n)
  after_press up ms (ok _, n) =
      let (cancelled, context) = env.delay ms n.context in
      after_delay cancelled (send_to_broker up (record n { context = context }))

  unfoldable pub hold_key : Key → ℕ → N → Answer
  hold_key key ms n = after_press (key_up key) ms (send_to_broker (key_down key) n)

  unfoldable pub hold_button : MouseButton → ℕ → N → Answer
  hold_button button ms n = after_press (mouse_up button) ms (send_to_broker (mouse_down button) n)

  unfoldable pub wait_for : ℕ → N → Answer
  wait_for ms n =
      let (cancelled, context) = env.delay ms n.context in
      (if cancelled then err cancelled_input else ok tt, record n { context = context })

  -- The match of `perform`.
  unfoldable pub perform_ready : TaskAction → N → Answer
  perform_ready (TaskAction.move direction ms) n = hold_key (direction_key direction) ms n
  perform_ready (TaskAction.tap control ms) n = hold_key (control_key control) ms n
  perform_ready (TaskAction.attack ms) n = hold_button MouseButton.left ms n
  perform_ready (TaskAction.wait ms) n = wait_for ms n

  unfoldable pub when_ready : TaskAction → Answer → Answer
  when_ready action (err e, n) = (err e, n)
  when_ready action (ok _, n) = perform_ready action n

  unfoldable pub perform : TaskAction → N → Answer
  perform action n = when_ready action (ensure_ready n)

  unfoldable pub detect_ready : DetectionRequirement → Answer → Detection DetectedTarget × N
  detect_ready requirement (err e, n) =
      (precondition_detection requirement e (env.now n.context), n)
  detect_ready requirement (ok _, n) =
      let context : DetectionContext = record {
        target = n.session.target;
        geometry = n.session.geometry;
        calibration_revision = n.session.geometry_revision;
      } in
      let (detection, d) = env.detect requirement context n.detector in
      (sift context.calibration_revision detection, record n { detector = d })

  unfoldable pub detect : DetectionRequirement → N → Detection DetectedTarget × N
  detect requirement n = detect_ready requirement (ensure_ready n)

  unfoldable pub record_dry_run : Text → TaskAction → N → N
  record_dry_run id action n = record n { dry_run_intents = n.dry_run_intents ++ (id, action) ∷ [] }

  unfoldable pub release_inputs : N → Answer
  release_inputs n =
      let (r, b) = release_all env.sink n.broker in (broker_result r, record n { broker = b })

  unfoldable pub ask_checkpoint : N → Bool × N
  ask_checkpoint n =
      let (passed, c) = env.checkpoint n.context in (passed, record n { context = c })

  -- `impl TaskRuntime for NativeTaskRuntime`
  abbrev pub native : TaskRuntime N
  native = record {
    checkpoint = ask_checkpoint;
    detect = detect;
    perform = perform;
    record_dry_run = record_dry_run;
    release_all = release_inputs;
  }
