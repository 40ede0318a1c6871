-- ===== src/LegacySession/Run.antt =====
-- The steps, the cycles and the whole of `run_legacy_session_worker`,
-- crates/nectarpilot-core/src/engine.rs. Instants are nanoseconds.
use roblox.Prelude.{
  ℕ, zero, suc, ◌+◌, ◌*◌, min, Bool, true, false, not, ◌&&◌, Text, codes, text_eq, Option, none,
  some, List, [], ◌∷◌, ◌++◌, any, map, length, leb, if◌then◌else◌, Result, ok, err,
}
use roblox.Prelude.Early.{pure, leave, ◌>>=◌, ◌>>◌}
use roblox.Contracts.{RunState, idle, running, recovering, faulted, ActionOutcome, failed}
use roblox.SessionPlan.{SessionStepKind, gather, SessionStep, CollectStep}
use roblox.Engine.{
  AutomationError, error_text, ActionResult, action_completed, Environment, emit, transition,
}
use roblox.Engine.Worker.{Verdict, action_result, is_cancelled_error, after_release, finish}
use roblox.LegacySession.{
  TimedLegacyCall, completed, user_cancelled, field_deadline, session_deadline, preflighted,
  port_cancelled, released, LegacyPort, Session, Break, session_over, out_of_fuel, M, over,
  session_cancelled, limit_reached, on_engine, note, tell, count_success, count_failure, asked,
  awaited, checkpoint, past, execute, recover, within_limit, progress, collect_all,
}

-- How a round of a step's loop ends.
pub data Next : Type 0 where
  step_over : Next
  again : (completed : ℕ) (recovered_once : Bool) → Next

abbrev pub is_gather : SessionStepKind → Bool
is_gather gather = true
is_gather _ = false

abbrev pub is_succeeded : ActionOutcome → Bool
is_succeeded ActionOutcome.succeeded = true
is_succeeded _ = false

abbrev pub move_engine : {W : Type 0} → RunState → Text → M W (Unit {0})
move_engine state reason s = (ok tt, on_engine (transition state reason) s)

-- A recovery that worked: the session ends, or the step is tried again.
abbrev pub hive_return : {W : Type 0} → M W Next
hive_return = over RunState.needs_attention (
    codes
      "recovery returned to the hive after a gather failure; restart the session so travel is verified again")

abbrev pub resumed : {W : Type 0} → ℕ → M W Next
resumed done =
    move_engine running (codes "session recovered; retrying current step") >> pure (again done true)

module _ {W : Type 0} (env : Environment W) (port : LegacyPort W) (reconnect_enabled : Bool)
    (max_minutes deadline max_cycles step_count : ℕ) where
  -- The tests before an execution: a deadline that has passed, or enough repetitions without one.
  unfoldable pub is_finished : Option ℕ → SessionStep → ℕ → M W Bool
  is_finished none step done = pure (leb step.repetitions done)
  is_finished (some field) step done = past env port field

  abbrev pub step_failed : ActionResult → M W Next
  step_failed result =
      over RunState.needs_attention (codes "session step failed: " ++ result.message)

  unfoldable pub recovery_answer :
      SessionStep → ℕ → ActionResult → TimedLegacyCall (Option ActionResult) → M W Next
  recovery_answer step done result (completed none) = step_failed result
  recovery_answer step done result (completed (some recovery)) =
      tell (action_completed recovery)
      >> (if is_succeeded recovery.outcome
          then if is_gather step.kind then hive_return else resumed done
          else step_failed result)
  recovery_answer step done result user_cancelled = session_cancelled
  recovery_answer step done result session_deadline = limit_reached max_minutes
  recovery_answer step done result field_deadline =
      over RunState.needs_attention
        (codes "session step failed and recovery exceeded the field duration: " ++ result.message)

  unfoldable pub after_failure : Option ℕ → SessionStep → ℕ → Bool → ActionResult → M W Next
  after_failure field step done recovered_once result =
      if reconnect_enabled && not recovered_once
      then move_engine recovering (codes "session step failed; attempting recovery")
        >> recover env port field deadline
        >>= recovery_answer step done result
      else step_failed result

  unfoldable pub by_outcome :
      Option ℕ → SessionStep → ℕ → Bool → ActionResult → ActionOutcome → M W Next
  by_outcome field step done recovered_once result ActionOutcome.succeeded =
      count_success >> pure (again (min (done + 1) 65535) false)
  by_outcome field step done recovered_once result ActionOutcome.skipped =
      count_success >> pure (again (min (done + 1) 65535) false)
  by_outcome field step done recovered_once result ActionOutcome.cancelled = session_cancelled
  by_outcome field step done recovered_once result _ =
      count_failure >> after_failure field step done recovered_once result

  unfoldable pub step_answer :
      Option ℕ → SessionStep → ℕ → Bool → TimedLegacyCall ActionResult → M W Next
  step_answer field step done recovered_once (completed result) =
      tell (action_completed result)
      >> by_outcome field step done recovered_once result result.outcome
  step_answer field step done recovered_once user_cancelled = session_cancelled
  step_answer field step done recovered_once session_deadline = limit_reached max_minutes
  step_answer field step done recovered_once field_deadline = pure step_over

  unfoldable pub execute_unless : Option ℕ → SessionStep → ℕ → Bool → Bool → M W Next
  execute_unless field step done recovered_once true = pure step_over
  execute_unless field step done recovered_once false =
      execute env port field deadline step.script_id step.approved_sha256
      >>= step_answer field step done recovered_once

  unfoldable pub round : Option ℕ → SessionStep → ℕ → Bool → M W Next
  round field step done recovered_once =
      checkpoint env port
      >> within_limit env port reconnect_enabled max_minutes deadline max_cycles step_count
      >> is_finished field step done
      >>= execute_unless field step done recovered_once

  unfoldable pub go_on : (ℕ → Bool → M W (Unit {0})) → Next → M W (Unit {0})
  go_on next_round step_over = pure tt
  go_on next_round (again done recovered_once) = next_round done recovered_once

  -- `'step: loop`
  unfoldable pub step_rounds : ℕ → Option ℕ → SessionStep → ℕ → Bool → M W (Unit {0})
  step_rounds zero field step done recovered_once = leave out_of_fuel
  step_rounds (suc fuel) field step done recovered_once =
      round field step done recovered_once >>= go_on (λ d r. step_rounds fuel field step d r)

  unfoldable pub field_end : Option ℕ → M W (Option ℕ)
  field_end none s = (ok none, s)
  field_end (some seconds) s =
      let (t, u) = asked port.now s in (ok (some (t + seconds * 1000000000)), u)

  unfoldable pub plan_step : ℕ → ℕ → ℕ → SessionStep → M W (Unit {0})
  plan_step fuel cycle index step =
      checkpoint env port
      >> within_limit env port reconnect_enabled max_minutes deadline max_cycles step_count
      >> progress env port reconnect_enabled max_minutes deadline max_cycles step_count cycle
          (index + 1) step.description
      >> field_end step.gather_seconds
      >>= λ field. step_rounds fuel field step 0 false

  unfoldable pub plan_steps : ℕ → ℕ → ℕ → List SessionStep → M W (Unit {0})
  plan_steps fuel cycle index [] = pure tt
  plan_steps fuel cycle index (step ∷ steps) =
      plan_step fuel cycle index step >> plan_steps fuel cycle (index + 1) steps

  -- `'session: for cycle in 1..=max_cycles`, with the cycles that are left.
  unfoldable pub cycles : ℕ → List SessionStep → List CollectStep → ℕ → ℕ → M W (Unit {0})
  cycles fuel plan collect zero cycle = pure tt
  cycles fuel plan collect (suc left) cycle =
      collect_all env port reconnect_enabled max_minutes deadline max_cycles step_count cycle
        collect
      >> plan_steps fuel cycle 0 plan
      >> cycles fuel plan collect left (cycle + 1)

module _ {W : Type 0} (env : Environment W) (port : LegacyPort W) where
  unfoldable pub cancel_port_call : Session W → Result AutomationError (Unit {0}) × Session W
  cancel_port_call s = let (r, t) = awaited env port env.port_cancel s in (r, note port_cancelled t)

  unfoldable pub release_call : Session W → Result AutomationError (Unit {0}) × Session W
  release_call s =
      let (r, t) = awaited env port env.release_all_inputs s in (r, note (released r) t)

  abbrev pub conclude : Verdict → Session W → Session W
  conclude v s =
      on_engine
        (λ e. finish v (record e {
          world = port.record_run_outcome v.final_state v.reason s.succeeded s.failed e.world;
        }))
        s

  -- The end of every session that began to run.
  unfoldable pub clean_up : Verdict → Session W → Session W
  clean_up v s =
      let (ignored, t) = cancel_port_call s in
      let (r, u) = release_call t in conclude (after_release v r) u

  unfoldable pub after_session : Result Break (Unit {0}) × Session W → Session W
  after_session (ok _, s) =
      clean_up (record { final_state = idle; reason = codes "session completed" }) s
  after_session (err (session_over v), s) = clean_up v s
  after_session (err out_of_fuel, s) = s

  -- What the errors of a cleanup make of a rejected preflight.
  abbrev pub rejection_verdict :
      Text → Result AutomationError (Unit {0}) → Result AutomationError (Unit {0}) → Verdict
  rejection_verdict reason (ok _) (ok _) = record { final_state = idle; reason = reason }
  rejection_verdict reason (err e) (ok _) = record {
    final_state = faulted;
    reason = reason ++ codes "; preflight cleanup failed: " ++ error_text e;
  }
  rejection_verdict reason (ok _) (err e) = record {
    final_state = faulted;
    reason = reason ++ codes "; preflight cleanup failed: " ++ error_text e;
  }
  rejection_verdict reason (err e) (err f) = record {
    final_state = faulted;
    reason =
        reason
        ++ codes "; preflight cleanup failed: "
        ++ error_text e
        ++ codes "; "
        ++ error_text f;
  }

  unfoldable pub reject : Text → AutomationError → Session W → Session W
  reject script_id e s =
      let stopped = is_cancelled_error e in
      let reason =
        if stopped
        then codes "legacy session preflight cancelled"
        else codes "legacy session preflight rejected: " ++ error_text e in
      let told =
        on_engine
          (emit (
            action_completed (
              action_result (codes "session_preflight:" ++ script_id)
                (if stopped then ActionOutcome.cancelled else failed) (error_text e))))
          s in
      let (c, t) = cancel_port_call told in
      let (r, u) = release_call t in
      conclude (rejection_verdict reason c r)
        (record u { succeeded = 0; failed = if stopped then 0 else 1 })

  unfoldable pub went_on :
      Text
      → (Session W → Result (Text × AutomationError) (Unit {0}) × Session W)
      → Result AutomationError (Unit {0}) × Session W
      → Result (Text × AutomationError) (Unit {0}) × Session W
  went_on script_id next (err e, s) = (err (script_id, e), s)
  went_on script_id next (ok _, s) = next s

  unfoldable pub preflight_call :
      SessionStep → Session W → Result AutomationError (Unit {0}) × Session W
  preflight_call step s =
      let (r, t) = awaited env port (port.preflight step.script_id step.approved_sha256) s in
      (r, note (preflighted step.script_id step.approved_sha256 r) t)

  -- Every script once, under the digest of its first step.
  unfoldable pub preflight_steps :
      List Text
      → List SessionStep
      → Session W
      → Result (Text × AutomationError) (Unit {0}) × Session W
  preflight_steps seen [] s = (ok tt, s)
  preflight_steps seen (step ∷ rest) s =
      let skipped = preflight_steps seen rest s in
      let asked_for =
        went_on step.script_id (λ t. preflight_steps (step.script_id ∷ seen) rest t)
          (preflight_call step s) in
      if any (text_eq step.script_id) seen then skipped else asked_for

  -- From the answer of the preflights on.
  unfoldable pub after_preflights :
      (fuel : ℕ) (reconnect_enabled : Bool) (plan : List SessionStep) (collect : List CollectStep)
      (max_cycles max_minutes deadline : ℕ)
      → Result (Text × AutomationError) (Unit {0}) × Session W
      → Session W
  after_preflights fuel enabled plan collect max_cycles max_minutes deadline (err (id, e), s) =
      reject id e s
  after_preflights fuel enabled plan collect max_cycles max_minutes deadline (ok _, s) =
      after_session (
        cycles env port enabled max_minutes deadline max_cycles (length plan) fuel plan collect
          max_cycles 1
          (on_engine
            (λ e.
              transition running (codes "legacy session preflight passed")
                (record e { active_task = some (codes "legacy-session") }))
            s))

  unfoldable pub run_legacy_session_worker :
      (fuel : ℕ) (reconnect_enabled : Bool) (plan : List SessionStep) (collect : List CollectStep)
      (max_cycles max_minutes : ℕ)
      → Session W
      → Session W
  run_legacy_session_worker fuel enabled plan collect max_cycles max_minutes s =
      let (started_at, t) = asked port.now s in
      after_preflights fuel enabled plan collect max_cycles max_minutes
        (started_at + max_minutes * 60 * 1000000000)
        (preflight_steps [] (plan ++ map (λ (entry : CollectStep). entry.step) collect) t)
