-- ===== src/Engine/Worker.antt =====
-- `run_worker` of crates/nectarpilot-core/src/engine.rs. Other tasks run their commands before and
-- after every call that the worker waits for. A panic of the backend is caught, except in a
-- reconnect attempt, where the code does not catch it: such a panic is not modelled.
use roblox.Prelude.{
  ℕ, Text, codes, decimal, Bool, true, false, ◌&&◌, some, ◌∷◌, ◌++◌, if◌then◌else◌, Result, ok, err,
}
use roblox.Contracts.{RunState, idle, running, recovering, faulted, ActionOutcome, skipped, failed}
use roblox.Reconnect.{
  ReconnectPolicy, ReconnectOutcome, Surroundings, Backoff, Attempted, finished, attempt_cancelled,
  attempt_timed_out, run_bounded_reconnect,
}
use roblox.Engine.{
  AutomationError, error_text, ActionResult, action_completed, reconnect_progress, preflighted,
  executed, attempted, released, Engine, Raced, Limited, Environment, emit, transition,
  finish_worker, interleave,
}

unfoldable pub action_result : Text → ActionOutcome → Text → ActionResult
action_result action outcome message = record {
  action = action;
  outcome = outcome;
  message = message;
}

abbrev pub preflight_result :
    Raced (Result AutomationError (Unit {0})) → Result AutomationError (Unit {0})
preflight_result Raced.cancelled_first = err AutomationError.cancelled
preflight_result Raced.panicked = err (AutomationError.backend (codes "preflight worker panicked"))
preflight_result (Raced.returned r) = r

abbrev pub execute_result : Raced ActionResult → ActionResult
execute_result Raced.cancelled_first =
    action_result (codes "automation") ActionOutcome.cancelled (codes "cancelled")
execute_result Raced.panicked =
    action_result (codes "automation") failed (codes "automation worker panicked")
execute_result (Raced.returned r) = r

-- `.map_err(|error| error.to_string())`
abbrev pub attempt_result : Limited (Result AutomationError (Unit {0})) → Attempted
attempt_result Limited.cut_by_cancellation = attempt_cancelled
attempt_result Limited.cut_by_timeout = attempt_timed_out
attempt_result (Limited.returned (ok _)) = finished (ok tt)
attempt_result (Limited.returned (err e)) = finished (err (error_text e))

abbrev pub is_cancelled_error : AutomationError → Bool
is_cancelled_error AutomationError.cancelled = true
is_cancelled_error _ = false

-- `final_state` and `reason`
pub record Verdict : Type 0 where
  pub final_state : RunState
  pub reason : Text

abbrev pub state_after : ActionOutcome → RunState
state_after ActionOutcome.succeeded = idle
state_after skipped = idle
state_after ActionOutcome.cancelled = idle
state_after ActionOutcome.needs_attention = RunState.needs_attention
state_after failed = faulted

abbrev pub is_failed : ActionOutcome → Bool
is_failed failed = true
is_failed _ = false

unfoldable pub reconnect_verdict : ReconnectOutcome → Verdict
reconnect_verdict (ReconnectOutcome.succeeded k) = record {
  final_state = idle;
  reason = codes "reconnected on attempt " ++ decimal k;
}
reconnect_verdict (ReconnectOutcome.cancelled k) = record {
  final_state = idle;
  reason = codes "reconnect cancelled";
}
reconnect_verdict (ReconnectOutcome.exhausted k e) = record {
  final_state = RunState.needs_attention;
  reason = codes "reconnect exhausted after " ++ decimal k ++ codes " attempts";
}
reconnect_verdict (ReconnectOutcome.deadline_exceeded k) = record {
  final_state = RunState.needs_attention;
  reason = codes "reconnect deadline exceeded after " ++ decimal k ++ codes " attempts";
}

-- What a failed release makes of a verdict, after a rejected preflight and at the end.
abbrev pub after_cleanup : Text → Result AutomationError (Unit {0}) → Verdict
after_cleanup reason (ok _) = record { final_state = idle; reason = reason }
after_cleanup reason (err e) = record {
  final_state = faulted;
  reason = reason ++ codes "; preflight cleanup failed: " ++ error_text e;
}

abbrev pub after_release : Verdict → Result AutomationError (Unit {0}) → Verdict
after_release v (ok _) = v
after_release v (err e) = record {
  final_state = faulted;
  reason = codes "failed to release inputs: " ++ error_text e;
}

unfoldable pub finish : {W : Type 0} → Verdict → Engine W → Engine W
finish v s = finish_worker v.final_state v.reason s

module _ {W : Type 0} (env : Environment W) where
  unfoldable pub await_preflight : Engine W → Result AutomationError (Unit {0}) × Engine W
  await_preflight s =
      let s' = interleave env s in
      let (answer, w) = env.preflight s'.world in
      let r = preflight_result answer in
      (r, interleave env (record s' { world = w; log = preflighted r ∷ s'.log }))

  unfoldable pub await_execute : Engine W → ActionResult × Engine W
  await_execute s =
      let s' = interleave env s in
      let (answer, w) = env.execute s'.world in
      let r = execute_result answer in
      (r, interleave env (record s' { world = w; log = executed r ∷ s'.log }))

  unfoldable pub await_release : Engine W → Result AutomationError (Unit {0}) × Engine W
  await_release s =
      let s' = interleave env s in
      let (r, w) = env.release_all_inputs s'.world in
      (r, interleave env (record s' { world = w; log = released r ∷ s'.log }))

  unfoldable pub ask_cancelled : Engine W → Bool × Engine W
  ask_cancelled s = let (c, w) = env.is_cancelled s.world in (c, record s { world = w })

  unfoldable pub ask_elapsed : Engine W → ℕ × Engine W
  ask_elapsed s = let (t, w) = env.elapsed s.world in (t, record s { world = w })

  unfoldable pub await_sleep : ℕ → ℕ → Engine W → Backoff × Engine W
  await_sleep delay remaining s =
      let s' = interleave env s in
      let (b, w) = env.sleep delay remaining s'.world in
      (b, interleave env (record s' { world = w }))

  unfoldable pub await_attempt : ℕ → ℕ → Engine W → Attempted × Engine W
  await_attempt number remaining s =
      let s' = interleave env s in
      let (answer, w) = env.reconnect_attempt number remaining s'.world in
      let a = attempt_result answer in
      (a, interleave env (record s' { world = w; log = attempted number a ∷ s'.log }))

  -- What `run_bounded_reconnect` is given.
  abbrev pub around : Surroundings (Engine W)
  around = record {
    is_cancelled = ask_cancelled;
    elapsed = ask_elapsed;
    sleep = await_sleep;
    attempt = await_attempt;
    progress = λ p s. emit (reconnect_progress p) s;
  }

  module _ (reconnect_enabled : Bool) (policy : ReconnectPolicy) where
    unfoldable pub reconnect : Engine W → Verdict × Engine W
    reconnect s =
        let s' =
          transition recovering (codes "automation failed; reconnecting")
            (record s { active_task = some (codes "reconnect") }) in
        let (outcome, run) = run_bounded_reconnect around policy s' in
        (reconnect_verdict outcome, run.world)

    unfoldable pub unless_cancelled : Verdict → Bool × Engine W → Verdict × Engine W
    unless_cancelled v (true, s) = (v, s)
    unless_cancelled v (false, s) = reconnect s

    -- `if outcome == Failed && reconnect_enabled && !is_cancelled() { … }`
    unfoldable pub recover : Bool → Verdict → Engine W → Verdict × Engine W
    recover false v s = (v, s)
    recover true v s = unless_cancelled v (ask_cancelled s)

    unfoldable pub release_and_finish : Verdict → Engine W → Engine W
    release_and_finish v s = let (r, s') = await_release s in finish (after_release v r) s'

    unfoldable pub after_execute : ActionResult × Engine W → Engine W
    after_execute (result, s) =
        let v : Verdict = record {
          final_state = state_after result.outcome;
          reason = result.message;
        } in
        let (v', s') =
          recover (is_failed result.outcome && reconnect_enabled) v
            (emit (action_completed result) s) in
        release_and_finish v' s'

    unfoldable pub reject : AutomationError → Engine W → Engine W
    reject e s =
        let cancelled = is_cancelled_error e in
        let reason =
          if cancelled
          then codes "preflight cancelled"
          else codes "preflight rejected: " ++ error_text e in
        let (r, s') = await_release (
          emit
            (action_completed (
              action_result (codes "preflight")
                (if cancelled then ActionOutcome.cancelled else failed) (error_text e)))
            s) in
        finish (after_cleanup reason r) s'

    unfoldable pub after_preflight : Result AutomationError (Unit {0}) × Engine W → Engine W
    after_preflight (err e, s) = reject e s
    after_preflight (ok _, s) = after_execute (
        await_execute (
          transition running (codes "preflight passed")
            (record s { active_task = some (codes "automation") })))

    unfoldable pub run_worker : Engine W → Engine W
    run_worker s = after_preflight (await_preflight s)
