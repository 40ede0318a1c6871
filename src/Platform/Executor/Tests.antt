-- ===== src/Platform/Executor/Tests.antt =====
-- Runs of a plan on the native runtime of crates/nectarpilot-platform/src/task_executor.rs, over the
-- mock sink of input.rs and a window that stays in the foreground.
use roblox.Prelude.{
  ℕ, ◌+◌, false, true, codes, is_blank, utf8_len, eq_ignore_ascii_case, none, [], ◌∷◌, ◌≡◌, refl,
  ok, f_one, ltb,
}
use roblox.Contracts.{normal}
use roblox.Prelude.Ordered.{insert, remove}
use roblox.Contracts.Detection.{is_valid, DetectionEvidence, found, actionable}
use roblox.Dsl.{MoveDirection}
use roblox.Tasks.{
  TaskPlan, gather, move, attack, default_confidence, expected_label, requirement, validate,
  check_tasks, check_task, check_actions, is_bad_name, has_bad_anchor, label, duration_ms,
  saturating_add,
}
use roblox.Tasks.Execution
use roblox.Platform.Session.{RobloxSession, absorb, refresh, geometry_eq}
use roblox.Platform.Session.Tests.{geometry}
use roblox.Platform.Executor
use roblox.Platform.Input
use roblox.Platform.Input.{
  ensure_foreground, after_foreground, after_validate, send_ready, after_send, note, release_keys,
  release_buttons, resume_after_focus_check, after_check, new, Key, MouseButton, is_clean,
}
use roblox.Platform.Input.Tests.{MockInputSink, mock, roblox_window, in_front}
use roblox.Platform.Input.Focus.{AllPermitted}
use roblox.Platform.Input.Held.{key_held, button_held, release_refused}
use roblox.Platform.Executor.{Surroundings, from_session}
use roblox.Platform.Executor.Runs.{after_run, native_run-AllPermitted, native_run-nothing_held}

abbrev evidence : DetectionEvidence
evidence = record {
  detector = codes "fixture";
  observed_at = 0;
  region = none;
  artifact_id = none;
  notes = [];
}

-- A window that never changes, a detector that sees every target, and a context that is cancelled
-- during its second delay.
abbrev fixture : Surroundings (Unit {0}) MockInputSink (Unit {0}) ℕ
fixture = record {
  probe = record {
    find_main_window = λ pid w.
        (ok (record { target = roblox_window; geometry = geometry; is_foreground = true }), w);
    snapshot = λ target w.
        (ok (record { target = roblox_window; geometry = geometry; is_foreground = true }), w);
  };
  sink = mock;
  detect = λ req context d. (
    found
        (record { label = expected_label req; calibration_revision = context.calibration_revision })
        f_one evidence,
    d,
  );
  delay = λ ms n. (ltb 0 n, n + 1);
  now = λ n. n;
  checkpoint = λ n. (true, n);
}

abbrev session : RobloxSession
session = record {
  target = roblox_window;
  geometry = geometry;
  foreground = true;
  geometry_revision = 0;
}

abbrev walk_then_attack : TaskPlan
walk_then_attack = record {
  name = codes "demo";
  tasks =
      record {
        id = codes "g1";
        kind = gather (codes "Sunflower");
        minimum_confidence = default_confidence;
        actions = move MoveDirection.forward 250 ∷ attack 80 ∷ [];
      }
      ∷ [];
}

native_run-AllPermitted_example :
    AllPermitted roblox_window
      (after_run fixture session tt in_front tt 0 walk_then_attack normal).broker.log
    × (is_clean (after_run fixture session tt in_front tt 0 walk_then_attack normal).broker ≡ true)
native_run-AllPermitted_example =
    native_run-AllPermitted fixture session tt in_front tt 0 walk_then_attack normal

-- The cancellation during the attack lets the button go again.
attack_released :
    release_refused (after_run fixture session tt in_front tt 0 walk_then_attack normal).broker.log
    ≡ false
unfolding Execution.execute_task_plan Execution.after_validate Execution.run_plan
    Execution.run_tasks Execution.run_task Execution.run_actions Execution.act_unless_diagnostics
    Execution.confirm Execution.confirm_label Execution.act Execution.after_perform
    Execution.checkpoint_or_abort Execution.after_checkpoint Execution.abort Execution.checkpoint
    Execution.detect Execution.perform Execution.record_dry_run Execution.release_all
    Execution.finish Execution.after_release Execution.result validate check_tasks check_task
    check_actions is_bad_name has_bad_anchor label duration_ms saturating_add is_blank utf8_len
    requirement expected_label eq_ignore_ascii_case actionable absorb refresh geometry_eq
    from_session Executor.cancel_broker Executor.resume_broker Executor.check_window
    Executor.after_refresh Executor.ensure_ready Executor.send_to_broker Executor.after_delay
    Executor.after_press Executor.hold_key Executor.hold_button Executor.wait_for
    Executor.perform_ready Executor.when_ready Executor.perform Executor.detect_ready
    Executor.detect Executor.record_dry_run Executor.release_inputs Executor.ask_checkpoint
    Executor.sift is_valid new Input.dispatch after_validate Input.validate ensure_foreground
    after_foreground send_ready Input.send after_send note insert remove Input.cancel
    Input.release_all release_keys release_buttons resume_after_focus_check after_check
attack_released = refl

native_run-nothing_held_example :
    (key_held Key.forward
        (after_run fixture session tt in_front tt 0 walk_then_attack normal).broker.log
      ≡ false)
    × (button_held MouseButton.left
          (after_run fixture session tt in_front tt 0 walk_then_attack normal).broker.log
        ≡ false)
native_run-nothing_held_example =
    native_run-nothing_held fixture session tt in_front tt 0 walk_then_attack normal Key.forward
      MouseButton.left attack_released
