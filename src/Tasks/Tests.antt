-- ===== src/Tasks/Tests.antt =====
-- Concrete plans and runtimes for the theorems about crates/nectarpilot-core/src/tasks.rs.
use roblox.Prelude.{
  ℕ, ◌-◌, codes, false, [], ◌∷◌, ◌≡◌, refl, none, f_one, ok, err, ltb, if◌then◌else◌, is_blank,
  utf8_len, eq_ignore_ascii_case, is_ok, length, ◌↔◌,
}
use roblox.Contracts.{normal, succeeded}
use roblox.Contracts.Detection.{found, DetectionEvidence, actionable}
use roblox.Dsl.{MoveDirection}
use roblox.Tasks.{
  TaskPlan, TaskAction, TaskControl, GuardedTask, gather, combat, move, tap, attack, wait,
  default_confidence, expected_label, requirement, validate, check_tasks, check_task, check_actions,
  is_bad_name, has_bad_anchor, label, duration_ms, saturating_add,
}
use roblox.Tasks.Execution.{
  TaskRuntime, TaskRuntimeError, execute_task_plan, after_validate, run_plan, run_tasks, run_task,
  run_actions, act_unless_diagnostics, confirm, confirm_label, act, after_perform,
  checkpoint_or_abort, after_checkpoint, abort, checkpoint, detect, perform, record_dry_run,
  release_all, finish, after_release, result,
}
use roblox.Tasks.Validation.{IsSafePlan, validate-IsSafePlan_iff}
use roblox.Tasks.Execution.Safety.{AllAuthorised, execute_task_plan-AllAuthorised}
use roblox.Tasks.Execution.Cleanup.{just_released, execute_task_plan-released}
use roblox.Tasks.Execution.Completion.{
  inputs, all_actions, live, considered_of, IsPrefixOf, execute_task_plan-prefix,
  execute_task_plan-succeeded,
}

abbrev no_evidence : DetectionEvidence
no_evidence = record {
  detector = codes "fixture";
  observed_at = 0;
  region = none;
  artifact_id = none;
  notes = [];
}

-- A runtime that sees every target and accepts every input until its budget runs out.
abbrev budgeted : TaskRuntime ℕ
budgeted = record {
  checkpoint = λ w. (ltb 0 w, w);
  detect = λ req w. (
    found (record { label = expected_label req; calibration_revision = 1 }) f_one no_evidence,
    w,
  );
  perform = λ a w. (if ltb 1 w then ok tt else err TaskRuntimeError.focus_lost, w - 1);
  record_dry_run = λ id a w. w;
  release_all = λ w. (ok tt, w);
}

abbrev step_forward : TaskAction
step_forward = move MoveDirection.forward 250

abbrev jump_once : TaskAction
jump_once = tap TaskControl.jump 60

abbrev gather_task : GuardedTask
gather_task = record {
  id = codes "g1";
  kind = gather (codes "Sunflower");
  minimum_confidence = default_confidence;
  actions = step_forward ∷ jump_once ∷ [];
}

abbrev combat_task : GuardedTask
combat_task = record {
  id = codes "c1";
  kind = combat (codes "Ladybug");
  minimum_confidence = default_confidence;
  actions = attack 80 ∷ [];
}

abbrev two_tasks : TaskPlan
two_tasks = record { name = codes "demo"; tasks = gather_task ∷ combat_task ∷ [] }

-- A combat task that never attacks.
abbrev harmless : TaskPlan
harmless = record two_tasks { tasks = record combat_task { actions = wait 10 ∷ [] } ∷ [] }

two_tasks_valid : validate two_tasks ≡ ok tt
unfolding validate check_tasks check_task check_actions is_bad_name has_bad_anchor label duration_ms
    saturating_add is_blank utf8_len
two_tasks_valid = refl

harmless_refused : is_ok (validate harmless) ≡ false
unfolding validate check_tasks check_task check_actions is_bad_name has_bad_anchor label duration_ms
    saturating_add is_blank utf8_len
harmless_refused = refl

validate-IsSafePlan_iff_example : (validate two_tasks ≡ ok tt) ↔ IsSafePlan two_tasks
validate-IsSafePlan_iff_example = validate-IsSafePlan_iff two_tasks

execute_task_plan-AllAuthorised_example :
    AllAuthorised normal two_tasks.tasks (execute_task_plan budgeted two_tasks normal 3).1.log
execute_task_plan-AllAuthorised_example =
    execute_task_plan-AllAuthorised budgeted two_tasks normal 3

execute_task_plan-released_example :
    just_released (execute_task_plan budgeted two_tasks normal 2).1.log ≡ is_ok (validate two_tasks)
execute_task_plan-released_example = execute_task_plan-released budgeted two_tasks normal 2

execute_task_plan-prefix_example :
    IsPrefixOf
      (inputs (execute_task_plan budgeted two_tasks normal 3).1.log)
      (live normal (all_actions two_tasks.tasks))
execute_task_plan-prefix_example = execute_task_plan-prefix budgeted two_tasks normal 3

two_tasks_succeed : (execute_task_plan budgeted two_tasks normal 9).0.outcome ≡ succeeded
unfolding execute_task_plan after_validate run_plan run_tasks run_task run_actions
    act_unless_diagnostics confirm confirm_label act after_perform checkpoint_or_abort
    after_checkpoint abort checkpoint detect perform record_dry_run release_all finish after_release
    result validate check_tasks check_task check_actions is_bad_name has_bad_anchor label
    duration_ms saturating_add is_blank utf8_len requirement expected_label eq_ignore_ascii_case
    actionable
two_tasks_succeed = refl

execute_task_plan-succeeded_example :
    (inputs (execute_task_plan budgeted two_tasks normal 9).1.log
      ≡ live normal (all_actions two_tasks.tasks))
    × ((execute_task_plan budgeted two_tasks normal 9).0.completed_tasks ≡ length two_tasks.tasks)
    × ((execute_task_plan budgeted two_tasks normal 9).0.considered_actions
        ≡ considered_of normal (all_actions two_tasks.tasks))
execute_task_plan-succeeded_example =
    execute_task_plan-succeeded budgeted two_tasks normal 9 two_tasks_succeed

-- The third input loses the focus: the run stops there, released, with one task completed.
focus_lost_stops : (execute_task_plan budgeted two_tasks normal 3).0.completed_tasks ≡ 1
unfolding execute_task_plan after_validate run_plan run_tasks run_task run_actions
    act_unless_diagnostics confirm confirm_label act after_perform checkpoint_or_abort
    after_checkpoint abort checkpoint detect perform record_dry_run release_all finish after_release
    result validate check_tasks check_task check_actions is_bad_name has_bad_anchor label
    duration_ms saturating_add is_blank utf8_len requirement expected_label eq_ignore_ascii_case
    actionable
focus_lost_stops = refl
