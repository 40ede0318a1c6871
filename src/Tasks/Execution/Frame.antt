-- ===== src/Tasks/Execution/Frame.antt =====
-- What `execute_task_plan` (crates/nectarpilot-core/src/tasks.rs) leaves alone: a property of the
-- runtime's state that each of the runtime's functions keeps.
use roblox.Prelude.{
  ℕ, ◌+◌, Text, Bool, true, false, List, [], ◌∷◌, Result, ok, err, Bool-cases, Option-cases, inl,
  inr, eq_ignore_ascii_case,
}
use roblox.Contracts.{StartMode, is_dry_run, is_diagnostics, ActionOutcome}
use roblox.Contracts.Detection.{Detection, actionable}
use roblox.Tasks.{
  DetectionRequirement, DetectedTarget, TaskAction, GuardedTask, TaskPlan, TaskPlanError,
  requirement, expected_label, validate,
}
use roblox.Tasks.Execution.{
  TaskRuntime, TaskRuntimeError, Message, Exec, Stop, M, pure, ◌>>=◌, and_then, ActionResult,
  checkpoint, detect, perform, record_dry_run, release_all, abort, after_checkpoint,
  checkpoint_or_abort, after_perform, act, run_actions, confirm_label, confirm,
  act_unless_diagnostics, run_task, run_tasks, after_release, finish, run_plan, after_validate,
  settle, execute_task_plan,
}

pub record Keeps {W : Type 0} (runtime : TaskRuntime W) (I : W → Type 0) : Type 0 where
  pub checkpoint : (w : W) → I w → I (runtime.checkpoint w).1
  pub detect :
      (requirement : DetectionRequirement) (w : W) → I w → I (runtime.detect requirement w).1
  pub perform : (action : TaskAction) (w : W) → I w → I (runtime.perform action w).1
  pub record_dry_run :
      (id : Text) (action : TaskAction) (w : W) → I w → I (runtime.record_dry_run id action w)
  pub release_all : (w : W) → I w → I (runtime.release_all w).1

module _ {W : Type 0} (runtime : TaskRuntime W) (I : W → Type 0) (keeps : Keeps runtime I) where
  -- A statement that keeps the property, however it ends.
  record Kept {A : Type 0} (m : M W A) : Type 0 where
    run : (s : Exec W) → I s.world → I (m s).1.world

  pure-Kept : {A : Type 0} (a : A) → Kept (pure a)
  pure-Kept a = record { run = λ s h. h }

  bind-Kept :
      {A B : Type 0} (m : M W A) (f : A → M W B) → Kept m → ((a : A) → Kept (f a)) → Kept (m >>= f)
  bind-Kept {A} {B} m f first next = record { run = λ s h. go (m s) (first.run s h) }
    where
      go :
          (r : Result Stop A × Exec W)
          → I r.1.world
          → I (and_then {W = W} {B = B} r.0 f r.1).1.world
      go (ok a, s) h = (next a).run s h
      go (err e, s) h = h

  abort-Kept :
      {A : Type 0} (outcome : ActionOutcome) (completed considered : ℕ) (message : Message)
      → Kept (abort runtime {A = A} outcome completed considered message)
  unfolding abort release_all
  abort-Kept outcome completed considered message = record {
    run = λ s h. keeps.release_all s.world h;
  }

  checkpoint_or_abort-Kept :
      (completed considered : ℕ) → Kept (checkpoint_or_abort runtime completed considered)
  unfolding checkpoint_or_abort checkpoint after_checkpoint
  checkpoint_or_abort-Kept completed considered =
      bind-Kept (checkpoint runtime) (after_checkpoint runtime completed considered)
        (record { run = λ s h. keeps.checkpoint s.world h }) (λ passed. after passed)
    where
      after : (passed : Bool) → Kept (after_checkpoint runtime completed considered passed)
      after true = pure-Kept tt
      after false = abort-Kept _ completed considered _

  after_perform-Kept :
      (completed considered : ℕ) (r : Result TaskRuntimeError (Unit {0}))
      → Kept (after_perform runtime completed considered r)
  unfolding after_perform
  after_perform-Kept completed considered (ok _) = pure-Kept tt
  after_perform-Kept completed considered (err e) = abort-Kept _ completed considered _

  act-Kept :
      (mode : StartMode) (task : GuardedTask) (completed considered : ℕ) (action : TaskAction)
      → Kept (act runtime mode task completed considered action)
  unfolding act record_dry_run perform
  act-Kept mode task completed considered action = elim (Bool-cases (is_dry_run mode)) [
    | inl e ↦ rw e (record { run = λ s h. keeps.record_dry_run task.id action s.world h })
    | inr e ↦ rw e (
        bind-Kept (perform runtime action) _
          (record { run = λ s h. keeps.perform action s.world h })
          (after_perform-Kept completed considered))
  ]

  run_actions-Kept :
      (mode : StartMode) (task : GuardedTask) (completed : ℕ) (actions : List TaskAction)
      (considered : ℕ)
      → Kept (run_actions runtime mode task completed actions considered)
  unfolding run_actions
  run_actions-Kept mode task completed [] considered = pure-Kept considered
  run_actions-Kept mode task completed (action ∷ actions) considered =
      bind-Kept (checkpoint_or_abort runtime completed considered) _
        (checkpoint_or_abort-Kept completed considered)
        (λ _.
          bind-Kept (act runtime mode task completed (considered + 1) action) _
            (act-Kept mode task completed (considered + 1) action)
            (λ _. run_actions-Kept mode task completed actions (considered + 1)))

  confirm-Kept :
      (task : GuardedTask) (completed considered : ℕ) (detection : Detection DetectedTarget)
      → Kept (confirm runtime task completed considered detection)
  unfolding confirm confirm_label
  confirm-Kept task completed considered detection =
      elim (Option-cases (actionable detection task.minimum_confidence)) [
        | inl e ↦ rw (e, confirm) (abort-Kept _ completed considered _)
        | inr (target, e) ↦
            rw (e, confirm)
              (elim (Bool-cases
                (eq_ignore_ascii_case target.label (expected_label (requirement task.kind)))) [
                  | inl q ↦ rw (q, confirm_label) (pure-Kept tt)
                  | inr q ↦ rw (q, confirm_label) (abort-Kept _ completed considered _)
                ])
      ]

  run_task-Kept :
      (mode : StartMode) (task : GuardedTask) (completed considered : ℕ)
      → Kept (run_task runtime mode task completed considered)
  unfolding run_task act_unless_diagnostics detect
  run_task-Kept mode task completed considered =
      bind-Kept (checkpoint_or_abort runtime completed considered) _
        (checkpoint_or_abort-Kept completed considered)
        (λ _.
          bind-Kept (detect runtime (requirement task.kind)) _
            (record { run = λ s h. keeps.detect (requirement task.kind) s.world h })
            (λ detection.
              bind-Kept (confirm runtime task completed considered detection) _
                (confirm-Kept task completed considered detection) (λ _. acting)))
    where
      acting : Kept (act_unless_diagnostics runtime mode task completed considered)
      acting = elim (Bool-cases (is_diagnostics mode)) [
        | inl e ↦ rw e (pure-Kept considered)
        | inr e ↦ rw e (run_actions-Kept mode task completed task.actions considered)
      ]

  run_tasks-Kept :
      (mode : StartMode) (tasks : List GuardedTask) (completed considered : ℕ)
      → Kept (run_tasks runtime mode tasks completed considered)
  unfolding run_tasks
  run_tasks-Kept mode [] completed considered = pure-Kept (completed, considered)
  run_tasks-Kept mode (task ∷ tasks) completed considered =
      bind-Kept (run_task runtime mode task completed considered) _
        (run_task-Kept mode task completed considered)
        (λ considered'. run_tasks-Kept mode tasks (completed + 1) considered')

  run_plan-Kept : (plan : TaskPlan) (mode : StartMode) → Kept (run_plan runtime plan mode)
  unfolding run_plan finish release_all after_release
  run_plan-Kept plan mode =
      bind-Kept (run_tasks runtime mode plan.tasks 0 0) _ (run_tasks-Kept mode plan.tasks 0 0)
        (λ counts.
          bind-Kept (release_all runtime) (after_release runtime plan mode counts)
            (record { run = λ s h. keeps.release_all s.world h }) (λ r. after counts r))
    where
      after :
          (counts : ℕ × ℕ) (r : Result TaskRuntimeError (Unit {0}))
          → Kept (after_release runtime plan mode counts r)
      after (completed, considered) (ok _) = pure-Kept _
      after (completed, considered) (err e) = pure-Kept _

  pub execute_task_plan-keeps :
      (plan : TaskPlan) (mode : StartMode) (w : W)
      → I w
      → I (execute_task_plan runtime plan mode w).1.world
  unfolding execute_task_plan after_validate
  execute_task_plan-keeps plan mode w h = go (validate plan)
    where
      settled :
          (r : Result Stop ActionResult × Exec W) → I r.1.world → I (settle plan mode r).1.world
      settled (ok a, s) k = k
      settled (err e, s) k = k

      go : (r : Result TaskPlanError (Unit {0})) → I (after_validate runtime plan mode w r).1.world
      go (err e) = h
      go (ok _) = settled _ ((run_plan-Kept plan mode).run _ h)
