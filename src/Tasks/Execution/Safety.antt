-- ===== src/Tasks/Execution/Safety.antt =====
-- No input without permission, in `execute_task_plan` of crates/nectarpilot-core/src/tasks.rs: what
-- the log of calls says of every live input, whatever the runtime answers.
use mathlib.Core.List.{Memᴰ}
use roblox.Prelude.{
  ℕ, ◌+◌, Text, Bool, true, false, Option, none, some, List, [], ◌∷◌, ◌≡◌, refl, sym, subst, inl,
  inr, Result, ok, err, Bool-cases, eq_ignore_ascii_case,
}
use roblox.Contracts.{StartMode, is_dry_run, is_diagnostics}
use roblox.Contracts.Detection.{Detection, actionable}
use roblox.Tasks.{
  GuardedTask, TaskPlan, TaskAction, DetectionRequirement, DetectedTarget, requirement,
  expected_label,
}
use roblox.Tasks.Execution.{
  TaskRuntime, TaskRuntimeError, checked, detected, performed, dry_recorded, detect, confirm,
  checkpoint_or_abort, act, release_all, run_actions, act_unless_diagnostics, run_task, run_tasks,
  after_release, finish, run_plan, execute_task_plan,
}
use roblox.Tasks.Execution.Rules.{
  Log, Triple, pure_rule, weaken, bind_rule, release_rule, detect_rule, checkpoint_or_abort_rule,
  act_rule, confirm_rule, execute_rule,
}

-- The newest detection of a log.
abbrev pub last_detection : Log → Option (DetectionRequirement × Detection DetectedTarget)
last_detection [] = none
last_detection (detected req d ∷ l) = some (req, d)
last_detection (_ ∷ l) = last_detection l

-- The newest call is a checkpoint that passed.
abbrev pub just_checked : Log → Bool
just_checked (checked b ∷ l) = b
just_checked _ = false

-- The newest detection was for this task, confident, and of the label that the task names.
pub record Confirmed (task : GuardedTask) (l : Log) : Type 0 where
  pub detection : Detection DetectedTarget
  pub target : DetectedTarget
  pub newest : last_detection l ≡ some (requirement task.kind, detection)
  pub confident : actionable detection task.minimum_confidence ≡ some target
  pub labelled : eq_ignore_ascii_case target.label (expected_label (requirement task.kind)) ≡ true

-- The plan allowed the input `a` after the calls `l`.
pub record Authorised (mode : StartMode) (tasks : List GuardedTask) (a : TaskAction) (l : Log)
    : Type 0 where
  pub live : is_dry_run mode ≡ false
  pub acting : is_diagnostics mode ≡ false
  pub task : GuardedTask
  pub planned : Memᴰ task tasks
  pub listed : Memᴰ a task.actions
  pub passed : just_checked l ≡ true
  pub confirmed : Confirmed task l

-- Every live input of the log was allowed.
abbrev pub AllAuthorised : StartMode → List GuardedTask → Log → Type 0
AllAuthorised mode tasks [] = Unit
AllAuthorised mode tasks (performed a d ∷ l) =
    Authorised mode tasks a l × AllAuthorised mode tasks l
AllAuthorised mode tasks (_ ∷ l) = AllAuthorised mode tasks l

module _ {W : Type 0} (runtime : TaskRuntime W) (mode : StartMode) (tasks : List GuardedTask) where
  abbrev Safe : Log → Type 0
  Safe = AllAuthorised mode tasks

  module _ (task : GuardedTask) (planned : Memᴰ task tasks)
      (acting : is_diagnostics mode ≡ false) where
    abbrev Ready : Log → Type 0
    Ready l = Confirmed task l × Safe l

    abbrev Checked : Log → Type 0
    Checked l = (just_checked l ≡ true) × Confirmed task l × Safe l

    Confirmed-checked : (l : Log) (b : Bool) → Confirmed task l → Confirmed task (checked b ∷ l)
    Confirmed-checked l b c = record {
      detection = c.detection;
      target = c.target;
      newest = c.newest;
      confident = c.confident;
      labelled = c.labelled;
    }

    Confirmed-performed :
        (l : Log) (a : TaskAction) (d : Result TaskRuntimeError (Unit {0}))
        → Confirmed task l
        → Confirmed task (performed a d ∷ l)
    Confirmed-performed l a d c = record {
      detection = c.detection;
      target = c.target;
      newest = c.newest;
      confident = c.confident;
      labelled = c.labelled;
    }

    Confirmed-dry :
        (l : Log) (id : Text) (a : TaskAction)
        → Confirmed task l
        → Confirmed task (dry_recorded id a ∷ l)
    Confirmed-dry l id a c = record {
      detection = c.detection;
      target = c.target;
      newest = c.newest;
      confident = c.confident;
      labelled = c.labelled;
    }

    authorise :
        (a : TaskAction)
        → Memᴰ a task.actions
        → is_dry_run mode ≡ false
        → (l : Log) → Checked l
        → Authorised mode tasks a l
    authorise a listed live l h = record {
      live = live;
      acting = acting;
      task = task;
      planned = planned;
      listed = listed;
      passed = h.0;
      confirmed = h.1;
    }

    act-Safe :
        (c k : ℕ) (a : TaskAction)
        → Memᴰ a task.actions
        → Triple Checked (act runtime mode task c k a) (λ _. Ready) (λ _. Safe)
    act-Safe c k a listed =
        act_rule runtime Checked Ready (λ _. Safe) mode task c k a
          (λ dry l h. (Confirmed-dry l task.id a h.1, h.2))
          (λ live l h. (Confirmed-performed l a (ok tt) h.1, (authorise a listed live l h, h.2)))
          (λ live l x d e bad h. (authorise a listed live l h, h.2))

    run_actions-Safe :
        (c : ℕ) (actions : List TaskAction) (k : ℕ)
        → ((a : TaskAction) → Memᴰ a actions → Memᴰ a task.actions)
        → Triple Ready (run_actions runtime mode task c actions k) (λ _. Ready) (λ _. Safe)
    unfolding run_actions
    run_actions-Safe c [] k sub = pure_rule (λ _. Ready) (λ _. Safe) k
    run_actions-Safe c (a ∷ l) k sub =
        bind_rule (checkpoint_or_abort runtime c k) _
          (checkpoint_or_abort_rule runtime Ready Checked (λ _. Safe) c k
            (λ l h. (refl, Confirmed-checked l true h.0, h.1)) (λ l d e bad h. h.1))
          (λ _.
            bind_rule (act runtime mode task c (k + 1) a) _
              (act-Safe c (k + 1) a (sub a (Memᴰ.head refl)))
              (λ _. run_actions-Safe c l (k + 1) (λ b m. sub b (Memᴰ.tail m))))

    actions-Safe :
        (c k : ℕ)
        → Triple Ready (act_unless_diagnostics runtime mode task c k) (λ _. Ready) (λ _. Safe)
    unfolding act_unless_diagnostics
    actions-Safe c k = rw acting (run_actions-Safe c task.actions k (λ a m. m))

  none-Safe :
      (task : GuardedTask) (c k : ℕ)
      → is_diagnostics mode ≡ true
      → Triple Safe (act_unless_diagnostics runtime mode task c k) (λ _. Safe) (λ _. Safe)
  unfolding act_unless_diagnostics
  none-Safe task c k e = rw e (pure_rule (λ _. Safe) (λ _. Safe) k)

  -- The two modes of a task's actions, after the detection is confirmed.
  task_actions-Safe :
      (task : GuardedTask)
      → Memᴰ task tasks
      → (c k : ℕ)
      → Triple
          (λ l. Confirmed task l × Safe l)
          (act_unless_diagnostics runtime mode task c k)
          (λ _. Safe)
          (λ _. Safe)
  task_actions-Safe task planned c k = elim (Bool-cases (is_diagnostics mode)) [
    | inl e ↦
        weaken (act_unless_diagnostics runtime mode task c k) (λ l h. h.1) (λ a l h. h)
          (none-Safe task c k e)
    | inr e ↦
        weaken (act_unless_diagnostics runtime mode task c k) (λ l h. h) (λ a l h. h.1)
          (actions-Safe task planned e c k)
  ]

  run_task-Safe :
      (task : GuardedTask)
      → Memᴰ task tasks
      → (c k : ℕ) → Triple Safe (run_task runtime mode task c k) (λ _. Safe) (λ _. Safe)
  unfolding run_task
  run_task-Safe task planned c k =
      bind_rule (checkpoint_or_abort runtime c k) _
        (checkpoint_or_abort_rule runtime Safe Safe (λ _. Safe) c k (λ l h. h) (λ l d e bad h. h))
        (λ _.
          bind_rule (detect runtime (requirement task.kind)) _
            (detect_rule runtime Safe (λ _. Safe) Seen (requirement task.kind) (λ l d h. (refl, h)))
            (λ d.
              bind_rule (confirm runtime task c k d) _
                (confirm_rule runtime (Seen d) (λ l. Confirmed task l × Safe l) (λ _. Safe) task c k
                  d
                  (λ l target e same h. (
                    record {
                      detection = d;
                      target = target;
                      newest = h.0;
                      confident = e;
                      labelled = same;
                    },
                    h.1,
                  ))
                  (λ l d e bad h. h.1))
                (λ _. task_actions-Safe task planned c k)))
    where
      Seen : Detection DetectedTarget → Log → Type 0
      Seen d l = (last_detection l ≡ some (requirement task.kind, d)) × Safe l

  run_tasks-Safe :
      (ts : List GuardedTask) (c k : ℕ)
      → ((t : GuardedTask) → Memᴰ t ts → Memᴰ t tasks)
      → Triple Safe (run_tasks runtime mode ts c k) (λ _. Safe) (λ _. Safe)
  unfolding run_tasks
  run_tasks-Safe [] c k sub = pure_rule (λ _. Safe) (λ _. Safe) (c, k)
  run_tasks-Safe (t ∷ ts) c k sub =
      bind_rule (run_task runtime mode t c k) _ (run_task-Safe t (sub t (Memᴰ.head refl)) c k)
        (λ k'. run_tasks-Safe ts (c + 1) k' (λ u m. sub u (Memᴰ.tail m)))

  after_release-Safe :
      (plan : TaskPlan) (n : ℕ × ℕ) (d : Result TaskRuntimeError (Unit {0}))
      → Triple Safe (after_release runtime plan mode n d) (λ _. Safe) (λ _. Safe)
  unfolding after_release
  after_release-Safe plan (c, k) (ok _) = pure_rule (λ _. Safe) (λ _. Safe) _
  after_release-Safe plan (c, k) (err e) = pure_rule (λ _. Safe) (λ _. Safe) _

  finish-Safe :
      (plan : TaskPlan) (n : ℕ × ℕ)
      → Triple Safe (finish runtime plan mode n) (λ _. Safe) (λ _. Safe)
  unfolding finish
  finish-Safe plan n =
      bind_rule (release_all runtime) (after_release runtime plan mode n)
        (release_rule runtime Safe (λ _. Safe) (λ _. Safe) (λ l d h. h)) (after_release-Safe plan n)

run_plan-Safe :
    {W : Type 0} (runtime : TaskRuntime W) (mode : StartMode) (plan : TaskPlan)
    → Triple
        (AllAuthorised mode plan.tasks)
        (run_plan runtime plan mode)
        (λ _. AllAuthorised mode plan.tasks)
        (λ _. AllAuthorised mode plan.tasks)
unfolding run_plan
run_plan-Safe runtime mode plan =
    bind_rule (run_tasks runtime mode plan.tasks 0 0) (finish runtime plan mode)
      (run_tasks-Safe runtime mode plan.tasks plan.tasks 0 0 (λ t m. m))
      (finish-Safe runtime mode plan.tasks plan)

-- Whatever the runtime answers, every live input of a run was allowed by the plan: the mode is
-- neither a dry run nor diagnostics, the input is an action of a planned task, the call just before
-- it is a checkpoint that passed, and the newest detection before it was asked for that task, meets
-- its minimum confidence and carries its expected label up to ASCII case.
pub execute_task_plan-AllAuthorised :
    {W : Type 0} (runtime : TaskRuntime W) (plan : TaskPlan) (mode : StartMode) (w : W)
    → AllAuthorised mode plan.tasks (execute_task_plan runtime plan mode w).1.log
execute_task_plan-AllAuthorised runtime plan mode w =
    execute_rule runtime plan mode w (λ _. AllAuthorised mode plan.tasks) (λ e bad. tt)
      (λ good.
        weaken (run_plan runtime plan mode)
          (λ l h. subst (AllAuthorised mode plan.tasks) (sym h) tt) (λ a l h. h)
          (run_plan-Safe runtime mode plan))
