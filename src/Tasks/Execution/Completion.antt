-- ===== src/Tasks/Execution/Completion.antt =====
-- Which inputs `execute_task_plan` of crates/nectarpilot-core/src/tasks.rs sends, in which order,
-- and what a result that says "succeeded" promises.
use mathlib.Core.List.{append-nil, append_assoc}
use roblox.Prelude.{
  ℕ, ◌+◌, true, false, List, [], ◌∷◌, ◌++◌, length, ◌≡◌, ◌≢◌, ◌⊎◌, refl, sym, ap, ◌∙◌, inl, inr,
  Result, ok, err, length-append, Bool-cases, arith,
}
use roblox.Contracts.{
  StartMode, normal, dry_run, diagnostics, is_diagnostics, is_dry_run, succeeded,
}
use roblox.Tasks.{TaskPlan, GuardedTask, TaskAction, requirement}
use roblox.Tasks.Execution.{
  TaskRuntime, TaskRuntimeError, performed, ActionResult, Stop, result, checkpoint_or_abort, detect,
  confirm, act, run_actions, act_unless_diagnostics, run_task, run_tasks, release_all,
  after_release, finish, run_plan, execute_task_plan,
}
use roblox.Tasks.Execution.Rules.{
  Log, Triple, weaken, weaken_both, given_rule, bind_rule, release_rule, detect_rule,
  checkpoint_or_abort_rule, act_rule, confirm_rule, stopped, execute_rule,
}

-- The live inputs of a log, the oldest first.
abbrev pub inputs : Log → List TaskAction
inputs [] = []
inputs (performed a d ∷ l) = inputs l ++ (a ∷ [])
inputs (_ ∷ l) = inputs l

abbrev pub all_actions : List GuardedTask → List TaskAction
all_actions [] = []
all_actions (t ∷ ts) = t.actions ++ all_actions ts

-- The inputs that a mode lets through.
abbrev pub live : StartMode → List TaskAction → List TaskAction
live normal l = l
live _ l = []

-- How many actions a mode considers.
abbrev pub considered_of : StartMode → List TaskAction → ℕ
considered_of diagnostics l = 0
considered_of normal l = length l
considered_of dry_run l = length l

live-nil : (mode : StartMode) → live mode [] ≡ []
live-nil normal = refl
live-nil dry_run = refl
live-nil diagnostics = refl

live-dry :
    (mode : StartMode) (a : TaskAction) (l : List TaskAction)
    → is_dry_run mode ≡ true
    → live mode (a ∷ l) ≡ live mode l
live-dry normal a l e = cc
live-dry dry_run a l e = refl
live-dry diagnostics a l e = refl

live-cons :
    (mode : StartMode) (a : TaskAction) (l : List TaskAction)
    → is_dry_run mode ≡ false
    → is_diagnostics mode ≡ false
    → live mode (a ∷ l) ≡ a ∷ live mode l
live-cons normal a l e f = refl
live-cons dry_run a l e f = cc
live-cons diagnostics a l e f = cc

live-diagnostics :
    (mode : StartMode) (l : List TaskAction) → is_diagnostics mode ≡ true → live mode l ≡ []
live-diagnostics normal l e = cc
live-diagnostics dry_run l e = refl
live-diagnostics diagnostics l e = refl

considered-acting :
    (mode : StartMode) (l : List TaskAction)
    → is_diagnostics mode ≡ false
    → considered_of mode l ≡ length l
considered-acting normal l e = refl
considered-acting dry_run l e = refl
considered-acting diagnostics l e = cc

considered-diagnostics :
    (mode : StartMode) (l : List TaskAction) → is_diagnostics mode ≡ true → considered_of mode l ≡ 0
considered-diagnostics normal l e = cc
considered-diagnostics dry_run l e = cc
considered-diagnostics diagnostics l e = refl

considered-nil : (mode : StartMode) → considered_of mode [] ≡ 0
considered-nil normal = refl
considered-nil dry_run = refl
considered-nil diagnostics = refl

considered-append :
    (mode : StartMode) (xs ys : List TaskAction)
    → considered_of mode (xs ++ ys) ≡ considered_of mode xs + considered_of mode ys
considered-append normal xs ys = length-append xs ys
considered-append dry_run xs ys = length-append xs ys
considered-append diagnostics xs ys = omega arith

-- The inputs so far are the planned ones up to `rest`.
abbrev pub IsPrefixOf : List TaskAction → List TaskAction → Type 0
IsPrefixOf xs ys = (rest : List TaskAction) × (xs ++ rest ≡ ys)

module _ {W : Type 0} (runtime : TaskRuntime W) (mode : StartMode) (planned : List TaskAction) where
  -- `todo` is still to be sent.
  abbrev Left : List TaskAction → Log → Type 0
  Left todo l = inputs l ++ live mode todo ≡ planned

  -- An early return never reports success.
  abbrev Broken : Stop → Log → Type 0
  Broken e l = (e.outcome ≢ succeeded) × IsPrefixOf (inputs l) planned

  act-Left :
      (task : GuardedTask) (c k : ℕ) (a : TaskAction) (todo : List TaskAction)
      → is_diagnostics mode ≡ false
      → Triple (Left (a ∷ todo)) (act runtime mode task c k a) (λ _. Left todo) Broken
  act-Left task c k a todo acting =
      act_rule runtime (Left (a ∷ todo)) (Left todo) Broken mode task c k a
        (λ p l h. rw (← live-dry mode a todo p) h) (λ p l h. sent l p h)
        (λ p l x d e bad h. (bad, (live mode todo, sent l p h)))
    where
      sent :
          (l : Log)
          → is_dry_run mode ≡ false
          → Left (a ∷ todo) l
          → (inputs l ++ (a ∷ [])) ++ live mode todo ≡ planned
      sent l p h =
          rw (append_assoc (inputs l) (a ∷ []) (live mode todo))
            (rw (live-cons mode a todo p acting) at h)

  stay :
      (todo : List TaskAction) (l : Log) (e : Stop)
      → e.outcome ≢ succeeded
      → Left todo l
      → Broken e l
  stay todo l e bad h = (bad, (live mode todo, h))

  run_actions-Left :
      (task : GuardedTask) (c : ℕ) (actions : List TaskAction) (k : ℕ) (rest : List TaskAction)
      → is_diagnostics mode ≡ false
      → Triple
          (Left (actions ++ rest))
          (run_actions runtime mode task c actions k)
          (λ k' l. Left rest l × (k' ≡ k + length actions))
          Broken
  unfolding run_actions
  run_actions-Left task c [] k rest acting = record { run = λ s h. (h, omega arith) }
  run_actions-Left task c (a ∷ actions) k rest acting =
      bind_rule (checkpoint_or_abort runtime c k) _
        (checkpoint_or_abort_rule runtime (Left (a ∷ actions ++ rest)) (Left (a ∷ actions ++ rest))
          Broken c k (λ l h. h) (λ l d e bad h. stay (a ∷ actions ++ rest) l e bad h))
        (λ _.
          bind_rule (act runtime mode task c (k + 1) a) _
            (act-Left task c (k + 1) a (actions ++ rest) acting)
            (λ _.
              weaken (run_actions runtime mode task c actions (k + 1)) (λ l h. h)
                (λ k' l h. (h.0, omega (arith, h.1)))
                (run_actions-Left task c actions (k + 1) rest acting)))

  acting-Left :
      (task : GuardedTask) (c k : ℕ) (rest : List TaskAction)
      → Triple
          (Left (task.actions ++ rest))
          (act_unless_diagnostics runtime mode task c k)
          (λ k' l. Left rest l × (k' ≡ k + considered_of mode task.actions))
          Broken
  unfolding act_unless_diagnostics
  acting-Left task c k rest = elim (Bool-cases (is_diagnostics mode)) [
    | inl e ↦ rw e (record {
      run = λ s h. (
        rw (live-diagnostics mode rest e)
            (rw (live-diagnostics mode (task.actions ++ rest) e) at h),
        omega (arith, considered-diagnostics mode task.actions e),
      );
    })
    | inr e ↦
        rw e (
          rw (considered-acting mode task.actions e)
            (run_actions-Left task c task.actions k rest e))
  ]

  run_task-Left :
      (task : GuardedTask) (c k : ℕ) (rest : List TaskAction)
      → Triple
          (Left (task.actions ++ rest))
          (run_task runtime mode task c k)
          (λ k' l. Left rest l × (k' ≡ k + considered_of mode task.actions))
          Broken
  unfolding run_task
  run_task-Left task c k rest =
      bind_rule (checkpoint_or_abort runtime c k) _
        (checkpoint_or_abort_rule runtime (Left todo) (Left todo) Broken c k (λ l h. h)
          (λ l d e bad h. stay todo l e bad h))
        (λ _.
          bind_rule (detect runtime (requirement task.kind)) _
            (detect_rule runtime (Left todo) Broken (λ _. Left todo) (requirement task.kind)
              (λ l d h. h))
            (λ d.
              bind_rule (confirm runtime task c k d) _
                (confirm_rule runtime (Left todo) (Left todo) Broken task c k d (λ l x p q h. h)
                  (λ l x e bad h. stay todo l e bad h))
                (λ _. acting-Left task c k rest)))
    where
      todo : List TaskAction
      todo = task.actions ++ rest

  run_tasks-Left :
      (ts : List GuardedTask) (c k : ℕ)
      → Triple
          (Left (all_actions ts))
          (run_tasks runtime mode ts c k)
          (λ n l.
            Left [] l × (n.0 ≡ c + length ts) × (n.1 ≡ k + considered_of mode (all_actions ts)))
          Broken
  unfolding run_tasks
  run_tasks-Left [] c k = record {
    run = λ s h. (h, omega arith, omega (arith, considered-nil mode));
  }
  run_tasks-Left (t ∷ ts) c k =
      bind_rule (run_task runtime mode t c k) _ (run_task-Left t c k (all_actions ts)) (λ k'.
        given_rule (run_tasks runtime mode ts (c + 1) k') (λ e.
          weaken (run_tasks runtime mode ts (c + 1) k') (λ l h. h)
            (λ n l h. (
              h.0,
              omega (arith, h.1),
              omega (arith, h.2, e, considered-append mode t.actions (all_actions ts)),
            ))
            (run_tasks-Left ts (c + 1) k')))

-- What a run leaves behind: its inputs are the planned ones up to some point, and where it reports
-- success they are all there, every task is counted and every action.
abbrev Faithful : StartMode → TaskPlan → ActionResult → Log → Type 0
Faithful mode plan r l =
    IsPrefixOf (inputs l) (live mode (all_actions plan.tasks))
    × ((r.outcome ≢ succeeded)
        ⊎ ((inputs l ≡ live mode (all_actions plan.tasks))
            × (r.completed_tasks ≡ length plan.tasks)
            × (r.considered_actions ≡ considered_of mode (all_actions plan.tasks))))

module _ {W : Type 0} (runtime : TaskRuntime W) (plan : TaskPlan) (mode : StartMode) where
  abbrev actions : List TaskAction
  actions = all_actions plan.tasks

  abbrev AllSent : ℕ × ℕ → Log → Type 0
  AllSent n l =
      (inputs l ≡ live mode actions)
      × (n.0 ≡ length plan.tasks)
      × (n.1 ≡ considered_of mode actions)

  abbrev OutFaithful : Stop → Log → Type 0
  OutFaithful e l = Faithful mode plan (stopped plan mode e) l

  after_release-Faithful :
      (n : ℕ × ℕ) (d : Result TaskRuntimeError (Unit {0}))
      → Triple (AllSent n) (after_release runtime plan mode n d) (Faithful mode plan) OutFaithful
  unfolding after_release result
  after_release-Faithful (c, k) (ok _) = record {
    run = λ s h. (([], append-nil (inputs s.log) ∙ h.0), inr (h.0, h.1, h.2));
  }
  after_release-Faithful (c, k) (err e) = record {
    run = λ s h. (([], append-nil (inputs s.log) ∙ h.0), inl (λ e. cc));
  }

  sent :
      (n : ℕ × ℕ) (l : Log)
      → (inputs l ++ live mode [] ≡ live mode actions)
        × (n.0 ≡ 0 + length plan.tasks)
        × (n.1 ≡ 0 + considered_of mode actions)
      → AllSent n l
  sent n l h = (
    sym (append-nil (inputs l)) ∙ ap (λ z. inputs l ++ z) (sym (live-nil mode)) ∙ h.0,
    omega (arith, h.1),
    omega (arith, h.2),
  )

  run_plan-Faithful :
      Triple (λ l. l ≡ []) (run_plan runtime plan mode) (Faithful mode plan) OutFaithful
  unfolding run_plan finish result
  run_plan-Faithful =
      bind_rule (run_tasks runtime mode plan.tasks 0 0) (finish runtime plan mode)
        (weaken_both (run_tasks runtime mode plan.tasks 0 0) (λ l h. rw h refl) sent
          (λ e l h. (h.1, inl h.0))
          (run_tasks-Left runtime mode (live mode actions) plan.tasks 0 0))
        (λ n.
          bind_rule (release_all runtime) (after_release runtime plan mode n)
            (release_rule runtime (AllSent n) OutFaithful (λ d. AllSent n) (λ l d h. h))
            (after_release-Faithful n))

  execute_task_plan-Faithful :
      (w : W)
      → Faithful mode plan
          (execute_task_plan runtime plan mode w).0
          (execute_task_plan runtime plan mode w).1.log
  unfolding result
  execute_task_plan-Faithful w =
      execute_rule runtime plan mode w (Faithful mode plan)
        (λ e bad. ((live mode actions, refl), inl (λ h. cc))) (λ good. run_plan-Faithful)

  -- Whatever the runtime answers and wherever the run stops, its live inputs are a prefix of the
  -- plan's actions in the plan's order; a dry run and diagnostics send none at all.
  pub execute_task_plan-prefix :
      (w : W)
      → IsPrefixOf (inputs (execute_task_plan runtime plan mode w).1.log) (live mode actions)
  execute_task_plan-prefix w = (execute_task_plan-Faithful w).0

  -- A run that reports success has sent every action of every task in order (none in a dry run or in
  -- diagnostics), counts every task of the plan as completed, and counts as considered all actions
  -- (none in diagnostics).
  pub execute_task_plan-succeeded :
      (w : W)
      → (execute_task_plan runtime plan mode w).0.outcome ≡ succeeded
      → (inputs (execute_task_plan runtime plan mode w).1.log ≡ live mode actions)
        × ((execute_task_plan runtime plan mode w).0.completed_tasks ≡ length plan.tasks)
        × ((execute_task_plan runtime plan mode w).0.considered_actions
            ≡ considered_of mode actions)
  execute_task_plan-succeeded w won = elim (execute_task_plan-Faithful w).1 [
    | inl bad ↦ absurd (bad won)
    | inr sent ↦ sent
  ]
