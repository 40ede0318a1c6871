-- ===== src/Tasks/Execution/Cleanup.antt =====
-- Every run ends with a release of all inputs, in `execute_task_plan` of
-- crates/nectarpilot-core/src/tasks.rs.
use roblox.Prelude.{
  ℕ, ◌+◌, inl, inr, Bool-cases, Bool, true, false, List, [], ◌∷◌, ◌≡◌, refl, ap, sym, ◌∙◌, Result,
  ok, err, is_ok,
}
use roblox.Contracts.{StartMode, is_diagnostics}
use roblox.Tasks.{TaskPlan, GuardedTask, TaskAction, requirement, validate}
use roblox.Tasks.Execution.{
  TaskRuntime, TaskRuntimeError, released, Stop, M, checkpoint_or_abort, detect, confirm, act,
  run_actions, act_unless_diagnostics, run_task, run_tasks, release_all, after_release, finish,
  run_plan, execute_task_plan,
}
use roblox.Tasks.Execution.Rules.{
  Log, Triple, pure_rule, weaken_both, bind_rule, release_rule, detect_rule,
  checkpoint_or_abort_rule, act_rule, confirm_rule, execute_rule,
}

-- The newest call is a release of all inputs.
abbrev pub just_released : Log → Bool
just_released [] = false
just_released (released d ∷ l) = true
just_released (_ ∷ l) = false

abbrev Any : Log → Type 0
Any l = Unit {0}

-- An early return has just released.
abbrev Out : Stop → Log → Type 0
Out e l = just_released l ≡ true

abbrev Ends : {W A : Type 0} → M W A → Type 0
Ends m = Triple Any m (λ _. Any) Out

module _ {W : Type 0} (runtime : TaskRuntime W) (mode : StartMode) where
  run_actions-Ends :
      (task : GuardedTask) (c : ℕ) (l : List TaskAction) (k : ℕ)
      → Ends (run_actions runtime mode task c l k)
  unfolding run_actions
  run_actions-Ends task c [] k = pure_rule (λ _. Any) Out k
  run_actions-Ends task c (a ∷ l) k =
      bind_rule (checkpoint_or_abort runtime c k) _
        (checkpoint_or_abort_rule runtime Any Any Out c k (λ l h. tt) (λ l d e bad h. refl))
        (λ _.
          bind_rule (act runtime mode task c (k + 1) a) _
            (act_rule runtime Any Any Out mode task c (k + 1) a (λ p l h. tt) (λ p l h. tt)
              (λ p l x d e bad h. refl))
            (λ _. run_actions-Ends task c l (k + 1)))

  acting-Ends : (task : GuardedTask) (c k : ℕ) → Ends (act_unless_diagnostics runtime mode task c k)
  unfolding act_unless_diagnostics
  acting-Ends task c k = elim (Bool-cases (is_diagnostics mode)) [
    | inl e ↦ rw e (pure_rule (λ _. Any) Out k)
    | inr e ↦ rw e (run_actions-Ends task c task.actions k)
  ]

  run_tasks-Ends : (ts : List GuardedTask) (c k : ℕ) → Ends (run_tasks runtime mode ts c k)
  unfolding run_tasks run_task
  run_tasks-Ends [] c k = pure_rule (λ _. Any) Out (c, k)
  run_tasks-Ends (t ∷ ts) c k =
      bind_rule (run_task runtime mode t c k) _
        (bind_rule (checkpoint_or_abort runtime c k) _
          (checkpoint_or_abort_rule runtime Any Any Out c k (λ l h. tt) (λ l d e bad h. refl))
          (λ _.
            bind_rule (detect runtime (requirement t.kind)) _
              (detect_rule runtime Any Out (λ d. Any) (requirement t.kind) (λ l d h. tt))
              (λ d.
                bind_rule (confirm runtime t c k d) _
                  (confirm_rule runtime Any Any Out t c k d (λ l x p q h. tt) (λ l x e bad h. refl))
                  (λ _. acting-Ends t c k))))
        (λ k'. run_tasks-Ends ts (c + 1) k')

  after_release-Ends :
      (plan : TaskPlan) (n : ℕ × ℕ) (d : Result TaskRuntimeError (Unit {0}))
      → Triple
          (λ l. just_released l ≡ true)
          (after_release runtime plan mode n d)
          (λ _ l. just_released l ≡ true)
          Out
  unfolding after_release
  after_release-Ends plan (c, k) (ok _) = pure_rule (λ _ l. just_released l ≡ true) Out _
  after_release-Ends plan (c, k) (err e) = pure_rule (λ _ l. just_released l ≡ true) Out _

  run_plan-Ends :
      (plan : TaskPlan)
      → Triple Any (run_plan runtime plan mode) (λ _ l. just_released l ≡ true) Out
  unfolding run_plan finish
  run_plan-Ends plan =
      bind_rule (run_tasks runtime mode plan.tasks 0 0) (finish runtime plan mode)
        (run_tasks-Ends plan.tasks 0 0)
        (λ n.
          bind_rule (release_all runtime) (after_release runtime plan mode n)
            (release_rule runtime Any Out (λ d l. just_released l ≡ true) (λ l d h. refl))
            (after_release-Ends plan n))

-- Whatever the runtime answers, the last call of a run is a release of all inputs exactly when
-- `validate` accepts the plan: no way out of an accepted plan, early or not, skips the cleanup, and
-- no call follows it.
pub execute_task_plan-released :
    {W : Type 0} (runtime : TaskRuntime W) (plan : TaskPlan) (mode : StartMode) (w : W)
    → just_released (execute_task_plan runtime plan mode w).1.log ≡ is_ok (validate plan)
execute_task_plan-released runtime plan mode w =
    execute_rule runtime plan mode w (λ _ l. just_released l ≡ is_ok (validate plan))
      (λ e bad. sym (ap is_ok bad))
      (λ good.
        weaken_both (run_plan runtime plan mode) (λ l h. tt) (λ a l h. h ∙ sym (ap is_ok good))
          (λ e l h. h ∙ sym (ap is_ok good)) (run_plan-Ends runtime mode plan))
