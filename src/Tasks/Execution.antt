-- ===== src/Tasks/Execution.antt =====
-- `execute_task_plan` of crates/nectarpilot-core/src/tasks.rs. The trait `TaskRuntime` and the
-- checkpoint of the task's context are a record of functions on a world `W` of their own, so what
-- they answer is arbitrary and may change from call to call. The calls that the code makes are
-- logged, the newest first. The clock readings of the result are left out.
pub mod Rules
pub mod Safety
pub mod Frame
pub mod Cleanup
pub mod Completion
use roblox.Prelude.{
  ℕ, ◌+◌, Text, codes, eq_ignore_ascii_case, Bool, true, false, not, List, [], ◌∷◌, ◌++◌, Option,
  none, some, F32, if◌then◌else◌, Result, ok, err,
}
use roblox.Contracts.{
  StartMode, ActionOutcome, normal, dry_run, diagnostics, succeeded, failed, cancelled,
  needs_attention, is_dry_run, is_diagnostics,
}
use roblox.Contracts.Detection.{Detection, found, not_found, uncertain, error, actionable, is_error}
use roblox.Tasks.{
  DetectionRequirement, requirement, expected_label, detector_name, DetectedTarget, TaskAction,
  GuardedTask, TaskPlan, TaskPlanError, validate,
}

pub data TaskRuntimeError : Type 0 where
  cancelled_input focus_lost calibration_changed : TaskRuntimeError
  session_changed input detector : Text → TaskRuntimeError

pub record TaskRuntime (W : Type 0) : Type 0 where
  -- `context.checkpoint()`, true for `Ok`.
  pub checkpoint : W → Bool × W
  pub detect : DetectionRequirement → W → Detection DetectedTarget × W
  pub perform : TaskAction → W → Result TaskRuntimeError (Unit {0}) × W
  pub record_dry_run : Text → TaskAction → W → W
  pub release_all : W → Result TaskRuntimeError (Unit {0}) × W

pub data Call : Type 0 where
  checked : Bool → Call
  detected : DetectionRequirement → Detection DetectedTarget → Call
  performed : TaskAction → Result TaskRuntimeError (Unit {0}) → Call
  dry_recorded : Text → TaskAction → Call
  released : Result TaskRuntimeError (Unit {0}) → Call

pub record Exec (W : Type 0) : Type 0 where
  pub world : W
  pub log : List Call

-- Before the first call.
abbrev pub fresh : {W : Type 0} → W → Exec W
fresh w = record { world = w; log = [] }

-- The formatted messages, with their arguments.
pub data Message : Type 0 where
  invalid_plan : TaskPlanError → Message
  plan_cancelled : Message
  below_threshold : (detector : Text) (confidence : F32) → Message
  was_not_found : (detector : Text) → Message
  is_uncertain : (detector reason : Text) → Message
  detector_error : (detector code message : Text) → Message
  unexpected_label : (detector label expected : Text) → Message
  runtime_error : TaskRuntimeError → Message
  cleanup_failed : TaskRuntimeError → Message
  plan_completed : StartMode → Message

pub record ActionResult : Type 0 where
  pub action : Text
  pub outcome : ActionOutcome
  pub message : Message
  pub mode : StartMode
  pub completed_tasks : ℕ
  pub considered_actions : ℕ

unfoldable pub result : TaskPlan → StartMode → ActionOutcome → ℕ → ℕ → Message → ActionResult
result plan mode outcome completed considered message = record {
  action = codes "native_plan:" ++ plan.name;
  outcome = outcome;
  message = message;
  mode = mode;
  completed_tasks = completed;
  considered_actions = considered;
}

unfoldable pub detection_failure_message : Detection DetectedTarget → DetectionRequirement → Message
detection_failure_message (found value confidence evidence) req =
    below_threshold (detector_name req) confidence
detection_failure_message (not_found evidence) req = was_not_found (detector_name req)
detection_failure_message (uncertain reason evidence) req = is_uncertain (detector_name req) reason
detection_failure_message (error code message evidence) req =
    detector_error (detector_name req) code message

-- The outcome of a failed input.
unfoldable pub runtime_outcome : TaskRuntimeError → ActionOutcome
runtime_outcome cancelled_input = cancelled
runtime_outcome focus_lost = needs_attention
runtime_outcome (session_changed reason) = needs_attention
runtime_outcome calibration_changed = needs_attention
runtime_outcome (input reason) = failed
runtime_outcome (detector reason) = failed

-- An early `return`: what it passes to `result`.
pub record Stop : Type 0 where
  pub outcome : ActionOutcome
  pub completed : ℕ
  pub considered : ℕ
  pub message : Message

-- A statement of the body: it goes on with a value or returns early.
abbrev pub M : Type 0 → Type 0 → Type 0
M W A = Exec W → Result Stop A × Exec W

abbrev pub pure : {W A : Type 0} → A → M W A
pure a s = (ok a, s)

abbrev pub throw : {W A : Type 0} → Stop → M W A
throw e s = (err e, s)

abbrev pub and_then : {W A B : Type 0} → Result Stop A → (A → M W B) → M W B
and_then (ok a) f = f a
and_then (err e) f = throw e

infixl 5 ◌>>=◌ ◌>>◌
abbrev pub ◌>>=◌ : {W A B : Type 0} → M W A → (A → M W B) → M W B
m >>= f = λ s. and_then (m s).0 f (m s).1

abbrev pub ◌>>◌ : {W B : Type 0} → M W (Unit {0}) → M W B → M W B
m >> k = m >>= λ _. k

-- An early `return` ends the function with its result.
abbrev pub settle :
    {W : Type 0} → TaskPlan → StartMode → Result Stop ActionResult × Exec W → ActionResult × Exec W
settle plan mode (ok r, s) = (r, s)
settle plan mode (err e, s) = (result plan mode e.outcome e.completed e.considered e.message, s)

module _ {W : Type 0} (runtime : TaskRuntime W) where
  unfoldable pub checkpoint : M W Bool
  checkpoint s =
      let (passed, w) = runtime.checkpoint s.world in
      (ok passed, record { world = w; log = checked passed ∷ s.log })

  unfoldable pub detect : DetectionRequirement → M W (Detection DetectedTarget)
  detect req s =
      let (detection, w) = runtime.detect req s.world in
      (ok detection, record { world = w; log = detected req detection ∷ s.log })

  unfoldable pub perform : TaskAction → M W (Result TaskRuntimeError (Unit {0}))
  perform action s =
      let (done, w) = runtime.perform action s.world in
      (ok done, record { world = w; log = performed action done ∷ s.log })

  unfoldable pub record_dry_run : Text → TaskAction → M W (Unit {0})
  record_dry_run id action s = (
    ok tt,
    record {
      world = runtime.record_dry_run id action s.world;
      log = dry_recorded id action ∷ s.log;
    },
  )

  unfoldable pub release_all : M W (Result TaskRuntimeError (Unit {0}))
  release_all s =
      let (done, w) = runtime.release_all s.world in
      (ok done, record { world = w; log = released done ∷ s.log })

  -- `let _ = runtime.release_all().await; return result(…);`
  unfoldable pub abort : {A : Type 0} → ActionOutcome → ℕ → ℕ → Message → M W A
  abort outcome completed considered message = release_all >>= λ _. throw (record {
    outcome = outcome;
    completed = completed;
    considered = considered;
    message = message;
  })

  unfoldable pub after_checkpoint : ℕ → ℕ → Bool → M W (Unit {0})
  after_checkpoint completed considered true = pure tt
  after_checkpoint completed considered false = abort cancelled completed considered plan_cancelled

  -- `if context.checkpoint().await.is_err() { … return … }`
  unfoldable pub checkpoint_or_abort : ℕ → ℕ → M W (Unit {0})
  checkpoint_or_abort completed considered = checkpoint >>= after_checkpoint completed considered

  unfoldable pub after_perform : ℕ → ℕ → Result TaskRuntimeError (Unit {0}) → M W (Unit {0})
  after_perform completed considered (ok _) = pure tt
  after_perform completed considered (err e) =
      abort (runtime_outcome e) completed considered (runtime_error e)

  -- One action: recorded in a dry run, performed live otherwise.
  unfoldable pub act : StartMode → GuardedTask → ℕ → ℕ → TaskAction → M W (Unit {0})
  act mode task completed considered action =
      if is_dry_run mode
      then record_dry_run task.id action
      else (perform action >>= after_perform completed considered)

  -- The loop over the actions of a task. `considered_actions` goes in and comes out.
  unfoldable pub run_actions : StartMode → GuardedTask → ℕ → List TaskAction → ℕ → M W ℕ
  run_actions mode task completed [] considered = pure considered
  run_actions mode task completed (action ∷ actions) considered = do
    checkpoint_or_abort completed considered
    act mode task completed (considered + 1) action
    run_actions mode task completed actions (considered + 1)

  -- The test of the label.
  unfoldable pub confirm_label : DetectionRequirement → ℕ → ℕ → DetectedTarget → M W (Unit {0})
  confirm_label req completed considered target =
      if eq_ignore_ascii_case target.label (expected_label req)
      then pure tt
      else abort needs_attention completed considered
          (unexpected_label (detector_name req) target.label (expected_label req))

  -- The two tests on a detection. What is no confident reading of the right label returns.
  unfoldable pub confirm : GuardedTask → ℕ → ℕ → Detection DetectedTarget → M W (Unit {0})
  confirm task completed considered detection =
      let req = requirement task.kind in
      elim (actionable detection task.minimum_confidence) [
        | none ↦
            abort (if is_error detection then failed else needs_attention) completed considered
              (detection_failure_message detection req)
        | some target ↦ confirm_label req completed considered target
      ]

  -- `if mode != StartMode::Diagnostics { for action in &task.actions … }`
  unfoldable pub act_unless_diagnostics : StartMode → GuardedTask → ℕ → ℕ → M W ℕ
  act_unless_diagnostics mode task completed considered =
      if is_diagnostics mode
      then pure considered
      else run_actions mode task completed task.actions considered

  -- The body of the loop over the tasks.
  unfoldable pub run_task : StartMode → GuardedTask → ℕ → ℕ → M W ℕ
  run_task mode task completed considered = do
    checkpoint_or_abort completed considered
    detection ← detect (requirement task.kind)
    confirm task completed considered detection
    act_unless_diagnostics mode task completed considered

  -- The loop over the tasks: how many are completed, and how many actions were considered.
  unfoldable pub run_tasks : StartMode → List GuardedTask → ℕ → ℕ → M W (ℕ × ℕ)
  run_tasks mode [] completed considered = pure (completed, considered)
  run_tasks mode (task ∷ tasks) completed considered = do
    considered' ← run_task mode task completed considered
    run_tasks mode tasks (completed + 1) considered'

  unfoldable pub after_release :
      TaskPlan → StartMode → ℕ × ℕ → Result TaskRuntimeError (Unit {0}) → M W ActionResult
  after_release plan mode (completed, considered) (ok _) =
      pure (result plan mode succeeded completed considered (plan_completed mode))
  after_release plan mode (completed, considered) (err e) =
      pure (result plan mode failed completed considered (cleanup_failed e))

  -- The cleanup that ends a plan of which every task is done.
  unfoldable pub finish : TaskPlan → StartMode → ℕ × ℕ → M W ActionResult
  finish plan mode counts = release_all >>= after_release plan mode counts

  unfoldable pub run_plan : TaskPlan → StartMode → M W ActionResult
  run_plan plan mode = run_tasks mode plan.tasks 0 0 >>= finish plan mode

  unfoldable pub after_validate :
      TaskPlan → StartMode → W → Result TaskPlanError (Unit {0}) → ActionResult × Exec W
  after_validate plan mode w (err e) = (result plan mode failed 0 0 (invalid_plan e), fresh w)
  after_validate plan mode w (ok _) = settle plan mode (run_plan plan mode (fresh w))

  unfoldable pub execute_task_plan : TaskPlan → StartMode → W → ActionResult × Exec W
  execute_task_plan plan mode w = after_validate plan mode w (validate plan)
