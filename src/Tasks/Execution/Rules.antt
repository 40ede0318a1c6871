-- ===== src/Tasks/Execution/Rules.antt =====
-- A rule for each statement of `execute_task_plan` (crates/nectarpilot-core/src/tasks.rs), over
-- statements about the log of calls. A triple says what holds of the log when the statement goes on
-- and what holds when it returns early.
use roblox.Prelude.{
  ℕ, Text, Bool, true, false, some, List, [], ◌∷◌, ◌≡◌, refl, ◌≢◌, inl, inr, Result, ok, err,
  Bool-cases, Option-cases, eq_ignore_ascii_case, if◌then◌else◌,
}
use roblox.Contracts.{
  ActionOutcome, succeeded, cancelled, failed, needs_attention, StartMode, is_dry_run,
}
use roblox.Contracts.Detection.{Detection, actionable, is_error}
use roblox.Tasks.{
  TaskPlan, TaskPlanError, validate, GuardedTask, TaskAction, DetectionRequirement, DetectedTarget,
  requirement, expected_label,
}
use roblox.Tasks.Execution.{
  TaskRuntime, TaskRuntimeError, Call, checked, detected, performed, dry_recorded, released, Stop,
  Message, M, pure, ◌>>=◌, and_then, checkpoint, detect, perform, record_dry_run, release_all,
  abort, after_checkpoint, after_perform, checkpoint_or_abort, act, confirm, confirm_label,
  plan_cancelled, Exec, ActionResult, result, settle, run_plan, after_validate, execute_task_plan,
  fresh, invalid_plan, runtime_outcome, cancelled_input, focus_lost, session_changed,
  calibration_changed, input, detector,
}

abbrev pub Log : Type 0
Log = List Call

-- The postcondition of an outcome: `Q` where the statement goes on, `R` where it returned.
abbrev pub Post :
    {W A : Type 0} → (A → Log → Type 0) → (Stop → Log → Type 0) → Result Stop A × Exec W → Type 0
Post Q R (ok a, s) = Q a s.log
Post Q R (err e, s) = R e s.log

pub record Triple {W A : Type 0} (P : Log → Type 0) (m : M W A) (Q : A → Log → Type 0)
    (R : Stop → Log → Type 0) : Type 0 where
  pub run : (s : Exec W) → P s.log → Post Q R (m s)

module _ {W A : Type 0} where
  pub pure_rule :
      (Q : A → Log → Type 0) (R : Stop → Log → Type 0) (a : A) → Triple {W = W} (Q a) (pure a) Q R
  pure_rule Q R a = record { run = λ s p. p }

  pub weaken_both :
      {P P' : Log → Type 0} (m : M W A) {Q Q' : A → Log → Type 0} {R R' : Stop → Log → Type 0}
      → ((l : Log) → P' l → P l)
      → ((a : A) (l : Log) → Q a l → Q' a l)
      → ((e : Stop) (l : Log) → R e l → R' e l)
      → Triple P m Q R
      → Triple P' m Q' R'
  weaken_both m {Q} {Q'} {R} {R'} before after out t = record {
    run = λ s p. go (m s) (t.run s (before s.log p));
  }
    where
      go : (r : Result Stop A × Exec W) → Post Q R r → Post Q' R' r
      go (ok a, s) h = after a s.log h
      go (err e, s) h = out e s.log h

  pub weaken :
      {P P' : Log → Type 0} (m : M W A) {Q Q' : A → Log → Type 0} {R : Stop → Log → Type 0}
      → ((l : Log) → P' l → P l)
      → ((a : A) (l : Log) → Q a l → Q' a l)
      → Triple P m Q R
      → Triple P' m Q' R
  weaken m before after t = weaken_both m before after (λ e l h. h) t

  -- A fact that does not speak of the log.
  pub given_rule :
      {P : Log → Type 0} {F : Type 0} (m : M W A) {Q : A → Log → Type 0} {R : Stop → Log → Type 0}
      → (F → Triple P m Q R)
      → Triple (λ l. P l × F) m Q R
  given_rule m t = record { run = λ s h. (t h.1).run s h.0 }

  pub bind_rule :
      {B : Type 0} {P : Log → Type 0} (m : M W A) (f : A → M W B) {Q : A → Log → Type 0}
      {Q' : B → Log → Type 0} {R : Stop → Log → Type 0}
      → Triple P m Q R
      → ((a : A) → Triple (Q a) (f a) Q' R)
      → Triple P (m >>= f) Q' R
  bind_rule {B} m f {Q} {Q'} {R} first next = record { run = λ s p. go (m s) (first.run s p) }
    where
      go : (r : Result Stop A × Exec W) → Post Q R r → Post Q' R (and_then r.0 f r.1)
      go (ok a, s) h = (next a).run s h
      go (err e, s) h = h

abbrev Done : Type 0
Done = Result TaskRuntimeError (Unit {0})

runtime_outcome-ne : (e : TaskRuntimeError) → runtime_outcome e ≢ succeeded
unfolding runtime_outcome
runtime_outcome-ne cancelled_input = λ h. cc
runtime_outcome-ne focus_lost = λ h. cc
runtime_outcome-ne (session_changed r) = λ h. cc
runtime_outcome-ne calibration_changed = λ h. cc
runtime_outcome-ne (input r) = λ h. cc
runtime_outcome-ne (detector r) = λ h. cc

refusal-ne : (b : Bool) → (if b then failed else needs_attention) ≢ succeeded
refusal-ne true = λ h. cc
refusal-ne false = λ h. cc

-- What an early return after the release must justify.
abbrev Leaves : (Stop → Log → Type 0) → Log → Type 0
Leaves R l = (d : Done) (e : Stop) → e.outcome ≢ succeeded → R e (released d ∷ l)

module _ {W : Type 0} (runtime : TaskRuntime W) (P : Log → Type 0) (R : Stop → Log → Type 0) where
  -- A statement that aborts: only the early return has to be justified.
  pub abort_rule :
      {A : Type 0} (Q : A → Log → Type 0) (o : ActionOutcome) (c k : ℕ) (msg : Message)
      → o ≢ succeeded
      → ((l : Log) (d : Result TaskRuntimeError (Unit {0})) (e : Stop)
          → e.outcome ≢ succeeded
          → P l
          → R e (released d ∷ l))
      → Triple P (abort runtime o c k msg) Q R
  unfolding abort release_all
  abort_rule Q o c k msg bad left = record {
    run = λ s p. left s.log (runtime.release_all s.world).0 _ bad p;
  }

  pub detect_rule :
      (Q : Detection DetectedTarget → Log → Type 0) (req : DetectionRequirement)
      → ((l : Log) (d : Detection DetectedTarget) → P l → Q d (detected req d ∷ l))
      → Triple P (detect runtime req) Q R
  unfolding detect
  detect_rule Q req next = record { run = λ s p. next s.log (runtime.detect req s.world).0 p }

  checkpoint_rule :
      (Q : Bool → Log → Type 0)
      → ((l : Log) (b : Bool) → P l → Q b (checked b ∷ l))
      → Triple P (checkpoint runtime) Q R
  unfolding checkpoint
  checkpoint_rule Q next = record { run = λ s p. next s.log (runtime.checkpoint s.world).0 p }

  perform_rule :
      (Q : Done → Log → Type 0) (a : TaskAction)
      → ((l : Log) (d : Done) → P l → Q d (performed a d ∷ l))
      → Triple P (perform runtime a) Q R
  unfolding perform
  perform_rule Q a next = record { run = λ s p. next s.log (runtime.perform a s.world).0 p }

  pub release_rule :
      (Q : Result TaskRuntimeError (Unit {0}) → Log → Type 0)
      → ((l : Log) (d : Result TaskRuntimeError (Unit {0})) → P l → Q d (released d ∷ l))
      → Triple P (release_all runtime) Q R
  unfolding release_all
  release_rule Q next = record { run = λ s p. next s.log (runtime.release_all s.world).0 p }

  dry_rule :
      (Q : Log → Type 0) (id : Text) (a : TaskAction)
      → ((l : Log) → P l → Q (dry_recorded id a ∷ l))
      → Triple P (record_dry_run runtime id a) (λ _. Q) R
  unfolding record_dry_run
  dry_rule Q id a next = record { run = λ s p. next s.log p }

-- What a Boolean answer must justify: `Q` where the code goes on, `R` after the release where not.
abbrev Go : (Log → Type 0) → (Stop → Log → Type 0) → Bool → Log → Type 0
Go Q R true l = Q l
Go Q R false l = Leaves R l

abbrev GoOn : (Log → Type 0) → (Stop → Log → Type 0) → Done → Log → Type 0
GoOn Q R (ok _) l = Q l
GoOn Q R (err _) l = Leaves R l

module _ {W : Type 0} (runtime : TaskRuntime W) (P Q : Log → Type 0) (R : Stop → Log → Type 0) where
  after_checkpoint_rule :
      (c k : ℕ) (b : Bool) → Triple (Go Q R b) (after_checkpoint runtime c k b) (λ _. Q) R
  unfolding after_checkpoint
  after_checkpoint_rule c k true = record { run = λ s p. p }
  after_checkpoint_rule c k false =
      abort_rule runtime (Go Q R false) R (λ _. Q) cancelled c k plan_cancelled (λ h. cc)
        (λ l d e bad p. p d e bad)

  pub checkpoint_or_abort_rule :
      (c k : ℕ)
      → ((l : Log) → P l → Q (checked true ∷ l))
      → ((l : Log) (d : Result TaskRuntimeError (Unit {0})) (e : Stop)
          → e.outcome ≢ succeeded
          → P l
          → R e (released d ∷ checked false ∷ l))
      → Triple P (checkpoint_or_abort runtime c k) (λ _. Q) R
  unfolding checkpoint_or_abort
  checkpoint_or_abort_rule c k next left =
      bind_rule (checkpoint runtime) (after_checkpoint runtime c k)
        (checkpoint_rule runtime P R (Go Q R) answer) (after_checkpoint_rule c k)
    where
      answer : (l : Log) (b : Bool) → P l → Go Q R b (checked b ∷ l)
      answer l true p = next l p
      answer l false p = λ d e bad. left l d e bad p

  after_perform_rule :
      (c k : ℕ) (d : Done) → Triple (GoOn Q R d) (after_perform runtime c k d) (λ _. Q) R
  unfolding after_perform
  after_perform_rule c k (ok _) = record { run = λ s p. p }
  after_perform_rule c k (err x) =
      abort_rule runtime (GoOn Q R (err x)) R (λ _. Q) _ c k _ (runtime_outcome-ne x)
        (λ l d e bad p. p d e bad)

  pub act_rule :
      (mode : StartMode) (task : GuardedTask) (c k : ℕ) (a : TaskAction)
      → (is_dry_run mode ≡ true → (l : Log) → P l → Q (dry_recorded task.id a ∷ l))
      → (is_dry_run mode ≡ false → (l : Log) → P l → Q (performed a (ok tt) ∷ l))
      → (is_dry_run mode ≡ false
          → (l : Log) (x : TaskRuntimeError) (d : Result TaskRuntimeError (Unit {0})) (e : Stop)
          → e.outcome ≢ succeeded
          → P l
          → R e (released d ∷ performed a (err x) ∷ l))
      → Triple P (act runtime mode task c k a) (λ _. Q) R
  unfolding act
  act_rule mode task c k a dry live left = elim (Bool-cases (is_dry_run mode)) [
    | inl e ↦ rw e (dry_rule runtime P R Q task.id a (dry e))
    | inr e ↦ rw e (
        bind_rule (perform runtime a) (after_perform runtime c k)
          (perform_rule runtime P R (GoOn Q R) a (answer e)) (after_perform_rule c k))
  ]
    where
      answer : is_dry_run mode ≡ false → (l : Log) (d : Done) → P l → GoOn Q R d (performed a d ∷ l)
      answer f l (ok _) p = live f l p
      answer f l (err x) p = λ d e bad. left f l x d e bad p

  pub confirm_rule :
      (task : GuardedTask) (c k : ℕ) (detection : Detection DetectedTarget)
      → ((l : Log) (target : DetectedTarget)
          → actionable detection task.minimum_confidence ≡ some target
          → eq_ignore_ascii_case target.label (expected_label (requirement task.kind)) ≡ true
          → P l
          → Q l)
      → ((l : Log) (d : Result TaskRuntimeError (Unit {0})) (e : Stop)
          → e.outcome ≢ succeeded
          → P l
          → R e (released d ∷ l))
      → Triple P (confirm runtime task c k detection) (λ _. Q) R
  unfolding confirm confirm_label
  confirm_rule task c k detection next left =
      elim (Option-cases (actionable detection task.minimum_confidence)) [
        | inl e ↦
            rw (e, confirm)
              (abort_rule runtime P R (λ _. Q) _ c k _ (refusal-ne (is_error detection)) left)
        | inr (target, e) ↦
            rw (e, confirm)
              (elim (Bool-cases
                (eq_ignore_ascii_case target.label (expected_label (requirement task.kind)))) [
                  | inl same ↦
                      rw (same, confirm_label) (record { run = λ s p. next s.log target e same p })
                  | inr other ↦
                      rw (other, confirm_label)
                        (abort_rule runtime P R (λ _. Q) _ c k _ (λ h. cc) left)
                ])
      ]

-- The result that an early return gives.
abbrev pub stopped : TaskPlan → StartMode → Stop → ActionResult
stopped plan mode e = result plan mode e.outcome e.completed e.considered e.message

module _ {W : Type 0} (runtime : TaskRuntime W) (plan : TaskPlan) (mode : StartMode) (w : W) where
  settle_rule :
      (P : ActionResult → Log → Type 0) (r : Result Stop ActionResult × Exec W)
      → Post P (λ e. P (stopped plan mode e)) r
      → P (settle plan mode r).0 (settle plan mode r).1.log
  settle_rule P (ok r, s) h = h
  settle_rule P (err e, s) h = h

  after_validate_rule :
      (P : ActionResult → Log → Type 0) (v : Result TaskPlanError (Unit {0}))
      → ((e : TaskPlanError) → v ≡ err e → P (result plan mode failed 0 0 (invalid_plan e)) [])
      → (v ≡ ok tt
          → Triple (λ l. l ≡ []) (run_plan runtime plan mode) P (λ e. P (stopped plan mode e)))
      → P (after_validate runtime plan mode w v).0 (after_validate runtime plan mode w v).1.log
  unfolding after_validate
  after_validate_rule P (err e) bad good = bad e refl
  after_validate_rule P (ok t) bad good =
      settle_rule P (run_plan runtime plan mode (fresh w)) ((good refl).run (fresh w) refl)

  -- What a plan that is refused gives, and what a plan that runs gives.
  pub execute_rule :
      (P : ActionResult → Log → Type 0)
      → ((e : TaskPlanError)
          → validate plan ≡ err e
          → P (result plan mode failed 0 0 (invalid_plan e)) [])
      → (validate plan ≡ ok tt
          → Triple (λ l. l ≡ []) (run_plan runtime plan mode) P (λ e. P (stopped plan mode e)))
      → P (execute_task_plan runtime plan mode w).0 (execute_task_plan runtime plan mode w).1.log
  unfolding execute_task_plan
  execute_rule P = after_validate_rule P (validate plan)
