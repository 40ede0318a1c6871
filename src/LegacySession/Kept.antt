-- ===== src/LegacySession/Kept.antt =====
-- What the steps of a session of crates/nectarpilot-core/src/engine.rs keep of the calls.
use roblox.Prelude.{
  ℕ, zero, suc, ◌+◌, ◌≡◌, refl, Bool, true, false, not, ◌&&◌, Text, codes, Option, none, some, List,
  [], ◌∷◌, ◌++◌, All, if◌then◌else◌, Result, ok, err,
}
use roblox.Prelude.Early.{Post, Kept, bind_rule, pure, ◌>>=◌, ◌>>◌}
use roblox.Contracts.{RunState, recovering, ActionOutcome}
use roblox.SessionPlan.{SessionStep, CollectStep, builtin_reset_script_id, builtin_approval}
use roblox.Engine.{ActionResult, action_completed, session_progress, Environment}
use roblox.LegacySession.{
  TimedLegacyCall, completed, user_cancelled, field_deadline, session_deadline, Call, started,
  recovered, LegacyPort, Session, Break, M, over, tell, count_success, count_failure,
  session_cancelled, limit_reached, is_success, awaited, checkpoint, past, execute, recover,
  due_since, collect_due, within_limit, collect_answer, collect_script, after_write, store_last_run,
  progress, collect_when, ask_due, collect_entry, collect_all,
}
use roblox.LegacySession.Run.{
  Next, move_engine, step_failed, hive_return, resumed, is_gather, is_succeeded, step_over, again,
  is_finished, recovery_answer, after_failure, by_outcome, step_answer, execute_unless, round,
  go_on, step_rounds, field_end, plan_step, plan_steps, cycles,
}

abbrev pub is_start : Call → Bool
is_start (started id sha) = true
is_start _ = false

-- A predicate of the calls that every call but a start keeps, and so does the start of a script that
-- is known.
pub record Closed (P : List Call → Type 0) (Known : Text → Type 0) : Type 0 where
  pub quiet : (c : Call) (l : List Call) → is_start c ≡ false → P l → P (c ∷ l)
  pub start : (id sha : Text) (l : List Call) → Known id → P l → P (started id sha ∷ l)

module _ {W : Type 0} (env : Environment W) (port : LegacyPort W) (P : List Call → Type 0)
    (Known : Text → Type 0) (closed : Closed P Known) where
  abbrev I : Session W → Type 0
  I s = P s.calls

  then_Kept :
      {A B : Type 0} (m : M W A) (f : A → M W B)
      → Kept I m
      → ((a : A) → Kept I (f a))
      → Kept I (m >>= f)
  then_Kept m f first next = bind_rule m f first next

  either-Kept :
      {A : Type 0} (b : Bool) (m k : M W A) → Kept I m → Kept I k → Kept I (if b then m else k)
  either-Kept true m k hm hk = hm
  either-Kept false m k hm hk = hk

  over-Kept : {A : Type 0} (state : RunState) (reason : Text) → Kept I (over {A = A} state reason)
  over-Kept state reason = record { run = λ s h. h }

  either-Post :
      {A : Type 0} (b : Bool) (x y : Result Break A × Session W)
      → Post (λ _. I) (λ _. I) x
      → Post (λ _. I) (λ _. I) y
      → Post (λ _. I) (λ _. I) (if b then x else y)
  either-Post true x y hx hy = hx
  either-Post false x y hx hy = hy

  checkpoint-Kept : Kept I (checkpoint env port)
  unfolding checkpoint awaited
  checkpoint-Kept = record {
    run = λ s h.
        let (passed, t) = awaited env port port.checkpoint s in
        either-Post passed (ok tt, t) (session_cancelled t) h h;
  }

  past-Kept : (deadline : ℕ) → Kept I (past env port deadline)
  unfolding past
  past-Kept deadline = record { run = λ s h. h }

  execute-Kept :
      (field : Option ℕ) (session : ℕ) (id sha : Text)
      → Known id
      → Kept I (execute env port field session id sha)
  unfolding execute awaited
  execute-Kept none session id sha k = record { run = λ s h. closed.start id sha s.calls k h }
  execute-Kept (some field) session id sha k = record {
    run = λ s h. closed.start id sha s.calls k h;
  }

  recover-Kept : (field : Option ℕ) (session : ℕ) → Kept I (recover env port field session)
  unfolding recover awaited
  recover-Kept none session = record { run = λ s h. closed.quiet recovered s.calls refl h }
  recover-Kept (some field) session = record { run = λ s h. closed.quiet recovered s.calls refl h }

  due_since-I :
      (key : Text) (cooldown : ℕ) (r : Result Text (Option Text) × Session W)
      → I r.1
      → I (due_since env port key cooldown r).1
  unfolding due_since
  due_since-I key cooldown (err e, s) h = h
  due_since-I key cooldown (ok none, s) h = h
  due_since-I key cooldown (ok (some value), s) h = h

  module _ (enabled : Bool) (max_minutes deadline max_cycles step_count : ℕ) where
    within_limit-Kept :
        Kept I (within_limit env port enabled max_minutes deadline max_cycles step_count)
    unfolding within_limit
    within_limit-Kept = then_Kept (past env port deadline) _ (past-Kept deadline) (λ late.
        either-Kept late (limit_reached max_minutes) (pure tt) (record { run = λ s h. h })
          (record { run = λ s h. h }))

    collect_answer-Kept :
        (entry : CollectStep) (answer : TimedLegacyCall ActionResult)
        → Kept I (
            collect_answer env port enabled max_minutes deadline max_cycles step_count entry answer)
    unfolding collect_answer
    collect_answer-Kept entry (completed result) =
        then_Kept (tell (action_completed result)) _ (record { run = λ s h. h })
          (λ _.
            either-Kept (is_success result.outcome) count_success
              (count_failure
                >> over RunState.needs_attention
                    (codes "collect step failed: " ++ entry.step.description))
              (record { run = λ s h. h }) (record { run = λ s h. h }))
    collect_answer-Kept entry user_cancelled = record { run = λ s h. h }
    collect_answer-Kept entry field_deadline = record { run = λ s h. h }
    collect_answer-Kept entry session_deadline = record { run = λ s h. h }

    collect_script-Kept :
        (entry : CollectStep) (id sha : Text)
        → Known id
        → Kept I (
            collect_script env port enabled max_minutes deadline max_cycles step_count entry id sha)
    unfolding collect_script
    collect_script-Kept entry id sha k =
        then_Kept (execute env port none deadline id sha) _ (execute-Kept none deadline id sha k)
          (collect_answer-Kept entry)

    after_write-Kept :
        (r : Result Text (Unit {0}))
        → Kept I (after_write env port enabled max_minutes deadline max_cycles step_count r)
    after_write-Kept (ok _) = record { run = λ s h. h }
    after_write-Kept (err e) = record { run = λ s h. h }

    store_last_run-Kept :
        (entry : CollectStep)
        → Kept I (store_last_run env port enabled max_minutes deadline max_cycles step_count entry)
    unfolding store_last_run
    store_last_run-Kept entry = record { run = λ s h. (after_write-Kept _).run _ h }

    collect_when-Kept :
        (cycle : ℕ) (entry : CollectStep) (due : Result Text Bool)
        → Known builtin_reset_script_id
        → Known entry.step.script_id
        → Kept I (
            collect_when env port enabled max_minutes deadline max_cycles step_count cycle entry
              due)
    unfolding collect_when progress
    collect_when-Kept cycle entry (err e) reset k = record { run = λ s h. h }
    collect_when-Kept cycle entry (ok false) reset k = record { run = λ s h. h }
    collect_when-Kept cycle entry (ok true) reset k =
        then_Kept _ _
          (then_Kept _ _
            (then_Kept
              (tell (session_progress cycle max_cycles 0 step_count entry.step.description)) _
              (record { run = λ s h. h })
              (λ _. collect_script-Kept entry entry.step.script_id entry.step.approved_sha256 k))
            (λ _. collect_script-Kept entry builtin_reset_script_id builtin_approval reset))
          (λ _. store_last_run-Kept entry)

    collect_all-Kept :
        (cycle : ℕ) (entries : List CollectStep)
        → Known builtin_reset_script_id
        → All (λ (entry : CollectStep). Known entry.step.script_id) entries
        → Kept I
            (collect_all env port enabled max_minutes deadline max_cycles step_count cycle entries)
    unfolding collect_all collect_entry ask_due collect_due
    collect_all-Kept cycle [] reset k = record { run = λ s h. h }
    collect_all-Kept cycle (entry ∷ rest) reset k =
        then_Kept _ _
          (then_Kept _ _
            (then_Kept _ _
              (then_Kept (checkpoint env port) _ checkpoint-Kept (λ _. within_limit-Kept))
              (λ _. record { run = λ s h. due_since-I _ _ _ h }))
            (λ due. collect_when-Kept cycle entry due reset k.0))
          (λ _. collect_all-Kept cycle rest reset k.1)

    is_finished-Kept :
        (field : Option ℕ) (step : SessionStep) (done : ℕ)
        → Kept I (
            is_finished env port enabled max_minutes deadline max_cycles step_count field step done)
    unfolding is_finished
    is_finished-Kept none step done = record { run = λ s h. h }
    is_finished-Kept (some field) step done = past-Kept field

    recovery_answer-Kept :
        (step : SessionStep) (done : ℕ) (result : ActionResult)
        (answer : TimedLegacyCall (Option ActionResult))
        → Kept I (
            recovery_answer env port enabled max_minutes deadline max_cycles step_count step done
              result answer)
    unfolding recovery_answer
    recovery_answer-Kept step done result (completed none) = record { run = λ s h. h }
    recovery_answer-Kept step done result (completed (some recovery)) =
        then_Kept (tell (action_completed recovery)) _ (record { run = λ s h. h })
          (λ _.
            either-Kept (is_succeeded recovery.outcome)
              (if is_gather step.kind then hive_return else resumed done)
              ((step_failed env port enabled max_minutes deadline max_cycles step_count result))
              (either-Kept (is_gather step.kind) hive_return (resumed done)
                (record { run = λ s h. h }) (record { run = λ s h. h }))
              (record { run = λ s h. h }))
    recovery_answer-Kept step done result user_cancelled = record { run = λ s h. h }
    recovery_answer-Kept step done result session_deadline = record { run = λ s h. h }
    recovery_answer-Kept step done result field_deadline = record { run = λ s h. h }

    after_failure-Kept :
        (field : Option ℕ) (step : SessionStep) (done : ℕ) (once : Bool) (result : ActionResult)
        → Kept I (
            after_failure env port enabled max_minutes deadline max_cycles step_count field step
              done once result)
    unfolding after_failure
    after_failure-Kept field step done once result =
        either-Kept (enabled && not once)
          (move_engine recovering (codes "session step failed; attempting recovery")
            >> recover env port field deadline
            >>= recovery_answer env port enabled max_minutes deadline max_cycles step_count step
                done result)
          (step_failed env port enabled max_minutes deadline max_cycles step_count result)
          (then_Kept _ _
            (then_Kept (move_engine recovering (codes "session step failed; attempting recovery")) _
              (record { run = λ s h. h }) (λ _. recover-Kept field deadline))
            (recovery_answer-Kept step done result))
          (record { run = λ s h. h })

    by_outcome-Kept :
        (field : Option ℕ) (step : SessionStep) (done : ℕ) (once : Bool) (result : ActionResult)
        (outcome : ActionOutcome)
        → Kept I (
            by_outcome env port enabled max_minutes deadline max_cycles step_count field step done
              once result outcome)
    unfolding by_outcome
    by_outcome-Kept field step done once result ActionOutcome.succeeded = record { run = λ s h. h }
    by_outcome-Kept field step done once result ActionOutcome.skipped = record { run = λ s h. h }
    by_outcome-Kept field step done once result ActionOutcome.cancelled = record { run = λ s h. h }
    by_outcome-Kept field step done once result ActionOutcome.failed =
        then_Kept count_failure _ (record { run = λ s h. h })
          (λ _. after_failure-Kept field step done once result)
    by_outcome-Kept field step done once result ActionOutcome.needs_attention =
        then_Kept count_failure _ (record { run = λ s h. h })
          (λ _. after_failure-Kept field step done once result)

    step_answer-Kept :
        (field : Option ℕ) (step : SessionStep) (done : ℕ) (once : Bool)
        (answer : TimedLegacyCall ActionResult)
        → Kept I (
            step_answer env port enabled max_minutes deadline max_cycles step_count field step done
              once answer)
    unfolding step_answer
    step_answer-Kept field step done once (completed result) =
        then_Kept (tell (action_completed result)) _ (record { run = λ s h. h })
          (λ _. by_outcome-Kept field step done once result result.outcome)
    step_answer-Kept field step done once user_cancelled = record { run = λ s h. h }
    step_answer-Kept field step done once session_deadline = record { run = λ s h. h }
    step_answer-Kept field step done once field_deadline = record { run = λ s h. h }

    execute_unless-Kept :
        (field : Option ℕ) (step : SessionStep) (done : ℕ) (once stop : Bool)
        → Known step.script_id
        → Kept I (
            execute_unless env port enabled max_minutes deadline max_cycles step_count field step
              done once stop)
    unfolding execute_unless
    execute_unless-Kept field step done once true k = record { run = λ s h. h }
    execute_unless-Kept field step done once false k =
        then_Kept (execute env port field deadline step.script_id step.approved_sha256) _
          (execute-Kept field deadline step.script_id step.approved_sha256 k)
          (step_answer-Kept field step done once)

    round-Kept :
        (field : Option ℕ) (step : SessionStep) (done : ℕ) (once : Bool)
        → Known step.script_id
        → Kept I
            (round env port enabled max_minutes deadline max_cycles step_count field step done once)
    unfolding round
    round-Kept field step done once k =
        then_Kept _ _
          (then_Kept _ _
            (then_Kept (checkpoint env port) _ checkpoint-Kept (λ _. within_limit-Kept))
            (λ _. is_finished-Kept field step done))
          (λ stop. execute_unless-Kept field step done once stop k)

    go_on-Kept :
        (next_round : ℕ → Bool → M W (Unit {0})) (next : Next)
        → ((d : ℕ) (r : Bool) → Kept I (next_round d r))
        → Kept I (go_on env port enabled max_minutes deadline max_cycles step_count next_round next)
    unfolding go_on
    go_on-Kept next_round step_over h = record { run = λ s h. h }
    go_on-Kept next_round (again d r) h = h d r

    step_rounds-Kept :
        (fuel : ℕ) (field : Option ℕ) (step : SessionStep) (done : ℕ) (once : Bool)
        → Known step.script_id
        → Kept I (
            step_rounds env port enabled max_minutes deadline max_cycles step_count fuel field step
              done once)
    unfolding step_rounds
    step_rounds-Kept zero field step done once k = record { run = λ s h. h }
    step_rounds-Kept (suc fuel) field step done once k =
        then_Kept
          (round env port enabled max_minutes deadline max_cycles step_count field step done once) _
          (round-Kept field step done once k)
          (λ next.
            go_on-Kept
              (λ d r.
                step_rounds env port enabled max_minutes deadline max_cycles step_count fuel field
                  step d r)
              next (λ d r. step_rounds-Kept fuel field step d r k))

    field_end-Kept :
        (o : Option ℕ)
        → Kept I (field_end env port enabled max_minutes deadline max_cycles step_count o)
    unfolding field_end
    field_end-Kept none = record { run = λ s h. h }
    field_end-Kept (some seconds) = record { run = λ s h. h }

    plan_step-Kept :
        (fuel cycle index : ℕ) (step : SessionStep)
        → Known step.script_id
        → Kept I (
            plan_step env port enabled max_minutes deadline max_cycles step_count fuel cycle index
              step)
    unfolding plan_step progress
    plan_step-Kept fuel cycle index step k =
        then_Kept _ _
          (then_Kept _ _
            (then_Kept _ _
              (then_Kept (checkpoint env port) _ checkpoint-Kept (λ _. within_limit-Kept))
              (λ _. record { run = λ s h. h }))
            (λ _. field_end-Kept step.gather_seconds))
          (λ field. step_rounds-Kept fuel field step 0 false k)

    plan_steps-Kept :
        (fuel cycle index : ℕ) (steps : List SessionStep)
        → All (λ (step : SessionStep). Known step.script_id) steps
        → Kept I (
            plan_steps env port enabled max_minutes deadline max_cycles step_count fuel cycle index
              steps)
    unfolding plan_steps
    plan_steps-Kept fuel cycle index [] k = record { run = λ s h. h }
    plan_steps-Kept fuel cycle index (step ∷ steps) k =
        then_Kept
          (plan_step env port enabled max_minutes deadline max_cycles step_count fuel cycle index
            step)
          _ (plan_step-Kept fuel cycle index step k.0)
          (λ _. plan_steps-Kept fuel cycle (index + 1) steps k.1)

    pub cycles-Kept :
        (fuel : ℕ) (plan : List SessionStep) (collect : List CollectStep) (left cycle : ℕ)
        → Known builtin_reset_script_id
        → All (λ (step : SessionStep). Known step.script_id) plan
        → All (λ (entry : CollectStep). Known entry.step.script_id) collect
        → Kept I (
            cycles env port enabled max_minutes deadline max_cycles step_count fuel plan collect
              left cycle)
    unfolding cycles
    cycles-Kept fuel plan collect zero cycle reset ks kc = record { run = λ s h. h }
    cycles-Kept fuel plan collect (suc left) cycle reset ks kc =
        then_Kept _ _
          (then_Kept
            (collect_all env port enabled max_minutes deadline max_cycles step_count cycle collect)
            _ (collect_all-Kept cycle collect reset kc) (λ _. plan_steps-Kept fuel cycle 0 plan ks))
          (λ _. cycles-Kept fuel plan collect left (cycle + 1) reset ks kc)
