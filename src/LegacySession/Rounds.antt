-- ===== src/LegacySession/Rounds.antt =====
-- The loop of a step without a deadline ends, crates/nectarpilot-core/src/engine.rs.
use roblox.Prelude.{
  ℕ, zero, suc, ◌+◌, ◌*◌, ◌-◌, ◌≤◌, ◌<◌, ◌≡◌, ◌≢◌, refl, Bool, true, false, not, ◌&&◌, min, Option,
  none, some, leb, if◌then◌else◌, Result, ok, err, arith, codes,
}
use roblox.Prelude.Early.{Post, Triple, bind_rule, pure, ◌>>=◌, ◌>>◌}
use roblox.Contracts.{recovering, ActionOutcome}
use roblox.SessionPlan.{SessionStep}
use roblox.Engine.{ActionResult, action_completed, Environment}
use roblox.LegacySession.{
  TimedLegacyCall, completed, user_cancelled, field_deadline, session_deadline, LegacyPort, Session,
  Break, session_over, out_of_fuel, M, session_cancelled, limit_reached, tell, count_failure, asked,
  awaited, checkpoint, past, execute, recover, within_limit,
}
use roblox.LegacySession.Run.{
  Next, step_over, again, hive_return, resumed, is_gather, is_succeeded, move_engine, step_failed,
  is_finished, recovery_answer, after_failure, by_outcome, step_answer, execute_unless, round,
  go_on, step_rounds,
}

-- Left for another reason than fuel.
abbrev IsOver : Break → Type 0
IsOver (session_over v) = Unit
IsOver out_of_fuel = ⊥

-- How many rounds a step can still take: two for each repetition that is left, and one less once a
-- recovery has been used.
abbrev pub rounds_left : ℕ → ℕ → Bool → ℕ
rounds_left repetitions done true = 2 * (repetitions - done)
rounds_left repetitions done false = 2 * (repetitions - done) + 1

-- A round ends the step, or leaves fewer rounds.
abbrev Shrinks : ℕ → ℕ → Next → Type 0
Shrinks repetitions n step_over = Unit
Shrinks repetitions n (again d once) = rounds_left repetitions d once < n

module _ {W : Type 0} (env : Environment W) (port : LegacyPort W) (enabled : Bool)
    (max_minutes deadline max_cycles step_count : ℕ) where
  -- Whatever the state, the statement goes on with `Q`, or leaves for another reason than fuel.
  abbrev Ends : {A : Type 0} → (A → Type 0) → M W A → Type 0
  Ends {A} Q m =
      Triple {S = Session W} {E = Break} {A = A} (λ _. Unit {0}) m (λ a _. Q a) (λ b _. IsOver b)

  either-Post :
      {A : Type 0} (Q : A → Type 0) (b : Bool) (x y : Result Break A × Session W)
      → Post (λ a _. Q a) (λ b _. IsOver b) x
      → Post (λ a _. Q a) (λ b _. IsOver b) y
      → Post (λ a _. Q a) (λ b _. IsOver b) (if b then x else y)
  either-Post Q true x y hx hy = hx
  either-Post Q false x y hx hy = hy

  either-Ends :
      {A : Type 0} (Q : A → Type 0) (b : Bool) (m k : M W A)
      → Ends Q m
      → Ends Q k
      → Ends Q (if b then m else k)
  either-Ends Q true m k hm hk = hm
  either-Ends Q false m k hm hk = hk

  abbrev Goes : Unit {0} → Type 0
  Goes _ = Unit

  checkpoint-Ends : Ends Goes (checkpoint env port)
  unfolding checkpoint
  checkpoint-Ends = record {
    run = λ s h.
        let (passed, t) = awaited env port port.checkpoint s in
        either-Post Goes passed (ok tt, t) (session_cancelled t) tt tt;
  }

  within_limit-Ends :
      Ends Goes (within_limit env port enabled max_minutes deadline max_cycles step_count)
  unfolding within_limit past
  within_limit-Ends = record {
    run = λ s h.
        let (late, t) = asked port.now s in
        (either-Ends Goes (leb deadline late) (limit_reached max_minutes) (pure tt)
            (record { run = λ s h. tt }) (record { run = λ s h. tt })).run
          t tt;
  }

  module _ (step : SessionStep) (done : ℕ) (result : ActionResult) where
    recovery_answer-Ends :
        (n : ℕ) (answer : TimedLegacyCall (Option ActionResult))
        → rounds_left step.repetitions done true < n
        → Ends (Shrinks step.repetitions n) (
            recovery_answer env port enabled max_minutes deadline max_cycles step_count step done
              result answer)
    unfolding recovery_answer
    recovery_answer-Ends n (completed none) l = record { run = λ s h. tt }
    recovery_answer-Ends n (completed (some recovery)) l = record {
      run = λ s h.
          (either-Ends (Shrinks step.repetitions n) (is_succeeded recovery.outcome)
              (if is_gather step.kind then hive_return else resumed done)
              (step_failed env port enabled max_minutes deadline max_cycles step_count result)
              (either-Ends (Shrinks step.repetitions n) (is_gather step.kind) hive_return
                (resumed done) (record { run = λ s h. tt }) (record { run = λ s h. l }))
              (record { run = λ s h. tt })).run
            (tell (action_completed recovery) s).1 tt;
    }
    recovery_answer-Ends n user_cancelled l = record { run = λ s h. tt }
    recovery_answer-Ends n field_deadline l = record { run = λ s h. tt }
    recovery_answer-Ends n session_deadline l = record { run = λ s h. tt }

    left_drops :
        (once : Bool)
        → (enabled && not once) ≡ true
        → rounds_left step.repetitions done true < rounds_left step.repetitions done once
    left_drops true h = ground arith
    left_drops false h = omega arith

    abbrev try_recovery : M W Next
    try_recovery =
        move_engine recovering (codes "session step failed; attempting recovery")
        >> recover env port none deadline
        >>= recovery_answer env port enabled max_minutes deadline max_cycles step_count step done
            result

    try_recovery-Ends :
        (n : ℕ)
        → rounds_left step.repetitions done true < n
        → Ends (Shrinks step.repetitions n) try_recovery
    unfolding recover
    try_recovery-Ends n l = record { run = λ s h. (recovery_answer-Ends n _ l).run _ tt }

    allowed-Ends :
        (once allowed : Bool)
        → (enabled && not once) ≡ allowed
        → Ends (Shrinks step.repetitions (rounds_left step.repetitions done once)) (
            if allowed
            then try_recovery
            else step_failed env port enabled max_minutes deadline max_cycles step_count result)
    allowed-Ends once true h =
        try_recovery-Ends (rounds_left step.repetitions done once) (left_drops once h)
    allowed-Ends once false h = record { run = λ s h. tt }

    done_drops :
        (once : Bool)
        → done < step.repetitions
        → step.repetitions ≤ 65535
        → rounds_left step.repetitions (min (done + 1) 65535) false
          < rounds_left step.repetitions done once
    done_drops true l u = omega arith
    done_drops false l u = omega arith

    by_outcome-Ends :
        (once : Bool) (outcome : ActionOutcome)
        → done < step.repetitions
        → step.repetitions ≤ 65535
        → Ends (Shrinks step.repetitions (rounds_left step.repetitions done once)) (
            by_outcome env port enabled max_minutes deadline max_cycles step_count none step done
              once result outcome)
    unfolding by_outcome after_failure
    by_outcome-Ends once ActionOutcome.succeeded l u = record { run = λ s h. done_drops once l u }
    by_outcome-Ends once ActionOutcome.skipped l u = record { run = λ s h. done_drops once l u }
    by_outcome-Ends once ActionOutcome.cancelled l u = record { run = λ s h. tt }
    by_outcome-Ends once ActionOutcome.failed l u = record {
      run = λ s h. (allowed-Ends once (enabled && not once) refl).run (count_failure s).1 tt;
    }
    by_outcome-Ends once ActionOutcome.needs_attention l u = record {
      run = λ s h. (allowed-Ends once (enabled && not once) refl).run (count_failure s).1 tt;
    }

  step_answer-Ends :
      (step : SessionStep) (done : ℕ) (once : Bool) (answer : TimedLegacyCall ActionResult)
      → done < step.repetitions
      → step.repetitions ≤ 65535
      → Ends (Shrinks step.repetitions (rounds_left step.repetitions done once)) (
          step_answer env port enabled max_minutes deadline max_cycles step_count none step done
            once answer)
  unfolding step_answer
  step_answer-Ends step done once (completed result) l u = record {
    run = λ s h.
        (by_outcome-Ends step done result once result.outcome l u).run
          (tell (action_completed result) s).1 tt;
  }
  step_answer-Ends step done once user_cancelled l u = record { run = λ s h. tt }
  step_answer-Ends step done once field_deadline l u = record { run = λ s h. tt }
  step_answer-Ends step done once session_deadline l u = record { run = λ s h. tt }

  execute_unless-Ends :
      (step : SessionStep) (done : ℕ) (once stop : Bool)
      → leb step.repetitions done ≡ stop
      → step.repetitions ≤ 65535
      → Ends (Shrinks step.repetitions (rounds_left step.repetitions done once)) (
          execute_unless env port enabled max_minutes deadline max_cycles step_count none step done
            once stop)
  unfolding execute_unless execute
  execute_unless-Ends step done once true e u = record { run = λ s h. tt }
  execute_unless-Ends step done once false e u = record {
    run = λ s h. (step_answer-Ends step done once _ (ground arith) u).run _ tt;
  }

  round-Ends :
      (step : SessionStep) (done : ℕ) (once : Bool)
      → step.repetitions ≤ 65535
      → Ends
          (Shrinks step.repetitions (rounds_left step.repetitions done once))
          (round env port enabled max_minutes deadline max_cycles step_count none step done once)
  unfolding round is_finished
  round-Ends step done once u =
      bind_rule
        (checkpoint env port
          >> within_limit env port enabled max_minutes deadline max_cycles step_count
          >> is_finished env port enabled max_minutes deadline max_cycles step_count none step done)
        (execute_unless env port enabled max_minutes deadline max_cycles step_count none step done
          once)
        {Q = λ stop _. leb step.repetitions done ≡ stop}
        (bind_rule
          (checkpoint env port
            >> within_limit env port enabled max_minutes deadline max_cycles step_count)
          (λ _.
            is_finished env port enabled max_minutes deadline max_cycles step_count none step done)
          {Q = λ _ _. Unit}
          (bind_rule (checkpoint env port)
            (λ _. within_limit env port enabled max_minutes deadline max_cycles step_count)
            {Q = λ _ _. Unit} checkpoint-Ends (λ _. within_limit-Ends))
          (λ _. record { run = λ s h. refl }))
        (λ stop. record { run = λ s h. (execute_unless-Ends step done once stop h u).run s tt })

  next-Ends :
      (fuel : ℕ) (step : SessionStep) (n : ℕ) (next : Next)
      → n < suc fuel
      → ((d : ℕ) (r : Bool)
          → rounds_left step.repetitions d r < fuel
          → Ends Goes (
              step_rounds env port enabled max_minutes deadline max_cycles step_count fuel none step
                d r))
      → Triple
          (λ (s : Session W). Shrinks step.repetitions n next)
          (go_on env port enabled max_minutes deadline max_cycles step_count
            (λ d r.
              step_rounds env port enabled max_minutes deadline max_cycles step_count fuel none step
                d r)
            next)
          (λ a _. Goes a)
          (λ b _. IsOver b)
  unfolding go_on
  next-Ends fuel step n step_over l f = record { run = λ s h. tt }
  next-Ends fuel step n (again d r) l f = record { run = λ s h. (f d r (omega arith)).run s tt }

  not_out :
      (r : Result Break (Unit {0}) × Session W)
      → Post (λ a _. Goes a) (λ b _. IsOver b) r
      → r.0 ≢ err out_of_fuel
  not_out (ok _, s) h e = cc
  not_out (err (session_over v), s) h e = cc
  not_out (err out_of_fuel, s) h e = h

  step_rounds-Ends :
      (fuel : ℕ) (step : SessionStep) (done : ℕ) (once : Bool)
      → step.repetitions ≤ 65535
      → rounds_left step.repetitions done once < fuel
      → Ends Goes (
          step_rounds env port enabled max_minutes deadline max_cycles step_count fuel none step
            done once)
  unfolding step_rounds go_on
  step_rounds-Ends zero step done once u l = ground arith
  step_rounds-Ends (suc fuel) step done once u l =
      bind_rule
        (round env port enabled max_minutes deadline max_cycles step_count none step done once) _
        {Q = λ next _. Shrinks step.repetitions (rounds_left step.repetitions done once) next}
        (round-Ends step done once u)
        (λ next.
          next-Ends fuel step (rounds_left step.repetitions done once) next l
            (λ d r shorter. step_rounds-Ends fuel step d r u shorter))

  -- The loop of a step without a field deadline ends within two rounds for each repetition and two
  -- more, whatever the port, the clock and the other tasks do: it never runs out of such fuel. The
  -- repetitions are those of a `u16`.
  pub step_rounds-enough_fuel :
      (fuel : ℕ) (step : SessionStep) (s : Session W)
      → step.repetitions ≤ 65535
      → 2 * step.repetitions + 1 < fuel
      → (step_rounds env port enabled max_minutes deadline max_cycles step_count fuel none step 0
          false s).0
        ≢ err out_of_fuel
  step_rounds-enough_fuel fuel step s u l =
      not_out
        (step_rounds env port enabled max_minutes deadline max_cycles step_count fuel none step 0
          false s)
        ((step_rounds-Ends fuel step 0 false u (omega arith)).run s tt)
