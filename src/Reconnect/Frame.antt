-- ===== src/Reconnect/Frame.antt =====
-- What `run_bounded_reconnect` (crates/nectarpilot-core/src/reconnect.rs) leaves alone: a property of
-- the world that each of the functions it is given keeps.
use roblox.Prelude.{
  ℕ, zero, suc, ◌+◌, Text, Option, none, some, [], Bool-cases, inl, inr, Result, ok, err, ◌==◌,
}
use roblox.Prelude.Early.{Post, Kept, kept_either_way, bind_rule}
use roblox.Reconnect.{
  ReconnectPolicy, ReconnectOutcome, ReconnectProgress, Surroundings, Run, delay_for,
  check_cancelled, time_left, sleep, back_off, report, attempt, round, rounds,
  run_bounded_reconnect,
}

pub record Keeps {W : Type 0} (around : Surroundings W) (I : W → Type 0) : Type 0 where
  pub is_cancelled : (w : W) → I w → I (around.is_cancelled w).1
  pub elapsed : (w : W) → I w → I (around.elapsed w).1
  pub sleep : (delay remaining : ℕ) (w : W) → I w → I (around.sleep delay remaining w).1
  pub attempt : (number remaining : ℕ) (w : W) → I w → I (around.attempt number remaining w).1
  pub progress : (p : ReconnectProgress) (w : W) → I w → I (around.progress p w)

module _ {W : Type 0} (around : Surroundings W) (policy : ReconnectPolicy) (I : W → Type 0)
    (keeps : Keeps around I) where
  -- The property of the world, as one of the run.
  abbrev Still : Run W → Type 0
  Still s = I s.world

  check_cancelled-Kept : (completed : ℕ) → Kept Still (check_cancelled around policy completed)
  unfolding check_cancelled
  check_cancelled-Kept completed = record {
    run = λ s h. kept_either_way Still _ _ (keeps.is_cancelled s.world h);
  }

  time_left-Kept : (completed : ℕ) → Kept Still (time_left around policy completed)
  unfolding time_left
  time_left-Kept completed = record {
    run = λ s h. kept_either_way Still _ _ (keeps.elapsed s.world h);
  }

  sleep-Kept :
      (completed delay remaining : ℕ) → Kept Still (sleep around policy completed delay remaining)
  unfolding sleep
  sleep-Kept completed delay remaining = record {
    run = λ s h. kept_either_way Still _ _ (keeps.sleep delay remaining s.world h);
  }

  back_off-Kept :
      (completed delay remaining : ℕ)
      → Kept Still (back_off around policy completed delay remaining)
  unfolding back_off
  back_off-Kept completed delay remaining = elim (Bool-cases (delay == 0)) [
    | inl e ↦ rw e (record { run = λ s h. h })
    | inr e ↦ rw e (sleep-Kept completed delay remaining)
  ]

  report-Kept : (number elapsed : ℕ) → Kept Still (report around policy number elapsed)
  unfolding report
  report-Kept number elapsed = record { run = λ s h. keeps.progress _ s.world h }

  attempt-Kept :
      (completed number remaining : ℕ)
      → Kept Still (attempt around policy completed number remaining)
  unfolding attempt
  attempt-Kept completed number remaining = record {
    run = λ s h. kept_either_way Still _ _ (keeps.attempt number remaining s.world h);
  }

  round-Kept : (completed : ℕ) → Kept Still (round around policy completed)
  unfolding round
  round-Kept completed =
      bind_rule (check_cancelled around policy completed) _ (check_cancelled-Kept completed) (λ _.
        bind_rule (time_left around policy completed) _ (time_left-Kept completed) (λ first.
          bind_rule (back_off around policy completed (delay_for policy (completed + 1)) first.1) _
            (back_off-Kept completed (delay_for policy (completed + 1)) first.1)
            (λ _.
              bind_rule (time_left around policy completed) _ (time_left-Kept completed) (λ second.
                bind_rule (report around policy (completed + 1) second.0) _
                  (report-Kept (completed + 1) second.0)
                  (λ _. attempt-Kept completed (completed + 1) second.1)))))

  rounds-Kept :
      (left completed : ℕ) (last_error : Option Text)
      → Kept Still (rounds around policy left completed last_error)
  unfolding rounds
  rounds-Kept zero completed last_error = record { run = λ s h. h }
  rounds-Kept (suc left) completed last_error =
      bind_rule (round around policy completed) _ (round-Kept completed)
        (λ error. rounds-Kept left (completed + 1) (some error))

  -- What the functions keep holds of the world that the whole run leaves.
  pub run-keeps : (w : W) → I w → I (run_bounded_reconnect around policy w).1.world
  unfolding run_bounded_reconnect
  run-keeps w h =
      go (rounds around policy policy.maximum_attempts 0 none (record { world = w; log = [] }))
        ((rounds-Kept policy.maximum_attempts 0 none).run _ h)
    where
      go :
          (r : Result ReconnectOutcome (ℕ × Option Text) × Run W)
          → Post (λ _ s. I s.world) (λ _ s. I s.world) r
          → I r.1.world
      go (ok a, s) h = h
      go (err e, s) h = h
