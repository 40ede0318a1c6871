-- ===== src/LegacySession/Tests.antt =====
-- A session on a port that accepts everything, for the theorems about
-- crates/nectarpilot-core/src/engine.rs.
use roblox.Prelude.{
  ℕ, ◌+◌, true, codes, none, false, text_eq, map, [], ◌∷◌, ◌≡◌, refl, any, ◌≢◌, ok, err, some,
  arith,
}
use roblox.Contracts.{ActionOutcome}
use roblox.SessionPlan.{SessionStep, travel, reset_step, builtin_reset_script_id}
use roblox.Engine.Worker.{action_result}
use roblox.Engine.Tests.{flaky, started}
use roblox.LegacySession.{LegacyPort, Session, SessionCall, TimedLegacyCall}
use roblox.LegacySession.{out_of_fuel}
use roblox.LegacySession.Run.{run_legacy_session_worker, step_rounds}
use roblox.LegacySession.Rounds.{step_rounds-enough_fuel}
use roblox.LegacySession.Preflights.{AllAccepted, run_legacy_session_worker-AllAccepted}

-- The world is its clock, which goes on with every execution.
abbrev willing : LegacyPort ℕ
willing = record {
  preflight = λ id sha w. (ok tt, w);
  execute = λ session id sha w.
      (SessionCall.completed (action_result id ActionOutcome.succeeded (codes "done")), w + 1);
  execute_until = λ field session id sha w. (TimedLegacyCall.field_deadline, w + 1);
  recover = λ session w. (SessionCall.completed none, w);
  recover_until = λ field session w. (TimedLegacyCall.completed none, w);
  checkpoint = λ w. (true, w);
  now = λ w. (w, w);
  runtime_value = λ key w. (ok none, w);
  set_runtime_value = λ key value w. (ok tt, w);
  minutes_passed = λ value minutes w. (some true, w);
  rfc3339_now = λ w. (codes "2026-07-11T00:00:00Z", w);
  record_run_outcome = λ state reason succeeded failed w. w;
}

abbrev walk : SessionStep
walk = record {
  kind = travel;
  script_id = codes "legacy:route:paths/gtf-rose.ahk";
  approved_sha256 = codes "aa";
  repetitions = 1;
  gather_seconds = none;
  description = codes "Travel to Rose";
}

abbrev begun : Session ℕ
begun = record { engine = started; calls = []; succeeded = 0; failed = 0 }

resets :
    any
      (text_eq builtin_reset_script_id)
      (map (λ (step : SessionStep). step.script_id) (walk ∷ reset_step ∷ []))
    ≡ true
unfolding text_eq reset_step
resets = refl

run_legacy_session_worker-AllAccepted_example :
    AllAccepted
      (run_legacy_session_worker flaky willing 9 true (walk ∷ reset_step ∷ []) [] 2 60 begun).calls
run_legacy_session_worker-AllAccepted_example =
    run_legacy_session_worker-AllAccepted flaky willing 9 true (walk ∷ reset_step ∷ []) [] 2 60
      begun refl resets

step_rounds-enough_fuel_example :
    (step_rounds flaky willing true 60 1000 2 2 9 none walk 0 false begun).0 ≢ err out_of_fuel
step_rounds-enough_fuel_example =
    step_rounds-enough_fuel flaky willing true 60 1000 2 2 9 walk begun (omega arith) (omega arith)
