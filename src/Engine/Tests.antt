-- ===== src/Engine/Tests.antt =====
-- Runs of the engine's worker on a concrete backend.
use roblox.Prelude.{ℕ, codes, true, false, some, [], ◌∷◌, refl, ok}
use roblox.Contracts.{RunState, failed}
use roblox.Reconnect.{slept, default_policy}
use roblox.Engine.{pause, resume, Engine, Raced, Limited, Environment}
use roblox.Engine.Worker.{run_worker, action_result}
use roblox.Engine.Outcome.{Ended, run_worker-Ended}

-- A backend that accepts the preflight, fails to run, and reconnects at once, while other tasks pause
-- and resume.
abbrev pub flaky : Environment ℕ
flaky = record {
  preflight = λ w. (Raced.returned (ok tt), w);
  execute = λ w. (Raced.returned (action_result (codes "gather") failed (codes "lost")), w);
  reconnect_attempt = λ number remaining w. (Limited.returned (ok tt), w);
  release_all_inputs = λ w. (ok tt, w);
  is_cancelled = λ w. (false, w);
  elapsed = λ w. (w, w);
  sleep = λ delay remaining w. (slept, w);
  cancel = λ w. w;
  signal = λ on w. (true, w);
  port_pause = λ w. (ok tt, w);
  port_resume = λ w. (ok tt, w);
  port_cancel = λ w. (ok tt, w);
  meanwhile = λ w. (pause ∷ resume ∷ [], w);
}

abbrev pub started : Engine ℕ
started = record {
  world = 0;
  state = RunState.preflight;
  active_task = some (codes "preflight");
  sequence = 7;
  cancellation = true;
  pause_sender = true;
  legacy_port = false;
  log = [];
}

run_worker-Ended_example :
    Ended RunState.preflight 7 true (run_worker flaky true default_policy started)
run_worker-Ended_example = run_worker-Ended flaky true default_policy started refl refl
