-- ===== src/Engine/Calls.antt =====
-- The calls that the worker of crates/nectarpilot-core/src/engine.rs waits for, and the phase to
-- which each of them takes the engine.
use roblox.Prelude.{ℕ, Bool, true, false, ◌&&◌, ◌||◌, ◌≡◌, refl, ap, ◌∙◌, Result, ok, is_ok, arith}
use roblox.Contracts.{RunState, idle, running, paused, recovering, stopping, faulted}
use roblox.Reconnect.{ReconnectPolicy, run_bounded_reconnect}
use roblox.Reconnect.Frame.{run-keeps}
use roblox.Engine.{AutomationError, Engine, Environment, interleave}
use roblox.Engine.Log.{Phase, Allowed, Told, world-Told}
use roblox.Engine.Commands.{interleave-Told}
use roblox.Engine.Steps.{progress-Told}
use roblox.Engine.Worker.{
  is_failed, preflight_result, execute_result, await_preflight, await_execute, await_release,
  await_sleep, await_attempt, ask_cancelled, ask_elapsed, around,
}

abbrev pub fresh_phase : Phase
fresh_phase = record { has_passed = false; was_run = false; run_failed = false; is_clean = false }

abbrev pub after_preflight_phase : Result AutomationError (Unit {0}) → Phase
after_preflight_phase r = record {
  has_passed = is_ok r || false;
  was_run = false;
  run_failed = false;
  is_clean = false;
}

abbrev pub after_run_phase : Bool → Phase
after_run_phase run_failed = record {
  has_passed = true;
  was_run = true;
  run_failed = run_failed || false;
  is_clean = false;
}

abbrev pub after_release_phase : Result AutomationError (Unit {0}) → Phase → Phase
after_release_phase r ph = record ph { is_clean = is_ok r }

module _ (start : RunState) (base : ℕ) (enabled : Bool) where
  -- A later phase allows every state that an earlier one allows.
  pub Allowed-later :
      (c : RunState) (ph ph' : Phase)
      → (ph.has_passed ≡ true → ph'.has_passed ≡ true)
      → (ph.run_failed ≡ true → ph'.run_failed ≡ true)
      → Allowed start base enabled c ph
      → Allowed start base enabled c ph'
  Allowed-later idle ph ph' f g a = tt
  Allowed-later RunState.preflight ph ph' f g a = tt
  Allowed-later running ph ph' f g a = f a
  Allowed-later paused ph ph' f g a = f a
  Allowed-later recovering ph ph' f g a = ground arith
  Allowed-later RunState.needs_attention ph ph' f g a = tt
  Allowed-later stopping ph ph' f g a = tt
  Allowed-later faulted ph ph' f g a = tt

  module _ {W : Type 0} (env : Environment W) where
    pub await_preflight-Told :
        (s : Engine W)
        → Told start base enabled fresh_phase s
        → Told start base enabled
            (after_preflight_phase (await_preflight env s).0)
            (await_preflight env s).1
    unfolding await_preflight
    await_preflight-Told s t =
        let before = interleave-Told start base enabled env s t in
        let r = preflight_result (env.preflight (interleave env s).world).0 in
        interleave-Told start base enabled env _ (record {
          ordered = (tt, before.ordered);
          now = before.now;
          number = before.number;
          phase =
              ap
                (λ (p : Phase). record {
                  has_passed = is_ok r || p.has_passed;
                  was_run = p.was_run;
                  run_failed = p.run_failed;
                  is_clean = false;
                })
                before.phase;
          allowed =
              Allowed-later _ fresh_phase (after_preflight_phase r) (λ h. cc) (λ h. cc)
                before.allowed;
        })

    pub await_execute-Told :
        (s : Engine W)
        → Told start base enabled (after_preflight_phase (ok tt)) s
        → Told start base enabled
            (after_run_phase (is_failed (await_execute env s).0.outcome))
            (await_execute env s).1
    unfolding await_execute
    await_execute-Told s t =
        let before = interleave-Told start base enabled env s t in
        let r = execute_result (env.execute (interleave env s).world).0 in
        interleave-Told start base enabled env _ (record {
          ordered = (
            (
              ap (λ (p : Phase). p.has_passed) before.phase,
              ap (λ (p : Phase). p.was_run) before.phase,
            ),
            before.ordered,
          );
          now = before.now;
          number = before.number;
          phase =
              ap
                (λ (p : Phase). record {
                  has_passed = p.has_passed;
                  was_run = true;
                  run_failed = is_failed r.outcome || p.run_failed;
                  is_clean = false;
                })
                before.phase;
          allowed =
              Allowed-later _ (after_preflight_phase (ok tt))
                (after_run_phase (is_failed r.outcome)) (λ h. refl) (λ h. cc) before.allowed;
        })

    pub await_release-Told :
        (ph : Phase) (s : Engine W)
        → Told start base enabled ph s
        → Told start base enabled
            (after_release_phase (await_release env s).0 ph)
            (await_release env s).1
    unfolding await_release
    await_release-Told ph s t =
        let before = interleave-Told start base enabled env s t in
        let r = (env.release_all_inputs (interleave env s).world).0 in
        interleave-Told start base enabled env _ (record {
          ordered = (tt, before.ordered);
          now = before.now;
          number = before.number;
          phase = ap (after_release_phase r) before.phase;
          allowed = Allowed-later _ ph (after_release_phase r ph) (λ h. h) (λ h. h) before.allowed;
        })

    await_attempt-Told :
        (failed : Bool) (number remaining : ℕ) (s : Engine W)
        → ((failed || false) && enabled) ≡ true
        → Told start base enabled (after_run_phase failed) s
        → Told start base enabled (after_run_phase failed) (await_attempt env number remaining s).1
    unfolding await_attempt
    await_attempt-Told failed number remaining s h t =
        let before = interleave-Told start base enabled env s t in
        interleave-Told start base enabled env _ (record {
          ordered = (ap (λ (p : Phase). p.run_failed && enabled) before.phase ∙ h, before.ordered);
          now = before.now;
          number = before.number;
          phase = ap (λ (p : Phase). record p { is_clean = false }) before.phase;
          allowed = before.allowed;
        })

    -- The reconnects of a failed run that may reconnect keep the log in order.
    pub reconnects-Told :
        (failed : Bool) (policy : ReconnectPolicy) (s : Engine W)
        → ((failed || false) && enabled) ≡ true
        → Told start base enabled (after_run_phase failed) s
        → Told start base enabled
            (after_run_phase failed)
            (run_bounded_reconnect (around env) policy s).1.world
    unfolding ask_cancelled ask_elapsed await_sleep
    reconnects-Told failed policy s h t =
        run-keeps (around env) policy (Told start base enabled (after_run_phase failed))
          (record {
            is_cancelled = λ s t. world-Told start base enabled s _ t;
            elapsed = λ s t. world-Told start base enabled s _ t;
            sleep = λ delay remaining s t.
                interleave-Told start base enabled env _
                  (world-Told start base enabled _ _ (interleave-Told start base enabled env s t));
            attempt = λ number remaining s t. await_attempt-Told failed number remaining s h t;
            progress = λ p s t. progress-Told start base enabled p s t;
          })
          s t
