-- ===== src/Engine/Outcome.antt =====
-- What `run_worker` of crates/nectarpilot-core/src/engine.rs leaves, whatever the backend answers and
-- whatever commands other tasks run meanwhile.
use roblox.Prelude.{
  ℕ, Text, codes, Bool, true, false, ◌&&◌, ◌||◌, none, some, [], ◌≡◌, ◌≢◌, ◌⊎◌, refl, ap, sym, ◌∙◌,
  subst, inl, inr, Result, ok, err, is_ok,
}
use roblox.Contracts.{RunState, idle, running, paused, recovering, stopping, faulted, ActionOutcome}
use roblox.Reconnect.{ReconnectPolicy, ReconnectOutcome}
use roblox.Engine.{
  AutomationError, ActionResult, Engine, Environment, same_state, emit, moved, transition,
  finish_worker,
}
use roblox.Engine.Log.{
  Phase, phase_of, cleaned, Allowed, AllInOrder, Told, world-Told, last_state, last_number,
}
use roblox.Engine.Steps.{transition-Told, completed-Told}
use roblox.Engine.Calls.{
  fresh_phase, after_preflight_phase, after_run_phase, after_release_phase, await_preflight-Told,
  await_execute-Told, await_release-Told, reconnects-Told,
}
use roblox.Engine.Worker.{
  Verdict, state_after, is_failed, reconnect_verdict, after_cleanup, after_release, finish,
  await_release, ask_cancelled, reconnect, unless_cancelled, recover, release_and_finish,
  after_execute, reject, after_preflight, run_worker,
}

-- The states in which a worker may end.
abbrev pub is_final : RunState → Bool
is_final idle = true
is_final RunState.needs_attention = true
is_final faulted = true
is_final _ = false

-- An engine whose worker has ended: nothing of the worker is left, the events and calls are in order
-- and tell the state, and unless the engine is faulted the worker's last call of the backend
-- released all inputs.
pub record Ended (start : RunState) (base : ℕ) (enabled : Bool) {W : Type 0} (s : Engine W)
    : Type 0 where
  pub ordered : AllInOrder start base enabled s.log
  pub now : s.state ≡ last_state start s.log
  pub number : s.sequence ≡ last_number base s.log
  pub final : is_final s.state ≡ true
  pub no_task : s.active_task ≡ none
  pub no_token : s.cancellation ≡ false
  pub no_channel : s.pause_sender ≡ false
  pub safe : s.state ≢ faulted → cleaned s.log ≡ true

module _ (start : RunState) (base : ℕ) (enabled : Bool) where
  final_Allowed : (c : RunState) (ph : Phase) → is_final c ≡ true → Allowed start base enabled c ph
  final_Allowed idle ph h = tt
  final_Allowed RunState.preflight ph h = cc
  final_Allowed running ph h = cc
  final_Allowed paused ph h = cc
  final_Allowed recovering ph h = cc
  final_Allowed RunState.needs_attention ph h = tt
  final_Allowed stopping ph h = cc
  final_Allowed faulted ph h = tt

  -- A transition sets the state and leaves what `finish_worker` has cleared.
  record Cleared {W : Type 0} (c : RunState) (s : Engine W) : Type 0 where
    at : s.state ≡ c
    task : s.active_task ≡ none
    token : s.cancellation ≡ false
    channel : s.pause_sender ≡ false

  moved-Cleared :
      {W : Type 0} (same : Bool) (previous c : RunState) (reason : Text) (s : Engine W)
      → Cleared s.state s
      → Cleared c (moved same previous c reason s)
  unfolding moved emit
  moved-Cleared true previous c reason s h = record {
    at = refl;
    task = h.task;
    token = h.token;
    channel = h.channel;
  }
  moved-Cleared false previous c reason s h = record {
    at = refl;
    task = h.task;
    token = h.token;
    channel = h.channel;
  }

  finish-Ended :
      {W : Type 0} (ph : Phase) (v : Verdict) (s : Engine W)
      → is_final v.final_state ≡ true
      → (v.final_state ≢ faulted → ph.is_clean ≡ true)
      → Told start base enabled ph s
      → Ended start base enabled (finish v s)
  unfolding finish finish_worker transition
  finish-Ended ph v s final safe t =
      let bare = record s { active_task = none; cancellation = false; pause_sender = false } in
      let told =
        transition-Told start base enabled v.final_state v.reason bare
          (final_Allowed v.final_state ph final)
          (record {
            ordered = t.ordered;
            now = t.now;
            number = t.number;
            phase = t.phase;
            allowed = t.allowed;
          }) in
      let cleared =
        moved-Cleared (same_state s.state v.final_state) s.state v.final_state v.reason bare
          (record { at = refl; task = refl; token = refl; channel = refl }) in
      record {
        ordered = told.ordered;
        now = told.now;
        number = told.number;
        final = ap is_final cleared.at ∙ final;
        no_task = cleared.task;
        no_token = cleared.token;
        no_channel = cleared.channel;
        safe = λ sound.
            ap (λ (p : Phase). p.is_clean) told.phase ∙ safe (λ bad. sound (cleared.at ∙ bad));
      }

  released-Ended :
      {W : Type 0} (r : Result AutomationError (Unit {0})) (ph : Phase) (w : Verdict) (s : Engine W)
      → ((is_ok r ≡ true) × (is_final w.final_state ≡ true)) ⊎ (w.final_state ≡ faulted)
      → Told start base enabled (after_release_phase r ph) s
      → Ended start base enabled (finish w s)
  released-Ended r ph w s (inl (good, final)) t =
      finish-Ended (after_release_phase r ph) w s final (λ sound. good) t
  released-Ended r ph w s (inr bad) t =
      finish-Ended (after_release_phase r ph) w s (ap is_final bad) (λ sound. absurd (sound bad)) t

  module _ {W : Type 0} (env : Environment W) (policy : ReconnectPolicy) where
    after_release_ends :
        (v : Verdict) (r : Result AutomationError (Unit {0}))
        → is_final v.final_state ≡ true
        → ((is_ok r ≡ true) × (is_final (after_release v r).final_state ≡ true))
          ⊎ ((after_release v r).final_state ≡ faulted)
    after_release_ends v (ok _) final = inl (refl, final)
    after_release_ends v (err e) final = inr refl

    after_cleanup_ends :
        (reason : Text) (r : Result AutomationError (Unit {0}))
        → ((is_ok r ≡ true) × (is_final (after_cleanup reason r).final_state ≡ true))
          ⊎ ((after_cleanup reason r).final_state ≡ faulted)
    after_cleanup_ends reason (ok _) = inl (refl, refl)
    after_cleanup_ends reason (err e) = inr refl

    release_and_finish-Ended :
        (ph : Phase) (v : Verdict) (s : Engine W)
        → is_final v.final_state ≡ true
        → Told start base enabled ph s
        → Ended start base enabled (release_and_finish env enabled policy v s)
    unfolding release_and_finish
    release_and_finish-Ended ph v s final t =
        released-Ended (await_release env s).0 ph _ _
          (after_release_ends v (await_release env s).0 final)
          (await_release-Told start base enabled env ph s t)

    reject-Ended :
        (e : AutomationError) (s : Engine W)
        → Told start base enabled fresh_phase s
        → Ended start base enabled (reject env enabled policy e s)
    unfolding reject
    reject-Ended e s t = released-Ended _ fresh_phase _ _ (after_cleanup_ends _ _) (
        await_release-Told start base enabled env fresh_phase _
          (completed-Told start base enabled _ s t))

    verdict_final : (o : ReconnectOutcome) → is_final (reconnect_verdict o).final_state ≡ true
    unfolding reconnect_verdict
    verdict_final (ReconnectOutcome.succeeded k) = refl
    verdict_final (ReconnectOutcome.exhausted k e) = refl
    verdict_final (ReconnectOutcome.deadline_exceeded k) = refl
    verdict_final (ReconnectOutcome.cancelled k) = refl

    -- A verdict with a final state, and an engine that has run the automation.
    abbrev Recovered : Bool → Verdict × Engine W → Type 0
    Recovered failed (v, s) =
        (is_final v.final_state ≡ true) × Told start base enabled (after_run_phase failed) s

    reconnect-Recovered :
        (failed : Bool) (s : Engine W)
        → ((failed || false) && enabled) ≡ true
        → Told start base enabled (after_run_phase failed) s
        → Recovered failed (reconnect env enabled policy s)
    unfolding reconnect
    reconnect-Recovered failed s h t = (
      verdict_final _,
      reconnects-Told start base enabled env failed policy _ h (
          transition-Told start base enabled recovering (codes "automation failed; reconnecting")
            (record s { active_task = some (codes "reconnect") }) h
            (record {
              ordered = t.ordered;
              now = t.now;
              number = t.number;
              phase = t.phase;
              allowed = t.allowed;
            })),
    )

    unless_cancelled-Recovered :
        (failed stopped : Bool) (v : Verdict) (s : Engine W)
        → ((failed || false) && enabled) ≡ true
        → is_final v.final_state ≡ true
        → Told start base enabled (after_run_phase failed) s
        → Recovered failed (unless_cancelled env enabled policy v (stopped, s))
    unfolding unless_cancelled
    unless_cancelled-Recovered failed true v s h final t = (final, t)
    unless_cancelled-Recovered failed false v s h final t = reconnect-Recovered failed s h t

    recover-Recovered :
        (failed wanted : Bool) (v : Verdict) (s : Engine W)
        → (wanted ≡ true → ((failed || false) && enabled) ≡ true)
        → is_final v.final_state ≡ true
        → Told start base enabled (after_run_phase failed) s
        → Recovered failed (recover env enabled policy wanted v s)
    unfolding recover ask_cancelled
    recover-Recovered failed false v s h final t = (final, t)
    recover-Recovered failed true v s h final t =
        unless_cancelled-Recovered failed _ v _ (h refl) final (world-Told start base enabled s _ t)

    state_after_final : (o : ActionOutcome) → is_final (state_after o) ≡ true
    state_after_final ActionOutcome.succeeded = refl
    state_after_final ActionOutcome.skipped = refl
    state_after_final ActionOutcome.cancelled = refl
    state_after_final ActionOutcome.failed = refl
    state_after_final ActionOutcome.needs_attention = refl

    may_reconnect : (b : Bool) → (b && enabled) ≡ true → ((b || false) && enabled) ≡ true
    may_reconnect true h = h
    may_reconnect false h = cc

    after_execute-Ended :
        (result : ActionResult) (s : Engine W)
        → Told start base enabled (after_run_phase (is_failed result.outcome)) s
        → Ended start base enabled (after_execute env enabled policy (result, s))
    unfolding after_execute
    after_execute-Ended result s t =
        let recovered =
          recover-Recovered (is_failed result.outcome) (is_failed result.outcome && enabled) _ _
            (may_reconnect _) (state_after_final result.outcome)
            (completed-Told start base enabled result s t) in
        release_and_finish-Ended _ _ _ recovered.0 recovered.1

    after_preflight-Ended :
        (r : Result AutomationError (Unit {0})) (s : Engine W)
        → Told start base enabled (after_preflight_phase r) s
        → Ended start base enabled (after_preflight env enabled policy (r, s))
    unfolding after_preflight
    after_preflight-Ended (err e) s t = reject-Ended e s t
    after_preflight-Ended (ok _) s t = after_execute-Ended _ _ (
        await_execute-Told start base enabled env _ (
          transition-Told start base enabled running (codes "preflight passed") _ refl (record {
            ordered = t.ordered;
            now = t.now;
            number = t.number;
            phase = t.phase;
            allowed = t.allowed;
          })))

-- A worker that starts in `Preflight` on an empty log ends, whatever the backend answers and whatever
-- commands come between, in `Idle`, `NeedsAttention` or `Faulted`, with no task, token or pause
-- channel left. Over the whole run: the events are numbered one after another (modulo 2^64); every
-- state change starts in the state in which the one before it ended and changes it, and the last one
-- gives the final state; the engine is `Running` or `Paused` only after an accepted preflight and
-- `Recovering` only after a failed run with reconnects enabled; the automation runs once at most,
-- after an accepted preflight; and a reconnect is attempted only after a failed run with reconnects
-- enabled. Unless the engine ends `Faulted`, the worker's last call of the backend is a release of
-- all inputs that succeeded.
pub run_worker-Ended :
    {W : Type 0} (env : Environment W) (enabled : Bool) (policy : ReconnectPolicy) (s : Engine W)
    → s.state ≡ RunState.preflight
    → s.log ≡ []
    → Ended s.state s.sequence enabled (run_worker env enabled policy s)
unfolding run_worker
run_worker-Ended env enabled policy s begun empty =
    after_preflight-Ended s.state s.sequence enabled env policy _ _ (
      await_preflight-Told s.state s.sequence enabled env s (record {
        ordered = subst (AllInOrder s.state s.sequence enabled) (sym empty) tt;
        now = ap (last_state s.state) (sym empty);
        number = ap (last_number s.sequence) (sym empty);
        phase = ap phase_of empty;
        allowed = subst (λ c. Allowed s.state s.sequence enabled c fresh_phase) (sym begun) tt;
      }))
