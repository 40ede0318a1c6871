-- ===== src/Engine/Steps.antt =====
-- Events and transitions of crates/nectarpilot-core/src/engine.rs keep the log in order, and so do the
-- statements of a command that change the world alone.
use roblox.Prelude.{
  ℕ, ◌+◌, ◌%◌, ◌^◌, Text, Bool, true, false, ◌≡◌, ◌≢◌, refl, ap, sym, ◌∙◌, subst, ==_iff,
  if◌then◌else◌, Result, ok, ◌==◌,
}
use roblox.Prelude.Early.{◌>>◌, Post, bind_rule, Kept, kept_either_way}
use roblox.Contracts.{RunState, idle, running, paused, recovering, stopping, faulted}
use roblox.Reconnect.{ReconnectProgress}
use roblox.Engine.{
  AutomationError, ActionResult, action_completed, reconnect_progress, Engine, Environment,
  same_state, state_rank, emit, moved, transition, unless, ask, on_port, delivered, signal_pause,
}
use roblox.Engine.Log.{Phase, Allowed, Told}

-- The state of each rank.
abbrev state_of : ℕ → RunState
state_of n =
    if n == 0
    then idle
    else if n == 1
    then RunState.preflight
    else if n == 2
    then running
    else if n == 3
    then paused
    else if n == 4
    then recovering
    else if n == 5
    then RunState.needs_attention
    else if n == 6
    then stopping
    else faulted

state_of-state_rank : (s : RunState) → state_of (state_rank s) ≡ s
state_of-state_rank idle = refl
state_of-state_rank RunState.preflight = refl
state_of-state_rank running = refl
state_of-state_rank paused = refl
state_of-state_rank recovering = refl
state_of-state_rank RunState.needs_attention = refl
state_of-state_rank stopping = refl
state_of-state_rank faulted = refl

pub same_state→eq : (s t : RunState) → same_state s t ≡ true → s ≡ t
same_state→eq s t h =
    sym (state_of-state_rank s)
    ∙ ap state_of ((==_iff (state_rank s) (state_rank t)).0 h)
    ∙ state_of-state_rank t

same_state_refl : (s t : RunState) → s ≡ t → same_state s t ≡ true
same_state_refl s t h = (==_iff (state_rank s) (state_rank t)).1 (ap state_rank h)

module _ (start : RunState) (base : ℕ) (enabled : Bool) {W : Type 0} {ph : Phase} where
  pub completed-Told :
      (r : ActionResult) (s : Engine W)
      → Told start base enabled ph s
      → Told start base enabled ph (emit (action_completed r) s)
  unfolding emit
  completed-Told r s t = record {
    ordered = (ap (λ n. (n + 1) % 2 ^ 64) t.number, t.ordered);
    now = t.now;
    number = refl;
    phase = t.phase;
    allowed = t.allowed;
  }

  pub progress-Told :
      (p : ReconnectProgress) (s : Engine W)
      → Told start base enabled ph s
      → Told start base enabled ph (emit (reconnect_progress p) s)
  unfolding emit
  progress-Told p s t = record {
    ordered = (ap (λ n. (n + 1) % 2 ^ 64) t.number, t.ordered);
    now = t.now;
    number = refl;
    phase = t.phase;
    allowed = t.allowed;
  }

  moved-Told :
      (same : Bool) (current : RunState) (reason : Text) (s : Engine W)
      → same_state s.state current ≡ same
      → Allowed start base enabled current ph
      → Told start base enabled ph s
      → Told start base enabled ph (moved same s.state current reason s)
  unfolding moved emit
  moved-Told true current reason s e a t = record {
    ordered = t.ordered;
    now = sym (same_state→eq s.state current e) ∙ t.now;
    number = t.number;
    phase = t.phase;
    allowed = a;
  }
  moved-Told false current reason s e a t = record {
    ordered = (
      (
        ap (λ n. (n + 1) % 2 ^ 64) t.number,
        t.now,
        (λ same. true≢false (sym (same_state_refl s.state current same) ∙ e)),
        subst (λ p. Allowed start base enabled current p) (sym t.phase) a,
      ),
      t.ordered,
    );
    now = refl;
    number = refl;
    phase = t.phase;
    allowed = a;
  }
    where
      true≢false : true ≢ false
      true≢false h = cc

  pub transition-Told :
      (current : RunState) (reason : Text) (s : Engine W)
      → Allowed start base enabled current ph
      → Told start base enabled ph s
      → Told start base enabled ph (transition current reason s)
  unfolding transition
  transition-Told current reason s a t = moved-Told _ current reason s refl a t

-- What is kept by the statements of a command that change the world alone.
module _ {W : Type 0} (I : Engine W → Type 0)
    (closed : (s : Engine W) (w : W) → I s → I (record s { world = w })) where
  pub ask-Kept : (call : W → Result AutomationError (Unit {0}) × W) → Kept I (ask call)
  ask-Kept call = record { run = λ s h. kept_either_way I _ _ (closed s _ h) }

  pub unless-Kept :
      (good : Engine W → Bool) (e : AutomationError) → Kept I (λ s. unless (good s) e s)
  unless-Kept good e = record { run = λ s h. kept_either_way I _ s h }

  pub on_port-Kept :
      (env : Environment W) (call : W → Result AutomationError (Unit {0}) × W)
      → Kept I (on_port env call)
  unfolding on_port
  on_port-Kept env call = record { run = λ s h. go s _ h }
    where
      go :
          (s : Engine W) (legacy : Bool)
          → I s
          → Post
              (λ _. I)
              (λ _. I)
              (if legacy
                then (unless s.legacy_port AutomationError.legacy_unavailable >> ask call) s
                else (ok tt, s))
      go s true h =
          (bind_rule (unless s.legacy_port AutomationError.legacy_unavailable) _
              (unless-Kept (λ _. s.legacy_port) AutomationError.legacy_unavailable)
              (λ _. ask-Kept call)).run
            s h
      go s false h = h

  pub signal_pause-Kept : (env : Environment W) (on : Bool) → Kept I (signal_pause env on)
  unfolding signal_pause
  signal_pause-Kept env on =
      bind_rule (λ s. unless s.pause_sender AutomationError.worker_not_running s) _
        (unless-Kept (λ s. s.pause_sender) AutomationError.worker_not_running)
        (λ _. ask-Kept (λ w. delivered env (env.signal on w)))
