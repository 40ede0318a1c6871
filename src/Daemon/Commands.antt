-- ===== src/Daemon/Commands.antt =====
-- The commands for pause, resume and stop of crates/nectarpilot-core/src/engine.rs start no run.
use roblox.Prelude.{
  Text, Bool, true, false, ◌&&◌, ◌≡◌, refl, ◌∙◌, ◌⊎◌, inl, inr, Bool-cases, if◌then◌else◌, ok,
  codes,
}
use roblox.Prelude.Early.{Post, bind_rule, Kept, kept_either_way, kept_after}
use roblox.Contracts.{RunState, idle, running, paused, stopping}
use roblox.Engine.{
  Engine, Command, pause, resume, stop, Environment, same_state, emit, moved, transition, is_task,
  require_state, ask, move_to, pause_worker, resume_worker, cancel_token, stop_state,
  emergency_release, cancel_port, settle_idle, stop_worker, obey,
}
use roblox.Engine.Steps.{ask-Kept, unless-Kept, on_port-Kept, signal_pause-Kept}

-- The states that these commands set.
abbrev pub by_command : RunState → Bool
by_command running = true
by_command paused = true
by_command stopping = true
by_command idle = true
by_command _ = false

-- The state is the one of before or one that a command sets; token and pause channel are as before.
pub record Undriven {W : Type 0} (s s' : Engine W) : Type 0 where
  pub state : (s'.state ≡ s.state) ⊎ (by_command s'.state ≡ true)
  pub token : s'.cancellation ≡ s.cancellation
  pub channel : s'.pause_sender ≡ s.pause_sender

pub Undriven-refl : {W : Type 0} (s : Engine W) → Undriven s s
Undriven-refl s = record { state = inl refl; token = refl; channel = refl }

pub Undriven-trans :
    {W : Type 0} (s s' s'' : Engine W) → Undriven s s' → Undriven s' s'' → Undriven s s''
Undriven-trans s s' s'' u v = record {
  state = go u.state v.state;
  token = v.token ∙ u.token;
  channel = v.channel ∙ u.channel;
}
  where
    go :
        (s'.state ≡ s.state) ⊎ (by_command s'.state ≡ true)
        → (s''.state ≡ s'.state) ⊎ (by_command s''.state ≡ true)
        → (s''.state ≡ s.state) ⊎ (by_command s''.state ≡ true)
    go (inl p) (inl q) = inl (q ∙ p)
    go (inr p) (inl q) = inr (rw q p)
    go _ (inr q) = inr q

module _ {W : Type 0} (s₀ : Engine W) where
  moved-Undriven :
      (same : Bool) (previous current : RunState) (reason : Text) (s : Engine W)
      → by_command current ≡ true
      → Undriven s₀ s
      → Undriven s₀ (moved same previous current reason s)
  unfolding moved emit
  moved-Undriven true previous current reason s c u = record {
    state = inr c;
    token = u.token;
    channel = u.channel;
  }
  moved-Undriven false previous current reason s c u = record {
    state = inr c;
    token = u.token;
    channel = u.channel;
  }

  transition-Undriven :
      (current : RunState) (reason : Text) (s : Engine W)
      → by_command current ≡ true
      → Undriven s₀ s
      → Undriven s₀ (transition current reason s)
  unfolding transition
  transition-Undriven current reason s c u = moved-Undriven _ _ current reason s c u

  world-Undriven : (s : Engine W) (w : W) → Undriven s₀ s → Undriven s₀ (record s { world = w })
  world-Undriven s w u = record { state = u.state; token = u.token; channel = u.channel }

  require_state-Kept : (needed : RunState) (c : Text) → Kept (Undriven s₀) (require_state needed c)
  unfolding require_state
  require_state-Kept needed c = record { run = λ s u. kept_either_way (Undriven s₀) _ s u }

  move_to-Kept :
      (current : RunState) (reason : Text)
      → by_command current ≡ true
      → Kept (Undriven s₀) (move_to current reason)
  move_to-Kept current reason c = record { run = λ s u. transition-Undriven current reason s c u }

  module _ (env : Environment W) where
    pause_worker-Kept : Kept (Undriven s₀) (pause_worker env)
    unfolding pause_worker
    pause_worker-Kept = bind_rule _ _ (require_state-Kept running (codes "pause")) (λ _.
        bind_rule _ _ (unless-Kept (Undriven s₀) world-Undriven _ _) (λ _.
          bind_rule _ _ (on_port-Kept (Undriven s₀) world-Undriven env env.port_pause) (λ _.
            bind_rule _ _ (signal_pause-Kept (Undriven s₀) world-Undriven env true)
              (λ _. move_to-Kept paused (codes "pause requested") refl))))

    resume_worker-Kept : Kept (Undriven s₀) (resume_worker env)
    unfolding resume_worker
    resume_worker-Kept = bind_rule _ _ (require_state-Kept paused (codes "resume")) (λ _.
        bind_rule _ _ (on_port-Kept (Undriven s₀) world-Undriven env env.port_resume) (λ _.
          bind_rule _ _ (signal_pause-Kept (Undriven s₀) world-Undriven env false)
            (λ _. move_to-Kept running (codes "resume requested") refl)))

    cancel_token-Undriven : (s : Engine W) → Undriven s₀ s → Undriven s₀ (cancel_token env s)
    unfolding cancel_token
    cancel_token-Undriven s u = go s.cancellation
      where
        go : (c : Bool) → Undriven s₀ (if c then record s { world = env.cancel s.world } else s)
        go true = world-Undriven s _ u
        go false = u

    stop_state-Undriven :
        (emergency : Bool) (s : Engine W) → Undriven s₀ s → Undriven s₀ (stop_state env emergency s)
    unfolding stop_state
    stop_state-Undriven emergency s u = elim (Bool-cases (same_state s.state idle)) [
      | inl e ↦ rw e u
      | inr e ↦ rw e (transition-Undriven stopping _ s refl u)
    ]

    emergency_release-Kept :
        (emergency : Bool) → Kept (Undriven s₀) (emergency_release env emergency)
    unfolding emergency_release
    emergency_release-Kept false = record { run = λ s u. u }
    emergency_release-Kept true = record {
      run = λ s u.
          kept_either_way (Undriven s₀) _ _
            (record { state = u.state; token = u.token; channel = u.channel });
    }

    cancel_port-Kept : (legacy : Bool) → Kept (Undriven s₀) (cancel_port env legacy)
    unfolding cancel_port
    cancel_port-Kept legacy = record { run = λ s u. go s (legacy && s.legacy_port) u }
      where
        go :
            (s : Engine W) (b : Bool)
            → Undriven s₀ s
            → Post
                (λ _. Undriven s₀)
                (λ _. Undriven s₀)
                (if b then ask env.port_cancel s else (ok tt, s))
        go s true u = (ask-Kept (Undriven s₀) world-Undriven env.port_cancel).run s u
        go s false u = u

    settle_idle-Kept : Kept (Undriven s₀) (settle_idle env)
    unfolding settle_idle
    settle_idle-Kept = record { run = λ s u. go s s.cancellation u }
      where
        go :
            (s : Engine W) (b : Bool)
            → Undriven s₀ s
            → Undriven s₀ (if b then s else transition idle (codes "nothing was running") s)
        go s true u = u
        go s false u = transition-Undriven idle _ s refl u

    stop_worker-Kept : (emergency : Bool) → Kept (Undriven s₀) (stop_worker env emergency)
    unfolding stop_worker
    stop_worker-Kept emergency = record {
      run = λ s u.
          (bind_rule _ _ (emergency_release-Kept emergency) (λ _.
              bind_rule _ _ (cancel_port-Kept (is_task (codes "legacy") s.active_task))
                (λ _. settle_idle-Kept))).run
            _ (stop_state-Undriven emergency _ (cancel_token-Undriven s u));
    }

    obey-Kept : (c : Command) → Kept (Undriven s₀) (obey env c)
    unfolding obey
    obey-Kept pause = pause_worker-Kept
    obey-Kept resume = resume_worker-Kept
    obey-Kept (stop emergency) = stop_worker-Kept emergency

    pub obey-Undriven : (c : Command) (s : Engine W) → Undriven s₀ s → Undriven s₀ (obey env c s).1
    obey-Undriven c s u = kept_after (Undriven s₀) _ ((obey-Kept c).run s u)
