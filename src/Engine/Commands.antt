-- ===== src/Engine/Commands.antt =====
-- Commands of other tasks leave the engine of crates/nectarpilot-core/src/engine.rs with a log in
-- order, in the phase in which they found it.
use roblox.Prelude.{
  ℕ, Text, Bool, true, false, ◌&&◌, List, [], ◌∷◌, ◌≡◌, refl, subst, inl, inr, Bool-cases,
  if◌then◌else◌, ok, err, codes,
}
use roblox.Prelude.Early.{Early, Triple, Post, bind_rule, Kept, kept_either_way, kept_after, weaken}
use roblox.Contracts.{RunState, idle, running, paused, stopping}
use roblox.Engine.{
  AutomationError, invalid_state, Engine, Command, pause, resume, stop, Environment, same_state,
  transition, require_state, ask, move_to, on_port, signal_pause, pause_worker, resume_worker,
  cancel_token, stop_state, emergency_release, cancel_port, settle_idle, stop_worker, obey,
  obey_all, interleave,
}
use roblox.Engine.Log.{Phase, Allowed, Told, world-Told}
use roblox.Engine.Steps.{
  same_state→eq, transition-Told, ask-Kept, unless-Kept, on_port-Kept, signal_pause-Kept,
}

module _ (start : RunState) (base : ℕ) (enabled : Bool) {W : Type 0} {ph : Phase} where
  require_state-Told :
      (needed : RunState) (command : Text)
      → Triple
          (λ (s : Engine W). Told start base enabled ph s)
          (require_state needed command)
          (λ _ s. Told start base enabled ph s × Allowed start base enabled needed ph)
          (λ _. Told start base enabled ph)
  unfolding require_state
  require_state-Told needed command = record { run = λ s t. go s _ refl t }
    where
      go :
          (s : Engine W) (good : Bool)
          → same_state s.state needed ≡ good
          → Told start base enabled ph s
          → Post
              (λ _ s. Told start base enabled ph s × Allowed start base enabled needed ph)
              (λ _. Told start base enabled ph)
              (if good then ok tt else err (invalid_state s.state command), s)
      go s true e t = (
        t,
        subst (λ c. Allowed start base enabled c ph) (same_state→eq s.state needed e) t.allowed,
      )
      go s false e t = t

  move_to-Told :
      (current : RunState) (reason : Text)
      → Triple
          (λ (s : Engine W). Told start base enabled ph s × Allowed start base enabled current ph)
          (move_to current reason)
          (λ _. Told start base enabled ph)
          (λ _. Told start base enabled ph)
  move_to-Told current reason = record {
    run = λ s h. transition-Told start base enabled current reason s h.1 h.0;
  }

  -- A statement between the test of the state and the transition.
  between :
      (current : RunState) (m : Early (Engine W) AutomationError (Unit {0}))
      → Kept (λ s. Told start base enabled ph s × Allowed start base enabled current ph) m
      → Triple
          (λ s. Told start base enabled ph s × Allowed start base enabled current ph)
          m
          (λ _ s. Told start base enabled ph s × Allowed start base enabled current ph)
          (λ _. Told start base enabled ph)
  between current m kept = weaken m (λ s h. h) (λ a s h. h) (λ e s h. h.0) kept

  closed-Told :
      (current : RunState) (s : Engine W) (w : W)
      → Told start base enabled ph s × Allowed start base enabled current ph
      → Told start base enabled ph (record s { world = w }) × Allowed start base enabled current ph
  closed-Told current s w h = (world-Told start base enabled s w h.0, h.1)

  module _ (env : Environment W) where
    pause_worker-Told : Kept (Told start base enabled ph) (pause_worker env)
    unfolding pause_worker
    pause_worker-Told =
        bind_rule (require_state running (codes "pause")) _
          (require_state-Told running (codes "pause"))
          (λ _. bind_rule _ _ (between paused _ (unless-Kept _ (closed-Told paused) _ _)) (λ _.
            bind_rule (on_port env env.port_pause) _
              (between paused _ (on_port-Kept _ (closed-Told paused) env env.port_pause))
              (λ _.
                bind_rule (signal_pause env true) _
                  (between paused _ (signal_pause-Kept _ (closed-Told paused) env true))
                  (λ _. move_to-Told paused (codes "pause requested")))))

    resume_worker-Told : Kept (Told start base enabled ph) (resume_worker env)
    unfolding resume_worker
    resume_worker-Told =
        bind_rule (require_state paused (codes "resume")) _
          (require_state-Told paused (codes "resume"))
          (λ _.
            bind_rule (on_port env env.port_resume) _
              (between running _ (on_port-Kept _ (closed-Told running) env env.port_resume))
              (λ _.
                bind_rule (signal_pause env false) _
                  (between running _ (signal_pause-Kept _ (closed-Told running) env false))
                  (λ _. move_to-Told running (codes "resume requested"))))

    cancel_token-Told :
        (s : Engine W)
        → Told start base enabled ph s
        → Told start base enabled ph (cancel_token env s)
    unfolding cancel_token
    cancel_token-Told s t = go s.cancellation
      where
        go :
            (c : Bool)
            → Told start base enabled ph (if c then record s { world = env.cancel s.world } else s)
        go true = world-Told start base enabled s _ t
        go false = t

    stop_state-Told :
        (emergency : Bool) (s : Engine W)
        → Told start base enabled ph s
        → Told start base enabled ph (stop_state env emergency s)
    unfolding stop_state
    stop_state-Told emergency s t = elim (Bool-cases (same_state s.state idle)) [
      | inl e ↦ rw e t
      | inr e ↦ rw e (transition-Told start base enabled stopping _ s tt t)
    ]

    emergency_release-Told :
        (emergency : Bool) → Kept (Told start base enabled ph) (emergency_release env emergency)
    unfolding emergency_release
    emergency_release-Told false = record { run = λ s t. t }
    emergency_release-Told true = record {
      run = λ s t. kept_either_way (Told start base enabled ph) _ _ (record {
        ordered = (tt, t.ordered);
        now = t.now;
        number = t.number;
        phase = t.phase;
        allowed = t.allowed;
      });
    }

    cancel_port-Told : (l : Bool) → Kept (Told start base enabled ph) (cancel_port env l)
    unfolding cancel_port
    cancel_port-Told l = record { run = λ s t. go s (l && s.legacy_port) t }
      where
        go :
            (s : Engine W) (b : Bool)
            → Told start base enabled ph s
            → Post
                (λ _. Told start base enabled ph)
                (λ _. Told start base enabled ph)
                (if b then ask env.port_cancel s else (ok tt, s))
        go s true t =
            (ask-Kept _ (λ s w. world-Told start base enabled s w) env.port_cancel).run s t
        go s false t = t

    settle_idle-Told : Kept (Told start base enabled ph) (settle_idle env)
    unfolding settle_idle
    settle_idle-Told = record { run = λ s t. go s s.cancellation t }
      where
        go :
            (s : Engine W) (b : Bool)
            → Told start base enabled ph s
            → Told start base enabled ph
                (if b then s else transition idle (codes "nothing was running") s)
        go s true t = t
        go s false t = transition-Told start base enabled idle _ s tt t

    stop_worker-Told :
        (emergency : Bool) → Kept (Told start base enabled ph) (stop_worker env emergency)
    unfolding stop_worker
    stop_worker-Told emergency = record {
      run = λ s t.
          (bind_rule (emergency_release env emergency) _ (emergency_release-Told emergency) (λ _.
              bind_rule (cancel_port env _) _ (cancel_port-Told _) (λ _. settle_idle-Told))).run
            _ (stop_state-Told emergency _ (cancel_token-Told s t));
    }

    obey-Told : (c : Command) → Kept (Told start base enabled ph) (obey env c)
    unfolding obey
    obey-Told pause = pause_worker-Told
    obey-Told resume = resume_worker-Told
    obey-Told (stop emergency) = stop_worker-Told emergency

    obey_all-Told :
        (cs : List Command) (s : Engine W)
        → Told start base enabled ph s
        → Told start base enabled ph (obey_all env cs s)
    unfolding obey_all
    obey_all-Told [] s t = t
    obey_all-Told (c ∷ cs) s t =
        obey_all-Told cs _ (kept_after _ (obey env c s) ((obey-Told c).run s t))

    pub interleave-Told :
        (s : Engine W)
        → Told start base enabled ph s
        → Told start base enabled ph (interleave env s)
    unfolding interleave
    interleave-Told s t = obey_all-Told _ _ (world-Told start base enabled s _ t)
