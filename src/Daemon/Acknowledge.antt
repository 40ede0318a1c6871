-- ===== src/Daemon/Acknowledge.antt =====
-- What an acknowledgement does to safe mode, in crates/nectarpilot-core/src/engine.rs.
use mathlib.Core.Path.{ap₂}
use roblox.CrashGuard.{clear}
use roblox.Prelude.{
  Text, Bool, true, false, ◌||◌, [], ◌≡◌, refl, sym, ◌∙◌, if◌then◌else◌, Result, ok, err, codes,
}
use roblox.Prelude.Early.{Triple, Post, bind_rule}
use roblox.Contracts.{RunState, idle}
use roblox.Engine.{
  AutomationError, snapshot, invalid_state, Engine, same_state, emit, moved, transition,
}
use roblox.Engine.Steps.{same_state→eq}
use roblox.Daemon.{Daemon, Store, unless, ask, wants_attention, to_idle, acknowledge_attention}

-- The acknowledgement was due, and nothing of safe mode or of the crash window is left.
pub record Acknowledged {W : Type 0} (store : Store W) (d d' : Daemon W) : Type 0 where
  pub due : (d.safe_mode || wants_attention store d.engine.state) ≡ true
  pub mode : d'.safe_mode ≡ false
  pub state : d'.engine.state ≡ idle
  pub window : d'.crash_guard.crashes ≡ []

pub record Refused {W : Type 0} (d d' : Daemon W) : Type 0 where
  pub mode : d'.safe_mode ≡ d.safe_mode
  pub state : d'.engine.state ≡ d.engine.state
  pub worker : d'.worker_running ≡ d.worker_running

module _ {W : Type 0} (store : Store W) (d : Daemon W) where
  moved_to :
      (same : Bool) (s : Engine W) (c : RunState) (r : Text) → (moved same s.state c r s).state ≡ c
  unfolding moved emit
  moved_to true s c r = refl
  moved_to false s c r = refl

  to_idle_state : (s : Engine W) → (to_idle store s).state ≡ idle
  unfolding to_idle transition emit
  to_idle_state s = go (same_state s.state idle) refl
    where
      go :
          (b : Bool)
          → same_state s.state idle ≡ b
          → (if b
              then emit snapshot s
              else transition idle (codes "attention acknowledged") s).state
            ≡ idle
      go true q = same_state→eq s.state idle q
      go false q = moved_to _ s idle _

  record Due (d' : Daemon W) : Type 0 where
    due : (d.safe_mode || wants_attention store d.engine.state) ≡ true
    window : d'.crash_guard.crashes ≡ []
    same : Refused d d'

  ask-Due : Triple Due (ask (store.set_crash_guard_state false [])) (λ _. Due) (λ _. Refused d)
  ask-Due = record { run = λ d' h. go d' _ _ h }
    where
      go :
          (d' : Daemon W) (answer : Result AutomationError (Unit {0})) (w : W)
          → Due d'
          → Post
              (λ _. Due)
              (λ _. Refused d)
              (answer, record d' { engine = record (d'.engine) { world = w } })
      go d' (ok _) w h = record {
        due = h.due;
        window = h.window;
        same = record { mode = h.same.mode; state = h.same.state; worker = h.same.worker };
      }
      go d' (err e) w h = record {
        mode = h.same.mode;
        state = h.same.state;
        worker = h.same.worker;
      }

  test-Due :
      Triple
        (Refused d)
        (λ d'.
          unless
            (d'.safe_mode || wants_attention store d'.engine.state)
            (invalid_state d'.engine.state (codes "acknowledge_attention"))
            d')
        (λ _ d'. Refused d d' × ((d.safe_mode || wants_attention store d.engine.state) ≡ true))
        (λ _. Refused d)
  test-Due = record { run = λ d' h. go d' _ refl h }
    where
      go :
          (d' : Daemon W) (b : Bool)
          → (d'.safe_mode || wants_attention store d'.engine.state) ≡ b
          → Refused d d'
          → Post
              (λ _ d'.
                Refused d d' × ((d.safe_mode || wants_attention store d.engine.state) ≡ true))
              (λ _. Refused d)
              (
                if b
                    then ok tt
                    else err (invalid_state d'.engine.state (codes "acknowledge_attention")),
                d',
              )
      go d' true q h = (h, sym (ap₂ (λ m s. m || wants_attention store s) h.mode h.state) ∙ q)
      go d' false q h = h

  clear-Due :
      Triple
        (λ d'. Refused d d' × ((d.safe_mode || wants_attention store d.engine.state) ≡ true))
        (λ (d' : Daemon W).
          let r : Result AutomationError (Unit {0}) = ok tt in
          (r, record d' { crash_guard = clear d'.crash_guard }))
        (λ _. Due)
        (λ _. Refused d)
  unfolding clear
  clear-Due = record {
    run = λ d' h. record {
      due = h.1;
      window = refl;
      same = record { mode = h.0.mode; state = h.0.state; worker = h.0.worker };
    };
  }

  end-Acknowledged :
      Triple Due
        (λ (d' : Daemon W).
          let r : Result AutomationError (Unit {0}) = ok tt in
          (r, record d' { safe_mode = false; engine = to_idle store d'.engine }))
        (λ _. Acknowledged store d)
        (λ _. Refused d)
  end-Acknowledged = record {
    run = λ d' h. record {
      due = h.due;
      mode = refl;
      state = to_idle_state d'.engine;
      window = h.window;
    };
  }

-- An acknowledgement that succeeds was due - the daemon was in safe mode, or its state was
-- `NeedsAttention` or `Faulted` - and leaves it out of safe mode, idle and with an empty crash window.
-- One that fails leaves safe mode, the state and the worker as they were.
pub acknowledge_effect :
    {W : Type 0} (store : Store W) (d : Daemon W)
    → Post (λ _. Acknowledged store d) (λ _. Refused d) (acknowledge_attention store d)
unfolding acknowledge_attention
acknowledge_effect store d =
    (bind_rule _ _ (test-Due store d) (λ _.
        bind_rule _ _ (clear-Due store d)
          (λ _. bind_rule _ _ (ask-Due store d) (λ _. end-Acknowledged store d)))).run
      d (record { mode = refl; state = refl; worker = refl })
