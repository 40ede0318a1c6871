-- ===== src/Engine/Log.antt =====
-- The order of what a worker of crates/nectarpilot-core/src/engine.rs calls and emits.
use roblox.Prelude.{ℕ, ◌+◌, ◌%◌, ◌^◌, Bool, true, false, ◌&&◌, ◌||◌, List, [], ◌∷◌, ◌≡◌, ◌≢◌, is_ok}
use roblox.Contracts.{RunState, running, paused, recovering}
use roblox.Engine.{
  state_changed, Entry, emitted, preflighted, executed, attempted, released, emergency_released,
  Engine,
}
use roblox.Engine.Worker.{is_failed}

abbrev pub Log : Type 0
Log = List Entry

-- A preflight was accepted.
abbrev pub passed : Log → Bool
passed [] = false
passed (preflighted r ∷ l) = is_ok r || passed l
passed (_ ∷ l) = passed l

-- The automation was run.
abbrev pub has_run : Log → Bool
has_run [] = false
has_run (executed r ∷ l) = true
has_run (_ ∷ l) = has_run l

-- The automation was run and failed.
abbrev pub has_failed : Log → Bool
has_failed [] = false
has_failed (executed r ∷ l) = is_failed r.outcome || has_failed l
has_failed (_ ∷ l) = has_failed l

-- The worker's newest call of the backend is a release that succeeded.
abbrev pub cleaned : Log → Bool
cleaned [] = false
cleaned (emitted n e ∷ l) = cleaned l
cleaned (emergency_released r ∷ l) = cleaned l
cleaned (released r ∷ l) = is_ok r
cleaned (_ ∷ l) = false

-- The state that the events tell of, and the number of the newest event.
abbrev pub last_state : RunState → Log → RunState
last_state start [] = start
last_state start (emitted n (state_changed previous current reason) ∷ l) = current
last_state start (_ ∷ l) = last_state start l

abbrev pub last_number : ℕ → Log → ℕ
last_number base [] = base
last_number base (emitted n e ∷ l) = n
last_number base (_ ∷ l) = last_number base l

-- How far a worker is.
pub record Phase : Type 0 where
  pub has_passed : Bool
  pub was_run : Bool
  pub run_failed : Bool
  pub is_clean : Bool

abbrev pub phase_of : Log → Phase
phase_of l = record {
  has_passed = passed l;
  was_run = has_run l;
  run_failed = has_failed l;
  is_clean = cleaned l;
}

module _ (start : RunState) (base : ℕ) (enabled : Bool) where
  -- The states that a worker may reach in a phase.
  abbrev pub Allowed : RunState → Phase → Type 0
  Allowed running ph = ph.has_passed ≡ true
  Allowed paused ph = ph.has_passed ≡ true
  Allowed recovering ph = (ph.run_failed && enabled) ≡ true
  Allowed _ ph = Unit

  -- What must have come before a call or an event.
  abbrev pub InOrder : Entry → Log → Type 0
  InOrder (emitted n (state_changed previous current reason)) l =
      (n ≡ (last_number base l + 1) % 2 ^ 64)
      × (previous ≡ last_state start l)
      × (previous ≢ current)
      × Allowed current (phase_of l)
  InOrder (emitted n _) l = n ≡ (last_number base l + 1) % 2 ^ 64
  InOrder (executed r) l = (passed l ≡ true) × (has_run l ≡ false)
  InOrder (attempted n a) l = (has_failed l && enabled) ≡ true
  InOrder _ l = Unit

  abbrev pub AllInOrder : Log → Type 0
  AllInOrder [] = Unit
  AllInOrder (e ∷ l) = InOrder e l × AllInOrder l

  -- The engine in this phase, with a log in order that tells its state and its number.
  pub record Told {W : Type 0} (ph : Phase) (s : Engine W) : Type 0 where
    pub ordered : AllInOrder s.log
    pub now : s.state ≡ last_state start s.log
    pub number : s.sequence ≡ last_number base s.log
    pub phase : phase_of s.log ≡ ph
    pub allowed : Allowed s.state ph

  pub world-Told :
      {W : Type 0} {ph : Phase} (s : Engine W) (w : W)
      → Told ph s
      → Told ph (record s { world = w })
  world-Told s w t = record {
    ordered = t.ordered;
    now = t.now;
    number = t.number;
    phase = t.phase;
    allowed = t.allowed;
  }
