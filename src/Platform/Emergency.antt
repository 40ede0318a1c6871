-- ===== src/Platform/Emergency.antt =====
-- The emergency stop, crates/nectarpilot-platform/src/emergency.rs, over the input broker. The trait
-- `EmergencyHotkeyBackend` is a function on a world of its own.
pub mod Tests
use roblox.Prelude.{
  Bool, true, false, if◌then◌else◌, ◌≡◌, ◌≢◌, ◌↔◌, refl, ap, Result, ok, err, Text, arith, inl, inr,
  Bool-cases,
}
use roblox.Platform.Input.{
  BrokerError, InputSink, InputBroker, is_clean, is_paused, paused_for_focus, cancel, release_all,
}
use roblox.Platform.Input.Frame.{release_all_clean, release_all-SameInputs}

pub data EmergencyStopError : Type 0 where
  backend : (message : Text) → EmergencyStopError
  release : BrokerError → EmergencyStopError

pub record EmergencyStop (B : Type 0) : Type 0 where
  pub backend : B
  pub latched : Bool

unfoldable pub new : {B : Type 0} → B → EmergencyStop B
new hotkey = record { backend = hotkey; latched = false }

-- What `poll` returns, with the stop and the broker that it leaves.
abbrev pub Polled : Type 0 → Type 0 → Type 0
Polled B W = Result EmergencyStopError Bool × EmergencyStop B × InputBroker W

cancel_stops :
    {W : Type 0} (sink : InputSink W) (b : InputBroker W)
    → (is_clean (cancel sink b).1 ≡ true) × (is_paused (cancel sink b).1.status ≡ true)
unfolding cancel
cancel_stops sink b =
    let b' = record b { status = paused_for_focus } in
    (release_all_clean sink b', ap is_paused (release_all-SameInputs sink b').status)

module _ {B W : Type 0} (sink : InputSink W) where
  -- `broker.cancel()?; self.latched = true; Ok(true)`
  unfoldable pub latch :
      EmergencyStop B → Result BrokerError (Unit {0}) × InputBroker W → Polled B W
  latch s (err e, b) = (err (release e), s, b)
  latch s (ok _, b) = (ok true, record s { latched = true }, b)

  unfoldable pub after_poll :
      Result EmergencyStopError Bool → EmergencyStop B → InputBroker W → Polled B W
  after_poll (ok false) s b = (ok false, s, b)
  after_poll (ok true) s b = latch s (cancel sink b)
  after_poll (err e) s b = (err e, s, (cancel sink b).1)

  module _ (poll_triggered : B → Result EmergencyStopError Bool × B) where
    -- `if self.latched { return Ok(true); }`, then the match on the backend's answer.
    unfoldable pub poll_unless : Bool → EmergencyStop B → InputBroker W → Polled B W
    poll_unless true s b = (ok true, s, b)
    poll_unless false s b =
        let (answer, backend') = poll_triggered s.backend in
        after_poll answer (record s { backend = backend' }) b

    unfoldable pub poll : EmergencyStop B → InputBroker W → Polled B W
    poll s b = poll_unless s.latched s b

    after_poll_stops :
        (answer : Result EmergencyStopError Bool) (s : EmergencyStop B) (b : InputBroker W)
        → (after_poll answer s b).0 ≢ ok false
        → (is_clean (after_poll answer s b).2 ≡ true)
          × (is_paused (after_poll answer s b).2.status ≡ true)
    unfolding after_poll latch
    after_poll_stops (ok false) s b h = absurd (h refl)
    after_poll_stops (ok true) s b h = ground (arith, cancel_stops sink b)
    after_poll_stops (err e) s b h = cancel_stops sink b

    -- A poll of a stop that is not latched yet, which does not answer "not triggered", leaves the
    -- broker paused and with no key and no button on its record of pressed inputs: on a trigger, on a
    -- failed release, where the keys themselves may stay down, and on a failing hotkey backend.
    pub poll_stops :
        (s : EmergencyStop B) (b : InputBroker W)
        → s.latched ≡ false
        → (poll s b).0 ≢ ok false
        → (is_clean (poll s b).2 ≡ true) × (is_paused (poll s b).2.status ≡ true)
    unfolding poll poll_unless
    poll_stops s b open_stop h = go s.latched open_stop h
      where
        go :
            (l : Bool)
            → l ≡ false
            → (poll_unless l s b).0 ≢ ok false
            → (is_clean (poll_unless l s b).2 ≡ true)
              × (is_paused (poll_unless l s b).2.status ≡ true)
        go true e h = cc
        go false e h = after_poll_stops (poll_triggered s.backend).0 _ b h

    after_poll-latched :
        (answer : Result EmergencyStopError Bool) (s : EmergencyStop B) (b : InputBroker W)
        → s.latched ≡ false
        → ((after_poll answer s b).1.latched ≡ true) ↔ ((after_poll answer s b).0 ≡ ok true)
    unfolding after_poll latch
    after_poll-latched (ok false) s b h = ground arith
    after_poll-latched (ok true) s b h = ground arith
    after_poll-latched (err e) s b h = ground arith

    -- After a poll the stop is latched exactly when the poll answered "triggered": a trigger whose
    -- release fails is reported as an error and leaves the stop unlatched.
    pub poll-latched_iff :
        (s : EmergencyStop B) (b : InputBroker W)
        → ((poll s b).1.latched ≡ true) ↔ ((poll s b).0 ≡ ok true)
    unfolding poll poll_unless
    poll-latched_iff s b = go s.latched refl
      where
        go :
            (l : Bool)
            → s.latched ≡ l
            → ((poll_unless l s b).1.latched ≡ true) ↔ ((poll_unless l s b).0 ≡ ok true)
        go true e = ((λ h. refl), (λ h. e))
        go false e = after_poll-latched (poll_triggered s.backend).0 _ b e
