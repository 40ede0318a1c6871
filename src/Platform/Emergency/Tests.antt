-- ===== src/Platform/Emergency/Tests.antt =====
-- The mock hotkey of crates/nectarpilot-platform/src/emergency.rs.
use roblox.Prelude.{
  Bool, true, false, Option, none, some, [], ◌≡◌, ◌≢◌, ◌↔◌, refl, Text, Result, ok, err,
}
use roblox.Platform.Input.{
  is_clean, is_paused, InputBroker, ready, cancel, release_all, release_keys, release_buttons,
}
use roblox.Platform.Input.Tests.{MockInputSink, mock, roblox_window, in_front}
use roblox.Platform.Emergency.{
  EmergencyStopError, backend, EmergencyStop, poll, poll_unless, after_poll, latch, poll_stops,
  poll-latched_iff,
}

pub record MockEmergencyHotkey : Type 0 where
  pub triggered : Bool
  pub failure : Option Text

abbrev mock_poll : MockEmergencyHotkey → Result EmergencyStopError Bool × MockEmergencyHotkey
mock_poll h = elim h.failure [
  | some message ↦ (err (backend message), record h { failure = none })
  | none ↦ (ok h.triggered, record h { triggered = false })
]

abbrev pressed_hotkey : EmergencyStop MockEmergencyHotkey
pressed_hotkey = record { backend = record { triggered = true; failure = none }; latched = false }

abbrev idle_broker : InputBroker MockInputSink
idle_broker = record {
  target = roblox_window;
  sink = in_front;
  pressed_keys = [];
  pressed_buttons = [];
  status = ready;
  log = [];
}

pressed_triggers : (poll mock mock_poll pressed_hotkey idle_broker).0 ≢ ok false
unfolding poll poll_unless after_poll latch cancel release_all release_keys release_buttons
pressed_triggers h = cc

poll_stops_example :
    (is_clean (poll mock mock_poll pressed_hotkey idle_broker).2 ≡ true)
    × (is_paused (poll mock mock_poll pressed_hotkey idle_broker).2.status ≡ true)
poll_stops_example = poll_stops mock mock_poll pressed_hotkey idle_broker refl pressed_triggers

poll-latched_iff_example :
    ((poll mock mock_poll pressed_hotkey idle_broker).1.latched ≡ true)
    ↔ ((poll mock mock_poll pressed_hotkey idle_broker).0 ≡ ok true)
poll-latched_iff_example = poll-latched_iff mock mock_poll pressed_hotkey idle_broker
