-- ===== src/Platform/Input/Tests.antt =====
-- The mock sink of crates/nectarpilot-platform/src/input.rs and runs of the broker over it.
use roblox.Prelude.{
  Bool, true, false, Option, some, List, [], ◌∷◌, ◌++◌, ◌≡◌, refl, codes, ok, err, if◌then◌else◌,
}
use roblox.Prelude.Ordered.{insert}
use roblox.Platform.Session.{SessionTarget}
use roblox.Platform.Input.{
  forward, jump, MouseButton, InputAction, key_down, key_up, mouse_down, backend, wrong_foreground,
  InputSink, is_clean, is_paused, new, send, ensure_foreground, release_keys, release_buttons,
  release_all, refuse, note, after_send, send_ready, after_foreground, after_validate, validate,
  dispatch, cancel, Operation, dispatches, cancels, run,
}
use roblox.Platform.Input.Frame.{run_paused_clean, dispatch_err_clean}
use roblox.Platform.Input.Focus.{AllPermitted, run-AllPermitted}
use roblox.Platform.Input.Held.{release_refused, key_held, button_held, paused_nothing_held}

pub record MockInputSink : Type 0 where
  pub foreground : Option SessionTarget
  pub actions : List InputAction
  pub fail_sends : Bool

abbrev pub mock : InputSink MockInputSink
mock = record {
  foreground_target = λ w. (ok w.foreground, w);
  send = λ target action w.
      if w.fail_sends
      then (err (backend (codes "injected mock failure")), w)
      else (ok tt, record w { actions = w.actions ++ (action ∷ []) });
}

abbrev pub roblox_window : SessionTarget
roblox_window = record { pid = 41; window = 100 }

abbrev pub in_front : MockInputSink
in_front = record { foreground = some roblox_window; actions = []; fail_sends = false }

abbrev in_background : MockInputSink
in_background = record {
  foreground = some (record { pid = 99; window = 500 });
  actions = [];
  fail_sends = false;
}

abbrev history : List Operation
history =
    dispatches (key_down jump)
    ∷ dispatches (key_down forward)
    ∷ dispatches (mouse_down MouseButton.left)
    ∷ cancels
    ∷ []

-- Released in the order of the sets, not of the presses.
cancel_releases :
    (run mock history (new roblox_window in_front)).sink.actions
    ≡ key_down jump
      ∷ key_down forward
      ∷ mouse_down MouseButton.left
      ∷ key_up forward
      ∷ key_up jump
      ∷ InputAction.mouse_up MouseButton.left
      ∷ []
unfolding new dispatch after_validate validate ensure_foreground after_foreground send_ready send
    after_send note insert cancel release_all release_keys release_buttons
cancel_releases = refl

history_paused : is_paused (run mock history (new roblox_window in_front)).status ≡ true
unfolding new dispatch after_validate validate ensure_foreground after_foreground send_ready send
    after_send note insert cancel release_all release_keys release_buttons
history_paused = refl

history_released : release_refused (run mock history (new roblox_window in_front)).log ≡ false
unfolding new dispatch after_validate validate ensure_foreground after_foreground send_ready send
    after_send note insert cancel release_all release_keys release_buttons
history_released = refl

run_paused_clean_example : is_clean (run mock history (new roblox_window in_front)) ≡ true
run_paused_clean_example = run_paused_clean mock roblox_window in_front history history_paused

wrong_window :
    (dispatch mock (key_down jump) (new roblox_window in_background)).0 ≡ err wrong_foreground
unfolding new dispatch after_validate validate ensure_foreground after_foreground refuse
wrong_window = refl

dispatch_err_clean_example :
    (is_paused
        (dispatch mock (key_down jump) (run mock [] (new roblox_window in_background))).1.status
      ≡ true)
    × (is_clean (dispatch mock (key_down jump) (run mock [] (new roblox_window in_background))).1
        ≡ true)
dispatch_err_clean_example =
    dispatch_err_clean mock roblox_window in_background [] (key_down jump) {e = wrong_foreground}
      (unfold validate in refl) wrong_window

run-AllPermitted_example :
    AllPermitted roblox_window (run mock history (new roblox_window in_front)).log
run-AllPermitted_example = run-AllPermitted mock roblox_window in_front history

paused_nothing_held_example :
    (key_held jump (run mock history (new roblox_window in_front)).log ≡ false)
    × (button_held MouseButton.left (run mock history (new roblox_window in_front)).log ≡ false)
paused_nothing_held_example =
    paused_nothing_held mock roblox_window in_front history jump MouseButton.left history_released
      history_paused
