-- ===== src/Platform/Input.antt =====
-- The input broker, crates/nectarpilot-platform/src/input.rs. The trait `InputSink` is a record of
-- functions on a world of its own, so the foreground window and the success of a send are arbitrary
-- and may change from call to call. `log` is not in the code: it keeps the calls of the sink, the
-- newest first, for the statements about them.
pub mod Frame
pub mod Held
pub mod Owned
pub mod Focus
pub mod Tests
use roblox.Prelude.{
  ℕ, ◌+◌, Bool, true, false, not, ◌&&◌, ◌||◌, Option, none, some, List, [], ◌∷◌, is_empty, ltb,
  codes, ◌++◌, if◌then◌else◌, Result, ok, err, Text, ℤ, F32, is_finite, in_range, f_zero, f_one,
}
use roblox.Prelude.Ordered.{insert, remove}
use roblox.Platform.Session.{SessionTarget, target_eq}

pub data Key : Type 0 where
  forward backward left right jump escape interact shift control f1 f2 f3 f12 : Key
  digit : (value : ℕ) → Key

pub data MouseButton : Type 0 where
  left right middle : MouseButton

-- The derived order of a `BTreeSet<Key>`, as a number.
abbrev pub key_rank : Key → ℕ
key_rank forward = 0
key_rank backward = 1
key_rank Key.left = 2
key_rank Key.right = 3
key_rank jump = 4
key_rank escape = 5
key_rank interact = 6
key_rank shift = 7
key_rank control = 8
key_rank f1 = 9
key_rank f2 = 10
key_rank f3 = 11
key_rank f12 = 12
key_rank (digit value) = 13 + value

abbrev pub button_rank : MouseButton → ℕ
button_rank MouseButton.left = 0
button_rank MouseButton.right = 1
button_rank middle = 2

pub data InputAction : Type 0 where
  key_down key_up : (key : Key) → InputAction
  mouse_down mouse_up : (button : MouseButton) → InputAction
  mouse_move_client : (x y : F32) → InputAction
  mouse_wheel : (delta : ℤ) → InputAction

pub data BrokerStatus : Type 0 where
  ready paused_for_focus : BrokerStatus

pub data BrokerError : Type 0 where
  wrong_foreground invalid_coordinates invalid_key : BrokerError
  backend : (message : Text) → BrokerError
  release_failed : (failures : Text) → BrokerError

-- `error.to_string()`, with the messages of the derived `Display`.
unfoldable pub error_text : BrokerError → Text
error_text wrong_foreground =
    codes "input refused because the exact Roblox PID/HWND is not foreground"
error_text invalid_coordinates =
    codes "client-relative coordinates must be finite values between zero and one"
error_text invalid_key = codes "the key value is outside the supported range"
error_text (backend message) = codes "native input backend failed: " ++ message
error_text (release_failed failures) =
    codes "one or more injected inputs could not be released: " ++ failures

abbrev pub above_nine : Key → Bool
above_nine (digit value) = ltb 9 value
above_nine _ = false

-- `InputAction::validate`
unfoldable pub validate : InputAction → Result BrokerError InputAction
validate (mouse_move_client x y) =
    if not (is_finite x)
      || not (is_finite y)
      || not (in_range f_zero f_one x)
      || not (in_range f_zero f_one y)
    then err invalid_coordinates
    else ok (mouse_move_client x y)
validate (key_down key) = if above_nine key then err invalid_key else ok (key_down key)
validate (key_up key) = if above_nine key then err invalid_key else ok (key_up key)
validate action = ok action

pub record InputSink (W : Type 0) : Type 0 where
  pub foreground_target : W → Result BrokerError (Option SessionTarget) × W
  pub send : SessionTarget → InputAction → W → Result BrokerError (Unit {0}) × W

pub data Call : Type 0 where
  looked : Result BrokerError (Option SessionTarget) → Call
  sent : InputAction → Result BrokerError (Unit {0}) → Call

pub record InputBroker (W : Type 0) : Type 0 where
  pub target : SessionTarget
  pub sink : W
  pub pressed_keys : List Key
  pub pressed_buttons : List MouseButton
  pub status : BrokerStatus
  pub log : List Call

abbrev pub is_paused : BrokerStatus → Bool
is_paused ready = false
is_paused paused_for_focus = true

abbrev pub insert_key : Key → List Key → List Key
insert_key = insert key_rank

abbrev pub remove_key : Key → List Key → List Key
remove_key = remove key_rank

abbrev pub insert_button : MouseButton → List MouseButton → List MouseButton
insert_button = insert button_rank

abbrev pub remove_button : MouseButton → List MouseButton → List MouseButton
remove_button = remove button_rank

unfoldable pub new : {W : Type 0} → SessionTarget → W → InputBroker W
new target sink = record {
  target = target;
  sink = sink;
  pressed_keys = [];
  pressed_buttons = [];
  status = ready;
  log = [];
}

abbrev pub is_clean : {W : Type 0} → InputBroker W → Bool
is_clean b = is_empty b.pressed_keys && is_empty b.pressed_buttons

-- `Ok(())` exactly for the broker's own target.
abbrev pub same_target :
    SessionTarget → Result BrokerError (Option SessionTarget) → Result BrokerError (Unit {0})
same_target target (err e) = err e
same_target target (ok none) = err wrong_foreground
same_target target (ok (some t)) = if target_eq t target then ok tt else err wrong_foreground

-- What a delivered action adds to or takes from the pressed inputs.
unfoldable pub note : {W : Type 0} → InputAction → InputBroker W → InputBroker W
note (key_down key) b = record b { pressed_keys = insert_key key b.pressed_keys }
note (key_up key) b = record b { pressed_keys = remove_key key b.pressed_keys }
note (mouse_down button) b = record b { pressed_buttons = insert_button button b.pressed_buttons }
note (mouse_up button) b = record b { pressed_buttons = remove_button button b.pressed_buttons }
note _ b = b

-- `failures.push(error.to_string())` where the send failed.
abbrev pub failure : Result BrokerError (Unit {0}) → List Text → List Text
failure (ok _) rest = rest
failure (err e) rest = error_text e ∷ rest

-- `failures.join("; ")`
abbrev pub join_failures : List Text → Text
join_failures [] = []
join_failures (f ∷ []) = f
join_failures (f ∷ (g ∷ fs)) = f ++ codes "; " ++ join_failures (g ∷ fs)

abbrev pub released : List Text → Result BrokerError (Unit {0})
released [] = ok tt
released failures = err (release_failed (join_failures failures))

module _ {W : Type 0} (sink : InputSink W) where
  unfoldable pub send : InputAction → InputBroker W → Result BrokerError (Unit {0}) × InputBroker W
  send action b =
      let (done, w) = sink.send b.target action b.sink in
      (done, record b { sink = w; log = sent action done ∷ b.log })

  unfoldable pub ensure_foreground : InputBroker W → Result BrokerError (Unit {0}) × InputBroker W
  ensure_foreground b =
      let (seen, w) = sink.foreground_target b.sink in
      (same_target b.target seen, record b { sink = w; log = looked seen ∷ b.log })

  -- The two loops of `release_all`.
  unfoldable pub release_keys : List Key → InputBroker W → List Text × InputBroker W
  release_keys [] b = ([], b)
  release_keys (key ∷ keys) b =
      let (done, b') = send (key_up key) b in
      let (rest, b'') = release_keys keys b' in (failure done rest, b'')

  unfoldable pub release_buttons : List MouseButton → InputBroker W → List Text × InputBroker W
  release_buttons [] b = ([], b)
  release_buttons (button ∷ buttons) b =
      let (done, b') = send (mouse_up button) b in
      let (rest, b'') = release_buttons buttons b' in (failure done rest, b'')

  unfoldable pub release_all : InputBroker W → Result BrokerError (Unit {0}) × InputBroker W
  release_all b =
      let (f, b') =
        release_keys b.pressed_keys (record b { pressed_keys = []; pressed_buttons = [] }) in
      let (g, b'') = release_buttons b.pressed_buttons b' in (released (f ++ g), b'')

  -- `let _ = self.release_all(); self.status = PausedForFocus; return Err(error);`
  unfoldable pub refuse :
      BrokerError → InputBroker W → Result BrokerError (Unit {0}) × InputBroker W
  refuse e b = (err e, record ((release_all b).1) { status = paused_for_focus })

  unfoldable pub after_send :
      InputAction
      → Result BrokerError (Unit {0})
      → InputBroker W
      → Result BrokerError (Unit {0}) × InputBroker W
  after_send action (err e) b = refuse e b
  after_send action (ok _) b = (ok tt, note action b)

  unfoldable pub send_ready :
      InputAction → InputBroker W → Result BrokerError (Unit {0}) × InputBroker W
  send_ready action b = let (done, b') = send action b in after_send action done b'

  unfoldable pub after_foreground :
      InputAction
      → Result BrokerError (Unit {0})
      → InputBroker W
      → Result BrokerError (Unit {0}) × InputBroker W
  after_foreground action (err e) b = refuse e b
  after_foreground action (ok _) b =
      if is_paused b.status then (err wrong_foreground, b) else send_ready action b

  unfoldable pub after_validate :
      Result BrokerError InputAction → InputBroker W → Result BrokerError (Unit {0}) × InputBroker W
  after_validate (err e) b = (err e, b)
  after_validate (ok action) b =
      let (seen, b') = ensure_foreground b in after_foreground action seen b'

  unfoldable pub dispatch :
      InputAction → InputBroker W → Result BrokerError (Unit {0}) × InputBroker W
  dispatch action b = after_validate (validate action) b

  unfoldable pub cancel : InputBroker W → Result BrokerError (Unit {0}) × InputBroker W
  cancel b = release_all (record b { status = paused_for_focus })

  unfoldable pub after_check :
      Result BrokerError (Unit {0}) → InputBroker W → Result BrokerError (Unit {0}) × InputBroker W
  after_check (err e) b = (err e, b)
  after_check (ok _) b = (ok tt, record b { status = ready })

  unfoldable pub resume_after_focus_check :
      InputBroker W → Result BrokerError (Unit {0}) × InputBroker W
  resume_after_focus_check b = let (seen, b') = ensure_foreground b in after_check seen b'

-- The public operations, for histories of calls.
pub data Operation : Type 0 where
  dispatches : InputAction → Operation
  cancels releases resumes : Operation

abbrev pub operate : {W : Type 0} → InputSink W → Operation → InputBroker W → InputBroker W
operate sink (dispatches action) b = (dispatch sink action b).1
operate sink cancels b = (cancel sink b).1
operate sink releases b = (release_all sink b).1
operate sink resumes b = (resume_after_focus_check sink b).1

abbrev pub run : {W : Type 0} → InputSink W → List Operation → InputBroker W → InputBroker W
run sink [] b = b
run sink (o ∷ os) b = run sink os (operate sink o b)
