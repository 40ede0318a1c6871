-- ===== src/Platform/Input/Frame.antt =====
-- What the release loops of crates/nectarpilot-platform/src/input.rs leave alone, and the states
-- that its operations can reach: a paused broker holds nothing.
use roblox.Prelude.{
  true, false, List, [], ◌∷◌, ◌≡◌, refl, ◌∙◌, inl, inr, Bool-cases, Result, ok, err, arith,
}
use roblox.Platform.Session.{SessionTarget}
use roblox.Platform.Input.{
  Key, MouseButton, InputAction, key_down, key_up, mouse_down, mouse_up, mouse_move_client,
  mouse_wheel, BrokerError, InputSink, InputBroker, is_paused, is_clean, paused_for_focus, new,
  send, ensure_foreground, release_keys, release_buttons, release_all, refuse, note, after_send,
  send_ready, after_foreground, after_validate, validate, dispatch, cancel, after_check,
  resume_after_focus_check, Operation, dispatches, cancels, releases, resumes, operate, run,
}

pub record SameInputs {W : Type 0} (b b' : InputBroker W) : Type 0 where
  pub target : b'.target ≡ b.target
  pub keys : b'.pressed_keys ≡ b.pressed_keys
  pub buttons : b'.pressed_buttons ≡ b.pressed_buttons
  pub status : b'.status ≡ b.status

module _ {W : Type 0} (sink : InputSink W) where
  pub send-SameInputs : (a : InputAction) (b : InputBroker W) → SameInputs b (send sink a b).1
  unfolding send
  send-SameInputs a b = record { target = refl; keys = refl; buttons = refl; status = refl }

  pub look-SameInputs : (b : InputBroker W) → SameInputs b (ensure_foreground sink b).1
  unfolding ensure_foreground
  look-SameInputs b = record { target = refl; keys = refl; buttons = refl; status = refl }

  pub SameInputs-trans : (a b c : InputBroker W) → SameInputs a b → SameInputs b c → SameInputs a c
  SameInputs-trans a b c f g = record {
    target = g.target ∙ f.target;
    keys = g.keys ∙ f.keys;
    buttons = g.buttons ∙ f.buttons;
    status = g.status ∙ f.status;
  }

  pub release_keys-SameInputs :
      (ks : List Key) (b : InputBroker W) → SameInputs b (release_keys sink ks b).1
  unfolding release_keys
  release_keys-SameInputs [] b = record {
    target = refl;
    keys = refl;
    buttons = refl;
    status = refl;
  }
  release_keys-SameInputs (k ∷ ks) b =
      SameInputs-trans b (send sink (key_up k) b).1 _ (send-SameInputs (key_up k) b)
        (release_keys-SameInputs ks (send sink (key_up k) b).1)

  pub release_buttons-SameInputs :
      (ms : List MouseButton) (b : InputBroker W) → SameInputs b (release_buttons sink ms b).1
  unfolding release_buttons
  release_buttons-SameInputs [] b = record {
    target = refl;
    keys = refl;
    buttons = refl;
    status = refl;
  }
  release_buttons-SameInputs (m ∷ ms) b =
      SameInputs-trans b (send sink (mouse_up m) b).1 _ (send-SameInputs (mouse_up m) b)
        (release_buttons-SameInputs ms (send sink (mouse_up m) b).1)

  -- A release forgets every pressed input and keeps the target and the status.
  pub release_all-SameInputs :
      (b : InputBroker W)
      → SameInputs (record b { pressed_keys = []; pressed_buttons = [] }) (release_all sink b).1
  unfolding release_all
  release_all-SameInputs b =
      let b' = record b { pressed_keys = []; pressed_buttons = [] } in
      SameInputs-trans b' (release_keys sink b.pressed_keys b').1 _
        (release_keys-SameInputs b.pressed_keys b')
        (release_buttons-SameInputs b.pressed_buttons (release_keys sink b.pressed_keys b').1)

  pub release_all_clean : (b : InputBroker W) → is_clean (release_all sink b).1 ≡ true
  release_all_clean b = ground (arith, release_all-SameInputs b)

  pub refuse_clean :
      (e : BrokerError) (b : InputBroker W)
      → ((refuse sink e b).0 ≡ err e)
        × (is_clean (refuse sink e b).1 ≡ true)
        × (is_paused (refuse sink e b).1.status ≡ true)
  unfolding refuse
  refuse_clean e b = (refl, release_all_clean b, refl)

  -- A paused broker records nothing as pressed.
  abbrev PausedClean : InputBroker W → Type 0
  PausedClean b = is_paused b.status ≡ true → is_clean b ≡ true

  after_send-PausedClean :
      (a : InputAction) (r : Result BrokerError (Unit {0})) (b : InputBroker W)
      → is_paused b.status ≡ false
      → PausedClean (after_send sink a r b).1
  unfolding after_send note
  after_send-PausedClean a (err e) b q = λ h. (refuse_clean e b).1
  after_send-PausedClean (key_down k) (ok _) b q = λ h. cc
  after_send-PausedClean (key_up k) (ok _) b q = λ h. cc
  after_send-PausedClean (mouse_down k) (ok _) b q = λ h. cc
  after_send-PausedClean (mouse_up k) (ok _) b q = λ h. cc
  after_send-PausedClean (mouse_move_client x y) (ok _) b q = λ h. cc
  after_send-PausedClean (mouse_wheel d) (ok _) b q = λ h. cc

  same_PausedClean : (b b' : InputBroker W) → SameInputs b b' → PausedClean b → PausedClean b'
  same_PausedClean b b' f h = λ p. rw (f.keys, f.buttons) (h (rw (← f.status) p))

  after_foreground-PausedClean :
      (a : InputAction) (r : Result BrokerError (Unit {0})) (b : InputBroker W)
      → PausedClean b
      → PausedClean (after_foreground sink a r b).1
  unfolding after_foreground send_ready
  after_foreground-PausedClean a (err e) b h = λ p. (refuse_clean e b).1
  after_foreground-PausedClean a (ok _) b h = elim (Bool-cases (is_paused b.status)) [
    | inl p ↦ rw p h
    | inr p ↦
        rw p (after_send-PausedClean a _ (send sink a b).1 (rw ((send-SameInputs a b).status) p))
  ]

  after_validate-PausedClean :
      (r : Result BrokerError InputAction) (b : InputBroker W)
      → PausedClean b
      → PausedClean (after_validate sink r b).1
  unfolding after_validate
  after_validate-PausedClean (err e) b h = h
  after_validate-PausedClean (ok a) b h =
      after_foreground-PausedClean a _ (ensure_foreground sink b).1
        (same_PausedClean b (ensure_foreground sink b).1 (look-SameInputs b) h)

  after_check-PausedClean :
      (r : Result BrokerError (Unit {0})) (b : InputBroker W)
      → PausedClean b
      → PausedClean (after_check sink r b).1
  unfolding after_check
  after_check-PausedClean (err e) b h = h
  after_check-PausedClean (ok _) b h = λ p. cc

  operate-PausedClean :
      (o : Operation) (b : InputBroker W) → PausedClean b → PausedClean (operate sink o b)
  unfolding dispatch cancel resume_after_focus_check
  operate-PausedClean (dispatches a) b h = after_validate-PausedClean (validate a) b h
  operate-PausedClean cancels b h = λ p. release_all_clean (record b { status = paused_for_focus })
  operate-PausedClean releases b h = λ p. release_all_clean b
  operate-PausedClean resumes b h =
      after_check-PausedClean _ (ensure_foreground sink b).1
        (same_PausedClean b (ensure_foreground sink b).1 (look-SameInputs b) h)

  run-PausedClean :
      (os : List Operation) (b : InputBroker W) → PausedClean b → PausedClean (run sink os b)
  run-PausedClean [] b h = h
  run-PausedClean (o ∷ os) b h = run-PausedClean os (operate sink o b) (operate-PausedClean o b h)

  -- Over any history of calls, and whatever the sink answers, a broker that is paused remembers no
  -- pressed key and no pressed button.
  pub run_paused_clean :
      (target : SessionTarget) (w : W) (os : List Operation)
      → is_paused (run sink os (new target w)).status ≡ true
      → is_clean (run sink os (new target w)) ≡ true
  unfolding new
  run_paused_clean target w os = run-PausedClean os (new target w) (λ h. cc)

  after_send_err :
      (a : InputAction) (r : Result BrokerError (Unit {0})) (b : InputBroker W) {e : BrokerError}
      → (after_send sink a r b).0 ≡ err e
      → (is_paused (after_send sink a r b).1.status ≡ true)
        × (is_clean (after_send sink a r b).1 ≡ true)
  unfolding after_send
  after_send_err a (err x) b h = ((refuse_clean x b).2, (refuse_clean x b).1)
  after_send_err a (ok _) b h = cc

  after_foreground_err :
      (a : InputAction) (r : Result BrokerError (Unit {0})) (b : InputBroker W) {e : BrokerError}
      → PausedClean b
      → (after_foreground sink a r b).0 ≡ err e
      → (is_paused (after_foreground sink a r b).1.status ≡ true)
        × (is_clean (after_foreground sink a r b).1 ≡ true)
  unfolding after_foreground send_ready
  after_foreground_err a (err x) b clean h = ((refuse_clean x b).2, (refuse_clean x b).1)
  after_foreground_err a (ok _) b {e} clean h = elim (Bool-cases (is_paused b.status)) [
    | inl p ↦ rw p (p, clean p)
    | inr p ↦ rw p (after_send_err a _ (send sink a b).1 {e = e} (rw p at h))
  ]

  -- After any history of calls: a well-formed action that `dispatch` refuses, whether for the
  -- foreground, the pause or a failed send, leaves the broker paused and with no key and no button on
  -- its record of pressed inputs. This says nothing of the keys themselves: where the sink refuses a
  -- release too, the key may stay down.
  pub dispatch_err_clean :
      (target : SessionTarget) (w : W) (os : List Operation) (a : InputAction) {e : BrokerError}
      → validate a ≡ ok a
      → (dispatch sink a (run sink os (new target w))).0 ≡ err e
      → (is_paused (dispatch sink a (run sink os (new target w))).1.status ≡ true)
        × (is_clean (dispatch sink a (run sink os (new target w))).1 ≡ true)
  unfolding dispatch after_validate
  dispatch_err_clean target w os a {e} valid h =
      let b = run sink os (new target w) in
      let b' = (ensure_foreground sink b).1 in
      rw (valid, after_validate)
        (after_foreground_err a (ensure_foreground sink b).0 b' {e = e}
          (same_PausedClean b b' (look-SameInputs b) (run_paused_clean target w os))
          (rw (valid, after_validate) at h))
