-- ===== src/Platform/Executor/Press.antt =====
-- A press and its release through the broker, as crates/nectarpilot-platform/src/task_executor.rs
-- makes them: however they end, nothing stays recorded as pressed.
use roblox.Prelude.{
  true, false, List, [], ◌∷◌, is_empty, ◌≡◌, refl, sym, subst, ◌∙◌, Result, ok, err, arith,
  Bool-cases, inl, inr,
}
use roblox.Prelude.Ordered.{insert, remove}
use roblox.Platform.Input.{
  Key, MouseButton, InputAction, key_down, key_up, mouse_down, mouse_up, mouse_move_client,
  mouse_wheel, BrokerError, InputSink, InputBroker, is_paused, is_clean, note, send,
  ensure_foreground, validate, dispatch, cancel, refuse, after_send, send_ready, after_foreground,
  after_validate, after_check, resume_after_focus_check, paused_for_focus,
}
use roblox.Platform.Input.Frame.{
  SameInputs, SameInputs-trans, send-SameInputs, look-SameInputs, release_all_clean, refuse_clean,
}

-- The broker that an accepted press leaves, where nothing was pressed before.
abbrev pub Holds : {W : Type 0} → InputAction → InputBroker W → Type 0
Holds (key_down k) b =
    (b.pressed_keys ≡ k ∷ [])
    × (b.pressed_buttons ≡ [])
    × (is_paused b.status ≡ false)
    × (validate (key_up k) ≡ ok (key_up k))
Holds (mouse_down m) b =
    (b.pressed_keys ≡ []) × (b.pressed_buttons ≡ m ∷ []) × (is_paused b.status ≡ false)
Holds _ b = Unit

-- What follows a press: nothing is pressed, or exactly it is.
abbrev pub Pressed :
    {W : Type 0} → InputAction → Result BrokerError (Unit {0}) × InputBroker W → Type 0
Pressed a (err e, b) = is_clean b ≡ true
Pressed a (ok _, b) = Holds a b

empty→nil : {A : Type 0} (xs : List A) → is_empty xs ≡ true → xs ≡ []
empty→nil [] h = refl
empty→nil (x ∷ xs) h = cc

up_valid : (k : Key) → validate (key_down k) ≡ ok (key_down k) → validate (key_up k) ≡ ok (key_up k)
unfolding validate
up_valid k h = ground arith

module _ {W : Type 0} where
  clean_keys : (b : InputBroker W) → is_clean b ≡ true → b.pressed_keys ≡ []
  clean_keys b h = empty→nil b.pressed_keys (ground arith)

  clean_buttons : (b : InputBroker W) → is_clean b ≡ true → b.pressed_buttons ≡ []
  clean_buttons b h = empty→nil b.pressed_buttons (ground arith)

  pub same_clean : (b b' : InputBroker W) → SameInputs b b' → is_clean b ≡ true → is_clean b' ≡ true
  same_clean b b' s h = rw (s.keys, s.buttons) h

  note-Holds :
      (a : InputAction) (b : InputBroker W)
      → is_clean b ≡ true
      → is_paused b.status ≡ false
      → validate a ≡ ok a
      → Holds a (note a b)
  unfolding note insert
  note-Holds (key_down k) b h p v = (rw (clean_keys b h) refl, clean_buttons b h, p, up_valid k v)
  note-Holds (mouse_down m) b h p v = (clean_keys b h, rw (clean_buttons b h) refl, p)
  note-Holds (key_up k) b h p v = tt
  note-Holds (mouse_up m) b h p v = tt
  note-Holds (mouse_move_client x y) b h p v = tt
  note-Holds (mouse_wheel d) b h p v = tt

  module _ (sink : InputSink W) where
    after_send-Pressed :
        (a : InputAction) (r : Result BrokerError (Unit {0})) (b : InputBroker W)
        → is_clean b ≡ true
        → is_paused b.status ≡ false
        → validate a ≡ ok a
        → Pressed a (after_send sink a r b)
    unfolding after_send refuse
    after_send-Pressed a (err e) b h p v = (refuse_clean sink e b).1
    after_send-Pressed a (ok _) b h p v = note-Holds a b h p v

    after_foreground-Pressed :
        (a : InputAction) (r : Result BrokerError (Unit {0})) (b : InputBroker W)
        → is_clean b ≡ true
        → validate a ≡ ok a
        → Pressed a (after_foreground sink a r b)
    unfolding after_foreground send_ready refuse
    after_foreground-Pressed a (err e) b h v = (refuse_clean sink e b).1
    after_foreground-Pressed a (ok _) b h v = elim (Bool-cases (is_paused b.status)) [
      | inl p ↦ rw p h
      | inr p ↦ rw p (
          after_send-Pressed a _ (send sink a b).1 (same_clean b _ (send-SameInputs sink a b) h)
            (rw ((send-SameInputs sink a b).status) p) v)
    ]

    after_validate-Pressed :
        (a : InputAction) (r : Result BrokerError InputAction) (b : InputBroker W)
        → is_clean b ≡ true
        → ((a' : InputAction) → r ≡ ok a' → (a' ≡ a) × (validate a ≡ ok a))
        → Pressed a (after_validate sink r b)
    unfolding after_validate
    after_validate-Pressed a (err e) b h v = h
    after_validate-Pressed a (ok a') b h v = rw ((v a' refl).0) (
        after_foreground-Pressed a _ (ensure_foreground sink b).1
          (same_clean b _ (look-SameInputs sink b) h) ((v a' refl).1))

    validated : (a a' : InputAction) → validate a ≡ ok a' → (a' ≡ a) × (validate a ≡ ok a)
    unfolding validate
    validated (key_down k) a' h = ground arith
    validated (key_up k) a' h = ground arith
    validated (mouse_down m) a' h = ground arith
    validated (mouse_up m) a' h = ground arith
    validated (mouse_move_client x y) a' h = ground arith
    validated (mouse_wheel d) a' h = ground arith

    pub dispatch-Pressed :
        (a : InputAction) (b : InputBroker W) → is_clean b ≡ true → Pressed a (dispatch sink a b)
    unfolding dispatch
    dispatch-Pressed a b h = after_validate-Pressed a (validate a) b h (λ a' e. validated a a' e)

    -- The release of what is held.
    released :
        (up : InputAction) (r : Result BrokerError (Unit {0})) (b : InputBroker W)
        → is_clean (note up b) ≡ true
        → is_clean (after_send sink up r b).1 ≡ true
    unfolding after_send
    released up (err e) b h = (refuse_clean sink e b).1
    released up (ok _) b h = h

    release_clean :
        (up : InputAction) (r : Result BrokerError (Unit {0})) (b : InputBroker W)
        → is_paused b.status ≡ false
        → ((b' : InputBroker W) → SameInputs b b' → is_clean (note up b') ≡ true)
        → is_clean (after_foreground sink up r b).1 ≡ true
    unfolding after_foreground send_ready
    release_clean up (err e) b p h = (refuse_clean sink e b).1
    release_clean up (ok _) b p h =
        rw p (released up _ (send sink up b).1 (h (send sink up b).1 (send-SameInputs sink up b)))

    after_valid :
        (up : InputAction) (b : InputBroker W)
        → validate up ≡ ok up
        → is_paused b.status ≡ false
        → ((b' : InputBroker W) → SameInputs b b' → is_clean (note up b') ≡ true)
        → is_clean (dispatch sink up b).1 ≡ true
    unfolding dispatch after_validate
    after_valid up b v p h =
        subst (λ r. is_clean (after_validate sink r b).1 ≡ true) (sym v)
          (release_clean up _ (ensure_foreground sink b).1 (rw ((look-SameInputs sink b).status) p)
            (λ b' s. h b' (SameInputs-trans sink b _ b' (look-SameInputs sink b) s)))

    noted_key :
        (k : Key) (b b' : InputBroker W)
        → b.pressed_keys ≡ k ∷ []
        → b.pressed_buttons ≡ []
        → SameInputs b b'
        → is_clean (note (key_up k) b') ≡ true
    unfolding note remove
    noted_key k b b' hk hm s = rw (s.keys ∙ hk, s.buttons ∙ hm) (ground arith)

    noted_button :
        (m : MouseButton) (b b' : InputBroker W)
        → b.pressed_keys ≡ []
        → b.pressed_buttons ≡ m ∷ []
        → SameInputs b b'
        → is_clean (note (mouse_up m) b') ≡ true
    unfolding note remove
    noted_button m b b' hk hm s = rw (s.keys ∙ hk, s.buttons ∙ hm) (ground arith)

    pub key_up_clean :
        (k : Key) (b : InputBroker W)
        → Holds (key_down k) b
        → is_clean (dispatch sink (key_up k) b).1 ≡ true
    key_up_clean k b h = after_valid (key_up k) b h.3 h.2 (λ b' s. noted_key k b b' h.0 h.1 s)

    pub mouse_up_clean :
        (m : MouseButton) (b : InputBroker W)
        → Holds (mouse_down m) b
        → is_clean (dispatch sink (mouse_up m) b).1 ≡ true
    unfolding validate
    mouse_up_clean m b h =
        after_valid (mouse_up m) b refl h.2 (λ b' s. noted_button m b b' h.0 h.1 s)

    pub resume_clean :
        (b : InputBroker W)
        → is_clean b ≡ true
        → is_clean (resume_after_focus_check sink b).1 ≡ true
    unfolding resume_after_focus_check after_check
    resume_clean b h =
        go (ensure_foreground sink b).0 (ensure_foreground sink b).1
          (same_clean b _ (look-SameInputs sink b) h)
      where
        go :
            (r : Result BrokerError (Unit {0})) (b : InputBroker W)
            → is_clean b ≡ true
            → is_clean (after_check sink r b).1 ≡ true
        go (err e) b h = h
        go (ok _) b h = h

    pub cancel_clean : (b : InputBroker W) → is_clean (cancel sink b).1 ≡ true
    unfolding cancel
    cancel_clean b = release_all_clean sink (record b { status = paused_for_focus })
