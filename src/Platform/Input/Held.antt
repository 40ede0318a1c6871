-- ===== src/Platform/Input/Held.antt =====
-- Which inputs are physically down, by what the sink of crates/nectarpilot-platform/src/input.rs
-- accepted, against what the broker remembers.
use roblox.Prelude.{
  Bool, true, false, ◌&&◌, ◌||◌, List, [], ◌∷◌, is_empty, ◌≡◌, refl, inl, inr, Bool-cases, Result,
  ok, err, arith, ◌==◌, if◌then◌else◌, ℕ,
}
use roblox.Prelude.Ordered.{insert, remove, contains}
use roblox.Platform.Session.{SessionTarget}
use roblox.Platform.Input.{
  Key, MouseButton, key_rank, button_rank, InputAction, key_down, key_up, mouse_down, mouse_up,
  mouse_move_client, mouse_wheel, BrokerError, Call, sent, InputSink, InputBroker, is_clean,
  is_paused, paused_for_focus, new, send, ensure_foreground, release_keys, release_buttons,
  release_all, refuse, note, after_send, send_ready, after_foreground, after_validate, validate,
  dispatch, cancel, after_check, resume_after_focus_check, Operation, dispatches, cancels, releases,
  resumes, operate, run,
}
use roblox.Platform.Input.Frame.{release_all-SameInputs, run_paused_clean}

-- The newest accepted event of the key pressed it.
abbrev pub key_held : Key → List Call → Bool
key_held k [] = false
key_held k (sent (key_down j) (ok _) ∷ l) = key_rank k == key_rank j || key_held k l
key_held k (sent (key_up j) (ok _) ∷ l) =
    (if key_rank k == key_rank j then false else true) && key_held k l
key_held k (_ ∷ l) = key_held k l

abbrev pub button_held : MouseButton → List Call → Bool
button_held m [] = false
button_held m (sent (mouse_down j) (ok _) ∷ l) = button_rank m == button_rank j || button_held m l
button_held m (sent (mouse_up j) (ok _) ∷ l) =
    (if button_rank m == button_rank j then false else true) && button_held m l
button_held m (_ ∷ l) = button_held m l

-- Some release was not accepted.
abbrev pub release_refused : List Call → Bool
release_refused [] = false
release_refused (sent (key_up j) (err e) ∷ l) = true
release_refused (sent (mouse_up j) (err e) ∷ l) = true
release_refused (_ ∷ l) = release_refused l

module _ {A : Type 0} (rank : A → ℕ) where
  contains-insert_held :
      (a x : A) (xs : List A)
      → (rank a == rank x || contains rank a xs) ≡ true
      → contains rank a (insert rank x xs) ≡ true
  unfolding contains insert
  contains-insert_held a x [] h = h
  contains-insert_held a x (y ∷ ys) h = ground (arith, contains-insert_held a x ys)

  contains_empty : (a : A) (xs : List A) → is_empty xs ≡ true → contains rank a xs ≡ false
  unfolding contains
  contains_empty a [] h = refl
  contains_empty a (x ∷ xs) h = cc

  contains-remove_held :
      (a x : A) (xs : List A)
      → (rank a == rank x) ≡ false
      → contains rank a xs ≡ true
      → contains rank a (remove rank x xs) ≡ true
  unfolding contains remove
  contains-remove_held a x [] n h = h
  contains-remove_held a x (y ∷ ys) n h = ground (arith, contains-remove_held a x ys)

-- What is down is among these keys and buttons, as long as no release was refused.
pub record Tracked (ks : List Key) (ms : List MouseButton) (l : List Call) : Type 0 where
  pub keys :
      (k : Key) → release_refused l ≡ false → key_held k l ≡ true → contains key_rank k ks ≡ true
  pub buttons :
      (m : MouseButton)
      → release_refused l ≡ false
      → button_held m l ≡ true
      → contains button_rank m ms ≡ true

abbrev pub Accurate : {W : Type 0} → InputBroker W → Type 0
Accurate b = Tracked b.pressed_keys b.pressed_buttons b.log

module _ {W : Type 0} (sink : InputSink W) where
  -- A release takes its key off the list, accepted or not.
  key_up-Tracked :
      (k : Key) (ks : List Key) (ms : List MouseButton) (l : List Call)
      (r : Result BrokerError (Unit {0}))
      → Tracked (k ∷ ks) ms l
      → Tracked ks ms (sent (key_up k) r ∷ l)
  unfolding contains
  key_up-Tracked k ks ms l (ok _) t = record {
    keys = λ j f h. ground (arith, t.keys j);
    buttons = λ m f h. t.buttons m f h;
  }
  key_up-Tracked k ks ms l (err e) t = record { keys = λ j f h. cc; buttons = λ m f h. cc }

  mouse_up-Tracked :
      (m : MouseButton) (ks : List Key) (ms : List MouseButton) (l : List Call)
      (r : Result BrokerError (Unit {0}))
      → Tracked ks (m ∷ ms) l
      → Tracked ks ms (sent (mouse_up m) r ∷ l)
  unfolding contains
  mouse_up-Tracked m ks ms l (ok _) t = record {
    keys = λ j f h. t.keys j f h;
    buttons = λ j f h. ground (arith, t.buttons j);
  }
  mouse_up-Tracked m ks ms l (err e) t = record { keys = λ j f h. cc; buttons = λ j f h. cc }

  release_keys-Tracked :
      (ks : List Key) (ms : List MouseButton) (b : InputBroker W)
      → Tracked ks ms b.log
      → Tracked [] ms (release_keys sink ks b).1.log
  unfolding release_keys send
  release_keys-Tracked [] ms b t = t
  release_keys-Tracked (k ∷ ks) ms b t =
      release_keys-Tracked ks ms (send sink (key_up k) b).1 (key_up-Tracked k ks ms b.log _ t)

  release_buttons-Tracked :
      (ms : List MouseButton) (b : InputBroker W)
      → Tracked [] ms b.log
      → Tracked [] [] (release_buttons sink ms b).1.log
  unfolding release_buttons send
  release_buttons-Tracked [] b t = t
  release_buttons-Tracked (m ∷ ms) b t =
      release_buttons-Tracked ms (send sink (mouse_up m) b).1 (mouse_up-Tracked m [] ms b.log _ t)

  -- A release of all leaves nothing down.
  release_all-Tracked : (b : InputBroker W) → Accurate b → Tracked [] [] (release_all sink b).1.log
  unfolding release_all
  release_all-Tracked b t =
      let b' = record b { pressed_keys = []; pressed_buttons = [] } in
      release_buttons-Tracked b.pressed_buttons (release_keys sink b.pressed_keys b').1
        (release_keys-Tracked b.pressed_keys b.pressed_buttons b' t)

  release_all-Accurate : (b : InputBroker W) → Accurate b → Accurate (release_all sink b).1
  release_all-Accurate b t =
      let f = release_all-SameInputs sink b in rw (f.keys, f.buttons) (release_all-Tracked b t)

  -- A send that is refused changes nothing that is down.
  refused-Tracked :
      (a : InputAction) (e : BrokerError) (ks : List Key) (ms : List MouseButton) (l : List Call)
      → Tracked ks ms l
      → Tracked ks ms (sent a (err e) ∷ l)
  refused-Tracked (key_up k) e ks ms l t = record { keys = λ j f h. cc; buttons = λ m f h. cc }
  refused-Tracked (mouse_up k) e ks ms l t = record { keys = λ j f h. cc; buttons = λ m f h. cc }
  refused-Tracked (key_down k) e ks ms l t = record { keys = t.keys; buttons = t.buttons }
  refused-Tracked (mouse_down k) e ks ms l t = record { keys = t.keys; buttons = t.buttons }
  refused-Tracked (mouse_move_client x y) e ks ms l t = record {
    keys = t.keys;
    buttons = t.buttons;
  }
  refused-Tracked (mouse_wheel d) e ks ms l t = record { keys = t.keys; buttons = t.buttons }

  after_send-Accurate :
      (a : InputAction) (r : Result BrokerError (Unit {0})) (w : W) (b : InputBroker W)
      → Accurate b
      → Accurate (after_send sink a r (record b { sink = w; log = sent a r ∷ b.log })).1
  unfolding after_send note refuse
  after_send-Accurate a (err e) w b t =
      release_all-Accurate (record b { sink = w; log = sent a (err e) ∷ b.log })
        (refused-Tracked a e b.pressed_keys b.pressed_buttons b.log t)
  after_send-Accurate (key_down k) (ok _) w b t = record {
    keys = λ j f h. ground (arith, contains-insert_held key_rank j k b.pressed_keys, t.keys j);
    buttons = t.buttons;
  }
  after_send-Accurate (key_up k) (ok _) w b t = record {
    keys = λ j f h. ground (arith, contains-remove_held key_rank j k b.pressed_keys, t.keys j);
    buttons = t.buttons;
  }
  after_send-Accurate (mouse_down k) (ok _) w b t = record {
    keys = t.keys;
    buttons = λ j f h.
        ground (arith, contains-insert_held button_rank j k b.pressed_buttons, t.buttons j);
  }
  after_send-Accurate (mouse_up k) (ok _) w b t = record {
    keys = t.keys;
    buttons = λ j f h.
        ground (arith, contains-remove_held button_rank j k b.pressed_buttons, t.buttons j);
  }
  after_send-Accurate (mouse_move_client x y) (ok _) w b t = record {
    keys = t.keys;
    buttons = t.buttons;
  }
  after_send-Accurate (mouse_wheel d) (ok _) w b t = record { keys = t.keys; buttons = t.buttons }

  look-Accurate : (b : InputBroker W) → Accurate b → Accurate (ensure_foreground sink b).1
  unfolding ensure_foreground
  look-Accurate b t = record { keys = t.keys; buttons = t.buttons }

  after_foreground-Accurate :
      (a : InputAction) (r : Result BrokerError (Unit {0})) (b : InputBroker W)
      → Accurate b
      → Accurate (after_foreground sink a r b).1
  unfolding after_foreground send_ready send refuse
  after_foreground-Accurate a (err e) b t = release_all-Accurate b t
  after_foreground-Accurate a (ok _) b t = elim (Bool-cases (is_paused b.status)) [
    | inl p ↦ rw p t
    | inr p ↦ rw p (after_send-Accurate a _ _ b t)
  ]

  after_validate-Accurate :
      (r : Result BrokerError InputAction) (b : InputBroker W)
      → Accurate b
      → Accurate (after_validate sink r b).1
  unfolding after_validate
  after_validate-Accurate (err e) b t = t
  after_validate-Accurate (ok a) b t =
      after_foreground-Accurate a _ (ensure_foreground sink b).1 (look-Accurate b t)

  after_check-Accurate :
      (r : Result BrokerError (Unit {0})) (b : InputBroker W)
      → Accurate b
      → Accurate (after_check sink r b).1
  unfolding after_check
  after_check-Accurate (err e) b t = t
  after_check-Accurate (ok _) b t = t

  pub operate-Accurate :
      (o : Operation) (b : InputBroker W) → Accurate b → Accurate (operate sink o b)
  unfolding dispatch cancel resume_after_focus_check
  operate-Accurate (dispatches a) b t = after_validate-Accurate (validate a) b t
  operate-Accurate cancels b t = release_all-Accurate (record b { status = paused_for_focus }) t
  operate-Accurate releases b t = release_all-Accurate b t
  operate-Accurate resumes b t =
      after_check-Accurate _ (ensure_foreground sink b).1 (look-Accurate b t)

  run-Accurate : (os : List Operation) (b : InputBroker W) → Accurate b → Accurate (run sink os b)
  run-Accurate [] b t = t
  run-Accurate (o ∷ os) b t = run-Accurate os (operate sink o b) (operate-Accurate o b t)

  pub clean_nothing_held :
      (b : InputBroker W) (k : Key) (m : MouseButton)
      → Accurate b
      → release_refused b.log ≡ false
      → is_clean b ≡ true
      → (key_held k b.log ≡ false) × (button_held m b.log ≡ false)
  clean_nothing_held b k m t f clean =
      let gone = contains_empty key_rank k b.pressed_keys in
      let gone' = contains_empty button_rank m b.pressed_buttons in
      ground (arith, gone, gone', t.keys k, t.buttons m)

  module _ (target : SessionTarget) (w : W) (os : List Operation) where
    new-Accurate : Accurate (run sink os (new target w))
    unfolding new
    new-Accurate =
        run-Accurate os (new target w) (record { keys = λ k f h. cc; buttons = λ m f h. cc })

    -- Over any history in which the sink refused no release: while the broker is paused, no key and
    -- no button is down, by the presses and releases that the sink accepted.
    pub paused_nothing_held :
        (k : Key) (m : MouseButton)
        → release_refused (run sink os (new target w)).log ≡ false
        → is_paused (run sink os (new target w)).status ≡ true
        → (key_held k (run sink os (new target w)).log ≡ false)
          × (button_held m (run sink os (new target w)).log ≡ false)
    paused_nothing_held k m f p =
        clean_nothing_held (run sink os (new target w)) k m new-Accurate f
          (run_paused_clean sink target w os p)
