-- ===== src/Platform/Input/Focus.antt =====
-- Which sends the broker of crates/nectarpilot-platform/src/input.rs makes, by the log of its calls.
use roblox.Prelude.{
  Bool, true, false, Option, none, some, List, [], ◌∷◌, ◌≡◌, refl, ap, ◌∙◌, ◌⊎◌, inl, inr,
  Bool-cases, Result, ok, err, arith,
}
use roblox.Platform.Session.{SessionTarget, target_eq}
use roblox.Platform.Input.{
  Key, MouseButton, InputAction, key_down, key_up, mouse_down, mouse_up, mouse_move_client,
  mouse_wheel, BrokerError, Call, looked, sent, InputSink, InputBroker, is_paused, paused_for_focus,
  new, send, ensure_foreground, same_target, release_keys, release_buttons, release_all, refuse,
  note, after_send, send_ready, after_foreground, after_validate, validate, dispatch, cancel,
  after_check, resume_after_focus_check, Operation, dispatches, cancels, releases, resumes, operate,
  run,
}
use roblox.Platform.Input.Frame.{release_all-SameInputs}
use roblox.Platform.Input.Held.{key_held, button_held}
use roblox.Platform.Input.Owned.{
  Owned, nothing-Owned, kept-Owned, refused-Owned, key_down-Owned, key_up-Owned, mouse_down-Owned,
  mouse_up-Owned, release_key-Owned, release_button-Owned, first_key_held, first_button_held,
}

-- The key or the button is down just then, and the action lets it go.
abbrev pub lets_go : InputAction → List Call → Bool
lets_go (key_up key) l = key_held key l
lets_go (mouse_up button) l = button_held button l
lets_go _ l = false

-- The newest call found exactly this window of exactly this process in the foreground.
abbrev pub just_focused : SessionTarget → List Call → Bool
just_focused target (looked (ok (some t)) ∷ l) = target_eq t target
just_focused target _ = false

-- A validated send that follows such a look, or one that lets go of what is down.
abbrev pub Permitted : SessionTarget → InputAction → List Call → Type 0
Permitted target action l =
    (lets_go action l ≡ true) ⊎ ((validate action ≡ ok action) × (just_focused target l ≡ true))

abbrev pub AllPermitted : SessionTarget → List Call → Type 0
AllPermitted target [] = Unit
AllPermitted target (looked r ∷ l) = AllPermitted target l
AllPermitted target (sent action r ∷ l) = Permitted target action l × AllPermitted target l

module _ {W : Type 0} (sink : InputSink W) (target : SessionTarget) where
  -- A broker of this target that made permitted sends only, where these inputs are down.
  pub record Owning (ks : List Key) (ms : List MouseButton) (b : InputBroker W) : Type 0 where
    pub own : b.target ≡ target
    pub sends : AllPermitted target b.log
    pub owned : Owned ks ms b.log

  -- Such a broker, where all inputs on its record are down.
  abbrev pub Guarded : InputBroker W → Type 0
  Guarded b = Owning b.pressed_keys b.pressed_buttons b

  look-Guarded : (b : InputBroker W) → Guarded b → Guarded (ensure_foreground sink b).1
  unfolding ensure_foreground
  look-Guarded b g = record {
    own = g.own;
    sends = g.sends;
    owned = kept-Owned b.pressed_keys b.pressed_buttons b.log g.owned _ (λ j h. h) (λ j h. h);
  }

  release_keys-Owning :
      (ks : List Key) (ms : List MouseButton) (b : InputBroker W)
      → Owning ks ms b
      → Owning [] ms (release_keys sink ks b).1
  unfolding release_keys send
  release_keys-Owning [] ms b g = g
  release_keys-Owning (k ∷ ks) ms b g =
      release_keys-Owning ks ms (send sink (key_up k) b).1 (record {
        own = g.own;
        sends = (inl (first_key_held k ks ms b.log g.owned), g.sends);
        owned = release_key-Owned k ks ms b.log _ g.owned;
      })

  release_buttons-Owning :
      (ms : List MouseButton) (b : InputBroker W)
      → Owning [] ms b
      → Owning [] [] (release_buttons sink ms b).1
  unfolding release_buttons send
  release_buttons-Owning [] b g = g
  release_buttons-Owning (m ∷ ms) b g =
      release_buttons-Owning ms (send sink (mouse_up m) b).1 (record {
        own = g.own;
        sends = (inl (first_button_held m [] ms b.log g.owned), g.sends);
        owned = release_button-Owned m [] ms b.log _ g.owned;
      })

  release_all-Guarded : (b : InputBroker W) → Guarded b → Guarded (release_all sink b).1
  unfolding release_all
  release_all-Guarded b g = let f = release_all-SameInputs sink b in rw (f.keys, f.buttons) released
    where
      released : Owning [] [] (release_all sink b).1
      released = release_buttons-Owning b.pressed_buttons _ (
          release_keys-Owning b.pressed_keys b.pressed_buttons
            (record b { pressed_keys = []; pressed_buttons = [] })
            (record { own = g.own; sends = g.sends; owned = g.owned }))

  refuse-Guarded : (e : BrokerError) (b : InputBroker W) → Guarded b → Guarded (refuse sink e b).1
  unfolding refuse
  refuse-Guarded e b g =
      let g' = release_all-Guarded b g in
      record { own = g'.own; sends = g'.sends; owned = g'.owned }

  -- The send of a permitted action and what follows it.
  after_send-Guarded :
      (a : InputAction) (r : Result BrokerError (Unit {0})) (w : W) (b : InputBroker W)
      → Permitted target a b.log
      → Guarded b
      → Guarded (after_send sink a r (record b { sink = w; log = sent a r ∷ b.log })).1
  unfolding after_send note
  after_send-Guarded a (err e) w b p g =
      refuse-Guarded e (record b { sink = w; log = sent a (err e) ∷ b.log })
        (record {
          own = g.own;
          sends = (p, g.sends);
          owned = refused-Owned b.pressed_keys b.pressed_buttons b.log g.owned a e;
        })
  after_send-Guarded (key_down k) (ok _) w b p g = record {
    own = g.own;
    sends = (p, g.sends);
    owned = key_down-Owned b.pressed_keys b.pressed_buttons b.log g.owned k;
  }
  after_send-Guarded (key_up k) (ok _) w b p g = record {
    own = g.own;
    sends = (p, g.sends);
    owned = key_up-Owned b.pressed_keys b.pressed_buttons b.log g.owned k;
  }
  after_send-Guarded (mouse_down m) (ok _) w b p g = record {
    own = g.own;
    sends = (p, g.sends);
    owned = mouse_down-Owned b.pressed_keys b.pressed_buttons b.log g.owned m;
  }
  after_send-Guarded (mouse_up m) (ok _) w b p g = record {
    own = g.own;
    sends = (p, g.sends);
    owned = mouse_up-Owned b.pressed_keys b.pressed_buttons b.log g.owned m;
  }
  after_send-Guarded (mouse_move_client x y) (ok _) w b p g = record {
    own = g.own;
    sends = (p, g.sends);
    owned = kept-Owned b.pressed_keys b.pressed_buttons b.log g.owned _ (λ j h. h) (λ j h. h);
  }
  after_send-Guarded (mouse_wheel d) (ok _) w b p g = record {
    own = g.own;
    sends = (p, g.sends);
    owned = kept-Owned b.pressed_keys b.pressed_buttons b.log g.owned _ (λ j h. h) (λ j h. h);
  }

  after_foreground-Guarded :
      (a : InputAction) (r : Result BrokerError (Unit {0})) (b : InputBroker W)
      → validate a ≡ ok a
      → (r ≡ ok tt → just_focused target b.log ≡ true)
      → Guarded b
      → Guarded (after_foreground sink a r b).1
  unfolding after_foreground send_ready send
  after_foreground-Guarded a (err e) b valid focus g = refuse-Guarded e b g
  after_foreground-Guarded a (ok _) b valid focus g = elim (Bool-cases (is_paused b.status)) [
    | inl p ↦ rw p g
    | inr p ↦ rw p (after_send-Guarded a _ _ b (inr (valid, focus refl)) g)
  ]

  same_target_focused :
      (r : Result BrokerError (Option SessionTarget)) (l : List Call)
      → same_target target r ≡ ok tt
      → just_focused target (looked r ∷ l) ≡ true
  same_target_focused (err e) l h = cc
  same_target_focused (ok none) l h = cc
  same_target_focused (ok (some t)) l h = ground arith

  look_focused :
      (b : InputBroker W)
      → b.target ≡ target
      → (ensure_foreground sink b).0 ≡ ok tt
      → just_focused target (ensure_foreground sink b).1.log ≡ true
  unfolding ensure_foreground
  look_focused b own h = same_target_focused (sink.foreground_target b.sink).0 b.log (rw own at h)

  validate_same : (a : InputAction) {a' : InputAction} → validate a ≡ ok a' → a' ≡ a
  unfolding validate
  validate_same (key_down k) h = ground arith
  validate_same (key_up k) h = ground arith
  validate_same (mouse_down k) h = ground arith
  validate_same (mouse_up k) h = ground arith
  validate_same (mouse_move_client x y) h = ground arith
  validate_same (mouse_wheel d) h = ground arith

  after_validate-Guarded :
      (r : Result BrokerError InputAction) (b : InputBroker W)
      → ((a : InputAction) → r ≡ ok a → validate a ≡ ok a)
      → Guarded b
      → Guarded (after_validate sink r b).1
  unfolding after_validate
  after_validate-Guarded (err e) b valid g = g
  after_validate-Guarded (ok a) b valid g =
      after_foreground-Guarded a _ (ensure_foreground sink b).1 (valid a refl)
        (look_focused b g.own) (look-Guarded b g)

  after_check-Guarded :
      (r : Result BrokerError (Unit {0})) (b : InputBroker W)
      → Guarded b
      → Guarded (after_check sink r b).1
  unfolding after_check
  after_check-Guarded (err e) b g = g
  after_check-Guarded (ok _) b g = record { own = g.own; sends = g.sends; owned = g.owned }

  pub operate-Guarded : (o : Operation) (b : InputBroker W) → Guarded b → Guarded (operate sink o b)
  unfolding dispatch cancel resume_after_focus_check
  operate-Guarded (dispatches a) b g =
      after_validate-Guarded (validate a) b
        (λ a' e. rw (validate_same a e) (e ∙ ap ok (validate_same a e))) g
  operate-Guarded cancels b g =
      release_all-Guarded (record b { status = paused_for_focus })
        (record { own = g.own; sends = g.sends; owned = g.owned })
  operate-Guarded releases b g = release_all-Guarded b g
  operate-Guarded resumes b g =
      after_check-Guarded _ (ensure_foreground sink b).1 (look-Guarded b g)

  run-Guarded : (os : List Operation) (b : InputBroker W) → Guarded b → Guarded (run sink os b)
  run-Guarded [] b g = g
  run-Guarded (o ∷ os) b g = run-Guarded os (operate sink o b) (operate-Guarded o b g)

  -- Over any history of calls, and whatever the sink answers, every input that the broker sends is
  -- either a validated action sent right after a look that found exactly the target's process and
  -- window in the foreground, or lets go of a key or a button that is down just then, by the presses
  -- and releases that the sink accepted.
  pub run-AllPermitted :
      (w : W) (os : List Operation) → AllPermitted target (run sink os (new target w)).log
  unfolding new
  run-AllPermitted w os =
      (run-Guarded os (new target w)
        (record { own = refl; sends = tt; owned = nothing-Owned [] })).sends
