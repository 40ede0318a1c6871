-- ===== src/Platform/Input/Owned.antt =====
-- The record of pressed inputs that the broker of crates/nectarpilot-platform/src/input.rs keeps, against
-- the log of what its sink accepted: whatever is on record is down.
use roblox.Prelude.{true, List, [], ◌∷◌, ◌≡◌, Result, ok, err, arith}
use roblox.Prelude.Ordered.{contains, IsOrdered}
use roblox.Prelude.Ordered.Laws.{
  Above-IsOrdered, insert-IsOrdered, remove-IsOrdered, contains-Above, contains-insert,
  contains-remove,
}
use roblox.Platform.Input.{
  Key, MouseButton, key_rank, button_rank, InputAction, key_down, key_up, mouse_down, mouse_up,
  mouse_move_client, mouse_wheel, BrokerError, Call, sent, insert_key, remove_key, insert_button,
  remove_button,
}
use roblox.Platform.Input.Held.{key_held, button_held}

-- These keys and buttons are sets, and all of them are down.
pub record Owned (ks : List Key) (ms : List MouseButton) (l : List Call) : Type 0 where
  pub key_set : IsOrdered key_rank ks
  pub button_set : IsOrdered button_rank ms
  pub keys : (k : Key) → contains key_rank k ks ≡ true → key_held k l ≡ true
  pub buttons : (m : MouseButton) → contains button_rank m ms ≡ true → button_held m l ≡ true

pub nothing-Owned : (l : List Call) → Owned [] [] l
unfolding contains
nothing-Owned l = record { key_set = tt; button_set = tt; keys = λ k h. cc; buttons = λ m h. cc }

module _ (ks : List Key) (ms : List MouseButton) (l : List Call) (o : Owned ks ms l) where
  -- What is down stays down.
  pub kept-Owned :
      (l' : List Call)
      → ((k : Key) → key_held k l ≡ true → key_held k l' ≡ true)
      → ((m : MouseButton) → button_held m l ≡ true → button_held m l' ≡ true)
      → Owned ks ms l'
  kept-Owned l' f g = record {
    key_set = o.key_set;
    button_set = o.button_set;
    keys = λ k h. f k (o.keys k h);
    buttons = λ m h. g m (o.buttons m h);
  }

  -- A send that is refused changes nothing that is down.
  pub refused-Owned : (a : InputAction) (e : BrokerError) → Owned ks ms (sent a (err e) ∷ l)
  refused-Owned (key_down k) e = kept-Owned _ (λ j h. h) (λ j h. h)
  refused-Owned (key_up k) e = kept-Owned _ (λ j h. h) (λ j h. h)
  refused-Owned (mouse_down m) e = kept-Owned _ (λ j h. h) (λ j h. h)
  refused-Owned (mouse_up m) e = kept-Owned _ (λ j h. h) (λ j h. h)
  refused-Owned (mouse_move_client x y) e = kept-Owned _ (λ j h. h) (λ j h. h)
  refused-Owned (mouse_wheel d) e = kept-Owned _ (λ j h. h) (λ j h. h)

  pub key_down-Owned : (k : Key) → Owned (insert_key k ks) ms (sent (key_down k) (ok tt) ∷ l)
  key_down-Owned k = record {
    key_set = insert-IsOrdered key_rank k ks o.key_set;
    button_set = o.button_set;
    keys = λ j h. ground (arith, contains-insert key_rank j k ks h, o.keys j);
    buttons = o.buttons;
  }

  pub key_up-Owned : (k : Key) → Owned (remove_key k ks) ms (sent (key_up k) (ok tt) ∷ l)
  key_up-Owned k = record {
    key_set = remove-IsOrdered key_rank k ks o.key_set;
    button_set = o.button_set;
    keys = λ j h. ground (arith, contains-remove key_rank j k ks o.key_set h, o.keys j);
    buttons = o.buttons;
  }

  pub mouse_down-Owned :
      (m : MouseButton) → Owned ks (insert_button m ms) (sent (mouse_down m) (ok tt) ∷ l)
  mouse_down-Owned m = record {
    key_set = o.key_set;
    button_set = insert-IsOrdered button_rank m ms o.button_set;
    keys = o.keys;
    buttons = λ j h. ground (arith, contains-insert button_rank j m ms h, o.buttons j);
  }

  pub mouse_up-Owned :
      (m : MouseButton) → Owned ks (remove_button m ms) (sent (mouse_up m) (ok tt) ∷ l)
  mouse_up-Owned m = record {
    key_set = o.key_set;
    button_set = remove-IsOrdered button_rank m ms o.button_set;
    keys = o.keys;
    buttons = λ j h. ground (arith, contains-remove button_rank j m ms o.button_set h, o.buttons j);
  }

-- A loop of releases goes on with the rest of its set.
pub release_key-Owned :
    (k : Key) (ks : List Key) (ms : List MouseButton) (l : List Call)
    (r : Result BrokerError (Unit {0}))
    → Owned (k ∷ ks) ms l
    → Owned ks ms (sent (key_up k) r ∷ l)
unfolding contains
release_key-Owned k ks ms l (err e) o = record {
  key_set = Above-IsOrdered key_rank (key_rank k) ks o.key_set;
  button_set = o.button_set;
  keys = λ j h. ground (arith, o.keys j);
  buttons = o.buttons;
}
release_key-Owned k ks ms l (ok _) o = record {
  key_set = Above-IsOrdered key_rank (key_rank k) ks o.key_set;
  button_set = o.button_set;
  keys = λ j h. ground (arith, o.keys j, contains-Above key_rank (key_rank k) j ks o.key_set h);
  buttons = o.buttons;
}

pub release_button-Owned :
    (m : MouseButton) (ks : List Key) (ms : List MouseButton) (l : List Call)
    (r : Result BrokerError (Unit {0}))
    → Owned ks (m ∷ ms) l
    → Owned ks ms (sent (mouse_up m) r ∷ l)
unfolding contains
release_button-Owned m ks ms l (err e) o = record {
  key_set = o.key_set;
  button_set = Above-IsOrdered button_rank (button_rank m) ms o.button_set;
  keys = o.keys;
  buttons = λ j h. ground (arith, o.buttons j);
}
release_button-Owned m ks ms l (ok _) o = record {
  key_set = o.key_set;
  button_set = Above-IsOrdered button_rank (button_rank m) ms o.button_set;
  keys = o.keys;
  buttons = λ j h.
      ground (arith, o.buttons j, contains-Above button_rank (button_rank m) j ms o.button_set h);
}

-- The next of a loop of releases is down.
pub first_key_held :
    (k : Key) (ks : List Key) (ms : List MouseButton) (l : List Call)
    → Owned (k ∷ ks) ms l
    → key_held k l ≡ true
unfolding contains
first_key_held k ks ms l o = o.keys k (ground arith)

pub first_button_held :
    (m : MouseButton) (ks : List Key) (ms : List MouseButton) (l : List Call)
    → Owned ks (m ∷ ms) l
    → button_held m l ≡ true
unfolding contains
first_button_held m ks ms l o = o.buttons m (ground arith)
