-- ===== src/Platform/Executor/Runs.antt =====
-- What a whole run of a plan on the native runtime does to the broker:
-- crates/nectarpilot-platform/src/task_executor.rs under `execute_task_plan`.
use roblox.Prelude.{
  ℕ, Bool, true, false, not, ◌||◌, if◌then◌else◌, ◌==◌, ◌≡◌, [], refl, Result, ok, err,
}
use roblox.Contracts.{StartMode}
use roblox.Tasks.{TaskPlan, TaskAction, DetectionRequirement}
use roblox.Tasks.Execution.{TaskRuntimeError, focus_lost, execute_task_plan}
use roblox.Tasks.Execution.Frame.{Keeps, execute_task_plan-keeps}
use roblox.Platform.Session.{SessionTarget, SessionError, RobloxSession, refresh}
use roblox.Platform.Input.{
  Key, MouseButton, InputAction, key_down, key_up, mouse_down, mouse_up, BrokerError, InputBroker,
  is_clean, dispatch, cancel, new, dispatches, cancels, releases, resumes,
}
use roblox.Platform.Input.Frame.{release_all_clean}
use roblox.Platform.Input.Focus.{AllPermitted, Guarded, operate-Guarded}
use roblox.Platform.Input.Owned.{nothing-Owned}
use roblox.Platform.Input.Held.{
  Accurate, operate-Accurate, clean_nothing_held, key_held, button_held, release_refused,
}
use roblox.Platform.Executor.Press.{
  Holds, Pressed, dispatch-Pressed, key_up_clean, mouse_up_clean, resume_clean, cancel_clean,
}
use roblox.Platform.Executor.{
  Surroundings, Answer, NativeTaskRuntime, broker_result, from_session, cancel_broker,
  resume_broker, check_window, after_refresh, ensure_ready, send_to_broker, after_delay,
  after_press, hold_key, hold_button, wait_for, perform_ready, when_ready, perform, detect_ready,
  detect, record_dry_run, release_inputs, ask_checkpoint, native, direction_key, control_key,
}

module _ {P S D C : Type 0} (env : Surroundings P S D C) (target : SessionTarget) where
  -- A broker whose log and memory agree, and whose sends were all permitted.
  record Traced (b : InputBroker S) : Type 0 where
    guarded : Guarded env.sink target b
    accurate : Accurate b

  -- Such a broker, with nothing pressed.
  record Sound (n : NativeTaskRuntime P S D C) : Type 0 where
    traced : Traced n.broker
    clean : is_clean n.broker ≡ true

  dispatch-Traced :
      (a : InputAction) (b : InputBroker S) → Traced b → Traced (dispatch env.sink a b).1
  dispatch-Traced a b t = record {
    guarded = operate-Guarded env.sink target (dispatches a) b t.guarded;
    accurate = operate-Accurate env.sink (dispatches a) b t.accurate;
  }

  cancel-Traced : (b : InputBroker S) → Traced b → Traced (cancel env.sink b).1
  cancel-Traced b t = record {
    guarded = operate-Guarded env.sink target cancels b t.guarded;
    accurate = operate-Accurate env.sink cancels b t.accurate;
  }

  cancel_broker-Sound :
      (n : NativeTaskRuntime P S D C) → Traced n.broker → Sound (cancel_broker env n)
  unfolding cancel_broker
  cancel_broker-Sound n t = record {
    traced = cancel-Traced n.broker t;
    clean = cancel_clean env.sink n.broker;
  }

  resume_broker-Sound : (n : NativeTaskRuntime P S D C) → Sound n → Sound (resume_broker env n).1
  unfolding resume_broker
  resume_broker-Sound n s = record {
    traced = record {
      guarded = operate-Guarded env.sink target resumes n.broker s.traced.guarded;
      accurate = operate-Accurate env.sink resumes n.broker s.traced.accurate;
    };
    clean = resume_clean env.sink n.broker s.clean;
  }

  either-Sound :
      (b : Bool) (x y : Answer env) → Sound x.1 → Sound y.1 → Sound (if b then x else y).1
  either-Sound true x y hx hy = hx
  either-Sound false x y hx hy = hy

  check_window-Sound : (n : NativeTaskRuntime P S D C) → Sound n → Sound (check_window env n).1
  unfolding check_window
  check_window-Sound n s =
      let geometry = n.session.geometry in
      let lost : Answer env = (err focus_lost, cancel_broker env n) in
      let focused : Answer env = if not n.session.foreground then lost else resume_broker env n in
      either-Sound (geometry.minimized || geometry.client.width == 0 || geometry.client.height == 0)
        lost focused (cancel_broker-Sound n s.traced)
        (either-Sound (not n.session.foreground) lost (resume_broker env n)
          (cancel_broker-Sound n s.traced) (resume_broker-Sound n s))

  after_refresh-Sound :
      (r : Result SessionError Bool) (n : NativeTaskRuntime P S D C)
      → Sound n
      → Sound (after_refresh env r n).1
  unfolding after_refresh
  after_refresh-Sound (err e) n s = s
  after_refresh-Sound (ok true) n s = cancel_broker-Sound n s.traced
  after_refresh-Sound (ok false) n s = check_window-Sound n s

  ensure_ready-Sound : (n : NativeTaskRuntime P S D C) → Sound n → Sound (ensure_ready env n).1
  unfolding ensure_ready
  ensure_ready-Sound n s =
      after_refresh-Sound (refresh env.probe n.session n.probe).0 _
        (record { traced = s.traced; clean = s.clean })

  after_delay-Sound :
      (cancelled : Bool) (r : Result TaskRuntimeError (Unit {0})) (n : NativeTaskRuntime P S D C)
      → Sound n
      → Sound (after_delay env cancelled (r, n)).1
  unfolding after_delay
  after_delay-Sound true r n s = cancel_broker-Sound n s.traced
  after_delay-Sound false r n s = s

  after_press-Sound :
      (down up : InputAction) (ms : ℕ) (r : Result BrokerError (Unit {0})) (b : InputBroker S)
      (n : NativeTaskRuntime P S D C)
      → ((b : InputBroker S) → Holds down b → is_clean (dispatch env.sink up b).1 ≡ true)
      → Traced b
      → Pressed down (r, b)
      → Sound (after_press env up ms (broker_result r, record n { broker = b })).1
  unfolding after_press send_to_broker
  after_press-Sound down up ms (err e) b n lets_go t p = record { traced = t; clean = p }
  after_press-Sound down up ms (ok _) b n lets_go t p =
      after_delay-Sound (env.delay ms n.context).0 _ _
        (record { traced = dispatch-Traced up b t; clean = lets_go b p })

  hold_key-Sound :
      (k : Key) (ms : ℕ) (n : NativeTaskRuntime P S D C) → Sound n → Sound (hold_key env k ms n).1
  unfolding hold_key send_to_broker
  hold_key-Sound k ms n s =
      after_press-Sound (key_down k) (key_up k) ms _ _ n (key_up_clean env.sink k)
        (dispatch-Traced (key_down k) n.broker s.traced)
        (dispatch-Pressed env.sink (key_down k) n.broker s.clean)

  hold_button-Sound :
      (m : MouseButton) (ms : ℕ) (n : NativeTaskRuntime P S D C)
      → Sound n
      → Sound (hold_button env m ms n).1
  unfolding hold_button send_to_broker
  hold_button-Sound m ms n s =
      after_press-Sound (mouse_down m) (mouse_up m) ms _ _ n (mouse_up_clean env.sink m)
        (dispatch-Traced (mouse_down m) n.broker s.traced)
        (dispatch-Pressed env.sink (mouse_down m) n.broker s.clean)

  perform_ready-Sound :
      (a : TaskAction) (n : NativeTaskRuntime P S D C) → Sound n → Sound (perform_ready env a n).1
  unfolding perform_ready wait_for
  perform_ready-Sound (TaskAction.move direction ms) n s =
      hold_key-Sound (direction_key direction) ms n s
  perform_ready-Sound (TaskAction.tap control ms) n s = hold_key-Sound (control_key control) ms n s
  perform_ready-Sound (TaskAction.attack ms) n s = hold_button-Sound MouseButton.left ms n s
  perform_ready-Sound (TaskAction.wait ms) n s = record { traced = s.traced; clean = s.clean }

  when_ready-Sound :
      (a : TaskAction) (r : Result TaskRuntimeError (Unit {0})) (n : NativeTaskRuntime P S D C)
      → Sound n
      → Sound (when_ready env a (r, n)).1
  unfolding when_ready
  when_ready-Sound a (err e) n s = s
  when_ready-Sound a (ok _) n s = perform_ready-Sound a n s

  detect_ready-Sound :
      (q : DetectionRequirement) (r : Result TaskRuntimeError (Unit {0}))
      (n : NativeTaskRuntime P S D C)
      → Sound n
      → Sound (detect_ready env q (r, n)).1
  unfolding detect_ready
  detect_ready-Sound q (err e) n s = s
  detect_ready-Sound q (ok _) n s = record { traced = s.traced; clean = s.clean }

  native-Keeps : Keeps (native env) Sound
  unfolding perform detect record_dry_run release_inputs ask_checkpoint
  native-Keeps = record {
    checkpoint = λ n s. record { traced = s.traced; clean = s.clean };
    detect = λ q n s. detect_ready-Sound q _ _ (ensure_ready-Sound n s);
    perform = λ a n s. when_ready-Sound a _ _ (ensure_ready-Sound n s);
    record_dry_run = λ id a n s. record { traced = s.traced; clean = s.clean };
    release_all = λ n s. record {
      traced = record {
        guarded = operate-Guarded env.sink target releases n.broker s.traced.guarded;
        accurate = operate-Accurate env.sink releases n.broker s.traced.accurate;
      };
      clean = release_all_clean env.sink n.broker;
    };
  }

module _ {P S D C : Type 0} (env : Surroundings P S D C) (session : RobloxSession) (probe : P)
    (sink : S) (guard : D) (context : C) (plan : TaskPlan) (mode : StartMode) where
  -- The runtime after the whole plan.
  abbrev pub after_run : NativeTaskRuntime P S D C
  after_run =
      (execute_task_plan (native env) plan mode
        (from_session session probe sink guard context)).1.world

  after_run-Sound : Sound env session.target after_run
  unfolding from_session new
  after_run-Sound =
      execute_task_plan-keeps (native env) (Sound env session.target)
        (native-Keeps env session.target) plan mode _
        (record {
          traced = record {
            guarded = record { own = refl; sends = tt; owned = nothing-Owned [] };
            accurate = record { keys = λ k f h. cc; buttons = λ m f h. cc };
          };
          clean = refl;
        })

  -- A plan run on a fresh native runtime, whatever the window, the sink, the detector and the delays
  -- do: every input that was sent was validated and sent right after the session's own process and
  -- window were found in the foreground, or let go of a key or a button that was down just then, by the
  -- presses and releases that the sink accepted; and at the end the broker records nothing as pressed.
  pub native_run-AllPermitted :
      AllPermitted session.target after_run.broker.log × (is_clean after_run.broker ≡ true)
  native_run-AllPermitted = let s = after_run-Sound in (s.traced.guarded.sends, s.clean)

  -- If the system refused no release during such a run, then after it no key and no button that the
  -- run pressed is down, whether the plan was completed, cancelled or failed.
  pub native_run-nothing_held :
      (k : Key) (m : MouseButton)
      → release_refused after_run.broker.log ≡ false
      → (key_held k after_run.broker.log ≡ false) × (button_held m after_run.broker.log ≡ false)
  native_run-nothing_held k m f =
      let s = after_run-Sound in
      clean_nothing_held env.sink after_run.broker k m s.traced.accurate f s.clean
