-- ===== src/Daemon/Lock.antt =====
-- Safe mode of crates/nectarpilot-core/src/engine.rs holds until it is acknowledged.
use roblox.Prelude.{
  ℕ, Bool, true, false, ◌||◌, List, [], ◌∷◌, ◌≡◌, refl, ap, sym, ◌∙◌, Result, ok, err, arith, inl,
}
use roblox.Prelude.Early.{Post, bind_rule, kept_either_way, kept_after}
use roblox.CrashGuard.{record_crash}
use roblox.Engine.{AutomationError, emit, Command, Environment, obey}
use roblox.Daemon.Commands.{Undriven, Undriven-refl, Undriven-trans, obey-Undriven}
use roblox.Daemon.{Daemon, Store, ask, start, enter_safe_mode, record_daemon_crash}
use roblox.Daemon.SafeMode.{Started, Unchanged, start_effect}

-- A native start, a crash of the daemon, or a pause, resume or stop.
pub data Happening : Type 0 where
  starts : (profile_id : ℕ) → Happening
  crashes : (occurred_at : ℕ) → Happening
  commands : Command → Happening

abbrev pub happen : {W : Type 0} → Store W → Environment W → Happening → Daemon W → Daemon W
happen store env (starts id) d = (start store id d).1
happen store env (crashes t) d = (record_daemon_crash store t d).1
happen store env (commands c) d = record d { engine = (obey env c d.engine).1 }

abbrev pub happen_all :
    {W : Type 0} → Store W → Environment W → List Happening → Daemon W → Daemon W
happen_all store env [] d = d
happen_all store env (h ∷ hs) d = happen_all store env hs (happen store env h d)

-- In safe mode, with no run started: the worker, the permits, the profile and the run are those of
-- before, and so are the token and the pause channel; the state is the one of before or one that a
-- pause, a resume or a stop sets.
pub record Locked {W : Type 0} (d d' : Daemon W) : Type 0 where
  pub locked : d'.safe_mode ≡ true
  pub worker : d'.worker_running ≡ d.worker_running
  pub permits : d'.scheduler ≡ d.scheduler
  pub profile : d'.profile_id ≡ d.profile_id
  pub run : d'.run_id ≡ d.run_id
  pub engine : Undriven d.engine d'.engine

Locked-trans : {W : Type 0} (d d' d'' : Daemon W) → Locked d d' → Locked d' d'' → Locked d d''
Locked-trans d d' d'' l m = record {
  locked = m.locked;
  worker = m.worker ∙ l.worker;
  permits = m.permits ∙ l.permits;
  profile = m.profile ∙ l.profile;
  run = m.run ∙ l.run;
  engine = Undriven-trans d.engine d'.engine d''.engine l.engine m.engine;
}

Locked-refl : {W : Type 0} (d : Daemon W) → d.safe_mode ≡ true → Locked d d
Locked-refl d h = record {
  locked = h;
  worker = refl;
  permits = refl;
  profile = refl;
  run = refl;
  engine = Undriven-refl d.engine;
}

module _ {W : Type 0} (store : Store W) where
  start-Locked : (id : ℕ) (d : Daemon W) → d.safe_mode ≡ true → Locked d (start store id d).1
  start-Locked id d h = go (start store id d) (start_effect store id d)
    where
      go :
          {A : Type 0} (r : Result AutomationError A × Daemon W)
          → Post (λ _. Started id d) (λ _. Unchanged d) r
          → Locked d r.1
      go (ok p, d') s = absurd (true≢false (sym h ∙ s.no_safe_mode))
        where
          true≢false : true ≡ false → ⊥
          true≢false e = cc
      go (err e, d') u = record {
        locked = ap (λ (x : Daemon W). x.safe_mode) u.same ∙ h;
        worker = ap (λ (x : Daemon W). x.worker_running) u.same;
        permits = ap (λ (x : Daemon W). x.scheduler) u.same;
        profile = ap (λ (x : Daemon W). x.profile_id) u.same;
        run = ap (λ (x : Daemon W). x.run_id) u.same;
        engine = record {
          state = inl (ap (λ (x : Daemon W). x.engine.state) u.same);
          token = ap (λ (x : Daemon W). x.engine.cancellation) u.same;
          channel = ap (λ (x : Daemon W). x.engine.pause_sender) u.same;
        };
      }

  enter-Locked :
      (d d' : Daemon W) (tripped : Bool)
      → Locked d d'
      → Post (λ _. Locked d) (λ _. Locked d) (enter_safe_mode store tripped d')
  unfolding enter_safe_mode emit
  enter-Locked d d' true l = record {
    locked = rw l.locked refl;
    worker = l.worker;
    permits = l.permits;
    profile = l.profile;
    run = l.run;
    engine = record { state = l.engine.state; token = l.engine.token; channel = l.engine.channel };
  }
  enter-Locked d d' false l = record {
    locked = rw l.locked refl;
    worker = l.worker;
    permits = l.permits;
    profile = l.profile;
    run = l.run;
    engine = record { state = l.engine.state; token = l.engine.token; channel = l.engine.channel };
  }

  crash-Locked :
      (t : ℕ) (d : Daemon W) → d.safe_mode ≡ true → Locked d (record_daemon_crash store t d).1
  unfolding record_daemon_crash
  crash-Locked t d h = kept_after (Locked d) _ (
      (bind_rule {P = Locked d}
          (ask (
            store.set_crash_guard_state (d.safe_mode || (record_crash t d.crash_guard).0)
              (record_crash t d.crash_guard).1.crashes))
          (λ _. enter_safe_mode store (record_crash t d.crash_guard).0) {Q = λ _. Locked d}
          {Q' = λ _. Locked d}
          (record {
            run = λ d' l. kept_either_way (Locked d) _ _ (record {
              locked = l.locked;
              worker = l.worker;
              permits = l.permits;
              profile = l.profile;
              run = l.run;
              engine = record {
                state = l.engine.state;
                token = l.engine.token;
                channel = l.engine.channel;
              };
            });
          })
          (λ _. record { run = λ d' l. enter-Locked d d' (record_crash t d.crash_guard).0 l })).run
        _
        (record {
          locked = h;
          worker = refl;
          permits = refl;
          profile = refl;
          run = refl;
          engine = record { state = inl refl; token = refl; channel = refl };
        }))

  module _ (env : Environment W) where
    happen-Locked :
        (h : Happening) (d : Daemon W) → d.safe_mode ≡ true → Locked d (happen store env h d)
    happen-Locked (starts id) d e = start-Locked id d e
    happen-Locked (crashes t) d e = crash-Locked t d e
    happen-Locked (commands c) d e = record {
      locked = e;
      worker = refl;
      permits = refl;
      profile = refl;
      run = refl;
      engine = obey-Undriven d.engine env c d.engine (Undriven-refl d.engine);
    }

    pub happen_all-Locked :
        (hs : List Happening) (d : Daemon W)
        → d.safe_mode ≡ true
        → Locked d (happen_all store env hs d)
    happen_all-Locked [] d e = Locked-refl d e
    happen_all-Locked (h ∷ hs) d e =
        let next = happen-Locked h d e in
        Locked-trans d (happen store env h d) _ next (happen_all-Locked hs _ next.locked)

  -- A trip is answered only in safe mode.
  abbrev Answered : Bool → Daemon W → Type 0
  Answered tripped d = tripped ≡ true → d.safe_mode ≡ true

  enter-Answered :
      (tripped : Bool) (d : Daemon W)
      → Post Answered (λ _ _. Unit {0}) (enter_safe_mode store tripped d)
  unfolding enter_safe_mode
  enter-Answered true d h = ground arith
  enter-Answered false d h = cc

  crash-Answered :
      (t : ℕ) (d : Daemon W) → Post Answered (λ _ _. Unit {0}) (record_daemon_crash store t d)
  unfolding record_daemon_crash
  crash-Answered t d =
      (bind_rule {P = λ _. Unit {0}}
          (ask (
            store.set_crash_guard_state (d.safe_mode || (record_crash t d.crash_guard).0)
              (record_crash t d.crash_guard).1.crashes))
          (λ _. enter_safe_mode store (record_crash t d.crash_guard).0) {Q = λ _ _. Unit {0}}
          (record { run = λ d' l. anything _ _ })
          (λ _. record { run = λ d' l. enter-Answered (record_crash t d.crash_guard).0 d' })).run
        _ tt
    where
      anything :
          {A : Type 0} (r : Result AutomationError A) (d : Daemon W)
          → Post (λ _ _. Unit {0}) (λ _ _. Unit {0}) (r, d)
      anything (ok a) d = tt
      anything (err e) d = tt

  trip_enters :
      (t : ℕ) (d : Daemon W)
      → (record_daemon_crash store t d).0 ≡ ok true
      → (record_daemon_crash store t d).1.safe_mode ≡ true
  trip_enters t d h = go (record_daemon_crash store t d) (crash-Answered t d) h
    where
      go :
          (r : Result AutomationError Bool × Daemon W)
          → Post Answered (λ _ _. Unit {0}) r
          → r.0 ≡ ok true
          → r.1.safe_mode ≡ true
      go (ok b, d') p h = p cc
      go (err e, d') p h = cc

-- Once a recorded crash answers that the guard tripped, the daemon is in safe mode. It stays in it
-- over any sequence of native starts that are asked for, crashes that are recorded, and pauses, resumes
-- and stops, whatever the store, the backend and the legacy port answer, with none of the worker, the
-- permits, the profile, the run id, the token and the pause channel changed; and the engine's state is
-- the one after that crash or one of `Running`, `Paused`, `Stopping` and `Idle`, which the commands set.
pub trip-Locked :
    {W : Type 0} (store : Store W) (env : Environment W) (t : ℕ) (d : Daemon W)
    (later : List Happening)
    → (record_daemon_crash store t d).0 ≡ ok true
    → Locked
        (record_daemon_crash store t d).1
        (happen_all store env later (record_daemon_crash store t d).1)
trip-Locked store env t d later tripped =
    happen_all-Locked store env later (record_daemon_crash store t d).1
      (trip_enters store t d tripped)
