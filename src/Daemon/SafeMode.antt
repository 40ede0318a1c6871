-- ===== src/Daemon/SafeMode.antt =====
-- When a worker may start, and what safe mode forbids, in crates/nectarpilot-core/src/engine.rs.
use roblox.Prelude.{
  ℕ, Text, Bool, true, false, not, Option, none, some, List, [], ◌∷◌, ◌≡◌, refl, ap, sym, ◌∙◌, any,
  if◌then◌else◌, Result, ok, err, arith,
}
use roblox.Prelude.Early.{Triple, Post, bind_rule, Kept, kept_either_way, weaken}
use roblox.Contracts.{RunState, idle}
use roblox.Scheduler.{
  TaskKey, TaskPermit, ScheduleError, key_eq, is_active, acquire, drop, remove_key,
}
use roblox.Scheduler.Exclusion.{key_eq_refl}
use roblox.Engine.{AutomationError, Engine, same_state, transition, moved, emit}
use roblox.Engine.Steps.{same_state→eq}
use roblox.Daemon.{
  Profile, Daemon, Store, M, unless, ask, automation_run, found, with_answer, take_permit,
  refuse_second, spawn, start,
}

-- Nothing has changed in the daemon; the world, with the store in it, may have.
pub record Unchanged {W : Type 0} (d d' : Daemon W) : Type 0 where
  pub same : record d' { engine = record (d'.engine) { world = d.engine.world } } ≡ d

-- A worker has been started where none was running.
pub record Started {W : Type 0} (id : ℕ) (d d' : Daemon W) : Type 0 where
  pub no_safe_mode : d.safe_mode ≡ false
  pub was_idle : d.engine.state ≡ idle
  pub was_alone : d.worker_running ≡ false
  pub was_free : is_active d.scheduler (automation_run id) ≡ false
  pub state : d'.engine.state ≡ RunState.preflight
  pub worker : d'.worker_running ≡ true
  pub held : is_active d'.scheduler (automation_run id) ≡ true
  pub token : d'.engine.cancellation ≡ true
  pub channel : d'.engine.pause_sender ≡ true

remove_key_absent :
    (key : TaskKey) (ks : List TaskKey)
    → any (λ k. key_eq key k) ks ≡ false
    → remove_key key ks ≡ ks
remove_key_absent key [] h = refl
remove_key_absent key (k ∷ ks) h = ground (arith, remove_key_absent key ks)

module _ {W : Type 0} (store : Store W) (id : ℕ) (d : Daemon W) where
  -- Unchanged, with what the tests passed so far say of the daemon at first.
  abbrev Known : Type 0 → Daemon W → Type 0
  Known F d' = Unchanged d d' × F

  closed-Known :
      (F : Type 0) (d' : Daemon W) (w : W)
      → Known F d'
      → Known F (record d' { engine = record (d'.engine) { world = w } })
  closed-Known F d' w (u, f) = (record { same = u.same }, f)

  ask-Known :
      {A : Type 0} (F : Type 0) (call : W → Result AutomationError A × W)
      → Kept (Known F) (ask call)
  ask-Known F call = record { run = λ d' h. kept_either_way (Known F) _ _ (closed-Known F d' _ h) }

  found-Known : (F : Type 0) (o : Option Profile) → Kept (Known F) (found store id o)
  found-Known F none = record { run = λ d' h. h }
  found-Known F (some p) = record { run = λ d' h. h }

  unless-Known :
      (F G : Type 0) (good : Daemon W → Bool) (e : Daemon W → AutomationError)
      → ((d' : Daemon W) → Unchanged d d' → F → good d' ≡ true → G)
      → Triple (Known F) (λ d'. unless (good d') (e d') d') (λ _. Known G) (λ _. Unchanged d)
  unless-Known F G good e next = record { run = λ d' h. go d' (good d') refl h }
    where
      go :
          (d' : Daemon W) (b : Bool)
          → good d' ≡ b
          → Known F d'
          → Post (λ _. Known G) (λ _. Unchanged d) (if b then ok tt else err (e d'), d')
      go d' true q (u, f) = (u, next d' u f q)
      go d' false q (u, f) = u

  -- The permit is taken: without its key the daemon is unchanged.
  record Holding (F : Type 0) (permit : TaskPermit) (d' : Daemon W) : Type 0 where
    others : List TaskKey
    key : permit.key ≡ some (automation_run id)
    active : d'.scheduler.active ≡ automation_run id ∷ others
    free : any (λ k. key_eq (automation_run id) k) others ≡ false
    before : Known F (record d' { scheduler = record { active = others } })

  take_permit-Holding :
      (F : Type 0) → Triple (Known F) (take_permit store id) (Holding F) (λ _. Unchanged d)
  unfolding take_permit acquire is_active
  take_permit-Holding F = record { run = λ d' h. go d' _ refl h }
    where
      go :
          (d' : Daemon W) (b : Bool)
          → is_active d'.scheduler (automation_run id) ≡ b
          → Known F d'
          → Post
              (Holding F)
              (λ _. Unchanged d)
              (with_answer store
                (if b then (err (ScheduleError.duplicate (automation_run id)), d'.scheduler) else (
                  ok (record { key = some (automation_run id) }),
                  record { active = automation_run id ∷ d'.scheduler.active },
                ))
                d')
      go d' true q (u, f) = u
      go d' false q (u, f) = record {
        others = d'.scheduler.active;
        key = refl;
        active = refl;
        free = q;
        before = (u, f);
      }

  dropped :
      (k : TaskKey) (ks : List TaskKey)
      → any (λ j. key_eq k j) ks ≡ false
      → remove_key k (k ∷ ks) ≡ ks
  dropped k ks h = rw (key_eq_refl k) (remove_key_absent k ks h)

  refuse_second-Holding :
      (F : Type 0) (p : TaskPermit)
      → Triple
          (Holding F p)
          (refuse_second store p)
          (λ _. Holding (F × (d.worker_running ≡ false)) p)
          (λ _. Unchanged d)
  unfolding refuse_second drop is_active
  refuse_second-Holding F p = record { run = λ d' h. go d' d'.worker_running refl h }
    where
      go :
          (d' : Daemon W) (b : Bool)
          → d'.worker_running ≡ b
          → Holding F p d'
          → Post
              (λ _. Holding (F × (d.worker_running ≡ false)) p)
              (λ _. Unchanged d)
              (if b
                then (
                  err AutomationError.worker_already_running,
                  record d' { scheduler = drop p d'.scheduler },
                )
                else (ok tt, d'))
      go d' true q h = rw h.key (record {
        same =
            ap
              (λ (ks : List TaskKey). record d' {
                scheduler = record { active = ks };
                engine = record (d'.engine) { world = d.engine.world };
              })
              (ap (remove_key (automation_run id)) h.active
                ∙ dropped (automation_run id) h.others h.free)
            ∙ h.before.0.same;
      })
      go d' false q h = record {
        others = h.others;
        key = h.key;
        active = h.active;
        free = h.free;
        before = (
          h.before.0,
          (h.before.1, sym (ap (λ (x : Daemon W). x.worker_running) h.before.0.same) ∙ q),
        );
      }

  abbrev Facts : Type 0
  Facts =
      ((Unit {0} × (d.safe_mode ≡ false)) × (d.engine.state ≡ idle)) × (d.worker_running ≡ false)

  moved_state :
      (same : Bool) (previous current : RunState) (reason : Text) (s : Engine W)
      → ((moved same previous current reason s).state ≡ current)
        × ((moved same previous current reason s).cancellation ≡ s.cancellation)
        × ((moved same previous current reason s).pause_sender ≡ s.pause_sender)
  unfolding moved emit
  moved_state true previous current reason s = (refl, refl, refl)
  moved_state false previous current reason s = (refl, refl, refl)

  spawn-Started :
      (p : TaskPermit)
      → Triple (Holding Facts p) (spawn store id) (λ _. Started id d) (λ _. Unchanged d)
  unfolding spawn transition is_active
  spawn-Started p = record {
    run = λ d' h.
        let told = moved_state _ _ RunState.preflight _ _ in
        record {
          no_safe_mode = h.before.1.0.0.1;
          was_idle = h.before.1.0.1;
          was_alone = h.before.1.1;
          was_free =
              sym (ap (λ (x : Daemon W). is_active x.scheduler (automation_run id)) h.before.0.same)
              ∙ h.free;
          state = told.0;
          worker = refl;
          held =
              ap (any (λ j. key_eq (automation_run id) j)) h.active
              ∙ rw (key_eq_refl (automation_run id)) refl;
          token = told.1;
          channel = told.2;
        };
  }

  abbrev Ready : Type 0
  Ready = (Unit {0} × (d.safe_mode ≡ false)) × (d.engine.state ≡ idle)

  quietly :
      {A : Type 0} (m : M W A)
      → Kept (Known Ready) m
      → Triple (Known Ready) m (λ _. Known Ready) (λ _. Unchanged d)
  quietly m kept = weaken m (λ s h. h) (λ a s h. h) (λ e s h. h.0) kept

  unset : (b : Bool) → not b ≡ true → b ≡ false
  unset true h = cc
  unset false h = refl

  start-Triple : Triple (Known (Unit {0})) (start store id) (λ _. Started id d) (λ _. Unchanged d)
  unfolding start
  start-Triple =
      bind_rule _ _
        (unless-Known (Unit {0}) (Unit {0} × (d.safe_mode ≡ false)) (λ d'. not d'.safe_mode) _
          (λ d' u f q. (f, sym (ap (λ (x : Daemon W). x.safe_mode) u.same) ∙ unset _ q)))
        (λ _.
          bind_rule _ _
            (unless-Known (Unit {0} × (d.safe_mode ≡ false)) Ready
              (λ d'. same_state d'.engine.state idle) _
              (λ d' u f q. (
                f,
                sym (ap (λ (x : Daemon W). x.engine.state) u.same)
                    ∙ same_state→eq d'.engine.state idle q,
              )))
            (λ _. bind_rule _ _ (quietly _ (ask-Known Ready (store.load_profile id))) (λ loaded.
              bind_rule _ _ (quietly _ (found-Known Ready loaded)) (λ profile.
                bind_rule _ _ (quietly _ (ask-Known Ready (store.set_selected_profile id))) (λ _.
                  bind_rule _ _ (take_permit-Holding Ready) (λ permit.
                    bind_rule _ _ (refuse_second-Holding Ready permit) (λ _.
                      bind_rule _ _ (spawn-Started permit) (λ _. record { run = λ d' h. h }))))))))

-- A start that succeeds found the daemon out of safe mode, idle, with no worker running and no live
-- permit for the profile's automation run, and leaves it in `Preflight` with a worker, a token, a pause
-- channel and that permit. A start that fails leaves every part of the daemon as it was, events
-- included, and gives back a permit taken before the failure; only what the calls of the store did
-- to the store, such as the selection of the profile, stays.
pub start_effect :
    {W : Type 0} (store : Store W) (id : ℕ) (d : Daemon W)
    → Post (λ _. Started id d) (λ _. Unchanged d) (start store id d)
start_effect store id d = (start-Triple store id d).run d (record { same = refl }, tt)
