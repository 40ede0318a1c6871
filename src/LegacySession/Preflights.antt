-- ===== src/LegacySession/Preflights.antt =====
-- Which scripts a session of crates/nectarpilot-core/src/engine.rs starts.
use roblox.Prelude.{
  ℕ, codes, some, ◌≡◌, refl, sym, ap, subst, Bool, true, false, ◌&&◌, ◌||◌, Text, text_eq,
  text_eq→eq, text_eq_refl, List, [], ◌∷◌, ◌++◌, any, map, length, is_ok, All, Bool-cases, inl, inr,
  if◌then◌else◌, Result, ok, err, arith,
}
use roblox.Prelude.Early.{kept_after}
use roblox.SessionPlan.{SessionStep, CollectStep, builtin_reset_script_id}
use roblox.Contracts.{running}
use roblox.Engine.{AutomationError, Engine, Environment, transition}
use roblox.LegacySession.{
  Call, preflighted, started, recovered, port_cancelled, released, LegacyPort, Session, Break,
  session_over, out_of_fuel, on_engine, awaited,
}
use roblox.LegacySession.Run.{
  cycles, cancel_port_call, release_call, clean_up, after_session, reject, went_on, preflight_call,
  preflight_steps, after_preflights, run_legacy_session_worker,
}
use roblox.Engine.Worker.{Verdict}
use roblox.LegacySession.Kept.{is_start, Closed, cycles-Kept}

-- A preflight of the script was accepted.
abbrev pub accepted : Text → List Call → Bool
accepted id [] = false
accepted id (preflighted script sha r ∷ l) = (text_eq id script && is_ok r) || accepted id l
accepted id (_ ∷ l) = accepted id l

-- Every start comes after an accepted preflight of its script.
abbrev pub AllAccepted : List Call → Type 0
AllAccepted [] = Unit
AllAccepted (started id sha ∷ l) = (accepted id l ≡ true) × AllAccepted l
AllAccepted (_ ∷ l) = AllAccepted l

accepted_later :
    (id : Text) (c : Call) (l : List Call) → accepted id l ≡ true → accepted id (c ∷ l) ≡ true
accepted_later id (preflighted script sha r) l h = ground arith
accepted_later id (started script sha) l h = h
accepted_later id recovered l h = h
accepted_later id port_cancelled l h = h
accepted_later id (released r) l h = h

AllAccepted-quiet :
    (c : Call) (l : List Call) → is_start c ≡ false → AllAccepted l → AllAccepted (c ∷ l)
AllAccepted-quiet (preflighted script sha r) l q h = h
AllAccepted-quiet (started script sha) l q h = cc
AllAccepted-quiet recovered l q h = h
AllAccepted-quiet port_cancelled l q h = h
AllAccepted-quiet (released r) l q h = h

-- Of each of these.
abbrev Each : List Text → List Call → Type 0
Each ids l = All (λ (id : Text). accepted id l ≡ true) ids

Each-later : (ids : List Text) (c : Call) (l : List Call) → Each ids l → Each ids (c ∷ l)
Each-later [] c l h = tt
Each-later (id ∷ ids) c l h = (accepted_later id c l h.0, Each-later ids c l h.1)

Each-any :
    (id : Text) (ids : List Text) (l : List Call)
    → any (text_eq id) ids ≡ true
    → Each ids l
    → accepted id l ≡ true
Each-any id [] l m h = cc
Each-any id (x ∷ ids) l m h = elim (Bool-cases (text_eq id x)) [
  | inl e ↦ subst (λ u. accepted u l ≡ true) (sym (text_eq→eq id x e)) h.0
  | inr e ↦ Each-any id ids l (ground arith) h.1
]

abbrev ids_of : List SessionStep → List Text
ids_of steps = map (λ (step : SessionStep). step.script_id) steps

-- What the preflights leave, accepted or not.
abbrev Preflighted :
    {W : Type 0}
    → List Text
    → List SessionStep
    → Result (Text × AutomationError) (Unit {0}) × Session W
    → Type 0
Preflighted seen steps (err e, s) = AllAccepted s.calls
Preflighted seen steps (ok _, s) =
    AllAccepted s.calls × Each seen s.calls × Each (ids_of steps) s.calls

module _ {W : Type 0} (env : Environment W) (port : LegacyPort W) where
  either-Preflighted :
      (seen : List Text) (steps : List SessionStep) (b : Bool)
      (x y : Result (Text × AutomationError) (Unit {0}) × Session W)
      → (b ≡ true → Preflighted seen steps x)
      → (b ≡ false → Preflighted seen steps y)
      → Preflighted seen steps (if b then x else y)
  either-Preflighted seen steps true x y hx hy = hx refl
  either-Preflighted seen steps false x y hx hy = hy refl

  skipped_seen :
      (step : SessionStep) (seen : List Text) (rest : List SessionStep)
      (r : Result (Text × AutomationError) (Unit {0}) × Session W)
      → any (text_eq step.script_id) seen ≡ true
      → Preflighted seen rest r
      → Preflighted seen (step ∷ rest) r
  skipped_seen step seen rest (err e, s) m h = h
  skipped_seen step seen rest (ok _, s) m h =
      (h.0, h.1, (Each-any step.script_id seen s.calls m h.1, h.2))

  newly_seen :
      (step : SessionStep) (seen : List Text) (rest : List SessionStep)
      (r : Result (Text × AutomationError) (Unit {0}) × Session W)
      → Preflighted (step.script_id ∷ seen) rest r
      → Preflighted seen (step ∷ rest) r
  newly_seen step seen rest (err e, s) h = h
  newly_seen step seen rest (ok _, s) h = (h.0, h.1.1, (h.1.0, h.2))

  asked_for :
      (step : SessionStep) (seen : List Text) (rest : List SessionStep)
      (next : Session W → Result (Text × AutomationError) (Unit {0}) × Session W)
      (r : Result AutomationError (Unit {0})) (s : Session W) (l : List Call)
      → s.calls ≡ preflighted step.script_id step.approved_sha256 r ∷ l
      → AllAccepted l
      → Each seen l
      → ((t : Session W)
          → AllAccepted t.calls
          → Each (step.script_id ∷ seen) t.calls
          → Preflighted (step.script_id ∷ seen) rest (next t))
      → Preflighted seen (step ∷ rest) (went_on env port step.script_id next (r, s))
  unfolding went_on
  asked_for step seen rest next (err e) s l same ordered each h =
      subst AllAccepted (sym same) ordered
  asked_for step seen rest next (ok u) s l same ordered each h =
      let call = preflighted step.script_id step.approved_sha256 (ok u) in
      newly_seen step seen rest (next s) (
        h s (subst AllAccepted (sym same) ordered) (
          subst (Each (step.script_id ∷ seen)) (sym same)
            (ground (arith, text_eq_refl step.script_id), Each-later seen call l each)))

  preflight_steps-Preflighted :
      (seen : List Text) (steps : List SessionStep) (s : Session W)
      → AllAccepted s.calls
      → Each seen s.calls
      → Preflighted seen steps (preflight_steps env port seen steps s)
  unfolding preflight_steps preflight_call awaited
  preflight_steps-Preflighted seen [] s ordered each = (ordered, each, tt)
  preflight_steps-Preflighted seen (step ∷ rest) s ordered each =
      let next = λ (t : Session W). preflight_steps env port (step.script_id ∷ seen) rest t in
      let (r, t) = preflight_call env port step s in
      either-Preflighted seen (step ∷ rest) (any (text_eq step.script_id) seen)
        (preflight_steps env port seen rest s) (went_on env port step.script_id next (r, t))
        (λ m.
          skipped_seen step seen rest (preflight_steps env port seen rest s) m
            (preflight_steps-Preflighted seen rest s ordered each))
        (λ m.
          asked_for step seen rest next r t s.calls refl ordered each
            (λ u o e. preflight_steps-Preflighted (step.script_id ∷ seen) rest u o e))

  clean_up-AllAccepted :
      (v : Verdict) (s : Session W)
      → AllAccepted s.calls
      → AllAccepted (clean_up env port v s).calls
  unfolding clean_up cancel_port_call release_call awaited
  clean_up-AllAccepted v s h = h

  after_session-AllAccepted :
      (r : Result Break (Unit {0}) × Session W)
      → AllAccepted r.1.calls
      → AllAccepted (after_session env port r).calls
  unfolding after_session
  after_session-AllAccepted (ok _, s) h = clean_up-AllAccepted _ s h
  after_session-AllAccepted (err (session_over v), s) h = clean_up-AllAccepted v s h
  after_session-AllAccepted (err out_of_fuel, s) h = h

  reject-AllAccepted :
      (id : Text) (e : AutomationError) (s : Session W)
      → AllAccepted s.calls
      → AllAccepted (reject env port id e s).calls
  unfolding reject cancel_port_call release_call awaited
  reject-AllAccepted id e s h = h

  Each-append :
      (ids more : List Text) (l : List Call) → Each (ids ++ more) l → Each ids l × Each more l
  Each-append [] more l h = (tt, h)
  Each-append (id ∷ ids) more l h =
      let (first, rest) = Each-append ids more l h.1 in ((h.0, first), rest)

  ids_of-append : (k l : List SessionStep) → ids_of (k ++ l) ≡ ids_of k ++ ids_of l
  ids_of-append [] l = refl
  ids_of-append (step ∷ k) l = ap (λ ids. step.script_id ∷ ids) (ids_of-append k l)

  -- The calls of a session that is running.
  module _ (all_ids : List Text) where
    Running : List Call → Type 0
    Running l = AllAccepted l × Each all_ids l

    abbrev Known : Text → Type 0
    Known id = any (text_eq id) all_ids ≡ true

    Running-Closed : Closed Running Known
    unfolding Running
    Running-Closed = record {
      quiet = λ c l q h. (AllAccepted-quiet c l q h.0, Each-later all_ids c l h.1);
      start = λ id sha l k h.
          ((Each-any id all_ids l k h.1, h.0), Each-later all_ids (started id sha) l h.1);
    }

  any_left :
      (id : Text) (k l : List Text) → any (text_eq id) k ≡ true → any (text_eq id) (k ++ l) ≡ true
  any_left id [] l h = cc
  any_left id (x ∷ k) l h = ground (arith, any_left id k l)

  any_right :
      (id : Text) (k l : List Text) → any (text_eq id) l ≡ true → any (text_eq id) (k ++ l) ≡ true
  any_right id [] l h = h
  any_right id (x ∷ k) l h = ground (arith, any_right id k l)

  known_steps :
      (steps : List SessionStep) (ids : List Text)
      → ((id : Text) → any (text_eq id) (ids_of steps) ≡ true → any (text_eq id) ids ≡ true)
      → All (λ (step : SessionStep). any (text_eq step.script_id) ids ≡ true) steps
  known_steps [] ids f = tt
  known_steps (step ∷ steps) ids f = (
    f step.script_id (ground (arith, text_eq_refl step.script_id)),
    known_steps steps ids (λ id h. f id (ground arith)),
  )

  abbrev steps_of : List CollectStep → List SessionStep
  steps_of collect = map (λ (entry : CollectStep). entry.step) collect

  known_entries :
      (entries : List CollectStep) (ids : List Text)
      → ((id : Text)
          → any (text_eq id) (ids_of (steps_of entries)) ≡ true
          → any (text_eq id) ids ≡ true)
      → All (λ (entry : CollectStep). any (text_eq entry.step.script_id) ids ≡ true) entries
  known_entries [] ids f = tt
  known_entries (entry ∷ entries) ids f = (
    f entry.step.script_id (ground (arith, text_eq_refl entry.step.script_id)),
    known_entries entries ids (λ id h. f id (ground arith)),
  )

  module _ (fuel : ℕ) (enabled : Bool) (plan : List SessionStep) (collect : List CollectStep)
      (max_cycles max_minutes : ℕ) where
    after_preflights-AllAccepted :
        (deadline : ℕ) (r : Result (Text × AutomationError) (Unit {0}) × Session W)
        → any (text_eq builtin_reset_script_id) (ids_of plan) ≡ true
        → Preflighted [] (plan ++ steps_of collect) r
        → AllAccepted
            (after_preflights env port fuel enabled plan collect max_cycles max_minutes deadline
              r).calls
    unfolding after_preflights Running
    after_preflights-AllAccepted deadline (err (id, e), s) resets h = reject-AllAccepted id e s h
    after_preflights-AllAccepted deadline (ok u, s) resets h =
        let ids = ids_of plan ++ ids_of (steps_of collect) in
        let each = subst (λ k. Each k s.calls) (ids_of-append plan (steps_of collect)) h.2 in
        let kept =
          cycles-Kept env port (Running ids) (Known ids) (Running-Closed ids) enabled max_minutes
            deadline max_cycles (length plan) fuel plan collect max_cycles 1
            (any_left builtin_reset_script_id (ids_of plan) (ids_of (steps_of collect)) resets)
            (known_steps plan ids (λ id m. any_left id (ids_of plan) (ids_of (steps_of collect)) m))
            (known_entries collect ids
              (λ id m. any_right id (ids_of plan) (ids_of (steps_of collect)) m)) in
        let begun =
          on_engine
            (λ (e : Engine W).
              transition running (codes "legacy session preflight passed")
                (record e { active_task = some (codes "legacy-session") }))
            s in
        let r =
          cycles env port enabled max_minutes deadline max_cycles (length plan) fuel plan collect
            max_cycles 1 begun in
        after_session-AllAccepted r
          (kept_after (λ (t : Session W). Running ids t.calls) r (kept.run begun (h.0, each))).0

    -- A session that starts with no calls, whatever the port, the clock and the store answer and
    -- whatever commands other tasks run meanwhile, starts a script only after a preflight accepted
    -- it, when its plan has the built-in reset among its steps. This also holds where the fuel of a
    -- gather runs out.
    pub run_legacy_session_worker-AllAccepted :
        (s : Session W)
        → s.calls ≡ []
        → any (text_eq builtin_reset_script_id) (ids_of plan) ≡ true
        → AllAccepted
            (run_legacy_session_worker env port fuel enabled plan collect max_cycles max_minutes
              s).calls
    unfolding run_legacy_session_worker
    run_legacy_session_worker-AllAccepted s fresh resets = after_preflights-AllAccepted _ _ resets (
        preflight_steps-Preflighted [] (plan ++ steps_of collect) _
          (subst AllAccepted (sym fresh) tt) tt)
