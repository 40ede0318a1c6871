-- ===== src/LegacySession.antt =====
-- `run_legacy_session_worker` of crates/nectarpilot-core/src/engine.rs: the supervised run of a gather
-- session. The port, the store, the clock and the context are functions on a world; commands of other
-- tasks run before and after every call that is waited for. The report of a run, which is logged and
-- stored, is one function of the world. The outer loop counts its cycles; a gather goes on until its
-- deadline, so its rounds are limited by fuel. `calls` is not in the code: it keeps the calls of the
-- port, the newest first.
pub mod Run
pub mod Kept
pub mod Preflights
pub mod Rounds
mod Tests
use roblox.Prelude.{
  ℕ, zero, suc, ◌+◌, ◌*◌, min, Bool, true, false, not, Text, codes, decimal, text_eq, Option, none,
  some, List, [], ◌∷◌, ◌++◌, any, map, length, leb, if◌then◌else◌, Result, ok, err,
}
use roblox.Prelude.Early.{Early, pure, leave, ◌>>=◌, ◌>>◌}
use roblox.Contracts.{RunState, idle, running, recovering, faulted, ActionOutcome, failed}
use roblox.SessionPlan.{
  SessionStepKind, gather, SessionStep, CollectStep, builtin_reset_script_id, builtin_approval,
}
use roblox.Engine.{
  AutomationError, error_text, ActionResult, DaemonEvent, action_completed, session_progress,
  Engine, Environment, emit, transition, interleave,
}
use roblox.Engine.Worker.{Verdict, action_result, is_cancelled_error, after_release, finish}

-- What `bounded_legacy_call` returns, without and with a field deadline.
pub data SessionCall (A : Type 0) : Type 0 where
  completed : A → SessionCall A
  user_cancelled session_deadline : SessionCall A

pub data TimedLegacyCall (A : Type 0) : Type 0 where
  completed : A → TimedLegacyCall A
  user_cancelled field_deadline session_deadline : TimedLegacyCall A

abbrev pub untimed : {A : Type 0} → SessionCall A → TimedLegacyCall A
untimed (SessionCall.completed a) = TimedLegacyCall.completed a
untimed SessionCall.user_cancelled = TimedLegacyCall.user_cancelled
untimed SessionCall.session_deadline = TimedLegacyCall.session_deadline

pub data Call : Type 0 where
  preflighted : (script_id sha : Text) → Result AutomationError (Unit {0}) → Call
  started : (script_id sha : Text) → Call
  recovered port_cancelled : Call
  released : Result AutomationError (Unit {0}) → Call

pub record LegacyPort (W : Type 0) : Type 0 where
  -- `select!` between the cancellation and `port.preflight`
  pub preflight : (script_id sha : Text) → W → Result AutomationError (Unit {0}) × W
  pub execute : (session : ℕ) (script_id sha : Text) → W → SessionCall ActionResult × W
  pub execute_until :
      (field session : ℕ) (script_id sha : Text) → W → TimedLegacyCall ActionResult × W
  pub recover : (session : ℕ) → W → SessionCall (Option ActionResult) × W
  pub recover_until : (field session : ℕ) → W → TimedLegacyCall (Option ActionResult) × W
  -- `context.checkpoint()`, true for `Ok`.
  pub checkpoint : W → Bool × W
  pub now : W → ℕ × W
  pub runtime_value : Text → W → Result Text (Option Text) × W
  pub set_runtime_value : Text → Text → W → Result Text (Unit {0}) × W
  -- Whether so many minutes have passed since a time, none for a malformed one (crate `chrono`).
  pub minutes_passed : Text → ℕ → W → Option Bool × W
  pub rfc3339_now : W → Text × W
  pub record_run_outcome : RunState → Text → (succeeded failed : ℕ) → W → W

pub record Session (W : Type 0) : Type 0 where
  pub engine : Engine W
  pub calls : List Call
  pub succeeded : ℕ
  pub failed : ℕ

-- Why the session's loop is left early.
pub data Break : Type 0 where
  session_over : Verdict → Break
  out_of_fuel : Break

abbrev pub M : Type 0 → Type 0 → Type 0
M W A = Early (Session W) Break A

abbrev pub over : {W A : Type 0} → RunState → Text → M W A
over final_state reason =
    leave (session_over (record { final_state = final_state; reason = reason }))

abbrev pub session_cancelled : {W A : Type 0} → M W A
session_cancelled = over idle (codes "session cancelled")

abbrev pub limit_reached : {W A : Type 0} → ℕ → M W A
limit_reached max_minutes =
    over idle (codes "session reached its " ++ decimal max_minutes ++ codes "-minute limit")

-- Steps that change the engine alone, or that the log keeps.
abbrev pub on_engine : {W : Type 0} → (Engine W → Engine W) → Session W → Session W
on_engine change s = record s { engine = change s.engine }

abbrev pub note : {W : Type 0} → Call → Session W → Session W
note call s = record s { calls = call ∷ s.calls }

abbrev pub tell : {W : Type 0} → DaemonEvent → M W (Unit {0})
tell event s = (ok tt, on_engine (emit event) s)

abbrev pub count_success : {W : Type 0} → M W (Unit {0})
count_success s = (ok tt, record s { succeeded = s.succeeded + 1 })

abbrev pub count_failure : {W : Type 0} → M W (Unit {0})
count_failure s = (ok tt, record s { failed = s.failed + 1 })

-- A call that is not waited for.
abbrev pub asked : {W A : Type 0} → (W → A × W) → Session W → A × Session W
asked call s = let (a, w) = call s.engine.world in (a, on_engine (λ e. record e { world = w }) s)

abbrev pub is_success : ActionOutcome → Bool
is_success ActionOutcome.succeeded = true
is_success ActionOutcome.skipped = true
is_success _ = false

module _ {W : Type 0} (env : Environment W) (port : LegacyPort W) where
  -- A call that is waited for.
  unfoldable pub awaited : {A : Type 0} → (W → A × W) → Session W → A × Session W
  awaited call s =
      let (a, t) = asked call (on_engine (interleave env) s) in (a, on_engine (interleave env) t)

  unfoldable pub checkpoint : M W (Unit {0})
  checkpoint s =
      let (passed, t) = awaited port.checkpoint s in
      if passed then (ok tt, t) else session_cancelled t

  -- `Instant::now() >= deadline`
  unfoldable pub past : ℕ → M W Bool
  past deadline s = let (t, u) = asked port.now s in (ok (leb deadline t), u)

  -- A call of the port on a script, under its deadlines.
  unfoldable pub execute : Option ℕ → ℕ → Text → Text → M W (TimedLegacyCall ActionResult)
  execute none session script_id sha s =
      let (a, t) = awaited (port.execute session script_id sha) (note (started script_id sha) s) in
      (ok (untimed a), t)
  execute (some field) session script_id sha s =
      let (a, t) =
        awaited (port.execute_until field session script_id sha) (note (started script_id sha) s) in
      (ok a, t)

  unfoldable pub recover : Option ℕ → ℕ → M W (TimedLegacyCall (Option ActionResult))
  recover none session s =
      let (a, t) = awaited (port.recover session) (note recovered s) in (ok (untimed a), t)
  recover (some field) session s =
      let (a, t) = awaited (port.recover_until field session) (note recovered s) in (ok a, t)

  abbrev pub due_of : Text → Option Bool → Result Text Bool
  due_of key none = err (
      codes "runtime state key \"" ++ key ++ codes "\" contains an invalid RFC3339 timestamp value")
  due_of key (some due) = ok due

  unfoldable pub due_since :
      Text → ℕ → Result Text (Option Text) × Session W → Result Text Bool × Session W
  due_since key cooldown (err e, s) = (err e, s)
  due_since key cooldown (ok none, s) = (ok true, s)
  due_since key cooldown (ok (some value), s) =
      let (due, t) = asked (port.minutes_passed value cooldown) s in (due_of key due, t)

  unfoldable pub collect_due : Text → ℕ → Session W → Result Text Bool × Session W
  collect_due key cooldown s = due_since key cooldown (asked (port.runtime_value key) s)

  module _ (reconnect_enabled : Bool) (max_minutes deadline max_cycles step_count : ℕ) where
    unfoldable pub within_limit : M W (Unit {0})
    within_limit = past deadline >>= λ late. if late then limit_reached max_minutes else pure tt

    unfoldable pub collect_answer : CollectStep → TimedLegacyCall ActionResult → M W (Unit {0})
    collect_answer entry (TimedLegacyCall.completed result) =
        tell (action_completed result)
        >> (if is_success result.outcome
            then count_success
            else count_failure
              >> over RunState.needs_attention
                  (codes "collect step failed: " ++ entry.step.description))
    collect_answer entry TimedLegacyCall.user_cancelled = session_cancelled
    collect_answer entry _ = limit_reached max_minutes

    unfoldable pub collect_script : CollectStep → Text → Text → M W (Unit {0})
    collect_script entry script_id sha =
        execute none deadline script_id sha >>= collect_answer entry

    abbrev pub after_write : Result Text (Unit {0}) → M W (Unit {0})
    after_write (ok _) = pure tt
    after_write (err e) =
        count_failure >> over faulted (codes "collection cooldown write failed: " ++ e)

    unfoldable pub store_last_run : CollectStep → M W (Unit {0})
    store_last_run entry s =
        let (now, t) = asked port.rfc3339_now s in
        let (written, u) = asked (port.set_runtime_value entry.last_run_key now) t in
        after_write written u

    unfoldable pub progress : ℕ → ℕ → Text → M W (Unit {0})
    progress cycle index description =
        tell (session_progress cycle max_cycles index step_count description)

    unfoldable pub collect_when : ℕ → CollectStep → Result Text Bool → M W (Unit {0})
    collect_when cycle entry (err e) =
        count_failure >> over faulted (codes "collection cooldown read failed: " ++ e)
    collect_when cycle entry (ok false) = pure tt
    collect_when cycle entry (ok true) =
        progress cycle 0 entry.step.description
        >> collect_script entry entry.step.script_id entry.step.approved_sha256
        >> collect_script entry builtin_reset_script_id builtin_approval
        >> store_last_run entry

    unfoldable pub ask_due : CollectStep → M W (Result Text Bool)
    ask_due entry s =
        let (due, t) = collect_due entry.last_run_key entry.cooldown_minutes s in (ok due, t)

    unfoldable pub collect_entry : ℕ → CollectStep → M W (Unit {0})
    collect_entry cycle entry =
        checkpoint >> within_limit >> ask_due entry >>= collect_when cycle entry

    unfoldable pub collect_all : ℕ → List CollectStep → M W (Unit {0})
    collect_all cycle [] = pure tt
    collect_all cycle (entry ∷ rest) = collect_entry cycle entry >> collect_all cycle rest
