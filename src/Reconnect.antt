-- ===== src/Reconnect.antt =====
-- Bounded reconnects, crates/nectarpilot-core/src/reconnect.rs. Durations are nanoseconds. The
-- cancellation token, the clock, the timers and the caller's `attempt` and `progress` are functions
-- on a world of their own, so what they answer is arbitrary. The calls of `attempt` and `progress`
-- are logged, the newest first.
pub mod Bounds
pub mod Frame
pub mod Tests
use roblox.Prelude.{
  ℕ, zero, suc, ◌+◌, ◌-◌, ◌*◌, ◌/◌, ◌^◌, min, max, Text, Bool, true, false, Option, none, some,
  List, [], ◌∷◌, get_elem?, last_or, leb, ◌==◌, if◌then◌else◌, Result, ok, err,
}
use roblox.Prelude.Early.{Early, pure, leave, ◌>>=◌, ◌>>◌}

pub record ReconnectPolicy : Type 0 where
  pub maximum_attempts : ℕ
  pub deadline : ℕ
  pub delays : List ℕ

abbrev pub seconds : ℕ → ℕ
seconds n = n * 10 ^ 9

-- `impl Default`
abbrev pub default_policy : ReconnectPolicy
default_policy = record {
  maximum_attempts = 5;
  deadline = seconds (15 * 60);
  delays = 0 ∷ seconds 5 ∷ seconds 15 ∷ seconds 30 ∷ seconds 60 ∷ [];
}

-- `maximum_attempts.clamp(1, 5)`
unfoldable pub new : ℕ → ℕ → List ℕ → ReconnectPolicy
new maximum deadline delays = record {
  maximum_attempts = min (max maximum 1) 5;
  deadline = deadline;
  delays = delays;
}

pub data ReconnectOutcome : Type 0 where
  succeeded : (attempt : ℕ) → ReconnectOutcome
  exhausted : (attempts : ℕ) (last_error : Option Text) → ReconnectOutcome
  deadline_exceeded : (attempts : ℕ) → ReconnectOutcome
  cancelled : (attempts : ℕ) → ReconnectOutcome

pub record ReconnectProgress : Type 0 where
  pub attempt : ℕ
  pub maximum_attempts : ℕ
  pub elapsed_seconds : ℕ
  pub deadline_seconds : ℕ

-- Which branch of the `select!` around the backoff ended first.
pub data Backoff : Type 0 where
  backoff_cancelled backoff_timed_out slept : Backoff

-- Which branch of the `select!` around an attempt ended first.
pub data Attempted : Type 0 where
  attempt_cancelled attempt_timed_out : Attempted
  finished : Result Text (Unit {0}) → Attempted

pub record Surroundings (W : Type 0) : Type 0 where
  pub is_cancelled : W → Bool × W
  pub elapsed : W → ℕ × W
  pub sleep : (delay remaining : ℕ) → W → Backoff × W
  pub attempt : (number remaining : ℕ) → W → Attempted × W
  pub progress : ReconnectProgress → W → W

pub data Call : Type 0 where
  reported : ReconnectProgress → Call
  attempted : (number remaining : ℕ) → Attempted → Call

pub record Run (W : Type 0) : Type 0 where
  pub world : W
  pub log : List Call

abbrev pub M : Type 0 → Type 0 → Type 0
M W A = Early (Run W) ReconnectOutcome A

-- `Duration::checked_sub`
unfoldable pub checked_sub : ℕ → ℕ → Option ℕ
checked_sub a b = if leb b a then some (a - b) else none

-- `delays.get(attempt_number - 1)`, or else the last delay, or else zero.
unfoldable pub delay_for : ReconnectPolicy → ℕ → ℕ
delay_for policy number = elim (get_elem? policy.delays (number - 1)) [
  | some delay ↦ delay
  | none ↦ last_or policy.delays 0
]

module _ {W : Type 0} (around : Surroundings W) (policy : ReconnectPolicy) where
  unfoldable pub check_cancelled : ℕ → M W (Unit {0})
  check_cancelled completed s =
      let (stop, w) = around.is_cancelled s.world in
      (if stop then err (cancelled completed) else ok tt, record s { world = w })

  -- `let Some(remaining) = policy.deadline.checked_sub(elapsed) else { return … };`
  unfoldable pub time_left : ℕ → M W (ℕ × ℕ)
  unfolding checked_sub
  time_left completed s =
      let (elapsed, w) = around.elapsed s.world in
      (
        elim (checked_sub policy.deadline elapsed) [
          | none ↦ err (deadline_exceeded completed)
          | some remaining ↦ ok (elapsed, remaining)
        ],
        record s { world = w },
      )

  abbrev pub after_sleep : ℕ → Backoff → Result ReconnectOutcome (Unit {0})
  after_sleep completed backoff_cancelled = err (cancelled completed)
  after_sleep completed backoff_timed_out = err (deadline_exceeded completed)
  after_sleep completed slept = ok tt

  unfoldable pub sleep : ℕ → ℕ → ℕ → M W (Unit {0})
  sleep completed delay remaining s =
      let (ended, w) = around.sleep delay remaining s.world in
      (after_sleep completed ended, record s { world = w })

  unfoldable pub back_off : ℕ → ℕ → ℕ → M W (Unit {0})
  back_off completed delay remaining =
      if delay == 0 then pure tt else sleep completed delay remaining

  unfoldable pub report : ℕ → ℕ → M W (Unit {0})
  report number elapsed s =
      let p : ReconnectProgress = record {
        attempt = number;
        maximum_attempts = policy.maximum_attempts;
        elapsed_seconds = elapsed / 10 ^ 9;
        deadline_seconds = policy.deadline / 10 ^ 9;
      } in
      (ok tt, record { world = around.progress p s.world; log = reported p ∷ s.log })

  -- A failed attempt goes on with its error.
  abbrev pub after_attempt : ℕ → ℕ → Attempted → Result ReconnectOutcome Text
  after_attempt completed number attempt_cancelled = err (cancelled completed)
  after_attempt completed number attempt_timed_out = err (deadline_exceeded number)
  after_attempt completed number (finished (ok _)) = err (succeeded number)
  after_attempt completed number (finished (err error)) = ok error

  unfoldable pub attempt : ℕ → ℕ → ℕ → M W Text
  attempt completed number remaining s =
      let (ended, w) = around.attempt number remaining s.world in
      (
        after_attempt completed number ended,
        record { world = w; log = attempted number remaining ended ∷ s.log },
      )

  -- The body of the loop, for the attempt after `completed` ones.
  unfoldable pub round : ℕ → M W Text
  round completed = do
    let number = completed + 1
    check_cancelled completed
    first ← time_left completed
    back_off completed (delay_for policy number) first.1
    second ← time_left completed
    report number second.0
    attempt completed number second.1

  -- `for attempt_number in 1..=policy.maximum_attempts`, with the rounds that are left.
  unfoldable pub rounds : ℕ → ℕ → Option Text → M W (ℕ × Option Text)
  rounds zero completed last_error = pure (completed, last_error)
  rounds (suc left) completed last_error = do
    error ← round completed
    rounds left (completed + 1) (some error)

  abbrev pub conclude : Result ReconnectOutcome (ℕ × Option Text) → ReconnectOutcome
  conclude (ok (completed, last_error)) = exhausted completed last_error
  conclude (err outcome) = outcome

  unfoldable pub run_bounded_reconnect : W → ReconnectOutcome × Run W
  run_bounded_reconnect w =
      let (ended, s) = rounds policy.maximum_attempts 0 none (record { world = w; log = [] }) in
      (conclude ended, s)
