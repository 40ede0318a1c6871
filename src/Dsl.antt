-- ===== src/Dsl.antt =====
-- The pattern language of crates/nectarpilot-core/src/dsl.rs: programs and their validation.
-- Durations are milliseconds; an `f32` is an exact `F32`. `usize` is 64 bits wide.
pub mod Validation
pub mod Tests
use roblox.Prelude.{
  ℕ, suc, ◌+◌, ◌-◌, ◌*◌, ◌^◌, ◌<◌, min, Text, codes, decimal, is_blank, Bool, true, false, ◌&&◌,
  ◌||◌, not, Option, none, some, List, [], ◌∷◌, ◌++◌, F32, nan, neg_infinity, infinity, below,
  above, is_finite, in_range, f_lt, f_zero, f_one, ltb, leb, ◌==◌, if◌then◌else◌, Result, ok, err,
  ◌>>=◌, ◌>>◌, reject_if, ok_or,
}
use roblox.Contracts.Detection.{Detection, actionable}

abbrev pub nectar_schema_version : ℕ
nectar_schema_version = 1

abbrev pub max_nesting : ℕ
max_nesting = 16

abbrev pub max_expanded_steps : ℕ
max_expanded_steps = 10000

abbrev pub max_step_duration_ms : ℕ
max_step_duration_ms = 15 * 60 * 1000

pub data MoveDirection : Type 0 where
  forward backward left right : MoveDirection

pub data UnavailableBehavior : Type 0 where
  skip pause abort : UnavailableBehavior

mutual
  pub data Step : Type 0 where
    move : (direction : MoveDirection) (duration_ms : ℕ) (speed : F32) → Step
    rotate : (degrees : F32) (duration_ms : ℕ) → Step
    jump : (hold_ms : ℕ) → Step
    wait : (duration_ms : ℕ) → Step
    repeat : (times : ℕ) (steps : Steps) → Step
    detector_condition :
        (detector : Text) (minimum_confidence : F32) (on_found : Steps)
        (on_unavailable : UnavailableBehavior)
        → Step

  -- `Vec<Step>`
  pub data Steps : Type 0 where
    nil : Steps
    cons : Step → Steps → Steps

pub record NectarProgram : Type 0 where
  pub schema_version : ℕ
  pub name : Text
  pub description : Text
  pub steps : Steps

pub data ValidationError : Type 0 where
  unsupported_version : (received supported : ℕ) → ValidationError
  empty_name : ValidationError
  empty_steps : (path : Text) → ValidationError
  too_deep : (path : Text) → ValidationError
  too_many_steps : ValidationError
  invalid_duration : (path : Text) (duration_ms : ℕ) → ValidationError
  invalid_number : (path : Text) → ValidationError
  invalid_repeat : (path : Text) → ValidationError
  empty_detector : (path : Text) → ValidationError

abbrev pub no_steps : Steps → Bool
no_steps nil = true
no_steps (cons s rest) = false

-- 0.05, rounded to the nearest `f32`
abbrev pub lowest_speed : F32
lowest_speed = above (13421773 * 2 ^ 121)

-- `!speed.is_finite() || !(0.05..=1.0).contains(speed)`
abbrev pub bad_speed : F32 → Bool
bad_speed speed = not (is_finite speed) || not (in_range lowest_speed f_one speed)

-- `f32::abs`
abbrev pub f_abs : F32 → F32
f_abs nan = nan
f_abs neg_infinity = infinity
f_abs infinity = infinity
f_abs (below n) = above (suc n)
f_abs (above n) = above n

-- `== 0.0`, which holds for both zeros.
abbrev pub is_zero : F32 → Bool
is_zero (above n) = n == 0
is_zero _ = false

-- `!degrees.is_finite() || *degrees == 0.0 || degrees.abs() > 1_440.0`
abbrev pub bad_degrees : F32 → Bool
bad_degrees degrees =
    not (is_finite degrees) || is_zero degrees || f_lt (above (1440 * 2 ^ 149)) (f_abs degrees)

-- `!minimum_confidence.is_finite() || !(0.0..=1.0).contains(minimum_confidence)`
abbrev pub bad_confidence : F32 → Bool
bad_confidence c = not (is_finite c) || not (in_range f_zero f_one c)

unfoldable pub validate_duration : ℕ → Text → Result ValidationError (Unit {0})
validate_duration duration_ms path =
    if duration_ms == 0 || ltb max_step_duration_ms duration_ms
    then err (invalid_duration path duration_ms)
    else ok tt

-- `usize::checked_add` and `usize::saturating_mul`
unfoldable pub checked_add : ℕ → ℕ → Option ℕ
checked_add a b = if ltb (a + b) (2 ^ 64) then some (a + b) else none

unfoldable pub saturating_mul : ℕ → ℕ → ℕ
saturating_mul a b = min (a * b) (2 ^ 64 - 1)

-- `*expanded = expanded.checked_add(more).ok_or(TooManySteps)?; if *expanded > MAX …`
unfoldable pub count_more : ℕ → ℕ → Result ValidationError ℕ
unfolding checked_add
count_more expanded more = do
  total ← ok_or (checked_add expanded more) too_many_steps
  reject_if (ltb max_expanded_steps total) too_many_steps
  ok total

-- `format!("{path}[{index}]")`
abbrev pub step_path : Text → ℕ → Text
step_path path index = path ++ codes "[" ++ decimal index ++ codes "]"

-- The first test of `validate_steps`.
abbrev pub enter : ℕ → Text → Result ValidationError ℕ → Result ValidationError ℕ
enter depth path body = do reject_if (ltb max_nesting depth) (too_deep path); body

-- `*expanded` goes in and comes out.
unfoldable mutual
  pub validate_step : Step → Text → ℕ → ℕ → Result ValidationError ℕ
  validate_step (move direction duration_ms speed) path depth expanded = do
    validate_duration duration_ms path
    reject_if (bad_speed speed) (invalid_number (path ++ codes ".speed"))
    ok expanded
  validate_step (rotate degrees duration_ms) path depth expanded = do
    validate_duration duration_ms path
    reject_if (bad_degrees degrees) (invalid_number (path ++ codes ".degrees"))
    ok expanded
  validate_step (jump hold_ms) path depth expanded = do validate_duration hold_ms path; ok expanded
  validate_step (wait duration_ms) path depth expanded = do
    validate_duration duration_ms path
    ok expanded
  validate_step (repeat times steps) path depth expanded = do
    reject_if (not (leb 1 times && leb times 100)) (invalid_repeat path)
    reject_if (no_steps steps) (empty_steps path)
    after ← enter (depth + 1) path (validate_each steps path (depth + 1) 0 expanded)
    count_more after (saturating_mul (after - expanded) (times - 1))
  validate_step (detector_condition detector minimum_confidence on_found behavior) path depth
        expanded =
      do
        reject_if (is_blank detector) (empty_detector path)
        reject_if (bad_confidence minimum_confidence)
            (invalid_number (path ++ codes ".minimum_confidence"))
        reject_if (no_steps on_found) (empty_steps (path ++ codes ".on_found"))
        enter (depth + 1) path (validate_each on_found path (depth + 1) 0 expanded)

  -- The loop of `validate_steps`, from the step number `index` on.
  pub validate_each : Steps → Text → ℕ → ℕ → ℕ → Result ValidationError ℕ
  validate_each nil path depth index expanded = ok expanded
  validate_each (cons step rest) path depth index expanded = do
    counted ← count_more expanded 1
    after ← validate_step step (step_path path index) depth counted
    validate_each rest path depth (index + 1) after

unfoldable pub validate_steps : Steps → Text → ℕ → ℕ → Result ValidationError ℕ
validate_steps steps path depth expanded =
    enter depth path (validate_each steps path depth 0 expanded)

-- `NectarProgram::validate`
unfoldable pub validate : NectarProgram → Result ValidationError (Unit {0})
unfolding validate_steps
validate program = do
  reject_if (not (program.schema_version == nectar_schema_version))
      (unsupported_version program.schema_version nectar_schema_version)
  reject_if (is_blank program.name) empty_name
  reject_if (no_steps program.steps) (empty_steps (codes "steps"))
  total ← validate_steps program.steps (codes "steps") 0 0
  ok tt

-- `detector_branch`
unfoldable pub detector_branch : {T : Type 0} → Detection T → F32 → Steps → Option Steps
detector_branch detection minimum_confidence on_found =
    elim (actionable detection minimum_confidence) [ none ↦ none | some target ↦ some on_found ]
