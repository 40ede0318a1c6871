-- ===== src/SessionPlan/Tests.antt =====
-- Profiles for the theorems about crates/nectarpilot-core/src/session.rs and
-- crates/nectarpilot-contracts/src/profile.rs.
use roblox.Prelude.{
  ◌*◌, ◌≤◌, ◌≡◌, refl, ◌↔◌, true, false, codes, decimal, text_eq, List, [], ◌∷◌, length, ok, err,
  is_ok, eq_ignore_ascii_case, to_ascii_lowercase, is_ascii_alphanumeric,
}
use roblox.Prelude.Double.{nan}
use roblox.Contracts.Profile.{
  Profile, FieldRotation, MovementConfig, get, new_profile, default_automation, default_movement,
  sanitized,
}
use roblox.Contracts.Profile.Movement.{IsCalibrated, sanitized-IsCalibrated_iff}
use roblox.SessionPlan.Assets.{
  asset_slug, match_text, field_route, pattern_file_name, collect_route,
}
use roblox.SessionPlan.{
  SessionStep, CollectStep, validate_session_limits, trusted_digest, route_id, pattern_id,
  travel_step, find_ignoring_case, exact_or_find, trusted_pattern, gather_step, reset_step,
  with_pattern, with_pattern_file, with_route_digest, with_route, rotation_steps,
  all_rotation_steps, build_session_plan, collect_step, with_digest, with_collect_route, task_step,
  task_steps, build_collect_steps, not_trusted,
}
use roblox.SessionPlan.Cycle.{IsCycle, build_session_plan-IsCycle}
use roblox.SessionPlan.Collect.{AreCollects, build_collect_steps-AreCollects}
use roblox.SessionPlan.Runnable.{IsPlannable, build_session_plan-IsPlannable_iff}

abbrev blue_flower : FieldRotation
blue_flower = record {
  field = codes "Blue Flower";
  pattern = codes "Snake";
  gather_seconds = 600;
  repetitions = 90;
}

-- Gathers in one field, whose pattern is trusted under another casing, and collects a clock.
abbrev gatherer : Profile
gatherer =
    let base = new_profile 7 1000 (codes "Gatherer") in
    record base {
      automation = record default_automation {
        rotations = blue_flower ∷ [];
        collect = record { target = codes "Clock"; cooldown_minutes = 240 } ∷ [];
      };
      trusted_extensions =
          (codes "legacy:pattern:patterns/SNAKE.ahk", codes "aa")
          ∷ (codes "legacy:route:paths/gtc-clock.ahk", codes "bb")
          ∷ (codes "legacy:route:paths/gtf-blueflower.ahk", codes "cc")
          ∷ [];
    }

abbrev planned : List SessionStep
planned =
    travel_step blue_flower (codes "legacy:route:paths/gtf-blueflower.ahk") (codes "cc")
    ∷ gather_step blue_flower (codes "legacy:pattern:patterns/SNAKE.ahk", codes "aa")
    ∷ reset_step
    ∷ []

gatherer_planned : build_session_plan gatherer ≡ ok planned
unfolding build_session_plan all_rotation_steps rotation_steps with_route with_route_digest
    with_pattern_file with_pattern trusted_pattern exact_or_find find_ignoring_case trusted_digest
    get route_id pattern_id field_route pattern_file_name match_text asset_slug text_eq
    eq_ignore_ascii_case to_ascii_lowercase is_ascii_alphanumeric
gatherer_planned = refl

build_session_plan-IsCycle_example :
    IsCycle gatherer gatherer.automation.rotations planned
    × (length planned ≡ 3 * length gatherer.automation.rotations)
    × (3 ≤ length planned)
    × (length planned ≤ 64)
build_session_plan-IsCycle_example = build_session_plan-IsCycle gatherer planned gatherer_planned

build_session_plan-IsPlannable_iff_example :
    (is_ok (build_session_plan gatherer) ≡ true) ↔ IsPlannable gatherer
build_session_plan-IsPlannable_iff_example = build_session_plan-IsPlannable_iff gatherer

-- Without the route's digest there is no plan.
untrusted_refused :
    build_session_plan (record gatherer { trusted_extensions = [] })
    ≡ err (not_trusted (codes "legacy:route:paths/gtf-blueflower.ahk"))
unfolding build_session_plan all_rotation_steps rotation_steps with_route with_route_digest
    trusted_digest get route_id field_route match_text asset_slug text_eq to_ascii_lowercase
    is_ascii_alphanumeric
untrusted_refused = refl

abbrev clock_step : CollectStep
clock_step =
    collect_step decimal gatherer (record { target = codes "Clock"; cooldown_minutes = 240 })
      (record { file_name = codes "gtc-clock.ahk"; runtime_key = codes "clock" }) (codes "bb")

clock_collected : build_collect_steps decimal gatherer ≡ ok (clock_step ∷ [])
unfolding build_collect_steps task_steps task_step with_collect_route with_digest trusted_digest get
    route_id collect_route match_text asset_slug text_eq to_ascii_lowercase is_ascii_alphanumeric
clock_collected = refl

build_collect_steps-AreCollects_example :
    AreCollects gatherer gatherer.automation.collect (clock_step ∷ [])
    × (length (clock_step ∷ []) ≤ 64)
build_collect_steps-AreCollects_example =
    build_collect_steps-AreCollects decimal gatherer (clock_step ∷ []) clock_collected

abbrev broken_speed : MovementConfig
broken_speed = record default_movement { walk_speed = nan }

sanitized-IsCalibrated_iff_example :
    (sanitized broken_speed ≡ broken_speed) ↔ IsCalibrated broken_speed
sanitized-IsCalibrated_iff_example = sanitized-IsCalibrated_iff broken_speed

session_too_short : is_ok (validate_session_limits 10 4) ≡ false
unfolding validate_session_limits
session_too_short = refl
