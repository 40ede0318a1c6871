-- ===== src/SessionPlan.antt =====
-- The steps of one cycle of a gather session, crates/nectarpilot-core/src/session.rs.
pub mod Assets
pub mod Trust
pub mod Cycle
pub mod Runnable
pub mod Collect
mod Tests
use roblox.Prelude.{
  ℕ, ◌*◌, Bool, true, false, ◌||◌, not, Text, codes, decimal, ◌++◌, eq_ignore_ascii_case, Option,
  none, some, List, [], ◌∷◌, length, is_empty, Result, ok, err, ok_or, reject_if, ◌>>=◌, ◌>>◌, min,
  max, ltb, leb, if◌then◌else◌, ◌==◌,
}
use roblox.Contracts.Profile.{Profile, CollectTask, FieldRotation, TextMap, get}
use roblox.SessionPlan.Assets.{field_route, pattern_file_name, ApprovedCollectRoute, collect_route}

abbrev pub builtin_reset_script_id : Text
builtin_reset_script_id = codes "builtin:reset-convert"

abbrev pub builtin_approval : Text
builtin_approval = codes "builtin"

abbrev pub max_session_cycles : ℕ
max_session_cycles = 100

abbrev pub max_session_minutes : ℕ
max_session_minutes = 720

abbrev pub max_steps_per_cycle : ℕ
max_steps_per_cycle = 64

abbrev pub max_gather_seconds : ℕ
max_gather_seconds = 24 * 60 * 60

pub data SessionStepKind : Type 0 where
  travel gather reset_convert collect : SessionStepKind

pub record SessionStep : Type 0 where
  pub kind : SessionStepKind
  pub script_id : Text
  pub approved_sha256 : Text
  pub repetitions : ℕ
  pub gather_seconds : Option ℕ
  pub description : Text

pub data SessionPlanError : Type 0 where
  empty_rotation : SessionPlanError
  invalid_field : Text → SessionPlanError
  invalid_pattern : Text → SessionPlanError
  invalid_gather_duration : (field : Text) (seconds : ℕ) → SessionPlanError
  not_trusted : Text → SessionPlanError
  invalid_collect_target : Text → SessionPlanError
  invalid_limits : Text → SessionPlanError
  too_many_steps : SessionPlanError

unfoldable pub validate_session_limits : ℕ → ℕ → Result SessionPlanError (Unit {0})
validate_session_limits max_cycles max_minutes =
    if max_cycles == 0 || ltb max_session_cycles max_cycles
    then err (invalid_limits (codes "cycles must be 1..=100"))
    else if ltb max_minutes 5 || ltb max_session_minutes max_minutes
    then err (invalid_limits (codes "minutes must be 5..=720"))
    else ok tt

unfoldable pub trusted_digest : Profile → Text → Option Text
trusted_digest profile asset_id = get asset_id profile.trusted_extensions

unfoldable pub route_id : Text → Text
route_id route_file = codes "legacy:route:paths/" ++ route_file

unfoldable pub pattern_id : Text → Text
pattern_id pattern_file = codes "legacy:pattern:patterns/" ++ pattern_file ++ codes ".ahk"

unfoldable pub travel_step : FieldRotation → Text → Text → SessionStep
travel_step rotation id sha = record {
  kind = travel;
  script_id = id;
  approved_sha256 = sha;
  repetitions = 1;
  gather_seconds = none;
  description = codes "Travel to " ++ rotation.field;
}

-- `.find(|(key, _)| key.eq_ignore_ascii_case(&pattern_id))`
unfoldable pub find_ignoring_case : Text → TextMap Text → Option (Text × Text)
find_ignoring_case id [] = none
find_ignoring_case id ((key, sha) ∷ rest) =
    if eq_ignore_ascii_case key id then some (key, sha) else find_ignoring_case id rest

-- A pattern under the manifest's own casing, or else under the casing of the trusted key.
unfoldable pub exact_or_find : Text → TextMap Text → Option Text → Option (Text × Text)
exact_or_find id trusted (some sha) = some (id, sha)
exact_or_find id trusted none = find_ignoring_case id trusted

unfoldable pub trusted_pattern : Profile → Text → Option (Text × Text)
trusted_pattern profile id = exact_or_find id profile.trusted_extensions (trusted_digest profile id)

unfoldable pub gather_step : FieldRotation → Text × Text → SessionStep
gather_step rotation (id, sha) = record {
  kind = gather;
  script_id = id;
  approved_sha256 = sha;
  repetitions = max 1 (min 50 rotation.repetitions);
  gather_seconds = some rotation.gather_seconds;
  description =
      codes "Gather "
      ++ rotation.pattern
      ++ codes " in "
      ++ rotation.field
      ++ codes " for "
      ++ decimal rotation.gather_seconds
      ++ codes " seconds";
}

unfoldable pub reset_step : SessionStep
reset_step = record {
  kind = reset_convert;
  script_id = builtin_reset_script_id;
  approved_sha256 = builtin_approval;
  repetitions = 1;
  gather_seconds = none;
  description = codes "Reset to hive and convert";
}

-- The steps of a round of the loop, from the approved pattern on, and so on back to the first test.
unfoldable pub with_pattern :
    FieldRotation
    → SessionStep
    → Text
    → Option (Text × Text)
    → Result SessionPlanError (List SessionStep)
with_pattern rotation to_field id none = err (not_trusted id)
with_pattern rotation to_field id (some pattern) =
    ok (to_field ∷ gather_step rotation pattern ∷ reset_step ∷ [])

unfoldable pub with_pattern_file :
    Profile → FieldRotation → SessionStep → Option Text → Result SessionPlanError (List SessionStep)
with_pattern_file profile rotation to_field none = err (invalid_pattern rotation.pattern)
with_pattern_file profile rotation to_field (some file) =
    with_pattern rotation to_field (pattern_id file) (trusted_pattern profile (pattern_id file))

unfoldable pub with_route_digest :
    Profile → FieldRotation → Text → Option Text → Result SessionPlanError (List SessionStep)
with_route_digest profile rotation id none = err (not_trusted id)
with_route_digest profile rotation id (some sha) =
    with_pattern_file profile rotation (travel_step rotation id sha)
      (pattern_file_name rotation.pattern)

unfoldable pub with_route :
    Profile → FieldRotation → Option Text → Result SessionPlanError (List SessionStep)
with_route profile rotation none = err (invalid_field rotation.field)
with_route profile rotation (some file) =
    with_route_digest profile rotation (route_id file) (trusted_digest profile (route_id file))

unfoldable pub rotation_steps : Profile → FieldRotation → Result SessionPlanError (List SessionStep)
rotation_steps profile rotation =
    if ltb rotation.gather_seconds 1 || ltb max_gather_seconds rotation.gather_seconds
    then err (invalid_gather_duration rotation.field rotation.gather_seconds)
    else with_route profile rotation (field_route rotation.field)

-- The steps of a round, then those of the rounds after it, which an error does not reach.
abbrev pub push_all :
    {A : Type 0}
    → Result SessionPlanError (List A)
    → Result SessionPlanError (List A)
    → Result SessionPlanError (List A)
push_all (err e) rest = err e
push_all (ok steps) (err e) = err e
push_all (ok steps) (ok more) = ok (steps ++ more)

-- `if steps.len() > MAX_STEPS_PER_CYCLE`, at the end.
abbrev pub within_bound :
    {A : Type 0} → Result SessionPlanError (List A) → Result SessionPlanError (List A)
within_bound (err e) = err e
within_bound (ok steps) =
    if ltb max_steps_per_cycle (length steps) then err too_many_steps else ok steps

unfoldable pub all_rotation_steps :
    Profile → List FieldRotation → Result SessionPlanError (List SessionStep)
all_rotation_steps profile [] = ok []
all_rotation_steps profile (rotation ∷ rest) =
    push_all (rotation_steps profile rotation) (all_rotation_steps profile rest)

unfoldable pub build_session_plan : Profile → Result SessionPlanError (List SessionStep)
build_session_plan profile =
    if is_empty profile.automation.rotations
    then err empty_rotation
    else within_bound (all_rotation_steps profile profile.automation.rotations)

pub record CollectStep : Type 0 where
  pub step : SessionStep
  pub last_run_key : Text
  pub cooldown_minutes : ℕ

-- The id of a profile is printed by the crate `uuid`.
module _ (uuid_text : ℕ → Text) where
  unfoldable pub collect_step : Profile → CollectTask → ApprovedCollectRoute → Text → CollectStep
  collect_step profile task route sha = record {
    step = record {
      kind = collect;
      script_id = route_id route.file_name;
      approved_sha256 = sha;
      repetitions = 1;
      gather_seconds = none;
      description =
          codes "Collect "
          ++ task.target
          ++ codes " (every "
          ++ decimal task.cooldown_minutes
          ++ codes " min)";
    };
    last_run_key =
        codes "profile:" ++ uuid_text profile.id ++ codes ":collect_last_run:" ++ route.runtime_key;
    cooldown_minutes = task.cooldown_minutes;
  }

  unfoldable pub with_digest :
      Profile
      → CollectTask
      → ApprovedCollectRoute
      → Option Text
      → Result SessionPlanError (List CollectStep)
  with_digest profile task route none = err (not_trusted (route_id route.file_name))
  with_digest profile task route (some sha) = ok (collect_step profile task route sha ∷ [])

  unfoldable pub with_collect_route :
      Profile
      → CollectTask
      → Option ApprovedCollectRoute
      → Result SessionPlanError (List CollectStep)
  with_collect_route profile task none = err (invalid_collect_target task.target)
  with_collect_route profile task (some route) =
      if ltb task.cooldown_minutes 5 || ltb 10080 task.cooldown_minutes
      then err (invalid_limits (codes "collect cooldown must be 5..=10080 minutes"))
      else with_digest profile task route (trusted_digest profile (route_id route.file_name))

  -- One round of the loop: the step that it pushes.
  unfoldable pub task_step : Profile → CollectTask → Result SessionPlanError (List CollectStep)
  task_step profile task = with_collect_route profile task (collect_route task.target)

  unfoldable pub task_steps :
      Profile → List CollectTask → Result SessionPlanError (List CollectStep)
  task_steps profile [] = ok []
  task_steps profile (task ∷ rest) = push_all (task_step profile task) (task_steps profile rest)

  unfoldable pub build_collect_steps : Profile → Result SessionPlanError (List CollectStep)
  build_collect_steps profile = within_bound (task_steps profile profile.automation.collect)
