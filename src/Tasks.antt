-- ===== src/Tasks.antt =====
-- Native task plans, crates/nectarpilot-core/src/tasks.rs: the data of a plan and its validation.
-- Times are milliseconds; an `f32` confidence is an exact `F32`.
pub mod Validation
pub mod Execution
pub mod Tests
use roblox.Dsl.{MoveDirection}
use roblox.Prelude.{
  ℕ, ◌+◌, ◌-◌, ◌*◌, ◌^◌, min, Text, codes, is_blank, utf8_len, Bool, true, false, ◌&&◌, ◌||◌, not,
  List, [], ◌∷◌, length, is_empty, any, F32, is_finite, in_range, above, f_one, ltb, ◌==◌,
  if◌then◌else◌, Result, ok, err, ◌>>=◌, ◌>>◌, reject_if,
}

-- 0.75
abbrev pub minimum_confidence_floor : F32
minimum_confidence_floor = above (3 * 2 ^ 147)

-- 0.85, rounded to the nearest `f32`
abbrev pub default_confidence : F32
default_confidence = above (14260634 * 2 ^ 125)

abbrev pub max_tasks : ℕ
max_tasks = 64

abbrev pub max_actions_per_task : ℕ
max_actions_per_task = 2000

abbrev pub max_action_duration_ms : ℕ
max_action_duration_ms = 30000

abbrev pub max_plan_duration_ms : ℕ
max_plan_duration_ms = 6 * 60 * 60 * 1000

pub data DetectionRequirement : Type 0 where
  current_field : (field : Text) → DetectionRequirement
  route_anchor : (anchor destination : Text) → DetectionRequirement
  combat_target : (target : Text) → DetectionRequirement
  interaction_prompt : (activity : Text) → DetectionRequirement

pub data TaskKind : Type 0 where
  gather : (field : Text) → TaskKind
  travel : (destination route_anchor : Text) → TaskKind
  combat : (target : Text) → TaskKind
  activity : (name : Text) → TaskKind

unfoldable pub requirement : TaskKind → DetectionRequirement
requirement (gather field) = current_field field
requirement (travel destination anchor) = route_anchor anchor destination
requirement (combat target) = combat_target target
requirement (activity name) = interaction_prompt name

unfoldable pub label : TaskKind → Text
label (gather field) = field
label (travel destination anchor) = destination
label (combat target) = target
label (activity name) = name

unfoldable pub expected_label : DetectionRequirement → Text
expected_label (current_field field) = field
expected_label (route_anchor anchor destination) = anchor
expected_label (combat_target target) = target
expected_label (interaction_prompt name) = name

unfoldable pub detector_name : DetectionRequirement → Text
detector_name (current_field field) = codes "current_field"
detector_name (route_anchor anchor destination) = codes "route_anchor"
detector_name (combat_target target) = codes "combat_target"
detector_name (interaction_prompt name) = codes "interaction_prompt"

pub record DetectedTarget : Type 0 where
  pub label : Text
  pub calibration_revision : ℕ

pub data TaskControl : Type 0 where
  jump interact shift : TaskControl

pub data TaskAction : Type 0 where
  move : (direction : MoveDirection) (duration_ms : ℕ) → TaskAction
  tap : (control : TaskControl) (hold_ms : ℕ) → TaskAction
  attack : (hold_ms : ℕ) → TaskAction
  wait : (duration_ms : ℕ) → TaskAction

unfoldable pub duration_ms : TaskAction → ℕ
duration_ms (move direction ms) = ms
duration_ms (tap control ms) = ms
duration_ms (attack ms) = ms
duration_ms (wait ms) = ms

abbrev pub is_move : TaskAction → Bool
is_move (move direction ms) = true
is_move _ = false

abbrev pub is_attack : TaskAction → Bool
is_attack (attack ms) = true
is_attack _ = false

pub record GuardedTask : Type 0 where
  pub id : Text
  pub kind : TaskKind
  pub minimum_confidence : F32
  pub actions : List TaskAction

unfoldable pub new_task : Text → TaskKind → List TaskAction → GuardedTask
new_task id kind actions = record {
  id = id;
  kind = kind;
  minimum_confidence = default_confidence;
  actions = actions;
}

pub record TaskPlan : Type 0 where
  pub name : Text
  pub tasks : List GuardedTask

pub data TaskPlanError : Type 0 where
  invalid_plan_name : TaskPlanError
  invalid_task_count : (count : ℕ) → TaskPlanError
  invalid_task_identity : (task : Text) → TaskPlanError
  unsafe_confidence : (task : Text) (confidence : F32) → TaskPlanError
  invalid_action_count : (task : Text) (count : ℕ) → TaskPlanError
  travel_without_movement : (task : Text) → TaskPlanError
  combat_without_attack : (task : Text) → TaskPlanError
  invalid_action_duration : (task : Text) (duration_ms : ℕ) → TaskPlanError
  plan_too_long : (total : ℕ) → TaskPlanError

-- `name.trim().is_empty() || name.len() > 120`
unfoldable pub is_bad_name : Text → Bool
is_bad_name name = is_blank name || ltb 120 (utf8_len name)

-- The `matches!` of a travel task with an unusable anchor.
unfoldable pub has_bad_anchor : TaskKind → Bool
has_bad_anchor (travel destination anchor) = is_bad_name anchor
has_bad_anchor _ = false

abbrev pub is_travel : TaskKind → Bool
is_travel (travel destination anchor) = true
is_travel _ = false

abbrev pub is_combat : TaskKind → Bool
is_combat (combat target) = true
is_combat _ = false

-- `u64::saturating_add`
unfoldable pub saturating_add : ℕ → ℕ → ℕ
saturating_add a b = min (a + b) (2 ^ 64 - 1)

-- The inner loop of `validate`: the total duration so far goes in and comes out.
unfoldable pub check_actions : Text → List TaskAction → ℕ → Result TaskPlanError ℕ
check_actions task [] total = ok total
check_actions task (action ∷ actions) total =
    let duration = duration_ms action in
    let rest = check_actions task actions (saturating_add total duration) in
    if duration == 0 || ltb max_action_duration_ms duration
    then err (invalid_action_duration task duration)
    else rest

-- The body of the outer loop of `validate`.
unfoldable pub check_task : GuardedTask → ℕ → Result TaskPlanError ℕ
check_task task total = do
  reject_if (is_bad_name task.id || is_bad_name (label task.kind) || has_bad_anchor task.kind)
      (invalid_task_identity task.id)
  reject_if
      (not (is_finite task.minimum_confidence)
        || not (in_range minimum_confidence_floor f_one task.minimum_confidence))
      (unsafe_confidence task.id task.minimum_confidence)
  reject_if (is_empty task.actions || ltb max_actions_per_task (length task.actions))
      (invalid_action_count task.id (length task.actions))
  reject_if (is_travel task.kind && not (any is_move task.actions))
      (travel_without_movement task.id)
  reject_if (is_combat task.kind && not (any is_attack task.actions))
      (combat_without_attack task.id)
  check_actions task.id task.actions total

unfoldable pub check_tasks : List GuardedTask → ℕ → Result TaskPlanError ℕ
check_tasks [] total = ok total
check_tasks (task ∷ tasks) total = check_task task total >>= check_tasks tasks

-- `TaskPlan::validate`
unfoldable pub validate : TaskPlan → Result TaskPlanError (Unit {0})
validate plan = do
  reject_if (is_bad_name plan.name) invalid_plan_name
  reject_if (is_empty plan.tasks || ltb max_tasks (length plan.tasks))
      (invalid_task_count (length plan.tasks))
  total ← check_tasks plan.tasks 0
  reject_if (ltb max_plan_duration_ms total) (plan_too_long total)
  ok tt
