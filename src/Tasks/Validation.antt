-- ===== src/Tasks/Validation.antt =====
-- What `TaskPlan::validate` accepts (crates/nectarpilot-core/src/tasks.rs), against a description of
-- a safe plan that does not follow the code's order of checks or its saturating sum.
use roblox.Prelude.{
  ℕ, ◌+◌, ◌-◌, ◌^◌, ◌≤◌, ◌<◌, min, ◌≡◌, refl, ◌↔◌, inl, inr, Text, is_blank, utf8_len, true, false,
  not, List, [], ◌∷◌, length, is_empty, any, F32, nan, neg_infinity, infinity, below, above,
  is_finite, in_range, f_one, ok, >>=-eq-ok, Result-cases, All, arith, ◌&&◌,
}
use roblox.Tasks.{
  TaskKind, gather, travel, combat, activity, label, TaskAction, is_move, is_attack, GuardedTask,
  TaskPlan, minimum_confidence_floor, max_tasks, max_actions_per_task, max_action_duration_ms,
  max_plan_duration_ms, duration_ms, is_bad_name, has_bad_anchor, saturating_add, is_travel,
  is_combat, check_actions, check_task, check_tasks, validate,
}

-- A name that is neither blank nor above 120 bytes.
pub record IsName (t : Text) : Type 0 where
  pub visible : is_blank t ≡ false
  pub short : utf8_len t ≤ 120

is_bad_name_iff : (t : Text) → (is_bad_name t ≡ false) ↔ IsName t
unfolding is_bad_name
is_bad_name_iff t = ground arith

abbrev pub IsAction : TaskAction → Type 0
IsAction action = (0 < duration_ms action) × (duration_ms action ≤ max_action_duration_ms)

-- The names that a kind must carry, and the action that it cannot do without.
abbrev pub IsKind : TaskKind → List TaskAction → Type 0
IsKind (travel destination anchor) actions = IsName anchor × (any is_move actions ≡ true)
IsKind (combat target) actions = any is_attack actions ≡ true
IsKind _ actions = Unit

pub record IsSafeTask (task : GuardedTask) : Type 0 where
  pub named : IsName task.id
  pub labelled : IsName (label task.kind)
  pub confident : in_range minimum_confidence_floor f_one task.minimum_confidence ≡ true
  pub some_actions : 0 < length task.actions
  pub few_actions : length task.actions ≤ max_actions_per_task
  pub fitting : IsKind task.kind task.actions
  pub bounded : All IsAction task.actions

abbrev pub actions_duration : List TaskAction → ℕ
actions_duration [] = 0
actions_duration (a ∷ l) = duration_ms a + actions_duration l

-- The exact sum of all durations.
abbrev pub plan_duration : List GuardedTask → ℕ
plan_duration [] = 0
plan_duration (t ∷ ts) = actions_duration t.actions + plan_duration ts

pub record IsSafePlan (plan : TaskPlan) : Type 0 where
  pub named : IsName plan.name
  pub some_tasks : 0 < length plan.tasks
  pub few_tasks : length plan.tasks ≤ max_tasks
  pub safe_tasks : All IsSafeTask plan.tasks
  pub bounded : plan_duration plan.tasks ≤ max_plan_duration_ms

abbrev cap : ℕ → ℕ
cap n = min n (2 ^ 64 - 1)

check_actions_ok :
    (id : Text) (l : List TaskAction) (n : ℕ)
    → n ≤ 2 ^ 64 - 1
    → All IsAction l
    → check_actions id l n ≡ ok (cap (n + actions_duration l))
unfolding check_actions saturating_add
check_actions_ok id [] n h safe = ground arith
check_actions_ok id (a ∷ l) n h safe =
    ground (arith, check_actions_ok id l (min (n + duration_ms a) (2 ^ 64 - 1)))

check_actions_sound :
    (id : Text) (l : List TaskAction) (n : ℕ) {r : ℕ} → check_actions id l n ≡ ok r → All IsAction l
unfolding check_actions saturating_add
check_actions_sound id [] n e = tt
check_actions_sound id (a ∷ l) n {r} e =
    ground (arith, check_actions_sound id l (min (n + duration_ms a) (2 ^ 64 - 1)) {r = r})

length_pos_iff : (l : List TaskAction) → (is_empty l ≡ false) ↔ (0 < length l)
length_pos_iff [] = ground arith
length_pos_iff (a ∷ l) = ground arith

IsKind→tests :
    (kind : TaskKind) (l : List TaskAction)
    → IsKind kind l
    → (has_bad_anchor kind ≡ false)
      × ((is_travel kind && not (any is_move l)) ≡ false)
      × ((is_combat kind && not (any is_attack l)) ≡ false)
unfolding has_bad_anchor
IsKind→tests (travel d a) l h = ground (arith, is_bad_name_iff a)
IsKind→tests _ l h = ground arith

IsKind-of_tests :
    (kind : TaskKind) (l : List TaskAction)
    → has_bad_anchor kind ≡ false
    → (is_travel kind && not (any is_move l)) ≡ false
    → (is_combat kind && not (any is_attack l)) ≡ false
    → IsKind kind l
unfolding has_bad_anchor
IsKind-of_tests (travel d a) l p q r = ground (arith, is_bad_name_iff a)
IsKind-of_tests (gather f) l p q r = tt
IsKind-of_tests (activity n) l p q r = tt
IsKind-of_tests (combat t) l p q r = ground arith

confident→finite : (c : F32) → in_range minimum_confidence_floor f_one c ≡ true → is_finite c ≡ true
confident→finite nan h = cc
confident→finite neg_infinity h = cc
confident→finite infinity h = cc
confident→finite (below n) h = refl
confident→finite (above n) h = refl

check_task_ok :
    (task : GuardedTask) (n : ℕ)
    → n ≤ 2 ^ 64 - 1
    → IsSafeTask task
    → check_task task n ≡ ok (cap (n + actions_duration task.actions))
unfolding check_task
check_task_ok task n h safe = ground (
  arith,
  is_bad_name_iff task.id,
  is_bad_name_iff (label task.kind),
  IsKind→tests task.kind task.actions safe.fitting,
  confident→finite task.minimum_confidence safe.confident,
  length_pos_iff task.actions,
  check_actions_ok task.id task.actions n h safe.bounded,
)

check_task_sound : (task : GuardedTask) (n : ℕ) {r : ℕ} → check_task task n ≡ ok r → IsSafeTask task
unfolding check_task
check_task_sound task n {r} e = ground (
  arith,
  is_bad_name_iff task.id,
  is_bad_name_iff (label task.kind),
  IsKind-of_tests task.kind task.actions,
  length_pos_iff task.actions,
  check_actions_sound task.id task.actions n {r = r},
)

check_tasks_ok :
    (ts : List GuardedTask) (n : ℕ)
    → n ≤ 2 ^ 64 - 1
    → All IsSafeTask ts
    → check_tasks ts n ≡ ok (cap (n + plan_duration ts))
unfolding check_tasks
check_tasks_ok [] n h safe = ground arith
check_tasks_ok (t ∷ ts) n h safe =
    ground
      (arith, check_task_ok t n h safe.0, check_tasks_ok ts (cap (n + actions_duration t.actions)))

check_tasks_sound :
    (ts : List GuardedTask) (n : ℕ) {r : ℕ} → check_tasks ts n ≡ ok r → All IsSafeTask ts
unfolding check_tasks
check_tasks_sound [] n e = tt
check_tasks_sound (t ∷ ts) n {r} e =
    let (m, first, rest) = >>=-eq-ok (check_task t n) (check_tasks ts) e in
    (check_task_sound t n first, check_tasks_sound ts m rest)

check_tasks_total :
    (ts : List GuardedTask) {r : ℕ}
    → check_tasks ts 0 ≡ ok r
    → All IsSafeTask ts × (r ≡ cap (plan_duration ts))
check_tasks_total ts e =
    let safe = check_tasks_sound ts 0 e in
    (safe, ground (arith, check_tasks_ok ts 0 (omega arith) safe))

length_tasks_iff : (ts : List GuardedTask) → (is_empty ts ≡ false) ↔ (0 < length ts)
length_tasks_iff [] = ground arith
length_tasks_iff (t ∷ ts) = ground arith

validate_ok : (plan : TaskPlan) → IsSafePlan plan → validate plan ≡ ok tt
unfolding validate
validate_ok plan safe = ground (
  arith,
  is_bad_name_iff plan.name,
  length_tasks_iff plan.tasks,
  check_tasks_ok plan.tasks 0 (omega arith) safe.safe_tasks,
)

validate_sound : (plan : TaskPlan) → validate plan ≡ ok tt → IsSafePlan plan
unfolding validate
validate_sound plan e = elim (Result-cases (check_tasks plan.tasks 0)) [
  | inl (r, q) ↦
      let (safe, exact) = check_tasks_total plan.tasks q in
      let few : IsName plan.name
          × (0 < length plan.tasks)
          × (length plan.tasks ≤ max_tasks)
          × (r ≤ max_plan_duration_ms) =
        ground (arith, is_bad_name_iff plan.name, length_tasks_iff plan.tasks, q) in
      record {
        named = few.0;
        some_tasks = few.1;
        few_tasks = few.2;
        safe_tasks = safe;
        bounded = omega (arith, exact, few.3);
      }
  | inr (x, q) ↦ ground (arith, q)
]

-- `validate` accepts a plan exactly when the plan is safe: its name is not blank and at most 120
-- bytes long, it has 1 to 64 tasks, every task is safe, and the exact sum of all action durations,
-- which saturation cannot hide, is at most six hours. A task is safe when its id, its label and, for
-- travel, its route anchor are such names, its confidence lies in 0.75..=1, it has 1 to 2000 actions
-- of 1 to 30000 ms each, a travel task moves and a combat task attacks.
pub validate-IsSafePlan_iff : (plan : TaskPlan) → (validate plan ≡ ok tt) ↔ IsSafePlan plan
validate-IsSafePlan_iff plan = (validate_sound plan, validate_ok plan)
