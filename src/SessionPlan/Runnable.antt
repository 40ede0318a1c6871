-- ===== src/SessionPlan/Runnable.antt =====
-- When crates/nectarpilot-core/src/session.rs builds a plan at all.
use roblox.Prelude.{
  ◌*◌, ◌≤◌, ◌≡◌, refl, sym, subst, ap, ◌∙◌, ◌↔◌, ◌&&◌, true, Text, text_eq, text_eq→eq,
  eq_ignore_ascii_case, eq_ignore_ascii_case_refl, Option, none, some, List, [], ◌∷◌, length,
  is_empty, any, All, Result, ok, err, is_ok, if◌then◌else◌, arith,
}
use roblox.Contracts.Profile.{Profile, FieldRotation, TextMap, get}
use roblox.SessionPlan.Assets.{field_route, pattern_file_name, is_some}
use roblox.SessionPlan.{
  SessionStep, SessionPlanError, empty_rotation, max_gather_seconds, trusted_digest, route_id,
  pattern_id, travel_step, find_ignoring_case, exact_or_find, trusted_pattern, with_pattern,
  with_pattern_file, with_route_digest, with_route, rotation_steps, push_all, within_bound,
  all_rotation_steps, build_session_plan,
}
use roblox.SessionPlan.Cycle.{all_rotation_steps-IsCycle}

-- The route that an allowlist gives, if any, has a trusted digest.
abbrev pub IsTrustedRoute : Profile → Option Text → Type 0
IsTrustedRoute p none = ⊥
IsTrustedRoute p (some file) = is_some (get (route_id file) p.trusted_extensions) ≡ true

-- The pattern that an allowlist gives, if any, is trusted under some casing.
abbrev pub IsTrustedPattern : Profile → Option Text → Type 0
IsTrustedPattern p none = ⊥
IsTrustedPattern p (some file) =
    any (λ entry. eq_ignore_ascii_case entry.0 (pattern_id file)) p.trusted_extensions ≡ true

pub record IsRunnable (p : Profile) (r : FieldRotation) : Type 0 where
  pub some_seconds : 1 ≤ r.gather_seconds
  pub at_most_a_day : r.gather_seconds ≤ max_gather_seconds
  pub route : IsTrustedRoute p (field_route r.field)
  pub pattern : IsTrustedPattern p (pattern_file_name r.pattern)

find_ignoring_case-is_some :
    (id : Text) (m : TextMap Text)
    → is_some (find_ignoring_case id m) ≡ any (λ entry. eq_ignore_ascii_case entry.0 id) m
unfolding find_ignoring_case
find_ignoring_case-is_some id [] = refl
find_ignoring_case-is_some id ((k, v) ∷ m) = ground (arith, find_ignoring_case-is_some id m)

text_eq→ignoring_case : (s t : Text) → text_eq s t ≡ true → eq_ignore_ascii_case t s ≡ true
text_eq→ignoring_case s t h =
    subst (λ u. eq_ignore_ascii_case u s ≡ true) (text_eq→eq s t h) (eq_ignore_ascii_case_refl s)

get→any :
    (id : Text) (m : TextMap Text)
    → is_some (get id m) ≡ true
    → any (λ entry. eq_ignore_ascii_case entry.0 id) m ≡ true
unfolding get
get→any id [] h = cc
get→any id ((k, v) ∷ m) h = ground (arith, text_eq→ignoring_case id k, get→any id m)

exact_or_find-is_some :
    (id : Text) (m : TextMap Text) (o : Option Text)
    → get id m ≡ o
    → is_some (exact_or_find id m o) ≡ any (λ entry. eq_ignore_ascii_case entry.0 id) m
unfolding exact_or_find
exact_or_find-is_some id m none e = find_ignoring_case-is_some id m
exact_or_find-is_some id m (some sha) e = sym (get→any id m (ap is_some e))

with_pattern-is_ok :
    (r : FieldRotation) (t : SessionStep) (id : Text) (o : Option (Text × Text))
    → is_ok (with_pattern r t id o) ≡ is_some o
unfolding with_pattern
with_pattern-is_ok r t id none = refl
with_pattern-is_ok r t id (some pattern) = refl

with_pattern_file_iff :
    (p : Profile) (r : FieldRotation) (t : SessionStep) (o : Option Text)
    → (is_ok (with_pattern_file p r t o) ≡ true) ↔ IsTrustedPattern p o
unfolding with_pattern_file trusted_pattern trusted_digest
with_pattern_file_iff p r t none = ground arith
with_pattern_file_iff p r t (some file) =
    let m = p.trusted_extensions in
    let e =
      with_pattern-is_ok r t (pattern_id file)
        (exact_or_find (pattern_id file) m (get (pattern_id file) m))
      ∙ exact_or_find-is_some (pattern_id file) m (get (pattern_id file) m) refl in
    ((λ h. sym e ∙ h), (λ h. e ∙ h))

with_route_digest_iff :
    (p : Profile) (r : FieldRotation) (id : Text) (o : Option Text)
    → (is_ok (with_route_digest p r id o) ≡ true)
      ↔ ((is_some o ≡ true) × IsTrustedPattern p (pattern_file_name r.pattern))
unfolding with_route_digest
with_route_digest_iff p r id none = ground arith
with_route_digest_iff p r id (some sha) =
    let (to, from) =
      with_pattern_file_iff p r (travel_step r id sha) (pattern_file_name r.pattern) in
    ((λ h. (refl, to h)), (λ h. from h.1))

with_route_iff :
    (p : Profile) (r : FieldRotation) (o : Option Text)
    → (is_ok (with_route p r o) ≡ true)
      ↔ (IsTrustedRoute p o × IsTrustedPattern p (pattern_file_name r.pattern))
unfolding with_route trusted_digest
with_route_iff p r none = ground arith
with_route_iff p r (some file) =
    with_route_digest_iff p r (route_id file) (get (route_id file) p.trusted_extensions)

rotation_steps_iff :
    (p : Profile) (r : FieldRotation) → (is_ok (rotation_steps p r) ≡ true) ↔ IsRunnable p r
unfolding rotation_steps
rotation_steps_iff p r = ground (arith, with_route_iff p r (field_route r.field))

push_all-is_ok :
    {A : Type 0} (first rest : Result SessionPlanError (List A))
    → is_ok (push_all first rest) ≡ (is_ok first && is_ok rest)
push_all-is_ok (err e) rest = refl
push_all-is_ok (ok a) (err e) = refl
push_all-is_ok (ok a) (ok b) = refl

all_rotation_steps_iff :
    (p : Profile) (rs : List FieldRotation)
    → (is_ok (all_rotation_steps p rs) ≡ true) ↔ All (IsRunnable p) rs
unfolding all_rotation_steps
all_rotation_steps_iff p [] = ((λ h. tt), (λ h. refl))
all_rotation_steps_iff p (r ∷ rs) = ground (
  arith,
  push_all-is_ok (rotation_steps p r) (all_rotation_steps p rs),
  rotation_steps_iff p r,
  all_rotation_steps_iff p rs,
)

-- What a profile needs to have a plan.
pub record IsPlannable (p : Profile) : Type 0 where
  pub some_rotations : 1 ≤ length p.automation.rotations
  pub few_rotations : length p.automation.rotations ≤ 21
  pub runnable : All (IsRunnable p) p.automation.rotations

within_bound-is_ok :
    (rs : List FieldRotation) (r : Result SessionPlanError (List SessionStep))
    → ((steps : List SessionStep) → r ≡ ok steps → length steps ≡ 3 * length rs)
    → (is_ok (if is_empty rs then err empty_rotation else within_bound r) ≡ true)
      ↔ ((1 ≤ length rs) × (length rs ≤ 21) × (is_ok r ≡ true))
within_bound-is_ok [] r counted = ground arith
within_bound-is_ok (_ ∷ rs) (err e) counted = ground arith
within_bound-is_ok (_ ∷ rs) (ok steps) counted = let c = counted steps refl in ground arith

-- A plan is built exactly when the profile has from 1 to 21 rotations, and each of them gathers for
-- 1 second to a day, at a field whose route the allowlist has and the profile trusts, in a pattern
-- that the allowlist has and the profile trusts under some casing.
pub build_session_plan-IsPlannable_iff :
    (p : Profile) → (is_ok (build_session_plan p) ≡ true) ↔ IsPlannable p
unfolding build_session_plan
build_session_plan-IsPlannable_iff p =
    let rs = p.automation.rotations in
    let (to, from) =
      within_bound-is_ok rs (all_rotation_steps p rs)
        (λ steps h. (all_rotation_steps-IsCycle p rs {all = steps} h).1) in
    let (to_all, from_all) = all_rotation_steps_iff p rs in
    (
      (λ h.
          let (some_rs, few_rs, went) = to h in
          record { some_rotations = some_rs; few_rotations = few_rs; runnable = to_all went }),
      (λ h. from (h.some_rotations, h.few_rotations, from_all h.runnable)),
    )
