-- ===== src/SessionPlan/Cycle.antt =====
-- What a plan of a cycle consists of, crates/nectarpilot-core/src/session.rs.
use roblox.Prelude.{
  ◌*◌, ◌≤◌, ◌≡◌, refl, sym, ap, subst, ◌∙◌, true, Text, eq_ignore_ascii_case, Option, none, some,
  List, [], ◌∷◌, ◌++◌, length, is_empty, Result, ok, err, if◌then◌else◌, arith,
}
use roblox.Contracts.Profile.{Profile, FieldRotation, get}
use roblox.SessionPlan.Assets.{asset_slug, field_route, field_arms, pattern_arms, pattern_file_name}
use roblox.SessionPlan.{
  travel, gather, SessionStep, SessionPlanError, empty_rotation, max_gather_seconds, trusted_digest,
  route_id, pattern_id, travel_step, with_pattern, with_pattern_file, with_route_digest, with_route,
  within_bound, trusted_pattern, gather_step, reset_step, rotation_steps, all_rotation_steps,
  build_session_plan,
}
use roblox.SessionPlan.Trust.{
  Entry, get-Entry, IsListed, match_text-IsListed, exact_or_find-Entry, push_all-eq-ok,
  within_bound-eq-ok,
}

-- One run of an approved route of the allowlist.
pub record IsTravel (p : Profile) (s : SessionStep) : Type 0 where
  pub travels : s.kind ≡ travel
  pub route : (file : Text) × IsListed file field_arms × (s.script_id ≡ route_id file)
  pub approved : Entry s.script_id s.approved_sha256 p.trusted_extensions
  pub once : s.repetitions ≡ 1

-- An approved pattern of the allowlist, for the seconds of the rotation.
pub record IsGather (p : Profile) (r : FieldRotation) (s : SessionStep) : Type 0 where
  pub gathers : s.kind ≡ gather
  pub pattern :
      (file : Text) × IsListed file pattern_arms
      × (eq_ignore_ascii_case s.script_id (pattern_id file) ≡ true)
  pub approved : Entry s.script_id s.approved_sha256 p.trusted_extensions
  pub timed : s.gather_seconds ≡ some r.gather_seconds
  pub some_repetitions : 1 ≤ s.repetitions
  pub few_repetitions : s.repetitions ≤ 50

-- Three steps for each rotation, in the order of the rotations.
abbrev pub IsCycle : Profile → List FieldRotation → List SessionStep → Type 0
IsCycle p [] [] = Unit
IsCycle p (r ∷ rs) (t ∷ g ∷ c ∷ rest) =
    IsTravel p t
    × IsGather p r g
    × (c ≡ reset_step)
    × (1 ≤ r.gather_seconds)
    × (r.gather_seconds ≤ max_gather_seconds)
    × IsCycle p rs rest
IsCycle p _ _ = ⊥

-- What a round pushes.
record IsRound (p : Profile) (r : FieldRotation) (steps : List SessionStep) : Type 0 where
  first : SessionStep
  second : SessionStep
  pushed : steps ≡ first ∷ second ∷ reset_step ∷ []
  travels : IsTravel p first
  gathers : IsGather p r second

with_pattern-IsRound :
    (p : Profile) (r : FieldRotation) (t : SessionStep) (file : Text) (o : Option (Text × Text))
    {steps : List SessionStep}
    → IsTravel p t
    → IsListed file pattern_arms
    → trusted_pattern p (pattern_id file) ≡ o
    → with_pattern r t (pattern_id file) o ≡ ok steps
    → IsRound p r steps
unfolding with_pattern gather_step trusted_pattern trusted_digest
with_pattern-IsRound p r t file none travels listed e h = cc
with_pattern-IsRound p r t file (some pattern) travels listed e h =
    let (entry, same) =
      exact_or_find-Entry (pattern_id file) p.trusted_extensions
        (get (pattern_id file) p.trusted_extensions) {found = pattern} refl e in
    record {
      first = t;
      second = gather_step r pattern;
      pushed = cc;
      travels = travels;
      gathers = record {
        gathers = refl;
        pattern = (file, listed, same);
        approved = entry;
        timed = refl;
        some_repetitions = omega arith;
        few_repetitions = omega arith;
      };
    }

with_pattern_file-IsRound :
    (p : Profile) (r : FieldRotation) (t : SessionStep) (o : Option Text) {steps : List SessionStep}
    → IsTravel p t
    → pattern_file_name r.pattern ≡ o
    → with_pattern_file p r t o ≡ ok steps
    → IsRound p r steps
unfolding with_pattern_file pattern_file_name
with_pattern_file-IsRound p r t none travels e h = cc
with_pattern_file-IsRound p r t (some file) {steps} travels e h =
    with_pattern-IsRound p r t file (trusted_pattern p (pattern_id file)) {steps = steps} travels
      (match_text-IsListed (asset_slug r.pattern) pattern_arms e) refl h

with_route_digest-IsRound :
    (p : Profile) (r : FieldRotation) (file : Text) (o : Option Text) {steps : List SessionStep}
    → IsListed file field_arms
    → trusted_digest p (route_id file) ≡ o
    → with_route_digest p r (route_id file) o ≡ ok steps
    → IsRound p r steps
unfolding with_route_digest travel_step trusted_digest
with_route_digest-IsRound p r file none listed e h = cc
with_route_digest-IsRound p r file (some sha) {steps} listed e h =
    with_pattern_file-IsRound p r (travel_step r (route_id file) sha) (pattern_file_name r.pattern)
      {steps = steps}
      (record {
        travels = refl;
        route = (file, listed, refl);
        approved = get-Entry (route_id file) p.trusted_extensions e;
        once = refl;
      })
      refl h

with_route-IsRound :
    (p : Profile) (r : FieldRotation) (o : Option Text) {steps : List SessionStep}
    → field_route r.field ≡ o
    → with_route p r o ≡ ok steps
    → IsRound p r steps
unfolding with_route field_route
with_route-IsRound p r none e h = cc
with_route-IsRound p r (some file) {steps} e h =
    with_route_digest-IsRound p r file (trusted_digest p (route_id file)) {steps = steps}
      (match_text-IsListed (asset_slug r.field) field_arms e) refl h

rotation_steps-bounds :
    (p : Profile) (r : FieldRotation) {steps : List SessionStep}
    → rotation_steps p r ≡ ok steps
    → (1 ≤ r.gather_seconds)
      × (r.gather_seconds ≤ max_gather_seconds)
      × (with_route p r (field_route r.field) ≡ ok steps)
unfolding rotation_steps
rotation_steps-bounds p r h = ground arith

pub all_rotation_steps-IsCycle :
    (p : Profile) (rs : List FieldRotation) {all : List SessionStep}
    → all_rotation_steps p rs ≡ ok all
    → IsCycle p rs all × (length all ≡ 3 * length rs)
unfolding all_rotation_steps
all_rotation_steps-IsCycle p [] {all} h =
    let Q : List SessionStep → Type 0 = λ l. IsCycle p [] l × (length l ≡ 0) in
    let e : [] ≡ all = cc in subst Q e (tt, refl)
all_rotation_steps-IsCycle p (r ∷ rs) {all} h =
    let (steps, more, h1, h2, e) =
      push_all-eq-ok (rotation_steps p r) (all_rotation_steps p rs) {all = all} h in
    let (low, high, routed) = rotation_steps-bounds p r {steps = steps} h1 in
    let round = with_route-IsRound p r (field_route r.field) {steps = steps} refl routed in
    let (cycle, counted) = all_rotation_steps-IsCycle p rs {all = more} h2 in
    let Q : List SessionStep → Type 0 =
      λ l. IsCycle p (r ∷ rs) l × (length l ≡ 3 * length (r ∷ rs)) in
    subst Q (sym (e ∙ ap (λ l. l ++ more) round.pushed))
      ((round.travels, round.gathers, refl, low, high, cycle), omega arith)

not_empty :
    (rs : List FieldRotation) (r : Result SessionPlanError (List SessionStep))
    {steps : List SessionStep}
    → (if is_empty rs then err empty_rotation else r) ≡ ok steps
    → (1 ≤ length rs) × (r ≡ ok steps)
not_empty [] r h = cc
not_empty (_ ∷ rs) r h = (omega arith, h)

-- A plan that is built is three steps for each rotation of the profile, in their order: one run of
-- an approved route file of the allowlist, an approved pattern of the allowlist, for the rotation's
-- seconds, which are from 1 to a day's, with 1 to 50 repetitions, and the built-in reset. It has
-- from 3 to 64 steps.
pub build_session_plan-IsCycle :
    (p : Profile) (steps : List SessionStep)
    → build_session_plan p ≡ ok steps
    → IsCycle p p.automation.rotations steps
      × (length steps ≡ 3 * length p.automation.rotations)
      × (3 ≤ length steps)
      × (length steps ≤ 64)
unfolding build_session_plan
build_session_plan-IsCycle p steps h =
    let rs = p.automation.rotations in
    let (some_rounds, h1) = not_empty rs (within_bound (all_rotation_steps p rs)) h in
    let (h2, few) = within_bound-eq-ok (all_rotation_steps p rs) {l = steps} h1 in
    let (cycle, counted) = all_rotation_steps-IsCycle p rs {all = steps} h2 in
    (cycle, counted, omega arith, few)
