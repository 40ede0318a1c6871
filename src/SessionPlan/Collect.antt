-- ===== src/SessionPlan/Collect.antt =====
-- The collect steps of a session, crates/nectarpilot-core/src/session.rs.
use roblox.Prelude.{
  ℕ, ◌≤◌, ◌≡◌, refl, sym, ap, subst, ◌∙◌, Text, Option, none, some, List, [], ◌∷◌, ◌++◌, length, ok,
  arith,
}
use roblox.Contracts.Profile.{Profile, CollectTask}
use roblox.SessionPlan.Assets.{asset_slug, ApprovedCollectRoute, collect_arms, collect_route}
use roblox.SessionPlan.{
  collect, CollectStep, trusted_digest, route_id, collect_step, with_digest, with_collect_route,
  task_step, task_steps, build_collect_steps,
}
use roblox.SessionPlan.Trust.{
  Entry, get-Entry, IsListed, match_text-IsListed, push_all-eq-ok, within_bound-eq-ok,
}

-- One run of an approved route of the allowlist, at the interval of its task.
pub record IsCollect (p : Profile) (task : CollectTask) (s : CollectStep) : Type 0 where
  pub collects : s.step.kind ≡ collect
  pub route :
      (r : ApprovedCollectRoute) × IsListed r collect_arms
      × (s.step.script_id ≡ route_id r.file_name)
  pub approved : Entry s.step.script_id s.step.approved_sha256 p.trusted_extensions
  pub once : s.step.repetitions ≡ 1
  pub interval : s.cooldown_minutes ≡ task.cooldown_minutes
  pub five_minutes : 5 ≤ s.cooldown_minutes
  pub a_week : s.cooldown_minutes ≤ 10080

-- One step for each task, in the order of the tasks.
abbrev pub AreCollects : Profile → List CollectTask → List CollectStep → Type 0
AreCollects p [] [] = Unit
AreCollects p (task ∷ tasks) (s ∷ rest) = IsCollect p task s × AreCollects p tasks rest
AreCollects p _ _ = ⊥

abbrev IsPushed : Profile → CollectTask → List CollectStep → Type 0
IsPushed p task steps = (s : CollectStep) × (steps ≡ s ∷ []) × IsCollect p task s

module _ (uuid_text : ℕ → Text) where
  with_digest-IsCollect :
      (p : Profile) (task : CollectTask) (route : ApprovedCollectRoute) (o : Option Text)
      {steps : List CollectStep}
      → 5 ≤ task.cooldown_minutes
      → task.cooldown_minutes ≤ 10080
      → IsListed route collect_arms
      → trusted_digest p (route_id route.file_name) ≡ o
      → with_digest uuid_text p task route o ≡ ok steps
      → IsPushed p task steps
  unfolding with_digest collect_step trusted_digest
  with_digest-IsCollect p task route none low high listed e h = cc
  with_digest-IsCollect p task route (some sha) low high listed e h = (
    collect_step uuid_text p task route sha,
    cc,
    record {
      collects = refl;
      route = (route, listed, refl);
      approved = get-Entry (route_id route.file_name) p.trusted_extensions e;
      once = refl;
      interval = refl;
      five_minutes = low;
      a_week = high;
    },
  )

  with_collect_route-bounds :
      (p : Profile) (task : CollectTask) (route : ApprovedCollectRoute) {steps : List CollectStep}
      → with_collect_route uuid_text p task (some route) ≡ ok steps
      → (5 ≤ task.cooldown_minutes)
        × (task.cooldown_minutes ≤ 10080)
        × (with_digest uuid_text p task route (trusted_digest p (route_id route.file_name))
            ≡ ok steps)
  unfolding with_collect_route
  with_collect_route-bounds p task route h = ground arith

  with_collect_route-IsCollect :
      (p : Profile) (task : CollectTask) (o : Option ApprovedCollectRoute)
      {steps : List CollectStep}
      → collect_route task.target ≡ o
      → with_collect_route uuid_text p task o ≡ ok steps
      → IsPushed p task steps
  unfolding with_collect_route collect_route
  with_collect_route-IsCollect p task none e h = cc
  with_collect_route-IsCollect p task (some route) {steps} e h =
      let (low, high, found) = with_collect_route-bounds p task route {steps = steps} h in
      with_digest-IsCollect p task route (trusted_digest p (route_id route.file_name))
        {steps = steps} low high (match_text-IsListed (asset_slug task.target) collect_arms e) refl
        found

  task_steps-AreCollects :
      (p : Profile) (tasks : List CollectTask) {all : List CollectStep}
      → task_steps uuid_text p tasks ≡ ok all
      → AreCollects p tasks all
  unfolding task_steps task_step
  task_steps-AreCollects p [] {all} h = let e : [] ≡ all = cc in subst (AreCollects p []) e tt
  task_steps-AreCollects p (task ∷ tasks) {all} h =
      let (steps, more, h1, h2, e) =
        push_all-eq-ok (task_step uuid_text p task) (task_steps uuid_text p tasks) {all = all} h in
      let (s, pushed, collects) =
        with_collect_route-IsCollect p task (collect_route task.target) {steps = steps} refl h1 in
      subst (AreCollects p (task ∷ tasks)) (sym (e ∙ ap (λ l. l ++ more) pushed))
        (collects, task_steps-AreCollects p tasks {all = more} h2)

  -- The collect steps that are built are one run for each collect task of the profile, in their
  -- order, each of an approved route of the allowlist of clocks, dispensers and boosters, at the
  -- task's interval, which is from five minutes to a week. There are at most 64.
  pub build_collect_steps-AreCollects :
      (p : Profile) (steps : List CollectStep)
      → build_collect_steps uuid_text p ≡ ok steps
      → AreCollects p p.automation.collect steps × (length steps ≤ 64)
  unfolding build_collect_steps
  build_collect_steps-AreCollects p steps h =
      let tasks = p.automation.collect in
      let (h1, few) = within_bound-eq-ok (task_steps uuid_text p tasks) {l = steps} h in
      (task_steps-AreCollects p tasks {all = steps} h1, few)
