-- ===== src/Scheduler/Exclusion.antt =====
-- At most one live permit for a key, over any history of `acquire` and `drop` of
-- crates/nectarpilot-core/src/scheduler.rs.
use roblox.Prelude.{
  ℕ, zero, suc, ◌+◌, text_eq→eq, text_eq_refl, Bool, true, false, Option, none, some, List, [], ◌∷◌,
  ◌≡◌, refl, ◌↔◌, inl, inr, if◌then◌else◌, Result, ok, err, any, Bool-cases, arith,
}
use roblox.Scheduler.{
  TaskKey, key_eq, TaskScheduler, TaskPermit, ScheduleError, is_active, remove_key, acquire,
  give_back, drop,
}

-- The scheduler with the permits that its callers hold, the newest first.
pub record System : Type 0 where
  pub scheduler : TaskScheduler
  pub permits : List TaskPermit

pub data Event : Type 0 where
  acquires : TaskKey → Event
  -- The holder of the permit at this place drops it.
  drops : ℕ → Event

abbrev pub hold : Result ScheduleError TaskPermit → List TaskPermit → List TaskPermit
hold (ok permit) held = permit ∷ held
hold (err e) held = held

abbrev pub without : ℕ → List TaskPermit → List TaskPermit
without n [] = []
without zero (p ∷ ps) = ps
without (suc n) (p ∷ ps) = p ∷ without n ps

abbrev pub permit_at : ℕ → List TaskPermit → TaskPermit
permit_at n [] = record { key = none }
permit_at zero (p ∷ ps) = p
permit_at (suc n) (p ∷ ps) = permit_at n ps

abbrev pub step : Event → System → System
step (acquires key) s =
    let (r, t) = acquire s.scheduler key in record { scheduler = t; permits = hold r s.permits }
step (drops n) s = record {
  scheduler = drop (permit_at n s.permits) s.scheduler;
  permits = without n s.permits;
}

abbrev pub run : List Event → System → System
run [] s = s
run (e ∷ es) s = run es (step e s)

abbrev pub start : System
start = record { scheduler = record { active = [] }; permits = [] }

abbrev pub is_for : TaskKey → Option TaskKey → Bool
is_for key none = false
is_for key (some k) = key_eq key k

-- How many live permits a key has.
abbrev pub permits_for : TaskKey → List TaskPermit → ℕ
permits_for key [] = 0
permits_for key (p ∷ ps) = (if is_for key p.key then 1 else 0) + permits_for key ps

key_eq→eq : (j k : TaskKey) → key_eq j k ≡ true → j ≡ k
unfolding key_eq
key_eq→eq j k h = ground (arith, text_eq→eq j.task_name k.task_name)

pub key_eq_refl : (k : TaskKey) → key_eq k k ≡ true
unfolding key_eq
key_eq_refl k = ground (arith, text_eq_refl k.task_name)

abbrev in_list : TaskKey → List TaskKey → Bool
in_list key = any (λ k. key_eq key k)

-- The count of a key's permits is 1 if the key is active and 0 if it is not.
abbrev Exact : List TaskKey → List TaskPermit → Type 0
Exact ks ps = (key : TaskKey) → permits_for key ps ≡ (if in_list key ks then 1 else 0)

in_list-remove :
    (key k : TaskKey) (ks : List TaskKey)
    → in_list key (remove_key k ks) ≡ (if key_eq key k then false else in_list key ks)
in_list-remove key k [] = ground arith
in_list-remove key k (x ∷ xs) = ground (
  arith,
  in_list-remove key k xs,
  key_eq→eq k x,
  key_eq→eq key k,
  key_eq→eq key x,
  key_eq_refl key,
)

without-none :
    (n : ℕ) (ps : List TaskPermit) (key : TaskKey)
    → permits_for key ps
      ≡ (if is_for key (permit_at n ps).key then 1 else 0) + permits_for key (without n ps)
without-none n [] key = refl
without-none zero (p ∷ ps) key = refl
without-none (suc n) (p ∷ ps) key = omega (arith, without-none n ps key)

dropped-Exact :
    (o : Option TaskKey) (s : TaskScheduler) (ps rest : List TaskPermit)
    → ((key : TaskKey)
        → permits_for key ps ≡ (if is_for key o then 1 else 0) + permits_for key rest)
    → Exact s.active ps
    → Exact (give_back o s).active rest
dropped-Exact none s ps rest split x = λ key. omega (arith, x key, split key)
dropped-Exact (some k) s ps rest split x =
    λ key. ground (arith, in_list-remove key k s.active, x key, split key)

step-Exact :
    (e : Event) (s : System)
    → Exact s.scheduler.active s.permits
    → Exact (step e s).scheduler.active (step e s).permits
unfolding acquire is_active drop
step-Exact (acquires k) s x = λ key. elim (Bool-cases (in_list k s.scheduler.active)) [
  | inl there ↦ rw there (x key)
  | inr free ↦ rw free (ground (arith, x key, key_eq→eq key k))
]
step-Exact (drops n) s x =
    dropped-Exact (permit_at n s.permits).key s.scheduler s.permits (without n s.permits)
      (without-none n s.permits) x

run-Exact :
    (es : List Event) (s : System)
    → Exact s.scheduler.active s.permits
    → Exact (run es s).scheduler.active (run es s).permits
run-Exact [] s x = x
run-Exact (e ∷ es) s x = run-Exact es (step e s) (step-Exact e s x)

-- After any history of acquisitions and drops a key has one live permit while the scheduler calls it
-- active and none while it does not: never two at a time, and none is lost.
pub run_exclusive :
    (es : List Event) (key : TaskKey)
    → permits_for key (run es start).permits
      ≡ (if is_active (run es start).scheduler key then 1 else 0)
unfolding is_active
run_exclusive es key = run-Exact es start (λ k. refl) key

-- After any history, a new acquisition of a key succeeds exactly when no permit for it is alive.
pub acquire_free :
    (es : List Event) (key : TaskKey)
    → ((acquire (run es start).scheduler key).0 ≡ ok (record { key = some key }))
      ↔ (permits_for key (run es start).permits ≡ 0)
unfolding acquire
acquire_free es key = ground (arith, run_exclusive es key)
