-- ===== src/Platform/Session/Laws.antt =====
-- What `attach` and any number of `refresh` calls of crates/nectarpilot-platform/src/session.rs keep.
use roblox.Prelude.{
  ℕ, zero, suc, ◌≤◌, ◌<◌, ◌-◌, ◌^◌, Bool, true, false, ◌≡◌, refl, ◌∙◌, sym, ap, Bool-cases, inl,
  inr, Result, ok, err, ℤ, pos, negsuc, eqℤ, arith,
}
use roblox.Platform.Session.{
  SessionTarget, target_eq, Rect, rect_eq, bool_eq, WindowGeometry, geometry_eq, WindowSnapshot,
  SessionError, SessionProbe, RobloxSession, from_snapshot, adopt, absorb, attach, refresh,
}

eqℤ→eq : (a b : ℤ) → eqℤ a b ≡ true → a ≡ b
eqℤ→eq (pos m) (pos n) h = ground arith
eqℤ→eq (negsuc m) (negsuc n) h = ground arith
eqℤ→eq (pos m) (negsuc n) h = cc
eqℤ→eq (negsuc m) (pos n) h = cc

rect_eq→eq : (r s : Rect) → rect_eq r s ≡ true → r ≡ s
rect_eq→eq r s h = ground (arith, eqℤ→eq r.left s.left, eqℤ→eq r.top s.top)

bool_eq→eq : (a b : Bool) → bool_eq a b ≡ true → a ≡ b
bool_eq→eq true b h = ground arith
bool_eq→eq false b h = ground arith

geometry_eq→eq : (g h : WindowGeometry) → geometry_eq g h ≡ true → g ≡ h
unfolding geometry_eq
geometry_eq→eq g h e = ground (
  arith,
  rect_eq→eq g.outer h.outer,
  rect_eq→eq g.client h.client,
  rect_eq→eq g.monitor h.monitor,
  bool_eq→eq g.minimized h.minimized,
  bool_eq→eq g.fullscreen h.fullscreen,
)

-- What the caller can rely on from one session value to a later one.
record Later (s t : RobloxSession) : Type 0 where
  same_target : t.target ≡ s.target
  revision_grows : s.geometry_revision ≤ t.geometry_revision
  same_revision :
      t.geometry_revision ≡ s.geometry_revision
      → t.geometry_revision < 2 ^ 64 - 1
      → t.geometry ≡ s.geometry

absorb-Later : (s : RobloxSession) (r : Result SessionError WindowSnapshot) → Later s (absorb s r).1
unfolding absorb
absorb-Later s (err e) = record {
  same_target = refl;
  revision_grows = omega arith;
  same_revision = λ e f. refl;
}
absorb-Later s (ok snapshot) = elim (Bool-cases (target_eq snapshot.target s.target)) [
  | inr other ↦
      rw other
        (record { same_target = refl; revision_grows = omega arith; same_revision = λ e f. refl })
  | inl same ↦ elim (Bool-cases (geometry_eq s.geometry snapshot.geometry)) [
    | inl e ↦
        rw (same, e)
          (record {
            same_target = refl;
            revision_grows = omega arith;
            same_revision = λ p q. sym (geometry_eq→eq s.geometry snapshot.geometry e);
          })
    | inr e ↦
        rw (same, e)
          (record {
            same_target = refl;
            revision_grows = ground arith;
            same_revision = λ p q. ground arith;
          })
  ]
]

Later-trans : (s t u : RobloxSession) → Later s t → Later t u → Later s u
Later-trans s t u f g = record {
  same_target = g.same_target ∙ f.same_target;
  revision_grows = omega (arith, f.revision_grows, g.revision_grows);
  same_revision = λ p q.
      g.same_revision (omega (arith, f.revision_grows, g.revision_grows)) q
      ∙ f.same_revision (omega (arith, f.revision_grows, g.revision_grows))
          (omega (arith, f.revision_grows, g.revision_grows));
}

module _ {W : Type 0} (probe : SessionProbe W) where
  -- `n` calls of `refresh` in a row.
  abbrev pub refreshes : ℕ → RobloxSession → W → RobloxSession
  refreshes zero s w = s
  refreshes (suc n) s w = let (changed, s', w') = refresh probe s w in refreshes n s' w'

  refreshes-Later : (n : ℕ) (s : RobloxSession) (w : W) → Later s (refreshes n s w)
  unfolding refresh
  refreshes-Later zero s w = record {
    same_target = refl;
    revision_grows = omega arith;
    same_revision = λ e f. refl;
  }
  refreshes-Later (suc n) s w =
      let (changed, s', w') = refresh probe s w in
      Later-trans s s' (refreshes n s' w') (absorb-Later s (probe.snapshot s.target w).0)
        (refreshes-Later n s' w')

  -- A calibration revision that has not moved, and has not run into the 64-bit ceiling, stands for
  -- one and the same window geometry, after any number of refreshes and whatever the probe answers.
  pub same_revision-same_geometry :
      (n : ℕ) (s : RobloxSession) (w : W)
      → (refreshes n s w).geometry_revision ≡ s.geometry_revision
      → (refreshes n s w).geometry_revision < 2 ^ 64 - 1
      → (refreshes n s w).geometry ≡ s.geometry
  same_revision-same_geometry n s w = (refreshes-Later n s w).same_revision

  adopt_pid :
      (pid : ℕ) (r : Result SessionError WindowSnapshot) {s : RobloxSession}
      → adopt pid r ≡ ok s
      → s.target.pid ≡ pid
  unfolding adopt from_snapshot
  adopt_pid pid (err e) h = cc
  adopt_pid pid (ok snapshot) h = ground arith

  -- A session attached to a process stays with that process through any number of refreshes, and its
  -- revision never falls.
  pub attach-refreshes :
      (pid n : ℕ) (w : W) {s : RobloxSession}
      → (attach probe pid w).0 ≡ ok s
      → ((refreshes n s w).target.pid ≡ pid)
        × (s.geometry_revision ≤ (refreshes n s w).geometry_revision)
  unfolding attach
  attach-refreshes pid n w {s} h =
      let later = refreshes-Later n s w in
      (
        ap (λ (t : SessionTarget). t.pid) later.same_target
            ∙ adopt_pid pid (probe.find_main_window pid w).0 h,
        later.revision_grows,
      )
