-- ===== src/Platform/Session/Tests.antt =====
-- A probe of two windows for the theorems about crates/nectarpilot-platform/src/session.rs.
use roblox.Prelude.{ℕ, ◌+◌, ◌≤◌, ◌≡◌, refl, true, false, ok, pos, arith, ◌==◌, if◌then◌else◌}
use roblox.Platform.Session.{
  Rect, WindowGeometry, WindowSnapshot, SessionProbe, RobloxSession, from_snapshot, adopt, absorb,
  attach, refresh, geometry_eq,
}
use roblox.Platform.Session.Laws.{refreshes, same_revision-same_geometry, attach-refreshes}

abbrev screen : Rect
screen = record { left = pos 0; top = pos 0; width = 1920; height = 1080 }

abbrev pub geometry : WindowGeometry
geometry = record {
  outer = screen;
  client = screen;
  monitor = screen;
  dpi = 96;
  minimized = false;
  fullscreen = true;
}

abbrev shot : WindowSnapshot
shot = record { target = record { pid = 7; window = 9 }; geometry = geometry; is_foreground = true }

-- From the second query on the window has another DPI.
abbrev probe : SessionProbe ℕ
probe = record {
  find_main_window = λ pid w. (ok shot, w + 1);
  snapshot = λ target w.
      (ok (record shot { geometry = record geometry { dpi = if w == 1 then 96 else 120 } }), w + 1);
}

abbrev adopted : RobloxSession
adopted = record {
  target = shot.target;
  geometry = geometry;
  foreground = true;
  geometry_revision = 0;
}

dpi_change_counts : (refreshes probe 3 adopted 1).geometry_revision ≡ 1
unfolding refresh absorb geometry_eq
dpi_change_counts = refl

adopted_from : (attach probe 7 0).0 ≡ ok adopted
unfolding attach adopt from_snapshot
adopted_from = refl

same_revision-same_geometry_example : (refreshes probe 1 adopted 1).geometry ≡ geometry
unfolding refresh absorb geometry_eq
same_revision-same_geometry_example =
    same_revision-same_geometry probe 1 adopted 1 refl (omega arith)

attach-refreshes_example :
    ((refreshes probe 3 adopted 1).target.pid ≡ 7)
    × (0 ≤ (refreshes probe 3 adopted 1).geometry_revision)
attach-refreshes_example =
    attach-refreshes probe 7 3 1 {s = adopted} (unfold attach adopt from_snapshot in refl)
