-- ===== src/Platform/Session.antt =====
-- The adopted Roblox session, crates/nectarpilot-platform/src/session.rs. The trait `SessionProbe` is
-- a record of functions on a world of its own, so a probe may answer differently from call to call.
pub mod Laws
pub mod Tests
use roblox.Prelude.{
  ℕ, ◌+◌, ◌-◌, ◌^◌, ltb, Bool, true, false, not, ◌&&◌, Option, none, some, ◌==◌, if◌then◌else◌,
  Result, ok, err, Text, ℤ, leℤ, eqℤ,
}

-- `ProcessId::new` and `WindowHandle::new` refuse 0.
unfoldable pub process_id : ℕ → Option ℕ
process_id pid = if pid == 0 then none else some pid

unfoldable pub window_handle : ℕ → Option ℕ
window_handle raw = if raw == 0 then none else some raw

pub record SessionTarget : Type 0 where
  pub pid : ℕ
  pub window : ℕ

-- `==` of the derived `PartialEq`.
abbrev pub target_eq : SessionTarget → SessionTarget → Bool
target_eq s t = s.pid == t.pid && s.window == t.window

pub record Point : Type 0 where
  pub x : ℤ
  pub y : ℤ

pub record Rect : Type 0 where
  pub left : ℤ
  pub top : ℤ
  pub width : ℕ
  pub height : ℕ

-- In `i64`, where none of the sums can wrap.
unfoldable pub contains : Rect → Point → Bool
contains r p =
    leℤ r.left 0 p.x 0
    && not (leℤ r.left r.width p.x 0)
    && leℤ r.top 0 p.y 0
    && not (leℤ r.top r.height p.y 0)

abbrev pub rect_eq : Rect → Rect → Bool
rect_eq r s = eqℤ r.left s.left && eqℤ r.top s.top && r.width == s.width && r.height == s.height

abbrev pub bool_eq : Bool → Bool → Bool
bool_eq true b = b
bool_eq false b = not b

pub record WindowGeometry : Type 0 where
  pub outer : Rect
  pub client : Rect
  pub monitor : Rect
  pub dpi : ℕ
  pub minimized : Bool
  pub fullscreen : Bool

unfoldable pub geometry_eq : WindowGeometry → WindowGeometry → Bool
geometry_eq g h =
    rect_eq g.outer h.outer
    && rect_eq g.client h.client
    && rect_eq g.monitor h.monitor
    && g.dpi == h.dpi
    && bool_eq g.minimized h.minimized
    && bool_eq g.fullscreen h.fullscreen

pub record WindowSnapshot : Type 0 where
  pub target : SessionTarget
  pub geometry : WindowGeometry
  pub is_foreground : Bool

pub data SessionError : Type 0 where
  window_not_found : (pid : ℕ) → SessionError
  ownership_changed : SessionError
  platform : (message : Text) → SessionError

pub record SessionProbe (W : Type 0) : Type 0 where
  pub find_main_window : ℕ → W → Result SessionError WindowSnapshot × W
  pub snapshot : SessionTarget → W → Result SessionError WindowSnapshot × W

pub record RobloxSession : Type 0 where
  pub target : SessionTarget
  pub geometry : WindowGeometry
  pub foreground : Bool
  pub geometry_revision : ℕ

unfoldable pub from_snapshot : WindowSnapshot → RobloxSession
from_snapshot snapshot = record {
  target = snapshot.target;
  geometry = snapshot.geometry;
  foreground = snapshot.is_foreground;
  geometry_revision = 0;
}

-- `u64::saturating_add(1)` on a `u64`.
abbrev pub next_revision : ℕ → ℕ
next_revision n = if ltb n (2 ^ 64 - 1) then n + 1 else n

-- The rest of `attach`, after the probe's answer.
unfoldable pub adopt : ℕ → Result SessionError WindowSnapshot → Result SessionError RobloxSession
unfolding from_snapshot
adopt pid (err e) = err e
adopt pid (ok snapshot) =
    if snapshot.target.pid == pid then ok (from_snapshot snapshot) else err ownership_changed

-- The rest of `refresh`, after the probe's answer. An error leaves the session as it was.
unfoldable pub absorb :
    RobloxSession → Result SessionError WindowSnapshot → Result SessionError Bool × RobloxSession
unfolding geometry_eq
absorb session (err e) = (err e, session)
absorb session (ok snapshot) =
    let changed = not (geometry_eq session.geometry snapshot.geometry) in
    if target_eq snapshot.target session.target
    then (
      ok changed,
      record {
        target = session.target;
        geometry = snapshot.geometry;
        foreground = snapshot.is_foreground;
        geometry_revision =
            if changed then next_revision session.geometry_revision else session.geometry_revision;
      },
    )
    else (err ownership_changed, session)

module _ {W : Type 0} (probe : SessionProbe W) where
  unfoldable pub attach : ℕ → W → Result SessionError RobloxSession × W
  attach pid w = let (answer, w') = probe.find_main_window pid w in (adopt pid answer, w')

  unfoldable pub refresh : RobloxSession → W → Result SessionError Bool × RobloxSession × W
  refresh session w =
      let (answer, w') = probe.snapshot session.target w in
      let (changed, session') = absorb session answer in (changed, session', w')
