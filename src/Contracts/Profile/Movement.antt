-- ===== src/Contracts/Profile/Movement.antt =====
-- The calibration that reaches a harness, crates/nectarpilot-contracts/src/profile.rs.
use roblox.Prelude.{ℕ, ◌≤◌, ◌*◌, ◌^◌, ◌≡◌, ◌↔◌, subst, refl, true, min, max, arith, if◌then◌else◌}
use roblox.Prelude.Double.{F64, nan, infinity, neg_infinity, below, above, is_finite, clamp}
use roblox.Contracts.Profile.{MovementConfig, sanitized}

-- Not NaN, and between two numbers of units.
abbrev pub InUnits : ℕ → ℕ → F64 → Type 0
InUnits low high (above n) = (low ≤ n) × (n ≤ high)
InUnits low high _ = ⊥

-- Values that every harness accepts.
pub record IsCalibrated (m : MovementConfig) : Type 0 where
  pub speed : InUnits (10 * 2 ^ 1074) (200 * 2 ^ 1074) m.walk_speed
  pub lowest_slot : 1 ≤ m.hive_slot
  pub highest_slot : m.hive_slot ≤ 6
  pub bees : m.hive_bees ≤ 50
  pub delay : m.key_delay ≤ 1000

clamp-InUnits :
    (low high : ℕ) (x : F64)
    → low ≤ high
    → is_finite x ≡ true
    → InUnits low high (clamp (above low) (above high) x)
clamp-InUnits low high nan h f = cc
clamp-InUnits low high infinity h f = cc
clamp-InUnits low high neg_infinity h f = cc
clamp-InUnits low high (below m) h f = ground arith
clamp-InUnits low high (above m) h f = ground arith

clamp_id : (low high : ℕ) (x : F64) → InUnits low high x → clamp (above low) (above high) x ≡ x
clamp_id low high (above m) h = ground arith
clamp_id low high nan h = elim h [ ]
clamp_id low high infinity h = elim h [ ]
clamp_id low high neg_infinity h = elim h [ ]
clamp_id low high (below m) h = elim h [ ]

InUnits→finite : (low high : ℕ) (x : F64) → InUnits low high x → is_finite x ≡ true
InUnits→finite low high (above m) h = refl
InUnits→finite low high nan h = elim h [ ]
InUnits→finite low high infinity h = elim h [ ]
InUnits→finite low high neg_infinity h = elim h [ ]
InUnits→finite low high (below m) h = refl

speed_InUnits :
    (low high default : ℕ) (x : F64)
    → low ≤ high
    → low ≤ default
    → default ≤ high
    → InUnits low high (if is_finite x then clamp (above low) (above high) x else above default)
speed_InUnits low high default nan h a b = (a, b)
speed_InUnits low high default infinity h a b = (a, b)
speed_InUnits low high default neg_infinity h a b = (a, b)
speed_InUnits low high default (below m) h a b = clamp-InUnits low high (below m) h refl
speed_InUnits low high default (above m) h a b = clamp-InUnits low high (above m) h refl

speed_id :
    (low high default : ℕ) (x : F64)
    → InUnits low high x
    → (if is_finite x then clamp (above low) (above high) x else above default) ≡ x
speed_id low high default (above m) h = clamp_id low high (above m) h
speed_id low high default nan h = elim h [ ]
speed_id low high default infinity h = elim h [ ]
speed_id low high default neg_infinity h = elim h [ ]
speed_id low high default (below m) h = elim h [ ]

sanitized-IsCalibrated : (m : MovementConfig) → IsCalibrated (sanitized m)
unfolding sanitized
sanitized-IsCalibrated m = record {
  speed =
      speed_InUnits (10 * 2 ^ 1074) (200 * 2 ^ 1074) (28 * 2 ^ 1074) m.walk_speed (omega arith)
        (omega arith) (omega arith);
  lowest_slot = omega arith;
  highest_slot = omega arith;
  bees = omega arith;
  delay = omega arith;
}

sanitized_id : (m : MovementConfig) → IsCalibrated m → sanitized m ≡ m
unfolding sanitized
sanitized_id m h =
    let speed = speed_id (10 * 2 ^ 1074) (200 * 2 ^ 1074) (28 * 2 ^ 1074) m.walk_speed h.speed in
    let slot : max 1 (min 6 m.hive_slot) ≡ m.hive_slot =
      ground (arith, h.lowest_slot, h.highest_slot) in
    let bees : min m.hive_bees 50 ≡ m.hive_bees = ground (arith, h.bees) in
    let delay : min m.key_delay 1000 ≡ m.key_delay = ground (arith, h.delay) in cc

-- Sanitizing leaves a calibration as it is exactly when every value is in its range: a finite speed
-- from 10 to 200, a hive slot from 1 to 6, at most 50 bees, and at most a second of key delay.
pub sanitized-IsCalibrated_iff : (m : MovementConfig) → (sanitized m ≡ m) ↔ IsCalibrated m
sanitized-IsCalibrated_iff m =
    ((λ e. subst IsCalibrated e (sanitized-IsCalibrated m)), (λ h. sanitized_id m h))
