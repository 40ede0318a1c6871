-- ===== src/Contracts/Detection.antt =====
-- Detector results, crates/nectarpilot-contracts/src/detection.rs. `observed_at` is the clock's
-- reading as a number.
use roblox.Prelude.{
  ℕ, Text, Bool, true, false, ◌&&◌, Option, none, some, List, [], ◌∷◌, all, f_lt, f_add,
  if◌then◌else◌, F32, is_finite, in_range, clamp, ◌<=◌, f_zero, f_one,
}

pub record NormalizedRegion : Type 0 where
  pub x : F32
  pub y : F32
  pub width : F32
  pub height : F32

-- `NormalizedRegion::is_valid`
unfoldable pub is_valid : NormalizedRegion → Bool
is_valid r =
    all is_finite (r.x ∷ r.y ∷ r.width ∷ r.height ∷ [])
    && f_zero <= r.x
    && f_zero <= r.y
    && f_lt f_zero r.width
    && f_lt f_zero r.height
    && f_add r.x r.width <= f_one
    && f_add r.y r.height <= f_one

pub record DetectionEvidence : Type 0 where
  pub detector : Text
  pub observed_at : ℕ
  pub region : Option NormalizedRegion
  pub artifact_id : Option Text
  pub notes : List Text

pub data Detection (T : Type 0) : Type 0 where
  found : (value : T) (confidence : F32) (evidence : DetectionEvidence) → Detection T
  not_found : (evidence : DetectionEvidence) → Detection T
  uncertain : (reason : Text) (evidence : DetectionEvidence) → Detection T
  error : (code message : Text) (evidence : Option DetectionEvidence) → Detection T

-- The match guard of `Found`.
unfoldable pub meets : F32 → F32 → Bool
meets threshold confidence =
    is_finite confidence && in_range f_zero f_one confidence && threshold <= confidence

module _ {T : Type 0} where
  unfoldable pub actionable : Detection T → F32 → Option T
  unfolding meets
  actionable (found value confidence evidence) minimum_confidence =
      if meets (clamp f_zero f_one minimum_confidence) confidence then some value else none
  actionable _ minimum_confidence = none

  unfoldable pub is_uncertain : Detection T → Bool
  is_uncertain (uncertain reason evidence) = true
  is_uncertain _ = false

  unfoldable pub is_error : Detection T → Bool
  is_error (error code message evidence) = true
  is_error _ = false
