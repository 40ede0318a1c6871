-- ===== src/Platform/Freeze.antt =====
-- When a frozen game may be restarted, crates/nectarpilot-platform/src/freeze.rs. A `BTreeSet` is
-- the list of its elements; a duration is its nanoseconds.
use roblox.Prelude.{
  ℕ, ◌*◌, ◌/◌, ◌≤◌, ◌<◌, ◌≡◌, ◌↔◌, ◌⊎◌, true, ◌&&◌, ◌||◌, not, Text, codes, decimal, List, [], ◌∷◌,
  ◌++◌, length, is_empty, ltb, leb, if◌then◌else◌, arith,
}

pub data StrongFreezeSignal : Type 0 where
  frames_stalled window_unresponsive input_heartbeat_lost : StrongFreezeSignal
  confirmed_disconnect_dialog process_cpu_stalled : StrongFreezeSignal

pub data WeakFreezeSignal : Type 0 where
  honey_inactive navigation_failed ocr_uncertain : WeakFreezeSignal

pub record FreezeEvidence : Type 0 where
  pub observed_for : ℕ
  pub strong : List StrongFreezeSignal
  pub weak : List WeakFreezeSignal

pub data FreezeDecision : Type 0 where
  healthy suspected restart_allowed : FreezeDecision

pub record FreezeAssessment : Type 0 where
  pub decision : FreezeDecision
  pub independent_strong_signals : ℕ
  pub reason : Text

pub record FreezeClassifier : Type 0 where
  pub minimum_observation : ℕ
  pub required_independent_signals : ℕ

-- `Duration::as_secs`
abbrev pub as_secs : ℕ → ℕ
as_secs duration = duration / 1000000000

abbrev pub default_classifier : FreezeClassifier
default_classifier = record {
  minimum_observation = 30 * 1000000000;
  required_independent_signals = 2;
}

unfoldable pub decide : FreezeClassifier → FreezeEvidence → FreezeDecision
decide classifier evidence =
    let strong_count = length evidence.strong in
    let old_enough = leb classifier.minimum_observation evidence.observed_for in
    if leb classifier.required_independent_signals strong_count && old_enough
    then restart_allowed
    else if ltb 0 strong_count || not (is_empty evidence.weak)
    then suspected
    else healthy

unfoldable pub reason_of : FreezeClassifier → FreezeEvidence → FreezeDecision → Text
reason_of classifier evidence healthy = codes "no freeze evidence is active"
reason_of classifier evidence suspected =
    if not (leb classifier.minimum_observation evidence.observed_for)
    then codes "evidence is younger than the "
      ++ decimal (as_secs classifier.minimum_observation)
      ++ codes " second confirmation window"
    else codes "restart refused: "
      ++ decimal (length evidence.strong)
      ++ codes " independent strong signal(s), "
      ++ decimal classifier.required_independent_signals
      ++ codes " required"
reason_of classifier evidence restart_allowed =
    codes "restart permitted after "
    ++ decimal (length evidence.strong)
    ++ codes " independent strong signals persisted for "
    ++ decimal (as_secs evidence.observed_for)
    ++ codes " seconds"

-- `FreezeClassifier::classify`
unfoldable pub classify : FreezeClassifier → FreezeEvidence → FreezeAssessment
classify classifier evidence =
    let decision = decide classifier evidence in
    record {
      decision = decision;
      independent_strong_signals = length evidence.strong;
      reason = reason_of classifier evidence decision;
    }

is_empty_iff : {A : Type 0} (l : List A) → (is_empty l ≡ true) ↔ (length l ≡ 0)
is_empty_iff [] = ground arith
is_empty_iff (a ∷ l) = ground arith

-- A restart is allowed exactly when as many strong signals as required have been seen for as long as
-- required. Without that, the game counts as healthy exactly when there is no signal at all, and a
-- weak signal alone is never more than a suspicion while a strong one is required.
pub classify_effect :
    (c : FreezeClassifier) (e : FreezeEvidence)
    → (((classify c e).decision ≡ restart_allowed) ↔ (
        (c.required_independent_signals ≤ length e.strong)
        × (c.minimum_observation ≤ e.observed_for)))
      × (((classify c e).decision ≡ healthy) ↔ (
          (length e.strong ≡ 0)
          × (length e.weak ≡ 0)
          × ((1 ≤ c.required_independent_signals) ⊎ (e.observed_for < c.minimum_observation))))
      × ((classify c e).independent_strong_signals ≡ length e.strong)
unfolding classify decide
classify_effect c e = ground (arith, is_empty_iff e.weak)
