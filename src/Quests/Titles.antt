-- ===== src/Quests/Titles.antt =====
-- Quest titles read from the screen, crates/nectarpilot-core/src/quests.rs. The catalogs, which are
-- data files, and the clock are parameters.
pub mod Matches
use roblox.Prelude.{
  ℕ, ◌+◌, ◌*◌, ◌^◌, max, Bool, true, false, ◌||◌, ◌&&◌, not, Text, codes, decimal, text_eq,
  to_ascii_lowercase, is_ascii_alphanumeric, Option, none, some, List, [], ◌∷◌, ◌++◌, map, any,
  is_empty, length, ltb, ◌==◌, if◌then◌else◌, F32, is_finite, in_range, f_lt, f_zero, f_one, f_add,
  f_sub, f_mul, f_over, f_constant,
}
use roblox.Prelude.Words.{filter, split_whitespace, join_spaces}
use roblox.Contracts.Detection.{DetectionEvidence, Detection, found, not_found, uncertain, error}
use roblox.Quests.{QuestGiver, science_bear, QuestDefinition, QuestCatalog}
use roblox.Quests.Distance.{edit_distance}

pub record QuestMatch : Type 0 where
  pub id : Text
  pub sequence : ℕ
  pub name : Text

-- 0.75
abbrev pub minimum_action_confidence : F32
minimum_action_confidence = F32.above (3 * 2 ^ 147)

unfoldable pub quest_title_detector_name : QuestGiver → Text
quest_title_detector_name QuestGiver.science_bear = codes "science_bear_quest_title"
quest_title_detector_name QuestGiver.polar_bear = codes "polar_bear_quest_title"
quest_title_detector_name QuestGiver.black_bear = codes "black_bear_quest_title"
quest_title_detector_name QuestGiver.gifted_bucko_bee = codes "bucko_bee_quest_title"
quest_title_detector_name QuestGiver.gifted_riley_bee = codes "riley_bee_quest_title"
quest_title_detector_name _ = codes "uncataloged_quest_title"

abbrev pub title_char : ℕ → ℕ
title_char c = if is_ascii_alphanumeric c then to_ascii_lowercase c else b' '

abbrev pub is_stop_word : Text → Bool
is_stop_word word = any (text_eq word) (codes "science" ∷ codes "bear" ∷ codes "quest" ∷ [])

unfoldable pub normalize_title : Text → Text
normalize_title value =
    join_spaces (filter (λ word. not (is_stop_word word)) (split_whitespace (map title_char value)))

-- `{giver:?}` of the derived `Debug`.
unfoldable pub giver_text : QuestGiver → Text
giver_text QuestGiver.science_bear = codes "ScienceBear"
giver_text QuestGiver.black_bear = codes "BlackBear"
giver_text QuestGiver.brown_bear = codes "BrownBear"
giver_text QuestGiver.polar_bear = codes "PolarBear"
giver_text QuestGiver.panda_bear = codes "PandaBear"
giver_text QuestGiver.mother_bear = codes "MotherBear"
giver_text QuestGiver.spirit_bear = codes "SpiritBear"
giver_text QuestGiver.dapper_bear = codes "DapperBear"
giver_text QuestGiver.gifted_bucko_bee = codes "GiftedBuckoBee"
giver_text QuestGiver.gifted_riley_bee = codes "GiftedRileyBee"
giver_text QuestGiver.honey_bee = codes "HoneyBee"
giver_text QuestGiver.onett = codes "Onett"
giver_text QuestGiver.sticker_seeker = codes "StickerSeeker"

-- How like each other two titles are, from their distance. None stands for a panic: of an index out
-- of range, or of `u16::try_from`.
unfoldable pub similarity_of : ℕ → Option ℕ → Option F32
similarity_of width none = none
similarity_of width (some distance) =
    if ltb 65535 distance || ltb 65535 width
    then none
    else some (f_sub f_one (f_over (F32.above (distance * 2 ^ 149)) width))

unfoldable pub similarity : Text → Text → Option F32
similarity normalized candidate =
    similarity_of (max (max (length normalized) (length candidate)) 1)
      (edit_distance normalized candidate)

abbrev pub Scored : Type 0
Scored = QuestDefinition × F32

abbrev pub add_score : QuestDefinition → Option F32 → Option (List Scored) → Option (List Scored)
add_score quest (some s) (some scored) = some ((quest, s) ∷ scored)
add_score quest _ _ = none

unfoldable pub score_all : Text → List QuestDefinition → Option (List Scored)
score_all normalized [] = some []
score_all normalized (quest ∷ quests) =
    add_score quest (similarity normalized (normalize_title quest.name))
      (score_all normalized quests)

-- `sort_by`, which is stable, from the most to the least like. No similarity is NaN.
abbrev pub insert_score : Scored → List Scored → List Scored
insert_score x [] = x ∷ []
insert_score x (y ∷ ys) =
    let rest = insert_score x ys in if f_lt x.1 y.1 then y ∷ rest else x ∷ y ∷ ys

unfoldable pub sort_scores : List Scored → List Scored
sort_scores [] = []
sort_scores (x ∷ xs) = insert_score x (sort_scores xs)

unfoldable pub runner_up : List Scored → F32
runner_up [] = f_zero
runner_up ((quest, s) ∷ rest) = s

abbrev pub quest_match : QuestDefinition → QuestMatch
quest_match quest = record { id = quest.id; sequence = quest.sequence; name = quest.name }

-- From the sorted list on.
unfoldable pub judge : QuestGiver → F32 → DetectionEvidence → List Scored → Detection QuestMatch
judge giver confidence evidence [] = not_found evidence
judge giver confidence evidence ((best, s) ∷ rest) =
    if f_lt s (f_constant 82 100) || f_lt (f_sub s (runner_up rest)) (f_constant 8 100)
    then uncertain
        (codes "quest title did not uniquely match the constrained "
          ++ giver_text giver
          ++ codes " vocabulary")
        evidence
    else found (quest_match best) (f_mul confidence s) evidence

unfoldable pub judge_scored :
    QuestGiver → F32 → DetectionEvidence → Option (List Scored) → Option (Detection QuestMatch)
judge_scored giver confidence evidence none = none
judge_scored giver confidence evidence (some scored) =
    some (judge giver confidence evidence (sort_scores scored))

-- From the catalog on.
unfoldable pub detect_in :
    QuestGiver
    → Text
    → F32
    → DetectionEvidence
    → Option QuestCatalog
    → Option (Detection QuestMatch)
detect_in giver observed confidence evidence none =
    some (uncertain (codes "no checked-in quest catalog exists for " ++ giver_text giver) evidence)
detect_in giver observed confidence evidence (some catalog) =
    let normalized = normalize_title observed in
    if not (is_finite confidence) || not (in_range f_zero f_one confidence)
    then some (
        error (codes "invalid_ocr_confidence") (codes "OCR confidence was outside 0..=1")
          (some evidence))
    else if is_empty normalized
    then some (not_found evidence)
    else if ltb 128 (length normalized)
    then some (uncertain (codes "quest title exceeded the bounded OCR vocabulary length") evidence)
    else if f_lt confidence minimum_action_confidence
    then some (uncertain (codes "quest title OCR confidence is below the safe threshold") evidence)
    else judge_scored giver confidence evidence (score_all normalized catalog.quests)

abbrev pub evidence_of : Text → ℕ → List Text → DetectionEvidence
evidence_of name now notes = record {
  detector = name;
  observed_at = now;
  region = none;
  artifact_id = none;
  notes = notes;
}

module _ (quest_catalog_for : QuestGiver → Option QuestCatalog) (now : ℕ) where
  unfoldable pub detect_quest_title : QuestGiver → Text → F32 → Option (Detection QuestMatch)
  detect_quest_title giver observed confidence =
      detect_in giver observed confidence (evidence_of (quest_title_detector_name giver) now [])
        (quest_catalog_for giver)

  unfoldable pub detect_science_bear_title : Text → F32 → Option (Detection QuestMatch)
  detect_science_bear_title observed confidence =
      detect_quest_title science_bear observed confidence
