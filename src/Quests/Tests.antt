-- ===== src/Quests/Tests.antt =====
-- Concrete titles, lines and catalogs for the theorems about crates/nectarpilot-core/src/quests.rs.
use roblox.Prelude.{
  ℕ, ◌≤◌, ◌≡◌, refl, ◌↔◌, true, false, Text, codes, Option, none, some, List, [], ◌∷◌, ◌++◌, length,
  ok, is_ok, f_one, text_eq, is_blank, to_ascii_lowercase, is_ascii_alphanumeric, f_add, f_sub,
  f_mul, f_over, f_constant, decimal,
}
use roblox.Prelude.Words.{split, split_whitespace, join_spaces, parse_digits, number_from}
use roblox.Contracts.Detection.{DetectionEvidence, Detection, found}
use roblox.Quests.{
  QuestGiver, science_bear, pollen, QuestDefinition, QuestCatalog, FieldId, target, objective_label,
  validate_objective, validate_objectives, validate_quest, validate_quests, validate_catalog,
  starts_with,
}
use roblox.Quests.Distance.{count_from, fill_row, rows, edit_distance}
use roblox.Quests.Distance.Scripts.{Edit, keep, substitute, insert, before, after, cost}
use roblox.Quests.Distance.Rows.{edit_distance-least}
use roblox.Quests.Catalog.{IsCatalog, validate_catalog-IsCatalog_iff}
use roblox.Quests.Objectives.{
  normalize_objective_text, parse_bounded_amount, match_word, parse_field_name, singular,
  parse_mob_name, parse_collect, parse_rest, with_amount, parse_words, parse_dynamic_objective,
}
use roblox.Quests.Objectives.Read.{IsRead, parse_dynamic_objective-IsRead}
use roblox.Quests.Titles.{
  QuestMatch, quest_match, normalize_title, similarity_of, similarity, score_all, sort_scores,
  runner_up, judge, judge_scored, detect_in, quest_title_detector_name, evidence_of,
  detect_quest_title,
}
use roblox.Quests.Titles.Matches.{IsRecognised, detect_quest_title-IsRecognised}
use roblox.Quests.Consensus.{
  keep_three, agreeing, conclude, observe, observe_all, match_of, matches, IsLastThree,
  observe-agreement,
}

abbrev kitten_edits : List Edit
kitten_edits =
    substitute b'k' b's'
    ∷ keep b'i'
    ∷ keep b't'
    ∷ keep b't'
    ∷ substitute b'e' b'i'
    ∷ keep b'n'
    ∷ insert b'g'
    ∷ []

edit_distance-least_example :
    (d : ℕ) × (edit_distance (codes "kitten") (codes "sitting") ≡ some d)
    × (d ≤ cost kitten_edits)
    × ((best : List Edit) × (before best ≡ codes "kitten")
        × (after best ≡ codes "sitting")
        × (cost best ≡ d))
edit_distance-least_example =
    edit_distance-least (codes "kitten") (codes "sitting") kitten_edits refl refl

kitten_distance : edit_distance (codes "kitten") (codes "sitting") ≡ some 3
unfolding edit_distance rows fill_row count_from
kitten_distance = refl

abbrev preparation : QuestDefinition
preparation = record {
  sequence = 1;
  id = codes "preparation";
  giver = science_bear;
  name = codes "Preparation";
  translator_reward = false;
  objectives = pollen 1000 none none ∷ [];
}

abbrev catalog : QuestCatalog
catalog = record {
  schema_version = 1;
  knowledge_version = codes "2026";
  source_url = codes "https://example.org";
  quests = preparation ∷ [];
}

validate_catalog-IsCatalog_iff_example :
    (is_ok (validate_catalog catalog) ≡ true) ↔ IsCatalog catalog
validate_catalog-IsCatalog_iff_example = validate_catalog-IsCatalog_iff catalog

catalog_accepted : validate_catalog catalog ≡ ok tt
unfolding validate_catalog starts_with is_blank validate_quests validate_quest validate_objectives
    validate_objective target objective_label text_eq
catalog_accepted = refl

abbrev pineapple_line : Text
pineapple_line = codes "Collect 1,500 pollen from the Pineapple Patch!"

pineapple_read :
    parse_dynamic_objective pineapple_line ≡ some (pollen 1500 (some FieldId.pineapple) none)
unfolding parse_dynamic_objective normalize_objective_text is_ascii_alphanumeric to_ascii_lowercase
    split split_whitespace join_spaces parse_words with_amount parse_bounded_amount parse_digits
    number_from parse_rest parse_collect parse_field_name match_word text_eq
pineapple_read = refl

parse_dynamic_objective-IsRead_example :
    IsRead (pollen 1500 (some FieldId.pineapple) none)
    × (validate_objective (pollen 1500 (some FieldId.pineapple) none) ≡ ok tt)
parse_dynamic_objective-IsRead_example =
    parse_dynamic_objective-IsRead pineapple_line (pollen 1500 (some FieldId.pineapple) none)
      pineapple_read

-- The final s of "mantis" is taken for a plural, and that of "mantises" leaves "mantise".
mantis_not_read : parse_mob_name (codes "mantis") ≡ none
unfolding parse_mob_name singular text_eq
mantis_not_read = refl

mantises_read : parse_mob_name (codes "mantises") ≡ some (codes "mantise")
unfolding parse_mob_name singular text_eq
mantises_read = refl

abbrev only_science : QuestGiver → Option QuestCatalog
only_science QuestGiver.science_bear = some catalog
only_science _ = none

abbrev title_evidence : DetectionEvidence
title_evidence = evidence_of (quest_title_detector_name science_bear) 5 []

title_found :
    detect_quest_title only_science 5 science_bear (codes "Science Bear: PREPARATION") f_one
    ≡ some (found (quest_match preparation) f_one title_evidence)
unfolding detect_quest_title detect_in normalize_title is_ascii_alphanumeric to_ascii_lowercase
    split split_whitespace join_spaces text_eq score_all similarity similarity_of edit_distance rows
    fill_row count_from sort_scores judge_scored judge runner_up f_over f_sub f_constant f_mul
title_found = refl

detect_quest_title-IsRecognised_example :
    (c : QuestCatalog) × (only_science science_bear ≡ some c)
    × IsRecognised
        (normalize_title (codes "Science Bear: PREPARATION"))
        f_one
        (quest_match preparation)
        c
detect_quest_title-IsRecognised_example =
    detect_quest_title-IsRecognised only_science 5 science_bear (codes "Science Bear: PREPARATION")
      f_one (quest_match preparation) f_one title_evidence title_found

abbrev frame : Detection QuestMatch
frame = found (quest_match preparation) f_one title_evidence

abbrev consensus : DetectionEvidence
consensus =
    evidence_of (codes "science_bear_quest_title_consensus") 6
      (codes "2 of 2 recent frames agree" ∷ [])

second_agrees :
    (observe 6 frame (observe_all ((5, frame) ∷ []) [])).0
    ≡ found (quest_match preparation) f_one consensus
unfolding observe keep_three conclude text_eq f_add f_over decimal
second_agrees = refl

observe-agreement_example :
    IsLastThree
      (observe 6 frame (observe_all ((5, frame) ∷ []) [])).1
      (matches ((5, frame) ∷ []) ++ match_of frame)
    × (2
        ≤ length (
            agreeing
              (quest_match preparation)
              (observe 6 frame (observe_all ((5, frame) ∷ []) [])).1))
observe-agreement_example =
    observe-agreement ((5, frame) ∷ []) 6 frame (quest_match preparation) f_one consensus
      second_agrees
