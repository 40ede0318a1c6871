-- ===== src/Quests.antt =====
-- Quest knowledge, crates/nectarpilot-core/src/quests.rs: objectives, definitions and the check of a
-- catalog.
pub mod Distance
pub mod Catalog
pub mod Objectives
pub mod Titles
pub mod Consensus
mod Tests
use roblox.Prelude.{
  ℕ, ◌+◌, Bool, true, false, ◌||◌, ◌&&◌, not, Text, codes, is_blank, utf8_len, text_eq, Option,
  none, some, List, [], ◌∷◌, any, is_empty, Result, ok, err, ltb, ◌==◌, if◌then◌else◌,
}

pub data QuestGiver : Type 0 where
  science_bear black_bear brown_bear polar_bear panda_bear mother_bear spirit_bear : QuestGiver
  dapper_bear gifted_bucko_bee gifted_riley_bee honey_bee onett sticker_seeker : QuestGiver

pub data FieldId : Type 0 where
  sunflower dandelion mushroom blue_flower clover spider bamboo strawberry pineapple : FieldId
  pumpkin cactus rose pine_tree mountain_top stump ant pepper coconut : FieldId

pub data PollenColor : Type 0 where
  red blue white : PollenColor

pub data QuestObjective : Type 0 where
  pollen : (amount : ℕ) (field : Option FieldId) (color : Option PollenColor) → QuestObjective
  goo : (amount : ℕ) (field : Option FieldId) (color : Option PollenColor) → QuestObjective
  token : (token : Text) (amount : ℕ) → QuestObjective
  defeat : (mob : Text) (count : ℕ) → QuestObjective
  discover_bee_types : (count : ℕ) → QuestObjective
  earn_badge : (badge : Text) (count : ℕ) → QuestObjective
  craft : (station : Text) (count : ℕ) → QuestObjective
  use_item : (item : Text) (count : ℕ) → QuestObjective
  feed_item : (item : Text) (count : ℕ) → QuestObjective
  use_machine : (machine : Text) (count : ℕ) → QuestObjective
  obtain_bee : (bee : Text) → QuestObjective
  complete_quest : (giver : QuestGiver) (count : ℕ) → QuestObjective

unfoldable pub target : QuestObjective → ℕ
target (pollen amount f c) = amount
target (goo amount f c) = amount
target (token t amount) = amount
target (defeat m count) = count
target (discover_bee_types count) = count
target (earn_badge b count) = count
target (craft s count) = count
target (use_item i count) = count
target (feed_item i count) = count
target (use_machine m count) = count
target (obtain_bee b) = 1
target (complete_quest g count) = count

-- The text that an objective must name, if any.
unfoldable pub objective_label : QuestObjective → Option Text
objective_label (token t n) = some t
objective_label (defeat mob n) = some mob
objective_label (earn_badge badge n) = some badge
objective_label (craft station n) = some station
objective_label (use_item item n) = some item
objective_label (feed_item item n) = some item
objective_label (use_machine machine n) = some machine
objective_label (obtain_bee bee) = some bee
objective_label _ = none

unfoldable pub requires_explicit_budget : QuestObjective → Option Text
requires_explicit_budget (use_item item n) = some item
requires_explicit_budget (feed_item item n) = some item
requires_explicit_budget _ = none

pub record QuestDefinition : Type 0 where
  pub sequence : ℕ
  pub id : Text
  pub giver : QuestGiver
  pub name : Text
  pub translator_reward : Bool
  pub objectives : List QuestObjective

pub record QuestCatalog : Type 0 where
  pub schema_version : ℕ
  pub knowledge_version : Text
  pub source_url : Text
  pub quests : List QuestDefinition

pub data QuestCatalogError : Type 0 where
  unsupported_schema : ℕ → QuestCatalogError
  invalid_provenance : QuestCatalogError
  empty_catalog : QuestCatalogError
  too_many_quests : QuestCatalogError
  non_contiguous_sequence : (expected actual : ℕ) → QuestCatalogError
  invalid_quest_identity : QuestCatalogError
  empty_quest : Text → QuestCatalogError
  zero_objective_target : QuestCatalogError
  invalid_objective_label : QuestCatalogError

-- `label.is_some_and(|value| value.trim().is_empty() || value.len() > 120)`
abbrev pub bad_label : Option Text → Bool
bad_label none = false
bad_label (some value) = is_blank value || ltb 120 (utf8_len value)

-- `QuestObjective::validate`
unfoldable pub validate_objective : QuestObjective → Result QuestCatalogError (Unit {0})
validate_objective objective =
    if target objective == 0
    then err zero_objective_target
    else if bad_label (objective_label objective)
    then err invalid_objective_label
    else ok tt

-- A call that may fail, and then what follows it.
abbrev pub then_check :
    Result QuestCatalogError (Unit {0})
    → Result QuestCatalogError (Unit {0})
    → Result QuestCatalogError (Unit {0})
then_check (err e) rest = err e
then_check (ok _) rest = rest

unfoldable pub validate_objectives : List QuestObjective → Result QuestCatalogError (Unit {0})
validate_objectives [] = ok tt
validate_objectives (objective ∷ rest) =
    then_check (validate_objective objective) (validate_objectives rest)

-- `starts_with`
unfoldable pub starts_with : Text → Text → Bool
starts_with [] s = true
starts_with (p ∷ prefix) [] = false
starts_with (p ∷ prefix) (c ∷ s) = p == c && starts_with prefix s

-- The checks of one quest at an index, against the ids before it.
unfoldable pub validate_quest :
    ℕ → List Text → QuestDefinition → Result QuestCatalogError (Unit {0})
validate_quest index ids quest =
    if ltb 65535 (index + 1)
    then err too_many_quests
    else if not (quest.sequence == index + 1)
    then err (non_contiguous_sequence (index + 1) quest.sequence)
    else if is_blank quest.id || is_blank quest.name || any (text_eq quest.id) ids
    then err invalid_quest_identity
    else if is_empty quest.objectives
    then err (empty_quest quest.id)
    else validate_objectives quest.objectives

unfoldable pub validate_quests :
    ℕ → List Text → List QuestDefinition → Result QuestCatalogError (Unit {0})
validate_quests index ids [] = ok tt
validate_quests index ids (quest ∷ rest) =
    then_check (validate_quest index ids quest) (validate_quests (index + 1) (quest.id ∷ ids) rest)

-- `QuestCatalog::validate`
unfoldable pub validate_catalog : QuestCatalog → Result QuestCatalogError (Unit {0})
validate_catalog catalog =
    if not (catalog.schema_version == 1)
    then err (unsupported_schema catalog.schema_version)
    else if not (starts_with (codes "https://") catalog.source_url)
        || is_blank catalog.knowledge_version
    then err invalid_provenance
    else if is_empty catalog.quests
    then err empty_catalog
    else validate_quests 0 [] catalog.quests
