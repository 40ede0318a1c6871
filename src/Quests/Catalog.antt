-- ===== src/Quests/Catalog.antt =====
-- Which catalogs crates/nectarpilot-core/src/quests.rs accepts.
use roblox.Prelude.{
  ℕ, ◌+◌, ◌≤◌, ◌≡◌, refl, ◌↔◌, true, false, ◌&&◌, Text, codes, is_blank, utf8_len, text_eq, Option,
  none, some, List, [], ◌∷◌, length, any, is_empty, All, Result, ok, err, is_ok, arith,
}
use roblox.Quests.{
  QuestObjective, target, objective_label, QuestDefinition, QuestCatalog, bad_label,
  QuestCatalogError, validate_objective, then_check, validate_objectives, starts_with,
  validate_quest, validate_quests, validate_catalog,
}

-- A name of at most 120 bytes that is not blank, where there has to be one.
abbrev pub IsLabel : Option Text → Type 0
IsLabel none = Unit
IsLabel (some t) = (is_blank t ≡ false) × (utf8_len t ≤ 120)

pub record IsObjective (o : QuestObjective) : Type 0 where
  pub positive : 1 ≤ target o
  pub labelled : IsLabel (objective_label o)

-- `quest` stands at the place of its number, under an id that none of `ids` is.
pub record IsQuest (ids : List Text) (place : ℕ) (quest : QuestDefinition) : Type 0 where
  pub numbered : quest.sequence ≡ place
  pub fits_in_u16 : place ≤ 65535
  pub identified : is_blank quest.id ≡ false
  pub named : is_blank quest.name ≡ false
  pub distinct : any (text_eq quest.id) ids ≡ false
  pub some_objectives : 1 ≤ length quest.objectives
  pub objectives : All IsObjective quest.objectives

-- Numbered from `place` on, under ids that differ from `ids` and from each other.
abbrev pub AreQuests : List Text → ℕ → List QuestDefinition → Type 0
AreQuests ids place [] = Unit
AreQuests ids place (quest ∷ rest) =
    IsQuest ids place quest × AreQuests (quest.id ∷ ids) (place + 1) rest

pub record IsCatalog (c : QuestCatalog) : Type 0 where
  pub schema : c.schema_version ≡ 1
  pub source : starts_with (codes "https://") c.source_url ≡ true
  pub version : is_blank c.knowledge_version ≡ false
  pub some_quests : 1 ≤ length c.quests
  pub quests : AreQuests [] 1 c.quests

then_check-is_ok :
    (first rest : Result QuestCatalogError (Unit {0}))
    → is_ok (then_check first rest) ≡ (is_ok first && is_ok rest)
then_check-is_ok (err e) rest = refl
then_check-is_ok (ok _) rest = refl

bad_label_iff : (o : Option Text) → (bad_label o ≡ false) ↔ IsLabel o
bad_label_iff none = ground arith
bad_label_iff (some t) = ground arith

validate_objective_iff :
    (o : QuestObjective) → (is_ok (validate_objective o) ≡ true) ↔ IsObjective o
unfolding validate_objective
validate_objective_iff o = ground (arith, bad_label_iff (objective_label o))

validate_objectives_iff :
    (os : List QuestObjective) → (is_ok (validate_objectives os) ≡ true) ↔ All IsObjective os
unfolding validate_objectives
validate_objectives_iff [] = ground arith
validate_objectives_iff (o ∷ os) = ground (
  arith,
  then_check-is_ok (validate_objective o) (validate_objectives os),
  validate_objective_iff o,
  validate_objectives_iff os,
)

length_pos_iff : {A : Type 0} (l : List A) → (is_empty l ≡ false) ↔ (1 ≤ length l)
length_pos_iff [] = ground arith
length_pos_iff (a ∷ l) = ground arith

validate_quest_iff :
    (index : ℕ) (ids : List Text) (quest : QuestDefinition)
    → (is_ok (validate_quest index ids quest) ≡ true) ↔ IsQuest ids (index + 1) quest
unfolding validate_quest
validate_quest_iff index ids quest =
    ground (arith, length_pos_iff quest.objectives, validate_objectives_iff quest.objectives)

validate_quests_iff :
    (index : ℕ) (ids : List Text) (quests : List QuestDefinition)
    → (is_ok (validate_quests index ids quests) ≡ true) ↔ AreQuests ids (index + 1) quests
unfolding validate_quests
validate_quests_iff index ids [] = ground arith
validate_quests_iff index ids (quest ∷ rest) = ground (
  arith,
  then_check-is_ok (validate_quest index ids quest)
      (validate_quests (index + 1) (quest.id ∷ ids) rest),
  validate_quest_iff index ids quest,
  validate_quests_iff (index + 1) (quest.id ∷ ids) rest,
)

-- A catalog passes exactly when it has schema 1, an https source, a knowledge version and some
-- quests, which are numbered from 1 on, at most 65,535 of them, each with an id of its own, a name,
-- and objectives that all have a positive target and, where they name something, a name of at most
-- 120 bytes that is not blank.
pub validate_catalog-IsCatalog_iff :
    (c : QuestCatalog) → (is_ok (validate_catalog c) ≡ true) ↔ IsCatalog c
unfolding validate_catalog
validate_catalog-IsCatalog_iff c =
    ground (arith, length_pos_iff c.quests, validate_quests_iff 0 [] c.quests)
