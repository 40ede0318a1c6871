-- ===== src/Quests/Titles/Matches.antt =====
-- What a title is matched with, crates/nectarpilot-core/src/quests.rs.
use roblox.Prelude.{
  ℕ, ◌≤◌, ◌≡◌, refl, ap, ◌∙◌, subst, ◌⊎◌, inl, inr, Bool, true, false, Text, Option, none, some,
  List, [], ◌∷◌, length, is_empty, if◌then◌else◌, F32, is_finite, in_range, f_lt, f_zero, f_one,
  f_constant, arith,
}
use roblox.Contracts.Detection.{DetectionEvidence, found}
use roblox.Quests.{QuestGiver, QuestDefinition, QuestCatalog}
use roblox.Quests.Titles.{
  QuestMatch, minimum_action_confidence, normalize_title, similarity, Scored, add_score, score_all,
  insert_score, sort_scores, quest_match, judge, judge_scored, detect_in, detect_quest_title,
  quest_title_detector_name, evidence_of,
}

-- A quest of the list, as like the text as the match asks.
abbrev pub IsMatchOf : Text → QuestMatch → List QuestDefinition → Type 0
IsMatchOf text v [] = ⊥
IsMatchOf text v (quest ∷ quests) =
    ((v ≡ quest_match quest)
      × ((s : F32) × (similarity text (normalize_title quest.name) ≡ some s)
          × (f_lt s (f_constant 82 100) ≡ false)))
    ⊎ IsMatchOf text v quests

-- A scored quest of the list.
abbrev Holds : Text → Scored → List QuestDefinition → Type 0
Holds text x [] = ⊥
Holds text x (quest ∷ quests) =
    ((x.0 ≡ quest) × (similarity text (normalize_title quest.name) ≡ some x.1))
    ⊎ Holds text x quests

abbrev AllHold : Text → List QuestDefinition → List Scored → Type 0
AllHold text quests [] = Unit
AllHold text quests (x ∷ xs) = Holds text x quests × AllHold text quests xs

AllHold-more :
    (text : Text) (quest : QuestDefinition) (quests : List QuestDefinition) (xs : List Scored)
    → AllHold text quests xs
    → AllHold text (quest ∷ quests) xs
AllHold-more text quest quests [] h = tt
AllHold-more text quest quests (x ∷ xs) h = (inr h.0, AllHold-more text quest quests xs h.1)

add_score-AllHold :
    (text : Text) (quest : QuestDefinition) (quests : List QuestDefinition) (o : Option F32)
    (rest : Option (List Scored)) {xs : List Scored}
    → similarity text (normalize_title quest.name) ≡ o
    → ((ys : List Scored) → rest ≡ some ys → AllHold text quests ys)
    → add_score quest o rest ≡ some xs
    → AllHold text (quest ∷ quests) xs
add_score-AllHold text quest quests none rest e h eq = cc
add_score-AllHold text quest quests (some s) none e h eq = cc
add_score-AllHold text quest quests (some s) (some ys) {xs} e h eq =
    let same : (quest, s) ∷ ys ≡ xs = cc in
    subst (AllHold text (quest ∷ quests)) same
      (inl (refl, e), AllHold-more text quest quests ys (h ys refl))

score_all-AllHold :
    (text : Text) (quests : List QuestDefinition) (xs : List Scored)
    → score_all text quests ≡ some xs
    → AllHold text quests xs
unfolding score_all
score_all-AllHold text [] xs h = let same : [] ≡ xs = cc in subst (AllHold text []) same tt
score_all-AllHold text (quest ∷ quests) xs h =
    add_score-AllHold text quest quests (similarity text (normalize_title quest.name))
      (score_all text quests) {xs = xs} refl (score_all-AllHold text quests) h

either-AllHold :
    (text : Text) (quests : List QuestDefinition) (b : Bool) (xs ys : List Scored)
    → AllHold text quests xs
    → AllHold text quests ys
    → AllHold text quests (if b then xs else ys)
either-AllHold text quests true xs ys hx hy = hx
either-AllHold text quests false xs ys hx hy = hy

insert_score-AllHold :
    (text : Text) (quests : List QuestDefinition) (x : Scored) (xs : List Scored)
    → Holds text x quests
    → AllHold text quests xs
    → AllHold text quests (insert_score x xs)
insert_score-AllHold text quests x [] hx h = (hx, tt)
insert_score-AllHold text quests x (y ∷ ys) hx h =
    either-AllHold text quests (f_lt x.1 y.1) (y ∷ insert_score x ys) (x ∷ y ∷ ys)
      (h.0, insert_score-AllHold text quests x ys hx h.1) (hx, h)

sort_scores-AllHold :
    (text : Text) (quests : List QuestDefinition) (xs : List Scored)
    → AllHold text quests xs
    → AllHold text quests (sort_scores xs)
unfolding sort_scores
sort_scores-AllHold text quests [] h = tt
sort_scores-AllHold text quests (x ∷ xs) h =
    insert_score-AllHold text quests x (sort_scores xs) h.0 (sort_scores-AllHold text quests xs h.1)

judge-best :
    (giver : QuestGiver) (confidence : F32) (evidence : DetectionEvidence) (x : Scored)
    (rest : List Scored) {v : QuestMatch} {c : F32} {ev : DetectionEvidence}
    → judge giver confidence evidence (x ∷ rest) ≡ found v c ev
    → (f_lt x.1 (f_constant 82 100) ≡ false) × (v ≡ quest_match x.0)
unfolding judge
judge-best giver confidence evidence x rest {v} {c} {ev} h = ground arith

Holds→IsMatchOf :
    (text : Text) (x : Scored) (v : QuestMatch) (quests : List QuestDefinition)
    → f_lt x.1 (f_constant 82 100) ≡ false
    → v ≡ quest_match x.0
    → Holds text x quests
    → IsMatchOf text v quests
Holds→IsMatchOf text x v [] like e h = elim h [ ]
Holds→IsMatchOf text x v (quest ∷ quests) like e (inl (same, s)) =
    inl (e ∙ ap quest_match same, (x.1, s, like))
Holds→IsMatchOf text x v (quest ∷ quests) like e (inr h) =
    inr (Holds→IsMatchOf text x v quests like e h)

judge-IsMatchOf :
    (text : Text) (quests : List QuestDefinition) (giver : QuestGiver) (confidence : F32)
    (evidence : DetectionEvidence) (xs : List Scored) {v : QuestMatch} {c : F32}
    {ev : DetectionEvidence}
    → AllHold text quests xs
    → judge giver confidence evidence xs ≡ found v c ev
    → IsMatchOf text v quests
unfolding judge
judge-IsMatchOf text quests giver confidence evidence [] h e = cc
judge-IsMatchOf text quests giver confidence evidence (x ∷ xs) {v} {c} {ev} h e =
    let (like, same) = judge-best giver confidence evidence x xs {v = v} {c = c} {ev = ev} e in
    Holds→IsMatchOf text x v quests like same h.0

judge_scored-IsMatchOf :
    (text : Text) (quests : List QuestDefinition) (giver : QuestGiver) (confidence : F32)
    (evidence : DetectionEvidence) (o : Option (List Scored)) {v : QuestMatch} {c : F32}
    {ev : DetectionEvidence}
    → score_all text quests ≡ o
    → judge_scored giver confidence evidence o ≡ some (found v c ev)
    → IsMatchOf text v quests
unfolding judge_scored
judge_scored-IsMatchOf text quests giver confidence evidence none e h = cc
judge_scored-IsMatchOf text quests giver confidence evidence (some xs) {v} {c} {ev} e h =
    let judged : judge giver confidence evidence (sort_scores xs) ≡ found v c ev = cc in
    judge-IsMatchOf text quests giver confidence evidence (sort_scores xs) {v = v} {c = c} {ev = ev}
      (sort_scores-AllHold text quests xs (score_all-AllHold text quests xs e)) judged

-- What a match needs of the confidence of the text, and of the catalog.
pub record IsRecognised (text : Text) (confidence : F32) (v : QuestMatch) (catalog : QuestCatalog)
    : Type 0 where
  pub finite : is_finite confidence ≡ true
  pub probable : in_range f_zero f_one confidence ≡ true
  pub confident : f_lt confidence minimum_action_confidence ≡ false
  pub some_text : is_empty text ≡ false
  pub short : length text ≤ 128
  pub matched : IsMatchOf text v catalog.quests

detect_in-guards :
    (giver : QuestGiver) (observed : Text) (confidence : F32) (evidence : DetectionEvidence)
    (catalog : QuestCatalog) {v : QuestMatch} {c : F32} {ev : DetectionEvidence}
    → detect_in giver observed confidence evidence (some catalog) ≡ some (found v c ev)
    → (is_finite confidence ≡ true)
      × (in_range f_zero f_one confidence ≡ true)
      × (f_lt confidence minimum_action_confidence ≡ false)
      × (is_empty (normalize_title observed) ≡ false)
      × (length (normalize_title observed) ≤ 128)
      × (judge_scored giver confidence evidence
            (score_all (normalize_title observed) catalog.quests)
          ≡ some (found v c ev))
unfolding detect_in
detect_in-guards giver observed confidence evidence catalog {v} {c} {ev} h = ground arith

detect_in-IsRecognised :
    (giver : QuestGiver) (observed : Text) (confidence : F32) (evidence : DetectionEvidence)
    (o : Option QuestCatalog) {v : QuestMatch} {c : F32} {ev : DetectionEvidence}
    → detect_in giver observed confidence evidence o ≡ some (found v c ev)
    → (catalog : QuestCatalog) × (o ≡ some catalog)
      × IsRecognised (normalize_title observed) confidence v catalog
unfolding detect_in
detect_in-IsRecognised giver observed confidence evidence none h = cc
detect_in-IsRecognised giver observed confidence evidence (some catalog) {v} {c} {ev} h =
    let (finite, probable, confident, some_text, short, judged) =
      detect_in-guards giver observed confidence evidence catalog {v = v} {c = c} {ev = ev} h in
    let text = normalize_title observed in
    (
      catalog,
      refl,
      record {
        finite = finite;
        probable = probable;
        confident = confident;
        some_text = some_text;
        short = short;
        matched =
            judge_scored-IsMatchOf text catalog.quests giver confidence evidence
              (score_all text catalog.quests) {v = v} {c = c} {ev = ev} refl judged;
      },
    )

-- When a title is found, the giver has a catalog, the confidence of the text is a number from 0.75 to
-- 1, the text keeps 1 to 128 characters, and the match carries the id, the number and the name of a
-- quest of that catalog whose name is at least 0.82 like the text.
pub detect_quest_title-IsRecognised :
    (catalogs : QuestGiver → Option QuestCatalog) (now : ℕ) (giver : QuestGiver) (observed : Text)
    (confidence : F32) (v : QuestMatch) (c : F32) (ev : DetectionEvidence)
    → detect_quest_title catalogs now giver observed confidence ≡ some (found v c ev)
    → (catalog : QuestCatalog) × (catalogs giver ≡ some catalog)
      × IsRecognised (normalize_title observed) confidence v catalog
unfolding detect_quest_title
detect_quest_title-IsRecognised catalogs now giver observed confidence v c ev h =
    detect_in-IsRecognised giver observed confidence
      (evidence_of (quest_title_detector_name giver) now []) (catalogs giver) {v = v} {c = c}
      {ev = ev} h
