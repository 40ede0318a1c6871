-- ===== src/Quests/Consensus.antt =====
-- `QuestTitleConsensus` of crates/nectarpilot-core/src/quests.rs: the agreement of the last three
-- frames that were matched.
use roblox.Prelude.{
  ℕ, ◌≤◌, ◌≡◌, refl, sym, ap, subst, ◌∙◌, min, codes, decimal, text_eq, List, [], ◌∷◌, ◌++◌, length,
  length-append, ltb, if◌then◌else◌, F32, f_zero, f_add, f_over, arith,
}
use roblox.Prelude.Words.{filter}
use roblox.Contracts.Detection.{DetectionEvidence, Detection, found, not_found, uncertain, error}
use roblox.Quests.Titles.{QuestMatch, evidence_of}

abbrev pub Observation : Type 0
Observation = QuestMatch × F32

-- `while self.observations.len() > 3 { self.observations.pop_front(); }`
unfoldable pub keep_three : List Observation → List Observation
keep_three [] = []
keep_three (x ∷ xs) = let rest = keep_three xs in if ltb 3 (length (x ∷ xs)) then rest else x ∷ xs

abbrev pub agreeing : QuestMatch → List Observation → List Observation
agreeing value observations = filter (λ seen. text_eq seen.0.id value.id) observations

-- `.sum::<f32>()`
abbrev pub sum_from : F32 → List Observation → F32
sum_from total [] = total
sum_from total ((value, confidence) ∷ rest) = sum_from (f_add total confidence) rest

unfoldable pub conclude : ℕ → QuestMatch → List Observation → Detection QuestMatch
conclude now value observations =
    let agree = agreeing value observations in
    let evidence = evidence_of (codes "science_bear_quest_title_consensus") now (
      (decimal (length agree)
        ++ codes " of "
        ++ decimal (length observations)
        ++ codes " recent frames agree")
      ∷ []) in
    if ltb (length agree) 2
    then uncertain (codes "waiting for a second agreeing quest-title frame") evidence
    else found value (f_over (sum_from f_zero agree) (length agree)) evidence

-- `observe`, from the detector's answer on: what it answers, and the observations it leaves.
unfoldable pub observe :
    ℕ → Detection QuestMatch → List Observation → Detection QuestMatch × List Observation
observe now (found value confidence evidence) observations =
    let kept = keep_three (observations ++ (value, confidence) ∷ []) in
    (conclude now value kept, kept)
observe now raw observations = (raw, observations)

-- A run of frames, each with the clock's reading.
abbrev pub observe_all : List (ℕ × Detection QuestMatch) → List Observation → List Observation
observe_all [] observations = observations
observe_all ((now, raw) ∷ frames) observations = observe_all frames (observe now raw observations).1

-- What a frame adds to the matches.
abbrev pub match_of : Detection QuestMatch → List Observation
match_of (found value confidence evidence) = (value, confidence) ∷ []
match_of _ = []

-- The matches among the frames.
abbrev pub matches : List (ℕ × Detection QuestMatch) → List Observation
matches [] = []
matches ((now, raw) ∷ frames) = match_of raw ++ matches frames

-- The last three of a list, or all of a shorter one.
pub record IsLastThree (window all : List Observation) : Type 0 where
  pub older : List Observation
  pub split : all ≡ older ++ window
  pub measured : length window ≡ min 3 (length all)

append_assoc : {A : Type 0} (k l r : List A) → (k ++ l) ++ r ≡ k ++ (l ++ r)
append_assoc [] l r = refl
append_assoc (a ∷ k) l r = ap (λ u. a ∷ u) (append_assoc k l r)

append_nil : {A : Type 0} (l : List A) → l ++ [] ≡ l
append_nil [] = refl
append_nil (a ∷ l) = ap (λ u. a ∷ u) (append_nil l)

one_more :
    (x : Observation) (older window all : List Observation)
    → all ≡ older ++ window
    → all ++ x ∷ [] ≡ older ++ (window ++ x ∷ [])
one_more x older window all e = ap (λ u. u ++ x ∷ []) e ∙ append_assoc older window (x ∷ [])

IsLastThree-push :
    (x : Observation) (window all : List Observation)
    → IsLastThree window all
    → IsLastThree (keep_three (window ++ x ∷ [])) (all ++ x ∷ [])
unfolding keep_three
IsLastThree-push x [] all h =
    let l = length-append all (x ∷ []) in
    record {
      older = h.older;
      split = one_more x h.older [] all h.split;
      measured = ground (arith, h.measured);
    }
IsLastThree-push x (a ∷ []) all h =
    let l = length-append all (x ∷ []) in
    record {
      older = h.older;
      split = one_more x h.older (a ∷ []) all h.split;
      measured = ground (arith, h.measured);
    }
IsLastThree-push x (a ∷ b ∷ []) all h =
    let l = length-append all (x ∷ []) in
    record {
      older = h.older;
      split = one_more x h.older (a ∷ b ∷ []) all h.split;
      measured = ground (arith, h.measured);
    }
IsLastThree-push x (a ∷ b ∷ c ∷ []) all h =
    let l = length-append all (x ∷ []) in
    record {
      older = h.older ++ a ∷ [];
      split =
          one_more x h.older (a ∷ b ∷ c ∷ []) all h.split
          ∙ sym (append_assoc h.older (a ∷ []) (b ∷ c ∷ x ∷ []));
      measured = ground (arith, h.measured);
    }
IsLastThree-push x (a ∷ b ∷ c ∷ d ∷ w) all h = let m = h.measured in ground arith

observe-IsLastThree :
    (now : ℕ) (raw : Detection QuestMatch) (window all : List Observation)
    → IsLastThree window all
    → IsLastThree (observe now raw window).1 (all ++ match_of raw)
unfolding observe
observe-IsLastThree now (found v c e) window all h = IsLastThree-push (v, c) window all h
observe-IsLastThree now (not_found e) window all h =
    subst (IsLastThree window) (sym (append_nil all)) h
observe-IsLastThree now (uncertain r e) window all h =
    subst (IsLastThree window) (sym (append_nil all)) h
observe-IsLastThree now (error k m e) window all h =
    subst (IsLastThree window) (sym (append_nil all)) h

observe_all-IsLastThree :
    (frames : List (ℕ × Detection QuestMatch)) (window all : List Observation)
    → IsLastThree window all
    → IsLastThree (observe_all frames window) (all ++ matches frames)
observe_all-IsLastThree [] window all h = subst (IsLastThree window) (sym (append_nil all)) h
observe_all-IsLastThree ((now, raw) ∷ frames) window all h =
    subst (IsLastThree (observe_all frames (observe now raw window).1))
      (append_assoc all (match_of raw) (matches frames))
      (observe_all-IsLastThree frames (observe now raw window).1 (all ++ match_of raw)
        (observe-IsLastThree now raw window all h))

conclude-agreeing :
    (now : ℕ) (value : QuestMatch) (window : List Observation) {v : QuestMatch} {c : F32}
    {e : DetectionEvidence}
    → conclude now value window ≡ found v c e
    → 2 ≤ length (agreeing value window)
unfolding conclude
conclude-agreeing now value window {v} {c} {e} h = ground arith

conclude-value :
    (now : ℕ) (value : QuestMatch) (window : List Observation) {v : QuestMatch} {c : F32}
    {e : DetectionEvidence}
    → conclude now value window ≡ found v c e
    → value ≡ v
unfolding conclude
conclude-value now value window {v} {c} {e} h = ground arith

-- After any frames, when the next frame is answered by a match, then the observations are the last
-- three matches among the frames and it, or all of them while there are fewer, and at least two of
-- them have the id of the answer.
pub observe-agreement :
    (frames : List (ℕ × Detection QuestMatch)) (now : ℕ) (raw : Detection QuestMatch)
    (v : QuestMatch) (c : F32) (e : DetectionEvidence)
    → (observe now raw (observe_all frames [])).0 ≡ found v c e
    → IsLastThree (observe now raw (observe_all frames [])).1 (matches frames ++ match_of raw)
      × (2 ≤ length (agreeing v (observe now raw (observe_all frames [])).1))
unfolding observe
observe-agreement frames now (found value confidence evidence) v c e h =
    let window = observe_all frames [] in
    let kept = keep_three (window ++ (value, confidence) ∷ []) in
    let last =
      observe_all-IsLastThree frames [] [] (record { older = []; split = refl; measured = refl }) in
    (
      IsLastThree-push (value, confidence) window (matches frames) last,
      subst (λ u. 2 ≤ length (agreeing u kept))
          (conclude-value now value kept {v = v} {c = c} {e = e} h)
          (conclude-agreeing now value kept {v = v} {c = c} {e = e} h),
    )
observe-agreement frames now (not_found _) v c e h = cc
observe-agreement frames now (uncertain _ _) v c e h = cc
observe-agreement frames now (error _ _ _) v c e h = cc
