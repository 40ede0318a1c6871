-- ===== src/Quests/Objectives/Read.antt =====
-- What a line of a dynamic quest is read as, crates/nectarpilot-core/src/quests.rs.
use roblox.Prelude.{
  ℕ, ◌≤◌, ◌≡◌, refl, ap, Bool-cases, ◌⊎◌, inl, inr, Bool, true, false, ◌||◌, ◌&&◌, not, Text, codes,
  text_eq, is_blank, utf8_len, text_eq→eq, subst, sym, Option, none, some, List, [], ◌∷◌, any,
  length, ok, ltb, ◌==◌, if◌then◌else◌, arith,
}
use roblox.Prelude.Words.{split, join_spaces}
use roblox.Quests.{
  QuestObjective, pollen, goo, defeat, target, objective_label, bad_label, validate_objective,
}
use roblox.Quests.Objectives.{
  parse_bounded_amount, parse_field_name, parse_color, singular, underscored, mob_names,
  parse_mob_name, map_option, in_field, parse_collect, parse_rest, with_amount, parse_words,
  normalize_objective_text, parse_dynamic_objective,
}

-- An amount from one to a trillion.
abbrev pub IsAmount : ℕ → Type 0
IsAmount n = (1 ≤ n) × (n ≤ 1000000000000)

-- One of the mobs with its spaces as underscores.
abbrev pub IsMob : Text → List Text → Type 0
IsMob mob [] = ⊥
IsMob mob (name ∷ names) = (mob ≡ underscored name) ⊎ IsMob mob names

-- Pollen anywhere, of a field or of a colour, goo anywhere or of a field, or a known mob.
abbrev pub IsRead : QuestObjective → Type 0
IsRead (pollen n field color) = IsAmount n × ((field ≡ none) ⊎ (color ≡ none))
IsRead (goo n field color) = IsAmount n × (color ≡ none)
IsRead (defeat mob n) = IsAmount n × IsMob mob mob_names
IsRead _ = ⊥

parse_bounded_amount-IsAmount : (t : Text) {n : ℕ} → parse_bounded_amount t ≡ some n → IsAmount n
unfolding parse_bounded_amount
parse_bounded_amount-IsAmount t {n} h = ground arith

any-IsMob :
    (one : Text) (names : List Text)
    → any (text_eq one) names ≡ true
    → IsMob (underscored one) names
any-IsMob one [] h = cc
any-IsMob one (name ∷ names) h = elim (Bool-cases (text_eq one name)) [
  | inl e ↦ inl (ap underscored (text_eq→eq one name e))
  | inr e ↦ inr (any-IsMob one names (ground arith))
]

-- What a text may be read as.
abbrev MayRead : Option QuestObjective → Type 0
MayRead none = Unit
MayRead (some o) = IsRead o

either-MayRead :
    (b : Bool) (x y : Option QuestObjective) → MayRead x → MayRead y → MayRead (if b then x else y)
either-MayRead true x y hx hy = hx
either-MayRead false x y hx hy = hy

map-MayRead :
    {A : Type 0} (f : A → QuestObjective) (o : Option A)
    → ((a : A) → IsRead (f a))
    → MayRead (map_option f o)
map-MayRead f none h = tt
map-MayRead f (some a) h = h a

parse_collect-MayRead : (n : ℕ) (words : List Text) → IsAmount n → MayRead (parse_collect n words)
unfolding parse_collect
parse_collect-MayRead n [] b = tt
parse_collect-MayRead n (w ∷ []) b =
    either-MayRead (text_eq w (codes "pollen")) (some (pollen n none none))
      (if text_eq w (codes "goo") then some (goo n none none) else none) (b, inl refl)
      (either-MayRead (text_eq w (codes "goo")) (some (goo n none none)) none (b, refl) tt)
parse_collect-MayRead n (w ∷ v ∷ []) b =
    either-MayRead (text_eq v (codes "pollen"))
      (map_option (λ c. pollen n none (some c)) (parse_color w)) none
      (map-MayRead (λ c. pollen n none (some c)) (parse_color w) (λ c. (b, inl refl))) tt
parse_collect-MayRead n (w ∷ v ∷ u ∷ field) b =
    let p = in_field (λ f. pollen n f none) field in
    let g = in_field (λ f. goo n f none) field in
    let rest = if text_eq w (codes "goo") then g else none in
    either-MayRead (text_eq v (codes "from") && text_eq u (codes "the"))
      (if text_eq w (codes "pollen") then p else rest) none
      (either-MayRead (text_eq w (codes "pollen")) p rest
        (map-MayRead (λ f. pollen n (some f) none) (parse_field_name field) (λ f. (b, inr refl)))
        (either-MayRead (text_eq w (codes "goo")) g none
          (map-MayRead (λ f. goo n (some f) none) (parse_field_name field) (λ f. (b, refl))) tt))
      tt

known-MayRead :
    (n : ℕ) (one : Text) (known : Bool)
    → any (text_eq one) mob_names ≡ known
    → IsAmount n
    → MayRead (map_option (λ mob. defeat mob n) (if known then some (underscored one) else none))
known-MayRead n one true e b = (b, any-IsMob one mob_names e)
known-MayRead n one false e b = tt

parse_mob_name-MayRead :
    (n : ℕ) (t : Text) → IsAmount n → MayRead (map_option (λ mob. defeat mob n) (parse_mob_name t))
unfolding parse_mob_name
parse_mob_name-MayRead n t b =
    known-MayRead n (singular t) (any (text_eq (singular t)) mob_names) refl b

parse_rest-MayRead :
    (verb : Text) (rest : List Text) (n : ℕ) → IsAmount n → MayRead (parse_rest verb rest n)
unfolding parse_rest
parse_rest-MayRead verb rest n b =
    let mob = map_option (λ mob. defeat mob n) (parse_mob_name (join_spaces rest)) in
    either-MayRead (text_eq verb (codes "collect")) (parse_collect n rest)
      (if text_eq verb (codes "defeat") then mob else none) (parse_collect-MayRead n rest b)
      (either-MayRead (text_eq verb (codes "defeat")) mob none
        (parse_mob_name-MayRead n (join_spaces rest) b) tt)

with_amount-MayRead :
    (verb token : Text) (rest : List Text) (o : Option ℕ)
    → parse_bounded_amount token ≡ o
    → MayRead (with_amount verb rest o)
unfolding with_amount
with_amount-MayRead verb token rest none e = tt
with_amount-MayRead verb token rest (some n) e =
    parse_rest-MayRead verb rest n (parse_bounded_amount-IsAmount token e)

parse_words-MayRead : (words : List Text) → MayRead (parse_words words)
unfolding parse_words
parse_words-MayRead (verb ∷ token ∷ rest) =
    with_amount-MayRead verb token rest (parse_bounded_amount token) refl
parse_words-MayRead (verb ∷ []) = tt
parse_words-MayRead [] = tt

-- Every name of a list is a sound label once underscored.
abbrev all_sound : List Text → Bool
all_sound [] = true
all_sound (name ∷ names) = not (bad_label (some (underscored name))) && all_sound names

mob_sound :
    (mob : Text) (names : List Text)
    → all_sound names ≡ true
    → IsMob mob names
    → bad_label (some mob) ≡ false
mob_sound mob [] h m = elim m [ ]
mob_sound mob (name ∷ names) h (inl e) =
    subst (λ t. bad_label (some t) ≡ false) (sym e) (ground arith)
mob_sound mob (name ∷ names) h (inr m) = mob_sound mob names (ground arith) m

mob-IsLabel : (mob : Text) → IsMob mob mob_names → bad_label (some mob) ≡ false
unfolding is_blank utf8_len
mob-IsLabel mob h = mob_sound mob mob_names refl h

IsRead-validated : (o : QuestObjective) → IsRead o → validate_objective o ≡ ok tt
unfolding validate_objective target objective_label
IsRead-validated (pollen n f c) h = ground arith
IsRead-validated (goo n f c) h = ground arith
IsRead-validated (defeat mob n) h = ground (arith, mob-IsLabel mob h.1)
IsRead-validated (QuestObjective.token t n) h = elim h [ ]
IsRead-validated (QuestObjective.discover_bee_types n) h = elim h [ ]
IsRead-validated (QuestObjective.earn_badge t n) h = elim h [ ]
IsRead-validated (QuestObjective.craft t n) h = elim h [ ]
IsRead-validated (QuestObjective.use_item t n) h = elim h [ ]
IsRead-validated (QuestObjective.feed_item t n) h = elim h [ ]
IsRead-validated (QuestObjective.use_machine t n) h = elim h [ ]
IsRead-validated (QuestObjective.obtain_bee t) h = elim h [ ]
IsRead-validated (QuestObjective.complete_quest t n) h = elim h [ ]

-- Whatever a line is read as has an amount from one to a trillion and is pollen anywhere, of a field
-- or of a colour, goo anywhere or of a field, or the defeat of one of the listed mobs; and it passes
-- the catalog's own check of an objective.
pub parse_dynamic_objective-IsRead :
    (line : Text) (o : QuestObjective)
    → parse_dynamic_objective line ≡ some o
    → IsRead o × (validate_objective o ≡ ok tt)
unfolding parse_dynamic_objective
parse_dynamic_objective-IsRead line o h =
    let words = split (λ c. c == b' ') (normalize_objective_text line) in
    let read = subst MayRead h (
      either-MayRead (ltb (length words) 3 || ltb 12 (length words)) none (parse_words words) tt
        (parse_words-MayRead words)) in
    (read, IsRead-validated o read)
