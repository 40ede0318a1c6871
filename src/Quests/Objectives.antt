-- ===== src/Quests/Objectives.antt =====
-- The lines of dynamic quests, `parse_dynamic_objective` of crates/nectarpilot-core/src/quests.rs.
pub mod Read
use roblox.Prelude.{
  ℕ, ◌^◌, Bool, true, false, ◌||◌, ◌&&◌, not, Text, codes, text_eq, to_ascii_lowercase,
  is_ascii_alphanumeric, Option, none, some, List, [], ◌∷◌, ◌++◌, map, any, is_empty, length, ltb,
  leb, ◌==◌, if◌then◌else◌,
}
use roblox.Prelude.Words.{
  filter, split, split_whitespace, join_spaces, is_ascii_digit, parse_digits,
}
use roblox.Quests.{FieldId, PollenColor, red, blue, white, QuestObjective, pollen, goo, defeat}

abbrev pub objective_char : ℕ → ℕ
objective_char c = if is_ascii_alphanumeric c || c == b',' then to_ascii_lowercase c else b' '

unfoldable pub normalize_objective_text : Text → Text
normalize_objective_text line = join_spaces (split_whitespace (map objective_char line))

unfoldable pub parse_bounded_amount : Text → Option ℕ
parse_bounded_amount token =
    let digits = filter is_ascii_digit token in
    if is_empty digits || not (length digits == length (filter (λ c. not (c == b',')) token))
    then none
    else bounded (parse_digits 64 digits)
  where
    bounded : Option ℕ → Option ℕ
    bounded none = none
    bounded (some amount) = if leb 1 amount && leb amount 1000000000000 then some amount else none

-- A `match` on a string with one pattern in each arm.
unfoldable pub match_word : {A : Type 0} → Text → List (Text × A) → Option A
match_word s [] = none
match_word s ((pattern, a) ∷ arms) =
    let rest = match_word s arms in if text_eq s pattern then some a else rest

abbrev pub field_names : List (Text × FieldId)
field_names =
    (codes "sunflower", FieldId.sunflower)
    ∷ (codes "dandelion", FieldId.dandelion)
    ∷ (codes "mushroom", FieldId.mushroom)
    ∷ (codes "blue flower", FieldId.blue_flower)
    ∷ (codes "clover", FieldId.clover)
    ∷ (codes "spider", FieldId.spider)
    ∷ (codes "bamboo", FieldId.bamboo)
    ∷ (codes "strawberry", FieldId.strawberry)
    ∷ (codes "pineapple", FieldId.pineapple)
    ∷ (codes "pumpkin", FieldId.pumpkin)
    ∷ (codes "cactus", FieldId.cactus)
    ∷ (codes "rose", FieldId.rose)
    ∷ (codes "pine tree", FieldId.pine_tree)
    ∷ (codes "mountain top", FieldId.mountain_top)
    ∷ (codes "stump", FieldId.stump)
    ∷ (codes "ant", FieldId.ant)
    ∷ (codes "pepper", FieldId.pepper)
    ∷ (codes "coconut", FieldId.coconut)
    ∷ []

abbrev pub is_suffix_word : Text → Bool
is_suffix_word word = any (text_eq word) (codes "field" ∷ codes "patch" ∷ codes "forest" ∷ [])

unfoldable pub parse_field_name : List Text → Option FieldId
parse_field_name words =
    match_word (join_spaces (filter (λ word. not (is_suffix_word word)) words)) field_names

abbrev pub color_names : List (Text × PollenColor)
color_names = (codes "red", red) ∷ (codes "blue", blue) ∷ (codes "white", white) ∷ []

unfoldable pub parse_color : Text → Option PollenColor
parse_color word = match_word word color_names

-- `strip_suffix('s').unwrap_or(text)`
unfoldable pub singular : Text → Text
singular [] = []
singular (c ∷ []) = if c == b's' then [] else c ∷ []
singular (c ∷ d ∷ s) = c ∷ singular (d ∷ s)

-- `replace(' ', "_")`
abbrev pub underscored : Text → Text
underscored s = map (λ c. if c == b' ' then b'_' else c) s

abbrev pub mob_names : List Text
mob_names =
    codes "ladybug"
    ∷ codes "rhino beetle"
    ∷ codes "mantis"
    ∷ codes "mantise"
    ∷ codes "scorpion"
    ∷ codes "spider"
    ∷ codes "werewolf"
    ∷ codes "aphid"
    ∷ codes "mite"
    ∷ []

unfoldable pub parse_mob_name : Text → Option Text
parse_mob_name text =
    let one = singular text in if any (text_eq one) mob_names then some (underscored one) else none

-- `Option::map`
abbrev pub map_option : {A B : Type 0} → (A → B) → Option A → Option B
map_option f none = none
map_option f (some a) = some (f a)

abbrev pub in_field : (Option FieldId → QuestObjective) → List Text → Option QuestObjective
in_field make words = map_option (λ field. make (some field)) (parse_field_name words)

unfoldable pub parse_collect : ℕ → List Text → Option QuestObjective
parse_collect amount [] = none
parse_collect amount (word ∷ []) =
    if text_eq word (codes "pollen")
    then some (pollen amount none none)
    else if text_eq word (codes "goo")
    then some (goo amount none none)
    else none
parse_collect amount (color ∷ word ∷ []) =
    if text_eq word (codes "pollen")
    then map_option (λ c. pollen amount none (some c)) (parse_color color)
    else none
parse_collect amount (word ∷ second ∷ third ∷ field) =
    if text_eq second (codes "from") && text_eq third (codes "the")
    then if text_eq word (codes "pollen")
      then in_field (λ f. pollen amount f none) field
      else if text_eq word (codes "goo")
      then in_field (λ f. goo amount f none) field
      else none
    else none

-- The `match` on the first word.
unfoldable pub parse_rest : Text → List Text → ℕ → Option QuestObjective
parse_rest verb rest amount =
    if text_eq verb (codes "collect")
    then parse_collect amount rest
    else if text_eq verb (codes "defeat")
    then map_option (λ mob. defeat mob amount) (parse_mob_name (join_spaces rest))
    else none

unfoldable pub with_amount : Text → List Text → Option ℕ → Option QuestObjective
with_amount verb rest none = none
with_amount verb rest (some amount) = parse_rest verb rest amount

unfoldable pub parse_words : List Text → Option QuestObjective
parse_words (verb ∷ token ∷ rest) = with_amount verb rest (parse_bounded_amount token)
parse_words _ = none

unfoldable pub parse_dynamic_objective : Text → Option QuestObjective
parse_dynamic_objective line =
    let words = split (λ c. c == b' ') (normalize_objective_text line) in
    if ltb (length words) 3 || ltb 12 (length words) then none else parse_words words
