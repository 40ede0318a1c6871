-- ===== src/SessionPlan/Assets.antt =====
-- The allowlists of crates/nectarpilot-core/src/session.rs, which map the names of a profile to the
-- files of the bundled manifest.
use roblox.Prelude.{
  Bool, true, false, Text, codes, text_eq, to_ascii_lowercase, is_ascii_alphanumeric, Option, none,
  some, List, [], ◌∷◌, map, any, if◌then◌else◌,
}

-- `filter`
abbrev pub filter : {A : Type 0} → (A → Bool) → List A → List A
filter p [] = []
filter p (a ∷ l) = if p a then a ∷ filter p l else filter p l

-- `Option::is_some`
abbrev pub is_some : {A : Type 0} → Option A → Bool
is_some none = false
is_some (some a) = true

unfoldable pub asset_slug : Text → Text
asset_slug name = map to_ascii_lowercase (filter is_ascii_alphanumeric name)

-- A `match` on a string: every arm has its patterns and its value.
unfoldable pub match_text : {A : Type 0} → Text → List (List Text × A) → Option A
match_text s [] = none
match_text s ((patterns, a) ∷ arms) = if any (text_eq s) patterns then some a else match_text s arms

pub record ApprovedCollectRoute : Type 0 where
  pub file_name : Text
  pub runtime_key : Text

abbrev pub collect_arms : List (List Text × ApprovedCollectRoute)
collect_arms =
    (codes "clock" ∷ [], record { file_name = codes "gtc-clock.ahk"; runtime_key = codes "clock" })
    ∷ (
      codes "blueberrydis" ∷ codes "blueberrydispenser" ∷ [],
      record {
        file_name = codes "gtc-blueberrydis.ahk";
        runtime_key = codes "blueberry-dispenser";
      },
    )
    ∷ (
      codes "coconutdis" ∷ codes "coconutdispenser" ∷ [],
      record { file_name = codes "gtc-coconutdis.ahk"; runtime_key = codes "coconut-dispenser" },
    )
    ∷ (
      codes "gluedis" ∷ codes "gluedispenser" ∷ [],
      record { file_name = codes "gtc-gluedis.ahk"; runtime_key = codes "glue-dispenser" },
    )
    ∷ (
      codes "honeydis" ∷ codes "honeydispenser" ∷ [],
      record { file_name = codes "gtc-honeydis.ahk"; runtime_key = codes "honey-dispenser" },
    )
    ∷ (
      codes "royaljellydis" ∷ codes "royaljellydispenser" ∷ [],
      record {
        file_name = codes "gtc-royaljellydis.ahk";
        runtime_key = codes "royal-jelly-dispenser";
      },
    )
    ∷ (
      codes "strawberrydis" ∷ codes "strawberrydispenser" ∷ [],
      record {
        file_name = codes "gtc-strawberrydis.ahk";
        runtime_key = codes "strawberry-dispenser";
      },
    )
    ∷ (
      codes "treatdis" ∷ codes "treatdispenser" ∷ [],
      record { file_name = codes "gtc-treatdis.ahk"; runtime_key = codes "treat-dispenser" },
    )
    ∷ (
      codes "blue" ∷ codes "bluebooster" ∷ codes "bluefieldbooster" ∷ [],
      record { file_name = codes "gtb-blue.ahk"; runtime_key = codes "blue-booster" },
    )
    ∷ (
      codes "red" ∷ codes "redbooster" ∷ codes "redfieldbooster" ∷ [],
      record { file_name = codes "gtb-red.ahk"; runtime_key = codes "red-booster" },
    )
    ∷ (
      codes "mountain" ∷ codes "mountainbooster" ∷ codes "mountaintopbooster" ∷ [],
      record { file_name = codes "gtb-mountain.ahk"; runtime_key = codes "mountain-booster" },
    )
    ∷ []

unfoldable pub collect_route : Text → Option ApprovedCollectRoute
collect_route target = match_text (asset_slug target) collect_arms

abbrev pub field_arms : List (List Text × Text)
field_arms =
    (codes "bamboo" ∷ codes "bamboofield" ∷ [], codes "gtf-bamboo.ahk")
    ∷ (codes "blueflower" ∷ codes "blueflowerfield" ∷ [], codes "gtf-blueflower.ahk")
    ∷ (codes "cactus" ∷ codes "cactusfield" ∷ [], codes "gtf-cactus.ahk")
    ∷ (codes "clover" ∷ codes "cloverfield" ∷ [], codes "gtf-clover.ahk")
    ∷ (codes "coconut" ∷ codes "coconutfield" ∷ [], codes "gtf-coconut.ahk")
    ∷ (codes "dandelion" ∷ codes "dandelionfield" ∷ [], codes "gtf-dandelion.ahk")
    ∷ (codes "mountaintop" ∷ codes "mountaintopfield" ∷ [], codes "gtf-mountaintop.ahk")
    ∷ (codes "mushroom" ∷ codes "mushroomfield" ∷ [], codes "gtf-mushroom.ahk")
    ∷ (codes "pepper" ∷ codes "pepperpatch" ∷ codes "pepperfield" ∷ [], codes "gtf-pepper.ahk")
    ∷ (
      codes "pineapple" ∷ codes "pineapplepatch" ∷ codes "pineapplefield" ∷ [],
      codes "gtf-pineapple.ahk",
    )
    ∷ (
      codes "pinetree" ∷ codes "pinetreeforest" ∷ codes "pineforest" ∷ [],
      codes "gtf-pinetree.ahk",
    )
    ∷ (codes "pumpkin" ∷ codes "pumpkinpatch" ∷ codes "pumpkinfield" ∷ [], codes "gtf-pumpkin.ahk")
    ∷ (codes "rose" ∷ codes "rosefield" ∷ [], codes "gtf-rose.ahk")
    ∷ (codes "spider" ∷ codes "spiderfield" ∷ [], codes "gtf-spider.ahk")
    ∷ (codes "strawberry" ∷ codes "strawberryfield" ∷ [], codes "gtf-strawberry.ahk")
    ∷ (codes "stump" ∷ codes "stumpfield" ∷ [], codes "gtf-stump.ahk")
    ∷ (codes "sunflower" ∷ codes "sunflowerfield" ∷ [], codes "gtf-sunflower.ahk")
    ∷ []

unfoldable pub field_route : Text → Option Text
field_route field = match_text (asset_slug field) field_arms

unfoldable pub is_supported_legacy_field : Text → Bool
is_supported_legacy_field field = is_some (field_route field)

abbrev pub pattern_arms : List (List Text × Text)
pattern_arms =
    (codes "auryn" ∷ [], codes "Auryn")
    ∷ (codes "cornerxsnake" ∷ [], codes "CornerXSnake")
    ∷ (codes "diamonds" ∷ [], codes "Diamonds")
    ∷ (codes "elol" ∷ [], codes "e_lol")
    ∷ (codes "fork" ∷ [], codes "Fork")
    ∷ (codes "lines" ∷ [], codes "Lines")
    ∷ (codes "slimline" ∷ [], codes "Slimline")
    ∷ (codes "snake" ∷ [], codes "Snake")
    ∷ (codes "squares" ∷ [], codes "Squares")
    ∷ (codes "supercat" ∷ [], codes "SuperCat")
    ∷ (codes "xsnake" ∷ [], codes "XSnake")
    ∷ []

unfoldable pub pattern_file_name : Text → Option Text
pattern_file_name name = match_text (asset_slug name) pattern_arms

unfoldable pub is_supported_legacy_pattern : Text → Bool
is_supported_legacy_pattern pattern = is_some (pattern_file_name pattern)
