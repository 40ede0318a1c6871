-- ===== src/Platform/Hotkeys.antt =====
-- Global hotkeys, crates/nectarpilot-platform/src/hotkeys.rs.
pub mod Chords
use roblox.Prelude.{
  ℕ, ◌+◌, ◌/◌, ◌%◌, ◌^◌, Bool, true, false, ◌&&◌, ◌||◌, not, Text, codes, text_eq, Option, none,
  some, List, [], ◌∷◌, all, is_empty, leb, ltb, ◌==◌, if◌then◌else◌,
}
use roblox.Prelude.Words.{split, trim, text_lowercase, is_ascii_digit, parse_digits}

pub data HotkeyAction : Type 0 where
  start pause_resume stop emergency_stop : HotkeyAction

pub record HotkeyChord : Type 0 where
  pub modifiers : ℕ
  pub virtual_key : ℕ

abbrev pub mod_alt : ℕ
mod_alt = 0x1

abbrev pub mod_control : ℕ
mod_control = 0x2

abbrev pub mod_shift : ℕ
mod_shift = 0x4

abbrev pub mod_win : ℕ
mod_win = 0x8

-- `|` with one of the four bits.
abbrev pub with_bit : ℕ → ℕ → ℕ
with_bit bit modifiers = if modifiers / bit % 2 == 1 then modifiers else modifiers + bit

-- `parse::<u32>` of a text without a sign.
abbrev pub parse_u32 : Text → Option ℕ
parse_u32 text = if all is_ascii_digit text then parse_digits 32 text else none

-- The modifiers and the key of the parts so far.
pub record Chord : Type 0 where
  pub modifiers : ℕ
  pub virtual_key : Option ℕ

abbrev pub is_none : Option ℕ → Bool
is_none none = true
is_none (some n) = false

unfoldable pub add_key : Chord → Option ℕ → Option Chord
add_key chord none = none
add_key chord (some number) =
    if not (leb 1 number && leb number 24) || not (is_none chord.virtual_key)
    then none
    else some (record chord { virtual_key = some (0x6F + number) })

-- `strip_prefix('f')`, and then the number.
abbrev pub function_number : Text → Option ℕ
function_number [] = none
function_number (c ∷ rest) = if c == b'f' then parse_u32 rest else none

-- One part, in lower case.
unfoldable pub add_part : Chord → Text → Option Chord
add_part chord part =
    if text_eq part (codes "ctrl") || text_eq part (codes "control")
    then some (record chord { modifiers = with_bit mod_control chord.modifiers })
    else if text_eq part (codes "shift")
    then some (record chord { modifiers = with_bit mod_shift chord.modifiers })
    else if text_eq part (codes "alt")
    then some (record chord { modifiers = with_bit mod_alt chord.modifiers })
    else if text_eq part (codes "win") || text_eq part (codes "super")
    then some (record chord { modifiers = with_bit mod_win chord.modifiers })
    else add_key chord (function_number part)

unfoldable pub add_parts : Option Chord → List Text → Option Chord
add_parts none parts = none
add_parts (some chord) [] = some chord
add_parts (some chord) (part ∷ parts) =
    add_parts (add_part chord (text_lowercase (trim part))) parts

-- `virtual_key?`
abbrev pub with_key : ℕ → Option ℕ → Option HotkeyChord
with_key modifiers none = none
with_key modifiers (some key) = some (record { modifiers = modifiers; virtual_key = key })

unfoldable pub finish_chord : Option Chord → Option HotkeyChord
finish_chord none = none
finish_chord (some chord) = with_key chord.modifiers chord.virtual_key

unfoldable pub parse_hotkey : Text → Option HotkeyChord
parse_hotkey text =
    finish_chord (
      add_parts (some (record { modifiers = 0; virtual_key = none })) (split (λ c. c == b'+') text))
