-- ===== src/Platform/Hotkeys/Chords.antt =====
-- Which chords crates/nectarpilot-platform/src/hotkeys.rs binds.
use roblox.Prelude.{
  ℕ, zero, suc, ◌+◌, ◌/◌, ◌%◌, ◌≤◌, ◌<◌, ◌≡◌, refl, sym, subst, Bool-cases, inl, inr, ◌-◌, Bool,
  true, false, ◌&&◌, ◌||◌, not, Text, codes, decimal, text_eq, Option, none, some, List, [], ◌∷◌,
  ◌++◌, is_whitespace, to_ascii_lowercase, leb, ◌==◌, if◌then◌else◌, arith,
}
use roblox.Prelude.Words.{
  split, trim, text_lowercase, parse_digits, number_from, trim_start, trim_end,
}
use roblox.Platform.Hotkeys.{
  HotkeyChord, Chord, is_none, with_bit, function_number, add_key, add_part, add_parts, with_key,
  finish_chord, parse_hotkey,
}

-- The key is one of F1 to F24, if there is one, and the modifiers are four bits.
abbrev IsKey : Option ℕ → Type 0
IsKey none = Unit
IsKey (some key) = (0x70 ≤ key) × (key ≤ 0x87)

abbrev IsChord : Option Chord → Type 0
IsChord none = Unit
IsChord (some chord) = (chord.modifiers < 16) × IsKey chord.virtual_key

either-IsChord :
    (b : Bool) (x y : Option Chord) → IsChord x → IsChord y → IsChord (if b then x else y)
either-IsChord true x y hx hy = hx
either-IsChord false x y hx hy = hy

numbered :
    (chord : Chord) (n : ℕ) (b : Bool)
    → (not (leb 1 n && leb n 24) || not (is_none chord.virtual_key)) ≡ b
    → IsChord (some chord)
    → IsChord (if b then none else some (record chord { virtual_key = some (0x6F + n) }))
numbered chord n true e h = tt
numbered chord n false e h = (h.0, ground arith)

add_key-IsChord : (chord : Chord) (o : Option ℕ) → IsChord (some chord) → IsChord (add_key chord o)
unfolding add_key
add_key-IsChord chord none h = tt
add_key-IsChord chord (some n) h =
    let b = not (leb 1 n && leb n 24) || not (is_none chord.virtual_key) in
    numbered chord n b refl h

with_bit-alt : (m : ℕ) → m < 16 → with_bit 1 m < 16
with_bit-alt m h = ground arith

with_bit-control : (m : ℕ) → m < 16 → with_bit 2 m < 16
with_bit-control m h = ground arith

with_bit-shift : (m : ℕ) → m < 16 → with_bit 4 m < 16
with_bit-shift m h = ground arith

with_bit-win : (m : ℕ) → m < 16 → with_bit 8 m < 16
with_bit-win m h = ground arith

add_part-IsChord :
    (chord : Chord) (part : Text) → IsChord (some chord) → IsChord (add_part chord part)
unfolding add_part
add_part-IsChord chord part h =
    let set : ℕ → Option Chord =
      λ bit. some (record chord { modifiers = with_bit bit chord.modifiers }) in
    let keyed = add_key chord (function_number part) in
    let is_win = text_eq part (codes "win") || text_eq part (codes "super") in
    let windows = if is_win then set 8 else keyed in
    let alt = if text_eq part (codes "alt") then set 1 else windows in
    let shift = if text_eq part (codes "shift") then set 4 else alt in
    either-IsChord (text_eq part (codes "ctrl") || text_eq part (codes "control")) (set 2) shift
      (with_bit-control chord.modifiers h.0, h.1)
      (either-IsChord (text_eq part (codes "shift")) (set 4) alt
        (with_bit-shift chord.modifiers h.0, h.1)
        (either-IsChord (text_eq part (codes "alt")) (set 1) windows
          (with_bit-alt chord.modifiers h.0, h.1)
          (either-IsChord is_win (set 8) keyed (with_bit-win chord.modifiers h.0, h.1)
            (add_key-IsChord chord (function_number part) h))))

add_parts-IsChord : (o : Option Chord) (parts : List Text) → IsChord o → IsChord (add_parts o parts)
unfolding add_parts
add_parts-IsChord none parts h = tt
add_parts-IsChord (some chord) [] h = h
add_parts-IsChord (some chord) (part ∷ parts) h =
    add_parts-IsChord (add_part chord (text_lowercase (trim part))) parts
      (add_part-IsChord chord (text_lowercase (trim part)) h)

with_key-bounds :
    (modifiers : ℕ) (o : Option ℕ) {chord : HotkeyChord}
    → modifiers < 16
    → IsKey o
    → with_key modifiers o ≡ some chord
    → (chord.modifiers < 16) × (0x70 ≤ chord.virtual_key) × (chord.virtual_key ≤ 0x87)
with_key-bounds modifiers none h k e = cc
with_key-bounds modifiers (some key) {chord} h k e = ground arith

finish_chord-bounds :
    (o : Option Chord) {chord : HotkeyChord}
    → IsChord o
    → finish_chord o ≡ some chord
    → (chord.modifiers < 16) × (0x70 ≤ chord.virtual_key) × (chord.virtual_key ≤ 0x87)
unfolding finish_chord
finish_chord-bounds none h e = cc
finish_chord-bounds (some c) {chord} h e =
    with_key-bounds c.modifiers c.virtual_key {chord = chord} h.0 h.1 e

-- Whatever text a profile has, a hotkey that is read from it has a function key from F1 to F24 and
-- no modifier besides Alt, Ctrl, Shift and Win.
pub parse_hotkey-bounds :
    (text : Text) (chord : HotkeyChord)
    → parse_hotkey text ≡ some chord
    → (chord.modifiers < 16) × (0x70 ≤ chord.virtual_key) × (chord.virtual_key ≤ 0x87)
unfolding parse_hotkey
parse_hotkey-bounds text chord h =
    let parts = split (λ c. c == b'+') text in
    let start = some (record { modifiers = 0; virtual_key = none }) in
    finish_chord-bounds (add_parts start parts) {chord = chord}
      (add_parts-IsChord start parts (omega arith, tt)) h

-- The name of a chord: its modifiers, and then its key.
abbrev pub chord_text : HotkeyChord → Text
chord_text chord =
    prefix 2 (codes "Ctrl+") chord.modifiers
    ++ prefix 4 (codes "Shift+") chord.modifiers
    ++ prefix 1 (codes "Alt+") chord.modifiers
    ++ prefix 8 (codes "Win+") chord.modifiers
    ++ b'F' ∷ decimal (chord.virtual_key - 0x6F)
  where
    prefix : ℕ → Text → ℕ → Text
    prefix bit name modifiers = if modifiers / bit % 2 == 1 then name else []

-- A property of every number below a bound, tested at each.
abbrev all_below : (ℕ → Bool) → ℕ → Bool
all_below p zero = true
all_below p (suc n) = p n && all_below p n

eq_sound : (i n : ℕ) → (i == n) ≡ true → i ≡ n
eq_sound i n e = ground arith

all_below_sound : (p : ℕ → Bool) (n i : ℕ) → all_below p n ≡ true → i < n → p i ≡ true
all_below_sound p zero i h l = ground arith
all_below_sound p (suc n) i h l = elim (Bool-cases (i == n)) [
  | inl e ↦ subst (λ k. p k ≡ true) (sym (eq_sound i n e)) (ground arith)
  | inr e ↦ all_below_sound p n i (ground arith) (ground arith)
]

abbrev is_chord : Option HotkeyChord → ℕ → ℕ → Bool
is_chord none modifiers key = false
is_chord (some chord) modifiers key = chord.modifiers == modifiers && chord.virtual_key == key

abbrev reads_back : ℕ → ℕ → Bool
reads_back modifiers number =
    is_chord
      (parse_hotkey (chord_text (record { modifiers = modifiers; virtual_key = 0x70 + number })))
      modifiers (0x70 + number)

all_read_back : all_below (λ m. all_below (reads_back m) 24) 16 ≡ true
unfolding parse_hotkey finish_chord add_parts add_part add_key text_eq split trim trim_start
    trim_end text_lowercase to_ascii_lowercase parse_digits number_from is_whitespace decimal
all_read_back = refl

is_chord_sound :
    (o : Option HotkeyChord) (m k : ℕ)
    → is_chord o m k ≡ true
    → o ≡ some (record { modifiers = m; virtual_key = k })
is_chord_sound none m k h = cc
is_chord_sound (some chord) m k h =
    let same : chord.modifiers ≡ m = ground arith in
    let key : chord.virtual_key ≡ k = ground arith in cc

-- Every chord of a function key from F1 to F24, with any of the four modifiers, is read back from its
-- name.
pub parse_hotkey-chord_text :
    (chord : HotkeyChord)
    → chord.modifiers < 16
    → 0x70 ≤ chord.virtual_key
    → chord.virtual_key ≤ 0x87
    → parse_hotkey (chord_text chord) ≡ some chord
parse_hotkey-chord_text chord few low high =
    let m = chord.modifiers in
    let n = chord.virtual_key - 0x70 in
    let all_keys = all_below_sound (λ i. all_below (reads_back i) 24) 16 m all_read_back few in
    let back = all_below_sound (reads_back m) 24 n all_keys (omega arith) in
    let numbered : HotkeyChord = record { modifiers = m; virtual_key = 0x70 + n } in
    let same : 0x70 + n ≡ chord.virtual_key = omega arith in
    let whole : numbered ≡ chord = cc in
    subst (λ c. parse_hotkey (chord_text c) ≡ some c) whole
      (is_chord_sound (parse_hotkey (chord_text numbered)) m (0x70 + n) back)
