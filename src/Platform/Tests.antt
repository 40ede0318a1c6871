-- ===== src/Platform/Tests.antt =====
-- Concrete evidence and hotkeys for the theorems about crates/nectarpilot-platform/src/freeze.rs and
-- hotkeys.rs.
use roblox.Prelude.{
  ◌*◌, ◌≤◌, ◌<◌, ◌≡◌, refl, ◌↔◌, ◌⊎◌, codes, some, [], ◌∷◌, length, arith, text_eq,
  to_ascii_lowercase,
}
use roblox.Prelude.Words.{
  split, trim, trim_start, trim_end, text_lowercase, parse_digits, number_from,
}
use roblox.Platform.Freeze.{
  FreezeEvidence, frames_stalled, window_unresponsive, healthy, restart_allowed, default_classifier,
  classify, classify_effect,
}
use roblox.Platform.Hotkeys.{HotkeyChord, add_key, add_part, add_parts, finish_chord, parse_hotkey}
use roblox.Platform.Hotkeys.Chords.{parse_hotkey-bounds, parse_hotkey-chord_text, chord_text}

abbrev frozen : FreezeEvidence
frozen = record {
  observed_for = 31 * 1000000000;
  strong = frames_stalled ∷ window_unresponsive ∷ [];
  weak = [];
}

classify_effect_example :
    (((classify default_classifier frozen).decision ≡ restart_allowed) ↔ (
      (default_classifier.required_independent_signals ≤ length frozen.strong)
      × (default_classifier.minimum_observation ≤ frozen.observed_for)))
    × (((classify default_classifier frozen).decision ≡ healthy) ↔ (
        (length frozen.strong ≡ 0)
        × (length frozen.weak ≡ 0)
        × ((1 ≤ default_classifier.required_independent_signals)
            ⊎ (frozen.observed_for < default_classifier.minimum_observation))))
    × ((classify default_classifier frozen).independent_strong_signals ≡ length frozen.strong)
classify_effect_example = classify_effect default_classifier frozen

abbrev emergency : HotkeyChord
emergency = record { modifiers = 6; virtual_key = 0x7B }

emergency_read : parse_hotkey (codes " ctrl + SHIFT + f12") ≡ some emergency
unfolding parse_hotkey finish_chord add_parts add_part add_key text_eq split trim trim_start
    trim_end text_lowercase to_ascii_lowercase parse_digits number_from
emergency_read = refl

parse_hotkey-bounds_example :
    (emergency.modifiers < 16) × (0x70 ≤ emergency.virtual_key) × (emergency.virtual_key ≤ 0x87)
parse_hotkey-bounds_example =
    parse_hotkey-bounds (codes " ctrl + SHIFT + f12") emergency emergency_read

parse_hotkey-chord_text_example : parse_hotkey (chord_text emergency) ≡ some emergency
parse_hotkey-chord_text_example =
    parse_hotkey-chord_text emergency (omega arith) (omega arith) (omega arith)
