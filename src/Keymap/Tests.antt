-- ===== src/Keymap/Tests.antt =====
-- Keymap checked on a map of two keys, one with the letter `a` and one that is empty.
use pickforge.Base.{
  ℕ, ◌≡◌, refl, true, Option, none, some, List, [], ◌∷◌, ok, err, arith, zero, suc, ◌++◌,
}
use pickforge.Keymap.Keysyms.{
  Cases, keysym_to_codepoint, codepoint_to_keysym, binding_symbols, capacity_exhausted,
  typing_failure, keysym_to_codepoint-codepoint_to_keysym,
}
use pickforge.Keymap.Wire.{take_bytes}
use pickforge.Keymap.Parse.{
  KeyType, XkbKey, read_entries, read_type, read_types, read_groups, read_key, read_keys,
  parse_xkb_map, header_fits, read_modifier, read_modifiers, parse_modifiers,
}
use pickforge.Keymap.Lookup.{
  Keyboard, xdotool_2016, xdotool_2026, group_entries, level_entry, level_entries, key_entries,
  all_entries, first_usable, usable_codepoints, translated_level, is_latin_capital,
}
use pickforge.Keymap.WellFormed.{IsKeymap, parse_xkb_map-IsKeymap}
use pickforge.Keymap.Bounds.{has_value, usable_codepoints-parse_xkb_map}
use pickforge.Keymap.Planning.{is_free, empty_codes, plan_bindings}
use pickforge.Keymap.Distinct.{IsPlan, binds, plan_bindings-IsPlan, plan_bindings-binds}

abbrev zeros : ℕ → List ℕ
zeros zero = []
zeros (suc n) = 0 ∷ zeros n

abbrev reply : List ℕ
reply =
    0 ∷ 0 ∷ 0 ∷ 0 ∷ 0 ∷ 0 ∷ 0 ∷ 0 ∷ 0 ∷ 0 ∷ 8 ∷ 9 ∷ 3 ∷ 0 ∷ 0 ∷ 1 ∷ 1 ∷ 8 ∷ 1 ∷ 0 ∷ 2 ∷ 0 ∷ 0 ∷ 0
    ∷ 0 ∷ 0 ∷ 0 ∷ 0 ∷ 0 ∷ 0 ∷ 0 ∷ 0 ∷ 0 ∷ 0 ∷ 0 ∷ 0 ∷ 0 ∷ 0 ∷ 0 ∷ 0 ∷ 0 ∷ 0 ∷ 0 ∷ 0 ∷ 1 ∷ 0 ∷ 0 ∷ 0
    ∷ 0 ∷ 0 ∷ 0 ∷ 0 ∷ 1 ∷ 1 ∷ 1 ∷ 0 ∷ 97 ∷ 0 ∷ 0 ∷ 0 ∷ 0 ∷ 0 ∷ 0 ∷ 0 ∷ 0 ∷ 0 ∷ 0 ∷ 0 ∷ []

abbrev plain : KeyType
plain = record { mask = 0; levels = 1; entries = [] }

abbrev key_a : XkbKey
key_a = record { code = 8; types = 0 ∷ []; groups = (97 ∷ []) ∷ [] }

abbrev key_empty : XkbKey
key_empty = record { code = 9; types = []; groups = [] }

abbrev keyboard : Keyboard
keyboard = record {
  min = 8;
  max = 9;
  rows = (97 ∷ []) ∷ (0 ∷ []) ∷ [];
  modifiers = [];
  modifier_mask = 0;
  types = plain ∷ [];
  keys = key_a ∷ key_empty ∷ [];
}

abbrev no_cases : Cases
no_cases = record { lower = λ cp. cp ∷ []; upper = λ cp. cp ∷ [] }

abbrev no_legacy : ℕ → Option ℕ
no_legacy symbol = none

reply_parsed : parse_xkb_map reply 8 9 ≡ ok (plain ∷ [], key_a ∷ key_empty ∷ [])
unfolding parse_xkb_map header_fits read_types read_type read_entries read_keys read_key read_groups
    take_bytes
reply_parsed = refl

-- A byte too many.
reply_too_long : parse_xkb_map (reply ++ 0 ∷ []) 8 9 ≡ err typing_failure
unfolding parse_xkb_map header_fits read_types read_type read_entries read_keys read_key read_groups
    take_bytes
reply_too_long = refl

a_is_usable : usable_codepoints no_legacy keyboard xdotool_2016 ≡ some (97 ∷ [])
unfolding usable_codepoints all_entries key_entries group_entries level_entries level_entry
    first_usable translated_level is_latin_capital keysym_to_codepoint
a_is_usable = refl

-- The newer client leaves out its last entry.
a_is_last : usable_codepoints no_legacy keyboard xdotool_2026 ≡ some []
unfolding usable_codepoints all_entries key_entries group_entries level_entries level_entry
    first_usable translated_level is_latin_capital keysym_to_codepoint
a_is_last = refl

b_is_planned :
    plan_bindings no_legacy keyboard
      (binding_symbols no_cases (97 ∷ 98 ∷ []))
      xdotool_2016
      (97 ∷ 98 ∷ [])
    ≡ some (ok (record { code = 9; symbols = 98 ∷ 98 ∷ [] } ∷ []))
unfolding plan_bindings binding_symbols codepoint_to_keysym is_free empty_codes usable_codepoints
    all_entries key_entries group_entries level_entries level_entry first_usable translated_level
    is_latin_capital keysym_to_codepoint
b_is_planned = refl

two_do_not_fit :
    plan_bindings no_legacy keyboard
      (binding_symbols no_cases (98 ∷ 99 ∷ []))
      xdotool_2016
      (98 ∷ 99 ∷ [])
    ≡ some (err capacity_exhausted)
unfolding plan_bindings binding_symbols codepoint_to_keysym is_free empty_codes usable_codepoints
    all_entries key_entries group_entries level_entries level_entry first_usable translated_level
    is_latin_capital keysym_to_codepoint
two_do_not_fit = refl

shift_is_read :
    parse_modifiers (0 ∷ 1 ∷ zeros 30 ++ 50 ∷ zeros 7)
    ≡ ok (record { modifiers = (50, 1) ∷ []; modifier_mask = 1; ended = true })
unfolding parse_modifiers read_modifiers read_modifier
shift_is_read = refl

keysym_to_codepoint-codepoint_to_keysym_example :
    keysym_to_codepoint no_legacy (codepoint_to_keysym 0x20ac) ≡ 0x20ac
keysym_to_codepoint-codepoint_to_keysym_example =
    keysym_to_codepoint-codepoint_to_keysym no_legacy 0x20ac refl

parse_xkb_map-IsKeymap_example : IsKeymap 8 9 reply (plain ∷ []) (key_a ∷ key_empty ∷ [])
parse_xkb_map-IsKeymap_example =
    parse_xkb_map-IsKeymap reply 8 9 (plain ∷ []) (key_a ∷ key_empty ∷ []) reply_parsed

usable_codepoints-parse_xkb_map_example :
    has_value (usable_codepoints no_legacy keyboard xdotool_2016) ≡ true
usable_codepoints-parse_xkb_map_example =
    usable_codepoints-parse_xkb_map no_legacy keyboard xdotool_2016 reply 8 9 reply_parsed

plan_bindings-IsPlan_example :
    IsPlan keyboard 9 ((98 ∷ 98 ∷ []) ∷ []) (record { code = 9; symbols = 98 ∷ 98 ∷ [] } ∷ [])
unfolding binding_symbols codepoint_to_keysym keysym_to_codepoint
plan_bindings-IsPlan_example =
    plan_bindings-IsPlan no_legacy keyboard (binding_symbols no_cases (97 ∷ 98 ∷ [])) xdotool_2016
      (97 ∷ 98 ∷ []) (97 ∷ []) (record { code = 9; symbols = 98 ∷ 98 ∷ [] } ∷ []) (omega arith)
      a_is_usable b_is_planned

plan_bindings-binds_example : binds (record { code = 9; symbols = 98 ∷ 98 ∷ [] } ∷ []) 98 ≡ true
plan_bindings-binds_example =
    plan_bindings-binds no_cases no_legacy keyboard xdotool_2016 (97 ∷ 98 ∷ []) (97 ∷ [])
      (record { code = 9; symbols = 98 ∷ 98 ∷ [] } ∷ []) 98 (omega arith) a_is_usable b_is_planned
      refl refl refl
