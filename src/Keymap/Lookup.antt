-- ===== src/Keymap/Lookup.antt =====
-- packages/desktop-linux/src/x11-keymap.ts: which code points xdotool can type with a keymap. A
-- result is `none` where the code would read a field of `undefined`.
use pickforge.Base.{
  ℕ, zero, suc, Bool, true, false, not, ◌&&◌, ◌||◌, Option, none, some, List, [], ◌∷◌, ◌++◌, length,
  get_elem?, get_or, ◌==◌, if◌then◌else◌, bind_option,
}
use Prim.Native.Nat.{bit_and, bit_or}
use pickforge.Keymap.Keysyms.{keysym_to_codepoint, contains, within}
use pickforge.Keymap.Parse.{Entry, KeyType, XkbKey, modifier_of}

pub data XdotoolFamily : Type 0 where
  xdotool_2016 xdotool_2026 : XdotoolFamily

pub record Keyboard : Type 0 where
  pub min : ℕ
  pub max : ℕ
  pub rows : List (List ℕ)
  pub modifiers : List (ℕ × ℕ)
  pub modifier_mask : ℕ
  pub types : List KeyType
  pub keys : List XkbKey

abbrev pub find_entry : (Entry → Bool) → List Entry → Option Entry
find_entry p [] = none
find_entry p (entry ∷ entries) = if p entry then some entry else find_entry p entries

abbrev pub level_or_zero : Option Entry → ℕ
level_or_zero none = 0
level_or_zero (some entry) = entry.level

unfoldable pub translated_level : KeyType → ℕ → ℕ
translated_level type mask =
    level_or_zero
      (find_entry (λ entry. entry.active && (entry.mask == bit_and mask type.mask)) type.entries)

unfoldable pub is_latin_capital : ℕ → Bool
is_latin_capital cp = within 0x41 0x5a cp || (within 0xc0 0xd6 cp || within 0xd8 0xde cp)

pub record LookupEntry : Type 0 where
  pub symbol : ℕ
  pub usable : Bool

abbrev is_2026 : XdotoolFamily → Bool
is_2026 xdotool_2016 = false
is_2026 xdotool_2026 = true

abbrev is_none : Option Entry → Bool
is_none none = true
is_none (some entry) = false

abbrev mask_or_zero : Option Entry → ℕ
mask_or_zero none = 0
mask_or_zero (some entry) = entry.mask

abbrev or_none : Option ℕ → ℕ
or_none none = 0
or_none (some n) = n

-- The tests of one level of a group, in the loop's order. A symbol past the row's end is 0 here,
-- where the source has `undefined`.
unfoldable pub level_entry :
    (ℕ → Option ℕ) → Keyboard → XkbKey → KeyType → List ℕ → ℕ → XdotoolFamily → ℕ → List LookupEntry
level_entry legacy keyboard key type symbols zero_symbol family level =
    let entry = find_entry (λ item. item.active && (item.level == level)) type.entries in
    let zero = (level == 0) && (zero_symbol == get_or symbols level 0) in
    let symbol = get_or symbols level 0 in
    let state = if is_2026 family && zero then 0 else mask_or_zero entry in
    let pressed = bit_or state (or_none (modifier_of keyboard.modifiers key.code)) in
    let mask =
      if is_2026 family && is_latin_capital (keysym_to_codepoint legacy symbol)
      then 1
      else pressed in
    let can_press_modifiers = bit_and mask keyboard.modifier_mask == mask in
    if is_2026 family && ((get_or symbols 0 0 == 0) || (not zero && is_none entry))
    then []
    else record {
      symbol = symbol;
      usable = can_press_modifiers && (get_or symbols (translated_level type mask) 0 == symbol);
    }
      ∷ []

-- The loop from a level on, for as many levels as are left.
unfoldable pub level_entries :
    (ℕ → Option ℕ)
    → Keyboard
    → XkbKey
    → KeyType
    → List ℕ
    → ℕ
    → XdotoolFamily
    → ℕ
    → ℕ
    → List LookupEntry
level_entries legacy keyboard key type symbols zero_symbol family zero level = []
level_entries legacy keyboard key type symbols zero_symbol family (suc n) level =
    level_entry legacy keyboard key type symbols zero_symbol family level
    ++ level_entries legacy keyboard key type symbols zero_symbol family n (suc level)

-- `types[key.types[group]!]!`
abbrev pub group_type : Keyboard → XkbKey → ℕ → Option KeyType
group_type keyboard key group = bind_option (get_elem? key.types group) (get_elem? keyboard.types)

unfoldable pub group_entries :
    (ℕ → Option ℕ) → Keyboard → XkbKey → ℕ → XdotoolFamily → Option (List LookupEntry)
group_entries legacy keyboard key group family =
    bind_option (group_type keyboard key group) (λ type.
      bind_option (get_elem? key.groups group) (λ symbols.
        bind_option (group_type keyboard key 0) (λ zero_type.
          bind_option (get_elem? key.groups 0) (λ zero_group. some (
            level_entries legacy keyboard key type symbols
              (get_or zero_group (translated_level zero_type 0) 0) family type.levels 0)))))

-- `flatMap` with a function that may throw.
abbrev pub append_both :
    Option (List LookupEntry) → Option (List LookupEntry) → Option (List LookupEntry)
append_both (some xs) (some ys) = some (xs ++ ys)
append_both _ _ = none

-- The entries of `n` groups from `group` on.
unfoldable pub key_entries :
    (ℕ → Option ℕ) → Keyboard → XkbKey → XdotoolFamily → ℕ → ℕ → Option (List LookupEntry)
key_entries legacy keyboard key family zero group = some []
key_entries legacy keyboard key family (suc n) group =
    append_both (group_entries legacy keyboard key group family)
      (key_entries legacy keyboard key family n (suc group))

unfoldable pub all_entries :
    (ℕ → Option ℕ) → Keyboard → XdotoolFamily → List XkbKey → Option (List LookupEntry)
all_entries legacy keyboard family [] = some []
all_entries legacy keyboard family (key ∷ keys) =
    append_both (key_entries legacy keyboard key family (length key.groups) 0)
      (all_entries legacy keyboard family keys)

-- `entries.pop()`
abbrev pop : List LookupEntry → List LookupEntry
pop [] = []
pop (entry ∷ []) = []
pop (entry ∷ (next ∷ entries)) = entry ∷ pop (next ∷ entries)

-- The code points whose first entry is usable; `seen` are those that an earlier entry gives.
unfoldable pub first_usable : (ℕ → Option ℕ) → List ℕ → List LookupEntry → List ℕ
first_usable legacy seen [] = []
first_usable legacy seen (entry ∷ entries) =
    let cp = keysym_to_codepoint legacy entry.symbol in
    let later = first_usable legacy (cp ∷ seen) entries in
    if not (contains seen cp) && (not (cp == 0) && entry.usable) then cp ∷ later else later

unfoldable pub usable_codepoints : (ℕ → Option ℕ) → Keyboard → XdotoolFamily → Option (List ℕ)
usable_codepoints legacy keyboard family =
    bind_option (all_entries legacy keyboard family keyboard.keys)
      (λ entries. some (first_usable legacy [] (if is_2026 family then pop entries else entries)))
