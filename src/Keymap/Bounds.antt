-- ===== src/Keymap/Bounds.antt =====
-- packages/desktop-linux/src/x11-keymap.ts: the search of a map that was parsed stays in its tables.
use pickforge.Base.{
  ℕ, zero, suc, ◌+◌, ◌≡◌, ◌≤◌, ◌<◌, refl, Bool, true, false, Option, none, some, List, [], ◌∷◌,
  length, get_elem?, bind_option, arith, ok, ◌&&◌, ◌==◌,
}
use Prim.Native.Nat.{bit_and}
use pickforge.Keymap.Parse.{Entry, KeyType, XkbKey, type_fits, parse_xkb_map}
use pickforge.Keymap.Lookup.{
  find_entry, level_or_zero, translated_level, Keyboard, XdotoolFamily, group_entries, key_entries,
  all_entries, usable_codepoints,
}
use pickforge.Keymap.WellFormed.{
  IsBounded, IsKeyType, KeyTypes, IsGroups, IsKey, Keys, IsKeymap, parse_xkb_map-IsKeymap,
}

abbrev pub has_value {ℓ} : {A : Type ℓ} → Option A → Bool
has_value none = false
has_value (some a) = true

fits_has :
    (types : List KeyType) (width i : ℕ)
    → type_fits types width i ≡ true
    → has_value (get_elem? types i) ≡ true
fits_has types width i h = ground arith

-- A group that the key has is in both of its lists, and its type is in the table.
IsGroups-lookup :
    (types : List KeyType) (width : ℕ) (indices : List ℕ) (groups : List (List ℕ)) (n : ℕ)
    → IsGroups types width indices groups
    → n < length groups
    → (has_value (bind_option (get_elem? indices n) (get_elem? types)) ≡ true)
      × (has_value (get_elem? groups n) ≡ true)
unfolding IsGroups
IsGroups-lookup types width [] [] n h lt = ground arith
IsGroups-lookup types width [] (group ∷ groups) n h lt = elim h [ ]
IsGroups-lookup types width (i ∷ indices) [] n h lt = elim h [ ]
IsGroups-lookup types width (i ∷ indices) (group ∷ groups) zero h lt =
    (fits_has types width i (h.0), refl)
IsGroups-lookup types width (i ∷ indices) (group ∷ groups) (suc n) h lt =
    IsGroups-lookup types width indices groups n (h.2) (omega arith)

-- An entry of a type names one of its levels.
find_entry-IsBounded :
    (levels : ℕ) (p : Entry → Bool) (entries : List Entry)
    → IsBounded levels entries
    → 1 ≤ levels
    → level_or_zero (find_entry p entries) < levels
unfolding IsBounded
find_entry-IsBounded levels p [] h le = omega arith
find_entry-IsBounded levels p (entry ∷ entries) h le =
    ground (arith, h.0, find_entry-IsBounded levels p entries (h.1) le)

types-IsKeyType :
    (types : List KeyType) (i : ℕ) (type : KeyType)
    → KeyTypes types
    → get_elem? types i ≡ some type
    → IsKeyType type
types-IsKeyType [] i type h e = ground arith
types-IsKeyType (first ∷ types) zero type h e = grind (arith, h.0)
types-IsKeyType (first ∷ types) (suc i) type h e = types-IsKeyType types i type (h.1) e

-- The level that a mask selects has a symbol in every row that the type fits.
translated_level-bounded :
    (types : List KeyType) (width i mask : ℕ) (type : KeyType)
    → KeyTypes types
    → type_fits types width i ≡ true
    → get_elem? types i ≡ some type
    → translated_level type mask < width
unfolding translated_level IsKeyType
translated_level-bounded types width i mask type h fits e =
    let held = types-IsKeyType types i type h e in
    let low =
      find_entry-IsBounded type.levels
        (λ entry. entry.active && (entry.mask == bit_and mask type.mask)) type.entries (held.2)
        (held.0) in
    ground (arith, low)

module _ (legacy : ℕ → Option ℕ) (keyboard : Keyboard) (family : XdotoolFamily) where
  group_entries-total :
      (key : XkbKey) (group : ℕ)
      → IsKey keyboard.types key
      → group < length key.groups
      → has_value (group_entries legacy keyboard key group family) ≡ true
  unfolding group_entries IsKey
  group_entries-total key group h lt =
      let found = IsGroups-lookup keyboard.types (h.1.0) key.types key.groups group (h.1.2) lt in
      let first =
        IsGroups-lookup keyboard.types (h.1.0) key.types key.groups 0 (h.1.2) (omega arith) in
      ground (arith, found, first)

  key_entries-total :
      (key : XkbKey) (n group : ℕ)
      → IsKey keyboard.types key
      → n + group ≤ length key.groups
      → has_value (key_entries legacy keyboard key family n group) ≡ true
  unfolding key_entries
  key_entries-total key zero group h le = refl
  key_entries-total key (suc n) group h le = ground (
    arith,
    group_entries-total key group h (omega arith),
    key_entries-total key n (suc group) h (omega arith),
  )

  all_entries-total :
      (keys : List XkbKey) (code : ℕ)
      → Keys keyboard.types code keys
      → has_value (all_entries legacy keyboard family keys) ≡ true
  unfolding all_entries
  all_entries-total [] code h = refl
  all_entries-total (key ∷ keys) code h = ground (
    arith,
    key_entries-total key (length key.groups) 0 (h.1) (omega arith),
    all_entries-total keys (suc code) (h.2),
  )

-- With the types and keys of a map that was parsed, the search never reads a missing type or group.
pub usable_codepoints-parse_xkb_map :
    (legacy : ℕ → Option ℕ) (keyboard : Keyboard) (family : XdotoolFamily) (bytes : List ℕ)
    (min max : ℕ)
    → parse_xkb_map bytes min max ≡ ok (keyboard.types, keyboard.keys)
    → has_value (usable_codepoints legacy keyboard family) ≡ true
unfolding usable_codepoints IsKeymap
usable_codepoints-parse_xkb_map legacy keyboard family bytes min max e =
    let held = parse_xkb_map-IsKeymap bytes min max keyboard.types keyboard.keys e in
    ground (arith, all_entries-total legacy keyboard family keyboard.keys min (held.3))
