-- ===== src/Keymap/WellFormed.antt =====
-- packages/desktop-linux/src/x11-keymap.ts: what a map that has been parsed promises.
use pickforge.Base.{
  ℕ, zero, suc, ◌+◌, ◌≡◌, ◌≤◌, ◌<◌, refl, sym, subst, true, List, [], ◌∷◌, length, drop, ok,
  Result-cases, inl, inr, arith,
}
use Prim.Native.Nat.{◌%◌}
use pickforge.Keymap.Wire.{byte, read_uint16, take_bytes, length-array_from}
use pickforge.Keymap.Parse.{
  header_fits, Entry, KeyType, XkbKey, read_entries, read_type, read_types, read_groups, read_key,
  read_keys, parse_xkb_map, type_fits, all_symbols,
}

unfoldable pub IsBounded : ℕ → List Entry → Type 0
IsBounded levels [] = Unit
IsBounded levels (entry ∷ entries) = (entry.level < levels) × IsBounded levels entries

-- Every level that an entry names is one of the type's, of which there are 1 to 32.
unfoldable pub IsKeyType : KeyType → Type 0
IsKeyType type = (1 ≤ type.levels) × (type.levels ≤ 32) × IsBounded type.levels type.entries

abbrev pub KeyTypes : List KeyType → Type 0
KeyTypes [] = Unit
KeyTypes (type ∷ types) = IsKeyType type × KeyTypes types

-- Each group has an index of a type in the table, and a row as wide as the key's other rows, in
-- which each level of the type has a symbol.
unfoldable pub IsGroups : List KeyType → ℕ → List ℕ → List (List ℕ) → Type 0
IsGroups types width [] [] = Unit
IsGroups types width (i ∷ indices) (group ∷ groups) =
    (type_fits types width i ≡ true) × (length group ≡ width) × IsGroups types width indices groups
IsGroups types width _ _ = ⊥

unfoldable pub IsKey : List KeyType → XkbKey → Type 0
IsKey types key =
    (length key.groups ≤ 4)
    × ((width : ℕ) × (width ≤ 32) × IsGroups types width key.types key.groups)

-- The keys of the codes from `code` on.
abbrev pub Keys : List KeyType → ℕ → List XkbKey → Type 0
Keys types code [] = Unit
Keys types code (key ∷ keys) = (key.code ≡ code) × IsKey types key × Keys types (suc code) keys

read_entries-IsBounded :
    (n levels : ℕ) (bytes : List ℕ) (entries : List Entry) (left : List ℕ)
    → read_entries n levels bytes ≡ ok (entries, left)
    → IsBounded levels entries
unfolding read_entries IsBounded
read_entries-IsBounded zero levels bytes entries left e = ground arith
read_entries-IsBounded (suc n) levels bytes entries left e =
    grind (arith, read_entries-IsBounded n levels)

read_type-IsKeyType :
    (bytes : List ℕ) (type : KeyType) (left : List ℕ)
    → read_type bytes ≡ ok (type, left)
    → IsKeyType type
unfolding read_type IsKeyType
read_type-IsKeyType bytes type left e = grind (arith, read_entries-IsBounded)

read_types-KeyTypes :
    (n : ℕ) (bytes : List ℕ) (types : List KeyType) (left : List ℕ)
    → read_types n bytes ≡ ok (types, left)
    → (length types ≡ n) × KeyTypes types
unfolding read_types
read_types-KeyTypes zero bytes types left e = ground arith
read_types-KeyTypes (suc n) bytes types left e =
    grind (arith, read_type-IsKeyType, read_types-KeyTypes n)

read_groups-IsGroups :
    (types : List KeyType) (header : List ℕ) (width n g : ℕ) (bytes indices : List ℕ)
    (groups : List (List ℕ)) (left : List ℕ)
    → read_groups types header width n g bytes ≡ ok (indices, groups, left)
    → IsGroups types width indices groups × (length groups ≡ n)
unfolding read_groups IsGroups
read_groups-IsGroups types header width zero g bytes indices groups left e = ground arith
read_groups-IsGroups types header width (suc n) g bytes indices groups left e =
    grind (arith, read_groups-IsGroups types header width n (suc g), length-array_from)

read_key-IsKey :
    (types : List KeyType) (code : ℕ) (bytes : List ℕ) (key : XkbKey) (left : List ℕ)
    → read_key types code bytes ≡ ok (key, left)
    → (key.code ≡ code) × IsKey types key
unfolding read_key IsKey
read_key-IsKey types code bytes key left e = elim (Result-cases (take_bytes 8 bytes)) [
  | inl ((header, rest), taken) ↦
      let width = byte header 5 in
      let count = byte header 4 % 16 in
      elim (Result-cases (read_groups types header width count 0 rest)) [
        | inl ((indices, groups, left'), got) ↦
            let held =
              read_groups-IsGroups types header width count 0 rest indices groups left' got in
            let few : (count ≤ 4)
                × (width ≤ 32)
                × (key ≡ record { code = code; types = indices; groups = groups }) =
              ground arith in
            subst (λ key. (key.code ≡ code) × IsKey types key) (sym (few.2))
              (refl, (ground (arith, held.1), (width, few.1, held.0)))
        | inr thrown ↦ ground arith
      ]
  | inr thrown ↦ ground arith
]

read_keys-Keys :
    (types : List KeyType) (n code : ℕ) (bytes : List ℕ) (keys : List XkbKey) (left : List ℕ)
    → read_keys types n code bytes ≡ ok (keys, left)
    → (length keys ≡ n) × Keys types code keys
unfolding read_keys
read_keys-Keys types zero code bytes keys left e = ground arith
read_keys-Keys types (suc n) code bytes keys left e =
    grind (arith, read_key-IsKey, read_keys-Keys types n)

header_fits-count :
    (bytes : List ℕ) (min max : ℕ)
    → header_fits bytes min max ≡ true
    → byte bytes 20 + min ≡ max + 1
unfolding header_fits
header_fits-count bytes min max h = ground arith

-- Each index that a key holds is that of a well-formed type, there is a key for each code from
-- `min` to `max`, and as many types and symbols as the reply's header counts.
unfoldable pub IsKeymap : ℕ → ℕ → List ℕ → List KeyType → List XkbKey → Type 0
IsKeymap min max bytes types keys =
    (length types ≡ byte bytes 15)
    × KeyTypes types
    × (length keys + min ≡ max + 1)
    × Keys types min keys
    × (all_symbols keys ≡ read_uint16 bytes 18)

-- A map that is parsed is well-formed: its keys' indices are within the table of types, their rows
-- are as wide as their types need, and it has a key for each code.
pub parse_xkb_map-IsKeymap :
    (bytes : List ℕ) (min max : ℕ) (types : List KeyType) (keys : List XkbKey)
    → parse_xkb_map bytes min max ≡ ok (types, keys)
    → IsKeymap min max bytes types keys
unfolding parse_xkb_map IsKeymap
parse_xkb_map-IsKeymap bytes min max types keys e =
    elim (Result-cases (read_types (byte bytes 15) (drop 40 bytes))) [
      | inl ((types', rest), got) ↦
          elim (Result-cases (read_keys types' (byte bytes 20) min rest)) [
            | inl ((keys', left), got') ↦
                let held = read_types-KeyTypes (byte bytes 15) (drop 40 bytes) types' rest got in
                let held' = read_keys-Keys types' (byte bytes 20) min rest keys' left got' in
                ground (arith, held, held', header_fits-count bytes min max)
            | inr thrown ↦ ground arith
          ]
      | inr thrown ↦ ground arith
    ]
