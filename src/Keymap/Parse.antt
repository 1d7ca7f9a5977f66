-- ===== src/Keymap/Parse.antt =====
-- packages/desktop-linux/src/x11-keymap.ts: the parsers of the server's three replies. The test
-- for an expired preparation, which may throw before each piece, is left out.
use pickforge.Base.{
  ℕ, zero, suc, ◌+◌, ◌*◌, Bool, true, false, not, ◌&&◌, ◌||◌, Option, none, some, List, [], ◌∷◌,
  length, get_elem?, drop, leb, ltb, ◌==◌, Result, ok, ◌>>=◌, ◌>>◌, require, if◌then◌else◌,
}
use Prim.Native.Nat.{◌%◌, ◌/◌, ◌^◌, bit_or}
use pickforge.Keymap.Keysyms.{TypingError, typing_failure}
use pickforge.Keymap.Wire.{byte, read_uint16, read_uint32, take_bytes, array_from}

pub record Entry : Type 0 where
  pub active : Bool
  pub mask : ℕ
  pub level : ℕ

pub record KeyType : Type 0 where
  pub mask : ℕ
  pub levels : ℕ
  pub entries : List Entry

pub record XkbKey : Type 0 where
  pub code : ℕ
  pub types : List ℕ
  pub groups : List (List ℕ)

unfoldable pub read_entries : ℕ → ℕ → List ℕ → Result TypingError (List Entry × List ℕ)
read_entries zero levels bytes = ok ([], bytes)
read_entries (suc n) levels bytes = do
  (entry, bytes) ← take_bytes 8 bytes
  require (leb (byte entry 0) 1 && ltb (byte entry 2) levels) typing_failure
  (entries, bytes) ← read_entries n levels bytes
  ok (
    record { active = byte entry 0 == 1; mask = byte entry 1; level = byte entry 2 } ∷ entries,
    bytes,
  )

-- `if (header[6] === 1) cursor.take(header[5] * 4)`
abbrev skip_preserve : List ℕ → List ℕ → Result TypingError (List ℕ)
skip_preserve header bytes =
    if byte header 6 == 1
    then (take_bytes (byte header 5 * 4) bytes >>= λ taken. ok (taken.1))
    else ok bytes

unfoldable pub read_type : List ℕ → Result TypingError (KeyType × List ℕ)
read_type bytes = do
  (header, bytes) ← take_bytes 8 bytes
  let levels = byte header 4
  require (not (levels == 0) && (leb levels 32 && leb (byte header 6) 1)) typing_failure
  (entries, bytes) ← read_entries (byte header 5) levels bytes
  bytes ← skip_preserve header bytes
  ok (record { mask = byte header 0; levels = levels; entries = entries }, bytes)

unfoldable pub read_types : ℕ → List ℕ → Result TypingError (List KeyType × List ℕ)
read_types zero bytes = ok ([], bytes)
read_types (suc n) bytes = do
  (type, bytes) ← read_type bytes
  (types, bytes) ← read_types n bytes
  ok (type ∷ types, bytes)

-- `if (!type || type.levels > width)`, negated.
abbrev pub type_fits : List KeyType → ℕ → ℕ → Bool
type_fits types width i = elim (get_elem? types i) [
  | none ↦ false
  | some type ↦ leb type.levels width
]

-- The loop over the groups `g` and up: their types' indices and their symbols.
unfoldable pub read_groups :
    List KeyType
    → List ℕ
    → ℕ
    → ℕ
    → ℕ
    → List ℕ
    → Result TypingError (List ℕ × List (List ℕ) × List ℕ)
read_groups types header width zero g bytes = ok ([], [], bytes)
read_groups types header width (suc n) g bytes = do
  require (type_fits types width (byte header g)) typing_failure
  (row, bytes) ← take_bytes (width * 4) bytes
  (indices, groups, bytes) ← read_groups types header width n (suc g) bytes
  ok (byte header g ∷ indices, array_from width 0 (λ i. read_uint32 row (i * 4)) ∷ groups, bytes)

unfoldable pub read_key : List KeyType → ℕ → List ℕ → Result TypingError (XkbKey × List ℕ)
read_key types code bytes = do
  (header, bytes) ← take_bytes 8 bytes
  let groups = byte header 4 % 16
  let width = byte header 5
  require (leb groups 4 && leb width 32) typing_failure
  require ((read_uint16 header 6 == groups * width) && (groups == 0 || not (width == 0)))
      typing_failure
  (indices, rows, bytes) ← read_groups types header width groups 0 bytes
  ok (record { code = code; types = indices; groups = rows }, bytes)

unfoldable pub read_keys : List KeyType → ℕ → ℕ → List ℕ → Result TypingError (List XkbKey × List ℕ)
read_keys types zero code bytes = ok ([], bytes)
read_keys types (suc n) code bytes = do
  (key, bytes) ← read_key types code bytes
  (keys, bytes) ← read_keys types n (suc code) bytes
  ok (key ∷ keys, bytes)

abbrev pub group_symbols : List (List ℕ) → ℕ
group_symbols [] = 0
group_symbols (group ∷ groups) = length group + group_symbols groups

abbrev pub all_symbols : List XkbKey → ℕ
all_symbols [] = 0
all_symbols (key ∷ keys) = group_symbols key.groups + all_symbols keys

-- The header of the reply: the range of codes, all types and all symbols are in it.
unfoldable pub header_fits : List ℕ → ℕ → ℕ → Bool
header_fits bytes min max =
    (leb 40 (length bytes)
      && ((byte bytes 10 == min) && ((byte bytes 11 == max) && (read_uint16 bytes 12 == 3))))
    && (((byte bytes 14 == 0) && (not (byte bytes 15 == 0) && (byte bytes 15 == byte bytes 16)))
        && ((byte bytes 17 == min) && (byte bytes 20 + min == max + 1)))

unfoldable pub parse_xkb_map : List ℕ → ℕ → ℕ → Result TypingError (List KeyType × List XkbKey)
parse_xkb_map bytes min max = do
  require (header_fits bytes min max) typing_failure
  (types, left) ← read_types (byte bytes 15) (drop 40 bytes)
  (keys, left) ← read_keys types (byte bytes 20) min left
  require ((length left == 0) && (all_symbols keys == read_uint16 bytes 18)) typing_failure
  ok (types, keys)

unfoldable pub parse_core_map : List ℕ → ℕ → Result TypingError (List (List ℕ))
parse_core_map bytes count = do
  let width = byte bytes 1
  require (not (width == 0) && (leb width 32 && (length bytes == 32 + count * width * 4)))
      typing_failure
  ok (
      array_from count 0
        (λ row. array_from width 0 (λ col. read_uint32 bytes (32 + (row * width + col) * 4))))

abbrev pub modifier_of : List (ℕ × ℕ) → ℕ → Option ℕ
modifier_of [] code = none
modifier_of ((c, mask) ∷ modifiers) code =
    if c == code then some mask else modifier_of modifiers code

-- `modifiers.set`, which keeps the place of a code that is there.
abbrev pub set_modifier : List (ℕ × ℕ) → ℕ → ℕ → List (ℕ × ℕ)
set_modifier [] code mask = (code, mask) ∷ []
set_modifier ((c, old) ∷ modifiers) code mask =
    if c == code then (c, mask) ∷ modifiers else (c, old) ∷ set_modifier modifiers code mask

abbrev first_mask : Option ℕ → Bool → ℕ → ℕ
first_mask none ended mask = if ended then 0 else mask
first_mask (some zero) ended mask = if ended then 0 else mask
first_mask (some old) ended mask = old

-- The modifiers' masks, the mask of all, and whether the group's row has had a hole.
pub record Modifiers : Type 0 where
  pub modifiers : List (ℕ × ℕ)
  pub modifier_mask : ℕ
  pub ended : Bool

unfoldable pub read_modifier : ℕ → ℕ → ℕ → Modifiers → Modifiers
read_modifier width i code m =
    let ended = not (i % width == 0) && m.ended in
    let mask = 2 ^ (i / width) in
    if code == 0 then record m { ended = true } else record {
      modifiers =
          set_modifier m.modifiers code (first_mask (modifier_of m.modifiers code) ended mask);
      modifier_mask = bit_or m.modifier_mask mask;
      ended = ended;
    }

unfoldable pub read_modifiers : ℕ → ℕ → List ℕ → Modifiers → Modifiers
read_modifiers width i [] m = m
read_modifiers width i (code ∷ codes) m =
    read_modifiers width (suc i) codes (read_modifier width i code m)

unfoldable pub parse_modifiers : List ℕ → Result TypingError Modifiers
parse_modifiers bytes = do
  require (length bytes == 32 + byte bytes 1 * 8) typing_failure
  ok (
      read_modifiers (byte bytes 1) 0 (drop 32 bytes)
        (record { modifiers = []; modifier_mask = 0; ended = false }))
