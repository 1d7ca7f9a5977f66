-- ===== src/Keymap/Wire.antt =====
-- packages/desktop-linux/src/x11-keymap.ts: the cursor over a reply, and numbers of 16 and 32 bits.
use pickforge.Base.{
  ℕ, zero, suc, ◌+◌, ◌*◌, ◌≡◌, ◌≤◌, refl, List, [], ◌∷◌, length, length-drop, take, drop, get_or,
  leb, Result, ok, ◌>>◌, require, arith,
}
use pickforge.Keymap.Keysyms.{TypingError, typing_failure}

-- A byte of a reply; one past its end is `undefined`, which no test of the parsers reads.
abbrev pub byte : List ℕ → ℕ → ℕ
byte bytes i = get_or bytes i 0

-- `readUInt16LE` and `readUInt32LE`
abbrev pub read_uint16 : List ℕ → ℕ → ℕ
read_uint16 bytes i = byte bytes i + 256 * byte bytes (i + 1)

abbrev pub read_uint32 : List ℕ → ℕ → ℕ
read_uint32 bytes i = read_uint16 bytes i + 65536 * read_uint16 bytes (i + 2)

-- `Cursor.take`, on the bytes that are left: those that it takes and those that stay.
unfoldable pub take_bytes : ℕ → List ℕ → Result TypingError (List ℕ × List ℕ)
take_bytes n bytes = do
  require (leb n (length bytes)) typing_failure
  ok (take n bytes, drop n bytes)

-- `Array.from({ length: n }, (_, i) => f(i))`, from `i` on.
abbrev pub array_from {ℓ} : {A : Type ℓ} → ℕ → ℕ → (ℕ → A) → List A
array_from zero i f = []
array_from (suc n) i f = f i ∷ array_from n (suc i) f

pub take_bytes-left :
    (n : ℕ) (bytes : List ℕ) (got left : List ℕ)
    → take_bytes n bytes ≡ ok (got, left)
    → (n ≤ length bytes) × (left ≡ drop n bytes) × (length left + n ≡ length bytes)
unfolding take_bytes
take_bytes-left n bytes got left h = ground (arith, length-drop n bytes)

pub length-array_from {ℓ} : {A : Type ℓ} (n i : ℕ) (f : ℕ → A) → length (array_from n i f) ≡ n
length-array_from zero i f = refl
length-array_from (suc n) i f = omega (arith, length-array_from n (suc i) f)
