-- ===== src/Keymap/Keysyms.antt =====
-- packages/desktop-linux/src/x11-keysyms.ts: key symbols and code points.
use pickforge.Base.{
  ℕ, ◌+◌, ◌-◌, ◌≡◌, Bool, true, false, not, ◌&&◌, ◌||◌, Option, none, some, List, [], ◌∷◌, any,
  if◌then◌else◌, leb, ◌==◌, arith, Result, ok, ◌>>◌, require,
}
use Prim.Native.Nat.{◌%◌}

pub data TypingError : Type 0 where
  typing_failure capacity_exhausted : TypingError

abbrev pub within : ℕ → ℕ → ℕ → Bool
within lo hi n = leb lo n && leb n hi

unfoldable pub latin1 : ℕ → Bool
latin1 cp = within 0x20 0x7e cp || within 0xa0 0xff cp

unfoldable pub control_symbol : ℕ → Bool
control_symbol symbol =
    (within 0xff08 0xff0b symbol || within 0xffaa 0xffb9 symbol)
    || (symbol == 0xff0d
        || (symbol == 0xff1b
            || (symbol == 0xffff || (symbol == 0xff89 || (symbol == 0xff8d || symbol == 0xffbd)))))

abbrev or_zero : Option ℕ → ℕ
or_zero none = 0
or_zero (some n) = n

-- `legacy` is the vendored table of x11-legacy-keysyms.ts.
unfoldable pub keysym_to_codepoint : (ℕ → Option ℕ) → ℕ → ℕ
unfolding latin1 control_symbol
keysym_to_codepoint legacy symbol =
    if latin1 symbol
    then symbol
    else if symbol == 0xff80
    then 0x20
    else if control_symbol symbol
    then symbol % 128
    else if within 0x100d800 0x100dfff symbol
    then 0
    else if within 0x1000000 0x110ffff symbol
    then symbol - 0x1000000
    else or_zero (legacy symbol)

unfoldable pub codepoint_to_keysym : ℕ → ℕ
unfolding latin1
codepoint_to_keysym cp =
    if latin1 cp
    then cp
    else if within 8 11 cp || (cp == 13 || cp == 27)
    then cp + 0xff00
    else if cp == 127
    then 0xffff
    else cp + 0x1000000

-- A code point of a text that can be typed: not 0, no surrogate, in the range of Unicode.
abbrev pub is_typable : ℕ → Bool
is_typable cp = not (cp == 0) && (not (within 0xd800 0xdfff cp) && leb cp 0x10ffff)

-- The symbol that stands for a code point of a text is read back as that code point, whatever the
-- table of old symbols holds.
pub keysym_to_codepoint-codepoint_to_keysym :
    (legacy : ℕ → Option ℕ) (cp : ℕ)
    → is_typable cp ≡ true
    → keysym_to_codepoint legacy (codepoint_to_keysym cp) ≡ cp
unfolding keysym_to_codepoint codepoint_to_keysym
keysym_to_codepoint-codepoint_to_keysym legacy cp h = ground arith

-- `toLowerCase` and `toUpperCase` of one code point, as the code points of the result.
pub record Cases : Type 0 where
  pub lower : ℕ → List ℕ
  pub upper : ℕ → List ℕ

abbrev same_one : ℕ → List ℕ → Bool
same_one a (b ∷ []) = a == b
same_one a _ = false

-- The two code points of a pair that converts both ways, if the code point is of one.
abbrev pub pair_of : Cases → ℕ → List ℕ → List ℕ → Option (ℕ × ℕ)
pair_of c cp (lo ∷ []) (hi ∷ []) =
    if same_one hi (c.upper lo) && (same_one lo (c.lower hi) && (cp == lo || cp == hi))
    then some (lo, hi)
    else none
pair_of c cp _ _ = none

abbrev pub contains : List ℕ → ℕ → Bool
contains xs n = any (λ x. x == n) xs

abbrev pub rows_for : Option (ℕ × ℕ) → ℕ → List ℕ
rows_for none cp = codepoint_to_keysym cp ∷ codepoint_to_keysym cp ∷ []
rows_for (some (lo, hi)) cp = codepoint_to_keysym lo ∷ codepoint_to_keysym hi ∷ []

abbrev pub done_with : Option (ℕ × ℕ) → ℕ → List ℕ → List ℕ
done_with none cp done = cp ∷ done
done_with (some (lo, hi)) cp done = lo ∷ hi ∷ done

-- The loop over the set: code points that an earlier row covers are no longer in it.
unfoldable pub binding_symbols_from : Cases → List ℕ → List ℕ → List (List ℕ)
binding_symbols_from c done [] = []
binding_symbols_from c done (cp ∷ cps) =
    let pair = pair_of c cp (c.lower cp) (c.upper cp) in
    let skip = binding_symbols_from c done cps in
    let more = binding_symbols_from c (done_with pair cp done) cps in
    if contains done cp then skip else rows_for pair cp ∷ more

unfoldable pub binding_symbols : Cases → List ℕ → List (List ℕ)
unfolding binding_symbols_from
binding_symbols c missing = binding_symbols_from c [] missing

-- `textCodepoints`, on the code points of a text; the set keeps the first of equal ones.
abbrev distinct_from : List ℕ → List ℕ → List ℕ
distinct_from seen [] = []
distinct_from seen (cp ∷ cps) =
    let skip = distinct_from seen cps in
    let more = distinct_from (cp ∷ seen) cps in if contains seen cp then skip else cp ∷ more

abbrev typable_all : List ℕ → Bool
typable_all [] = true
typable_all (cp ∷ cps) = (not (cp == 0) && not (within 0xd800 0xdfff cp)) && typable_all cps

-- `units` is the text's length in UTF-16 units.
unfoldable pub text_codepoints : ℕ → List ℕ → Result TypingError (List ℕ)
text_codepoints units cps = do
  require (not (units == 0) && leb units 65536) typing_failure
  require (typable_all cps) typing_failure
  ok (distinct_from [] cps)

-- Some row holds the code point's symbol.
abbrev pub covers : List (List ℕ) → ℕ → Bool
covers rows cp = any (λ row. contains row (codepoint_to_keysym cp)) rows
