-- ===== src/Keymap/Planning.antt =====
-- packages/desktop-linux/src/x11-prebind.ts: the keys that a text is bound to, and the check of the
-- map that is read back. A result is `none` where the code would read a field of `undefined`.
use pickforge.Base.{
  ℕ, zero, suc, ◌+◌, ◌-◌, Bool, true, false, not, ◌&&◌, Option, none, some, List, [], ◌∷◌, length,
  get_elem?, get_or, any, every, keep, ltb, ◌==◌, Result, ok, err, require, if◌then◌else◌,
  bind_option,
}
use pickforge.Keymap.Keysyms.{
  TypingError, typing_failure, capacity_exhausted, contains, keysym_to_codepoint,
}
use pickforge.Keymap.Parse.{modifier_of}
use pickforge.Keymap.Lookup.{Keyboard, XdotoolFamily, usable_codepoints}

pub record Binding : Type 0 where
  pub code : ℕ
  pub symbols : List ℕ

abbrev pub is_modifier : Keyboard → ℕ → Bool
is_modifier keyboard code = elim (modifier_of keyboard.modifiers code) [
  | none ↦ false
  | some mask ↦ true
]

abbrev all_empty : List ℕ → Bool
all_empty symbols = every (λ symbol. symbol == 0) symbols

-- Whether the code is no modifier and has no symbol in either table.
unfoldable pub is_free : Keyboard → ℕ → Option Bool
is_free keyboard code =
    if is_modifier keyboard code
    then some false
    else bind_option (get_elem? keyboard.rows (code - keyboard.min)) (λ row.
      if all_empty row
      then bind_option (get_elem? keyboard.keys (code - keyboard.min))
          (λ key. some (every all_empty key.groups))
      else some false)

-- The loop from `keyboard.min + n` down to `keyboard.min + 1`.
unfoldable pub empty_codes : Keyboard → ℕ → Option (List ℕ)
empty_codes keyboard zero = some []
empty_codes keyboard (suc n) =
    let code = keyboard.min + suc n in
    bind_option (is_free keyboard code) (λ free.
      bind_option (empty_codes keyboard n) (λ codes. some (if free then code ∷ codes else codes)))

-- A row is missing if a code point of the text is among its symbols and is not available.
abbrev pub is_missing : (ℕ → Option ℕ) → List ℕ → List ℕ → List ℕ → Bool
is_missing legacy points available symbols =
    any
      (λ symbol.
        contains points (keysym_to_codepoint legacy symbol)
        && not (contains available (keysym_to_codepoint legacy symbol)))
      symbols

-- `[symbols[0], symbols[1] ?? symbols[0]]`
abbrev pub two_levels : List ℕ → List ℕ
two_levels symbols = get_or symbols 0 0 ∷ get_or symbols 1 (get_or symbols 0 0) ∷ []

abbrev pub assign : List (List ℕ) → List ℕ → List Binding
assign [] codes = []
assign (symbols ∷ missing) [] = []
assign (symbols ∷ missing) (code ∷ codes) =
    record { code = code; symbols = two_levels symbols } ∷ assign missing codes

unfoldable pub plan_bindings :
    (ℕ → Option ℕ)
    → Keyboard
    → List (List ℕ)
    → XdotoolFamily
    → List ℕ
    → Option (Result TypingError (List Binding))
plan_bindings legacy keyboard desired family points =
    bind_option (usable_codepoints legacy keyboard family) (λ available.
      let missing = keep (is_missing legacy points available) desired in
      bind_option (empty_codes keyboard (keyboard.max - keyboard.min)) (λ empty. some (
        if ltb (length empty) (length missing)
        then err capacity_exhausted
        else ok (assign missing empty))))

-- The read-back row of a binding, `none` if the table has no such row.
abbrev pub row_of : Keyboard → ℕ → Option (List ℕ)
row_of keyboard code =
    if ltb code keyboard.min then none else get_elem? keyboard.rows (code - keyboard.min)

abbrev pub represents : (ℕ → Option ℕ) → List ℕ → ℕ → Bool
represents legacy row symbol =
    any (λ other. keysym_to_codepoint legacy other == keysym_to_codepoint legacy symbol) row

unfoldable pub verify_rows : (ℕ → Option ℕ) → Keyboard → List Binding → Option Bool
verify_rows legacy keyboard [] = some true
verify_rows legacy keyboard (binding ∷ bindings) =
    bind_option (row_of keyboard binding.code) (λ row.
      if not (is_modifier keyboard binding.code) && every (represents legacy row) binding.symbols
      then verify_rows legacy keyboard bindings
      else some false)

unfoldable pub verify_bindings :
    (ℕ → Option ℕ)
    → Keyboard
    → List Binding
    → List ℕ
    → XdotoolFamily
    → Option (Result TypingError (Unit {0}))
verify_bindings legacy keyboard bindings points family =
    bind_option (verify_rows legacy keyboard bindings) (λ represented.
      if represented
      then bind_option (usable_codepoints legacy keyboard family)
          (λ available. some (require (every (contains available) points) typing_failure))
      else some (err typing_failure))
