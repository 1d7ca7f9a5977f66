-- ===== src/Keymap/Distinct.antt =====
-- packages/desktop-linux/src/x11-prebind.ts: what a plan of bindings promises.
use pickforge.Base.{
  ℕ, zero, suc, ◌+◌, ◌-◌, ◌≡◌, ◌≤◌, ◌<◌, refl, Bool, true, false, Option, some, List, [], ◌∷◌,
  length, any, keep, arith, ◌==◌, ok, if◌then◌else◌, ==_iff, Bool-cases, Option-cases, subst, inl,
  inr, ◌⊎◌,
}
use pickforge.Keymap.Keysyms.{
  Cases, contains, covers, binding_symbols, binding_symbols_from, rows_for, pair_of, done_with,
  codepoint_to_keysym, is_typable, keysym_to_codepoint-codepoint_to_keysym,
}
use pickforge.Keymap.Coverage.{binding_symbols-covers}
use pickforge.Keymap.Lookup.{Keyboard, XdotoolFamily, usable_codepoints}
use pickforge.Keymap.Planning.{
  Binding, is_free, empty_codes, is_missing, two_levels, assign, plan_bindings,
}

-- Free codes above the least one, in descending order from at most `bound`.
unfoldable Free : Keyboard → ℕ → List ℕ → Type 0
Free keyboard bound [] = Unit
Free keyboard bound (code ∷ codes) =
    (is_free keyboard code ≡ some true)
    × (keyboard.min < code)
    × (code ≤ bound)
    × Free keyboard (code - 1) codes

Free-weaken :
    (keyboard : Keyboard) (a b : ℕ) (codes : List ℕ)
    → a ≤ b
    → Free keyboard a codes
    → Free keyboard b codes
unfolding Free
Free-weaken keyboard a b [] le h = tt
Free-weaken keyboard a b (code ∷ codes) le h = (h.0, h.1, omega (arith, h.2), h.3)

empty_codes-Free :
    (keyboard : Keyboard) (n : ℕ) (codes : List ℕ)
    → empty_codes keyboard n ≡ some codes
    → Free keyboard (keyboard.min + n) codes
unfolding empty_codes Free
empty_codes-Free keyboard zero codes e = ground arith
empty_codes-Free keyboard (suc n) codes e = elim (Option-cases (empty_codes keyboard n)) [
  | inl none_left ↦ ground arith
  | inr (codes', got) ↦
      let held = empty_codes-Free keyboard n codes' got in
      let wider =
        Free-weaken keyboard (keyboard.min + n) (keyboard.min + suc n) codes' (omega arith) held in
      grind (arith, held, wider)
]

-- A binding for each row, with the row's two levels, on free codes that descend, so that no two
-- bindings share a key.
unfoldable pub IsPlan : Keyboard → ℕ → List (List ℕ) → List Binding → Type 0
IsPlan keyboard bound [] [] = Unit
IsPlan keyboard bound (row ∷ missing) (binding ∷ bindings) =
    (binding.symbols ≡ two_levels row)
    × (is_free keyboard binding.code ≡ some true)
    × (keyboard.min < binding.code)
    × (binding.code ≤ bound)
    × IsPlan keyboard (binding.code - 1) missing bindings
IsPlan keyboard bound _ _ = ⊥

assign-IsPlan :
    (keyboard : Keyboard) (bound : ℕ) (missing : List (List ℕ)) (codes : List ℕ)
    → Free keyboard bound codes
    → length missing ≤ length codes
    → IsPlan keyboard bound missing (assign missing codes)
unfolding Free IsPlan
assign-IsPlan keyboard bound [] codes h le = tt
assign-IsPlan keyboard bound (row ∷ missing) [] h le = ground arith
assign-IsPlan keyboard bound (row ∷ missing) (code ∷ codes) h le =
    (refl, h.0, h.1, h.2, assign-IsPlan keyboard (code - 1) missing codes (h.3) (omega arith))

-- Where the range of codes is not reversed, a plan that succeeds binds each row with a code point that
-- the text has and the map has not, on keys that are free, in range and distinct.
pub plan_bindings-IsPlan :
    (legacy : ℕ → Option ℕ) (keyboard : Keyboard) (desired : List (List ℕ)) (family : XdotoolFamily)
    (points available : List ℕ) (bindings : List Binding)
    → keyboard.min ≤ keyboard.max
    → usable_codepoints legacy keyboard family ≡ some available
    → plan_bindings legacy keyboard desired family points ≡ some (ok bindings)
    → IsPlan keyboard keyboard.max (keep (is_missing legacy points available) desired) bindings
unfolding plan_bindings
plan_bindings-IsPlan legacy keyboard desired family points available bindings le usable e =
    elim (Option-cases (empty_codes keyboard (keyboard.max - keyboard.min))) [
      | inl none_left ↦ ground arith
      | inr (codes, got) ↦
          let free = empty_codes-Free keyboard (keyboard.max - keyboard.min) codes got in
          let wider = Free-weaken keyboard _ keyboard.max codes (omega arith) free in
          let missing = keep (is_missing legacy points available) desired in
          let planned : (length missing ≤ length codes) × (assign missing codes ≡ bindings) =
            ground arith in
          subst (IsPlan keyboard keyboard.max missing) (planned.1)
            (assign-IsPlan keyboard keyboard.max missing codes wider (planned.0))
    ]

-- Some binding has the code point's symbol.
abbrev pub binds : List Binding → ℕ → Bool
binds bindings cp = any (λ binding. contains binding.symbols (codepoint_to_keysym cp)) bindings

abbrev Wide : List (List ℕ) → Type 0
Wide [] = Unit
Wide (row ∷ rows) = (length row ≡ 2) × Wide rows

rows_for-wide :
    (c : Cases) (cp : ℕ) (los his : List ℕ) → length (rows_for (pair_of c cp los his) cp) ≡ 2
rows_for-wide c cp los his = ground arith

Wide-if : (b : Bool) (xs ys : List (List ℕ)) → Wide xs → Wide ys → Wide (if b then xs else ys)
Wide-if true xs ys hx hy = hx
Wide-if false xs ys hx hy = hy

binding_symbols_from-Wide : (c : Cases) (done cps : List ℕ) → Wide (binding_symbols_from c done cps)
unfolding binding_symbols_from
binding_symbols_from-Wide c done [] = tt
binding_symbols_from-Wide c done (cp ∷ cps) =
    Wide-if (contains done cp) _ _ (binding_symbols_from-Wide c done cps) (
      rows_for-wide c cp (c.lower cp) (c.upper cp),
      binding_symbols_from-Wide c (done_with (pair_of c cp (c.lower cp) (c.upper cp)) cp done) cps,
    )

two_levels-contains :
    (row : List ℕ) (s : ℕ)
    → length row ≡ 2
    → contains row s ≡ true
    → contains (two_levels row) s ≡ true
two_levels-contains [] s wide h = ground arith
two_levels-contains (a ∷ []) s wide h = ground (arith, wide)
two_levels-contains (a ∷ (b ∷ [])) s wide h = h
two_levels-contains (a ∷ (b ∷ (d ∷ rest))) s wide h = ground (arith, wide)

-- A row with the symbol of a code point that the text has and the map has not is missing.
contains-is_missing :
    (legacy : ℕ → Option ℕ) (points available row : List ℕ) (cp : ℕ)
    → is_typable cp ≡ true
    → contains points cp ≡ true
    → contains available cp ≡ false
    → contains row (codepoint_to_keysym cp) ≡ true
    → is_missing legacy points available row ≡ true
contains-is_missing legacy points available [] cp t p a h = ground arith
contains-is_missing legacy points available (symbol ∷ row) cp t p a h =
    let same = keysym_to_codepoint-codepoint_to_keysym legacy cp t in
    let rest = contains-is_missing legacy points available row cp t p a in
    elim (Bool-cases (symbol == codepoint_to_keysym cp)) [
      | inl e ↦ ground (arith, same, (==_iff symbol (codepoint_to_keysym cp)).0 e)
      | inr e ↦ ground (arith, rest)
    ]

module _ (legacy : ℕ → Option ℕ) (keyboard : Keyboard) (points available : List ℕ) (cp : ℕ) where
  -- A plan of a row and more, of which the plan of the others is known to bind the code point.
  added-binds :
      (bound : ℕ) (row : List ℕ) (missing : List (List ℕ)) (m : Bool) (bindings : List Binding)
      → IsPlan keyboard bound (if m then row ∷ missing else missing) bindings
      → length row ≡ 2
      → (contains row (codepoint_to_keysym cp) ≡ true → m ≡ true)
      → ((contains row (codepoint_to_keysym cp) ≡ true)
          ⊎ ((b : ℕ) (bs : List Binding) → IsPlan keyboard b missing bs → binds bs cp ≡ true))
      → binds bindings cp ≡ true
  unfolding IsPlan
  added-binds bound row missing true [] plan wide is held = elim plan [ ]
  added-binds bound row missing true (binding ∷ bs) plan wide is (inl here) =
      let kept = two_levels-contains row (codepoint_to_keysym cp) wide here in
      ground (arith, kept, plan.0)
  added-binds bound row missing true (binding ∷ bs) plan wide is (inr later) =
      ground (arith, later (binding.code - 1) bs (plan.4))
  added-binds bound row missing false bindings plan wide is (inl here) = ground (arith, is here)
  added-binds bound row missing false bindings plan wide is (inr later) = later bound bindings plan

  -- A plan binds what its rows hold.
  IsPlan-binds :
      (bound : ℕ) (desired : List (List ℕ)) (bindings : List Binding)
      → IsPlan keyboard bound (keep (is_missing legacy points available) desired) bindings
      → Wide desired
      → is_typable cp ≡ true
      → contains points cp ≡ true
      → contains available cp ≡ false
      → covers desired cp ≡ true
      → binds bindings cp ≡ true
  IsPlan-binds bound [] bindings plan wide t p a h = ground arith
  IsPlan-binds bound (row ∷ desired) bindings plan wide t p a h =
      added-binds bound row _ (is_missing legacy points available row) bindings plan (wide.0)
        (contains-is_missing legacy points available row cp t p a)
        (elim (Bool-cases (contains row (codepoint_to_keysym cp))) [
          | inl here ↦ inl here
          | inr elsewhere ↦ inr (λ b bs planned.
              IsPlan-binds b desired bs planned (wide.1) t p a (ground (arith, h, elsewhere)))
        ])

-- Where the range of codes is not reversed and the plan of the rows that `bindingSymbols` makes of a
-- text succeeds, it binds each code point of the text that can be typed and that the map cannot type
-- yet.
pub plan_bindings-binds :
    (c : Cases) (legacy : ℕ → Option ℕ) (keyboard : Keyboard) (family : XdotoolFamily)
    (points available : List ℕ) (bindings : List Binding) (cp : ℕ)
    → keyboard.min ≤ keyboard.max
    → usable_codepoints legacy keyboard family ≡ some available
    → plan_bindings legacy keyboard (binding_symbols c points) family points ≡ some (ok bindings)
    → is_typable cp ≡ true
    → contains points cp ≡ true
    → contains available cp ≡ false
    → binds bindings cp ≡ true
unfolding binding_symbols
plan_bindings-binds c legacy keyboard family points available bindings cp le usable e t p a =
    IsPlan-binds legacy keyboard points available cp keyboard.max _ bindings
      (plan_bindings-IsPlan legacy keyboard _ family points available bindings le usable e)
      (binding_symbols_from-Wide c [] points) t p a (binding_symbols-covers c points cp p)
