-- ===== src/Keymap/Coverage.antt =====
-- packages/desktop-linux/src/x11-keysyms.ts: the rows of a text hold all its code points.
use pickforge.Base.{ℕ, ◌≡◌, ◌⊎◌, true, List, [], ◌∷◌, some, arith}
use pickforge.Keymap.Keysyms.{
  Cases, binding_symbols, binding_symbols_from, codepoint_to_keysym, contains, covers, pair_of,
  rows_for, done_with,
}

-- What `pair_of` gives holds the code point itself.
pair_of-holds :
    (c : Cases) (cp : ℕ) (los his : List ℕ) (lo hi : ℕ)
    → pair_of c cp los his ≡ some (lo, hi)
    → (cp ≡ lo) ⊎ (cp ≡ hi)
pair_of-holds c cp los his lo hi e = ground arith

-- What the loop takes out of the set is in the row that it adds.
done_with-covered :
    (c : Cases) (cp : ℕ) (done : List ℕ) (n : ℕ)
    → contains (done_with (pair_of c cp (c.lower cp) (c.upper cp)) cp done) n ≡ true
    → (contains done n ≡ true)
      ⊎ (contains (rows_for (pair_of c cp (c.lower cp) (c.upper cp)) cp) (codepoint_to_keysym n)
          ≡ true)
done_with-covered c cp done n h = ground arith

-- The row that the loop adds for a code point holds it.
added-covered :
    (c : Cases) (cp : ℕ)
    → contains (rows_for (pair_of c cp (c.lower cp) (c.upper cp)) cp) (codepoint_to_keysym cp)
      ≡ true
added-covered c cp = ground arith

contains_head :
    (done : List ℕ) (cp n : ℕ) → contains done cp ≡ true → cp ≡ n → contains done n ≡ true
contains_head done cp n h e = cc

row_covered :
    (c : Cases) (cp n : ℕ)
    → cp ≡ n
    → contains (rows_for (pair_of c cp (c.lower cp) (c.upper cp)) cp) (codepoint_to_keysym n) ≡ true
row_covered c cp n e = cc (added-covered c cp)

-- A code point of the set has been taken out, or one of the rows to come holds it.
binding_symbols_from-covers :
    (c : Cases) (done cps : List ℕ) (n : ℕ)
    → contains cps n ≡ true
    → (contains done n ≡ true) ⊎ (covers (binding_symbols_from c done cps) n ≡ true)
unfolding binding_symbols_from
binding_symbols_from-covers c done [] n h = ground arith
binding_symbols_from-covers c done (cp ∷ cps) n h =
    let pair = pair_of c cp (c.lower cp) (c.upper cp) in
    ground (
      arith,
      binding_symbols_from-covers c done cps n,
      binding_symbols_from-covers c (done_with pair cp done) cps n,
      done_with-covered c cp done n,
      row_covered c cp n,
      contains_head done cp n,
    )

-- Each code point of the set is held by a row, alone or as the lower or upper case of another one.
pub binding_symbols-covers :
    (c : Cases) (missing : List ℕ) (cp : ℕ)
    → contains missing cp ≡ true
    → covers (binding_symbols c missing) cp ≡ true
unfolding binding_symbols
binding_symbols-covers c missing cp h =
    ground (arith, binding_symbols_from-covers c [] missing cp h)
