-- ===== src/Toml/Automaton.antt =====
-- The lexical rules of a TOML line, a unit at a time: an independent description of the scanner of
-- packages/agent-installers/src/tomlScan.ts, with no index and no look ahead.
use pickforge.Base.{ℕ, suc, Option, none, some, List, [], ◌∷◌, leb, ◌==◌, if◌then◌else◌}
use pickforge.Toml.Scan.{TomlScanState, hash, is_quote, escapes, bracket_depth}

-- `opened` has seen one or two quotes, and `multi` so many quotes in a row.
pub data Mode : Type 0 where
  plain comment : Mode
  opened_once opened_twice single single_skip multi_skip : ℕ → Mode
  multi : ℕ → ℕ → Mode

abbrev pub plain_unit : ℕ → ℕ → ℕ × Mode
plain_unit depth c =
    if c == hash
    then (depth, comment)
    else if is_quote c
    then (depth, opened_once c)
    else (bracket_depth depth c, plain)

abbrev pub single_unit : ℕ → ℕ → ℕ → ℕ × Mode
single_unit depth q c =
    if escapes q c
    then (depth, single_skip q)
    else if c == q
    then (depth, plain)
    else (depth, single q)

unfoldable pub next : ℕ → Mode → ℕ → ℕ × Mode
next depth plain c = plain_unit depth c
next depth comment c = (depth, comment)
next depth (opened_once q) c = if c == q then (depth, opened_twice q) else single_unit depth q c
next depth (opened_twice q) c = if c == q then (depth, multi q 0) else plain_unit depth c
next depth (single q) c = single_unit depth q c
next depth (single_skip q) c = (depth, single q)
next depth (multi_skip q) c = (depth, multi q 0)
next depth (multi q n) c =
    if c == q
    then (depth, multi q (suc n))
    else if leb 3 n
    then plain_unit depth c
    else if escapes q c
    then (depth, multi_skip q)
    else (depth, multi q 0)

-- The state at the end of the line.
unfoldable pub finish : ℕ → Mode → TomlScanState
finish depth (multi q n) =
    if leb 3 n
    then record { multiline = none; depth = depth }
    else record { multiline = some q; depth = depth }
finish depth (multi_skip q) = record { multiline = some q; depth = depth }
finish depth mode = record { multiline = none; depth = depth }

unfoldable pub run : ℕ → Mode → List ℕ → TomlScanState
run depth mode [] = finish depth mode
run depth mode (c ∷ cs) = let (depth', mode') = next depth mode c in run depth' mode' cs

abbrev pub mode_of : Option ℕ → Mode
mode_of none = plain
mode_of (some q) = multi q 0

unfoldable pub read_line : List ℕ → TomlScanState → TomlScanState
read_line line state = run state.depth (mode_of state.multiline) line
