-- ===== src/Toml/Scan.antt =====
-- packages/agent-installers/src/tomlScan.ts: the scanner of a line. A line is the list of its UTF-16
-- units, and an index into it the list of the units from there on. A loop has as many rounds to
-- spend as the line has units.
use pickforge.Base.{
  ℕ, zero, suc, ◌-◌, Bool, true, false, ◌&&◌, ◌||◌, Option, none, some, List, [], ◌∷◌, length, drop,
  leb, ◌==◌, if◌then◌else◌,
}

abbrev pub double_quote : ℕ
double_quote = 34

abbrev pub single_quote : ℕ
single_quote = 39

abbrev pub backslash : ℕ
backslash = 92

abbrev pub hash : ℕ
hash = 35

pub record TomlScanState : Type 0 where
  pub multiline : Option ℕ
  pub depth : ℕ

unfoldable pub initial_toml_scan_state : TomlScanState
initial_toml_scan_state = record { multiline = none; depth = 0 }

abbrev is_none : Option ℕ → Bool
is_none none = true
is_none (some q) = false

unfoldable pub at_toml_top_level : TomlScanState → Bool
at_toml_top_level state = is_none state.multiline && (state.depth == 0)

abbrev pub is_quote : ℕ → Bool
is_quote c = (c == double_quote) || (c == single_quote)

unfoldable pub quote_run : ℕ → List ℕ → ℕ
quote_run quote [] = 0
quote_run quote (c ∷ cs) = let rest = quote_run quote cs in if c == quote then suc rest else 0

-- A round of a loop: the string is closed and the rest is left, or the loop goes on with the rest.
pub data Round : Type 0 where
  closed further : List ℕ → Round

abbrev pub escapes : ℕ → ℕ → Bool
escapes quote c = (quote == double_quote) && (c == backslash)

-- The loop's body of `scanMultiline`.
unfoldable pub multiline_round : ℕ → ℕ → List ℕ → Round
multiline_round quote c cs =
    let run = quote_run quote (c ∷ cs) in
    if escapes quote c
    then further (drop 1 cs)
    else if c == quote
    then (if leb 3 run then closed (drop run (c ∷ cs)) else further (drop run (c ∷ cs)))
    else further cs

unfoldable pub scan_multiline : ℕ → ℕ → List ℕ → Option (List ℕ)
scan_multiline zero quote line = none
scan_multiline (suc n) quote [] = none
scan_multiline (suc n) quote (c ∷ cs) = elim (multiline_round quote c cs) [
  | closed rest ↦ some rest
  | further rest ↦ scan_multiline n quote rest
]

-- The loop's body of `scanSingleLine`.
unfoldable pub single_round : ℕ → ℕ → List ℕ → Round
single_round quote c cs =
    if escapes quote c then further (drop 1 cs) else if c == quote then closed cs else further cs

-- After the opening quote. An unterminated string ends with the line.
unfoldable pub scan_single_line : ℕ → ℕ → List ℕ → List ℕ
scan_single_line zero quote line = []
scan_single_line (suc n) quote [] = []
scan_single_line (suc n) quote (c ∷ cs) = elim (single_round quote c cs) [
  | closed rest ↦ rest
  | further rest ↦ scan_single_line n quote rest
]

-- `line.startsWith(quote.repeat(3), index)`, after the first quote.
abbrev pub two_more : ℕ → List ℕ → Bool
two_more quote (c ∷ (d ∷ cs)) = (c == quote) && (d == quote)
two_more quote _ = false

-- A string after its first quote.
unfoldable pub scan_string : ℕ → List ℕ → Option (List ℕ)
scan_string quote line =
    if two_more quote line
    then scan_multiline (length line) quote (drop 2 line)
    else some (scan_single_line (length line) quote line)

-- `Math.max(0, depth + bracketDelta(char))`
unfoldable pub bracket_depth : ℕ → ℕ → ℕ
bracket_depth depth c =
    if (c == 91) || (c == 123)
    then suc depth
    else if (c == 93) || (c == 125)
    then depth - 1
    else depth

unfoldable pub scan_from : ℕ → ℕ → List ℕ → TomlScanState
scan_from zero depth line = record { multiline = none; depth = depth }
scan_from (suc n) depth [] = record { multiline = none; depth = depth }
scan_from (suc n) depth (c ∷ cs) = elim (c == hash) [
  | true ↦ record { multiline = none; depth = depth }
  | false ↦ elim (is_quote c) [
    | false ↦ scan_from n (bracket_depth depth c) cs
    | true ↦ elim (scan_string c cs) [
      | none ↦ record { multiline = some c; depth = depth }
      | some rest ↦ scan_from n depth rest
    ]
  ]
]

unfoldable pub scan_toml_line : List ℕ → TomlScanState → TomlScanState
scan_toml_line line state = elim state.multiline [
  | none ↦ scan_from (length line) state.depth line
  | some quote ↦ elim (scan_multiline (length line) quote line) [
    | none ↦ state
    | some rest ↦ scan_from (length line) state.depth rest
  ]
]
