-- ===== src/Toml/Sections.antt =====
-- packages/agent-installers/src/tomlConfig.ts: the table headers of the lab's servers, as the file's
-- patterns match them, and the browser's tables inside a managed block.
use pickforge.Base.{
  ℕ, Bool, true, false, ◌&&◌, ◌||◌, Option, none, some, List, [], ◌∷◌, ◌++◌, any, map, ◌==◌,
  if◌then◌else◌, bind_option, String,
}
use pickforge.Toml.Texts.{units, is_terminator, at_line_end, skip_blanks, strip, blanks_and_end}
use pickforge.Toml.Scan.{TomlScanState, initial_toml_scan_state, at_toml_top_level, scan_toml_line}

abbrev pub is_some {ℓ} : {A : Type ℓ} → Option A → Bool
is_some none = false
is_some (some a) = true

-- What follows `[^\]\r\n]*`.
unfoldable pub skip_subtable : List ℕ → List ℕ
skip_subtable [] = []
skip_subtable (c ∷ cs) =
    let rest = skip_subtable cs in if (c == 93) || ((c == 13) || (c == 10)) then c ∷ cs else rest

-- What follows `(?:\.[^\]\r\n]*)?\]`, if it matches.
unfoldable pub close_header : List ℕ → Option (List ℕ)
close_header [] = none
close_header (c ∷ cs) =
    if c == 46 then strip (93 ∷ []) (skip_subtable cs) else if c == 93 then some cs else none

abbrev pub quoted : ℕ → List ℕ → List ℕ
quoted q name = q ∷ (name ++ q ∷ [])

abbrev bare_names : List (List ℕ)
bare_names =
    units "picklab"
    ∷ units "picklab-browser"
    ∷ units "pickforge-lab"
    ∷ units "pickforge-lab-browser"
    ∷ []

-- The rest of `SECTION_PATTERN` after one of its names.
abbrev section_after : List ℕ → List ℕ → Bool
section_after rest name =
    is_some (bind_option (strip name rest) (λ rest. bind_option (close_header rest) blanks_and_end))

-- `SECTION_PATTERN` at the start of a line.
unfoldable pub section_here : List ℕ → Bool
section_here text = elim (strip (units "[mcp_servers.") (skip_blanks text)) [
  | none ↦ false
  | some rest ↦ any (section_after rest) (bare_names ++ map (quoted 34) bare_names)
]

-- `pattern.test(content)` for a pattern that begins with `^`, with the flag `m`.
unfoldable pub at_some_line : (List ℕ → Bool) → Bool → List ℕ → Bool
at_some_line p at_start [] = at_start && p []
at_some_line p at_start (c ∷ cs) = (at_start && p (c ∷ cs)) || at_some_line p (is_terminator c) cs

unfoldable pub has_section : List ℕ → Bool
has_section content = at_some_line section_here true content

-- A header of a legacy table, alone on its line.
abbrev header_line : List ℕ → List ℕ → Bool
header_line name text = elim (strip (units "[mcp_servers." ++ (name ++ units "]")) text) [
  | none ↦ false
  | some rest ↦ at_line_end rest
]

abbrev has_header : List ℕ → List ℕ → Bool
has_header name block =
    at_some_line (λ text. header_line name text || header_line (quoted 34 name) text) true block

abbrev listed : Bool → String → List String → List String
listed true name names = name ∷ names
listed false name names = names

unfoldable pub legacy_names_in_block : List ℕ → List String
legacy_names_in_block block =
    listed (has_header (units "picklab") block) "picklab"
      (listed (has_header (units "picklab-browser") block) "picklab-browser" [])

-- What follows `.*`.
unfoldable pub skip_comment : List ℕ → List ℕ
skip_comment [] = []
skip_comment (c ∷ cs) = let rest = skip_comment cs in if is_terminator c then c ∷ cs else rest

-- `\r?$` without the flag `m`.
abbrev ends_text : List ℕ → Bool
ends_text [] = true
ends_text (c ∷ []) = c == 13
ends_text _ = false

abbrev comment_ends : List ℕ → Bool
comment_ends [] = true
comment_ends (c ∷ cs) = if c == 35 then ends_text (skip_comment cs) else ends_text (c ∷ cs)

abbrev browser_after : List ℕ → List ℕ → Bool
browser_after rest name =
    elim (bind_option (strip name rest) (λ rest. close_header (skip_blanks rest))) [
      | none ↦ false
      | some rest ↦ comment_ends (skip_blanks rest)
    ]

abbrev browser_names : List (List ℕ)
browser_names =
    units "pickforge-lab-browser"
    ∷ quoted 34 (units "pickforge-lab-browser")
    ∷ quoted 39 (units "pickforge-lab-browser")
    ∷ []

-- `BROWSER_SECTION_HEADER`
unfoldable pub is_browser_header : List ℕ → Bool
is_browser_header line =
    elim (bind_option (strip (units "[") (skip_blanks line)) (λ rest.
      bind_option (strip (units "mcp_servers") (skip_blanks rest))
        (λ rest. strip (units ".") (skip_blanks rest)))) [
          | none ↦ false
          | some rest ↦ any (browser_after (skip_blanks rest)) browser_names
        ]

-- `SECTION_HEADER`
abbrev is_header : List ℕ → Bool
is_header line = is_some (strip (units "[") (skip_blanks line))

-- `text.split("\n")`: the first line, and those after it.
unfoldable pub split_lines : List ℕ → List ℕ × List (List ℕ)
split_lines [] = ([], [])
split_lines (c ∷ cs) =
    let (line, lines) = split_lines cs in if c == 10 then ([], line ∷ lines) else (c ∷ line, lines)

-- `endMarker.test(line)`, on a line without line feeds.
abbrev is_end_marker : List ℕ → Bool
is_end_marker line = elim (strip (units "# <<< pickforge-lab <<<") line) [
  | none ↦ false
  | some rest ↦ ends_text (skip_blanks rest)
]

unfoldable pub lines_to_end : List (List ℕ) → List (List ℕ)
lines_to_end [] = []
lines_to_end (line ∷ lines) =
    let rest = lines_to_end lines in if is_end_marker line then [] else line ∷ rest

-- The loop over the lines, with the scanner's state and whether the browser's table is open.
unfoldable pub browser_lines : Bool → TomlScanState → List (List ℕ) → List (List ℕ)
browser_lines in_browser scan [] = []
browser_lines in_browser scan (line ∷ lines) =
    let here =
      if at_toml_top_level scan && is_header line then is_browser_header line else in_browser in
    let rest = browser_lines here (scan_toml_line line scan) lines in
    if here then line ∷ rest else rest

-- `kept.join("\n")` and a line feed.
abbrev joined : List (List ℕ) → List ℕ
joined [] = []
joined (line ∷ lines) = line ++ 10 ∷ joined lines

abbrev text_of : List (List ℕ) → Option (List ℕ)
text_of [] = none
text_of (line ∷ lines) = some (joined (line ∷ lines))

unfoldable pub browser_section_in_block : List ℕ → Option (List ℕ)
browser_section_in_block block =
    text_of (browser_lines false initial_toml_scan_state (lines_to_end ((split_lines block).1)))
