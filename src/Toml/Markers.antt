-- ===== src/Toml/Markers.antt =====
-- packages/agent-installers/src/tomlConfig.ts: the marker lines, and the managed block between them.
use pickforge.Base.{
  ℕ, suc, ◌+◌, ◌-◌, Bool, true, false, Option, none, some, List, [], ◌∷◌, length, drop, take, ltb,
  ◌==◌, if◌then◌else◌, bind_option, Result, ok, err, get_elem?,
}
use pickforge.Toml.Texts.{units, is_terminator, strip, blanks_and_end}

pub record Markers : Type 0 where
  pub begin : List ℕ
  pub ending : List ℕ

abbrev pub current_markers : Markers
current_markers = record {
  begin = units "# >>> pickforge-lab >>>";
  ending = units "# <<< pickforge-lab <<<";
}

abbrev pub legacy_markers : Markers
legacy_markers = record { begin = units "# >>> picklab >>>"; ending = units "# <<< picklab <<<" }

pub record MarkerLine : Type 0 where
  pub start : ℕ
  pub finish : ℕ

-- The length of a match that begins here.
unfoldable pub marker_here : List ℕ → List ℕ → Option ℕ
marker_here marker text =
    bind_option (strip marker text)
      (λ rest. bind_option (blanks_and_end rest) (λ n. some (length marker + n)))

abbrev pub marker_line : ℕ → Option ℕ → Option MarkerLine
marker_line i none = none
marker_line i (some n) = some (record { start = i; finish = i + n })

abbrev first_of : Option MarkerLine → Option MarkerLine → Option MarkerLine
first_of none later = later
first_of (some line) later = some line

-- The first match from index `i` on; `at_start` says whether a line begins there.
unfoldable pub find_from : List ℕ → Bool → ℕ → List ℕ → Option MarkerLine
find_from marker at_start i [] = if at_start then marker_line i (marker_here marker []) else none
find_from marker at_start i (c ∷ cs) =
    let later = find_from marker (is_terminator c) (suc i) cs in
    first_of (if at_start then marker_line i (marker_here marker (c ∷ cs)) else none) later

unfoldable pub find_marker_line : List ℕ → List ℕ → Option MarkerLine
find_marker_line content marker = find_from marker true 0 content

pub data TomlError : Type 0 where
  unbalanced_markers foreign_section : TomlError

pub record MarkerSplit : Type 0 where
  pub before : List ℕ
  pub block : Option (List ℕ)
  pub after : List ℕ

abbrev is_line_feed : Option ℕ → Bool
is_line_feed none = false
is_line_feed (some c) = c == 10

-- The end of the block, its line feed included.
abbrev pub block_end : List ℕ → ℕ → ℕ
block_end content i = if is_line_feed (get_elem? content i) then suc i else i

-- `content.slice(a, b)`
abbrev pub slice : List ℕ → ℕ → ℕ → List ℕ
slice content a b = take (b - a) (drop a content)

abbrev pub split_at : List ℕ → Option MarkerLine → Option MarkerLine → Result TomlError MarkerSplit
split_at content none none = ok (record { before = content; block = none; after = [] })
split_at content (some b) (some e) =
    if ltb e.start b.start
    then err unbalanced_markers
    else ok (record {
      before = slice content 0 b.start;
      block = some (slice content b.start (block_end content e.finish));
      after = drop (block_end content e.finish) content;
    })
split_at content _ _ = err unbalanced_markers

unfoldable pub split_markers : List ℕ → Markers → Result TomlError MarkerSplit
split_markers content markers =
    split_at content (find_marker_line content markers.begin)
      (find_marker_line content markers.ending)
