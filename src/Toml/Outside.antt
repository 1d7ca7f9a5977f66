-- ===== src/Toml/Outside.antt =====
-- packages/agent-installers/src/tomlConfig.ts: the text outside the managed blocks is kept.
use pickforge.Base.{
  ℕ, suc, ◌-◌, ◌≡◌, ◌≤◌, Bool, true, Option, none, some, List, [], ◌∷◌, ◌++◌, drop, take, ltb,
  arith, ok, Option-cases, inl, inr, ◌⊎◌, String, take-drop, drop-drop, append_none, Bool-cases,
}
use pickforge.Agents.Snippet.{McpServerEntry}
use pickforge.Toml.Texts.{is_terminator}
use pickforge.Toml.Markers.{
  Markers, MarkerLine, find_from, find_marker_line, current_markers, legacy_markers, MarkerSplit,
  split_markers, block_end,
}
use pickforge.Toml.Blocks.{IsManaged}
use pickforge.Toml.Editing.{PreparedContent, separator, desired_marker_block}

abbrev text_or_empty : Option (List ℕ) → List ℕ
text_or_empty none = []
text_or_empty (some text) = text

-- A match ends where it begins or later.
find_from-order :
    (marker : List ℕ) (at_start : Bool) (i : ℕ) (text : List ℕ) (line : MarkerLine)
    → find_from marker at_start i text ≡ some line
    → line.start ≤ line.finish
unfolding find_from
find_from-order marker at_start i [] line e = ground arith
find_from-order marker at_start i (c ∷ cs) line e =
    ground (arith, find_from-order marker (is_terminator c) (suc i) cs line)

-- The three slices of a text.
slices :
    (b e : ℕ) (content : List ℕ)
    → b ≤ e
    → take b content ++ (take (e - b) (drop b content) ++ drop e content) ≡ content
slices b e content le =
    let rest : take (e - b) (drop b content) ++ drop e content ≡ drop b content =
      cc (take-drop (e - b) (drop b content), drop-drop b (e - b) e content (omega (arith, le))) in
    cc (rest, take-drop b content)

block_end-later : (content : List ℕ) (i : ℕ) → i ≤ block_end content i
block_end-later content i = ground arith

-- A text that is split is its three parts, one after the other.
pub split_markers-content :
    (content : List ℕ) (markers : Markers) (split : MarkerSplit)
    → split_markers content markers ≡ ok split
    → split.before ++ (text_or_empty split.block ++ split.after) ≡ content
unfolding split_markers find_marker_line
split_markers-content content markers split e =
    elim (Option-cases (find_marker_line content markers.begin)) [
      | inl absent ↦ elim (Option-cases (find_marker_line content markers.ending)) [
        | inl absent' ↦ ground (arith, absent, absent', append_none content)
        | inr (line, got) ↦ ground (arith, absent, got)
      ]
      | inr (b, got) ↦ elim (Option-cases (find_marker_line content markers.ending)) [
        | inl absent' ↦ ground (arith, got, absent')
        | inr (f, got') ↦
            let stop = block_end content f.finish in
            let ordered = find_from-order markers.ending true 0 content f got' in
            let later = block_end-later content f.finish in
            elim (Bool-cases (ltb f.start b.start)) [
              | inl crossed ↦ ground (arith, got, got', crossed)
              | inr straight ↦
                  let kept =
                    slices b.start stop content (ground (arith, ordered, later, straight)) in
                  ground (arith, got, got', straight, kept)
            ]
      ]
    ]

-- The second text is the first one without its managed block, or the same one if no line of it has
-- the marker that begins a block.
abbrev pub IsCut : Markers → List ℕ → List ℕ → Type 0
IsCut markers content rest =
    ((find_marker_line content markers.begin ≡ none) × (rest ≡ content))
    ⊎ ((before : List ℕ) × (block : List ℕ) × (after : List ℕ) × (content
          ≡ before ++ (block ++ after))
        × (rest ≡ before ++ after)
        × IsManaged markers block)

-- The text has the block at one place of the other text, with a separator at most before it.
unfoldable pub IsInserted : List ℕ → List ℕ → List ℕ → Type 0
IsInserted rest desired text =
    (before : List ℕ) × (gap : List ℕ) × (after : List ℕ) × (rest ≡ before ++ after)
    × (text ≡ before ++ (gap ++ (desired ++ after)))
    × ((gap ≡ []) ⊎ (gap ≡ separator rest))

-- What an upsert may do to a text: one text is it without the older managed block, the next is that
-- without the current one, and the result is this last text with the desired block inserted.
abbrev pub IsUpserted : (String → List ℕ) → Option McpServerEntry → Bool → List ℕ → List ℕ → Type 0
IsUpserted quote entry asked content next =
    (prepared : PreparedContent) × (desired : List ℕ) × (rest : List ℕ) × IsCut legacy_markers
      content prepared.content
    × IsCut current_markers prepared.content rest
    × (desired_marker_block quote prepared entry asked ≡ ok desired)
    × IsInserted rest desired next
