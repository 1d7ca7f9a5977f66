-- ===== src/Toml/Editing.antt =====
-- packages/agent-installers/src/tomlConfig.ts: the edits of a configuration. A file is its text, or
-- missing; a failure to read or write it is left out.
use pickforge.Base.{
  ℕ, Bool, true, false, not, ◌&&◌, ◌||◌, Option, none, some, List, [], ◌∷◌, ◌++◌, length, drop,
  take, map, ◌==◌, if◌then◌else◌, String, Result, ok, ◌>>=◌, ◌>>◌, require,
}
use pickforge.Agents.Snippet.{McpServerEntry, wants_browser_entry}
use pickforge.Agents.JsonConfig.{entries_of}
use pickforge.Toml.Texts.{units}
use pickforge.Toml.Markers.{
  Markers, current_markers, legacy_markers, MarkerSplit, TomlError, foreign_section, split_markers,
}
use pickforge.Toml.Sections.{has_section, legacy_names_in_block, browser_section_in_block, is_some}

pub record PreparedContent : Type 0 where
  pub content : List ℕ
  pub legacy_insert_at : Option ℕ
  pub migrated : List String

abbrev pub prepared_from : List ℕ → MarkerSplit → Option (List ℕ) → PreparedContent
prepared_from content legacy none = record {
  content = content;
  legacy_insert_at = none;
  migrated = [];
}
prepared_from content legacy (some block) = record {
  content = legacy.before ++ legacy.after;
  legacy_insert_at = some (length legacy.before);
  migrated = legacy_names_in_block block;
}

unfoldable pub prepare_legacy_block : List ℕ → Result TomlError PreparedContent
prepare_legacy_block content = do
  legacy ← split_markers content legacy_markers
  ok (prepared_from content legacy legacy.block)

unfoldable pub assert_no_foreign_section : MarkerSplit → Result TomlError (Unit {0})
assert_no_foreign_section split =
    require (not (has_section split.before) && not (has_section split.after)) foreign_section

abbrev pub ends_with_line_feed : List ℕ → Bool
ends_with_line_feed [] = false
ends_with_line_feed (c ∷ []) = c == 10
ends_with_line_feed (c ∷ (d ∷ cs)) = ends_with_line_feed (d ∷ cs)

abbrev pub separator : List ℕ → List ℕ
separator [] = []
separator (c ∷ cs) = if ends_with_line_feed (c ∷ cs) then 10 ∷ [] else 10 ∷ 10 ∷ []

unfoldable pub append_marker_block : List ℕ → List ℕ → List ℕ
append_marker_block content desired = content ++ (separator content ++ desired)

abbrev pub placed : PreparedContent → List ℕ → MarkerSplit → Option (List ℕ) → Option ℕ → List ℕ
placed prepared desired split (some block) at = split.before ++ (desired ++ split.after)
placed prepared desired split none (some i) =
    take i prepared.content ++ (desired ++ drop i prepared.content)
placed prepared desired split none none = append_marker_block prepared.content desired

unfoldable pub upsert_prepared_content : PreparedContent → List ℕ → Result TomlError (List ℕ)
upsert_prepared_content prepared desired = do
  split ← split_markers prepared.content current_markers
  assert_no_foreign_section split
  ok (placed prepared desired split split.block prepared.legacy_insert_at)

abbrev comma_separated : List (List ℕ) → List ℕ
comma_separated [] = []
comma_separated (text ∷ []) = text
comma_separated (text ∷ (next ∷ texts)) = text ++ (units ", " ++ comma_separated (next ∷ texts))

-- `JSON.stringify` of a text is `quote`.
module _ (quote : String → List ℕ) where
  abbrev section : String → McpServerEntry → List ℕ
  section name server =
      units "[mcp_servers."
      ++ (quote name
          ++ (93
              ∷ 10
              ∷ (units "command = "
                  ++ (quote server.command
                      ++ (10
                          ∷ (units "args = ["
                              ++ (comma_separated (map quote server.args) ++ (93 ∷ 10 ∷ []))))))))

  abbrev sections : List (String × McpServerEntry) → List ℕ
  sections [] = []
  sections ((name, server) ∷ entries) = section name server ++ sections entries

  unfoldable pub render_toml_snippet : Option McpServerEntry → Bool → List ℕ
  render_toml_snippet entry browser = sections (entries_of entry browser)

  unfoldable pub marker_block : Option McpServerEntry → Bool → List ℕ → List ℕ
  marker_block entry browser retained =
      units "# >>> pickforge-lab >>>"
      ++ (10
          ∷ (render_toml_snippet entry browser
              ++ (retained ++ (units "# <<< pickforge-lab <<<" ++ 10 ∷ []))))

  abbrev existing_section : Option (List ℕ) → Option (List ℕ)
  existing_section none = none
  existing_section (some block) = browser_section_in_block block

  abbrev text_or_empty : Option (List ℕ) → List ℕ
  text_or_empty none = []
  text_or_empty (some text) = text

  unfoldable pub desired_marker_block :
      PreparedContent → Option McpServerEntry → Bool → Result TomlError (List ℕ)
  desired_marker_block prepared entry asked = do
    current ← split_markers prepared.content current_markers
    let existing = existing_section current.block
    let browser = wants_browser_entry asked prepared.migrated (is_some existing)
    ok (marker_block entry browser (if browser then [] else text_or_empty existing))

  -- `upsertTomlMarkerBlock`, from a text to the text that is written.
  unfoldable pub upsert_toml_marker_block :
      List ℕ → Option McpServerEntry → Bool → Result TomlError (List ℕ)
  upsert_toml_marker_block content entry asked = do
    prepared ← prepare_legacy_block content
    desired ← desired_marker_block prepared entry asked
    upsert_prepared_content prepared desired

abbrev pub without_block : List ℕ → MarkerSplit → Option (List ℕ) → List ℕ × Bool
without_block content split none = (content, false)
without_block content split (some block) = (split.before ++ split.after, true)

unfoldable pub without_marker_block : List ℕ → Markers → Result TomlError (List ℕ × Bool)
without_marker_block content markers = do
  split ← split_markers content markers
  ok (without_block content split split.block)

-- `removeTomlMarkerBlock`: the text that is left, and whether it is another one.
unfoldable pub remove_toml_marker_block : List ℕ → Result TomlError (List ℕ × Bool)
remove_toml_marker_block existing = do
  (content, changed) ← without_marker_block existing current_markers
  (content', changed') ← without_marker_block content legacy_markers
  ok (content', changed || changed')
