-- ===== src/Toml/Inspection.antt =====
-- packages/agent-installers/src/tomlConfig.ts: what is reported of a configuration.
use pickforge.Base.{
  ℕ, ◌≡◌, ◌↔◌, Bool, true, false, ◌||◌, Option, none, some, List, [], ◌∷◌, String, arith, Result,
  ok, err, ◌>>=◌, Result-cases, inl, inr,
}
use pickforge.Agents.Snippet.{McpServerEntry}
use pickforge.Toml.Texts.{strip}
use pickforge.Toml.Markers.{
  current_markers, legacy_markers, Markers, MarkerSplit, TomlError, foreign_section,
  unbalanced_markers, split_markers,
}
use pickforge.Toml.Sections.{has_section, is_some}
use pickforge.Toml.Editing.{
  prepare_legacy_block, assert_no_foreign_section, upsert_prepared_content, desired_marker_block,
  upsert_toml_marker_block, render_toml_snippet,
}

pub record TomlInspection : Type 0 where
  pub exists : Bool
  pub markers_present : Bool
  pub markers_have_section : Bool
  pub legacy_markers_present : Bool
  pub has_foreign_section : Bool

-- `text.includes(part)`
unfoldable pub includes : List ℕ → List ℕ → Bool
includes part [] = is_some (strip part [])
includes part (c ∷ cs) = is_some (strip part (c ∷ cs)) || includes part cs

abbrev block_includes : List ℕ → Option (List ℕ) → Bool
block_includes part none = false
block_includes part (some block) = includes part block

unfoldable pub missing_inspection : TomlInspection
missing_inspection = record {
  exists = false;
  markers_present = false;
  markers_have_section = false;
  legacy_markers_present = false;
  has_foreign_section = false;
}

unfoldable pub unbalanced_inspection : TomlInspection
unbalanced_inspection = record {
  exists = true;
  markers_present = true;
  markers_have_section = false;
  legacy_markers_present = false;
  has_foreign_section = false;
}

abbrev has_legacy : Option ℕ → Bool
has_legacy none = false
has_legacy (some i) = true

abbrev or_unbalanced : Result TomlError TomlInspection → TomlInspection
or_unbalanced (ok inspection) = inspection
or_unbalanced (err thrown) = unbalanced_inspection

-- A text that cannot be split has unbalanced markers.
split_markers-thrown :
    (content : List ℕ) (markers : Markers) (thrown : TomlError)
    → split_markers content markers ≡ err thrown
    → thrown ≡ unbalanced_markers
unfolding split_markers
split_markers-thrown content markers thrown e = ground arith

prepare_legacy_block-thrown :
    (content : List ℕ) (thrown : TomlError)
    → prepare_legacy_block content ≡ err thrown
    → thrown ≡ unbalanced_markers
unfolding prepare_legacy_block
prepare_legacy_block-thrown content thrown e =
    elim (Result-cases (split_markers content legacy_markers)) [
      | inl (split, got) ↦ ground (arith, e, got)
      | inr (refused, got) ↦
          ground (arith, e, got, split_markers-thrown content legacy_markers refused got)
    ]

module _ (quote : String → List ℕ) where
  abbrev inspect_text : List ℕ → Result TomlError TomlInspection
  inspect_text existing = do
    prepared ← prepare_legacy_block existing
    split ← split_markers prepared.content current_markers
    ok (record {
      exists = true;
      markers_present = is_some split.block;
      markers_have_section = block_includes (render_toml_snippet quote none false) split.block;
      legacy_markers_present = has_legacy prepared.legacy_insert_at;
      has_foreign_section = has_section split.before || has_section split.after;
    })

  unfoldable pub inspect_toml_file : Option (List ℕ) → TomlInspection
  inspect_toml_file none = missing_inspection
  inspect_toml_file (some existing) = or_unbalanced (inspect_text existing)

  abbrev split_includes : McpServerEntry → Result TomlError MarkerSplit → Bool
  split_includes expected (err thrown) = false
  split_includes expected (ok split) =
      block_includes (render_toml_snippet quote (some expected) false) split.block

  unfoldable pub toml_file_has_mcp_server : Option (List ℕ) → Option McpServerEntry → Bool
  toml_file_has_mcp_server file none =
      (inspect_toml_file file).markers_have_section || (inspect_toml_file file).has_foreign_section
  toml_file_has_mcp_server none (some expected) = false
  toml_file_has_mcp_server (some existing) (some expected) =
      split_includes expected (split_markers existing current_markers)

  -- A file is reported to have a foreign section exactly if an upsert refuses it for that.
  pub inspect-upsert_iff :
      (content : List ℕ) (entry : Option McpServerEntry) (asked : Bool)
      → ((inspect_toml_file (some content)).has_foreign_section ≡ true)
        ↔ (upsert_toml_marker_block quote content entry asked ≡ err foreign_section)
  unfolding inspect_toml_file upsert_toml_marker_block upsert_prepared_content desired_marker_block
      assert_no_foreign_section unbalanced_inspection
  inspect-upsert_iff content entry asked = elim (Result-cases (prepare_legacy_block content)) [
    | inl (prepared, got) ↦ elim (Result-cases (split_markers prepared.content current_markers)) [
      | inl (split, got') ↦ ground (arith, got, got')
      | inr (thrown, got') ↦
          ground
            (arith, got, got', split_markers-thrown prepared.content current_markers thrown got')
    ]
    | inr (thrown, got) ↦ ground (arith, got, prepare_legacy_block-thrown content thrown got)
  ]
