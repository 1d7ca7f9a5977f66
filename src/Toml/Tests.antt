-- ===== src/Toml/Tests.antt =====
-- The scanner and the edits checked on small documents.
use pickforge.Base.{
  ℕ, ◌≡◌, ◌↔◌, refl, true, false, none, some, List, [], ◌∷◌, ◌++◌, ok, err, String,
}
use pickforge.Agents.Snippet.{pickforge_lab_mcp_server_entries}
use pickforge.Toml.Texts.{units, at_line_end, blanks, strip, return_and_end, blanks_and_end}
use pickforge.Toml.Markers.{
  marker_here, find_from, find_marker_line, split_markers, current_markers, MarkerSplit,
  unbalanced_markers, foreign_section,
}
use pickforge.Toml.Scan.{
  TomlScanState, quote_run, multiline_round, scan_multiline, single_round, scan_single_line,
  scan_string, bracket_depth, scan_from, scan_toml_line,
}
use pickforge.Toml.Automaton.{read_line}
use pickforge.Toml.Runs.{scan_toml_line-read_line}
use pickforge.Toml.Sections.{
  skip_subtable, close_header, section_here, at_some_line, has_section, skip_comment,
  is_browser_header,
}
use pickforge.Toml.Editing.{
  prepare_legacy_block, render_toml_snippet, upsert_toml_marker_block, without_marker_block,
  remove_toml_marker_block,
}
use pickforge.Toml.Inspection.{
  includes, inspect_toml_file, missing_inspection, toml_file_has_mcp_server, inspect-upsert_iff,
}
use pickforge.Toml.Outside.{split_markers-content}

abbrev top : TomlScanState
top = record { multiline = none; depth = 0 }

-- A string of three quotes that is left open, in a list.
left_open :
    scan_toml_line (units "a = [ \"\"\"x # [") top ≡ record { multiline = some 34; depth = 1 }
unfolding scan_toml_line scan_from scan_string scan_multiline multiline_round quote_run
    scan_single_line single_round bracket_depth
left_open = refl

-- Five quotes, of which the last three close the string, and a comment.
closed_by_five :
    scan_toml_line (units "x\"\"\"\"\" ] # [") (record { multiline = some 34; depth = 1 }) ≡ top
unfolding scan_toml_line scan_from scan_string scan_multiline multiline_round quote_run
    scan_single_line single_round bracket_depth
closed_by_five = refl

header_found : is_browser_header (units " [ mcp_servers . 'pickforge-lab-browser' .env] # x") ≡ true
unfolding is_browser_header strip blanks close_header skip_subtable skip_comment
header_found = refl

foreign_found : has_section (units "a = 1\n\t[mcp_servers.\"picklab\".env] \nb = 2") ≡ true
unfolding has_section at_some_line section_here strip blanks close_header skip_subtable
    blanks_and_end return_and_end at_line_end
foreign_found = refl

abbrev managed : List ℕ
managed = units "a = 1\n# >>> pickforge-lab >>> \nb\n# <<< pickforge-lab <<<\nc"

abbrev managed_split : MarkerSplit
managed_split = record {
  before = units "a = 1\n";
  block = some (units "# >>> pickforge-lab >>> \nb\n# <<< pickforge-lab <<<\n");
  after = units "c";
}

managed_is_split : split_markers managed current_markers ≡ ok managed_split
unfolding split_markers find_marker_line find_from marker_here strip blanks blanks_and_end
    return_and_end at_line_end
managed_is_split = refl

half_is_refused :
    split_markers (units "# >>> pickforge-lab >>>\n") current_markers ≡ err unbalanced_markers
unfolding split_markers find_marker_line find_from marker_here strip blanks blanks_and_end
    return_and_end at_line_end
half_is_refused = refl

managed_is_removed : remove_toml_marker_block managed ≡ ok (units "a = 1\nc", true)
unfolding remove_toml_marker_block without_marker_block split_markers find_marker_line find_from
    marker_here strip blanks blanks_and_end return_and_end at_line_end
managed_is_removed = refl

abbrev in_quotes : String → List ℕ
in_quotes text = 34 ∷ (units text ++ 34 ∷ [])

abbrev lab_block : List ℕ
lab_block =
    units
      "# >>> pickforge-lab >>>\n[mcp_servers.\"pickforge-lab\"]\ncommand = \"pickforge-lab\"\nargs = [\"mcp\", \"serve\"]\n# <<< pickforge-lab <<<\n"

lab_is_registered : toml_file_has_mcp_server in_quotes (some lab_block) none ≡ true
unfolding toml_file_has_mcp_server inspect_toml_file includes prepare_legacy_block
    render_toml_snippet pickforge_lab_mcp_server_entries split_markers find_marker_line find_from
    marker_here strip blanks blanks_and_end return_and_end at_line_end has_section at_some_line
    section_here
lab_is_registered = refl

missing_is_not_registered : toml_file_has_mcp_server in_quotes none none ≡ false
unfolding toml_file_has_mcp_server inspect_toml_file missing_inspection
missing_is_not_registered = refl

inspect-upsert_iff_example :
    ((inspect_toml_file in_quotes (some (units "[mcp_servers.picklab]"))).has_foreign_section
      ≡ true)
    ↔ (upsert_toml_marker_block in_quotes (units "[mcp_servers.picklab]") none false
        ≡ err foreign_section)
inspect-upsert_iff_example = inspect-upsert_iff in_quotes (units "[mcp_servers.picklab]") none false

scan_toml_line-read_line_example :
    scan_toml_line (units "a = [ \"\"\"x") top ≡ read_line (units "a = [ \"\"\"x") top
scan_toml_line-read_line_example = scan_toml_line-read_line (units "a = [ \"\"\"x") top

split_markers-content_example :
    units "a = 1\n" ++ (units "# >>> pickforge-lab >>> \nb\n# <<< pickforge-lab <<<\n" ++ units "c")
    ≡ managed
split_markers-content_example =
    split_markers-content managed current_markers managed_split managed_is_split
