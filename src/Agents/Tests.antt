-- ===== src/Agents/Tests.antt =====
-- The registration checked on a configuration with another agent's server, a setting and an owned
-- legacy entry.
use pickforge.Base.{◌≡◌, refl, String, true, false, Option, none, some, List, [], ◌∷◌, ok, err}
use pickforge.Json.{Json, undefined, str, arr, obj, nil, cons, end, field, get, prop, has}
use pickforge.Agents.Objects.{set_field, delete_field, delete_fields}
use pickforge.Agents.Snippet.{
  pickforge_lab_mcp_server_entries, wants_browser_entry, legacy_mcp_server_entries,
}
use pickforge.Agents.JsonConfig.{
  ConfigFile, missing, unreadable, holds, read_failed, not_found, read_json_object,
  normalized_entry, entry_matches, owned_legacy_entry_names, merged_servers, JsonMergeOptions,
  ChangeResult, merge_servers, merge_mcp_server_into_json_file,
  replace_owned_legacy_mcp_servers_in_json_file, remove_mcp_server_from_json_file, unchanged,
}
use pickforge.Agents.Current.{merge-idempotent}
use pickforge.Agents.Removal.{server, IsLeft, merge-server, remove-server}

-- The first text of a list, for `JSON.stringify`.
abbrev first_text : Json → Option String
first_text undefined = none
first_text (arr (cons (str s) items)) = some s
first_text v = some ""

abbrev other_server : Json
other_server = obj (field "command" (str "other") end)

abbrev legacy_server : Json
legacy_server = obj (
    field "command" (str "picklab")
      (field "args" (arr (cons (str "mcp") (cons (str "serve") nil))) end))

abbrev lab_server : Json
lab_server = obj (
    field "command" (str "pickforge-lab")
      (field "args" (arr (cons (str "mcp") (cons (str "serve") nil))) end))

abbrev before : ConfigFile
before = holds (
    obj (
      field "theme" (str "dark") (
        field "mcpServers" (obj (field "other" other_server (field "picklab" legacy_server end)))
          end)))

abbrev after : ConfigFile
after = holds (
    obj (
      field "theme" (str "dark") (
        field "mcpServers" (obj (field "other" other_server (field "pickforge-lab" lab_server end)))
          end)))

abbrev plain : JsonMergeOptions
plain = record { browser = false; create_if_missing = false; entry = none }

abbrev migrated_result : ChangeResult
migrated_result = record {
  changed = true;
  backed_up = true;
  migrated = "picklab" ∷ [];
  retained = [];
}

before_merged :
    merge_mcp_server_into_json_file first_text plain before ≡ ok (after, migrated_result)
unfolding merge_mcp_server_into_json_file merge_servers merged_servers owned_legacy_entry_names
    entry_matches legacy_mcp_server_entries wants_browser_entry pickforge_lab_mcp_server_entries
    set_field delete_fields delete_field normalized_entry read_json_object get prop has
before_merged = refl

missing_is_not_made : merge_mcp_server_into_json_file first_text plain missing ≡ err not_found
unfolding merge_mcp_server_into_json_file read_json_object
missing_is_not_made = refl

unreadable_is_left : remove_mcp_server_from_json_file first_text unreadable ≡ err read_failed
unfolding remove_mcp_server_from_json_file read_json_object
unreadable_is_left = refl

missing_is_left :
    replace_owned_legacy_mcp_servers_in_json_file first_text true missing ≡ (missing, unchanged [])
unfolding replace_owned_legacy_mcp_servers_in_json_file
missing_is_left = refl

abbrev removed : ConfigFile
removed = holds (
    obj
      (field "theme" (str "dark") (field "mcpServers" (obj (field "other" other_server end)) end)))

after_removed :
    remove_mcp_server_from_json_file first_text after
    ≡ ok (removed, record { changed = true; backed_up = true; migrated = []; retained = [] })
unfolding remove_mcp_server_from_json_file owned_legacy_entry_names entry_matches
    legacy_mcp_server_entries set_field delete_fields delete_field read_json_object get prop has
after_removed = refl

merge-idempotent_example :
    (retained : List String) × (merge_mcp_server_into_json_file first_text plain after
      ≡ ok (after, unchanged retained))
merge-idempotent_example =
    merge-idempotent first_text plain before after migrated_result before_merged

merge-server_example : server "other" after ≡ server "other" before
unfolding pickforge_lab_mcp_server_entries
merge-server_example =
    merge-server first_text plain before after migrated_result "other" before_merged refl refl

remove-server_example : IsLeft first_text "other" (server "other" after) (server "other" removed)
remove-server_example =
    remove-server first_text after removed
      (record { changed = true; backed_up = true; migrated = []; retained = [] }) "other"
      after_removed
