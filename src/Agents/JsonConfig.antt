-- ===== src/Agents/JsonConfig.antt =====
-- packages/agent-installers/src/jsonConfig.ts: the editing of an agent's JSON configuration. The
-- file stands for what `JSON.parse` makes of it, so that a written object is read back as it is.
use pickforge.Base.{
  String, str_eq, Bool, true, false, not, ◌&&◌, ◌||◌, Option, none, some, List, [], ◌∷◌, ◌++◌, keep,
  if◌then◌else◌, Result, ok, err, ◌>>=◌, ◌>>◌, require,
}
use pickforge.Json.{Json, Items, Fields, str, arr, obj, nil, cons, end, field, prop, has}
use pickforge.Agents.Objects.{set_field, delete_field, delete_fields}
use pickforge.Agents.Snippet.{
  McpServerEntry, mcp_server_name, browser_mcp_server_name, pickforge_lab_mcp_server_entries,
  wants_browser_entry, legacy_mcp_server_entries,
}

-- Not there, not readable for another reason, not JSON, or with a value.
pub data ConfigFile : Type 0 where
  missing unreadable invalid : ConfigFile
  holds : Json → ConfigFile

pub data ConfigError : Type 0 where
  read_failed invalid_json not_an_object not_found : ConfigError

unfoldable pub read_json_object : ConfigFile → Result ConfigError (Option Fields)
read_json_object missing = ok none
read_json_object unreadable = err read_failed
read_json_object invalid = err invalid_json
read_json_object (holds (obj fs)) = ok (some fs)
read_json_object (holds v) = err not_an_object

abbrev pub items_of : List String → Items
items_of [] = nil
items_of (s ∷ ss) = cons (str s) (items_of ss)

abbrev pub json_args : McpServerEntry → Json
json_args entry = arr (items_of entry.args)

abbrev pub same_text : Option String → Option String → Bool
same_text none none = true
same_text (some s) (some t) = str_eq s t
same_text _ _ = false

abbrev pub is_string_of : Json → String → Bool
is_string_of (str s) t = str_eq s t
is_string_of _ t = false

-- `normalizedEntry`
unfoldable pub normalized_entry : McpServerEntry → Json
normalized_entry entry =
    obj (field "command" (str entry.command) (field "args" (json_args entry) end))

-- `JSON.stringify` is `stringify`, which gives no text for `undefined`.
module _ (stringify : Json → Option String) where
  unfoldable pub entry_matches : Json → McpServerEntry → Bool
  entry_matches (obj fs) entry =
      is_string_of (prop "command" fs) entry.command
      && same_text (stringify (prop "args" fs)) (stringify (json_args entry))
  entry_matches v entry = false

  abbrev pub all_match : Fields → List (String × McpServerEntry) → Bool
  all_match servers [] = true
  all_match servers ((name, entry) ∷ entries) =
      entry_matches (prop name servers) entry && all_match servers entries

  abbrev pub matching_names : Fields → List (String × McpServerEntry) → List String
  matching_names servers [] = []
  matching_names servers ((name, entry) ∷ entries) =
      let rest = matching_names servers entries in
      if entry_matches (prop name servers) entry then name ∷ rest else rest

  unfoldable pub owned_legacy_entry_names : Fields → List String
  owned_legacy_entry_names servers = matching_names servers legacy_mcp_server_entries

abbrev pub retained_entry_names : Fields → Bool → List String
retained_entry_names servers browser =
    if not browser && has browser_mcp_server_name servers then browser_mcp_server_name ∷ [] else []

abbrev pub set_entries : List (String × McpServerEntry) → Fields → Fields
set_entries [] fs = fs
set_entries ((name, entry) ∷ entries) fs =
    set_entries entries (set_field name (normalized_entry entry) fs)

unfoldable pub merged_servers : Fields → List (String × McpServerEntry) → List String → Fields
merged_servers servers entries legacy = set_entries entries (delete_fields legacy servers)

-- `isPlainObject(config.mcpServers)`
abbrev pub servers_of : Json → Option Fields
servers_of (obj fs) = some fs
servers_of v = none

abbrev pub fields_or_empty : Option Fields → Fields
fields_or_empty none = end
fields_or_empty (some fs) = fs

abbrev pub with_servers : Fields → Fields → ConfigFile
with_servers config servers = holds (obj (set_field "mcpServers" (obj servers) config))

-- The configuration with the servers that are left, or without the setting if none is.
abbrev pub without_servers : Fields → Fields → ConfigFile
without_servers config end = holds (obj (delete_field "mcpServers" config))
without_servers config (field k v fs) = with_servers config (field k v fs)

pub record ChangeResult : Type 0 where
  pub changed : Bool
  pub backed_up : Bool
  pub migrated : List String
  pub retained : List String

abbrev pub unchanged : List String → ChangeResult
unchanged retained = record {
  changed = false;
  backed_up = false;
  migrated = [];
  retained = retained;
}

pub record JsonMergeOptions : Type 0 where
  pub browser : Bool
  pub create_if_missing : Bool
  pub entry : Option McpServerEntry

abbrev pub entries_of : Option McpServerEntry → Bool → List (String × McpServerEntry)
entries_of none browser = pickforge_lab_mcp_server_entries browser
entries_of (some entry) browser = (mcp_server_name, entry) ∷ []

abbrev pub names_any : List String → Bool
names_any [] = false
names_any (name ∷ names) = true

abbrev pub is_there : Option Fields → Bool
is_there none = false
is_there (some fs) = true

-- The three answers of `RegistrationState`.
pub data RegistrationState : Type 0 where
  registered not_registered unknown : RegistrationState

module _ (stringify : Json → Option String) where
  -- `mergeMcpServerIntoJsonFile`, after the servers have been found.
  unfoldable pub merge_servers :
      JsonMergeOptions → ConfigFile → Option Fields → Fields → ConfigFile × ChangeResult
  merge_servers opts file existing servers =
      let migrated = owned_legacy_entry_names stringify servers in
      let browser =
        wants_browser_entry opts.browser migrated (has browser_mcp_server_name servers) in
      let entries = entries_of opts.entry browser in
      let retained = retained_entry_names servers browser in
      if all_match stringify servers entries && not (names_any migrated)
      then (file, unchanged retained)
      else (
        with_servers (fields_or_empty existing) (merged_servers servers entries migrated),
        record {
          changed = true;
          backed_up = is_there existing;
          migrated = migrated;
          retained = retained;
        },
      )

  unfoldable pub merge_mcp_server_into_json_file :
      JsonMergeOptions → ConfigFile → Result ConfigError (ConfigFile × ChangeResult)
  merge_mcp_server_into_json_file opts file = do
    existing ← read_json_object file
    require (is_there existing || opts.create_if_missing) not_found
    let servers = fields_or_empty (servers_of (prop "mcpServers" (fields_or_empty existing)))
    ok (merge_servers opts file existing servers)

  -- The servers of a file that was read, if it has them.
  abbrev pub servers_in : Result ConfigError (Option Fields) → Option Fields
  servers_in (ok (some config)) = servers_of (prop "mcpServers" config)
  servers_in _ = none

  -- The edit of `replaceOwnedLegacyMcpServersInJsonFile`.
  abbrev pub replace_in : Bool → ConfigFile → Fields → Fields → ConfigFile × ChangeResult
  replace_in browser file config servers =
      let migrated = owned_legacy_entry_names stringify servers in
      let browser = wants_browser_entry browser migrated (has browser_mcp_server_name servers) in
      if not (names_any migrated) then (file, unchanged []) else (
        with_servers config
            (merged_servers servers (pickforge_lab_mcp_server_entries browser) migrated),
        record {
          changed = true;
          backed_up = true;
          migrated = migrated;
          retained = retained_entry_names servers browser;
        },
      )

  abbrev pub replace_servers :
      Bool → ConfigFile → Fields → Option Fields → ConfigFile × ChangeResult
  replace_servers browser file config none = (file, unchanged [])
  replace_servers browser file config (some servers) = replace_in browser file config servers

  unfoldable pub replace_owned_legacy_mcp_servers_in_json_file :
      Bool → ConfigFile → ConfigFile × ChangeResult
  replace_owned_legacy_mcp_servers_in_json_file browser (holds (obj config)) =
      replace_servers browser (holds (obj config)) config (servers_of (prop "mcpServers" config))
  replace_owned_legacy_mcp_servers_in_json_file browser file = (file, unchanged [])

  -- `[MCP_SERVER_NAME, BROWSER_MCP_SERVER_NAME].filter(...)` and the owned legacy names.
  abbrev pub names_to_remove : Fields → List String
  names_to_remove servers =
      keep (λ name. has name servers) (mcp_server_name ∷ browser_mcp_server_name ∷ [])
      ++ owned_legacy_entry_names stringify servers

  abbrev pub remove_in : ConfigFile → Fields → Option Fields → ConfigFile × ChangeResult
  remove_in file config none = (file, unchanged [])
  remove_in file config (some servers) =
      let names = names_to_remove servers in
      if not (names_any names) then (file, unchanged []) else (
        without_servers config (delete_fields names servers),
        record { changed = true; backed_up = true; migrated = []; retained = [] },
      )

  -- The object of the file, if there is one.
  abbrev pub remove_read : ConfigFile → Option Fields → ConfigFile × ChangeResult
  remove_read file none = (file, unchanged [])
  remove_read file (some config) = remove_in file config (servers_of (prop "mcpServers" config))

  unfoldable pub remove_mcp_server_from_json_file :
      ConfigFile → Result ConfigError (ConfigFile × ChangeResult)
  remove_mcp_server_from_json_file file = do
    existing ← read_json_object file
    ok (remove_read file existing)

  abbrev pub state_in : List (String × McpServerEntry) → Option Fields → RegistrationState
  state_in expected none = not_registered
  state_in expected (some servers) =
      if all_match stringify servers expected then registered else not_registered

  abbrev pub state_read :
      List (String × McpServerEntry) → Result ConfigError (Option Fields) → RegistrationState
  state_read expected (err e) = unknown
  state_read expected (ok none) = not_registered
  state_read expected (ok (some config)) = state_in expected (servers_of (prop "mcpServers" config))

  -- `expected` is `opts.expected` under its name, or the lab's own entry.
  unfoldable pub json_file_mcp_server_state :
      List (String × McpServerEntry) → ConfigFile → RegistrationState
  json_file_mcp_server_state expected file = state_read expected (read_json_object file)

  abbrev pub is_registered : RegistrationState → Bool
  is_registered registered = true
  is_registered _ = false

  unfoldable pub json_file_has_mcp_server : List (String × McpServerEntry) → ConfigFile → Bool
  json_file_has_mcp_server expected file = is_registered (json_file_mcp_server_state expected file)
