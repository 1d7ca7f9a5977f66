-- ===== src/Agents/Removal.antt =====
-- packages/agent-installers/src/jsonConfig.ts: the servers and settings that an edit leaves alone.
use pickforge.Base.{
  ◌≡◌, ◌⊎◌, ◌∙◌, inl, inr, sym, Bool-cases, Option-cases, subst, String, str_eq, eq_refl, eq_iff,
  Bool, true, false, Option, none, some, List, [], ◌∷◌, if◌then◌else◌, arith, ok, Result-cases,
  bind_option,
}
use pickforge.Json.{
  Json, Fields, undefined, null, bool, num, str, arr, obj, end, field, get, prop, has,
}
use pickforge.Agents.Objects.{
  delete_fields, names_it, get-set_field, get-delete_field, get-delete_fields,
}
use pickforge.Agents.Snippet.{
  McpServerEntry, mcp_server_name, browser_mcp_server_name, pickforge_lab_mcp_server_entries,
  wants_browser_entry,
}
use pickforge.Agents.JsonConfig.{
  ConfigFile, missing, unreadable, invalid, holds, entry_matches, owned_legacy_entry_names,
  merged_servers, entries_of, servers_of, fields_or_empty, with_servers, without_servers,
  names_to_remove, remove_in, remove_mcp_server_from_json_file, read_json_object,
  json_file_mcp_server_state, json_file_has_mcp_server, JsonMergeOptions, ChangeResult,
  merge_servers, merge_mcp_server_into_json_file, names_any, set_entries,
}
use pickforge.Agents.Owned.{
  IsLabs, is_labs, is_labs-IsLabs, IsLabs-is_labs, names_to_remove-is_labs,
}
use pickforge.Agents.Merging.{names_of, get-set_entries}

-- A setting of the configuration, and a server of it, if the file has them.
abbrev pub setting : String → ConfigFile → Option Json
setting k (holds (obj config)) = get k config
setting k file = none

abbrev pub server : String → ConfigFile → Option Json
server k (holds (obj config)) = bind_option (servers_of (prop "mcpServers" config)) (get k)
server k file = none

get_servers :
    (k : String) (v : Json)
    → bind_option (servers_of v) (get k) ≡ get k (fields_or_empty (servers_of v))
unfolding get
get_servers k v = ground arith

-- The servers of a file that was read.
server-read_json_object :
    (k : String) (file : ConfigFile) (existing : Option Fields)
    → read_json_object file ≡ ok existing
    → server k file
      ≡ get k (fields_or_empty (servers_of (prop "mcpServers" (fields_or_empty existing))))
unfolding read_json_object prop get
server-read_json_object k file existing e = ground (arith, get_servers k)

setting-read_json_object :
    (k : String) (file : ConfigFile) (existing : Option Fields)
    → read_json_object file ≡ ok existing
    → setting k file ≡ get k (fields_or_empty existing)
unfolding read_json_object get
setting-read_json_object k file existing e = ground arith

server-with_servers :
    (k : String) (config servers : Fields) → server k (with_servers config servers) ≡ get k servers
unfolding prop
server-with_servers k config servers =
    ground
      (arith, get-set_field "mcpServers" "mcpServers" (obj servers) config, eq_refl "mcpServers")

setting-with_servers :
    (k : String) (config servers : Fields)
    → str_eq "mcpServers" k ≡ false
    → setting k (with_servers config servers) ≡ get k config
setting-with_servers k config servers h =
    ground (arith, get-set_field "mcpServers" k (obj servers) config)

server-without_servers :
    (k : String) (config servers : Fields)
    → server k (without_servers config servers) ≡ get k servers
unfolding prop get
server-without_servers k config end =
    ground (arith, get-delete_field "mcpServers" "mcpServers" config, eq_refl "mcpServers")
server-without_servers k config (field j v fs) = server-with_servers k config (field j v fs)

setting-without_servers :
    (k : String) (config servers : Fields)
    → str_eq "mcpServers" k ≡ false
    → setting k (without_servers config servers) ≡ get k config
setting-without_servers k config end h = ground (arith, get-delete_field "mcpServers" k config)
setting-without_servers k config (field j v fs) h = setting-with_servers k config (field j v fs) h

names_of-fewer :
    (entry : Option McpServerEntry) (wanted : Bool) (k : String)
    → names_it (names_of (entries_of entry true)) k ≡ false
    → names_it (names_of (entries_of entry wanted)) k ≡ false
unfolding pickforge_lab_mcp_server_entries
names_of-fewer none true k h = h
names_of-fewer none false k h = ground arith
names_of-fewer (some entry) wanted k h = h

-- Whether a removal takes out the server: an edit of a file that cannot be read takes out none.
unfoldable removes : (Json → Option String) → ConfigFile → String → Bool
removes stringify (holds (obj config)) k =
    names_it (names_to_remove stringify (fields_or_empty (servers_of (prop "mcpServers" config)))) k
removes stringify file k = false

module _ (stringify : Json → Option String) where
  -- A server that the lab does not name, and no owned legacy one, is as it was; and so is a setting.
  merge_servers-kept :
      (opts : JsonMergeOptions) (file : ConfigFile) (existing : Option Fields) (servers : Fields)
      (k : String)
      → names_it (names_of (entries_of opts.entry true)) k ≡ false
      → names_it ((merge_servers stringify opts file existing servers).1.migrated) k ≡ false
      → server k file ≡ get k servers
      → server k ((merge_servers stringify opts file existing servers).0) ≡ server k file
  unfolding merge_servers merged_servers
  merge_servers-kept opts file existing servers k h m e =
      let migrated = owned_legacy_entry_names stringify servers in
      let wanted =
        wants_browser_entry opts.browser migrated (has browser_mcp_server_name servers) in
      let entries = entries_of opts.entry wanted in
      let kept = delete_fields migrated servers in
      ground (
        arith,
        e,
        server-with_servers k (fields_or_empty existing) (set_entries entries kept),
        get-set_entries entries k kept (names_of-fewer opts.entry wanted k h),
        get-delete_fields migrated k servers,
      )

  merge_servers-setting :
      (opts : JsonMergeOptions) (file : ConfigFile) (existing : Option Fields) (servers : Fields)
      (k : String)
      → str_eq "mcpServers" k ≡ false
      → setting k file ≡ get k (fields_or_empty existing)
      → setting k ((merge_servers stringify opts file existing servers).0) ≡ setting k file
  unfolding merge_servers
  merge_servers-setting opts file existing servers k h e =
      let migrated = owned_legacy_entry_names stringify servers in
      let wanted =
        wants_browser_entry opts.browser migrated (has browser_mcp_server_name servers) in
      let next = merged_servers servers (entries_of opts.entry wanted) migrated in
      ground (arith, e, setting-with_servers k (fields_or_empty existing) next h)

  -- A merge keeps the servers other than the lab's own and the legacy ones that it migrates.
  pub merge-server :
      (opts : JsonMergeOptions) (file file' : ConfigFile) (result : ChangeResult) (k : String)
      → merge_mcp_server_into_json_file stringify opts file ≡ ok (file', result)
      → names_it (names_of (entries_of opts.entry true)) k ≡ false
      → names_it result.migrated k ≡ false
      → server k file' ≡ server k file
  unfolding merge_mcp_server_into_json_file
  merge-server opts file file' result k e named migrated =
      elim (Result-cases (read_json_object file)) [
        | inl (existing, read) ↦
            let servers =
              fields_or_empty (servers_of (prop "mcpServers" (fields_or_empty existing))) in
            let merged : merge_servers stringify opts file existing servers ≡ (file', result) =
              ground arith in
            subst (λ r. server k (r.0) ≡ server k file) merged
              (merge_servers-kept opts file existing servers k named
                (subst (λ r. names_it (r.1.migrated) k ≡ false) (sym merged) migrated)
                (server-read_json_object k file existing read))
        | inr thrown ↦ ground arith
      ]

  -- A merge keeps the settings other than the servers.
  pub merge-setting :
      (opts : JsonMergeOptions) (file file' : ConfigFile) (result : ChangeResult) (k : String)
      → merge_mcp_server_into_json_file stringify opts file ≡ ok (file', result)
      → str_eq "mcpServers" k ≡ false
      → setting k file' ≡ setting k file
  unfolding merge_mcp_server_into_json_file
  merge-setting opts file file' result k e other = elim (Result-cases (read_json_object file)) [
    | inl (existing, read) ↦
        let servers = fields_or_empty (servers_of (prop "mcpServers" (fields_or_empty existing))) in
        ground (
          arith,
          merge_servers-setting opts file existing servers k other
              (setting-read_json_object k file existing read),
        )
    | inr thrown ↦ ground arith
  ]

  -- The names of the lab are removed if they are there.
  removed_name :
      (servers : Fields) (k : String)
      → names_it (mcp_server_name ∷ browser_mcp_server_name ∷ []) k ≡ true
      → (if names_it (names_to_remove stringify servers) k then none else get k servers) ≡ none
  unfolding has
  removed_name servers k h =
      ground (arith, eq_iff mcp_server_name k, eq_iff browser_mcp_server_name k)

  names_any-empty :
      (names : List String) (k : String) → names_any names ≡ false → names_it names k ≡ false
  names_any-empty names k h = ground arith

  -- What is left of a server: nothing, if it is one of the names, and else itself.
  remove_in-server :
      (file : ConfigFile) (config servers : Fields) (k : String)
      → server k file ≡ get k servers
      → server k ((remove_in stringify file config (some servers)).0)
        ≡ (if names_it (names_to_remove stringify servers) k then none else get k servers)
  remove_in-server file config servers k e =
      let names = names_to_remove stringify servers in
      ground (
        arith,
        e,
        names_any-empty names k,
        server-without_servers k config (delete_fields names servers),
        get-delete_fields names k servers,
      )

  remove_in-found :
      (file : ConfigFile) (config : Fields) (found : Option Fields) (k : String)
      → server k file ≡ get k (fields_or_empty found)
      → server k ((remove_in stringify file config found).0) ≡ (
          if names_it (names_to_remove stringify (fields_or_empty found)) k
          then none
          else server k file)
  unfolding get
  remove_in-found file config none k e = ground (arith, e)
  remove_in-found file config (some servers) k e =
      ground (arith, e, remove_in-server file config servers k e)

  -- What is left of a server of the file.
  server-removed :
      (file file' : ConfigFile) (result : ChangeResult) (k : String)
      → remove_mcp_server_from_json_file stringify file ≡ ok (file', result)
      → server k file' ≡ (if removes stringify file k then none else server k file)
  unfolding remove_mcp_server_from_json_file read_json_object removes get
  server-removed missing file' result k e = ground arith
  server-removed unreadable file' result k e = ground arith
  server-removed invalid file' result k e = ground arith
  server-removed (holds (obj config)) file' result k e =
      let found = servers_of (prop "mcpServers" config) in
      ground (
        arith,
        remove_in-found (holds (obj config)) config found k
            (get_servers k (prop "mcpServers" config)),
      )
  server-removed (holds undefined) file' result k e = ground arith
  server-removed (holds null) file' result k e = ground arith
  server-removed (holds (bool b)) file' result k e = ground arith
  server-removed (holds (num n)) file' result k e = ground arith
  server-removed (holds (str t)) file' result k e = ground arith
  server-removed (holds (arr items)) file' result k e = ground arith

  -- A server before and after a removal.
  abbrev pub IsLeft : String → Option Json → Option Json → Type 0
  IsLeft k none left = left ≡ none
  IsLeft k (some v) left =
      (IsLabs stringify k v × (left ≡ none)) ⊎ ((¬ IsLabs stringify k v) × (left ≡ some v))

  removes-is_labs :
      (file : ConfigFile) (k : String) (v : Json)
      → server k file ≡ some v
      → removes stringify file k ≡ is_labs stringify k v
  unfolding removes
  removes-is_labs (holds (obj config)) k v e =
      let servers = fields_or_empty (servers_of (prop "mcpServers" config)) in
      names_to_remove-is_labs stringify servers k v
        (sym (get_servers k (prop "mcpServers" config)) ∙ e)
  removes-is_labs missing k v e = ground (arith, e)
  removes-is_labs unreadable k v e = ground (arith, e)
  removes-is_labs invalid k v e = ground (arith, e)
  removes-is_labs (holds undefined) k v e = ground (arith, e)
  removes-is_labs (holds null) k v e = ground (arith, e)
  removes-is_labs (holds (bool b)) k v e = ground (arith, e)
  removes-is_labs (holds (num n)) k v e = ground (arith, e)
  removes-is_labs (holds (str t)) k v e = ground (arith, e)
  removes-is_labs (holds (arr items)) k v e = ground (arith, e)

  -- A removal takes out the servers `pickforge-lab` and `pickforge-lab-browser`, and `picklab` and
  -- `picklab-browser` exactly if their entry has the command `picklab` and the arguments of the
  -- earlier release; every other server is left as it was, and none is added.
  pub remove-server :
      (file file' : ConfigFile) (result : ChangeResult) (k : String)
      → remove_mcp_server_from_json_file stringify file ≡ ok (file', result)
      → IsLeft k (server k file) (server k file')
  remove-server file file' result k e =
      let left = server-removed file file' result k e in
      elim (Option-cases (server k file)) [
        | inl absent ↦
            subst (λ o. IsLeft k o (server k file')) (sym absent) (ground (arith, left, absent))
        | inr (v, there) ↦
            let removed = removes-is_labs file k v there in
            subst (λ o. IsLeft k o (server k file')) (sym there)
              (elim (Bool-cases (is_labs stringify k v)) [
                | inl labs ↦
                    inl (is_labs-IsLabs stringify k v labs, ground (arith, left, removed, labs))
                | inr others ↦ inr (
                  λ labs. ground (arith, others, IsLabs-is_labs stringify k v labs),
                  ground (arith, left, removed, others, there),
                )
              ])
      ]

  -- After a removal the lab's servers are no longer registered.
  pub remove-not_registered :
      (file file' : ConfigFile) (result : ChangeResult) (browser : Bool)
      → remove_mcp_server_from_json_file stringify file ≡ ok (file', result)
      → json_file_has_mcp_server stringify (pickforge_lab_mcp_server_entries browser) file' ≡ false
  unfolding json_file_has_mcp_server json_file_mcp_server_state read_json_object
      pickforge_lab_mcp_server_entries entry_matches prop removes has get
  remove-not_registered file file' result browser e =
      let gone = server-removed file file' result mcp_server_name e in ground (arith, gone)
