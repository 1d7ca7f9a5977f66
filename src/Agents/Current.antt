-- ===== src/Agents/Current.antt =====
-- packages/agent-installers/src/jsonConfig.ts: after a merge the file is current, and a second merge
-- leaves it alone.
use pickforge.Base.{
  ◌≡◌, inl, inr, refl, sym, String, eq_refl, Bool, true, false, not, ◌&&◌, Option, none, some, List,
  [], if◌then◌else◌, arith, ok, Result-cases, subst,
}
use pickforge.Json.{Json, Fields, obj, end, get, prop, has}
use pickforge.Agents.Objects.{set_field, names_it, get-set_field}
use pickforge.Agents.Snippet.{
  McpServerEntry, browser_mcp_server_name, pickforge_lab_mcp_server_entries, wants_browser_entry,
  legacy_mcp_server_name, legacy_browser_mcp_server_name,
}
use pickforge.Agents.JsonConfig.{
  ConfigFile, holds, entry_matches, all_match, owned_legacy_entry_names, merged_servers, entries_of,
  servers_of, fields_or_empty, with_servers, read_json_object, json_file_mcp_server_state,
  registered, JsonMergeOptions, ChangeResult, merge_servers, merge_mcp_server_into_json_file,
  names_any, unchanged, retained_entry_names,
}
use pickforge.Agents.Merging.{
  Distinct, names_of, all_match-set_entries, owned_legacy-merged_servers,
}

entries_of-Distinct :
    (entry : Option McpServerEntry) (browser : Bool)
    → Distinct (entries_of entry browser)
      × (names_it (names_of (entries_of entry browser)) legacy_mcp_server_name ≡ false)
      × (names_it (names_of (entries_of entry browser)) legacy_browser_mcp_server_name ≡ false)
unfolding pickforge_lab_mcp_server_entries
entries_of-Distinct none true = ((refl, (refl, tt)), refl, refl)
entries_of-Distinct none false = ((refl, tt), refl, refl)
entries_of-Distinct (some entry) browser = ((refl, tt), refl, refl)

abbrev servers_or_none : Option Fields → Fields
servers_or_none existing =
    fields_or_empty (servers_of (prop "mcpServers" (fields_or_empty existing)))

module _ (stringify : Json → Option String) where
  -- The browser's entry is the last, so that fewer match too.
  all_match-fewer :
      (servers : Fields) (entry : Option McpServerEntry) (wanted browser : Bool)
      → (browser ≡ true → wanted ≡ true)
      → all_match stringify servers (entries_of entry wanted) ≡ true
      → all_match stringify servers (entries_of entry browser) ≡ true
  unfolding pickforge_lab_mcp_server_entries
  all_match-fewer servers none true true h m = m
  all_match-fewer servers none true false h m = ground (arith, m)
  all_match-fewer servers none false true h m = ground (arith, h refl)
  all_match-fewer servers none false false h m = m
  all_match-fewer servers (some entry) wanted browser h m = m

  no_servers-unmatched :
      (entry : Option McpServerEntry) (browser : Bool)
      → all_match stringify end (entries_of entry browser) ≡ false
  unfolding pickforge_lab_mcp_server_entries entry_matches prop get
  no_servers-unmatched none browser = refl
  no_servers-unmatched (some entry) browser = refl

  -- The servers of the configuration, of which those that the options ask for are as written now,
  -- and no legacy entry is the lab's own.
  unfoldable pub IsCurrent : JsonMergeOptions → ConfigFile → Type 0
  IsCurrent opts file =
      (config : Fields) × (servers : Fields) × (file ≡ holds (obj config))
      × (servers_of (prop "mcpServers" config) ≡ some servers)
      × (all_match stringify servers (entries_of opts.entry opts.browser) ≡ true)
      × (owned_legacy_entry_names stringify servers ≡ [])

  wanted_if_asked :
      (browser : Bool) (migrated : List String) (held : Bool)
      → browser ≡ true
      → wants_browser_entry browser migrated held ≡ true
  unfolding wants_browser_entry
  wanted_if_asked browser migrated held h = ground arith

  names_any-none : (names : List String) → names_any names ≡ false → names ≡ []
  names_any-none names h = ground arith

  chosen-IsCurrent :
      (opts : JsonMergeOptions) (b : Bool) (kept written : ConfigFile × ChangeResult)
      → (b ≡ true → IsCurrent opts (kept.0))
      → IsCurrent opts (written.0)
      → IsCurrent opts ((if b then kept else written).0)
  chosen-IsCurrent opts true kept written h h' = h refl
  chosen-IsCurrent opts false kept written h h' = h'

  -- What has been written is current.
  written-IsCurrent :
      (opts : JsonMergeOptions) (config servers : Fields) (wanted : Bool)
      → (opts.browser ≡ true → wanted ≡ true)
      → IsCurrent opts (
          with_servers config (
            merged_servers servers
              (entries_of opts.entry wanted)
              (owned_legacy_entry_names stringify servers)))
  unfolding IsCurrent prop merged_servers
  written-IsCurrent opts config servers wanted h =
      let distinct = entries_of-Distinct opts.entry wanted in
      let next =
        merged_servers servers (entries_of opts.entry wanted)
          (owned_legacy_entry_names stringify servers) in
      (
        set_field "mcpServers" (obj next) config,
        next,
        refl,
        ground (
          arith,
          get-set_field "mcpServers" "mcpServers" (obj next) config,
          eq_refl "mcpServers",
        ),
        all_match-fewer next opts.entry wanted opts.browser h
            (all_match-set_entries stringify _ _ (distinct.0)),
        owned_legacy-merged_servers stringify servers (entries_of opts.entry wanted) (distinct.1)
            (distinct.2),
      )

  -- A configuration that is left alone is current.
  kept-IsCurrent :
      (opts : JsonMergeOptions) (config servers : Fields) (wanted : Bool)
      → (opts.browser ≡ true → wanted ≡ true)
      → servers ≡ fields_or_empty (servers_of (prop "mcpServers" config))
      → all_match stringify servers (entries_of opts.entry wanted) ≡ true
      → owned_legacy_entry_names stringify servers ≡ []
      → IsCurrent opts (holds (obj config))
  unfolding IsCurrent
  kept-IsCurrent opts config servers wanted h e m o = (
    config,
    servers,
    refl,
    ground (arith, e, m, no_servers-unmatched opts.entry wanted),
    all_match-fewer servers opts.entry wanted opts.browser h m,
    o,
  )

  read_json_object-holds :
      (file : ConfigFile) (config : Fields)
      → read_json_object file ≡ ok (some config)
      → file ≡ holds (obj config)
  unfolding read_json_object
  read_json_object-holds file config e = ground arith

  unchanged-IsCurrent :
      (opts : JsonMergeOptions) (file : ConfigFile) (existing : Option Fields) (wanted : Bool)
      → (opts.browser ≡ true → wanted ≡ true)
      → read_json_object file ≡ ok existing
      → (all_match stringify (servers_or_none existing) (entries_of opts.entry wanted)
          && not (names_any (owned_legacy_entry_names stringify (servers_or_none existing))))
        ≡ true
      → IsCurrent opts file
  unfolding prop get
  unchanged-IsCurrent opts file none wanted asked e same =
      let absurd : ⊥ = ground (arith, same, no_servers-unmatched opts.entry wanted) in
      elim absurd [ ]
  unchanged-IsCurrent opts file (some config) wanted asked e same =
      subst (IsCurrent opts) (sym (read_json_object-holds file config e)) (
        kept-IsCurrent opts config (servers_or_none (some config)) wanted asked refl
          (ground (arith, same)) (names_any-none _ (ground (arith, same))))

  merge_servers-IsCurrent :
      (opts : JsonMergeOptions) (file : ConfigFile) (existing : Option Fields)
      → read_json_object file ≡ ok existing
      → IsCurrent opts ((merge_servers stringify opts file existing (servers_or_none existing)).0)
  unfolding merge_servers
  merge_servers-IsCurrent opts file existing e =
      let servers = servers_or_none existing in
      let migrated = owned_legacy_entry_names stringify servers in
      let held = has browser_mcp_server_name servers in
      let wanted = wants_browser_entry opts.browser migrated held in
      let asked = wanted_if_asked opts.browser migrated held in
      chosen-IsCurrent opts
        (all_match stringify servers (entries_of opts.entry wanted) && not (names_any migrated)) _ _
        (unchanged-IsCurrent opts file existing wanted asked e)
        (written-IsCurrent opts (fields_or_empty existing) servers wanted asked)

  -- After a merge the servers that it was asked for are as it writes them, and no legacy entry is left.
  pub merge-IsCurrent :
      (opts : JsonMergeOptions) (file file' : ConfigFile) (result : ChangeResult)
      → merge_mcp_server_into_json_file stringify opts file ≡ ok (file', result)
      → IsCurrent opts file'
  unfolding merge_mcp_server_into_json_file
  merge-IsCurrent opts file file' result e = elim (Result-cases (read_json_object file)) [
    | inl (existing, read) ↦
        let merged : (merge_servers stringify opts file existing (servers_or_none existing)).0
            ≡ file' =
          ground arith in
        subst (IsCurrent opts) merged (merge_servers-IsCurrent opts file existing read)
    | inr thrown ↦ ground arith
  ]

  -- The state that is read for the servers asked for is `true`.
  IsCurrent-state :
      (opts : JsonMergeOptions) (file : ConfigFile)
      → IsCurrent opts file
      → json_file_mcp_server_state stringify (entries_of opts.entry opts.browser) file ≡ registered
  unfolding IsCurrent json_file_mcp_server_state read_json_object
  IsCurrent-state opts file (config, servers, is, found, m, o) = ground (arith, is, found, m)

  -- A current file is left as it is.
  IsCurrent-merge :
      (opts : JsonMergeOptions) (file : ConfigFile)
      → IsCurrent opts file
      → (retained : List String) × (merge_mcp_server_into_json_file stringify opts file
          ≡ ok (file, unchanged retained))
  unfolding IsCurrent merge_mcp_server_into_json_file merge_servers wants_browser_entry
      read_json_object
  IsCurrent-merge opts file (config, servers, is, found, m, o) =
      (retained_entry_names servers opts.browser, ground (arith, is, found, m, o))

  -- After a merge the state that is read for the servers asked for is `true`.
  pub merge-json_file_mcp_server_state :
      (opts : JsonMergeOptions) (file file' : ConfigFile) (result : ChangeResult)
      → merge_mcp_server_into_json_file stringify opts file ≡ ok (file', result)
      → json_file_mcp_server_state stringify (entries_of opts.entry opts.browser) file' ≡ registered
  merge-json_file_mcp_server_state opts file file' result e =
      IsCurrent-state opts file' (merge-IsCurrent opts file file' result e)

  -- A second merge with the same options leaves the file that the first one left, and reports no change.
  pub merge-idempotent :
      (opts : JsonMergeOptions) (file file' : ConfigFile) (result : ChangeResult)
      → merge_mcp_server_into_json_file stringify opts file ≡ ok (file', result)
      → (retained : List String) × (merge_mcp_server_into_json_file stringify opts file'
          ≡ ok (file', unchanged retained))
  merge-idempotent opts file file' result e =
      IsCurrent-merge opts file' (merge-IsCurrent opts file file' result e)
