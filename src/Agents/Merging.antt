-- ===== src/Agents/Merging.antt =====
-- packages/agent-installers/src/jsonConfig.ts: what a merge writes is current, and changes nothing else.
use pickforge.Base.{
  ◌≡◌, refl, sym, ◌∙◌, String, eq_refl, Bool, true, false, Option, none, some, List, [], ◌∷◌,
  if◌then◌else◌, arith,
}
use pickforge.Json.{Json, Fields, get, prop, value_or_undefined}
use pickforge.Agents.Objects.{set_field, delete_fields, names_it, get-set_field, get-delete_fields}
use pickforge.Agents.Snippet.{
  McpServerEntry, legacy_mcp_server_entries, legacy_mcp_server_name, legacy_browser_mcp_server_name,
}
use pickforge.Agents.JsonConfig.{
  entry_matches, normalized_entry, same_text, all_match, json_args, owned_legacy_entry_names,
  set_entries, merged_servers,
}

abbrev pub names_of : List (String × McpServerEntry) → List String
names_of [] = []
names_of ((name, entry) ∷ entries) = name ∷ names_of entries

abbrev pub Distinct : List (String × McpServerEntry) → Type 0
Distinct [] = Unit
Distinct ((name, entry) ∷ entries) = (names_it (names_of entries) name ≡ false) × Distinct entries

-- A server that no entry names is as it was.
pub get-set_entries :
    (entries : List (String × McpServerEntry)) (k : String) (fs : Fields)
    → names_it (names_of entries) k ≡ false
    → get k (set_entries entries fs) ≡ get k fs
get-set_entries [] k fs h = refl
get-set_entries ((name, entry) ∷ entries) k fs h = ground (
  arith,
  get-set_entries entries k (set_field name (normalized_entry entry) fs),
  get-set_field name k (normalized_entry entry) fs,
)

same_text_refl : (t : Option String) → same_text t t ≡ true
same_text_refl none = refl
same_text_refl (some s) = eq_refl s

module _ (stringify : Json → Option String) where
  normalized_entry-matches :
      (entry : McpServerEntry) → entry_matches stringify (normalized_entry entry) entry ≡ true
  unfolding entry_matches normalized_entry prop get
  normalized_entry-matches entry =
      ground (arith, eq_refl entry.command, same_text_refl (stringify (json_args entry)))

  -- What has been written matches.
  pub all_match-set_entries :
      (entries : List (String × McpServerEntry)) (fs : Fields)
      → Distinct entries
      → all_match stringify (set_entries entries fs) entries ≡ true
  unfolding prop
  all_match-set_entries [] fs d = refl
  all_match-set_entries ((name, entry) ∷ entries) fs d =
      let written = normalized_entry entry in
      ground (
        arith,
        all_match-set_entries entries (set_field name written fs) (d.1),
        get-set_entries entries name (set_field name written fs) (d.0),
        get-set_field name name written fs,
        eq_refl name,
        normalized_entry-matches entry,
      )

  -- What the owned legacy names are, by the two tests.
  abbrev chosen : Bool → Bool → List String
  chosen first second =
      let rest = if second then legacy_browser_mcp_server_name ∷ [] else [] in
      if first then legacy_mcp_server_name ∷ rest else rest

  names_it-chosen :
      (first second : Bool)
      → (names_it (chosen first second) legacy_mcp_server_name ≡ first)
        × (names_it (chosen first second) legacy_browser_mcp_server_name ≡ second)
  names_it-chosen true true = (refl, refl)
  names_it-chosen true false = (refl, refl)
  names_it-chosen false true = (refl, refl)
  names_it-chosen false false = (refl, refl)

  chosen-none : (first second : Bool) → first ≡ false → second ≡ false → chosen first second ≡ []
  chosen-none first second h h' = ground arith

  -- A value is deleted where it matched, so that none matches after that.
  deleted-unmatched :
      (m : Bool) (v : Option Json) (entry : McpServerEntry)
      → entry_matches stringify (value_or_undefined v) entry ≡ m
      → entry_matches stringify (value_or_undefined (if m then none else v)) entry ≡ false
  unfolding entry_matches
  deleted-unmatched true v entry e = refl
  deleted-unmatched false v entry e = e

  unmatched-merged_servers :
      (servers : Fields) (entries : List (String × McpServerEntry)) (migrated : List String)
      (name : String) (entry : McpServerEntry)
      → names_it (names_of entries) name ≡ false
      → names_it migrated name ≡ entry_matches stringify (prop name servers) entry
      → entry_matches stringify (prop name (merged_servers servers entries migrated)) entry ≡ false
  unfolding merged_servers prop
  unmatched-merged_servers servers entries migrated name entry h owned =
      let kept = delete_fields migrated servers in
      let unmatched =
        deleted-unmatched (names_it migrated name) (get name servers) entry (sym owned) in
      let found = get-set_entries entries name kept h ∙ get-delete_fields migrated name servers in
      cc (unmatched, found)

  -- Once merged, no legacy entry is owned: one that was is gone, and another is as it was.
  pub owned_legacy-merged_servers :
      (servers : Fields) (entries : List (String × McpServerEntry))
      → names_it (names_of entries) legacy_mcp_server_name ≡ false
      → names_it (names_of entries) legacy_browser_mcp_server_name ≡ false
      → owned_legacy_entry_names stringify
          (merged_servers servers entries (owned_legacy_entry_names stringify servers))
        ≡ []
  unfolding owned_legacy_entry_names legacy_mcp_server_entries
  owned_legacy-merged_servers servers entries h h' =
      let migrated = owned_legacy_entry_names stringify servers in
      let owned = names_it-chosen _ _ in
      chosen-none _ _
        (unmatched-merged_servers servers entries migrated legacy_mcp_server_name _ h (owned.0))
        (unmatched-merged_servers servers entries migrated legacy_browser_mcp_server_name _ h'
          (owned.1))
