-- ===== src/Agents/Snippet.antt =====
-- packages/agent-installers/src/snippet.ts: the entries of the lab's servers.
use pickforge.Base.{String, Bool, true, not, ◌&&◌, List, [], ◌∷◌, if◌then◌else◌}
use pickforge.Agents.Objects.{names_it}

pub record McpServerEntry : Type 0 where
  pub command : String
  pub args : List String

abbrev pub mcp_server_name : String
mcp_server_name = "pickforge-lab"

abbrev pub browser_mcp_server_name : String
browser_mcp_server_name = "pickforge-lab-browser"

abbrev pub legacy_mcp_server_name : String
legacy_mcp_server_name = "picklab"

abbrev pub legacy_browser_mcp_server_name : String
legacy_browser_mcp_server_name = "picklab-browser"

abbrev pub mcp_server_entry : McpServerEntry
mcp_server_entry = record { command = "pickforge-lab"; args = "mcp" ∷ "serve" ∷ [] }

abbrev pub browser_mcp_server_entry : McpServerEntry
browser_mcp_server_entry = record {
  command = "pickforge-lab";
  args = "browser" ∷ "devtools-mcp" ∷ [];
}

-- `opts.browser === true` is the argument.
unfoldable pub pickforge_lab_mcp_server_entries : Bool → List (String × McpServerEntry)
pickforge_lab_mcp_server_entries browser =
    (mcp_server_name, mcp_server_entry)
    ∷ (if browser then (browser_mcp_server_name, browser_mcp_server_entry) ∷ [] else [])

unfoldable pub wants_browser_entry : Bool → List String → Bool → Bool
wants_browser_entry browser migrated has_current =
    if browser then true else not has_current && names_it migrated legacy_browser_mcp_server_name

unfoldable pub legacy_mcp_server_entries : List (String × McpServerEntry)
legacy_mcp_server_entries =
    (legacy_mcp_server_name, record { command = "picklab"; args = "mcp" ∷ "serve" ∷ [] })
    ∷ (
      legacy_browser_mcp_server_name,
      record { command = "picklab"; args = "browser" ∷ "devtools-mcp" ∷ [] },
    )
    ∷ []
