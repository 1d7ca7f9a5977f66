-- ===== src/Config/Merge.antt =====
-- packages/core/src/config.ts: `deepMerge`, the layers and `isEvidenceEnabled`. A property named
-- `__proto__`, whose assignment sets no property, is left out.
use pickforge.Base.{String, Bool, true, false, not, Option, some, Result, ok, err, ◌>>=◌}
use pickforge.Json.{Json, Fields, undefined, bool, str, obj, end, field, get, prop}
use pickforge.Agents.Objects.{set_field}

-- `deepMerge(existing, value)` where there is an object already, and `deepMerge({}, value)` where not.
abbrev pub object_or_empty : Option Json → Fields
object_or_empty (some (obj fs)) = fs
object_or_empty v = end

unfoldable pub deep_merge : Fields → Fields → Fields
deep_merge base end = base
deep_merge base (field k undefined overlay) = deep_merge base overlay
deep_merge base (field k (obj value) overlay) =
    deep_merge (set_field k (obj (deep_merge (object_or_empty (get k base)) value)) base) overlay
deep_merge base (field k value overlay) = deep_merge (set_field k value base) overlay

abbrev pub section : String → Fields → Fields
section k config = object_or_empty (get k config)

abbrev is_false : Json → Bool
is_false (bool false) = true
is_false v = false

-- `config.evidence?.enabled !== false`, for a section that is an object or missing.
unfoldable pub is_evidence_enabled : Fields → Bool
is_evidence_enabled config = not (is_false (prop "enabled" (section "evidence" config)))

unfoldable pub resolved_defaults : Fields
resolved_defaults = field "android" (obj (field "avdName" (str "pickforge-avd") end)) (
    field "labUser"
      (obj
        (field "name" (str "pickforge-lab") (field "home" (str "/var/lib/pickforge/lab-home") end)))
      (field "viewer" (obj (field "mode" (str "manual") end)) (
        field "evidence" (obj (field "enabled" (bool true) end))
          (field "storage" (obj (field "mode" (str "home") end)) end))))

pub data ConfigFile : Type 0 where
  missing unreadable invalid : ConfigFile
  parsed : Json → ConfigFile

pub data ConfigError : Type 0 where
  read_failed invalid_config : ConfigError

unfoldable pub read_config_file : ConfigFile → Result ConfigError Fields
read_config_file missing = ok end
read_config_file unreadable = err read_failed
read_config_file (parsed (obj fs)) = ok fs
read_config_file file = err invalid_config

-- `loadConfig`, on the files that the paths resolve to.
unfoldable pub load_config : ConfigFile → ConfigFile → Result ConfigError Fields
load_config global_file project_file = do
  global ← read_config_file global_file
  project ← read_config_file project_file
  ok (deep_merge (deep_merge (deep_merge end resolved_defaults) global) project)
