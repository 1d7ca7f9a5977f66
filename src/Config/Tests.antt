-- ===== src/Config/Tests.antt =====
-- The configuration checked on a global file that turns evidence on and a project that turns it off.
use pickforge.Base.{◌≡◌, refl, Bool, true, false, some, ok, err}
use pickforge.Json.{Fields, bool, str, obj, end, field, get, prop}
use pickforge.Agents.Objects.{set_field}
use pickforge.Config.Merge.{
  deep_merge, section, is_evidence_enabled, resolved_defaults, ConfigFile, missing, parsed,
  invalid_config, read_config_file, load_config,
}
use pickforge.Config.Precedence.{load_config-project}

abbrev evidence : Bool → Fields
evidence enabled = field "enabled" (bool enabled) end

abbrev global_file : ConfigFile
global_file =
    parsed (obj (field "evidence" (obj (evidence true)) (field "profile" (str "generic") end)))

abbrev project : Fields
project = field "evidence" (obj (evidence false)) end

abbrev loaded : Fields
loaded = field "android" (obj (field "avdName" (str "pickforge-avd") end)) (
    field "labUser"
      (obj
        (field "name" (str "pickforge-lab") (field "home" (str "/var/lib/pickforge/lab-home") end)))
      (field "viewer" (obj (field "mode" (str "manual") end)) (
        field "evidence" (obj (evidence false)) (
          field "storage" (obj (field "mode" (str "home") end))
            (field "profile" (str "generic") end)))))

project_is_loaded : load_config global_file (parsed (obj project)) ≡ ok loaded
unfolding load_config read_config_file deep_merge resolved_defaults set_field get
project_is_loaded = refl

evidence_is_off : is_evidence_enabled loaded ≡ false
unfolding is_evidence_enabled prop get
evidence_is_off = refl

list_is_no_config : load_config missing (parsed (bool true)) ≡ err invalid_config
unfolding load_config read_config_file
list_is_no_config = refl

load_config-project_example : get "enabled" (section "evidence" loaded) ≡ some (bool false)
unfolding read_config_file get
load_config-project_example =
    load_config-project global_file (parsed (obj project)) project (evidence false) loaded
      "evidence" "enabled" (bool false) project_is_loaded refl (refl, tt) (refl, tt) refl refl refl
