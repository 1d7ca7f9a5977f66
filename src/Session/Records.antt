-- ===== src/Session/Records.antt =====
-- packages/core/src/session.ts: the types of a session record.
use pickforge.Base.{String, str_eq, Bool, true, false, Option, none, some, if◌then◌else◌}
use pickforge.Json.{Json, Number, Fields}
use pickforge.Takeover.Store.{SessionStatus, running, error}

pub data SessionType : Type 0 where
  desktop android desktop_android browser : SessionType

-- `homePolicy` is a text, since a record file may hold a text that is no policy.
pub record DesktopSessionInfo : Type 0 where
  pub display : String
  pub runtime_dir : Option String
  pub home_policy : Option String
  pub containment : Option Json
  pub xvfb_pid : Option Number
  pub xvfb_start_time_ticks : Option Number
  pub vnc_pid : Option Number
  pub vnc_start_time_ticks : Option Number
  pub vnc_port : Option Number
  pub vnc_view_only : Option Bool
  pub viewer_bridge_pid : Option Number
  pub viewer_bridge_start_time_ticks : Option Number
  pub viewer_bridge_port : Option Number
  pub width : Option Number
  pub height : Option Number

pub data BootMode : Type 0 where
  warm cold unknown_boot : BootMode

pub record AndroidSessionInfo : Type 0 where
  pub avd_name : String
  pub serial : Option String
  pub emulator_pid : Option Number
  pub console_port : Option Number
  pub boot_mode : Option BootMode
  pub read_only : Option Bool

pub data ProfileMode : Type 0 where
  ephemeral named : ProfileMode

-- `cdp_port` is the legacy property that older records still hold.
pub record BrowserSessionInfo : Type 0 where
  pub browser_pid : Number
  pub browser_start_time_ticks : Number
  pub binary_path : String
  pub profile_mode : ProfileMode
  pub profile_name : Option String
  pub profile_dir : String
  pub browser_version : Option String
  pub cdp_port : Option Json

pub record SessionRecord : Type 0 where
  pub id : String
  pub type : SessionType
  pub created_at : String
  pub status : SessionStatus
  pub project_dir : String
  pub title : Option String
  pub desktop_info : Option DesktopSessionInfo
  pub android_info : Option AndroidSessionInfo
  pub browser_info : Option BrowserSessionInfo
  pub meta : Option Fields

pub data DesktopHomePolicy : Type 0 where
  private_home inherit legacy_inherit unknown_home : DesktopHomePolicy

abbrev policy_of : Option String → DesktopHomePolicy
policy_of none = legacy_inherit
policy_of (some policy) =
    if str_eq policy "private"
    then private_home
    else if str_eq policy "inherit"
    then inherit
    else unknown_home

unfoldable pub desktop_home_policy : Option DesktopSessionInfo → DesktopHomePolicy
desktop_home_policy none = legacy_inherit
desktop_home_policy (some d) = policy_of d.home_policy

-- `status === "running"` and `status === "error"`
abbrev pub is_running : SessionStatus → Bool
is_running running = true
is_running _ = false

abbrev pub is_error : SessionStatus → Bool
is_error error = true
is_error _ = false
