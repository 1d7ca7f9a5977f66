-- ===== src/Lifecycle/Legs.antt =====
-- packages/core/src/session-lifecycle.ts: the handles of the legs, their summaries, and the errors.
use pickforge.Base.{String, Bool, Option, none, some}
use pickforge.Json.{Number}
use pickforge.Session.Records.{SessionType, desktop, android, browser, BootMode}
use pickforge.Lifecycle.Effects.{Effect}

pub record DesktopLegHandle : Type 0 where
  pub id : String
  pub display : String
  pub log_dir : String
  pub vnc_port : Option Number
  pub vnc_view_only : Option Bool

pub record AndroidLegHandle : Type 0 where
  pub id : String
  pub avd_name : String
  pub serial : String
  pub console_port : Number
  pub log_dir : String
  pub boot_mode : Option BootMode
  pub read_only : Option Bool

pub record BrowserLegHandle : Type 0 where
  pub id : String
  pub display : String
  pub profile_dir : String
  pub binary_path : String
  pub log_dir : String

pub data LocalSessionSummary : Type 0 where
  desktop_leg : DesktopLegHandle → LocalSessionSummary
  android_leg : AndroidLegHandle → LocalSessionSummary
  browser_leg : BrowserLegHandle → LocalSessionSummary

abbrev pub summary_type : LocalSessionSummary → SessionType
summary_type (desktop_leg h) = desktop
summary_type (android_leg h) = android
summary_type (browser_leg h) = browser

abbrev pub summary_id : LocalSessionSummary → String
summary_id (desktop_leg h) = h.id
summary_id (android_leg h) = h.id
summary_id (browser_leg h) = h.id

-- The view-only flag is copied only with a port.
abbrev view_only : Option Number → Option Bool → Option Bool
view_only none flag = none
view_only (some port) flag = flag

unfoldable pub desktop_summary : DesktopLegHandle → LocalSessionSummary
desktop_summary h = desktop_leg (record h { vnc_view_only = view_only h.vnc_port h.vnc_view_only })

unfoldable pub android_summary : AndroidLegHandle → LocalSessionSummary
android_summary h = android_leg h

unfoldable pub browser_summary : BrowserLegHandle → LocalSessionSummary
browser_summary h = browser_leg h

-- The errors that the lifecycle throws itself, and those that the legs' runtimes throw.
pub data LifecycleError (E : Type 0) : Type 0 where
  unsupported_recipe : String → LifecycleError E
  creation_aborted browser_creation_aborted : LifecycleError E
  no_typed_teardown cannot_destroy : String → SessionType → LifecycleError E
  thrown : E → LifecycleError E

abbrev pub Leg : Type 0 → Type 0 → Type 0 → Type 0
Leg S E A = Effect S (LifecycleError E) A
