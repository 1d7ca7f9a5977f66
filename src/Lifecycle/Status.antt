-- ===== src/Lifecycle/Status.antt =====
-- packages/core/src/session-lifecycle.ts: `localSessionStatusEntry`. The runtimes' reads are
-- functions of the session id. A viewer's endpoint is its port on 127.0.0.1.
use pickforge.Base.{
  ◌≡◌, String, Bool, true, false, not, ◌&&◌, ◌||◌, Option, none, some, bind_option, if◌then◌else◌,
  Result, ok, ◌>>=◌, arith,
}
use pickforge.Json.{Json, Number}
use pickforge.Takeover.Store.{SessionStatus}
use pickforge.Session.Records.{
  SessionType, browser, DesktopSessionInfo, AndroidSessionInfo, BrowserSessionInfo, SessionRecord,
  DesktopHomePolicy, desktop_home_policy, is_running,
}

pub record DesktopLiveStatus : Type 0 where
  pub xvfb_alive : Bool
  pub vnc_alive : Bool
  pub display_alive : Bool

pub record AndroidLiveStatus : Type 0 where
  pub emulator_alive : Bool
  pub device_state : Option String

pub record BrowserLiveStatus : Type 0 where
  pub alive : Bool
  pub xvfb_alive : Bool
  pub display_alive : Bool
  pub browser_alive : Bool

pub record LocalSessionStatusRuntime (E : Type 0) : Type 0 where
  pub desktop_status : String → Result E DesktopLiveStatus
  pub android_status : String → Result E AndroidLiveStatus
  pub browser_status : String → Result E BrowserLiveStatus

pub data EntryStatus : Type 0 where
  recorded : SessionStatus → EntryStatus
  dead : EntryStatus

pub record DesktopEntry : Type 0 where
  pub info : Option DesktopSessionInfo
  pub home_policy : Option DesktopHomePolicy
  pub xvfb_alive : Bool
  pub vnc_alive : Bool
  pub display_alive : Bool

pub record AndroidEntry : Type 0 where
  pub info : AndroidSessionInfo
  pub emulator_alive : Bool
  pub device_state : Option String

pub record BrowserEntry : Type 0 where
  pub info : Option BrowserSessionInfo
  pub browser_alive : Bool

pub record ViewerEntry : Type 0 where
  pub endpoint : Option Number
  pub ready : Bool
  pub read_only : Bool

pub record LocalSessionStatusEntry : Type 0 where
  pub id : String
  pub type : SessionType
  pub status : EntryStatus
  pub created_at : String
  pub project_dir : String
  pub title : Option String
  pub desktop_entry : Option DesktopEntry
  pub android_entry : Option AndroidEntry
  pub browser_entry : Option BrowserEntry
  pub viewer_entry : Option ViewerEntry

-- The legacy port never reaches a status.
unfoldable pub without_legacy_cdp_port : Option BrowserSessionInfo → Option BrowserSessionInfo
without_legacy_cdp_port none = none
without_legacy_cdp_port (some b) = some (record b { cdp_port = none })

abbrev flag_is_true : Option Bool → Bool
flag_is_true (some true) = true
flag_is_true _ = false

abbrev vnc_port_of : Option DesktopSessionInfo → Option Number
vnc_port_of none = none
vnc_port_of (some d) = d.vnc_port

abbrev view_only_of : Option DesktopSessionInfo → Bool
view_only_of none = false
view_only_of (some d) = flag_is_true d.vnc_view_only

abbrev viewer_of : Option DesktopSessionInfo → DesktopLiveStatus → ViewerEntry
viewer_of d s = record { endpoint = vnc_port_of d; ready = s.vnc_alive; read_only = view_only_of d }

abbrev bare_entry : SessionRecord → LocalSessionStatusEntry
bare_entry r = record {
  id = r.id;
  type = r.type;
  status = recorded r.status;
  created_at = r.created_at;
  project_dir = r.project_dir;
  title = r.title;
  desktop_entry = none;
  android_entry = none;
  browser_entry = none;
  viewer_entry = none;
}

-- `if (record.status === "running" && !alive) entry.status = "dead"`
abbrev unless_alive : SessionRecord → Bool → LocalSessionStatusEntry → LocalSessionStatusEntry
unless_alive r alive e = if is_running r.status && not alive then record e { status = dead } else e

abbrev is_browser : SessionType → Bool
is_browser browser = true
is_browser _ = false

module _ {E : Type 0} (R : LocalSessionStatusRuntime E) where
  open R use {desktop_status, android_status, browser_status}

  unfoldable pub browser_part : SessionRecord → Result E LocalSessionStatusEntry
  unfolding without_legacy_cdp_port
  browser_part r = do
    b ← browser_status r.id
    d ← desktop_status r.id
    ok (record (unless_alive r b.alive (bare_entry r)) {
      desktop_entry = some (record {
        info = r.desktop_info;
        home_policy = none;
        xvfb_alive = b.xvfb_alive;
        vnc_alive = d.vnc_alive;
        display_alive = b.display_alive;
      });
      browser_entry = some (record {
        info = without_legacy_cdp_port r.browser_info;
        browser_alive = b.browser_alive;
      });
      viewer_entry = some (viewer_of r.desktop_info d);
    })

  unfoldable pub desktop_part :
      SessionRecord → Option DesktopSessionInfo → Result E LocalSessionStatusEntry
  unfolding desktop_home_policy
  desktop_part r none = ok (bare_entry r)
  desktop_part r (some info) = do
    d ← desktop_status r.id
    ok (record (unless_alive r d.xvfb_alive (bare_entry r)) {
      desktop_entry = some (record {
        info = some info;
        home_policy = some (desktop_home_policy (some info));
        xvfb_alive = d.xvfb_alive;
        vnc_alive = d.vnc_alive;
        display_alive = d.display_alive;
      });
      viewer_entry = some (viewer_of (some info) d);
    })

  unfoldable pub android_part :
      SessionRecord
      → Option AndroidSessionInfo
      → LocalSessionStatusEntry
      → Result E LocalSessionStatusEntry
  android_part r none entry = ok entry
  android_part r (some info) entry = do
    a ← android_status r.id
    ok (record (unless_alive r a.emulator_alive entry) {
      android_entry = some (record {
        info = info;
        emulator_alive = a.emulator_alive;
        device_state = a.device_state;
      });
    })

  unfoldable pub local_session_status_entry : SessionRecord → Result E LocalSessionStatusEntry
  unfolding browser_part desktop_part android_part
  local_session_status_entry r = do
    entry ← if is_browser r.type then browser_part r else desktop_part r r.desktop_info
    android_part r r.android_info entry

  abbrev android_down : Option AndroidSessionInfo → Result E AndroidLiveStatus → Bool
  android_down (some _) (ok a) = not a.emulator_alive
  android_down _ _ = false

  abbrev desktop_down : Option DesktopSessionInfo → Result E DesktopLiveStatus → Bool
  desktop_down (some _) (ok d) = not d.xvfb_alive
  desktop_down _ _ = false

  abbrev browser_down : Result E BrowserLiveStatus → Bool
  browser_down (ok b) = not b.alive
  browser_down _ = false

  -- That a leg which the record has is reported as down.
  abbrev pub leg_down : SessionRecord → Bool
  leg_down r =
      (if is_browser r.type
        then browser_down (browser_status r.id)
        else desktop_down r.desktop_info (desktop_status r.id))
      || android_down r.android_info (android_status r.id)

  -- A status that is read says "dead" exactly if the record says "running" and a leg that the
  -- record has is down, and says what the record says otherwise.
  pub local_session_status_entry-status :
      (r : SessionRecord) (entry : LocalSessionStatusEntry)
      → local_session_status_entry r ≡ ok entry
      → entry.status ≡ (if is_running r.status && leg_down r then dead else recorded r.status)
  unfolding local_session_status_entry
  local_session_status_entry-status r entry e = ground arith

  abbrev pub cdp_port_of : Option BrowserEntry → Option Json
  cdp_port_of (some b) = bind_option b.info λ i. i.cdp_port
  cdp_port_of none = none

  -- No status reports the legacy port, and no session that is not a browser has a browser entry.
  pub local_session_status_entry-cdp_port :
      (r : SessionRecord) (entry : LocalSessionStatusEntry)
      → local_session_status_entry r ≡ ok entry
      → cdp_port_of entry.browser_entry ≡ none
  unfolding local_session_status_entry without_legacy_cdp_port
  local_session_status_entry-cdp_port r entry e = ground arith
