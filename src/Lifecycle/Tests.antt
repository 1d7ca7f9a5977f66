-- ===== src/Lifecycle/Tests.antt =====
-- packages/core/src/session-lifecycle.ts: runs at concrete runtimes. The state is the list of the
-- desktops that are up.
use pickforge.Base.{String, Bool, true, false, none, some, List, [], ◌∷◌, Result, ok, err}
use pickforge.Takeover.Store.{running}
use pickforge.Session.Records.{SessionType, desktop, browser, SessionRecord}
use pickforge.Lifecycle.Legs.{DesktopLegHandle, BrowserLegHandle}
use pickforge.Lifecycle.Create.{LocalSessionCreateRuntime}
use pickforge.Lifecycle.Status.{LocalSessionStatusRuntime, LocalSessionStatusEntry, dead}
use pickforge.Lifecycle.Teardown.{Teardown, LocalSessionTeardownRuntime}
use pickforge.Lifecycle.Reap.{
  Reaper, IsSwept, reap_dead_running_sessions, reap_dead_running_sessions-Sweeps,
}
use pickforge.Lifecycle.Destroy.{
  LocalSessionDestroyRuntime, DestroyLocalSessionsOptions, IsDone, destroy_local_sessions,
  destroy_local_sessions-Destroys,
}

abbrev Up : Type 0
Up = List String

abbrev screen : DesktopLegHandle
screen = record {
  id = "desk-1";
  display = ":99";
  log_dir = "/logs";
  vnc_port = none;
  vnc_view_only = none;
}

abbrev page : BrowserLegHandle
page = record {
  id = "brow-1";
  display = ":98";
  profile_dir = "/profile";
  binary_path = "/chrome";
  log_dir = "/logs";
}

abbrev tail : Up → Up
tail [] = []
tail (x ∷ xs) = xs

-- An android leg that fails.
abbrev runtime : LocalSessionCreateRuntime Up String
runtime = record {
  desktop_create = λ s. ("desk-1" ∷ s, ok screen);
  desktop_destroy = λ id s. (tail s, ok tt);
  android_create = λ s. (s, err "no emulator");
  browser_create = λ s. (s, ok page);
  aborted = λ s. false;
}

abbrev session : SessionType → SessionRecord
session t = record {
  id = "desk-1";
  type = t;
  created_at = "2026";
  status = running;
  project_dir = "/work";
  title = none;
  desktop_info = none;
  android_info = none;
  browser_info = none;
  meta = none;
}

abbrev status_runtime : LocalSessionStatusRuntime String
status_runtime = record {
  desktop_status =
      λ id. ok (record { xvfb_alive = false; vnc_alive = false; display_alive = false });
  android_status = λ id. err "no adb";
  browser_status = λ id.
      ok
        (record { alive = false; xvfb_alive = false; display_alive = true; browser_alive = false });
}

abbrev entry_of :
    {E : Type 0}
    → Result E LocalSessionStatusEntry
    → LocalSessionStatusEntry
    → LocalSessionStatusEntry
entry_of (ok e) d = e
entry_of (err x) d = d

abbrev status_entry : LocalSessionStatusEntry
status_entry = record {
  id = "desk-1";
  type = browser;
  status = dead;
  created_at = "2026";
  project_dir = "/work";
  title = none;
  desktop_entry = some (record {
    info = none;
    home_policy = none;
    xvfb_alive = false;
    vnc_alive = false;
    display_alive = true;
  });
  android_entry = none;
  browser_entry = some (record { info = none; browser_alive = false });
  viewer_entry = some (record { endpoint = none; ready = false; read_only = false });
}

-- A teardown that stops every desktop and then runs its finalizer.
abbrev drain : Teardown Up String
drain id finalize s = finalize []

abbrev pass : Teardown Up String
pass id finalize s = finalize s

abbrev teardowns : LocalSessionTeardownRuntime Up String
teardowns = record {
  desktop_teardown = some drain;
  android_teardown = some pass;
  browser_teardown = none;
}

abbrev reaper : Reaper Up String
reaper = record {
  runtime = teardowns;
  is_session_input_closed = λ id s. false;
  is_alive = λ r s. false;
  destroy_session_record = λ id s. (s, ok tt);
}

abbrev sessions : List SessionRecord
sessions = session desktop ∷ session browser ∷ []

reap_dead_running_sessions-Sweeps_example :
    IsSwept reaper sessions
      ("desk-1" ∷ [])
      (reap_dead_running_sessions reaper sessions ("desk-1" ∷ []))
reap_dead_running_sessions-Sweeps_example =
    reap_dead_running_sessions-Sweeps reaper sessions ("desk-1" ∷ [])

abbrev destroys : LocalSessionDestroyRuntime Up String
destroys = record {
  desktop_destroy = λ id s. (tail s, ok tt);
  android_destroy = λ id s. (s, err "no adb");
  browser_destroy = λ id s. (s, ok tt);
}

abbrev options : Bool → DestroyLocalSessionsOptions Up String
options b = record {
  around_destroy = none;
  aborted = λ s. b;
  mark_cleanup_pending = λ id s. (s, ok tt);
}

destroy_local_sessions-Destroys_example :
    IsDone destroys
      (options false)
      sessions
      []
      (destroy_local_sessions destroys (options false) sessions [])
destroy_local_sessions-Destroys_example =
    destroy_local_sessions-Destroys destroys (options false) sessions []
