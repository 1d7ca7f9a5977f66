-- ===== src/Session/Liveness.antt =====
-- packages/core/src/session.ts: `isSessionProcessAlive`, and what it promises.
use pickforge.Base.{
  ◌≡◌, ◌⊎◌, inl, inr, String, Bool, true, false, ◌&&◌, ◌||◌, Option, none, some, Option-cases,
  arith,
}
use pickforge.Json.{Number}
use pickforge.Session.Records.{
  SessionType, desktop, android, desktop_android, browser, DesktopSessionInfo, AndroidSessionInfo,
  BrowserSessionInfo, SessionRecord,
}

-- What proc.ts and the file system tell: a live pid, a process of that pid and start time, and
-- the socket of a display.
pub record Processes : Type 0 where
  pub is_pid_alive : Number → Bool
  pub process_identity_matches : Number → Number → Bool
  pub is_display_socket_alive : String → Bool

module _ (P : Processes) where
  open P use {is_pid_alive, process_identity_matches, is_display_socket_alive}

  abbrev pub xvfb_alive : Option Number → Option Number → Bool
  xvfb_alive none ticks = false
  xvfb_alive (some pid) none = is_pid_alive pid
  xvfb_alive (some pid) (some ticks) = process_identity_matches pid ticks

  abbrev pub desktop_alive : Option DesktopSessionInfo → Bool
  desktop_alive none = false
  desktop_alive (some d) = xvfb_alive d.xvfb_pid d.xvfb_start_time_ticks

  abbrev pid_alive : Option Number → Bool
  pid_alive none = false
  pid_alive (some pid) = is_pid_alive pid

  abbrev pub android_alive : Option AndroidSessionInfo → Bool
  android_alive none = false
  android_alive (some a) = pid_alive a.emulator_pid

  -- A browser session needs the start time of its display server too.
  abbrev identity_alive : Option Number → Option Number → Bool
  identity_alive (some pid) (some ticks) = process_identity_matches pid ticks
  identity_alive _ _ = false

  abbrev pub browser_alive : Option BrowserSessionInfo → Option DesktopSessionInfo → Bool
  browser_alive (some b) (some d) =
      identity_alive d.xvfb_pid d.xvfb_start_time_ticks
      && (is_display_socket_alive d.display
          && process_identity_matches b.browser_pid b.browser_start_time_ticks)
  browser_alive _ _ = false

  abbrev alive_as : SessionType → SessionRecord → Bool
  alive_as desktop r = desktop_alive r.desktop_info
  alive_as android r = android_alive r.android_info
  alive_as browser r = browser_alive r.browser_info r.desktop_info
  alive_as desktop_android r = desktop_alive r.desktop_info || android_alive r.android_info

  unfoldable pub is_session_process_alive : SessionRecord → Bool
  is_session_process_alive r = alive_as r.type r

  -- The processes that a record names by pid and start time, and by pid alone.
  pub data Witnessed (r : SessionRecord) : Type 0 where
    by_identity :
        (d : DesktopSessionInfo) (pid ticks : Number)
        → r.desktop_info ≡ some d
        → d.xvfb_pid ≡ some pid
        → d.xvfb_start_time_ticks ≡ some ticks
        → process_identity_matches pid ticks ≡ true
        → Witnessed r
    by_pid :
        (d : DesktopSessionInfo) (pid : Number)
        → r.desktop_info ≡ some d
        → d.xvfb_pid ≡ some pid
        → d.xvfb_start_time_ticks ≡ none
        → is_pid_alive pid ≡ true
        → Witnessed r
    by_emulator :
        (a : AndroidSessionInfo) (pid : Number)
        → r.android_info ≡ some a
        → a.emulator_pid ≡ some pid
        → is_pid_alive pid ≡ true
        → Witnessed r

  xvfb_alive-Witnessed :
      (r : SessionRecord) (d : DesktopSessionInfo)
      → r.desktop_info ≡ some d
      → xvfb_alive d.xvfb_pid d.xvfb_start_time_ticks ≡ true
      → Witnessed r
  xvfb_alive-Witnessed r d h e = elim (Option-cases d.xvfb_pid) [
    | inl hp ↦ ground arith
    | inr (pid, hp) ↦ elim (Option-cases d.xvfb_start_time_ticks) [
      | inl ht ↦ by_pid d pid h hp ht (ground arith)
      | inr (ticks, ht) ↦ by_identity d pid ticks h hp ht (ground arith)
    ]
  ]

  desktop_alive-Witnessed : (r : SessionRecord) → desktop_alive r.desktop_info ≡ true → Witnessed r
  desktop_alive-Witnessed r e = elim (Option-cases r.desktop_info) [
    | inl h ↦ ground arith
    | inr (d, h) ↦ xvfb_alive-Witnessed r d h (ground arith)
  ]

  android_alive-Witnessed : (r : SessionRecord) → android_alive r.android_info ≡ true → Witnessed r
  android_alive-Witnessed r e = elim (Option-cases r.android_info) [
    | inl h ↦ ground arith
    | inr (a, h) ↦ elim (Option-cases a.emulator_pid) [
      | inl hp ↦ ground arith
      | inr (pid, hp) ↦ by_emulator a pid h hp (ground arith)
    ]
  ]

  browser_alive-desktop_alive :
      (r : SessionRecord)
      → browser_alive r.browser_info r.desktop_info ≡ true
      → desktop_alive r.desktop_info ≡ true
  browser_alive-desktop_alive r e = ground arith

  type_cases :
      (r : SessionRecord)
      → is_session_process_alive r ≡ true
      → (desktop_alive r.desktop_info ≡ true) ⊎ (android_alive r.android_info ≡ true)
  unfolding is_session_process_alive
  type_cases r e = ground arith

  -- A session counts as alive only if a live process backs it: the display server by pid and
  -- start time where the record has one, by pid where it has none, or the emulator by pid.
  pub is_session_process_alive-Witnessed :
      (r : SessionRecord) → is_session_process_alive r ≡ true → Witnessed r
  unfolding is_session_process_alive
  is_session_process_alive-Witnessed r e = elim (type_cases r e) [
    | inl d ↦ desktop_alive-Witnessed r d
    | inr a ↦ android_alive-Witnessed r a
  ]
