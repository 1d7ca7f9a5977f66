-- ===== src/Session/Tests.antt =====
-- packages/core/src/session.ts: runs at concrete sessions.
use pickforge.Base.{
  inl, ◌⊎◌, subst, sym, ℕ, zero, suc, ◌+◌, ◌≡◌, ◌≢◌, ◌↔◌, refl, ap, ◌∙◌, String, true, none, some,
  List, [], ◌∷◌, ◌==◌, if◌then◌else◌, erase, put, ok, arith,
}
use Prim.Native.Char.{Char, code}
use text.Mathlib.TextBridge.{to_list, of_list, to_list-of_list}
use pickforge.Json.{nat}
use pickforge.Takeover.Store.{running, stopped}
use pickforge.Session.Records.{desktop, browser, DesktopSessionInfo, SessionRecord}
use pickforge.Session.Liveness.{Processes}
use pickforge.Session.Registry.{
  Platform, CreateSessionInput, SessionPatch, Registry, is_valid_session_id, new_session_id,
  get_session, create_session, update_session, destroy_session_record, build_record, patched,
}
use pickforge.Session.Registry.Laws.{
  Visible, new_session_id-is_valid_session_id, get_session-create_session,
  get_session-update_session, get_session-destroy_session_record, get_session-read, read_record-put,
}
use pickforge.Session.Targets.{
  can_desktop, session_has_capability, resolve_runnable_session, resolve_runnable_session_unique,
  IsRunnable,
}
use pickforge.Session.Registry.Listing.{Has, list_sessions, list_sessions-get_session_iff}

abbrev tally : ℕ → List Char → List Char
tally zero cs = "." ∷ cs
tally (suc n) cs = "|" ∷ tally n cs

abbrev tallies : List ℕ → List Char
tallies [] = []
tallies (c ∷ cs) = tally c (tallies cs)

abbrev untally : ℕ → List Char → List ℕ
untally n [] = []
untally n (c ∷ cs) = if code c == 124 then untally (suc n) cs else n ∷ untally 0 cs

untally-tally : (k n : ℕ) (cs : List Char) → untally k (tally n cs) ≡ (k + n) ∷ untally 0 cs
untally-tally k zero cs = ground arith
untally-tally k (suc n) cs = ground (arith, untally-tally (suc k) n cs)

untally-tallies : (cs : List ℕ) → untally 0 (tallies cs) ≡ cs
untally-tallies [] = refl
untally-tallies (c ∷ cs) = ground (arith, untally-tally 0 c (tallies cs), untally-tallies cs)

-- A platform whose texts count each code in strokes, and whose files hold the records themselves.
abbrev platform : Platform
platform = record {
  Text = SessionRecord;
  parse = some;
  print = λ r. r;
  codes = λ s. untally 0 (to_list s);
  text = λ cs. of_list (tallies cs);
  codes-text = λ cs h. ap (untally 0) (to_list-of_list (tallies cs)) ∙ untally-tallies cs;
  locale_leb = λ a b. true;
}

abbrev bytes : List (ℕ × ℕ)
bytes = (0, 1) ∷ (10, 15) ∷ (2, 3) ∷ []

drawn_id_is_valid : is_valid_session_id platform (new_session_id platform browser bytes) ≡ true
drawn_id_is_valid =
    new_session_id-is_valid_session_id platform browser bytes
      ((omega arith, omega arith), ((omega arith, omega arith), ((omega arith, omega arith), tt)))
      (omega arith)

abbrev input : CreateSessionInput
input = record {
  type = browser;
  project_dir = "/work";
  title = none;
  status = none;
  desktop_info = none;
  android_info = none;
  browser_info = none;
  meta = none;
}

abbrev my_id : String
my_id = new_session_id platform browser bytes

abbrev made : SessionRecord
made = build_record platform input my_id "2026"

abbrev empty : Registry platform
empty = record { primary = []; legacy = [] ∷ []; reserved = [] }

abbrev with_made : Registry platform
with_made = record { primary = put my_id made []; legacy = [] ∷ []; reserved = [] }

get_session-create_session_example : Visible platform empty with_made made
unfolding create_session
get_session-create_session_example =
    get_session-create_session platform empty with_made input (λ n. bytes) (λ n. "2026") made
      (λ n. (
        (
          (omega arith, omega arith),
          ((omega arith, omega arith), ((omega arith, omega arith), tt)),
        ),
        omega arith,
      ))
      refl refl

made_reads : get_session platform with_made my_id ≡ ok (some made)
unfolding new_session_id build_record
made_reads = get_session-create_session_example.0

abbrev stop : SessionPatch
stop = record {
  id = some "desk-000000";
  type = none;
  created_at = none;
  status = some stopped;
  project_dir = none;
  title = none;
  desktop_info = none;
  android_info = none;
  browser_info = none;
  meta = none;
}

abbrev halted : SessionRecord
halted = patched platform made stop

abbrev with_halted : Registry platform
with_halted = record {
  primary = put my_id halted with_made.primary;
  legacy = [] ∷ [];
  reserved = [];
}

made_stops : update_session platform with_made my_id stop ≡ ok (with_halted, halted)
unfolding update_session
made_stops = ground (arith, drawn_id_is_valid, made_reads)

get_session-update_session_example :
    (existing : SessionRecord) × ((get_session platform with_made my_id ≡ ok (some existing))
      × ((halted ≡ patched platform existing stop)
          × (((halted.id ≡ existing.id)
                × ((halted.type ≡ existing.type) × (halted.created_at ≡ existing.created_at)))
              × ((get_session platform with_halted my_id ≡ ok (some halted))
                  × ((j : String)
                      → j ≢ my_id
                      → get_session platform with_halted j ≡ get_session platform with_made j)))))
get_session-update_session_example =
    get_session-update_session platform with_made with_halted my_id stop halted refl made_stops

abbrev without_made : Registry platform
without_made = record {
  primary = erase my_id with_made.primary;
  legacy = erase my_id [] ∷ [];
  reserved = [];
}

made_goes : destroy_session_record platform with_made my_id ≡ ok without_made
unfolding destroy_session_record
made_goes = ground (arith, drawn_id_is_valid, made_reads)

get_session-destroy_session_record_example :
    (get_session platform without_made my_id ≡ ok none)
    × ((j : String)
        → j ≢ my_id
        → get_session platform without_made j ≡ get_session platform with_made j)
get_session-destroy_session_record_example =
    get_session-destroy_session_record platform with_made without_made my_id made_goes

list_sessions-get_session_iff_example :
    Has platform made (list_sessions platform with_made)
    ↔ ((id : String) × (get_session platform with_made id ≡ ok (some made)))
list_sessions-get_session_iff_example = list_sessions-get_session_iff platform with_made made

abbrev processes : Processes
processes = record {
  is_pid_alive = λ p. true;
  process_identity_matches = λ p t. true;
  is_display_socket_alive = λ d. true;
}

abbrev desktop_info : DesktopSessionInfo
desktop_info = record {
  display = ":99";
  runtime_dir = none;
  home_policy = none;
  containment = none;
  xvfb_pid = some (nat 77);
  xvfb_start_time_ticks = none;
  vnc_pid = none;
  vnc_start_time_ticks = none;
  vnc_port = none;
  vnc_view_only = none;
  viewer_bridge_pid = none;
  viewer_bridge_start_time_ticks = none;
  viewer_bridge_port = none;
  width = none;
  height = none;
}

abbrev desktop_record : SessionRecord
desktop_record = record made { type = desktop; desktop_info = some desktop_info; status = running }

abbrev with_desktop : Registry platform
with_desktop = record { primary = put my_id desktop_record []; legacy = [] ∷ []; reserved = [] }

desktop_reads : get_session platform with_desktop my_id ≡ ok (some desktop_record)
desktop_reads =
    get_session-read platform with_desktop my_id desktop_record refl drawn_id_is_valid
      (read_record-put platform empty my_id desktop_record)

desktop_lists : list_sessions platform with_desktop ≡ desktop_record ∷ []
unfolding list_sessions put erase
desktop_lists = ground (arith, desktop_reads)

desktop_resolves :
    resolve_runnable_session platform with_desktop can_desktop none (some "/work")
    ≡ ok desktop_record
unfolding resolve_runnable_session session_has_capability build_record
desktop_resolves = rw desktop_lists

resolve_runnable_session_unique_example :
    Has platform desktop_record (list_sessions platform with_desktop)
    × IsRunnable platform can_desktop (some "/work") desktop_record
    × ((desktop_record ≡ desktop_record)
        ⊎ (¬ IsRunnable platform can_desktop (some "/work") desktop_record))
resolve_runnable_session_unique_example =
    resolve_runnable_session_unique platform with_desktop can_desktop (some "/work") desktop_record
      desktop_record desktop_resolves
      (subst (Has platform desktop_record) (sym desktop_lists) (inl refl))
