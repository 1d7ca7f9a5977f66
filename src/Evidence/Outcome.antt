-- ===== src/Evidence/Outcome.antt =====
-- packages/core/src/evidence-outcome.ts: the fields of an outcome, their limits and its validation.
-- Texts are lists of UTF-16 units, except the names of tools.
use pickforge.Base.{
  ℕ, suc, Bool, true, false, not, ◌&&◌, ◌||◌, Option, none, some, List, [], ◌∷◌, ◌++◌, map, length,
  take, any, keep, leb, ◌==◌, if◌then◌else◌, bind_option, Result, ok, ◌>>=◌, ◌>>◌, require, String,
  str_eq,
}
use pickforge.Json.{Json, Items, Fields, str, arr, nil, cons, prop, is_string, is_undefined}
use pickforge.Toml.Texts.{units, strip}

pub data OutcomeStatus : Type 0 where
  pass fail partial blocked : OutcomeStatus

-- `EvidenceOutcomeInput` and, with the time of its record, `EvidenceOutcomeRecord`.
pub record EvidenceOutcome : Type 0 where
  pub recorded_at : List ℕ
  pub scenario : List ℕ
  pub status : OutcomeStatus
  pub revision : Option (List ℕ)
  pub steps : Option (List (List ℕ))
  pub inspected_screenshots : List (List ℕ)
  pub limitations : Option (List (List ℕ))
  pub notes : Option (List ℕ)

pub data OutcomeError : Type 0 where
  invalid_fields invalid_timestamp too_many_screenshots too_many_steps too_many_limitations :
      OutcomeError
  missing_screenshots : List (List ℕ) → OutcomeError
  partial_without_screenshot pass_on_ended_run pass_without_interaction unreadable_run :
      OutcomeError

abbrev strings_only : Items → Bool
strings_only nil = true
strings_only (cons v items) = is_string v && strings_only items

abbrev is_string_list : Json → Bool
is_string_list (arr items) = strings_only items
is_string_list v = false

abbrev is_status_text : Json → Bool
is_status_text (str s) =
    str_eq s "pass" || (str_eq s "fail" || (str_eq s "partial" || str_eq s "blocked"))
is_status_text v = false

abbrev is_optional : (Json → Bool) → Json → Bool
is_optional p v = is_undefined v || p v

unfoldable pub valid_outcome_fields : Fields → Bool
valid_outcome_fields fields =
    (is_string (prop "recordedAt" fields)
      && (is_string (prop "scenario" fields) && is_string (prop "status" fields)))
    && (is_status_text (prop "status" fields)
        && (is_string_list (prop "inspectedScreenshots" fields)
            && ((is_optional is_string_list (prop "steps" fields)
                  && is_optional is_string_list (prop "limitations" fields))
                && (is_optional is_string (prop "revision" fields)
                    && is_optional is_string (prop "notes" fields)))))

-- A digit, or one unit.
abbrev fits : Option ℕ → ℕ → Bool
fits none c = leb 48 c && leb c 57
fits (some d) c = c == d

unfoldable pub strip_shape : List (Option ℕ) → List ℕ → Option (List ℕ)
strip_shape [] text = some text
strip_shape (p ∷ ps) [] = none
strip_shape (p ∷ ps) (c ∷ cs) = let rest = strip_shape ps cs in if fits p c then rest else none

abbrev digits_dash : List (Option ℕ)
digits_dash = none ∷ none ∷ some 45 ∷ []

abbrev digits_colon : List (Option ℕ)
digits_colon = none ∷ none ∷ some 58 ∷ []

abbrev date_and_time : List (Option ℕ)
date_and_time =
    none
    ∷ none
    ∷ (digits_dash
        ++ (digits_dash
            ++ (none ∷ none ∷ some 84 ∷ (digits_colon ++ (digits_colon ++ none ∷ none ∷ [])))))

unfoldable pub digit_run : List ℕ → ℕ × List ℕ
digit_run [] = (0, [])
digit_run (c ∷ cs) =
    let (n, rest) = digit_run cs in if fits none c then (suc n, rest) else (0, c ∷ cs)

abbrev fraction_left : ℕ × List ℕ → Option (List ℕ)
fraction_left (n, rest) = if leb 1 n && leb n 9 then some rest else none

-- What follows `(?:\.\d{1,9})?`.
abbrev after_fraction : List ℕ → Option (List ℕ)
after_fraction [] = some []
after_fraction (c ∷ cs) = if c == 46 then fraction_left (digit_run cs) else some (c ∷ cs)

abbrev is_all : Option (List ℕ) → Bool
is_all (some []) = true
is_all _ = false

abbrev is_zone : List ℕ → Bool
is_zone [] = false
is_zone (c ∷ cs) =
    if c == 90
    then is_all (some cs)
    else ((c == 43) || (c == 45)) && is_all (strip_shape (digits_colon ++ none ∷ none ∷ []) cs)

abbrev zone_follows : Option (List ℕ) → Bool
zone_follows none = false
zone_follows (some rest) = is_zone rest

unfoldable pub is_iso_timestamp : List ℕ → Bool
is_iso_timestamp text = zone_follows (bind_option (strip_shape date_and_time text) after_fraction)

abbrev pub count : Option (List (List ℕ)) → ℕ
count none = 0
count (some texts) = length texts

abbrev pub map_option {ℓ} : {A : Type ℓ} → (A → A) → Option A → Option A
map_option f none = none
map_option f (some a) = some (f a)

abbrev pub capped_text : (List ℕ → List ℕ) → ℕ → List ℕ → List ℕ
capped_text redact cap text = take cap (redact text)

-- The input has the fields of its type, so that the test of them holds. `Date.parse` gives a number
-- where `is_date` holds.
unfoldable pub assert_outcome_limits :
    (List ℕ → Bool) → EvidenceOutcome → Result OutcomeError (Unit {0})
assert_outcome_limits is_date input = do
  require
      (leb (length input.recorded_at) 40
        && (is_iso_timestamp input.recorded_at && is_date input.recorded_at))
      invalid_timestamp
  require (leb (length input.inspected_screenshots) 64) too_many_screenshots
  require (leb (count input.steps) 32) too_many_steps
  require (leb (count input.limitations) 32) too_many_limitations

-- The record of an input that passes the limits; `redact` is `redactSecrets`.
unfoldable pub sanitized : (List ℕ → List ℕ) → EvidenceOutcome → EvidenceOutcome
sanitized redact input = record {
  recorded_at = input.recorded_at;
  scenario = capped_text redact 200 input.scenario;
  status = input.status;
  revision = map_option (capped_text redact 128) input.revision;
  steps = map_option (map (capped_text redact 512)) input.steps;
  inspected_screenshots = input.inspected_screenshots;
  limitations = map_option (map (capped_text redact 512)) input.limitations;
  notes = map_option (capped_text redact 512) input.notes;
}

unfoldable pub sanitize_outcome :
    (List ℕ → Bool) → (List ℕ → List ℕ) → EvidenceOutcome → Result OutcomeError EvidenceOutcome
sanitize_outcome is_date redact input = do
  assert_outcome_limits is_date input
  ok (sanitized redact input)

-- A record of the journal: an outcome, a mark of truncation, or an action with its tool.
pub data EvidenceRecord : Type 0 where
  outcome : EvidenceOutcome → EvidenceRecord
  truncation : EvidenceRecord
  action : Bool → String → EvidenceRecord

abbrev pub interaction_tools : List String
interaction_tools =
    "desktop_focus" ∷ "desktop_click" ∷ "desktop_double_click" ∷ "desktop_drag" ∷ "desktop_scroll"
    ∷ "desktop_type" ∷ "desktop_key" ∷ "android_tap" ∷ "android_swipe" ∷ "android_type"
    ∷ "android_back" ∷ "android_home" ∷ "chrome_devtools/click" ∷ "chrome_devtools/click_at"
    ∷ "chrome_devtools/drag" ∷ "chrome_devtools/fill" ∷ "chrome_devtools/fill_form"
    ∷ "chrome_devtools/handle_dialog" ∷ "chrome_devtools/hover" ∷ "chrome_devtools/navigate_page"
    ∷ "chrome_devtools/press_key" ∷ "chrome_devtools/type_text" ∷ "chrome_devtools/upload_file" ∷ []

-- The first argument of an action says whether its status is `ok`.
unfoldable pub successful_interaction : EvidenceRecord → Bool
successful_interaction (action succeeded tool) = succeeded && any (str_eq tool) interaction_tools
successful_interaction other = false

-- What `lstat` says of a file in the directory of screenshots.
pub record FileStat : Type 0 where
  pub is_file : Bool
  pub is_symbolic_link : Bool
  pub nlink : ℕ

abbrev pub is_name_unit : ℕ → Bool
is_name_unit c =
    ((leb 65 c && leb c 90) || (leb 97 c && leb c 122))
    || ((leb 48 c && leb c 57) || ((c == 46) || ((c == 95) || (c == 45))))

abbrev pub is_png : List ℕ → Bool
is_png text = is_all (strip (units ".png") text)

-- `[A-Za-z0-9._-]+\.png$`
unfoldable pub is_png_name : List ℕ → Bool
is_png_name [] = false
is_png_name (c ∷ cs) = let rest = is_png_name cs in is_name_unit c && (is_png cs || rest)

abbrev pub is_plain_file : Option FileStat → Bool
is_plain_file none = false
is_plain_file (some stat) = stat.is_file && (not stat.is_symbolic_link && (stat.nlink == 1))

abbrev file_of : (List ℕ → Option FileStat) → Option (List ℕ) → Bool
file_of files none = false
file_of files (some name) = is_png_name name && is_plain_file (files name)

-- A screenshot of the run: its name is of the form that the run gives, and its file is plain.
unfoldable pub is_screenshot : (List ℕ → Option FileStat) → List ℕ → Bool
is_screenshot files relative = file_of files (strip (units "screenshots/") relative)

pub data RunStatus : Type 0 where
  running completed other_status : RunStatus

-- A run's directory: its screenshots, if they are a directory, its status and its journal, each read
-- anew. A read may throw.
pub record RunDir : Type 0 where
  pub screenshots : Option (List ℕ → Option FileStat)
  pub manifest_status : Result OutcomeError RunStatus
  pub actions : Result OutcomeError (List EvidenceRecord)

abbrev pub find_missing : Option (List ℕ → Option FileStat) → List (List ℕ) → List (List ℕ)
find_missing none names = names
find_missing (some files) names = keep (λ name. not (is_screenshot files name)) names

abbrev pub is_open : RunStatus → Bool
is_open other_status = false
is_open status = true

abbrev pub is_empty {ℓ} : {A : Type ℓ} → List A → Bool
is_empty [] = true
is_empty (x ∷ xs) = false

abbrev pub pass_rules : RunDir → Bool → Result OutcomeError (Unit {0})
pass_rules dir inspected = do
  status ← dir.manifest_status
  require (is_open status) pass_on_ended_run
  require inspected pass_without_interaction
  actions ← dir.actions
  require (any successful_interaction actions) pass_without_interaction

abbrev pub status_rules : RunDir → OutcomeStatus → Bool → Result OutcomeError (Unit {0})
status_rules dir pass inspected = pass_rules dir inspected
status_rules dir partial inspected = require inspected partial_without_screenshot
status_rules dir status inspected = ok tt

unfoldable pub validate_outcome_in :
    (List ℕ → List ℕ) → RunDir → EvidenceOutcome → Result OutcomeError (Unit {0})
validate_outcome_in redact dir made = do
  let missing = find_missing dir.screenshots made.inspected_screenshots
  require (is_empty missing) (missing_screenshots (map (λ name. take 512 (redact name)) missing))
  status_rules dir made.status (not (is_empty made.inspected_screenshots))

-- `records.filter(isOutcomeRecord).at(-1)`
unfoldable pub latest_outcome : List EvidenceRecord → Option EvidenceOutcome
latest_outcome [] = none
latest_outcome (outcome r ∷ records) = elim (latest_outcome records) [
  | none ↦ some r
  | some later ↦ some later
]
latest_outcome (other ∷ records) = latest_outcome records
