-- ===== src/Evidence/Tests.antt =====
-- The acceptance of outcomes checked on a run with one screenshot and one click.
use pickforge.Base.{
  ℕ, ◌≡◌, refl, Bool, true, false, Option, none, some, List, [], ◌∷◌, ok, err, All,
}
use pickforge.Json.{field, end, str, prop, get}
use pickforge.Toml.Texts.{units, strip}
use pickforge.Evidence.Outcome.{
  EvidenceOutcome, pass, partial, FileStat, RunDir, running, other_status, outcome, truncation,
  action, successful_interaction, is_png_name, is_screenshot, validate_outcome_in, latest_outcome,
  valid_outcome_fields, strip_shape, digit_run, is_iso_timestamp, assert_outcome_limits, sanitized,
  sanitize_outcome, pass_on_ended_run, pass_without_interaction, invalid_timestamp,
}
use pickforge.Evidence.Acceptance.{
  Grounds, IsTaken, within_limits, validate_outcome_in-Grounds, sanitize_outcome-within_limits,
}

abbrev files : List ℕ → Option FileStat
files name = some (record { is_file = true; is_symbolic_link = false; nlink = 1 })

abbrev dir : RunDir
dir = record {
  screenshots = some files;
  manifest_status = ok running;
  actions = ok (truncation ∷ action false "desktop_type" ∷ action true "desktop_click" ∷ []);
}

abbrev passed : EvidenceOutcome
passed = record {
  recorded_at = units "2026-01-02T03:04:05.678Z";
  scenario = units "log in";
  status = pass;
  revision = none;
  steps = some (units "click" ∷ []);
  inspected_screenshots = units "screenshots/a-1.png" ∷ [];
  limitations = none;
  notes = none;
}

abbrev unchanged : List ℕ → List ℕ
unchanged text = text

abbrev any_date : List ℕ → Bool
any_date text = true

passed_is_accepted : validate_outcome_in unchanged dir passed ≡ ok tt
unfolding validate_outcome_in is_screenshot is_png_name strip successful_interaction
passed_is_accepted = refl

ended_is_refused :
    validate_outcome_in unchanged (record dir { manifest_status = ok other_status }) passed
    ≡ err pass_on_ended_run
unfolding validate_outcome_in is_screenshot is_png_name strip successful_interaction
ended_is_refused = refl

idle_is_refused :
    validate_outcome_in unchanged
      (record dir { actions = ok (action true "desktop_screenshot" ∷ []) })
      passed
    ≡ err pass_without_interaction
unfolding validate_outcome_in is_screenshot is_png_name strip successful_interaction
idle_is_refused = refl

outside_is_no_screenshot : is_screenshot files (units "screenshots/../a.png") ≡ false
unfolding is_screenshot is_png_name strip
outside_is_no_screenshot = refl

passed_is_sanitized : sanitize_outcome any_date unchanged passed ≡ ok passed
unfolding sanitize_outcome sanitized assert_outcome_limits is_iso_timestamp strip_shape digit_run
passed_is_sanitized = refl

offset_is_a_timestamp : is_iso_timestamp (units "2026-01-02T03:04:05+01:00") ≡ true
unfolding is_iso_timestamp strip_shape digit_run
offset_is_a_timestamp = refl

day_is_no_timestamp :
    sanitize_outcome any_date unchanged (record passed { recorded_at = units "2026-01-02" })
    ≡ err invalid_timestamp
unfolding sanitize_outcome sanitized assert_outcome_limits is_iso_timestamp strip_shape digit_run
day_is_no_timestamp = refl

fields_without_scenario :
    valid_outcome_fields (field "recordedAt" (str "t") (field "status" (str "pass") end)) ≡ false
unfolding valid_outcome_fields prop get
fields_without_scenario = refl

last_is_latest :
    latest_outcome
      (outcome passed ∷ truncation ∷ outcome (record passed { status = partial }) ∷ truncation ∷ [])
    ≡ some (record passed { status = partial })
unfolding latest_outcome
last_is_latest = refl

validate_outcome_in-Grounds_example :
    All (IsTaken (some files)) (units "screenshots/a-1.png" ∷ [])
    × Grounds dir pass (units "screenshots/a-1.png" ∷ [])
validate_outcome_in-Grounds_example =
    validate_outcome_in-Grounds unchanged dir passed passed_is_accepted

sanitize_outcome-within_limits_example :
    (within_limits passed ≡ true)
    × (passed.status ≡ passed.status)
    × (passed.inspected_screenshots ≡ passed.inspected_screenshots)
sanitize_outcome-within_limits_example =
    sanitize_outcome-within_limits any_date unchanged passed passed passed_is_sanitized
