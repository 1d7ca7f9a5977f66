-- ===== src/Evidence/Acceptance.antt =====
-- packages/core/src/evidence-outcome.ts: what an outcome that is accepted rests on, and the limits of
-- one that is written.
use pickforge.Base.{
  ℕ, zero, suc, ◌≡◌, ◌≤◌, refl, ap, subst, Bool, true, false, not, ◌&&◌, Option, none, some, List,
  [], ◌∷◌, ◌++◌, map, length, take, any, every, leb, arith, All, ◌⊎◌, String, str_eq, Option-cases,
  Bool-cases, ok, Result-cases, inl, inr,
}
use pickforge.Toml.Texts.{units, strip}
use pickforge.Evidence.Outcome.{
  EvidenceOutcome, OutcomeStatus, pass, fail, partial, blocked, RunDir, RunStatus, EvidenceRecord,
  FileStat, successful_interaction, is_screenshot, is_plain_file, is_png_name, is_name_unit, is_png,
  interaction_tools, outcome, truncation, action, running, completed, other_status, find_missing,
  is_open, is_empty, pass_rules, status_rules, validate_outcome_in, assert_outcome_limits,
  sanitize_outcome, sanitized, capped_text, count, map_option,
}

-- A file of the directory: there, a file and no symbolic link, with one name.
abbrev pub IsPlain : Option FileStat → Type 0
IsPlain none = ⊥
IsPlain (some stat) = (stat.is_file ≡ true) × (stat.is_symbolic_link ≡ false) × (stat.nlink ≡ 1)

-- A letter, a digit, a dot, a line or a dash.
abbrev pub IsNameUnit : ℕ → Type 0
IsNameUnit c =
    ((65 ≤ c) × (c ≤ 90))
    ⊎ ((97 ≤ c) × (c ≤ 122))
    ⊎ ((48 ≤ c) × (c ≤ 57))
    ⊎ (c ≡ 46)
    ⊎ (c ≡ 95)
    ⊎ (c ≡ 45)

-- One unit or more of a name, and `.png`.
abbrev pub IsPngName : List ℕ → Type 0
IsPngName name =
    (c : ℕ) × (cs : List ℕ) × (name ≡ (c ∷ cs) ++ units ".png") × All IsNameUnit (c ∷ cs)

-- `screenshots/` with a name whose file is plain; there are none without a directory.
abbrev pub IsTaken : Option (List ℕ → Option FileStat) → List ℕ → Type 0
IsTaken none relative = ⊥
IsTaken (some files) relative =
    (name : List ℕ) × (relative ≡ units "screenshots/" ++ name)
    × IsPngName name
    × IsPlain (files name)

-- An action of the journal that went well, with a tool that acts on the session.
abbrev pub ActedWith : List EvidenceRecord → Type 0
ActedWith [] = ⊥
ActedWith (r ∷ records) =
    ((tool : String) × (r ≡ action true tool) × (any (str_eq tool) interaction_tools ≡ true))
    ⊎ ActedWith records

-- A run that goes on or has been completed, with an interaction that succeeded.
abbrev pub Interacted : RunDir → Type 0
Interacted dir =
    (status : RunStatus) × (records : List EvidenceRecord) × (dir.manifest_status ≡ ok status)
    × ((status ≡ running) ⊎ (status ≡ completed))
    × (dir.actions ≡ ok records)
    × ActedWith records

abbrev pub Grounds : RunDir → OutcomeStatus → List (List ℕ) → Type 0
Grounds dir pass screenshots = (is_empty screenshots ≡ false) × Interacted dir
Grounds dir partial screenshots = is_empty screenshots ≡ false
Grounds dir fail screenshots = Unit
Grounds dir blocked screenshots = Unit

-- A text that has a prefix is the prefix and what is left.
strip-append : (prefix text rest : List ℕ) → strip prefix text ≡ some rest → text ≡ prefix ++ rest
unfolding strip
strip-append [] text rest e = ground arith
strip-append (p ∷ ps) [] rest e = ground arith
strip-append (p ∷ ps) (c ∷ cs) rest e = ground (arith, e, strip-append ps cs rest)

is_name_unit-IsNameUnit : (c : ℕ) → is_name_unit c ≡ true → IsNameUnit c
is_name_unit-IsNameUnit c h = ground (arith, h)

is_png-append : (cs : List ℕ) → is_png cs ≡ true → cs ≡ units ".png"
is_png-append cs h = elim (Option-cases (strip (units ".png") cs)) [
  | inl other ↦ let absurd : ⊥ = ground (arith, h, other) in elim absurd [ ]
  | inr ([], got) ↦ strip-append (units ".png") cs [] got
  | inr (d ∷ ds, got) ↦ let absurd : ⊥ = ground (arith, h, got) in elim absurd [ ]
]

is_png_name-IsPngName : (name : List ℕ) → is_png_name name ≡ true → IsPngName name
unfolding is_png_name
is_png_name-IsPngName [] h = let absurd : ⊥ = ground (arith, h) in elim absurd [ ]
is_png_name-IsPngName (c ∷ cs) h = elim (Bool-cases (is_png cs)) [
  | inl png ↦ (
    c,
    [],
    ap (λ t. c ∷ t) (is_png-append cs png),
    (is_name_unit-IsNameUnit c (ground (arith, h)), tt),
  )
  | inr more ↦
      let (d, ds, parts, units_of) = is_png_name-IsPngName cs (ground (arith, h, more)) in
      (c, d ∷ ds, ap (λ t. c ∷ t) parts, (is_name_unit-IsNameUnit c (ground (arith, h)), units_of))
]

is_plain_file-IsPlain : (stat : Option FileStat) → is_plain_file stat ≡ true → IsPlain stat
is_plain_file-IsPlain none h = let absurd : ⊥ = ground (arith, h) in elim absurd [ ]
is_plain_file-IsPlain (some stat) h = (ground (arith, h), ground (arith, h), ground (arith, h))

is_screenshot-IsTaken :
    (files : List ℕ → Option FileStat) (relative : List ℕ)
    → is_screenshot files relative ≡ true
    → IsTaken (some files) relative
unfolding is_screenshot
is_screenshot-IsTaken files relative h =
    elim (Option-cases (strip (units "screenshots/") relative)) [
      | inl other ↦ let absurd : ⊥ = ground (arith, h, other) in elim absurd [ ]
      | inr (name, got) ↦ (
        name,
        strip-append (units "screenshots/") relative name got,
        is_png_name-IsPngName name (ground (arith, h, got)),
        is_plain_file-IsPlain (files name) (ground (arith, h, got)),
      )
    ]

find_missing-none :
    (files : Option (List ℕ → Option FileStat)) (names : List (List ℕ))
    → is_empty (find_missing files names) ≡ true
    → All (IsTaken files) names
find_missing-none none [] h = tt
find_missing-none none (name ∷ names) h = let absurd : ⊥ = ground (arith, h) in elim absurd [ ]
find_missing-none (some files) [] h = tt
find_missing-none (some files) (name ∷ names) h = (
  is_screenshot-IsTaken files name (ground (arith, h)),
  find_missing-none (some files) names (ground (arith, h)),
)

successful_interaction-tool :
    (r : EvidenceRecord)
    → successful_interaction r ≡ true
    → (tool : String) × (r ≡ action true tool) × (any (str_eq tool) interaction_tools ≡ true)
unfolding successful_interaction
successful_interaction-tool (outcome made) h = let absurd : ⊥ = ground (arith, h) in elim absurd [ ]
successful_interaction-tool truncation h = let absurd : ⊥ = ground (arith, h) in elim absurd [ ]
successful_interaction-tool (action true tool) h = (tool, refl, h)
successful_interaction-tool (action false tool) h =
    let absurd : ⊥ = ground (arith, h) in elim absurd [ ]

any-ActedWith :
    (records : List EvidenceRecord) → any successful_interaction records ≡ true → ActedWith records
any-ActedWith [] h = let absurd : ⊥ = ground (arith, h) in elim absurd [ ]
any-ActedWith (r ∷ records) h = elim (Bool-cases (successful_interaction r)) [
  | inl here ↦ inl (successful_interaction-tool r here)
  | inr not_here ↦ inr (any-ActedWith records (ground (arith, h, not_here)))
]

is_open-cases :
    (status : RunStatus) → is_open status ≡ true → (status ≡ running) ⊎ (status ≡ completed)
is_open-cases running h = inl refl
is_open-cases completed h = inr refl
is_open-cases other_status h = let absurd : ⊥ = ground (arith, h) in elim absurd [ ]

pass_rules-Interacted :
    (dir : RunDir) (inspected : Bool)
    → pass_rules dir inspected ≡ ok tt
    → (inspected ≡ true) × Interacted dir
pass_rules-Interacted dir inspected e = elim (Result-cases dir.manifest_status) [
  | inl (status, got) ↦ elim (Result-cases dir.actions) [
    | inl (records, got') ↦ (
      ground (arith, e, got),
      (
        status,
        records,
        got,
        is_open-cases status (ground (arith, e, got)),
        got',
        any-ActedWith records (ground (arith, e, got, got')),
      ),
    )
    | inr (thrown, got') ↦ let absurd : ⊥ = ground (arith, e, got, got') in elim absurd [ ]
  ]
  | inr (thrown, got) ↦ let absurd : ⊥ = ground (arith, e, got) in elim absurd [ ]
]

status_rules-Grounds :
    (dir : RunDir) (status : OutcomeStatus) (screenshots : List (List ℕ))
    → status_rules dir status (not (is_empty screenshots)) ≡ ok tt
    → Grounds dir status screenshots
status_rules-Grounds dir pass screenshots e =
    let held = pass_rules-Interacted dir (not (is_empty screenshots)) e in
    (ground (arith, held.0), held.1)
status_rules-Grounds dir partial screenshots e = ground (arith, e)
status_rules-Grounds dir fail screenshots e = tt
status_rules-Grounds dir blocked screenshots e = tt

-- In an outcome that is accepted each screenshot is `screenshots/` with the name of a PNG whose file
-- is there, is no symbolic link and has one link; one that is partial or a pass names one at least,
-- and a pass has a run that goes on or is completed, with an action of an interaction tool in its
-- journal that went well.
pub validate_outcome_in-Grounds :
    (redact : List ℕ → List ℕ) (dir : RunDir) (made : EvidenceOutcome)
    → validate_outcome_in redact dir made ≡ ok tt
    → All (IsTaken dir.screenshots) made.inspected_screenshots
      × Grounds dir made.status made.inspected_screenshots
unfolding validate_outcome_in
validate_outcome_in-Grounds redact dir made e = (
  find_missing-none dir.screenshots made.inspected_screenshots (ground (arith, e)),
  status_rules-Grounds dir made.status made.inspected_screenshots (ground (arith, e)),
)

length-take-le : (n : ℕ) (text : List ℕ) → length (take n text) ≤ n
length-take-le zero text = omega arith
length-take-le (suc n) [] = omega arith
length-take-le (suc n) (c ∷ cs) = omega (arith, length-take-le n cs)

abbrev pub at_most : ℕ → Option (List ℕ) → Bool
at_most n none = true
at_most n (some text) = leb (length text) n

abbrev pub each_at_most : ℕ → List (List ℕ) → Bool
each_at_most n texts = every (λ text. leb (length text) n) texts

abbrev pub list_at_most : ℕ → ℕ → Option (List (List ℕ)) → Bool
list_at_most n m none = true
list_at_most n m (some texts) = leb (length texts) n && each_at_most m texts

-- The limits of what is written.
unfoldable pub within_limits : EvidenceOutcome → Bool
within_limits made =
    ((leb (length made.recorded_at) 40 && leb (length made.scenario) 200)
      && (at_most 128 made.revision && at_most 512 made.notes))
    && (leb (length made.inspected_screenshots) 64
        && (list_at_most 32 512 made.steps && list_at_most 32 512 made.limitations))

module _ (redact : List ℕ → List ℕ) where
  at_most-capped_text :
      (n : ℕ) (text : Option (List ℕ)) → at_most n (map_option (capped_text redact n) text) ≡ true
  at_most-capped_text n none = refl
  at_most-capped_text n (some text) = ground (arith, length-take-le n (redact text))

  each-capped_text :
      (n : ℕ) (texts : List (List ℕ))
      → (each_at_most n (map (capped_text redact n) texts) ≡ true)
        × (length (map (capped_text redact n) texts) ≡ length texts)
  each-capped_text n [] = (refl, refl)
  each-capped_text n (text ∷ texts) =
      ground (arith, length-take-le n (redact text), each-capped_text n texts)

  list-capped_text :
      (n m : ℕ) (texts : Option (List (List ℕ)))
      → leb (count texts) n ≡ true
      → list_at_most n m (map_option (map (capped_text redact m)) texts) ≡ true
  list-capped_text n m none h = refl
  list-capped_text n m (some texts) h = ground (arith, each-capped_text m texts)

  sanitized-within_limits :
      (input : EvidenceOutcome)
      → leb (length input.recorded_at) 40 ≡ true
      → leb (length input.inspected_screenshots) 64 ≡ true
      → leb (count input.steps) 32 ≡ true
      → leb (count input.limitations) 32 ≡ true
      → within_limits (sanitized redact input) ≡ true
  unfolding sanitized within_limits
  sanitized-within_limits input short few steps limitations = ground (
    arith,
    length-take-le 200 (redact input.scenario),
    at_most-capped_text 128 input.revision,
    at_most-capped_text 512 input.notes,
    list-capped_text 32 512 input.steps steps,
    list-capped_text 32 512 input.limitations limitations,
  )

sanitized-status :
    (redact : List ℕ → List ℕ) (input : EvidenceOutcome)
    → (sanitized redact input).status ≡ input.status
unfolding sanitized
sanitized-status redact input = refl

sanitized-screenshots :
    (redact : List ℕ → List ℕ) (input : EvidenceOutcome)
    → (sanitized redact input).inspected_screenshots ≡ input.inspected_screenshots
unfolding sanitized
sanitized-screenshots redact input = refl

assert_outcome_limits-held :
    (is_date : List ℕ → Bool) (input : EvidenceOutcome)
    → assert_outcome_limits is_date input ≡ ok tt
    → (leb (length input.recorded_at) 40 ≡ true)
      × (leb (length input.inspected_screenshots) 64 ≡ true)
      × (leb (count input.steps) 32 ≡ true)
      × (leb (count input.limitations) 32 ≡ true)
unfolding assert_outcome_limits
assert_outcome_limits-held is_date input e = ground (arith, e)

-- A sanitized outcome is within the limits, and its status and its screenshots are those of the input.
pub sanitize_outcome-within_limits :
    (is_date : List ℕ → Bool) (redact : List ℕ → List ℕ) (input made : EvidenceOutcome)
    → sanitize_outcome is_date redact input ≡ ok made
    → (within_limits made ≡ true)
      × (made.status ≡ input.status)
      × (made.inspected_screenshots ≡ input.inspected_screenshots)
unfolding sanitize_outcome
sanitize_outcome-within_limits is_date redact input made e =
    elim (Result-cases (assert_outcome_limits is_date input)) [
      | inl (unit, got) ↦
          let held = assert_outcome_limits-held is_date input got in
          let is_made : sanitized redact input ≡ made = ground (arith, e, got) in
          subst
            (λ m.
              (within_limits m ≡ true)
              × (m.status ≡ input.status)
              × (m.inspected_screenshots ≡ input.inspected_screenshots))
            is_made
            (
              sanitized-within_limits redact input (held.0) (held.1) (held.2) (held.3),
              sanitized-status redact input,
              sanitized-screenshots redact input,
            )
      | inr (thrown, got) ↦ let absurd : ⊥ = ground (arith, e, got) in elim absurd [ ]
    ]
