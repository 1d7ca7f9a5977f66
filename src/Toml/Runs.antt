-- ===== src/Toml/Runs.antt =====
-- The scanner of packages/agent-installers/src/tomlScan.ts reads a line as the rules do.
use pickforge.Base.{
  ℕ, zero, suc, ◌+◌, ◌≡◌, ◌≤◌, refl, Option, none, some, List, [], ◌∷◌, length, drop, length-drop,
  leb, Option-cases, inl, inr, if◌then◌else◌, arith,
}
use pickforge.Toml.Scan.{
  TomlScanState, quote_run, multiline_round, scan_multiline, single_round, scan_single_line,
  scan_string, scan_from, scan_toml_line, bracket_depth,
}
use pickforge.Toml.Automaton.{
  plain, comment, opened_once, single, multi, next, finish, run, read_line,
}

-- A run of quotes in a multiline string closes it if there are three, those before it included.
run-multi :
    (depth q n : ℕ) (line : List ℕ)
    → run depth (multi q n) line ≡ (
        if leb 3 (n + quote_run q line)
        then run depth plain (drop (quote_run q line) line)
        else run depth (multi q 0) (drop (quote_run q line) line))
unfolding run next finish quote_run
run-multi depth q n [] = ground arith
run-multi depth q n (c ∷ cs) = ground (arith, run-multi depth q (suc n) cs)

-- What a multiline string that is left open, or closed before the rest, comes to.
abbrev after_multiline : ℕ → ℕ → Option (List ℕ) → TomlScanState
after_multiline depth q none = record { multiline = some q; depth = depth }
after_multiline depth q (some rest) = run depth plain rest

comment-run :
    (depth : ℕ) (line : List ℕ)
    → run depth comment line ≡ record { multiline = none; depth = depth }
unfolding run next finish
comment-run depth [] = refl
comment-run depth (c ∷ cs) = comment-run depth cs

-- With a round for each unit, the loop of a multiline string gives what the rules give.
run-scan_multiline :
    (n depth q : ℕ) (line : List ℕ)
    → length line ≤ n
    → run depth (multi q 0) line ≡ after_multiline depth q (scan_multiline n q line)
unfolding scan_multiline multiline_round run next finish quote_run
run-scan_multiline zero depth q [] h = refl
run-scan_multiline zero depth q (c ∷ cs) h = elim h [ ]
run-scan_multiline (suc n) depth q [] h = refl
run-scan_multiline (suc n) depth q (c ∷ []) h =
    ground (arith, run-multi depth q 1 [], run-scan_multiline n depth q [] (omega arith))
run-scan_multiline (suc n) depth q (c ∷ (d ∷ cs)) h =
    let k = quote_run q (d ∷ cs) in
    ground (
      arith,
      run-multi depth q 1 (d ∷ cs),
      length-drop k (d ∷ cs),
      run-scan_multiline n depth q (drop k (d ∷ cs)) (omega (arith, length-drop k (d ∷ cs), h)),
      run-scan_multiline n depth q (d ∷ cs) (omega (arith, h)),
      run-scan_multiline n depth q cs (omega (arith, h)),
    )

run-scan_single_line :
    (n depth q : ℕ) (line : List ℕ)
    → length line ≤ n
    → run depth (single q) line ≡ run depth plain (scan_single_line n q line)
unfolding scan_single_line single_round run next finish
run-scan_single_line zero depth q [] h = refl
run-scan_single_line zero depth q (c ∷ cs) h = elim h [ ]
run-scan_single_line (suc n) depth q [] h = refl
run-scan_single_line (suc n) depth q (c ∷ []) h =
    ground (arith, run-scan_single_line n depth q [] (omega arith))
run-scan_single_line (suc n) depth q (c ∷ (d ∷ cs)) h = ground (
  arith,
  run-scan_single_line n depth q (d ∷ cs) (omega (arith, h)),
  run-scan_single_line n depth q cs (omega (arith, h)),
)

-- After its first quote a string is read as the rules say, whether it is empty, of one line or of many.
run-scan_string :
    (depth q : ℕ) (line : List ℕ)
    → run depth (opened_once q) line ≡ after_multiline depth q (scan_string q line)
unfolding scan_string scan_single_line run next finish
run-scan_string depth q [] = refl
run-scan_string depth q (c ∷ []) =
    ground (arith, run-scan_single_line 1 depth q (c ∷ []) (omega arith))
run-scan_string depth q (c ∷ (d ∷ cs)) = ground (
  arith,
  run-scan_single_line (suc (suc (length cs))) depth q (c ∷ (d ∷ cs)) (omega arith),
  run-scan_multiline (suc (suc (length cs))) depth q cs (omega arith),
)

-- A string leaves no more units than it was given.
abbrev left : Option (List ℕ) → ℕ
left none = 0
left (some rest) = length rest

left-scan_multiline : (n q : ℕ) (line : List ℕ) → left (scan_multiline n q line) ≤ length line
unfolding scan_multiline multiline_round
left-scan_multiline zero q line = omega arith
left-scan_multiline (suc n) q [] = omega arith
left-scan_multiline (suc n) q (c ∷ cs) =
    let k = quote_run q (c ∷ cs) in
    ground (
      arith,
      length-drop k (c ∷ cs),
      length-drop 1 cs,
      left-scan_multiline n q (drop k (c ∷ cs)),
      left-scan_multiline n q (drop 1 cs),
      left-scan_multiline n q cs,
    )

length-scan_single_line :
    (n q : ℕ) (line : List ℕ) → length (scan_single_line n q line) ≤ length line
unfolding scan_single_line single_round
length-scan_single_line zero q line = omega arith
length-scan_single_line (suc n) q [] = omega arith
length-scan_single_line (suc n) q (c ∷ cs) = ground (
  arith,
  length-drop 1 cs,
  length-scan_single_line n q (drop 1 cs),
  length-scan_single_line n q cs,
)

left-scan_string : (q : ℕ) (line : List ℕ) → left (scan_string q line) ≤ length line
unfolding scan_string
left-scan_string q line = ground (
  arith,
  length-drop 2 line,
  left-scan_multiline (length line) q (drop 2 line),
  length-scan_single_line (length line) q line,
)

-- The loop over a line from its top.
run-scan_from :
    (n depth : ℕ) (line : List ℕ) → length line ≤ n → run depth plain line ≡ scan_from n depth line
unfolding scan_from run next finish
run-scan_from zero depth [] h = refl
run-scan_from zero depth (c ∷ cs) h = elim h [ ]
run-scan_from (suc n) depth [] h = refl
run-scan_from (suc n) depth (c ∷ cs) h = elim (Option-cases (scan_string c cs)) [
  | inl unclosed ↦ ground (
    arith,
    unclosed,
    comment-run depth cs,
    run-scan_string depth c cs,
    run-scan_from n (bracket_depth depth c) cs (omega (arith, h)),
  )
  | inr (rest, got) ↦
      let fits : length rest ≤ n = ground (arith, h, got, left-scan_string c cs) in
      ground (
        arith,
        got,
        comment-run depth cs,
        run-scan_string depth c cs,
        run-scan_from n depth rest fits,
        run-scan_from n (bracket_depth depth c) cs (omega (arith, h)),
      )
]

-- The scanner gives the state at the start of the next line that the rules give.
pub scan_toml_line-read_line :
    (line : List ℕ) (state : TomlScanState) → scan_toml_line line state ≡ read_line line state
unfolding scan_toml_line read_line
scan_toml_line-read_line line state = elim (Option-cases state.multiline) [
  | inl top ↦ ground (arith, top, run-scan_from (length line) state.depth line (omega arith))
  | inr (q, within) ↦ elim (Option-cases (scan_multiline (length line) q line)) [
    | inl unclosed ↦
        ground (
          arith,
          within,
          unclosed,
          run-scan_multiline (length line) state.depth q line (omega arith),
        )
    | inr (rest, got) ↦
        let fits : length rest ≤ length line =
          ground (arith, got, left-scan_multiline (length line) q line) in
        ground (
          arith,
          within,
          got,
          run-scan_multiline (length line) state.depth q line (omega arith),
          run-scan_from (length line) state.depth rest fits,
        )
  ]
]
