-- ===== src/Gate/Tests.antt =====
-- packages/browser/src/devtools-permits.ts: a gate that admits a call, hands it over and closes.
use pickforge.Base.{◌+◌, ◌≡◌, refl, List, [], ◌∷◌, false}
use pickforge.Gate.Calls.{text, count, held}
use pickforge.Gate.Permits.{
  yes_read, no_read, initial_gate, Part, acquire, finish, input_read, lease_read, close_gate,
  run_all,
}
use pickforge.Gate.Conservation.{admitting_permits, run_all-count, run_all-closed}

abbrev parts : List Part
parts =
    acquire (text "1") "p"
    ∷ finish "p" no_read
    ∷ acquire (text "1") "q"
    ∷ input_read false
    ∷ lease_read yes_read
    ∷ close_gate
    ∷ finish "q" no_read
    ∷ []

run_all-count_example :
    count "q" (run_all initial_gate parts).acquired
    ≡ count "q" (run_all initial_gate parts).released
      + (count "q" (held (run_all initial_gate parts).calls)
          + count "q" (admitting_permits (run_all initial_gate parts).admitting))
run_all-count_example = run_all-count parts "q"

run_all-closed_example :
    count "p" (run_all initial_gate parts).released
    ≡ count "p" (run_all initial_gate parts).acquired
unfolding run_all
run_all-closed_example = run_all-closed parts "p" refl refl
