-- ===== src/Gate/Conservation.antt =====
-- packages/browser/src/devtools-permits.ts: no permit of the gate is lost or released twice.
use pickforge.Base.{
  ◌+◌, ◌≤◌, ◌≡◌, inl, inr, refl, ap, sym, ◌∙◌, subst, Bool-cases, Option-cases, String, str_eq,
  eq_iff, Bool, true, false, Option, none, some, List, [], ◌∷◌, ◌++◌, All, any, if◌then◌else◌,
  arith,
}
use pickforge.Json.{Fields, has}
use pickforge.Gate.Calls.{
  RequestId, json_rpc_request_id, Calls, Queue, shift_call, held, held_queue, keep_unless,
  release_calls, taken, optional_list, count, count-append, count-push_call, count-shift_call,
  count-release_calls,
}
use pickforge.Gate.Permits.{
  Read, yes_read, no_read, failed_read, RelayErrorCode, PermitGate, released_of, admit_taken,
  initial_gate, admit_finish, admit_rest, take_admission, refusal_of, release, release_permits,
  release_held, close, check_input, check_lease, refusal_after_permit_failure, take_unanswered,
  Part, acquire, permit_failed, finish, answer, input_read, lease_read, close_gate, unanswered, run,
  run_all,
}

abbrev pub admitting_permits : List (RequestId × String) → List String
admitting_permits [] = []
admitting_permits ((id, p) ∷ rest) = p ∷ admitting_permits rest

abbrev permit_of : Option (RequestId × String) → Option String
permit_of none = none
permit_of (some (id, p)) = some p

-- Each permit that was acquired is released, held by a call, or with a call that is being
-- admitted, once each; a closed gate holds none.
abbrev Conserves : PermitGate → Type 0
Conserves g =
    ((p : String)
      → count p g.acquired
        ≡ count p g.released + (count p (held g.calls) + count p (admitting_permits g.admitting)))
    × (g.closed ≡ true → held g.calls ≡ [])

among-All :
    (ps qs : List String) (x : String)
    → All (λ q. any (str_eq q) ps ≡ true) qs
    → All (λ q. any (str_eq q) (x ∷ ps) ≡ true) qs
among-All ps [] x h = tt
among-All ps (q ∷ qs) x h = (ground (arith, h.0), among-All ps qs x h.1)

among_self : (ps : List String) → All (λ q. any (str_eq q) ps ≡ true) ps
among_self [] = tt
among_self (p ∷ ps) = (ground (arith, eq_iff p p), among-All ps ps p (among_self ps))

held_queue-keep_unless :
    (ps : List String) (queue : Queue) (rest : List String)
    → All (λ q. any (str_eq q) ps ≡ true) (held_queue queue ++ rest)
    → (held_queue (keep_unless ps queue) ≡ []) × All (λ q. any (str_eq q) ps ≡ true) rest
held_queue-keep_unless ps [] rest h = (refl, h)
held_queue-keep_unless ps (none ∷ queue) rest h = held_queue-keep_unless ps queue rest h
held_queue-keep_unless ps (some q ∷ queue) rest h =
    let more = held_queue-keep_unless ps queue rest h.1 in (ground (arith, h.0, more.0), more.1)

held-release_calls :
    (ps : List String) (calls : Calls)
    → All (λ q. any (str_eq q) ps ≡ true) (held calls)
    → held (release_calls ps calls) ≡ []
unfolding held release_calls
held-release_calls ps [] h = refl
held-release_calls ps ((id, queue) ∷ calls) h =
    let here = held_queue-keep_unless ps queue (held calls) h in
    ground (arith, here.0, held-release_calls ps calls here.1)

empty_of_count : (xs : List String) → ((p : String) → count p xs ≡ 0) → xs ≡ []
unfolding count
empty_of_count [] h = refl
empty_of_count (x ∷ xs) h = ground (arith, h x, eq_iff x x)

count-empty : (p : String) (xs : List String) → xs ≡ [] → count p xs ≡ 0
unfolding count
count-empty p xs e = ground arith

-- Fewer permits than none are none.
empty_below : (xs ys : List String) → xs ≡ [] → ((p : String) → count p ys ≤ count p xs) → ys ≡ []
empty_below xs ys e h = empty_of_count ys (λ p. omega (arith, h p, count-empty p xs e))

release_permits-Conserves :
    (g : PermitGate) (ps : List String) → Conserves g → Conserves (release_permits g ps)
unfolding release_permits
release_permits-Conserves g ps h = (
  λ p. omega (
    arith,
    h.0 p,
    count-release_calls p ps g.calls,
    count-append p (taken ps (held g.calls)) g.released,
  ),
  λ c.
      empty_below (held g.calls) (held (release_calls ps g.calls)) (h.1 c)
        (λ p. omega (arith, count-release_calls p ps g.calls)),
)

close-Conserves : (g : PermitGate) → Conserves g → Conserves (close g)
unfolding close release_held release_permits
close-Conserves g h = (
  (release_permits-Conserves g (held g.calls) h).0,
  λ c. held-release_calls (held g.calls) g.calls (among_self (held g.calls)),
)

release_id-Conserves :
    (g : PermitGate) (id : RequestId)
    → Conserves g
    → Conserves (released_of g (shift_call id g.calls))
release_id-Conserves g id h = (
  λ p. omega (
    arith,
    h.0 p,
    count-shift_call p id g.calls,
    count-append p (optional_list (shift_call id g.calls).1) g.released,
  ),
  λ c.
      empty_below (held g.calls) (held (shift_call id g.calls).0) (h.1 c)
        (λ p. omega (arith, count-shift_call p id g.calls)),
)

release-Conserves :
    (g : PermitGate) (message : Fields) → Conserves g → Conserves (release g message)
unfolding release
release-Conserves g message h = elim (Bool-cases (has "method" message)) [
  | inl e ↦ subst Conserves {x = g} {y = release g message} (ground arith) h
  | inr e ↦ elim (Option-cases (json_rpc_request_id message)) [
    | inl o ↦ subst Conserves {x = g} {y = release g message} (ground arith) h
    | inr (id, o) ↦
        subst Conserves {x = released_of g (shift_call id g.calls)} {y = release g message}
          (ground arith) (release_id-Conserves g id h)
  ]
]

take_admission-count :
    (p permit : String) (rest : List (RequestId × String))
    → count p (admitting_permits rest)
      ≡ count p (optional_list (permit_of (take_admission permit rest).0))
        + count p (admitting_permits (take_admission permit rest).1)
unfolding take_admission count
take_admission-count p permit [] = omega arith
take_admission-count p permit ((id, q) ∷ rest) = ground (arith, take_admission-count p permit rest)

refusal_of-closed : (g : PermitGate) (lease : Read) → refusal_of g lease ≡ none → g.closed ≡ false
unfolding refusal_of
refusal_of-closed g lease e = ground arith

admit_rest-Conserves :
    (g : PermitGate) (id : RequestId) (permit : String) (rest : List (RequestId × String))
    (refusal : Option RelayErrorCode)
    → Conserves g
    → ((p : String)
        → count p (admitting_permits g.admitting)
          ≡ count p (permit ∷ []) + count p (admitting_permits rest))
    → (refusal ≡ none → g.closed ≡ false)
    → Conserves (admit_rest (record g { admitting = rest }) id permit refusal)
unfolding admit_rest count
admit_rest-Conserves g id permit rest (some code) h c r = (λ p. omega (arith, h.0 p, c p), h.1)
admit_rest-Conserves g id permit rest none h c r = (
  λ p. omega (arith, h.0 p, c p, count-push_call p permit id g.calls),
  λ e. ground (arith, r refl),
)

taken_case :
    (g : PermitGate) (permit : String) (lease : Read)
    (found : Option (RequestId × String) × List (RequestId × String))
    → Conserves g
    → ((p : String)
        → count p (admitting_permits g.admitting)
          ≡ count p (optional_list (permit_of found.0)) + count p (admitting_permits found.1))
    → Conserves (admit_taken g lease found)
taken_case g permit lease (none, rest) h c = h
taken_case g permit lease (some (id, q), rest) h c =
    admit_rest-Conserves g id q rest (refusal_of g lease) h c (λ e. refusal_of-closed g lease e)

admit_finish-Conserves :
    (g : PermitGate) (permit : String) (lease : Read)
    → Conserves g
    → Conserves (admit_finish g permit lease)
unfolding admit_finish
admit_finish-Conserves g permit lease h =
    taken_case g permit lease (take_admission permit g.admitting) h
      (λ p. take_admission-count p permit g.admitting)

same-Conserves :
    (g g' : PermitGate)
    → g'.acquired ≡ g.acquired
    → g'.released ≡ g.released
    → g'.calls ≡ g.calls
    → g'.admitting ≡ g.admitting
    → g'.closed ≡ g.closed
    → Conserves g
    → Conserves g'
same-Conserves g g' a r c t e h = (
  λ p. omega (
    arith,
    h.0 p,
    ap (count p) a,
    ap (count p) r,
    ap (λ x. count p (held x)) c,
    ap (λ x. count p (admitting_permits x)) t,
  ),
  λ k. ap held c ∙ h.1 (sym e ∙ k),
)

check_input-Conserves : (g : PermitGate) (b : Bool) → Conserves g → Conserves (check_input g b)
unfolding check_input
check_input-Conserves g b h =
    same-Conserves g (check_input g b) (ground arith) (ground arith) (ground arith) (ground arith)
      (ground arith) h

unanswered-Conserves :
    (g : PermitGate) (b : Bool)
    → g.closed ≡ b
    → Conserves g
    → Conserves (if b then (take_unanswered g).0 else g)
unfolding take_unanswered held count
unanswered-Conserves g true e h =
    (λ p. omega (arith, h.0 p, count-empty p (held g.calls) (h.1 e)), λ k. refl)
unanswered-Conserves g false e h = h

run-Conserves : (g : PermitGate) (part : Part) → Conserves g → Conserves (run g part)
unfolding run count refusal_after_permit_failure check_lease
run-Conserves g (acquire id permit) h = (λ p. omega (arith, h.0 p), h.1)
run-Conserves g (permit_failed yes_read) h = h
run-Conserves g (permit_failed no_read) h = h
run-Conserves g (permit_failed failed_read) h = h
run-Conserves g (finish permit lease) h = admit_finish-Conserves g permit lease h
run-Conserves g (answer message) h = release-Conserves g message h
run-Conserves g (input_read input_closed) h = check_input-Conserves g input_closed h
run-Conserves g (lease_read yes_read) h = release_permits-Conserves g g.found h
run-Conserves g (lease_read no_read) h = h
run-Conserves g (lease_read failed_read) h = h
run-Conserves g close_gate h = close-Conserves g h
run-Conserves g unanswered h = unanswered-Conserves g g.closed refl h

run_all-Conserves : (g : PermitGate) (parts : List Part) → Conserves g → Conserves (run_all g parts)
unfolding run_all
run_all-Conserves g [] h = h
run_all-Conserves g (p ∷ ps) h = run_all-Conserves (run g p) ps (run-Conserves g p h)

initial-Conserves : Conserves initial_gate
unfolding count held
initial-Conserves = (λ p. refl, λ e. refl)

-- Whatever the order of the methods' parts, each permit that the gate acquired was released, is held
-- by an unanswered call or is with a call that is being admitted, each as often as it was acquired.
pub run_all-count :
    (parts : List Part) (p : String)
    → count p (run_all initial_gate parts).acquired
      ≡ count p (run_all initial_gate parts).released
        + (count p (held (run_all initial_gate parts).calls)
            + count p (admitting_permits (run_all initial_gate parts).admitting))
run_all-count parts p = (run_all-Conserves initial_gate parts initial-Conserves).0 p

-- A closed gate whose last admission has ended has released every permit that it acquired, each as
-- often as it acquired it.
pub run_all-closed :
    (parts : List Part) (p : String)
    → (run_all initial_gate parts).closed ≡ true
    → (run_all initial_gate parts).admitting ≡ []
    → count p (run_all initial_gate parts).released ≡ count p (run_all initial_gate parts).acquired
run_all-closed parts p c a =
    let g = run_all initial_gate parts in
    let h = run_all-Conserves initial_gate parts initial-Conserves in
    omega (
      arith,
      h.0 p,
      count-empty p (held g.calls) (h.1 c),
      ap (λ x. count p (admitting_permits x)) a,
      count-empty p [] refl,
    )
