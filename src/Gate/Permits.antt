-- ===== src/Gate/Permits.antt =====
-- packages/browser/src/devtools-permits.ts and devtools-errors.ts: the state of the gate, and the
-- parts that its methods run between two awaits. What an await gave is an argument.
use pickforge.Base.{
  ℕ, String, str_eq, Bool, true, false, ◌||◌, Option, none, some, List, [], ◌∷◌, ◌++◌,
  if◌then◌else◌,
}
use pickforge.Json.{Json, str, Fields, prop, has}
use pickforge.Gate.Calls.{
  RequestId, json_rpc_request_id, Queue, Calls, push_call, shift_call, held, release_calls, taken,
  optional_list,
}

pub data RelayErrorCode : Type 0 where
  takeover_busy session_ended session_check_failed : RelayErrorCode

-- The codes, -32050 to -32052, without their sign.
unfoldable pub relay_error_number : RelayErrorCode → ℕ
relay_error_number takeover_busy = 32_050
relay_error_number session_ended = 32_051
relay_error_number session_check_failed = 32_052

pub record RelayErrorResponse : Type 0 where
  pub id : RequestId
  pub code : RelayErrorCode

unfoldable pub relay_error_response : RequestId → RelayErrorCode → RelayErrorResponse
relay_error_response id code = record { id = id; code = code }

-- What `checkHumanLeaseBusy` and the checks of the session's end may give: an answer, or a throw.
pub data Read : Type 0 where
  yes_read no_read failed_read : Read

-- The gate, with the permits that were acquired and released so far, those of the calls that are
-- being admitted, and those that the running check found held.
pub record PermitGate : Type 0 where
  pub calls : Calls
  pub ended : Bool
  pub input_was_closed : Bool
  pub closed : Bool
  pub watching : Bool
  pub acquired : List String
  pub admitting : List (RequestId × String)
  pub found : List String
  pub released : List String

abbrev pub initial_gate : PermitGate
initial_gate = record {
  calls = [];
  ended = false;
  input_was_closed = false;
  closed = false;
  watching = false;
  acquired = [];
  admitting = [];
  found = [];
  released = [];
}

abbrev is_tools_call : Json → Bool
is_tools_call (str method) = str_eq method "tools/call"
is_tools_call _ = false

-- `intercept`: the id of a call that must be admitted.
unfoldable pub intercept : Fields → Option RequestId
unfolding prop json_rpc_request_id
intercept message =
    if is_tools_call (prop "method" message) then json_rpc_request_id message else none

-- `admit`, up to the first await.
unfoldable pub admit_start : PermitGate → Option RelayErrorCode
admit_start g = if g.ended || g.closed then some session_ended else none

-- `acquireAgentPermit` returned.
unfoldable pub admit_acquired : PermitGate → RequestId → String → PermitGate
admit_acquired g id permit = record g {
  acquired = permit ∷ g.acquired;
  admitting = (id, permit) ∷ g.admitting;
}

-- It threw, and the check of the session gave the answer.
unfoldable pub refusal_after_permit_failure : PermitGate → Read → PermitGate × RelayErrorCode
refusal_after_permit_failure g yes_read = (record g { ended = true }, session_ended)
refusal_after_permit_failure g _ = (g, session_check_failed)

unfoldable pub lease_refusal : Read → Option RelayErrorCode
lease_refusal yes_read = some takeover_busy
lease_refusal no_read = none
lease_refusal failed_read = some session_check_failed

abbrev pub or_else : Option RelayErrorCode → Option RelayErrorCode → Option RelayErrorCode
or_else none other = other
or_else (some code) other = some code

unfoldable pub refusal_of : PermitGate → Read → Option RelayErrorCode
unfolding lease_refusal
refusal_of g lease = or_else (lease_refusal lease) (if g.closed then some session_ended else none)

-- `admit`, after the lease was read: a refusal releases the permit, and no refusal keeps the call.
unfoldable pub admit_rest : PermitGate → RequestId → String → Option RelayErrorCode → PermitGate
unfolding push_call
admit_rest g id permit (some code) = record g { released = permit ∷ g.released }
admit_rest g id permit none = record g { calls = push_call id permit g.calls; watching = true }

abbrev pub admit_taken :
    PermitGate → Read → Option (RequestId × String) × List (RequestId × String) → PermitGate
admit_taken g lease (none, rest) = g
admit_taken g lease (some (id, permit), rest) =
    admit_rest (record g { admitting = rest }) id permit (refusal_of g lease)

abbrev also :
    RequestId × String
    → Option (RequestId × String) × List (RequestId × String)
    → Option (RequestId × String) × List (RequestId × String)
also entry (o, rest) = (o, entry ∷ rest)

-- The admission of the given permit, and the others.
unfoldable pub take_admission :
    String → List (RequestId × String) → Option (RequestId × String) × List (RequestId × String)
take_admission permit [] = (none, [])
take_admission permit ((id, q) ∷ rest) =
    let more = take_admission permit rest in
    if str_eq q permit then (some (id, q), rest) else also (id, q) more

unfoldable pub admit_finish : PermitGate → String → Read → PermitGate
unfolding take_admission admit_rest refusal_of
admit_finish g permit lease = admit_taken g lease (take_admission permit g.admitting)

abbrev pub released_of : PermitGate → Calls × Option String → PermitGate
released_of g (calls, permit) = record g {
  calls = calls;
  released = optional_list permit ++ g.released;
}

abbrev release_id : PermitGate → Option RequestId → PermitGate
release_id g none = g
release_id g (some id) = released_of g (shift_call id g.calls)

-- `release`, with a message of the child: only a response answers a call.
unfoldable pub release : PermitGate → Fields → PermitGate
unfolding has json_rpc_request_id shift_call
release g message = if has "method" message then g else release_id g (json_rpc_request_id message)

-- `releaseCalls`
unfoldable pub release_permits : PermitGate → List String → PermitGate
unfolding release_calls held
release_permits g permits = record g {
  calls = release_calls permits g.calls;
  released = taken permits (held g.calls) ++ g.released;
}

unfoldable pub release_held : PermitGate → PermitGate
unfolding release_permits held
release_held g = release_permits g (held g.calls)

unfoldable pub close : PermitGate → PermitGate
unfolding release_held
close g = record (release_held g) { closed = true }

abbrev no_calls : Calls → Bool
no_calls [] = true
no_calls (_ ∷ _) = false

-- `checkSession`, up to the read of the lease.
unfoldable pub check_input : PermitGate → Bool → PermitGate
unfolding held
check_input g input_closed =
    if g.closed
    then g
    else if input_closed
    then (if no_calls g.calls
        then record g { found = [] }
        else record g { ended = true; input_was_closed = true; found = [] })
    else record g { found = held g.calls }

-- The lease was read: its human takes over the calls that held a permit before the read.
unfoldable pub check_lease : PermitGate → Read → PermitGate
unfolding release_permits
check_lease g yes_read = release_permits g g.found
check_lease g _ = g

-- The loop of `watch`.
unfoldable pub watch_ends : PermitGate → Bool
watch_ends g = g.closed || (g.input_was_closed || no_calls g.calls)

abbrev responses_of : RequestId → Queue → List RelayErrorResponse
responses_of id [] = []
responses_of id (_ ∷ queue) = relay_error_response id session_ended ∷ responses_of id queue

abbrev pub responses : Calls → List RelayErrorResponse
responses [] = []
responses ((id, queue) ∷ calls) = responses_of id queue ++ responses calls

unfoldable pub take_unanswered : PermitGate → PermitGate × List RelayErrorResponse
take_unanswered g = (record g { calls = [] }, responses g.calls)

-- The methods' parts, in any order. The relay takes the unanswered calls after it has closed the gate.
pub data Part : Type 0 where
  acquire : RequestId → String → Part
  permit_failed : Read → Part
  finish : String → Read → Part
  answer : Fields → Part
  input_read : Bool → Part
  lease_read : Read → Part
  close_gate unanswered : Part

unfoldable pub run : PermitGate → Part → PermitGate
unfolding admit_acquired refusal_after_permit_failure admit_finish release check_input check_lease
    close take_unanswered
run g (acquire id permit) = admit_acquired g id permit
run g (permit_failed read) = (refusal_after_permit_failure g read).0
run g (finish permit lease) = admit_finish g permit lease
run g (answer message) = release g message
run g (input_read input_closed) = check_input g input_closed
run g (lease_read lease) = check_lease g lease
run g close_gate = close g
run g unanswered = if g.closed then (take_unanswered g).0 else g

-- The state after a sequence of parts.
unfoldable pub run_all : PermitGate → List Part → PermitGate
unfolding run
run_all g [] = g
run_all g (p ∷ ps) = run_all (run g p) ps
