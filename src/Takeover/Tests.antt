-- ===== src/Takeover/Tests.antt =====
-- Concrete runs of the takeover protocol, on a host whose file texts are the objects themselves.
use mathlib.Core.Bool.{decide, decide_iff}
use native.Mathlib.Decide.{ℕ_discrete}
use pickforge.Base.{
  ℕ, ◌+◌, ◌≡◌, ◌↔◌, refl, Bool, true, false, Option, none, some, List, [], ◌∷◌, String, str_eq,
  eq_iff, ok, arith, ◌==◌, inl, inr, Bool-cases, if◌then◌else◌, ◌&&◌, not,
}
use pickforge.Json.{get, Number, nat, Fields, obj}
use pickforge.Takeover.Records.{
  parse_human_lease, parse_agent_permit_record, HumanLease, AgentPermit, lease_fields,
  permit_fields,
}
use pickforge.Takeover.Store.{
  assert_input_open, open_for_write, read_permit, permit_of, Host, World, running,
  is_human_lease_stale, verify,
}
use pickforge.Takeover.Lease.{
  LeaseOptions, patched, create_exclusive_human_lease_file, get_takeover_status, active,
  renew_human_lease, own_live_lease, read_human_lease,
}
use pickforge.Takeover.Lease.Laws.{IsWritable, read-create, renew_extends}
use pickforge.Takeover.Protocol.{
  System, idle, opened, Event, agent, teardown, time_passes, opens, publishes, goes_on, polls, step,
  acting, finished, drain_permit, poll, human_step, agent_step, teardown_step,
}
use pickforge.Takeover.Protocol.Invariant.{
  IsAllowed, PermitsApart, permit_held, Reach, here, next, IsAlive,
}
use pickforge.Takeover.Protocol.Assembly.{update_all}
use pickforge.Takeover.Protocol.Exclusion.{start, finished_stops_agents}

string_discrete : Discrete String
string_discrete s t = elim (Bool-cases (str_eq s t)) [
  | inl e ↦ yes ((eq_iff s t).0 e)
  | inr f ↦ no (λ p. cc (f, (eq_iff s t).1 p))
]

fields_discrete : Discrete Fields
fields_discrete = hlevel (ℕ_discrete, string_discrete)

fields_eq_iff : (a b : Fields) → (decide (fields_discrete a b) ≡ true) ↔ (a ≡ b)
fields_eq_iff a b = decide_iff (fields_discrete a b)

abbrev iso_text : ℕ → Number → Option String
iso_text now (nat ttl) = if now == 0 && ttl == 30_000 then some "1970-01-01T00:00:30.000Z" else none
iso_text now n = none

abbrev read_iso : String → Option ℕ
read_iso s = if str_eq s "1970-01-01T00:00:30.000Z" then some 30_000 else none

read_iso-iso_text :
    (now ttl : ℕ) (s : String) → iso_text now (nat ttl) ≡ some s → read_iso s ≡ some (now + ttl)
read_iso-iso_text now ttl s e = ground (arith, eq_iff s "1970-01-01T00:00:30.000Z")

abbrev host : Host
host = record {
  Text = Fields;
  text_eq = λ a b. decide (fields_discrete a b);
  text_eq_iff = fields_eq_iff;
  parse = λ fs. some (obj fs);
  print = λ fs. fs;
  parse-print = λ fs f. refl;
  date_parse = read_iso;
  iso_after = iso_text;
  date_parse-iso_after = read_iso-iso_text;
}

abbrev everybody : Number → Option Number → Bool
everybody pid ticks = true

abbrev is_pid : ℕ → Number → Bool
is_pid n (nat m) = m == n
is_pid n _ = false

-- Every process but 7.
abbrev without_seven : Number → Option Number → Bool
without_seven pid ticks = not (is_pid 7 pid)

abbrev empty_world : World host
empty_world = record {
  lease_file = none;
  permits = [];
  closed = false;
  status = some running;
  present = false;
  bound = false;
  intact = false;
  now = 0;
  alive = everybody;
}

abbrev lease : HumanLease
lease = record {
  lease_id = "L1";
  session_id = "desk-000001";
  owner_pid = nat 9;
  owner_start_ticks = none;
  created_at = "1970-01-01T00:00:00.000Z";
  expires_at = "1970-01-01T00:00:30.000Z";
  ttl_ms = nat 30_000;
  heartbeat_ms = nat 5_000;
  input_transport = none;
  viewer_pid = none;
  viewer_start_ticks = none;
  vnc_pid = none;
  vnc_start_time_ticks = none;
  vnc_port = none;
}

abbrev permit : AgentPermit
permit = record {
  permit_id = "P1";
  session_id = "desk-000001";
  owner_pid = nat 7;
  owner_start_ticks = none;
  created_at = "1970-01-01T00:00:00.000Z";
}

lease-IsWritable : IsWritable lease
lease-IsWritable = record {
  storable = (tt, tt);
  owner_pid = refl;
  owner_start_ticks = tt;
  ttl_ms = refl;
  heartbeat_ms = refl;
  vnc_pid = tt;
  vnc_start_time_ticks = tt;
  vnc_port = tt;
}

abbrev held_world : World host
held_world = record empty_world {
  lease_file = some (lease_fields lease);
  present = true;
  bound = true;
  intact = true;
}

abbrev empty_lease : World host
empty_lease = record held_world { lease_file = none }

abbrev run_all : List (Event host) → System host → System host
run_all [] s = s
run_all (e ∷ es) s = run_all es (step host s e)

-- What a run computes with.
runs : Unit {0}
unfolding step human_step agent_step teardown_step assert_input_open open_for_write read_permit
    read_human_lease create_exclusive_human_lease_file poll drain_permit permit_of
    parse_agent_permit_record get permit_fields is_human_lease_stale get_takeover_status
    own_live_lease parse_human_lease lease_fields
runs = tt

abbrev before : List (Event host) → System host
before es = run_all es (start host empty_world)

abbrev first : List (Event host)
first = agent 0 (opens running) ∷ []

abbrev second : List (Event host)
second =
    agent 0 (opens running)
    ∷ agent 0 (publishes permit)
    ∷ agent 0 goes_on
    ∷ agent 0 goes_on
    ∷ agent 0 goes_on
    ∷ []

fresh_permit : IsAllowed host (before first) (agent 0 (publishes permit))
unfolding runs
fresh_permit = (
  update_all (λ j a. PermitsApart (some permit) (permit_held a)) (λ i. idle) 0 (opened running) tt
      (λ j ne. tt),
  refl,
)

seven_dies : IsAllowed host (before second) (time_passes 0 without_seven)
unfolding runs
seven_dies = (omega arith, λ pid ticks e. refl)

-- Agent 0 acts and dies; the teardown sweeps its permit.
abbrev stop_events : List (Event host)
stop_events =
    agent 0 (opens running)
    ∷ agent 0 (publishes permit)
    ∷ agent 0 goes_on
    ∷ agent 0 goes_on
    ∷ agent 0 goes_on
    ∷ time_passes 0 without_seven
    ∷ teardown 0 goes_on
    ∷ teardown 0 goes_on
    ∷ teardown 0 (polls "P1")
    ∷ teardown 0 goes_on
    ∷ []

abbrev ended : System host
ended = before stop_events

ended_reached : Reach host (start host empty_world) ended
ended_reached =
    next (teardown 0 goes_on)
      (next (teardown 0 (polls "P1"))
        (next (teardown 0 goes_on)
          (next (teardown 0 goes_on)
            (next (time_passes 0 without_seven)
              (next (agent 0 goes_on)
                (next (agent 0 goes_on)
                  (next (agent 0 goes_on)
                    (next (agent 0 (publishes permit)) (next (agent 0 (opens running)) here tt)
                      fresh_permit)
                    tt)
                  tt)
                tt)
              seven_dies)
            tt)
          tt)
        tt)
      tt

ended_finished : ended.teardowns 0 ≡ finished
unfolding runs
ended_finished = refl

ended_acting : ended.agents 0 ≡ acting permit
unfolding runs
ended_acting = refl

finished_stops_agents_example : ¬ (IsAlive host ended.world permit)
finished_stops_agents_example =
    finished_stops_agents host empty_world (λ n. absurd (n refl)) ended_reached 0 0 permit
      ended_finished (inl ended_acting)

held_active : get_takeover_status host held_world ≡ ok (active lease)
unfolding runs
held_active = refl

read-create_example : read_human_lease host held_world ≡ ok (some lease)
unfolding runs verify
read-create_example =
    read-create host (record held_world { lease_file = none }) held_world lease lease-IsWritable
      refl refl refl

no_options : LeaseOptions
no_options = record {
  ttl_ms = none;
  heartbeat_ms = none;
  input_transport = none;
  viewer_pid = none;
  viewer_start_ticks = none;
  vnc_pid = none;
  vnc_start_time_ticks = none;
  vnc_port = none;
}

renew_extends_example :
    (w' : World host) × (renew_human_lease host held_world "L1" no_options
      ≡ ok (w', some (patched host lease no_options "1970-01-01T00:00:30.000Z")))
    × (own_live_lease host w' "L1"
        ≡ some (patched host lease no_options "1970-01-01T00:00:30.000Z"))
    × (host.date_parse "1970-01-01T00:00:30.000Z" ≡ some (held_world.now + 30_000))
unfolding runs no_options verify
renew_extends_example =
    renew_extends host held_world "L1" no_options lease 30_000 "1970-01-01T00:00:30.000Z" refl refl
      refl lease-IsWritable refl refl refl
