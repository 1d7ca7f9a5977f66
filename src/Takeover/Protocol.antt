-- ===== src/Takeover/Protocol.antt =====
-- packages/core/src/takeover.ts: agents, humans and teardowns of one session, as programs whose
-- steps interleave. A step is a file operation, or a check that reads the files once.
pub mod Invariant
pub mod Files
pub mod LeaseFile
pub mod Assembly
pub mod Agents
pub mod Humans
pub mod Teardowns
pub mod Exclusion
use pickforge.Base.{
  ℕ, String, str_eq, Bool, true, false, not, ◌&&◌, ◌||◌, Option, none, some, List, [], ◌∷◌,
  if◌then◌else◌, ◌==◌, Result, ok, err,
}
use pickforge.Json.{Number}
use pickforge.Takeover.Records.{HumanLease, AgentPermit}
use pickforge.Takeover.Store.{
  Host, Action, SessionStatus, running, World, lease_text, permit_text, permit_of,
  assert_input_open, verify, open_for_write, is_human_lease_stale, unlink_lease_if_matches,
  read_permit, unlink_permit, unlink_permit_if_matches, names,
}
use pickforge.Takeover.Lease.{
  LeaseOptions, create_exclusive_human_lease_file, renew_human_lease, release_human_lease,
  clear_stale_human_lease, read_human_lease,
}

-- `acquirePermit` and `runWithPermit`: the session status that the caller wants, and its permit.
pub data AgentPhase : Type 0 where
  idle : AgentPhase
  opened : SessionStatus → AgentPhase
  published : SessionStatus → AgentPermit → AgentPhase
  rechecked : AgentPermit → AgentPhase
  lease_read : AgentPermit → Option HumanLease → AgentPhase
  acting : AgentPermit → AgentPhase

-- `acquireHumanLease`, and the lease held until it is released.
pub data HumanPhase : Type 0 where
  away : HumanPhase
  ready : HumanPhase
  linked : HumanLease → HumanPhase
  checked : HumanLease → HumanPhase
  draining : HumanLease → List String → HumanPhase
  granted : HumanLease → HumanPhase

-- `stopSessionAgentInput`
pub data TeardownPhase : Type 0 where
  waiting : TeardownPhase
  closing : TeardownPhase
  stopping : List String → TeardownPhase
  finished : TeardownPhase

pub record System (H : Host) : Type 0 where
  pub world : World H
  pub agents : ℕ → AgentPhase
  pub humans : ℕ → HumanPhase
  pub teardowns : ℕ → TeardownPhase

-- The phases of programs after program `i` went on.
abbrev pub update {ℓ} : {Phase : Type ℓ} (phases : ℕ → Phase) (i : ℕ) (next : Phase) → ℕ → Phase
update phases i next = λ j. if i == j then next else phases j

abbrev pub is_ok {ℓ κ} : {E : Type κ} {A : Type ℓ} → Result E A → Bool
is_ok (ok _) = true
is_ok (err _) = false

-- `pending.delete(name)`
abbrev pub delete : String → List String → List String
delete name [] = []
delete name (k ∷ ks) = if str_eq k name then delete name ks else k ∷ delete name ks

abbrev pub contains : String → List String → Bool
contains name [] = false
contains name (k ∷ ks) = str_eq k name || contains name ks

-- What a program does next: it is one of the calls of the source, or the next part of one.
pub data AgentStep : Type 0 where
  opens : SessionStatus → AgentStep
  publishes : AgentPermit → AgentStep
  goes_on : AgentStep

pub data HumanStep : Type 0 where
  opens : HumanStep
  links : HumanLease → HumanStep
  goes_on times_out returns : HumanStep
  polls : String → HumanStep
  renews : LeaseOptions → HumanStep

pub data TeardownStep : Type 0 where
  goes_on gives_up : TeardownStep
  polls : String → TeardownStep

module _ (H : Host) where
  open H use {Text}

  -- One name of one round of `drainAgentPermits`: the files left, and whether it is still pending.
  -- Corrupt permits and those of dead owners are swept.
  unfoldable pub drain_permit : World H → String → World H × Bool
  drain_permit w name = elim (read_permit H name w.permits) [
    | none ↦ (w, false)
    | some raw ↦ elim (permit_of H raw) [
      | none ↦ (record w { permits = unlink_permit H name w.permits }, false)
      | some r ↦
          if w.alive r.owner_pid r.owner_start_ticks
          then (w, true)
          else (record w { permits = unlink_permit H name w.permits }, false)
    ]
  ]

  -- The round, on a name that is pending.
  unfoldable pub poll : World H → String → List String → World H × List String
  poll w name pending =
      if contains name pending
      then (let (w', kept) = drain_permit w name in
          (w', if kept then pending else delete name pending))
      else (w, pending)

  abbrev pub release_agent_permit : World H → AgentPermit → World H
  release_agent_permit w p = unlink_permit_if_matches H w p.permit_id (permit_text H p)

  -- The link of a permit fails if its name is taken.
  unfoldable pub publish : World H → SessionStatus → AgentPermit → World H × AgentPhase
  publish w s p = elim (open_for_write H w) [
    | err e ↦ (w, idle)
    | ok w' ↦ elim (read_permit H p.permit_id w'.permits) [
      | some raw ↦ (w', idle)
      | none ↦ (record w' { permits = (p.permit_id, permit_text H p) ∷ w'.permits }, published s p)
    ]
  ]

  -- The test of `checkHumanLeaseBusy`, with the time of the test, on the lease that was read before.
  abbrev pub is_busy : World H → Option HumanLease → Bool
  is_busy w none = false
  is_busy w (some l) = not (is_human_lease_stale H w l)

  unfoldable pub agent_step : World H → AgentPhase → AgentStep → World H × AgentPhase
  unfolding publish unlink_permit_if_matches
  agent_step w idle (opens s) = if is_ok (assert_input_open H w s) then (w, opened s) else (w, idle)
  agent_step w (opened s) (publishes p) = publish w s p
  agent_step w (published s p) goes_on =
      if is_ok (verify H w) && is_ok (assert_input_open H w s)
      then (w, rechecked p)
      else (release_agent_permit w p, idle)
  agent_step w (rechecked p) goes_on = elim (read_human_lease H w) [
    | ok lease ↦ (w, lease_read p lease)
    | err e ↦ (release_agent_permit w p, idle)
  ]
  agent_step w (lease_read p lease) goes_on =
      if is_busy w lease then (release_agent_permit w p, idle) else (w, acting p)
  agent_step w (acting p) goes_on = (release_agent_permit w p, idle)
  agent_step w phase _ = (w, phase)

  abbrev pub drop_lease : World H → HumanLease → World H
  drop_lease w l = (unlink_lease_if_matches H w (lease_text H l)).0

  unfoldable pub link : World H → HumanLease → World H × HumanPhase
  link w l = elim (open_for_write H w) [
    | err e ↦ (w, away)
    | ok w' ↦ elim (create_exclusive_human_lease_file H w' l) [
      | err e ↦ (w', away)
      | ok w'' ↦ (w'', linked l)
    ]
  ]

  abbrev pub is_input_open : World H → Bool
  is_input_open w = is_ok (verify H w) && is_ok (assert_input_open H w running)

  abbrev pub after_action {ℓ} : {A : Type ℓ} → World H → Action H (World H × A) → World H
  after_action w (ok (w', a)) = w'
  after_action w (err e) = w

  unfoldable pub human_step : World H → HumanPhase → HumanStep → World H × HumanPhase
  unfolding link unlink_lease_if_matches
  human_step w away opens = if is_ok (assert_input_open H w running) then (w, ready) else (w, away)
  human_step w ready (links l) = link w l
  human_step w (linked l) goes_on =
      if is_input_open w then (w, checked l) else (drop_lease w l, away)
  human_step w (checked l) goes_on = (w, draining l (names H w.permits))
  human_step w (draining l pending) (polls name) =
      let (w', left) = poll w name pending in (w', draining l left)
  human_step w (draining l []) goes_on =
      if w.present && is_input_open w then (w, granted l) else (drop_lease w l, away)
  human_step w (draining l pending) times_out = (drop_lease w l, away)
  human_step w (granted l) (renews patch) =
      (after_action w (renew_human_lease H w l.lease_id patch), granted l)
  human_step w (granted l) returns = (after_action w (release_human_lease H w l.lease_id), away)
  human_step w phase _ = (w, phase)

  unfoldable pub teardown_step : World H → TeardownPhase → TeardownStep → World H × TeardownPhase
  teardown_step w waiting goes_on = (record w { closed = true }, closing)
  teardown_step w closing goes_on = (w, stopping (names H w.permits))
  teardown_step w (stopping pending) (polls name) =
      let (w', left) = poll w name pending in (w', stopping left)
  teardown_step w (stopping []) goes_on =
      if not w.present || is_ok (verify H w) then (w, finished) else (w, waiting)
  teardown_step w (stopping pending) gives_up = (w, waiting)
  teardown_step w phase _ = (w, phase)

  -- A step of the whole: one program goes on, somebody clears a stale lease, or time passes.
  pub data Event : Type 0 where
    agent : ℕ → AgentStep → Event
    human : ℕ → HumanStep → Event
    teardown : ℕ → TeardownStep → Event
    clears : Text → Event
    time_passes : ℕ → (Number → Option Number → Bool) → Event

  unfoldable pub step : System H → Event → System H
  step s (agent i e) =
      let (w, phase) = agent_step s.world (s.agents i) e in
      record s { world = w; agents = update s.agents i phase }
  step s (human h e) =
      let (w, phase) = human_step s.world (s.humans h) e in
      record s { world = w; humans = update s.humans h phase }
  step s (teardown t e) =
      let (w, phase) = teardown_step s.world (s.teardowns t) e in
      record s { world = w; teardowns = update s.teardowns t phase }
  step s (clears raw) = record s {
    world = after_action s.world (clear_stale_human_lease H s.world raw);
  }
  step s (time_passes now alive) = record s { world = record s.world { now = now; alive = alive } }
