-- ===== src/Takeover/Protocol/Invariant.antt =====
-- packages/core/src/takeover.ts: what the interleaved programs keep true, and which steps an
-- environment takes.
use pickforge.Base.{ℕ, ◌≤◌, ◌≡◌, ◌≢◌, String, true, false, Option, none, some, bind_option}
use pickforge.Json.{Number}
use pickforge.Takeover.Records.{HumanLease, AgentPermit}
use pickforge.Takeover.Store.{
  Host, World, lease_of, permit_of, lease_text, permit_text, is_human_lease_stale, read_permit,
}
use pickforge.Takeover.Lease.{LeaseOptions, patched, own_live_lease}
use pickforge.Takeover.Protocol.{
  AgentPhase, idle, opened, published, rechecked, lease_read, acting, HumanPhase, away, ready,
  linked, checked, draining, granted, TeardownPhase, waiting, stopping, finished, System, contains,
  publishes, links, renews, Event, agent, human, time_passes, step,
}

abbrev pub permit_held : AgentPhase → Option AgentPermit
permit_held idle = none
permit_held (opened s) = none
permit_held (published s p) = some p
permit_held (rechecked p) = some p
permit_held (lease_read p lease) = some p
permit_held (acting p) = some p

abbrev pub lease_held : HumanPhase → Option HumanLease
lease_held away = none
lease_held ready = none
lease_held (linked l) = some l
lease_held (checked l) = some l
lease_held (draining l pending) = some l
lease_held (granted l) = some l

-- Two programs hold different permits, or different leases.
abbrev pub PermitsApart : Option AgentPermit → Option AgentPermit → Type 0
PermitsApart (some p) (some q) = p.permit_id ≢ q.permit_id
PermitsApart _ _ = Unit {0}

abbrev pub LeasesApart : Option HumanLease → Option HumanLease → Type 0
LeasesApart (some l) (some m) = l.lease_id ≢ m.lease_id
LeasesApart _ _ = Unit {0}

module _ (H : Host) where
  -- The lease of this id is in the file and is not stale.
  abbrev pub LiveIn : World H → Option HumanLease → String → Type 0
  LiveIn w none lease_id = ⊥
  LiveIn w (some l) lease_id = (l.lease_id ≡ lease_id) × (is_human_lease_stale H w l ≡ false)

  abbrev pub IsLive : World H → String → Type 0
  IsLive w lease_id = LiveIn w (bind_option w.lease_file (lease_of H)) lease_id

  abbrev pub IsAlive : World H → AgentPermit → Type 0
  IsAlive w p = w.alive p.owner_pid p.owner_start_ticks ≡ true

  -- The permit of a living owner is in its file.
  abbrev pub Kept : World H → AgentPermit → Type 0
  Kept w p =
      (permit_of H (permit_text H p) ≡ some p)
      × (IsAlive w p → read_permit H p.permit_id w.permits ≡ some (permit_text H p))

  abbrev pub KeptIn : World H → Option AgentPermit → Type 0
  KeptIn w none = Unit {0}
  KeptIn w (some p) = Kept w p

  -- A teardown awaits the agents behind their last check that the input is open.
  abbrev pub Awaits : World H → AgentPermit → TeardownPhase → Type 0
  Awaits w p (stopping pending) = IsAlive w p → contains p.permit_id pending ≡ true
  Awaits w p finished = IsAlive w p → ⊥
  Awaits w p _ = Unit {0}

  abbrev pub Stops : World H → AgentPhase → TeardownPhase → Type 0
  Stops w (rechecked p) t = Awaits w p t
  Stops w (lease_read p lease) t = Awaits w p t
  Stops w (acting p) t = Awaits w p t
  Stops w _ t = Unit {0}

  abbrev pub Closed : World H → TeardownPhase → Type 0
  Closed w waiting = Unit {0}
  Closed w _ = w.closed ≡ true

  pub record Inv (s : System H) : Type 0 where
    pub kept : (i : ℕ) → KeptIn s.world (permit_held (s.agents i))
    pub stops : (i t : ℕ) → Stops s.world (s.agents i) (s.teardowns t)
    pub closed : (t : ℕ) → Closed s.world (s.teardowns t)
    pub permits :
        (i j : ℕ) → i ≢ j → PermitsApart (permit_held (s.agents i)) (permit_held (s.agents j))
    pub leases : (h k : ℕ) → h ≢ k → LeasesApart (lease_held (s.humans h)) (lease_held (s.humans k))
    pub stored : s.world.lease_file ≢ none → s.world.present ≡ true

  -- The lease that a renewal of a live lease writes reads back.
  abbrev pub ReadsBack : World H → String → LeaseOptions → Type 0
  ReadsBack w lease_id patch =
      (current : HumanLease) (t : String)
      → own_live_lease H w lease_id ≡ some current
      → lease_of H (lease_text H (patched H current patch t)) ≡ some (patched H current patch t)

  abbrev pub ReadsBackIn : World H → HumanPhase → LeaseOptions → Type 0
  ReadsBackIn w (granted l) patch = ReadsBack w l.lease_id patch
  ReadsBackIn w _ patch = Unit {0}

  -- What is assumed of the steps: a UUID is drawn once, a written record reads back, the clock
  -- does not go back, and a process that died does not come back.
  abbrev pub IsAllowed : System H → Event H → Type 0
  IsAllowed s (agent i (publishes p)) =
      ((j : ℕ) → PermitsApart (some p) (permit_held (s.agents j)))
      × (permit_of H (permit_text H p) ≡ some p)
  IsAllowed s (human h (links l)) =
      ((k : ℕ) → LeasesApart (some l) (lease_held (s.humans k)))
      × (lease_of H (lease_text H l) ≡ some l)
  IsAllowed s (human h (renews patch)) = ReadsBackIn s.world (s.humans h) patch
  IsAllowed s (time_passes now alive) =
      (s.world.now ≤ now)
      × ((pid : Number) (ticks : Option Number)
          → alive pid ticks ≡ true
          → s.world.alive pid ticks ≡ true)
  IsAllowed s _ = Unit {0}

  -- The systems that a run reaches.
  pub data Reach (s : System H) : System H → Type 0 where
    here : Reach s s
    next : {t : System H} (e : Event H) → Reach s t → IsAllowed t e → Reach s (step H t e)
