-- ===== src/Takeover/Protocol/Humans.antt =====
-- packages/core/src/takeover.ts: the steps of a human keep the invariant.
use pickforge.Base.{ℕ, ◌≡◌, ◌≢◌, Bool-cases, inl, inr, none, some, ◌&&◌, String, List, []}
use pickforge.Takeover.Records.{HumanLease}
use pickforge.Takeover.Store.{Host, World, running, lease_text, lease_of, assert_input_open, names}
use pickforge.Takeover.Protocol.{
  HumanPhase, away, ready, linked, checked, draining, granted, System, update, is_ok, drop_lease,
  is_input_open, link, poll, human_step, HumanStep, opens, links, goes_on, times_out, returns,
  polls, renews,
}
use pickforge.Takeover.Protocol.Invariant.{lease_held, LeasesApart, Inv, ReadsBackIn}
use pickforge.Takeover.Protocol.Files.{Calm-poll, Kept-poll}
use pickforge.Takeover.Protocol.LeaseFile.{
  Quiet, Quiet-refl, Quiet-unlink_lease, Quiet-renew, Quiet-release, link_cases,
}
use pickforge.Takeover.Protocol.Assembly.{human_Inv}

module _ (H : Host) where
  pub Quiet-poll :
      (w : World H) (name : String) (pending : List String)
      → Quiet H none w (poll H w name pending).0
  Quiet-poll w name pending = record {
    calm = Calm-poll H w name pending;
    kept = Kept-poll H w name pending;
  }

  module _ (s : System H) (v : Inv H s) (h : ℕ) where
    abbrev Apart : HumanPhase → Type 0
    Apart a = (k : ℕ) → h ≢ k → LeasesApart (lease_held a) (lease_held (s.humans k))

    -- The files change, and the human goes on.
    freed :
        (w : World H) (a : HumanPhase)
        → Quiet H none s.world w
        → Apart a
        → Inv H (record s { world = w; humans = update s.humans h a })
    freed w a q apart = human_Inv H s v h none w a q apart

    gone :
        (w : World H)
        → Quiet H none s.world w
        → Inv H (record s { world = w; humans = update s.humans h away })
    gone w q = freed w away q (λ k ne. tt)

    dropped :
        (l : HumanLease)
        → Inv H (record s { world = drop_lease H s.world l; humans = update s.humans h away })
    dropped l = gone (drop_lease H s.world l) (Quiet-unlink_lease H s.world (lease_text H l))

    moved :
        (a : HumanPhase)
        → Apart a
        → Inv H (record s { world = s.world; humans = update s.humans h a })
    moved a = human_Inv H s v h none s.world a (Quiet-refl H s.world)

    link_Inv :
        (l : HumanLease)
        → lease_of H (lease_text H l) ≡ some l
        → ((k : ℕ) → LeasesApart (some l) (lease_held (s.humans k)))
        → Inv H (record s {
          world = (link H s.world l).0;
          humans = update s.humans h (link H s.world l).1;
        })
    link_Inv l back fresh = elim (link_cases H s.world l back) [
      | inl (e, q) ↦ rw e (gone (link H s.world l).0 q)
      | inr (e, q) ↦
          rw e (human_Inv H s v h (some l) (link H s.world l).0 (linked l) q (λ k ne. fresh k))
    ]

    abbrev pub IsFresh : HumanPhase → HumanStep → Type 0
    IsFresh a (links l) =
        ((k : ℕ) → LeasesApart (some l) (lease_held (s.humans k)))
        × (lease_of H (lease_text H l) ≡ some l)
    IsFresh a (renews patch) = ReadsBackIn H s.world a patch
    IsFresh a _ = Unit {0}

    abbrev Stepped : HumanPhase → HumanStep → Type 0
    Stepped a e = Inv H (record s {
      world = (human_step H s.world a e).0;
      humans = update s.humans h (human_step H s.world a e).1;
    })

    linked_goes_on : (l : HumanLease) → Apart (linked l) → Stepped (linked l) goes_on
    unfolding human_step
    linked_goes_on l apart = elim (Bool-cases (is_input_open H s.world)) [
      | inl y ↦ rw y (moved (checked l) apart)
      | inr n ↦ rw n (dropped l)
    ]

    drained_goes_on : (l : HumanLease) → Apart (granted l) → Stepped (draining l []) goes_on
    unfolding human_step
    drained_goes_on l apart = elim (Bool-cases (s.world.present && is_input_open H s.world)) [
      | inl y ↦ rw y (moved (granted l) apart)
      | inr n ↦ rw n (dropped l)
    ]

    human_phases : (a : HumanPhase) (e : HumanStep) → IsFresh a e → Apart a → Stepped a e
    unfolding human_step
    human_phases away opens f a = elim (Bool-cases (is_ok (assert_input_open H s.world running))) [
      | inl y ↦ rw y (moved ready (λ k ne. tt))
      | inr n ↦ rw n (moved away (λ k ne. tt))
    ]
    human_phases ready (links l) f a = link_Inv l f.1 f.0
    human_phases (linked l) goes_on f a = linked_goes_on l a
    human_phases (checked l) goes_on f a = moved (draining l (names H s.world.permits)) a
    human_phases (draining l pending) (polls name) f a =
        human_Inv H s v h none _ _ (Quiet-poll s.world name pending) a
    human_phases (draining l []) goes_on f a = drained_goes_on l a
    human_phases (draining l pending) times_out f a = dropped l
    human_phases (granted l) (renews patch) f a =
        let q = Quiet-renew H s.world l.lease_id patch f in human_Inv H s v h none _ (granted l) q a
    human_phases (granted l) returns f a = gone _ (Quiet-release H s.world l.lease_id)
    human_phases b e f a = moved b a

    pub human_step-Inv :
        (e : HumanStep)
        → IsFresh (s.humans h) e
        → Inv H (record s {
          world = (human_step H s.world (s.humans h) e).0;
          humans = update s.humans h (human_step H s.world (s.humans h) e).1;
        })
    human_step-Inv e f = human_phases (s.humans h) e f (v.leases h)
