-- ===== src/Takeover/Protocol/Assembly.antt =====
-- packages/core/src/takeover.ts: from a step of one program to the invariant of the whole.
use pickforge.Base.{
  ℕ, ◌≢◌, refl, sym, subst, inl, inr, Bool-cases, ◌==◌, ==_iff, Option, none, some,
}
use pickforge.Takeover.Records.{HumanLease, AgentPermit}
use pickforge.Takeover.Store.{Host, World}
use pickforge.Takeover.Protocol.{AgentPhase, HumanPhase, TeardownPhase, System, update}
use pickforge.Takeover.Protocol.Invariant.{
  permit_held, lease_held, PermitsApart, LeasesApart, KeptIn, Stops, Closed, Inv,
}
use pickforge.Takeover.Protocol.Files.{Calm, Stops-Calm, Closed-Calm}
use pickforge.Takeover.Protocol.LeaseFile.{Quiet}

-- What holds of the new value at its index, and of the old ones elsewhere, holds of all.
pub update_all {ℓ κ} :
    {A : Type ℓ} (P : ℕ → A → Type κ) (f : ℕ → A) (i : ℕ) (a : A)
    → P i a
    → ((j : ℕ) → i ≢ j → P j (f j))
    → (j : ℕ) → P j (update f i a j)
update_all P f i a new old j = elim (Bool-cases (i == j)) [
  | inl t ↦ rw t (subst (λ k. P k a) ((==_iff i j).0 t) new)
  | inr n ↦ rw n (old j (λ e. cc (n, (==_iff i j).1 e)))
]

PermitsApart-sym : (o q : Option AgentPermit) → PermitsApart o q → PermitsApart q o
PermitsApart-sym none none n = tt
PermitsApart-sym none (some q) n = tt
PermitsApart-sym (some p) none n = tt
PermitsApart-sym (some p) (some q) n = λ e. n (sym e)

LeasesApart-sym : (o q : Option HumanLease) → LeasesApart o q → LeasesApart q o
LeasesApart-sym none none n = tt
LeasesApart-sym none (some q) n = tt
LeasesApart-sym (some p) none n = tt
LeasesApart-sym (some p) (some q) n = λ e. n (sym e)

-- Values that are pairwise apart stay so if one is replaced by a value apart from the others.
module _ {ℓ} {A : Type ℓ} (R : A → A → Type 0) (sym_R : (a b : A) → R a b → R b a) where
  update_apart :
      (f : ℕ → A) (i : ℕ) (a : A)
      → ((j k : ℕ) → j ≢ k → R (f j) (f k))
      → ((j : ℕ) → i ≢ j → R a (f j))
      → (j k : ℕ) → j ≢ k
      → R (update f i a j) (update f i a k)
  update_apart f i a old new =
      update_all (λ j x. (k : ℕ) → j ≢ k → R x (update f i a k)) f i a
        (λ k ne.
          update_all (λ k y. i ≢ k → R a y) f i a (λ no. absurd (no refl)) (λ k _ ne. new k ne) k
            ne)
        (λ j off k ne.
          update_all (λ k y. j ≢ k → R (f j) y) f i a (λ _. sym_R a (f j) (new j off))
            (λ k _ ne. old j k ne) k ne)

module _ (H : Host) (s : System H) (v : Inv H s) where
  -- A step of an agent.
  pub agent_Inv :
      (i : ℕ) (w : World H) (a : AgentPhase)
      → Calm H none s.world w
      → ((j : ℕ)
          → i ≢ j
          → KeptIn H s.world (permit_held (s.agents j))
          → KeptIn H w (permit_held (s.agents j)))
      → KeptIn H w (permit_held a)
      → ((t : ℕ) → Stops H w a (s.teardowns t))
      → ((j : ℕ) → i ≢ j → PermitsApart (permit_held a) (permit_held (s.agents j)))
      → Inv H (record s { world = w; agents = update s.agents i a })
  agent_Inv i w a c others kept stops apart = record {
    kept =
        update_all (λ j b. KeptIn H w (permit_held b)) s.agents i a kept
          (λ j ne. others j ne (v.kept j));
    stops =
        update_all (λ j b. (t : ℕ) → Stops H w b (s.teardowns t)) s.agents i a stops
          (λ j ne t. Stops-Calm H c (s.agents j) (s.teardowns t) (v.stops j t));
    closed = λ t. Closed-Calm H c (s.teardowns t) (v.closed t);
    permits =
        update_apart (λ a b. PermitsApart (permit_held a) (permit_held b))
          (λ a b. PermitsApart-sym (permit_held a) (permit_held b)) s.agents i a v.permits apart;
    leases = v.leases;
    stored = c.stored v.stored;
  }

  -- A step of a human, who may publish a new lease.
  pub human_Inv :
      (h : ℕ) (new : Option HumanLease) (w : World H) (a : HumanPhase)
      → Quiet H new s.world w
      → ((k : ℕ) → h ≢ k → LeasesApart (lease_held a) (lease_held (s.humans k)))
      → Inv H (record s { world = w; humans = update s.humans h a })
  human_Inv h new w a q apart = record {
    kept = λ i. kept_all (permit_held (s.agents i)) (v.kept i);
    stops = λ i t. Stops-Calm H q.calm (s.agents i) (s.teardowns t) (v.stops i t);
    closed = λ t. Closed-Calm H q.calm (s.teardowns t) (v.closed t);
    permits = v.permits;
    leases =
        update_apart (λ a b. LeasesApart (lease_held a) (lease_held b))
          (λ a b. LeasesApart-sym (lease_held a) (lease_held b)) s.humans h a v.leases apart;
    stored = q.calm.stored v.stored;
  }
    where
      kept_all : (o : Option AgentPermit) → KeptIn H s.world o → KeptIn H w o
      kept_all none k = tt
      kept_all (some p) k = q.kept p k

  -- A step of a teardown.
  pub teardown_Inv :
      (t : ℕ) (w : World H) (a : TeardownPhase)
      → Quiet H none s.world w
      → ((i : ℕ) → Stops H w (s.agents i) a)
      → Closed H w a
      → Inv H (record s { world = w; teardowns = update s.teardowns t a })
  teardown_Inv t w a q stops closed = record {
    kept = λ i. kept_all (permit_held (s.agents i)) (v.kept i);
    stops = λ i.
        update_all (λ u b. Stops H w (s.agents i) b) s.teardowns t a (stops i)
          (λ u ne. Stops-Calm H q.calm (s.agents i) (s.teardowns u) (v.stops i u));
    closed =
        update_all (λ u b. Closed H w b) s.teardowns t a closed
          (λ u ne. Closed-Calm H q.calm (s.teardowns u) (v.closed u));
    permits = v.permits;
    leases = v.leases;
    stored = q.calm.stored v.stored;
  }
    where
      kept_all : (o : Option AgentPermit) → KeptIn H s.world o → KeptIn H w o
      kept_all none k = tt
      kept_all (some p) k = q.kept p k

  -- A change of the files by nobody in particular.
  pub world_Inv : (w : World H) → Quiet H none s.world w → Inv H (record s { world = w })
  world_Inv w q = record {
    kept = λ i. kept_all (permit_held (s.agents i)) (v.kept i);
    stops = λ i t. Stops-Calm H q.calm (s.agents i) (s.teardowns t) (v.stops i t);
    closed = λ t. Closed-Calm H q.calm (s.teardowns t) (v.closed t);
    permits = v.permits;
    leases = v.leases;
    stored = q.calm.stored v.stored;
  }
    where
      kept_all : (o : Option AgentPermit) → KeptIn H s.world o → KeptIn H w o
      kept_all none k = tt
      kept_all (some p) k = q.kept p k
