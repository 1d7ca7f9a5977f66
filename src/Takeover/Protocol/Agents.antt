-- ===== src/Takeover/Protocol/Agents.antt =====
-- packages/core/src/takeover.ts: the steps of an agent keep the invariant.
use pickforge.Base.{
  ℕ, ◌≡◌, ◌≢◌, sym, ◌⊎◌, inl, inr, Bool-cases, Option, none, some, arith, true, false, ◌&&◌, ok,
  err, eq_refl, eq_iff, ◌∷◌, Result-cases,
}
use pickforge.Takeover.Records.{HumanLease, AgentPermit}
use pickforge.Takeover.Store.{
  Host, World, SessionStatus, TakeoverError, permit_text, permit_of, verify, assert_input_open,
  is_human_lease_stale, read_permit, open_for_write,
}
use pickforge.Takeover.Lease.{read_human_lease}
use pickforge.Takeover.Protocol.{
  AgentPhase, idle, opened, published, rechecked, lease_read, acting, TeardownPhase, waiting,
  closing, stopping, finished, System, update, is_ok, release_agent_permit, publish, is_busy,
  agent_step, AgentStep, opens, publishes, goes_on,
}
use pickforge.Takeover.Protocol.Invariant.{
  permit_held, PermitsApart, Kept, KeptIn, Awaits, Stops, Closed, Inv,
}
use pickforge.Takeover.Protocol.Files.{Calm-refl, Calm-unlink_permit, Kept-unlink_permit}
use pickforge.Takeover.Protocol.LeaseFile.{Quiet, Quiet-refl, Quiet-opened}
use pickforge.Takeover.Protocol.Assembly.{agent_Inv}

module _ (H : Host) where
  -- Input that is open has no teardown that waits for permits.
  Awaits-open :
      (w : World H) (p : AgentPermit) (t : TeardownPhase)
      → w.closed ≡ false
      → Closed H w t
      → Awaits H w p t
  Awaits-open w p waiting o c = tt
  Awaits-open w p closing o c = tt
  Awaits-open w p (stopping pending) o c = cc
  Awaits-open w p finished o c = cc

  input_open :
      (w : World H) (s : SessionStatus) → is_ok (assert_input_open H w s) ≡ true → w.closed ≡ false
  unfolding assert_input_open
  input_open w s e = ground arith

  publish_refused :
      (w : World H) (s : SessionStatus) (p : AgentPermit) (e : TakeoverError H)
      → open_for_write H w ≡ err e
      → publish H w s p ≡ (w, idle)
  unfolding publish
  publish_refused w s p e h = rw (h, publish)

  publish_opened :
      (w w' : World H) (s : SessionStatus) (p : AgentPermit)
      → open_for_write H w ≡ ok w'
      → (publish H w s p ≡ (w', idle))
        ⊎ (publish H w s p
            ≡ (record w' { permits = (p.permit_id, permit_text H p) ∷ w'.permits }, published s p))
  unfolding publish
  publish_opened w w' s p h = ground arith

  module _ (s : System H) (v : Inv H s) (i : ℕ) where
    abbrev Apart : AgentPhase → Type 0
    Apart a = (j : ℕ) → i ≢ j → PermitsApart (permit_held a) (permit_held (s.agents j))

    -- An agent that gives up, or is done, drops its permit.
    released :
        (p : AgentPermit)
        → ((j : ℕ) → i ≢ j → PermitsApart (some p) (permit_held (s.agents j)))
        → Inv H
            (record s { world = release_agent_permit H s.world p; agents = update s.agents i idle })
    released p apart =
        agent_Inv H s v i (release_agent_permit H s.world p) idle
          (Calm-unlink_permit H s.world p.permit_id (permit_text H p))
          (λ j ne. others (permit_held (s.agents j)) (apart j ne)) tt (λ t. tt) (λ j ne. tt)
      where
        others :
            (o : Option AgentPermit)
            → PermitsApart (some p) o
            → KeptIn H s.world o
            → KeptIn H (release_agent_permit H s.world p) o
        others none n k = tt
        others (some q) n k =
            Kept-unlink_permit H s.world p.permit_id (permit_text H p) q (λ e. n (sym e)) k

    -- The files stay as they are, and the agent goes on.
    moved :
        (a : AgentPhase)
        → KeptIn H s.world (permit_held a)
        → ((t : ℕ) → Stops H s.world a (s.teardowns t))
        → Apart a
        → Inv H (record s { world = s.world; agents = update s.agents i a })
    moved a = agent_Inv H s v i s.world a (Calm-refl H s.world) (λ j ne k. k)

    -- A permit that is published, in files that were opened for it.
    published_Inv :
        (w' : World H) (st : SessionStatus) (p : AgentPermit)
        → Quiet H none s.world w'
        → permit_of H (permit_text H p) ≡ some p
        → ((j : ℕ) → PermitsApart (some p) (permit_held (s.agents j)))
        → Inv H (record s {
          world = record w' { permits = (p.permit_id, permit_text H p) ∷ w'.permits };
          agents = update s.agents i (published st p);
        })
    unfolding read_permit is_human_lease_stale
    published_Inv w' st p q back fresh =
        agent_Inv H s v i _ (published st p)
          (record {
            alive_down = λ r a. q.calm.alive_down r a;
            live_back = λ l n e. q.calm.live_back l n e;
            closed_up = λ e. q.calm.closed_up e;
            stored = λ e f. q.calm.stored e f;
          })
          (λ j ne. others (permit_held (s.agents j)) (fresh j))
          (back, λ a. rw (eq_refl p.permit_id)) (λ t. tt) (λ j ne. fresh j)
      where
        others :
            (o : Option AgentPermit)
            → PermitsApart (some p) o
            → KeptIn H s.world o
            → KeptIn H (record w' { permits = (p.permit_id, permit_text H p) ∷ w'.permits }) o
        others none n k = tt
        others (some r) n k =
            let k' = q.kept r k in
            (k'.0, λ a. ground (arith, k'.1 a, eq_iff p.permit_id r.permit_id))

    refused_Inv :
        (w' : World H)
        → Quiet H none s.world w'
        → Inv H (record s { world = w'; agents = update s.agents i idle })
    refused_Inv w' q =
        agent_Inv H s v i w' idle q.calm (λ j ne. others (permit_held (s.agents j))) tt (λ t. tt)
          (λ j ne. tt)
      where
        others : (o : Option AgentPermit) → KeptIn H s.world o → KeptIn H w' o
        others none k = tt
        others (some r) k = q.kept r k

    publish_Inv :
        (st : SessionStatus) (p : AgentPermit)
        → permit_of H (permit_text H p) ≡ some p
        → ((j : ℕ) → PermitsApart (some p) (permit_held (s.agents j)))
        → Inv H (record s {
          world = (publish H s.world st p).0;
          agents = update s.agents i (publish H s.world st p).1;
        })
    publish_Inv st p back fresh = elim (Result-cases (open_for_write H s.world)) [
      | inr (e, refused) ↦
          rw (publish_refused s.world st p e refused) (refused_Inv s.world (Quiet-refl H s.world))
      | inl (w', open') ↦
          let (quiet, _) = Quiet-opened H s.world w' open' in
          elim (publish_opened s.world w' st p open') [
            | inl e ↦ rw e (refused_Inv w' quiet)
            | inr e ↦ rw e (published_Inv w' st p quiet back fresh)
          ]
    ]

    -- What is assumed of a step in a phase.
    abbrev pub Fresh : AgentStep → Type 0
    Fresh (publishes p) =
        ((j : ℕ) → PermitsApart (some p) (permit_held (s.agents j)))
        × (permit_of H (permit_text H p) ≡ some p)
    Fresh _ = Unit {0}

    abbrev Stepped : AgentPhase → AgentStep → Type 0
    Stepped a e = Inv H (record s {
      world = (agent_step H s.world a e).0;
      agents = update s.agents i (agent_step H s.world a e).1;
    })

    rechecks :
        (st : SessionStatus) (p : AgentPermit)
        → Kept H s.world p
        → Apart (published st p)
        → Stepped (published st p) goes_on
    unfolding agent_step
    rechecks st p kept apart =
        elim (Bool-cases (is_ok (verify H s.world) && is_ok (assert_input_open H s.world st))) [
          | inl t ↦ rw t (
              moved (rechecked p) kept
                (λ u.
                  Awaits-open s.world p (s.teardowns u) (input_open s.world st (ground arith))
                    (v.closed u))
                apart)
          | inr f ↦ rw f (released p apart)
        ]

    reads_lease :
        (p : AgentPermit)
        → Kept H s.world p
        → ((t : ℕ) → Awaits H s.world p (s.teardowns t))
        → Apart (rechecked p)
        → Stepped (rechecked p) goes_on
    unfolding agent_step
    reads_lease p kept awaits apart = elim (Result-cases (read_human_lease H s.world)) [
      | inr (e, bad) ↦ rw (bad, agent_step) (released p apart)
      | inl (lease, read) ↦ rw (read, agent_step) (moved (lease_read p lease) kept awaits apart)
    ]

    tests_lease :
        (p : AgentPermit) (lease : Option HumanLease)
        → Kept H s.world p
        → ((t : ℕ) → Awaits H s.world p (s.teardowns t))
        → Apart (lease_read p lease)
        → Stepped (lease_read p lease) goes_on
    unfolding agent_step
    tests_lease p lease kept awaits apart = elim (Bool-cases (is_busy H s.world lease)) [
      | inl busy ↦ rw busy (released p apart)
      | inr free ↦ rw free (moved (acting p) kept awaits apart)
    ]

    agent_phases :
        (a : AgentPhase) (e : AgentStep)
        → Fresh e
        → KeptIn H s.world (permit_held a)
        → ((t : ℕ) → Stops H s.world a (s.teardowns t))
        → Apart a
        → Stepped a e
    unfolding agent_step
    agent_phases idle (opens st) f k t a =
        elim (Bool-cases (is_ok (assert_input_open H s.world st))) [
          | inl y ↦ rw y (moved (opened st) tt (λ t. tt) (λ j ne. tt))
          | inr n ↦ rw n (moved idle tt (λ t. tt) (λ j ne. tt))
        ]
    agent_phases (opened st) (publishes p) f k t a = publish_Inv st p f.1 f.0
    agent_phases (published st p) goes_on f k t a = rechecks st p k a
    agent_phases (rechecked p) goes_on f k t a = reads_lease p k t a
    agent_phases (lease_read p lease) goes_on f k t a = tests_lease p lease k t a
    agent_phases (acting p) goes_on f k t a = released p a
    agent_phases b e f k t a = moved b k t a

    pub agent_step-Inv :
        (e : AgentStep)
        → Fresh e
        → Inv H (record s {
          world = (agent_step H s.world (s.agents i) e).0;
          agents = update s.agents i (agent_step H s.world (s.agents i) e).1;
        })
    agent_step-Inv e f = agent_phases (s.agents i) e f (v.kept i) (v.stops i) (v.permits i)
