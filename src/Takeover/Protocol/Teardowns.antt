-- ===== src/Takeover/Protocol/Teardowns.antt =====
-- packages/core/src/takeover.ts: the steps of a teardown keep the invariant.
use pickforge.Base.{
  ℕ, ◌≡◌, refl, Bool-cases, inl, inr, none, some, true, not, ◌||◌, String, List, [],
}
use pickforge.Takeover.Records.{AgentPermit}
use pickforge.Takeover.Store.{Host, World, verify, names, is_human_lease_stale}
use pickforge.Takeover.Protocol.{
  AgentPhase, idle, opened, published, rechecked, lease_read, acting, TeardownPhase, waiting,
  closing, stopping, finished, System, update, is_ok, poll, teardown_step, TeardownStep, goes_on,
  gives_up, polls,
}
use pickforge.Takeover.Protocol.Invariant.{permit_held, Kept, KeptIn, Awaits, Stops, Closed, Inv}
use pickforge.Takeover.Protocol.Files.{Calm, Calm-poll, contains-poll, contains-names}
use pickforge.Takeover.Protocol.LeaseFile.{Quiet, Quiet-refl}
use pickforge.Takeover.Protocol.Humans.{Quiet-poll}
use pickforge.Takeover.Protocol.Assembly.{teardown_Inv}

module _ (H : Host) where
  -- A phase that awaits every permit of an agent stops it.
  Stops-of_Awaits :
      (w : World H) (a : AgentPhase) (t : TeardownPhase)
      → ((p : AgentPermit) → permit_held a ≡ some p → Awaits H w p t)
      → Stops H w a t
  Stops-of_Awaits w (rechecked p) t x = x p refl
  Stops-of_Awaits w (lease_read p lease) t x = x p refl
  Stops-of_Awaits w (acting p) t x = x p refl
  Stops-of_Awaits w idle t x = tt
  Stops-of_Awaits w (opened s) t x = tt
  Stops-of_Awaits w (published s p) t x = tt

  -- One phase may follow another if it awaits the permits that the other does.
  Stops-mono :
      (w w' : World H) (a : AgentPhase) (t u : TeardownPhase)
      → KeptIn H w (permit_held a)
      → ((p : AgentPermit) → Kept H w p → Awaits H w p t → Awaits H w' p u)
      → Stops H w a t
      → Stops H w' a u
  Stops-mono w w' (rechecked p) t u k f x = f p k x
  Stops-mono w w' (lease_read p lease) t u k f x = f p k x
  Stops-mono w w' (acting p) t u k f x = f p k x
  Stops-mono w w' idle t u k f x = tt
  Stops-mono w w' (opened s) t u k f x = tt
  Stops-mono w w' (published s p) t u k f x = tt

  Stops-listed :
      (w : World H) (a : AgentPhase)
      → KeptIn H w (permit_held a)
      → Stops H w a (stopping (names H w.permits))
  Stops-listed w (rechecked p) k = λ alive. contains-names H p.permit_id _ w.permits (k.1 alive)
  Stops-listed w (lease_read p lease) k =
      λ alive. contains-names H p.permit_id _ w.permits (k.1 alive)
  Stops-listed w (acting p) k = λ alive. contains-names H p.permit_id _ w.permits (k.1 alive)
  Stops-listed w idle k = tt
  Stops-listed w (opened s) k = tt
  Stops-listed w (published s p) k = tt

  Awaits-polled :
      (w : World H) (name : String) (pending : List String) (p : AgentPermit)
      → Kept H w p
      → Awaits H w p (stopping pending)
      → Awaits H (poll H w name pending).0 p (stopping (poll H w name pending).1)
  Awaits-polled w name pending p k x =
      let c : Calm H none w (poll H w name pending).0 = Calm-poll H w name pending in
      λ alive. contains-poll H w name pending p k (c.alive_down p alive) (x (c.alive_down p alive))

  Quiet-close : (w : World H) → Quiet H none w (record w { closed = true })
  unfolding is_human_lease_stale
  Quiet-close w = record {
    calm = record {
      alive_down = λ p a. a;
      live_back = λ i n v. v;
      closed_up = λ e. refl;
      stored = λ s e. s e;
    };
    kept = λ p k. k;
  }

  module _ (s : System H) (v : Inv H s) (t : ℕ) where
    abbrev Stepped : TeardownPhase → TeardownStep → Type 0
    Stepped a e = Inv H (record s {
      world = (teardown_step H s.world a e).0;
      teardowns = update s.teardowns t (teardown_step H s.world a e).1;
    })

    moved :
        (a : TeardownPhase)
        → ((i : ℕ) → Stops H s.world (s.agents i) a)
        → Closed H s.world a
        → Inv H (record s { world = s.world; teardowns = update s.teardowns t a })
    moved a = teardown_Inv H s v t s.world a (Quiet-refl H s.world)

    waits : Inv H (record s { world = s.world; teardowns = update s.teardowns t waiting })
    waits = moved waiting (λ i. Stops-of_Awaits s.world (s.agents i) waiting (λ p e. tt)) tt

    finishes :
        ((i : ℕ) → Stops H s.world (s.agents i) (stopping []))
        → s.world.closed ≡ true
        → Stepped (stopping []) goes_on
    unfolding teardown_step
    finishes x c = elim (Bool-cases (not s.world.present || is_ok (verify H s.world))) [
      | inl y ↦ rw y (
          moved finished
            (λ i.
              Stops-mono s.world s.world (s.agents i) (stopping []) finished (v.kept i)
                (λ p k a alive. cc (a alive)) (x i))
            c)
      | inr n ↦ rw n waits
    ]

    teardown_phases :
        (a : TeardownPhase) (e : TeardownStep)
        → ((i : ℕ) → Stops H s.world (s.agents i) a)
        → Closed H s.world a
        → Stepped a e
    unfolding teardown_step
    teardown_phases waiting goes_on x c =
        teardown_Inv H s v t _ closing (Quiet-close s.world)
          (λ i. Stops-of_Awaits (record s.world { closed = true }) (s.agents i) closing (λ p e. tt))
          refl
    teardown_phases closing goes_on x c =
        moved (stopping (names H s.world.permits))
          (λ i. Stops-listed s.world (s.agents i) (v.kept i)) c
    teardown_phases (stopping pending) (polls name) x c =
        let q = Quiet-poll H s.world name pending in
        teardown_Inv H s v t _ _ q
          (λ i.
            Stops-mono s.world (poll H s.world name pending).0 (s.agents i) (stopping pending)
              (stopping (poll H s.world name pending).1) (v.kept i)
              (Awaits-polled s.world name pending) (x i))
          (q.calm.closed_up c)
    teardown_phases (stopping []) goes_on x c = finishes x c
    teardown_phases (stopping pending) gives_up x c = waits
    teardown_phases b e x c = moved b x c

    pub teardown_step-Inv :
        (e : TeardownStep)
        → Inv H (record s {
          world = (teardown_step H s.world (s.teardowns t) e).0;
          teardowns = update s.teardowns t (teardown_step H s.world (s.teardowns t) e).1;
        })
    teardown_step-Inv e = teardown_phases (s.teardowns t) e (λ i. v.stops i t) (v.closed t)
