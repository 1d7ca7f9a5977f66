-- ===== src/Takeover/Protocol/Exclusion.antt =====
-- packages/core/src/takeover.ts: the promises of the protocol, over every interleaving.
use pickforge.Base.{
  ℕ, ◌≤◌, ◌≡◌, ◌≢◌, subst, ◌⊎◌, inl, inr, Option, none, some, arith, Bool, true, false, bind_option,
}
use pickforge.Json.{Number}
use pickforge.Takeover.Records.{HumanLease, AgentPermit}
use pickforge.Takeover.Store.{Host, World, lease_of, is_human_lease_stale}
use pickforge.Takeover.Protocol.{
  idle, rechecked, lease_read, acting, away, waiting, finished, System, Event, agent, human,
  teardown, clears, time_passes, step, AgentStep, HumanStep, publishes, links, renews,
}
use pickforge.Takeover.Protocol.Invariant.{
  IsAlive, LiveIn, Stops, Inv, IsAllowed, Reach, here, next,
}
use pickforge.Takeover.Protocol.LeaseFile.{Quiet, Quiet-clear}
use pickforge.Takeover.Protocol.Assembly.{world_Inv}
use pickforge.Takeover.Protocol.Agents.{agent_step-Inv, Fresh}
use pickforge.Takeover.Protocol.Humans.{human_step-Inv, IsFresh}
use pickforge.Takeover.Protocol.Teardowns.{teardown_step-Inv}

module _ (H : Host) where
  open H use {date_parse}

  -- Nobody has begun.
  abbrev pub start : World H → System H
  start w = record { world = w; agents = λ i. idle; humans = λ h. away; teardowns = λ t. waiting }

  start-Inv : (w : World H) → (w.lease_file ≢ none → w.present ≡ true) → Inv H (start w)
  start-Inv w stored = record {
    kept = λ i. tt;
    stops = λ i t. tt;
    closed = λ t. tt;
    permits = λ i j ne. tt;
    leases = λ h k ne. tt;
    stored = stored;
  }

  -- A lease that is stale stays so as time passes.
  stale_later :
      (w : World H) (l : HumanLease) (now : ℕ) (alive : Number → Option Number → Bool)
      → w.now ≤ now
      → ((pid : Number) (ticks : Option Number) → alive pid ticks ≡ true → w.alive pid ticks ≡ true)
      → is_human_lease_stale H (record w { now = now; alive = alive }) l ≡ false
      → is_human_lease_stale H w l ≡ false
  unfolding is_human_lease_stale
  stale_later w l now alive le down e = ground (arith, down l.owner_pid l.owner_start_ticks)

  Quiet-time :
      (w : World H) (now : ℕ) (alive : Number → Option Number → Bool)
      → w.now ≤ now
      → ((pid : Number) (ticks : Option Number) → alive pid ticks ≡ true → w.alive pid ticks ≡ true)
      → Quiet H none w (record w { now = now; alive = alive })
  Quiet-time w now alive le down = record {
    calm = record {
      alive_down = λ p a. down p.owner_pid p.owner_start_ticks a;
      live_back = λ i n v. back (bind_option w.lease_file (lease_of H)) i v;
      closed_up = λ e. e;
      stored = λ s e. s e;
    };
    kept = λ p k. (k.0, λ a. k.1 (down p.owner_pid p.owner_start_ticks a));
  }
    where
      back :
          (o : Option HumanLease) (i : _)
          → LiveIn H (record w { now = now; alive = alive }) o i
          → LiveIn H w o i
      back none i v = absurd v
      back (some l) i v = (v.0, stale_later w l now alive le down v.1)

  step-Inv : (s : System H) (e : Event H) → Inv H s → IsAllowed H s e → Inv H (step H s e)
  unfolding step
  step-Inv s (agent i e) v a = agent_step-Inv H s v i e (fresh e a)
    where
      fresh : (e : AgentStep) → IsAllowed H s (agent i e) → Fresh H s v i e
      fresh (publishes p) a = a
      fresh e a = tt
  step-Inv s (human h e) v a = human_step-Inv H s v h e (fresh e a)
    where
      fresh : (e : HumanStep) → IsAllowed H s (human h e) → IsFresh H s v h (s.humans h) e
      fresh (links l) a = a
      fresh (renews patch) a = a
      fresh e a = tt
  step-Inv s (teardown t e) v a = teardown_step-Inv H s v t e
  step-Inv s (clears raw) v a = world_Inv H s v _ (Quiet-clear H s.world raw)
  step-Inv s (time_passes now alive) v a = world_Inv H s v _ (Quiet-time s.world now alive a.0 a.1)

  reach-Inv : {s t : System H} → Inv H s → Reach H s t → Inv H t
  reach-Inv v here = v
  reach-Inv v (next {t = u} e r a) = step-Inv u e (reach-Inv v r) a

  module _ (w : World H) (stored : w.lease_file ≢ none → w.present ≡ true) {s : System H}
      (r : Reach H (start w) s) where
    inv : Inv H s
    inv = reach-Inv (start-Inv w stored) r

    -- In every run, once a teardown has stopped the input, no living agent acts or has passed its
    -- last check of the input.
    pub finished_stops_agents :
        (i t : ℕ) (p : AgentPermit)
        → s.teardowns t ≡ finished
        → (s.agents i ≡ acting p)
          ⊎ (s.agents i ≡ rechecked p)
          ⊎ ((lease : Option HumanLease) × (s.agents i ≡ lease_read p lease))
        → ¬ (IsAlive H s.world p)
    finished_stops_agents i t p f (inl a) alive =
        subst (λ x. Stops H s.world x finished) a
          (subst (λ y. Stops H s.world (s.agents i) y) f (inv.stops i t)) alive
    finished_stops_agents i t p f (inr (inl a)) alive =
        subst (λ x. Stops H s.world x finished) a
          (subst (λ y. Stops H s.world (s.agents i) y) f (inv.stops i t)) alive
    finished_stops_agents i t p f (inr (inr (lease, a))) alive =
        subst (λ x. Stops H s.world x finished) a
          (subst (λ y. Stops H s.world (s.agents i) y) f (inv.stops i t)) alive
