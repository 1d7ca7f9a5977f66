-- ===== src/Takeover/Protocol/Files.antt =====
-- packages/core/src/takeover.ts: what each operation on the files leaves as it was for the others.
use pickforge.Base.{
  ◌≡◌, ◌≢◌, sym, ap, String, str_eq, eq_iff, true, false, Option, none, some, List, [], ◌∷◌,
  if◌then◌else◌, arith, Bool-cases, ◌⊎◌, inl, inr,
}
use pickforge.Takeover.Records.{HumanLease, AgentPermit}
use pickforge.Takeover.Store.{
  Host, World, is_human_lease_stale, read_permit, unlink_permit, unlink_permit_if_matches, names,
}
use pickforge.Takeover.Protocol.{
  AgentPhase, idle, opened, published, rechecked, lease_read, acting, TeardownPhase, waiting,
  closing, stopping, finished, contains, delete, drain_permit, poll,
}
use pickforge.Takeover.Protocol.Invariant.{IsLive, IsAlive, Kept, Awaits, Stops, Closed}

module _ (H : Host) where
  open H use {Text, text_eq, text_eq_iff}

  abbrev pub IsntNew : Option HumanLease → String → Type 0
  IsntNew none lease_id = Unit {0}
  IsntNew (some l) lease_id = l.lease_id ≢ lease_id

  -- A change of the files that revives no lease, but for a new one, and reopens no input.
  pub record Calm (new : Option HumanLease) (w w' : World H) : Type 0 where
    pub alive_down : (p : AgentPermit) → IsAlive H w' p → IsAlive H w p
    pub live_back :
        (lease_id : String) → IsntNew new lease_id → IsLive H w' lease_id → IsLive H w lease_id
    pub closed_up : w.closed ≡ true → w'.closed ≡ true
    pub stored : (w.lease_file ≢ none → w.present ≡ true) → w'.lease_file ≢ none → w'.present ≡ true

  module _ {new : Option HumanLease} {w w' : World H} (c : Calm new w w') where
    Awaits-Calm : (p : AgentPermit) (t : TeardownPhase) → Awaits H w p t → Awaits H w' p t
    Awaits-Calm p (stopping pending) e = λ a. e (c.alive_down p a)
    Awaits-Calm p finished e = λ a. e (c.alive_down p a)
    Awaits-Calm p waiting e = tt
    Awaits-Calm p closing e = tt

    pub Stops-Calm : (a : AgentPhase) (t : TeardownPhase) → Stops H w a t → Stops H w' a t
    Stops-Calm (rechecked p) t e = Awaits-Calm p t e
    Stops-Calm (lease_read p lease) t e = Awaits-Calm p t e
    Stops-Calm (acting p) t e = Awaits-Calm p t e
    Stops-Calm idle t e = tt
    Stops-Calm (opened s) t e = tt
    Stops-Calm (published s p) t e = tt

    pub Closed-Calm : (t : TeardownPhase) → Closed H w t → Closed H w' t
    Closed-Calm waiting e = tt
    Closed-Calm closing e = c.closed_up e
    Closed-Calm (stopping pending) e = c.closed_up e
    Closed-Calm finished e = c.closed_up e

  pub Calm-refl : (w : World H) → Calm none w w
  Calm-refl w = record {
    alive_down = λ p a. a;
    live_back = λ i n v. v;
    closed_up = λ e. e;
    stored = λ s e. s e;
  }

  abbrev with_permits : World H → List (String × Text) → World H
  with_permits w ps = record w { permits = ps }

  pub Calm-permits : (w : World H) (ps : List (String × Text)) → Calm none w (with_permits w ps)
  unfolding is_human_lease_stale
  Calm-permits w ps = record {
    alive_down = λ p a. a;
    live_back = λ i n v. v;
    closed_up = λ e. e;
    stored = λ s e. s e;
  }

  read-unlink :
      (a b : String) (ps : List (String × Text))
      → read_permit H a (unlink_permit H b ps) ≡ (if str_eq b a then none else read_permit H a ps)
  unfolding read_permit unlink_permit
  read-unlink a b [] = ground arith
  read-unlink a b ((k, raw) ∷ ps) =
      ground (arith, eq_iff k b, eq_iff k a, eq_iff b a, read-unlink a b ps)

  pub unlink_permit_cases :
      (w : World H) (name : String) (raw : Text)
      → (unlink_permit_if_matches H w name raw ≡ w)
        ⊎ (unlink_permit_if_matches H w name raw ≡ with_permits w (unlink_permit H name w.permits))
  unfolding unlink_permit_if_matches
  unlink_permit_cases w name raw = ground arith

  pub Calm-unlink_permit :
      (w : World H) (name : String) (raw : Text)
      → Calm none w (unlink_permit_if_matches H w name raw)
  Calm-unlink_permit w name raw = elim (unlink_permit_cases w name raw) [
    | inl e ↦ rw e (Calm-refl w)
    | inr e ↦ rw e (Calm-permits w _)
  ]

  Kept-unlink :
      (w : World H) (name : String) (p : AgentPermit)
      → p.permit_id ≢ name
      → Kept H w p
      → Kept H (with_permits w (unlink_permit H name w.permits)) p
  Kept-unlink w name p other k = (
    k.0,
    λ a. ground (arith, k.1 a, read-unlink p.permit_id name w.permits, eq_iff name p.permit_id),
  )

  pub Kept-unlink_permit :
      (w : World H) (name : String) (raw : Text) (p : AgentPermit)
      → p.permit_id ≢ name
      → Kept H w p
      → Kept H (unlink_permit_if_matches H w name raw) p
  Kept-unlink_permit w name raw p other k = elim (unlink_permit_cases w name raw) [
    | inl e ↦ rw e k
    | inr e ↦ rw e (Kept-unlink w name p other k)
  ]

  -- A round keeps the permit of a living owner, and keeps it pending.
  drain_permit_cases :
      (w : World H) (name : String)
      → (drain_permit H w name ≡ (w, true))
        ⊎ (drain_permit H w name ≡ (w, false))
        ⊎ (drain_permit H w name ≡ (with_permits w (unlink_permit H name w.permits), false))
  unfolding drain_permit
  drain_permit_cases w name = ground arith

  drain_permit-alive :
      (w : World H) (p : AgentPermit)
      → Kept H w p
      → IsAlive H w p
      → drain_permit H w p.permit_id ≡ (w, true)
  unfolding drain_permit
  drain_permit-alive w p k a = ground (arith, k.1 a)

  swept-IsAlive :
      (w w' : World H) (name : String) (p : AgentPermit)
      → name ≡ p.permit_id
      → drain_permit H w name ≡ (w', false)
      → Kept H w p
      → ¬ (IsAlive H w p)
  swept-IsAlive w w' name p same e k a =
      cc (e, ap (drain_permit H w) same, drain_permit-alive w p k a)

  pub Kept-drain_permit :
      (w : World H) (name : String) (p : AgentPermit)
      → Kept H w p
      → Kept H (drain_permit H w name).0 p
  Kept-drain_permit w name p k = elim (drain_permit_cases w name) [
    | inl e ↦ rw e k
    | inr (inl e) ↦ rw e k
    | inr (inr e) ↦ rw e (elim (Bool-cases (str_eq name p.permit_id)) [
      | inl t ↦ (k.0, λ a. absurd (swept-IsAlive w _ name p ((eq_iff name p.permit_id).0 t) e k a))
      | inr f ↦ Kept-unlink w name p (λ q. cc (f, (eq_iff name p.permit_id).1 (sym q))) k
    ])
  ]

  pub Calm-drain_permit : (w : World H) (name : String) → Calm none w (drain_permit H w name).0
  Calm-drain_permit w name = elim (drain_permit_cases w name) [
    | inl e ↦ rw e (Calm-refl w)
    | inr (inl e) ↦ rw e (Calm-refl w)
    | inr (inr e) ↦ rw e (Calm-permits w _)
  ]

  pub poll_world :
      (w : World H) (name : String) (pending : List String)
      → ((poll H w name pending).0 ≡ w) ⊎ ((poll H w name pending).0 ≡ (drain_permit H w name).0)
  unfolding poll
  poll_world w name pending = ground arith

  pub Calm-poll :
      (w : World H) (name : String) (pending : List String) → Calm none w (poll H w name pending).0
  Calm-poll w name pending = elim (poll_world w name pending) [
    | inl e ↦ rw e (Calm-refl w)
    | inr e ↦ rw e (Calm-drain_permit w name)
  ]

  pub Kept-poll :
      (w : World H) (name : String) (pending : List String) (p : AgentPermit)
      → Kept H w p
      → Kept H (poll H w name pending).0 p
  Kept-poll w name pending p k = elim (poll_world w name pending) [
    | inl e ↦ rw e k
    | inr e ↦ rw e (Kept-drain_permit w name p k)
  ]

  contains-delete :
      (a b : String) (ks : List String)
      → contains a (delete b ks) ≡ (if str_eq b a then false else contains a ks)
  contains-delete a b [] = ground arith
  contains-delete a b (k ∷ ks) =
      ground (arith, eq_iff k b, eq_iff k a, eq_iff b a, contains-delete a b ks)

  -- The name of a living owner's permit stays pending.
  pub contains-poll :
      (w : World H) (name : String) (pending : List String) (p : AgentPermit)
      → Kept H w p
      → IsAlive H w p
      → contains p.permit_id pending ≡ true
      → contains p.permit_id (poll H w name pending).1 ≡ true
  unfolding poll
  contains-poll w name pending p k a c = elim (Bool-cases (str_eq name p.permit_id)) [
    | inl t ↦
        ground
          (arith, ap (drain_permit H w) ((eq_iff name p.permit_id).0 t), drain_permit-alive w p k a)
    | inr f ↦ ground (arith, contains-delete p.permit_id name pending)
  ]

  -- Every permit that is read is listed.
  pub contains-names :
      (name : String) (raw : Text) (ps : List (String × Text))
      → read_permit H name ps ≡ some raw
      → contains name (names H ps) ≡ true
  unfolding read_permit
  contains-names name raw [] e = cc
  contains-names name raw ((k, r) ∷ ps) e = ground (arith, contains-names name raw ps)
