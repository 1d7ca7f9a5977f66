-- ===== src/Takeover/Protocol/LeaseFile.antt =====
-- packages/core/src/takeover.ts: the operations on the lease file revive no lease but a new one,
-- and leave the permits alone.
use pickforge.Base.{
  ◌≡◌, ◌≢◌, refl, sym, subst, ◌∙◌, String, eq_iff, true, false, Option, none, some, bind_option,
  arith, ok, err, Option-cases, Result-cases, ◌⊎◌, inl, inr,
}
use pickforge.Takeover.Records.{HumanLease, AgentPermit}
use pickforge.Takeover.Store.{
  Host, TakeoverError, World, lease_of, lease_text, is_human_lease_stale, unlink_lease_if_matches,
  open_for_write,
}
use pickforge.Takeover.Lease.{
  LeaseOptions, patched, create_exclusive_human_lease_file, renew_human_lease, release_human_lease,
  clear_stale_human_lease, own_live_lease,
}
use pickforge.Takeover.Protocol.{link, after_action, linked, away}
use pickforge.Takeover.Protocol.Invariant.{LiveIn, Kept, ReadsBack}
use pickforge.Takeover.Protocol.Files.{Calm, Calm-refl}

module _ (H : Host) where
  open H use {Text, iso_after}

  pub record Quiet (new : Option HumanLease) (w w' : World H) : Type 0 where
    pub calm : Calm H new w w'
    pub kept : (p : AgentPermit) → Kept H w p → Kept H w' p

  pub Quiet-refl : (w : World H) → Quiet none w w
  Quiet-refl w = record { calm = Calm-refl H w; kept = λ p k. k }

  abbrev with_lease : World H → Option Text → World H
  with_lease w f = record w { lease_file = f }

  Quiet-removed : (w : World H) → Quiet none w (with_lease w none)
  Quiet-removed w = record {
    calm = record {
      alive_down = λ p a. a;
      live_back = λ i n v. absurd v;
      closed_up = λ e. e;
      stored = λ s e. absurd (e refl);
    };
    kept = λ p k. k;
  }

  own_live_lease-file :
      (w : World H) (lease_id : String) (l : HumanLease)
      → own_live_lease H w lease_id ≡ some l
      → (bind_option w.lease_file (lease_of H) ≡ some l)
        × (l.lease_id ≡ lease_id)
        × (is_human_lease_stale H w l ≡ false)
        × (w.lease_file ≢ none)
  unfolding own_live_lease
  own_live_lease-file w lease_id l e = elim (Option-cases (bind_option w.lease_file (lease_of H))) [
    | inl missing ↦ absurd (ground arith)
    | inr (current, there) ↦ ground (arith, eq_iff current.lease_id lease_id)
  ]

  -- The lease of a live holder may be written again under its id.
  Quiet-renewed :
      (w : World H) (lease_id : String) (current l : HumanLease)
      → own_live_lease H w lease_id ≡ some current
      → lease_of H (lease_text H l) ≡ some l
      → l.lease_id ≡ current.lease_id
      → Quiet none w (with_lease w (some (lease_text H l)))
  Quiet-renewed w lease_id current l live back same =
      let (there, own, fresh, file) = own_live_lease-file w lease_id current live in
      record {
        calm = record {
          alive_down = λ p a. a;
          live_back = λ i n v.
              let (id, _) =
                subst (λ o. LiveIn H (with_lease w (some (lease_text H l))) o i) back v in
              subst (λ o. LiveIn H w o i) (sym there) (sym same ∙ id, fresh);
          closed_up = λ e. e;
          stored = λ s e. s file;
        };
        kept = λ p k. k;
      }

  unlink_lease_cases :
      (w : World H) (raw : Text)
      → ((unlink_lease_if_matches H w raw).0 ≡ w)
        ⊎ ((unlink_lease_if_matches H w raw).0 ≡ with_lease w none)
  unfolding unlink_lease_if_matches
  unlink_lease_cases w raw = ground arith

  pub Quiet-unlink_lease :
      (w : World H) (raw : Text) → Quiet none w (unlink_lease_if_matches H w raw).0
  Quiet-unlink_lease w raw = elim (unlink_lease_cases w raw) [
    | inl e ↦ rw e (Quiet-refl w)
    | inr e ↦ rw e (Quiet-removed w)
  ]

  release_cases :
      (w : World H) (lease_id : String)
      → (after_action H w (release_human_lease H w lease_id) ≡ w)
        ⊎ (after_action H w (release_human_lease H w lease_id) ≡ with_lease w none)
  unfolding release_human_lease
  release_cases w lease_id = ground arith

  pub Quiet-release :
      (w : World H) (lease_id : String)
      → Quiet none w (after_action H w (release_human_lease H w lease_id))
  Quiet-release w lease_id = elim (release_cases w lease_id) [
    | inl e ↦ rw e (Quiet-refl w)
    | inr e ↦ rw e (Quiet-removed w)
  ]

  clear_cases :
      (w : World H) (raw : Text)
      → (after_action H w (clear_stale_human_lease H w raw) ≡ w)
        ⊎ (after_action H w (clear_stale_human_lease H w raw) ≡ with_lease w none)
  unfolding clear_stale_human_lease
  clear_cases w raw = ground arith

  pub Quiet-clear :
      (w : World H) (raw : Text) → Quiet none w (after_action H w (clear_stale_human_lease H w raw))
  Quiet-clear w raw = elim (clear_cases w raw) [
    | inl e ↦ rw e (Quiet-refl w)
    | inr e ↦ rw e (Quiet-removed w)
  ]

  renew_at :
      (w : World H) (lease_id : String) (patch : LeaseOptions) (current : HumanLease) (t : String)
      → own_live_lease H w lease_id ≡ some current
      → iso_after w.now current.ttl_ms ≡ some t
      → (after_action H w (renew_human_lease H w lease_id patch) ≡ w)
        ⊎ (after_action H w (renew_human_lease H w lease_id patch)
            ≡ with_lease w (some (lease_text H (patched H current patch t))))
  unfolding renew_human_lease
  renew_at w lease_id patch current t live printed = ground arith

  renew_nothing :
      (w : World H) (lease_id : String) (patch : LeaseOptions)
      → (own_live_lease H w lease_id ≡ none)
        ⊎ ((current : HumanLease) × (own_live_lease H w lease_id ≡ some current)
            × (iso_after w.now current.ttl_ms ≡ none))
      → after_action H w (renew_human_lease H w lease_id patch) ≡ w
  unfolding renew_human_lease
  renew_nothing w lease_id patch h = ground arith

  pub Quiet-renew :
      (w : World H) (lease_id : String) (patch : LeaseOptions)
      → ReadsBack H w lease_id patch
      → Quiet none w (after_action H w (renew_human_lease H w lease_id patch))
  Quiet-renew w lease_id patch back = elim (Option-cases (own_live_lease H w lease_id)) [
    | inl lost ↦ rw (renew_nothing w lease_id patch (inl lost)) (Quiet-refl w)
    | inr (current, live) ↦ elim (Option-cases (iso_after w.now current.ttl_ms)) [
      | inl bad ↦ rw (renew_nothing w lease_id patch (inr (current, live, bad))) (Quiet-refl w)
      | inr (t, printed) ↦ elim (renew_at w lease_id patch current t live printed) [
        | inl e ↦ rw e (Quiet-refl w)
        | inr e ↦ rw e (
            Quiet-renewed w lease_id current (patched H current patch t) live (back current t live)
              refl)
      ]
    ]
  ]

  -- What an open of the session directory may change.
  pub opened_cases :
      (w w' : World H)
      → open_for_write H w ≡ ok w'
      → ((w' ≡ w) × (w.present ≡ true))
        ⊎ (w' ≡ record w { present = true; bound = true; intact = true })
  unfolding open_for_write
  opened_cases w w' e = ground arith

  Quiet-bound :
      (w : World H) → Quiet none w (record w { present = true; bound = true; intact = true })
  unfolding is_human_lease_stale
  Quiet-bound w = record {
    calm = record {
      alive_down = λ p a. a;
      live_back = λ i n v. v;
      closed_up = λ e. e;
      stored = λ s e. refl;
    };
    kept = λ p k. k;
  }

  pub Quiet-opened :
      (w w' : World H) → open_for_write H w ≡ ok w' → Quiet none w w' × (w'.present ≡ true)
  Quiet-opened w w' e = elim (opened_cases w w' e) [
    | inl (same, here) ↦ rw same (Quiet-refl w, here)
    | inr bound ↦ rw bound (Quiet-bound w, refl)
  ]

  -- A lease that is linked is new, in a file that was not there.
  Quiet-linked :
      (w : World H) (l : HumanLease)
      → w.lease_file ≡ none
      → w.present ≡ true
      → lease_of H (lease_text H l) ≡ some l
      → Quiet (some l) w (with_lease w (some (lease_text H l)))
  Quiet-linked w l empty here back = record {
    calm = record {
      alive_down = λ p a. a;
      live_back = λ i n v.
          absurd (n (subst (λ o. LiveIn H (with_lease w (some (lease_text H l))) o i) back v).0);
      closed_up = λ e. e;
      stored = λ s e. here;
    };
    kept = λ p k. k;
  }

  Quiet-after :
      (new : Option HumanLease) (w w' w'' : World H)
      → Quiet none w w'
      → Quiet new w' w''
      → Quiet new w w''
  Quiet-after new w w' w'' q r = record {
    calm = record {
      alive_down = λ p a. q.calm.alive_down p (r.calm.alive_down p a);
      live_back = λ i n v. q.calm.live_back i tt (r.calm.live_back i n v);
      closed_up = λ e. r.calm.closed_up (q.calm.closed_up e);
      stored = λ s. r.calm.stored (q.calm.stored s);
    };
    kept = λ p k. r.kept p (q.kept p k);
  }

  link_refused :
      (w : World H) (l : HumanLease) (e : TakeoverError H)
      → open_for_write H w ≡ err e
      → link H w l ≡ (w, away)
  unfolding link
  link_refused w l e h = rw (h, link)

  link_opened :
      (w w' : World H) (l : HumanLease)
      → open_for_write H w ≡ ok w'
      → ((link H w l ≡ (w', away)))
        ⊎ ((w'.lease_file ≡ none)
            × (link H w l ≡ (with_lease w' (some (lease_text H l)), linked l)))
  unfolding link create_exclusive_human_lease_file
  link_opened w w' l h = ground arith

  -- A link gives the lease away, or publishes it as a new one.
  pub link_cases :
      (w : World H) (l : HumanLease)
      → lease_of H (lease_text H l) ≡ some l
      → (((link H w l).1 ≡ away) × Quiet none w (link H w l).0)
        ⊎ (((link H w l).1 ≡ linked l) × Quiet (some l) w (link H w l).0)
  link_cases w l back = elim (Result-cases (open_for_write H w)) [
    | inr (e, refused) ↦ rw (link_refused w l e refused) (inl (refl, Quiet-refl w))
    | inl (w', opened) ↦
        let (quiet, here) = Quiet-opened w w' opened in
        elim (link_opened w w' l opened) [
          | inl e ↦ rw e (inl (refl, quiet))
          | inr (empty, e) ↦
              rw e
                (inr (refl, Quiet-after (some l) w w' _ quiet (Quiet-linked w' l empty here back)))
        ]
  ]
