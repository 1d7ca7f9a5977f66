-- ===== src/Takeover/Lease/Laws.antt =====
-- packages/core/src/takeover.ts: what the operations on the lease file do to one another.
use pickforge.Base.{
  bind_option, ℕ, ◌+◌, ◌≡◌, ◌↔◌, ◌⊎◌, inl, inr, refl, sym, ap, ◌∙◌, String, eq_iff, Bool, true,
  false, Option, none, some, ok, err, arith, Option-cases,
}
use pickforge.Json.{Number, nat, other, infinite, is_finite, Fields, end, field, num}
use pickforge.Takeover.Records.{
  HumanLease, Transport, x11vnc, viewer, optional, number_json, transport_json, lease_fields,
  parse_human_lease,
}
use pickforge.Takeover.Codec.{IsStorable, IsSafe, lease_roundtrip}
use pickforge.Takeover.Store.{
  Host, IsFlat, human_lease_held, World, lease_of, lease_text, is_human_lease_stale, verify,
}
use pickforge.Takeover.Lease.{
  LeaseOptions, patched, valid_options, create_exclusive_human_lease_file, read_human_lease,
  clear_stale_human_lease, renew_human_lease, release_human_lease, active, get_takeover_status,
  own_live_lease,
}

abbrev IsFinite : Number → Type 0
IsFinite n = is_finite n ≡ true

abbrev IsFiniteOption : Option Number → Type 0
IsFiniteOption none = Unit {0}
IsFiniteOption (some n) = is_finite n ≡ true

-- A lease that the file keeps whole: valid transport metadata, and no infinite number.
pub record IsWritable (l : HumanLease) : Type 0 where
  pub storable : IsStorable l
  pub owner_pid : IsFinite l.owner_pid
  pub owner_start_ticks : IsFiniteOption l.owner_start_ticks
  pub ttl_ms : IsFinite l.ttl_ms
  pub heartbeat_ms : IsFinite l.heartbeat_ms
  pub vnc_pid : IsFiniteOption l.vnc_pid
  pub vnc_start_time_ticks : IsFiniteOption l.vnc_start_time_ticks
  pub vnc_port : IsFiniteOption l.vnc_port

IsFlat-num :
    (k : String) (n : Number) (fs : Fields) → IsFinite n → IsFlat fs → IsFlat (field k (num n) fs)
IsFlat-num k (nat n) fs h f = f
IsFlat-num k (other n) fs h f = f
IsFlat-num k infinite fs h f = cc

IsFlat-number :
    (k : String) (o : Option Number) (fs : Fields)
    → IsFiniteOption o
    → IsFlat fs
    → IsFlat (optional k (number_json o) fs)
IsFlat-number k none fs h f = f
IsFlat-number k (some n) fs h f = IsFlat-num k n fs h f

IsFlat-transport :
    (k : String) (o : Option Transport) (fs : Fields)
    → IsFlat fs
    → IsFlat (optional k (transport_json o) fs)
IsFlat-transport k none fs f = f
IsFlat-transport k (some x11vnc) fs f = f
IsFlat-transport k (some viewer) fs f = f

IsFinite_of_IsSafe : (minimum : ℕ) (o : Option Number) → IsSafe minimum o → IsFiniteOption o
IsFinite_of_IsSafe minimum none h = tt
IsFinite_of_IsSafe minimum (some (nat n)) h = refl
IsFinite_of_IsSafe minimum (some (other n)) h = cc
IsFinite_of_IsSafe minimum (some infinite) h = cc

lease_fields-IsFlat : (l : HumanLease) → IsWritable l → IsFlat (lease_fields l)
unfolding lease_fields
lease_fields-IsFlat l h = IsFlat-num "ownerPid" _ _ h.owner_pid (
    IsFlat-num "ttlMs" _ _ h.ttl_ms (
      IsFlat-num "heartbeatMs" _ _ h.heartbeat_ms (
        IsFlat-number _ l.owner_start_ticks _ h.owner_start_ticks (
          IsFlat-transport _ l.input_transport _ (
            IsFlat-number _ l.viewer_pid _ (IsFinite_of_IsSafe 1 _ h.storable.0) (
              IsFlat-number _ l.viewer_start_ticks _ (IsFinite_of_IsSafe 0 _ h.storable.1) (
                IsFlat-number _ l.vnc_pid _ h.vnc_pid (
                  IsFlat-number _ l.vnc_start_time_ticks _ h.vnc_start_time_ticks
                    (IsFlat-number _ l.vnc_port end h.vnc_port tt)))))))))

module _ (H : Host) where
  open H use {Text, text_eq, text_eq_iff, parse-print, date_parse, iso_after, date_parse-iso_after}

  pub lease_of-lease_text : (l : HumanLease) → IsWritable l → lease_of H (lease_text H l) ≡ some l
  unfolding lease_of
  lease_of-lease_text l h =
      ap (λ o. bind_option o parse_human_lease)
        (parse-print (lease_fields l) (lease_fields-IsFlat l h))
      ∙ lease_roundtrip l h.storable

  -- While the status is active, every attempt to create a lease is refused, and names the holder.
  pub create-get_takeover_status :
      (w : World H) (l l' : HumanLease)
      → get_takeover_status H w ≡ ok (active l)
      → create_exclusive_human_lease_file H w l' ≡ err (human_lease_held l)
  unfolding create_exclusive_human_lease_file get_takeover_status
  create-get_takeover_status w l l' e = ground arith

  -- A lease that was created is the one that is read.
  pub read-create :
      (w w' : World H) (l : HumanLease)
      → IsWritable l
      → w.present ≡ true
      → verify H w ≡ ok tt
      → create_exclusive_human_lease_file H w l ≡ ok w'
      → read_human_lease H w' ≡ ok (some l)
  unfolding create_exclusive_human_lease_file read_human_lease verify
  read-create w w' l h p v e = ground (arith, lease_of-lease_text l h)

  abbrev pub HasId : Option HumanLease → String → Type 0
  HasId none lease_id = ⊥
  HasId (some l) lease_id = l.lease_id ≡ lease_id

  -- A release that reports true found the lease of the given id, and it removes the file and
  -- nothing else; one that reports false changes nothing.
  pub release_lem :
      (w w' : World H) (lease_id : String) (b : Bool)
      → release_human_lease H w lease_id ≡ ok (w', b)
      → ((b ≡ true)
          × (w' ≡ record w { lease_file = none })
          × HasId (bind_option w.lease_file (lease_of H)) lease_id)
        ⊎ ((b ≡ false) × (w' ≡ w))
  unfolding release_human_lease
  release_lem w w' lease_id b e = elim (Option-cases w.lease_file) [
    | inl empty ↦ inr (ground arith)
    | inr (raw, there) ↦ elim (Option-cases (lease_of H raw)) [
      | inl corrupt ↦ inr (ground arith)
      | inr (l, parsed) ↦ ground (arith, eq_iff l.lease_id lease_id)
    ]
  ]

  -- Clearing compares the whole text: where there is a session directory, it removes the file
  -- exactly if the text is the expected one.
  pub clear_stale_human_lease_iff :
      (w w' : World H) (expected : Text) (b : Bool)
      → w.present ≡ true
      → clear_stale_human_lease H w expected ≡ ok (w', b)
      → (b ≡ true) ↔ (w.lease_file ≡ some expected)
  unfolding clear_stale_human_lease
  clear_stale_human_lease_iff w w' expected b p e = elim (Option-cases w.lease_file) [
    | inl empty ↦ (λ t. ground arith, λ t. ground arith)
    | inr (raw, there) ↦ (
      λ t. ground (arith, text_eq_iff raw expected),
      λ t. ground (arith, text_eq_iff raw expected),
    )
  ]

  -- A renewal by the id of no live lease, because it is gone, another's, corrupt or stale, writes
  -- nothing and reports that the lease is lost.
  pub renew_lost :
      (w : World H) (lease_id : String) (patch : LeaseOptions) (w' : World H)
      (l : Option HumanLease)
      → own_live_lease H w lease_id ≡ none
      → renew_human_lease H w lease_id patch ≡ ok (w', l)
      → (w' ≡ w) × (l ≡ none)
  unfolding renew_human_lease
  renew_lost w lease_id patch w' l none_left e = ground arith

  own_live_lease-inv :
      (w : World H) (lease_id : String) (l : HumanLease)
      → own_live_lease H w lease_id ≡ some l
      → (l.lease_id ≡ lease_id)
        × (is_human_lease_stale H w l ≡ false)
        × (w.alive l.owner_pid l.owner_start_ticks ≡ true)
  unfolding own_live_lease
  own_live_lease-inv w lease_id l e = elim (Option-cases (bind_option w.lease_file (lease_of H))) [
    | inl missing ↦ absurd (ground arith)
    | inr (current, there) ↦ ground (arith, eq_iff current.lease_id lease_id)
  ]

  module _ (w : World H) (lease_id : String) (patch : LeaseOptions) (current : HumanLease) (ttl : ℕ)
      (s : String) (live : own_live_lease H w lease_id ≡ some current)
      (lasts : current.ttl_ms ≡ nat ttl) (printed : iso_after w.now current.ttl_ms ≡ some s)
      (writable : IsWritable (patched H current patch s)) where
    abbrev renewed : World H
    renewed = record w { lease_file = some (lease_text H (patched H current patch s)) }

    renew_writes :
        w.present ≡ true
        → verify H w ≡ ok tt
        → valid_options patch ≡ true
        → renew_human_lease H w lease_id patch ≡ ok (renewed, some (patched H current patch s))
    unfolding renew_human_lease verify
    renew_writes p v o = ground (
      arith,
      lease_of-lease_text (patched H current patch s) writable,
      own_live_lease-inv w lease_id current live,
      eq_iff current.lease_id lease_id,
    )

    expiry : date_parse s ≡ some (w.now + ttl)
    expiry = date_parse-iso_after w.now ttl s (ap (iso_after w.now) (sym lasts) ∙ printed)

    renewed_live : own_live_lease H renewed lease_id ≡ some (patched H current patch s)
    unfolding own_live_lease
    renewed_live = ground (
      arith,
      lease_of-lease_text (patched H current patch s) writable,
      own_live_lease-inv w lease_id current live,
      eq_iff current.lease_id lease_id,
      expiry,
    )

    -- A renewal of a live lease by its id returns the patched lease, writes it, moves its expiry to
    -- its time to live from now, and leaves it live.
    pub renew_extends :
        w.present ≡ true
        → verify H w ≡ ok tt
        → valid_options patch ≡ true
        → (w' : World H) × (renew_human_lease H w lease_id patch
            ≡ ok (w', some (patched H current patch s)))
          × (own_live_lease H w' lease_id ≡ some (patched H current patch s))
          × (date_parse s ≡ some (w.now + ttl))
    renew_extends p v o = (renewed, renew_writes p v o, renewed_live, expiry)
