-- ===== src/Takeover/Lease.antt =====
-- packages/core/src/takeover.ts: creating, reading, renewing, releasing and clearing the lease.
pub mod Laws
use pickforge.Base.{
  bind_option, ℕ, String, str_eq, Bool, true, false, not, ◌&&◌, Option, none, some, if◌then◌else◌,
  ok, err, ◌>>=◌, ◌>>◌, require,
}
use mathlib.Core.Option.{get_or}
use pickforge.Json.{Number, nat}
use pickforge.Takeover.Records.{HumanLease, Transport, is_safe_from}
use pickforge.Takeover.Store.{
  Host, TakeoverError, human_lease_held, stale_human_lease, invalid_metadata, invalid_time, World,
  Action, lease_of, lease_text, is_human_lease_stale, with_directory, unlink_lease_if_matches,
}

-- The options of an acquisition, and the patch of a renewal.
pub record LeaseOptions : Type 0 where
  pub ttl_ms : Option Number
  pub heartbeat_ms : Option Number
  pub input_transport : Option Transport
  pub viewer_pid : Option Number
  pub viewer_start_ticks : Option Number
  pub vnc_pid : Option Number
  pub vnc_start_time_ticks : Option Number
  pub vnc_port : Option Number

-- What a process draws for a new lease: a UUID, its identity and the texts of the times.
pub record Owner : Type 0 where
  pub uuid : String
  pub pid : Number
  pub start_ticks : Option Number

abbrev safe_option : Option Number → ℕ → Bool
safe_option none minimum = true
safe_option (some n) minimum = is_safe_from minimum n

abbrev pub valid_options : LeaseOptions → Bool
valid_options o = safe_option o.viewer_pid 1 && safe_option o.viewer_start_ticks 0

abbrev or_keep {ℓ} : {A : Type ℓ} → Option A → Option A → Option A
or_keep none old = old
or_keep (some v) old = some v

abbrev pub human_lease_ttl_ms : Number
human_lease_ttl_ms = nat 30_000

abbrev pub human_lease_heartbeat_ms : Number
human_lease_heartbeat_ms = nat 5_000

module _ (H : Host) where
  open H use {Text, text_eq, iso_after}

  abbrev time_or_throw : Option String → Action H String
  time_or_throw none = err invalid_time
  time_or_throw (some s) = ok s

  unfoldable pub build_human_lease : World H → String → Owner → LeaseOptions → Action H HumanLease
  build_human_lease w session_id owner o = do
    require (valid_options o) invalid_metadata
    let ttl = get_or o.ttl_ms human_lease_ttl_ms
    created_at ← time_or_throw (iso_after w.now (nat 0))
    expires_at ← time_or_throw (iso_after w.now ttl)
    ok (record {
      lease_id = owner.uuid;
      session_id = session_id;
      owner_pid = owner.pid;
      owner_start_ticks = owner.start_ticks;
      created_at = created_at;
      expires_at = expires_at;
      ttl_ms = ttl;
      heartbeat_ms = get_or o.heartbeat_ms human_lease_heartbeat_ms;
      input_transport = o.input_transport;
      viewer_pid = o.viewer_pid;
      viewer_start_ticks = o.viewer_start_ticks;
      vnc_pid = o.vnc_pid;
      vnc_start_time_ticks = o.vnc_start_time_ticks;
      vnc_port = o.vnc_port;
    })

  abbrev pub refusal : World H → Text → Option HumanLease → TakeoverError H
  refusal w raw none = stale_human_lease raw none
  refusal w raw (some existing) =
      if is_human_lease_stale H w existing
      then stale_human_lease raw (some existing)
      else human_lease_held existing

  -- The link fails if the file is there, and then says who holds it.
  unfoldable pub create_exclusive_human_lease_file : World H → HumanLease → Action H (World H)
  create_exclusive_human_lease_file w l = elim w.lease_file [
    | none ↦ ok (record w { lease_file = some (lease_text H l) })
    | some raw ↦ err (refusal w raw (lease_of H raw))
  ]

  unfoldable pub read_human_lease : World H → Action H (Option HumanLease)
  unfolding with_directory lease_of
  read_human_lease w = with_directory H w none (ok (bind_option w.lease_file (lease_of H)))

  unfoldable pub clear_stale_human_lease : World H → Text → Action H (World H × Bool)
  unfolding with_directory unlink_lease_if_matches
  clear_stale_human_lease w expected =
      with_directory H w (w, false) (ok (unlink_lease_if_matches H w expected))

  abbrev pub patched : HumanLease → LeaseOptions → String → HumanLease
  patched l patch expires_at = record l {
    expires_at = expires_at;
    input_transport = or_keep patch.input_transport l.input_transport;
    viewer_pid = or_keep patch.viewer_pid l.viewer_pid;
    viewer_start_ticks = or_keep patch.viewer_start_ticks l.viewer_start_ticks;
    vnc_pid = or_keep patch.vnc_pid l.vnc_pid;
    vnc_start_time_ticks = or_keep patch.vnc_start_time_ticks l.vnc_start_time_ticks;
    vnc_port = or_keep patch.vnc_port l.vnc_port;
  }

  abbrev pub confirmed : String → Option HumanLease → Option HumanLease
  confirmed lease_id none = none
  confirmed lease_id (some l) = if str_eq l.lease_id lease_id then some l else none

  -- The write of a renewal, and the read that confirms it.
  unfoldable pub write_renewal :
      World H → String → HumanLease → LeaseOptions → Action H (World H × Option HumanLease)
  unfolding lease_of
  write_renewal w lease_id current patch = do
    expires_at ← time_or_throw (iso_after w.now current.ttl_ms)
    let raw = lease_text H (patched current patch expires_at)
    ok (record w { lease_file = some raw }, confirmed lease_id (lease_of H raw))

  -- The lease in the file, if it is the caller's and is not stale.
  unfoldable pub own_live_lease : World H → String → Option HumanLease
  unfolding lease_of is_human_lease_stale
  own_live_lease w lease_id = elim (bind_option w.lease_file (lease_of H)) [
    | none ↦ none
    | some current ↦
        if not (str_eq current.lease_id lease_id)
        then none
        else if is_human_lease_stale H w current
        then none
        else some current
  ]

  unfoldable pub renew_human_lease :
      World H → String → LeaseOptions → Action H (World H × Option HumanLease)
  unfolding with_directory own_live_lease write_renewal
  renew_human_lease w lease_id patch = do
    require (valid_options patch) invalid_metadata
    with_directory H w (w, none)
        (elim (own_live_lease w lease_id) [
          | none ↦ ok (w, none)
          | some current ↦ write_renewal w lease_id current patch
        ])

  abbrev pub release_if_own : World H → Text → String → Option HumanLease → World H × Bool
  release_if_own w raw lease_id none = (w, false)
  release_if_own w raw lease_id (some current) =
      if str_eq current.lease_id lease_id then unlink_lease_if_matches H w raw else (w, false)

  unfoldable pub release_human_lease : World H → String → Action H (World H × Bool)
  unfolding with_directory unlink_lease_if_matches lease_of
  release_human_lease w lease_id =
      with_directory H w (w, false)
        (elim w.lease_file [
          | none ↦ ok (w, false)
          | some raw ↦ ok (release_if_own w raw lease_id (lease_of H raw))
        ])

  pub data TakeoverStatus : Type 0 where
    inactive : TakeoverStatus
    stale active : HumanLease → TakeoverStatus

  unfoldable pub get_takeover_status : World H → Action H TakeoverStatus
  unfolding read_human_lease is_human_lease_stale
  get_takeover_status w = do
    lease ← read_human_lease w
    elim lease [
      | none ↦ ok inactive
      | some l ↦ if is_human_lease_stale H w l then ok (stale l) else ok (active l)
    ]

  unfoldable pub check_human_lease_busy : World H → Action H (Option HumanLease)
  unfolding read_human_lease is_human_lease_stale
  check_human_lease_busy w = do
    lease ← read_human_lease w
    elim lease [
      | none ↦ ok none
      | some l ↦ if is_human_lease_stale H w l then ok none else ok (some l)
    ]
