-- ===== src/Takeover/Records.antt =====
-- packages/core/src/takeover.ts: the lease and permit records, and how they are read from JSON.
use pickforge.Base.{
  ℕ, String, str_eq, Bool, true, false, Option, none, some, ◌&&◌, ◌||◌, if◌then◌else◌, leb,
}
use pickforge.Json.{
  Json, Number, nat, Fields, undefined, str, num, obj, end, field, prop, is_string, is_number,
}

pub data Transport : Type 0 where
  x11vnc viewer : Transport

pub record HumanLease : Type 0 where
  pub lease_id : String
  pub session_id : String
  pub owner_pid : Number
  pub owner_start_ticks : Option Number
  pub created_at : String
  pub expires_at : String
  pub ttl_ms : Number
  pub heartbeat_ms : Number
  pub input_transport : Option Transport
  pub viewer_pid : Option Number
  pub viewer_start_ticks : Option Number
  pub vnc_pid : Option Number
  pub vnc_start_time_ticks : Option Number
  pub vnc_port : Option Number

-- `AgentPermit` without its path.
pub record AgentPermit : Type 0 where
  pub permit_id : String
  pub session_id : String
  pub owner_pid : Number
  pub owner_start_ticks : Option Number
  pub created_at : String

-- `Number.isSafeInteger(v) && v >= minimum`, for a minimum of 0 or 1
abbrev pub is_safe_from : ℕ → Number → Bool
is_safe_from minimum (nat n) = leb n 9_007_199_254_740_991 && leb minimum n
is_safe_from minimum _ = false

unfoldable pub valid_optional_identity_number : Json → ℕ → Bool
valid_optional_identity_number undefined minimum = true
valid_optional_identity_number (num n) minimum = is_safe_from minimum n
valid_optional_identity_number _ minimum = false

abbrev pub valid_transport : Json → Bool
valid_transport undefined = true
valid_transport (str s) = str_eq s "x11vnc" || str_eq s "viewer"
valid_transport _ = false

unfoldable pub valid_transport_metadata : Fields → Bool
unfolding valid_optional_identity_number prop
valid_transport_metadata c =
    valid_transport (prop "inputTransport" c)
    && (valid_optional_identity_number (prop "viewerPid" c) 1
        && valid_optional_identity_number (prop "viewerStartTicks" c) 0)

abbrev transport_of : Json → Option Transport
transport_of (str s) =
    if str_eq s "x11vnc" then some x11vnc else if str_eq s "viewer" then some viewer else none
transport_of _ = none

-- A property that is a number, and is left out otherwise.
abbrev number_of : Json → Option Number
number_of (num n) = some n
number_of _ = none

-- `typeof v === "string"` and `typeof v === "number"`, with the value.
abbrev string_or : Json → String
string_or (str s) = s
string_or _ = ""

abbrev number_or : Json → Number
number_or (num n) = n
number_or _ = nat 0

abbrev required_lease : Fields → Bool
required_lease c =
    is_string (prop "leaseId" c)
    && is_string (prop "sessionId" c)
    && is_number (prop "ownerPid" c)
    && is_string (prop "createdAt" c)
    && is_string (prop "expiresAt" c)
    && is_number (prop "ttlMs" c)
    && is_number (prop "heartbeatMs" c)

-- `parseHumanLease`, on the value that `JSON.parse` gives.
unfoldable pub parse_human_lease : Json → Option HumanLease
unfolding valid_transport_metadata prop
parse_human_lease (obj c) =
    if required_lease c && valid_transport_metadata c
    then some (record {
      lease_id = string_or (prop "leaseId" c);
      session_id = string_or (prop "sessionId" c);
      owner_pid = number_or (prop "ownerPid" c);
      owner_start_ticks = number_of (prop "ownerStartTicks" c);
      created_at = string_or (prop "createdAt" c);
      expires_at = string_or (prop "expiresAt" c);
      ttl_ms = number_or (prop "ttlMs" c);
      heartbeat_ms = number_or (prop "heartbeatMs" c);
      input_transport = transport_of (prop "inputTransport" c);
      viewer_pid = number_of (prop "viewerPid" c);
      viewer_start_ticks = number_of (prop "viewerStartTicks" c);
      vnc_pid = number_of (prop "vncPid" c);
      vnc_start_time_ticks = number_of (prop "vncStartTimeTicks" c);
      vnc_port = number_of (prop "vncPort" c);
    })
    else none
parse_human_lease _ = none

abbrev required_permit : Fields → Bool
required_permit c =
    is_string (prop "permitId" c)
    && is_string (prop "sessionId" c)
    && is_number (prop "ownerPid" c)
    && is_string (prop "createdAt" c)

unfoldable pub parse_agent_permit_record : Json → Option AgentPermit
unfolding prop
parse_agent_permit_record (obj c) =
    if required_permit c
    then some (record {
      permit_id = string_or (prop "permitId" c);
      session_id = string_or (prop "sessionId" c);
      owner_pid = number_or (prop "ownerPid" c);
      owner_start_ticks = number_of (prop "ownerStartTicks" c);
      created_at = string_or (prop "createdAt" c);
    })
    else none
parse_agent_permit_record _ = none

-- The object that is serialized: properties that are not set are left out.
abbrev pub optional : String → Option Json → Fields → Fields
optional k none fs = fs
optional k (some v) fs = field k v fs

abbrev pub number_json : Option Number → Option Json
number_json none = none
number_json (some n) = some (num n)

abbrev pub transport_json : Option Transport → Option Json
transport_json none = none
transport_json (some x11vnc) = some (str "x11vnc")
transport_json (some viewer) = some (str "viewer")

unfoldable pub lease_fields : HumanLease → Fields
lease_fields l = field "leaseId" (str l.lease_id) (
    field "sessionId" (str l.session_id) (
      field "ownerPid" (num l.owner_pid) (
        field "createdAt" (str l.created_at) (
          field "expiresAt" (str l.expires_at) (
            field "ttlMs" (num l.ttl_ms) (
              field "heartbeatMs" (num l.heartbeat_ms) (
                optional "ownerStartTicks" (number_json l.owner_start_ticks) (
                  optional "inputTransport" (transport_json l.input_transport) (
                    optional "viewerPid" (number_json l.viewer_pid) (
                      optional "viewerStartTicks" (number_json l.viewer_start_ticks) (
                        optional "vncPid" (number_json l.vnc_pid) (
                          optional "vncStartTimeTicks" (number_json l.vnc_start_time_ticks)
                            (optional "vncPort" (number_json l.vnc_port) end)))))))))))))

unfoldable pub permit_fields : AgentPermit → Fields
permit_fields r = field "permitId" (str r.permit_id) (
    field "sessionId" (str r.session_id) (
      field "ownerPid" (num r.owner_pid) (
        field "createdAt" (str r.created_at)
          (optional "ownerStartTicks" (number_json r.owner_start_ticks) end))))
