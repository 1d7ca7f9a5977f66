-- ===== src/Takeover/Codec.antt =====
-- packages/core/src/takeover.ts: what is written for a lease or a permit is read back.
use pickforge.Base.{ℕ, ◌≡◌, refl, String, str_eq, true, Option, none, some, arith, if◌then◌else◌}
use pickforge.Json.{Json, Number, Fields, obj, get}
use pickforge.Takeover.Records.{
  HumanLease, AgentPermit, is_safe_from, optional, lease_fields, permit_fields, parse_human_lease,
  parse_agent_permit_record,
}

abbrev or_else : Option Json → Option Json → Option Json
or_else none o = o
or_else (some v) o = some v

get-optional :
    (k j : String) (v : Option Json) (fs : Fields)
    → get k (optional j v fs) ≡ (if str_eq j k then or_else v (get k fs) else get k fs)
unfolding get
get-optional k j none fs = ground arith
get-optional k j (some v) fs = refl

-- Transport metadata that `validTransportMetadata` lets through.
abbrev pub IsSafe : ℕ → Option Number → Type 0
IsSafe minimum none = Unit {0}
IsSafe minimum (some n) = is_safe_from minimum n ≡ true

abbrev pub IsStorable : HumanLease → Type 0
IsStorable l = IsSafe 1 l.viewer_pid × IsSafe 0 l.viewer_start_ticks

pub permit_roundtrip :
    (r : AgentPermit) → parse_agent_permit_record (obj (permit_fields r)) ≡ some r
unfolding parse_agent_permit_record permit_fields get
permit_roundtrip r = simp get-optional (ground arith)

pub lease_roundtrip :
    (l : HumanLease) → IsStorable l → parse_human_lease (obj (lease_fields l)) ≡ some l
unfolding parse_human_lease lease_fields get
lease_roundtrip l h = simp get-optional (ground arith)
