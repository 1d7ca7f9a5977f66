-- ===== src/Takeover/Store.antt =====
-- packages/core/src/takeover.ts: the coordination files of one session, and the steps on them.
-- Each function is a file operation, or a run of them, in the order of the source.
use pickforge.Base.{
  bind_option, ℕ, ◌+◌, ◌≡◌, ◌↔◌, String, str_eq, Bool, true, false, not, ◌||◌, Option, none, some,
  List, [], ◌∷◌, if◌then◌else◌, ltb, Result, ok, err, ◌>>◌, require,
}
use pickforge.Json.{Json, Number, nat, infinite, Fields, end, field, str, num, obj}
use pickforge.Takeover.Records.{
  HumanLease, AgentPermit, parse_human_lease, parse_agent_permit_record, lease_fields,
  permit_fields,
}

-- An object of texts and finite numbers, as the lease and permit files hold.
abbrev pub IsFlat : Fields → Type 0
IsFlat end = Unit {0}
IsFlat (field k (str s) fs) = IsFlat fs
IsFlat (field k (num (nat n)) fs) = IsFlat fs
IsFlat (field k (num infinite) fs) = ⊥
IsFlat (field k (num n) fs) = IsFlat fs
IsFlat (field k _ fs) = ⊥

-- What the host gives: the texts of files, `JSON.parse` and `JSON.stringify` with a line end on an
-- object, `Date.parse` (`none` is NaN) and the ISO text of a time so many milliseconds after
-- another (`none` is a RangeError).
pub record Host : Type 1 where
  pub Text : Type 0
  pub text_eq : Text → Text → Bool
  pub text_eq_iff : (a b : Text) → (text_eq a b ≡ true) ↔ (a ≡ b)
  pub parse : Text → Option Json
  pub print : Fields → Text
  pub parse-print : (fs : Fields) → IsFlat fs → parse (print fs) ≡ some (obj fs)
  pub date_parse : String → Option ℕ
  pub iso_after : ℕ → Number → Option String
  pub date_parse-iso_after :
      (now ttl : ℕ) (s : String)
      → iso_after now (nat ttl) ≡ some s
      → date_parse s ≡ some (now + ttl)

pub data SessionStatus : Type 0 where
  starting running stopped error : SessionStatus

module _ (H : Host) where
  open H use {Text, text_eq, parse, print, date_parse}

  pub data TakeoverError : Type 0 where
    human_control_active human_lease_held : HumanLease → TakeoverError
    stale_human_lease : Text → Option HumanLease → TakeoverError
    drain_timeout : List String → TakeoverError
    agent_permit_unavailable : TakeoverError → TakeoverError
    input_closed wrong_status storage_replaced storage_gone session_not_found : TakeoverError
    permit_exists invalid_metadata invalid_time : TakeoverError

  -- One session's part of the disk, the clock and the processes. `present` says that the session
  -- directory is there, `bound` that its identity marker is, and `intact` that the two agree.
  pub record World : Type 0 where
    pub lease_file : Option Text
    pub permits : List (String × Text)
    pub closed : Bool
    pub status : Option SessionStatus
    pub present : Bool
    pub bound : Bool
    pub intact : Bool
    pub now : ℕ
    pub alive : Number → Option Number → Bool

  abbrev pub Action {ℓ} : Type ℓ → Type ℓ
  Action A = Result TakeoverError A

  unfoldable pub lease_of : Text → Option HumanLease
  lease_of raw = bind_option (parse raw) parse_human_lease

  unfoldable pub permit_of : Text → Option AgentPermit
  permit_of raw = bind_option (parse raw) parse_agent_permit_record

  abbrev pub lease_text : HumanLease → Text
  lease_text l = print (lease_fields l)

  abbrev pub permit_text : AgentPermit → Text
  permit_text r = print (permit_fields r)

  unfoldable pub is_human_lease_stale : World → HumanLease → Bool
  is_human_lease_stale w l =
      if not (w.alive l.owner_pid l.owner_start_ticks)
      then true
      else elim (date_parse l.expires_at) [ none ↦ false | some t ↦ ltb t w.now ]

  abbrev pub is_status : SessionStatus → SessionStatus → Bool
  is_status starting starting = true
  is_status running running = true
  is_status stopped stopped = true
  is_status error error = true
  is_status _ _ = false

  abbrev has_status : Option SessionStatus → SessionStatus → Bool
  has_status none s = false
  has_status (some t) s = is_status t s

  -- `assertInputOpen`
  unfoldable pub assert_input_open : World → SessionStatus → Action (Unit {0})
  assert_input_open w s = do
    require (not w.closed) input_closed
    require (has_status w.status s) wrong_status

  -- The identity check that an action may repeat.
  unfoldable pub verify : World → Action (Unit {0})
  verify w = require (not w.bound || w.intact) storage_replaced

  -- `withSessionDirectory(…, create = true)`: storage is made and bound once, and never again.
  unfoldable pub open_for_write : World → Action World
  unfolding verify
  open_for_write w =
      if w.bound
      then (if w.present then (do verify w; ok w) else err storage_gone)
      else elim w.status [
        | none ↦ err session_not_found
        | some s ↦ ok (record w { present = true; bound = true; intact = true })
      ]

  -- `withSessionDirectory(…, create = false)`, with what it returns where nothing is stored.
  unfoldable pub with_directory {ℓ} : {A : Type ℓ} → World → A → Action A → Action A
  unfolding verify
  with_directory w missing action =
      if w.present
      then (verify w >> action)
      else if not w.bound || w.closed
      then ok missing
      else err storage_gone

  -- `unlinkIfMatches` on the lease file: whether it was removed, and what is left.
  unfoldable pub unlink_lease_if_matches : World → Text → World × Bool
  unlink_lease_if_matches w expected = elim w.lease_file [
    | none ↦ (w, false)
    | some raw ↦ if text_eq raw expected then (record w { lease_file = none }, true) else (w, false)
  ]

  -- `readTextIfPresent` on a permit.
  unfoldable pub read_permit : String → List (String × Text) → Option Text
  read_permit name [] = none
  read_permit name ((k, raw) ∷ ps) = if str_eq k name then some raw else read_permit name ps

  unfoldable pub unlink_permit : String → List (String × Text) → List (String × Text)
  unlink_permit name [] = []
  unlink_permit name ((k, raw) ∷ ps) =
      if str_eq k name then unlink_permit name ps else (k, raw) ∷ unlink_permit name ps

  -- `unlinkIfMatches` on a permit.
  unfoldable pub unlink_permit_if_matches : World → String → Text → World
  unlink_permit_if_matches w name expected = elim (read_permit name w.permits) [
    | none ↦ w
    | some raw ↦
        if text_eq raw expected then record w { permits = unlink_permit name w.permits } else w
  ]

  abbrev pub names : List (String × Text) → List String
  names [] = []
  names ((k, raw) ∷ ps) = k ∷ names ps
