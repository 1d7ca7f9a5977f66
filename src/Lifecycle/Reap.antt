-- ===== src/Lifecycle/Reap.antt =====
-- packages/core/src/session-lifecycle.ts: `reapDeadRunningSessions`. A teardown's own time limit
-- is part of the runtime that is passed in.
use pickforge.Base.{
  ◌≡◌, ◌⊎◌, inl, inr, Bool-cases, subst, refl, String, Bool, true, false, not, ◌&&◌, Option, none,
  some, List, [], ◌∷◌, All, if◌then◌else◌, Result, ok, err, arith,
}
use pickforge.Json.{Json, bool, Fields, prop}
use pickforge.Session.Records.{SessionRecord, is_running, is_error}
use pickforge.Lifecycle.Effects.{Effect, Outcome-cases}
use pickforge.Lifecycle.Legs.{LifecycleError, Leg}
use pickforge.Lifecycle.Teardown.{
  LocalSessionTeardownRuntime, can_teardown_local_session, teardown_local_session,
}

-- What the reaper reads of the host, and `destroySessionRecord(id, env, "failed")`.
pub record Reaper (S E : Type 0) : Type 0 where
  pub runtime : LocalSessionTeardownRuntime S E
  pub is_session_input_closed : String → S → Bool
  pub is_alive : SessionRecord → S → Bool
  pub destroy_session_record : String → Effect S E (Unit {0})

abbrev is_true : Json → Bool
is_true (bool true) = true
is_true _ = false

-- `record.meta?.[REAPER_CLEANUP_PENDING_META_KEY] === true`
unfoldable pub cleanup_pending : Option Fields → Bool
unfolding prop
cleanup_pending none = false
cleanup_pending (some meta) = is_true (prop "reaperCleanupPending" meta)

module _ {S E : Type 0} (R : Reaper S E) where
  open R use {runtime, is_session_input_closed, is_alive, destroy_session_record}

  unfoldable pub retry_pending : SessionRecord → S → Bool
  unfolding cleanup_pending
  retry_pending r s =
      if is_error r.status then cleanup_pending r.meta else is_session_input_closed r.id s

  -- The three conditions that the loop skips a record on, turned around.
  unfoldable pub due : SessionRecord → S → Bool
  unfolding retry_pending
  due r s =
      if not (is_running r.status) && not (retry_pending r s)
      then false
      else if not (can_teardown_local_session runtime r)
      then false
      else if not (retry_pending r s) && is_alive r s
      then false
      else true

  abbrev reaped_if : {X : Type 0} → SessionRecord → S × Result X (Unit {0}) → S × Bool
  reaped_if r (s, ok _) = (s, true)
  reaped_if r (s, err _) = (s, false)

  -- One turn of the loop: the state, and whether the record was reaped.
  unfoldable pub reap_one : SessionRecord → S → S × Bool
  unfolding due
  reap_one r s =
      if due r s
      then reaped_if r (teardown_local_session runtime r (destroy_session_record r.id) s)
      else (s, false)

  abbrev collect : SessionRecord → Bool → S × List SessionRecord → S × List SessionRecord
  collect r true (s, reaped) = (s, r ∷ reaped)
  collect r false (s, reaped) = (s, reaped)

  unfoldable pub reap_dead_running_sessions : List SessionRecord → S → S × List SessionRecord
  reap_dead_running_sessions [] s = (s, [])
  reap_dead_running_sessions (r ∷ rs) s =
      collect r (reap_one r s).1 (reap_dead_running_sessions rs (reap_one r s).0)

  -- A teardown was begun before: the record is of an error with the mark of it, or the input of the
  -- session is closed.
  abbrev pub IsPending : SessionRecord → S → Type 0
  IsPending r s =
      ((is_error r.status ≡ true) × (cleanup_pending r.meta ≡ true))
      ⊎ ((is_error r.status ≡ false) × (is_session_input_closed r.id s ≡ true))

  -- The session can be torn down, and its teardown was begun before, or it runs by its record and its
  -- process is gone.
  abbrev pub IsDue : SessionRecord → S → Type 0
  IsDue r s =
      (can_teardown_local_session runtime r ≡ true)
      × (IsPending r s ⊎ ((is_running r.status ≡ true) × (is_alive r s ≡ false)))

  retry_pending-IsPending : (r : SessionRecord) (s : S) → retry_pending r s ≡ true → IsPending r s
  unfolding retry_pending
  retry_pending-IsPending r s h = elim (Bool-cases (is_error r.status)) [
    | inl failed ↦ inl (failed, ground (arith, h, failed))
    | inr other ↦ inr (other, ground (arith, h, other))
  ]

  IsPending-retry_pending : (r : SessionRecord) (s : S) → IsPending r s → retry_pending r s ≡ true
  unfolding retry_pending
  IsPending-retry_pending r s (inl (failed, marked)) = ground (arith, failed, marked)
  IsPending-retry_pending r s (inr (other, closed)) = ground (arith, other, closed)

  due-IsDue : (r : SessionRecord) (s : S) → due r s ≡ true → IsDue r s
  unfolding due
  due-IsDue r s h = elim (Bool-cases (retry_pending r s)) [
    | inl pending ↦ (ground (arith, h), inl (retry_pending-IsPending r s pending))
    | inr fresh ↦
        (ground (arith, h, fresh), inr (ground (arith, h, fresh), ground (arith, h, fresh)))
  ]

  IsDue-due : (r : SessionRecord) (s : S) → IsDue r s → due r s ≡ true
  unfolding due
  IsDue-due r s (can, inl pending) = ground (arith, can, IsPending-retry_pending r s pending)
  IsDue-due r s (can, inr (runs, dead)) = ground (arith, can, runs, dead)

  abbrev pub tears_down : SessionRecord → Leg S E (Unit {0})
  tears_down r = teardown_local_session runtime r (destroy_session_record r.id)

  -- What a pass over the records does from one state to another: one that is due in the state that its
  -- turn comes in is torn down, and is reaped if that succeeds; any other is left alone.
  pub data Sweeps : List SessionRecord → S → List SessionRecord → S → Type 0 where
    nothing : {s : S} → Sweeps [] s [] s
    left_alone :
        {r : SessionRecord} {rs reaped : List SessionRecord} {s s' : S}
        → ¬ IsDue r s
        → Sweeps rs s reaped s'
        → Sweeps (r ∷ rs) s reaped s'
    not_torn_down :
        {r : SessionRecord} {rs reaped : List SessionRecord} {s s1 s' : S} {e : LifecycleError E}
        → IsDue r s
        → tears_down r s ≡ (s1, err e)
        → Sweeps rs s1 reaped s'
        → Sweeps (r ∷ rs) s reaped s'
    torn_down :
        {r : SessionRecord} {rs reaped : List SessionRecord} {s s1 s' : S}
        → IsDue r s
        → tears_down r s ≡ (s1, ok tt)
        → Sweeps rs s1 reaped s'
        → Sweeps (r ∷ rs) s (r ∷ reaped) s'

  abbrev pub IsSwept : List SessionRecord → S → S × List SessionRecord → Type 0
  IsSwept rs s (s', reaped) = Sweeps rs s reaped s'

  abbrev and_reaped : SessionRecord → S × List SessionRecord → S × List SessionRecord
  and_reaped r (s, reaped) = (s, r ∷ reaped)

  torn_down-IsSwept :
      (r : SessionRecord) (rs : List SessionRecord) (s s1 : S) (m : S × List SessionRecord)
      → IsDue r s
      → tears_down r s ≡ (s1, ok tt)
      → IsSwept rs s1 m
      → IsSwept (r ∷ rs) s (and_reaped r m)
  torn_down-IsSwept r rs s s1 (s', reaped) due done later = torn_down due done later

  not_torn_down-IsSwept :
      (r : SessionRecord) (rs : List SessionRecord) (s s1 : S) (e : LifecycleError E)
      (m : S × List SessionRecord)
      → IsDue r s
      → tears_down r s ≡ (s1, err e)
      → IsSwept rs s1 m
      → IsSwept (r ∷ rs) s m
  not_torn_down-IsSwept r rs s s1 e (s', reaped) due failed later = not_torn_down due failed later

  left_alone-IsSwept :
      (r : SessionRecord) (rs : List SessionRecord) (s : S) (m : S × List SessionRecord)
      → ¬ IsDue r s
      → IsSwept rs s m
      → IsSwept (r ∷ rs) s m
  left_alone-IsSwept r rs s (s', reaped) not_due later = left_alone not_due later

  swept :
      (r : SessionRecord) (rs : List SessionRecord) (s : S)
      → ((s1 : S) → IsSwept rs s1 (reap_dead_running_sessions rs s1))
      → IsSwept (r ∷ rs) s (reap_dead_running_sessions (r ∷ rs) s)
  unfolding reap_dead_running_sessions reap_one
  swept r rs s later =
      let now = reap_dead_running_sessions (r ∷ rs) s in
      elim (Bool-cases (due r s)) [
        | inl is_due ↦ elim (Outcome-cases (tears_down r s)) [
          | inl (s1, unit, done) ↦
              let all = reap_dead_running_sessions rs s1 in
              let same : and_reaped r all ≡ now = ground (arith, is_due, done) in
              subst (IsSwept (r ∷ rs) s) same
                (torn_down-IsSwept r rs s s1 all (due-IsDue r s is_due) done (later s1))
          | inr (s1, e, failed) ↦
              let all = reap_dead_running_sessions rs s1 in
              let same : all ≡ now = ground (arith, is_due, failed) in
              subst (IsSwept (r ∷ rs) s) same
                (not_torn_down-IsSwept r rs s s1 e all (due-IsDue r s is_due) failed (later s1))
        ]
        | inr not_due ↦
            let all = reap_dead_running_sessions rs s in
            let same : all ≡ now = ground (arith, not_due) in
            subst (IsSwept (r ∷ rs) s) same (
              left_alone-IsSwept r rs s all (λ h. ground (arith, not_due, IsDue-due r s h))
                (later s))
      ]

  -- A pass reaps exactly the sessions that are due when their turn comes, in the state that the turns
  -- before left, and whose teardown succeeds then. A session that runs with its process alive and no
  -- teardown begun, and one without a teardown for its type, is left alone.
  pub reap_dead_running_sessions-Sweeps :
      (rs : List SessionRecord) (s : S) → IsSwept rs s (reap_dead_running_sessions rs s)
  reap_dead_running_sessions-Sweeps [] s = unfold reap_dead_running_sessions in nothing
  reap_dead_running_sessions-Sweeps (r ∷ rs) s =
      swept r rs s (λ s1. reap_dead_running_sessions-Sweeps rs s1)

  -- A listing where nothing is due leaves the host as it is.
  pub reap_dead_running_sessions-idle :
      (rs : List SessionRecord) (s : S)
      → All (λ r. due r s ≡ false) rs
      → reap_dead_running_sessions rs s ≡ (s, [])
  unfolding reap_dead_running_sessions reap_one
  reap_dead_running_sessions-idle [] s h = refl
  reap_dead_running_sessions-idle (r ∷ rs) s h =
      ground (arith, h.0, reap_dead_running_sessions-idle rs s h.1)
