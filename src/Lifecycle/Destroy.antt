-- ===== src/Lifecycle/Destroy.antt =====
-- packages/core/src/session-lifecycle.ts: `destroyLocalSession` and `destroyLocalSessions`. The
-- messages are kept as the id and the error that the source puts in a text.
use pickforge.Base.{
  ◌≡◌, inl, inr, subst, Bool-cases, false, refl, String, Bool, true, Option, none, some, List, [],
  ◌∷◌, if◌then◌else◌, Result, ok, err, arith,
}
use pickforge.Session.Records.{
  SessionType, desktop, android, desktop_android, browser, SessionRecord,
}
use pickforge.Lifecycle.Effects.{Effect, ignoring, Outcome-cases}
use pickforge.Lifecycle.Legs.{LifecycleError, cannot_destroy, thrown, Leg}

-- The runtimes take the abort signal, which is read from the state.
pub record LocalSessionDestroyRuntime (S E : Type 0) : Type 0 where
  pub desktop_destroy : String → Effect S E (Unit {0})
  pub android_destroy : String → Effect S E (Unit {0})
  pub browser_destroy : String → Effect S E (Unit {0})

pub record DestroyLocalSessionsOptions (S E : Type 0) : Type 0 where
  pub around_destroy : Option (SessionRecord → Leg S E (Unit {0}) → Leg S E (Unit {0}))
  pub aborted : S → Bool
  -- `markSessionCleanupPendingIfInputClosed`
  pub mark_cleanup_pending : String → Effect S E (Unit {0})

pub data DestroyError (E : Type 0) : Type 0 where
  cancelled : DestroyError E
  failed : LifecycleError E → DestroyError E

pub record DestroyLocalSessionsResult (E : Type 0) : Type 0 where
  pub destroyed : List String
  pub errors : List (String × DestroyError E)

abbrev raised : {S E : Type 0} {A : Type 0} → S × Result E A → S × Result (LifecycleError E) A
raised (s, ok a) = (s, ok a)
raised (s, err e) = (s, err (thrown e))

module _ {S E : Type 0} (R : LocalSessionDestroyRuntime S E)
    (O : DestroyLocalSessionsOptions S E) where
  open R use {desktop_destroy, android_destroy, browser_destroy}
  open O use {around_destroy, aborted, mark_cleanup_pending}

  abbrev destroy_as : SessionType → SessionRecord → Leg S E (Unit {0})
  destroy_as desktop r s = raised (desktop_destroy r.id s)
  destroy_as browser r s = raised (browser_destroy r.id s)
  destroy_as android r s = raised (android_destroy r.id s)
  destroy_as desktop_android r s = (s, err (cannot_destroy r.id r.type))

  unfoldable pub destroy_local_session : SessionRecord → Leg S E (Unit {0})
  destroy_local_session r = destroy_as r.type r

  abbrev destroy_around :
      Option (SessionRecord → Leg S E (Unit {0}) → Leg S E (Unit {0}))
      → SessionRecord
      → Leg S E (Unit {0})
  destroy_around none r = destroy_local_session r
  destroy_around (some around) r = around r (destroy_local_session r)

  abbrev settle :
      SessionRecord
      → S × Result (LifecycleError E) (Unit {0})
      → S × Result (DestroyError E) (Unit {0})
  settle r (s, ok _) = (s, ok tt)
  settle r (s, err e) = (ignoring (mark_cleanup_pending r.id s), err (failed e))

  -- One turn of the loop.
  unfoldable pub destroy_one : SessionRecord → S → S × Result (DestroyError E) (Unit {0})
  destroy_one r s =
      if aborted s then (s, err cancelled) else settle r (destroy_around around_destroy r s)

  abbrev report :
      SessionRecord
      → Result (DestroyError E) (Unit {0})
      → S × DestroyLocalSessionsResult E
      → S × DestroyLocalSessionsResult E
  report r (ok _) (s, all) = (s, record all { destroyed = r.id ∷ all.destroyed })
  report r (err e) (s, all) = (s, record all { errors = (r.id, e) ∷ all.errors })

  unfoldable pub destroy_local_sessions : List SessionRecord → S → S × DestroyLocalSessionsResult E
  destroy_local_sessions [] s = (s, record { destroyed = []; errors = [] })
  destroy_local_sessions (r ∷ rs) s =
      report r (destroy_one r s).1 (destroy_local_sessions rs (destroy_one r s).0)

  -- What a destruction of several sessions does from one state to another, and what it reports. A turn
  -- that finds the client gone does nothing. In any other turn the session is destroyed, or the
  -- error that its destruction ended with is reported and its cleanup is marked as pending.
  pub data Destroys
      : List SessionRecord → S → List String → List (String × DestroyError E) → S → Type 0 where
    nothing : {s : S} → Destroys [] s [] [] s
    given_up :
        {r : SessionRecord} {rs : List SessionRecord} {s s' : S} {gone : List String}
        {errors : List (String × DestroyError E)}
        → aborted s ≡ true
        → Destroys rs s gone errors s'
        → Destroys (r ∷ rs) s gone ((r.id, cancelled) ∷ errors) s'
    succeeds :
        {r : SessionRecord} {rs : List SessionRecord} {s s1 s' : S} {gone : List String}
        {errors : List (String × DestroyError E)}
        → aborted s ≡ false
        → destroy_around around_destroy r s ≡ (s1, ok tt)
        → Destroys rs s1 gone errors s'
        → Destroys (r ∷ rs) s (r.id ∷ gone) errors s'
    fails :
        {r : SessionRecord} {rs : List SessionRecord} {s s1 s' : S} {gone : List String}
        {errors : List (String × DestroyError E)} {e : LifecycleError E}
        → aborted s ≡ false
        → destroy_around around_destroy r s ≡ (s1, err e)
        → Destroys rs (ignoring (mark_cleanup_pending r.id s1)) gone errors s'
        → Destroys (r ∷ rs) s gone ((r.id, failed e) ∷ errors) s'

  abbrev pub IsDone : List SessionRecord → S → S × DestroyLocalSessionsResult E → Type 0
  IsDone rs s (s', all) = Destroys rs s all.destroyed all.errors s'

  turn :
      (r : SessionRecord) (rs : List SessionRecord) (s : S)
      → ((s1 : S) → IsDone rs s1 (destroy_local_sessions rs s1))
      → IsDone (r ∷ rs) s (destroy_local_sessions (r ∷ rs) s)
  unfolding destroy_local_sessions destroy_one
  turn r rs s later = elim (Bool-cases (aborted s)) [
    | inl stop ↦ subst (IsDone (r ∷ rs) s) (ground (arith, stop)) (given_up {r = r} stop (later s))
    | inr goes_on ↦ elim (Outcome-cases (destroy_around around_destroy r s)) [
      | inl (s1, unit, done) ↦
          subst (IsDone (r ∷ rs) s) (ground (arith, goes_on, done))
            (succeeds {r = r} goes_on done (later s1))
      | inr (s1, e, raised_it) ↦
          let s2 = ignoring (mark_cleanup_pending r.id s1) in
          subst (IsDone (r ∷ rs) s) (ground (arith, goes_on, raised_it))
            (fails {r = r} goes_on raised_it (later s2))
    ]
  ]

  -- Each session that was asked for is reported once and in order, by what its own turn did in the state
  -- that the turns before left: as destroyed if and only if its destruction succeeded, with the error
  -- that it ended with if it failed, and as cancelled if the client had gone, where nothing is touched.
  pub destroy_local_sessions-Destroys :
      (rs : List SessionRecord) (s : S) → IsDone rs s (destroy_local_sessions rs s)
  destroy_local_sessions-Destroys [] s = unfold destroy_local_sessions in nothing
  destroy_local_sessions-Destroys (r ∷ rs) s =
      turn r rs s (λ s1. destroy_local_sessions-Destroys rs s1)

  abbrev pub cancellations : List SessionRecord → List (String × DestroyError E)
  cancellations [] = []
  cancellations (r ∷ rs) = (r.id, cancelled) ∷ cancellations rs

  -- Once the client has aborted, nothing more is touched: the state stays, nothing is destroyed,
  -- and each session that is left is reported as cancelled.
  pub destroy_local_sessions-aborted :
      (rs : List SessionRecord) (s : S)
      → aborted s ≡ true
      → destroy_local_sessions rs s ≡ (s, record { destroyed = []; errors = cancellations rs })
  unfolding destroy_local_sessions destroy_one
  destroy_local_sessions-aborted [] s h = refl
  destroy_local_sessions-aborted (r ∷ rs) s h =
      ground (arith, h, destroy_local_sessions-aborted rs s h)
