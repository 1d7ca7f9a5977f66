-- ===== src/Lifecycle/Teardown.antt =====
-- packages/core/src/session-lifecycle.ts: `teardownLocalSession`. A leg's teardown takes the
-- finalizer, as it does in the source, and is a parameter: the desktop, android and browser
-- packages give it.
use pickforge.Base.{
  ◌≡◌, ◌↔◌, String, Bool, true, false, ◌&&◌, Option, none, some, Result, ok, err, arith,
}
use pickforge.Session.Records.{
  SessionType, desktop, android, desktop_android, browser, SessionRecord,
}
use pickforge.Lifecycle.Effects.{Effect}
use pickforge.Lifecycle.Legs.{LifecycleError, no_typed_teardown, thrown, Leg}

abbrev pub Teardown : Type 0 → Type 0 → Type 0
Teardown S E = String → Effect S E (Unit {0}) → Effect S E (Unit {0})

pub record LocalSessionTeardownRuntime (S E : Type 0) : Type 0 where
  pub desktop_teardown : Option (Teardown S E)
  pub android_teardown : Option (Teardown S E)
  pub browser_teardown : Option (Teardown S E)

abbrev is_defined : {A : Type 0} → Option A → Bool
is_defined none = false
is_defined (some _) = true

module _ {S E : Type 0} (R : LocalSessionTeardownRuntime S E) where
  open R use {desktop_teardown, android_teardown, browser_teardown}

  abbrev can_teardown_as : SessionType → Bool
  can_teardown_as desktop = is_defined desktop_teardown
  can_teardown_as android = is_defined android_teardown
  can_teardown_as browser = is_defined browser_teardown
  can_teardown_as desktop_android = is_defined desktop_teardown && is_defined android_teardown

  unfoldable pub can_teardown_local_session : SessionRecord → Bool
  can_teardown_local_session r = can_teardown_as r.type

  abbrev raised : {A : Type 0} → S × Result E A → S × Result (LifecycleError E) A
  raised (s, ok a) = (s, ok a)
  raised (s, err e) = (s, err (thrown e))

  abbrev one_leg :
      Option (Teardown S E) → SessionRecord → Effect S E (Unit {0}) → Leg S E (Unit {0})
  one_leg none r finalize s = (s, err (no_typed_teardown r.id r.type))
  one_leg (some teardown) r finalize s = raised (teardown r.id finalize s)

  -- The desktop drain comes first: the android teardown is the desktop's finalizer.
  abbrev two_legs :
      Option (Teardown S E)
      → Option (Teardown S E)
      → SessionRecord
      → Effect S E (Unit {0})
      → Leg S E (Unit {0})
  two_legs (some outer) (some inner) r finalize s = raised (outer r.id (inner r.id finalize) s)
  two_legs _ _ r finalize s = (s, err (no_typed_teardown r.id r.type))

  abbrev teardown_as : SessionType → SessionRecord → Effect S E (Unit {0}) → Leg S E (Unit {0})
  teardown_as desktop = one_leg desktop_teardown
  teardown_as android = one_leg android_teardown
  teardown_as browser = one_leg browser_teardown
  teardown_as desktop_android = two_legs desktop_teardown android_teardown

  unfoldable pub teardown_local_session : SessionRecord → Effect S E (Unit {0}) → Leg S E (Unit {0})
  teardown_local_session r finalize s = teardown_as r.type r finalize s

  -- The reaper's test tells which teardowns have a runtime: without one nothing is done, and the
  -- error says so; with one the error is never that.
  pub can_teardown-teardown_local_session :
      (r : SessionRecord) (finalize : Effect S E (Unit {0})) (s : S)
      → (teardown_local_session r finalize s ≡ (s, err (no_typed_teardown r.id r.type)))
        ↔ (can_teardown_local_session r ≡ false)
  unfolding can_teardown_local_session teardown_local_session
  can_teardown-teardown_local_session r finalize s = ground arith
