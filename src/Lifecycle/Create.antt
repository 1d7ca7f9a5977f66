-- ===== src/Lifecycle/Create.antt =====
-- packages/core/src/session-lifecycle.ts: `createLocalSessions`, which undoes a desktop whose
-- android leg fails.
use pickforge.Base.{
  ◌≡◌, ◌⊎◌, String, str_eq, Bool, Option, none, some, List, [], ◌∷◌, ◌++◌, map, if◌then◌else◌,
  Result, ok, err, arith,
}
use pickforge.Session.Records.{SessionType, desktop, android, desktop_android, browser}
use pickforge.Lifecycle.Effects.{Effect, and_then, ignoring}
use pickforge.Lifecycle.Legs.{
  DesktopLegHandle, AndroidLegHandle, BrowserLegHandle, LocalSessionSummary, summary_type,
  summary_id, desktop_summary, android_summary, browser_summary, LifecycleError, unsupported_recipe,
  creation_aborted, browser_creation_aborted, thrown, Leg,
}

pub record LocalSessionCreateRuntime (S E : Type 0) : Type 0 where
  pub desktop_create : Effect S E DesktopLegHandle
  pub desktop_destroy : String → Effect S E (Unit {0})
  pub android_create : Effect S E AndroidLegHandle
  pub browser_create : Effect S E BrowserLegHandle
  pub aborted : S → Bool

-- `assertRecipe`, on what the caller passed.
unfoldable pub assert_recipe : String → Option SessionType
assert_recipe recipe =
    if str_eq recipe "desktop"
    then some desktop
    else if str_eq recipe "android"
    then some android
    else if str_eq recipe "desktop+android"
    then some desktop_android
    else if str_eq recipe "browser"
    then some browser
    else none

abbrev rethrow {ℓ} : {S E : Type 0} {A : Type ℓ} → S × Result E A → S × Result (LifecycleError E) A
rethrow (s, ok a) = (s, ok a)
rethrow (s, err e) = (s, err (thrown e))

module _ {S E : Type 0} (R : LocalSessionCreateRuntime S E) where
  open R use {desktop_create, desktop_destroy, android_create, browser_create, aborted}

  abbrev aborted_error : SessionType → LifecycleError E
  aborted_error browser = browser_creation_aborted
  aborted_error _ = creation_aborted

  unfoldable pub assert_not_aborted : SessionType → Leg S E (Unit {0})
  assert_not_aborted recipe s = if aborted s then (s, err (aborted_error recipe)) else (s, ok tt)

  -- The desktop that the android leg's failure must undo.
  abbrev undo : List LocalSessionSummary → S → S
  undo [] s = s
  undo (session ∷ rest) s = elim (summary_type session) [
    | desktop ↦ ignoring (desktop_destroy (summary_id session) s)
    | _ ↦ undo rest s
  ]

  abbrev or_undo :
      List LocalSessionSummary
      → S × Result (LifecycleError E) (List LocalSessionSummary)
      → S × Result (LifecycleError E) (List LocalSessionSummary)
  or_undo sessions (s, ok all) = (s, ok all)
  or_undo sessions (s, err e) = (undo sessions s, err e)

  unfoldable pub android_part : List LocalSessionSummary → Leg S E (List LocalSessionSummary)
  unfolding assert_not_aborted android_summary
  android_part sessions s = or_undo sessions (
      and_then (assert_not_aborted android s) λ _ s1.
        and_then (rethrow (android_create s1))
          λ handle s2. (s2, ok (sessions ++ android_summary handle ∷ [])))

  unfoldable pub desktop_part : Leg S E (List LocalSessionSummary)
  unfolding desktop_summary
  desktop_part s =
      and_then (rethrow (desktop_create s)) λ handle s1. (s1, ok (desktop_summary handle ∷ []))

  unfoldable pub browser_part : Leg S E (List LocalSessionSummary)
  unfolding browser_summary
  browser_part s =
      and_then (rethrow (browser_create s)) λ handle s1. (s1, ok (browser_summary handle ∷ []))

  abbrev legs : SessionType → Leg S E (List LocalSessionSummary)
  legs desktop s = desktop_part s
  legs browser s = browser_part s
  legs android s = android_part [] s
  legs desktop_android s = and_then (desktop_part s) android_part

  abbrev create_as : String → Option SessionType → Leg S E (List LocalSessionSummary)
  create_as recipe none s = (s, err (unsupported_recipe recipe))
  create_as recipe (some t) s = and_then (assert_not_aborted t s) λ _. legs t

  unfoldable pub create_local_sessions : String → Leg S E (List LocalSessionSummary)
  unfolding desktop_part android_part browser_part assert_not_aborted
  create_local_sessions recipe = create_as recipe (assert_recipe recipe)

  abbrev with_created : S × Result E DesktopLegHandle → List String → List String
  with_created (s, ok h) ids = h.id ∷ ids
  with_created (s, err e) ids = ids

  -- `destroy` stops the desktop, or fails and leaves it.
  abbrev pub StoppedOrLeft : (S → List String) → String → List String → S → Type 0
  StoppedOrLeft held id rest s =
      (held (ignoring (desktop_destroy id s)) ≡ rest)
      ⊎ ((s' : S) × (e : E) × (desktop_destroy id s ≡ (s', err e)) × (held s' ≡ id ∷ rest))

  -- The desktops that the host holds, and what the runtimes promise of them: a creation that fails
  -- leaves none behind, and the other legs touch none.
  pub record DesktopsHeld (held : S → List String) : Type 0 where
    pub created :
        (s : S) → held (ignoring (desktop_create s)) ≡ with_created (desktop_create s) (held s)
    pub destroyed :
        (s : S) (id : String) (rest : List String)
        → held s ≡ id ∷ rest
        → StoppedOrLeft held id rest s
    pub android_keeps : (s : S) → held (ignoring (android_create s)) ≡ held s
    pub browser_keeps : (s : S) → held (ignoring (browser_create s)) ≡ held s

  -- The desktop of the failed creation was asked to stop, and that failed.
  abbrev pub IsStuck : (S → List String) → S → S → Type 0
  IsStuck held s s' =
      (h : DesktopLegHandle) × (s1 : S) × (s2 : S) × (e : E) × (desktop_create s ≡ (s1, ok h))
      × (desktop_destroy h.id s2 ≡ (s', err e))
      × (held s' ≡ h.id ∷ held s)

  abbrev pub legs_of : SessionType → List SessionType
  legs_of desktop_android = desktop ∷ android ∷ []
  legs_of t = t ∷ []

  -- A creation that succeeds gives one summary for each leg of its recipe, in order.
  pub create_local_sessions-legs_of :
      (recipe : String) (t : SessionType) (s s' : S) (sessions : List LocalSessionSummary)
      → assert_recipe recipe ≡ some t
      → create_local_sessions recipe s ≡ (s', ok sessions)
      → map summary_type sessions ≡ legs_of t
  unfolding create_local_sessions desktop_part android_part browser_part assert_not_aborted
  create_local_sessions-legs_of recipe t s s' sessions e h = ground arith
