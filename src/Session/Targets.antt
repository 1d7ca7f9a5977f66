-- ===== src/Session/Targets.antt =====
-- packages/core/src/target.ts: which session a command acts on. A project directory that is given
-- is the one that `path.resolve` made of it.
use pickforge.Base.{
  ◌≡◌, ◌⊎◌, inl, inr, String, str_eq, eq_iff, refl, sym, ap, subst, Bool-cases, Bool, true, false,
  ◌&&◌, Option, none, some, List, [], ◌∷◌, keep, if◌then◌else◌, Result, ok, err, ◌>>=◌, arith,
}
use pickforge.Takeover.Store.{SessionStatus, starting, running, stopped, error}
use pickforge.Session.Records.{
  SessionRecord, DesktopSessionInfo, AndroidSessionInfo, BrowserSessionInfo, is_running,
}
use pickforge.Session.Registry.{Platform, RegistryError, Registry, get_session}
use pickforge.Session.Registry.Listing.{Has, list_sessions}

pub data SessionCapability : Type 0 where
  can_desktop can_android can_browser : SessionCapability

abbrev is_set : {A : Type 0} → Option A → Bool
is_set none = false
is_set (some _) = true

unfoldable pub session_has_capability : SessionRecord → SessionCapability → Bool
session_has_capability r can_desktop = is_set r.desktop_info
session_has_capability r can_android = is_set r.android_info
session_has_capability r can_browser = is_set r.browser_info

pub data TargetError : Type 0 where
  unreadable : RegistryError → TargetError
  not_found no_capability not_running no_display : String → TargetError
  none_running : TargetError
  several_running : List SessionRecord → TargetError

module _ (P : Platform) where
  abbrev in_project : Option String → SessionRecord → Bool
  in_project none r = true
  in_project (some dir) r = str_eq r.project_dir dir

  -- The two filters of the source, one after the other.
  abbrev pub is_candidate : SessionCapability → Option String → SessionRecord → Bool
  is_candidate capability project r =
      (is_running r.status && session_has_capability r capability) && in_project project r

  abbrev single : List SessionRecord → Result TargetError SessionRecord
  single [] = err none_running
  single (r ∷ []) = ok r
  single (r ∷ q ∷ rs) = err (several_running (r ∷ q ∷ rs))

  abbrev capable :
      SessionCapability
      → String
      → Result RegistryError (Option SessionRecord)
      → Result TargetError SessionRecord
  capable capability id (err e) = err (unreadable e)
  capable capability id (ok none) = err (not_found id)
  capable capability id (ok (some r)) =
      if session_has_capability r capability then ok r else err (no_capability id)

  unfoldable pub resolve_runnable_session :
      Registry P
      → SessionCapability
      → Option String
      → Option String
      → Result TargetError SessionRecord
  unfolding session_has_capability
  resolve_runnable_session w capability (some id) project =
      capable capability id (get_session P w id)
  resolve_runnable_session w capability none project =
      single (keep (is_candidate capability project) (list_sessions P w))

  unfoldable pub resolve_desktop_capable_session :
      Registry P → Option String → Option String → Result TargetError SessionRecord
  unfolding resolve_runnable_session
  resolve_desktop_capable_session w id project =
      resolve_runnable_session w can_desktop id project >>= λ r.
      if is_running r.status then ok r else err (not_running r.id)

  abbrev display_of : String → Option DesktopSessionInfo → Result TargetError String
  display_of id none = err (no_display id)
  display_of id (some d) = ok d.display

  unfoldable pub require_display : SessionRecord → Result TargetError String
  require_display r = display_of r.id r.desktop_info

  -- What the session has of a capability, in its record.
  abbrev pub Offers : SessionCapability → SessionRecord → Type 0
  Offers can_desktop r = (info : DesktopSessionInfo) × (r.desktop_info ≡ some info)
  Offers can_android r = (info : AndroidSessionInfo) × (r.android_info ≡ some info)
  Offers can_browser r = (info : BrowserSessionInfo) × (r.browser_info ≡ some info)

  abbrev pub IsOf : Option String → SessionRecord → Type 0
  IsOf none r = Unit
  IsOf (some dir) r = r.project_dir ≡ dir

  -- A session that a command can act on.
  abbrev pub IsRunnable : SessionCapability → Option String → SessionRecord → Type 0
  IsRunnable capability project r = (r.status ≡ running) × Offers capability r × IsOf project r

  is_running-status : (status : SessionStatus) → is_running status ≡ true → status ≡ running
  is_running-status running h = refl
  is_running-status starting h = ground arith
  is_running-status stopped h = ground arith
  is_running-status error h = ground arith

  set_value : {A : Type 0} (o : Option A) → is_set o ≡ true → (a : A) × (o ≡ some a)
  set_value none h = let absurd : ⊥ = ground (arith, h) in elim absurd [ ]
  set_value (some a) h = (a, refl)

  Offers-has :
      (capability : SessionCapability) (r : SessionRecord)
      → session_has_capability r capability ≡ true
      → Offers capability r
  unfolding session_has_capability
  Offers-has can_desktop r h = set_value r.desktop_info h
  Offers-has can_android r h = set_value r.android_info h
  Offers-has can_browser r h = set_value r.browser_info h

  has-Offers :
      (capability : SessionCapability) (r : SessionRecord)
      → Offers capability r
      → session_has_capability r capability ≡ true
  unfolding session_has_capability
  has-Offers can_desktop r h = ap is_set (h.1)
  has-Offers can_android r h = ap is_set (h.1)
  has-Offers can_browser r h = ap is_set (h.1)

  IsOf-in_project :
      (project : Option String) (r : SessionRecord) → in_project project r ≡ true → IsOf project r
  IsOf-in_project none r h = tt
  IsOf-in_project (some dir) r h = (eq_iff r.project_dir dir).0 h

  in_project-IsOf :
      (project : Option String) (r : SessionRecord) → IsOf project r → in_project project r ≡ true
  in_project-IsOf none r h = refl
  in_project-IsOf (some dir) r h = (eq_iff r.project_dir dir).1 h

  is_candidate-IsRunnable :
      (capability : SessionCapability) (project : Option String) (r : SessionRecord)
      → is_candidate capability project r ≡ true
      → IsRunnable capability project r
  is_candidate-IsRunnable capability project r h = (
    is_running-status r.status (ground (arith, h)),
    Offers-has capability r (ground (arith, h)),
    IsOf-in_project project r (ground (arith, h)),
  )

  IsRunnable-is_candidate :
      (capability : SessionCapability) (project : Option String) (r : SessionRecord)
      → IsRunnable capability project r
      → is_candidate capability project r ≡ true
  IsRunnable-is_candidate capability project r h =
      let runs : is_running r.status ≡ true = ap is_running (h.0) in
      ground (arith, runs, has-Offers capability r (h.1), in_project-IsOf project r (h.2))

  -- A filtered list has a session exactly if the list has it and it passes.
  keep-Has :
      (p : SessionRecord → Bool) (q : SessionRecord) (rs : List SessionRecord)
      → Has P q (keep p rs)
      → Has P q rs × (p q ≡ true)
  keep-Has p q [] h = elim h [ ]
  keep-Has p q (r ∷ rs) h = elim (Bool-cases (p r)) [
    | inl passes ↦ elim (subst (λ b. Has P q (if b then r ∷ keep p rs else keep p rs)) passes h) [
      | inl same ↦ (inl same, cc)
      | inr later ↦ let found = keep-Has p q rs later in (inr (found.0), found.1)
    ]
    | inr fails ↦
        let found =
          keep-Has p q rs (subst (λ b. Has P q (if b then r ∷ keep p rs else keep p rs)) fails h) in
        (inr (found.0), found.1)
  ]

  Has-keep :
      (p : SessionRecord → Bool) (q : SessionRecord) (rs : List SessionRecord)
      → Has P q rs
      → p q ≡ true
      → Has P q (keep p rs)
  Has-keep p q [] h e = h
  Has-keep p q (r ∷ rs) (inl s) e = kept (p r) (inl s) (cc (s, e))
    where
      kept :
          (b : Bool)
          → (q ≡ r) ⊎ Has P q (keep p rs)
          → b ≡ true
          → Has P q (if b then r ∷ keep p rs else keep p rs)
      kept true h e = h
      kept false h e = cc
  Has-keep p q (r ∷ rs) (inr t) e = later (p r) (Has-keep p q rs t e)
    where
      later : (b : Bool) → Has P q (keep p rs) → Has P q (if b then r ∷ keep p rs else keep p rs)
      later true h = inr h
      later false h = h

  -- One candidate is the resolved one.
  single-only : (r : SessionRecord) (rs : List SessionRecord) → single rs ≡ ok r → rs ≡ r ∷ []
  single-only r [] e = ground arith
  single-only r (a ∷ []) e = ground arith
  single-only r (a ∷ b ∷ rs) e = ground arith

  only : (q r : SessionRecord) → Has P q (r ∷ []) → q ≡ r
  only q r (inl same) = same
  only q r (inr none_left) = elim none_left [ ]

  -- Without an id, the session that is resolved is listed, runs, has the capability and is of the
  -- project, if one is given; and every other listed session fails one of these.
  pub resolve_runnable_session_unique :
      (w : Registry P) (capability : SessionCapability) (project : Option String)
      (r q : SessionRecord)
      → resolve_runnable_session w capability none project ≡ ok r
      → Has P q (list_sessions P w)
      → Has P r (list_sessions P w)
        × IsRunnable capability project r
        × ((q ≡ r) ⊎ (¬ IsRunnable capability project q))
  unfolding resolve_runnable_session
  resolve_runnable_session_unique w capability project r q e h =
      let p = is_candidate capability project in
      let rs = list_sessions P w in
      let one : keep p rs ≡ r ∷ [] = single-only r (keep p rs) e in
      let found = keep-Has p r rs (subst (Has P r) (sym one) (inl refl)) in
      (
        found.0,
        is_candidate-IsRunnable capability project r (found.1),
        elim (Bool-cases (p q)) [
          | inl passes ↦ inl (only q r (subst (Has P q) one (Has-keep p q rs h passes)))
          | inr fails ↦
              inr (λ runs. ground (arith, fails, IsRunnable-is_candidate capability project q runs))
        ],
      )
