-- ===== src/Session/Registry/Listing.antt =====
-- packages/core/src/session.ts: `listSessions`. The entries of a directory are the ids of its
-- `.json` files; the source skips other entries, and ids that `getSession` refuses.
use pickforge.Base.{
  ◌≡◌, ◌⊎◌, inl, inr, refl, sym, subst, String, str_eq, eq_iff, Bool, true, false, Option, none,
  some, Option-cases, Bool-cases, List, [], ◌∷◌, ◌++◌, any, if◌then◌else◌, lookup, Result, ok, err,
  arith,
}
use mathlib.Core.Logic.{◌↔◌}
use pickforge.Session.Records.{SessionRecord}
use pickforge.Session.Registry.{
  Platform, RegistryError, Registry, first_of, read_record, get_session,
}

-- `[...new Set(entries)]`, where the later of two equal entries is kept here.
unfoldable pub distinct : List String → List String
distinct [] = []
distinct (x ∷ xs) = if any (str_eq x) xs then distinct xs else x ∷ distinct xs

module _ (P : Platform) where
  open P use {Text, locale_leb}

  abbrev pub dir_entries : List (String × Text) → List String
  dir_entries [] = []
  dir_entries ((id, raw) ∷ ps) = id ∷ dir_entries ps

  abbrev pub entries : List (List (String × Text)) → List String
  entries [] = []
  entries (dir ∷ dirs) = dir_entries dir ++ entries dirs

  abbrev consider :
      Result RegistryError (Option SessionRecord) → List SessionRecord → List SessionRecord
  consider (ok (some r)) rs = r ∷ rs
  consider _ rs = rs

  unfoldable pub read_all : Registry P → List String → List SessionRecord
  unfolding get_session
  read_all w [] = []
  read_all w (id ∷ ids) = consider (get_session P w id) (read_all w ids)

  -- A stable sort by the time of creation.
  unfoldable pub place : SessionRecord → List SessionRecord → List SessionRecord
  place r [] = r ∷ []
  place r (q ∷ qs) = if locale_leb r.created_at q.created_at then r ∷ q ∷ qs else q ∷ place r qs

  unfoldable pub by_created_at : List SessionRecord → List SessionRecord
  unfolding place
  by_created_at [] = []
  by_created_at (r ∷ rs) = place r (by_created_at rs)

  unfoldable pub list_sessions : Registry P → List SessionRecord
  unfolding read_all by_created_at distinct
  list_sessions w = by_created_at (read_all w (distinct (entries (w.primary ∷ w.legacy))))

  abbrev pub Has : {A : Type 0} → A → List A → Type 0
  Has x [] = ⊥
  Has x (y ∷ ys) = (x ≡ y) ⊎ Has x ys

  Has-append : {A : Type 0} (x : A) (xs ys : List A) → Has x xs ⊎ Has x ys → Has x (xs ++ ys)
  Has-append x [] ys (inl h) = elim h [ ]
  Has-append x [] ys (inr h) = h
  Has-append x (y ∷ xs) ys (inl (inl h)) = inl h
  Has-append x (y ∷ xs) ys (inl (inr h)) = inr (Has-append x xs ys (inl h))
  Has-append x (y ∷ xs) ys (inr h) = inr (Has-append x xs ys (inr h))

  any-Has : (x : String) (xs : List String) → any (str_eq x) xs ≡ true → Has x xs
  any-Has x [] e = ground arith
  any-Has x (y ∷ ys) e = elim (Bool-cases (str_eq x y)) [
    | inl h ↦ inl ((eq_iff x y).0 h)
    | inr h ↦ inr (any-Has x ys (ground arith))
  ]

  Has-if :
      {A : Type 0} (x : A) (b : Bool) (xs ys : List A)
      → (b ≡ true → Has x xs)
      → (b ≡ false → Has x ys)
      → Has x (if b then xs else ys)
  Has-if x true xs ys f g = f refl
  Has-if x false xs ys f g = g refl

  Has-distinct : (x : String) (xs : List String) → Has x xs → Has x (distinct xs)
  unfolding distinct
  Has-distinct x [] h = h
  Has-distinct x (y ∷ ys) h =
      Has-if x (any (str_eq y) ys) (distinct ys) (y ∷ distinct ys)
        (λ b. elim h [
          | inl e ↦ Has-distinct x ys (subst (λ z. Has z ys) (sym e) (any-Has y ys b))
          | inr t ↦ Has-distinct x ys t
        ])
        (λ b. elim h [ inl e ↦ inl e | inr t ↦ inr (Has-distinct x ys t) ])

  Has-place :
      (x r : SessionRecord) (rs : List SessionRecord) → (x ≡ r) ⊎ Has x rs → Has x (place r rs)
  unfolding place
  Has-place x r [] h = h
  Has-place x r (q ∷ qs) h =
      Has-if x (locale_leb r.created_at q.created_at) (r ∷ q ∷ qs) (q ∷ place r qs) (λ b. h)
        (λ b. elim h [
          | inl e ↦ inr (Has-place x r qs (inl e))
          | inr (inl e) ↦ inl e
          | inr (inr t) ↦ inr (Has-place x r qs (inr t))
        ])

  place-Has :
      (x r : SessionRecord) (rs : List SessionRecord) → Has x (place r rs) → (x ≡ r) ⊎ Has x rs
  unfolding place
  place-Has x r [] h = h
  place-Has x r (q ∷ qs) h =
      unless x r q qs (locale_leb r.created_at q.created_at) (place r qs) (λ t. place-Has x r qs t)
        h
    where
      unless :
          (x r q : SessionRecord) (qs : List SessionRecord) (b : Bool) (ps : List SessionRecord)
          → (Has x ps → (x ≡ r) ⊎ Has x qs)
          → Has x (if b then r ∷ q ∷ qs else q ∷ ps)
          → (x ≡ r) ⊎ Has x (q ∷ qs)
      unless x r q qs true ps f h = h
      unless x r q qs false ps f (inl e) = inr (inl e)
      unless x r q qs false ps f (inr t) = elim (f t) [ inl e ↦ inl e | inr u ↦ inr (inr u) ]

  Has-by_created_at :
      (x : SessionRecord) (rs : List SessionRecord) → Has x rs → Has x (by_created_at rs)
  unfolding by_created_at
  Has-by_created_at x [] h = h
  Has-by_created_at x (r ∷ rs) (inl e) = Has-place x r (by_created_at rs) (inl e)
  Has-by_created_at x (r ∷ rs) (inr t) =
      Has-place x r (by_created_at rs) (inr (Has-by_created_at x rs t))

  by_created_at-Has :
      (x : SessionRecord) (rs : List SessionRecord) → Has x (by_created_at rs) → Has x rs
  unfolding by_created_at
  by_created_at-Has x [] h = h
  by_created_at-Has x (r ∷ rs) h = elim (place-Has x r (by_created_at rs) h) [
    | inl e ↦ inl e
    | inr t ↦ inr (by_created_at-Has x rs t)
  ]

  lookup-Has :
      (id : String) (dir : List (String × Text)) (raw : Text)
      → lookup id dir ≡ some raw
      → Has id (dir_entries dir)
  unfolding lookup
  lookup-Has id [] raw e = ground arith
  lookup-Has id ((j, v) ∷ ps) raw e = elim (Bool-cases (str_eq j id)) [
    | inl h ↦ inl (sym ((eq_iff j id).0 h))
    | inr h ↦ inr (lookup-Has id ps raw (ground arith))
  ]

  first_of-Has :
      (id : String) (dirs : List (List (String × Text))) (raw : Text)
      → first_of P id dirs ≡ some raw
      → Has id (entries dirs)
  unfolding first_of
  first_of-Has id [] raw e = ground arith
  first_of-Has id (dir ∷ dirs) raw e = elim (Option-cases (lookup id dir)) [
    | inl h ↦
        Has-append id (dir_entries dir) (entries dirs)
          (inr (first_of-Has id dirs raw (ground arith)))
    | inr (v, h) ↦ Has-append id (dir_entries dir) (entries dirs) (inl (lookup-Has id dir v h))
  ]

  consider-Has :
      (r : SessionRecord) (m : Result RegistryError (Option SessionRecord))
      (rs : List SessionRecord)
      → (m ≡ ok (some r)) ⊎ Has r rs
      → Has r (consider m rs)
  consider-Has r (ok (some q)) rs (inl e) = inl (ground arith)
  consider-Has r (ok (some q)) rs (inr h) = inr h
  consider-Has r (ok none) rs (inl e) = ground arith
  consider-Has r (ok none) rs (inr h) = h
  consider-Has r (err x) rs (inl e) = ground arith
  consider-Has r (err x) rs (inr h) = h

  Has-consider :
      (r : SessionRecord) (m : Result RegistryError (Option SessionRecord))
      (rs : List SessionRecord)
      → Has r (consider m rs)
      → (m ≡ ok (some r)) ⊎ Has r rs
  Has-consider r (ok (some q)) rs (inl e) = inl (ground arith)
  Has-consider r (ok (some q)) rs (inr h) = inr h
  Has-consider r (ok none) rs h = inr h
  Has-consider r (err x) rs h = inr h

  read_all-Has :
      (w : Registry P) (ids : List String) (id : String) (r : SessionRecord)
      → Has id ids
      → get_session P w id ≡ ok (some r)
      → Has r (read_all w ids)
  unfolding read_all
  read_all-Has w [] id r h e = elim h [ ]
  read_all-Has w (j ∷ ids) id r (inl q) e =
      consider-Has r (get_session P w j) (read_all w ids)
        (inl (subst (λ z. get_session P w z ≡ ok (some r)) q e))
  read_all-Has w (j ∷ ids) id r (inr h) e =
      consider-Has r (get_session P w j) (read_all w ids) (inr (read_all-Has w ids id r h e))

  Has-read_all :
      (w : Registry P) (ids : List String) (r : SessionRecord)
      → Has r (read_all w ids)
      → (id : String) × (get_session P w id ≡ ok (some r))
  unfolding read_all
  Has-read_all w [] r h = elim h [ ]
  Has-read_all w (j ∷ ids) r h = elim (Has-consider r (get_session P w j) (read_all w ids) h) [
    | inl e ↦ (j, e)
    | inr t ↦ Has-read_all w ids r t
  ]

  get_session-Has :
      (w : Registry P) (id : String) (r : SessionRecord)
      → get_session P w id ≡ ok (some r)
      → Has id (entries (w.primary ∷ w.legacy))
  unfolding get_session read_record
  get_session-Has w id r e = elim (Option-cases (first_of P id (w.primary ∷ w.legacy))) [
    | inl h ↦ ground arith
    | inr (raw, h) ↦ first_of-Has id (w.primary ∷ w.legacy) raw h
  ]

  -- The listing has exactly the records that some id gives, those of the earlier homes included.
  pub list_sessions-get_session_iff :
      (w : Registry P) (r : SessionRecord)
      → Has r (list_sessions w) ↔ ((id : String) × (get_session P w id ≡ ok (some r)))
  unfolding list_sessions
  list_sessions-get_session_iff w r = (
    λ h. Has-read_all w ids r (by_created_at-Has r (read_all w ids) h),
    λ (id, e). Has-by_created_at r (read_all w ids) (
        read_all-Has w ids id r
          (Has-distinct id (entries (w.primary ∷ w.legacy)) (get_session-Has w id r e)) e),
  )
    where
      ids : List String
      ids = distinct (entries (w.primary ∷ w.legacy))
