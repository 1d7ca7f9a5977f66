-- ===== src/Session/Registry/Laws.antt =====
-- packages/core/src/session.ts: what the operations on the records do to one another.
use pickforge.Base.{
  ℕ, zero, suc, ◌+◌, ◌≤◌, ◌<◌, ◌≡◌, ◌≢◌, inl, inr, refl, sym, ap, ◌∙◌, String, true, false, none,
  some, Option-cases, List, [], ◌∷◌, ◌++◌, All, All-append, every, length, lookup, put,
  lookup-erase, lookup-erase_other, lookup-put, lookup-put_other, ok, Result-cases, arith,
}
use pickforge.Session.Records.{
  SessionType, desktop, android, desktop_android, browser, SessionRecord,
}
use pickforge.Session.Registry.{
  Platform, IsAscii, is_hex, hex_code, hex, id_prefix, CreateSessionInput, SessionPatch, Registry,
  is_valid_session_id, new_session_id, read_record, first_of, get_session, is_session_id_reserved,
  build_record, create_attempt, create_loop, create_session, patched, write_first, write_record,
  update_session, erase_all, destroy_session_record,
}

-- Bytes as the pairs of digits that they are printed as.
abbrev pub IsByte : ℕ × ℕ → Type 0
IsByte (a, b) = (a < 16) × (b < 16)

hex_code-is_hex : (d : ℕ) → d < 16 → is_hex (hex_code d) ≡ true
hex_code-is_hex d h = ground arith

hex-every : (bs : List (ℕ × ℕ)) → All IsByte bs → every is_hex (hex bs) ≡ true
hex-every [] h = refl
hex-every ((a, b) ∷ bs) h =
    ground (arith, hex_code-is_hex a h.0.0, hex_code-is_hex b h.0.1, hex-every bs h.1)

hex-All : (bs : List (ℕ × ℕ)) → All IsByte bs → All IsAscii (hex bs)
hex-All [] h = tt
hex-All ((a, b) ∷ bs) h = (ground (arith, h.0.0), (ground (arith, h.0.1), hex-All bs h.1))

id_prefix-All : (t : SessionType) → All IsAscii (id_prefix t)
id_prefix-All desktop = ground arith
id_prefix-All android = ground arith
id_prefix-All desktop_android = ground arith
id_prefix-All browser = ground arith

new_codes :
    (t : SessionType) (bs : List (ℕ × ℕ)) → All IsByte bs → All IsAscii (id_prefix t ++ hex bs)
new_codes t bs h = All-append IsAscii (id_prefix t) (hex bs) (id_prefix-All t) (hex-All bs h)

hex-length : (bs : List (ℕ × ℕ)) → length (hex bs) ≡ length bs + length bs
hex-length [] = refl
hex-length ((a, b) ∷ bs) = omega (arith, hex-length bs)

module _ (P : Platform) where
  open P use {Text, parse, print, codes, text, codes-text}

  -- An id that the program draws, of at least three bytes, has the form that every operation on
  -- ids asks for.
  pub new_session_id-is_valid_session_id :
      (t : SessionType) (bs : List (ℕ × ℕ))
      → All IsByte bs
      → 3 ≤ length bs
      → is_valid_session_id P (new_session_id P t bs) ≡ true
  unfolding is_valid_session_id new_session_id
  new_session_id-is_valid_session_id desktop bs h l = ground (
    arith,
    codes-text (id_prefix desktop ++ hex bs) (new_codes desktop bs h),
    hex-every bs h,
    hex-length bs,
  )
  new_session_id-is_valid_session_id android bs h l = ground (
    arith,
    codes-text (id_prefix android ++ hex bs) (new_codes android bs h),
    hex-every bs h,
    hex-length bs,
  )
  new_session_id-is_valid_session_id desktop_android bs h l = ground (
    arith,
    codes-text (id_prefix desktop_android ++ hex bs) (new_codes desktop_android bs h),
    hex-every bs h,
    hex-length bs,
  )
  new_session_id-is_valid_session_id browser bs h l = ground (
    arith,
    codes-text (id_prefix browser ++ hex bs) (new_codes browser bs h),
    hex-every bs h,
    hex-length bs,
  )

  -- What an attempt that succeeds did.
  abbrev Written : Registry P → Registry P → String → SessionRecord → Type 0
  Written w w' id r =
      (r.id ≡ id)
      × ((lookup id w.primary ≡ none)
          × ((is_session_id_reserved P w id ≡ false)
              × (w' ≡ record w { primary = put id (print r) w.primary })))

  create_attempt-Written :
      (w w' : Registry P) (input : CreateSessionInput) (id created_at : String) (r : SessionRecord)
      → create_attempt P w input id created_at ≡ some (w', r)
      → Written w w' id r
  unfolding create_attempt build_record
  create_attempt-Written w w' input id created_at r e = ground arith

  abbrev pub Created :
      Registry P → Registry P → CreateSessionInput → SessionRecord → (ℕ → List (ℕ × ℕ)) → Type 0
  Created w w' input r draw = (n : ℕ) × Written w w' (new_session_id P input.type (draw n)) r

  create_loop-Created :
      (n : ℕ) (w w' : Registry P) (input : CreateSessionInput) (draw : ℕ → List (ℕ × ℕ))
      (clock : ℕ → String) (r : SessionRecord)
      → create_loop P n w input draw clock ≡ ok (w', r)
      → Created w w' input r draw
  unfolding create_loop
  create_loop-Created zero w w' input draw clock r e = ground arith
  create_loop-Created (suc n) w w' input draw clock r e =
      elim (Option-cases
        (create_attempt P w input (new_session_id P input.type (draw n)) (clock n))) [
          | inl h ↦ create_loop-Created n w w' input draw clock r (ground arith)
          | inr (done, h) ↦ (
            n,
            create_attempt-Written w w' input (new_session_id P input.type (draw n)) (clock n) r
                (ground arith),
          )
        ]

  -- A read looks in the primary directory first.
  pub read_record-put :
      (w : Registry P) (id : String) (raw : Text)
      → read_record P (record w { primary = put id raw w.primary }) id ≡ some raw
  unfolding read_record first_of
  read_record-put w id raw = ground (arith, lookup-put id raw w.primary)

  -- The text of the record is parsed as the record: JSON has no `undefined` and no infinity or NaN, so
  -- that a record with one of them is not.
  abbrev pub ReadsBack : SessionRecord → Type 0
  ReadsBack r = parse (print r) ≡ some r

  pub get_session-read :
      (w : Registry P) (id : String) (r : SessionRecord)
      → ReadsBack r
      → is_valid_session_id P id ≡ true
      → read_record P w id ≡ some (print r)
      → get_session P w id ≡ ok (some r)
  unfolding get_session
  get_session-read w id r back v e = ground (arith, back)

  -- A write under one id keeps what the others read.
  get_session-put_other :
      (w : Registry P) (id j : String) (raw : Text)
      → j ≢ id
      → get_session P (record w { primary = put id raw w.primary }) j ≡ get_session P w j
  unfolding get_session read_record first_of
  get_session-put_other w id j raw h = ground (arith, lookup-put_other j id raw w.primary h)

  -- What the other operations see of a record that was just written.
  abbrev pub Visible : Registry P → Registry P → SessionRecord → Type 0
  Visible w w' r =
      (get_session P w' r.id ≡ ok (some r))
      × ((lookup r.id w.primary ≡ none)
          × ((is_session_id_reserved P w r.id ≡ false)
              × ((id : String) → id ≢ r.id → get_session P w' id ≡ get_session P w id)))

  Written-Visible :
      (w w' : Registry P) (id : String) (r : SessionRecord)
      → ReadsBack r
      → is_valid_session_id P id ≡ true
      → Written w w' id r
      → Visible w w' r
  Written-Visible w w' id r back v h = (
    ap (get_session P w') h.0
        ∙ get_session-read w' id r back v
            (ap (λ x. read_record P x id) h.1.1.1 ∙ read_record-put w id (print r)),
    (
      ap (λ i. lookup i w.primary) h.0 ∙ h.1.0,
      (
        ap (is_session_id_reserved P w) h.0 ∙ h.1.1.0,
        λ j n.
            ap (λ x. get_session P x j) h.1.1.1
            ∙ get_session-put_other w id j (print r) (λ q. n (q ∙ sym h.0)),
      ),
    ),
  )

  -- A session that was created, with ids drawn of at least three bytes and a record that JSON reads
  -- back as it was written, is the one that its id gives;
  -- the sessions directory had no record of its id and no directory or marker that reserves it, and
  -- the records of all other ids stay as they are.
  pub get_session-create_session :
      (w w' : Registry P) (input : CreateSessionInput) (draw : ℕ → List (ℕ × ℕ))
      (clock : ℕ → String) (r : SessionRecord)
      → ((n : ℕ) → All IsByte (draw n) × (3 ≤ length (draw n)))
      → ReadsBack r
      → create_session P w input draw clock ≡ ok (w', r)
      → Visible w w' r
  unfolding create_session
  get_session-create_session w w' input draw clock r bytes back e =
      let c = create_loop-Created 5 w w' input draw clock r e in
      Written-Visible w w' (new_session_id P input.type (draw c.0)) r back
        (new_session_id-is_valid_session_id input.type (draw c.0) (bytes c.0).0 (bytes c.0).1) c.1

  -- A write goes where reads look, and nowhere else.
  write_first-first_of :
      (id : String) (raw : Text) (dirs dirs' : List (List (String × Text)))
      → write_first P id raw dirs ≡ some dirs'
      → first_of P id dirs' ≡ some raw
  unfolding write_first first_of
  write_first-first_of id raw [] dirs' e = ground arith
  write_first-first_of id raw (dir ∷ dirs) dirs' e =
      elim (Option-cases (write_first P id raw dirs)) [
        | inl h ↦ ground (arith, lookup-put id raw dir)
        | inr (rest, h) ↦
            ground (arith, lookup-put id raw dir, write_first-first_of id raw dirs rest h)
      ]

  write_first-other :
      (id j : String) (raw : Text) (dirs dirs' : List (List (String × Text)))
      → j ≢ id
      → write_first P id raw dirs ≡ some dirs'
      → first_of P j dirs' ≡ first_of P j dirs
  unfolding write_first first_of
  write_first-other id j raw [] dirs' n e = ground arith
  write_first-other id j raw (dir ∷ dirs) dirs' n e =
      elim (Option-cases (write_first P id raw dirs)) [
        | inl h ↦ ground (arith, lookup-put_other j id raw dir n)
        | inr (rest, h) ↦
            ground
              (arith, lookup-put_other j id raw dir n, write_first-other id j raw dirs rest n h)
      ]

  read_record-write_record :
      (w : Registry P) (id : String) (raw : Text)
      → read_record P (write_record P w id raw) id ≡ some raw
  unfolding write_record read_record first_of
  read_record-write_record w id raw = elim (Option-cases (write_first P id raw w.legacy)) [
    | inl h ↦ ground (arith, h, lookup-put id raw w.primary)
    | inr (dirs, h) ↦
        ground (arith, h, lookup-put id raw w.primary, write_first-first_of id raw w.legacy dirs h)
  ]

  read_record-write_record_other :
      (w : Registry P) (id j : String) (raw : Text)
      → j ≢ id
      → read_record P (write_record P w id raw) j ≡ read_record P w j
  unfolding write_record read_record first_of
  read_record-write_record_other w id j raw n =
      elim (Option-cases (write_first P id raw w.legacy)) [
        | inl h ↦ ground (arith, h, lookup-put_other j id raw w.primary n)
        | inr (dirs, h) ↦ ground (
          arith,
          h,
          lookup-put_other j id raw w.primary n,
          write_first-other id j raw w.legacy dirs n h,
        )
      ]

  -- What an update that succeeds did.
  abbrev Updated : Registry P → Registry P → String → SessionPatch → SessionRecord → Type 0
  Updated w w' id p r =
      (existing : SessionRecord) × ((is_valid_session_id P id ≡ true)
        × ((get_session P w id ≡ ok (some existing))
            × ((r ≡ patched P existing p) × (w' ≡ write_record P w id (print r)))))

  update_session-Updated :
      (w w' : Registry P) (id : String) (p : SessionPatch) (r : SessionRecord)
      → update_session P w id p ≡ ok (w', r)
      → Updated w w' id p r
  unfolding update_session
  update_session-Updated w w' id p r e = elim (Result-cases (get_session P w id)) [
    | inr (x, h) ↦ ground arith
    | inl (o, h) ↦ elim (Option-cases o) [
      | inl ho ↦ ground arith
      | inr (existing, ho) ↦
          (existing, (ground arith, (h ∙ ap ok ho, (ground arith, ground arith))))
    ]
  ]

  patched-keeps :
      (r : SessionRecord) (p : SessionPatch)
      → ((patched P r p).id ≡ r.id)
        × (((patched P r p).type ≡ r.type) × ((patched P r p).created_at ≡ r.created_at))
  unfolding patched
  patched-keeps r p = (refl, (refl, refl))

  get_session-write_record_other :
      (w : Registry P) (id j : String) (raw : Text)
      → j ≢ id
      → get_session P (write_record P w id raw) j ≡ get_session P w j
  unfolding get_session
  get_session-write_record_other w id j raw n =
      ground (arith, read_record-write_record_other w id j raw n)

  -- An update that succeeds, with a new record that JSON reads back as it was written, patches the
  -- record that the id gave, whose id, type and creation time stay, whatever the patch names; the id
  -- then gives the patched record, whichever home held it, and the records of all other ids stay as
  -- they are.
  pub get_session-update_session :
      (w w' : Registry P) (id : String) (p : SessionPatch) (r : SessionRecord)
      → ReadsBack r
      → update_session P w id p ≡ ok (w', r)
      → (existing : SessionRecord) × ((get_session P w id ≡ ok (some existing))
          × ((r ≡ patched P existing p)
              × (((r.id ≡ existing.id)
                    × ((r.type ≡ existing.type) × (r.created_at ≡ existing.created_at)))
                  × ((get_session P w' id ≡ ok (some r))
                      × ((j : String) → j ≢ id → get_session P w' j ≡ get_session P w j)))))
  get_session-update_session w w' id p r back e =
      let u = update_session-Updated w w' id p r e in
      let keeps = patched-keeps u.0 p in
      let at_id =
        get_session-read (write_record P w id (print r)) id r back u.1.0
          (read_record-write_record w id (print r)) in
      (
        u.0,
        (
          u.1.1.0,
          (
            u.1.1.1.0,
            (
              (
                ap (λ x. x.id) u.1.1.1.0 ∙ keeps.0,
                (
                  ap (λ x. x.type) u.1.1.1.0 ∙ keeps.1.0,
                  ap (λ x. x.created_at) u.1.1.1.0 ∙ keeps.1.1,
                ),
              ),
              (
                ap (λ x. get_session P x id) u.1.1.1.1 ∙ at_id,
                λ j n.
                    ap (λ x. get_session P x j) u.1.1.1.1
                    ∙ get_session-write_record_other w id j (print r) n,
              ),
            ),
          ),
        ),
      )

  first_of-erase_all :
      (id : String) (dirs : List (List (String × Text)))
      → first_of P id (erase_all P id dirs) ≡ none
  unfolding first_of
  first_of-erase_all id [] = refl
  first_of-erase_all id (dir ∷ dirs) =
      ground (arith, lookup-erase id dir, first_of-erase_all id dirs)

  first_of-erase_all_other :
      (id j : String) (dirs : List (List (String × Text)))
      → j ≢ id
      → first_of P j (erase_all P id dirs) ≡ first_of P j dirs
  unfolding first_of
  first_of-erase_all_other id j [] n = refl
  first_of-erase_all_other id j (dir ∷ dirs) n =
      ground (arith, lookup-erase_other j id dir n, first_of-erase_all_other id j dirs n)

  -- A destroyed session's id gives no record, also where older homes held copies of it, and the
  -- records of all other ids stay as they are.
  pub get_session-destroy_session_record :
      (w w' : Registry P) (id : String)
      → destroy_session_record P w id ≡ ok w'
      → (get_session P w' id ≡ ok none)
        × ((j : String) → j ≢ id → get_session P w' j ≡ get_session P w j)
  unfolding destroy_session_record get_session read_record first_of
  get_session-destroy_session_record w w' id e = (
    ground (arith, lookup-erase id w.primary, first_of-erase_all id w.legacy),
    λ j n.
        ground
          (arith, lookup-erase_other j id w.primary n, first_of-erase_all_other id j w.legacy n),
  )
