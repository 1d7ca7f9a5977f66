-- ===== src/Session/Registry.antt =====
-- packages/core/src/session.ts: the session records on disk.
pub mod Laws
pub mod Listing
use pickforge.Base.{
  ℕ, zero, suc, String, Bool, true, false, ◌&&◌, ◌||◌, Option, none, some, List, [], ◌∷◌, ◌++◌, map,
  any, if◌then◌else◌, str_eq, leb, ltb, ◌==◌, length, every, All, ◌<◌, drop, lookup, erase, put,
  Result, ok, err, ◌>>=◌, bind_option, ◌≡◌, ◌+◌, ◌-◌,
}
use mathlib.Core.Option.{get_or}
use pickforge.Json.{Fields}
use pickforge.Takeover.Store.{SessionStatus, starting}
use pickforge.Session.Records.{
  SessionType, desktop, android, desktop_android, browser, DesktopSessionInfo, AndroidSessionInfo,
  BrowserSessionInfo, SessionRecord,
}

abbrev pub IsAscii : ℕ → Type 0
IsAscii c = c < 128

-- What the host gives: texts of files with `JSON.parse` and the print of a record, the character
-- codes of a text and the text of codes, and `localeCompare` as "not after".
pub record Platform : Type 1 where
  pub Text : Type 0
  pub parse : Text → Option SessionRecord
  pub print : SessionRecord → Text
  pub codes : String → List ℕ
  pub text : List ℕ → String
  pub codes-text : (cs : List ℕ) → All IsAscii cs → codes (text cs) ≡ cs
  pub locale_leb : String → String → Bool

-- `ID_PREFIXES`, with the dash.
abbrev pub id_prefix : SessionType → List ℕ
id_prefix desktop = 100 ∷ 101 ∷ 115 ∷ 107 ∷ 45 ∷ []
id_prefix android = 97 ∷ 110 ∷ 100 ∷ 114 ∷ 45 ∷ []
id_prefix desktop_android = 100 ∷ 117 ∷ 111 ∷ 45 ∷ []
id_prefix browser = 98 ∷ 114 ∷ 111 ∷ 119 ∷ 45 ∷ []

abbrev pub is_hex : ℕ → Bool
is_hex c = (leb 48 c && leb c 57) || (leb 97 c && leb c 102)

-- The rest of a text after a prefix, if it has the prefix.
abbrev after : List ℕ → List ℕ → Option (List ℕ)
after [] cs = some cs
after (p ∷ ps) [] = none
after (p ∷ ps) (c ∷ cs) = if p == c then after ps cs else none

abbrev six_hex : Option (List ℕ) → Bool
six_hex none = false
six_hex (some cs) = leb 6 (length cs) && every is_hex cs

abbrev pub has_form : List ℕ → SessionType → Bool
has_form cs t = six_hex (after (id_prefix t) cs)

abbrev pub hex_code : ℕ → ℕ
hex_code d = if ltb d 10 then 48 + d else 87 + d

-- `toString("hex")`, of bytes as pairs of digits.
abbrev pub hex : List (ℕ × ℕ) → List ℕ
hex [] = []
hex ((a, b) ∷ ds) = hex_code a ∷ hex_code b ∷ hex ds

pub record CreateSessionInput : Type 0 where
  pub type : SessionType
  pub project_dir : String
  pub title : Option String
  pub status : Option SessionStatus
  pub desktop_info : Option DesktopSessionInfo
  pub android_info : Option AndroidSessionInfo
  pub browser_info : Option BrowserSessionInfo
  pub meta : Option Fields

-- A property that the patch sets, to a value or to `undefined`. The type of a patch has no id, type or
-- creation time, but a caller that is not checked may pass them.
pub record SessionPatch : Type 0 where
  pub id : Option String
  pub type : Option SessionType
  pub created_at : Option String
  pub status : Option SessionStatus
  pub project_dir : Option String
  pub title : Option (Option String)
  pub desktop_info : Option (Option DesktopSessionInfo)
  pub android_info : Option (Option AndroidSessionInfo)
  pub browser_info : Option (Option BrowserSessionInfo)
  pub meta : Option (Option Fields)

pub data RegistryError : Type 0 where
  invalid_session_id session_not_found invalid_session_record no_unique_id : RegistryError

abbrev pub max_id_attempts : ℕ
max_id_attempts = 5

module _ (P : Platform) where
  open P use {Text, parse, print, codes, text, locale_leb}

  -- The record files of the sessions directory by id, those of the earlier homes, and the ids that
  -- a retained directory or marker reserves.
  pub record Registry : Type 0 where
    pub primary : List (String × Text)
    pub legacy : List (List (String × Text))
    pub reserved : List String

  unfoldable pub is_valid_session_id : String → Bool
  is_valid_session_id id =
      has_form (codes id) desktop
      || (has_form (codes id) android
          || (has_form (codes id) desktop_android || has_form (codes id) browser))

  unfoldable pub new_session_id : SessionType → List (ℕ × ℕ) → String
  new_session_id t bytes = text (id_prefix t ++ hex bytes)

  unfoldable pub first_of : String → List (List (String × Text)) → Option Text
  unfolding lookup
  first_of id [] = none
  first_of id (dir ∷ dirs) = elim (lookup id dir) [ none ↦ first_of id dirs | some raw ↦ some raw ]

  -- `sessionPathForRead`, with the read.
  unfoldable pub read_record : Registry → String → Option Text
  unfolding first_of
  read_record w id = first_of id (w.primary ∷ w.legacy)

  abbrev parse_record : Option Text → Result RegistryError (Option SessionRecord)
  parse_record none = ok none
  parse_record (some raw) = elim (parse raw) [
    | none ↦ err invalid_session_record
    | some r ↦ ok (some r)
  ]

  unfoldable pub get_session : Registry → String → Result RegistryError (Option SessionRecord)
  unfolding is_valid_session_id read_record
  get_session w id = if is_valid_session_id id then parse_record (read_record w id) else ok none

  unfoldable pub is_session_id_reserved : Registry → String → Bool
  is_session_id_reserved w id = any (str_eq id) w.reserved

  unfoldable pub build_record : CreateSessionInput → String → String → SessionRecord
  build_record input id created_at = record {
    id = id;
    type = input.type;
    created_at = created_at;
    status = get_or input.status starting;
    project_dir = input.project_dir;
    title = input.title;
    desktop_info = input.desktop_info;
    android_info = input.android_info;
    browser_info = input.browser_info;
    meta = input.meta;
  }

  -- The exclusive write: `none` is EEXIST.
  abbrev write_new : Registry → SessionRecord → Option (Registry × SessionRecord)
  write_new w r = elim (lookup r.id w.primary) [
    | none ↦ some (record w { primary = put r.id (print r) w.primary }, r)
    | some _ ↦ none
  ]

  unfoldable pub create_attempt :
      Registry → CreateSessionInput → String → String → Option (Registry × SessionRecord)
  unfolding is_session_id_reserved build_record lookup put
  create_attempt w input id created_at =
      if is_session_id_reserved w id then none else write_new w (build_record input id created_at)

  abbrev or_next :
      Option (Registry × SessionRecord)
      → Result RegistryError (Registry × SessionRecord)
      → Result RegistryError (Registry × SessionRecord)
  or_next none next = next
  or_next (some done) next = ok done

  -- The attempts that are left, the bytes that each of them draws, and its time.
  unfoldable pub create_loop :
      ℕ
      → Registry
      → CreateSessionInput
      → (ℕ → List (ℕ × ℕ))
      → (ℕ → String)
      → Result RegistryError (Registry × SessionRecord)
  unfolding create_attempt new_session_id
  create_loop zero w input draw clock = err no_unique_id
  create_loop (suc n) w input draw clock =
      or_next (create_attempt w input (new_session_id input.type (draw n)) (clock n))
        (create_loop n w input draw clock)

  unfoldable pub create_session :
      Registry
      → CreateSessionInput
      → (ℕ → List (ℕ × ℕ))
      → (ℕ → String)
      → Result RegistryError (Registry × SessionRecord)
  unfolding create_loop
  create_session = create_loop max_id_attempts

  -- `{ ...existing, ...patch }`
  abbrev spread : SessionRecord → SessionPatch → SessionRecord
  spread r p = record {
    id = get_or p.id r.id;
    type = get_or p.type r.type;
    created_at = get_or p.created_at r.created_at;
    status = get_or p.status r.status;
    project_dir = get_or p.project_dir r.project_dir;
    title = get_or p.title r.title;
    desktop_info = get_or p.desktop_info r.desktop_info;
    android_info = get_or p.android_info r.android_info;
    browser_info = get_or p.browser_info r.browser_info;
    meta = get_or p.meta r.meta;
  }

  unfoldable pub patched : SessionRecord → SessionPatch → SessionRecord
  patched r p = record (spread r p) { id = r.id; type = r.type; created_at = r.created_at }

  -- The write to the first directory that has the record.
  unfoldable pub write_first :
      String → Text → List (List (String × Text)) → Option (List (List (String × Text)))
  unfolding lookup put
  write_first id raw [] = none
  write_first id raw (dir ∷ dirs) =
      let rest = write_first id raw dirs in
      elim (lookup id dir) [
        | none ↦ bind_option rest λ dirs'. some (dir ∷ dirs')
        | some _ ↦ some (put id raw dir ∷ dirs)
      ]

  -- `writeFileAtomic(sessionPathForRead(id, env), …)`
  unfoldable pub write_record : Registry → String → Text → Registry
  unfolding lookup put write_first
  write_record w id raw = elim (lookup id w.primary) [
    | some _ ↦ record w { primary = put id raw w.primary }
    | none ↦ elim (write_first id raw w.legacy) [
      | none ↦ record w { primary = put id raw w.primary }
      | some dirs ↦ record w { legacy = dirs }
    ]
  ]

  abbrev write_patched :
      Registry
      → String
      → SessionPatch
      → Option SessionRecord
      → Result RegistryError (Registry × SessionRecord)
  write_patched w id p none = err session_not_found
  write_patched w id p (some existing) =
      ok (write_record w id (print (patched existing p)), patched existing p)

  unfoldable pub update_session :
      Registry → String → SessionPatch → Result RegistryError (Registry × SessionRecord)
  unfolding is_valid_session_id get_session write_record patched
  update_session w id p =
      if is_valid_session_id id
      then (get_session w id >>= write_patched w id p)
      else err invalid_session_id

  abbrev pub erase_all : String → List (List (String × Text)) → List (List (String × Text))
  erase_all id [] = []
  erase_all id (dir ∷ dirs) = erase id dir ∷ erase_all id dirs

  abbrev removed : Registry → String → Registry
  removed w id = record w { primary = erase id w.primary; legacy = erase_all id w.legacy }

  -- `destroySessionRecord`: a record that cannot be read stays, and the error is thrown.
  unfoldable pub destroy_session_record : Registry → String → Result RegistryError Registry
  unfolding is_valid_session_id get_session erase
  destroy_session_record w id =
      if is_valid_session_id id
      then (get_session w id >>= λ _. ok (removed w id))
      else err invalid_session_id
