-- ===== src/Config/Precedence.antt =====
-- packages/core/src/config.ts: which layer a value of the merged configuration comes from.
use pickforge.Base.{
  ◌≡◌, refl, subst, ◌∙◌, ap, String, str_eq, eq_iff, Bool, true, false, Option, none, some, ok,
  if◌then◌else◌, arith, Result-cases, Bool-cases, inl, inr,
}
use pickforge.Json.{Json, Fields, undefined, null, bool, num, str, arr, obj, end, field, get, prop}
use pickforge.Agents.Objects.{set_field, get-set_field}
use pickforge.Config.Merge.{
  deep_merge, object_or_empty, section, is_evidence_enabled, resolved_defaults, ConfigFile,
  read_config_file, load_config,
}

-- The names of an object are distinct, as they are in one that was parsed.
abbrev pub Distinct : Fields → Type 0
Distinct end = Unit
Distinct (field k v fs) = (get k fs ≡ none) × Distinct fs

-- A value of two layers: the upper one's, if it is there and not `undefined`; two objects merge.
unfoldable pub layered : Option Json → Option Json → Option Json
layered lower none = lower
layered lower (some undefined) = lower
layered lower (some (obj value)) = some (obj (deep_merge (object_or_empty lower) value))
layered lower (some value) = some value

layered-none : (lower : Option Json) → layered lower none ≡ lower
unfolding layered
layered-none lower = refl

-- A property of the overlay that is not `undefined`, after which the others are merged.
one_more :
    (j k : String) (base fs merged : Fields) (value value' : Json)
    → get k merged ≡ layered (get k (set_field j value' base)) (get k fs)
    → get j fs ≡ none
    → layered (get j base) (some value) ≡ some value'
    → get k merged ≡ layered (get k base) (if str_eq j k then some value else get k fs)
one_more j k base fs merged value value' others alone here = elim (Bool-cases (str_eq j k)) [
  | inl same ↦ cc (
    others,
    alone,
    here,
    same,
    (eq_iff j k).0 same,
    get-set_field j k value' base,
    layered-none (some value'),
  )
  | inr different ↦ cc (others, different, get-set_field j k value' base)
]

skipped :
    (j k : String) (base fs merged : Fields)
    → get k merged ≡ layered (get k base) (get k fs)
    → get j fs ≡ none
    → layered (get k base) (some undefined) ≡ get k base
    → get k merged ≡ layered (get k base) (if str_eq j k then some undefined else get k fs)
skipped j k base fs merged others alone here = elim (Bool-cases (str_eq j k)) [
  | inl same ↦ cc (others, alone, here, same, (eq_iff j k).0 same, layered-none (get k base))
  | inr different ↦ cc (others, different)
]

-- A property of a merged object is the upper layer's, merged with the lower layer's where both are objects.
pub get-deep_merge :
    (k : String) (base overlay : Fields)
    → Distinct overlay
    → get k (deep_merge base overlay) ≡ layered (get k base) (get k overlay)
unfolding deep_merge get layered
get-deep_merge k base end d = refl
get-deep_merge k base (field j undefined overlay) d =
    skipped j k base overlay _ (get-deep_merge k base overlay (d.1)) (d.0) refl
get-deep_merge k base (field j (obj value) overlay) d =
    one_more j k base overlay _ (obj value) _
      (get-deep_merge k (set_field j (obj (deep_merge (object_or_empty (get j base)) value)) base)
        overlay (d.1))
      (d.0) refl
get-deep_merge k base (field j null overlay) d =
    one_more j k base overlay _ null _ (get-deep_merge k (set_field j null base) overlay (d.1))
      (d.0) refl
get-deep_merge k base (field j (bool b) overlay) d =
    one_more j k base overlay _ (bool b) _
      (get-deep_merge k (set_field j (bool b) base) overlay (d.1)) (d.0) refl
get-deep_merge k base (field j (num n) overlay) d =
    one_more j k base overlay _ (num n) _
      (get-deep_merge k (set_field j (num n) base) overlay (d.1)) (d.0) refl
get-deep_merge k base (field j (str s) overlay) d =
    one_more j k base overlay _ (str s) _
      (get-deep_merge k (set_field j (str s) base) overlay (d.1)) (d.0) refl
get-deep_merge k base (field j (arr items) overlay) d =
    one_more j k base overlay _ (arr items) _
      (get-deep_merge k (set_field j (arr items) base) overlay (d.1)) (d.0) refl

-- A value that replaces the one below it.
abbrev pub is_leaf : Json → Bool
is_leaf undefined = false
is_leaf (obj fs) = false
is_leaf v = true

layered-is_leaf :
    (lower : Option Json) (v : Json) → is_leaf v ≡ true → layered lower (some v) ≡ some v
unfolding layered
layered-is_leaf lower undefined h = ground arith
layered-is_leaf lower (obj fs) h = ground arith
layered-is_leaf lower null h = refl
layered-is_leaf lower (bool b) h = refl
layered-is_leaf lower (num n) h = refl
layered-is_leaf lower (str s) h = refl
layered-is_leaf lower (arr items) h = refl

-- A setting of a section of the upper layer is that of the merged object.
get-section-deep_merge :
    (s k : String) (base overlay upper : Fields) (v : Json)
    → Distinct overlay
    → Distinct upper
    → get s overlay ≡ some (obj upper)
    → get k upper ≡ some v
    → is_leaf v ≡ true
    → get k (section s (deep_merge base overlay)) ≡ some v
unfolding layered
get-section-deep_merge s k base overlay upper v d d' is_section is_setting leaf =
    let merged = get-deep_merge s base overlay d in
    let lower = object_or_empty (get s base) in
    let inner = get-deep_merge k lower upper d' in
    let found : section s (deep_merge base overlay) ≡ deep_merge lower upper =
      cc (merged, is_section) in
    ap (get k) found
    ∙ (inner ∙ (ap (layered (get k lower)) is_setting ∙ layered-is_leaf (get k lower) v leaf))

-- Where the names of the project's object and of its section are distinct, a setting of the section
-- that is neither `undefined` nor an object is the loaded one, whatever the global file and the
-- defaults have.
pub load_config-project :
    (global_file project_file : ConfigFile) (project upper config : Fields) (s k : String)
    (v : Json)
    → load_config global_file project_file ≡ ok config
    → read_config_file project_file ≡ ok project
    → Distinct project
    → Distinct upper
    → get s project ≡ some (obj upper)
    → get k upper ≡ some v
    → is_leaf v ≡ true
    → get k (section s config) ≡ some v
unfolding load_config
load_config-project global_file project_file project upper config s k v e read d d' is_section
      is_setting leaf =
    elim (Result-cases (read_config_file global_file)) [
      | inl (global, got) ↦
          let base = deep_merge (deep_merge end resolved_defaults) global in
          let merged : deep_merge base project ≡ config = ground (arith, e, got, read) in
          subst (λ c. get k (section s c) ≡ some v) merged
            (get-section-deep_merge s k base project upper v d d' is_section is_setting leaf)
      | inr (thrown, got) ↦ let absurd : ⊥ = ground (arith, e, got) in elim absurd [ ]
    ]

-- Evidence is off after a load if the project's file turns it off.
pub load_config-is_evidence_enabled :
    (global_file project_file : ConfigFile) (project upper config : Fields)
    → load_config global_file project_file ≡ ok config
    → read_config_file project_file ≡ ok project
    → Distinct project
    → Distinct upper
    → get "evidence" project ≡ some (obj upper)
    → get "enabled" upper ≡ some (bool false)
    → is_evidence_enabled config ≡ false
unfolding is_evidence_enabled prop
load_config-is_evidence_enabled global_file project_file project upper config e read d d' is_section
      is_setting =
    let found =
      load_config-project global_file project_file project upper config "evidence" "enabled"
        (bool false) e read d d' is_section is_setting refl in
    ground (arith, found)
