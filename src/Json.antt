-- ===== src/Json.antt =====
-- Values as `JSON.parse` gives them, and the tests that the sources make on them.
-- `undefined` is there too, since the same checks run on messages that a hook built.
use pickforge.Base.{ℕ, String, str_eq, Bool, true, false, Option, none, some, if◌then◌else◌}

-- A number: a non-negative integer, another finite number (by a code), or an infinity or NaN.
pub data Number : Type 0 where
  nat : ℕ → Number
  other : ℕ → Number
  infinite : Number

mutual
  pub data Json : Type 0 where
    undefined null : Json
    bool : Bool → Json
    num : Number → Json
    str : String → Json
    arr : Items → Json
    obj : Fields → Json

  pub data Items : Type 0 where
    nil : Items
    cons : Json → Items → Items

  pub data Fields : Type 0 where
    end : Fields
    field : String → Json → Fields → Fields

-- The value of a property, if the object has it. Names are distinct in a parsed object.
unfoldable pub get : String → Fields → Option Json
get k end = none
get k (field j v fs) = if str_eq j k then some v else get k fs

abbrev pub value_or_undefined : Option Json → Json
value_or_undefined none = undefined
value_or_undefined (some v) = v

-- `fs[k]`
unfoldable pub prop : String → Fields → Json
prop k fs = value_or_undefined (get k fs)

abbrev pub is_some {ℓ} : {A : Type ℓ} → Option A → Bool
is_some none = false
is_some (some _) = true

-- `k in fs`
unfoldable pub has : String → Fields → Bool
has k fs = is_some (get k fs)

abbrev pub is_undefined : Json → Bool
is_undefined undefined = true
is_undefined _ = false

abbrev pub is_null : Json → Bool
is_null null = true
is_null _ = false

abbrev pub is_string : Json → Bool
is_string (str _) = true
is_string _ = false

-- `typeof v === "number"`
abbrev pub is_number : Json → Bool
is_number (num _) = true
is_number _ = false

abbrev pub is_finite : Number → Bool
is_finite infinite = false
is_finite _ = true

abbrev pub is_finite_number : Json → Bool
is_finite_number (num n) = is_finite n
is_finite_number _ = false

abbrev pub is_array : Json → Bool
is_array (arr _) = true
is_array _ = false

abbrev pub is_object : Json → Bool
is_object (obj _) = true
is_object _ = false
