-- ===== src/Agents/Objects.antt =====
-- Objects that JSON.parse has made: properties that are written and deleted, and their laws.
use pickforge.Base.{
  ◌≡◌, refl, String, str_eq, eq_iff, Bool, none, some, List, [], ◌∷◌, if◌then◌else◌, arith, any,
}
use pickforge.Json.{Json, Fields, end, field, get}

-- `{ ...fs, [k]: v }` and `next[k] = v`: a property that is there keeps its place.
unfoldable pub set_field : String → Json → Fields → Fields
set_field k v end = field k v end
set_field k v (field j w fs) = if str_eq j k then field j v fs else field j w (set_field k v fs)

-- `delete next[k]`
unfoldable pub delete_field : String → Fields → Fields
delete_field k end = end
delete_field k (field j v fs) =
    if str_eq j k then delete_field k fs else field j v (delete_field k fs)

-- `for (const name of names) delete next[name]`
unfoldable pub delete_fields : List String → Fields → Fields
delete_fields [] fs = fs
delete_fields (k ∷ ks) fs = delete_fields ks (delete_field k fs)

abbrev pub names_it : List String → String → Bool
names_it names k = any (λ j. str_eq j k) names

pub get-set_field :
    (j k : String) (v : Json) (fs : Fields)
    → get k (set_field j v fs) ≡ (if str_eq j k then some v else get k fs)
unfolding get set_field
get-set_field j k v end = refl
get-set_field j k v (field i w fs) =
    ground (arith, eq_iff i j, eq_iff i k, eq_iff j k, get-set_field j k v fs)

pub get-delete_field :
    (j k : String) (fs : Fields)
    → get k (delete_field j fs) ≡ (if str_eq j k then none else get k fs)
unfolding get delete_field
get-delete_field j k end = ground arith
get-delete_field j k (field i w fs) =
    ground (arith, eq_iff i j, eq_iff i k, eq_iff j k, get-delete_field j k fs)

pub get-delete_fields :
    (names : List String) (k : String) (fs : Fields)
    → get k (delete_fields names fs) ≡ (if names_it names k then none else get k fs)
unfolding delete_fields
get-delete_fields [] k fs = refl
get-delete_fields (j ∷ names) k fs =
    ground (arith, get-delete_fields names k (delete_field j fs), get-delete_field j k fs)
