-- ===== src/Common/Json.antt =====
-- JSON values, and the metadata that common/utils.py adds to an object and checks on it
-- (append_metadata_to_json, from_json). An object keeps its fields in the order of insertion.
use feathub.Prelude.{
  ◌≡◌, refl, Bool, false, ◌||◌, Option, none, some, String, arith, ◌==◌, string_eq, if◌then◌else◌,
  eq_iff, nat_eq,
}
use feathub.Errors.{Result, ok, err, feathub_exception, key_error, type_error}
use feathub.Prelude.Int.{ℤ, pos}

mutual
  pub data Json : Type 0 where
    null : Json
    bool : Bool → Json
    num : ℤ → Json
    str : String → Json
    arr : Items → Json
    obj : Fields → Json

  pub data Items : Type 0 where
    no_items : Items
    item : Json → Items → Items

  pub data Fields : Type 0 where
    no_fields : Fields
    field : String → Json → Fields → Fields

-- `json_dict[key]`
unfoldable pub field_at : String → Fields → Option Json
field_at k no_fields = none
field_at k (field j v fs) = if j == k then some v else field_at k fs

unfoldable pub has_field : String → Fields → Bool
has_field k no_fields = false
has_field k (field j v fs) = j == k || has_field k fs

-- A write of a key that is not there goes to the end.
unfoldable pub add_field : String → Json → Fields → Fields
add_field k v no_fields = field k v no_fields
add_field k v (field j w fs) = if j == k then field j v fs else field j w (add_field k v fs)

abbrev pub json_format_version : ℤ
json_format_version = pos 1

-- The wrapper around a `to_json` method whose class has the full name `class_name`.
unfoldable pub append_metadata_to_json : String → Fields → Result Json
unfolding has_field add_field
append_metadata_to_json class_name fs =
    if has_field "class" fs || has_field "version" fs
    then err feathub_exception
    else ok (
        obj (add_field "version" (num json_format_version) (add_field "class" (str class_name) fs)))

-- `v == 1`; in Python `True == 1`
abbrev is_version : Json → Bool
is_version (num (pos n)) = n == 1
is_version (bool b) = b
is_version _ = false

abbrev class_of : Option Json → Result String
class_of none = err key_error
class_of (some (str c)) = ok c
class_of (some _) = err type_error

-- The test of the version and the class to dispatch on: the part of `from_json` before the call of
-- the class's own `from_json`.
unfoldable pub json_class : Fields → Result String
unfolding field_at
json_class fs = elim (field_at "version" fs) [
  | none ↦ err key_error
  | some v ↦ if is_version v then class_of (field_at "class" fs) else err feathub_exception
]

-- What the wrapper wrote is read back: every key but the two of the metadata has its value.
pub field_at-add_field :
    (k j : String) (v : Json) (fs : Fields)
    → field_at j (add_field k v fs) ≡ (if k == j then some v else field_at j fs)
unfolding field_at add_field
field_at-add_field k j v no_fields = refl
field_at-add_field k j v (field i w fs) =
    ground (arith, eq_iff k j, eq_iff i k, eq_iff i j, field_at-add_field k j v fs)
