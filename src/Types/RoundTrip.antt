-- ===== src/Types/RoundTrip.antt =====
-- to_json and from_json of the data types (common/types.py), with the metadata of common/utils.py.
use feathub.Prelude.{
  ◌≡◌, refl, String, List, [], ◌∷◌, Option, none, some, ◌==◌, string_eq, if◌then◌else◌,
}
use feathub.Dict.{get}
use feathub.Errors.{Result, ok, err, key_error, type_error, attribute_error, ◌>>=◌}
use feathub.Common.Json.{
  Json, Fields, str, num, obj, no_fields, field, append_metadata_to_json, json_class, field_at,
  json_format_version,
}
use feathub.Types.{
  BasicDType, DType, primitive_type, vector_type, map_type, unknown, bytes, string, int32, int64,
  float64, float32, boolean, timestamp,
}

-- `basic_dtype.name`
unfoldable pub basic_name : BasicDType → String
basic_name unknown = "UNKNOWN"
basic_name bytes = "BYTES"
basic_name string = "STRING"
basic_name int32 = "INT32"
basic_name int64 = "INT64"
basic_name float64 = "FLOAT64"
basic_name float32 = "FLOAT32"
basic_name boolean = "BOOL"
basic_name timestamp = "TIMESTAMP"

abbrev members : List (String × BasicDType)
members =
    ("UNKNOWN", unknown)
    ∷ ("BYTES", bytes)
    ∷ ("STRING", string)
    ∷ ("INT32", int32)
    ∷ ("INT64", int64)
    ∷ ("FLOAT64", float64)
    ∷ ("FLOAT32", float32)
    ∷ ("BOOL", boolean)
    ∷ ("TIMESTAMP", timestamp)
    ∷ []

-- `BasicDType[name]`
unfoldable pub basic_of_name : Option Json → Result BasicDType
unfolding get
basic_of_name (some (str name)) = elim (get name members) [ none ↦ err key_error | some b ↦ ok b ]
basic_of_name none = err key_error
basic_of_name (some _) = err key_error

abbrev primitive_class : String
primitive_class = "feathub.common.types.PrimitiveType"

abbrev vector_class : String
vector_class = "feathub.common.types.VectorType"

abbrev map_class : String
map_class = "feathub.common.types.MapType"

unfoldable pub to_json : DType → Result Json
unfolding append_metadata_to_json basic_name
to_json (primitive_type b) =
    append_metadata_to_json primitive_class (field "basic_dtype" (str (basic_name b)) no_fields)
to_json (vector_type d) = do
  j ← to_json d
  append_metadata_to_json vector_class (field "dtype" j no_fields)
to_json (map_type k v) = do
  j ← to_json k
  i ← to_json v
  append_metadata_to_json map_class (field "key_dtype" j (field "value_dtype" i no_fields))

abbrev Parts : Type 0
Parts = List (String × Result DType)

-- `from_json(json_dict[key])`, where `parts` holds the outcome for each field.
abbrev part : String → Parts → Result DType
part k parts = elim (get k parts) [ none ↦ err key_error | some r ↦ r ]

-- The test of the metadata, and the class method that it leads to. A class that is no data type is
-- left out: it counts as missing.
unfoldable pub decode : Fields → Parts → Result DType
unfolding json_class basic_of_name get
decode fs parts = do
  c ← json_class fs
  if c == primitive_class
      then (do b ← basic_of_name (field_at "basic_dtype" fs); ok (primitive_type b))
      else if c == vector_class
      then (do d ← part "dtype" parts; ok (vector_type d))
      else if c == map_class
      then (do k ← part "key_dtype" parts; v ← part "value_dtype" parts; ok (map_type k v))
      else err attribute_error

-- A value is read after its fields; the fields that the class does not ask for play no part.
unfoldable mutual
  unfolding decode

  pub from_json : Json → Result DType
  from_json (obj fs) = decode fs (from_fields fs)
  from_json _ = err type_error

  pub from_fields : Fields → List (String × Result DType)
  from_fields no_fields = []
  from_fields (field k j fs) = (k, from_json j) ∷ from_fields fs

abbrev metadata : String → Fields
metadata class_name =
    field "class" (str class_name) (field "version" (num json_format_version) no_fields)

from_json-primitive :
    (b : BasicDType)
    → (j : Json) × (to_json (primitive_type b) ≡ ok j) × (from_json j ≡ ok (primitive_type b))
unfolding to_json from_json
from_json-primitive unknown = (_, refl, refl)
from_json-primitive _ = (_, refl, refl)

-- Every data type is written without an exception, and what is written is read back as it was.
pub from_json-to_json : (d : DType) → (j : Json) × (to_json d ≡ ok j) × (from_json j ≡ ok d)
unfolding to_json from_json
from_json-to_json (primitive_type b) = from_json-primitive b
from_json-to_json (vector_type d) =
    let (j, p, q) = from_json-to_json d in
    (obj (field "dtype" j (metadata vector_class)), rw p refl, rw q refl)
from_json-to_json (map_type k v) =
    let (j, p, q) = from_json-to_json k in
    let (i, r, s) = from_json-to_json v in
    (
      obj (field "key_dtype" j (field "value_dtype" i (metadata map_class))),
      rw (p, r) refl,
      rw (q, s) refl,
    )
