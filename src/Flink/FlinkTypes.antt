-- ===== src/Flink/FlinkTypes.antt =====
-- processors/flink/flink_types_utils.py: the conversions between data types and the types of Flink.
pub mod RoundTrip
pub mod Nullability
mod Tests
use native.Mathlib.Decide.{ℕ_discrete}
use Prim.Native.String
use feathub.Prelude.{
  Bool, true, false, ◌&&◌, String, List, [], ◌∷◌, ℕ, ◌==◌, nat_eq, String_discrete, if◌then◌else◌,
}
use feathub.Errors.{Result, ok, err, feathub_type_exception, key_error, ◌>>=◌}
use feathub.Types.{BasicDType, DType, primitive_type, vector_type, map_type}

-- The subclasses of AtomicType, with what tells their values apart.
pub data AtomicType : Type 0 where
  var_binary tiny_int small_int int big_int float double boolean : AtomicType
  var_char timestamp : ℕ → AtomicType
  other_atomic : String → AtomicType

-- DataType; each type is nullable or not.
pub data DataType : Type 0 where
  atomic : AtomicType → Bool → DataType
  array : DataType → Bool → DataType
  map : DataType → DataType → Bool → DataType
  other : String → DataType

-- `DataTypes.STRING().length`
abbrev pub string_length : ℕ
string_length = 2147483647

-- type_mapping
unfoldable pub basic_type_to_flink_type : BasicDType → Result DataType
basic_type_to_flink_type BasicDType.bytes = ok (atomic var_binary true)
basic_type_to_flink_type BasicDType.string = ok (atomic (var_char string_length) true)
basic_type_to_flink_type BasicDType.int32 = ok (atomic int true)
basic_type_to_flink_type BasicDType.int64 = ok (atomic big_int true)
basic_type_to_flink_type BasicDType.float32 = ok (atomic float true)
basic_type_to_flink_type BasicDType.float64 = ok (atomic double true)
basic_type_to_flink_type BasicDType.boolean = ok (atomic boolean true)
basic_type_to_flink_type BasicDType.timestamp = ok (atomic (timestamp 3) true)
basic_type_to_flink_type BasicDType.unknown = err feathub_type_exception

unfoldable pub to_flink_type : DType → Result DataType
to_flink_type (primitive_type b) = basic_type_to_flink_type b
to_flink_type (vector_type d) = do t ← to_flink_type d; ok (array t true)
to_flink_type (map_type k v) = do
  key ← to_flink_type k
  value ← to_flink_type v
  ok (map key value true)

-- inverse_type_mapping, whose keys are classes
unfoldable pub atomic_type_to_basic_type : AtomicType → Result BasicDType
atomic_type_to_basic_type var_binary = ok BasicDType.bytes
atomic_type_to_basic_type (var_char n) = ok BasicDType.string
atomic_type_to_basic_type int = ok BasicDType.int32
atomic_type_to_basic_type big_int = ok BasicDType.int64
atomic_type_to_basic_type float = ok BasicDType.float32
atomic_type_to_basic_type double = ok BasicDType.float64
atomic_type_to_basic_type boolean = ok BasicDType.boolean
atomic_type_to_basic_type (timestamp n) = ok BasicDType.timestamp
atomic_type_to_basic_type _ = err feathub_type_exception

abbrev pub atomic_type_to_feathub_type : AtomicType → Result DType
atomic_type_to_feathub_type a = do b ← atomic_type_to_basic_type a; ok (primitive_type b)

abbrev pub array_type_to_feathub_type : DataType → Result DType
array_type_to_feathub_type (atomic a nullable) = do
  d ← atomic_type_to_feathub_type a
  ok (vector_type d)
array_type_to_feathub_type _ = err feathub_type_exception

unfoldable pub to_feathub_type : DataType → Result DType
to_feathub_type (atomic a nullable) = atomic_type_to_feathub_type a
to_feathub_type (array element nullable) = array_type_to_feathub_type element
to_feathub_type (map k v nullable) = do
  key ← to_feathub_type k
  value ← to_feathub_type v
  ok (map_type key value)
to_feathub_type (other name) = err feathub_type_exception

unfoldable pub DataType-discrete : Discrete DataType
DataType-discrete = hlevel (ℕ_discrete, String_discrete)

-- `==` on the types of Flink
abbrev pub type_beq : DataType → DataType → Bool
type_beq s t = elim (DataType-discrete s t) [ yes same ↦ true | no differ ↦ false ]

-- _get_data_type_with_same_nullability
unfoldable pub with_same_nullability : DataType → DataType → Result DataType
with_same_nullability (atomic a m) (atomic b n) =
    if type_beq (atomic b n) (atomic a m) then ok (atomic b n) else ok (atomic a n)
with_same_nullability (array a m) (array b n) =
    let converted = (do element ← with_same_nullability a b; ok (array element n)) in
    if type_beq (array b n) (array a m) then ok (array b n) else converted
with_same_nullability (map a c m) (map b d n) =
    let converted = (do
      key ← with_same_nullability a b
      value ← with_same_nullability c d
      ok (map key value n)) in
    if type_beq (map b d n) (map a c m) then ok (map b d n) else converted
with_same_nullability original reference =
    if type_beq reference original then ok reference else err feathub_type_exception

-- The columns that cast_field_type_without_changing_nullability casts, with their types; a table is
-- read through the types of its columns.
unfoldable pub casts :
    (String → Result DataType) → List (String × DataType) → Result (List (String × DataType))
casts field_data_type [] = ok []
casts field_data_type ((name, wanted) ∷ more) = do
  current ← field_data_type name
  target ← with_same_nullability wanted current
  rest ← casts field_data_type more
  ok (if type_beq target current then rest else (name, target) ∷ rest)

-- to_flink_sql_type, for Python's `str` of a number and of a type of Flink
module _ (str_number : ℕ → String) (str : DataType → String) where
  abbrev pub joined : List String → String
  joined [] = ""
  joined (s ∷ ss) = String.◌++◌ s (joined ss)

  unfoldable pub to_flink_sql_type : DataType → String
  to_flink_sql_type (atomic (var_char n) nullable) =
      if n == string_length then "STRING" else joined ("VARCHAR(" ∷ str_number n ∷ ")" ∷ [])
  to_flink_sql_type (atomic a nullable) = str (atomic a nullable)
  to_flink_sql_type (array element nullable) =
      joined ("ARRAY<" ∷ to_flink_sql_type element ∷ ">" ∷ [])
  to_flink_sql_type (map k v nullable) =
      joined ("MAP<" ∷ to_flink_sql_type k ∷ ", " ∷ to_flink_sql_type v ∷ ">" ∷ [])
  to_flink_sql_type (other name) = str (other name)
