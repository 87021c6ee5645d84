-- ===== src/Spark/SparkTypes.antt =====
-- processors/spark/spark_types_utils.py: the conversions between data types and the types of Spark.
pub mod RoundTrip
mod Tests
use feathub.Prelude.{String, List, [], ◌∷◌}
use feathub.Errors.{Result, ok, err, feathub_type_exception, ◌>>=◌, traverse}
use feathub.Types.{BasicDType, DType, primitive_type, vector_type, map_type}
use feathub.Schema.{Schema}

-- The subclasses of AtomicType.
pub data AtomicType : Type 0 where
  binary_type string_type integer_type long_type float_type double_type : AtomicType
  boolean_type timestamp_type : AtomicType
  other_atomic : String → AtomicType

pub data DataType : Type 0 where
  atomic : AtomicType → DataType
  array : DataType → DataType
  map : DataType → DataType → DataType
  other : String → DataType

-- type_mapping
unfoldable pub basic_type_to_spark_type : BasicDType → Result DataType
basic_type_to_spark_type BasicDType.bytes = ok (atomic binary_type)
basic_type_to_spark_type BasicDType.string = ok (atomic string_type)
basic_type_to_spark_type BasicDType.int32 = ok (atomic integer_type)
basic_type_to_spark_type BasicDType.int64 = ok (atomic long_type)
basic_type_to_spark_type BasicDType.float32 = ok (atomic float_type)
basic_type_to_spark_type BasicDType.float64 = ok (atomic double_type)
basic_type_to_spark_type BasicDType.boolean = ok (atomic boolean_type)
basic_type_to_spark_type BasicDType.timestamp = ok (atomic timestamp_type)
basic_type_to_spark_type BasicDType.unknown = err feathub_type_exception

unfoldable pub to_spark_type : DType → Result DataType
to_spark_type (primitive_type b) = basic_type_to_spark_type b
to_spark_type (vector_type d) = do t ← to_spark_type d; ok (array t)
to_spark_type (map_type k v) = do key ← to_spark_type k; value ← to_spark_type v; ok (map key value)

-- inverse_type_mapping
unfoldable pub atomic_type_to_basic_type : AtomicType → Result BasicDType
atomic_type_to_basic_type binary_type = ok BasicDType.bytes
atomic_type_to_basic_type string_type = ok BasicDType.string
atomic_type_to_basic_type integer_type = ok BasicDType.int32
atomic_type_to_basic_type long_type = ok BasicDType.int64
atomic_type_to_basic_type float_type = ok BasicDType.float32
atomic_type_to_basic_type double_type = ok BasicDType.float64
atomic_type_to_basic_type boolean_type = ok BasicDType.boolean
atomic_type_to_basic_type timestamp_type = ok BasicDType.timestamp
atomic_type_to_basic_type (other_atomic name) = err feathub_type_exception

abbrev pub atomic_type_to_feathub_type : AtomicType → Result DType
atomic_type_to_feathub_type a = do b ← atomic_type_to_basic_type a; ok (primitive_type b)

abbrev pub array_type_to_feathub_type : DataType → Result DType
array_type_to_feathub_type (atomic a) = do d ← atomic_type_to_feathub_type a; ok (vector_type d)
array_type_to_feathub_type _ = err feathub_type_exception

unfoldable pub to_feathub_type : DataType → Result DType
to_feathub_type (atomic a) = atomic_type_to_feathub_type a
to_feathub_type (array element) = array_type_to_feathub_type element
to_feathub_type (map k v) = do
  key ← to_feathub_type k
  value ← to_feathub_type v
  ok (map_type key value)
to_feathub_type (other name) = err feathub_type_exception

-- The fields of a StructType: names and types.
unfoldable pub struct_fields : List String → List DType → Result (List (String × DataType))
struct_fields (n ∷ ns) (d ∷ ds) = do
  t ← to_spark_type d
  fields ← struct_fields ns ds
  ok ((n, t) ∷ fields)
struct_fields _ _ = ok []

unfoldable pub to_spark_struct_type : Schema → Result (List (String × DataType))
unfolding struct_fields
to_spark_struct_type schema = struct_fields schema.field_names schema.field_types

abbrev pub to_feathub_field : String × DataType → Result (String × DType)
to_feathub_field (name, t) = do d ← to_feathub_type t; ok (name, d)

abbrev pub firsts {ℓ κ} : {A : Type ℓ} {B : Type κ} → List (A × B) → List A
firsts [] = []
firsts ((a, b) ∷ more) = a ∷ firsts more

abbrev pub seconds {ℓ κ} : {A : Type ℓ} {B : Type κ} → List (A × B) → List B
seconds [] = []
seconds ((a, b) ∷ more) = b ∷ seconds more

unfoldable pub to_feathub_schema : List (String × DataType) → Result Schema
to_feathub_schema struct_type = do
  fields ← traverse to_feathub_field struct_type
  ok (record { field_names = firsts fields; field_types = seconds fields })
