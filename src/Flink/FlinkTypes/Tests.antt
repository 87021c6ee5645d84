-- ===== src/Flink/FlinkTypes/Tests.antt =====
-- Tests of the types of Flink.
use feathub.Prelude.{◌≡◌, refl, true, false}
use feathub.Errors.{err, feathub_type_exception}
use feathub.Types.{BasicDType, primitive_type, vector_type, map_type}
use feathub.Flink.FlinkTypes.{
  DataType, atomic, array, map, int, big_int, var_char, string_length, basic_type_to_flink_type,
  to_flink_type, to_feathub_type, with_same_nullability, DataType-discrete,
}
use feathub.Flink.FlinkTypes.RoundTrip.{to_feathub-to_flink}
use feathub.Flink.FlinkTypes.Nullability.{nullable, SameNulls, with_same_nullability-nullable}

to_feathub-to_flink_example :
    to_feathub_type
      (map (atomic (var_char string_length) true) (array (array (atomic int true) true) true) true)
    ≡ err feathub_type_exception
unfolding to_flink_type basic_type_to_flink_type
to_feathub-to_flink_example =
    to_feathub-to_flink
      (map_type (primitive_type BasicDType.string)
        (vector_type (vector_type (primitive_type BasicDType.int32))))
      refl

abbrev wanted : DataType
wanted = map (atomic int true) (array (atomic big_int true) true) true

abbrev current : DataType
current = map (atomic int false) (array (atomic int true) false) true

with_same_nullability-nullable_example :
    (nullable (map (atomic int false) (array (atomic big_int true) false) true) ≡ nullable wanted)
    × SameNulls (map (atomic int false) (array (atomic big_int true) false) true) current
unfolding with_same_nullability DataType-discrete
with_same_nullability-nullable_example = with_same_nullability-nullable wanted current refl
