-- ===== src/Spark/SparkTypes/Tests.antt =====
-- Tests of the types of Spark.
use feathub.Prelude.{◌≡◌, refl, [], ◌∷◌}
use feathub.Errors.{ok, err, feathub_type_exception}
use feathub.Types.{BasicDType, primitive_type, vector_type, map_type}
use feathub.Schema.{Schema}
use feathub.Spark.SparkTypes.{
  atomic, array, map, integer_type, string_type, binary_type, basic_type_to_spark_type,
  to_spark_type, to_feathub_type, struct_fields, to_spark_struct_type, to_feathub_schema,
}
use feathub.Spark.SparkTypes.RoundTrip.{to_feathub_schema-to_spark}

abbrev two_fields : Schema
two_fields = record {
  field_names = "id" ∷ "tags" ∷ [];
  field_types =
      primitive_type BasicDType.int32
      ∷ map_type (primitive_type BasicDType.string) (vector_type (primitive_type BasicDType.bytes))
      ∷ [];
}

to_feathub_schema-to_spark_example :
    to_feathub_schema (
      ("id", atomic integer_type)
      ∷ ("tags", map (atomic string_type) (array (atomic binary_type)))
      ∷ [])
    ≡ ok two_fields
unfolding to_spark_struct_type struct_fields to_spark_type basic_type_to_spark_type
to_feathub_schema-to_spark_example = to_feathub_schema-to_spark two_fields (refl, (refl, tt)) refl

nested_raises : to_feathub_type (array (array (atomic integer_type))) ≡ err feathub_type_exception
unfolding to_feathub_type
nested_raises = refl
