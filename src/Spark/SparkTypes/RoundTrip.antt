-- ===== src/Spark/SparkTypes/RoundTrip.antt =====
-- A data type and a schema, to the types of Spark and back.
use feathub.Prelude.{◌≡◌, refl, sym, ap, true, if◌then◌else◌, List, [], ◌∷◌, String}
use feathub.Errors.{ok, err, feathub_type_exception, bind-eq-ok, ok-injective, traverse}
use feathub.Types.{BasicDType, DType, primitive_type, vector_type, map_type}
use feathub.Schema.{Schema}
use feathub.Spark.SparkTypes.{
  DataType, basic_type_to_spark_type, to_spark_type, to_feathub_type, atomic_type_to_basic_type,
  array_type_to_feathub_type, struct_fields, to_spark_struct_type, to_feathub_field,
  to_feathub_schema, firsts, seconds,
}
use feathub.Flink.FlinkTypes.RoundTrip.{flat, pair_lem}

basic_lem :
    (b : BasicDType) {t : DataType}
    → basic_type_to_spark_type b ≡ ok t
    → (to_feathub_type t ≡ ok (primitive_type b))
      × (array_type_to_feathub_type t ≡ ok (vector_type (primitive_type b)))
unfolding basic_type_to_spark_type to_feathub_type atomic_type_to_basic_type
basic_lem BasicDType.unknown h = cc
basic_lem BasicDType.bytes h = rw (sym (ok-injective h)) (refl, refl)
basic_lem BasicDType.string h = rw (sym (ok-injective h)) (refl, refl)
basic_lem BasicDType.int32 h = rw (sym (ok-injective h)) (refl, refl)
basic_lem BasicDType.int64 h = rw (sym (ok-injective h)) (refl, refl)
basic_lem BasicDType.float64 h = rw (sym (ok-injective h)) (refl, refl)
basic_lem BasicDType.float32 h = rw (sym (ok-injective h)) (refl, refl)
basic_lem BasicDType.boolean h = rw (sym (ok-injective h)) (refl, refl)
basic_lem BasicDType.timestamp h = rw (sym (ok-injective h)) (refl, refl)

pub to_feathub-to_spark :
    (d : DType) {t : DataType}
    → to_spark_type d ≡ ok t
    → to_feathub_type t ≡ (if flat d then ok d else err feathub_type_exception)
unfolding to_spark_type to_feathub_type
to_feathub-to_spark (primitive_type b) h = (basic_lem b h).0
to_feathub-to_spark (vector_type (primitive_type b)) h =
    let (t, h1, h2) = bind-eq-ok (basic_type_to_spark_type b) _ h in
    rw (sym (ok-injective h2)) (basic_lem b h1).1
to_feathub-to_spark (vector_type (vector_type d)) h =
    let (t, h1, h2) = bind-eq-ok (to_spark_type (vector_type d)) _ h in
    let (u, h3, h4) = bind-eq-ok (to_spark_type d) _ h1 in
    rw (sym (ok-injective h2), sym (ok-injective h4)) refl
to_feathub-to_spark (vector_type (map_type k v)) h =
    let (t, h1, h2) = bind-eq-ok (to_spark_type (map_type k v)) _ h in
    let (u, h3, h4) = bind-eq-ok (to_spark_type k) _ h1 in
    let (w, h5, h6) = bind-eq-ok (to_spark_type v) _ h4 in
    rw (sym (ok-injective h2), sym (ok-injective h6)) refl
to_feathub-to_spark (map_type k v) h =
    let (t, h1, h2) = bind-eq-ok (to_spark_type k) _ h in
    let (u, h3, h4) = bind-eq-ok (to_spark_type v) _ h2 in
    rw (sym (ok-injective h4), to_feathub-to_spark k h1, to_feathub-to_spark v h3)
      (pair_lem (flat k) (flat v) k v)

-- The types of a schema, as many as the names and each without a vector of vectors or maps.
abbrev pub FlatFields : List String → List DType → Type 0
FlatFields [] [] = Unit {0}
FlatFields (n ∷ ns) (d ∷ ds) = (flat d ≡ true) × FlatFields ns ds
FlatFields _ _ = ⊥

fields_lem :
    (ns : List String) (ds : List DType) {fields : List (String × DataType)}
    → FlatFields ns ds
    → struct_fields ns ds ≡ ok fields
    → (back : List (String × DType)) × (traverse to_feathub_field fields ≡ ok back)
      × (firsts back ≡ ns)
      × (seconds back ≡ ds)
unfolding struct_fields
fields_lem [] [] same h = rw (sym (ok-injective h)) ([], refl, refl, refl)
fields_lem (n ∷ ns) [] same h = absurd same
fields_lem [] (d ∷ ds) same h = absurd same
fields_lem (n ∷ ns) (d ∷ ds) (flat_d, same) h =
    let (t, h1, h2) = bind-eq-ok (to_spark_type d) _ h in
    let (fields, h3, h4) = bind-eq-ok (struct_fields ns ds) _ h2 in
    let (back, e, names, types) = fields_lem ns ds same h3 in
    rw (sym (ok-injective h4), to_feathub-to_spark d h1, flat_d, e)
      ((n, d) ∷ back, refl, ap (λ x. n ∷ x) names, ap (λ x. d ∷ x) types)

-- A schema that has a type of Spark comes back from it, if it has as many types as names and no
-- vector in them holds a vector or a map.
pub to_feathub_schema-to_spark :
    (schema : Schema) {struct_type : List (String × DataType)}
    → FlatFields schema.field_names schema.field_types
    → to_spark_struct_type schema ≡ ok struct_type
    → to_feathub_schema struct_type ≡ ok schema
unfolding to_spark_struct_type to_feathub_schema
to_feathub_schema-to_spark schema same h =
    let (back, e, names, types) = fields_lem schema.field_names schema.field_types same h in
    rw (e, names, types) refl
