-- ===== src/Types.antt =====
-- common/types.py: the data types of feature values, their equality, names and conversions.
pub mod Conversions
pub mod RoundTrip
mod Tests
use feathub.Prelude.{
  ◌≡◌, refl, Bool, true, false, ◌&&◌, ◌↔◌, String, List, [], ◌∷◌, Option, none, some, HasEq, ◌==◌,
  string_eq, if◌then◌else◌, arith,
}
use feathub.Dict.{get}
use feathub.Errors.{
  Error, Result, ok, err, key_error, type_error, attribute_error, feathub_exception,
  feathub_type_exception, feathub_expression_exception, ◌>>=◌, ◌>>◌,
}
use feathub.Common.Json.{
  Json, Fields, str, num, null, bool, arr, obj, no_fields, field, append_metadata_to_json,
  json_class, field_at,
}

pub data BasicDType : Type 0 where
  unknown bytes string int32 int64 float64 float32 boolean timestamp : BasicDType

pub data DType : Type 0 where
  primitive_type : BasicDType → DType
  vector_type : DType → DType
  map_type : DType → DType → DType

unfoldable pub basic_beq : BasicDType → BasicDType → Bool
basic_beq unknown unknown = true
basic_beq bytes bytes = true
basic_beq string string = true
basic_beq int32 int32 = true
basic_beq int64 int64 = true
basic_beq float64 float64 = true
basic_beq float32 float32 = true
basic_beq boolean boolean = true
basic_beq timestamp timestamp = true
basic_beq _ _ = false

-- DType.__eq__: the same class and the same JSON, which holds the fields of the class.
unfoldable pub dtype_beq : DType → DType → Bool
unfolding basic_beq
dtype_beq (primitive_type a) (primitive_type b) = basic_beq a b
dtype_beq (vector_type a) (vector_type b) = dtype_beq a b
dtype_beq (map_type a b) (map_type c d) = dtype_beq a c && dtype_beq b d
dtype_beq _ _ = false

basic_beq_refl : (a : BasicDType) → basic_beq a a ≡ true
unfolding basic_beq
basic_beq_refl unknown = refl
basic_beq_refl _ = refl

pub dtype_beq_refl : (a : DType) → dtype_beq a a ≡ true
unfolding dtype_beq
dtype_beq_refl (primitive_type a) = basic_beq_refl a
dtype_beq_refl (vector_type a) = dtype_beq_refl a
dtype_beq_refl (map_type a b) = ground (arith, dtype_beq_refl a, dtype_beq_refl b)

basic_beq_sound : (a b : BasicDType) → basic_beq a b ≡ true → a ≡ b
unfolding basic_beq
basic_beq_sound a b h = ground arith

pub dtype_beq_sound : (a b : DType) → dtype_beq a b ≡ true → a ≡ b
unfolding dtype_beq
dtype_beq_sound (primitive_type a) (primitive_type b) h = ground (arith, basic_beq_sound a b)
dtype_beq_sound (vector_type a) (vector_type b) h = ground (arith, dtype_beq_sound a b)
dtype_beq_sound (map_type a b) (map_type c d) h =
    ground (arith, dtype_beq_sound a c, dtype_beq_sound b d)
dtype_beq_sound _ _ h = ground arith

pub dtype_beq_iff : (a b : DType) → (dtype_beq a b ≡ true) ↔ (a ≡ b)
dtype_beq_iff a b = (dtype_beq_sound a b, λ (e : a ≡ b). ground (arith, dtype_beq_refl a))

instance abbrev pub dtype_eq : HasEq DType
dtype_eq = record { eqb = dtype_beq; eqb_iff = dtype_beq_iff }
