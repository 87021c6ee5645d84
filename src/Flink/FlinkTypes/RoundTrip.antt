-- ===== src/Flink/FlinkTypes/RoundTrip.antt =====
-- A data type, to a type of Flink and back.
use feathub.Prelude.{◌≡◌, refl, sym, Bool, true, false, ◌&&◌, if◌then◌else◌}
use feathub.Errors.{ok, err, feathub_type_exception, bind-eq-ok, ok-injective, ◌>>=◌}
use feathub.Types.{BasicDType, DType, primitive_type, vector_type, map_type}
use feathub.Flink.FlinkTypes.{
  DataType, basic_type_to_flink_type, to_flink_type, to_feathub_type, atomic_type_to_basic_type,
  array_type_to_feathub_type,
}

-- No vector holds a vector or a map.
abbrev pub flat : DType → Bool
flat (primitive_type b) = true
flat (vector_type (primitive_type b)) = true
flat (vector_type d) = false
flat (map_type k v) = flat k && flat v

basic_lem :
    (b : BasicDType) {t : DataType}
    → basic_type_to_flink_type b ≡ ok t
    → (to_feathub_type t ≡ ok (primitive_type b))
      × (array_type_to_feathub_type t ≡ ok (vector_type (primitive_type b)))
unfolding basic_type_to_flink_type to_feathub_type atomic_type_to_basic_type
basic_lem BasicDType.unknown h = cc
basic_lem BasicDType.bytes h = rw (sym (ok-injective h)) (refl, refl)
basic_lem BasicDType.string h = rw (sym (ok-injective h)) (refl, refl)
basic_lem BasicDType.int32 h = rw (sym (ok-injective h)) (refl, refl)
basic_lem BasicDType.int64 h = rw (sym (ok-injective h)) (refl, refl)
basic_lem BasicDType.float64 h = rw (sym (ok-injective h)) (refl, refl)
basic_lem BasicDType.float32 h = rw (sym (ok-injective h)) (refl, refl)
basic_lem BasicDType.boolean h = rw (sym (ok-injective h)) (refl, refl)
basic_lem BasicDType.timestamp h = rw (sym (ok-injective h)) (refl, refl)

pub pair_lem :
    (a b : Bool) (k v : DType)
    → ((if a then ok k else err feathub_type_exception) >>= (λ key.
        (if b then ok v else err feathub_type_exception) >>= (λ value. ok (map_type key value))))
      ≡ (if a && b then ok (map_type k v) else err feathub_type_exception)
pair_lem true true k v = refl
pair_lem true false k v = refl
pair_lem false b k v = refl

-- A data type that has a type of Flink comes back from it if no vector in it holds a vector or a map,
-- and otherwise the conversion back raises a type exception.
pub to_feathub-to_flink :
    (d : DType) {t : DataType}
    → to_flink_type d ≡ ok t
    → to_feathub_type t ≡ (if flat d then ok d else err feathub_type_exception)
unfolding to_flink_type to_feathub_type
to_feathub-to_flink (primitive_type b) h = (basic_lem b h).0
to_feathub-to_flink (vector_type (primitive_type b)) h =
    let (t, h1, h2) = bind-eq-ok (basic_type_to_flink_type b) _ h in
    rw (sym (ok-injective h2)) (basic_lem b h1).1
to_feathub-to_flink (vector_type (vector_type d)) h =
    let (t, h1, h2) = bind-eq-ok (to_flink_type (vector_type d)) _ h in
    let (u, h3, h4) = bind-eq-ok (to_flink_type d) _ h1 in
    rw (sym (ok-injective h2), sym (ok-injective h4)) refl
to_feathub-to_flink (vector_type (map_type k v)) h =
    let (t, h1, h2) = bind-eq-ok (to_flink_type (map_type k v)) _ h in
    let (u, h3, h4) = bind-eq-ok (to_flink_type k) _ h1 in
    let (w, h5, h6) = bind-eq-ok (to_flink_type v) _ h4 in
    rw (sym (ok-injective h2), sym (ok-injective h6)) refl
to_feathub-to_flink (map_type k v) h =
    let (t, h1, h2) = bind-eq-ok (to_flink_type k) _ h in
    let (u, h3, h4) = bind-eq-ok (to_flink_type v) _ h2 in
    rw (sym (ok-injective h4), to_feathub-to_flink k h1, to_feathub-to_flink v h3)
      (pair_lem (flat k) (flat v) k v)
