-- ===== src/Flink/FlinkTypes/Nullability.antt =====
-- The type that a column is cast to: the wanted type with the nullability of the column's type.
use feathub.Prelude.{◌≡◌, refl, sym, ap, true, false, if◌then◌else◌, string_eq, nat_eq}
use feathub.Errors.{Result, ok, err, feathub_type_exception, bind-eq-ok, ok-injective, ◌>>=◌}
use feathub.Flink.FlinkTypes.{DataType, atomic, array, map, other, type_beq, with_same_nullability}

-- The type with every part nullable.
abbrev pub nullable : DataType → DataType
nullable (atomic a m) = atomic a true
nullable (array t m) = array (nullable t) true
nullable (map k v m) = map (nullable k) (nullable v) true
nullable (other name) = other name

-- The parts of the two types are nullable at the same places.
abbrev pub SameNulls : DataType → DataType → Type 0
SameNulls (atomic a m) (atomic b n) = m ≡ n
SameNulls (array t m) (array u n) = SameNulls t u × (m ≡ n)
SameNulls (map k v m) (map j w n) = SameNulls k j × SameNulls v w × (m ≡ n)
SameNulls (other a) (other b) = a ≡ b
SameNulls _ _ = ⊥

same_lem : (t : DataType) → SameNulls t t
same_lem (atomic a m) = refl
same_lem (array t m) = (same_lem t, refl)
same_lem (map k v m) = (same_lem k, same_lem v, refl)
same_lem (other name) = refl

-- The reference is kept where it is the wanted type.
keep_lem :
    (o r : DataType) (converted : Result DataType) {t : DataType} (same : Dec (r ≡ o))
    → (converted ≡ ok t → (nullable t ≡ nullable o) × SameNulls t r)
    → (if (elim same [ yes e ↦ true | no e ↦ false ]) then ok r else converted) ≡ ok t
    → (nullable t ≡ nullable o) × SameNulls t r
keep_lem o r converted (yes e) otherwise h = rw (sym (ok-injective h)) (ap nullable e, same_lem r)
keep_lem o r converted (no e) otherwise h = otherwise h

-- A type that the conversion returns is the wanted type up to what is nullable, and is nullable at
-- the same places as the reference; so only types of one shape are converted.
pub with_same_nullability-nullable :
    (original reference : DataType) {t : DataType}
    → with_same_nullability original reference ≡ ok t
    → (nullable t ≡ nullable original) × SameNulls t reference
unfolding with_same_nullability type_beq
with_same_nullability-nullable (atomic a m) (atomic b n) h =
    keep_lem (atomic a m) (atomic b n) (ok (atomic a n)) _
      (λ e. rw (sym (ok-injective e)) (refl, refl)) h
with_same_nullability-nullable (array a m) (array b n) h =
    keep_lem (array a m) (array b n) (do element ← with_same_nullability a b; ok (array element n))
      _
      (λ e.
        (let (u, h1, h2) = bind-eq-ok (with_same_nullability a b) _ e in
          let (shape, nulls) = with_same_nullability-nullable a b h1 in
          rw (sym (ok-injective h2)) (ap (λ x. array x true) shape, (nulls, refl))))
      h
with_same_nullability-nullable (map a c m) (map b d n) h =
    keep_lem (map a c m) (map b d n)
      (do key ← with_same_nullability a b; value ← with_same_nullability c d; ok (map key value n))
      _
      (λ e.
        (let (u, h1, h2) = bind-eq-ok (with_same_nullability a b) _ e in
          let (v, h3, h4) = bind-eq-ok (with_same_nullability c d) _ h2 in
          let (key_shape, key_nulls) = with_same_nullability-nullable a b h1 in
          let (shape, nulls) = with_same_nullability-nullable c d h3 in
          rw (sym (ok-injective h4), key_shape, shape) (refl, (key_nulls, nulls, refl))))
      h
with_same_nullability-nullable o r h = keep_lem o r (err feathub_type_exception) _ (λ e. cc) h
