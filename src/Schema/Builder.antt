-- ===== src/Schema/Builder.antt =====
-- table/schema.py: Schema.Builder, which collects columns with their types.
mod Tests
use feathub.Prelude.{
  ◌≡◌, ◌↔◌, refl, sym, ap, ◌∙◌, Bool, false, ◌||◌, String, List, [], ◌∷◌, ◌++◌, some, string_eq,
  ◌==◌, if◌then◌else◌, append_assoc, append-nil, arith, Bool-cases, inl, inr, HasEq,
}
use feathub.Dict.{contains, get, insert, keys, values, IsFunctional, eq_self}
use feathub.Dict.Remove.{insert-IsFunctional}
use feathub.Errors.{Result, ok, err, feathub_exception, raised_lem, ◌>>=◌, bind-eq-ok, ok-injective}
use feathub.Types.{DType}
use feathub.Schema.{Schema, type_at, get_field_type}

-- `self._columns`
abbrev pub Columns : Type 0
Columns = List (String × DType)

unfoldable pub build : Columns → Schema
unfolding keys values
build columns = record { field_names = keys columns; field_types = values columns }

module _ (starts_with ends_with : String → String → Bool) where
  unfoldable pub column : String → DType → Columns → Result Columns
  unfolding contains keys insert
  column name dtype columns =
      if contains name (keys columns)
      then err feathub_exception
      else if starts_with name "__" || ends_with name "__"
      then err feathub_exception
      else ok (insert name dtype columns)

  -- calls of `column` one after another
  unfoldable pub declare : Columns → Columns → Result Columns
  unfolding column
  declare [] columns = ok columns
  declare ((name, dtype) ∷ more) columns = do next ← column name dtype columns; declare more next

  abbrev pub AllPlain : Columns → Type 0
  AllPlain [] = Unit {0}
  AllPlain ((name, dtype) ∷ more) =
      ((starts_with name "__" || ends_with name "__") ≡ false) × AllPlain more

  abbrev pub AllTyped : Schema → Columns → Type 0
  AllTyped schema [] = Unit {0}
  AllTyped schema ((name, dtype) ∷ more) =
      (get_field_type schema name ≡ ok dtype) × AllTyped schema more

  insert-new :
      (name : String) (dtype : DType) (columns : Columns)
      → contains name (keys columns) ≡ false
      → insert name dtype columns ≡ columns ++ (name, dtype) ∷ []
  unfolding contains keys insert
  insert-new name dtype [] absent = refl
  insert-new name dtype ((other, t) ∷ columns) absent = elim (Bool-cases (other == name)) [
    | inl same ↦ (let h = rw same at absent in cc)
    | inr differ ↦ rw (differ, insert-new name dtype columns (rw differ at absent)) refl
  ]

  column-eq :
      (name : String) (dtype : DType) (columns next : Columns)
      → column name dtype columns ≡ ok next
      → (contains name (keys columns) ≡ false)
        × ((starts_with name "__" || ends_with name "__") ≡ false)
        × (next ≡ columns ++ (name, dtype) ∷ [])
  unfolding column
  column-eq name dtype columns next h = elim (Bool-cases (contains name (keys columns))) [
    | inl taken ↦ absurd (raised_lem (rw taken at h))
    | inr free ↦ elim (Bool-cases (starts_with name "__" || ends_with name "__")) [
      | inl reserved ↦ absurd (raised_lem (rw (free, reserved) at h))
      | inr plain ↦ (
        free,
        plain,
        sym (ok-injective (rw (free, plain) at h)) ∙ insert-new name dtype columns free,
      )
    ]
  ]

  declare-eq :
      (ds columns cs : Columns)
      → IsFunctional columns
      → declare ds columns ≡ ok cs
      → IsFunctional (columns ++ ds) × AllPlain ds × (cs ≡ columns ++ ds)
  unfolding declare
  declare-eq [] columns cs f h = rw (append-nil columns) (f, tt, sym (ok-injective h))
  declare-eq ((name, dtype) ∷ ds) columns cs f h =
      let (next, h1, h2) = bind-eq-ok (column name dtype columns) _ h in
      let (free, plain, same) = column-eq name dtype columns next h1 in
      let grown =
        rw (insert-new name dtype columns free) at (insert-IsFunctional name dtype columns f) in
      let (functional, all_plain, rest) =
        declare-eq ds (columns ++ (name, dtype) ∷ []) cs grown (rw same at h2) in
      (
        rw (append_assoc columns ((name, dtype) ∷ []) ds) at functional,
        (plain, all_plain),
        rest ∙ append_assoc columns ((name, dtype) ∷ []) ds,
      )

  contains-append :
      (k name : String) (dtype : DType) (before after : Columns)
      → contains k (keys (before ++ (name, dtype) ∷ after))
        ≡ (contains k (keys before) || (name == k || contains k (keys after)))
  unfolding contains keys
  contains-append k name dtype [] after = refl
  contains-append k name dtype ((other, t) ∷ before) after =
      ground (arith, contains-append k name dtype before after)

  -- A name that stands once is not among those before it.
  absent_before :
      (name : String) (dtype : DType) (before after : Columns)
      → IsFunctional (before ++ (name, dtype) ∷ after)
      → contains name (keys before) ≡ false
  unfolding contains keys
  absent_before name dtype [] after f = refl
  absent_before name dtype ((other, t) ∷ before) after (absent, f) = ground (
    arith,
    absent_before name dtype before after f,
    contains-append other name dtype before after,
    string_eq.eqb_iff other name,
    string_eq.eqb_iff name other,
  )

  declare-total :
      (ds columns : Columns)
      → IsFunctional (columns ++ ds)
      → AllPlain ds
      → declare ds columns ≡ ok (columns ++ ds)
  unfolding declare column
  declare-total [] columns f plain = rw (append-nil columns) refl
  declare-total ((name, dtype) ∷ ds) columns f (plain, all_plain) =
      let free = absent_before name dtype columns ds f in
      let next =
        declare-total ds (columns ++ (name, dtype) ∷ [])
          (rw (append_assoc columns ((name, dtype) ∷ []) ds) f) all_plain in
      rw (free, plain, insert-new name dtype columns free)
        (next ∙ ap ok (append_assoc columns ((name, dtype) ∷ []) ds))

  type_at-build :
      (name : String) (dtype : DType) (before after : Columns)
      → contains name (keys before) ≡ false
      → get_field_type (build (before ++ (name, dtype) ∷ after)) name ≡ ok dtype
  unfolding get_field_type type_at build contains keys values
  type_at-build name dtype [] after absent = rw (eq_self name) refl
  type_at-build name dtype ((other, t) ∷ before) after absent =
      ground (arith, type_at-build name dtype before after)

  build-AllTyped :
      (before ds : Columns) → IsFunctional (before ++ ds) → AllTyped (build (before ++ ds)) ds
  build-AllTyped before [] f = tt
  build-AllTyped before ((name, dtype) ∷ ds) f = (
    type_at-build name dtype before ds (absent_before name dtype before ds f),
    rw (append_assoc before ((name, dtype) ∷ []) ds) at (
        build-AllTyped (before ++ (name, dtype) ∷ []) ds
          (rw (append_assoc before ((name, dtype) ∷ []) ds) f)),
  )

  -- Calls of column on a new builder raise no exception exactly if no name is declared twice and none
  -- starts or ends with two underscores; then the builder holds the columns in their order, and the
  -- schema that it builds has each field with its type.
  pub build-declare :
      (ds columns : Columns)
      → (declare ds [] ≡ ok columns)
        ↔ (IsFunctional ds × AllPlain ds × (columns ≡ ds) × AllTyped (build columns) ds)
  build-declare ds columns = (
    λ h.
        (let (functional, plain, same) = declare-eq ds [] columns tt h in
          (functional, plain, same, rw same (build-AllTyped [] ds functional))),
    λ declared.
        (let (functional, plain, same, typed) = declared in
          declare-total ds [] functional plain ∙ ap ok (sym same)),
  )
