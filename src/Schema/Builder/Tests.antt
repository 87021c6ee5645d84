-- ===== src/Schema/Builder/Tests.antt =====
-- Tests of the builder of schemas.
use feathub.Prelude.{◌≡◌, ◌↔◌, refl, Bool, String, [], ◌∷◌, string_eq, ◌==◌}
use feathub.Dict.{contains, insert, keys, IsFunctional}
use feathub.Errors.{ok, err, feathub_exception}
use feathub.Types.{BasicDType, primitive_type}
use feathub.Schema.Builder.{Columns, column, declare, build, AllPlain, AllTyped, build-declare}

-- the texts of the tests that start or end with two underscores
abbrev is_reserved : String → String → Bool
is_reserved s underscores = s == "__time__"

abbrev columns : Columns
columns = ("id", primitive_type BasicDType.int64) ∷ ("cost", primitive_type BasicDType.float64) ∷ []

declare_run : declare is_reserved is_reserved columns [] ≡ ok columns
unfolding declare column contains keys insert
declare_run = refl

declare_twice :
    column is_reserved is_reserved "id" (primitive_type BasicDType.int32) columns
    ≡ err feathub_exception
unfolding column contains keys
declare_twice = refl

declare_reserved :
    column is_reserved is_reserved "__time__" (primitive_type BasicDType.int64) columns
    ≡ err feathub_exception
unfolding column contains keys
declare_reserved = refl

build-declare_example : (declare is_reserved is_reserved columns [] ≡ ok columns) ↔ (
    IsFunctional columns
    × AllPlain is_reserved is_reserved columns
    × (columns ≡ columns)
    × AllTyped is_reserved is_reserved (build columns) columns)
build-declare_example = build-declare is_reserved is_reserved columns columns
