-- ===== src/Schema.antt =====
-- table/schema.py: the schema of a table.
pub mod Builder
use feathub.Prelude.{
  Bool, ◌&&◌, ◌||◌, String, List, [], ◌∷◌, ◌==◌, string_eq, list_eq, if◌then◌else◌,
}
use feathub.Dict.{contains}
use feathub.Errors.{Result, ok, err, feathub_exception, index_error}
use feathub.Types.{DType, dtype_eq}

pub record Schema : Type 0 where
  pub field_names : List String
  pub field_types : List DType

-- Schema.__eq__
unfoldable pub schema_beq : Schema → Schema → Bool
schema_beq a b = a.field_names == b.field_names && a.field_types == b.field_types

-- The type at the first place that has the name; an index out of range raises.
unfoldable pub type_at : String → List String → List DType → Result DType
type_at name [] ts = err feathub_exception
type_at name (n ∷ ns) [] =
    if n == name || contains name ns then err index_error else err feathub_exception
type_at name (n ∷ ns) (t ∷ ts) = if n == name then ok t else type_at name ns ts

unfoldable pub get_field_type : Schema → String → Result DType
unfolding type_at contains
get_field_type schema name = type_at name schema.field_names schema.field_types
