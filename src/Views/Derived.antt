-- ===== src/Views/Derived.antt =====
-- feature_views/derived_feature_view.py: the constructor and the build of a derived feature view, with
-- get_default_feature_name of feature.py. The types of features are left out.
pub mod DefaultName
pub mod Built
pub mod Java
mod Tests
use Prim.Native.String
use feathub.Prelude.{
  Bool, true, false, ◌&&◌, ◌||◌, not, String, List, [], ◌∷◌, ◌++◌, Option, none, some, ◌==◌,
  string_eq, if◌then◌else◌, ℕ, zero, suc, ◌+◌, ◌<◌, length, ltb, ◌⊎◌, inl, inr,
}
use feathub.Dict.{contains}
use feathub.Errors.{Result, ok, err, feathub_exception, runtime_error, guard, ◌>>=◌, ◌>>◌}
use feathub.Views.{
  Token, Transform, Feature, Texts, expression_transform, join_transform, java_udf_transform,
  feature_names, get_output_fields, new_feature, validate,
}
use feathub.Views.FeatureView.{Table, View, new_feature_view, get_feature}

-- A name in backquotes.
abbrev pub quoted : String → String
quoted name = String.◌++◌ "`" (String.◌++◌ name "`")

-- The loop of get_default_feature_name; `name_at i` is the text of `_` and the number.
unfoldable pub default_name_from : (ℕ → String) → List String → ℕ → ℕ → Option String
default_name_from name_at disallowed zero index = none
default_name_from name_at disallowed (suc fuel) index =
    let rest = default_name_from name_at disallowed fuel (index + 1) in
    if contains (name_at index) disallowed then rest else some (name_at index)

-- One more turn than there are names is enough.
unfoldable pub get_default_feature_name : (ℕ → String) → List String → Option String
get_default_feature_name name_at disallowed =
    default_name_from name_at disallowed (length disallowed + 1) 0

-- `str.split(".")`, is_id, and is_static_map_lookup_op, which may raise.
pub record Syntax : Type 0 where
  pub parts : String → List String
  pub is_id : String → Bool
  pub is_static_map_lookup_op : String → Result Bool
  pub name_at : ℕ → String

abbrev pub is_java : Transform → Bool
is_java (java_udf_transform field_names) = true
is_java _ = false

abbrev pub any_java : List (String ⊎ Feature) → Bool
any_java [] = false
any_java (inl name ∷ fs) = any_java fs
any_java (inr f ∷ fs) = is_java f.transform || any_java fs

-- The checks of the constructor on transforms of Java.
unfoldable pub check_java : List (String ⊎ Feature) → Bool → Option String → Result (Unit {0})
check_java features keep_source_fields filter_expr =
    if any_java features
    then guard (not (ltb 1 (length features))) feathub_exception
      >> guard (not (keep_source_fields || has_text filter_expr)) feathub_exception
    else ok tt
  where
    -- `filter_expr` as a condition
    has_text : Option String → Bool
    has_text none = false
    has_text (some expr) = not (expr == "")

abbrev pub resolved : List Feature → List (String ⊎ Feature)
resolved [] = []
resolved (f ∷ fs) = inr f ∷ resolved fs

-- DerivedFeatureView.__init__, for a source and features that are resolved
unfoldable pub new_derived_view : Table → List Feature → Bool → Option String → Result View
new_derived_view source features keep_source_fields filter_expr =
    check_java (resolved features) keep_source_fields filter_expr
    >> new_feature_view source features keep_source_fields none

-- DerivedFeatureView.get_output_fields
abbrev pub java_fields : Transform → Option (List String)
java_fields (java_udf_transform field_names) = some field_names
java_fields _ = none

abbrev pub or_fields : Option (List String) → List String → List String
or_fields none fields = fields
or_fields (some field_names) fields = field_names

abbrev pub only_java_fields : List Feature → Option (List String)
only_java_fields (f ∷ []) = java_fields f.transform
only_java_fields _ = none

unfoldable pub derived_output_fields : View → List String → List String
derived_output_fields view source_fields =
    or_fields (only_java_fields view.features)
      (get_output_fields view.keep_source_fields view.timestamp_field view.features source_fields)

module _ (texts : Texts) (syntax : Syntax) (get_features : String → Result Table) where
  abbrev pub keys_or_error : Option (List String) → Result (List String)
  keys_or_error none = err runtime_error
  keys_or_error (some keys) = ok keys

  abbrev pub field_feature : Table → String → String → Result Feature
  field_feature table table_name text = do
    f ← get_feature table text
    keys ← keys_or_error f.keys
    new_feature texts text (join_transform table_name (quoted text)) (some keys) []

  abbrev pub lookup_feature : Table → String → String → String → Result Feature
  lookup_feature table table_name text default_name = do
    lookup ← syntax.is_static_map_lookup_op text
    (if lookup
        then new_feature texts default_name (join_transform table_name text) table.keys []
        else err feathub_exception)

  -- A feature of another table: a field of it, or a value of a map at a literal key.
  abbrev pub join_feature : String → String → String → Result Feature
  join_feature table_name text default_name = do
    table ← get_features table_name
    (if syntax.is_id text
        then field_feature table table_name text
        else lookup_feature table table_name text default_name)

  abbrev pub feature_of_parts : Table → List String → String → Result Feature
  feature_of_parts source (name ∷ []) default_name = do
    f ← get_feature source name
    new_feature texts f.name (expression_transform (quoted f.name)) f.keys []
  feature_of_parts source (table_name ∷ text ∷ []) default_name =
      join_feature table_name text default_name
  feature_of_parts source _ default_name = err feathub_exception

  -- DerivedFeatureView._get_feature_from_feature_str
  unfoldable pub get_feature_from_feature_str : Table → String → String → Result Feature
  get_feature_from_feature_str source feature_str default_name =
      feature_of_parts source (syntax.parts feature_str) default_name

  abbrev pub name_or_error : Option String → Result String
  name_or_error none = err runtime_error
  name_or_error (some name) = ok name

  -- The loop of build: the features, and the strings replaced by features.
  unfoldable pub resolve_derived :
      Table → List String → List (String ⊎ Feature) → Result (List Feature)
  resolve_derived source existing [] = ok []
  resolve_derived source existing (inl feature_str ∷ refs) = do
    default_name ← name_or_error (get_default_feature_name syntax.name_at existing)
    f ← get_feature_from_feature_str source feature_str default_name
    rest ← resolve_derived source (f.name ∷ existing) refs
    ok (f ∷ rest)
  resolve_derived source existing (inr f ∷ refs) = do
    rest ← resolve_derived source existing refs
    ok (f ∷ rest)

  -- DerivedFeatureView.build, from the source that the registry has built
  unfoldable pub build_derived_view :
      (String → List Token) → Table → List (String ⊎ Feature) → Bool → Option String → Result View
  build_derived_view lexer source refs keep_source_fields filter_expr =
      let source_names = feature_names source.output_features in
      (do
        features ← resolve_derived source source_names refs
        validate lexer source_names features
            >> new_derived_view source features keep_source_fields filter_expr)
