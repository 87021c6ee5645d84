-- ===== src/Views.antt =====
-- feature_views: features, their transforms, and what the views check and output.
pub mod Among
pub mod Derived
pub mod FeatureView
pub mod Fields
pub mod Sliding
pub mod Names
pub mod OnDemand
pub mod Order
mod Tests
use feathub.Prelude.{
  Bool, true, false, ◌&&◌, ◌||◌, not, String, List, [], ◌∷◌, ◌++◌, Option, none, some, ◌==◌,
  string_eq, if◌then◌else◌, ℕ, nat_eq, list_eq,
}
use feathub.Dict.{get, contains, is_subset}
use feathub.Errors.{Error, Result, ok, err, feathub_exception, runtime_error, guard, ◌>>=◌, ◌>>◌}
use feathub.Dsl.Dtypes.{builtin_funcs}

-- A token of the lexer.
pub record Token : Type 0 where
  pub type : String
  pub value : String

abbrev pub is_builtin : Option (List feathub.Types.DType → Result feathub.Types.DType) → Bool
is_builtin none = false
is_builtin (some f) = true

-- The loop of get_variables; a set of names is a list of which only membership is read.
unfoldable pub variables_of : List Token → List String
variables_of [] = []
variables_of (tok ∷ toks) =
    let rest = variables_of toks in
    if tok.type == "ID" && not (is_builtin (get tok.value builtin_funcs))
    then tok.value ∷ rest
    else rest

-- The transforms, with what the views read of them. A step size is in milliseconds.
pub data Transform : Type 0 where
  expression_transform : String → Transform
  join_transform : String → String → Transform
  python_udf_transform : Transform
  -- with the field names of its schema
  java_udf_transform : List String → Transform
  over_window_transform : String → Option String → List String → Transform
  sliding_window_transform : String → Option String → List String → ℕ → Transform

pub record Feature : Type 0 where
  pub name : String
  pub transform : Transform
  pub keys : Option (List String)
  pub input_features : List String

-- Python's `str.startswith`, `str.endswith` and `sorted`.
pub record Texts : Type 0 where
  pub starts_with : String → String → Bool
  pub ends_with : String → String → Bool
  pub sorted : List String → List String

abbrev pub group_by_keys_of : Transform → Option (List String)
group_by_keys_of (over_window_transform e f ks) = some ks
group_by_keys_of (sliding_window_transform e f ks s) = some ks
group_by_keys_of _ = none

abbrev pub default_keys : Option (List String) → List String → List String
default_keys none group_by_keys = group_by_keys
default_keys (some ks) group_by_keys = ks

unfoldable pub feature_keys :
    Option (List String) → Option (List String) → Result (Option (List String))
feature_keys keys none = ok keys
feature_keys keys (some ks) =
    guard (is_subset ks (default_keys keys ks)) runtime_error >> ok (some (default_keys keys ks))

abbrev pub sort_keys : Texts → Option (List String) → Option (List String)
sort_keys texts none = none
sort_keys texts (some []) = some []
sort_keys texts (some (k ∷ ks)) = some (texts.sorted (k ∷ ks))

-- Feature.__init__
unfoldable pub new_feature :
    Texts → String → Transform → Option (List String) → List String → Result Feature
new_feature texts name transform keys input_features =
    if texts.starts_with name "__" || texts.ends_with name "__" then err feathub_exception else (do
      ks ← feature_keys keys (group_by_keys_of transform)
      ok (record {
        name = name;
        transform = transform;
        keys = sort_keys texts ks;
        input_features = input_features;
      }))

abbrev pub feature_names : List Feature → List String
feature_names [] = []
feature_names (f ∷ fs) = f.name ∷ feature_names fs

-- The test of FeatureView.__init__ for a name that two features have.
unfoldable pub check_names : List String → List Feature → Result (Unit {0})
check_names names [] = ok tt
check_names names (f ∷ fs) =
    if contains f.name names then err feathub_exception else check_names (f.name ∷ names) fs

-- FeatureView.get_output_fields
abbrev pub difference : List String → List String → List String
difference [] bs = []
difference (a ∷ more) bs = if contains a bs then difference more bs else a ∷ difference more bs

abbrev pub intersection : List String → List String → List String
intersection [] bs = []
intersection (a ∷ more) bs =
    if contains a bs then a ∷ intersection more bs else intersection more bs

abbrev pub timestamp_fields : Option String → List String
timestamp_fields none = []
timestamp_fields (some f) = f ∷ []

abbrev pub key_list : Option (List String) → List String
key_list none = []
key_list (some ks) = ks

unfoldable pub all_keys : List Feature → List String
all_keys [] = []
all_keys (f ∷ fs) = key_list f.keys ++ all_keys fs

unfoldable pub get_output_fields : Bool → Option String → List Feature → List String → List String
get_output_fields keep_source_fields timestamp_field features source_fields =
    let names = feature_names features in
    let extra =
      if keep_source_fields
      then difference source_fields names
      else difference (timestamp_fields timestamp_field ++ all_keys features) names in
    intersection source_fields extra ++ names

module _ (lexer : String → List Token) where
  abbrev pub get_variables : String → List String
  get_variables expr = variables_of (lexer expr)

  abbrev pub filter_variables : Option String → List String
  filter_variables none = []
  filter_variables (some expr) = get_variables expr

  -- What a feature of a DerivedFeatureView depends on.
  unfoldable pub dependencies : Feature → Transform → Result (List String)
  dependencies f (join_transform table expr) = ok []
  dependencies f python_udf_transform = ok f.input_features
  dependencies f (over_window_transform expr filter_expr ks) =
      ok (filter_variables filter_expr ++ get_variables expr ++ ks)
  dependencies f (expression_transform expr) = ok (get_variables expr)
  dependencies f _ = err feathub_exception

  -- DerivedFeatureView._validate, from the names of the source's features.
  unfoldable pub validate : List String → List Feature → Result (Unit {0})
  validate valid_variables [] = ok tt
  validate valid_variables (f ∷ fs) = do
    variables ← dependencies f f.transform
    guard (is_subset variables valid_variables) feathub_exception
        >> validate (f.name ∷ valid_variables) fs

-- SlidingFeatureView._get_step_size and _get_group_by_keys: the one value that all have.
abbrev pub step_sizes : List Feature → List ℕ
step_sizes [] = []
step_sizes (f ∷ fs) = elim f.transform [
  | sliding_window_transform e g ks s ↦ s ∷ step_sizes fs
  | _ ↦ step_sizes fs
]

abbrev pub all_equal : ℕ → List ℕ → Bool
all_equal s [] = true
all_equal s (t ∷ ts) = t == s && all_equal s ts

abbrev pub single : List ℕ → Result ℕ
single [] = err feathub_exception
single (s ∷ ss) = if all_equal s ss then ok s else err feathub_exception

unfoldable pub get_step_size : List Feature → Result ℕ
get_step_size features = single (step_sizes features)
