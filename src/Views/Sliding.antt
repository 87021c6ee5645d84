-- ===== src/Views/Sliding.antt =====
-- feature_views/sliding_feature_view.py: the constructor, the validation and the build of a sliding
-- feature view. A string among the features of a view that is built refers to a feature of the source.
pub mod Reads
pub mod Split
pub mod Keys
pub mod Valid
pub mod Built
pub mod Fields
mod Tests
use feathub.Prelude.{
  Bool, true, false, ◌&&◌, ◌||◌, not, String, List, [], ◌∷◌, ◌++◌, Option, none, some, ◌==◌,
  string_eq, list_eq, if◌then◌else◌, ℕ, ◌⊎◌, inl, inr,
}
use feathub.Dict.{contains, is_subset}
use feathub.Errors.{
  Result, ok, err, feathub_exception, feathub_configuration_exception, key_error, stop_iteration,
  attribute_error, guard, ◌>>=◌, ◌>>◌,
}
use feathub.Views.{
  Token, Transform, Feature, Texts, expression_transform, python_udf_transform,
  sliding_window_transform, feature_names, all_keys, get_variables, filter_variables, get_step_size,
  group_by_keys_of, new_feature,
}
use feathub.Views.FeatureView.{Table, View, new_feature_view, from_keys, get_feature}

-- The three sets of features that _validate fills, each in the order of insertion.
pub record Parts : Type 0 where
  pub pre_sliding_features : List Feature
  pub sliding_features : List Feature
  pub post_sliding_features : List Feature

abbrev pub add_per_row : Feature → Parts → Parts
add_per_row f parts = elim parts.sliding_features [
  | [] ↦ record {
    pre_sliding_features = parts.pre_sliding_features ++ f ∷ [];
    sliding_features = parts.sliding_features;
    post_sliding_features = parts.post_sliding_features;
  }
  | g ∷ gs ↦ record {
    pre_sliding_features = parts.pre_sliding_features;
    sliding_features = parts.sliding_features;
    post_sliding_features = parts.post_sliding_features ++ f ∷ [];
  }
]

abbrev pub add_sliding : Feature → Parts → Parts
add_sliding f parts = record {
  pre_sliding_features = parts.pre_sliding_features;
  sliding_features = parts.sliding_features ++ f ∷ [];
  post_sliding_features = parts.post_sliding_features;
}

abbrev pub add_feature : Feature → Transform → Parts → Result Parts
add_feature f (expression_transform e) parts = ok (add_per_row f parts)
add_feature f (sliding_window_transform e g ks s) parts = ok (add_sliding f parts)
add_feature f python_udf_transform parts = ok (add_per_row f parts)
add_feature f _ parts = err feathub_exception

-- The loop of _validate.
unfoldable pub split_features : List Feature → Parts → Result Parts
split_features [] parts = ok parts
split_features (f ∷ fs) parts = add_feature f f.transform parts >>= (λ next. split_features fs next)

-- Sets as the code uses them: the order in which a set of features is iterated over, and the element
-- that `pop` takes from a set of keys with a first element and others.
pub record Sets : Type 0 where
  pub iterate : List Feature → List Feature
  pub pop : List String → List (List String) → List String

module _ (lexer : String → List Token) where
  abbrev pub per_row_variables : Feature → Transform → Result (List String)
  per_row_variables f (expression_transform e) = ok (get_variables lexer e)
  per_row_variables f python_udf_transform = ok f.input_features
  per_row_variables f _ = err feathub_exception

  -- The loop over features that are computed row by row, before the windows or after them.
  unfoldable pub check_per_row : List String → List Feature → Result (Unit {0})
  check_per_row valid_variables [] = ok tt
  check_per_row valid_variables (f ∷ fs) = do
    variables ← per_row_variables f f.transform
    guard (is_subset variables valid_variables) feathub_exception
        >> check_per_row (f.name ∷ valid_variables) fs

  abbrev pub sliding_variables : Transform → Result (List String × List String)
  sliding_variables (sliding_window_transform e g ks s) =
      ok (filter_variables lexer g ++ get_variables lexer e ++ ks, ks)
  sliding_variables _ = err feathub_exception

  -- The loop over the sliding features, with the group-by keys that it collects.
  unfoldable pub check_sliding : List String → List Feature → Result (List (List String))
  check_sliding valid_variables [] = ok []
  check_sliding valid_variables (f ∷ fs) = do
    (variables, group_by_keys) ← sliding_variables f.transform
    done ← guard (is_subset variables valid_variables) feathub_exception
    rest ← check_sliding valid_variables fs
    ok (group_by_keys ∷ rest)

-- `next(iter(sliding_features)).transform.group_by_keys`
abbrev pub keys_or_raise : Option (List String) → Result (List String)
keys_or_raise none = err attribute_error
keys_or_raise (some ks) = ok ks

abbrev pub first_group_by_keys : List Feature → Result (List String)
first_group_by_keys [] = err stop_iteration
first_group_by_keys (f ∷ fs) = keys_or_raise (group_by_keys_of f.transform)

abbrev pub pop_keys : Sets → List (List String) → Result (List String)
pop_keys sets [] = err key_error
pop_keys sets (ks ∷ more) = ok (sets.pop ks more)

module _ (lexer : String → List Token) (sets : Sets) where
  unfoldable pub validate_pre_sliding_features : List String → List Feature → Result (Unit {0})
  validate_pre_sliding_features source_names pre_sliding_features =
      check_per_row lexer source_names (sets.iterate pre_sliding_features)

  unfoldable pub validate_sliding_features :
      List String → List Feature → List Feature → Result (Unit {0})
  validate_sliding_features source_names pre_sliding_features sliding_features = do
    group_by_keys_set ←
        check_sliding lexer (source_names ++ feature_names pre_sliding_features)
          (sets.iterate sliding_features)
    group_by_keys ← pop_keys sets group_by_keys_set
    guard (is_subset (feature_names (sets.iterate pre_sliding_features)) group_by_keys)
        feathub_exception

  unfoldable pub validate_post_sliding_features :
      List Feature → List Feature → String → Result (Unit {0})
  validate_post_sliding_features sliding_features post_sliding_features timestamp_field = do
    group_by_keys ← first_group_by_keys (sets.iterate sliding_features)
    check_per_row lexer (feature_names sliding_features ++ timestamp_field ∷ group_by_keys)
        (sets.iterate post_sliding_features)

  -- SlidingFeatureView._validate
  unfoldable pub validate_sliding_view : Table → List Feature → String → Result (Unit {0})
  validate_sliding_view source features timestamp_field =
      let source_names = feature_names source.output_features in
      (do
        parts ← split_features features (record {
          pre_sliding_features = [];
          sliding_features = [];
          post_sliding_features = [];
        })
        validate_pre_sliding_features source_names parts.pre_sliding_features
            >> validate_sliding_features source_names parts.pre_sliding_features
                parts.sliding_features
            >> validate_post_sliding_features parts.sliding_features parts.post_sliding_features
                timestamp_field)

abbrev pub group_keys_cons : Option (List String) → List (List String) → List (List String)
group_keys_cons none kss = kss
group_keys_cons (some ks) kss = ks ∷ kss

-- The group-by keys of the sliding features, in order.
abbrev pub sliding_keys : Transform → Option (List String)
sliding_keys (sliding_window_transform e g ks s) = some ks
sliding_keys _ = none

unfoldable pub group_keys : List Feature → List (List String)
group_keys [] = []
group_keys (f ∷ fs) = group_keys_cons (sliding_keys f.transform) (group_keys fs)

abbrev pub all_keys_equal : List String → List (List String) → Bool
all_keys_equal ks [] = true
all_keys_equal ks (js ∷ more) = js == ks && all_keys_equal ks more

abbrev pub single_keys : List (List String) → Result (List String)
single_keys [] = err feathub_exception
single_keys (ks ∷ more) = if all_keys_equal ks more then ok ks else err feathub_exception

-- SlidingFeatureView._get_group_by_keys
unfoldable pub get_group_by_keys : List Feature → Result (List String)
get_group_by_keys features = single_keys (group_keys features)

-- SlidingFeatureView.get_output_fields
abbrev pub keep_fields : List String → List String → List String
keep_fields [] keys = []
keep_fields (f ∷ fs) keys = if contains f keys then f ∷ keep_fields fs keys else keep_fields fs keys

unfoldable pub sliding_output_fields : String → List Feature → List String → List String
sliding_output_fields timestamp_field features source_fields =
    from_keys
      (keep_fields source_fields (all_keys features) ++ timestamp_field ∷ feature_names features)

pub record SlidingView : Type 0 where
  pub view : View
  pub step_size : ℕ
  pub group_by_keys : List String

-- What the constructor reads of the configuration of the view.
pub record SlidingConfig : Type 0 where
  pub enable_empty_window_output : Bool
  pub skip_same_window_output : Bool

abbrev pub window_time_expression : Transform
window_time_expression = expression_transform "GET_WINDOW_TIME()"

module _ (texts : Texts) where
  -- SlidingFeatureView._get_window_time_feature.
  abbrev pub window_time_feature : String → Result Feature
  window_time_feature timestamp_field =
      new_feature texts timestamp_field window_time_expression none []

  -- SlidingFeatureView.__init__, for a source and features that are resolved
  unfoldable pub new_sliding_view :
      Table → List Feature → String → SlidingConfig → Result SlidingView
  new_sliding_view source features timestamp_field config = do
    window_time ← window_time_feature timestamp_field
    view ← new_feature_view source (features ++ window_time ∷ []) false (some timestamp_field)
    done ←
        guard (not (not config.enable_empty_window_output && config.skip_same_window_output))
          feathub_configuration_exception
    step_size ← get_step_size view.features
    group_by_keys ← get_group_by_keys view.features
    ok (record { view = view; step_size = step_size; group_by_keys = group_by_keys })

  -- A feature of a view that is not built: the name of one of the source's, or a feature.
  abbrev pub resolve_feature : Table → (String ⊎ Feature) → Result Feature
  resolve_feature source (inl name) = do
    f ← get_feature source name
    new_feature texts f.name (expression_transform f.name) f.keys []
  resolve_feature source (inr f) = ok f

  unfoldable pub resolve_features : Table → String → List (String ⊎ Feature) → Result (List Feature)
  resolve_features source timestamp_field [] = ok []
  resolve_features source timestamp_field (r ∷ refs) = do
    f ← resolve_feature source r
    rest ← resolve_features source timestamp_field refs
    ok (if f.name == timestamp_field then rest else f ∷ rest)

  -- SlidingFeatureView.build, from the source that the registry has built
  unfoldable pub build_sliding_view :
      (String → List Token)
      → Sets
      → Table
      → List (String ⊎ Feature)
      → String
      → SlidingConfig
      → Result SlidingView
  build_sliding_view lexer sets source refs timestamp_field config = do
    features ← resolve_features source timestamp_field refs
    done ← validate_sliding_view lexer sets source features timestamp_field
    new_sliding_view source features timestamp_field config
