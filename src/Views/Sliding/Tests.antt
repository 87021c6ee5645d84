-- ===== src/Views/Sliding/Tests.antt =====
-- A sliding feature view of trips: a key that is computed, a count of each key's trips in an hour, and
-- its double.
use feathub.Prelude.{
  ◌≡◌, refl, true, false, String, List, [], ◌∷◌, ◌++◌, none, some, string_eq, list_eq, ◌⊎◌, inl,
  inr,
}
use feathub.Dict.{get, contains, is_subset}
use feathub.Errors.{ok}
use feathub.Views.{
  Token, Feature, Texts, expression_transform, sliding_window_transform, variables_of, check_names,
  get_step_size, all_keys, feature_names, new_feature, feature_keys,
}
use feathub.Views.FeatureView.{Table, new_feature_view, get_keys, from_keys, set_feature_keys}
use feathub.Views.Sliding.{
  Sets, SlidingView, SlidingConfig, build_sliding_view, resolve_features, new_sliding_view,
  validate_sliding_view, split_features, check_per_row, check_sliding,
  validate_pre_sliding_features, validate_sliding_features, validate_post_sliding_features,
  group_keys, get_group_by_keys, sliding_output_fields, window_time_feature,
}
use feathub.Views.Names.{IsDistinct}
use feathub.Views.Sliding.Valid.{IsSets, IsValid}
use feathub.Views.Sliding.Built.{build_sliding_view-IsValid}

abbrev one_word : String → List Token
one_word s = record { type = "ID"; value = s } ∷ []

abbrev plain : Texts
plain = record {
  starts_with = λ s prefix. false;
  ends_with = λ s suffix. false;
  sorted = λ names. names;
}

-- Sets that are iterated over in the order of insertion.
abbrev in_order : Sets
in_order = record { iterate = λ fs. fs; pop = λ ks kss. ks }

in_order-IsSets : IsSets in_order
in_order-IsSets = record { iterated = λ fs f. (λ m. m, λ m. m); popped = λ ks kss. inl refl }

abbrev feature : String → feathub.Views.Transform → Feature
feature name transform = record {
  name = name;
  transform = transform;
  keys = some ("zone" ∷ []);
  input_features = [];
}

abbrev trips : Table
trips = record {
  keys = none;
  timestamp_field = some "time";
  output_features =
      feature "area" (expression_transform "area")
      ∷ feature "time" (expression_transform "time")
      ∷ [];
}

abbrev zone : Feature
zone = feature "zone" (expression_transform "area")

abbrev count : Feature
count = feature "count" (sliding_window_transform "area" none ("zone" ∷ []) 3600000)

abbrev double : Feature
double = feature "double" (expression_transform "count")

abbrev config : SlidingConfig
config = record { enable_empty_window_output = true; skip_same_window_output = true }

abbrev refs : List (String ⊎ Feature)
refs = inr zone ∷ inr count ∷ inr double ∷ []

abbrev window_time : Feature
window_time = record {
  name = "window_time";
  transform = expression_transform "GET_WINDOW_TIME()";
  keys = some ("zone" ∷ []);
  input_features = [];
}

abbrev built : SlidingView
built = record {
  view = record {
    source = trips;
    features = zone ∷ count ∷ double ∷ window_time ∷ [];
    keep_source_fields = false;
    keys = some ("zone" ∷ []);
    timestamp_field = some "window_time";
  };
  step_size = 3600000;
  group_by_keys = "zone" ∷ [];
}

build_run : build_sliding_view plain one_word in_order trips refs "window_time" config ≡ ok built
unfolding build_sliding_view resolve_features new_sliding_view validate_sliding_view split_features
    check_per_row check_sliding validate_pre_sliding_features validate_sliding_features
    validate_post_sliding_features group_keys get_group_by_keys new_feature_view get_keys from_keys
    set_feature_keys new_feature feature_keys check_names get_step_size all_keys variables_of
    contains is_subset get
build_run = refl

build_sliding_view-IsValid_example :
    (features : List Feature) × (resolve_features plain trips "window_time" refs ≡ ok features)
    × (made : Feature) × (window_time_feature plain "window_time" ≡ ok made)
    × IsDistinct (feature_names (features ++ made ∷ []))
    × (built.view.features ≡ set_feature_keys (some ("zone" ∷ [])) (features ++ made ∷ []))
    × IsValid one_word ("area" ∷ "time" ∷ []) features "window_time" ("zone" ∷ [])
build_sliding_view-IsValid_example =
    build_sliding_view-IsValid plain one_word in_order in_order-IsSets trips refs "window_time"
      config build_run

output_run :
    sliding_output_fields "window_time" (zone ∷ count ∷ []) ("zone" ∷ "area" ∷ [])
    ≡ "zone" ∷ "window_time" ∷ "count" ∷ []
unfolding sliding_output_fields from_keys all_keys contains
output_run = refl
