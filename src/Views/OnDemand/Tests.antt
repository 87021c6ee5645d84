-- ===== src/Views/OnDemand/Tests.antt =====
-- An on-demand view of a request with an item: its price in an online store, and an expression.
use feathub.Prelude.{
  ◌≡◌, refl, true, false, String, List, [], ◌∷◌, none, some, string_eq, nat_eq, ◌⊎◌, inl, inr,
  Among,
}
use feathub.Dict.{contains, is_subset}
use feathub.Errors.{Result, ok}
use feathub.Views.{
  Feature, Texts, Transform, expression_transform, join_transform, check_names, all_keys,
  feature_names, new_feature, feature_keys,
}
use feathub.Views.FeatureView.{
  Table, View, new_feature_view, get_keys, from_keys, set_feature_keys, get_feature,
}
use feathub.Views.Names.{IsDistinct}
use feathub.Views.OnDemand.{
  Registered, is_supported, check_supported, new_on_demand_view, resolve_on_demand,
  build_on_demand_view,
}
use feathub.Views.OnDemand.Supported.{build_on_demand_view-IsSupported}

abbrev plain : Texts
plain = record {
  starts_with = λ s prefix. false;
  ends_with = λ s suffix. false;
  sorted = λ names. names;
}

abbrev parts : String → List String
parts s = "prices" ∷ "price" ∷ []

abbrev feature : String → Transform → Feature
feature name transform = record {
  name = name;
  transform = transform;
  keys = some ("item" ∷ []);
  input_features = [];
}

abbrev prices : Registered
prices = record {
  table = record {
    keys = some ("item" ∷ []);
    timestamp_field = none;
    output_features = feature "price" (expression_transform "price") ∷ [];
  };
  is_online = true;
}

abbrev request : Table
request = record { keys = none; timestamp_field = none; output_features = [] }

abbrev twice : Feature
twice = feature "twice" (expression_transform "price")

abbrev built : View
built = record {
  source = request;
  features = feature "price" (join_transform "prices" "`price`") ∷ twice ∷ [];
  keep_source_fields = true;
  keys = some ("item" ∷ []);
  timestamp_field = none;
}

abbrev refs : List (String ⊎ Feature)
refs = inl "prices.price" ∷ inr twice ∷ []

abbrev registry : String → Result Registered
registry name = ok prices

build_run : build_on_demand_view parts plain registry request refs true ≡ ok built
unfolding build_on_demand_view new_on_demand_view resolve_on_demand check_supported new_feature_view
    get_feature get_keys from_keys set_feature_keys new_feature feature_keys check_names all_keys
    contains is_subset
build_run = refl

build_on_demand_view-IsSupported_example :
    (features : List Feature) × (resolve_on_demand parts plain registry refs ≡ ok features)
    × (built.features ≡ set_feature_keys built.keys features)
    × IsDistinct (feature_names features)
    × ((f : Feature) → Among f built.features → is_supported f.transform ≡ true)
build_on_demand_view-IsSupported_example =
    build_on_demand_view-IsSupported parts plain registry request refs true build_run
