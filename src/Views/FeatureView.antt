-- ===== src/Views/FeatureView.antt =====
-- feature_views/feature_view.py: the constructor of a view whose source and features are resolved.
-- The types of features are left out.
use feathub.Prelude.{
  Bool, String, List, [], ◌∷◌, ◌++◌, Option, none, some, ◌==◌, string_eq, if◌then◌else◌,
}
use feathub.Dict.{contains}
use feathub.Errors.{Result, ok, err, feathub_exception, ◌>>◌}
use feathub.Views.{Feature, key_list, all_keys, check_names}

-- What the views read of a table descriptor.
pub record Table : Type 0 where
  pub keys : Option (List String)
  pub timestamp_field : Option String
  pub output_features : List Feature

-- `list(OrderedDict.fromkeys(xs))`
abbrev pub new_names : List String → List String → List String
new_names seen [] = []
new_names seen (x ∷ xs) = if contains x seen then new_names seen xs else x ∷ new_names (x ∷ seen) xs

unfoldable pub from_keys : List String → List String
from_keys xs = new_names [] xs

abbrev pub or_none : List String → Option (List String)
or_none [] = none
or_none (k ∷ ks) = some (k ∷ ks)

-- FeatureView._get_keys
unfoldable pub get_keys : Bool → Table → List Feature → Option (List String)
get_keys keep_source_fields source features =
    or_none
      (from_keys ((if keep_source_fields then key_list source.keys else []) ++ all_keys features))

abbrev pub or_keys : Option (List String) → Option (List String) → Option (List String)
or_keys none keys = keys
or_keys (some ks) keys = some ks

abbrev pub set_keys : Option (List String) → Feature → Feature
set_keys keys f = record {
  name = f.name;
  transform = f.transform;
  keys = or_keys f.keys keys;
  input_features = f.input_features;
}

-- The loop that gives the view's keys to the features that have none.
unfoldable pub set_feature_keys : Option (List String) → List Feature → List Feature
set_feature_keys keys [] = []
set_feature_keys keys (f ∷ fs) = set_keys keys f ∷ set_feature_keys keys fs

abbrev pub or_timestamp : Option String → Option String → Option String
or_timestamp none source_timestamp = source_timestamp
or_timestamp (some f) source_timestamp = some f

pub record View : Type 0 where
  pub source : Table
  pub features : List Feature
  pub keep_source_fields : Bool
  pub keys : Option (List String)
  pub timestamp_field : Option String

-- FeatureView.__init__
unfoldable pub new_feature_view : Table → List Feature → Bool → Option String → Result View
new_feature_view source features keep_source_fields timestamp_field =
    let keys = get_keys keep_source_fields source features in
    check_names [] (set_feature_keys keys features)
    >> ok (record {
      source = source;
      features = set_feature_keys keys features;
      keep_source_fields = keep_source_fields;
      keys = keys;
      timestamp_field = or_timestamp timestamp_field source.timestamp_field;
    })

-- TableDescriptor.get_feature
abbrev pub find_feature : String → List Feature → Result Feature
find_feature name [] = err feathub_exception
find_feature name (f ∷ fs) = if name == f.name then ok f else find_feature name fs

unfoldable pub get_feature : Table → String → Result Feature
get_feature table feature_name = find_feature feature_name table.output_features
