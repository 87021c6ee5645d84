-- ===== src/Views/Tests.antt =====
-- A small view, and the theorems at it.
use feathub.Prelude.{
  ◌≡◌, refl, false, ◌||◌, ◌&&◌, String, List, [], ◌∷◌, none, some, ◌==◌, string_eq,
}
use feathub.Dict.{get, contains, is_subset}
use feathub.Errors.{ok, err, feathub_exception, runtime_error}
use feathub.Views.{
  Token, Feature, Texts, expression_transform, over_window_transform, sliding_window_transform,
  variables_of, dependencies, validate, check_names, get_output_fields, get_step_size, all_keys,
  feature_names, timestamp_fields, new_feature, feature_keys,
}
use feathub.Views.Fields.{contains-get_output_fields}

-- Expressions of one word.
abbrev one_word : String → List Token
one_word s = record { type = "ID"; value = s } ∷ []

abbrev cost : Feature
cost = record {
  name = "cost";
  transform = expression_transform "price";
  keys = some ("id" ∷ []);
  input_features = [];
}

abbrev total : Feature
total = record {
  name = "total";
  transform = over_window_transform "cost" none ("id" ∷ []);
  keys = some ("id" ∷ []);
  input_features = [];
}

abbrev source_fields : List String
source_fields = "id" ∷ "price" ∷ "time" ∷ "note" ∷ []

validate_run : validate one_word source_fields (cost ∷ total ∷ []) ≡ ok tt
unfolding validate dependencies variables_of contains is_subset get
validate_run = refl

swapped_run : validate one_word source_fields (total ∷ cost ∷ []) ≡ err feathub_exception
unfolding validate dependencies variables_of contains is_subset get
swapped_run = refl

output_run :
    get_output_fields false (some "time") (cost ∷ total ∷ []) source_fields
    ≡ "id" ∷ "time" ∷ "cost" ∷ "total" ∷ []
unfolding get_output_fields all_keys contains
output_run = refl

contains-get_output_fields_example :
    contains "note" (get_output_fields false (some "time") (cost ∷ total ∷ []) source_fields) ≡ (
      contains "note" (feature_names (cost ∷ total ∷ []))
      || (contains "note" source_fields
          && (false
              || contains "note" (timestamp_fields (some "time"))
              || contains "note" (all_keys (cost ∷ total ∷ [])))))
contains-get_output_fields_example =
    contains-get_output_fields "note" false (some "time") (cost ∷ total ∷ []) source_fields

names_run : check_names [] (cost ∷ total ∷ cost ∷ []) ≡ err feathub_exception
unfolding check_names contains
names_run = refl

step_run : get_step_size (cost ∷ []) ≡ err feathub_exception
unfolding get_step_size
step_run = refl

abbrev texts : Texts
texts = record { starts_with = λ s p. s == p; ends_with = λ s p. s == p; sorted = λ ks. ks }

feature_run :
    new_feature texts "total" (sliding_window_transform "cost" none ("id" ∷ []) 1000) (some []) []
    ≡ err runtime_error
unfolding new_feature feature_keys is_subset contains
feature_run = refl
