-- ===== src/Views/Derived/Tests.antt =====
-- A derived feature view of trips: a field of the source, a feature of another table, and an expression.
use feathub.Prelude.{
  ◌≡◌, refl, ◌||◌, true, false, String, List, [], ◌∷◌, ◌++◌, none, some, ◌==◌, string_eq, list_eq,
  ◌⊎◌, inl, inr, ℕ, zero, suc, ◌<◌, ◌≤◌, length, if◌then◌else◌, Option, ◌≢◌, ◌↔◌, arith,
}
use feathub.Dict.{get, contains, is_subset}
use feathub.Errors.{ok, err, feathub_exception, Result}
use feathub.Views.{
  Token, Feature, Texts, expression_transform, join_transform, java_udf_transform, variables_of,
  check_names, all_keys, feature_names, new_feature, feature_keys, validate, dependencies,
}
use feathub.Views.FeatureView.{
  Table, View, new_feature_view, get_keys, from_keys, set_feature_keys, get_feature,
}
use feathub.Views.Names.{IsDistinct}
use feathub.Views.Derived.{
  Syntax, build_derived_view, new_derived_view, check_java, resolve_derived,
  get_feature_from_feature_str, get_default_feature_name, default_name_from,
}
use feathub.Views.Derived.Built.{build_derived_view-IsOrdered}
use feathub.Views.Derived.Java.{build_derived_view-java}
use feathub.Views.Derived.DefaultName.{IsInjective, get_default_feature_name-IsFirst}

abbrev one_word : String → List Token
one_word s = record { type = "ID"; value = if s == "`area`" then "area" else s } ∷ []

abbrev plain : Texts
plain = record {
  starts_with = λ s prefix. false;
  ends_with = λ s suffix. false;
  sorted = λ names. names;
}

abbrev small : ℕ → String
small zero = "_0"
small (suc zero) = "_1"
small (suc (suc n)) = "_2"

abbrev syntax : Syntax
syntax = record {
  parts = λ s. if s == "zones.size" then "zones" ∷ "size" ∷ [] else s ∷ [];
  is_id = λ s. true;
  is_static_map_lookup_op = λ s. ok false;
  name_at = small;
}

abbrev feature : String → feathub.Views.Transform → Option (List String) → Feature
feature name transform keys = record {
  name = name;
  transform = transform;
  keys = keys;
  input_features = [];
}

abbrev trips : Table
trips = record {
  keys = none;
  timestamp_field = some "time";
  output_features =
      feature "area" (expression_transform "area") none
      ∷ feature "time" (expression_transform "time") none
      ∷ [];
}

abbrev zones : Table
zones = record {
  keys = some ("area" ∷ []);
  timestamp_field = some "time";
  output_features = feature "size" (expression_transform "size") (some ("area" ∷ [])) ∷ [];
}

abbrev registry : String → Result Table
registry name = if name == "zones" then ok zones else err feathub_exception

abbrev half : Feature
half = feature "half" (expression_transform "size") none

abbrev refs : List (String ⊎ Feature)
refs = inl "area" ∷ inl "zones.size" ∷ inr half ∷ []

abbrev area_keys : Option (List String)
area_keys = some ("area" ∷ [])

abbrev built : View
built = record {
  source = trips;
  features =
      feature "area" (expression_transform "`area`") area_keys
      ∷ feature "size" (join_transform "zones" "`size`") area_keys
      ∷ feature "half" (expression_transform "size") area_keys
      ∷ [];
  keep_source_fields = false;
  keys = area_keys;
  timestamp_field = some "time";
}

build_run : build_derived_view plain syntax registry one_word trips refs false none ≡ ok built
unfolding build_derived_view new_derived_view check_java resolve_derived get_default_feature_name
    default_name_from get_feature_from_feature_str new_feature_view get_feature get_keys from_keys
    set_feature_keys new_feature feature_keys check_names all_keys variables_of validate
    dependencies contains is_subset get
build_run = refl

build_derived_view-IsOrdered_example :
    (features : List Feature) × (resolve_derived plain syntax registry trips
        ("area" ∷ "time" ∷ [])
        refs
      ≡ ok features)
    × (built.features ≡ set_feature_keys built.keys features)
    × IsDistinct (feature_names features)
    × ((before after : List Feature) (f : Feature)
        → features ≡ before ++ f ∷ after
        → (variables : List String) × (dependencies one_word f f.transform ≡ ok variables)
          × ((v : String)
              → contains v variables ≡ true
              → (contains v ("area" ∷ "time" ∷ []) || contains v (feature_names before)) ≡ true))
build_derived_view-IsOrdered_example =
    build_derived_view-IsOrdered plain syntax registry one_word trips refs false none build_run

abbrev taken : List String
taken = "area" ∷ "_0" ∷ []

differ : (a b : String) → (a == b) ≡ false → a ≢ b
differ a b h e = absurd (true_ne (string_eq.eqb_iff a b) h e)
  where
    true_ne : ((a == b) ≡ true ↔ a ≡ b) → (a == b) ≡ false → a ≡ b → ⊥
    true_ne iff h e = let t = iff.1 e in cc

small-IsInjective : IsInjective small (length taken)
small-IsInjective zero zero h k e = refl
small-IsInjective zero (suc zero) h k e = absurd (differ "_0" "_1" refl e)
small-IsInjective zero (suc (suc j)) h k e = absurd (differ "_0" "_2" refl e)
small-IsInjective (suc zero) zero h k e = absurd (differ "_1" "_0" refl e)
small-IsInjective (suc zero) (suc zero) h k e = refl
small-IsInjective (suc zero) (suc (suc j)) h k e = absurd (differ "_1" "_2" refl e)
small-IsInjective (suc (suc i)) zero h k e = absurd (differ "_2" "_0" refl e)
small-IsInjective (suc (suc i)) (suc zero) h k e = absurd (differ "_2" "_1" refl e)
small-IsInjective (suc (suc i)) (suc (suc j)) h k e = omega arith

get_default_feature_name-IsFirst_example :
    (i : ℕ) × (get_default_feature_name small taken ≡ some (small i))
    × (i ≤ length taken)
    × (contains (small i) taken ≡ false)
    × ((j : ℕ) → j < i → contains (small j) taken ≡ true)
get_default_feature_name-IsFirst_example =
    get_default_feature_name-IsFirst small taken small-IsInjective

abbrev java : Feature
java = feature "report" (java_udf_transform ("a" ∷ [])) none

build_derived_view-java_example :
    build_derived_view plain syntax registry one_word trips (inl "area" ∷ inr java ∷ []) false none
    ≢ ok built
build_derived_view-java_example =
    build_derived_view-java plain syntax registry one_word trips (inl "area" ∷ inr java ∷ []) false
      none java ("a" ∷ []) built refl (inr (inl refl))
