-- ===== src/Views/Derived/Built.antt =====
-- What a derived feature view that was built guarantees.
use feathub.Prelude.{
  ◌≡◌, refl, sym, ap, ◌∙◌, Bool, true, ◌||◌, String, List, [], ◌∷◌, ◌++◌, Option, none, ◌⊎◌,
  string_eq,
}
use feathub.Dict.{contains}
use feathub.Errors.{Result, ok, bind-eq-ok, ok-injective, seq-ok}
use feathub.Views.{Token, Feature, Texts, feature_names, dependencies, validate, check_names}
use feathub.Views.Order.{validate-contains}
use feathub.Views.Names.{IsDistinct, check_names-IsDistinct}
use feathub.Views.FeatureView.{Table, View, new_feature_view, set_feature_keys, get_keys}
use feathub.Views.Derived.{
  Syntax, resolve_derived, build_derived_view, new_derived_view, check_java, resolved,
}

feature_names-set_feature_keys :
    (keys : Option (List String)) (fs : List Feature)
    → feature_names (set_feature_keys keys fs) ≡ feature_names fs
unfolding set_feature_keys
feature_names-set_feature_keys keys [] = refl
feature_names-set_feature_keys keys (f ∷ fs) = rw (feature_names-set_feature_keys keys fs) refl

-- The features of a view that the constructor returns are those that it was given, with keys, and no
-- two have the same name.
pub new_feature_view-IsDistinct :
    (source : Table) (fs : List Feature) (keep : Bool) (timestamp_field : Option String)
    {view : View}
    → new_feature_view source fs keep timestamp_field ≡ ok view
    → IsDistinct (feature_names fs) × (view.features ≡ set_feature_keys view.keys fs)
unfolding new_feature_view
new_feature_view-IsDistinct source fs keep timestamp_field h =
    let keys = get_keys keep source fs in
    let (checked, e) = seq-ok (check_names [] (set_feature_keys keys fs)) _ h in
    (
      rw (sym (feature_names-set_feature_keys keys fs))
          (check_names-IsDistinct [] (set_feature_keys keys fs) checked),
      rw (sym (ok-injective e)) refl,
    )

-- A derived feature view that is built has the features that its list refers to, no two with the same
-- name, and each depends only on fields of the source and on features that come before it.
pub build_derived_view-IsOrdered :
    (texts : Texts) (syntax : Syntax) (get_features : String → Result Table)
    (lexer : String → List Token) (source : Table) (refs : List (String ⊎ Feature))
    (keep_source_fields : Bool) (filter_expr : Option String) {view : View}
    → build_derived_view texts syntax get_features lexer source refs keep_source_fields filter_expr
      ≡ ok view
    → (features : List Feature) × (resolve_derived texts syntax get_features source
          (feature_names source.output_features)
          refs
        ≡ ok features)
      × (view.features ≡ set_feature_keys view.keys features)
      × IsDistinct (feature_names features)
      × ((before after : List Feature) (f : Feature)
          → features ≡ before ++ f ∷ after
          → (variables : List String) × (dependencies lexer f f.transform ≡ ok variables)
            × ((v : String)
                → contains v variables ≡ true
                → (contains v (feature_names source.output_features)
                    || contains v (feature_names before))
                  ≡ true))
unfolding build_derived_view new_derived_view
build_derived_view-IsOrdered texts syntax get_features lexer source refs keep filter_expr h =
    let source_names = feature_names source.output_features in
    let (features, h1, h2) =
      bind-eq-ok (resolve_derived texts syntax get_features source source_names refs) _ h in
    let (valid, h3) = seq-ok (validate lexer source_names features) _ h2 in
    let (java, h4) = seq-ok (check_java (resolved features) keep filter_expr) _ h3 in
    let (distinct, same) = new_feature_view-IsDistinct source features keep none h4 in
    (
      features,
      h1,
      same,
      distinct,
      λ before after f e.
          validate-contains lexer source_names before after f
            (ap (validate lexer source_names) (sym e) ∙ valid),
    )
