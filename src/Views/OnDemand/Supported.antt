-- ===== src/Views/OnDemand/Supported.antt =====
-- What an on-demand feature view that was built guarantees.
use feathub.Prelude.{
  ◌≡◌, sym, ap, ◌∙◌, Bool, true, String, List, [], ◌∷◌, none, ◌⊎◌, inl, inr, Among,
}
use feathub.Errors.{Result, ok, runtime_error, bind-eq-ok, ok-injective, seq-ok, guard-bind}
use feathub.Views.{Feature, Texts, feature_names}
use feathub.Views.FeatureView.{Table, View, new_feature_view, set_feature_keys}
use feathub.Views.Names.{IsDistinct}
use feathub.Views.Derived.{resolved}
use feathub.Views.Derived.Built.{new_feature_view-IsDistinct}
use feathub.Views.OnDemand.{
  Registered, is_supported, check_supported, new_on_demand_view, resolve_on_demand,
  build_on_demand_view,
}

module _ (parts : String → List String) where
  check_supported-all :
      (fs : List Feature) (f : Feature)
      → check_supported parts (resolved fs) ≡ ok tt
      → Among f fs
      → is_supported f.transform ≡ true
  unfolding check_supported
  check_supported-all [] f h m = elim m [ ]
  check_supported-all (g ∷ fs) f h m =
      let (supported, rest) = guard-bind (is_supported g.transform) runtime_error _ h in
      elim m [
        | inl e ↦ ap (λ x. is_supported x.transform) e ∙ supported
        | inr n ↦ check_supported-all fs f rest n
      ]

  -- An on-demand feature view that is built has the features that its list refers to, with keys, no two
  -- with the same name, and each joins a table or is an expression.
  pub build_on_demand_view-IsSupported :
      (texts : Texts) (get_features : String → Result Registered) (source : Table)
      (refs : List (String ⊎ Feature)) (keep_source_fields : Bool) {view : View}
      → build_on_demand_view parts texts get_features source refs keep_source_fields ≡ ok view
      → (features : List Feature) × (resolve_on_demand parts texts get_features refs ≡ ok features)
        × (view.features ≡ set_feature_keys view.keys features)
        × IsDistinct (feature_names features)
        × ((f : Feature) → Among f view.features → is_supported f.transform ≡ true)
  unfolding build_on_demand_view new_on_demand_view
  build_on_demand_view-IsSupported texts get_features source refs keep h =
      let (features, h1, h2) = bind-eq-ok (resolve_on_demand parts texts get_features refs) _ h in
      let (made, h3, h4) = bind-eq-ok (new_feature_view source features keep none) _ h2 in
      let (checked, h5) = seq-ok (check_supported parts (resolved made.features)) _ h4 in
      let (distinct, same) = new_feature_view-IsDistinct source features keep none h3 in
      (
        features,
        h1,
        rw (sym (ok-injective h5)) same,
        distinct,
        rw (sym (ok-injective h5)) (λ f m. check_supported-all made.features f checked m),
      )
