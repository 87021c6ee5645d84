-- ===== src/Views/Sliding/Built.antt =====
-- What a sliding feature view that was built guarantees.
use feathub.Prelude.{
  ◌≡◌, sym, ap, ◌∙◌, Bool, true, false, ◌&&◌, not, String, List, [], ◌∷◌, ◌++◌, Option, none, ◌⊎◌,
  if◌then◌else◌,
}
use feathub.Errors.{
  Result, ok, err, feathub_exception, feathub_configuration_exception, bind-eq-ok, ok-injective,
  guard-bind, seq-ok,
}
use feathub.Views.{
  Token, Feature, Transform, Texts, new_feature, feature_names, get_step_size, feature_keys,
  group_by_keys_of,
}
use feathub.Views.FeatureView.{Table, View, new_feature_view, set_feature_keys, get_keys}
use feathub.Views.Sliding.{
  Sets, SlidingView, SlidingConfig, get_group_by_keys, sliding_keys, group_keys, new_sliding_view,
  resolve_features, build_sliding_view, validate_sliding_view, window_time_feature,
  window_time_expression, single_keys,
}
use feathub.Views.Names.{IsDistinct}
use feathub.Views.Derived.Built.{new_feature_view-IsDistinct}
use feathub.Views.Sliding.Keys.{group_keys-set_feature_keys, group_keys-append_per_row}
use feathub.Views.Sliding.Valid.{IsSets, IsValid, validate_sliding_view-IsValid}

new_feature-transform :
    (texts : Texts) (name : String) (t : Transform) (ks : Option (List String))
    (inputs : List String) {f : Feature}
    → new_feature texts name t ks inputs ≡ ok f
    → f.transform ≡ t
unfolding new_feature
new_feature-transform texts name t ks inputs h =
    let (keys, h1, h2) = bind-eq-ok (feature_keys ks (group_by_keys_of t)) _ (passed _ h) in
    ap (λ f. f.transform) (sym (ok-injective h2))
  where
    passed :
        (test : Bool) {made : Result Feature} {f : Feature}
        → (if test then err feathub_exception else made) ≡ ok f
        → made ≡ ok f
    passed true h = cc
    passed false h = h

new_feature_view-features :
    (source : Table) (fs : List Feature) (keep : Bool) (timestamp_field : Option String)
    {view : View}
    → new_feature_view source fs keep timestamp_field ≡ ok view
    → view.features ≡ set_feature_keys (get_keys keep source fs) fs
unfolding new_feature_view
new_feature_view-features source fs keep timestamp_field h =
    let (done, e) = seq-ok _ _ h in ap (λ v. v.features) (sym (ok-injective e))

-- The constructor adds the window's time to the features, and takes the keys that all sliding features
-- share.
new_sliding_view-features :
    (texts : Texts) (source : Table) (fs : List Feature) (timestamp_field : String)
    (config : SlidingConfig) (view : SlidingView)
    → new_sliding_view texts source fs timestamp_field config ≡ ok view
    → (get_group_by_keys fs ≡ ok view.group_by_keys)
      × (window_time : Feature) × (window_time_feature texts timestamp_field ≡ ok window_time)
      × IsDistinct (feature_names (fs ++ window_time ∷ []))
      × (view.view.features ≡ set_feature_keys view.view.keys (fs ++ window_time ∷ []))
unfolding new_sliding_view get_group_by_keys
new_sliding_view-features texts source fs timestamp_field config view h =
    let (wt, h1, h2) = bind-eq-ok (window_time_feature texts timestamp_field) _ h in
    let (v, h3, h4) = bind-eq-ok (new_feature_view source (fs ++ wt ∷ []) false _) _ h2 in
    let allowed = not (not config.enable_empty_window_output && config.skip_same_window_output) in
    let (enabled, h5) = guard-bind allowed feathub_configuration_exception _ h4 in
    let (step, h6, h7) = bind-eq-ok (get_step_size v.features) _ h5 in
    let (ks, h8, h9) = bind-eq-ok (get_group_by_keys v.features) _ h7 in
    let per_row =
      ap sliding_keys
        (new_feature-transform texts timestamp_field window_time_expression none [] h1) in
    let same =
      ap group_keys (new_feature_view-features source (fs ++ wt ∷ []) false _ h3)
      ∙ group_keys-set_feature_keys _ (fs ++ wt ∷ [])
      ∙ group_keys-append_per_row fs wt per_row in
    let made : SlidingView = record { view = v; step_size = step; group_by_keys = ks } in
    let eq : made ≡ view = ok-injective h9 in
    let (distinct, features) = new_feature_view-IsDistinct source (fs ++ wt ∷ []) false _ h3 in
    (ap single_keys (sym same) ∙ h8 ∙ ap returned_keys eq, wt, h1, distinct, rw (sym eq) features)
  where
    returned_keys : SlidingView → Result (List String)
    returned_keys w = ok w.group_by_keys

-- Where a set is iterated over element by element and pop takes one of its elements, a sliding feature
-- view that is built has the features that its list refers to and one for the window's time, with keys,
-- no two with the same name. Of those that its list refers to, the ones before the windows are keys of
-- the windows and read only fields of the source and each other, the ones with a window have the keys
-- of the view and read only fields of the source and the features before, and the ones after read only
-- the windows, the time, the keys and each other.
pub build_sliding_view-IsValid :
    (texts : Texts) (lexer : String → List Token) (sets : Sets)
    → IsSets sets
    → (source : Table) (refs : List (String ⊎ Feature)) (timestamp_field : String)
      (config : SlidingConfig) {view : SlidingView}
    → build_sliding_view texts lexer sets source refs timestamp_field config ≡ ok view
    → (features : List Feature) × (resolve_features texts source timestamp_field refs ≡ ok features)
      × (window_time : Feature) × (window_time_feature texts timestamp_field ≡ ok window_time)
      × IsDistinct (feature_names (features ++ window_time ∷ []))
      × (view.view.features ≡ set_feature_keys view.view.keys (features ++ window_time ∷ []))
      × IsValid lexer
          (feature_names source.output_features)
          features
          timestamp_field
          view.group_by_keys
unfolding build_sliding_view
build_sliding_view-IsValid texts lexer sets is_sets source refs timestamp_field config h =
    let (features, h1, h2) = bind-eq-ok (resolve_features texts source timestamp_field refs) _ h in
    let (done, h3, h4) =
      bind-eq-ok (validate_sliding_view lexer sets source features timestamp_field) _ h2 in
    let (keys, window_time, h5, distinct, same) =
      new_sliding_view-features texts source features timestamp_field config _ h4 in
    (
      features,
      h1,
      window_time,
      h5,
      distinct,
      same,
      validate_sliding_view-IsValid lexer sets is_sets features _ keys source _ h3,
    )
