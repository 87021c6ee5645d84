-- ===== src/Views/Derived/Java.antt =====
-- Derived feature views with a transform of Java.
use feathub.Prelude.{
  ◌≡◌, sym, ap, ◌∙◌, Bool, String, List, [], ◌∷◌, ◌++◌, Option, ◌⊎◌, inl, inr, Among, ◌≢◌,
}
use feathub.Errors.{Result, ok, bind-eq-ok, ok-injective}
use feathub.Views.{
  Token, Feature, Texts, Transform, java_udf_transform, dependencies, feature_names,
}
use feathub.Views.FeatureView.{Table, View}
use feathub.Views.Derived.{
  Syntax, resolve_derived, build_derived_view, get_feature_from_feature_str, name_or_error,
  get_default_feature_name,
}
use feathub.Views.Derived.Built.{build_derived_view-IsOrdered}

-- The list stands before and after an element.
abbrev pub Around : Feature → List Feature → Type 0
Around f fs = (before after : List Feature) × (fs ≡ before ++ f ∷ after)

module _ (texts : Texts) (syntax : Syntax) (get_features : String → Result Table) where
  resolve_derived-Around :
      (source : Table) (existing : List String) (refs : List (String ⊎ Feature)) (f : Feature)
      {fs : List Feature}
      → resolve_derived texts syntax get_features source existing refs ≡ ok fs
      → Among (inr f) refs
      → Around f fs
  unfolding resolve_derived
  resolve_derived-Around source existing [] f h m = elim m [ ]
  resolve_derived-Around source existing (inl s ∷ refs) f h m =
      let (name, h1, h2) =
        bind-eq-ok
          (name_or_error texts syntax get_features
            (get_default_feature_name syntax.name_at existing))
          _ h in
      let (g, h3, h4) =
        bind-eq-ok (get_feature_from_feature_str texts syntax get_features source s name) _ h2 in
      let (rest, h5, h6) =
        bind-eq-ok (resolve_derived texts syntax get_features source (g.name ∷ existing) refs) _
          h4 in
      elim m [
        | inl e ↦ cc
        | inr n ↦
            let (before, after, e) =
              resolve_derived-Around source (g.name ∷ existing) refs f h5 n in
            (g ∷ before, after, sym (ok-injective h6) ∙ ap (λ xs. g ∷ xs) e)
      ]
  resolve_derived-Around source existing (inr g ∷ refs) f h m =
      let (rest, h5, h6) =
        bind-eq-ok (resolve_derived texts syntax get_features source existing refs) _ h in
      elim m [
        | inl e ↦ ([], rest, cc)
        | inr n ↦
            let (before, after, e) = resolve_derived-Around source existing refs f h5 n in
            (g ∷ before, after, sym (ok-injective h6) ∙ ap (λ xs. g ∷ xs) e)
      ]

  -- No derived feature view with a transform of Java is built.
  pub build_derived_view-java :
      (lexer : String → List Token) (source : Table) (refs : List (String ⊎ Feature))
      (keep_source_fields : Bool) (filter_expr : Option String) (f : Feature)
      (field_names : List String) (view : View)
      → f.transform ≡ java_udf_transform field_names
      → Among (inr f) refs
      → build_derived_view texts syntax get_features lexer source refs keep_source_fields
          filter_expr
        ≢ ok view
  unfolding dependencies
  build_derived_view-java lexer source refs keep filter_expr f field_names view e m h =
      let (features, h1, same, distinct, valid) =
        build_derived_view-IsOrdered texts syntax get_features lexer source refs keep filter_expr
          h in
      let (before, after, e') =
        resolve_derived-Around source (feature_names source.output_features) refs f h1 m in
      let (vs, h2, reads) = valid before after f e' in rejected f.transform e h2
    where
      rejected :
          (t : Transform) {vs : List String}
          → t ≡ java_udf_transform field_names
          → dependencies lexer f t ≡ ok vs
          → ⊥
      rejected t {vs} e h =
          let k : dependencies lexer f (java_udf_transform field_names) ≡ ok vs =
            ap (dependencies lexer f) (sym e) ∙ h in
          cc
