-- ===== src/Views/Sliding/Valid.antt =====
-- What the validation of a sliding feature view guarantees.
use feathub.Prelude.{
  ◌≡◌, refl, sym, ap, ◌∙◌, Bool, true, false, ◌||◌, String, List, [], ◌∷◌, ◌++◌, some, Among, ◌↔◌,
  inl, string_eq,
}
use feathub.Dict.{contains, is_subset}
use feathub.Errors.{ok, feathub_exception, bind-eq-ok, seq-ok, guard, ok-injective, ◌>>◌, Result}
use feathub.Views.{
  Token, Feature, feature_names, Transform, group_by_keys_of, expression_transform,
  python_udf_transform, sliding_window_transform, join_transform, java_udf_transform,
  over_window_transform,
}
use feathub.Views.Among.{contains-feature_names, named, Among-keep, Among-eq}
use feathub.Views.Order.{contains-is_subset}
use feathub.Views.FeatureView.{Table}
use feathub.Views.Sliding.{
  Parts, Sets, per_row_variables, validate_sliding_view, sliding_keys, get_group_by_keys,
  validate_pre_sliding_features, validate_sliding_features, validate_post_sliding_features,
  pop_keys, first_group_by_keys, check_sliding, split_features, keys_or_raise,
}
use feathub.Views.Sliding.Split.{
  before, after, slidings, is_sliding, parts_of, split_features-eq-parts_of,
}
use feathub.Views.Sliding.Reads.{
  Reads, sliding_reads, sliding_reads-keys, check_per_row-Reads, check_sliding-Reads,
  check_sliding-eq-group_keys,
}
use feathub.Views.Sliding.Keys.{group_keys-of, Among-group_keys, get_group_by_keys-Among}

-- A set is iterated over element by element, and `pop` takes one of the elements.
pub record IsSets (sets : Sets) : Type 0 where
  pub iterated : (fs : List Feature) (f : Feature) → Among f (sets.iterate fs) ↔ Among f fs
  pub popped : (ks : List String) (kss : List (List String)) → Among (sets.pop ks kss) (ks ∷ kss)

module _ (lexer : String → List Token) where
  -- The features before the windows are keys of the windows and are computed from fields of the source
  -- and from each other; those with a window have the keys and read fields of the source and the
  -- features before; and those after read the windows, the time, the keys and each other.
  pub record IsValid (source_names : List String) (fs : List Feature) (timestamp_field : String)
      (keys : List String) : Type 0 where
    pub before_windows :
        (f : Feature)
        → Among f (before fs)
        → (contains f.name keys ≡ true)
          × Reads
              (per_row_variables lexer f f.transform)
              (λ v. contains v source_names || contains v (feature_names (before fs)))
    pub windows :
        (f : Feature)
        → Among f (slidings fs)
        → (sliding_keys f.transform ≡ some keys)
          × Reads
              (sliding_reads lexer f.transform)
              (λ v. contains v (source_names ++ feature_names (before fs)))
    pub after_windows :
        (f : Feature)
        → Among f (after fs)
        → Reads (per_row_variables lexer f f.transform) (λ v.
          contains v (feature_names (slidings fs) ++ timestamp_field ∷ keys)
          || contains v (feature_names (after fs)))

  module _ (sets : Sets) (is_sets : IsSets sets) where
    contains-iterate :
        (v : String) (fs : List Feature)
        → contains v (feature_names (sets.iterate fs)) ≡ true
        → contains v (feature_names fs) ≡ true
    contains-iterate v fs h =
        let (f, m, e) = named v (sets.iterate fs) h in
        rw (sym e) (contains-feature_names f fs ((is_sets.iterated fs f).0 m))

    -- The names of a set are allowed where those of the list are.
    Reads-iterate :
        (variables : Result (List String)) (valid : List String) (fs : List Feature)
        → Reads variables (λ v. contains v valid || contains v (feature_names (sets.iterate fs)))
        → Reads variables (λ v. contains v valid || contains v (feature_names fs))
    Reads-iterate variables valid fs (vs, e, allowed) = (
      vs,
      e,
      λ v k.
          either (contains v valid) (contains v (feature_names (sets.iterate fs)))
            (contains v (feature_names fs)) (allowed v k) (contains-iterate v fs),
    )
      where
        either : (a b c : Bool) → (a || b) ≡ true → (b ≡ true → c ≡ true) → (a || c) ≡ true
        either true b c h k = refl
        either false b c h k = k h

    before-valid :
        (source_names : List String) (pre : List Feature) (f : Feature)
        → validate_pre_sliding_features lexer sets source_names pre ≡ ok tt
        → Among f pre
        → Reads
            (per_row_variables lexer f f.transform)
            (λ v. contains v source_names || contains v (feature_names pre))
    unfolding validate_pre_sliding_features
    before-valid source_names pre f h m =
        Reads-iterate (per_row_variables lexer f f.transform) source_names pre (
          check_per_row-Reads lexer source_names (sets.iterate pre) f h
            ((is_sets.iterated pre f).1 m))

    pop_keys-Among :
        (kss : List (List String)) {ks : List String} → pop_keys sets kss ≡ ok ks → Among ks kss
    pop_keys-Among [] h = cc
    pop_keys-Among (js ∷ kss) h =
        Among-eq (sets.pop js kss) _ (js ∷ kss) (ok-injective h) (is_sets.popped js kss)

    guarded : (test : Bool) → guard test feathub_exception ≡ ok tt → test ≡ true
    guarded true h = refl
    guarded false h = cc

    first-keys :
        (gs : List Feature) {keys ks : List String}
        → first_group_by_keys gs ≡ ok ks
        → ((g : Feature) → Among g gs → sliding_keys g.transform ≡ some keys)
        → ks ≡ keys
    first-keys [] h all = cc
    first-keys (g ∷ gs) h all = first_keys g.transform h (all g (inl refl))
      where
        first_keys :
            (t : Transform) {keys ks : List String}
            → keys_or_raise (group_by_keys_of t) ≡ ok ks
            → sliding_keys t ≡ some keys
            → ks ≡ keys
        first_keys (expression_transform e) h k = cc
        first_keys (join_transform e x) h k = cc
        first_keys python_udf_transform h k = cc
        first_keys (java_udf_transform schema) h k = cc
        first_keys (over_window_transform e g xs) h k = cc
        first_keys (sliding_window_transform e g xs s) h k = cc

    -- The features of the view, whose sliding features have the keys.
    module _ (fs : List Feature) (keys : List String) (one : get_group_by_keys fs ≡ ok keys) where
      shared_keys :
          (f : Feature) (ks : List String)
          → Among f (slidings fs)
          → sliding_keys f.transform ≡ some ks
          → ks ≡ keys
      shared_keys f ks m e =
          get_group_by_keys-Among fs ks one
            (Among-group_keys fs f ks (Among-keep is_sliding fs f m) e)

      sliding-valid :
          (source_names : List String) (pre : List Feature)
          → validate_sliding_features lexer sets source_names pre (slidings fs) ≡ ok tt
          → ((f : Feature) → Among f pre → contains f.name keys ≡ true)
            × ((f : Feature)
                → Among f (slidings fs)
                → (sliding_keys f.transform ≡ some keys)
                  × Reads
                      (sliding_reads lexer f.transform)
                      (λ v. contains v (source_names ++ feature_names pre)))
      unfolding validate_sliding_features
      sliding-valid source_names pre h =
          let (kss, h1, h2) =
            bind-eq-ok
              (check_sliding lexer (source_names ++ feature_names pre) (sets.iterate (slidings fs)))
              _ h in
          let (ks, h3, h4) = bind-eq-ok (pop_keys sets kss) _ h2 in
          let eq = check_sliding-eq-group_keys lexer _ _ h1 in
          let (g, m, e) =
            group_keys-of (sets.iterate (slidings fs)) ks (rw (sym eq) (pop_keys-Among kss h3)) in
          let same = shared_keys g ks ((is_sets.iterated (slidings fs) g).0 m) e in
          (
            λ f n. rw (sym same) (
                contains-is_subset f.name (feature_names (sets.iterate pre)) ks
                  (guarded (is_subset (feature_names (sets.iterate pre)) ks) h4)
                  (contains-feature_names f (sets.iterate pre) ((is_sets.iterated pre f).1 n))),
            λ f n.
                let reads =
                  check_sliding-Reads lexer _ _ f h1 ((is_sets.iterated (slidings fs) f).1 n) in
                let (js, k) = sliding_reads-keys lexer f.transform (reads.1) in
                (k ∙ ap some (shared_keys f js n k), reads),
          )

      post-valid :
          (post : List Feature) (timestamp_field : String) (f : Feature)
          → validate_post_sliding_features lexer sets (slidings fs) post timestamp_field ≡ ok tt
          → ((g : Feature) → Among g (slidings fs) → sliding_keys g.transform ≡ some keys)
          → Among f post
          → Reads (per_row_variables lexer f f.transform) (λ v.
            contains v (feature_names (slidings fs) ++ timestamp_field ∷ keys)
            || contains v (feature_names post))
      unfolding validate_post_sliding_features
      post-valid post timestamp_field f h all m =
          let (ks, h1, h2) = bind-eq-ok (first_group_by_keys (sets.iterate (slidings fs))) _ h in
          let same =
            first-keys (sets.iterate (slidings fs)) h1
              (λ g n. all g ((is_sets.iterated (slidings fs) g).0 n)) in
          Reads-iterate (per_row_variables lexer f f.transform) _ post (
            check_per_row-Reads lexer _ (sets.iterate post) f (rw (sym same) h2)
              ((is_sets.iterated post f).1 m))

      -- The checks on the parts.
      abbrev loops : Table → String → Parts → Result (Unit {0})
      loops source timestamp_field parts =
          validate_pre_sliding_features lexer sets (feature_names source.output_features)
            parts.pre_sliding_features
          >> validate_sliding_features lexer sets (feature_names source.output_features)
              parts.pre_sliding_features parts.sliding_features
          >> validate_post_sliding_features lexer sets parts.sliding_features
              parts.post_sliding_features timestamp_field

      pub validate_sliding_view-IsValid :
          (source : Table) (timestamp_field : String)
          → validate_sliding_view lexer sets source fs timestamp_field ≡ ok tt
          → IsValid (feature_names source.output_features) fs timestamp_field keys
      unfolding validate_sliding_view
      validate_sliding_view-IsValid source timestamp_field h =
          let (parts, h1, h2) = bind-eq-ok (split_features fs (parts_of [] [] [])) _ h in
          let h3 =
            ap (loops source timestamp_field) (sym (split_features-eq-parts_of fs h1)) ∙ h2 in
          let source_names = feature_names source.output_features in
          let pre_checked = validate_pre_sliding_features lexer sets source_names (before fs) in
          let sliding_checked =
            validate_sliding_features lexer sets source_names (before fs) (slidings fs) in
          let post_checked =
            validate_post_sliding_features lexer sets (slidings fs) (after fs) timestamp_field in
          let (ab, c) = seq-ok (pre_checked >> sliding_checked) post_checked h3 in
          let (a, b) = seq-ok pre_checked sliding_checked ab in
          let (key, window) = sliding-valid (feature_names source.output_features) (before fs) b in
          record {
            before_windows = λ f m. (key f m, before-valid _ (before fs) f a m);
            windows = window;
            after_windows =
                λ f m. post-valid (after fs) timestamp_field f c (λ g n. (window g n).0) m;
          }
