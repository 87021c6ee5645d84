-- ===== src/LocalProcessor/SlidingTable/Loop.antt =====
-- Where the loop over the features of a sliding view puts each feature.
use feathub.Prelude.{
  ◌≡◌, refl, sym, ap, ◌∙◌, Bool, true, false, String, List, [], ◌∷◌, ◌++◌, Option, none, some, ◌⊎◌,
  inl, inr, HasEq, string_eq, ◌==◌, if◌then◌else◌, append_assoc, append-nil, nat_eq, list_eq,
}
use feathub.Errors.{ok, err, feathub_exception, bind-eq-ok, ok-injective}
use feathub.Dict.{eq_self}
use feathub.Aggregation.{Numpy}
use feathub.Dsl.Local.{Python}
use feathub.LocalProcessor.OverWindow.{Pandas}
use feathub.LocalProcessor.Frame.{Frame}
use feathub.LocalProcessor.Tables.{Expressions}
use feathub.LocalProcessor.SlidingTable.{
  SlidingTransform, SlidingFeature, SlidingWindowDescriptor, Prepared, expression, python_udf,
  sliding_window, other, same_window, same_or_raise, add_column, add_columns, prepare_feature,
  prepare_features,
}
use feathub.SlidingWindow.{AggregationFieldDescriptor}
use feathub.LocalProcessor.SlidingTable.Places.{
  Agg, HasWindow, window_of, aggs_of, per_rows, AllSame, prepared, before, after, first_window,
  SameAs, others,
}

module _ {V : Type 0} ⦃e : HasEq V⦄ (py : Python V) (np : Numpy V) (pd : Pandas V)
    (ex : Expressions V) (zone : py.dt.Tz) where
  passed :
      (test : Bool) {d first : SlidingWindowDescriptor}
      → (if test then ok first else err feathub_exception) ≡ ok d
      → (test ≡ true) × (first ≡ d)
  passed true h = (refl, ok-injective h)
  passed false h = cc

  -- A round after the first window.
  prepare_feature-later :
      (f : SlidingFeature V) (t : SlidingTransform V) (df : Frame V) (d : SlidingWindowDescriptor)
      (aggs : List AggregationFieldDescriptor) (following : List (SlidingFeature V))
      {next : Prepared V}
      → prepare_feature py np pd ex zone f t (prepared df (some d) aggs following) ≡ ok next
      → ((window_of t ≡ none) × (next ≡ prepared df (some d) aggs (following ++ f ∷ [])))
        ⊎ ((w : SlidingWindowDescriptor) × (a : AggregationFieldDescriptor) × (window_of t
              ≡ some (w, a))
            × (same_window d w ≡ true)
            × (next ≡ prepared df (some d) (aggs ++ a ∷ []) following))
  prepare_feature-later f (expression expr) df d aggs following h = inl (refl, sym (ok-injective h))
  prepare_feature-later f (python_udf udf) df d aggs following h = inl (refl, sym (ok-injective h))
  prepare_feature-later f (sliding_window step keys agg) df d aggs following h =
      let w : SlidingWindowDescriptor = record { step_size = step; group_by_keys = keys } in
      let (d', h1, h2) = bind-eq-ok (same_or_raise (some d) w) _ h in
      let (same, eq) = passed (same_window d w) h1 in
      inr (w, agg, refl, same, rw eq (sym (ok-injective h2)))
  prepare_feature-later f other df d aggs following h = cc

  decide : (b : Bool) → (b ≡ true) ⊎ (b ≡ false)
  decide true = inl refl
  decide false = inr refl

  later :
      (ts : String) (fs : List (SlidingFeature V)) (df : Frame V) (d : SlidingWindowDescriptor)
      (aggs : List AggregationFieldDescriptor) (following : List (SlidingFeature V))
      {p : Prepared V}
      → prepare_features py np pd ex zone ts fs (prepared df (some d) aggs following) ≡ ok p
      → (p
          ≡ prepared df
              (some d)
              (aggs ++ aggs_of (others ts fs))
              (following ++ per_rows (others ts fs)))
        × AllSame d (others ts fs)
  unfolding prepare_features
  later ts [] df d aggs following h =
      (rw (append-nil aggs, append-nil following) (sym (ok-injective h)), tt)
  later ts (f ∷ fs) df d aggs following h = elim (decide (f.name == ts)) [
    | inl eq ↦ rw eq (later ts fs df d aggs following (rw eq at h))
    | inr eq ↦
        let (next, h1, h2) =
          bind-eq-ok
            (prepare_feature py np pd ex zone f f.transform (prepared df (some d) aggs following)) _
            (rw eq at h) in
        elim (prepare_feature-later f f.transform df d aggs following h1) [
          | inl (w, n) ↦
              let (q, same) =
                later ts fs df d aggs (following ++ f ∷ [])
                  (ap (prepare_features py np pd ex zone ts fs) (sym n) ∙ h2) in
              (
                rw (eq, w, sym (append_assoc following (f ∷ []) (per_rows (others ts fs)))) q,
                rw (eq, w) (tt, same),
              )
          | inr (v, a, w, agree, n) ↦
              let (q, same) =
                later ts fs df d (aggs ++ a ∷ []) following
                  (ap (prepare_features py np pd ex zone ts fs) (sym n) ∙ h2) in
              (
                rw (eq, w, sym (append_assoc aggs (a ∷ []) (aggs_of (others ts fs)))) q,
                rw (eq, w) (agree, same),
              )
        ]
  ]

  -- A round before the first window.
  prepare_feature-first :
      (f : SlidingFeature V) (t : SlidingTransform V) (df : Frame V) {next : Prepared V}
      → prepare_feature py np pd ex zone f t (prepared df none [] []) ≡ ok next
      → ((window_of t ≡ none)
          × ((df' : Frame V) × (add_column py np pd ex zone f df ≡ ok df')
              × (next ≡ prepared df' none [] [])))
        ⊎ ((w : SlidingWindowDescriptor) × (a : AggregationFieldDescriptor) × (window_of t
              ≡ some (w, a))
            × (next ≡ prepared df (some w) (a ∷ []) []))
  prepare_feature-first f (expression expr) df h =
      let (df', h1, h2) = bind-eq-ok (add_column py np pd ex zone f df) _ h in
      inl (refl, (df', h1, sym (ok-injective h2)))
  prepare_feature-first f (python_udf udf) df h =
      let (df', h1, h2) = bind-eq-ok (add_column py np pd ex zone f df) _ h in
      inl (refl, (df', h1, sym (ok-injective h2)))
  prepare_feature-first f (sliding_window step keys agg) df h =
      inr (record { step_size = step; group_by_keys = keys }, agg, refl, sym (ok-injective h))
  prepare_feature-first f other df h = cc

  same_self : (w : SlidingWindowDescriptor) → same_window w w ≡ true
  same_self w = rw (eq_self w.step_size, eq_self w.group_by_keys) refl

  HasWindow-self :
      (o : Option Agg) {v : SlidingWindowDescriptor} {a : AggregationFieldDescriptor}
      → o ≡ some (v, a)
      → HasWindow v o
  HasWindow-self o {v = v} w = rw w (same_self v)

  HasWindow-none : (o : Option Agg) (d : SlidingWindowDescriptor) → o ≡ none → HasWindow d o
  HasWindow-none o d w = rw w tt

  SameAs-none :
      (r : Option SlidingWindowDescriptor) (f : SlidingFeature V) (fs : List (SlidingFeature V))
      → window_of f.transform ≡ none
      → SameAs r fs
      → SameAs r (f ∷ fs)
  SameAs-none none f fs w same = tt
  SameAs-none (some d) f fs w same = (HasWindow-none (window_of f.transform) d w, same)

  -- If the loop over the features of a sliding view returns, then, leaving out the window's time, the
  -- features before the first window are columns of the source in their order, each window is
  -- aggregated and is the same as the first, and the other features after it wait for the windows.
  pub prepare_features-parts :
      (ts : String) (fs : List (SlidingFeature V)) (df : Frame V) {p : Prepared V}
      → prepare_features py np pd ex zone ts fs (prepared df none [] []) ≡ ok p
      → (df' : Frame V) × (add_columns py np pd ex zone (before (others ts fs)) df ≡ ok df')
        × (p
            ≡ prepared df'
                (first_window (others ts fs))
                (aggs_of (others ts fs))
                (after (others ts fs)))
        × SameAs (first_window (others ts fs)) (others ts fs)
  unfolding prepare_features add_columns
  prepare_features-parts ts [] df h = (df, refl, sym (ok-injective h), tt)
  prepare_features-parts ts (f ∷ fs) df h = elim (decide (f.name == ts)) [
    | inl eq ↦ rw eq (prepare_features-parts ts fs df (rw eq at h))
    | inr eq ↦
        let (next, h1, h2) =
          bind-eq-ok (prepare_feature py np pd ex zone f f.transform (prepared df none [] [])) _
            (rw eq at h) in
        elim (prepare_feature-first f f.transform df h1) [
          | inl (w, (df', h3, n)) ↦
              let (df2, h4, q, same) =
                prepare_features-parts ts fs df'
                  (ap (prepare_features py np pd ex zone ts fs) (sym n) ∙ h2) in
              (
                df2,
                rw (eq, w, h3) h4,
                rw (eq, w) q,
                rw (eq, w) (SameAs-none (first_window (others ts fs)) f (others ts fs) w same),
              )
          | inr (v, a, w, n) ↦
              let (q, same) =
                later ts fs df v (a ∷ []) []
                  (ap (prepare_features py np pd ex zone ts fs) (sym n) ∙ h2) in
              (
                df,
                rw (eq, w) refl,
                rw (eq, w) q,
                rw (eq, w) (HasWindow-self (window_of f.transform) w, same),
              )
        ]
  ]
