-- ===== src/Flink/Sliding/Loop.antt =====
-- The loop over the features of a sliding view: which features come before and after the windows.
use feathub.Prelude.{
  ◌≡◌, refl, sym, ap, Bool, true, false, List, [], ◌∷◌, ◌++◌, append_assoc, append-nil, keep,
  Bool-cases, inl, inr,
}
use feathub.Errors.{ok, feathub_exception, bind-eq-ok, ok-injective, raised_lem, traverse}
use feathub.Common.Rows.{or_raise}
use feathub.Flink.Descriptors.{
  Feature, Transform, expression_transform, python_udf_transform, over_window_transform,
  sliding_window_transform, SlidingWindowTransform, join_transform, java_udf_transform, View,
}
use feathub.Flink.Aggregations.{AggregationFieldDescriptor, Expressions, from_feature}
use feathub.Flink.Planner.{TableApi, is_nonempty, evaluate_per_row, evaluate_each}
use feathub.Flink.Planner.Parts.{is_per_row, per_row_feature, leading, trailing}
use feathub.Flink.Sliding.{
  SlidingPlan, SlidingApi, place_row, add_sliding_window, place_sliding, sliding_plan,
}

abbrev pub is_sliding : Transform → Bool
is_sliding (sliding_window_transform w) = true
is_sliding _ = false

abbrev pub sliding_feature : Feature → Bool
sliding_feature f = is_sliding f.transform

append-is_nonempty {ℓ} : {A : Type ℓ} (l : List A) (a : A) → is_nonempty (l ++ a ∷ []) ≡ true
append-is_nonempty [] a = refl
append-is_nonempty (b ∷ l) a = refl

module _ {Table : Type 0} (api : TableApi Table) (sliding : SlidingApi Table) (exprs : Expressions)
    (v : View) where
  -- What the loop makes of some features, from one plan to another, after a window or not.
  abbrev pub Split : Bool → List Feature → SlidingPlan Table → SlidingPlan Table → Type 0
  Split begun fs p q =
      (evaluate_each api exprs (leading begun fs) p.tmp_table ≡ ok q.tmp_table)
      × (q.following ≡ p.following ++ trailing begun fs)
      × (aggs : List AggregationFieldDescriptor) × (traverse (from_feature exprs)
            (keep sliding_feature fs)
          ≡ ok aggs)
      × (q.agg_field_descriptors ≡ p.agg_field_descriptors ++ aggs)

  abbrev begun_of : SlidingPlan Table → Bool
  begun_of p = is_nonempty p.agg_field_descriptors

  row-Split :
      (f : Feature) (fs : List Feature) (p r q : SlidingPlan Table)
      → per_row_feature f ≡ true
      → sliding_feature f ≡ false
      → place_row api sliding exprs f p ≡ ok r
      → Split (begun_of r) fs r q
      → Split (begun_of p) (f ∷ fs) p q
  unfolding evaluate_each
  row-Split f fs p r q per_row no_window h split = elim (Bool-cases (begun_of p)) [
    | inl begun ↦
        (let (tmp, later, aggs, each, grown) =
            rw begun at (rw (sym (ok-injective (rw begun at h))) at split) in
          rw (begun, no_window)
            (
              tmp,
              rw (later, per_row) (append_assoc p.following (f ∷ []) (keep per_row_feature fs)),
              aggs,
              each,
              grown,
            ))
    | inr fresh ↦
        (let (t, h1, h2) =
            bind-eq-ok (evaluate_per_row api exprs f p.tmp_table) _ (rw fresh at h) in
          let (tmp, later, aggs, each, grown) = rw fresh at (rw (sym (ok-injective h2)) at split) in
          rw (fresh, no_window) (rw (per_row, h1) tmp, rw per_row later, aggs, each, grown))
  ]

  any_begun :
      (begun : Bool) (f : Feature) (fs : List Feature) (p q : SlidingPlan Table)
      → per_row_feature f ≡ false
      → evaluate_each api exprs (leading true fs) p.tmp_table ≡ ok q.tmp_table
      → q.following ≡ p.following ++ trailing true fs
      → (evaluate_each api exprs (leading begun (f ∷ fs)) p.tmp_table ≡ ok q.tmp_table)
        × (q.following ≡ p.following ++ trailing begun (f ∷ fs))
  unfolding evaluate_each
  any_begun true f fs p q window tmp later = (tmp, rw window later)
  any_begun false f fs p q window tmp later = (rw window tmp, rw window later)

  window-Split :
      (f : Feature) (w : SlidingWindowTransform) (fs : List Feature) (p r q : SlidingPlan Table)
      → f.transform ≡ sliding_window_transform w
      → add_sliding_window api sliding exprs v f p ≡ ok r
      → Split (begun_of r) fs r q
      → Split (begun_of p) (f ∷ fs) p q
  window-Split f w fs p r q e h split =
      let (time, h1, h2) = bind-eq-ok (or_raise feathub_exception v.timestamp_field) _ h in
      let (agg, h3, h4) = bind-eq-ok (from_feature exprs f) _ h2 in
      let (tmp, later, aggs, each, grown) =
        rw (append-is_nonempty p.agg_field_descriptors agg) at
          (rw (sym (ok-injective h4)) at split) in
      let (first, last) = any_begun (begun_of p) f fs p q (ap is_per_row e) tmp later in
      rw (ap is_sliding e) (
        first,
        last,
        agg ∷ aggs,
        rw (h3, each) refl,
        rw grown (append_assoc p.agg_field_descriptors (agg ∷ []) aggs),
      )

  nothing-Split : (begun : Bool) (p : SlidingPlan Table) → Split begun [] p p
  unfolding evaluate_each
  nothing-Split true p = (refl, sym (append-nil _), [], refl, sym (append-nil _))
  nothing-Split false p = (refl, sym (append-nil _), [], refl, sym (append-nil _))

  by_transform :
      (t : Transform) (f : Feature) (fs : List Feature) (p r q : SlidingPlan Table)
      → f.transform ≡ t
      → place_sliding api sliding exprs v t f p ≡ ok r
      → Split (begun_of r) fs r q
      → Split (begun_of p) (f ∷ fs) p q
  by_transform (expression_transform expr) f fs p r q e h split =
      row-Split f fs p r q (ap is_per_row e) (ap is_sliding e) h split
  by_transform (python_udf_transform function) f fs p r q e h split =
      row-Split f fs p r q (ap is_per_row e) (ap is_sliding e) h split
  by_transform (sliding_window_transform w) f fs p r q e h split =
      window-Split f w fs p r q e h split
  by_transform (over_window_transform o) f fs p r q e h split = absurd (raised_lem h)
  by_transform (join_transform table expr) f fs p r q e h split = absurd (raised_lem h)
  by_transform (java_udf_transform class schema) f fs p r q e h split = absurd (raised_lem h)

  -- If the loop over the features of a sliding view returns, it has computed the features of a row up
  -- to the first window, in their order, and put those after it at the end, in their order; the
  -- aggregations are those of all windows, in their order.
  pub sliding_plan-Split :
      (fs : List Feature) (p q : SlidingPlan Table)
      → sliding_plan api sliding exprs v fs p ≡ ok q
      → Split (begun_of p) fs p q
  unfolding sliding_plan
  sliding_plan-Split [] p q h = rw (sym (ok-injective h)) (nothing-Split (begun_of p) p)
  sliding_plan-Split (f ∷ fs) p q h =
      let (r, h1, h2) = bind-eq-ok (place_sliding api sliding exprs v f.transform f p) _ h in
      by_transform f.transform f fs p r q refl h1 (sliding_plan-Split fs r q h2)
