-- ===== src/Flink/Planner/Parts.antt =====
-- The loop over the features of a derived view: which features come before, in and after the groups.
use feathub.Prelude.{
  ◌≡◌, refl, sym, ap, ◌∙◌, Bool, true, false, ◌||◌, String, List, [], ◌∷◌, ◌++◌, if◌then◌else◌,
  string_eq, list_eq, option_eq, pair_eq, HasEq, ◌==◌, append_assoc, append-nil, keep, Bool-cases,
  inl, inr, not, ◌&&◌,
}
use feathub.Prelude.Int.{int_eq}
use feathub.Dict.{get, insert, get-insert, is_subset}
use feathub.Errors.{
  ok, feathub_exception, key_error, guard, bind-eq-ok, ok-injective, raised_lem, traverse,
}
use feathub.Common.Rows.{or_raise}
use feathub.LocalProcessor.OverWindow.{OverWindowTransform}
use feathub.Flink.Descriptors.{
  Feature, Transform, expression_transform, python_udf_transform, over_window_transform,
  sliding_window_transform, join_transform, java_udf_transform, View, Descriptor,
}
use feathub.Flink.Aggregations.{
  AggregationFieldDescriptor, Expressions, from_feature, from_table_descriptor_and_feature,
}
use feathub.Flink.Planner.{
  TableApi, Plan, OverWindowDescriptor, from_over_window_transform, is_nonempty, or_empty,
  append_at, started, place_per_row, add_window, add_join, place_by, plan, evaluate_per_row,
  evaluate_each, is_bounded,
}

-- The features that are computed from a row alone.
abbrev pub is_per_row : Transform → Bool
is_per_row (expression_transform expr) = true
is_per_row (python_udf_transform function) = true
is_per_row _ = false

abbrev pub per_row_feature : Feature → Bool
per_row_feature f = is_per_row f.transform

-- The features before the first window or join, and those of a row alone after it.
abbrev pub leading : Bool → List Feature → List Feature
leading true fs = []
leading false [] = []
leading false (f ∷ fs) = if per_row_feature f then f ∷ leading false fs else []

abbrev pub trailing : Bool → List Feature → List Feature
trailing true fs = keep per_row_feature fs
trailing false [] = []
trailing false (f ∷ fs) = if per_row_feature f then trailing false fs else keep per_row_feature fs

abbrev pub over : OverWindowDescriptor → Transform → Bool
over w (over_window_transform o) = from_over_window_transform o == w
over w _ = false

-- The features over the windows of one size and the same keys, in their order.
abbrev pub features_over : OverWindowDescriptor → List Feature → List Feature
features_over w fs = keep (λ f. over w f.transform) fs

or_true : (b : Bool) {c : Bool} → c ≡ true → (b || c) ≡ true
or_true true h = refl
or_true false h = h

module _ {ℓ κ} {K : Type ℓ} ⦃e : HasEq K⦄ {A : Type κ} where
  insert-is_nonempty : (k : K) (a : A) (m : List (K × A)) → is_nonempty (insert k a m) ≡ true
  unfolding insert
  insert-is_nonempty k a [] = refl
  insert-is_nonempty k a ((j, b) ∷ m) = elim (Bool-cases (j == k)) [
    | inl equal ↦ rw equal refl
    | inr differ ↦ rw differ refl
  ]

  get-append_at :
      (k w : K) (a : A) (m : List (K × List A))
      → or_empty (get w (append_at k a m)) ≡ or_empty (get w m) ++ (if k == w then a ∷ [] else [])
  unfolding append_at
  get-append_at k w a m = elim (Bool-cases (k == w)) [
    | inl equal ↦
        rw (get-insert k w (or_empty (get k m) ++ a ∷ []) m, equal, (e.eqb_iff k w).0 equal) refl
    | inr differ ↦ rw (get-insert k w (or_empty (get k m) ++ a ∷ []) m, differ) (sym (append-nil _))
  ]

module _ {Table : Type 0} (api : TableApi Table) (exprs : Expressions) (v : View)
    (source : Descriptor) (source_fields : List String)
    (joined : List (String × (Descriptor × Table))) where
  -- For each kind of window, the aggregations that some features add, in their order.
  abbrev pub Grouped : List Feature → Plan Table → Plan Table → Type 0
  Grouped fs p q =
      (w : OverWindowDescriptor)
      → (aggs : List AggregationFieldDescriptor) × (traverse (from_feature exprs)
            (features_over w fs)
          ≡ ok aggs)
        × (or_empty (get w q.window_agg_map) ≡ or_empty (get w p.window_agg_map) ++ aggs)

  -- What the loop makes of some features, from one plan to another, after a window or join or not.
  abbrev pub Planned : Bool → List Feature → Plan Table → Plan Table → Type 0
  Planned begun fs p q =
      (evaluate_each api exprs (leading begun fs) p.tmp_table ≡ ok q.tmp_table)
      × (q.following ≡ p.following ++ trailing begun fs)
      × Grouped fs p q

  Grouped-skip :
      (f : Feature) (fs : List Feature) (p q : Plan Table)
      → ((w : OverWindowDescriptor) → over w f.transform ≡ false)
      → Grouped fs p q
      → Grouped (f ∷ fs) p q
  Grouped-skip f fs p q none_over h w = rw (none_over w) (h w)

  abbrev follow : Feature → Plan Table → Plan Table
  follow f p = record {
    tmp_table = p.tmp_table;
    window_agg_map = p.window_agg_map;
    right_tables = p.right_tables;
    following = p.following ++ f ∷ [];
  }

  per_row-begun :
      (f : Feature) (fs : List Feature) (p q : Plan Table)
      → per_row_feature f ≡ true
      → ((w : OverWindowDescriptor) → over w f.transform ≡ false)
      → Planned true fs (follow f p) q
      → Planned true (f ∷ fs) p q
  unfolding evaluate_each
  per_row-begun f fs p q per_row none_over (tmp, later, windows) = (
    tmp,
    rw (later, per_row) (append_assoc p.following (f ∷ []) (keep per_row_feature fs)),
    Grouped-skip f fs p q none_over windows,
  )

  abbrev with_table : Table → Plan Table → Plan Table
  with_table t p = record {
    tmp_table = t;
    window_agg_map = p.window_agg_map;
    right_tables = p.right_tables;
    following = p.following;
  }

  per_row-fresh :
      (f : Feature) (fs : List Feature) (t : Table) (p q : Plan Table)
      → per_row_feature f ≡ true
      → ((w : OverWindowDescriptor) → over w f.transform ≡ false)
      → evaluate_per_row api exprs f p.tmp_table ≡ ok t
      → Planned false fs (with_table t p) q
      → Planned false (f ∷ fs) p q
  unfolding evaluate_each
  per_row-fresh f fs t p q per_row none_over e (tmp, later, windows) =
      (rw (per_row, e) tmp, rw per_row later, Grouped-skip f fs p q none_over windows)

  -- A window or a join.
  group-Planned :
      (begun : Bool) (f : Feature) (fs : List Feature) (p r q : Plan Table)
      → per_row_feature f ≡ false
      → r.tmp_table ≡ p.tmp_table
      → r.following ≡ p.following
      → (Grouped fs r q → Grouped (f ∷ fs) p q)
      → Planned true fs r q
      → Planned begun (f ∷ fs) p q
  unfolding evaluate_each
  group-Planned true f fs p r q grouped same_table same own (tmp, later, windows) =
      (sym (ap ok same_table) ∙ tmp, rw (grouped, later, same) refl, own windows)
  group-Planned false f fs p r q grouped same_table same own (tmp, later, windows) =
      (rw grouped (sym (ap ok same_table) ∙ tmp), rw (grouped, later, same) refl, own windows)

  Grouped-window :
      (f : Feature) (o : OverWindowTransform) (a : AggregationFieldDescriptor) (fs : List Feature)
      (p r q : Plan Table)
      → f.transform ≡ over_window_transform o
      → from_feature exprs f ≡ ok a
      → r.window_agg_map ≡ append_at (from_over_window_transform o) a p.window_agg_map
      → Grouped fs r q
      → Grouped (f ∷ fs) p q
  Grouped-window f o a fs p r q is_over e added h w =
      let (aggs, each, grown) = h w in
      let k = from_over_window_transform o in
      let own : or_empty (get w r.window_agg_map)
          ≡ or_empty (get w p.window_agg_map) ++ (if k == w then a ∷ [] else []) =
        rw added (get-append_at k w a p.window_agg_map) in
      elim (Bool-cases (k == w)) [
        | inl here ↦ rw (ap (over w) is_over ∙ here) (
          a ∷ aggs,
          rw (e, each) refl,
          rw (grown, own, here) (append_assoc (or_empty (get w p.window_agg_map)) (a ∷ []) aggs),
        )
        | inr elsewhere ↦ rw (ap (over w) is_over ∙ elsewhere) (
          aggs,
          each,
          rw (grown, own, elsewhere, append-nil (or_empty (get w p.window_agg_map))) refl,
        )
      ]

  per_row-Planned :
      (f : Feature) (fs : List Feature) (p r q : Plan Table)
      → per_row_feature f ≡ true
      → ((w : OverWindowDescriptor) → over w f.transform ≡ false)
      → place_per_row api exprs f p ≡ ok r
      → Planned (started api exprs r) fs r q
      → Planned (started api exprs p) (f ∷ fs) p q
  per_row-Planned f fs p r q per_row none_over h planned = elim (Bool-cases (started api exprs p)) [
    | inl begun ↦ rw begun (
        per_row-begun f fs p q per_row none_over (
          let planned' = rw (sym (ok-injective (rw begun at h))) at planned in
          rw begun at planned'))
    | inr fresh ↦
        (let (t, h1, h2) =
            bind-eq-ok (evaluate_per_row api exprs f p.tmp_table) _ (rw fresh at h) in
          let planned' = rw (sym (ok-injective h2)) at planned in
          rw fresh (per_row-fresh f fs t p q per_row none_over h1 (rw fresh at planned')))
  ]

  nothing-Planned : (begun : Bool) (p : Plan Table) → Planned begun [] p p
  unfolding evaluate_each
  nothing-Planned true p = (refl, sym (append-nil p.following), λ w. ([], refl, sym (append-nil _)))
  nothing-Planned false p =
      (refl, sym (append-nil p.following), λ w. ([], refl, sym (append-nil _)))

  window-Planned :
      (f : Feature) (o : OverWindowTransform) (fs : List Feature) (p r q : Plan Table)
      → f.transform ≡ over_window_transform o
      → add_window api exprs v f o p ≡ ok r
      → Planned (started api exprs r) fs r q
      → Planned (started api exprs p) (f ∷ fs) p q
  unfolding append_at
  window-Planned f o fs p r q e h planned =
      let (time, h1, h2) = bind-eq-ok (or_raise feathub_exception v.timestamp_field) _ h in
      let (agg, h3, h4) = bind-eq-ok (from_feature exprs f) _ h2 in
      let same = ok-injective h4 in
      let begun : started api exprs r ≡ true =
        rw (sym same)
          (or_true (is_nonempty p.right_tables) (insert-is_nonempty _ _ p.window_agg_map)) in
      group-Planned (started api exprs p) f fs p r q (ap is_per_row e) (rw (sym same) refl)
        (rw (sym same) refl) (Grouped-window f o agg fs p r q e h3 (rw (sym same) refl))
        (rw begun at planned)

  join-Planned :
      (f : Feature) (table expr : String) (fs : List Feature) (p r q : Plan Table)
      → f.transform ≡ join_transform table expr
      → add_join api exprs v source source_fields joined f table expr p ≡ ok r
      → Planned (started api exprs r) fs r q
      → Planned (started api exprs p) (f ∷ fs) p q
  join-Planned f table expr fs p r q e h planned =
      let (ks, h1, h2) = bind-eq-ok (or_raise feathub_exception f.keys) _ h in
      let (known, h3, h4) =
        bind-eq-ok (guard (is_subset ks source_fields) feathub_exception) _ h2 in
      let (right, h5, h6) = bind-eq-ok (or_raise key_error (get table joined)) _ h4 in
      let (bounded, h7, h8) =
        bind-eq-ok (guard (not (is_bounded source && not (is_bounded (right.0)))) feathub_exception)
          _ h6 in
      let (field, h9, h10) =
        bind-eq-ok (from_table_descriptor_and_feature exprs (right.0) f expr) _ h8 in
      let same = ok-injective h10 in
      let begun : started api exprs r ≡ true =
        rw (sym same) (rw (insert-is_nonempty (table, ks) _ p.right_tables) refl) in
      group-Planned (started api exprs p) f fs p r q (ap is_per_row e) (rw (sym same) refl)
        (rw (sym same) refl)
        (λ windows. Grouped-skip f fs p q (λ w. ap (over w) e) (rw (sym same) at windows))
        (rw begun at planned)

  by_transform :
      (t : Transform) (f : Feature) (fs : List Feature) (p r q : Plan Table)
      → f.transform ≡ t
      → place_by api exprs v source source_fields joined t f p ≡ ok r
      → Planned (started api exprs r) fs r q
      → Planned (started api exprs p) (f ∷ fs) p q
  by_transform (expression_transform expr) f fs p r q e h planned =
      per_row-Planned f fs p r q (ap is_per_row e) (λ w. ap (over w) e) h planned
  by_transform (python_udf_transform function) f fs p r q e h planned =
      per_row-Planned f fs p r q (ap is_per_row e) (λ w. ap (over w) e) h planned
  by_transform (over_window_transform o) f fs p r q e h planned =
      window-Planned f o fs p r q e h planned
  by_transform (join_transform table expr) f fs p r q e h planned =
      join-Planned f table expr fs p r q e h planned
  by_transform (sliding_window_transform o) f fs p r q e h planned = absurd (raised_lem h)
  by_transform (java_udf_transform class schema) f fs p r q e h planned = absurd (raised_lem h)

  -- If the loop over the features of a derived view returns, it has computed the features of a row up
  -- to the first window or join, in their order, and put those after it at the end, in their order. For
  -- each size of windows and keys it has collected the aggregations of all features with them, in
  -- their order.
  pub plan-Planned :
      (fs : List Feature) (p q : Plan Table)
      → plan api exprs v source source_fields joined fs p ≡ ok q
      → Planned (started api exprs p) fs p q
  unfolding plan
  plan-Planned [] p q h = rw (sym (ok-injective h)) (nothing-Planned (started api exprs p) p)
  plan-Planned (f ∷ fs) p q h =
      let (r, h1, h2) =
        bind-eq-ok (place_by api exprs v source source_fields joined f.transform f p) _ h in
      by_transform f.transform f fs p r q refl h1 (plan-Planned fs r q h2)
