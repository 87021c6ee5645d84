-- ===== src/Flink/Composed.antt =====
-- FlinkTableBuilder (processors/flink/table_builder/flink_table_builder.py) with its own methods for
-- derived and sliding views: what is in the table of a view that the builder returns.
mod Tests
use feathub.Prelude.{
  ◌≡◌, ◌∙◌, sym, ap, Bool, false, String, List, ℕ, some, HasEq, Option-cases, inl, inr,
}
use feathub.Common.Actions.{Post-mono}
use feathub.Errors.{Result, ok, bind-eq-ok, traverse}
use feathub.Schema.{Schema}
use feathub.Flink.Descriptors.{
  Feature, View, SlidingView, SqlView, FeatureTable, Descriptor, feature_table, derived_view,
  sliding_view, sql_view, other_descriptor,
}
use feathub.Flink.Aggregations.{Expressions, get_default_value_and_type}
use feathub.Flink.Planner.{TableApi, Plan, first_plan, evaluate_each, plan}
use feathub.Flink.Planner.Derive.{
  join_all, aggregate_all, apply_filter_if_any, select_fields, with_event_time, only_java,
  apply_plan, derive_planned, derive,
}
use feathub.Flink.Planner.Parts.{leading, trailing, Grouped, plan-Planned}
use feathub.Flink.Sliding.{
  SlidingApi, SlidingPlan, first_sliding_plan, sliding_plan, add_window_time, evaluate_following,
  slide,
}
use feathub.Flink.Sliding.Loop.{Split, sliding_plan-Split}
use feathub.Flink.Builder.Steps.{BuilderState}
use feathub.Flink.Builder.{Calls, table_names, get_table}
use feathub.Flink.Builder.Reference.{
  Builds, BuildsNamed, BuildsViews, from_source, from_derived, from_sliding, from_sql, Consistent,
  Sound,
}
use feathub.Flink.Builder.Sound.{get_table-Sound}

-- What the builder's own methods do not do: sources, Flink SQL, the registry, the order of a set.
pub record Outside (Table : Type 0) : Type 0 where
  pub get_table_from_source : FeatureTable → Result Table
  pub sql_query : List (String × Table) → SqlView → Result Table
  pub get_features : String → Result Descriptor
  pub registered : List String
  pub iterate : List String → List String

module _ {Table : Type 0} (api : TableApi Table) (sliding : SlidingApi Table) (exprs : Expressions)
    (is_redis : Descriptor → Bool) (dependent : List Feature → List Feature)
    (own_output_fields : View → List String → List String) (outside : Outside Table) where
  -- the methods that _get_table calls
  abbrev pub table_builder : Calls
  table_builder = record {
    Table = Table;
    get_table_from_source = outside.get_table_from_source;
    derive = derive api exprs is_redis dependent own_output_fields;
    slide = slide api sliding exprs dependent own_output_fields;
    sql_query = outside.sql_query;
    get_features = outside.get_features;
    registered = outside.registered;
    iterate = outside.iterate;
  }

  -- The filter and the output fields of a view, for a table that its source had.
  abbrev Selected : View → Table → Table → Table → Type 0
  Selected v source_table made x =
      (kept : Table) × (apply_filter_if_any api exprs v.filter_expr made ≡ ok kept)
      × (select_fields api exprs
            (with_event_time v.timestamp_field (own_output_fields v (api.field_names source_table)))
            kept
          ≡ ok x)

  -- The table of a derived view, from its source's and the joined ones: the features of a row up to
  -- the first window or join, the joins that the loop collects, the windows with all their
  -- aggregations, and the features of a row after it. A single feature in Java has a table of its own.
  pub data FromDerived (v : View) (source : Descriptor) (source_table : Table)
      (joined : List (String × (Descriptor × Table))) : Table → Type 0 where
    in_java :
        (class : String) (schema : Schema) (x : Table)
        → only_java v.features ≡ some (class, schema)
        → api.evaluate_java_udf class schema source_table ≡ ok x
        → FromDerived v source source_table joined x
    in_order :
        (p : Plan Table) (joins windows made x : Table)
        → plan api exprs v source
            (api.field_names source_table)
            joined
            (dependent v.features)
            (first_plan source_table)
          ≡ ok p
        → evaluate_each api exprs (leading false (dependent v.features)) source_table
          ≡ ok p.tmp_table
        → join_all api exprs is_redis joined p.right_tables p.tmp_table ≡ ok joins
        → Grouped api exprs v source
            (api.field_names source_table)
            joined
            (dependent v.features)
            (first_plan source_table)
            p
        → aggregate_all api exprs is_redis p.window_agg_map joins ≡ ok windows
        → evaluate_each api exprs (trailing false (dependent v.features)) windows ≡ ok made
        → Selected v source_table made x
        → FromDerived v source source_table joined x

  derive_planned-FromDerived :
      (v : View) (source : Descriptor) (source_table : Table)
      (joined : List (String × (Descriptor × Table))) (x : Table)
      → derive_planned api exprs is_redis v source joined
          (dependent v.features)
          (with_event_time v.timestamp_field (own_output_fields v (api.field_names source_table)))
          source_table
        ≡ ok x
      → FromDerived v source source_table joined x
  unfolding derive_planned apply_plan
  derive_planned-FromDerived v source source_table joined x h =
      let (p, h1, h2) =
        bind-eq-ok
          (plan api exprs v source (api.field_names source_table) joined (dependent v.features)
            (first_plan source_table))
          _ h in
      let (made, h3, h4) = bind-eq-ok (apply_plan api exprs is_redis joined p) _ h2 in
      let (joins, h5, h6) =
        bind-eq-ok (join_all api exprs is_redis joined p.right_tables p.tmp_table) _ h3 in
      let (windows, h7, h8) =
        bind-eq-ok (aggregate_all api exprs is_redis p.window_agg_map joins) _ h6 in
      let (kept, h9, h10) = bind-eq-ok (apply_filter_if_any api exprs v.filter_expr made) _ h4 in
      let (tmp, later, grouped) =
        plan-Planned api exprs v source (api.field_names source_table) joined (dependent v.features)
          (first_plan source_table) p h1 in
      in_order p joins windows made x h1 tmp h5 grouped h7
        (ap (λ fs. evaluate_each api exprs fs windows) (sym later) ∙ h8) (kept, h9, h10)

  derive-FromDerived :
      (v : View) (source : Descriptor) (source_table : Table)
      (joined : List (String × (Descriptor × Table))) (x : Table)
      → derive api exprs is_redis dependent own_output_fields v source source_table joined ≡ ok x
      → FromDerived v source source_table joined x
  unfolding derive
  derive-FromDerived v source source_table joined x h = elim (Option-cases (only_java v.features)) [
    | inl many ↦ derive_planned-FromDerived v source source_table joined x (rw (derive, many) at h)
    | inr ((class, schema), single) ↦ in_java class schema x single (rw (derive, single) at h)
  ]

  -- The table of a sliding view, from its source's: the features of a row up to the first window, the
  -- windows with all aggregations, the window's time, and the features of a row after it.
  pub data FromSliding (v : SlidingView) (source_table : Table) : Table → Type 0 where
    in_order :
        (p : SlidingPlan Table) (windows timed made x : Table)
        → Split api sliding exprs v.view false
            (dependent v.view.features)
            (first_sliding_plan source_table)
            p
        → sliding.evaluate_sliding_window_transform v p.agg_field_descriptors p.tmp_table
          ≡ ok windows
        → add_window_time api sliding exprs v.view windows ≡ ok timed
        → evaluate_following api sliding exprs (trailing false (dependent v.view.features)) timed
          ≡ ok made
        → Selected v.view source_table made x
        → FromSliding v source_table x

  slide-FromSliding :
      (v : SlidingView) (source_table x : Table)
      → slide api sliding exprs dependent own_output_fields v source_table ≡ ok x
      → FromSliding v source_table x
  unfolding slide
  slide-FromSliding v source_table x h =
      let (p, h1, h2) =
        bind-eq-ok
          (sliding_plan api sliding exprs v.view (dependent v.view.features)
            (first_sliding_plan source_table))
          _ h in
      let (defaults, h3, h4) =
        bind-eq-ok (traverse (get_default_value_and_type exprs) p.agg_field_descriptors) _ h2 in
      let (windows, h5, h6) =
        bind-eq-ok (sliding.evaluate_sliding_window_transform v p.agg_field_descriptors p.tmp_table)
          _ h4 in
      let (timed, h7, h8) = bind-eq-ok (add_window_time api sliding exprs v.view windows) _ h6 in
      let (made, h9, h10) =
        bind-eq-ok (evaluate_following api sliding exprs p.following timed) _ h8 in
      let (kept, h11, h12) =
        bind-eq-ok (apply_filter_if_any api exprs v.view.filter_expr made) _ h10 in
      let split =
        sliding_plan-Split api sliding exprs v.view (dependent v.view.features)
          (first_sliding_plan source_table) p h1 in
      in_order p windows timed made x split h5 h7
        (ap (λ fs. evaluate_following api sliding exprs fs timed) (sym (split.1)) ∙ h9)
        (kept, h11, h12)

  -- What is in the table of a descriptor.
  abbrev pub Computed : Descriptor → Table → Type 0
  Computed (feature_table t) x = outside.get_table_from_source t ≡ ok x
  Computed (derived_view v source) x =
      (source_table : Table) × (joined : List (String × (Descriptor × Table))) × Builds
        table_builder source source_table
      × BuildsNamed table_builder (outside.iterate (table_names v.features)) joined
      × FromDerived v source source_table joined x
  Computed (sliding_view v source) x =
      (source_table : Table) × Builds table_builder source source_table
      × FromSliding v source_table x
  Computed (sql_view v) x =
      (views : List (String × Table)) × BuildsViews table_builder views
      × (outside.sql_query views v ≡ ok x)
  Computed (other_descriptor o) x = ⊥

  Builds-Computed : (d : Descriptor) (x : Table) → Builds table_builder d x → Computed d x
  Builds-Computed _ _ (from_source t x e) = e
  Builds-Computed _ _ (from_derived v source st joined x b bs e) =
      (st, joined, b, bs, derive-FromDerived v source st joined x e)
  Builds-Computed _ _ (from_sliding v source st x b e) = (st, b, slide-FromSliding v st x e)
  Builds-Computed _ _ (from_sql v views x bs e) = (views, bs, e)

  module _ ⦃same : HasEq Descriptor⦄ where
    -- From a state whose cached tables and temporary views are each the table of its descriptor, a call
    -- of _get_table that returns gives a source's table, a query's over such views, or a view's from
    -- its source's table and, for a derived view, the tables that it joins: a derived or sliding view
    -- has the features of a row up to the first window or join, then the joins, then the windows with
    -- the aggregations of all features in their order, then the features of a row after it, then the
    -- filter and the output fields, unless a single feature in Java makes all of it. Returning or
    -- raising it leaves such a state.
    pub get_table-Computed :
        (n : ℕ) (d : Descriptor) (s : BuilderState Table)
        → Consistent table_builder s
        → Sound table_builder (Computed d) (get_table table_builder n d s)
    get_table-Computed n d s h =
        Post-mono _ _ _ _ (get_table table_builder n d s) (get_table-Sound table_builder n d s h)
          (λ x after both. (Builds-Computed d x (both.0), both.1)) (λ e after kept. kept)
