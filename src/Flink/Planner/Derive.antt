-- ===== src/Flink/Planner/Derive.antt =====
-- The code for a derived view of processors/flink/table_builder/flink_table_builder.py after the loop
-- over its features: the joins, the windows, the features that follow, the filter and the output.
use feathub.Prelude.{
  Bool, String, List, [], ◌∷◌, ◌++◌, Option, none, some, if◌then◌else◌, string_eq, list_eq,
  option_eq, pair_eq, map,
}
use feathub.Prelude.Int.{int_eq}
use feathub.Dict.{contains, get}
use feathub.Errors.{Result, ok, feathub_exception, key_error, ◌>>=◌}
use feathub.Common.Rows.{or_raise}
use feathub.Schema.{Schema}
use feathub.LocalProcessor.OverWindow.{event_time_attribute}
use feathub.Flink.Descriptors.{Feature, Transform, java_udf_transform, View, Descriptor}
use feathub.Flink.Aggregations.{AggregationFieldDescriptor, Expressions}
use feathub.Flink.Planner.{
  Columns, JoinFields, call_sql, col, TableApi, OverWindowDescriptor, Plan, first_plan,
  right_timestamp_field, evaluate_each, plan,
}

module _ {Table : Type 0} (api : TableApi Table) (exprs : Expressions) where
  open exprs use {to_flink_sql_expr}

  -- _apply_filter_if_any
  unfoldable pub apply_filter_if_any : Option String → Table → Result Table
  apply_filter_if_any none table = ok table
  apply_filter_if_any (some e) table = do sql ← to_flink_sql_expr e; api.filter (call_sql sql) table

  abbrev pub select_fields : List String → Table → Result Table
  select_fields fields table = api.select (map (λ field. (field, col field)) fields) table

module _ {Table : Type 0} (api : TableApi Table) (exprs : Expressions)
    (is_redis : Descriptor → Bool) where
  open exprs use {to_flink_sql_expr}

  -- the columns that are selected from a right table
  abbrev pub join_columns : JoinFields → Result Columns
  join_columns [] = ok []
  join_columns ((name, field) ∷ more) = do
    sql ← to_flink_sql_expr field.field_expr
    rest ← join_columns more
    ok ((name, call_sql sql) ∷ rest)

  -- one entry of right_tables
  abbrev pub join_one : List String → JoinFields → Descriptor × Table → Table → Result Table
  join_one ks fields (right, right_table) table =
      let temporal = (do
        time ← or_raise feathub_exception (right_timestamp_field right)
        columns ← join_columns fields
        selected ← api.select columns right_table
        api.temporal_join ks fields table selected) in
      if is_redis right
      then api.lookup_join_redis_source right ks fields table right_table
      else temporal

  unfoldable pub join_all :
      List (String × (Descriptor × Table))
      → List ((String × List String) × JoinFields)
      → Table
      → Result Table
  unfolding get
  join_all joined [] table = ok table
  join_all joined (((name, ks), fields) ∷ more) table = do
    right ← or_raise key_error (get name joined)
    t ← join_one ks fields right table
    join_all joined more t

  unfoldable pub aggregate_all :
      List (OverWindowDescriptor × List AggregationFieldDescriptor) → Table → Result Table
  aggregate_all [] table = ok table
  aggregate_all ((w, aggs) ∷ more) table = do
    t ← api.evaluate_over_window_transform w aggs table
    aggregate_all more t

  -- after the loop
  unfoldable pub apply_plan : List (String × (Descriptor × Table)) → Plan Table → Result Table
  unfolding join_all aggregate_all evaluate_each
  apply_plan joined p = do
    joins ← join_all joined p.right_tables p.tmp_table
    windows ← aggregate_all p.window_agg_map joins
    evaluate_each api exprs p.following windows

  -- all branches of the method but the one for a single feature in Java
  unfoldable pub derive_planned :
      View
      → Descriptor
      → List (String × (Descriptor × Table))
      → List Feature
      → List String
      → Table
      → Result Table
  unfolding plan apply_plan apply_filter_if_any
  derive_planned v source joined dependent_features output_fields table = do
    p ← plan api exprs v source (api.field_names table) joined dependent_features (first_plan table)
    t ← apply_plan joined p
    kept ← apply_filter_if_any api exprs v.filter_expr t
    select_fields api exprs output_fields kept

-- _get_output_fields, from the view's own output fields
unfoldable pub with_event_time : Option String → List String → List String
unfolding contains
with_event_time none fields = fields
with_event_time (some field) fields =
    if contains event_time_attribute fields then fields else fields ++ event_time_attribute ∷ []

abbrev pub java_of : Transform → Option (String × Schema)
java_of (java_udf_transform class schema) = some (class, schema)
java_of _ = none

-- a single feature with a transform in Java
abbrev pub only_java : List Feature → Option (String × Schema)
only_java (f ∷ []) = java_of f.transform
only_java _ = none

module _ {Table : Type 0} (api : TableApi Table) (exprs : Expressions)
    (is_redis : Descriptor → Bool) (dependent : List Feature → List Feature)
    (own_output_fields : View → List String → List String) where
  -- _get_table_from_derived_feature_view, from the source's table and the joined tables
  unfoldable pub derive :
      View → Descriptor → Table → List (String × (Descriptor × Table)) → Result Table
  unfolding derive_planned with_event_time
  derive v source table joined = elim (only_java v.features) [
    | some (class, schema) ↦ api.evaluate_java_udf class schema table
    | none ↦
        derive_planned api exprs is_redis v source joined (dependent v.features)
          (with_event_time v.timestamp_field (own_output_fields v (api.field_names table))) table
  ]
