-- ===== src/Flink/Sliding.antt =====
-- The code for a sliding view of processors/flink/table_builder/flink_table_builder.py: the loop over
-- its features, the windows, and the column of the window's time.
pub mod Loop
mod Tests
use Prim.Native.String.{◌++◌ as str_append}
use feathub.Prelude.{
  Bool, true, false, String, List, [], ◌∷◌, ◌++◌, Option, none, some, if◌then◌else◌, string_eq,
  ◌==◌, map,
}
use feathub.Errors.{
  Result, ok, err, feathub_exception, feathub_transformation_exception, ◌>>=◌, traverse,
}
use feathub.Common.Rows.{or_raise}
use feathub.LocalProcessor.OverWindow.{event_time_attribute}
use feathub.Flink.Descriptors.{
  Feature, Transform, expression_transform, python_udf_transform, sliding_window_transform, View,
  SlidingView,
}
use feathub.Flink.Aggregations.{
  AggregationFieldDescriptor, Expressions, from_feature, get_default_value_and_type,
}
use feathub.Flink.Planner.{
  TableApi, Columns, Expression, call_sql, col, is_nonempty, evaluate_per_row,
}
use feathub.Flink.Planner.Derive.{apply_filter_if_any, select_fields, with_event_time}

-- WINDOW_TIME_EXPR
abbrev pub window_time_expr : String
window_time_expr = "GET_WINDOW_TIME()"

-- The variables of the loop.
pub record SlidingPlan (Table : Type 0) : Type 0 where
  pub tmp_table : Table
  pub agg_field_descriptors : List AggregationFieldDescriptor
  pub following : List Feature

abbrev pub first_sliding_plan : {Table : Type 0} → Table → SlidingPlan Table
first_sliding_plan table = record { tmp_table = table; agg_field_descriptors = []; following = [] }

-- sliding_window_utils.py, add_columns of the Table API, the session's time zone, and
-- to_java_date_format with its quotes doubled.
pub record SlidingApi (Table : Type 0) : Type 0 where
  pub evaluate_sliding_window_transform :
      SlidingView → List AggregationFieldDescriptor → Table → Result Table
  pub add_columns : Columns → Table → Result Table
  pub local_timezone : String
  pub escaped_java_date_format : String → String

abbrev pub concat : List String → String
concat [] = ""
concat (s ∷ more) = str_append s (concat more)

module _ {Table : Type 0} (api : TableApi Table) (sliding : SlidingApi Table)
    (exprs : Expressions) where
  abbrev pub place_row : Feature → SlidingPlan Table → Result (SlidingPlan Table)
  place_row f p =
      let now = (do
        t ← evaluate_per_row api exprs f p.tmp_table
        ok (record {
          tmp_table = t;
          agg_field_descriptors = p.agg_field_descriptors;
          following = p.following;
        })) in
      if is_nonempty p.agg_field_descriptors
      then ok (record {
        tmp_table = p.tmp_table;
        agg_field_descriptors = p.agg_field_descriptors;
        following = p.following ++ f ∷ [];
      })
      else now

  abbrev pub add_sliding_window : View → Feature → SlidingPlan Table → Result (SlidingPlan Table)
  add_sliding_window v f p = do
    field ← or_raise feathub_exception v.timestamp_field
    agg ← from_feature exprs f
    ok (record {
      tmp_table = p.tmp_table;
      agg_field_descriptors = p.agg_field_descriptors ++ agg ∷ [];
      following = p.following;
    })

  abbrev pub place_sliding :
      View → Transform → Feature → SlidingPlan Table → Result (SlidingPlan Table)
  place_sliding v (expression_transform expr) f p = place_row f p
  place_sliding v (python_udf_transform function) f p = place_row f p
  place_sliding v (sliding_window_transform w) f p = add_sliding_window v f p
  place_sliding v _ f p = err feathub_transformation_exception

  -- the loop over dependent_features
  unfoldable pub sliding_plan : View → List Feature → SlidingPlan Table → Result (SlidingPlan Table)
  unfolding evaluate_per_row from_feature
  sliding_plan v [] p = ok p
  sliding_plan v (f ∷ fs) p = do q ← place_sliding v f.transform f p; sliding_plan v fs q

  -- the SQL of the window's time in the view's format
  unfoldable pub window_time_sql : String → String
  window_time_sql format =
      if format == "epoch"
      then concat ("UNIX_TIMESTAMP(CAST(`" ∷ event_time_attribute ∷ "` AS STRING))" ∷ [])
      else if format == "epoch_millis"
      then concat (
          "UNIX_TIMESTAMP_MILLIS(CAST(`" ∷ event_time_attribute ∷ "` AS STRING), '"
          ∷ sliding.local_timezone ∷ "')" ∷ [])
      else concat (
          "DATE_FORMAT(`"
          ∷ event_time_attribute
          ∷ "`, '"
          ∷ sliding.escaped_java_date_format format
          ∷ "')"
          ∷ [])

  abbrev pub add_window_time : View → Table → Result Table
  add_window_time v table = elim v.timestamp_field [
    | none ↦ ok table
    | some field ↦
        sliding.add_columns ((field, call_sql (window_time_sql v.timestamp_format)) ∷ []) table
  ]

  abbrev pub is_window_time : Transform → Bool
  is_window_time (expression_transform expr) = expr == window_time_expr
  is_window_time _ = false

  -- The window's time is a column already.
  unfoldable pub evaluate_following : List Feature → Table → Result Table
  unfolding evaluate_per_row
  evaluate_following [] table = ok table
  evaluate_following (f ∷ fs) table = do
    t ← if is_window_time f.transform then ok table else evaluate_per_row api exprs f table
    evaluate_following fs t

  module _ (dependent : List Feature → List Feature)
      (own_output_fields : View → List String → List String) where
    -- _get_table_from_sliding_feature_view, from the source's table
    unfoldable pub slide : SlidingView → Table → Result Table
    unfolding sliding_plan window_time_sql evaluate_following get_default_value_and_type
        apply_filter_if_any with_event_time
    slide v table = do
      p ← sliding_plan v.view (dependent v.view.features) (first_sliding_plan table)
      defaults ← traverse (get_default_value_and_type exprs) p.agg_field_descriptors
      windows ← sliding.evaluate_sliding_window_transform v p.agg_field_descriptors p.tmp_table
      timed ← add_window_time v.view windows
      followed ← evaluate_following p.following timed
      kept ← apply_filter_if_any api exprs v.view.filter_expr followed
      select_fields api exprs
          (with_event_time v.view.timestamp_field
            (own_output_fields v.view (api.field_names table)))
          kept
