-- ===== src/Flink/Sliding/Tests.antt =====
-- Tests of the code for a sliding view, with tables that are the names of their columns.
use native.Mathlib.Decide.{ℕ_discrete}
use feathub.Prelude.{◌≡◌, refl, true, false, String, List, [], ◌∷◌, none, some}
use feathub.Prelude.Int.{pos}
use feathub.Dict.{contains}
use feathub.Errors.{ok}
use feathub.Aggregation.{AggFunc}
use feathub.Flink.FlinkTypes.{
  atomic, int, to_flink_type, basic_type_to_flink_type, casts, with_same_nullability,
  DataType-discrete,
}
use feathub.Flink.Descriptors.{
  Feature, Transform, expression_transform, sliding_window_transform, SlidingView,
}
use feathub.Flink.Aggregations.{from_feature, get_default_value_and_type}
use feathub.Flink.Planner.{evaluate_per_row, evaluate_expression_transform, cast_fields}
use feathub.Flink.Planner.Derive.{apply_filter_if_any, with_event_time}
use feathub.Flink.Planner.Fixtures.{api, exprs, feature, sliding}
use feathub.Flink.Sliding.{
  SlidingPlan, first_sliding_plan, sliding_plan, window_time_sql, evaluate_following, slide,
}
use feathub.Flink.Sliding.Loop.{Split, sliding_plan-Split}

abbrev sum : String → Transform
sum expr = sliding_window_transform (record {
  expr = expr;
  agg_func = AggFunc.sum;
  window_size = pos 3600000000;
  group_by_keys = "id" ∷ [];
  filter_expr = none;
  limit = none;
  step_size = pos 60000000;
})

abbrev features : List Feature
features =
    feature "twice" (expression_transform "cost")
    ∷ feature "hour" (sum "twice")
    ∷ feature "window_time" (expression_transform "GET_WINDOW_TIME()")
    ∷ feature "late" (expression_transform "hour")
    ∷ []

abbrev view : SlidingView
view = record {
  view = record {
    name = "view";
    features = features;
    timestamp_field = some "window_time";
    timestamp_format = "epoch";
    filter_expr = none;
    keep_source_fields = false;
  };
  step_size = pos 60000000;
  group_by_keys = "id" ∷ [];
  enable_empty_window_output = true;
  skip_same_window_output = true;
}

slide_run :
    slide api sliding exprs (λ fs. fs) (λ v fields. fields) view ("id" ∷ [])
    ≡ ok ("id" ∷ "__event_time_attribute__" ∷ [])
unfolding slide sliding_plan window_time_sql evaluate_following get_default_value_and_type
    from_feature apply_filter_if_any with_event_time evaluate_per_row evaluate_expression_transform
    cast_fields casts to_flink_type basic_type_to_flink_type with_same_nullability DataType-discrete
    contains ℕ_discrete
slide_run = refl

abbrev split : SlidingPlan (List String)
split = record {
  tmp_table = "id" ∷ "twice" ∷ [];
  agg_field_descriptors =
      record {
        field_name = "hour";
        field_data_type = atomic int true;
        expr = "twice";
        agg_func = AggFunc.sum;
        window_size = some (pos 3600000000);
        limit = none;
        filter_expr = none;
      }
      ∷ [];
  following =
      feature "window_time" (expression_transform "GET_WINDOW_TIME()")
      ∷ feature "late" (expression_transform "hour")
      ∷ [];
}

sliding_plan-Split_example :
    Split api sliding exprs (view.view) false features (first_sliding_plan ("id" ∷ [])) split
unfolding sliding_plan from_feature evaluate_per_row evaluate_expression_transform cast_fields casts
    to_flink_type basic_type_to_flink_type with_same_nullability DataType-discrete ℕ_discrete
sliding_plan-Split_example =
    sliding_plan-Split api sliding exprs (view.view) features (first_sliding_plan ("id" ∷ [])) split
      refl
