-- ===== src/Flink/Planner/Tests.antt =====
-- Tests of the code for a derived view, with tables that are the names of their columns.
use native.Mathlib.Decide.{ℕ_discrete}
use feathub.Prelude.{◌≡◌, refl, true, false, String, List, [], ◌∷◌, none, some}
use feathub.Prelude.Int.{pos, int_eq, ℤ-discrete}
use feathub.Dict.{contains, get, insert, is_subset}
use feathub.Errors.{ok}
use feathub.Aggregation.{AggFunc}
use feathub.Flink.FlinkTypes.{
  atomic, int, to_flink_type, basic_type_to_flink_type, casts, with_same_nullability,
  DataType-discrete,
}
use feathub.Flink.Descriptors.{expression_transform, Descriptor}
use feathub.Flink.Aggregations.{
  AggregationFieldDescriptor, JoinFieldDescriptor, from_field_name, from_feature,
  from_table_descriptor_and_feature,
}
use feathub.Flink.Planner.{
  Plan, plan, evaluate_per_row, evaluate_each, evaluate_expression_transform, cast_fields,
  append_at, join_fields, add_fields, is_bounded, first_plan,
}
use feathub.Flink.Planner.Derive.{
  derive, derive_planned, apply_plan, join_all, aggregate_all, apply_filter_if_any, with_event_time,
}
use feathub.Flink.Planner.Fixtures.{api, exprs, feature, features, view, users}
use feathub.Flink.Planner.Parts.{Planned, plan-Planned}

abbrev joined : List (String × (Descriptor × List String))
joined = ("users", (users, "id" ∷ "age" ∷ [])) ∷ []

-- The view selects "late" after the windows are computed, and "hour_too" over "late" before it.
derive_run :
    derive api exprs
      (λ d. false)
      (λ fs. fs)
      (λ v fields. "twice" ∷ "late" ∷ [])
      view
      users
      ("id" ∷ [])
      joined
    ≡ ok ("twice" ∷ "late" ∷ "__event_time_attribute__" ∷ [])
unfolding derive derive_planned plan append_at get insert is_subset contains is_bounded from_feature
    to_flink_type basic_type_to_flink_type from_table_descriptor_and_feature apply_plan
    evaluate_per_row evaluate_each evaluate_expression_transform cast_fields casts
    with_same_nullability DataType-discrete join_all aggregate_all apply_filter_if_any
    with_event_time join_fields add_fields ℤ-discrete ℕ_discrete
derive_run = refl

abbrev sum_of : String → String → AggregationFieldDescriptor
sum_of name expr = record {
  field_name = name;
  field_data_type = atomic int true;
  expr = expr;
  agg_func = AggFunc.sum;
  window_size = some (pos 3600000000);
  limit = none;
  filter_expr = none;
}

abbrev age_field : JoinFieldDescriptor
age_field = record {
  field_expr = "age";
  field_data_type = some (atomic int true);
  valid_time_interval = none;
  default_value = none;
}

abbrev planned : Plan (List String)
planned = record {
  tmp_table = "id" ∷ "twice" ∷ [];
  window_agg_map =
      ((some (pos 3600000000), "id" ∷ []), sum_of "hour" "cost" ∷ sum_of "hour_too" "late" ∷ [])
      ∷ [];
  right_tables =
      (
        ("users", "id" ∷ []),
        ("id", from_field_name "id")
            ∷ ("time", from_field_name "time")
            ∷ ("__event_time_attribute__", from_field_name "__event_time_attribute__")
            ∷ ("age", age_field)
            ∷ [],
      )
      ∷ [];
  following = feature "late" (expression_transform "hour") ∷ [];
}

plan_run :
    plan api exprs view users ("id" ∷ []) joined features (first_plan ("id" ∷ [])) ≡ ok planned
unfolding plan append_at get insert is_subset contains is_bounded from_feature to_flink_type
    basic_type_to_flink_type from_table_descriptor_and_feature evaluate_per_row
    evaluate_expression_transform cast_fields casts with_same_nullability DataType-discrete
    join_fields add_fields ℤ-discrete ℕ_discrete
plan_run = refl

plan-Planned_example :
    Planned api exprs view users ("id" ∷ []) joined false features (first_plan ("id" ∷ [])) planned
plan-Planned_example =
    plan-Planned api exprs view users ("id" ∷ []) joined features (first_plan ("id" ∷ [])) planned
      plan_run
