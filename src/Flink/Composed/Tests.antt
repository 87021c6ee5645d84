-- ===== src/Flink/Composed/Tests.antt =====
-- Tests of the builder with its own methods, with tables that are the names of their columns.
use native.Mathlib.Decide.{ℕ_discrete}
use feathub.Prelude.{
  ◌≡◌, refl, true, false, String, List, [], ◌∷◌, none, ◌==◌, if◌then◌else◌, string_eq,
}
use feathub.Prelude.Int.{ℤ-discrete}
use feathub.Dict.{contains, get, insert, is_subset}
use feathub.Errors.{ok, err, feathub_exception}
use feathub.Flink.FlinkTypes.{
  to_flink_type, basic_type_to_flink_type, casts, with_same_nullability, DataType-discrete,
}
use feathub.Flink.Descriptors.{Descriptor, FeatureTable, feature_table, derived_view}
use feathub.Flink.Aggregations.{from_feature, from_table_descriptor_and_feature}
use feathub.Flink.Planner.{
  plan, evaluate_per_row, evaluate_each, evaluate_expression_transform, cast_fields, append_at,
  join_fields, add_fields, is_bounded,
}
use feathub.Flink.Planner.Derive.{
  derive, derive_planned, apply_plan, join_all, aggregate_all, apply_filter_if_any, with_event_time,
}
use feathub.Flink.Planner.Fixtures.{
  api, exprs, sliding, view, users, Descriptor-discrete, descriptor_eq,
}
use feathub.Flink.Builder.Steps.{BuilderState}
use feathub.Flink.Builder.Reference.{Sound, no_views}
use feathub.Flink.Builder.{Calls, table_names, joined_tables, construct, get_table}
use feathub.Flink.Composed.{Outside, table_builder, Computed, get_table-Computed}

abbrev columns : FeatureTable → List String
columns t = if t.name == "users" then "id" ∷ "age" ∷ [] else "id" ∷ "cost" ∷ []

abbrev outside : Outside (List String)
outside = record {
  get_table_from_source = λ t. ok (columns t);
  sql_query = λ views v. err feathub_exception;
  get_features = λ name. if name == "users" then ok users else err feathub_exception;
  registered = [];
  iterate = λ names. names;
}

abbrev builder : Calls
builder =
    table_builder api sliding exprs (λ d. false) (λ fs. fs) (λ v fields. "twice" ∷ "late" ∷ [])
      outside

abbrev clicks : Descriptor
clicks = feature_table (record {
  name = "clicks";
  schema = record { field_names = []; field_types = [] };
  timestamp_field = none;
  bounded = true;
})

abbrev empty : BuilderState (List String)
empty = record { built_tables = []; tables_being_built = []; temporary_views = [] }

-- The builder builds the clicks, then the users, and from them the view.
get_table_run :
    (get_table builder 2 (derived_view view clicks) empty).0
    ≡ ok ("twice" ∷ "late" ∷ "__event_time_attribute__" ∷ [])
unfolding get_table construct joined_tables table_names get insert contains is_subset
    Descriptor-discrete derive derive_planned plan append_at is_bounded from_feature to_flink_type
    basic_type_to_flink_type from_table_descriptor_and_feature apply_plan evaluate_per_row
    evaluate_each evaluate_expression_transform cast_fields casts with_same_nullability
    DataType-discrete join_all aggregate_all apply_filter_if_any with_event_time join_fields
    add_fields ℤ-discrete ℕ_discrete
get_table_run = refl

get_table-Computed_example :
    Sound builder
      (Computed api sliding exprs
        (λ d. false)
        (λ fs. fs)
        (λ v fields. "twice" ∷ "late" ∷ [])
        outside
        (derived_view view clicks))
      (get_table builder 2 (derived_view view clicks) empty)
get_table-Computed_example =
    get_table-Computed api sliding exprs (λ d. false) (λ fs. fs) (λ v fields. "twice" ∷ "late" ∷ [])
      outside 2 (derived_view view clicks) empty (tt, no_views)
