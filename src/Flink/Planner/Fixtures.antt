-- ===== src/Flink/Planner/Fixtures.antt =====
-- Flink at which the tests run: a table is the names of its columns.
use native.Mathlib.Decide.{ℕ_discrete}
use feathub.Prelude.{
  HasEq, String_discrete, discrete_eq, true, false, String, List, [], ◌∷◌, ◌++◌, Option, none, some,
}
use feathub.Prelude.Int.{ℤ, pos, int_eq}
use feathub.Errors.{ok}
use feathub.Aggregation.{AggFunc}
use feathub.Types.{BasicDType, primitive_type}
use feathub.Flink.FlinkTypes.{atomic, int}
use feathub.Flink.Descriptors.{
  Feature, Transform, expression_transform, over_window_transform, join_transform, View, Descriptor,
  feature_table,
}
use feathub.Flink.Aggregations.{Expressions}
use feathub.Flink.Planner.{TableApi}
use feathub.Flink.Sliding.{SlidingApi}

abbrev pub names_of {ℓ} : {A : Type ℓ} → List (String × A) → List String
names_of [] = []
names_of ((name, a) ∷ more) = name ∷ names_of more

abbrev pub api : TableApi (List String)
api = record {
  field_names = λ t. t;
  field_data_type = λ t name. ok (atomic int true);
  add_or_replace_columns = λ cs t. ok (t ++ names_of cs);
  filter = λ e t. ok t;
  select = λ cs t. ok (names_of cs);
  evaluate_python_udf_transform = λ f t. ok (t ++ f.name ∷ []);
  evaluate_java_udf = λ class schema t. ok (schema.field_names);
  evaluate_over_window_transform = λ w aggs t. ok (t ++ "over" ∷ []);
  lookup_join_redis_source = λ d ks fields t right. ok t;
  temporal_join = λ ks fields t right. ok (t ++ right);
}

abbrev pub exprs : Expressions
exprs = record {
  to_flink_sql_expr = λ e. ok e;
  is_id = λ e. true;
  get_var_name = λ e. ok e;
  get_static_map_lookup_variable = λ e. ok e;
  get_feature = λ d name. ok (record {
    name = name;
    dtype = primitive_type BasicDType.int32;
    transform = expression_transform name;
    keys = none;
  });
}

abbrev pub feature : String → Transform → Feature
feature name transform = record {
  name = name;
  dtype = primitive_type BasicDType.int32;
  transform = transform;
  keys = some ("id" ∷ []);
}

abbrev pub window : String → Option ℤ → Transform
window expr size = over_window_transform (record {
  expr = expr;
  agg_func = AggFunc.sum;
  window_size = size;
  group_by_keys = "id" ∷ [];
  filter_expr = none;
  limit = none;
})

-- A view that refers to a window and joins a table.
abbrev pub features : List Feature
features =
    feature "twice" (expression_transform "cost")
    ∷ feature "hour" (window "cost" (some (pos 3600000000)))
    ∷ feature "late" (expression_transform "hour")
    ∷ feature "age" (join_transform "users" "age")
    ∷ feature "hour_too" (window "late" (some (pos 3600000000)))
    ∷ []

abbrev pub view : View
view = record {
  name = "view";
  features = features;
  timestamp_field = some "time";
  timestamp_format = "epoch";
  filter_expr = none;
  keep_source_fields = false;
}

abbrev pub users : Descriptor
users = feature_table (record {
  name = "users";
  schema = record { field_names = []; field_types = [] };
  timestamp_field = some "time";
  bounded = true;
})

abbrev pub sliding : SlidingApi (List String)
sliding = record {
  evaluate_sliding_window_transform = λ v aggs t. ok (t ++ "windows" ∷ []);
  add_columns = λ cs t. ok (t ++ names_of cs);
  local_timezone = "UTC";
  escaped_java_date_format = λ f. f;
}

unfoldable pub Descriptor-discrete : Discrete Descriptor
Descriptor-discrete = hlevel (ℕ_discrete, String_discrete)

instance abbrev pub descriptor_eq : HasEq Descriptor
descriptor_eq = discrete_eq Descriptor-discrete
