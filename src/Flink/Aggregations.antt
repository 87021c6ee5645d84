-- ===== src/Flink/Aggregations.antt =====
-- processors/flink/table_builder/aggregation_utils.py, and the descriptors of over_window_utils.py and
-- join_utils.py: what the features of a view ask of Flink.
use Prim.Native.String.{◌++◌}
use feathub.Prelude.{Bool, true, false, String, Option, none, some, ℕ, if◌then◌else◌}
use feathub.Prelude.Int.{ℤ}
use feathub.Aggregation.{AggFunc}
use feathub.Errors.{Result, ok, err, feathub_exception, ◌>>=◌}
use feathub.Types.{DType}
use feathub.Flink.FlinkTypes.{
  DataType, atomic, tiny_int, small_int, int, big_int, float, double, to_flink_type,
}
use feathub.Flink.Descriptors.{
  Feature, Transform, over_window_transform, sliding_window_transform, Descriptor, sliding_view,
}

pub record AggregationFieldDescriptor : Type 0 where
  pub field_name : String
  pub field_data_type : DataType
  pub expr : String
  pub agg_func : AggFunc
  pub window_size : Option ℤ
  pub limit : Option ℕ
  pub filter_expr : Option String

-- 0 and 0.0
pub data Default : Type 0 where
  int_zero float_zero : Default

pub record JoinFieldDescriptor : Type 0 where
  pub field_expr : String
  pub field_data_type : Option DataType
  pub valid_time_interval : Option ℤ
  pub default_value : Option Default

-- The parser and the printer of expressions, the tests on texts of dsl/expr_utils.py, and the output
-- features of a descriptor.
pub record Expressions : Type 0 where
  pub to_flink_sql_expr : String → Result String
  pub is_id : String → Bool
  pub get_var_name : String → Result String
  pub get_static_map_lookup_variable : String → Result String
  pub get_feature : Descriptor → String → Result Feature

-- JoinFieldDescriptor.from_field_name
unfoldable pub from_field_name : String → JoinFieldDescriptor
from_field_name name = record {
  field_expr = "`" ++ name ++ "`";
  field_data_type = none;
  valid_time_interval = none;
  default_value = none;
}

module _ (exprs : Expressions) where
  open exprs use {to_flink_sql_expr, is_id, get_feature}

  abbrev pub filter_sql : Option String → Result (Option String)
  filter_sql none = ok none
  filter_sql (some e) = do s ← to_flink_sql_expr e; ok (some s)

  abbrev pub new_descriptor :
      Feature
      → String
      → AggFunc
      → Option ℤ
      → Option ℕ
      → Option String
      → Result AggregationFieldDescriptor
  new_descriptor f expr agg_func window_size limit filter_expr = do
    filter ← filter_sql filter_expr
    t ← to_flink_type f.dtype
    sql ← to_flink_sql_expr expr
    ok (record {
      field_name = f.name;
      field_data_type = t;
      expr = sql;
      agg_func = agg_func;
      window_size = window_size;
      limit = limit;
      filter_expr = filter;
    })

  abbrev pub descriptor_for : Feature → Transform → Result AggregationFieldDescriptor
  descriptor_for f (over_window_transform w) =
      new_descriptor f w.expr w.agg_func w.window_size w.limit w.filter_expr
  descriptor_for f (sliding_window_transform w) =
      new_descriptor f w.expr w.agg_func (some w.window_size) w.limit w.filter_expr
  descriptor_for f _ = err feathub_exception

  -- AggregationFieldDescriptor.from_feature
  unfoldable pub from_feature : Feature → Result AggregationFieldDescriptor
  from_feature f = descriptor_for f f.transform

  -- the default of COUNT and SUM for a type of numbers
  abbrev pub zero_of : DataType → Result (Option Default)
  zero_of (atomic tiny_int nullable) = ok (some int_zero)
  zero_of (atomic small_int nullable) = ok (some int_zero)
  zero_of (atomic int nullable) = ok (some int_zero)
  zero_of (atomic big_int nullable) = ok (some int_zero)
  zero_of (atomic float nullable) = ok (some float_zero)
  zero_of (atomic double nullable) = ok (some float_zero)
  zero_of _ = err feathub_exception

  abbrev pub default_of : AggFunc → DataType → Result (Option Default)
  default_of AggFunc.count t = zero_of t
  default_of AggFunc.sum t = zero_of t
  default_of _ t = ok none

  unfoldable pub get_default_value_and_type :
      AggregationFieldDescriptor → Result (Option Default × DataType)
  get_default_value_and_type d = do
    v ← default_of d.agg_func d.field_data_type
    ok (v, d.field_data_type)

  abbrev pub plain_join : String → DType → Result JoinFieldDescriptor
  plain_join expr dtype = do
    t ← to_flink_type dtype
    ok (record {
      field_expr = expr;
      field_data_type = some t;
      valid_time_interval = none;
      default_value = none;
    })

  abbrev pub default_for : Bool → Descriptor → String → Result (Option Default)
  default_for false d name = ok none
  default_for true d name = do
    f ← get_feature d name
    agg ← from_feature f
    v ← get_default_value_and_type agg
    ok (v.0)

  -- The value of a sliding window is valid for a step, unless empty windows are written too.
  abbrev pub join_of : String → DType → String → Descriptor → Transform → Result JoinFieldDescriptor
  join_of expr dtype name (sliding_view v source) (sliding_window_transform w) =
      if v.enable_empty_window_output then plain_join expr dtype else (do
        default ← default_for (is_id expr) (sliding_view v source) name
        t ← to_flink_type dtype
        ok (record {
          field_expr = expr;
          field_data_type = some t;
          valid_time_interval = some w.step_size;
          default_value = default;
        }))
  join_of expr dtype name d t = plain_join expr dtype

  -- JoinFieldDescriptor.from_table_descriptor_and_feature, for the expression of the join
  unfoldable pub from_table_descriptor_and_feature :
      Descriptor → Feature → String → Result JoinFieldDescriptor
  unfolding from_feature get_default_value_and_type
  from_table_descriptor_and_feature d f expr = do
    name ← if is_id expr then exprs.get_var_name expr else exprs.get_static_map_lookup_variable expr
    joined ← get_feature d name
    join_of expr f.dtype name d joined.transform
