-- ===== src/Flink/Planner.antt =====
-- The code for a derived view of processors/flink/table_builder/flink_table_builder.py: the loop over
-- its features, which groups the windows and the joins.
pub mod Derive
pub mod Fixtures
pub mod Parts
mod Tests
use feathub.Prelude.{
  Bool, true, false, ◌&&◌, ◌||◌, not, String, List, [], ◌∷◌, ◌++◌, Option, none, some,
  if◌then◌else◌, string_eq, list_eq, option_eq, pair_eq, HasEq, ◌==◌, map,
}
use feathub.Prelude.Int.{ℤ, int_eq}
use feathub.Dict.{contains, get, insert, is_subset}
use feathub.Errors.{
  Result, ok, err, feathub_exception, feathub_transformation_exception, key_error, guard, ◌>>=◌,
}
use feathub.Common.Rows.{or_raise}
use feathub.Schema.{Schema}
use feathub.LocalProcessor.OverWindow.{OverWindowTransform, event_time_attribute}
use feathub.Flink.FlinkTypes.{DataType, to_flink_type, casts}
use feathub.Flink.Descriptors.{
  Feature, Transform, expression_transform, python_udf_transform, over_window_transform,
  sliding_window_transform, join_transform, java_udf_transform, View, Descriptor, feature_table,
  derived_view, sliding_view, sql_view, other_descriptor,
}
use feathub.Flink.Aggregations.{
  AggregationFieldDescriptor, JoinFieldDescriptor, Expressions, from_feature, from_field_name,
  from_table_descriptor_and_feature,
}

-- What a view asks of the Table API, and of the modules for functions of Python and Java, over
-- windows and joins.
pub data Expression : Type 0 where
  call_sql : String → Expression
  col : String → Expression
  cast : Expression → DataType → Expression

-- OverWindowDescriptor: the size of the window and the keys
abbrev pub OverWindowDescriptor : Type 0
OverWindowDescriptor = Option ℤ × List String

abbrev pub from_over_window_transform : OverWindowTransform → OverWindowDescriptor
from_over_window_transform w = (w.window_size, w.group_by_keys)

-- each name with the expression that it is the alias of
abbrev pub Columns : Type 0
Columns = List (String × Expression)

abbrev pub JoinFields : Type 0
JoinFields = List (String × JoinFieldDescriptor)

pub record TableApi (Table : Type 0) : Type 0 where
  pub field_names : Table → List String
  pub field_data_type : Table → String → Result DataType
  pub add_or_replace_columns : Columns → Table → Result Table
  pub filter : Expression → Table → Result Table
  pub select : Columns → Table → Result Table
  pub evaluate_python_udf_transform : Feature → Table → Result Table
  pub evaluate_java_udf : String → Schema → Table → Result Table
  pub evaluate_over_window_transform :
      OverWindowDescriptor → List AggregationFieldDescriptor → Table → Result Table
  pub lookup_join_redis_source :
      Descriptor → List String → JoinFields → Table → Table → Result Table
  pub temporal_join : List String → JoinFields → Table → Table → Result Table

-- `is_bounded` of a table and of a view
unfoldable pub is_bounded : Descriptor → Bool
is_bounded (feature_table t) = t.bounded
is_bounded (derived_view v source) = is_bounded source
is_bounded (sliding_view v source) = is_bounded source
is_bounded (sql_view v) = v.bounded
is_bounded (other_descriptor o) = o.bounded

abbrev pub right_timestamp_field : Descriptor → Option String
right_timestamp_field (feature_table t) = t.timestamp_field
right_timestamp_field (derived_view v source) = v.timestamp_field
right_timestamp_field (sliding_view v source) = v.view.timestamp_field
right_timestamp_field (sql_view v) = v.timestamp_field
right_timestamp_field (other_descriptor o) = o.timestamp_field

-- The variables of the loop.
pub record Plan (Table : Type 0) : Type 0 where
  pub tmp_table : Table
  pub window_agg_map : List (OverWindowDescriptor × List AggregationFieldDescriptor)
  pub right_tables : List ((String × List String) × JoinFields)
  pub following : List Feature

abbrev pub first_plan : {Table : Type 0} → Table → Plan Table
first_plan table = record {
  tmp_table = table;
  window_agg_map = [];
  right_tables = [];
  following = [];
}

abbrev pub is_nonempty {ℓ} : {A : Type ℓ} → List A → Bool
is_nonempty [] = false
is_nonempty (a ∷ more) = true

abbrev pub or_empty {ℓ} : {A : Type ℓ} → Option (List A) → List A
or_empty none = []
or_empty (some l) = l

-- `setdefault(key, []).append(a)`
unfoldable pub append_at {ℓ κ} :
    {K : Type ℓ} {A : Type κ} ⦃e : HasEq K⦄ → K → A → List (K × List A) → List (K × List A)
unfolding get insert
append_at k a m = insert k (or_empty (get k m) ++ a ∷ []) m

-- `{key: JoinFieldDescriptor.from_field_name(key) for key in feature.keys}`, as an update
unfoldable pub add_fields : List String → JoinFields → JoinFields
unfolding insert from_field_name
add_fields [] m = m
add_fields (k ∷ ks) m = add_fields ks (insert k (from_field_name k) m)

abbrev pub time_fields : Option String → List String
time_fields none = []
time_fields (some field) = field ∷ event_time_attribute ∷ []

module _ {Table : Type 0} (api : TableApi Table) (exprs : Expressions) where
  open exprs use {to_flink_sql_expr}

  abbrev pub cast_column : String × DataType → String × Expression
  cast_column (name, t) = (name, cast (col name) t)

  -- cast_field_type_without_changing_nullability
  unfoldable pub cast_fields : List (String × DataType) → Table → Result Table
  unfolding casts
  cast_fields types table = do
    cs ← casts (api.field_data_type table) types
    if is_nonempty cs then api.add_or_replace_columns (map cast_column cs) table else ok table

  -- _evaluate_expression_transform
  unfoldable pub evaluate_expression_transform : String → Feature → Table → Result Table
  unfolding cast_fields
  evaluate_expression_transform expr f table = do
    result_type ← to_flink_type f.dtype
    sql ← to_flink_sql_expr expr
    added ← api.add_or_replace_columns ((f.name, call_sql sql) ∷ []) table
    cast_fields ((f.name, result_type) ∷ []) added

  abbrev pub evaluate_by : Transform → Feature → Table → Result Table
  evaluate_by (expression_transform expr) f table = evaluate_expression_transform expr f table
  evaluate_by (python_udf_transform function) f table = api.evaluate_python_udf_transform f table
  evaluate_by _ f table = err feathub_transformation_exception

  -- the branches for a feature of one row, before the windows and after them
  unfoldable pub evaluate_per_row : Feature → Table → Result Table
  unfolding evaluate_expression_transform
  evaluate_per_row f table = evaluate_by f.transform f table

  unfoldable pub evaluate_each : List Feature → Table → Result Table
  unfolding evaluate_per_row
  evaluate_each [] table = ok table
  evaluate_each (f ∷ fs) table = do t ← evaluate_per_row f table; evaluate_each fs t

  -- `len(right_tables) > 0 or len(window_agg_map) > 0`
  abbrev pub started : Plan Table → Bool
  started p = is_nonempty p.right_tables || is_nonempty p.window_agg_map

  abbrev pub place_per_row : Feature → Plan Table → Result (Plan Table)
  place_per_row f p =
      let now = (do
        t ← evaluate_per_row f p.tmp_table
        ok (record {
          tmp_table = t;
          window_agg_map = p.window_agg_map;
          right_tables = p.right_tables;
          following = p.following;
        })) in
      if started p
      then ok (record {
        tmp_table = p.tmp_table;
        window_agg_map = p.window_agg_map;
        right_tables = p.right_tables;
        following = p.following ++ f ∷ [];
      })
      else now

  abbrev pub add_window : View → Feature → OverWindowTransform → Plan Table → Result (Plan Table)
  add_window v f w p = do
    field ← or_raise feathub_exception v.timestamp_field
    agg ← from_feature exprs f
    ok (record {
      tmp_table = p.tmp_table;
      window_agg_map = append_at (from_over_window_transform w) agg p.window_agg_map;
      right_tables = p.right_tables;
      following = p.following;
    })

  module _ (v : View) (source : Descriptor) (source_fields : List String)
      (joined : List (String × (Descriptor × Table))) where
    -- the fields of one join, with the keys and the time of the right table
    unfoldable pub join_fields :
        Descriptor → List String → Feature → JoinFieldDescriptor → JoinFields → JoinFields
    unfolding insert add_fields
    join_fields right ks f field m =
        insert f.name field
          (add_fields (time_fields (right_timestamp_field right)) (add_fields ks m))

    abbrev pub add_join : Feature → String → String → Plan Table → Result (Plan Table)
    add_join f table expr p = do
      ks ← or_raise feathub_exception f.keys
      known ← guard (is_subset ks source_fields) feathub_exception
      right ← or_raise key_error (get table joined)
      bounded ← guard (not (is_bounded source && not (is_bounded (right.0)))) feathub_exception
      field ← from_table_descriptor_and_feature exprs (right.0) f expr
      ok (record {
        tmp_table = p.tmp_table;
        window_agg_map = p.window_agg_map;
        right_tables =
            insert (table, ks)
              (join_fields (right.0) ks f field (or_empty (get (table, ks) p.right_tables)))
              p.right_tables;
        following = p.following;
      })

    abbrev pub place_by : Transform → Feature → Plan Table → Result (Plan Table)
    place_by (expression_transform expr) f p = place_per_row f p
    place_by (python_udf_transform function) f p = place_per_row f p
    place_by (over_window_transform w) f p = add_window v f w p
    place_by (join_transform table expr) f p = add_join f table expr p
    place_by _ f p = err feathub_transformation_exception

    -- the loop over dependent_features
    unfoldable pub plan : List Feature → Plan Table → Result (Plan Table)
    unfolding append_at join_fields is_bounded from_table_descriptor_and_feature
    plan [] p = ok p
    plan (f ∷ fs) p = do q ← place_by f.transform f p; plan fs q
