-- ===== src/Flink/Descriptors.antt =====
-- The descriptors of tables, with what processors/flink/table_builder/flink_table_builder.py reads of
-- them: feature_tables/feature_table.py and the classes of feature_views.
use feathub.Prelude.{Bool, String, List, Option, ℕ}
use feathub.Prelude.Int.{ℤ}
use feathub.Aggregation.{AggFunc}
use feathub.Types.{DType}
use feathub.Schema.{Schema}
use feathub.LocalProcessor.OverWindow.{OverWindowTransform}

-- The sizes are in microseconds, the resolution of `timedelta`.
pub record SlidingWindowTransform : Type 0 where
  pub expr : String
  pub agg_func : AggFunc
  pub window_size : ℤ
  pub group_by_keys : List String
  pub filter_expr : Option String
  pub limit : Option ℕ
  pub step_size : ℤ

pub data Transform : Type 0 where
  expression_transform : String → Transform
  -- with the name of the function
  python_udf_transform : String → Transform
  over_window_transform : OverWindowTransform → Transform
  sliding_window_transform : SlidingWindowTransform → Transform
  join_transform : String → String → Transform
  java_udf_transform : String → Schema → Transform

pub record Feature : Type 0 where
  pub name : String
  pub dtype : DType
  pub transform : Transform
  pub keys : Option (List String)

-- What the views share; `features` are resolved.
pub record View : Type 0 where
  pub name : String
  pub features : List Feature
  pub timestamp_field : Option String
  pub timestamp_format : String
  pub filter_expr : Option String
  pub keep_source_fields : Bool

pub record SlidingView : Type 0 where
  pub view : View
  pub step_size : ℤ
  pub group_by_keys : List String
  pub enable_empty_window_output : Bool
  pub skip_same_window_output : Bool

pub record SqlView : Type 0 where
  pub name : String
  pub sql_statement : String
  pub schema : Schema
  pub timestamp_field : Option String
  pub timestamp_format : String
  pub bounded : Bool

pub record FeatureTable : Type 0 where
  pub name : String
  pub schema : Schema
  pub timestamp_field : Option String
  pub bounded : Bool

-- A class that the builder does not know, with what its methods return.
pub record OtherDescriptor : Type 0 where
  pub name : String
  pub timestamp_field : Option String
  pub bounded : Bool

pub data Descriptor : Type 0 where
  feature_table : FeatureTable → Descriptor
  derived_view : View → Descriptor → Descriptor
  sliding_view : SlidingView → Descriptor → Descriptor
  sql_view : SqlView → Descriptor
  other_descriptor : OtherDescriptor → Descriptor

abbrev pub name_of : Descriptor → String
name_of (feature_table t) = t.name
name_of (derived_view v source) = v.name
name_of (sliding_view v source) = v.view.name
name_of (sql_view v) = v.name
name_of (other_descriptor o) = o.name
