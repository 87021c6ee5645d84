-- ===== src/LocalProcessor/SlidingTable.antt =====
-- _get_table_from_sliding_feature_view of processors/local/local_processor.py, from the source table.
pub mod Places
pub mod Loop
mod Tests
use feathub.Prelude.{
  Bool, true, false, ◌&&◌, not, String, List, [], ◌∷◌, ◌++◌, Option, none, some, ℕ, nat_eq, list_eq,
  string_eq, ◌==◌, if◌then◌else◌, HasEq,
}
use feathub.Errors.{
  Result, ok, err, feathub_exception, feathub_transformation_exception, guard, ◌>>=◌, ◌>>◌,
}
use feathub.Common.Rows.{Row}
use feathub.Aggregation.{Numpy}
use feathub.Dsl.Local.{Python}
use feathub.LocalProcessor.OverWindow.{Pandas}
use feathub.LocalProcessor.Frame.{Frame, set_column, select_fields}
use feathub.LocalProcessor.Tables.{
  Expressions, evaluate_expression_transform, apply_rows, filter_dataframe,
}
use feathub.SlidingWindow.{AggregationFieldDescriptor}

-- The transform of a feature; a window with the descriptor of its field.
pub data SlidingTransform (V : Type 0) : Type 0 where
  expression : String → SlidingTransform V
  python_udf : (Row V → Result V) → SlidingTransform V
  sliding_window : ℕ → List String → AggregationFieldDescriptor → SlidingTransform V
  other : SlidingTransform V

pub record SlidingFeature (V : Type 0) : Type 0 where
  pub name : String
  pub transform : SlidingTransform V

pub record SlidingWindowDescriptor : Type 0 where
  pub step_size : ℕ
  pub group_by_keys : List String

-- SlidingWindowDescriptor.__eq__
abbrev pub same_window : SlidingWindowDescriptor → SlidingWindowDescriptor → Bool
same_window a b = a.step_size == b.step_size && a.group_by_keys == b.group_by_keys

-- What is read of the view: its configuration and fields, and its method get_output_fields.
pub record SlidingFeatureView : Type 0 where
  pub enable_empty_window_output : Bool
  pub skip_same_window_output : Bool
  pub timestamp_field : String
  pub filter_expr : Option String
  pub output_fields : List String → List String

-- The state of the loop over the features.
pub record Prepared (V : Type 0) : Type 0 where
  pub source_df : Frame V
  pub sliding_window_descriptor : Option SlidingWindowDescriptor
  pub agg_field_descriptors : List AggregationFieldDescriptor
  pub following : List (SlidingFeature V)

-- `sliding_window_descriptor` after a window: that of the first, which all others have to equal.
abbrev pub same_or_raise :
    Option SlidingWindowDescriptor → SlidingWindowDescriptor → Result SlidingWindowDescriptor
same_or_raise none d = ok d
same_or_raise (some first) d = if same_window first d then ok first else err feathub_exception

module _ {V : Type 0} ⦃e : HasEq V⦄ (py : Python V) (np : Numpy V) (pd : Pandas V)
    (ex : Expressions V) (zone : py.dt.Tz) where
  -- The column of a feature that is computed row by row.
  abbrev pub per_row : SlidingTransform V → Frame V → Result (List V)
  per_row (expression expr) df = evaluate_expression_transform py np pd ex zone expr df
  per_row (python_udf udf) df = apply_rows py np pd ex zone udf df.rows
  per_row _ df = err feathub_transformation_exception

  unfoldable pub add_column : SlidingFeature V → Frame V → Result (Frame V)
  add_column f df = do values ← per_row f.transform df; set_column f.name values df

  -- Before the first window a feature is a column of the source, after it one of the windows' table.
  abbrev pub place :
      SlidingFeature V → Option SlidingWindowDescriptor → Prepared V → Result (Prepared V)
  place f none p = do
    df ← add_column f p.source_df
    ok (record {
      source_df = df;
      sliding_window_descriptor = p.sliding_window_descriptor;
      agg_field_descriptors = p.agg_field_descriptors;
      following = p.following;
    })
  place f (some d) p = ok (record {
    source_df = p.source_df;
    sliding_window_descriptor = p.sliding_window_descriptor;
    agg_field_descriptors = p.agg_field_descriptors;
    following = p.following ++ f ∷ [];
  })

  abbrev pub prepare_feature :
      SlidingFeature V → SlidingTransform V → Prepared V → Result (Prepared V)
  prepare_feature f (expression expr) p = place f p.sliding_window_descriptor p
  prepare_feature f (python_udf udf) p = place f p.sliding_window_descriptor p
  prepare_feature f (sliding_window step_size group_by_keys agg) p = do
    d ←
        same_or_raise p.sliding_window_descriptor
          (record { step_size = step_size; group_by_keys = group_by_keys })
    ok (record {
      source_df = p.source_df;
      sliding_window_descriptor = some d;
      agg_field_descriptors = p.agg_field_descriptors ++ agg ∷ [];
      following = p.following;
    })
  prepare_feature f other p = err feathub_transformation_exception

  -- The loop; the timestamp field is computed with the windows.
  unfoldable pub prepare_features :
      String → List (SlidingFeature V) → Prepared V → Result (Prepared V)
  prepare_features timestamp_field [] p = ok p
  prepare_features timestamp_field (f ∷ fs) p =
      if f.name == timestamp_field
      then prepare_features timestamp_field fs p
      else (prepare_feature f f.transform p >>= (λ next. prepare_features timestamp_field fs next))

  unfoldable pub add_columns : List (SlidingFeature V) → Frame V → Result (Frame V)
  add_columns [] df = ok df
  add_columns (f ∷ fs) df = do next ← add_column f df; add_columns fs next

  -- `dependent` is what _get_dependent_features returns for the view.
  module _ (cast : String → List V → Result (List V))
      (evaluate_sliding_window : Option SlidingWindowDescriptor
        → List AggregationFieldDescriptor
        → Frame V
        → Result (Frame V)) where
    unfoldable pub get_table_from_sliding_feature_view :
        SlidingFeatureView → List (SlidingFeature V) → Frame V → Result (Frame V)
    get_table_from_sliding_feature_view view dependent source = do
      checked ←
          guard (not (not view.enable_empty_window_output && not view.skip_same_window_output))
            feathub_exception
      p ← prepare_features view.timestamp_field dependent (record {
        source_df = source;
        sliding_window_descriptor = none;
        agg_field_descriptors = [];
        following = [];
      })
      agg_df ←
          evaluate_sliding_window p.sliding_window_descriptor p.agg_field_descriptors p.source_df
      with_following ← add_columns p.following agg_df
      filtered ← filter_dataframe py np pd ex zone cast view.filter_expr with_following
      select_fields (view.output_fields source.columns) filtered
