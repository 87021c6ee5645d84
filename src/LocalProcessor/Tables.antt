-- ===== src/LocalProcessor/Tables.antt =====
-- _get_table_from_derived_feature_view of processors/local/local_processor.py, from the source table,
-- with the evaluation of each feature and the checks of _evaluate_join_transform before its loops.
pub mod Columns
mod Tests
use feathub.Prelude.{
  ℕ, Bool, true, false, not, String, List, [], ◌∷◌, ◌++◌, Option, none, some, HasEq, string_eq,
  ◌==◌, if◌then◌else◌, map,
}
use feathub.Dict.{get}
use feathub.Errors.{
  Result, ok, err, feathub_exception, runtime_error, key_error, guard, ◌>>=◌, ◌>>◌, traverse,
}
use feathub.Common.Rows.{Row, or_raise}
use feathub.Aggregation.{Numpy}
use feathub.Dsl.{ExprAst}
use feathub.Dsl.Local.{Python, eval}
use feathub.LocalProcessor.Join.{TimeField, JoinSpec, evaluate_join}
use feathub.LocalProcessor.OverWindow.{OverWindowTransform, Pandas, evaluate_over_window, select}
use feathub.LocalProcessor.Frame.{Frame, set_column, column, select_fields}

pub data LocalTransform (V : Type 0) : Type 0 where
  expression : String → LocalTransform V
  -- with the function
  python_udf : (Row V → Result V) → LocalTransform V
  over_window : OverWindowTransform → LocalTransform V
  -- the name of the table and the expression
  join : String → String → LocalTransform V
  other : LocalTransform V

pub record LocalFeature (V : Type 0) : Type 0 where
  pub name : String
  pub transform : LocalTransform V
  pub keys : Option (List String)

-- A table that is joined: the fields of its descriptor, the keys of its features, and its rows.
pub record JoinedTable (V : Type 0) : Type 0 where
  pub timestamp_field : Option String
  pub timestamp_format : Option String
  pub feature_keys : List (String × Option (List String))
  pub rows : List (Row V)

-- What is read of the view; `output_fields` is its method get_output_fields.
pub record DerivedView (V : Type 0) : Type 0 where
  pub features : List (LocalFeature V)
  pub timestamp_field : Option String
  pub timestamp_format : Option String
  pub filter_expr : Option String
  pub output_fields : List String → List String

-- The parser's functions on expressions, and what `df.apply(...).tolist()` gives without rows.
pub record Expressions (V : Type 0) : Type 0 where
  pub parse : String → Result (ExprAst V)
  pub is_id : String → Bool
  pub get_var_name : String → String
  pub apply_empty : Result (List V)

-- A timestamp field and a format, where the view has both.
abbrev pub time_field : Option String → Option String → Option TimeField
time_field (some field) (some format) = some (record { field = field; format = format })
time_field _ _ = none

abbrev pub join_names : {V : Type 0} → List (LocalFeature V) → List String
join_names [] = []
join_names (f ∷ fs) = elim f.transform [
  | join table expr ↦ table ∷ join_names fs
  | _ ↦ join_names fs
]

module _ {V : Type 0} ⦃e : HasEq V⦄ (py : Python V) (np : Numpy V) (pd : Pandas V)
    (ex : Expressions V) (zone : py.dt.Tz) where
  -- `df.apply(f, axis=1).tolist()`
  abbrev pub apply_rows : (Row V → Result V) → List (Row V) → Result (List V)
  apply_rows f [] = ex.apply_empty
  apply_rows f (row ∷ rows) = traverse f (row ∷ rows)

  unfoldable pub evaluate_expression_transform : String → Frame V → Result (List V)
  evaluate_expression_transform expr df = do
    node ← ex.parse expr
    apply_rows (λ row. eval py zone row node) df.rows

  abbrev pub or_none_value : Option V → V
  or_none_value none = py.none_value
  or_none_value (some v) = v

  abbrev pub join_at :
      Option TimeField → (TimeField → JoinSpec) → List (Row V) → Frame V → Result (List V)
  join_at (some source_time) spec join_df df = do
    values ← evaluate_join py.dt py.as_time zone (spec source_time) join_df df.rows
    ok (map or_none_value values)
  join_at none spec join_df df = elim df.rows [ [] ↦ ok [] | row ∷ rows ↦ err key_error ]

  -- _evaluate_join_transform: the checks, then the loops
  unfoldable pub evaluate_join_transform :
      DerivedView V
      → LocalFeature V
      → String
      → String
      → List (String × JoinedTable V)
      → Frame V
      → Result (List V)
  evaluate_join_transform view f table_name expr tables df = do
    keys ← or_raise feathub_exception f.keys
    done ← guard (ex.is_id expr) feathub_exception
    table ← or_raise key_error (get table_name tables)
    join_time ← or_raise feathub_exception (time_field table.timestamp_field table.timestamp_format)
    found ← or_raise feathub_exception (get (ex.get_var_name expr) table.feature_keys)
    join_keys ← or_raise feathub_exception found
    join_at (time_field view.timestamp_field view.timestamp_format)
        (λ source_time. record {
          source_time = source_time;
          join_time = join_time;
          keys = keys;
          join_keys = join_keys;
          variable = ex.get_var_name expr;
        })
        table.rows df

  -- The values of a feature's column. The index of the DataFrame is beside its columns and rows.
  unfoldable pub evaluate_feature :
      DerivedView V
      → List (String × JoinedTable V)
      → LocalFeature V
      → LocalTransform V
      → List ℕ
      → Frame V
      → Result (List V)
  evaluate_feature view tables f (expression expr) labels df = evaluate_expression_transform expr df
  evaluate_feature view tables f (python_udf udf) labels df = apply_rows udf df.rows
  evaluate_feature view tables f (over_window transform) labels df = do
    time ← or_raise feathub_exception (time_field view.timestamp_field view.timestamp_format)
    evaluate_over_window py np pd ex.parse zone transform time.field time.format df.columns labels
        df.rows
  evaluate_feature view tables f (join table_name expr) labels df =
      evaluate_join_transform view f table_name expr tables df
  evaluate_feature view tables f other labels df = err runtime_error

  module _ (cast : String → List V → Result (List V)) where
    -- `table_by_names`; the set of names is loaded in the order of the features
    unfoldable pub load_tables :
        (String → Result (JoinedTable V)) → List String → Result (List (String × JoinedTable V))
    load_tables get_table [] = ok []
    load_tables get_table (name ∷ names) = do
      table ← get_table name
      rest ← load_tables get_table names
      ok ((name, table) ∷ rest)

    -- _filter_dataframe
    unfoldable pub filter_dataframe : Option String → Frame V → Result (Frame V)
    filter_dataframe none df = ok df
    filter_dataframe (some expr) df = do
      node ← ex.parse expr
      keep ← traverse (λ row. eval py zone row node >>= pd.mask) df.rows
      ok (record { columns = df.columns; rows = select keep df.rows })

    -- The columns that are added leave the source's index as it is.
    module _ (labels : List ℕ) where
      -- A round of the loop; `cast` is cast_series_dtype at the data type of the feature of a name.
      unfoldable pub compute_feature :
          DerivedView V
          → List (String × JoinedTable V)
          → LocalFeature V
          → Frame V
          → Result (Frame V)
      compute_feature view tables f df = do
        evaluated ← evaluate_feature view tables f f.transform labels df
        assigned ← set_column f.name evaluated df
        values ← cast f.name evaluated
        set_column f.name values assigned

      unfoldable pub compute_features :
          DerivedView V
          → List (String × JoinedTable V)
          → List (LocalFeature V)
          → Frame V
          → Result (Frame V)
      compute_features view tables [] df = ok df
      compute_features view tables (f ∷ fs) df = do
        computed ← compute_feature view tables f df
        compute_features view tables fs computed

      -- `dependent` is what _get_dependent_features returns for the view.
      unfoldable pub get_table_from_derived_feature_view :
          (String → Result (JoinedTable V))
          → DerivedView V
          → List (LocalFeature V)
          → Frame V
          → Result (Frame V)
      get_table_from_derived_feature_view get_table view dependent source = do
        tables ← load_tables get_table (join_names view.features)
        computed ← compute_features view tables dependent source
        filtered ← filter_dataframe view.filter_expr computed
        select_fields (view.output_fields source.columns) filtered
