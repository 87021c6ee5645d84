-- ===== src/OnlineStore/Get.antt =====
-- MemoryOnlineStore.get. The index of the input is that of its rows in order.
use feathub.Prelude.{
  Bool, true, false, String, List, [], ◌∷◌, ◌++◌, Option, none, some, HasEq, string_eq, list_eq,
  pair_eq, if◌then◌else◌, map,
}
use feathub.Dict.{get as dict_get, contains, is_subset}
use feathub.Errors.{Result, ok, key_error, runtime_error, ◌>>=◌, ◌>>◌, guard, traverse}
use feathub.Common.Rows.{Row, or_raise}
use feathub.Schema.{Schema, get_field_type}
use feathub.Types.Conversions.{NumpyType, to_numpy_dtype}
use feathub.OnlineStore.{DataFrame, TableInfo, MemoryOnlineStore, item_of, key_of}

-- What `get` uses of pandas: `concat` of rows as a table with their columns, and `astype`.
pub record Pandas (V : Type 0) : Type 0 where
  pub concat : List (Row V) → Result (DataFrame V)
  pub astype : List (String × NumpyType) → DataFrame V → Result (DataFrame V)

-- `[name for name in columns if name not in names]`
unfoldable pub without : List String → List String → List String
without names [] = []
without names (c ∷ cs) = if contains c names then without names cs else c ∷ without names cs

abbrev pub numpy_type : Schema → String → Result (String × NumpyType)
numpy_type schema name = do t ← get_field_type schema name; n ← to_numpy_dtype t; ok (name, n)

-- The caller's list of names, to which the timestamp field is appended.
unfoldable pub requested : Option String → Option (List String) → Option (List String)
requested timestamp_field none = none
requested none (some names) = some names
requested (some field) (some names) = some (names ++ field ∷ [])

module _ {V : Type 0} where
  unfoldable pub drop_cells : List String → Row V → Row V
  drop_cells names [] = []
  drop_cells names ((c, v) ∷ cells) =
      if contains c names then drop_cells names cells else (c, v) ∷ drop_cells names cells

  -- `df.drop(columns=names, errors="ignore")`
  unfoldable pub drop_present : List String → DataFrame V → DataFrame V
  drop_present names df = record {
    columns = without names df.columns;
    rows = map (drop_cells names) df.rows;
  }

  -- `df.drop(columns=names)`
  unfoldable pub drop_columns : List String → DataFrame V → Result (DataFrame V)
  drop_columns names df = guard (is_subset names df.columns) key_error >> ok (drop_present names df)

  -- `df[names]`
  unfoldable pub select_columns : List String → DataFrame V → Result (DataFrame V)
  select_columns names df = do
    rows ← traverse (λ row. traverse (item_of row) names) df.rows
    ok (record { columns = names; rows = rows })

  -- `left.join(right)` of tables without a common column.
  abbrev pub join_rows : List (Row V) → List (Row V) → List (Row V)
  join_rows [] rs = []
  join_rows (l ∷ ls) [] = l ∷ join_rows ls []
  join_rows (l ∷ ls) (r ∷ rs) = (l ++ r) ∷ join_rows ls rs

  unfoldable pub join : DataFrame V → DataFrame V → DataFrame V
  join left right = record {
    columns = left.columns ++ right.columns;
    rows = join_rows left.rows right.rows;
  }

  abbrev pub select_requested :
      Option (List String) → List String → DataFrame V → Result (DataFrame V)
  select_requested none input_columns features = ok features
  select_requested (some names) input_columns features =
      select_columns (input_columns ++ names) features

  abbrev pub drop_timestamp : Option String → Bool → DataFrame V → Result (DataFrame V)
  drop_timestamp none include features = ok features
  drop_timestamp (some field) true features = ok features
  drop_timestamp (some field) false features = drop_columns (field ∷ []) features

module _ {V : Type 0} ⦃e : HasEq V⦄ where
  -- A round of the loop over the input.
  unfoldable pub find_row : TableInfo V → Row V → Result (Row V)
  find_row info row = do
    key ← key_of info.key_fields row
    or_raise key_error (dict_get key info.table)

  unfoldable pub find_rows : TableInfo V → List (Row V) → Result (List (Row V))
  find_rows info rows = traverse (find_row info) rows

module _ {V : Type 0} (pd : Pandas V) where
  -- From the rows of the table to the result, with the caller's list of names.
  unfoldable pub finish_get :
      TableInfo V
      → DataFrame V
      → Option (List String)
      → Bool
      → List (Row V)
      → Result (DataFrame V × Option (List String))
  finish_get info input_data feature_names include rows = do
    frame ← pd.concat rows
    types ← traverse (numpy_type info.schema) (info.schema.field_names)
    typed ← pd.astype types frame
    features ← drop_columns info.key_fields typed
    let input' = drop_present features.columns input_data
    let names = requested info.timestamp_field feature_names
    selected ← select_requested names input'.columns (join input' features)
    result ← drop_timestamp info.timestamp_field include selected
    ok (result, names)

module _ {V : Type 0} ⦃e : HasEq V⦄ (pd : Pandas V) where
  unfoldable pub get :
      MemoryOnlineStore V
      → String
      → DataFrame V
      → Option (List String)
      → Bool
      → Result (DataFrame V × Option (List String))
  get store table_name input_data feature_names include = do
    info ← or_raise key_error (dict_get table_name store.table_infos)
    guard (is_subset info.key_fields input_data.columns) runtime_error
    rows ← find_rows info input_data.rows
    finish_get pd info input_data feature_names include rows
