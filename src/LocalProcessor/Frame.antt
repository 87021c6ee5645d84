-- ===== src/LocalProcessor/Frame.antt =====
-- A DataFrame as _get_table_from_derived_feature_view uses it: the names of the columns and the rows.
use feathub.Prelude.{String, List, [], ◌∷◌, ◌++◌, string_eq, if◌then◌else◌}
use feathub.Dict.{contains, insert}
use feathub.Errors.{Result, ok, err, value_error, ◌>>=◌, traverse}
use feathub.Common.Rows.{Row, cell}

pub record Frame (V : Type 0) : Type 0 where
  pub columns : List String
  pub rows : List (Row V)

module _ {V : Type 0} where
  -- A list of another length than the table cannot be a column.
  unfoldable pub set_cells : String → List V → List (Row V) → Result (List (Row V))
  set_cells name [] [] = ok []
  set_cells name (v ∷ vs) (row ∷ rows) = do
    rest ← set_cells name vs rows
    ok (insert name v row ∷ rest)
  set_cells name _ _ = err value_error

  -- `df[name] = values`
  unfoldable pub set_column : String → List V → Frame V → Result (Frame V)
  set_column name values df = do
    rows ← set_cells name values df.rows
    ok (record {
      columns = if contains name df.columns then df.columns else df.columns ++ name ∷ [];
      rows = rows;
    })

  -- `df[name].tolist()`
  unfoldable pub column : String → Frame V → Result (List V)
  column name df = traverse (cell name) df.rows

  unfoldable pub select_cells : List String → Row V → Result (Row V)
  select_cells [] row = ok []
  select_cells (name ∷ names) row = do
    v ← cell name row
    rest ← select_cells names row
    ok ((name, v) ∷ rest)

  -- `df[names]`
  unfoldable pub select_fields : List String → Frame V → Result (Frame V)
  select_fields names df = do
    rows ← traverse (select_cells names) df.rows
    ok (record { columns = names; rows = rows })
