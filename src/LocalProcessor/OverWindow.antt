-- ===== src/LocalProcessor/OverWindow.antt =====
-- _evaluate_over_window_transform of processors/local/local_processor.py: for each row an aggregation
-- over the rows of its group in a window that ends at its time. Times and sizes are whole
-- microseconds.
use feathub.Prelude.{
  ℕ, ◌-◌, Bool, not, ◌&&◌, String, List, [], ◌∷◌, ◌++◌, Option, none, some, string_eq, nat_eq,
  if◌then◌else◌, length, drop, get_elem?, map, nat_beq,
}
use feathub.Prelude.Int.{ℤ, pos, leb_ℤ, ◌-ℤ◌}
use feathub.Dict.{get, insert, contains, is_subset}
use feathub.Errors.{Result, ok, runtime_error, key_error, index_error, ◌>>=◌, ◌>>◌, guard, traverse}
use feathub.Common.Rows.{Row, or_raise, row_time}
use feathub.Aggregation.{AggFunc, Numpy, aggregate}
use feathub.Dsl.{ExprAst}
use feathub.Dsl.Local.{Python, eval}

-- OverWindowTransform
pub record OverWindowTransform : Type 0 where
  pub expr : String
  pub agg_func : AggFunc
  pub window_size : Option ℤ
  pub group_by_keys : List String
  pub filter_expr : Option String
  pub limit : Option ℕ

-- A row of `df_copy`: the cells, the value in the column `_temp`, and the event time.
pub record OverRow (V : Type 0) : Type 0 where
  pub cells : Row V
  pub temp : V
  pub event_time : ℤ

-- What the code uses of pandas: the positions in each group of `groupby(keys).indices`, the order of
-- `sort_values` by the event time, a value as an element of a Boolean mask, and an event time as a
-- cell.
pub record Pandas (V : Type 0) : Type 0 where
  pub indices : List String → List (OverRow V) → List (List ℕ)
  pub sort_values : List (OverRow V) → List (OverRow V)
  pub mask : V → Result Bool
  pub of_time : ℤ → V

abbrev pub event_time_attribute : String
event_time_attribute = "__event_time_attribute__"

abbrev pub IndexMap : Type 0
IndexMap = List (ℕ × List ℕ)

-- `for idx in group: group_by_idx[idx] = group`
unfoldable pub insert_group : List ℕ → List ℕ → IndexMap → IndexMap
insert_group group [] m = m
insert_group group (i ∷ is) m = insert_group group is (insert i group m)

unfoldable pub insert_groups : List (List ℕ) → IndexMap → IndexMap
insert_groups [] m = m
insert_groups (g ∷ gs) m = insert_groups gs (insert_group g g m)

-- `group_by_idx`
unfoldable pub group_by_idx : List String → List (List ℕ) → IndexMap
group_by_idx [] groups = []
group_by_idx (k ∷ ks) groups = insert_groups groups []

module _ {A : Type 0} where
  -- `df.iloc[positions]`
  unfoldable pub iloc : List ℕ → List A → Result (List A)
  iloc positions rows = traverse (λ i. or_raise index_error (get_elem? rows i)) positions

  -- `rows.iloc[-limit:]`; `iloc[-0:]` is all rows.
  unfoldable pub last_rows : ℕ → List A → List A
  last_rows limit rows = if nat_beq limit 0 then rows else drop (length rows - limit) rows

  -- The rows at which the mask is true.
  unfoldable pub select : List Bool → List A → List A
  select [] rows = []
  select (b ∷ bs) [] = []
  select (b ∷ bs) (row ∷ rows) = if b then row ∷ select bs rows else select bs rows

-- `&` of two masks
abbrev pub and_masks : List Bool → List Bool → List Bool
and_masks [] bs = []
and_masks (a ∷ more) [] = []
and_masks (a ∷ more) (b ∷ bs) = (a && b) ∷ and_masks more bs

-- `min_timestamp`
unfoldable pub min_timestamp : Option ℤ → ℤ → ℤ
min_timestamp none max_timestamp = pos 0
min_timestamp (some size) max_timestamp = max_timestamp -ℤ size

module _ {V : Type 0} where
  -- `min_timestamp <= timestamp <= max_timestamp`
  unfoldable pub in_window : Option ℤ → ℤ → OverRow V → Bool
  in_window size t row = leb_ℤ (min_timestamp size t) row.event_time && leb_ℤ row.event_time t

module _ {V : Type 0} (py : Python V) (np : Numpy V) (pd : Pandas V)
    (parse : String → Result (ExprAst V)) (zone : py.dt.Tz) where
  -- The rows of the group of a row.
  unfoldable pub rows_in_group : IndexMap → List (OverRow V) → ℕ → Result (List (OverRow V))
  rows_in_group [] rows idx = ok rows
  rows_in_group (entry ∷ m) rows idx = do
    group ← or_raise key_error (get idx (entry ∷ m))
    iloc group rows

  -- `r.to_dict()`, with the two columns that were added
  abbrev pub to_dict : OverRow V → Row V
  to_dict row =
      row.cells ++ ("_temp", row.temp) ∷ (event_time_attribute, pd.of_time row.event_time) ∷ []

  unfoldable pub filter_mask : ExprAst V → OverRow V → Result Bool
  filter_mask node row = do v ← eval py zone (to_dict row) node; pd.mask v

  unfoldable pub predicate : Option (ExprAst V) → List Bool → List (OverRow V) → Result (List Bool)
  predicate none window rows = ok window
  predicate (some node) window rows = do
    bs ← traverse (filter_mask node) rows
    ok (and_masks window bs)

  abbrev pub limited : Option ℕ → List (OverRow V) → List (OverRow V)
  limited none rows = rows
  limited (some limit) rows = last_rows limit (pd.sort_values rows)

  -- `rows_in_group_and_window`
  unfoldable pub window_rows :
      OverWindowTransform
      → Option (ExprAst V)
      → OverRow V
      → List (OverRow V)
      → Result (List (OverRow V))
  window_rows transform filter_node row group = do
    bs ← predicate filter_node (map (in_window transform.window_size row.event_time) group) group
    ok (limited transform.limit (select bs group))

  -- The value of a row from the rows of its group.
  unfoldable pub over_value :
      OverWindowTransform → Option (ExprAst V) → OverRow V → List (OverRow V) → Result V
  over_value transform filter_node row group = do
    rows ← window_rows transform filter_node row group
    ok (aggregate np transform.agg_func (map (λ r. r.temp) rows))

  -- The loop over the rows, `iterrows()`, with their labels in the index of the DataFrame. The keys of
  -- the map are positions.
  unfoldable pub over_values :
      OverWindowTransform
      → Option (ExprAst V)
      → IndexMap
      → List (OverRow V)
      → List ℕ
      → List (OverRow V)
      → Result (List V)
  over_values transform filter_node m all (label ∷ labels) (row ∷ rows) = do
    group ← rows_in_group m all label
    v ← over_value transform filter_node row group
    vs ← over_values transform filter_node m all labels rows
    ok (v ∷ vs)
  over_values transform filter_node m all _ _ = ok []

  abbrev pub parse_filter : Option String → Result (Option (ExprAst V))
  parse_filter none = ok none
  parse_filter (some expr) = do node ← parse expr; ok (some node)

  unfoldable pub time_rows : String → String → List V → List (Row V) → Result (List (OverRow V))
  time_rows field format (v ∷ vs) (row ∷ rows) = do
    t ← row_time py.dt py.as_time zone field format row
    rest ← time_rows field format vs rows
    ok (record { cells = row; temp = v; event_time = t } ∷ rest)
  time_rows field format _ _ = ok []

  -- The part before the loops: the checks, the column `_temp` and the event times.
  unfoldable pub prepare :
      OverWindowTransform → String → String → List String → List (Row V) → Result (List (OverRow V))
  prepare transform field format columns rows = do
    guard (not (contains "_temp" columns)) runtime_error
    guard (is_subset transform.group_by_keys columns) runtime_error
    node ← parse transform.expr
    temps ← traverse (λ row. eval py zone row node) rows
    guard (not (contains event_time_attribute columns)) runtime_error
    time_rows field format temps rows

  -- for a DataFrame with its columns, its index and its rows
  unfoldable pub evaluate_over_window :
      OverWindowTransform → String → String → List String → List ℕ → List (Row V) → Result (List V)
  evaluate_over_window transform field format columns labels rows = do
    all ← prepare transform field format columns rows
    node ← parse_filter transform.filter_expr
    over_values transform node
        (group_by_idx transform.group_by_keys (pd.indices transform.group_by_keys all)) all labels
        all
