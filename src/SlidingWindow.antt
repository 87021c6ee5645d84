-- ===== src/SlidingWindow.antt =====
-- processors/local/sliding_window_utils.py: the sliding windows over the rows of one group.
-- The event times are local times in milliseconds, not before 1970.
pub mod Pointers
pub mod Filter
pub mod Reference
pub mod Ends
pub mod Output
mod Tests
use feathub.Prelude.{
  ◌≡◌, ℕ, zero, suc, ◌+◌, ◌-◌, ◌%◌, Bool, true, false, not, ◌&&◌, String, List, [], ◌∷◌, ◌++◌, map,
  Option, none, some, length, get_elem?, take, drop, ltb, leb, nat_beq, if◌then◌else◌, string_eq,
}
use mathlib.Core.List.{reverse}
use feathub.Errors.{Error, Result, ok, err, key_error, zero_division_error, ◌>>=◌, traverse}
use feathub.Dict.{get, insert}
use feathub.Aggregation.{AggFunc, Numpy, aggregate}

pub record AggregationFieldDescriptor : Type 0 where
  pub field_name : String
  pub expr : String
  pub agg_func : AggFunc
  pub window_size : ℕ
  pub filter_expr : Option String
  pub limit : Option ℕ

-- A row of the DataFrame, with its event time.
pub record TimedRow (V : Type 0) : Type 0 where
  pub event_time : ℕ
  pub cells : List (String × V)

-- `idx_map`: the window of a descriptor is the rows from `left`, before `right`.
pub record Window : Type 0 where
  pub left : ℕ
  pub right : ℕ

-- A row of the result: the aggregated fields, and the time of the window's end less one.
pub record WindowRow (V : Type 0) : Type 0 where
  pub values : List V
  pub window_time : ℕ

abbrev pub Slot : Type 0
Slot = AggregationFieldDescriptor × Window

abbrev pub descriptors_of : List Slot → List AggregationFieldDescriptor
descriptors_of = map (λ s. s.0)

abbrev pub initial_slots : List AggregationFieldDescriptor → List Slot
initial_slots = map (λ d. (d, record { left = 0; right = 0 }))

module _ {V : Type 0} where
  abbrev pub arrived : ℕ → TimedRow V → Bool
  arrived window_end row = ltb row.event_time window_end

  abbrev pub expired : ℕ → ℕ → TimedRow V → Bool
  expired window_end size row = ltb (row.event_time + size) window_end

  abbrev pub at : (TimedRow V → Bool) → List (TimedRow V) → ℕ → Bool
  at p rows i = elim (get_elem? rows i) [ none ↦ false | some row ↦ p row ]

  -- while right_idx < n and rows[right_idx].event_time < cur_window_end: right_idx += 1
  unfoldable pub advance_right : ℕ → ℕ → List (TimedRow V) → ℕ → ℕ
  advance_right zero window_end rows right = right
  advance_right (suc fuel) window_end rows right =
      let rest = advance_right fuel window_end rows (right + 1) in
      if at (arrived window_end) rows right then rest else right

  -- while left_idx < right_idx and rows[left_idx].event_time < cur_window_end - size: left_idx += 1
  unfoldable pub advance_left : ℕ → ℕ → ℕ → List (TimedRow V) → ℕ → ℕ → ℕ
  advance_left zero window_end size rows right left = left
  advance_left (suc fuel) window_end size rows right left =
      let rest = advance_left fuel window_end size rows right (left + 1) in
      if ltb left right && at (expired window_end size) rows left then rest else left

  unfoldable pub advance : AggregationFieldDescriptor → ℕ → List (TimedRow V) → Window → Window
  unfolding advance_right advance_left
  advance d window_end rows w =
      let right = advance_right (length rows) window_end rows w.right in
      record {
        left = advance_left (length rows) window_end d.window_size rows right w.left;
        right = right;
      }

  -- `iloc[left:right]`
  abbrev pub slice : ℕ → ℕ → List (TimedRow V) → List (TimedRow V)
  slice left right rows = drop left (take right rows)

  abbrev pub reached_end : List (TimedRow V) → Window → Bool
  reached_end rows w = leb (length rows) w.left && leb (length rows) w.right

  unfoldable pub rows_in_window : List (TimedRow V) → Window → List (TimedRow V)
  rows_in_window rows w = if reached_end rows w then [] else slice w.left w.right rows

  -- `iloc[-limit:]` where the limit is below the number of rows; `iloc[-0:]` is all rows.
  unfoldable pub limit_rows : Option ℕ → List (TimedRow V) → List (TimedRow V)
  limit_rows none rows = rows
  limit_rows (some limit) rows =
      if ltb limit (length rows)
      then (if nat_beq limit 0 then rows else drop (length rows - limit) rows)
      else rows

module _ {V : Type 0} where
  unfoldable pub all_reach_end : List (TimedRow V) → List Slot → Bool
  all_reach_end rows [] = true
  all_reach_end rows ((d, w) ∷ slots) = reached_end rows w && all_reach_end rows slots

  abbrev pub values_of : List (V × Slot) → List V
  values_of = map (λ p. p.0)

  abbrev pub slots_of : List (V × Slot) → List Slot
  slots_of = map (λ p. p.1)

-- The parser and the evaluator of expressions, as the window uses them: whether a row passes a
-- filter, and Python's `==` and the cast to the field's type on the values of an aggregation.
pub record Evaluator (V : Type 0) : Type 0 where
  pub eval_filter : String → TimedRow V → Result Bool
  pub same : V → V → Bool
  pub cast : String → V → V

module _ {V : Type 0} (np : Numpy V) (ev : Evaluator V) where
  -- `rows[rows.apply(...)]`
  unfoldable pub filter_rows : Option String → List (TimedRow V) → Result (List (TimedRow V))
  filter_rows none rows = ok rows
  filter_rows (some e) [] = ok []
  filter_rows (some e) (row ∷ rows) = do
    b ← ev.eval_filter e row
    rest ← filter_rows (some e) rows
    ok (if b then row ∷ rest else rest)

  -- `rows[field_name].to_list()`
  abbrev column : String → List (TimedRow V) → Result (List V)
  column name rows =
      traverse (λ r. elim (get name r.cells) [ none ↦ err key_error | some v ↦ ok v ]) rows

  unfoldable pub aggregate_rows : AggregationFieldDescriptor → List (TimedRow V) → Result V
  unfolding filter_rows limit_rows aggregate get
  aggregate_rows d rows = do
    kept ← filter_rows d.filter_expr rows
    inputs ← column d.field_name (limit_rows d.limit kept)
    ok (aggregate np d.agg_func inputs)

  -- The body of the `for` loop over the descriptors.
  unfoldable pub step_slot : ℕ → List (TimedRow V) → Slot → Result (V × Slot)
  step_slot window_end rows (d, w) =
      let w' = advance d window_end rows w in
      (do v ← aggregate_rows d (rows_in_window rows w'); ok (v, (d, w')))

  unfoldable pub same_all : List V → List V → Bool
  same_all [] [] = true
  same_all (x ∷ xs) (y ∷ ys) = ev.same x y && same_all xs ys
  same_all _ _ = false

  cast_all : List AggregationFieldDescriptor → List V → List V
  cast_all [] vs = []
  cast_all (d ∷ ds) [] = []
  cast_all (d ∷ ds) (v ∷ vs) = ev.cast d.field_name v ∷ cast_all ds vs

  unfoldable pub window_row : ℕ → List AggregationFieldDescriptor → List V → WindowRow V
  unfolding cast_all
  window_row window_end ds vs = record { values = cast_all ds vs; window_time = window_end - 1 }

  -- The rows of the result, the last one first.
  unfoldable pub emit :
      ℕ → List AggregationFieldDescriptor → List V → List (WindowRow V) → List (WindowRow V)
  unfolding same_all window_row
  emit window_end ds vs [] = window_row window_end ds vs ∷ []
  emit window_end ds vs (last ∷ res) =
      if same_all vs last.values then last ∷ res else window_row window_end ds vs ∷ last ∷ res

  abbrev pub Outcome : Type 0
  Outcome = Option (Result (List (WindowRow V)))

  -- The end of a round of the loop, after its `for` loop: `more` is the rounds that follow.
  unfoldable pub end_round :
      List (TimedRow V)
      → ℕ
      → List Slot
      → List (WindowRow V)
      → (List Slot → List (WindowRow V) → Outcome)
      → Result (List (V × Slot))
      → Outcome
  end_round rows window_end slots res more (err x) = some (err x)
  end_round rows window_end slots res more (ok outs) =
      let res' = emit window_end (descriptors_of slots) (values_of outs) res in
      elim (all_reach_end rows (slots_of outs)) [
        | true ↦ some (ok res')
        | false ↦ more (slots_of outs) res'
      ]

  -- The `while True` loop; `none` if the fuel runs out.
  unfoldable pub run : ℕ → ℕ → List (TimedRow V) → ℕ → List Slot → List (WindowRow V) → Outcome
  run zero step_size rows window_end slots res = none
  run (suc fuel) step_size rows window_end slots res =
      end_round rows window_end slots res (run fuel step_size rows (window_end + step_size))
        (traverse (step_slot window_end rows) slots)

-- _get_first_window_end_time
unfoldable pub get_first_window_end_time : ℕ → ℕ → ℕ
get_first_window_end_time row_time step_size = row_time - row_time % step_size + step_size

abbrev pub max_of : ℕ → ℕ → ℕ
max_of a b = if leb a b then b else a

module _ {V : Type 0} where
  -- The latest event time, and the largest window size: what the fuel is reckoned from.
  unfoldable pub latest : List (TimedRow V) → ℕ
  latest [] = 0
  latest (row ∷ rows) = max_of row.event_time (latest rows)

unfoldable pub largest_window : List AggregationFieldDescriptor → ℕ
largest_window [] = 0
largest_window (d ∷ ds) = max_of d.window_size (largest_window ds)

module _ {V : Type 0} (np : Numpy V) (ev : Evaluator V) where
  abbrev in_order :
      Option (Result (List (WindowRow V))) → Option (Result (Option (List (WindowRow V))))
  in_order none = none
  in_order (some (err x)) = some (err x)
  in_order (some (ok res)) = some (ok (some (reverse res)))

  -- _sliding_window_func, on rows whose expressions are evaluated. It returns None on no rows, and a
  -- step of zero milliseconds divides by zero. The outer `none` means that the fuel ran out.
  unfoldable pub sliding_window_func :
      ℕ
      → List (TimedRow V)
      → List AggregationFieldDescriptor
      → Option (Result (Option (List (WindowRow V))))
  sliding_window_func step_size [] ds = some (ok none)
  sliding_window_func step_size (first_row ∷ rest) ds =
      if nat_beq step_size 0
      then some (err zero_division_error)
      else in_order (
          run np ev (suc (suc (latest (first_row ∷ rest) + largest_window ds))) step_size
            (first_row ∷ rest) (get_first_window_end_time first_row.event_time step_size)
            (initial_slots ds) [])
