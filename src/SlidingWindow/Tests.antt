-- ===== src/SlidingWindow/Tests.antt =====
-- Runs of the sliding windows on a small group, and the theorems at them.
use feathub.Prelude.{
  ◌≡◌, refl, ℕ, ◌+◌, List, [], ◌∷◌, Option, none, some, arith, nat_beq, length, string_eq, ltb,
}
use mathlib.Core.List.{reverse}
use feathub.Errors.{Result, ok}
use feathub.Aggregation.{Numpy, AggFunc}
use feathub.SlidingWindow.{
  AggregationFieldDescriptor, TimedRow, Window, WindowRow, Evaluator, advance, rows_in_window,
  limit_rows, aggregate_rows, step_slot, all_reach_end, emit, end_round, run, latest,
  largest_window, get_first_window_end_time, sliding_window_func, in_order,
}
use feathub.SlidingWindow.Reference.{reference}
use feathub.SlidingWindow.Ends.{
  sliding_window-eq-reference, sliding_window-total, enough, first_end,
}
use feathub.SlidingWindow.Output.{AllWindows, sliding_window-AllWindows}

total : List ℕ → ℕ
total [] = 0
total (x ∷ xs) = x + total xs

abbrev numpy : Numpy ℕ
numpy = record {
  null = 0;
  of_length = λ n. n;
  of_list = length;
  mean = total;
  total = total;
  largest = total;
  smallest = total;
  counts = length;
}

abbrev evaluator : Evaluator ℕ
evaluator = record {
  eval_filter = λ e row. ok (ltb 3 row.event_time);
  same = nat_beq;
  cast = λ field v. v;
}

abbrev row_at : ℕ → ℕ → TimedRow ℕ
row_at t v = record { event_time = t; cells = ("total", v) ∷ [] }

abbrev sum_of_five : AggregationFieldDescriptor
sum_of_five = record {
  field_name = "total";
  expr = "price";
  agg_func = AggFunc.sum;
  window_size = 5;
  filter_expr = none;
  limit = none;
}

abbrev first_row : TimedRow ℕ
first_row = row_at 1 10

abbrev later_rows : List (TimedRow ℕ)
later_rows = row_at 5 20 ∷ row_at 12 30 ∷ []

abbrev descriptors : List AggregationFieldDescriptor
descriptors = sum_of_five ∷ []

abbrev result_at : ℕ → ℕ → WindowRow ℕ
result_at t v = record { values = v ∷ []; window_time = t }

abbrev result : List (WindowRow ℕ)
result = result_at 4 10 ∷ result_at 9 20 ∷ result_at 14 30 ∷ result_at 19 0 ∷ []

sliding_window_run :
    sliding_window_func numpy evaluator 5 (first_row ∷ later_rows) descriptors
    ≡ some (ok (some result))
unfolding sliding_window_func run end_round step_slot advance rows_in_window aggregate_rows
    all_reach_end emit latest largest_window get_first_window_end_time total
sliding_window_run = refl

-- A limit of zero keeps every row.
limit_zero : limit_rows (some 0) later_rows ≡ later_rows
unfolding limit_rows
limit_zero = refl

abbrev start : Window
start = record { left = 0; right = 0 }

sliding_window-eq-reference_example :
    sliding_window_func numpy evaluator 5 (first_row ∷ later_rows) descriptors
    ≡ in_order numpy evaluator (
        reference numpy evaluator
          (enough numpy evaluator 5 first_row later_rows descriptors)
          5
          (first_row ∷ later_rows)
          (first_end numpy evaluator 5 first_row later_rows descriptors)
          descriptors
          [])
sliding_window-eq-reference_example =
    sliding_window-eq-reference numpy evaluator 5 first_row later_rows descriptors (omega arith)
      (omega arith)

sliding_window-total_example :
    (r : Result (Option (List (WindowRow ℕ)))) × (sliding_window_func numpy evaluator 5
        (first_row ∷ later_rows)
        descriptors
      ≡ some r)
sliding_window-total_example =
    sliding_window-total numpy evaluator 5 first_row later_rows descriptors (omega arith)
      (omega arith)

sliding_window-AllWindows_example :
    AllWindows numpy evaluator 5 (first_row ∷ later_rows) descriptors (reverse result)
sliding_window-AllWindows_example =
    sliding_window-AllWindows numpy evaluator 5 first_row later_rows descriptors result
      (omega arith) (omega arith) sliding_window_run
