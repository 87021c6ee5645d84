-- ===== src/LocalProcessor/OverTests.antt =====
-- An over window on a small table, and the theorems at it.
use feathub.Prelude.{
  ◌≡◌, refl, sym, ◌∙◌, ◌*◌, inl, inr, ℕ, suc, true, String, List, [], ◌∷◌, none, some, string_eq,
  nat_eq, option_eq, Among, length, ◌≤◌, list_eq,
}
use mathlib.Core.Path.{subst}
use feathub.Prelude.Int.{pos, ◌*ℤ◌, ◌-ℤ◌, ◌≤ℤ◌}
use feathub.Dict.{get, insert, contains, is_subset}
use feathub.Errors.{Result, ok, err, key_error}
use feathub.Common.Time.{as_datetime, to_unix_timestamp}
use feathub.Common.Rows.{Row, row_time, cell}
use feathub.Aggregation.{AggFunc, Numpy, aggregate}
use feathub.Dsl.{ExprAst, variable_node}
use feathub.Dsl.Local.{eval}
use feathub.Dsl.PlainValues.{Value, number, nothing, python, value_eq}
use feathub.LocalProcessor.OverWindow.{
  OverWindowTransform, OverRow, Pandas, insert_group, insert_groups, group_by_idx, iloc, last_rows,
  select, min_timestamp, in_window, rows_in_group, predicate, window_rows, over_value, over_values,
  time_rows, prepare, evaluate_over_window,
}
use feathub.LocalProcessor.Groups.{same_keys, IsGrouping}
use feathub.LocalProcessor.OverReference.{
  positions, reference_over_window, evaluate_over_window-eq-reference,
}
use feathub.LocalProcessor.OverBounds.{IsSort, window_rows-bounds}

abbrev numpy : Numpy Value
numpy = record {
  null = nothing;
  of_length = number;
  of_list = λ vs. nothing;
  mean = λ vs. nothing;
  total = λ vs. nothing;
  largest = λ vs. nothing;
  smallest = λ vs. nothing;
  counts = λ vs. nothing;
}

-- The groups of the table below.
abbrev pandas : Pandas Value
pandas = record {
  indices = λ ks rows. (0 ∷ 2 ∷ []) ∷ (1 ∷ []) ∷ [];
  sort_values = λ rows. rows;
  mask = λ v. ok true;
  of_time = λ t. nothing;
}

abbrev parse : String → Result (ExprAst Value)
parse expr = ok (variable_node expr)

abbrev visit : ℕ → ℕ → ℕ → Row Value
visit user t pages = ("user", number user) ∷ ("time", number t) ∷ ("pages", number pages) ∷ []

abbrev visits : List (Row Value)
visits = visit 1 5 10 ∷ visit 2 6 20 ∷ visit 1 9 30 ∷ []

abbrev columns : List String
columns = "user" ∷ "time" ∷ "pages" ∷ []

abbrev transform : OverWindowTransform
transform = record {
  expr = "pages";
  agg_func = AggFunc.count;
  window_size = some (pos 4000000);
  group_by_keys = "user" ∷ [];
  filter_expr = none;
  limit = some 2;
}

visits_run :
    evaluate_over_window python numpy pandas parse tt transform "time" "epoch" columns
      (0 ∷ 1 ∷ 2 ∷ [])
      visits
    ≡ ok (number 1 ∷ number 1 ∷ number 2 ∷ [])
unfolding evaluate_over_window prepare contains is_subset eval get time_rows row_time cell
    to_unix_timestamp as_datetime ◌*ℤ◌ ◌-ℤ◌ over_values group_by_idx insert_groups insert_group
    insert rows_in_group iloc over_value window_rows predicate in_window min_timestamp select
    last_rows aggregate
visits_run = refl

-- After a filter has removed the first of four rows, the labels of the others are not positions.
filtered_run :
    evaluate_over_window python numpy pandas parse tt transform "time" "epoch" columns
      (1 ∷ 2 ∷ 3 ∷ [])
      visits
    ≡ err key_error
unfolding evaluate_over_window prepare contains is_subset eval get time_rows row_time cell
    to_unix_timestamp as_datetime ◌*ℤ◌ ◌-ℤ◌ over_values group_by_idx insert_groups insert_group
    insert rows_in_group iloc over_value window_rows predicate in_window min_timestamp select
    last_rows aggregate
filtered_run = refl

abbrev timed : ℕ → ℕ → ℕ → OverRow Value
timed user t pages = record {
  cells = visit user t pages;
  temp = number pages;
  event_time = pos (t * 1000000);
}

abbrev timed_visits : List (OverRow Value)
timed_visits = timed 1 5 10 ∷ timed 2 6 20 ∷ timed 1 9 30 ∷ []

prepare_run :
    prepare python numpy pandas parse tt transform "time" "epoch" columns visits ≡ ok timed_visits
unfolding prepare contains is_subset eval get time_rows row_time cell to_unix_timestamp as_datetime
    ◌*ℤ◌
prepare_run = refl

visits-IsGrouping : IsGrouping transform.group_by_keys timed_visits ((0 ∷ 2 ∷ []) ∷ (1 ∷ []) ∷ [])
unfolding iloc same_keys get
visits-IsGrouping = record {
  grouped = (
    (0 ∷ 2 ∷ [], inl refl, inl refl),
    ((1 ∷ [], inr (inl refl), inl refl), ((0 ∷ 2 ∷ [], inl refl, inr (inl refl)), tt)),
  );
  members = (
    ((timed 1 5 10, refl, refl), ((timed 1 9 30, refl, refl), tt)),
    (((timed 2 6 20, refl, refl), tt), tt),
  );
}

same_result : {A : Type 0} {a b : A} → ok a ≡ ok b → a ≡ b
same_result h = cc

evaluate_over_window-eq-reference_example :
    evaluate_over_window python numpy pandas parse tt transform "time" "epoch" columns
      (0 ∷ 1 ∷ 2 ∷ [])
      visits
    ≡ reference_over_window python numpy pandas parse tt transform "time" "epoch" columns visits
evaluate_over_window-eq-reference_example =
    evaluate_over_window-eq-reference python numpy pandas parse tt transform "time" "epoch" columns
      (0 ∷ 1 ∷ 2 ∷ []) visits
      (λ all h.
        subst (λ rows. (0 ∷ 1 ∷ 2 ∷ []) ≡ positions python numpy pandas parse tt 0 rows)
          (same_result (sym prepare_run ∙ h)) refl)
      (λ all h.
        subst (λ rows. IsGrouping transform.group_by_keys rows ((0 ∷ 2 ∷ []) ∷ (1 ∷ []) ∷ []))
          (same_result (sym prepare_run ∙ h)) visits-IsGrouping)

window_run :
    window_rows python numpy pandas parse tt transform none (timed 1 9 30) timed_visits
    ≡ ok (timed 2 6 20 ∷ timed 1 9 30 ∷ [])
unfolding window_rows predicate in_window min_timestamp select last_rows ◌-ℤ◌
window_run = refl

sorts : IsSort pandas.sort_values
sorts = record { same_length = λ rows. refl; from = λ r rows a. a }

window_rows-bounds_example :
    ((r : OverRow Value)
      → Among r (timed 2 6 20 ∷ timed 1 9 30 ∷ [])
      → Among r timed_visits
        × (min_timestamp transform.window_size (pos 9000000) ≤ℤ r.event_time)
        × (r.event_time ≤ℤ pos 9000000))
    × ((n : ℕ) → transform.limit ≡ some (suc n) → length (timed 2 6 20 ∷ timed 1 9 30 ∷ []) ≤ suc n)
window_rows-bounds_example =
    window_rows-bounds python numpy pandas parse tt transform (timed 1 9 30) timed_visits none
      (timed 2 6 20 ∷ timed 1 9 30 ∷ []) sorts window_run
