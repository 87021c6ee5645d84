-- ===== src/LocalProcessor/Tests.antt =====
-- Runs of the join on a small table, and the theorem at one.
use feathub.Prelude.{◌≡◌, refl, ℕ, List, [], ◌∷◌, Option, none, some, nat_eq, string_eq}
use feathub.Prelude.Int.{ℤ, pos, ◌*ℤ◌}
use feathub.Dict.{get}
use feathub.Errors.{ok}
use feathub.Common.Time.{TimeValue, int_time, as_datetime, to_unix_timestamp}
use feathub.Common.PlainDates.{plain_dates}
use feathub.Common.Rows.{Row, row_time, cell}
use feathub.LocalProcessor.Join.{
  JoinSpec, keys_match, join_time_of, take_match, join_row, join_rows, join_source, evaluate_join,
}
use feathub.LocalProcessor.Evaluate.{AllJoined, evaluate_join-AllJoined}

abbrev as_time : ℕ → TimeValue ℤ
as_time n = int_time (pos n)

abbrev spec : JoinSpec
spec = record {
  source_time = record { field = "time"; format = "epoch" };
  join_time = record { field = "updated"; format = "epoch" };
  keys = "item" ∷ [];
  join_keys = "id" ∷ [];
  variable = "price";
}

abbrev purchase : ℕ → ℕ → Row ℕ
purchase item t = ("item", item) ∷ ("time", t) ∷ []

abbrev price : ℕ → ℕ → ℕ → Row ℕ
price id t v = ("id", id) ∷ ("updated", t) ∷ ("price", v) ∷ []

abbrev purchases : List (Row ℕ)
purchases = purchase 1 5 ∷ purchase 2 5 ∷ purchase 1 9 ∷ []

abbrev prices : List (Row ℕ)
prices = price 1 9 30 ∷ price 1 4 20 ∷ price 2 7 50 ∷ price 1 2 10 ∷ []

abbrev values : List (Option ℕ)
values = some 20 ∷ none ∷ some 30 ∷ []

purchases_run : evaluate_join plain_dates as_time tt spec prices purchases ≡ ok values
unfolding evaluate_join join_source join_rows join_row join_time_of take_match keys_match row_time
    cell to_unix_timestamp as_datetime get ◌*ℤ◌
purchases_run = refl

evaluate_join-AllJoined_example : AllJoined plain_dates as_time tt spec prices purchases values
evaluate_join-AllJoined_example =
    evaluate_join-AllJoined plain_dates as_time tt spec prices purchases values purchases_run
