-- ===== src/LocalProcessor/GetTable/Tests.antt =====
-- A range of a small table.
use feathub.Prelude.{◌≡◌, refl, ℕ, [], ◌∷◌, Option, none, some, nat_eq, string_eq, true, ◌↔◌, Among}
use feathub.Prelude.Int.{ℤ, pos, ◌*ℤ◌}
use feathub.Dict.{get, contains}
use feathub.Errors.{ok}
use feathub.Common.Time.{TimeValue, int_time, as_datetime, to_unix_timestamp}
use feathub.Common.PlainDates.{plain_dates}
use feathub.Common.Rows.{Row, row_time, cell}
use feathub.LocalProcessor.Join.{TimeField}
use feathub.LocalProcessor.Frame.{Frame}
use feathub.LocalProcessor.GetTable.{
  Series, filter_keys, append_and_sort_unix_time_column, filter_range, get_table, unix_bound,
}
use feathub.LocalProcessor.GetTable.Wanted.{InRange, Matches, get_table-Among}

abbrev as_time : ℕ → TimeValue ℤ
as_time n = int_time (pos n)

abbrev unsorted : Series ℕ
unsorted = record {
  equals = λ a b. true;
  drop_duplicates = λ rows. rows;
  sort_values = λ rows. rows;
}

abbrev visit : ℕ → ℕ → Row ℕ
visit user t = ("user", user) ∷ ("time", t) ∷ []

abbrev visits : Frame ℕ
visits = record { columns = "user" ∷ "time" ∷ []; rows = visit 1 5 ∷ visit 2 7 ∷ visit 1 9 ∷ [] }

abbrev recent : Frame ℕ
recent = record { columns = "user" ∷ "time" ∷ []; rows = visit 2 7 ∷ [] }

abbrev time : TimeField
time = record { field = "time"; format = "epoch" }

visits_run :
    get_table unsorted plain_dates as_time tt none
      (some "time")
      (some "epoch")
      (some (pos 6000000))
      (some (pos 9000000))
      visits
    ≡ ok recent
unfolding get_table filter_keys filter_range append_and_sort_unix_time_column row_time cell
    to_unix_timestamp as_datetime get contains ◌*ℤ◌
visits_run = refl

get_table-Among_example :
    (unix_start : Option ℤ) × (unix_end : Option ℤ) × (unix_bound unsorted plain_dates as_time tt
        (some (pos 6000000))
      ≡ ok unix_start)
    × (unix_bound unsorted plain_dates as_time tt (some (pos 9000000)) ≡ ok unix_end)
    × ((row : Row ℕ)
        → Among row recent.rows ↔ (
            (Among row visits.rows × Matches unsorted plain_dates as_time tt none row)
            × InRange unsorted plain_dates as_time tt time unix_start unix_end row))
get_table-Among_example =
    get_table-Among unsorted plain_dates as_time tt none time (pos 6000000) (pos 9000000) visits
      (λ timed r. (λ m. m, λ m. m)) visits_run
