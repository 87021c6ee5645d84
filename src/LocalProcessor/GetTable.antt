-- ===== src/LocalProcessor/GetTable.antt =====
-- get_table of processors/local/local_processor.py, from the rows that _get_table returns for the
-- resolved descriptor.
pub mod Wanted
mod Tests
use feathub.Prelude.{
  Bool, true, false, not, ◌||◌, String, List, [], ◌∷◌, Option, none, some, string_eq, ◌==◌, map,
  keep,
}
use feathub.Prelude.Int.{ℤ, leb_ℤ, ltb_ℤ}
use feathub.Dict.{contains, is_subset}
use feathub.Errors.{Result, ok, err, feathub_exception, runtime_error, guard, ◌>>=◌, ◌>>◌, traverse}
use feathub.Common.Time.{Datetime, TimeValue, date_time, to_unix_timestamp}
use feathub.Common.Rows.{Row, row_time, or_raise}
use feathub.LocalProcessor.OverWindow.{event_time_attribute, select}
use feathub.LocalProcessor.Join.{TimeField}
use feathub.LocalProcessor.Tables.{time_field}
use feathub.LocalProcessor.Frame.{Frame, select_cells}

-- `Series.equals`, `drop_duplicates` and `sort_values` by the event time.
pub record Series (V : Type 0) : Type 0 where
  pub equals : Row V → Row V → Bool
  pub drop_duplicates : List (Row V) → List (Row V)
  pub sort_values : List (ℤ × Row V) → List (ℤ × Row V)

module _ {V : Type 0} (series : Series V) where
  abbrev pub equals_any : Row V → List (Row V) → Bool
  equals_any row [] = false
  equals_any row (key ∷ keys) = series.equals row key || equals_any row keys

  abbrev pub has_key : Frame V → Row V → Result Bool
  has_key keys row = do
    cells ← select_cells keys.columns row
    ok (equals_any cells (series.drop_duplicates keys.rows))

  -- The rows with one of the keys.
  unfoldable pub filter_keys : Option (Frame V) → Frame V → Result (Frame V)
  filter_keys none df = ok df
  filter_keys (some keys) df = do
    done ← guard (is_subset keys.columns df.columns) feathub_exception
    idx ← traverse (has_key keys) df.rows
    ok (record { columns = df.columns; rows = select idx df.rows })

abbrev pub from_start : Option ℤ → ℤ → Bool
from_start none t = true
from_start (some start) t = leb_ℤ start t

abbrev pub before_end : Option ℤ → ℤ → Bool
before_end none t = true
before_end (some end) t = ltb_ℤ t end

module _ {V : Type 0} (series : Series V) (dt : Datetime) (as_time : V → TimeValue (dt.Date))
    (zone : dt.Tz) where
  -- `to_unix_timestamp(start_datetime, tz=...)`, where one is given
  abbrev pub unix_bound : Option dt.Date → Result (Option ℤ)
  unix_bound none = ok none
  unix_bound (some d) = do
    t ← to_unix_timestamp dt (date_time d) "%Y-%m-%d %H:%M:%S" zone
    ok (some t)

  abbrev pub timed_row : TimeField → Row V → Result (ℤ × Row V)
  timed_row time row = do t ← row_time dt as_time zone time.field time.format row; ok (t, row)

  -- append_and_sort_unix_time_column
  unfoldable pub append_and_sort_unix_time_column : TimeField → Frame V → Result (List (ℤ × Row V))
  append_and_sort_unix_time_column time df = do
    done ← guard (not (contains event_time_attribute df.columns)) runtime_error
    timed ← traverse (timed_row time) df.rows
    ok (series.sort_values timed)

  abbrev pub second : ℤ × Row V → Row V
  second (t, row) = row

  -- The part for a start or an end: rows with a time from the start on and before the end.
  unfoldable pub filter_range :
      TimeField → Option dt.Date → Option dt.Date → Frame V → Result (Frame V)
  filter_range time start end df = do
    timed ← append_and_sort_unix_time_column time df
    unix_start ← unix_bound start
    unix_end ← unix_bound end
    ok (record {
      columns = df.columns;
      rows =
          map second
            (keep (λ r. before_end unix_end r.0) (keep (λ r. from_start unix_start r.0) timed));
    })

  -- `df.drop(columns=[EVENT_TIME_ATTRIBUTE_NAME])` where the source has such a column
  abbrev pub not_event_time : String → Bool
  not_event_time name = not (name == event_time_attribute)

  abbrev pub drop_event_time : Frame V → Frame V
  drop_event_time df = record {
    columns = keep not_event_time df.columns;
    rows = map (λ row. keep (λ c. not_event_time c.0) row) df.rows;
  }

  abbrev pub filter_times :
      Option String → Option String → Option dt.Date → Option dt.Date → Frame V → Result (Frame V)
  filter_times field format none none df = ok (drop_event_time df)
  filter_times field format start end df = do
    time ← or_raise feathub_exception (time_field field format)
    filter_range time start end df

  unfoldable pub get_table :
      Option (Frame V)
      → Option String
      → Option String
      → Option dt.Date
      → Option dt.Date
      → Frame V
      → Result (Frame V)
  get_table keys field format start end df = do
    keyed ← filter_keys series keys df
    filter_times field format start end keyed
