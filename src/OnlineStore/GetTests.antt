-- ===== src/OnlineStore/GetTests.antt =====
-- A run of `get` after a `put`, and the theorem at it.
use feathub.Prelude.{
  ◌≡◌, refl, inl, inr, ℕ, false, String, List, [], ◌∷◌, none, some, nat_eq, string_eq, list_eq,
  pair_eq, option_eq,
}
use feathub.Prelude.Int.{ℤ, pos, ◌*ℤ◌}
use feathub.Dict.{get as dict_get, insert, keys, contains, is_subset}
use feathub.Errors.{Result, ok, err, value_error}
use feathub.Common.Time.{TimeValue, int_time}
use feathub.Common.PlainDates.{plain_dates}
use feathub.Types.{BasicDType, primitive_type, dtype_beq}
use feathub.Types.Conversions.{to_numpy_dtype}
use feathub.Schema.{Schema, schema_beq, type_at, get_field_type}
use feathub.Common.Rows.{Row, row_time}
use feathub.OnlineStore.{
  DataFrame, TableInfo, MemoryOnlineStore, PutArgs, key_of, info_of, write_at, write_row,
  write_rows, check_put, finish_put, put, with_table,
}
use feathub.OnlineStore.Get.{
  Pandas, without, drop_cells, drop_present, drop_columns, select_columns, join, requested,
  find_row, find_rows, finish_get, get,
}
use feathub.OnlineStore.Served.{AllServed, get-put}

abbrev as_time : ℕ → TimeValue ℤ
as_time n = int_time (pos n)

abbrev user_row : ℕ → ℕ → ℕ → Row ℕ
user_row id t v = ("id", id) ∷ ("time", t) ∷ ("v", v) ∷ []

abbrev schema : Schema
schema = record {
  field_names = "id" ∷ "time" ∷ "v" ∷ [];
  field_types =
      primitive_type BasicDType.int64
      ∷ primitive_type BasicDType.int64
      ∷ primitive_type BasicDType.int64
      ∷ [];
}

abbrev args : PutArgs
args = record {
  schema = schema;
  key_fields = "id" ∷ [];
  timestamp_field = some "time";
  timestamp_format = some "epoch";
}

abbrev batch : List (Row ℕ)
batch = user_row 1 5 50 ∷ user_row 1 3 30 ∷ user_row 2 4 40 ∷ []

abbrev empty : MemoryOnlineStore ℕ
empty = record { table_infos = [] }

abbrev columns : List String
columns = "id" ∷ "time" ∷ "v" ∷ []

-- Rows that all have the columns of the first.
abbrev table_of : List (Row ℕ) → Result (DataFrame ℕ)
table_of [] = err value_error
table_of (row ∷ rows) = ok (record { columns = keys row; rows = row ∷ rows })

abbrev pandas : Pandas ℕ
pandas = record { concat = table_of; astype = λ types df. ok df }

abbrev asked : ℕ → Row ℕ
asked id = ("id", id) ∷ ("v", 7) ∷ []

abbrev input : DataFrame ℕ
input = record { columns = "id" ∷ "v" ∷ []; rows = asked 2 ∷ asked 1 ∷ [] }

put_run :
    (put plain_dates as_time tt empty "users" (record { columns = columns; rows = batch }) args).0
    ≡ ok tt
unfolding put finish_put info_of check_put schema_beq dtype_beq is_subset contains write_rows
    write_row key_of write_at row_time get insert ◌*ℤ◌ dict_get
put_run = refl

get_run :
    get pandas
      (put plain_dates as_time tt empty "users" (record { columns = columns; rows = batch }) args).1
      "users"
      input
      none
      false
    ≡ ok (
      record {
        columns = "id" ∷ "v" ∷ [];
        rows = (("id", 2) ∷ ("v", 40) ∷ []) ∷ (("id", 1) ∷ ("v", 50) ∷ []) ∷ [];
      },
      none,
    )
unfolding put finish_put info_of check_put schema_beq dtype_beq is_subset contains write_rows
    write_row key_of write_at row_time get insert ◌*ℤ◌ find_rows find_row finish_get drop_columns
    drop_present drop_cells without join requested select_columns type_at get_field_type
    to_numpy_dtype keys dict_get with_table
get_run = refl

get-put_example :
    (info : TableInfo ℕ) × (founds : List (Row ℕ)) × (get pandas
        (put plain_dates as_time tt empty "users"
          (record { columns = columns; rows = batch })
          args).1
        "users"
        input
        none
        false
      ≡ finish_get pandas info input none false founds)
    × AllServed plain_dates as_time tt "time" "epoch" args refl refl batch input.rows founds
unfolding key_of dict_get insert is_subset contains info_of
get-put_example =
    get-put plain_dates as_time tt "time" "epoch" args refl refl batch pandas empty "users" columns
      input none false refl refl
      (
        (user_row 2 4 40, inr (inr (inl refl)), ("id", 2) ∷ [], refl, refl),
        ((user_row 1 5 50, inl refl, ("id", 1) ∷ [], refl, refl), tt),
      )
      put_run
