-- ===== src/OnlineStore/Tests.antt =====
-- Runs of `put` on a small table, and the theorems at them.
use feathub.Prelude.{
  ◌≡◌, refl, ℕ, List, [], ◌∷◌, none, some, nat_eq, string_eq, list_eq, pair_eq, option_eq,
}
use feathub.Prelude.Int.{ℤ, pos, ◌*ℤ◌}
use feathub.Dict.{get, insert}
use feathub.Errors.{ok}
use feathub.Common.Time.{TimeValue, int_time}
use feathub.Common.PlainDates.{plain_dates}
use feathub.Types.{BasicDType, primitive_type}
use feathub.Schema.{Schema}
use feathub.Common.Rows.{Row, row_time}
use feathub.OnlineStore.{
  Table, DataFrame, TableInfo, MemoryOnlineStore, PutArgs, key_of, write_at, write_row, write_rows,
  put,
}
use feathub.OnlineStore.Put.{CoversAll, write_rows-CoversAll}
use feathub.OnlineStore.Tables.{put-other_table}

abbrev as_time : ℕ → TimeValue ℤ
as_time n = int_time (pos n)

abbrev user_row : ℕ → ℕ → ℕ → Row ℕ
user_row id t v = ("id", id) ∷ ("time", t) ∷ ("v", v) ∷ []

abbrev schema : Schema
schema = record {
  field_names = "id" ∷ "time" ∷ "v" ∷ [];
  field_types =
      primitive_type BasicDType.int64
      ∷ primitive_type BasicDType.int64
      ∷ primitive_type BasicDType.int64
      ∷ [];
}

abbrev args : PutArgs
args = record {
  schema = schema;
  key_fields = "id" ∷ [];
  timestamp_field = some "time";
  timestamp_format = some "epoch";
}

abbrev batch : List (Row ℕ)
batch = user_row 1 5 50 ∷ user_row 2 1 10 ∷ user_row 1 3 30 ∷ user_row 2 4 40 ∷ []

abbrev written : Table ℕ
written = (("id", 1) ∷ [], user_row 1 5 50) ∷ (("id", 2) ∷ [], user_row 2 4 40) ∷ []

batch_run : write_rows plain_dates as_time tt args [] batch ≡ (ok tt, written)
unfolding write_rows write_row key_of write_at row_time get insert ◌*ℤ◌
batch_run = refl

write_rows-CoversAll_example :
    CoversAll plain_dates as_time tt "time" "epoch" args refl refl written batch
write_rows-CoversAll_example =
    write_rows-CoversAll plain_dates as_time tt "time" "epoch" args refl refl [] written batch
      batch_run

abbrev users : TableInfo ℕ
users = record {
  table = written;
  schema = schema;
  timestamp_field = some "time";
  key_fields = "id" ∷ [];
}

abbrev store : MemoryOnlineStore ℕ
store = record { table_infos = ("users", users) ∷ [] }

abbrev frame : DataFrame ℕ
frame = record { columns = "id" ∷ "time" ∷ "v" ∷ []; rows = batch }

abbrev untimed : PutArgs
untimed = record args { timestamp_field = none }

put-other_table_example :
    get "users" (put plain_dates as_time tt store "items" frame args).1.table_infos
    ≡ get "users" store.table_infos
put-other_table_example =
    put-other_table plain_dates as_time tt store "items" frame args "users" refl
