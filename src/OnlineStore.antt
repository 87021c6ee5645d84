-- ===== src/OnlineStore.antt =====
-- online_stores/memory_online_store.py: the tables kept in memory, and `put`.
-- A value of a cell is of any type with a decidable `==`, which leaves NaN out.
mod Newest
pub mod Put
pub mod Tables
pub mod Get
pub mod Served
mod Tests
mod GetTests
use feathub.Prelude.{
  ◌≡◌, Bool, true, false, ◌&&◌, String, List, [], ◌∷◌, Option, none, some, HasEq, ◌==◌, string_eq,
  list_eq, pair_eq, option_eq, if◌then◌else◌,
}
use feathub.Prelude.Int.{ℤ, leb_ℤ}
use feathub.Dict.{get, insert, contains, is_subset}
use feathub.Errors.{
  Error, Result, ok, err, feathub_exception, key_error, runtime_error, ◌>>=◌, ◌>>◌, guard, traverse,
}
use feathub.Common.Time.{Datetime, TimeValue}
use feathub.Common.Rows.{Row, or_raise, row_time}
use feathub.Schema.{Schema, schema_beq}

-- A table by the tuples of items that are its keys.
abbrev pub Table : Type 0 → Type 0
Table V = List (Row V × Row V)

pub record DataFrame (V : Type 0) : Type 0 where
  pub columns : List String
  pub rows : List (Row V)

-- _TableInfo
pub record TableInfo (V : Type 0) : Type 0 where
  pub table : Table V
  pub schema : Schema
  pub timestamp_field : Option String
  pub key_fields : List String

pub record MemoryOnlineStore (V : Type 0) : Type 0 where
  pub table_infos : List (String × TableInfo V)

-- The arguments of `put`, but for the table's name and the rows.
pub record PutArgs : Type 0 where
  pub schema : Schema
  pub key_fields : List String
  pub timestamp_field : Option String
  pub timestamp_format : Option String

module _ {V : Type 0} where
  abbrev pub item_of : Row V → String → Result (String × V)
  item_of row f = do v ← or_raise key_error (get f row); ok (f, v)

  -- OrderedDict(items)
  dict_of : Row V → Row V → Row V
  unfolding insert
  dict_of d [] = d
  dict_of d ((k, v) ∷ items) = dict_of (insert k v d) items

  -- `tuple(row.loc[key_fields].to_dict(OrderedDict).items())`
  unfoldable pub key_of : List String → Row V → Result (Row V)
  unfolding get dict_of
  key_of key_fields row = do items ← traverse (item_of row) key_fields; ok (dict_of [] items)

  abbrev new_info : PutArgs → TableInfo V
  new_info args = record {
    table = [];
    schema = args.schema;
    timestamp_field = args.timestamp_field;
    key_fields = args.key_fields;
  }

  -- `self.table_infos[table_name]`, after the entry of a new table is made.
  unfoldable pub info_of : PutArgs → Option (TableInfo V) → TableInfo V
  info_of args none = new_info args
  info_of args (some info) = info

  unfoldable pub check_put : TableInfo V → PutArgs → List String → Result (Unit {0})
  check_put info args columns = do
    guard (schema_beq info.schema args.schema) runtime_error
    guard (info.timestamp_field == args.timestamp_field) runtime_error
    guard (is_subset info.key_fields columns) runtime_error

  unfoldable pub with_table : TableInfo V → Table V → TableInfo V
  with_table info t = record info { table = t }

module _ {V : Type 0} ⦃e : HasEq V⦄ (dt : Datetime) (as_time : V → TimeValue (dt.Date))
    (utc : dt.Tz) where
  -- The row replaces the existing row of its key unless that is as late.
  unfoldable pub keep_later :
      String → String → Table V → Row V → Row V → ℤ → Option (Row V) → Result (Table V)
  keep_later field format table row key time none = ok (insert key row table)
  keep_later field format table row key time (some existing) = do
    existing_time ← row_time dt as_time utc field format existing
    ok (if leb_ℤ time existing_time then table else insert key row table)

  unfoldable pub write_at :
      Option String → Option String → Table V → Row V → Row V → Result (Table V)
  unfolding keep_later
  write_at none format table row key = ok (insert key row table)
  write_at (some field) none table row key = err feathub_exception
  write_at (some field) (some format) table row key = do
    time ← row_time dt as_time utc field format row
    keep_later field format table row key time (get key table)

  -- One round of the loop over the rows.
  unfoldable pub write_row : PutArgs → Table V → Row V → Result (Table V)
  write_row args table row = do
    key ← key_of args.key_fields row
    write_at args.timestamp_field args.timestamp_format table row key

  -- What was written before a row raises stays written.
  unfoldable pub write_rows : PutArgs → Table V → List (Row V) → Result (Unit {0}) × Table V
  write_rows args table [] = (ok tt, table)
  write_rows args table (row ∷ rows) = elim (write_row args table row) [
    | ok table' ↦ write_rows args table' rows
    | err x ↦ (err x, table)
  ]

  -- The part of `put` after the checks, on their outcome.
  unfoldable pub finish_put :
      String
      → DataFrame V
      → PutArgs
      → TableInfo V
      → List (String × TableInfo V)
      → Result (Unit {0})
      → Result (Unit {0}) × MemoryOnlineStore V
  unfolding with_table
  finish_put name features args info infos (err x) = (err x, record { table_infos = infos })
  finish_put name features args info infos (ok _) =
      let (r, t) = write_rows args info.table features.rows in
      (r, record { table_infos = insert name (with_table info t) infos })

  unfoldable pub put :
      MemoryOnlineStore V → String → DataFrame V → PutArgs → Result (Unit {0}) × MemoryOnlineStore V
  unfolding finish_put
  put store name features args =
      let info = info_of args (get name store.table_infos) in
      finish_put name features args info (insert name info store.table_infos)
        (check_put info args features.columns)

-- `reset` drops every table.
unfoldable pub reset : {V : Type 0} → MemoryOnlineStore V → MemoryOnlineStore V
reset store = record { table_infos = [] }
