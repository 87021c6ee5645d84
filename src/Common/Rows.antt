-- ===== src/Common/Rows.antt =====
-- Rows of a DataFrame: the cells by the names of their columns.
use feathub.Prelude.{String, List, Option, none, some, string_eq}
use feathub.Prelude.Int.{ℤ}
use feathub.Dict.{get}
use feathub.Errors.{Error, Result, ok, err, key_error, ◌>>=◌}
use feathub.Common.Time.{Datetime, TimeValue, to_unix_timestamp}

abbrev pub Row : Type 0 → Type 0
Row V = List (String × V)

abbrev pub or_raise {ℓ} : {A : Type ℓ} → Error → Option A → Result A
or_raise e none = err e
or_raise e (some a) = ok a

module _ {V : Type 0} where
  -- `row[name]`
  unfoldable pub cell : String → Row V → Result V
  unfolding get
  cell name row = or_raise key_error (get name row)

  -- `utils.to_unix_timestamp(row[field], format, tz)`
  unfoldable pub row_time :
      (dt : Datetime) → (V → TimeValue (dt.Date)) → dt.Tz → String → String → Row V → Result ℤ
  unfolding cell to_unix_timestamp
  row_time dt as_time tz field format row = do
    v ← cell field row
    to_unix_timestamp dt (as_time v) format tz
