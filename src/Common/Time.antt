-- ===== src/Common/Time.antt =====
-- common/utils.py, to_unix_timestamp. A POSIX timestamp is a whole number of microseconds, the
-- resolution of `datetime`; the program's float has the same order on them.
use feathub.Prelude.{Bool, String, ◌==◌, string_eq, if◌then◌else◌}
use feathub.Errors.{Result, ok, err, feathub_exception, ◌>>=◌}
use feathub.Prelude.Int.{ℤ, pos, ◌*ℤ◌}

-- The standard library's `datetime`.
pub record Datetime : Type 1 where
  pub Date : Type 0
  pub Tz : Type 0
  pub strptime : String → String → Result Date
  pub fromtimestamp : ℤ → Tz → Result Date
  pub is_naive : Date → Bool
  pub replace_tz : Date → Tz → Date
  pub timestamp : Date → ℤ

-- Union[int, datetime, str]
pub data TimeValue (Date : Type 0) : Type 0 where
  int_time : ℤ → TimeValue Date
  date_time : Date → TimeValue Date
  str_time : String → TimeValue Date

module _ (dt : Datetime) where
  open dt use {Date, Tz, strptime, fromtimestamp, is_naive, replace_tz, timestamp}

  unfoldable pub as_datetime : TimeValue Date → String → Tz → Result Date
  as_datetime (str_time s) format tz = strptime s format
  as_datetime (date_time d) format tz = ok d
  as_datetime (int_time n) format tz =
      if format == "epoch"
      then fromtimestamp (n *ℤ pos 1000000) tz
      else if format == "epoch_millis"
      then fromtimestamp (n *ℤ pos 1000) tz
      else err feathub_exception

  unfoldable pub to_unix_timestamp : TimeValue Date → String → Tz → Result ℤ
  unfolding as_datetime
  to_unix_timestamp time format tz = do
    d ← as_datetime time format tz
    ok (timestamp (if is_naive d then replace_tz d tz else d))
