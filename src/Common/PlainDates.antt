-- ===== src/Common/PlainDates.antt =====
-- The simplest `datetime`, at which the tests of the other modules run.
use feathub.Prelude.{false}
use feathub.Prelude.Int.{ℤ}
use feathub.Errors.{ok, err, value_error}
use feathub.Common.Time.{Datetime}

-- Dates that are their own timestamps, in one time zone.
abbrev pub plain_dates : Datetime
plain_dates = record {
  Date = ℤ;
  Tz = Unit {0};
  strptime = λ text format. err value_error;
  fromtimestamp = λ n zone. ok n;
  is_naive = λ d. false;
  replace_tz = λ d zone. d;
  timestamp = λ d. d;
}
