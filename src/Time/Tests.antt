-- ===== src/Time/Tests.antt =====
-- Runs of the timestamp reader, and its properties at such inputs.
use m_url.Base.{◌≡◌, ◌+◌, ◌-◌, refl, ok, err, arith}
use m_url.Base.Text.{codes}
use m_url.Base.Decimal.{digits_value}
use m_url.Time.{
  is_leap, days_in_month, days_from_civil, num, is_strict_form, to_epoch, parse_rfc3339_utc,
  day_out_of_range,
}
use m_url.Time.Days.{days_of_years, days_of_months, days_from_civil-calendar}

program : Unit {0}
unfolding is_leap days_in_month days_from_civil num is_strict_form to_epoch parse_rfc3339_utc
    digits_value
program = tt

parse_leap_day : parse_rfc3339_utc (codes "2024-02-29T12:30:45Z") ≡ ok 1709209845
unfolding program
parse_leap_day = refl

parse_no_leap_day : parse_rfc3339_utc (codes "2100-02-29T00:00:00Z") ≡ err day_out_of_range
unfolding program
parse_no_leap_day = refl

days_from_civil-calendar_example :
    days_from_civil (1970 + 54) 2 29
    ≡ days_of_years 54 + days_of_months (1970 + 54) (2 - 1) + (29 - 1)
days_from_civil-calendar_example =
    days_from_civil-calendar 54 2 29 (omega arith) (omega arith) (omega arith)
