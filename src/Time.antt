-- ===== src/Time.antt =====
-- crates/murl-core/src/time.rs: strict timestamps. The numbers of a timestamp are never negative once
-- its ranges are checked, so its `i64` values are native numbers here.
mod Tests
pub mod Days
use m_url.Base.{
  ℕ, zero, suc, ◌+◌, ◌-◌, ◌*◌, ◌/◌, ◌%◌, Bool, true, false, not, ◌&&◌, ◌||◌, List, [], ◌∷◌, Result,
  ok, err, ◌>>=◌, ◌>>◌, refuse_if, ltb, leb, ◌==◌, if◌then◌else◌, length, get_or, take, drop, all,
}
use m_url.Base.Text.{Bytes, is_digit}
use m_url.Base.Decimal.{digits_value}

pub data TimeFault : Type 0 where
  not_strict non_digit year_out_of_range month_out_of_range day_out_of_range time_out_of_range :
      TimeFault

unfoldable pub is_leap : ℕ → Bool
is_leap year = (year % 4 == 0 && not (year % 100 == 0)) || year % 400 == 0

unfoldable pub days_in_month : ℕ → ℕ → ℕ
days_in_month year month =
    if month == 1
      || month == 3
      || month == 5
      || month == 7
      || month == 8
      || month == 10
      || month == 12
    then 31
    else if month == 4 || month == 6 || month == 9 || month == 11
    then 30
    else if month == 2
    then (if is_leap year then 29 else 28)
    else 0

-- Days since 1970-01-01. The year is at least 1969 after the shift, so `y >= 0` holds.
unfoldable pub days_from_civil : ℕ → ℕ → ℕ → ℕ
days_from_civil year m d =
    let y = if leb m 2 then year - 1 else year in
    let era = y / 400 in
    let yoe = y - era * 400 in
    let doy = (153 * (if ltb 2 m then m - 3 else m + 9) + 2) / 5 + d - 1 in
    let doe = yoe * 365 + yoe / 4 - yoe / 100 + doy in era * 146097 + doe - 719468

-- `&s[from..from + len]`
abbrev pub slice : ℕ → ℕ → Bytes → Bytes
slice from len s = take len (drop from s)

-- The closure `num`.
unfoldable pub num : ℕ → ℕ → Bytes → Result TimeFault ℕ
num from len s = do
  refuse_if (not (all is_digit (slice from len s))) non_digit
  ok (digits_value 0 (slice from len s))

unfoldable pub is_strict_form : Bytes → Bool
is_strict_form b =
    length b == 20
    && get_or b 4 0 == b'-'
    && get_or b 7 0 == b'-'
    && get_or b 10 0 == b'T'
    && get_or b 13 0 == b':'
    && get_or b 16 0 == b':'
    && get_or b 19 0 == b'Z'

-- The range checks and the sum, after the fields are read.
unfoldable pub to_epoch : ℕ → ℕ → ℕ → ℕ → ℕ → ℕ → Result TimeFault ℕ
to_epoch year month day hour minute second = do
  refuse_if (not (leb 1970 year && leb year 9999)) year_out_of_range
  refuse_if (not (leb 1 month && leb month 12)) month_out_of_range
  refuse_if (ltb day 1 || ltb (days_in_month year month) day) day_out_of_range
  refuse_if (ltb 23 hour || ltb 59 minute || ltb 59 second) time_out_of_range
  ok (days_from_civil year month day * 86400 + hour * 3600 + minute * 60 + second)

unfoldable pub parse_rfc3339_utc : Bytes → Result TimeFault ℕ
parse_rfc3339_utc s = do
  refuse_if (not (is_strict_form s)) not_strict
  year ← num 0 4 s
  month ← num 5 2 s
  day ← num 8 2 s
  hour ← num 11 2 s
  minute ← num 14 2 s
  second ← num 17 2 s
  to_epoch year month day hour minute second
