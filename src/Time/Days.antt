-- ===== src/Time/Days.antt =====
-- The day count is the number of calendar days since 1970-01-01.
use m_url.Base.{
  ℕ, zero, suc, ◌+◌, ◌-◌, ◌*◌, ◌/◌, ◌≤◌, ◌<◌, ◌≡◌, inl, inr, refl, Bool, true, false, ltb, leb,
  ◌==◌, if◌then◌else◌, Bool-cases, arith,
}
use m_url.Time.{is_leap, days_in_month, days_from_civil}

-- The calendar, counted year by year and month by month.
unfoldable pub year_length : ℕ → ℕ
year_length year = if is_leap year then 366 else 365

-- The days of `n` years from 1970 on.
unfoldable pub days_of_years : ℕ → ℕ
days_of_years zero = 0
days_of_years (suc n) = days_of_years n + year_length (1970 + n)

-- The days of the first `n` months of a year.
unfoldable pub days_of_months : ℕ → ℕ → ℕ
days_of_months year zero = 0
days_of_months year (suc n) = days_of_months year n + days_in_month year (suc n)

year_closed :
    (n : ℕ)
    → days_of_years n + 719162
      ≡ (1969 + n) * 365 + (1969 + n) / 4 - (1969 + n) / 100 + (1969 + n) / 400
unfolding days_of_years year_length is_leap
year_closed zero = refl
year_closed (suc n) = ground (arith, year_closed n)

-- The eras of 400 years add up to the leap rule.
era_form :
    (y r : ℕ)
    → y / 400 * 146097
        + ((y - y / 400 * 400) * 365 + (y - y / 400 * 400) / 4 - (y - y / 400 * 400) / 100 + r)
      ≡ y * 365 + y / 4 - y / 100 + y / 400 + r
era_form y r = omega arith

february : Bool → ℕ
february leap = if leap then 29 else 28

-- The days of the months before, in a year that is a leap year or not.
month_table : ℕ → Bool → ℕ
month_table month leap =
    if leb month 1
    then 0
    else if month == 2
    then 31
    else 31 + february leap + (153 * (month - 3) + 2) / 5

days_of_months_table :
    (year month : ℕ)
    → month < 12
    → days_of_months year month ≡ month_table (suc month) (is_leap year)
unfolding days_of_months days_in_month month_table february
days_of_months_table year zero h = refl
days_of_months_table year (suc zero) h = refl
days_of_months_table year (suc (suc zero)) h = ground arith
days_of_months_table year (suc (suc (suc zero))) h = ground arith
days_of_months_table year (suc (suc (suc (suc zero)))) h = ground arith
days_of_months_table year (suc (suc (suc (suc (suc zero))))) h = ground arith
days_of_months_table year (suc (suc (suc (suc (suc (suc zero)))))) h = ground arith
days_of_months_table year (suc (suc (suc (suc (suc (suc (suc zero))))))) h = ground arith
days_of_months_table year (suc (suc (suc (suc (suc (suc (suc (suc zero)))))))) h = ground arith
days_of_months_table year (suc (suc (suc (suc (suc (suc (suc (suc (suc zero))))))))) h =
    ground arith
days_of_months_table year (suc (suc (suc (suc (suc (suc (suc (suc (suc (suc zero)))))))))) h =
    ground arith
days_of_months_table year (suc (suc (suc (suc (suc (suc (suc (suc (suc (suc (suc zero))))))))))) h =
    ground arith
days_of_months_table year (suc (suc (suc (suc (suc (suc (suc (suc (suc (suc (suc (suc m))))))))))))
      h =
    absurd (omega arith)

-- The closed form of the count, for January and February and for the later months.
early_form :
    (n m d : ℕ)
    → leb m 2 ≡ true
    → 1 ≤ m
    → 1 ≤ d
    → days_from_civil (1970 + n) m d + 719468
      ≡ (1969 + n) * 365
        + (1969 + n) / 4
        - (1969 + n) / 100
        + (1969 + n) / 400
        + ((153 * (m + 9) + 2) / 5 + d - 1)
unfolding days_from_civil
early_form n m d small lo h =
    let y : 1970 + n - 1 ≡ 1969 + n = omega arith in
    let high : ltb 2 m ≡ false = ground arith in
    rw small (rw high (rw y (rw (era_form (1969 + n)) (omega arith))))

late_form :
    (n m d : ℕ)
    → leb m 2 ≡ false
    → 1 ≤ d
    → days_from_civil (1970 + n) m d + 719468
      ≡ (1970 + n) * 365
        + (1970 + n) / 4
        - (1970 + n) / 100
        + (1970 + n) / 400
        + ((153 * (m - 3) + 2) / 5 + d - 1)
unfolding days_from_civil
late_form n m d large h =
    let high : ltb 2 m ≡ true = ground arith in
    rw large (rw high (rw (era_form (1970 + n)) (omega arith)))

leap_step :
    (n : ℕ)
    → (1970 + n) * 365 + (1970 + n) / 4 - (1970 + n) / 100 + (1970 + n) / 400
      ≡ (1969 + n) * 365
        + (1969 + n) / 4
        - (1969 + n) / 100
        + (1969 + n) / 400
        + (337 + february (is_leap (1970 + n)))
unfolding is_leap february
leap_step n = ground arith

months_early :
    (year month : ℕ)
    → 1 ≤ month
    → leb month 2 ≡ true
    → days_of_months year (month - 1) + 306 ≡ (153 * (month + 9) + 2) / 5
unfolding days_of_months days_in_month
months_early year zero lo h = absurd (omega arith)
months_early year (suc zero) lo h = refl
months_early year (suc (suc zero)) lo h = refl
months_early year (suc (suc (suc m))) lo h = absurd (ground arith)

months_late :
    (year month : ℕ)
    → month ≤ 12
    → leb month 2 ≡ false
    → days_of_months year (month - 1) ≡ 31 + february (is_leap year) + (153 * (month - 3) + 2) / 5
unfolding month_table
months_late year month hi h =
    let table = days_of_months_table year (month - 1) (ground arith) in
    let e : suc (month - 1) ≡ month = ground arith in
    let first : leb month 1 ≡ false = ground arith in
    let second : (month == 2) ≡ false = ground arith in rw table (rw e (rw first (rw second refl)))

-- For a year from 1970 on, a month from 1 to 12 and a day from 1 on, the day count is the
-- calendar's: the days of the years since 1970, of the months before, and of the days before.
pub days_from_civil-calendar :
    (n month day : ℕ)
    → 1 ≤ month
    → month ≤ 12
    → 1 ≤ day
    → days_from_civil (1970 + n) month day
      ≡ days_of_years n + days_of_months (1970 + n) (month - 1) + (day - 1)
days_from_civil-calendar n month day lo hi d = elim (Bool-cases (leb month 2)) [
  | inl small ↦ omega (
    arith,
    early_form n month day small lo d,
    year_closed n,
    months_early (1970 + n) month lo small,
  )
  | inr large ↦ omega (
    arith,
    late_form n month day large d,
    year_closed n,
    leap_step n,
    months_late (1970 + n) month hi large,
  )
]
