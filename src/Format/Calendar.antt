-- ===== src/Format/Calendar.antt =====
-- The Gregorian calendar, year by year and month by month, as a specification.
use inqjet.Common.{
  ℕ, zero, suc, ◌+◌, ◌-◌, ◌*◌, ◌/◌, ◌%◌, ◌≤◌, ◌≡◌, Bool, true, false, ◌||◌, arith, ◌==◌,
  if◌then◌else◌,
}

unfoldable pub is_leap : ℕ → Bool
is_leap y = if y % 4 == 0 then (if y % 100 == 0 then y % 400 == 0 else true) else false

abbrev pub days_in_year : ℕ → ℕ
days_in_year y = if is_leap y then 366 else 365

abbrev is_short_month : ℕ → Bool
is_short_month m = (m == 4) || (m == 6) || (m == 9) || (m == 11)

abbrev days_in_february : ℕ → ℕ
days_in_february y = if is_leap y then 29 else 28

abbrev pub days_in_month : ℕ → ℕ → ℕ
days_in_month year month =
    if month == 2 then days_in_february year else if is_short_month month then 30 else 31

-- Days from January 1st of year 0 to January 1st of year `y`.
abbrev pub days_before_year : ℕ → ℕ
days_before_year zero = 0
days_before_year (suc y) = days_before_year y + days_in_year y

-- Days of the year before the first of the month `m`, from 1.
abbrev pub days_before_month : ℕ → ℕ → ℕ
days_before_month year zero = 0
days_before_month year (suc zero) = 0
days_before_month year (suc (suc k)) = days_in_month year (suc k) + days_before_month year (suc k)

-- Days from January 1st of year 0.
abbrev pub day_number : ℕ → ℕ → ℕ → ℕ
day_number y m d = days_before_year y + days_before_month y m + (d - 1)

pub record IsDate (y m d : ℕ) : Type 0 where
  pub month_in : (1 ≤ m) × (m ≤ 12)
  pub day_in : (1 ≤ d) × (d ≤ days_in_month y m)

-- The leap years before `y`, in closed form.
pub days_before_year-eq :
    (y : ℕ) → days_before_year y + (y + 99) / 100 ≡ 365 * y + (y + 3) / 4 + (y + 399) / 400
unfolding is_leap
days_before_year-eq zero = omega arith
days_before_year-eq (suc y) = ground (arith, days_before_year-eq y)

-- Days before March 1st of year `y`, in closed form.
pub march_first :
    (y : ℕ)
    → days_before_year y + (if is_leap y then 60 else 59) + y / 100 ≡ 365 * y + y / 4 + y / 400 + 60
unfolding is_leap
march_first y = ground (arith, days_before_year-eq y)
