-- ===== src/Format/Civil.antt =====
-- `civil_from_days` against the calendar.
use native.Mathlib.Decide.{dec_lt}
use inqjet.Common.{
  ℕ, zero, suc, ◌+◌, ◌-◌, ◌*◌, ◌/◌, ◌≤◌, ◌<◌, ◌≡◌, refl, some, arith, ltb, leb, if◌then◌else◌,
  le→ltb, lt→ltb, ◌^◌, lt→leb, ◌%◌, le→leb,
}
use inqjet.Common.Int.{pos}
use inqjet.Common.Words.{
  add_u32-eq, mul_u32-eq, sub_u32-eq, add_i32-eq, mul_i32-eq, cast_i32-eq, sub_i32-eq,
}
use inqjet.Format.{year_of_era, day_of_year, month_and_day, civil_of_era, civil_from_days, era_of}
use inqjet.Format.Calendar.{
  is_leap, days_before_month, day_number, IsDate, days_before_year-eq, march_first,
}

-- The year of the era of a day below 146097, and the day of its year, counted from March 1st.
abbrev yoe_of : ℕ → ℕ
yoe_of doe = (doe - doe / 1460 + doe / 36524 - doe / 146096) / 365

abbrev doy_of : ℕ → ℕ
doy_of doe = let yoe = yoe_of doe in doe - (365 * yoe + yoe / 4 - yoe / 100)

year_of_era-eq : (doe : ℕ) → doe < 146097 → year_of_era doe ≡ some (yoe_of doe)
unfolding year_of_era
year_of_era-eq doe h = rw (
  sub_u32-eq doe (doe / 1460) (omega arith),
  add_u32-eq (doe - doe / 1460) (doe / 36524) (omega arith),
  sub_u32-eq (doe - doe / 1460 + doe / 36524) (doe / 146096) (omega arith),
)

record YearFacts (doe yoe : ℕ) : Type 0 where
  yoe_small : yoe ≤ 399
  begins : 365 * yoe + yoe / 4 ≤ doe + yoe / 100
  ends : doe + (yoe + 1) / 100 < 365 * (yoe + 1) + (yoe + 1) / 4 + (yoe + 1) / 400

year_facts : (doe : ℕ) → doe < 146097 → YearFacts doe (yoe_of doe)
year_facts doe h = record { yoe_small = omega arith; begins = omega arith; ends = omega arith }

day_of_year-eq :
    (doe yoe : ℕ)
    → YearFacts doe yoe
    → day_of_year doe yoe ≡ some (doe - (365 * yoe + yoe / 4 - yoe / 100))
unfolding day_of_year
day_of_year-eq doe yoe f = rw (
  mul_u32-eq 365 yoe (omega arith),
  add_u32-eq (365 * yoe) (yoe / 4) (omega arith),
  sub_u32-eq (365 * yoe + yoe / 4) (yoe / 100) (omega arith),
  sub_u32-eq doe (365 * yoe + yoe / 4 - yoe / 100) (omega arith),
)

abbrev mp_of : ℕ → ℕ
mp_of doy = (5 * doy + 2) / 153

abbrev month_of : ℕ → ℕ
month_of doy = if ltb (mp_of doy) 10 then mp_of doy + 3 else mp_of doy - 9

abbrev day_of : ℕ → ℕ
day_of doy = doy - (153 * mp_of doy + 2) / 5 + 1

month_and_day-eq : (doy : ℕ) → doy ≤ 365 → month_and_day doy ≡ some (month_of doy, day_of doy)
unfolding month_and_day
month_and_day-eq doy h =
    rw
      (
        mul_u32-eq 5 doy (omega arith),
        add_u32-eq (5 * doy) 2 (omega arith),
        mul_u32-eq 153 (mp_of doy) (omega arith),
        add_u32-eq (153 * mp_of doy) 2 (omega arith),
        sub_u32-eq doy ((153 * mp_of doy + 2) / 5) (omega arith),
        add_u32-eq (doy - (153 * mp_of doy + 2) / 5) 1 (omega arith),
      )
      (ground arith)

-- The months before `m`, in closed form.
days_before_month-eq :
    (y mp : ℕ)
    → mp ≤ 11
    → days_before_month y (if ltb mp 10 then mp + 3 else mp - 9) ≡ (
        if ltb mp 10
        then (153 * mp + 2) / 5 + (if is_leap y then 60 else 59)
        else (153 * mp + 2) / 5 - 306)
days_before_month-eq y zero h = ground arith
days_before_month-eq y (suc zero) h = ground arith
days_before_month-eq y (suc (suc zero)) h = ground arith
days_before_month-eq y (suc (suc (suc zero))) h = ground arith
days_before_month-eq y (suc (suc (suc (suc zero)))) h = ground arith
days_before_month-eq y (suc (suc (suc (suc (suc zero))))) h = ground arith
days_before_month-eq y (suc (suc (suc (suc (suc (suc zero)))))) h = ground arith
days_before_month-eq y (suc (suc (suc (suc (suc (suc (suc zero))))))) h = ground arith
days_before_month-eq y (suc (suc (suc (suc (suc (suc (suc (suc zero)))))))) h = ground arith
days_before_month-eq y (suc (suc (suc (suc (suc (suc (suc (suc (suc zero))))))))) h = ground arith
days_before_month-eq y (suc (suc (suc (suc (suc (suc (suc (suc (suc (suc zero)))))))))) h =
    ground arith
days_before_month-eq y (suc (suc (suc (suc (suc (suc (suc (suc (suc (suc (suc zero))))))))))) h =
    ground arith
days_before_month-eq y (suc (suc (suc (suc (suc (suc (suc (suc (suc (suc (suc (suc mp))))))))))))
      h =
    absurd (omega arith)

abbrev year_of : ℕ → ℕ → ℕ
year_of era doe =
    let y = yoe_of doe + era * 400 in if leb (month_of (doy_of doe)) 2 then y + 1 else y

civil_of_era-eq :
    (era doe : ℕ)
    → era < 14700
    → doe < 146097
    → civil_of_era (pos era) doe
      ≡ some (pos (year_of era doe), month_of (doy_of doe), day_of (doy_of doe))
unfolding civil_of_era
civil_of_era-eq era doe he hd =
    rw
      (
        year_of_era-eq doe hd,
        mul_i32-eq era 400 (omega arith),
        cast_i32-eq (yoe_of doe) (omega arith),
        add_i32-eq (yoe_of doe) (era * 400) (omega (arith, f.yoe_small)),
        day_of_year-eq doe (yoe_of doe) f,
        month_and_day-eq (doy_of doe) (omega (arith, f.begins, f.ends)),
        add_i32-eq (yoe_of doe + era * 400) 1 (omega (arith, f.yoe_small)),
      )
      (ground arith)
  where
    f : YearFacts doe (yoe_of doe)
    f = year_facts doe hd

-- The month lengths behind `mp`, before and after the turn of the year.
spring :
    (y mp : ℕ)
    → mp < 10
    → days_before_month y (mp + 3) ≡ (153 * mp + 2) / 5 + (if is_leap y then 60 else 59)
spring y mp h = rw (lt→ltb mp 10 h) at (days_before_month-eq y mp (omega arith))

winter : (y mp : ℕ) → 10 ≤ mp → mp ≤ 11 → days_before_month y (mp - 9) ≡ (153 * mp + 2) / 5 - 306
winter y mp h k = rw (le→ltb mp 10 h) at (days_before_month-eq y mp k)

-- The numbers that the steps compute from the day of an era.
record Steps (doe yoe doy mp : ℕ) : Type 0 where
  year : YearFacts doe yoe
  doy_is : doy + 365 * yoe + yoe / 4 ≡ doe + yoe / 100
  mp_is : mp ≡ (5 * doy + 2) / 153

steps : (doe : ℕ) → doe < 146097 → Steps doe (yoe_of doe) (doy_of doe) (mp_of (doy_of doe))
steps doe h =
    let f = year_facts doe h in record { year = f; doy_is = omega (arith, f.begins); mp_is = refl }

module _ (era : ℕ) {doe yoe doy mp : ℕ} (s : Steps doe yoe doy mp) where
  abbrev y₀ : ℕ
  y₀ = yoe + era * 400

  abbrev day : ℕ
  day = doy - (153 * mp + 2) / 5 + 1

  spring_number : mp < 10 → day_number y₀ (mp + 3) day ≡ era * 146097 + doe + 60
  spring_number h = omega (arith, s.year.ends, s.doy_is, s.mp_is, spring y₀ mp h, march_first y₀)

  winter_number : 10 ≤ mp → mp ≤ 11 → day_number (y₀ + 1) (mp - 9) day ≡ era * 146097 + doe + 60
  winter_number h k =
      omega (
        arith,
        s.year.ends,
        s.doy_is,
        s.mp_is,
        winter (y₀ + 1) mp h k,
        days_before_year-eq (y₀ + 1),
      )

  spring_IsDate : mp < 10 → IsDate y₀ (mp + 3) day
  spring_IsDate h = ground (arith, s.year.ends, s.doy_is, s.mp_is)

  winter_IsDate : 10 ≤ mp → mp ≤ 11 → IsDate (y₀ + 1) (mp - 9) day
  unfolding is_leap
  winter_IsDate h k = ground (arith, s.year.ends, s.doy_is, s.mp_is)

-- The two seasons together, in the form in which the code tests them.
module _ (era : ℕ) {doe yoe doy mp : ℕ} (s : Steps doe yoe doy mp) where
  abbrev month : ℕ
  month = if ltb mp 10 then mp + 3 else mp - 9

  abbrev year : ℕ
  year = if leb month 2 then yoe + era * 400 + 1 else yoe + era * 400

  mp_small : mp ≤ 11
  mp_small = omega (arith, s.year.ends, s.doy_is, s.mp_is)

  civil_facts :
      (day_number year month (doy - (153 * mp + 2) / 5 + 1) ≡ era * 146097 + doe + 60)
      × IsDate year month (doy - (153 * mp + 2) / 5 + 1)
  civil_facts = elim (dec_lt mp 10) [
    | yes h ↦
        rw (lt→ltb mp 10 h, lt→leb (mp + 3) 2 (omega arith))
          (spring_number era s h, spring_IsDate era s h)
    | no h ↦
        rw (le→ltb mp 10 (omega arith), le→leb (mp - 9) 2 (omega (arith, mp_small)))
          (winter_number era s (omega arith) mp_small, winter_IsDate era s (omega arith) mp_small)
  ]

doe_is : (z : ℕ) → z < 2 ^ 31 → (z - z / 146097 * 146097) % 2 ^ 32 ≡ z % 146097
doe_is z h = omega arith

era_of-eq : (z : ℕ) → z < 2 ^ 31 → era_of (pos z) ≡ some (pos (z / 146097), z % 146097)
unfolding era_of
era_of-eq z h = rw (
  le→ltb (z + 0) (0 + 0) (omega arith),
  mul_i32-eq (z / 146097) 146097 (omega arith),
  sub_i32-eq z (z / 146097 * 146097) (omega arith) h,
  doe_is z h,
)

-- The day number of the epoch, 1970-01-01.
abbrev pub epoch : ℕ
epoch = 719528

-- For every day from the epoch on whose arithmetic fits an `i32`, the function returns, with no
-- panic, a date of the calendar, and the day number of that date is as many days after the epoch.
pub civil_from_days-IsDate :
    (days : ℕ)
    → days + 719468 < 2 ^ 31
    → (y : ℕ) × (m : ℕ) × (d : ℕ) × (civil_from_days (pos days) ≡ some (pos y, m, d))
      × IsDate y m d
      × (day_number y m d ≡ epoch + days)
unfolding civil_from_days
civil_from_days-IsDate days h = (
  year_of era doe,
  month_of (doy_of doe),
  day_of (doy_of doe),
  rw (add_i32-eq days 719468 h, era_of-eq z h)
      (civil_of_era-eq era doe (omega arith) (omega arith)),
  facts.1,
  omega (arith, facts.0),
)
  where
    z : ℕ
    z = days + 719468

    era : ℕ
    era = z / 146097

    doe : ℕ
    doe = z % 146097

    facts :
        (day_number (year_of era doe) (month_of (doy_of doe)) (day_of (doy_of doe))
          ≡ era * 146097 + doe + 60)
        × IsDate (year_of era doe) (month_of (doy_of doe)) (day_of (doy_of doe))
    facts = civil_facts era (steps doe (omega arith))
