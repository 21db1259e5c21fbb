-- ===== src/Scheduler/Civil/Era.antt =====
-- eink_scheduler_core.c: the arithmetic inside an era of 146097 days, on natural numbers.
use mender_rt1180_zephyr.Prelude.{ℕ, ◌+◌, ◌-◌, ◌*◌, ◌/◌, ◌≤◌, ◌<◌, ◌≡◌, arith}
use mender_rt1180_zephyr.Scheduler.Civil.{year_of_era, day_of_year, month_from_march}

-- days of the era before its year `yoe`
abbrev pub days_before : ℕ → ℕ
days_before yoe = 365 * yoe + yoe / 4 - yoe / 100

year_of_era_plain :
    (doe : ℕ)
    → doe < 146097
    → year_of_era doe ≡ (doe - doe / 1460 + doe / 36524 - doe / 146096) / 365
unfolding year_of_era
year_of_era_plain doe h = omega arith

-- The year of the era is the one that the day lies in.
pub year_of_era_bounds :
    (doe : ℕ)
    → doe < 146097
    → (year_of_era doe < 400)
      × (days_before (year_of_era doe) ≤ doe)
      × (doe ≤ days_before (year_of_era doe) + 365)
year_of_era_bounds doe h = omega (arith, year_of_era_plain doe h)

-- The month from March is one of twelve, and its first day is not after the day of the year.
pub month_from_march_bounds :
    (doy : ℕ)
    → doy < 366
    → (month_from_march doy < 12) × ((153 * month_from_march doy + 2) / 5 ≤ doy)
unfolding month_from_march
month_from_march_bounds doy h = omega arith

pub day_of_year_bounds :
    (doe : ℕ)
    → doe < 146097
    → (day_of_year doe (year_of_era doe) < 366)
      × (days_before (year_of_era doe) + day_of_year doe (year_of_era doe) ≡ doe)
unfolding day_of_year
day_of_year_bounds doe h = omega (arith, year_of_era_bounds doe h)
