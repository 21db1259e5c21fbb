-- ===== src/Scheduler/Civil.antt =====
-- eink_scheduler_core.c: `unix_to_ymd_hms` and `ymd_hms_to_unix`, the civil calendar (UTC).
-- An `int64_t` is an integer that is not bounded; the conversions to `uint32_t` and `int` wrap.
pub mod Era
pub mod RoundTrip
pub mod Day
use mender_rt1180_zephyr.Prelude.{ℕ, ◌+◌, ◌-◌, ◌*◌, ◌/◌, ◌%◌, ◌^◌, if◌then◌else◌, ltb, leb}
use mender_rt1180_zephyr.Prelude.Int.{
  ℤ, pos, negsuc, pos_part, neg_part, ◌+ℤ◌, ◌-ℤ◌, scale, quot, rem, is_neg,
}

pub record Civil : Type 0 where
  pub year : ℤ
  pub month : ℕ
  pub day : ℕ
  pub hour : ℕ
  pub minute : ℕ
  pub second : ℕ

-- `(uint32_t)z`
unfoldable pub as_u32 : ℤ → ℕ
as_u32 z = (pos_part z % 2 ^ 32 + (2 ^ 32 - neg_part z % 2 ^ 32)) % 2 ^ 32

-- `(int)z`
unfoldable pub as_int : ℤ → ℤ
as_int z = let w = as_u32 z in if ltb w (2 ^ 31) then pos w else negsuc (2 ^ 32 - w - 1)

-- `a - b` on `uint32_t`
abbrev pub sub_u32 : ℕ → ℕ → ℕ
sub_u32 a b = (a + 2 ^ 32 - b) % 2 ^ 32

-- day of the era to year of the era, to day of the year (from March 1), to month from March
unfoldable pub year_of_era : ℕ → ℕ
year_of_era doe = sub_u32 (sub_u32 doe (doe / 1460) + doe / 36524) (doe / 146096) / 365

unfoldable pub day_of_year : ℕ → ℕ → ℕ
day_of_year doe yoe = sub_u32 doe (365 * yoe + yoe / 4 - yoe / 100)

unfoldable pub month_from_march : ℕ → ℕ
month_from_march doy = (5 * doy + 2) / 153

-- `/` and `%` on a number of days or years with the era's correction for negative ones
abbrev pub era_of : ℤ → ℕ → ℤ
era_of n size = quot (if is_neg n then n -ℤ pos (size - 1) else n) size

-- what `civil_from_days` makes of a day count from 0000-03-01 and the second of the day
unfoldable pub civil_from_days : ℤ → ℕ → Civil
civil_from_days days second_of_day =
    let era = era_of days 146097 in
    let doe = as_u32 (days -ℤ scale 146097 era) in
    let yoe = year_of_era doe in
    let y = pos yoe +ℤ as_int (scale 400 era) in
    let doy = day_of_year doe yoe in
    let mp = month_from_march doy in
    let month = if ltb mp 10 then mp + 3 else mp - 9 in
    record {
      year = if leb month 2 then y +ℤ pos 1 else y;
      month = month;
      day = doy - (153 * mp + 2) / 5 + 1;
      hour = second_of_day / 3600;
      minute = second_of_day % 3600 / 60;
      second = second_of_day % 60;
    }

-- The first lines make the remainder non-negative.
unfoldable pub unix_to_ymd_hms : ℤ → Civil
unix_to_ymd_hms t =
    let days = quot t 86400 in
    let left = rem t 86400 in
    if is_neg left
    then civil_from_days (days -ℤ pos 1 +ℤ pos 719468) (pos_part (left +ℤ pos 86400))
    else civil_from_days (days +ℤ pos 719468) (pos_part left)

-- the day count from 0000-03-01
unfoldable pub days_from_civil : ℤ → ℕ → ℕ → ℤ
days_from_civil year month day =
    let y = if leb month 2 then year -ℤ pos 1 else year in
    let era = era_of y 400 in
    let yoe = as_u32 (y -ℤ scale 400 era) in
    let doy = (153 * (if ltb 2 month then month - 3 else month + 9) + 2) / 5 + day - 1 in
    let doe = yoe * 365 + yoe / 4 - yoe / 100 + doy in scale 146097 era +ℤ pos doe

unfoldable pub ymd_hms_to_unix : ℤ → ℕ → ℕ → ℕ → ℕ → ℕ → ℤ
ymd_hms_to_unix year month day h m s =
    scale 86400 (days_from_civil year month day -ℤ pos 719468) +ℤ pos (h * 3600 + m * 60 + s)
