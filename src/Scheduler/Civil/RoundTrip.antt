-- ===== src/Scheduler/Civil/RoundTrip.antt =====
-- eink_scheduler_core.c: a time, taken to the calendar and back, is the same time.
use mender_rt1180_zephyr.Prelude.{
  ℕ, ◌+◌, ◌-◌, ◌*◌, ◌/◌, ◌%◌, ◌<◌, ◌^◌, ◌≡◌, refl, ap, ◌∙◌, sym, arith, if◌then◌else◌, ltb, Bool,
  true, false,
}
use mender_rt1180_zephyr.Prelude.Int.{
  ℤ, pos, negsuc, pos_part, neg_part, ◌+ℤ◌, ◌-ℤ◌, scale, quot, int_laws,
}
use mender_rt1180_zephyr.Scheduler.Civil.{
  as_u32, as_int, year_of_era, day_of_year, month_from_march, era_of, civil_from_days,
  days_from_civil,
}
use mender_rt1180_zephyr.Scheduler.Civil.Era.{
  year_of_era_bounds, day_of_year_bounds, month_from_march_bounds,
}

-- An era is 146097 days or 400 years, and what is left over is not negative.
era_days : (n : ℤ) → (d : ℕ) × (d < 146097) × (n ≡ scale 146097 (era_of n 146097) +ℤ pos d)
unfolding scale quot ◌+ℤ◌ ◌-ℤ◌
era_days (pos n) = (n % 146097, omega arith, ground arith)
era_days (negsuc n) = (146096 - n % 146097, omega arith, ground arith)

-- The era of a sum that is written out.
era_years : (e : ℤ) (yoe : ℕ) → yoe < 400 → era_of (pos yoe +ℤ scale 400 e) 400 ≡ e
unfolding scale quot ◌+ℤ◌ ◌-ℤ◌
era_years (pos n) yoe h = ground arith
era_years (negsuc n) yoe h = ground arith

-- Conversions that do not change the value.
as_u32_pos : (n : ℕ) → n < 2 ^ 32 → as_u32 (pos n) ≡ n
unfolding as_u32
as_u32_pos n h = omega arith

as_int_small : (z : ℤ) → pos_part z < 2 ^ 31 → neg_part z < 2 ^ 31 → as_int z ≡ z
unfolding as_int as_u32
as_int_small (pos n) h k = ground arith
as_int_small (negsuc n) h k = ground arith

add-sub_left : (a b : ℤ) → (a +ℤ b) -ℤ a ≡ b
add-sub_left a b = omega int_laws

pub add-sub_right : (a b : ℤ) → (a +ℤ b) -ℤ b ≡ a
add-sub_right a b = omega int_laws

-- The year that the calendar shows is that of the month's half of the year; it is taken back before
-- the days are counted.
year_back :
    (y : ℤ) (b : Bool)
    → (if b then (if b then y +ℤ pos 1 else y) -ℤ pos 1 else (if b then y +ℤ pos 1 else y)) ≡ y
year_back y true = add-sub_right y (pos 1)
year_back y false = refl

month_back :
    (mp : ℕ)
    → mp < 12
    → let month = if ltb mp 10 then mp + 3 else mp - 9 in
      (if ltb 2 month then month - 3 else month + 9) ≡ mp
month_back mp h = ground arith

-- the day within the era, from the calendar's fields
doe_back :
    (doe : ℕ)
    → doe < 146097
    → let yoe = year_of_era doe in
      let doy = day_of_year doe yoe in
      let mp = month_from_march doy in
      yoe * 365 + yoe / 4 - yoe / 100 + ((153 * mp + 2) / 5 + (doy - (153 * mp + 2) / 5 + 1) - 1)
      ≡ doe
doe_back doe h = omega (
  arith,
  year_of_era_bounds doe h,
  day_of_year_bounds doe h,
  month_from_march_bounds (day_of_year doe (year_of_era doe)) (day_of_year_bounds doe h).0,
)

-- Not so far from 1970 that the year does not fit an `int`.
abbrev pub NearDays : ℤ → Type 0
NearDays days = (pos_part days < 2 ^ 39) × (neg_part days < 2 ^ 39)

era_small :
    (days : ℤ)
    → NearDays days
    → (pos_part (scale 400 (era_of days 146097)) < 2 ^ 31)
      × (neg_part (scale 400 (era_of days 146097)) < 2 ^ 31)
unfolding scale quot ◌-ℤ◌
era_small (pos n) h = (ground arith, ground arith)
era_small (negsuc n) h = (ground arith, ground arith)

-- A day count taken to the calendar and back.
pub days_from_civil-civil_from_days :
    (days : ℤ) (s : ℕ)
    → NearDays days
    → let c = civil_from_days days s in days_from_civil c.year c.month c.day ≡ days
unfolding civil_from_days days_from_civil
days_from_civil-civil_from_days days s near =
    let (doe, lt, e) = era_days days in
    let era = era_of days 146097 in
    let left : as_u32 (days -ℤ scale 146097 era) ≡ doe =
      ap (λ z. as_u32 (z -ℤ scale 146097 era)) e
      ∙ ap as_u32 (add-sub_left (scale 146097 era) (pos doe))
      ∙ as_u32_pos doe (omega arith) in
    let year : as_int (scale 400 era) ≡ scale 400 era =
      as_int_small (scale 400 era) (era_small days near).0 (era_small days near).1 in
    let small = year_of_era_bounds doe lt in
    rw
      (
        left,
        year,
        year_back,
        era_years era (year_of_era doe) small.0,
        add-sub_right (pos (year_of_era doe)) (scale 400 era),
        as_u32_pos (year_of_era doe) (omega arith),
        month_back (month_from_march (day_of_year doe (year_of_era doe)))
            (month_from_march_bounds (day_of_year doe (year_of_era doe))
              (day_of_year_bounds doe lt).0).0,
        doe_back doe lt,
      )
      (sym e)
