-- ===== src/Scheduler/Civil/Day.antt =====
-- eink_scheduler_core.c: the day and the second of the day of a time, and the round trip of times.
use mender_rt1180_zephyr.Prelude.{ℕ, ◌+◌, ◌-◌, ◌*◌, ◌/◌, ◌%◌, ◌<◌, ◌^◌, ◌≡◌, ap, ◌∙◌, sym, arith}
use mender_rt1180_zephyr.Prelude.Int.{
  ℤ, pos, negsuc, pos_part, neg_part, ◌+ℤ◌, ◌-ℤ◌, scale, quot, rem,
}
use mender_rt1180_zephyr.Scheduler.Civil.{civil_from_days, unix_to_ymd_hms, ymd_hms_to_unix}
use mender_rt1180_zephyr.Scheduler.Civil.RoundTrip.{
  NearDays, days_from_civil-civil_from_days, add-sub_right,
}

-- the day of a time, counted from 1970-01-01, and the second of that day
unfoldable pub day_of : ℤ → ℤ
day_of (pos n) = pos (n / 86400)
day_of (negsuc n) = negsuc (n / 86400)

unfoldable pub second_of : ℤ → ℕ
second_of (pos n) = n % 86400
second_of (negsuc n) = 86399 - n % 86400

pub second_of-lt : (t : ℤ) → second_of t < 86400
unfolding second_of
second_of-lt (pos n) = omega arith
second_of-lt (negsuc n) = omega arith

pub day_of-second_of : (t : ℤ) → t ≡ scale 86400 (day_of t) +ℤ pos (second_of t)
unfolding day_of second_of scale ◌+ℤ◌
day_of-second_of (pos n) = ground arith
day_of-second_of (negsuc n) = ground arith

unix_to_ymd_hms-day_of :
    (t : ℤ) → unix_to_ymd_hms t ≡ civil_from_days (day_of t +ℤ pos 719468) (second_of t)
unfolding unix_to_ymd_hms day_of second_of quot rem ◌+ℤ◌ ◌-ℤ◌
unix_to_ymd_hms-day_of (pos n) = ground arith
unix_to_ymd_hms-day_of (negsuc n) = ground arith

-- Times of less than 2^54 seconds around 1970: the year fits an `int`.
abbrev pub NearNow : ℤ → Type 0
NearNow t = (pos_part t < 2 ^ 54) × (neg_part t < 2 ^ 54)

near_days : (t : ℤ) → NearNow t → NearDays (day_of t +ℤ pos 719468)
unfolding day_of ◌+ℤ◌
near_days (pos n) h = ground arith
near_days (negsuc n) h = ground arith

-- Any time of the day that the calendar shows for `t`.
pub ymd_hms_to_unix-same_day :
    (t : ℤ) (h m s : ℕ)
    → NearNow t
    → let c = unix_to_ymd_hms t in
      ymd_hms_to_unix c.year c.month c.day h m s
      ≡ scale 86400 (day_of t) +ℤ pos (h * 3600 + m * 60 + s)
unfolding ymd_hms_to_unix
ymd_hms_to_unix-same_day t h m s near = rw (
  unix_to_ymd_hms-day_of t,
  days_from_civil-civil_from_days (day_of t +ℤ pos 719468) (second_of t) (near_days t near),
  add-sub_right (day_of t) (pos 719468),
)

time_of_day :
    (t : ℤ) → let c = unix_to_ymd_hms t in c.hour * 3600 + c.minute * 60 + c.second ≡ second_of t
unfolding civil_from_days
time_of_day t = rw (unix_to_ymd_hms-day_of t) (omega arith)

-- The calendar loses nothing: a time of less than 2^54 seconds before or after 1970, taken apart by
-- `unix_to_ymd_hms` and put together by `ymd_hms_to_unix`, is the same time.
pub ymd_hms_to_unix-unix_to_ymd_hms :
    (t : ℤ)
    → NearNow t
    → let c = unix_to_ymd_hms t in ymd_hms_to_unix c.year c.month c.day c.hour c.minute c.second ≡ t
ymd_hms_to_unix-unix_to_ymd_hms t near =
    let c = unix_to_ymd_hms t in
    ymd_hms_to_unix-same_day t c.hour c.minute c.second near
    ∙ ap (λ n. scale 86400 (day_of t) +ℤ pos n) (time_of_day t)
    ∙ sym (day_of-second_of t)
