-- ===== src/Scheduler/Cron/Next.antt =====
-- eink_scheduler_core.c: when a job is due next.
use mender_rt1180_zephyr.Prelude.{ℕ, ◌+◌, ◌*◌, ◌≤◌, ◌<◌, ◌≡◌, ap, arith, List, Option, none, some}
use mender_rt1180_zephyr.Prelude.Int.{
  ℤ, pos, negsuc, pos_part, neg_part, ◌+ℤ◌, ◌≤ℤ◌, ◌<ℤ◌, scale, int_laws, +ℤ_parts,
}
use mender_rt1180_zephyr.Scheduler.Civil.Day.{
  NearNow, day_of, second_of, second_of-lt, day_of-second_of, ymd_hms_to_unix-same_day,
}
use mender_rt1180_zephyr.Scheduler.Cron.{scan_cron, next_run_at, cron_next_run, cron_next_after}

-- A cron text whose first two fields are a minute and an hour in range: the run is on the day of
-- `now` (UTC), at that hour and minute, whether it is over or not.
pub cron_next_run-same_day :
    (cron : List ℕ) (now : ℤ) (minute hour : ℕ)
    → scan_cron cron ≡ some (pos minute, pos hour)
    → minute ≤ 59
    → hour ≤ 23
    → NearNow now
    → cron_next_run (some cron) now
      ≡ scale 86400 (day_of now) +ℤ pos (hour * 3600 + minute * 60 + 0)
unfolding cron_next_run next_run_at
cron_next_run-same_day cron now minute hour e hm hh near =
    rw e (ground (arith, ymd_hms_to_unix-same_day now hour minute 0 near))

-- Within a day of `now`, on either side.
abbrev pub WithinDay : ℤ → ℤ → Type 0
WithinDay now r = (now <ℤ r +ℤ pos 86400) × (r ≤ℤ now +ℤ pos 86400)

default-WithinDay : (now : ℤ) → WithinDay now (now +ℤ pos 3600)
default-WithinDay now = (omega int_laws, omega int_laws)

slot-WithinDay : (now : ℤ) (n : ℕ) → n < 86400 → WithinDay now (scale 86400 (day_of now) +ℤ pos n)
slot-WithinDay now n h =
    let split = day_of-second_of now in
    let base = scale 86400 (day_of now) in
    (
      omega (
        arith,
        second_of-lt now,
        ap pos_part split,
        ap neg_part split,
        +ℤ_parts base (pos (second_of now)),
        +ℤ_parts base (pos n),
        +ℤ_parts (base +ℤ pos n) (pos 86400),
      ),
      omega (
        arith,
        second_of-lt now,
        ap pos_part split,
        ap neg_part split,
        +ℤ_parts base (pos (second_of now)),
        +ℤ_parts base (pos n),
        +ℤ_parts now (pos 86400),
      ),
    )

next_run_at-WithinDay :
    (fields : Option (ℤ × ℤ)) (now : ℤ) → NearNow now → WithinDay now (next_run_at fields now)
unfolding next_run_at
next_run_at-WithinDay none now near = default-WithinDay now
next_run_at-WithinDay (some (negsuc m, h)) now near = ground (arith, default-WithinDay now)
next_run_at-WithinDay (some (pos m, negsuc h)) now near = ground (arith, default-WithinDay now)
next_run_at-WithinDay (some (pos m, pos h)) now near = ground (
  arith,
  default-WithinDay now,
  ymd_hms_to_unix-same_day now h m 0 near,
  slot-WithinDay now (h * 3600 + m * 60 + 0),
)

pub cron_next_run-WithinDay :
    (cron : Option (List ℕ)) (now : ℤ) → NearNow now → WithinDay now (cron_next_run cron now)
unfolding cron_next_run
cron_next_run-WithinDay none now near = default-WithinDay now
cron_next_run-WithinDay (some cron) now near = next_run_at-WithinDay (scan_cron cron) now near

-- Whatever the cron text, the next run that `cron_next_after` gives is in the future and at most a
-- day away.
pub cron_next_after_range :
    (cron : Option (List ℕ)) (now : ℤ)
    → NearNow now
    → (now <ℤ cron_next_after cron now) × (cron_next_after cron now ≤ℤ now +ℤ pos 86400)
unfolding cron_next_after
cron_next_after_range cron now near =
    let r = cron_next_run cron now in
    let within = cron_next_run-WithinDay cron now near in
    ground (arith, within.0, within.1, +ℤ_parts r (pos 86400), +ℤ_parts now (pos 86400))
