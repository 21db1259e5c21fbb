-- ===== src/Scheduler/Tests.antt =====
-- Runs of the scheduler, and the theorems about it at concrete inputs.
use mender_rt1180_zephyr.Prelude.{ℕ, ◌≡◌, refl, List, [], ◌∷◌, none, some, arith, ◌⊎◌}
use mender_rt1180_zephyr.Prelude.Int.{ℤ, pos, negsuc, ◌+ℤ◌, ◌-ℤ◌, ◌≤ℤ◌}
use mender_rt1180_zephyr.Scheduler.Civil.{unix_to_ymd_hms, ymd_hms_to_unix}
use mender_rt1180_zephyr.Scheduler.Civil.Day.{ymd_hms_to_unix-unix_to_ymd_hms}
use mender_rt1180_zephyr.Scheduler.Cron.{
  scan_cron, scan_int, skip_space, number, digits, cron_next_after,
}
use mender_rt1180_zephyr.Scheduler.Core.{Job, str_eq, pick, is_last, show, nop, decide, next_wakeup}
use mender_rt1180_zephyr.Scheduler.Core.Wakeup.{next_wakeup_bounds, next_wakeup-cron_next_after}
use mender_rt1180_zephyr.Scheduler.Core.Decide.{Reason, decide_lem}
use mender_rt1180_zephyr.Scheduler.Run.{Sched, Device, tick, show_job, shown_copy}
use mender_rt1180_zephyr.Prelude.{true, false, val, ◌<◌, ◌≤◌, length, suc}

-- 2026-03-01T06:00:00Z
abbrev now : ℤ
now = pos 1772344800

-- "30 7 * * *"
abbrev half_past_seven : List ℕ
half_past_seven = b'3' ∷ b'0' ∷ b' ' ∷ b'7' ∷ b' ' ∷ b'*' ∷ b' ' ∷ b'*' ∷ b' ' ∷ b'*' ∷ []

-- "-1 7"
abbrev bad_cron : List ℕ
bad_cron = b'-' ∷ b'1' ∷ b' ' ∷ b'7' ∷ []

scan_half_past_seven : scan_cron half_past_seven ≡ some (pos 30, pos 7)
unfolding scan_cron scan_int skip_space number digits ◌-ℤ◌
scan_half_past_seven = refl

scan_bad_cron : scan_cron bad_cron ≡ some (negsuc 0, pos 7)
unfolding scan_cron scan_int skip_space number digits ◌-ℤ◌
scan_bad_cron = refl

abbrev old_job : Job
old_job = record {
  job_id = b'a' ∷ [];
  image_id = b'x' ∷ [];
  cron = bad_cron;
  next_run_unix = pos 1772330000;
}

abbrev new_job : Job
new_job = record {
  job_id = b'b' ∷ [];
  image_id = b'y' ∷ [];
  cron = half_past_seven;
  next_run_unix = pos 1772340000;
}

abbrev two_jobs : List Job
two_jobs = new_job ∷ old_job ∷ []

shows_latest : decide (some two_jobs) now none ≡ show 0
unfolding decide pick is_last
shows_latest = refl

skips_last : decide (some two_jobs) now (some (b'b' ∷ [])) ≡ nop
unfolding decide pick is_last str_eq
skips_last = refl

ymd_hms_to_unix-unix_to_ymd_hms_example :
    let c = unix_to_ymd_hms now in
    ymd_hms_to_unix c.year c.month c.day c.hour c.minute c.second ≡ now
ymd_hms_to_unix-unix_to_ymd_hms_example = ymd_hms_to_unix-unix_to_ymd_hms now (omega arith)

next_wakeup_bounds_example :
    (now +ℤ pos 60 ≤ℤ next_wakeup (some two_jobs) now 0)
    × ((next_wakeup (some two_jobs) now 0 ≤ℤ now +ℤ pos 300)
        ⊎ (next_wakeup (some two_jobs) now 0 ≡ now +ℤ pos 60))
next_wakeup_bounds_example = next_wakeup_bounds (some two_jobs) now 0

next_wakeup-cron_next_after_example :
    (next_wakeup (some two_jobs) now 86400 ≤ℤ cron_next_after (some bad_cron) now)
    ⊎ (next_wakeup (some two_jobs) now 86400 ≡ now +ℤ pos 60)
next_wakeup-cron_next_after_example =
    next_wakeup-cron_next_after two_jobs now 86400 1 old_job (omega arith) (omega arith) refl

decide_lem_example : Reason two_jobs now none (decide (some two_jobs) now none)
decide_lem_example = decide_lem two_jobs now none

-- a display on which everything works, and that counts what it shows
abbrev panel : Device ℕ
panel = record {
  time = λ w. now;
  load_state = λ w. [];
  load_schedule = λ w. none;
  save_state = λ id w. (val 0, w);
  save_schedule = λ jobs w. (val 0, w);
  resolve_show_path = λ id w. (val 0, id);
  has_valid_image = λ id w. true;
  show_path = λ path id w. (val 0, suc w);
  fire_and_forget = false;
  wait_idle = λ w. (val 0, w);
  last_result = λ w. val 0;
  meanwhile = λ w s. record s { last_job = b'c' ∷ [] };
}

abbrev before : Sched
before = record { jobs = two_jobs; last_job = [] }

-- what Ids asks of one job
abbrev IsId : Job → Type 0
IsId j = (0 < length j.job_id) × (length j.job_id ≤ 63)

shows_once : (tick ℕ panel (before, 0)).1.0.last_job ≡ b'b' ∷ []
unfolding tick show_job shown_copy decide pick is_last
shows_once = refl
