-- ===== src/Store/Schedule/Tests.antt =====
-- A run of the schedule's save and load on a file system that keeps a file by its path.
use mender_rt1180_zephyr.Prelude.{
  ◌≡◌, ◌≤◌, length, refl, arith, List, [], ◌∷◌, some, val, ok, codes,
}
use mender_rt1180_zephyr.Prelude.Int.{pos, negsuc}
use mender_rt1180_zephyr.Scheduler.Core.{Job}
use mender_rt1180_zephyr.Fs.Medium.{Flash, flash, flash-Lawful, flash-Readable, blank}
use mender_rt1180_zephyr.Store.Reader.{Text, read_file}
use mender_rt1180_zephyr.Store.Decimal.{show_digits, show_int}
use mender_rt1180_zephyr.Store.Schedule.{sched_path, save_jobs, save_schedule, load_schedule}
use mender_rt1180_zephyr.Store.Schedule.RoundTrip.{Printable, schedule_text}
use mender_rt1180_zephyr.Store.Schedule.Saved.{load_schedule-save_schedule}

abbrev root : Text
root = codes "/lfs1/eink"

abbrev morning : Job
morning = record {
  job_id = codes "j1";
  image_id = codes "cat";
  cron = codes "30 7 * * *";
  next_run_unix = pos 1700000000;
}

abbrev never : Job
never = record { job_id = codes "j2"; image_id = codes "dog"; cron = []; next_run_unix = negsuc 0 }

abbrev jobs : List Job
jobs = morning ∷ never ∷ []

morning-Printable : Printable morning
morning-Printable = record {
  fits = record {
    job_id_name = ground arith;
    image_id_name = ground arith;
    cron_name = ground arith;
    job_id_length = omega arith;
    image_id_length = omega arith;
    cron_length = omega arith;
    next_run_low = refl;
    next_run_high = refl;
  };
  distinct = record {
    job_id_image_id = ground arith;
    job_id_cron = ground arith;
    job_id_next_run = ground arith;
    image_id_cron = ground arith;
    image_id_next_run = ground arith;
    cron_next_run = ground arith;
  };
  job_id_braceless = ground arith;
  image_id_braceless = ground arith;
  cron_braceless = ground arith;
  job_id_there = omega arith;
  image_id_there = omega arith;
}

never-Printable : Printable never
never-Printable = record {
  fits = record {
    job_id_name = ground arith;
    image_id_name = ground arith;
    cron_name = ground arith;
    job_id_length = omega arith;
    image_id_length = omega arith;
    cron_length = omega arith;
    next_run_low = refl;
    next_run_high = refl;
  };
  distinct = record {
    job_id_image_id = ground arith;
    job_id_cron = ground arith;
    job_id_next_run = ground arith;
    image_id_cron = ground arith;
    image_id_next_run = ground arith;
    cron_next_run = ground arith;
  };
  job_id_braceless = ground arith;
  image_id_braceless = ground arith;
  cron_braceless = ground arith;
  job_id_there = omega arith;
  image_id_there = omega arith;
}

abbrev stored : Flash
stored = (save_schedule Flash flash root (some jobs) blank).1

text_lem :
    schedule_text (never ∷ []) 3
    ≡ codes "{\"jobs\":[{\"job_id\":\"j2\",\"image_id\":\"dog\",\"cron\":\"\",\"next_run\":-1}]}\n"
unfolding show_int show_digits
text_lem = refl

stored_lem : (save_schedule Flash flash root (some jobs) blank).0 ≡ val 0
unfolding save_schedule save_jobs show_int show_digits
stored_lem = refl

read_lem : (read_file Text Flash flash (sched_path root) 8191 stored).0 ≡ ok (schedule_text jobs 3)
unfolding read_file save_schedule save_jobs show_int show_digits
read_lem = refl

short_lem : length (schedule_text jobs 3) ≤ 8191
unfolding show_int show_digits
short_lem = omega arith

load_schedule-save_schedule_example : (load_schedule Flash flash root stored).0 ≡ ok jobs
load_schedule-save_schedule_example =
    load_schedule-save_schedule Flash flash flash-Lawful root jobs blank (schedule_text jobs 3)
      flash-Readable (morning-Printable, (never-Printable, omega arith)) (omega arith) short_lem
      stored_lem read_lem
