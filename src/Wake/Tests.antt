-- ===== src/Wake/Tests.antt =====
-- A wake on the board of two pins, with a schedule of one job.
use mender_rt1180_zephyr.Prelude.{ℕ, ◌≡◌, refl, arith, true, false, ◌&&◌, [], ◌∷◌, some, val, ◌⊎◌}
use mender_rt1180_zephyr.Prelude.Int.{pos, ◌+ℤ◌, ◌≤ℤ◌, +ℤ_parts}
use mender_rt1180_zephyr.Scheduler.Cron.{cron_next_after}
use mender_rt1180_zephyr.Scheduler.Core.{Job}
use mender_rt1180_zephyr.Power.{
  suspend, Machine, power_init, gpio_configure_output, assert_cm4_held,
}
use mender_rt1180_zephyr.Power.Gate.{RadioOff, PanelOff}
use mender_rt1180_zephyr.Power.Tests.{Levels, level, two_pins, two_pins-Drives, up}
use mender_rt1180_zephyr.Wake.{Services, run_once, awake, paint}
use mender_rt1180_zephyr.Wake.OnTime.{transacts, run_once_gates, run_once_on_time}

-- "30 7"
abbrev job : Job
job = record {
  job_id = b'a' ∷ [];
  image_id = b'x' ∷ [];
  cron = b'3' ∷ b'0' ∷ b' ' ∷ b'7' ∷ [];
  next_run_unix = pos 1772350200;
}

abbrev services : Services Levels
services = record {
  scheduler_tick = λ w. (val 0, w);
  scheduler_repaint = λ w. (val 1, w);
  schedule = λ w. job ∷ [];
  has_http = true;
  skip_radio_if_current = true;
  radio_sync_needed = λ w. true;
  sync_once = λ w. (val 0, w);
  flush_deferred = λ w. (val 0, w);
  poll_interval = 86400;
}

abbrev started : Machine two_pins
started = (up, (true, true))

power_init-two_pins : power_init two_pins started ≡ (val 0, (up, (false, false)))
unfolding power_init gpio_configure_output assert_cm4_held
power_init-two_pins = refl

run_once_gates_example :
    let r = run_once two_pins services started in
    let a = awake two_pins services (up, (false, false)) in
    let painted = paint two_pins services (false, false) in
    (((transacts two_pins services level painted ≡ false) × (a ≡ (up, painted)))
      ⊎ ((transacts two_pins services level painted ≡ true) × RadioOff two_pins level a))
    × RadioOff two_pins level r.1
    × ((two_pins.fire_and_forget && two_pins.display_is_busy r.1.1 ≡ true)
        ⊎ PanelOff two_pins level r.1)
run_once_gates_example =
    run_once_gates two_pins services level started (up, (false, false)) 0 power_init-two_pins
      (λ w. refl) two_pins-Drives

run_once_on_time_example :
    let r = run_once two_pins services started in
    (d : ℕ) × (r.0 ≡ suspend d false)
    × ((pos 1772344800 +ℤ pos d ≤ℤ cron_next_after (some job.cron) (pos 1772344800))
        ⊎ (pos 1772344800 +ℤ pos d ≤ℤ pos 1772344800 +ℤ pos 60))
run_once_on_time_example =
    run_once_on_time two_pins services level started (up, (false, false)) 0 power_init-two_pins
      (λ w. refl) (λ pin on w. (omega arith, omega (arith, +ℤ_parts (pos 1772344800) (pos 1))))
      (omega arith) (omega arith) 0 job refl
