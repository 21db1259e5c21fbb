-- ===== src/Power/Tests.antt =====
-- A board of two pins with a clock that stands still, and the theorems about sleep on it.
use mender_rt1180_zephyr.Prelude.{◌≤◌, ◌≡◌, refl, arith, Bool, true, false, ◌&&◌, val, ◌⊎◌}
use mender_rt1180_zephyr.Prelude.Int.{pos, ◌+ℤ◌, ◌≤ℤ◌, +ℤ_parts}
use mender_rt1180_zephyr.Power.{
  Board, Pin, iw612_en, panel_en, PowerStatus, initial_status, enter_snvs, snvs_delay,
}
use mender_rt1180_zephyr.Power.Gate.{
  Drives, RadioOff, PanelOff, enter_snvs_gates, snvs_delay_range, snvs_delay_on_time,
}

-- the levels of the two pins
abbrev pub Levels : Type 0
Levels = Bool × Bool

abbrev pub drive : Pin → Bool → Levels → Levels
drive iw612_en on (radio, panel) = (on, panel)
drive panel_en on (radio, panel) = (radio, on)

abbrev pub level : Levels → Pin → Bool
level (radio, panel) iw612_en = radio
level (radio, panel) panel_en = panel

abbrev pub two_pins : Board
two_pins = record {
  World = Levels;
  has_gpio = λ pin. true;
  cm4_released = λ w. false;
  device_is_ready = λ pin w. true;
  gpio_pin_configure_output = λ pin w. (val 0, drive pin false w);
  gpio_pin_set = λ pin on w. (val 0, drive pin on w);
  time = λ w. pos 1772344800;
  fire_and_forget = true;
  display_is_busy = λ w. false;
  default_alarm_sec = 20;
  pmic_off = false;
}

drive-level : (pin : Pin) (on : Bool) (w : Levels) → level (drive pin on w) pin ≡ on
drive-level iw612_en on (radio, panel) = refl
drive-level panel_en on (radio, panel) = refl

pub two_pins-Drives : Drives two_pins level
two_pins-Drives = record {
  works = λ pin on w. refl;
  driven = drive-level;
  panel_apart = λ on w. refl;
}

-- both rails up
abbrev pub up : PowerStatus
up = record initial_status {
  iw612_powered = true;
  iw612_wowlan = true;
  panel_powered = true;
  iw612_gpio_bound = true;
  panel_gpio_bound = true;
}

enter_snvs_gates_example :
    let r = enter_snvs two_pins (up, (true, true)) in
    RadioOff two_pins level r.1
    × ((two_pins.fire_and_forget && two_pins.display_is_busy r.1.1 ≡ true)
        ⊎ PanelOff two_pins level r.1)
enter_snvs_gates_example = enter_snvs_gates two_pins level up (true, true) refl two_pins-Drives

snvs_delay_range_example :
    (2 ≤ snvs_delay (pos 1772350200) (pos 1772344800) 20)
    × (snvs_delay (pos 1772350200) (pos 1772344800) 20 ≤ 86400)
snvs_delay_range_example =
    snvs_delay_range (pos 1772350200) (pos 1772344800) 20 (omega arith) (omega arith)

snvs_delay_on_time_example :
    pos 1772344800 +ℤ pos (snvs_delay (pos 1772350200) (pos 1772344800) 20) ≤ℤ pos 1772350200
snvs_delay_on_time_example =
    snvs_delay_on_time (pos 1772350200) (pos 1772344800) 20 (omega arith)
      (omega (arith, +ℤ_parts (pos 1772344800) (pos 2)))
