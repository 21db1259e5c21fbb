-- ===== src/Power.antt =====
-- mender-mcu-integration/src/eink/eink_power.c and eink_power.h: the power rails and the entry into
-- SNVS sleep, on the RT118x. The GPIO driver, the clock and the display's state are the record
-- Board; the register sequence of rt118x_enter_snvs is the answer `suspend`.
pub mod Gate
pub mod Tests
use mender_rt1180_zephyr.Prelude.{
  ℕ, ◌≡◌, Bool, true, false, not, ◌&&◌, Ret, val, err, Errno, efault, enodev, ltb, if◌then◌else◌,
}
use mender_rt1180_zephyr.Prelude.Int.{ℤ, pos, pos_part, ◌-ℤ◌, ◌+ℤ◌, ltb_ℤ, leb_ℤ}

pub data WakeReason : Type 0 where
  unknown srtc service iw612_host cold : WakeReason

pub record PowerStatus : Type 0 where
  pub wake_reason : WakeReason
  pub cm4_held_in_reset : Bool
  pub iw612_powered : Bool
  pub iw612_wowlan : Bool
  pub panel_powered : Bool
  pub data_nor_powered : Bool
  pub iw612_gpio_bound : Bool
  pub panel_gpio_bound : Bool
  pub next_wake_unix : ℤ

pub data Pin : Type 0 where
  iw612_en panel_en : Pin

-- What the module uses of Zephyr and of the board, over the state `World` of everything else.
pub record Board : Type 1 where
  pub World : Type 0
  -- EINK_HAS_IW612_GPIO and EINK_HAS_PANEL_GPIO
  pub has_gpio : Pin → Bool
  -- BT_RELEASE_M4, read where the SoC has the register
  pub cm4_released : World → Bool
  pub device_is_ready : Pin → World → Bool
  pub gpio_pin_configure_output : Pin → World → Ret × World
  pub gpio_pin_set : Pin → Bool → World → Ret × World
  -- `time(NULL)`
  pub time : World → ℤ
  -- CONFIG_APP_EINK_DISPLAY_FIRE_AND_FORGET and `eink_display_is_busy`
  pub fire_and_forget : Bool
  pub display_is_busy : World → Bool
  -- CONFIG_APP_EINK_SNVS_DEFAULT_ALARM_SEC and CONFIG_APP_EINK_SNVS_PMIC_OFF
  pub default_alarm_sec : ℕ
  pub pmic_off : Bool

-- How an entry into SNVS ends: with an errno, or in the alarm sequence for a delay.
pub data Entry : Type 0 where
  refused : Errno → Entry
  suspend : ℕ → Bool → Entry

abbrev pub initial_status : PowerStatus
initial_status = record {
  wake_reason = cold;
  cm4_held_in_reset = true;
  iw612_powered = false;
  iw612_wowlan = false;
  panel_powered = false;
  data_nor_powered = false;
  iw612_gpio_bound = false;
  panel_gpio_bound = false;
  next_wake_unix = pos 0;
}

abbrev pub set_next_wake : ℤ → PowerStatus → PowerStatus
set_next_wake unix_sec s = record s { next_wake_unix = unix_sec }

abbrev pub with_radio : Bool → PowerStatus → PowerStatus
with_radio on s = record s {
  iw612_powered = on;
  iw612_wowlan = if on then s.iw612_wowlan else false;
}

abbrev pub with_panel : Bool → PowerStatus → PowerStatus
with_panel on s = record s { panel_powered = on }

abbrev pub data_nor_set : Bool → PowerStatus → PowerStatus
data_nor_set on s = record s { data_nor_powered = on }

abbrev pub bind : Pin → PowerStatus → PowerStatus
bind iw612_en s = record s { iw612_gpio_bound = true }
bind panel_en s = record s { panel_gpio_bound = true }

abbrev pub bound : Pin → PowerStatus → Bool
bound iw612_en s = s.iw612_gpio_bound
bound panel_en s = s.panel_gpio_bound

abbrev pub unbind : Pin → PowerStatus → PowerStatus
unbind iw612_en s = record s { iw612_gpio_bound = false }
unbind panel_en s = record s { panel_gpio_bound = false }

-- the delay of the alarm for a wake time and the clock
unfoldable pub snvs_delay : ℤ → ℤ → ℕ → ℕ
snvs_delay next_wake now default_sec =
    let rem = next_wake -ℤ now in
    if ltb_ℤ (pos 1700000000) next_wake && leb_ℤ (pos 2) rem
    then (if ltb_ℤ (pos 86400) rem then 86400 else pos_part rem)
    else default_sec

module _ (b : Board) where
  abbrev pub Machine : Type 0
  Machine = PowerStatus × b.World

  unfoldable pub assert_cm4_held : Machine → Ret × Machine
  assert_cm4_held (s, w) =
      if b.cm4_released w
      then (err efault, (record s { cm4_held_in_reset = false }, w))
      else (val 0, (record s { cm4_held_in_reset = true }, w))

  abbrev configured : Pin → PowerStatus → Ret × b.World → Ret × Machine
  configured pin s (err e, w) = (err e, (s, w))
  configured pin s (val n, w) = (val 0, (bind pin s, w))

  unfoldable pub gpio_configure_output : Pin → Machine → Ret × Machine
  gpio_configure_output pin (s, w) =
      if b.device_is_ready pin w
      then configured pin s (b.gpio_pin_configure_output pin w)
      else (err enodev, (s, w))

  -- one of the two blocks of `eink_power_init` that bind a GPIO
  abbrev pub init_pin : Pin → Machine → Ret × Machine
  init_pin pin (s, w) =
      if b.has_gpio pin then gpio_configure_output pin (s, w) else (val 0, (unbind pin s, w))

  abbrev then_pin : Pin → Ret × Machine → Ret × Machine
  then_pin pin (err e, m) = (err e, m)
  then_pin pin (val n, m) = init_pin pin m

  unfoldable pub power_init : Machine → Ret × Machine
  power_init m = then_pin panel_en (then_pin iw612_en (assert_cm4_held m))

  -- what a rail's setter does after `gpio_pin_set_dt`
  abbrev pub after_set : (PowerStatus → PowerStatus) → PowerStatus → Ret × b.World → Ret × Machine
  after_set update s (err e, w) = (err e, (s, w))
  after_set update s (val n, w) = (val 0, (update s, w))

  -- The GPIO of a rail is driven where the build has it and it is bound.
  abbrev pub set_rail : Pin → (PowerStatus → PowerStatus) → Bool → Machine → Ret × Machine
  set_rail pin update on (s, w) =
      if b.has_gpio pin && bound pin s
      then after_set update s (b.gpio_pin_set pin on w)
      else (val 0, (update s, w))

  unfoldable pub iw612_set : Bool → Machine → Ret × Machine
  iw612_set on m = set_rail iw612_en (with_radio on) on m

  unfoldable pub panel_set : Bool → Machine → Ret × Machine
  panel_set on m = set_rail panel_en (with_panel on) on m

  abbrev armed : Ret × Machine → Ret × Machine
  armed (err e, m) = (err e, m)
  armed (val n, (s, w)) = (val 0, (record s { iw612_wowlan = true }, w))

  unfoldable pub iw612_arm_wowlan : Machine → Ret × Machine
  iw612_arm_wowlan m = armed (iw612_set true m)

  -- the part of `eink_power_enter_snvs` after the radio is gated
  abbrev pub gate_panel : Machine → Machine
  gate_panel (s, w) =
      if b.fire_and_forget && b.display_is_busy w
      then (s, w)
      else (let off = (panel_set false (s, w)).1 in (data_nor_set false off.0, off.1))

  abbrev pub sleep : Machine → Entry × Machine
  sleep (s, w) =
      (suspend (snvs_delay s.next_wake_unix (b.time w) b.default_alarm_sec) b.pmic_off, (s, w))

  abbrev pub after_cm4 : Ret × Machine → Entry × Machine
  after_cm4 (err e, m) = (refused e, m)
  after_cm4 (val n, m) = sleep (gate_panel (iw612_set false m).1)

  unfoldable pub enter_snvs : Machine → Entry × Machine
  enter_snvs m = after_cm4 (assert_cm4_held m)

  abbrev clamp : ℕ → ℕ
  clamp delay_sec =
      let d = if ltb delay_sec 2 then 2 else delay_sec in if ltb 86400 d then 86400 else d

  unfoldable pub enter_snvs_in : ℕ → Bool → Machine → Entry × Machine
  enter_snvs_in delay_sec cut m =
      let gated = (iw612_set false m).1 in
      let d = clamp delay_sec in
      (suspend d cut, (set_next_wake (b.time gated.1 +ℤ pos d) gated.0, gated.1))
