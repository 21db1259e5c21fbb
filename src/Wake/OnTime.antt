-- ===== src/Wake/OnTime.antt =====
-- eink_wake.c: a wake ends with the radio gated, and early enough for the next job.
use mender_rt1180_zephyr.Prelude.{
  ℕ, ◌≡◌, refl, arith, Bool, true, false, not, ◌&&◌, List, some, get_elem?, Ret, val, err, ◌⊎◌, inl,
  inr, subst, Bool-cases, ap, ◌∙◌,
}
use mender_rt1180_zephyr.Prelude.Int.{ℤ, pos, ◌+ℤ◌, ◌≤ℤ◌, +ℤ_parts}
use mender_rt1180_zephyr.Scheduler.Civil.Day.{NearNow}
use mender_rt1180_zephyr.Scheduler.Cron.{cron_next_after}
use mender_rt1180_zephyr.Scheduler.Core.{Job, next_wakeup}
use mender_rt1180_zephyr.Scheduler.Core.Wakeup.{next_wakeup_bounds, next_wakeup-cron_next_after}
use mender_rt1180_zephyr.Power.{
  Board, Pin, bound, iw612_en, panel_en, PowerStatus, Machine, suspend, set_next_wake, power_init,
  iw612_set, panel_set, assert_cm4_held, gate_panel, enter_snvs, snvs_delay, set_rail, with_radio,
  with_panel, after_set,
}
use mender_rt1180_zephyr.Power.Gate.{
  Drives, RadioOff, PanelOff, iw612_set-RadioOff, enter_snvs_gates, snvs_delay_on_time,
}
use mender_rt1180_zephyr.Wake.{
  Services, awake, run_once, wake_time, poll, paint, network, transact, online,
}

-- The alarm is due by the wake time, for a clock read within two seconds.
alarm_due :
    (now t next due : ℤ) (default : ℕ)
    → pos 1700000000 ≤ℤ now
    → now +ℤ pos 60 ≤ℤ next
    → now ≤ℤ t
    → t ≤ℤ now +ℤ pos 2
    → (next ≤ℤ due) ⊎ (next ≡ now +ℤ pos 60)
    → (t +ℤ pos (snvs_delay next t default) ≤ℤ due)
      ⊎ (t +ℤ pos (snvs_delay next t default) ≤ℤ now +ℤ pos 60)
alarm_due now t next due default clock later lo hi h =
    let on_time =
      snvs_delay_on_time next t default (omega (arith, +ℤ_parts now (pos 60)))
        (omega (arith, +ℤ_parts now (pos 60), +ℤ_parts now (pos 2), +ℤ_parts t (pos 2))) in
    elim h [
      | inl early ↦ inl (omega (arith, on_time, early))
      | inr soon ↦ inr (subst (λ z. t +ℤ pos (snvs_delay next t default) ≤ℤ z) soon on_time)
    ]

module _ (b : Board) (v : Services b.World) (level : b.World → Pin → Bool) where
  -- whether a wake goes online
  abbrev pub transacts : b.World → Bool
  transacts w = v.has_http && not (v.skip_radio_if_current && not (v.radio_sync_needed w))

  -- The radio is gated after a transaction, and what is painted is all that happens without one.
  network_gates :
      (s : PowerStatus) (w : b.World)
      → Drives b level
      → ((transacts w ≡ false) × (network b v (s, w) ≡ (s, w)))
        ⊎ ((transacts w ≡ true) × RadioOff b level (network b v (s, w)))
  unfolding network transact
  network_gates s w h = elim (Bool-cases v.has_http) [
    | inl http ↦ elim (Bool-cases (v.skip_radio_if_current && not (v.radio_sync_needed w))) [
      | inl skip ↦ rw (http, skip) (inl (refl, refl))
      | inr sync ↦
          rw (http, sync)
            (inr (refl, iw612_set-RadioOff b level (online b v (iw612_set b true (s, w))) h))
    ]
    | inr none ↦ rw none (inl (refl, refl))
  ]

  -- A wake of a device whose power helpers start, whose CM4 core is held in reset and whose GPIO
  -- driver works: before the wake time is worked out, the radio is gated after a transaction, and the
  -- rails are as they were where there is none. It ends with the radio gated, and with the panel off
  -- in the status and at its enable pin, and the data NOR off in the status, unless a refresh is in
  -- flight; whatever the scheduler and the network do.
  pub run_once_gates :
      (m m' : Machine b) (n : ℕ)
      → power_init b m ≡ (val n, m')
      → ((w : b.World) → b.cm4_released w ≡ false)
      → Drives b level
      → let r = run_once b v m in
        let a = awake b v m' in
        let painted = paint b v m'.1 in
        (((transacts painted ≡ false) × (a ≡ (m'.0, painted)))
          ⊎ ((transacts painted ≡ true) × RadioOff b level a))
        × RadioOff b level r.1
        × ((b.fire_and_forget && b.display_is_busy r.1.1 ≡ true) ⊎ PanelOff b level r.1)
  unfolding run_once
  run_once_gates m m' n e held h =
      let a = awake b v m' in
      let slept =
        enter_snvs_gates b level (set_next_wake (wake_time b v (b.time a.1) (v.schedule a.1)) a.0)
          a.1 (held a.1) h in
      rw e (network_gates m'.0 (paint b v m'.1) h, slept.0, slept.1)

  -- Setting a pin takes a second at most.
  abbrev pub Prompt : Type 0
  Prompt =
      (pin : Pin) (on : Bool) (w : b.World)
      → (b.time w ≤ℤ b.time (b.gpio_pin_set pin on w).1)
        × (b.time (b.gpio_pin_set pin on w).1 ≤ℤ b.time w +ℤ pos 1)

  -- The clock advances by `k` seconds at most, and the wake time stays.
  abbrev Steady : ℕ → Machine b → Machine b → Type 0
  Steady k (s, w) (s', w') =
      (s'.next_wake_unix ≡ s.next_wake_unix)
      × (b.time w ≤ℤ b.time w')
      × (b.time w' ≤ℤ b.time w +ℤ pos k)

  after_set-Steady :
      (update : PowerStatus → PowerStatus) (s : PowerStatus) (w : b.World) (r : Ret × b.World)
      → (update s).next_wake_unix ≡ s.next_wake_unix
      → b.time w ≤ℤ b.time r.1
      → b.time r.1 ≤ℤ b.time w +ℤ pos 1
      → Steady 1 (s, w) (after_set b update s r).1
  after_set-Steady update s w (val n, w') keeps lo hi = (keeps, lo, hi)
  after_set-Steady update s w (err e, w') keeps lo hi = (refl, lo, hi)

  set_rail-Steady :
      (pin : Pin) (update : PowerStatus → PowerStatus) (on : Bool) (s : PowerStatus) (w : b.World)
      → Prompt
      → (update s).next_wake_unix ≡ s.next_wake_unix
      → Steady 1 (s, w) (set_rail b pin update on (s, w)).1
  set_rail-Steady pin update on s w prompt keeps =
      elim (Bool-cases (b.has_gpio pin && bound pin s)) [
        | inl there ↦
            let p = prompt pin on w in
            rw there (after_set-Steady update s w (b.gpio_pin_set pin on w) keeps p.0 p.1)
        | inr none ↦ rw none (keeps, omega arith, omega (arith, +ℤ_parts (b.time w) (pos 1)))
      ]

  gate_panel-Steady : (m : Machine b) → Prompt → Steady 1 m (gate_panel b m)
  unfolding panel_set
  gate_panel-Steady (s, w) prompt = elim (Bool-cases (b.fire_and_forget && b.display_is_busy w)) [
    | inl busy ↦ rw busy (refl, omega arith, omega (arith, +ℤ_parts (b.time w) (pos 1)))
    | inr idle ↦ rw idle (set_rail-Steady panel_en (with_panel false) false s w prompt refl)
  ]

  -- The alarm is set from the wake time and a clock at most two seconds on.
  enter_snvs_alarm :
      (s : PowerStatus) (w : b.World)
      → b.cm4_released w ≡ false
      → Prompt
      → let r = enter_snvs b (s, w) in
        (r.0 ≡ suspend (snvs_delay s.next_wake_unix (b.time r.1.1) b.default_alarm_sec) b.pmic_off)
        × (b.time w ≤ℤ b.time r.1.1)
        × (b.time r.1.1 ≤ℤ b.time w +ℤ pos 2)
  unfolding enter_snvs assert_cm4_held iw612_set
  enter_snvs_alarm s w held prompt =
      let start = record s { cm4_held_in_reset = true } in
      let radio = set_rail-Steady iw612_en (with_radio false) false start w prompt refl in
      let m = (set_rail b iw612_en (with_radio false) false (start, w)).1 in
      let panel = gate_panel-Steady m prompt in
      rw held (
        ap (λ t. suspend (snvs_delay t (b.time (gate_panel b m).1) b.default_alarm_sec) b.pmic_off)
            (panel.0 ∙ radio.0),
        omega (arith, radio.1, panel.1),
        omega (
          arith,
          radio.2,
          panel.2,
          +ℤ_parts (b.time w) (pos 1),
          +ℤ_parts (b.time w) (pos 2),
          +ℤ_parts (b.time m.1) (pos 1),
        ),
      )

  wake_time-next_wakeup :
      (now : ℤ) (jobs : List Job)
      → pos 1700000000 ≤ℤ now
      → wake_time b v now jobs ≡ next_wakeup (some jobs) now (poll b v)
  unfolding wake_time
  wake_time-next_wakeup now jobs h = ground arith

  -- A wake whose clock is set ends in an alarm no later than the next run of any job of the
  -- schedule, or than a minute after the wake time was worked out; setting a pin takes a second at
  -- most, and the clock is below 2^54 seconds.
  pub run_once_on_time :
      (m m' : Machine b) (n : ℕ)
      → power_init b m ≡ (val n, m')
      → ((w : b.World) → b.cm4_released w ≡ false)
      → Prompt
      → pos 1700000000 ≤ℤ b.time (awake b v m').1
      → NearNow (b.time (awake b v m').1)
      → (i : ℕ) (j : Job) → get_elem? (v.schedule (awake b v m').1) i ≡ some j
      → let r = run_once b v m in
        let now = b.time (awake b v m').1 in
        (d : ℕ) × (r.0 ≡ suspend d b.pmic_off)
        × ((b.time r.1.1 +ℤ pos d ≤ℤ cron_next_after (some j.cron) now)
            ⊎ (b.time r.1.1 +ℤ pos d ≤ℤ now +ℤ pos 60))
  unfolding run_once
  run_once_on_time m m' n e held prompt clock near i j at =
      let a = awake b v m' in
      let now = b.time a.1 in
      let jobs = v.schedule a.1 in
      let next = next_wakeup (some jobs) now (poll b v) in
      let set = wake_time-next_wakeup now jobs clock in
      let alarm = enter_snvs_alarm (set_next_wake next a.0) a.1 (held a.1) prompt in
      let t = b.time (enter_snvs b (set_next_wake next a.0, a.1)).1.1 in
      rw (e, set)
        (
          snvs_delay next t b.default_alarm_sec,
          alarm.0,
          alarm_due now t next (cron_next_after (some j.cron) now) b.default_alarm_sec clock
              (next_wakeup_bounds (some jobs) now (poll b v)).0 alarm.1 alarm.2
              (next_wakeup-cron_next_after jobs now (poll b v) i j (omega arith) near at),
        )
