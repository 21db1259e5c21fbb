-- ===== src/Power/Gate.antt =====
-- eink_power.c: what is off when the device sleeps, and for how long it sleeps.
use mender_rt1180_zephyr.Prelude.{
  ℕ, ◌≤◌, ◌≡◌, refl, arith, Bool, true, false, ◌&&◌, Ret, val, err, ◌⊎◌, inl, inr, Bool-cases,
}
use mender_rt1180_zephyr.Prelude.Int.{ℤ, pos, ◌+ℤ◌, ◌≤ℤ◌, ◌<ℤ◌, -ℤ_parts, +ℤ_parts}
use mender_rt1180_zephyr.Power.{
  Board, Pin, iw612_en, panel_en, PowerStatus, Machine, bound, assert_cm4_held, iw612_set,
  panel_set, enter_snvs, snvs_delay, gate_panel, after_set, set_rail, with_radio, with_panel,
}

-- The GPIO driver does not fail, and `level` is what it drives: a pin is at the level last set, and
-- the panel's pin is not the radio's.
pub record Drives (b : Board) (level : b.World → Pin → Bool) : Type 0 where
  pub works : (pin : Pin) (on : Bool) (w : b.World) → (b.gpio_pin_set pin on w).0 ≡ val 0
  pub driven : (pin : Pin) (on : Bool) (w : b.World) → level (b.gpio_pin_set pin on w).1 pin ≡ on
  pub panel_apart :
      (on : Bool) (w : b.World) → level (b.gpio_pin_set panel_en on w).1 iw612_en ≡ level w iw612_en

module _ (b : Board) (level : b.World → Pin → Bool) where
  -- The radio is off in the status, and its enable pin is low where the build drives it.
  abbrev pub RadioOff : Machine b → Type 0
  RadioOff (s, w) =
      (s.iw612_powered ≡ false)
      × (s.iw612_wowlan ≡ false)
      × (b.has_gpio iw612_en && s.iw612_gpio_bound && level w iw612_en ≡ false)

  -- The panel is off in the status, and its enable pin is low where the build drives it. The data
  -- NOR has no pin: it is off in the status.
  abbrev pub PanelOff : Machine b → Type 0
  PanelOff (s, w) =
      (s.panel_powered ≡ false)
      × (s.data_nor_powered ≡ false)
      × (b.has_gpio panel_en && s.panel_gpio_bound && level w panel_en ≡ false)

  after_set_works :
      (update : PowerStatus → PowerStatus) (s : PowerStatus) (r : Ret × b.World)
      → r.0 ≡ val 0
      → after_set b update s r ≡ (val 0, (update s, r.1))
  after_set_works update s (val n, w) e = refl
  after_set_works update s (err c, w) e = absurd (cc)

  -- What a setter that works leaves: the status it is for, and the pin driven where there is one.
  set_rail_works :
      (pin : Pin) (update : PowerStatus → PowerStatus) (on : Bool) (s : PowerStatus) (w : b.World)
      → Drives b level
      → ((b.has_gpio pin && bound pin s ≡ true)
          × (set_rail b pin update on (s, w) ≡ (val 0, (update s, (b.gpio_pin_set pin on w).1))))
        ⊎ ((b.has_gpio pin && bound pin s ≡ false)
            × (set_rail b pin update on (s, w) ≡ (val 0, (update s, w))))
  set_rail_works pin update on s w h = elim (Bool-cases (b.has_gpio pin && bound pin s)) [
    | inl there ↦
        inl
          (there, rw there (after_set_works update s (b.gpio_pin_set pin on w) (h.works pin on w)))
    | inr none ↦ inr (none, rw none refl)
  ]

  pub iw612_set-RadioOff : (m : Machine b) → Drives b level → RadioOff (iw612_set b false m).1
  unfolding iw612_set
  iw612_set-RadioOff (s, w) h = elim (set_rail_works iw612_en (with_radio false) false s w h) [
    | inl (there, e) ↦ rw e (ground (arith, h.driven iw612_en false w))
    | inr (none, e) ↦ rw e (ground (arith, none))
  ]

  gate_panel-RadioOff :
      (m : Machine b)
      → Drives b level
      → RadioOff m
      → RadioOff (gate_panel b m)
        × (((b.fire_and_forget && b.display_is_busy m.1 ≡ true) × (gate_panel b m ≡ m))
            ⊎ PanelOff (gate_panel b m))
  unfolding panel_set
  gate_panel-RadioOff (s, w) h off = elim (Bool-cases (b.fire_and_forget && b.display_is_busy w)) [
    | inl busy ↦ rw busy (off, inl (refl, refl))
    | inr idle ↦ elim (set_rail_works panel_en (with_panel false) false s w h) [
      | inl (there, e) ↦
          rw (idle, e, h.panel_apart false w) (off, inr (ground (arith, h.driven panel_en false w)))
      | inr (none, e) ↦ rw (idle, e) (off, inr (ground (arith, none)))
    ]
  ]

  -- Where the CM4 core is held in reset and the GPIO driver works, the device sleeps with the radio
  -- gated: off in the status, and its enable pin low where the build drives one. The panel is off in
  -- the same way, and the data NOR in the status, unless a refresh is in flight.
  pub enter_snvs_gates :
      (s : PowerStatus) (w : b.World)
      → b.cm4_released w ≡ false
      → Drives b level
      → let r = enter_snvs b (s, w) in
        RadioOff r.1 × ((b.fire_and_forget && b.display_is_busy r.1.1 ≡ true) ⊎ PanelOff r.1)
  unfolding enter_snvs assert_cm4_held
  enter_snvs_gates s w held h =
      let m = (iw612_set b false (record s { cm4_held_in_reset = true }, w)).1 in
      let gated =
        gate_panel-RadioOff m h (iw612_set-RadioOff (record s { cm4_held_in_reset = true }, w) h) in
      rw held (gated.0, elim gated.1 [ inl (busy, e) ↦ inl (rw e busy) | inr off ↦ inr off ])

-- The alarm is 2 seconds to a day away, for a default in that range.
pub snvs_delay_range :
    (next now : ℤ) (default : ℕ)
    → 2 ≤ default
    → default ≤ 86400
    → (2 ≤ snvs_delay next now default) × (snvs_delay next now default ≤ 86400)
unfolding snvs_delay
snvs_delay_range next now default lo hi = ground (arith, -ℤ_parts next now)

-- A wake time after 1700000000 that is at least 2 seconds away is not overslept.
pub snvs_delay_on_time :
    (next now : ℤ) (default : ℕ)
    → pos 1700000000 <ℤ next
    → now +ℤ pos 2 ≤ℤ next
    → now +ℤ pos (snvs_delay next now default) ≤ℤ next
unfolding snvs_delay
snvs_delay_on_time next now default h near = ground (
  arith,
  -ℤ_parts next now,
  +ℤ_parts now (pos 2),
  +ℤ_parts now (pos (snvs_delay next now default)),
)
