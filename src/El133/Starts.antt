-- ===== src/El133/Starts.antt =====
-- display_el133uf1.c: what the initialisation of the driver has the controllers hear.
use mender_rt1180_zephyr.Prelude.{
  ℕ, zero, suc, ltb, ◌≡◌, refl, ◌∙◌, sym, subst, Bool, true, false, Bool-cases, inl, inr,
  if◌then◌else◌, List, [], Option, none, some, Ret, val, err, Errno, ap, ◌⊎◌,
}
use mender_rt1180_zephyr.El133.{
  Bus, Pin, gpio_input, gpio_output_inactive, busy_pin, cs0_pin, cs1_pin, dc_pin, reset_pin, ◌then◌,
  Reg, init_registers, epd_init_registers, looked, ready_loop, wait_ready,
}
use mender_rt1180_zephyr.El133.Heard.{View, drive, Wired, AtRest, Told, Told-nil}
use mender_rt1180_zephyr.El133.Tells.{After, wait_ready-After}
use mender_rt1180_zephyr.El133.Orders.{epd_init_registers-After}
use mender_rt1180_zephyr.El133.Loads.{Ends, then-Ends}
use mender_rt1180_zephyr.El133.Frames.{seen}
use mender_rt1180_zephyr.El133.Device.{
  Panel, configured, hardware_reset, registered, answered, pins_set, init,
}

abbrev pub orders_with : Bool → List Reg
orders_with true = init_registers
orders_with false = []

-- the lines when the pins are configured
abbrev quiet : View → View
quiet v = drive dc_pin false (drive cs1_pin false (drive cs0_pin false v))

Told-quiet : (regs : List Reg) (v w : View) → Told regs (quiet v) w → Told regs v w
Told-quiet regs v w h = record {
  rest = h.rest;
  first_heard = h.first_heard;
  second_heard = h.second_heard;
}

-- Each controller is released, or selected as it was before.
abbrev pub FreeOrKept : View → View → Type 0
FreeOrKept v w =
    ((w.selected0 ≡ false) ⊎ (w.selected0 ≡ v.selected0))
    × ((w.selected1 ≡ false) ⊎ (w.selected1 ≡ v.selected1))

module _ (B : Type 0) (bus : Bus B) (wired : Wired B bus) where
  -- The registers are written where a panel has answered, and nothing is said where none has.
  abbrev pub Initialised : View → Panel B → Type 0
  Initialised v q =
      Told (orders_with q.glass_present) v (seen B bus wired q)
      × (q.dirty ≡ false)
      × (q.blanking_on ≡ false)

  abbrev pub Spared : View → Panel B → Type 0
  Spared v q = FreeOrKept v (seen B bus wired q)

  hardware_reset_keeps : (b : B) → wired.view (hardware_reset B bus b) ≡ wired.view b
  hardware_reset_keeps b =
      wired.view-sleep 100 _
      ∙ wired.view-sleep 20 _
      ∙ wired.view-set_pin reset_pin false _
      ∙ wired.view-sleep 20 _
      ∙ wired.view-set_pin reset_pin true b

  registered-Ends :
      (p : Panel B) (v : View) (r : Ret × B)
      → After B bus wired init_registers (quiet v) (some r)
      → Ends (Initialised v) (Spared v) (some (registered B bus p r))
  registered-Ends p v (err e, b) h = (inl h.0, inl h.1)
  registered-Ends p v (val n, b) h = (Told-quiet init_registers v (wired.view b) h, refl, refl)

  -- a wait says nothing to the panel
  abbrev Kept : View → Option (Ret × B) → Type 0
  Kept v none = Unit {0}
  Kept v (some (r, b)) = wired.view b ≡ v

  looked-Kept :
      (more : B → Option (Ret × B)) (end : ℕ) (v : View) (r : Bool × B)
      → wired.view r.1 ≡ v
      → Kept v (more (bus.sleep 5 r.1))
      → Kept v (looked B bus more end r)
  looked-Kept more end v (true, b) at h = at
  looked-Kept more end v (false, b) at h = elim (Bool-cases (ltb end (bus.uptime b))) [
    | inl late ↦ rw late at
    | inr early ↦ rw early h
  ]

  ready_loop-Kept :
      (fuel end : ℕ) (v : View) (b : B) → wired.view b ≡ v → Kept v (ready_loop B bus fuel end b)
  unfolding ready_loop
  ready_loop-Kept zero end v b at = tt
  ready_loop-Kept (suc fuel) end v b at =
      looked-Kept (λ b'. ready_loop B bus fuel end b') end v (bus.is_busy_high b)
        (wired.view-is_busy_high b ∙ at)
        (ready_loop-Kept fuel end v (bus.sleep 5 (bus.is_busy_high b).1)
          (wired.view-sleep 5 _ ∙ wired.view-is_busy_high b ∙ at))

  wait_ready-Kept : (ms : ℕ) (v : View) (b : B) → wired.view b ≡ v → Kept v (wait_ready B bus ms b)
  unfolding wait_ready
  wait_ready-Kept ms v b at = ready_loop-Kept _ _ v b at

  answered-Ends :
      (p : Panel B) (v : View) (o : Option (Ret × B))
      → After B bus wired [] (quiet v) o
      → Kept (quiet v) o
      → Ends (Initialised v) (Spared v) (answered B bus p o)
  answered-Ends p v none h k = h
  answered-Ends p v (some (err e, b)) h k = (
    Told-quiet [] v (wired.view b) (Told-nil (quiet v) (wired.view b) (refl, refl) k),
    refl,
    refl,
  )
  answered-Ends p v (some (val n, b)) h k = registered-Ends p v (epd_init_registers B bus b) (
      subst (λ z. After B bus wired init_registers z (some (epd_init_registers B bus b))) k
        (epd_init_registers-After B bus wired b (subst AtRest (sym k) (refl, refl))))

  -- the controllers' lines, in the midst of the configuration
  abbrev Held : View → B → Type 0
  Held v b = FreeOrKept v (wired.view b)

  pins_set-Ends :
      (p : Panel B) (v : View) (o : Option (Ret × B))
      → Ends (λ b. wired.view b ≡ quiet v) (Held v) o
      → Ends (Initialised v) (Spared v) (pins_set B bus p o)
  pins_set-Ends p v none h = h
  pins_set-Ends p v (some (err e, b)) h = h
  pins_set-Ends p v (some (val n, b)) h =
      let kept : wired.view (hardware_reset B bus b) ≡ quiet v = hardware_reset_keeps b ∙ h in
      answered-Ends p v (wait_ready B bus 10000 (hardware_reset B bus b))
        (wait_ready-After B bus wired 10000 (quiet v) (hardware_reset B bus b) (refl, refl) kept)
        (wait_ready-Kept 10000 (quiet v) (hardware_reset B bus b) kept)

  listening-Ends :
      (v : View) (b : B)
      → wired.view b ≡ v
      → Ends (λ b'. wired.view b' ≡ v) (Held v) (configured B bus busy_pin gpio_input b)
  listening-Ends v b at =
      sorted (bus.configure busy_pin gpio_input b) (wired.view-configure_input b ∙ at)
    where
      sorted : (r : Ret × B) → wired.view r.1 ≡ v → Ends (λ b'. wired.view b' ≡ v) (Held v) (some r)
      sorted (err e, b') h = subst (FreeOrKept v) (sym h) (inr refl, inr refl)
      sorted (val n, b') h = h

  -- A pin is driven low, or the configuration fails.
  driven-Ends :
      (pin : Pin) (v x : View) (b : B)
      → FreeOrKept v x
      → FreeOrKept v (drive pin false x)
      → wired.view b ≡ x
      → Ends
          (λ b'. wired.view b' ≡ drive pin false x)
          (Held v)
          (configured B bus pin gpio_output_inactive b)
  driven-Ends pin v x b was is at =
      sorted (bus.configure pin gpio_output_inactive b) (wired.view-configure_output pin false b)
    where
      sorted :
          (r : Ret × B)
          → (wired.view r.1 ≡ drive pin false (wired.view b))
            ⊎ ((wired.view r.1 ≡ wired.view b) × (e : Errno) × (r.0 ≡ err e))
          → Ends (λ b'. wired.view b' ≡ drive pin false x) (Held v) (some r)
      sorted (err e, b') (inl low) = subst (FreeOrKept v) (sym (low ∙ ap (drive pin false) at)) is
      sorted (err e, b') (inr (same, _, _)) = subst (FreeOrKept v) (sym (same ∙ at)) was
      sorted (val n, b') (inl low) = low ∙ ap (drive pin false) at
      sorted (val n, b') (inr (same, e, fails)) = absurd (cc)

  next_pin-Ends :
      (pin : Pin) (v x : View) (o : Option (Ret × B))
      → FreeOrKept v x
      → FreeOrKept v (drive pin false x)
      → Ends (λ b. wired.view b ≡ x) (Held v) o
      → Ends
          (λ b. wired.view b ≡ drive pin false x)
          (Held v)
          (o then configured B bus pin gpio_output_inactive)
  next_pin-Ends pin v x o was is h =
      then-Ends (λ b. wired.view b ≡ x) (λ b. wired.view b ≡ drive pin false x) (Held v) o
        (configured B bus pin gpio_output_inactive) h (λ b at. driven-Ends pin v x b was is at)

  -- On a bus that behaves as documented, however the lines are at first: the initialisation ends.
  -- When it returns 0, both controllers are released, and they have heard the writes of the register
  -- table, each those that are for it, in order, where a panel is reported, and nothing where none
  -- is, and no frame waits to be shown. When it fails, each controller is released, or selected as
  -- it was.
  pub init-Ends :
      (p : Panel B)
      → Ends (Initialised (seen B bus wired p)) (Spared (seen B bus wired p)) (init B bus p)
  unfolding init
  init-Ends p = elim (Bool-cases (bus.spi_is_ready p.bus_state)) [
    | inl up ↦
        let v = seen B bus wired p in
        let v0 = drive cs0_pin false v in
        let v1 = drive cs1_pin false v0 in
        simp up (
          pins_set-Ends p v _ (
            next_pin-Ends reset_pin v (quiet v) _ (inl refl, inl refl) (inl refl, inl refl)
              (next_pin-Ends dc_pin v v1 _ (inl refl, inl refl) (inl refl, inl refl)
                (next_pin-Ends cs1_pin v v0 _ (inl refl, inr refl) (inl refl, inl refl)
                  (next_pin-Ends cs0_pin v v (configured B bus busy_pin gpio_input p.bus_state)
                    (inr refl, inr refl) (inl refl, inr refl)
                    (listening-Ends v p.bus_state refl))))))
    | inr down ↦ simp down (inr refl, inr refl)
  ]
