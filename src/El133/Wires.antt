-- ===== src/El133/Wires.antt =====
-- A bus whose calls all succeed, with a panel that is ready at once: what the controllers hear is
-- kept.
use mender_rt1180_zephyr.Prelude.{
  ℕ, ◌+◌, refl, arith, true, false, [], val, err, Errno, ◌≢◌, ◌≡◌, ◌⊎◌, inl, Bool,
}
use mender_rt1180_zephyr.El133.{
  Bus, Pin, PinFlags, gpio_input, gpio_output_inactive, gpio_output_active,
}
use mender_rt1180_zephyr.El133.Heard.{View, drive, transmit, output, Wired}
use mender_rt1180_zephyr.El133.Supported.{Supports}
use mender_rt1180_zephyr.El133.Works.{Works}

pub record Wires : Type 0 where
  pub heard : View
  pub now : ℕ

abbrev pub silent : View
silent = record { selected0 = false; selected1 = false; dc = false; first = []; second = [] }

abbrev pub wires_at_rest : Wires
wires_at_rest = record { heard = silent; now = 0 }

abbrev configured : Pin → PinFlags → View → View
configured pin gpio_input v = v
configured pin gpio_output_inactive v = drive pin false v
configured pin gpio_output_active v = drive pin true v

abbrev pub wires : Bus Wires
wires = record {
  spi_is_ready = λ w. true;
  spi_write = λ bytes w. (val 0, record w { heard = transmit bytes w.heard });
  configure = λ pin flags w. (val 0, record w { heard = configured pin flags w.heard });
  set_pin = λ pin level w. record w { heard = drive pin level w.heard };
  is_busy_high = λ w. (true, w);
  uptime = λ w. w.now;
  sleep = λ ms w. record w { now = w.now + ms };
}

pub never_fails : (n : ℕ) (e : Errno) → val n ≢ err e
never_fails n e h = absurd (cc)

pub driven :
    (p : Pin) (level : Bool) (w : Wires)
    → ((wires.configure p (output level) w).1.heard ≡ drive p level w.heard)
      ⊎ (((wires.configure p (output level) w).1.heard ≡ w.heard)
          × (e : Errno) × ((wires.configure p (output level) w).0 ≡ err e))
driven p true w = inl refl
driven p false w = inl refl

abbrev pub wires_laws : Wired Wires wires
wires_laws = record {
  view = λ w. w.heard;
  view-set_pin = λ p level w. refl;
  view-is_busy_high = λ w. refl;
  view-sleep = λ ms w. refl;
  view-configure_input = λ w. refl;
  view-configure_output = driven;
  view-spi_write = λ bytes w n h. refl;
  spi_failed = λ bytes w e h. absurd (never_fails 0 e h);
  looks = λ w. omega arith;
  sleeps = λ ms w. omega arith;
}

pub wires-Supports : Supports Wires wires
wires-Supports bytes w h = absurd (cc)

pub wires-Works : Works Wires wires
wires-Works = record { spi_works = λ bytes w. (0, refl); ready = λ w. refl }
