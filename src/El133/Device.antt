-- ===== src/El133/Device.antt =====
-- display_el133uf1.c: the state of the driver, the functions that it gives to the display interface
-- of Zephyr, and `el133uf1_stream_write`. The checks for NULL pointers are those of the callers.
use mender_rt1180_zephyr.Prelude.{
  ℕ, zero, suc, Bool, true, false, not, List, drop, ltb, if◌then◌else◌, Option, none, some, Ret,
  val, err, einval, enodev, enotsup,
}
use mender_rt1180_zephyr.El133.{
  Bus, Pin, busy_pin, cs0_pin, cs1_pin, dc_pin, reset_pin, PinFlags, gpio_input,
  gpio_output_inactive, cs0, cs1, ◌then◌, wait_ready, epd_init_registers, refresh,
}
use mender_rt1180_zephyr.El133.Stream.{payload_bytes, half_bytes, chunk_size, load_dtm, stream_half}

-- struct el133_data, but the chunk that a stream is sent through, and the bus
pub record Panel (B : Type 0) : Type 0 where
  pub blanking_on : Bool
  pub dirty : Bool
  pub glass_present : Bool
  pub bus_state : B

pub record Capabilities : Type 0 where
  pub x_resolution : ℕ
  pub y_resolution : ℕ
  pub is_epd : Bool

-- the pixel formats of the display interface that the firmware names
pub data PixelFormat : Type 0 where
  l_4 rgb_565 argb_8888 : PixelFormat

abbrev pub get_capabilities : ℕ → ℕ → Capabilities
get_capabilities width height = record {
  x_resolution = width;
  y_resolution = height;
  is_epd = true;
}

abbrev pub set_pixel_format : PixelFormat → Ret
set_pixel_format l_4 = val 0
set_pixel_format _ = err enotsup

module _ (B : Type 0) (bus : Bus B) where
  abbrev pub with_bus : Panel B → B → Panel B
  with_bus p b = record p { bus_state = b }

  abbrev pub blanking_on : Panel B → Ret × Panel B
  blanking_on p = (val 0, record p { blanking_on = true })

  abbrev pub cleaned : Panel B → Option (Ret × B) → Option (Ret × Panel B)
  cleaned p none = none
  cleaned p (some (err e, b)) = some (err e, with_bus p b)
  cleaned p (some (val n, b)) = some (val n, record p { dirty = false; bus_state = b })

  -- `if (ret == 0)`
  abbrev pub refreshed : Panel B → Option (Ret × B) → Option (Ret × Panel B)
  refreshed p none = none
  refreshed p (some (err e, b)) = some (err e, with_bus p b)
  refreshed p (some (val zero, b)) = some (val 0, record p { dirty = false; bus_state = b })
  refreshed p (some (val (suc n), b)) = some (val (suc n), with_bus p b)

  abbrev pub unblanked : Option (Ret × Panel B) → Option (Ret × Panel B)
  unblanked none = none
  unblanked (some (r, p)) = some (r, record p { blanking_on = false })

  unfoldable pub blanking_off : Panel B → Option (Ret × Panel B)
  blanking_off p =
      unblanked (if p.dirty then refreshed p (refresh B bus p.bus_state) else some (val 0, p))

  -- both halves are loaded: the end of `el133_write` and of `el133uf1_stream_write`
  abbrev pub settled : Panel B → Option (Ret × Panel B)
  settled p =
      if not p.blanking_on
      then cleaned (record p { dirty = true }) (refresh B bus p.bus_state)
      then (λ q. some (val 0, q))
      else some (val 0, record p { dirty = true })

  abbrev pub half_loaded : Panel B → Ret × B → Option (Ret × Panel B)
  half_loaded p (r, b) = some (r, with_bus p b)

  -- el133_write, on a buffer of `buf_size` bytes
  unfoldable pub write : List ℕ → ℕ → Panel B → Option (Ret × Panel B)
  write payload buf_size p =
      if ltb buf_size payload_bytes
      then some (err einval, p)
      else half_loaded p (load_dtm B bus cs0 payload half_bytes p.bus_state)
        then (λ q.
            half_loaded q (load_dtm B bus cs1 (drop half_bytes payload) half_bytes q.bus_state))
        then settled

  module _ (U : Type 0) (fill : ℕ → U → (Ret × List ℕ) × U) where
    abbrev pub half_streamed : Panel B → Ret × (U × B) → Option (Ret × (U × Panel B))
    half_streamed p (r, (u, b)) = some (r, (u, with_bus p b))

    abbrev pub beside : U → Option (Ret × Panel B) → Option (Ret × (U × Panel B))
    beside u none = none
    beside u (some (r, p)) = some (r, (u, p))

    unfoldable pub stream_write : U → Panel B → Option (Ret × (U × Panel B))
    stream_write u p =
        half_streamed p (stream_half B bus cs0 U fill chunk_size u p.bus_state)
        then (λ (u', q). half_streamed q (stream_half B bus cs1 U fill chunk_size u' q.bus_state))
        then (λ (u', q). beside u' (settled q))

  abbrev pub configured : Pin → PinFlags → B → Option (Ret × B)
  configured pin flags b = some (bus.configure pin flags b)

  -- the pulse on the reset line
  abbrev pub hardware_reset : B → B
  hardware_reset b =
      bus.sleep 100
        (bus.sleep 20 (bus.set_pin reset_pin false (bus.sleep 20 (bus.set_pin reset_pin true b))))

  abbrev pub registered : Panel B → Ret × B → Ret × Panel B
  registered p (err e, b) = (err e, record p { glass_present = false; bus_state = b })
  registered p (val n, b) =
      (val 0, record { blanking_on = false; dirty = false; glass_present = true; bus_state = b })

  -- no panel answers: the registers are not written, and the driver is there all the same
  abbrev pub answered : Panel B → Option (Ret × B) → Option (Ret × Panel B)
  answered p none = none
  answered p (some (err e, b)) =
      some
        (val 0, record { blanking_on = false; dirty = false; glass_present = false; bus_state = b })
  answered p (some (val n, b)) = some (registered p (epd_init_registers B bus b))

  abbrev pub pins_set : Panel B → Option (Ret × B) → Option (Ret × Panel B)
  pins_set p none = none
  pins_set p (some (err e, b)) = some (err e, with_bus p b)
  pins_set p (some (val n, b)) = answered p (wait_ready B bus 10000 (hardware_reset b))

  unfoldable pub init : Panel B → Option (Ret × Panel B)
  init p =
      if not (bus.spi_is_ready p.bus_state)
      then some (err enodev, p)
      else pins_set p (
          configured busy_pin gpio_input p.bus_state
          then configured cs0_pin gpio_output_inactive
          then configured cs1_pin gpio_output_inactive
          then configured dc_pin gpio_output_inactive
          then configured reset_pin gpio_output_inactive)

abbrev pub glass_present : {B : Type 0} → Bool → Panel B → Bool
glass_present is_ready p = if not is_ready then false else p.glass_present
