-- ===== src/Display/Screen.antt =====
-- The display interface of Zephyr that eink_display.c calls, on a state `P` of the device, with
-- `el133uf1_stream_write`; and the EL133UF1 driver behind it.
use mender_rt1180_zephyr.Prelude.{ℕ, Bool, List, Option, Ret}
use mender_rt1180_zephyr.El133.{Bus}
use mender_rt1180_zephyr.El133.Device.{
  Panel, Capabilities, PixelFormat, get_capabilities, set_pixel_format, blanking_on, blanking_off,
  write, stream_write,
}

-- struct display_buffer_descriptor
pub record Desc : Type 0 where
  pub buf_size : ℕ
  pub width : ℕ
  pub height : ℕ
  pub pitch : ℕ

abbrev pub Fill : Type 0 → Type 0
Fill U = ℕ → U → (Ret × List ℕ) × U

-- `none` where a call does not end
pub record Screen (P : Type 0) : Type 1 where
  pub is_ready : P → Bool
  pub capabilities : P → Capabilities
  pub blanking_on : P → Ret × P
  pub blanking_off : P → Option (Ret × P)
  pub set_pixel_format : PixelFormat → P → Ret × P
  -- `display_write` of bytes, and of pixels at their index
  pub write : Desc → List ℕ → P → Option (Ret × P)
  pub write_pixels : Desc → (ℕ → ℕ) → P → Option (Ret × P)
  pub stream_write : (U : Type 0) → Fill U → U → P → Option (Ret × (U × P))

-- The panel's driver, which is ready; it writes bytes alone, so that a write of pixels is left open.
abbrev pub el133_screen :
    (B : Type 0)
    → Bus B
    → ℕ
    → ℕ
    → (Desc → (ℕ → ℕ) → Panel B → Option (Ret × Panel B))
    → Screen (Panel B)
el133_screen B bus width height write_pixels = record {
  is_ready = λ p. Bool.true;
  capabilities = λ p. get_capabilities width height;
  blanking_on = λ p. blanking_on B bus p;
  blanking_off = λ p. blanking_off B bus p;
  set_pixel_format = λ pf p. (set_pixel_format pf, p);
  write = λ desc payload p. write B bus payload desc.buf_size p;
  write_pixels = write_pixels;
  stream_write = λ U fill u p. stream_write B bus U fill u p;
}
