-- ===== src/Display/Rows.antt =====
-- eink_display.c: the previews of a frame on another display than the panel, from its rows:
-- `write_lcd_preview_from_halves` and `write_sdl_from_halves`.
use mender_rt1180_zephyr.Prelude.{
  ℕ, zero, suc, ◌+◌, ◌-◌, ◌*◌, ◌/◌, ◌%◌, ◌^◌, min, Bool, true, false, ◌&&◌, ◌||◌, ◌==◌, ltb,
  if◌then◌else◌, List, get_or, Option, none, some, Ret, val, err, einval, enomem,
}
use mender_rt1180_zephyr.Frame.{panel_width, panel_height}
use mender_rt1180_zephyr.Frame.Palette.{nibble_to_argb, nibble_to_rgb565}
use mender_rt1180_zephyr.El133.Device.{rgb_565}
use mender_rt1180_zephyr.Display.Screen.{Desc, Screen}

abbrev pub half_width : ℕ
half_width = 600

abbrev pub lcd_w : ℕ
lcd_w = 720

abbrev pub lcd_h : ℕ
lcd_h = 1280

abbrev pub sdl_cap : ℕ
sdl_cap = 1600 * 1200

-- pixels at their index in a framebuffer
abbrev pub Canvas : Type 0
Canvas = ℕ → ℕ

abbrev pub put : ℕ → ℕ → Canvas → Canvas
put i v canvas j = if j == i then v else canvas j

-- the pixel `x` of a row of the panel, of which each half has its own bytes
abbrev pub nibble_at : List ℕ → List ℕ → ℕ → ℕ
nibble_at left right x =
    let half = if ltb x half_width then left else right in
    let hx = if ltb x half_width then x else x - half_width in
    if hx % 2 == 0 then get_or half (hx / 2) 0 / 2 ^ 4 else get_or half (hx / 2) 0 % 2 ^ 4

-- the loop over the pixels of a row, from `x` on
unfoldable pub fill_row : (ℕ → ℕ) → (ℕ → ℕ) → ℕ → ℕ → Canvas → Canvas
fill_row place colour zero x canvas = canvas
fill_row place colour (suc n) x canvas =
    fill_row place colour n (suc x) (put (place x) (colour x) canvas)

module _ (U : Type 0) (read_row : ℕ → Bool → U → (Ret × List ℕ) × U) where
  abbrev pub Painted : Type 0
  Painted = Ret × (U × Canvas)

  abbrev pub right_read :
      (U → List ℕ → List ℕ → Painted) → Canvas → List ℕ → (Ret × List ℕ) × U → Painted
  right_read more canvas left ((err e, bytes), u) = (err e, (u, canvas))
  right_read more canvas left ((val n, right), u) = more u left right

  abbrev pub left_read : (U → List ℕ → List ℕ → Painted) → Canvas → ℕ → (Ret × List ℕ) × U → Painted
  left_read more canvas y ((err e, bytes), u) = (err e, (u, canvas))
  left_read more canvas y ((val n, left), u) = right_read more canvas left (read_row y true u)

  -- the loop over the rows, from `y` on: the row of the panel that is read, where a pixel is put,
  -- and its colour
  unfoldable pub fill_rows :
      (ℕ → ℕ) → (ℕ → ℕ → ℕ) → (List ℕ → List ℕ → ℕ → ℕ) → ℕ → ℕ → ℕ → U → Canvas → Painted
  fill_rows source place colour width zero y u canvas = (val 0, (u, canvas))
  fill_rows source place colour width (suc n) y u canvas =
      left_read
        (λ u' left right.
          fill_rows source place colour width n (suc y) u'
            (fill_row (place y) (colour left right) width 0 canvas))
        canvas (source y) (read_row (source y) false u)

  module _ (P : Type 0) (scr : Screen P) where
    abbrev pub beside : U → Option (Ret × P) → Option (Ret × (U × P))
    beside u none = none
    beside u (some (ret, p)) = some (ret, (u, p))

    abbrev pub shown : (Canvas → P → Option (Ret × P)) → P → Painted → Option (Ret × (U × P))
    shown write p (err e, (u, canvas)) = some (err e, (u, p))
    shown write p (val n, (u, canvas)) = beside u (write canvas p)

    abbrev pub desc : ℕ → ℕ → ℕ → Desc
    desc bytes w h = record { buf_size = w * h * bytes; width = w; height = h; pitch = w }

    -- on the frame buffer as it was left
    unfoldable pub write_lcd_preview_from_halves : Canvas → U → P → Option (Ret × (U × P))
    write_lcd_preview_from_halves before u p =
        let w = (scr.capabilities p).x_resolution in
        let h = (scr.capabilities p).y_resolution in
        if (w == 0) || (h == 0)
        then some (err einval, (u, p))
        else if ltb lcd_w w || ltb lcd_h h
        then some (err enomem, (u, p))
        else shown (λ canvas q. scr.write_pixels (desc 2 w h) canvas q)
            (scr.set_pixel_format rgb_565 p).1
            (fill_rows (λ ly. ly * panel_height / h) (λ ly lx. ly * w + lx)
              (λ left right lx. nibble_to_rgb565 (nibble_at left right (lx * panel_width / w))) w h
              0 u before)

    abbrev pub white_canvas : Canvas
    white_canvas i = 0xFFFFFFFF

    -- the panel's frame turned by 90 degrees into a window of the panel's sides, or copied
    unfoldable pub write_sdl_from_halves : U → P → Option (Ret × (U × P))
    write_sdl_from_halves u p =
        let w = (scr.capabilities p).x_resolution in
        let h = (scr.capabilities p).y_resolution in
        if (w == 0) || (h == 0)
        then some (err einval, (u, p))
        else if ltb sdl_cap (w * h)
        then some (err enomem, (u, p))
        else if (w == panel_height) && (h == panel_width)
        then shown (λ canvas q. scr.write_pixels (desc 4 w h) canvas q) p
            (fill_rows (λ y. y) (λ y x. (panel_width - 1 - x) * w + y)
              (λ left right x. nibble_to_argb (nibble_at left right x)) panel_width panel_height 0 u
              white_canvas)
        else shown (λ canvas q. scr.write_pixels (desc 4 w h) canvas q) p
            (fill_rows (λ y. y) (λ y x. y * w + x)
              (λ left right x. nibble_to_argb (nibble_at left right x)) (min panel_width w)
              (min panel_height h) 0 u white_canvas)
