-- ===== src/Display/Paint.antt =====
-- eink_display.c: the stream of a file or of one colour, and what a command paints. The branches for
-- a file of the host, and the times of the reads, are left out.
use mender_rt1180_zephyr.Prelude.{
  ℕ, zero, suc, ◌+◌, ◌-◌, ◌*◌, min, Bool, true, false, not, ◌==◌, ltb, if◌then◌else◌, List, [],
  ◌++◌, take, drop, length, replicate, Option, none, some, Ret, val, err, einval, enotsup, enodev,
  Result, ok, fail,
}
use mender_rt1180_zephyr.Crc.{Crc}
use mender_rt1180_zephyr.Fs.{Fs}
use mender_rt1180_zephyr.Frame.{
  Header, header_size, payload_size, bytes_per_half, panel_width, panel_height,
}
use mender_rt1180_zephyr.El133.{◌then◌}
use mender_rt1180_zephyr.Lz4.{Lz4}
use mender_rt1180_zephyr.Store.Reader.{Text}
use mender_rt1180_zephyr.Store.Images.{Config}
use mender_rt1180_zephyr.Store.Validate.{validate_path}
use mender_rt1180_zephyr.Store.Accept.{materialize_es6f}
use mender_rt1180_zephyr.Display.{Action, show_path, clear, show_payload, Profile}
use mender_rt1180_zephyr.Display.Screen.{Desc, Fill, Screen}
use mender_rt1180_zephyr.Display.Rows.{write_lcd_preview_from_halves, write_sdl_from_halves}

-- struct stream_file
pub record StreamFile : Type 0 where
  pub path : Text
  pub is_open : Bool
  pub payload_left : ℕ
  pub solid_byte : ℕ
  pub solid : Bool

-- zeroed, for the file that is to be opened under `path`
abbrev pub unopened : Text → StreamFile
unopened path = record {
  path = path;
  is_open = false;
  payload_left = 0;
  solid_byte = 0;
  solid = false;
}

-- ((EINK_COLOR_WHITE & 0x0f) << 4) | (EINK_COLOR_WHITE & 0x0f)
abbrev pub white_byte : ℕ
white_byte = 0x11

abbrev pub white_stream : StreamFile
white_stream = record (unopened []) {
  payload_left = payload_size;
  solid_byte = white_byte;
  solid = true;
}

abbrev pub row_size : ℕ
row_size = 300

-- `mem_fill_cb`, on the bytes that are left
unfoldable pub mem_fill : Fill (List ℕ)
mem_fill max_len left =
    let n = min max_len (length left) in
    if n == 0 then ((err einval, []), left) else ((val n, take n left), drop n left)

-- `fb_read_row`
abbrev pub fb_read_row : List ℕ → ℕ → Bool → List ℕ
fb_read_row payload y right =
    take row_size (drop ((if right then bytes_per_half else 0) + y * row_size) payload)

-- `ret < 0 && ret != -ENOTSUP`
abbrev pub refuses : Ret → Bool
refuses (val n) = false
refuses (err enotsup) = false
refuses (err _) = true

abbrev pub framebuffer : Desc
framebuffer = record {
  buf_size = payload_size;
  width = panel_width;
  height = panel_height;
  pitch = panel_width;
}

abbrev pub beside : {U P : Type 0} → U → Option (Ret × P) → Option (Ret × (U × P))
beside u none = none
beside u (some (ret, p)) = some (ret, (u, p))

-- the end of both functions that write to the display
abbrev pub unblanked : {U P : Type 0} → U → Option (Ret × P) → Option (Ret × (U × P))
unblanked u none = none
unblanked u (some (ret, p)) = some (if refuses ret then ret else val 0, (u, p))

module _ (P : Type 0) (scr : Screen P) (profile : Profile) (lcd_before : ℕ → ℕ) where
  -- a transfer between the two calls for the blanking
  abbrev pub blanked :
      {U : Type 0} → (P → Option (Ret × (U × P))) → U → Ret × P → Option (Ret × (U × P))
  blanked transfer u (ret, p) =
      if refuses ret
      then some (ret, (u, p))
      else transfer p then (λ (u', q). unblanked u' (scr.blanking_off q))

  abbrev pub payload_row : List ℕ → ℕ → Bool → List ℕ → (Ret × List ℕ) × List ℕ
  payload_row payload y right u = ((val 0, fb_read_row payload y right), u)

  abbrev pub payload_transferred : List ℕ → P → Option (Ret × (List ℕ × P))
  payload_transferred payload p =
      if (scr.capabilities p).is_epd
      then (if profile.el133
          then scr.stream_write (List ℕ) mem_fill payload p
          else beside payload (scr.write framebuffer payload p))
      else if profile.lcd_preview
      then write_lcd_preview_from_halves (List ℕ) (payload_row payload) P scr lcd_before payload p
      else if profile.posix
      then write_sdl_from_halves (List ℕ) (payload_row payload) P scr payload p
      else some (err enotsup, (payload, p))

  unfoldable pub write_payload_to_display : List ℕ → P → Option (Ret × (List ℕ × P))
  write_payload_to_display payload p =
      blanked (λ q. payload_transferred payload q) payload (scr.blanking_on p)

module _ (S : Type 0) (fs : Fs Text S) where
  abbrev pub Stream : Type 0
  Stream = StreamFile × S

  abbrev pub sought : Text → Ret × S → Ret × Stream
  sought path (err e, s) =
      (err e, (record (unopened path) { payload_left = payload_size }, (fs.close path s).1))
  sought path (val n, s) =
      (val 0, (record (unopened path) { payload_left = payload_size; is_open = true }, s))

  abbrev pub opened : Text → Ret × S → Ret × Stream
  opened path (err e, s) = (err e, (record (unopened path) { payload_left = payload_size }, s))
  opened path (val n, s) = sought path (fs.seek path header_size s)

  unfoldable pub stream_open_path : Text → S → Ret × Stream
  stream_open_path path s = opened path (fs.open_read path s)

  unfoldable pub stream_close : Stream → S
  stream_close (f, s) = if f.is_open then (fs.close f.path s).1 else s

  -- what `fs_read` gave, where all of `want` is wanted
  abbrev pub counted : StreamFile → ℕ → (Ret × List ℕ) × S → (Ret × List ℕ) × Stream
  counted f want ((err e, bytes), s) = ((err e, bytes), (f, s))
  counted f want ((val n, bytes), s) =
      if n == want
      then ((val n, bytes), (record f { payload_left = f.payload_left - want }, s))
      else ((err einval, bytes), (f, s))

  -- `stream_fill_cb`
  unfoldable pub stream_fill : Fill Stream
  stream_fill max_len (f, s) =
      let want = min max_len f.payload_left in
      if want == 0
      then ((err einval, []), (f, s))
      else if f.solid
      then (
        (val want, replicate want f.solid_byte),
        (record f { payload_left = f.payload_left - want }, s),
      )
      else counted f want (fs.read f.path want s)

  abbrev pub row_read : StreamFile → (Ret × List ℕ) × S → (Ret × List ℕ) × Stream
  row_read f ((err e, bytes), s) = ((err e, bytes), (f, s))
  row_read f ((val n, bytes), s) =
      if n == row_size then ((val 0, bytes), (f, s)) else ((err einval, bytes), (f, s))

  abbrev pub row_sought : StreamFile → Ret × S → (Ret × List ℕ) × Stream
  row_sought f (err e, s) = ((err e, []), (f, s))
  row_sought f (val n, s) = row_read f (fs.read f.path row_size s)

  unfoldable pub stream_read_row : ℕ → Bool → Stream → (Ret × List ℕ) × Stream
  stream_read_row y right (f, s) =
      if f.solid
      then ((val 0, replicate row_size f.solid_byte), (f, s))
      else row_sought f
          (fs.seek f.path (header_size + (if right then bytes_per_half else 0) + y * row_size) s)

  module _ (P : Type 0) (scr : Screen P) (profile : Profile) (lcd_before : ℕ → ℕ) where
    abbrev pub Painted : Type 0
    Painted = Option (Ret × (Stream × P))

    abbrev pub gathered : (List ℕ → Stream → P → Painted) → P → (Ret × List ℕ) × Stream → Painted
    gathered more p ((err e, bytes), st) = some (err e, (st, p))
    gathered more p ((val n, bytes), st) = more bytes st p

    -- the loop that fills `eink_fb`, and the write of it; a turn takes a byte at least
    unfoldable pub gather : ℕ → List ℕ → Stream → P → Painted
    gather zero so_far st p = beside st (scr.write framebuffer so_far p)
    gather (suc fuel) so_far st p =
        if ltb (length so_far) payload_size
        then gathered (λ bytes st' p'. gather fuel (so_far ++ bytes) st' p') p
            (stream_fill (payload_size - length so_far) st)
        else beside st (scr.write framebuffer so_far p)

    -- the transfer, between the two calls for the blanking
    abbrev pub transferred : Stream → P → Painted
    transferred st p =
        if (scr.capabilities p).is_epd
        then (if profile.el133
            then scr.stream_write Stream stream_fill st p
            else if profile.full_framebuffer
            then gather payload_size [] st p
            else some (err enotsup, (st, p)))
        else if profile.lcd_preview
        then write_lcd_preview_from_halves Stream stream_read_row P scr lcd_before st p
        else if profile.posix
        then write_sdl_from_halves Stream stream_read_row P scr st p
        else some (err enotsup, (st, p))

    unfoldable pub write_stream_to_display : Stream → P → Painted
    write_stream_to_display st p =
        if not (scr.is_ready p)
        then some (err enodev, (st, p))
        else blanked P scr profile lcd_before (λ q. transferred st q) st (scr.blanking_on p)

    abbrev pub Done : Type 0
    Done = Option (Ret × (S × P))

    abbrev pub closed : Painted → Done
    closed none = none
    closed (some (ret, (st, p))) = some (ret, (stream_close st, p))

    abbrev pub streamed : P → Ret × Stream → Painted
    streamed p (err e, st) = some (err e, (st, p))
    streamed p (val n, st) = write_stream_to_display st p

    unfoldable pub paint_clear : S → P → Done
    paint_clear s p = closed (write_stream_to_display (white_stream, s) p)

    abbrev pub paid : S → Option (Ret × (List ℕ × P)) → Done
    paid s none = none
    paid s (some (ret, (left, p))) = some (ret, (s, p))

    -- `eink_store_materialize_es6f` and `eink_store_validate_path`, and what the handler does with
    -- them; the store's parameters
    module _ (D : Type 0) (lz : Lz4 D) (c : Crc) (cfg : Config) (room : Bool) (root : Text) where
      abbrev pub validated : Text → P → Result Header × S → Painted
      validated es6f p (fail e, s) = some (err e, ((unopened es6f, s), p))
      validated es6f p (ok h, s) = streamed p (stream_open_path es6f s)

      abbrev pub materialized : P → Option (Result Text × S) → Painted
      materialized p none = none
      materialized p (some (fail e, s)) = some (err e, ((unopened [], s), p))
      materialized p (some (ok es6f, s)) = validated es6f p (validate_path c Text S fs es6f s)

      unfoldable pub paint_path : Text → S → P → Done
      paint_path path s p =
          closed (materialized p (materialize_es6f S fs D lz cfg room root path 320 s))

      -- what `eink_work_handler` does for a command
      unfoldable pub paint_action : Action → S → P → Done
      unfolding paint_path paint_clear
      paint_action (show_path path) s p = paint_path path s p
      paint_action clear s p = paint_clear s p
      paint_action (show_payload payload) s p =
          paid s (write_payload_to_display P scr profile lcd_before payload p)
