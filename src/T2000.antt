-- ===== src/T2000.antt =====
-- mender-mcu-integration/src/eink/eink_t2000_proto.c: the F1/F2 commands to the T2000 controller,
-- over the two bulk transfers of the USB host, which are the record Usb. The delays between the
-- transfers are left out.
pub mod Cuts
pub mod Wait
mod Tests
use mender_rt1180_zephyr.Prelude.{
  ℕ, zero, suc, ◌+◌, ◌-◌, ◌*◌, ◌%◌, ◌/◌, Bool, true, false, ◌||◌, List, [], ◌∷◌, ◌++◌, take, drop,
  replicate, length, get_or, Option, none, some, ltb, leb, ◌==◌, if◌then◌else◌, Ret, val, err,
  Errno, einval, enodev, etimedout,
}
use mender_rt1180_zephyr.Prelude.Int.{ℤ, pos, ◌-ℤ◌}
use mender_rt1180_zephyr.Bytes.{byte}

pub record Usb (W : Type 0) : Type 0 where
  pub ready : W → Bool
  pub bulk_out : List ℕ → W → Ret × W
  -- the bytes read, of which there are as many as asked for where it returns 0
  pub bulk_in : ℕ → W → (Ret × List ℕ) × W

abbrev pub stripe_bytes : ℕ
stripe_bytes = 16384

pub record Info : Type 0 where
  pub panel_width : ℕ
  pub panel_height : ℕ
  pub tcon_ver : List ℕ
  pub firm_ver : List ℕ
  pub panel_id : ℕ
  pub vcom : ℤ
  pub wf_lut_version : List ℕ

-- `memcpy` of a `uint16_t` and of a `uint32_t`
abbrev mem16 : ℕ → List ℕ
mem16 x = byte 0 x ∷ byte 1 x ∷ []

abbrev mem32 : ℕ → List ℕ
mem32 x = byte 0 x ∷ byte 1 x ∷ byte 2 x ∷ byte 3 x ∷ []

abbrev min_of : ℕ → ℕ → ℕ
min_of m n = if ltb m n then m else n

-- the 21 bytes of an F1 command
unfoldable pub f1_bytes : ℕ → List ℕ → List ℕ
f1_bytes opcode payload =
    take 21 (0xF1 ∷ opcode ∷ (length payload % 256) ∷ 0 ∷ 0 ∷ payload ++ replicate 21 0)

abbrev pub f2_bytes : ℕ → ℕ → List ℕ
f2_bytes opcode size = 0xF2 ∷ opcode ∷ 0 ∷ (size % 256) ∷ (size / 256 % 256) ∷ []

abbrev as_i16 : ℕ → ℤ
as_i16 n = if ltb n 32768 then pos n else pos n -ℤ pos 65536

unfoldable pub decode_info : List ℕ → Info
decode_info bytes = record {
  panel_width = get_or bytes 0 0 * 256 + get_or bytes 1 0;
  panel_height = get_or bytes 2 0 * 256 + get_or bytes 3 0;
  tcon_ver = take 4 (drop 4 bytes);
  firm_ver = take 8 (drop 8 bytes);
  panel_id = get_or bytes 84 0;
  vcom = as_i16 (get_or bytes 80 0 + get_or bytes 81 0 * 256);
  wf_lut_version = take 48 (drop 24 bytes);
}

-- the 30 bytes that announce a piece of the image
unfoldable pub chunk_bytes : ℕ → ℕ → ℕ → ℕ → List ℕ
chunk_bytes chunk_len total w h =
    0xF1 ∷ 0xA1 ∷ 25 ∷ 0 ∷ 0 ∷ 1 ∷ mem16 w
    ++ (mem16 h ++ (mem16 0 ++ (mem16 0 ++ (mem32 chunk_len ++ (mem32 total ++ replicate 8 0)))))

unfoldable pub trigger_bytes : ℕ → ℕ → List ℕ
trigger_bytes w h =
    0xF1 ∷ 0x4D ∷ 0x0A ∷ 0 ∷ 0 ∷ 1 ∷ 0 ∷ mem16 0 ++ (mem16 0 ++ (mem16 w ++ mem16 h))

-- The pieces in which the loop of `eink_t2000_fill` sends what is left, the first included. The
-- fuel is that rest: every piece has a byte at least.
unfoldable pub cuts : ℕ → ℕ → List ℕ
cuts zero rest = []
cuts (suc fuel) rest =
    let n = min_of rest stripe_bytes in
    let more = cuts fuel (rest - n) in if rest == 0 then [] else n ∷ more

module _ (W : Type 0) (u : Usb W) where
  -- `if (ret) return ret;`
  abbrev and_then : Ret × W → (W → Ret × W) → Ret × W
  and_then (val zero, w) next = next w
  and_then (val (suc n), w) next = (val (suc n), w)
  and_then (err e, w) next = (err e, w)

  unfoldable pub cmd_f1 : ℕ → List ℕ → W → Ret × W
  cmd_f1 opcode payload w = u.bulk_out (f1_bytes opcode payload) w

  abbrev replied : ℕ → Ret × W → (Ret × List ℕ) × W
  replied size (val zero, w) = u.bulk_in size w
  replied size (val (suc n), w) = ((val (suc n), []), w)
  replied size (err e, w) = ((err e, []), w)

  -- `out` is the room of the caller
  unfoldable pub cmd_f2_read : ℕ → ℕ → ℕ → W → (Ret × List ℕ) × W
  cmd_f2_read opcode size out w = replied (min_of out size) (u.bulk_out (f2_bytes opcode size) w)

  abbrev asked : ℕ → ℕ → ℕ → Ret × W → (Ret × List ℕ) × W
  asked opcode size out (val zero, w) = cmd_f2_read opcode size out w
  asked opcode size out (val (suc n), w) = ((val (suc n), []), w)
  asked opcode size out (err e, w) = ((err e, []), w)

  -- a command without a payload, and the answer to it
  abbrev query : ℕ → ℕ → ℕ → W → (Ret × List ℕ) × W
  query opcode size out w = asked opcode size out (cmd_f1 opcode [] w)

  abbrev informed : (Ret × List ℕ) × W → (Ret × Option Info) × W
  informed ((val zero, bytes), w) = ((val 0, some (decode_info bytes)), w)
  informed ((val (suc n), bytes), w) = ((val (suc n), none), w)
  informed ((err e, bytes), w) = ((err e, none), w)

  unfoldable pub get_info : W → (Ret × Option Info) × W
  get_info w = if u.ready w then informed (query 0xE0 86 86 w) else ((err enodev, none), w)

  unfoldable pub clear : W → Ret × W
  clear w = if u.ready w then cmd_f1 0x40 (0x01 ∷ 0x00 ∷ []) w else (err enodev, w)

  unfoldable pub set_mode : ℕ → W → Ret × W
  set_mode mode w =
      if u.ready w then cmd_f1 0x43 (mode ∷ mode ∷ mode ∷ 0 ∷ []) w else (err enodev, w)

  abbrev status_of : (Ret × List ℕ) × W → Ret × W
  status_of ((val zero, bytes), w) = (val (get_or bytes 0 0 + get_or bytes 1 0 * 256), w)
  status_of ((val (suc n), bytes), w) = (val (suc n), w)
  status_of ((err e, bytes), w) = (err e, w)

  unfoldable pub get_status : W → Ret × W
  get_status w = if u.ready w then status_of (query 0x4F 2 20 w) else (err enodev, w)

  unfoldable pub multi_trigger_enable : ℕ → W → Ret × W
  multi_trigger_enable enable w = cmd_f1 0x4C (enable ∷ 0x00 ∷ []) w

  unfoldable pub multi_trigger : ℕ → ℕ → W → Ret × W
  multi_trigger width height w = u.bulk_out (trigger_bytes width height) w

  unfoldable pub display_chunk : ℕ → ℕ → ℕ → ℕ → ℕ → W → Ret × W
  display_chunk y8 chunk_len total width height w =
      and_then (u.bulk_out (chunk_bytes chunk_len total width height) w)
        (λ w'. u.bulk_out (replicate chunk_len y8) w')

  unfoldable pub send_cuts : ℕ → ℕ → ℕ → ℕ → List ℕ → W → Ret × W
  send_cuts y8 total width height [] w = (val 0, w)
  send_cuts y8 total width height (n ∷ rest) w =
      and_then (display_chunk y8 n total width height w)
        (λ w'. send_cuts y8 total width height rest w')

  -- the commands from the mode to the trigger
  abbrev pub send_frame : ℕ → ℕ → ℕ → ℕ → W → Ret × W
  send_frame y8 mode width height w =
      let total = width * height in
      and_then (multi_trigger_enable 1 w) (λ w1. and_then (set_mode mode w1) (λ w2.
        and_then (send_cuts y8 total width height (cuts total total) w2)
          (λ w3. multi_trigger width height w3)))

  abbrev fill_info : ℕ → ℕ → (Ret × Option Info) × W → Ret × W
  fill_info y8 mode ((val n, none), w) = (val n, w)
  fill_info y8 mode ((err e, i), w) = (err e, w)
  fill_info y8 mode ((val n, some i), w) =
      if (i.panel_width == 0) || (i.panel_height == 0)
      then (err einval, w)
      else send_frame y8 mode i.panel_width i.panel_height w

  -- `eink_t2000_fill` up to its last line, the wait for the controller
  unfoldable pub fill : ℕ → ℕ → W → Ret × W
  fill y8 mode w = if u.ready w then fill_info y8 mode (get_info w) else (err enodev, w)
