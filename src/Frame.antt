-- ===== src/Frame.antt =====
-- mender-mcu-integration/src/eink/eink_frame.c and eink_frame.h: the packed Spectra-6 frame ES6F.
-- A buffer with its length is the list of its bytes (`none` for a null pointer), and a flag says
-- whether an `out` pointer is given. `size_t` has 32 bits, as on the target.
pub mod Stream
pub mod Build
pub mod Palette
pub mod Fill
pub mod Streaming
mod Tests
use mender_rt1180_zephyr.Prelude.{
  ℕ, ◌+◌, ◌*◌, ◌%◌, ◌^◌, Bool, true, false, not, ◌||◌, List, [], ◌∷◌, ◌++◌, Option, none, some, ltb,
  ◌==◌, if◌then◌else◌, length, get_or, take, drop, replicate, Errno, einval, enotsup, efbig, eilseq,
  enomem,
}
pub use mender_rt1180_zephyr.Prelude.{Result, ok, fail, ◌>>=◌}
use mender_rt1180_zephyr.Bytes.{le16, le32, byte}
use mender_rt1180_zephyr.Crc.{Crc}

abbrev pub frame_magic : ℕ
frame_magic = 0x46365345

abbrev pub frame_version : ℕ
frame_version = 1

abbrev pub panel_width : ℕ
panel_width = 1200

abbrev pub panel_height : ℕ
panel_height = 1600

abbrev pub bytes_per_half : ℕ
bytes_per_half = 480000

abbrev pub payload_size : ℕ
payload_size = 960000

abbrev pub header_size : ℕ
header_size = 32

abbrev pub file_size : ℕ
file_size = 960032

abbrev pub pixel_format_l4_s6 : ℕ
pixel_format_l4_s6 = 1

abbrev pub stream_chunk_size : ℕ
stream_chunk_size = 4096

pub record Header : Type 0 where
  pub magic : ℕ
  pub version : ℕ
  pub width : ℕ
  pub height : ℕ
  pub pixel_format : ℕ
  pub orientation : ℕ
  pub flags : ℕ
  pub payload_len : ℕ
  pub crc32 : ℕ

-- the fields of the packed struct at their offsets
unfoldable pub decode : List ℕ → Header
decode buf = record {
  magic = le32 buf 0;
  version = le16 buf 4;
  width = le16 buf 6;
  height = le16 buf 8;
  pixel_format = get_or buf 10 0;
  orientation = get_or buf 11 0;
  flags = le16 buf 12;
  payload_len = le32 buf 14;
  crc32 = le32 buf 18;
}

-- the checks on the decoded fields, in the order of the code
unfoldable pub check_header : Header → Result Header
check_header h =
    if not (h.magic == frame_magic)
    then fail einval
    else if not (h.version == frame_version)
    then fail enotsup
    else if not (h.width == panel_width) || not (h.height == panel_height)
    then fail einval
    else if not (h.pixel_format == pixel_format_l4_s6)
    then fail enotsup
    else if not (h.payload_len == payload_size)
    then fail einval
    else ok h

unfoldable pub header_parse : Option (List ℕ) → Bool → Result Header
unfolding check_header
header_parse none out_given = fail einval
header_parse (some buf) false = fail einval
header_parse (some buf) true =
    if ltb (length buf) header_size then fail einval else check_header (decode buf)

-- `struct eink_frame_stream_ctx`
pub record StreamCtx : Type 0 where
  pub hdr : Header
  pub crc : ℕ
  pub payload_seen : ℕ
  pub header_ok : Bool

unfoldable pub stream_begin : Header → StreamCtx
stream_begin h = record { hdr = h; crc = 0; payload_seen = 0; header_ok = true }

-- `struct eink_frame_view`
pub record View : Type 0 where
  pub view_hdr : Header
  pub payload : List ℕ

-- the header that `eink_frame_build` copies to the front of its buffer
unfoldable pub header_bytes : ℕ → ℕ → List ℕ
header_bytes orientation crc =
    byte 0 frame_magic
    ∷ byte 1 frame_magic
    ∷ byte 2 frame_magic
    ∷ byte 3 frame_magic
    ∷ byte 0 frame_version
    ∷ byte 1 frame_version
    ∷ byte 0 panel_width
    ∷ byte 1 panel_width
    ∷ byte 0 panel_height
    ∷ byte 1 panel_height
    ∷ pixel_format_l4_s6
    ∷ orientation
    ∷ 0
    ∷ 0
    ∷ byte 0 payload_size
    ∷ byte 1 payload_size
    ∷ byte 2 payload_size
    ∷ byte 3 payload_size
    ∷ byte 0 crc
    ∷ byte 1 crc
    ∷ byte 2 crc
    ∷ byte 3 crc
    ∷ 0
    ∷ 0
    ∷ 0
    ∷ 0
    ∷ 0
    ∷ 0
    ∷ 0
    ∷ 0
    ∷ 0
    ∷ 0
    ∷ []

module _ (c : Crc) where
  -- The context is left alone by a chunk that is refused.
  unfoldable pub stream_update : StreamCtx → List ℕ → Result StreamCtx
  stream_update ctx chunk =
      if not ctx.header_ok
      then fail einval
      else if ltb ctx.hdr.payload_len ((ctx.payload_seen + length chunk) % 2 ^ 32)
      then fail efbig
      else if length chunk == 0
      then ok ctx
      else ok (record ctx {
        crc = c.update ctx.crc chunk;
        payload_seen = (ctx.payload_seen + length chunk) % 2 ^ 32;
      })

  unfoldable pub stream_finish : StreamCtx → Result Header
  stream_finish ctx =
      if not ctx.header_ok
      then fail einval
      else if not (ctx.payload_seen == ctx.hdr.payload_len)
      then fail einval
      else if not (ctx.crc == ctx.hdr.crc32)
      then fail eilseq
      else ok ctx.hdr

  unfoldable pub validate : Option (List ℕ) → Bool → Result View
  validate none out_given = fail einval
  validate (some buf) false = fail einval
  validate (some buf) true = do
    h ← header_parse (some buf) true
    if ltb (length buf) (header_size + h.payload_len)
        then fail einval
        else if not (c.ieee (take h.payload_len (drop header_size buf)) == h.crc32)
        then fail eilseq
        else ok (record { view_hdr = h; payload = take h.payload_len (drop header_size buf) })

  -- What `out` holds after a successful call; its length is the value returned. `payload` is a
  -- buffer of at least `payload_size` bytes.
  unfoldable pub build : Bool → ℕ → Option (List ℕ) → ℕ → Result (List ℕ)
  build false out_cap payload orientation = fail einval
  build true out_cap none orientation = fail einval
  build true out_cap (some payload) orientation =
      if ltb out_cap (header_size + payload_size)
      then fail enomem
      else ok (
          header_bytes orientation (c.ieee (take payload_size payload))
          ++ take payload_size payload)

-- `(uint8_t)(((c & 0x0f) << 4) | (c & 0x0f))`: the two nibbles do not overlap, so `|` adds them.
unfoldable pub solid_byte : ℕ → ℕ
solid_byte color = color % 16 * 16 + color % 16

-- The bytes that `memset` writes; a null chunk or one of no length is left as it is.
unfoldable pub fill_solid_chunk : ℕ → ℕ → List ℕ
fill_solid_chunk chunk_len color = replicate chunk_len (solid_byte color)

unfoldable pub fill_solid : ℕ → List ℕ
fill_solid color = fill_solid_chunk payload_size color

unfoldable pub fill_lr : ℕ → ℕ → List ℕ
fill_lr left right =
    replicate bytes_per_half (solid_byte left) ++ replicate bytes_per_half (solid_byte right)
