-- ===== src/Frame/Build.antt =====
-- eink_frame.c: what `eink_frame_build` writes passes `eink_frame_validate`, and what validation
-- accepts.
use mender_rt1180_zephyr.Prelude.{
  ℕ, ◌+◌, ◌≤◌, ◌<◌, ◌^◌, ◌≡◌, refl, ap, ◌∙◌, true, List, ◌++◌, some, arith, length, get_or, take,
  drop, take_all, drop-append_exact, length-append,
}
use mender_rt1180_zephyr.Bytes.{bytes32, le16, le32}
use mender_rt1180_zephyr.Crc.{Crc}
use mender_rt1180_zephyr.Frame.{
  Header, Result, ok, fail, View, Header, decode, check_header, header_parse, header_bytes, build,
  validate, frame_magic, frame_version, panel_width, panel_height, pixel_format_l4_s6, payload_size,
  header_size, file_size,
}

abbrev pub built_header : ℕ → ℕ → Header
built_header orientation crc = record {
  magic = frame_magic;
  version = frame_version;
  width = panel_width;
  height = panel_height;
  pixel_format = pixel_format_l4_s6;
  orientation = orientation;
  flags = 0;
  payload_len = payload_size;
  crc32 = crc;
}

length-header_bytes : (o crc : ℕ) → length (header_bytes o crc) ≡ header_size
unfolding header_bytes
length-header_bytes o crc = refl

decode-header_bytes :
    (o crc : ℕ) (rest : List ℕ)
    → crc < 2 ^ 32
    → decode (header_bytes o crc ++ rest) ≡ built_header o crc
unfolding decode header_bytes
decode-header_bytes o crc rest h = ap (built_header o) (bytes32 crc h)

check-built_header : (o crc : ℕ) → check_header (built_header o crc) ≡ ok (built_header o crc)
unfolding check_header
check-built_header o crc = refl

-- What `check_header` lets through.
pub check_header_sound :
    (h : Header) {k : Header}
    → check_header h ≡ ok k
    → (k ≡ h)
      × (h.magic ≡ frame_magic)
      × (h.version ≡ frame_version)
      × (h.width ≡ panel_width)
      × (h.height ≡ panel_height)
      × (h.pixel_format ≡ pixel_format_l4_s6)
      × (h.payload_len ≡ payload_size)
unfolding check_header
check_header_sound h p = ground arith

pub parse_checks :
    (buf : List ℕ) {k : Header}
    → header_parse (some buf) true ≡ ok k
    → check_header (decode buf) ≡ ok k
unfolding header_parse
parse_checks buf h = ground arith

-- The header written by `build` parses to the fields it was made of.
pub parse-header_bytes :
    (o crc : ℕ) (rest : List ℕ)
    → crc < 2 ^ 32
    → header_parse (some (header_bytes o crc ++ rest)) true ≡ ok (built_header o crc)
unfolding header_parse
parse-header_bytes o crc rest h =
    rw (decode-header_bytes o crc rest h, check-built_header o crc)
      (ground (arith, length-append (header_bytes o crc) rest, length-header_bytes o crc))

module _ (c : Crc) where
  ieee_lt : (xs : List ℕ) → c.ieee xs < 2 ^ 32
  ieee_lt xs = rw (c.ieee_lem xs) (c.update_lt 0 xs (omega arith))

  -- A payload of the panel's size, built into a buffer with room for the frame, gives a frame that
  -- `validate` accepts, with that payload, the given orientation and the payload's checksum.
  pub build-validate :
      (payload : List ℕ) (out_cap orientation : ℕ)
      → length payload ≡ payload_size
      → file_size ≤ out_cap
      → (frame : List ℕ) × (build c true out_cap (some payload) orientation ≡ ok frame)
        × (length frame ≡ file_size)
        × (validate c (some frame) true
            ≡ ok (record {
              view_hdr = built_header orientation (c.ieee payload);
              payload = payload;
            }))
  unfolding build validate
  build-validate payload out_cap o hp hc =
      (header_bytes o (c.ieee payload) ++ payload, built, long, accepted)
    where
      built :
          build c true out_cap (some payload) o ≡ ok (header_bytes o (c.ieee payload) ++ payload)
      built = rw (take_all payload_size payload hp) (ground arith)

      long : length (header_bytes o (c.ieee payload) ++ payload) ≡ file_size
      long = omega (
        arith,
        length-append (header_bytes o (c.ieee payload)) payload,
        length-header_bytes o (c.ieee payload),
      )

      rest : drop header_size (header_bytes o (c.ieee payload) ++ payload) ≡ payload
      rest =
          drop-append_exact header_size (header_bytes o (c.ieee payload)) payload
            (length-header_bytes o (c.ieee payload))

      accepted :
          validate c (some (header_bytes o (c.ieee payload) ++ payload)) true
          ≡ ok (record { view_hdr = built_header o (c.ieee payload); payload = payload })
      accepted =
          rw
            (
              parse-header_bytes o (c.ieee payload) payload (ieee_lt payload),
              rest,
              take_all payload_size payload hp,
            )
            (ground (arith, long))

  validate_view :
      (buf : List ℕ) (r : Result Header) {v : View}
      → header_parse (some buf) true ≡ r
      → validate c (some buf) true ≡ ok v
      → (header_size + v.view_hdr.payload_len ≤ length buf)
        × (r ≡ ok v.view_hdr)
        × (v.payload ≡ take v.view_hdr.payload_len (drop header_size buf))
        × (c.ieee v.payload ≡ v.view_hdr.crc32)
  unfolding validate
  validate_view buf (fail e) p h = absurd (cc (p))
  validate_view buf (ok k) p h = ground arith

  -- Whatever `validate` accepts has the magic, version, geometry and pixel format of ES6F v1, is at
  -- least a whole file long, and carries the checksum of the payload handed out.
  pub validate_sound :
      (buf : List ℕ) {v : View}
      → validate c (some buf) true ≡ ok v
      → (le32 buf 0 ≡ frame_magic)
        × (le16 buf 4 ≡ frame_version)
        × (le16 buf 6 ≡ panel_width)
        × (le16 buf 8 ≡ panel_height)
        × (get_or buf 10 0 ≡ pixel_format_l4_s6)
        × (file_size ≤ length buf)
        × (v.payload ≡ take payload_size (drop header_size buf))
        × (c.ieee v.payload ≡ le32 buf 18)
  unfolding decode
  validate_sound buf {v} h =
      let seen = validate_view buf (header_parse (some buf) true) refl h in
      let checked = check_header_sound (decode buf) (parse_checks buf seen.1) in
      let size : v.view_hdr.payload_len ≡ payload_size =
        ap (λ k. k.payload_len) checked.0 ∙ checked.6 in
      (
        checked.1,
        checked.2,
        checked.3,
        checked.4,
        checked.5,
        omega (arith, seen.0, size),
        seen.2 ∙ ap (λ n. take n (drop header_size buf)) size,
        seen.3 ∙ ap (λ k. k.crc32) checked.0,
      )
