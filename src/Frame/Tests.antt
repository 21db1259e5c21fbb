-- ===== src/Frame/Tests.antt =====
-- Runs of the frame functions, and the theorems about them at concrete inputs.
use mender_rt1180_zephyr.Prelude.{
  ℕ, ◌+◌, ◌*◌, ◌%◌, ◌^◌, ◌<◌, ◌≤◌, ◌≡◌, refl, true, List, [], ◌∷◌, ◌++◌, some, none, arith, length,
  get_or, zero, suc, ap, flatten, replicate, length-append, length-replicate, drop, take, efbig,
}
use mender_rt1180_zephyr.Bytes.{le16, le32}
use mender_rt1180_zephyr.Crc.{Crc}
use mender_rt1180_zephyr.Frame.{
  ok, fail, View, build, validate, header_bytes, header_parse, fill_solid, payload_size, file_size,
  decode, check_header, header_size, frame_magic, frame_version, panel_width, panel_height,
  pixel_format_l4_s6,
}
use mender_rt1180_zephyr.Frame.Build.{built_header, build-validate, validate_sound}
use mender_rt1180_zephyr.Frame.Fill.{length-fill_solid}
use mender_rt1180_zephyr.Frame.Stream.{got, validate_stream}
use mender_rt1180_zephyr.Frame.Streaming.{
  NonEmpty, Bounded, answers, drop_payload, validate_stream-eq-validate, validate_stream_too_big,
}

-- A checksum that depends on the order of the bytes, to stand in for Zephyr's.
toy_update : ℕ → List ℕ → ℕ
toy_update c [] = c
toy_update c (b ∷ bs) = toy_update ((c * 31 + b) % 2 ^ 32) bs

toy_update-update :
    (c : ℕ) (xs ys : List ℕ) → toy_update (toy_update c xs) ys ≡ toy_update c (xs ++ ys)
unfolding toy_update
toy_update-update c [] ys = refl
toy_update-update c (x ∷ xs) ys = toy_update-update ((c * 31 + x) % 2 ^ 32) xs ys

toy_update_lt : (c : ℕ) (xs : List ℕ) → c < 2 ^ 32 → toy_update c xs < 2 ^ 32
unfolding toy_update
toy_update_lt c [] h = h
toy_update_lt c (x ∷ xs) h = toy_update_lt ((c * 31 + x) % 2 ^ 32) xs (omega arith)

toy_crc : Crc
unfolding toy_update
toy_crc = record {
  ieee = toy_update 0;
  update = toy_update;
  ieee_lem = λ xs. refl;
  update-nil = λ c. refl;
  update-update = toy_update-update;
  update_lt = toy_update_lt;
}

white : List ℕ
white = fill_solid 1

length-white : length white ≡ payload_size
unfolding white
length-white = length-fill_solid 1

build-validate_example :
    (frame : List ℕ) × (build toy_crc true file_size (some white) 2 ≡ ok frame)
    × (length frame ≡ file_size)
    × (validate toy_crc (some frame) true
        ≡ ok (record { view_hdr = built_header 2 (toy_crc.ieee white); payload = white }))
build-validate_example = build-validate toy_crc white file_size 2 length-white (omega arith)

abbrev white_frame : List ℕ
white_frame = build-validate_example.0

abbrev white_view : View
white_view = record { view_hdr = built_header 2 (toy_crc.ieee white); payload = white }

validate_sound_example :
    (le32 white_frame 0 ≡ frame_magic)
    × (le16 white_frame 4 ≡ frame_version)
    × (le16 white_frame 6 ≡ panel_width)
    × (le16 white_frame 8 ≡ panel_height)
    × (get_or white_frame 10 0 ≡ pixel_format_l4_s6)
    × (file_size ≤ length white_frame)
    × (white ≡ take payload_size (drop header_size white_frame))
    × (toy_crc.ieee white ≡ le32 white_frame 18)
validate_sound_example =
    validate_sound toy_crc white_frame {v = white_view} build-validate_example.3

abbrev hdr_raw : List ℕ
hdr_raw = header_bytes 0 77

length-hdr_raw : length hdr_raw ≡ header_size
unfolding header_bytes
length-hdr_raw = refl

white_pieces : length (flatten (white ∷ [])) ≤ payload_size
white_pieces = omega (arith, length-append white [], length-white)

validate_stream-eq-validate_example :
    validate_stream toy_crc (some (got hdr_raw ∷ answers (white ∷ []))) none
    ≡ drop_payload (validate toy_crc (some (hdr_raw ++ flatten (white ∷ []))) true)
validate_stream-eq-validate_example =
    validate_stream-eq-validate toy_crc hdr_raw (white ∷ []) length-hdr_raw
      ((λ e. absurd (omega (arith, ap length e, length-white))), tt) white_pieces

-- 235 pieces of 4096 bytes are more than a payload.
abbrev piece : List ℕ
piece = replicate 4096 0x11

long_piece : length piece ≡ 4096
long_piece = length-replicate 4096 0x11

pieces : ℕ → List (List ℕ)
pieces zero = []
pieces (suc n) = piece ∷ pieces n

NonEmpty-pieces : (n : ℕ) → NonEmpty (pieces n)
unfolding pieces
NonEmpty-pieces zero = tt
NonEmpty-pieces (suc n) =
    ((λ e. absurd (omega (arith, ap length e, long_piece))), NonEmpty-pieces n)

Bounded-pieces : (n : ℕ) → Bounded (pieces n)
unfolding pieces
Bounded-pieces zero = tt
Bounded-pieces (suc n) = (omega (arith, long_piece), Bounded-pieces n)

length-pieces : (n : ℕ) → length (flatten (pieces n)) ≡ n * 4096
unfolding pieces
length-pieces zero = refl
length-pieces (suc n) =
    omega (arith, length-append piece (flatten (pieces n)), long_piece, length-pieces n)

validate_stream_too_big_example :
    validate_stream toy_crc (some (got hdr_raw ∷ answers (pieces 235))) none ≡ fail efbig
unfolding header_bytes header_parse decode check_header
validate_stream_too_big_example =
    validate_stream_too_big toy_crc hdr_raw (pieces 235) {h = built_header 0 77} length-hdr_raw refl
      (NonEmpty-pieces 235) (Bounded-pieces 235) (omega (arith, length-pieces 235))
