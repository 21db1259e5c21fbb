-- ===== src/Frame/Palette.antt =====
-- eink_frame.c: the colours of a nibble for the two previews.
use mender_rt1180_zephyr.Prelude.{ℕ, ◌+◌, ◌*◌, ◌/◌, ◌%◌, ◌^◌, ◌≡◌, ◌==◌, if◌then◌else◌, arith}

unfoldable pub nibble_to_argb : ℕ → ℕ
nibble_to_argb nibble =
    let n = nibble % 16 in
    if n == 0
    then 0xFF000000
    else if n == 1
    then 0xFFFFFFFF
    else if n == 2
    then 0xFFFFFF00
    else if n == 3
    then 0xFFFF0000
    else if n == 5
    then 0xFF0000FF
    else if n == 6
    then 0xFF00FF00
    else 0xFF808080

-- `(argb >> 16) & 0xff` and so on; the three fields of the result do not overlap, so `|` adds them.
unfoldable pub nibble_to_rgb565 : ℕ → ℕ
nibble_to_rgb565 nibble =
    let argb = nibble_to_argb nibble in
    let r = argb / 2 ^ 16 % 256 in
    let g = argb / 2 ^ 8 % 256 in let b = argb % 256 in r / 8 * 2 ^ 11 + g / 4 * 2 ^ 5 + b / 8

-- Two nibbles that the RGB565 preview shows alike are alike in the ARGB one too.
pub nibble_to_rgb565_faithful :
    (m n : ℕ) → nibble_to_rgb565 m ≡ nibble_to_rgb565 n → nibble_to_argb m ≡ nibble_to_argb n
unfolding nibble_to_rgb565 nibble_to_argb
nibble_to_rgb565_faithful m n h = ground arith
